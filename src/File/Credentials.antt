-- ===== src/File/Credentials.antt =====
-- How `DbUtils` of lib/file/db.go finds a client by what it presents. The digest of a key is an
-- argument (it is MD5), and the comparison in constant time is `same`.
use nat_punch.Base.{
  ℕ, ◌≡◌, refl, Bool, true, false, ◌&&◌, ◌||◌, ltb, leb, length, ◌==◌, List, [], ◌∷◌, Option, none,
  some, if◌then◌else◌, ◌⊎◌, inl, inr, Bool-cases, arith,
}
use nat_punch.Base.Maps.{Map, Each, Each-map, Among, lookup, store}
use nat_punch.File.Clients.{Client, same}
use nat_punch.File.Hosts.{get_ip_by_addr}

-- The first client that a range stops at.
unfoldable pub find : (Client → Bool) → Map Client → Option Client
find test [] = none
find test ((key, v) ∷ m) = let rest = find test m in if test v then some v else rest

abbrev pub id_of : Option Client → Option ℕ
id_of none = none
id_of (some c) = some c.id

module _ (digest : List ℕ → List ℕ) where
  unfoldable pub presents : List ℕ → Client → Bool
  presents vkey v = same (digest v.verify_key) vkey

  unfoldable pub get_client_id_by_vkey : List ℕ → Map Client → Option ℕ
  get_client_id_by_vkey vkey m = id_of (find (presents vkey) m)

  unfoldable pub get_client_by_vkey : List ℕ → Map Client → Option Client
  get_client_by_vkey vkey m = find (presents vkey) m

  unfoldable pub connects : List ℕ → Client → Bool
  connects vkey v = presents vkey v && v.status

  -- The address of the client that is found is set, in place.
  abbrev pub addressed : List ℕ → Map Client → Option Client → Map Client × Option ℕ
  addressed addr m none = (m, none)
  addressed addr m (some v) = (store v.id (record v { addr = get_ip_by_addr addr }) m, some v.id)

  unfoldable pub get_id_by_verify_key : List ℕ → List ℕ → Map Client → Map Client × Option ℕ
  get_id_by_verify_key vkey addr m = addressed addr m (find (connects vkey) m)

-- A letter, a digit, or one of `.`, `_` and `-`.
abbrev pub key_byte : ℕ → Bool
key_byte c =
    leb b'a' c && leb c b'z'
    || leb b'A' c && leb c b'Z'
    || leb b'0' c && leb c b'9'
    || c == b'.'
    || c == b'_'
    || c == b'-'

unfoldable pub key_bytes : List ℕ → Bool
key_bytes [] = true
key_bytes (c ∷ k) = let rest = key_bytes k in key_byte c && rest

unfoldable pub valid_verify_key : List ℕ → Bool
valid_verify_key k = if ltb (length k) 8 || ltb 64 (length k) then false else key_bytes k

unfoldable pub get_client : ℕ → Map Client → Option Client
get_client id m = lookup id m

abbrev pub hidden : Option Client → Bool
hidden none = false
hidden (some c) = c.no_display

unfoldable pub is_pub_client : ℕ → Map Client → Bool
is_pub_client id m = hidden (get_client id m)

abbrev Stopped : (Client → Bool) → Map Client → Option Client → Type 0
Stopped test m none = Each (λ key c. test c ≡ false) m
Stopped test m (some c) = Among c m × (test c ≡ true)

find-Stopped : (test : Client → Bool) (m : Map Client) → Stopped test m (find test m)
unfolding find
find-Stopped test [] = tt
find-Stopped test ((key, v) ∷ m) = decided (test v) refl (find test m) (find-Stopped test m)
  where
    decided :
        (b : Bool)
        → test v ≡ b
        → (r : Option Client) → Stopped test m r
        → Stopped test ((key, v) ∷ m) (if b then some v else r)
    decided true e r s = (inl refl, e)
    decided false e none s = (e, s)
    decided false e (some c) (among, s) = (inr among, s)

module _ (digest : List ℕ → List ℕ) where
  -- An enabled client whose key has the digest `vkey`, and one that is none.
  abbrev pub Enabled : List ℕ → Client → Type 0
  Enabled vkey c = (same (digest c.verify_key) vkey ≡ true) × (c.status ≡ true)

  abbrev pub Stranger : List ℕ → Client → Type 0
  Stranger vkey c = (same (digest c.verify_key) vkey ≡ false) ⊎ (c.status ≡ false)

  connects-Enabled : (vkey : List ℕ) (c : Client) → connects digest vkey c ≡ true → Enabled vkey c
  unfolding connects presents
  connects-Enabled vkey c h = (ground (arith, h), ground (arith, h))

  connects-Stranger :
      (vkey : List ℕ) (c : Client) → connects digest vkey c ≡ false → Stranger vkey c
  unfolding connects presents
  connects-Stranger vkey c h = elim (Bool-cases c.status) [
    | inl e ↦ inl (ground (arith, h, e))
    | inr e ↦ inr e
  ]

  -- What presenting `vkey` from the address `addr` comes to.
  abbrev pub Identified : List ℕ → List ℕ → Map Client → Map Client × Option ℕ → Type 0
  Identified vkey addr m (m', none) = (m' ≡ m) × Each (λ key c. Stranger vkey c) m
  Identified vkey addr m (m', some i) =
      (c : Client) × Among c m
      × Enabled vkey c
      × (c.id ≡ i)
      × (m' ≡ store i (record c { addr = get_ip_by_addr addr }) m)

  addressed-Identified :
      (vkey addr : List ℕ) (m : Map Client) (r : Option Client)
      → Stopped (connects digest vkey) m r
      → Identified vkey addr m (addressed digest addr m r)
  addressed-Identified vkey addr m none s =
      (refl, Each-map _ (λ key c. Stranger vkey c) m (λ key c. connects-Stranger vkey c) s)
  addressed-Identified vkey addr m (some v) (among, s) =
      (v, among, connects-Enabled vkey v s, refl, refl)

  -- `GetIdByVerifyKey` gives the identity of a client of the map that is enabled and whose key has
  -- the digest presented, and the map is the one before with that client stored under its identity,
  -- changed in its address only; it finds nothing, and changes nothing, only when no client of the
  -- map is such.
  pub get_id_by_verify_key-Identified :
      (vkey addr : List ℕ) (m : Map Client)
      → Identified vkey addr m (get_id_by_verify_key digest vkey addr m)
  unfolding get_id_by_verify_key
  get_id_by_verify_key-Identified vkey addr m =
      addressed-Identified vkey addr m _ (find-Stopped (connects digest vkey) m)
