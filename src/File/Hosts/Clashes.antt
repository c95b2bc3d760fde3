-- ===== src/File/Hosts/Clashes.antt =====
-- `NewHost` stores no host that clashes with another.
use nat_punch.Base.{
  ℕ, ◌≡◌, ◌≢◌, ◌⊎◌, inl, inr, refl, ap, ◌∙◌, arith, Bool, true, false, not, ◌&&◌, ◌||◌, ◌==◌, List,
  [], ◌∷◌, Option, none, some, Bool-cases, if◌then◌else◌,
}
use nat_punch.Base.Maps.{Map, Each, Among, store}
use nat_punch.File.Clients.{same}
use nat_punch.File.Clients.Keys.{same_refl}
use nat_punch.Common.Arrays.{same-≡}
use nat_punch.File.Hosts.{Host, all, slash, is_host_exist, new_host}

-- A host does not clash with itself.
exist-store :
    (h h' : Host) (m : Map Host)
    → h'.id ≡ h.id
    → is_host_exist h m ≡ false
    → is_host_exist h (store h.id h' m) ≡ false
unfolding is_host_exist
exist-store h h' [] e p = ground (arith, e)
exist-store h h' ((key, v) ∷ m) e p = ground (arith, e, p, exist-store h h' m e)

-- Another host with the name and location of `h` that serves all schemes, or that of `h`.
abbrev pub Clash : Host → Host → Type 0
Clash h v =
    (v.id ≢ h.id)
    × (v.host ≡ h.host)
    × (h.location ≡ v.location)
    × ((v.scheme ≡ all) ⊎ (v.scheme ≡ h.scheme))

-- The test that `is_host_exist` makes of one host.
abbrev clashes : Host → Host → Bool
clashes h v =
    not (v.id == h.id)
    && same v.host h.host
    && same h.location v.location
    && (same v.scheme all || same v.scheme h.scheme)

either : {a b c d : List ℕ} → same a b || same c d ≡ true → (a ≡ b) ⊎ (c ≡ d)
either {a} {b} {c} {d} h = elim (Bool-cases (same a b)) [
  | inl e ↦ inl (same-≡ a b e)
  | inr e ↦ inr (same-≡ c d (ground (arith, h, e)))
]

clashes-Clash : (h v : Host) → clashes h v ≡ true → Clash h v
clashes-Clash h v t = (
  (λ e. ground (arith, t, e)),
  same-≡ v.host h.host (ground (arith, t)),
  same-≡ h.location v.location (ground (arith, t)),
  either (ground (arith, t)),
)

Clash-clashes : (h v : Host) → Clash h v → clashes h v ≡ true
Clash-clashes h v (n, p, q, s) =
    let other : (v.id == h.id) ≡ false = ground (arith, n) in
    let name : same v.host h.host ≡ true = ap (λ t. same t h.host) p ∙ same_refl h.host in
    let place : same h.location v.location ≡ true =
      ap (λ t. same t v.location) q ∙ same_refl v.location in
    elim s [
      | inl e ↦
          let scheme : same v.scheme all ≡ true = ap (λ t. same t all) e ∙ same_refl all in
          ground (arith, other, name, place, scheme)
      | inr e ↦
          let scheme : same v.scheme h.scheme ≡ true =
            ap (λ t. same t h.scheme) e ∙ same_refl h.scheme in
          ground (arith, other, name, place, scheme)
    ]

exist-Among :
    (h : Host) (m : Map Host) → is_host_exist h m ≡ true → (v : Host) × Among v m × Clash h v
unfolding is_host_exist
exist-Among h [] e = absurd cc
exist-Among h ((key, v) ∷ m) e = elim (Bool-cases (clashes h v)) [
  | inl t ↦ (v, inl refl, clashes-Clash h v t)
  | inr f ↦ let (u, among, clash) = exist-Among h m (ground (arith, e, f)) in (u, inr among, clash)
]

exist-Each : (h : Host) (m : Map Host) → is_host_exist h m ≡ false → Each (λ key v. ¬ Clash h v) m
unfolding is_host_exist
exist-Each h [] e = tt
exist-Each h ((key, v) ∷ m) e = elim (Bool-cases (clashes h v)) [
  | inl t ↦ absurd (ground (arith, e, t))
  | inr f ↦ ((λ c. let t = Clash-clashes h v c in absurd cc), exist-Each h m (ground (arith, e, f)))
]

-- The host with the location that an empty one stands for.
abbrev pub located : Host → Host
located t = record t { location = if same t.location [] then slash else t.location }

-- What is in the map after `NewHost` with the host `t`.
abbrev pub Admitted : Host → Map Host → Option (Map Host) → Type 0
Admitted t m none = (v : Host) × Among v m × Clash (located t) v
Admitted t m (some m') =
    (m' ≡ store t.id (record (located t) { has_flow = true }) m)
    × Each (λ key v. ¬ Clash (located t) v) m'

decided-Admitted :
    (t : Host) (m : Map Host) (b : Bool)
    → is_host_exist (located t) m ≡ b
    → Admitted t m
        (if b then none else some (store t.id (record (located t) { has_flow = true }) m))
decided-Admitted t m true e = exist-Among (located t) m e
decided-Admitted t m false e =
    let h = record (located t) { has_flow = true } in
    (refl, exist-Each (located t) (store t.id h m) (exist-store (located t) h m refl e))

-- `NewHost` turns a host away only when it clashes with a host of the map: one with another
-- identity, the same name and location, and the same scheme or that for all. Otherwise the map is
-- the one before with that host stored under its identity, an empty location replaced by the slash
-- and with flow counters, and it clashes with no host of that map.
pub new_host-Admitted : (t : Host) (m : Map Host) → Admitted t m (new_host t m)
unfolding new_host
new_host-Admitted t m = decided-Admitted t m (is_host_exist (located t) m) refl
