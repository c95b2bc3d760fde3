-- ===== src/Bridge/Handshake.antt =====
-- How a client and the bridge get to know each other: `cliProcess` of bridge/bridge.go and the part
-- of `NewConn` of client/control.go behind the dial. The digest (MD5) and the version of the
-- protocol that the server has are arguments; `stream` is all that the other side sends.
use nat_punch.Base.{
  ℕ, ◌≡◌, refl, sym, ap, ◌∙◌, ◌⊎◌, subst, Bool, true, false, List, [], ◌++◌, Option, none, some,
  inl, inr, if◌then◌else◌, Option-cases,
}
use nat_punch.Base.Bytes.{codes}
use nat_punch.Base.Int.{pos}
use nat_punch.Base.Maps.{Map, Each, Among, store}
use nat_punch.File.Clients.{Client, same}
use nat_punch.File.Credentials.{
  get_id_by_verify_key, Identified, Enabled, Stranger, get_id_by_verify_key-Identified,
}
use nat_punch.File.Hosts.{get_ip_by_addr}
use nat_punch.Link.{
  Reading, ◌>>=◌, get_len_bytes, get_short_content, get_short_len_content, read_flag,
}

abbrev pub conn_test : List ℕ
conn_test = codes "TST"

abbrev pub verify_eer : List ℕ
verify_eer = codes "vkey"

abbrev pub verify_success : List ℕ
verify_success = codes "sucs"

-- `dropped`: closed without an answer to the key, or before a flag has come.
pub data Shake : Type 0 where
  dropped : Shake
  rejected : Shake
  established : (flag : List ℕ) → (id : ℕ) → (vs rest : List ℕ) → Shake

-- The test flag, the version of the protocol, of which only the reading counts, and the version.
unfoldable pub greeting : Reading (List ℕ)
greeting = do test ← get_short_content (pos 3); core ← get_short_len_content; get_short_len_content

module _ (digest : List ℕ → List ℕ) (server : List ℕ) where
  -- The clients, what is written, and how it ends.
  abbrev pub Shaken : Type 0
  Shaken = Map Client × List ℕ × Shake

  abbrev pub with_flag : Map Client → ℕ → List ℕ → Option (List ℕ × List ℕ) → Shaken
  with_flag db id vs none = (db, digest server ++ verify_success, dropped)
  with_flag db id vs (some (flag, rest)) =
      (db, digest server ++ verify_success, established flag id vs rest)

  abbrev pub verified : List ℕ → List ℕ → Map Client × Option ℕ → Shaken
  verified vs stream (db, none) = (db, digest server ++ verify_eer, rejected)
  verified vs stream (db, some id) = with_flag db id vs (read_flag stream)

  abbrev pub with_key : List ℕ → Map Client → List ℕ → Option (List ℕ × List ℕ) → Shaken
  with_key addr db vs none = (db, digest server, dropped)
  with_key addr db vs (some (key, stream)) =
      verified vs stream (get_id_by_verify_key digest key addr db)

  abbrev pub greeted : List ℕ → Map Client → Option (List ℕ × List ℕ) → Shaken
  greeted addr db none = (db, [], dropped)
  greeted addr db (some (vs, stream)) = with_key addr db vs (get_short_content (pos 32) stream)

  unfoldable pub cli_process : List ℕ → Map Client → List ℕ → Shaken
  cli_process addr db stream = greeted addr db (greeting stream)

  -- The client writes its key when it has read the version, and the flag when it is verified.
  abbrev pub told : List ℕ → List ℕ → Option (List ℕ × List ℕ) → List ℕ × Bool
  told sent conn_type none = (sent, false)
  told sent conn_type (some (s, rest)) =
      if same s verify_eer then (sent, false) else (sent ++ conn_type, true)

  abbrev pub heard_version :
      (hello vkey conn_type : List ℕ) → Option (List ℕ × List ℕ) → List ℕ × Bool
  heard_version hello vkey conn_type none = (hello, false)
  heard_version hello vkey conn_type (some (b, replies)) =
      told (hello ++ digest vkey) conn_type (read_flag replies)

  -- What `NewConn` writes, and whether it gives a connection, given what the bridge answers.
  unfoldable pub new_conn : (core version vkey conn_type : List ℕ) → List ℕ → List ℕ × Bool
  new_conn core version vkey conn_type replies =
      heard_version (conn_test ++ (get_len_bytes core ++ get_len_bytes version)) vkey conn_type
        (get_short_content (pos 32) replies)

  -- A client that was known before has its address set, and nothing else has changed.
  abbrev Readdressed : List ℕ → Map Client → Client → Map Client → Type 0
  Readdressed addr db c db' = db' ≡ store c.id (record c { addr = get_ip_by_addr addr }) db

  -- What the end of `cliProcess` says about who is there.
  abbrev pub Trusted : List ℕ → Map Client → List ℕ → Shaken → Type 0
  Trusted addr db stream (db', replies, dropped) =
      (db' ≡ db)
      ⊎ ((key : List ℕ) × (c : Client) × Among c db
          × Enabled digest key c
          × Readdressed addr db c db')
  Trusted addr db stream (db', replies, rejected) =
      (db' ≡ db)
      × (vs : List ℕ) × (s : List ℕ) × (key : List ℕ) × (rest : List ℕ) × (greeting stream
          ≡ some (vs, s))
      × (get_short_content (pos 32) s ≡ some (key, rest))
      × Each (λ k c. Stranger digest key c) db
  Trusted addr db stream (db', replies, established flag id vs rest) =
      (s : List ℕ) × (key : List ℕ) × (s' : List ℕ) × (c : Client) × (greeting stream
        ≡ some (vs, s))
      × (get_short_content (pos 32) s ≡ some (key, s'))
      × (read_flag s' ≡ some (flag, rest))
      × Among c db
      × Enabled digest key c
      × (c.id ≡ id)
      × Readdressed addr db c db'

  module _ (addr : List ℕ) (db : Map Client) (stream : List ℕ) where
    verified-Trusted :
        (vs s key s' : List ℕ) (r : Map Client × Option ℕ)
        → greeting stream ≡ some (vs, s)
        → get_short_content (pos 32) s ≡ some (key, s')
        → Identified digest key addr db r
        → Trusted addr db stream (verified vs s' r)
    verified-Trusted vs s key s' (db', none) p q (same_db, nobody) =
        (same_db, vs, s, key, s', p, q, nobody)
    verified-Trusted vs s key s' (db', some id) p q (c, among, right, at, stored) =
        let set_address : Readdressed addr db c db' =
          stored ∙ ap (λ i. store i (record c { addr = get_ip_by_addr addr }) db) (sym at) in
        elim (Option-cases (read_flag s')) [
          | inl e ↦ rw e (inr (key, c, among, right, set_address))
          | inr ((flag, rest), e) ↦
              subst (λ o. Trusted addr db stream (with_flag db' id vs o)) (sym e)
                (s, key, s', c, p, q, e, among, right, at, set_address)
        ]

    keyed-Trusted :
        (vs s : List ℕ) (o : Option (List ℕ × List ℕ))
        → greeting stream ≡ some (vs, s)
        → get_short_content (pos 32) s ≡ o
        → Trusted addr db stream (with_key addr db vs o)
    keyed-Trusted vs s none p q = inl refl
    keyed-Trusted vs s (some (key, s')) p q =
        verified-Trusted vs s key s' _ p q (get_id_by_verify_key-Identified digest key addr db)

    greeted-Trusted :
        (o : Option (List ℕ × List ℕ))
        → greeting stream ≡ o
        → Trusted addr db stream (greeted addr db o)
    greeted-Trusted none p = inl refl
    greeted-Trusted (some (vs, s)) p = keyed-Trusted vs s (get_short_content (pos 32) s) p refl

    -- Whatever is sent to the bridge: a connection is handed on, with the identity `id` and the
    -- flag and version that were sent, only when the 32 bytes behind the greeting are the digest of
    -- the key of a client with that identity that the bridge knew before and that is enabled, and
    -- the clients are those before with that one stored, changed in its address only; it is
    -- rejected, with the clients unchanged, only when no enabled client has a key with that digest;
    -- and when it is dropped, nothing has changed but, at most, the address of one enabled client.
    pub cli_process-Trusted : Trusted addr db stream (cli_process addr db stream)
    unfolding cli_process
    cli_process-Trusted = greeted-Trusted (greeting stream) refl
