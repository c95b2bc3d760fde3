-- ===== src/Bridge/Meeting.antt =====
-- A client and the bridge in conversation.
use nat_punch.Base.{
  ℕ, ◌^◌, ◌*◌, ◌≤◌, ◌≡◌, refl, sym, ap, ◌∙◌, arith, Bool, true, false, List, [], ◌++◌, Option, none,
  some, length, leb, append_assoc, append-nil, if◌then◌else◌,
}
use nat_punch.Base.Maps.{Map}
use nat_punch.File.Clients.{Client}
use nat_punch.File.Credentials.{get_id_by_verify_key}
use nat_punch.Link.{get_len_bytes, get_short_content, get_short_len_content, read_flag, read_full}
use nat_punch.Link.Infos.{read_full-front, get_short_len_content-bytes}
use nat_punch.Bridge.Handshake.{
  conn_test, verify_eer, verify_success, Shake, established, rejected, greeting, cli_process,
  new_conn, verified, told,
}

abbrev pub Short : List ℕ → Type 0
Short s = length s ≤ 32 * 2 ^ 10

get_short_len_content-front :
    (b rest : List ℕ) → Short b → get_short_len_content (get_len_bytes b ++ rest) ≡ some (b, rest)
get_short_len_content-front b rest h =
    let fits : leb (length b) (32 * 2 ^ 10) ≡ true = ground (arith, h) in
    get_short_len_content-bytes b rest (omega (arith, h))
    ∙ ap (λ t. if t then some (b, rest) else none) fits

abbrev pub hello : List ℕ → List ℕ → List ℕ
hello core version = conn_test ++ (get_len_bytes core ++ get_len_bytes version)

greeting-hello :
    (core version rest : List ℕ)
    → Short core
    → Short version
    → greeting (hello core version ++ rest) ≡ some (version, rest)
unfolding greeting get_short_content
greeting-hello core version rest p q =
    let second = get_len_bytes version ++ rest in
    rw
      (
        append_assoc (get_len_bytes core) (get_len_bytes version) rest,
        read_full-front 3 conn_test (get_len_bytes core ++ second) refl,
        get_short_len_content-front core second p,
      )
      (get_short_len_content-front version rest q)

read_flag_alone : (flag : List ℕ) → length flag ≡ 4 → read_flag flag ≡ some (flag, [])
unfolding read_flag
read_flag_alone flag four =
    ap (read_full 4) (sym (append-nil flag)) ∙ read_full-front 4 flag [] four

module _ (digest : List ℕ → List ℕ) (size : (s : List ℕ) → length (digest s) ≡ 32)
    (server : List ℕ) where
  abbrev answers : (flag : List ℕ) → List ℕ
  answers flag = digest server ++ flag

  client-told :
      (core version vkey conn_type flag : List ℕ)
      → length flag ≡ 4
      → new_conn digest server core version vkey conn_type (answers flag)
        ≡ told digest server (hello core version ++ digest vkey) conn_type (some (flag, []))
  unfolding new_conn get_short_content
  client-told core version vkey conn_type flag four =
      rw (read_full-front 32 (digest server) flag (size server), read_flag_alone flag four) refl

  -- What the bridge makes of what a client writes.
  met :
      (addr core version key tail : List ℕ) (db : Map Client)
      → Short core
      → Short version
      → length key ≡ 32
      → cli_process digest server addr db ((hello core version ++ key) ++ tail)
        ≡ verified digest server version tail (get_id_by_verify_key digest key addr db)
  unfolding cli_process get_short_content
  met addr core version key tail db p q size =
      rw
        (
          append_assoc (hello core version) key tail,
          greeting-hello core version (key ++ tail) p q,
          read_full-front 32 key tail size,
        )
        refl

  module _ (addr core version vkey conn_type : List ℕ) (db : Map Client) where
    abbrev pub sends : List ℕ → List ℕ × Bool
    sends flag = new_conn digest server core version vkey conn_type (digest server ++ flag)

    abbrev pub takes : List ℕ → Map Client × List ℕ × Shake
    takes stream = cli_process digest server addr db stream

    -- Both sides under what the registry says to the digest of the key: each reads what the other
    -- writes.
    abbrev pub Agreed : Map Client × Option ℕ → Type 0
    Agreed (db', none) =
        (sends verify_eer ≡ (hello core version ++ digest vkey, false))
        × (takes (sends verify_eer).0 ≡ (db', digest server ++ verify_eer, rejected))
    Agreed (db', some id) =
        ((sends verify_success).1 ≡ true)
        × (takes (sends verify_success).0
            ≡ (db', digest server ++ verify_success, established conn_type id version []))

    agreed :
        (r : Map Client × Option ℕ)
        → Short core
        → Short version
        → length conn_type ≡ 4
        → get_id_by_verify_key digest (digest vkey) addr db ≡ r
        → Agreed r
    agreed (db', none) p q four found =
        let sent = client-told core version vkey conn_type verify_eer refl in
        (
          sent,
          ap (λ t. takes t.0) sent
              ∙ (ap takes (sym (append-nil (hello core version ++ digest vkey)))
                  ∙ (met addr core version (digest vkey) [] db p q (size vkey)
                      ∙ ap (verified digest server version []) found)),
        )
    agreed (db', some id) p q four found =
        let sent = client-told core version vkey conn_type verify_success refl in
        (
          ap (λ t. t.1) sent,
          ap (λ t. takes t.0) sent
              ∙ (met addr core version (digest vkey) conn_type db p q (size vkey)
                  ∙ (ap (verified digest server version conn_type) found
                      ∙ rw (read_flag_alone conn_type four) refl)),
        )

    -- With a digest of 32 bytes, versions of at most 32 KiB and a flag of four bytes, a client and
    -- the bridge that read what the other writes agree. Where `GetIdByVerifyKey` finds a client for
    -- the digest of the key, the bridge answers with its version and success, `NewConn` gives its
    -- connection, and the bridge hands it on with that identity, that flag and that version, and
    -- with nothing left over. Where it finds none, the bridge answers with the error and rejects,
    -- and `NewConn` fails, and has not written its flag.
    pub cli_process-new_conn :
        Short core
        → Short version
        → length conn_type ≡ 4
        → Agreed (get_id_by_verify_key digest (digest vkey) addr db)
    cli_process-new_conn p q four =
        agreed (get_id_by_verify_key digest (digest vkey) addr db) p q four refl
