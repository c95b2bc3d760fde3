-- ===== src/Bridge/Entries.antt =====
-- What the operations of the bridge do to its map of clients, one key at a time.
use nat_punch.Base.{
  ℕ, ◌≡◌, refl, sym, ap, ◌∙◌, subst, arith, true, false, List, [], Option, none, some, inl, inr,
  ◌==◌, if◌then◌else◌, ℕ_discrete, Bool-cases, Option-cases,
}
use nat_punch.Base.Maps.{
  Map, lookup, store, delete, Single, lookup-delete_same, lookup-delete_other, delete-Single,
}
use nat_punch.File.Clients.{Client}
use nat_punch.File.Credentials.{get_client, is_pub_client}
use nat_punch.Bridge.{
  Entry, Bridge, new_client, close, close_tunnel, put, tell_closed, announce, taken_out, del_entry,
  del_client, take_signal, work_as_main, take_tunnel, work_as_chan, clear, work_as_new_conf,
}

pub close-client : (o : Option ℕ) (b : Bridge) → (close o b).client ≡ b.client
close-client none b = refl
close-client (some c) b = refl

pub close_tunnel-client : (o : Option ℕ) (b : Bridge) → (close_tunnel o b).client ≡ b.client
close_tunnel-client none b = refl
close_tunnel-client (some c) b = refl

-- Nothing but the channel changes.
tell_closed-client :
    (o : Option Client) (b : Bridge)
    → ((tell_closed o b).client ≡ b.client) × ((tell_closed o b).closed ≡ b.closed)
tell_closed-client none b = (refl, refl)
tell_closed-client (some c) b = (refl, refl)

pub announce-client :
    (db : Map Client) (id : ℕ) (b : Bridge)
    → ((announce db id b).client ≡ b.client) × ((announce db id b).closed ≡ b.closed)
announce-client db id b = elim (Bool-cases (is_pub_client id db)) [
  | inl e ↦ rw e (refl, refl)
  | inr e ↦ rw e (tell_closed-client (get_client id db) b)
]

-- A map with one key taken out.
abbrev pub without : ℕ → ℕ → Option Entry → Option Entry
without id i o = if i == id then none else o

lookup-delete : (id i : ℕ) (m : Map Entry) → lookup i (delete id m) ≡ without id i (lookup i m)
lookup-delete id i m = elim (ℕ_discrete i id) [
  | yes e ↦
      let test : (i == id) ≡ true = ground (arith, e) in
      rw test (subst (λ k. lookup k (delete id m) ≡ none) (sym e) (lookup-delete_same id m))
  | no n ↦
      let test : (i == id) ≡ false = ground (arith, n) in rw test (lookup-delete_other i id m n)
]

absent : (id i : ℕ) (m : Map Entry) → lookup id m ≡ none → lookup i m ≡ without id i (lookup i m)
absent id i m h = elim (ℕ_discrete i id) [
  | yes e ↦ let test : (i == id) ≡ true = ground (arith, e) in rw test (ap (λ k. lookup k m) e ∙ h)
  | no n ↦ let test : (i == id) ≡ false = ground (arith, n) in rw test refl
]

del_entry-client :
    (db : Map Client) (id : ℕ) (cl : Entry) (b : Bridge)
    → (del_entry db id (some cl) b).client ≡ delete id b.client
del_entry-client db id cl b =
    (announce-client db id (taken_out id cl b)).0 ∙ ap (delete id) (close-client cl.signal b)

pub lookup-del_client :
    (db : Map Client) (id i : ℕ) (b : Bridge)
    → lookup i (del_client db id b).client ≡ without id i (lookup i b.client)
unfolding del_client
lookup-del_client db id i b = elim (Option-cases (lookup id b.client)) [
  | inl h ↦ rw h (absent id i b.client h)
  | inr (cl, h) ↦
      ap (λ o. lookup i (del_entry db id o b).client) h
      ∙ (ap (lookup i) (del_entry-client db id cl b) ∙ lookup-delete id i b.client)
]

pub del_client-Single :
    (db : Map Client) (id : ℕ) (b : Bridge) → Single b.client → Single (del_client db id b).client
unfolding del_client
del_client-Single db id b s = elim (Option-cases (lookup id b.client)) [
  | inl h ↦ rw h s
  | inr (cl, h) ↦
      subst (λ o. Single (del_entry db id o b).client) (sym h)
        (subst Single (sym (del_entry-client db id cl b)) (delete-Single id b.client s))
]

-- The entries of a client with a new signal connection, and with a new tunnel.
abbrev pub with_signal : ℕ → List ℕ → Option Entry → Entry
with_signal c vs none = new_client none (some c) vs
with_signal c vs (some cl) = record cl { signal = some c; version = vs; retry_time = 0 }

abbrev pub with_tunnel : ℕ → List ℕ → Option Entry → Entry
with_tunnel c vs none = new_client (some c) none vs
with_tunnel c vs (some cl) = record cl { tunnel = some c }

take_signal-client :
    (id c : ℕ) (vs : List ℕ) (o : Option Entry) (b : Bridge)
    → (take_signal id c vs o b).client ≡ store id (with_signal c vs o) b.client
take_signal-client id c vs none b = refl
take_signal-client id c vs (some cl) b =
    close-client cl.signal (put id (with_signal c vs (some cl)) b)

take_tunnel-client :
    (id c : ℕ) (vs : List ℕ) (o : Option Entry) (b : Bridge)
    → (take_tunnel id c vs o b).client ≡ store id (with_tunnel c vs o) b.client
take_tunnel-client id c vs none b = refl
take_tunnel-client id c vs (some cl) b =
    close_tunnel-client cl.tunnel (put id (with_tunnel c vs (some cl)) b)

pub work_as_main-client :
    (id c : ℕ) (vs : List ℕ) (b : Bridge)
    → (work_as_main id c vs b).client ≡ store id (with_signal c vs (lookup id b.client)) b.client
unfolding work_as_main
work_as_main-client id c vs b = take_signal-client id c vs (lookup id b.client) b

pub work_as_chan-client :
    (id c : ℕ) (vs : List ℕ) (b : Bridge)
    → (work_as_chan id c vs b).client ≡ store id (with_tunnel c vs (lookup id b.client)) b.client
unfolding work_as_chan
work_as_chan-client id c vs b = take_tunnel-client id c vs (lookup id b.client) b

abbrev pub cleared : Option Entry → Entry
cleared none = new_client none none []
cleared (some cl) = record cl { signal = none; tunnel = none }

clear-client :
    (id : ℕ) (o : Option Entry) (b : Bridge) → (clear id o b).client ≡ store id (cleared o) b.client
clear-client id none b = refl
clear-client id (some cl) b =
    let b' = put id (cleared (some cl)) b in
    close_tunnel-client cl.tunnel (close cl.signal b') ∙ close-client cl.signal b'

pub work_as_new_conf-client :
    (id : ℕ) (b : Bridge)
    → (work_as_new_conf id b).client ≡ store id (cleared (lookup id b.client)) b.client
unfolding work_as_new_conf
work_as_new_conf-client id b = clear-client id (lookup id b.client) b
