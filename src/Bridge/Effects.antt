-- ===== src/Bridge/Effects.antt =====
-- What each operation of the bridge does to the signal connections of the clients.
use mathlib.Core.Path.{fun_ext}
use nat_punch.Base.{
  ℕ, ◌≡◌, refl, sym, ap, ◌∙◌, subst, arith, Bool, true, false, List, [], ◌∷◌, Option, none, some,
  inl, inr, ◌==◌, if◌then◌else◌, ℕ_discrete, Bool-cases,
}
use nat_punch.Base.Maps.{Map, lookup, store, lookup-store_same, lookup-store_other}
use nat_punch.File.Clients.{Client}
use nat_punch.Bridge.{
  Entry, Bridge, new_client, close, close_tunnel, put, taken_out, del_entry, del_client,
  take_signal, work_as_main, take_tunnel, work_as_chan, clear, work_as_new_conf, checked, ticked,
}
use nat_punch.Bridge.Entries.{
  without, with_signal, with_tunnel, cleared, announce-client, lookup-del_client,
  work_as_main-client, work_as_chan-client, work_as_new_conf-client,
}
use nat_punch.Bridge.Signals.{update, add}

abbrev pub signal_in : Option Entry → Option ℕ
signal_in none = none
signal_in (some v) = v.signal

abbrev pub signal_of : Bridge → ℕ → Option ℕ
signal_of b i = signal_in (lookup i b.client)

close-effect :
    (o : Option ℕ) (b : Bridge)
    → ((close o b).closed ≡ add o b.closed) × ((close o b).client ≡ b.client)
close-effect none b = (refl, refl)
close-effect (some c) b = (refl, refl)

close_tunnel-effect :
    (o : Option ℕ) (b : Bridge)
    → ((close_tunnel o b).closed ≡ b.closed) × ((close_tunnel o b).client ≡ b.client)
close_tunnel-effect none b = (refl, refl)
close_tunnel-effect (some c) b = (refl, refl)

signal-without :
    (id i : ℕ) (o : Option Entry)
    → signal_in (without id i o) ≡ (if i == id then none else signal_in o)
signal-without id i o = elim (Bool-cases (i == id)) [ inl e ↦ rw e refl | inr e ↦ rw e refl ]

-- The signals after an entry is stored.
signal-store :
    (id : ℕ) (v : Entry) (m : Map Entry) (i : ℕ)
    → signal_in (lookup i (store id v m)) ≡ update (λ k. signal_in (lookup k m)) id v.signal i
signal-store id v m i = elim (ℕ_discrete i id) [
  | yes e ↦
      let test : (i == id) ≡ true = ground (arith, e) in
      rw test (ap signal_in (ap (λ k. lookup k (store id v m)) e ∙ lookup-store_same id v m))
  | no n ↦
      let test : (i == id) ≡ false = ground (arith, n) in
      rw test (ap signal_in (lookup-store_other id i v m n))
]

-- `b'` is `b` after the client `id` has got the signal `o`, and its old one has been closed.
abbrev pub Given : ℕ → Option ℕ → Bridge → Bridge → Type 0
Given id o b b' =
    (signal_of b' ≡ update (signal_of b) id o) × (b'.closed ≡ add (signal_of b id) b.closed)

given :
    (id : ℕ) (v : Entry) (b b' : Bridge)
    → b'.client ≡ store id v b.client
    → b'.closed ≡ add (signal_of b id) b.closed
    → Given id v.signal b b'
given id v b b' p q =
    (fun_ext (λ i. ap (λ m. signal_in (lookup i m)) p ∙ signal-store id v b.client i), q)

take_signal-closed :
    (id c : ℕ) (vs : List ℕ) (o : Option Entry) (b : Bridge)
    → (take_signal id c vs o b).closed ≡ add (signal_in o) b.closed
take_signal-closed id c vs none b = refl
take_signal-closed id c vs (some cl) b =
    (close-effect cl.signal (put id (with_signal c vs (some cl)) b)).0

with_signal-signal : (c : ℕ) (vs : List ℕ) (o : Option Entry) → (with_signal c vs o).signal ≡ some c
unfolding new_client
with_signal-signal c vs none = refl
with_signal-signal c vs (some cl) = refl

pub work_as_main-Given :
    (id c : ℕ) (vs : List ℕ) (b : Bridge) → Given id (some c) b (work_as_main id c vs b)
unfolding work_as_main
work_as_main-Given id c vs b =
    subst (λ o. Given id o b (work_as_main id c vs b))
      (with_signal-signal c vs (lookup id b.client))
      (given id (with_signal c vs (lookup id b.client)) b (work_as_main id c vs b)
        (work_as_main-client id c vs b) (take_signal-closed id c vs (lookup id b.client) b))

del_entry-closed :
    (db : Map Client) (id : ℕ) (o : Option Entry) (b : Bridge)
    → (del_entry db id o b).closed ≡ add (signal_in o) b.closed
del_entry-closed db id none b = refl
del_entry-closed db id (some cl) b =
    (announce-client db id (taken_out id cl b)).1 ∙ (close-effect cl.signal b).0

pub del_client-Given :
    (db : Map Client) (id : ℕ) (b : Bridge) → Given id none b (del_client db id b)
unfolding del_client
del_client-Given db id b = (
  fun_ext
      (λ i. ap signal_in (lookup-del_client db id i b) ∙ signal-without id i (lookup i b.client)),
  del_entry-closed db id (lookup id b.client) b,
)

clear-closed :
    (id : ℕ) (o : Option Entry) (b : Bridge) → (clear id o b).closed ≡ add (signal_in o) b.closed
clear-closed id none b = refl
clear-closed id (some cl) b =
    let b' = put id (cleared (some cl)) b in
    (close_tunnel-effect cl.tunnel (close cl.signal b')).0 ∙ (close-effect cl.signal b').0

cleared-signal : (o : Option Entry) → (cleared o).signal ≡ none
unfolding new_client
cleared-signal none = refl
cleared-signal (some cl) = refl

pub work_as_new_conf-Given : (id : ℕ) (b : Bridge) → Given id none b (work_as_new_conf id b)
unfolding work_as_new_conf
work_as_new_conf-Given id b =
    subst (λ o. Given id o b (work_as_new_conf id b)) (cleared-signal (lookup id b.client))
      (given id (cleared (lookup id b.client)) b (work_as_new_conf id b)
        (work_as_new_conf-client id b) (clear-closed id (lookup id b.client) b))

with_tunnel-signal :
    (c : ℕ) (vs : List ℕ) (o : Option Entry) → (with_tunnel c vs o).signal ≡ signal_in o
unfolding new_client
with_tunnel-signal c vs none = refl
with_tunnel-signal c vs (some cl) = refl

take_tunnel-closed :
    (id c : ℕ) (vs : List ℕ) (o : Option Entry) (b : Bridge)
    → (take_tunnel id c vs o b).closed ≡ b.closed
take_tunnel-closed id c vs none b = refl
take_tunnel-closed id c vs (some cl) b =
    (close_tunnel-effect cl.tunnel (put id (with_tunnel c vs (some cl)) b)).0

update_id : (f : ℕ → Option ℕ) (id i : ℕ) → update f id (f id) i ≡ f i
update_id f id i = elim (ℕ_discrete i id) [
  | yes e ↦ let test : (i == id) ≡ true = ground (arith, e) in rw test (ap f (sym e))
  | no n ↦ let test : (i == id) ≡ false = ground (arith, n) in rw test refl
]

-- A tunnel, and a tick before its removals, leave the signals as they are.
abbrev pub Unchanged : Bridge → Bridge → Type 0
Unchanged b b' = (signal_of b' ≡ signal_of b) × (b'.closed ≡ b.closed)

pub work_as_chan-Unchanged :
    (id c : ℕ) (vs : List ℕ) (b : Bridge) → Unchanged b (work_as_chan id c vs b)
unfolding work_as_chan
work_as_chan-Unchanged id c vs b =
    let v = with_tunnel c vs (lookup id b.client) in
    (
      fun_ext (λ i.
          ap (λ m. signal_in (lookup i m)) (work_as_chan-client id c vs b)
          ∙ (signal-store id v b.client i
              ∙ (ap (λ o. update (signal_of b) id o i)
                    (with_tunnel-signal c vs (lookup id b.client))
                  ∙ update_id (signal_of b) id i))),
      take_tunnel-closed id c vs (lookup id b.client) b,
    )

checked-signal :
    (is_close : ℕ → Bool) (v : Entry) (t s : Option ℕ)
    → v.tunnel ≡ t
    → v.signal ≡ s
    → (checked is_close v).0.signal ≡ v.signal
unfolding checked
checked-signal is_close v none none p q = rw (p, q) refl
checked-signal is_close v none (some s) p q = rw (p, q) refl
checked-signal is_close v (some t) none p q = rw (p, q) refl
checked-signal is_close v (some t) (some s) p q = rw (p, q) refl

signal-ticked :
    (is_close : ℕ → Bool) (i : ℕ) (m : Map Entry)
    → signal_in (lookup i (ticked is_close m)) ≡ signal_in (lookup i m)
unfolding ticked
signal-ticked is_close i [] = refl
signal-ticked is_close i ((j, v) ∷ m) = elim (Bool-cases (i == j)) [
  | inl e ↦ rw e (checked-signal is_close v v.tunnel v.signal refl refl)
  | inr e ↦ rw e (signal-ticked is_close i m)
]

pub ticked-Unchanged :
    (is_close : ℕ → Bool) (b : Bridge)
    → Unchanged b (record b { client = ticked is_close b.client })
ticked-Unchanged is_close b = (fun_ext (λ i. signal-ticked is_close i b.client), refl)
