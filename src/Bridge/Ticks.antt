-- ===== src/Bridge/Ticks.antt =====
-- A tick of `ping`, one client at a time.
use nat_punch.Base.{
  ℕ, ◌≡◌, ◌≢◌, refl, sym, ap, ◌∙◌, subst, arith, Bool, true, false, ◌||◌, List, [], ◌∷◌, Option,
  none, some, inl, inr, leb, ◌==◌, ◌+◌, if◌then◌else◌, ℕ_discrete, Bool-cases,
}
use nat_punch.Base.Maps.{Map, lookup, Each, Single}
use nat_punch.File.Clients.{Client}
use nat_punch.Bridge.{Entry, Bridge, checked, ticked, timed_out, del_client, del_clients, ping}
use nat_punch.Bridge.Entries.{without, lookup-del_client, del_client-Single}

abbrev pub elem : ℕ → List ℕ → Bool
elem i [] = false
elem i (x ∷ xs) = let rest = elem i xs in i == x || rest

abbrev pub unless : Bool → Option Entry → Option Entry
unless true o = none
unless false o = o

unless-without :
    (id i : ℕ) (rest : Bool) (o : Option Entry)
    → unless rest (without id i o) ≡ unless (i == id || rest) o
unless-without id i true o = ground arith
unless-without id i false o = ground arith

pub lookup-del_clients :
    (db : Map Client) (ids : List ℕ) (i : ℕ) (b : Bridge)
    → lookup i (del_clients db ids b).client ≡ unless (elem i ids) (lookup i b.client)
unfolding del_clients
lookup-del_clients db [] i b = refl
lookup-del_clients db (id ∷ ids) i b =
    lookup-del_clients db ids i (del_client db id b)
    ∙ (ap (unless (elem i ids)) (lookup-del_client db id i b)
        ∙ unless-without id i (elem i ids) (lookup i b.client))

pub del_clients-Single :
    (db : Map Client) (ids : List ℕ) (b : Bridge)
    → Single b.client
    → Single (del_clients db ids b).client
unfolding del_clients
del_clients-Single db [] b s = s
del_clients-Single db (id ∷ ids) b s =
    del_clients-Single db ids (del_client db id b) (del_client-Single db id b s)

module _ (is_close : ℕ → Bool) where
  -- What an entry becomes at a tick: a client without any connection, whose configuration has just
  -- come, and one with a signal and an open tunnel stay as they are; a client with one of the two
  -- is counted and removed at the third time; one with a closed tunnel is removed.
  abbrev pub after_tick : Entry → Option ℕ → Option ℕ → Option Entry
  after_tick v none none = some v
  after_tick v (some t) (some s) = if is_close t then none else some v
  after_tick v none (some s) =
      if leb 3 (v.retry_time + 1) then none else some (record v { retry_time = v.retry_time + 1 })
  after_tick v (some t) none =
      if leb 3 (v.retry_time + 1) then none else some (record v { retry_time = v.retry_time + 1 })

  abbrev pub survives : Option Entry → Option Entry
  survives none = none
  survives (some v) = after_tick v v.tunnel v.signal

  abbrev judged : Entry × Bool → Option Entry
  judged (v, out) = unless out (some v)

  check-after_tick :
      (v : Entry) (t s : Option ℕ)
      → v.tunnel ≡ t
      → v.signal ≡ s
      → judged (checked is_close v) ≡ after_tick v v.tunnel v.signal
  unfolding checked
  check-after_tick v none none p q = rw (p, q) refl
  check-after_tick v none (some s) p q = rw (p, q) (ground arith)
  check-after_tick v (some t) none p q = rw (p, q) (ground arith)
  check-after_tick v (some t) (some s) p q = rw (p, q) (ground arith)

  absent-timed_out :
      (i : ℕ) (m : Map Entry) → Each (λ j v. j ≢ i) m → elem i (timed_out is_close m) ≡ false
  unfolding timed_out
  absent-timed_out i [] p = refl
  absent-timed_out i ((j, v) ∷ m) (p, ps) = ground (arith, p, absent-timed_out i m ps)

  lookup-ticked :
      (i : ℕ) (m : Map Entry)
      → Single m
      → unless (elem i (timed_out is_close m)) (lookup i (ticked is_close m))
        ≡ survives (lookup i m)
  unfolding timed_out ticked
  lookup-ticked i [] s = refl
  lookup-ticked i ((j, v) ∷ m) (p, s) = elim (ℕ_discrete i j) [
    | yes e ↦
        let test : (i == j) ≡ true = ground (arith, e) in
        let gone : elem i (timed_out is_close m) ≡ false =
          absent-timed_out i m (subst (λ k. Each (λ j v. j ≢ k) m) (sym e) p) in
        elim (Bool-cases (checked is_close v).1) [
          | inl out ↦
              rw (test, out, test)
                (ap (λ t. unless t (some (checked is_close v).0)) (sym out)
                  ∙ check-after_tick v v.tunnel v.signal refl refl)
          | inr stays ↦
              rw (test, stays, gone)
                (ap (λ t. unless t (some (checked is_close v).0)) (sym stays)
                  ∙ check-after_tick v v.tunnel v.signal refl refl)
        ]
    | no n ↦
        let test : (i == j) ≡ false = ground (arith, n) in
        elim (Bool-cases (checked is_close v).1) [
          | inl out ↦ rw (test, out, test) (lookup-ticked i m s)
          | inr stays ↦ rw (test, stays) (lookup-ticked i m s)
        ]
  ]

  ticked-Each :
      (i : ℕ) (m : Map Entry) → Each (λ j v. j ≢ i) m → Each (λ j v. j ≢ i) (ticked is_close m)
  unfolding ticked
  ticked-Each i [] p = tt
  ticked-Each i ((j, v) ∷ m) (p, ps) = (p, ticked-Each i m ps)

  pub ticked-Single : (m : Map Entry) → Single m → Single (ticked is_close m)
  unfolding ticked
  ticked-Single [] s = tt
  ticked-Single ((j, v) ∷ m) (p, s) = (ticked-Each j m p, ticked-Single m s)

  -- In a bridge whose map has each key once, a tick of `ping` does to every client what it should:
  -- a client that has neither a signal nor a tunnel stays, one with both stays as long as the
  -- tunnel is open and is removed when it is closed, and one with only one of them is counted, and
  -- removed when it is counted for the third time.
  pub lookup-ping :
      (db : Map Client) (i : ℕ) (b : Bridge)
      → Single b.client
      → lookup i (ping is_close db b).client ≡ survives (lookup i b.client)
  unfolding ping
  lookup-ping db i b s =
      lookup-del_clients db (timed_out is_close b.client) i
        (record b { client = ticked is_close b.client })
      ∙ lookup-ticked i b.client s

  pub ping-Single :
      (db : Map Client) (b : Bridge) → Single b.client → Single (ping is_close db b).client
  unfolding ping
  ping-Single db b s =
      del_clients-Single db (timed_out is_close b.client)
        (record b { client = ticked is_close b.client }) (ticked-Single b.client s)
