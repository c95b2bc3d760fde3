-- ===== src/File/Clients/Outcomes.antt =====
-- What every end of `NewClient` keeps: keys and identities apart, no client lost, the quota.
use nat_punch.Base.{
  ℕ, ◌+◌, ◌≤◌, ◌<◌, ◌≡◌, refl, sym, ap, ◌∙◌, subst, arith, Bool, true, false, not, ◌&&◌, Option,
  none, some, List, [], ◌∷◌, inl, inr, ltb, leb, if◌then◌else◌, Bool-cases, dec_lt, ◌≢◌, ℕ_discrete,
}
use nat_punch.Base.Maps.{Map, lookup, store, lookup-store_other}
use nat_punch.File.Clients.{
  Client, Db, Failure, quota, get_client_count, next_client_id_locked, chosen_id, placed,
  new_client,
}
use nat_punch.File.Clients.Ids.{Keyed, next_client_id_locked_lem}
use nat_punch.File.Clients.Keys.{Distinct, placed-Keyed, placed-Distinct}
use nat_punch.File.Clients.Admission.{Settled, new_client-Settled}

taken-ne-free :
    (m : Map Client) (i free : ℕ) {d : Client}
    → lookup free m ≡ none
    → lookup i m ≡ some d
    → i ≢ free
taken-ne-free m i free p q h = let e = ap (λ k. lookup k m) h in absurd cc

-- A client without an identity takes the place of no other.
placed-kept :
    (c : Client) (m : Map Client)
    → Keyed m
    → c.id ≡ 0
    → (i : ℕ) {d : Client} → lookup i m ≡ some d
    → lookup i (placed c m) ≡ some d
unfolding placed chosen_id
placed-kept c m keyed p i at =
    let (free, _, _) = next_client_id_locked_lem m keyed in
    let e : chosen_id c m ≡ next_client_id_locked m = ground (arith, p) in
    lookup-store_other _ i _ m (taken-ne-free m i _ (ap (λ k. lookup k m) e ∙ free) at) ∙ at

placed-given :
    (c : Client) (m : Map Client) (i : ℕ) → c.id ≢ 0 → i ≢ c.id → lookup i (placed c m) ≡ lookup i m
unfolding placed chosen_id
placed-given c m i has n =
    let e : chosen_id c m ≡ c.id = ground (arith, has) in
    lookup-store_other _ i _ m (λ q. n (q ∙ e))

-- Nor does one with an identity take the place of a client with another.
placed-others :
    (c : Client) (m : Map Client)
    → Keyed m
    → (i : ℕ) {d : Client} → i ≢ c.id
    → lookup i m ≡ some d
    → lookup i (placed c m) ≡ some d
placed-others c m keyed i n at = elim (ℕ_discrete c.id 0) [
  | yes e ↦ placed-kept c m keyed e i at
  | no has ↦ placed-given c m i has n ∙ at
]

-- Each stored client counts once at most, a `NoStore` one never.
count-store :
    (i : ℕ) (c : Client) (m : Map Client)
    → get_client_count (store i c m) ≤ get_client_count m + (if c.no_store then 0 else 1)
unfolding get_client_count
count-store i c [] = ground arith
count-store i c ((key, d) ∷ m) = ground (arith, count-store i c m)

placed-count :
    (c : Client) (m : Map Client)
    → get_client_count (placed c m) ≤ get_client_count m + (if c.no_store then 0 else 1)
unfolding placed
placed-count c m = count-store _ _ m

module _ (hash_password : List ℕ → Option (List ℕ)) where
  registered_after :
      (saved : Bool) (id : ℕ) (no_store : Bool) (m : Map Client) (r : Db × Option Failure)
      → Settled saved id no_store m r
      → Keyed m
      → Distinct m
      → Keyed r.0.clients × Distinct r.0.clients
  registered_after saved id no_store m r (inl (e, _)) keyed distinct =
      subst (λ m. Keyed m × Distinct m) (sym e) (keyed, distinct)
  registered_after saved id no_store m r (inr (c, _, _, h, e, _)) keyed distinct =
      subst (λ m. Keyed m × Distinct m) (sym e)
        (placed-Keyed c m keyed, placed-Distinct c m keyed h distinct)

  -- When each client stands under its own identity, from 1 on, and no two have one key, the same
  -- holds after `NewClient`, whatever client it is given and however it ends.
  pub new_client-Distinct :
      (saved : Bool) (keys : List (List ℕ)) (c : Client) (db : Db)
      → Keyed db.clients
      → Distinct db.clients
      → Keyed (new_client hash_password saved keys c db).0.clients
        × Distinct (new_client hash_password saved keys c db).0.clients
  new_client-Distinct saved keys c db =
      registered_after saved c.id c.no_store db.clients (new_client hash_password saved keys c db)
        (new_client-Settled hash_password saved keys c db)

  kept_after :
      (saved no_store : Bool) (m : Map Client) (r : Db × Option Failure)
      → Settled saved 0 no_store m r
      → Keyed m
      → (i : ℕ) {d : Client} → lookup i m ≡ some d
      → lookup i r.0.clients ≡ some d
  kept_after saved no_store m r (inl (e, _)) keyed i at = ap (lookup i) e ∙ at
  kept_after saved no_store m r (inr (c, p, _, h, e, _)) keyed i at =
      ap (lookup i) e ∙ placed-kept c m keyed p i at

  -- In a registry whose clients stand under their own identities, from 1 on, a client that comes
  -- without an identity never replaces one that is there: every client found before `NewClient` is
  -- found after it, unchanged.
  pub new_client-kept :
      (saved : Bool) (keys : List (List ℕ)) (c : Client) (db : Db)
      → c.id ≡ 0
      → Keyed db.clients
      → (i : ℕ) (d : Client) → lookup i db.clients ≡ some d
      → lookup i (new_client hash_password saved keys c db).0.clients ≡ some d
  new_client-kept saved keys c db e keyed i d =
      kept_after saved c.no_store db.clients (new_client hash_password saved keys c db)
        (subst
          (λ k. Settled saved k c.no_store db.clients (new_client hash_password saved keys c db)) e
          (new_client-Settled hash_password saved keys c db))
        keyed i

  others_after :
      (saved no_store : Bool) (id : ℕ) (m : Map Client) (r : Db × Option Failure)
      → Settled saved id no_store m r
      → Keyed m
      → (i : ℕ) {d : Client} → i ≢ id
      → lookup i m ≡ some d
      → lookup i r.0.clients ≡ some d
  others_after saved no_store id m r (inl (e, _)) keyed i n at = ap (lookup i) e ∙ at
  others_after saved no_store id m r (inr (c, p, _, h, e, _)) keyed i n at =
      ap (lookup i) e ∙ placed-others c m keyed i (λ q. n (q ∙ p)) at

  -- No other client is replaced.
  pub new_client-others :
      (saved : Bool) (keys : List (List ℕ)) (c : Client) (db : Db)
      → Keyed db.clients
      → (i : ℕ) (d : Client) → i ≢ c.id
      → lookup i db.clients ≡ some d
      → lookup i (new_client hash_password saved keys c db).0.clients ≡ some d
  new_client-others saved keys c db keyed i d =
      others_after saved c.no_store c.id db.clients (new_client hash_password saved keys c db)
        (new_client-Settled hash_password saved keys c db) keyed i

  quota_after :
      (saved : Bool) (id : ℕ) (no_store : Bool) (m : Map Client) (r : Db × Option Failure)
      → Settled saved id no_store m r
      → get_client_count r.0.clients ≤ get_client_count m + (if no_store then 0 else 1)
  quota_after saved id no_store m r (inl (e, _)) = rw e (ground arith)
  quota_after saved id no_store m r (inr (c, _, q, _, e, _)) = rw e (
      subst (λ b. get_client_count (placed c m) ≤ get_client_count m + (if b then 0 else 1)) q
        (placed-count c m))

  full-rejected :
      (saved : Bool) (keys : List (List ℕ)) (c : Client) (db : Db)
      → 0 < db.max_clients
      → c.no_store ≡ false
      → db.max_clients ≤ get_client_count db.clients
      → new_client hash_password saved keys c db ≡ (db, some quota)
  unfolding new_client
  full-rejected saved keys c db p q r =
      let guard : ltb 0 db.max_clients
            && not c.no_store
            && leb db.max_clients (get_client_count db.clients)
          ≡ true =
        rw q (ground arith) in
      rw guard refl

  -- With a positive limit, a registry within the limit on counted clients stays within it,
  -- whatever client `NewClient` is given and however it ends.
  pub new_client-quota :
      (saved : Bool) (keys : List (List ℕ)) (c : Client) (db : Db)
      → 0 < db.max_clients
      → get_client_count db.clients ≤ db.max_clients
      → get_client_count (new_client hash_password saved keys c db).0.clients ≤ db.max_clients
  new_client-quota saved keys c db p q =
      let bound =
        quota_after saved c.id c.no_store db.clients (new_client hash_password saved keys c db)
          (new_client-Settled hash_password saved keys c db) in
      let full : c.no_store ≡ false
          → db.max_clients ≤ get_client_count db.clients
          → get_client_count (new_client hash_password saved keys c db).0.clients ≤ db.max_clients =
        λ n r.
          subst (λ (o : Db × Option Failure). get_client_count o.0.clients ≤ db.max_clients)
            (sym (full-rejected saved keys c db p n r)) q in
      elim (Bool-cases c.no_store) [
        | inl n ↦ ground (arith, bound, n, q)
        | inr n ↦ elim (dec_lt (get_client_count db.clients) db.max_clients) [
          | yes l ↦ ground (arith, bound, n, l)
          | no l ↦ full n (omega arith)
        ]
      ]
