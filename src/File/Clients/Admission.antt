-- ===== src/File/Clients/Admission.antt =====
-- `NewClient` on every path: what it stores, what it refuses, and what holds of the registry after.
use nat_punch.Base.{
  ℕ, ◌≡◌, refl, sym, ap, ◌∙◌, subst, Bool, true, false, Option, none, some, List, [], ◌∷◌, ◌⊎◌, inl,
  inr, if◌then◌else◌,
}
use nat_punch.Base.Maps.{Map, lookup}
use nat_punch.File.Clients.{
  Client, Db, Failure, quota, user_name_duplicate, vkey_duplicate, not_saved, started, verify_vkey,
  start, new_client_rate, keep_rate, hashed, sync_client_rate, prepare, placed, admit, saved_or,
  try_given, reset, hash_web_password, check_names, new_client,
}

-- The client is turned away, which a failed save is not.
abbrev pub rejected : Option Failure → Bool
rejected none = false
rejected (some not_saved) = false
rejected (some other) = true

-- What `NewClient` does with a client that has the identity and the `NoStore` of `c`.
abbrev pub Settled : Bool → ℕ → Bool → Map Client → Db × Option Failure → Type 0
Settled saved id no_store m (db, failure) =
    ((db.clients ≡ m) × (rejected failure ≡ true))
    ⊎ ((c : Client) × (c.id ≡ id)
        × (c.no_store ≡ no_store)
        × (verify_vkey c.verify_key c.id m ≡ true)
        × (db.clients ≡ placed c m)
        × (failure ≡ saved_or saved))

-- The client and the registry on the way to the check of the key.
abbrev Ready : ℕ → Bool → Map Client → Client × Db → Type 0
Ready id no_store m (c, db) = (c.id ≡ id) × (c.no_store ≡ no_store) × (db.clients ≡ m)

start-clients : (r : Option ℕ) (db : Db) → (start r db).clients ≡ db.clients
unfolding start
start-clients none db = refl
start-clients (some r) db = refl

keep_rate-Ready :
    (old c : Client) (db : Db) (r : Option ℕ)
    → Ready c.id c.no_store db.clients (keep_rate old c db r)
unfolding keep_rate new_client_rate
keep_rate-Ready old c db none = (refl, refl, refl)
keep_rate-Ready old c db (some r) = (refl, refl, refl)

sync_client_rate-Ready :
    (old : Option Client) (c : Client) (db : Db)
    → Ready c.id c.no_store db.clients (sync_client_rate old c db)
unfolding sync_client_rate new_client_rate
sync_client_rate-Ready none c db = (refl, refl, refl)
sync_client_rate-Ready (some old) c db = keep_rate-Ready old c db old.rate

started-Ready :
    (id : ℕ) (no_store : Bool) (m : Map Client) (p : Client × Db)
    → Ready id no_store m p
    → Ready id no_store m (started p)
started-Ready id no_store m (c, db) (x, y, z) = (x, y, start-clients c.rate db ∙ z)

prepare-Ready : (c : Client) (db : Db) → Ready c.id c.no_store db.clients (prepare c db)
unfolding prepare
prepare-Ready c db =
    started-Ready _ _ _ (sync_client_rate (lookup c.id db.clients) c db)
      (sync_client_rate-Ready (lookup c.id db.clients) c db)

some_injective : {c d : Client} → some c ≡ some d → c ≡ d
some_injective e = cc

module _ (saved : Bool) (id : ℕ) (no_store : Bool) (m : Map Client) where
  admit-Settled :
      (c : Client) (db : Db)
      → Ready id no_store m (c, db)
      → verify_vkey c.verify_key c.id db.clients ≡ true
      → Settled saved id no_store m (admit c db, saved_or saved)
  unfolding admit
  admit-Settled c db (p, q, r) h =
      inr (c, p, q, subst (λ m. verify_vkey c.verify_key c.id m ≡ true) r h, ap (placed c) r, refl)

  given-Settled :
      (c : Client) (db : Db) (b : Bool)
      → Ready id no_store m (c, db)
      → verify_vkey c.verify_key c.id db.clients ≡ b
      → Settled saved id no_store m
          (if b then (admit c db, saved_or saved) else (db, some vkey_duplicate))
  given-Settled c db true ready h = admit-Settled c db ready h
  given-Settled c db false (p, q, r) h = inl (r, refl)

  try_given-Settled :
      (p : Client × Db) → Ready id no_store m p → Settled saved id no_store m (try_given saved p)
  try_given-Settled (c, db) ready = given-Settled c db _ ready refl

  try_generated-Settled :
      (again : Client → Db → Db × Option Failure) (c : Client) (db : Db) (b : Bool)
      → ((c : Client) (db : Db)
          → Ready id no_store m (c, db)
          → Settled saved id no_store m (again c db))
      → Ready id no_store m (c, db)
      → verify_vkey c.verify_key c.id db.clients ≡ b
      → Settled saved id no_store m (if b then (admit c db, saved_or saved) else again c db)
  try_generated-Settled again c db true next ready h = admit-Settled c db ready h
  try_generated-Settled again c db false next ready h = next c db ready

  moved :
      (c c' : Client) (db db' : Db)
      → Ready c.id c.no_store db.clients (c', db')
      → Ready id no_store m (c, db)
      → Ready id no_store m (c', db')
  moved c c' db db' (x, y, z) (p, q, r) = (x ∙ p, y ∙ q, z ∙ r)

  reset-Settled :
      (keys : List (List ℕ)) (c : Client) (db : Db)
      → Ready id no_store m (c, db)
      → Settled saved id no_store m (reset saved keys c db)
  unfolding reset
  reset-Settled [] c db (p, q, r) = inl (r, refl)
  reset-Settled (key ∷ keys) c db ready =
      let c1 = record c { verify_key = key } in
      let next = prepare c1 db in
      try_generated-Settled (reset saved keys) next.0 next.1 _ (reset-Settled keys)
        (moved c1 next.0 db next.1 (prepare-Ready c1 db) ready) refl

  module _ (hash_password : List ℕ → Option (List ℕ)) where
    keyed-Settled :
        (keys : List (List ℕ)) (c : Client) (db : Db) (b : Bool)
        → Ready id no_store m (c, db)
        → Settled saved id no_store m
            (if b then reset saved keys c db else try_given saved (prepare c db))
    keyed-Settled keys c db true ready = reset-Settled keys c db ready
    keyed-Settled keys c db false ready =
        let next = prepare c db in
        try_given-Settled next (moved c next.0 db next.1 (prepare-Ready c db) ready)

    named-Settled :
        (db : Db) (b : Bool) (r : Db × Option Failure)
        → db.clients ≡ m
        → Settled saved id no_store m r
        → Settled saved id no_store m (if b then (db, some user_name_duplicate) else r)
    named-Settled db true r e settled = inl (e, refl)
    named-Settled db false r e settled = settled

    check_names-Settled :
        (keys : List (List ℕ)) (o : Option Client) (db : Db)
        → ((c : Client) → o ≡ some c → (c.id ≡ id) × (c.no_store ≡ no_store))
        → db.clients ≡ m
        → Settled saved id no_store m (check_names hash_password saved keys o db)
    unfolding check_names
    check_names-Settled keys none db facts e = inl (e, refl)
    check_names-Settled keys (some c) db facts e =
        let (p, q) = facts c refl in named-Settled db _ _ e (keyed-Settled keys c db _ (p, q, e))

module _ (hash_password : List ℕ → Option (List ℕ)) where
  hash-kept :
      (c d : Client) (o : Option (List ℕ))
      → hashed hash_password c o ≡ some d
      → (d.id ≡ c.id) × (d.no_store ≡ c.no_store)
  hash-kept c d none e = absurd cc
  hash-kept c d (some h) e =
      let f = some_injective e in (ap Client.id (sym f), ap Client.no_store (sym f))

  hashed_or-kept :
      (c d : Client) (b : Bool)
      → (if b then hashed hash_password c (hash_password c.web_password) else some c) ≡ some d
      → (d.id ≡ c.id) × (d.no_store ≡ c.no_store)
  hashed_or-kept c d true e = hash-kept c d _ e
  hashed_or-kept c d false e =
      let f = some_injective e in (ap Client.id (sym f), ap Client.no_store (sym f))

  quota-Settled :
      (saved : Bool) (c : Client) (db : Db) (b : Bool) (r : Db × Option Failure)
      → Settled saved c.id c.no_store db.clients r
      → Settled saved c.id c.no_store db.clients (if b then (db, some quota) else r)
  quota-Settled saved c db true r settled = inl (refl, refl)
  quota-Settled saved c db false r settled = settled

  -- `NewClient` either turns the client away and leaves the registry as it was, or stores it, with a
  -- key that no other client has, under the identity it came with or a chosen one, and then reports
  -- nothing but a failed save.
  pub new_client-Settled :
      (saved : Bool) (keys : List (List ℕ)) (c : Client) (db : Db)
      → Settled saved c.id c.no_store db.clients (new_client hash_password saved keys c db)
  unfolding new_client hash_web_password
  new_client-Settled saved keys c db = quota-Settled saved c db _ _ (
      check_names-Settled saved c.id c.no_store db.clients hash_password keys
        (hash_web_password hash_password c) db (λ d e. hashed_or-kept c d _ e) refl)
