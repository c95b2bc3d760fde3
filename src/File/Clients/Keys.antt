-- ===== src/File/Clients/Keys.antt =====
-- `VerifyVkey` keeps the keys of the registry apart.
use nat_punch.Base.{
  ℕ, ◌≤◌, ◌≡◌, refl, sym, ap, ◌∙◌, subst, arith, true, some, List, [], ◌∷◌, inl, inr,
}
use nat_punch.Base.Maps.{Map, lookup, Each, lookup-Each, store-Each, lookup-store_cases}
use nat_punch.File.Clients.{Client, same, verify_vkey, chosen_id, placed}
use nat_punch.File.Clients.Ids.{Keyed, next_client_id_locked_lem}

-- No two clients have one key.
abbrev pub Distinct : Map Client → Type 0
Distinct m =
    (i j : ℕ) (c d : Client)
    → lookup i m ≡ some c
    → lookup j m ≡ some d
    → c.verify_key ≡ d.verify_key
    → i ≡ j

pub same_refl : (xs : List ℕ) → same xs xs ≡ true
same_refl [] = refl
same_refl (x ∷ xs) = ground (arith, same_refl xs)

-- The clients with the key are those with the identity.
verify_vkey-Each :
    (vkey : List ℕ) (id : ℕ) (m : Map Client)
    → verify_vkey vkey id m ≡ true
    → Each (λ key c. same c.verify_key vkey ≡ true → c.id ≡ id) m
unfolding verify_vkey
verify_vkey-Each vkey id [] h = tt
verify_vkey-Each vkey id ((key, c) ∷ m) h =
    (λ e. ground (arith, e, h), verify_vkey-Each vkey id m (ground (arith, h)))

-- Where a client goes when its key passes the check is where any owner of the key stands.
owner-chosen_id :
    (c : Client) (j : ℕ) (m : Map Client) {d : Client}
    → Keyed m
    → verify_vkey c.verify_key c.id m ≡ true
    → lookup j m ≡ some d
    → d.verify_key ≡ c.verify_key
    → j ≡ chosen_id c m
unfolding chosen_id
owner-chosen_id c j m {d} keyed h at e =
    let s : same d.verify_key c.verify_key ≡ true =
      subst (λ k. same d.verify_key k ≡ true) e (same_refl d.verify_key) in
    let own = lookup-Each _ j m keyed at in
    let named = lookup-Each _ j m (verify_vkey-Each c.verify_key c.id m h) at s in
    ground (arith, own, named)

chosen_id-le : (c : Client) (m : Map Client) → Keyed m → 1 ≤ chosen_id c m
unfolding chosen_id
chosen_id-le c m keyed =
    let (free, positive, _) = next_client_id_locked_lem m keyed in ground (arith, positive)

pub placed-Keyed : (c : Client) (m : Map Client) → Keyed m → Keyed (placed c m)
unfolding placed
placed-Keyed c m keyed =
    store-Each (λ key c. (c.id ≡ key) × (1 ≤ key)) (chosen_id c m) _ m
      (refl, chosen_id-le c m keyed) keyed

pub placed-Distinct :
    (c : Client) (m : Map Client)
    → Keyed m
    → verify_vkey c.verify_key c.id m ≡ true
    → Distinct m
    → Distinct (placed c m)
unfolding placed
placed-Distinct c m keyed h distinct i j a b p q e = elim (lookup-store_cases i _ _ m p) [
  | inl u ↦ u.0 ∙ elim (lookup-store_cases j _ _ m q) [
    | inl w ↦ sym w.0
    | inr w ↦ sym (owner-chosen_id c j m keyed h w (sym e ∙ ap Client.verify_key u.1))
  ]
  | inr u ↦ elim (lookup-store_cases j _ _ m q) [
    | inl w ↦ owner-chosen_id c i m keyed h u (e ∙ ap Client.verify_key w.1) ∙ sym w.0
    | inr w ↦ distinct i j a b u w e
  ]
]
