-- ===== src/Cache/Removing.antt =====
-- Entries that go: by their key, or as the oldest.
use nat_punch.Base.{
  ℕ, ◌≡◌, refl, sym, ap, ◌∙◌, subst, arith, true, false, List, [], ◌∷◌, Option, none, some,
  some_unique, get_elem?, map, All, ◌==◌, if◌then◌else◌, ℕ_discrete,
}
use nat_punch.Base.Maps.{lookup, delete, lookup-delete_same, lookup-delete_other}
use nat_punch.Cache.{
  Cache, erase_by, without, remove_entry, remove_element_locked, remove_place, remove,
}
use nat_punch.Cache.Keeps.{
  Item, place, entry, key, place_of, Represents, erase_by-All, All-map, erase-Apart, without-places,
  place_of-erase_same, place_of-erase_other,
}

module _ {ℓ} {A : Type ℓ} where
  -- The first entry with a key, in a list without places.
  abbrev pub find : ℕ → List (ℕ × A) → Option A
  find k [] = none
  find k ((q, v) ∷ xs) = let rest = find k xs in if q == k then some v else rest

  abbrev pub entries : List (Item A) → List (ℕ × A)
  entries l = map entry l

  -- The item that is found under a key.
  pub found {κ} :
      (P : Item A → Type κ) (k r : ℕ) (l : List (Item A))
      → place_of k l ≡ some r
      → All P l
      → (v : A) × P (r, (k, v)) × (find k (entries l) ≡ some v)
  found P k r [] e ps = absurd cc
  found P k r ((q, (i, v)) ∷ l) e (p, ps) = elim (ℕ_discrete i k) [
    | yes same ↦
        let test : (i == k) ≡ true = ground (arith, same) in
        let here : q ≡ r =
          some_unique refl (sym (ap (λ t. if t then some q else place_of k l) test) ∙ e) in
        (v, subst (λ q. P (q, (k, v))) here (subst (λ i. P (q, (i, v))) same p), rw test refl)
    | no n ↦
        let test : (i == k) ≡ false = ground (arith, n) in
        let (w, x, y) =
          found P k r l (sym (ap (λ t. if t then some q else place_of k l) test) ∙ e) ps in
        (w, x, rw test y)
  ]

  pub find-none : (k : ℕ) (l : List (Item A)) → place_of k l ≡ none → find k (entries l) ≡ none
  find-none k [] e = refl
  find-none k ((q, (i, v)) ∷ l) e = elim (ℕ_discrete i k) [
    | yes same ↦
        let test : (i == k) ≡ true = ground (arith, same) in
        let never : some q ≡ none = sym (ap (λ t. if t then some q else place_of k l) test) ∙ e in
        absurd cc
    | no n ↦
        let test : (i == k) ≡ false = ground (arith, n) in
        rw test (find-none k l (sym (ap (λ t. if t then some q else place_of k l) test) ∙ e))
  ]

  pub erase-absent : (k : ℕ) (l : List (Item A)) → place_of k l ≡ none → erase_by key k l ≡ l
  erase-absent k [] e = refl
  erase-absent k (i ∷ l) e = elim (ℕ_discrete (key i) k) [
    | yes same ↦
        let test : (key i == k) ≡ true = ground (arith, same) in
        let never : some (place i) ≡ none =
          sym (ap (λ t. if t then some (place i) else place_of k l) test) ∙ e in
        absurd cc
    | no n ↦
        let test : (key i == k) ≡ false = ground (arith, n) in
        rw test (
          ap (λ t. i ∷ t)
            (erase-absent k l
              (sym (ap (λ t. if t then some (place i) else place_of k l) test) ∙ e)))
  ]

  module _ (c : Cache A) (l : List (Item A)) (h : Represents c l) where
    -- `removeElementLocked` of the element under a key.
    pub removed-Represents :
        (k r : ℕ)
        → place_of k l ≡ some r
        → Represents (remove_element_locked r c) (erase_by key k l)
    unfolding remove_element_locked
    removed-Represents k r e =
        let (v, at, _) =
          found (λ i. get_elem? c.elements (place i) ≡ some (entry i)) k r l e h.stored in
        subst (λ o. Represents (remove_entry r o c) (erase_by key k l)) (sym at)
          (record {
            order = ap (without r) h.order ∙ without-places k r l h.apart e;
            stored =
                All-map _ _ (erase_by key k l) (λ i (s, n). s) (erase_by-All _ key k l h.stored);
            index = index;
            apart = erase-Apart k l h.apart;
          })
      where
        index : (q : ℕ) → lookup q (delete k c.cache) ≡ place_of q (erase_by key k l)
        index q = elim (ℕ_discrete q k) [
          | yes same ↦
              subst (λ q. lookup q (delete k c.cache) ≡ place_of q (erase_by key k l)) (sym same)
                (lookup-delete_same k c.cache ∙ sym (place_of-erase_same k l))
          | no n ↦
              lookup-delete_other q k c.cache n ∙ h.index q ∙ sym (place_of-erase_other k q l n)
        ]

    pub remove-Represents : (k : ℕ) → Represents (remove k c) (erase_by key k l)
    unfolding remove
    remove-Represents k = go (place_of k l) refl
      where
        go :
            (o : Option ℕ)
            → place_of k l ≡ o
            → Represents (remove_place (lookup k c.cache) c) (erase_by key k l)
        go none e =
            subst (λ o. Represents (remove_place o c) (erase_by key k l)) (sym (h.index k ∙ e))
              (subst (Represents c) (sym (erase-absent k l e)) h)
        go (some r) e =
            subst (λ o. Represents (remove_place o c) (erase_by key k l)) (sym (h.index k ∙ e))
              (removed-Represents k r e)
