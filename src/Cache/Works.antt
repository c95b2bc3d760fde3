-- ===== src/Cache/Works.antt =====
-- Each operation of a cache against a list of its entries, the most recent first.
use nat_punch.Base.{
  ℕ, zero, suc, ◌<◌, ◌≤◌, ◌≡◌, refl, sym, ap, ◌∙◌, subst, arith, Bool, true, false, not, ◌&&◌, List,
  [], ◌∷◌, ◌++◌, Option, none, some, length, get_elem?, map, All, ltb, ◌==◌, if◌then◌else◌, ◌⊎◌,
  inl, inr, ℕ_discrete, take_of_length-le, length-take,
}
use nat_punch.Base.Maps.{lookup}
use nat_punch.Cache.{
  Cache, erase_by, within_limit, add_at, add, move_to_front, value_of, get_at, get, remove_entry,
  remove_element_locked, remove_place, remove, remove_oldest, back,
}
use nat_punch.Cache.Keeps.{Item, place, entry, key, place_of, Represents, map-erase_by}
use nat_punch.Cache.Removing.{entries, find, found, find-none, erase-absent, remove-Represents}
use nat_punch.Cache.Adding.{
  recent, Bounded, Shows, within_limit-Shows, last_cases, oldest-Represents,
}
use nat_punch.Cache.Front.{renewed, renewed-Represents, pushed, pushed-Represents, set-same}

module _ {ℓ} {A : Type ℓ} where
  abbrev pub forget : ℕ → List (ℕ × A) → List (ℕ × A)
  forget k xs = erase_by (λ e. e.0) k xs

  abbrev pub drop_last : List (ℕ × A) → List (ℕ × A)
  drop_last [] = []
  drop_last (x ∷ []) = []
  drop_last (x ∷ y ∷ xs) = x ∷ drop_last (y ∷ xs)

  -- The cache shows `xs` and works under the limit `max`, which they keep.
  abbrev pub Works : ℕ → Cache A → List (ℕ × A) → Type ℓ
  Works max c xs = Shows c xs × (c.max_entries ≡ max) × Bounded max xs

  remove_entry-max :
      (r : ℕ) (o : Option (ℕ × A)) (c : Cache A) → (remove_entry r o c).max_entries ≡ c.max_entries
  remove_entry-max r none c = refl
  remove_entry-max r (some e) c = refl

  remove_place-max : (o : Option ℕ) (c : Cache A) → (remove_place o c).max_entries ≡ c.max_entries
  unfolding remove_element_locked
  remove_place-max none c = refl
  remove_place-max (some r) c = remove_entry-max r (get_elem? c.elements r) c

  within_limit-max : (c : Cache A) → (within_limit c).max_entries ≡ c.max_entries
  unfolding within_limit remove_oldest
  within_limit-max c = go (not (c.max_entries == 0) && ltb c.max_entries (length c.ll))
    where
      go : (b : Bool) → (if b then remove_place (back c.ll) c else c).max_entries ≡ c.max_entries
      go true = remove_place-max (back c.ll) c
      go false = refl

  length-forget : (k : ℕ) (xs : List (ℕ × A)) → length (forget k xs) ≤ length xs
  length-forget k [] = omega arith
  length-forget k ((q, v) ∷ xs) = ground (arith, length-forget k xs)

  length-forget_found :
      (k : ℕ) (v : A) (xs : List (ℕ × A)) → find k xs ≡ some v → length (forget k xs) < length xs
  length-forget_found k v [] e = absurd cc
  length-forget_found k v ((q, w) ∷ xs) e = elim (ℕ_discrete q k) [
    | yes same ↦
        let test : (q == k) ≡ true = ground (arith, same) in
        rw test (omega (arith, length-forget k xs))
    | no n ↦
        let test : (q == k) ≡ false = ground (arith, n) in
        rw test (
          omega (
            arith,
            length-forget_found k v xs (sym (ap (λ t. if t then some w else find k xs) test) ∙ e),
          ))
  ]

  recent-Bounded : (max : ℕ) (xs : List (ℕ × A)) → Bounded max (recent max xs)
  recent-Bounded zero xs = tt
  recent-Bounded (suc n) xs = omega (arith, length-take (suc n) xs)

  recent-same : (max : ℕ) (xs : List (ℕ × A)) → Bounded max xs → recent max xs ≡ xs
  recent-same zero xs b = refl
  recent-same (suc n) xs b = take_of_length-le (suc n) xs b

  shorter-Bounded :
      (max : ℕ) (xs ys : List (ℕ × A)) → length ys ≤ length xs → Bounded max xs → Bounded max ys
  shorter-Bounded zero xs ys h b = tt
  shorter-Bounded (suc n) xs ys h b = omega (arith, h, b)

  room :
      (max : ℕ) (l : List (Item A)) (i : Item A)
      → Bounded max (entries l)
      → (length (i ∷ l) ≤ suc max) ⊎ (max ≡ 0)
  room zero l i b = inr refl
  room (suc n) l i b = inl (omega (arith, b, length-entries l))
    where
      length-entries : (l : List (Item A)) → length (entries l) ≡ length l
      length-entries [] = refl
      length-entries (i ∷ l) = ap suc (length-entries l)

  forgotten : (k : ℕ) (l : List (Item A)) → entries (erase_by key k l) ≡ forget k (entries l)
  forgotten k l = map-erase_by entry (λ (e : ℕ × A). e.0) k l

  module _ (max : ℕ) (c : Cache A) (l : List (Item A)) (h : Represents c l)
      (e : c.max_entries ≡ max) (b : Bounded max (entries l)) where
    pub add-Works :
        (k : ℕ) (v : A) → Works max (add k v c) (recent max ((k, v) ∷ forget k (entries l)))
    unfolding add
    add-Works k v = go (place_of k l) refl
      where
        front : List (ℕ × A)
        front = recent max ((k, v) ∷ forget k (entries l))

        everything : (l : List (Item A)) → All (λ i. Unit {0}) l
        everything [] = tt
        everything (i ∷ l) = (tt, everything l)

        go : (o : Option ℕ) → place_of k l ≡ o → Works max (add_at (lookup k c.cache) k v c) front
        go none p =
            let at : Item A = (length c.elements, (k, v)) in
            let gone : forget k (entries l) ≡ entries l =
              sym (forgotten k l) ∙ ap entries (erase-absent k l p) in
            let (m, w, x) =
              within_limit-Shows (pushed k v c) (at ∷ l) max e (pushed-Represents c l k v h p)
                (room max l at b) in
            subst (λ o. Works max (add_at o k v c) front) (sym (h.index k ∙ p))
              (
                (m, w, x ∙ ap (λ t. recent max ((k, v) ∷ t)) (sym gone)),
                within_limit-max (pushed k v c) ∙ e,
                recent-Bounded max ((k, v) ∷ forget k (entries l)),
              )
        go (some r) p =
            let (u, _, y) = found (λ i. Unit {0}) k r l p (everything l) in
            let less = length-forget_found k u (entries l) y in
            let small : Bounded max ((k, v) ∷ forget k (entries l)) =
              shorter-Bounded max (entries l) ((k, v) ∷ forget k (entries l)) (omega (arith, less))
                b in
            subst (λ o. Works max (add_at o k v c) front) (sym (h.index k ∙ p))
              (
                (
                  (r, (k, v)) ∷ erase_by key k l,
                  renewed-Represents c l k r v h p,
                  ap (λ t. (k, v) ∷ t) (forgotten k l)
                      ∙ sym (recent-same max ((k, v) ∷ forget k (entries l)) small),
                ),
                e,
                recent-Bounded max ((k, v) ∷ forget k (entries l)),
              )

    pub remove-Works : (k : ℕ) → Works max (remove k c) (forget k (entries l))
    unfolding remove
    remove-Works k = (
      (erase_by key k l, remove-Represents c l h k, forgotten k l),
      remove_place-max (lookup k c.cache) c ∙ e,
      shorter-Bounded max (entries l) (forget k (entries l)) (length-forget k (entries l)) b,
    )

    -- The entry that is looked up comes to the front.
    abbrev pub touched : ℕ → Option A → List (ℕ × A)
    touched k none = entries l
    touched k (some v) = (k, v) ∷ forget k (entries l)

    abbrev pub Got : ℕ → Option A × Cache A → Type ℓ
    Got k (o, c') = (o ≡ find k (entries l)) × Works max c' (touched k (find k (entries l)))

    pub get-Works : (k : ℕ) → Got k (get k c)
    unfolding get
    get-Works k = go (place_of k l) refl
      where
        go : (o : Option ℕ) → place_of k l ≡ o → Got k (get_at (lookup k c.cache) c)
        go none p =
            let missing = find-none k l p in
            subst (λ o. Got k (get_at o c)) (sym (h.index k ∙ p))
              (
                sym missing,
                subst (λ o. Works max c (touched k o)) (sym missing) ((l, h, refl), e, b),
              )
        go (some r) p =
            let (v, at, y) =
              found (λ i. get_elem? c.elements (place i) ≡ some (entry i)) k r l p h.stored in
            let less = length-forget_found k v (entries l) y in
            let same : renewed r k v c ≡ move_to_front r c =
              ap (λ t. record (move_to_front r c) { elements = t })
                (set-same c.elements r (k, v) at) in
            let front : Works max (move_to_front r c) ((k, v) ∷ forget k (entries l)) = (
              (
                (r, (k, v)) ∷ erase_by key k l,
                subst (λ c. Represents c ((r, (k, v)) ∷ erase_by key k l)) same
                    (renewed-Represents c l k r v h p),
                ap (λ t. (k, v) ∷ t) (forgotten k l),
              ),
              e,
              shorter-Bounded max (entries l) ((k, v) ∷ forget k (entries l)) (omega (arith, less))
                  b,
            ) in
            subst (λ o. Got k (get_at o c)) (sym (h.index k ∙ p))
              (
                ap value_of at ∙ sym y,
                subst (λ o. Works max (move_to_front r c) (touched k o)) (sym y) front,
              )

    pub oldest-Works : Works max (remove_oldest c) (drop_last (entries l))
    unfolding remove_oldest back
    oldest-Works = go (last_cases l)
      where
        entries-last :
            (m : List (Item A)) (i : Item A) → drop_last (entries (m ++ i ∷ [])) ≡ entries m
        entries-last [] i = refl
        entries-last (j ∷ []) i = refl
        entries-last (j ∷ k ∷ m) i = ap (λ t. entry j ∷ t) (entries-last (k ∷ m) i)

        length-drop_last : (xs : List (ℕ × A)) → length (drop_last xs) ≤ length xs
        length-drop_last [] = omega arith
        length-drop_last (x ∷ []) = omega arith
        length-drop_last (x ∷ y ∷ xs) = omega (arith, length-drop_last (y ∷ xs))

        bound : Bounded max (drop_last (entries l))
        bound =
            shorter-Bounded max (entries l) (drop_last (entries l)) (length-drop_last (entries l)) b

        go :
            (l ≡ []) ⊎ ((m : List (Item A)) × (i : Item A) × (l ≡ m ++ i ∷ []))
            → Works max (remove_oldest c) (drop_last (entries l))
        go (inl none_left) =
            subst (λ o. Works max (remove_place o c) (drop_last (entries l)))
              (sym (ap back h.order ∙ ap (λ l. back (map place l)) none_left))
              (
                (l, h, ap entries none_left ∙ sym (ap (λ l. drop_last (entries l)) none_left)),
                e,
                bound,
              )
        go (inr (m, i, eq)) = (
          (
            m,
            oldest-Represents c m i (subst (Represents c) eq h),
            sym (ap (λ l. drop_last (entries l)) eq ∙ entries-last m i),
          ),
          remove_place-max (back c.ll) c ∙ e,
          bound,
        )
