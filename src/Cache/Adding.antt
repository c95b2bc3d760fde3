-- ===== src/Cache/Adding.antt =====
-- Entries that come, and the oldest that goes for them.
use nat_punch.Base.{
  ℕ, zero, suc, ◌<◌, ◌≤◌, ◌≡◌, refl, sym, ap, ◌∙◌, subst, arith, true, false, not, ◌&&◌, List, [],
  ◌∷◌, ◌++◌, some, length, map, take, All, ltb, ◌==◌, if◌then◌else◌, ◌⊎◌, inl, inr, dec_lt,
  take_of_length-le,
}
use nat_punch.Cache.{
  Cache, erase_by, back, remove_element_locked, remove_place, remove_oldest, within_limit,
}
use nat_punch.Cache.Keeps.{Item, place, entry, key, place_of, Other, Apart, Represents}
use nat_punch.Cache.Removing.{entries, removed-Represents}

module _ {ℓ} {A : Type ℓ} where
  All-last : (P : Item A → Type 0) (m : List (Item A)) (i : Item A) → All P (m ++ i ∷ []) → P i
  All-last P [] i (p, ps) = p
  All-last P (j ∷ m) i (p, ps) = All-last P m i ps

  back-last : (m : List (Item A)) (i : Item A) → back (map place (m ++ i ∷ [])) ≡ some (place i)
  unfolding back
  back-last [] i = refl
  back-last (j ∷ []) i = refl
  back-last (j ∷ k ∷ m) i = back-last (k ∷ m) i

  place_of-last :
      (m : List (Item A)) (i : Item A)
      → Apart (m ++ i ∷ [])
      → place_of (key i) (m ++ i ∷ []) ≡ some (place i)
  place_of-last [] i h = ground arith
  place_of-last (j ∷ m) i (p, h) =
      let (q, n) = All-last (Other j) m i p in
      let test : (key j == key i) ≡ false = ground (arith, n) in rw test (place_of-last m i h)

  erase-last :
      (m : List (Item A)) (i : Item A)
      → Apart (m ++ i ∷ [])
      → erase_by key (key i) (m ++ i ∷ []) ≡ m
  erase-last [] i h = ground arith
  erase-last (j ∷ m) i (p, h) =
      let (q, n) = All-last (Other j) m i p in
      let test : (key j == key i) ≡ false = ground (arith, n) in
      rw test (ap (λ t. j ∷ t) (erase-last m i h))

  pub oldest-Represents :
      (c : Cache A) (m : List (Item A)) (i : Item A)
      → Represents c (m ++ i ∷ [])
      → Represents (remove_oldest c) m
  unfolding remove_oldest
  oldest-Represents c m i h =
      subst (λ o. Represents (remove_place o c) m) (sym (ap back h.order ∙ back-last m i))
        (subst (Represents (remove_element_locked (place i) c)) (erase-last m i h.apart)
          (removed-Represents c (m ++ i ∷ []) h (key i) (place i) (place_of-last m i h.apart)))

  -- A list is empty or ends in something.
  pub last_cases :
      (l : List (Item A)) → (l ≡ []) ⊎ ((m : List (Item A)) × (i : Item A) × (l ≡ m ++ i ∷ []))
  last_cases [] = inl refl
  last_cases (j ∷ l) = go (last_cases l)
    where
      go :
          (l ≡ []) ⊎ ((m : List (Item A)) × (i : Item A) × (l ≡ m ++ i ∷ []))
          → (j ∷ l ≡ []) ⊎ ((m : List (Item A)) × (i : Item A) × (j ∷ l ≡ m ++ i ∷ []))
      go (inl e) = inr ([], j, ap (λ t. j ∷ t) e)
      go (inr (m, i, e)) = inr (j ∷ m, i, ap (λ t. j ∷ t) e)

  length-snoc : (m : List (Item A)) (i : Item A) → length (m ++ i ∷ []) ≡ suc (length m)
  length-snoc [] i = refl
  length-snoc (j ∷ m) i = ap suc (length-snoc m i)

  length-entries : (l : List (Item A)) → length (entries l) ≡ length l
  length-entries [] = refl
  length-entries (i ∷ l) = ap suc (length-entries l)

  length-places : (l : List (Item A)) → length (map place l) ≡ length l
  length-places [] = refl
  length-places (i ∷ l) = ap suc (length-places l)

  take-snoc :
      (n : ℕ) (m : List (Item A)) (i : Item A)
      → length m ≡ n
      → take n (entries (m ++ i ∷ [])) ≡ entries m
  take-snoc zero [] i e = refl
  take-snoc zero (j ∷ m) i e = absurd (omega (arith, e))
  take-snoc (suc n) [] i e = absurd (omega (arith, e))
  take-snoc (suc n) (j ∷ m) i e = ap (λ t. entry j ∷ t) (take-snoc n m i (omega (arith, e)))

  -- The most recent entries, as many as the limit allows; 0 is no limit.
  abbrev pub recent : ℕ → List (ℕ × A) → List (ℕ × A)
  recent zero xs = xs
  recent (suc n) xs = take (suc n) xs

  abbrev pub Bounded : ℕ → List (ℕ × A) → Type 0
  Bounded zero xs = Unit
  Bounded (suc n) xs = length xs ≤ suc n

  -- A cache that holds these entries, the most recent first.
  abbrev pub Shows : Cache A → List (ℕ × A) → Type ℓ
  Shows c xs = (l : List (Item A)) × Represents c l × (entries l ≡ xs)

  -- The end of `Add`, which leaves as many entries as the limit allows.
  pub within_limit-Shows :
      (c : Cache A) (l : List (Item A)) (max : ℕ)
      → c.max_entries ≡ max
      → Represents c l
      → length l ≤ suc max ⊎ (max ≡ 0)
      → Shows (within_limit c) (recent max (entries l))
  unfolding within_limit
  within_limit-Shows c l zero e h b =
      let test : (c.max_entries == 0) ≡ true = ground (arith, e) in rw test (l, h, refl)
  within_limit-Shows c l (suc n) e h (inr z) = absurd (omega (arith, z))
  within_limit-Shows c l (suc n) e h (inl b) = elim (dec_lt (suc n) (length l)) [
    | yes long ↦ over long (last_cases l)
    | no short ↦
        let limited : (c.max_entries == 0) ≡ false = ground (arith, e) in
        let test : ltb c.max_entries (length c.ll) ≡ false =
          ground (arith, e, short, ap length h.order, length-places l) in
        rw (limited, test)
          (
            l,
            h,
            sym (take_of_length-le (suc n) (entries l) (omega (arith, short, length-entries l))),
          )
  ]
    where
      over :
          suc n < length l
          → (l ≡ []) ⊎ ((m : List (Item A)) × (i : Item A) × (l ≡ m ++ i ∷ []))
          → Shows
              (if not (c.max_entries == 0) && ltb c.max_entries (length c.ll)
                then remove_oldest c
                else c)
              (take (suc n) (entries l))
      over long (inl none_left) = absurd (omega (arith, long, ap length none_left))
      over long (inr (m, i, eq)) =
          let limited : (c.max_entries == 0) ≡ false = ground (arith, e) in
          let test : ltb c.max_entries (length c.ll) ≡ true =
            ground (arith, e, long, ap length h.order, length-places l) in
          let size : length m ≡ suc n = omega (arith, b, long, ap length eq, length-snoc m i) in
          rw (limited, test)
            (
              m,
              oldest-Represents c m i (subst (Represents c) eq h),
              sym (ap (λ l. take (suc n) (entries l)) eq ∙ take-snoc (suc n) m i size),
            )
