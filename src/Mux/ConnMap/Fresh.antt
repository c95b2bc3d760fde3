-- ===== src/Mux/ConnMap/Fresh.antt =====
-- A number from `getId` is free, and the search for it ends.
use nat_punch.Base.{
  ℕ, zero, suc, ◌+◌, ◌<◌, ◌≤◌, ◌≡◌, refl, arith, none, some, [], ◌∷◌, length, leb, if◌then◌else◌,
  Option-cases, inl, inr,
}
use nat_punch.Base.Maps.{Map, lookup}
use nat_punch.Mux.ConnMap.{max_int32, next, get, size, get_id}

next_lem : (id : ℕ) → id + 10000 ≤ max_int32 → next id ≡ id + 1
unfolding next
next_lem id h = ground arith

module _ {ℓ} {A : Type ℓ} where
  -- The connections with numbers from `i` on.
  unfoldable above : ℕ → Map A → ℕ
  above i [] = 0
  above i ((key, v) ∷ m) = let rest = above i m in if leb i key then suc rest else rest

  above_mono : (i : ℕ) (m : Map A) → above (i + 1) m ≤ above i m
  unfolding above
  above_mono i [] = omega arith
  above_mono i ((key, v) ∷ m) = ground (arith, above_mono i m)

  above-lookup : (i : ℕ) (m : Map A) (v : A) → lookup i m ≡ some v → above (i + 1) m < above i m
  unfolding above
  above-lookup i [] v h = absurd cc
  above-lookup i ((key, w) ∷ m) v h = ground (arith, above-lookup i m v, above_mono i m)

  above-le : (i : ℕ) (m : Map A) → above i m ≤ length m
  unfolding above
  above-le i [] = omega arith
  above-le i ((key, v) ∷ m) = ground (arith, above-le i m)

  search_lem :
      (fuel id : ℕ) (m : Map A)
      → above (id + 1) m < fuel
      → id + 10000 + fuel ≤ max_int32
      → (i : ℕ) × (get_id fuel id m ≡ some i) × (get i m ≡ none) × (id < i) × (i ≤ id + fuel)
  unfolding get_id next
  search_lem zero id m h k = absurd (omega arith)
  search_lem (suc fuel) id m h k = elim (Option-cases (lookup (id + 1) m)) [
    | inl free ↦
        let e = next_lem id (omega arith) in
        (id + 1, rw (e, free) refl, free, omega arith, omega arith)
    | inr taken ↦
        let (v, at) = taken in
        let e = next_lem id (omega arith) in
        let less = above-lookup (id + 1) m v at in
        let (i, found, free, l, u) =
          search_lem fuel (id + 1) m (omega (arith, less)) (omega arith) in
        (i, rw (e, at) found, free, omega arith, omega arith)
  ]

  -- While the counter is so far from the end of the range that it does not start over, `getId`
  -- finds a number that no connection has, above the counter, within one try more than there are
  -- connections.
  pub get_id-free :
      (id : ℕ) (m : Map A)
      → id + 10000 + (size m + 1) ≤ max_int32
      → (i : ℕ) × (get_id (size m + 1) id m ≡ some i)
        × (get i m ≡ none)
        × (id < i)
        × (i ≤ id + (size m + 1))
  get_id-free id m h = search_lem (length m + 1) id m (omega (arith, above-le (id + 1) m)) h
