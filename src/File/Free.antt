-- ===== src/File/Free.antt =====
-- The smallest free number of clients and of tunnels: the loops of `nextClientIdLocked` and
-- `GetTaskId` in lib/file/file.go.
use nat_punch.Base.{
  ℕ, zero, suc, ◌+◌, ◌≤◌, ◌<◌, ◌≡◌, refl, arith, Bool, true, false, ◌||◌, none, [], ◌∷◌, length,
  leb, ◌==◌, if◌then◌else◌, dec_lt,
}
use nat_punch.Base.Maps.{Map, lookup, Each}

-- `number` is the field of the stored objects that holds their number.
module _ {A : Type 0} (number : A → ℕ) where
  -- Each stands under its own number, and numbers start at 1.
  abbrev pub Numbered : Map A → Type 0
  Numbered m = Each (λ key c. (number c ≡ key) × (1 ≤ key)) m

  -- The map `used`, at one number.
  unfoldable pub used : ℕ → Map A → Bool
  used i [] = false
  used i ((key, c) ∷ m) = let rest = used i m in number c == i || rest

  -- The loop.
  unfoldable pub search_from : (fuel : ℕ) → ℕ → Map A → ℕ
  search_from zero i m = i
  search_from (suc fuel) i m = let rest = search_from fuel (i + 1) m in if used i m then rest else i

  unfoldable pub next_free : Map A → ℕ
  next_free m = search_from (length m + 1) 1 m

  -- How many have a number from `i` on.
  unfoldable above : ℕ → Map A → ℕ
  above i [] = 0
  above i ((key, c) ∷ m) = let rest = above i m in if leb i (number c) then suc rest else rest

  above_mono : (i : ℕ) (m : Map A) → above (i + 1) m ≤ above i m
  unfolding above
  above_mono i [] = omega arith
  above_mono i ((key, c) ∷ m) = ground (arith, above_mono i m)

  above-used : (i : ℕ) (m : Map A) → used i m ≡ true → above (i + 1) m < above i m
  unfolding above used
  above-used i [] h = absurd cc
  above-used i ((key, c) ∷ m) h = ground (arith, above-used i m, above_mono i m)

  above-le : (i : ℕ) (m : Map A) → above i m ≤ length m
  unfolding above
  above-le i [] = omega arith
  above-le i ((key, c) ∷ m) = ground (arith, above-le i m)

  search-unused :
      (fuel i : ℕ) (m : Map A) → above i m < fuel → used (search_from fuel i m) m ≡ false
  unfolding search_from
  search-unused zero i m h = absurd (omega arith)
  search-unused (suc fuel) i m h = ground (arith, above-used i m, search-unused fuel (i + 1) m)

  search-le : (fuel i : ℕ) (m : Map A) → i ≤ search_from fuel i m
  unfolding search_from
  search-le zero i m = omega arith
  search-le (suc fuel) i m = ground (arith, search-le fuel (i + 1) m)

  search-used : (fuel i j : ℕ) (m : Map A) → i ≤ j → j < search_from fuel i m → used j m ≡ true
  unfolding search_from
  search-used zero i j m h k = absurd (omega arith)
  search-used (suc fuel) i j m h k = elim (dec_lt i j) [
    | yes l ↦ ground (arith, search-used fuel (i + 1) j m)
    | no n ↦ let e : i ≡ j = omega arith in ground (arith, e)
  ]

  lookup-used : (i : ℕ) (m : Map A) → Numbered m → used i m ≡ false → lookup i m ≡ none
  unfolding used
  lookup-used i [] k h = refl
  lookup-used i ((key, c) ∷ m) ((p, q), ks) h = ground (arith, lookup-used i m ks)

  pub next_free_lem :
      (m : Map A)
      → Numbered m
      → (lookup (next_free m) m ≡ none)
        × (1 ≤ next_free m)
        × ((j : ℕ) → 1 ≤ j → j < next_free m → used j m ≡ true)
  unfolding next_free
  next_free_lem m k = (
    lookup-used _ m k (search-unused (length m + 1) 1 m (ground (arith, above-le 1 m))),
    search-le (length m + 1) 1 m,
    λ j l h. search-used (length m + 1) 1 j m l h,
  )
