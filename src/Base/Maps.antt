-- ===== src/Base/Maps.antt =====
-- Maps with numbers as keys: Go's `sync.Map` and `map`, ranged over in the order of the list.
use Prim.Native.Nat.{ℕ}
use mathlib.Core.Path.{◌≡◌, refl, ap, sym, ◌∙◌, subst}
use mathlib.Core.Logic.{◌≢◌, ◌⊎◌, inl, inr}
use mathlib.Core.Option.{Option, none, some}
use mathlib.Core.List.{List, [], ◌∷◌}
use native.Mathlib.Omega.{arith}
use native.Mathlib.Decide.{ℕ_discrete}
use mathlib.Core.Bool.{true, false}
use nat_punch.Base.Tests.{◌==◌, if◌then◌else◌, some_unique}

abbrev pub Map {ℓ} : Type ℓ → Type ℓ
Map A = List (ℕ × A)

-- `a` is a value of the map.
module _ {A : Type 0} where
  abbrev pub Among : A → Map A → Type 0
  Among a [] = ⊥
  Among a ((i, b) ∷ m) = (a ≡ b) ⊎ Among a m

module _ {ℓ} {A : Type ℓ} where
  abbrev pub lookup : ℕ → Map A → Option A
  lookup key [] = none
  lookup key ((i, a) ∷ m) = let rest = lookup key m in if key == i then some a else rest

  abbrev pub store : ℕ → A → Map A → Map A
  store key v [] = (key, v) ∷ []
  store key v ((i, a) ∷ m) =
      let rest = store key v m in if key == i then (key, v) ∷ m else (i, a) ∷ rest

  abbrev pub delete : ℕ → Map A → Map A
  delete key [] = []
  delete key ((i, a) ∷ m) = let rest = delete key m in if key == i then rest else (i, a) ∷ rest

  pub lookup-store_same : (key : ℕ) (v : A) (m : Map A) → lookup key (store key v m) ≡ some v
  lookup-store_same key v [] = ground arith
  lookup-store_same key v ((i, a) ∷ m) = ground (arith, lookup-store_same key v m)

  pub lookup-store_other :
      (key other : ℕ) (v : A) (m : Map A)
      → other ≢ key
      → lookup other (store key v m) ≡ lookup other m
  lookup-store_other key other v [] h = ground arith
  lookup-store_other key other v ((i, a) ∷ m) h = ground (arith, lookup-store_other key other v m h)

  pub lookup-delete_same : (k : ℕ) (m : Map A) → lookup k (delete k m) ≡ none
  lookup-delete_same k [] = refl
  lookup-delete_same k ((i, a) ∷ m) = ground (arith, lookup-delete_same k m)

  pub lookup-delete_other : (q k : ℕ) (m : Map A) → q ≢ k → lookup q (delete k m) ≡ lookup q m
  lookup-delete_other q k [] n = refl
  lookup-delete_other q k ((i, a) ∷ m) n = ground (arith, n, lookup-delete_other q k m n)

  -- Every entry satisfies `P`.
  abbrev pub Each : (ℕ → A → Type 0) → Map A → Type 0
  Each P [] = Unit
  Each P ((i, a) ∷ m) = P i a × Each P m

  store-hit : (key i : ℕ) (v a : A) (m : Map A) → key ≡ i → (key, v) ∷ m ≡ store key v ((i, a) ∷ m)
  store-hit key i v a m e = ground arith

  store-miss :
      (key i : ℕ) (v a : A) (m : Map A)
      → key ≢ i
      → (i, a) ∷ store key v m ≡ store key v ((i, a) ∷ m)
  store-miss key i v a m e = ground arith

  pub store-Each :
      (P : ℕ → A → Type 0) (key : ℕ) (v : A) (m : Map A)
      → P key v
      → Each P m
      → Each P (store key v m)
  store-Each P key v [] p ps = (p, tt)
  store-Each P key v ((i, a) ∷ m) p (q, ps) = elim (ℕ_discrete key i) [
    | yes e ↦ subst (Each P) (store-hit key i v a m e) (p, ps)
    | no n ↦ subst (Each P) (store-miss key i v a m n) (q, store-Each P key v m p ps)
  ]

  lookup-hit :
      (key i : ℕ) (a : A) (m : Map A) {v : A} → key ≡ i → lookup key ((i, a) ∷ m) ≡ some v → a ≡ v
  lookup-hit key i a m e h = ground (arith, e)

  lookup-miss :
      (key i : ℕ) (a : A) (m : Map A) {v : A}
      → key ≢ i
      → lookup key ((i, a) ∷ m) ≡ some v
      → lookup key m ≡ some v
  lookup-miss key i a m e h = ground (arith, e)

  pub lookup-Each :
      (P : ℕ → A → Type 0) (key : ℕ) (m : Map A) {v : A}
      → Each P m
      → lookup key m ≡ some v
      → P key v
  lookup-Each P key [] ps h = absurd cc
  lookup-Each P key ((i, a) ∷ m) {v} (p, ps) h = elim (ℕ_discrete key i) [
    | yes e ↦ subst (λ k. P k v) (sym e) (subst (P i) (lookup-hit key i a m e h) p)
    | no n ↦ lookup-Each P key m ps (lookup-miss key i a m n h)
  ]

  pub lookup-store_cases :
      (i key : ℕ) (v : A) (m : Map A) {a : A}
      → lookup i (store key v m) ≡ some a
      → ((i ≡ key) × (a ≡ v)) ⊎ (lookup i m ≡ some a)
  lookup-store_cases i key v m {a} h = elim (ℕ_discrete i key) [
    | yes e ↦
        inl (e, some_unique h (ap (λ k. lookup k (store key v m)) e ∙ lookup-store_same key v m))
    | no n ↦ inr (sym (lookup-store_other key i v m n) ∙ h)
  ]

  pub delete-Each :
      (P : ℕ → A → Type 0) (key : ℕ) (m : Map A)
      → Each P m
      → Each (λ i a. P i a × (i ≢ key)) (delete key m)
  delete-Each P key [] ps = tt
  delete-Each P key ((i, a) ∷ m) (p, ps) = elim (ℕ_discrete key i) [
    | yes e ↦ let test : (key == i) ≡ true = ground (arith, e) in rw test (delete-Each P key m ps)
    | no n ↦
        let test : (key == i) ≡ false = ground (arith, n) in
        rw test ((p, λ e. n (sym e)), delete-Each P key m ps)
  ]

  pub Each-map :
      (P Q : ℕ → A → Type 0) (m : Map A) → ((i : ℕ) (a : A) → P i a → Q i a) → Each P m → Each Q m
  Each-map P Q [] f ps = tt
  Each-map P Q ((i, a) ∷ m) f (p, ps) = (f i a p, Each-map P Q m f ps)

  -- Each key stands once, as in Go's maps.
  abbrev pub Single : Map A → Type 0
  Single [] = Unit
  Single ((i, a) ∷ m) = Each (λ j b. j ≢ i) m × Single m

  pub store-Single : (key : ℕ) (v : A) (m : Map A) → Single m → Single (store key v m)
  store-Single key v [] s = (tt, tt)
  store-Single key v ((i, a) ∷ m) (p, s) = elim (ℕ_discrete key i) [
    | yes e ↦
        subst Single (store-hit key i v a m e) (subst (λ k. Each (λ j b. j ≢ k) m) (sym e) p, s)
    | no n ↦
        subst Single (store-miss key i v a m n)
          (store-Each (λ j b. j ≢ i) key v m n p, store-Single key v m s)
  ]

  pub delete-Single : (key : ℕ) (m : Map A) → Single m → Single (delete key m)
  delete-Single key [] s = tt
  delete-Single key ((i, a) ∷ m) (p, s) = elim (ℕ_discrete key i) [
    | yes e ↦ let test : (key == i) ≡ true = ground (arith, e) in rw test (delete-Single key m s)
    | no n ↦
        let test : (key == i) ≡ false = ground (arith, n) in
        rw test (
          Each-map (λ j b. (j ≢ i) × (j ≢ key)) (λ j b. j ≢ i) (delete key m) (λ j b q. q.0)
              (delete-Each (λ j b. j ≢ i) key m p),
          delete-Single key m s,
        )
  ]

  pub lookup_absent : (key : ℕ) (m : Map A) → Each (λ j b. j ≢ key) m → lookup key m ≡ none
  lookup_absent key [] p = refl
  lookup_absent key ((i, a) ∷ m) (p, ps) =
      let test : (key == i) ≡ false = ground (arith, p) in rw test (lookup_absent key m ps)
