-- ===== src/Common/Arrays.antt =====
-- How often a string is in a list.
use nat_punch.Base.{
  ℕ, ◌+◌, ◌-◌, ◌≡◌, refl, sym, ap, ◌∙◌, arith, true, false, List, [], ◌∷◌, ◌++◌, ltb, inl, inr,
  Bool-cases, if◌then◌else◌,
}
use nat_punch.File.Clients.{same}
use nat_punch.Common.{is_arr_contains, remove_arr_val}

pub same-≡ : (x y : List ℕ) → same x y ≡ true → x ≡ y
same-≡ [] [] h = refl
same-≡ [] (y ∷ ys) h = absurd cc
same-≡ (x ∷ xs) [] h = absurd cc
same-≡ (x ∷ xs) (y ∷ ys) h = ground (arith, same-≡ xs ys)

pub same_sym : (x y : List ℕ) → same x y ≡ same y x
same_sym [] [] = refl
same_sym [] (y ∷ ys) = refl
same_sym (x ∷ xs) [] = refl
same_sym (x ∷ xs) (y ∷ ys) = ground (arith, same_sym xs ys)

abbrev pub count : List ℕ → List (List ℕ) → ℕ
count x [] = 0
count x (v ∷ arr) = let rest = count x arr in if same v x then rest + 1 else rest

pub is_arr_contains-count :
    (x : List ℕ) (arr : List (List ℕ)) → is_arr_contains arr x ≡ ltb 0 (count x arr)
unfolding is_arr_contains
is_arr_contains-count x [] = ground arith
is_arr_contains-count x (v ∷ arr) = ground (arith, is_arr_contains-count x arr)

pub count-append_one :
    (x y : List ℕ) (arr : List (List ℕ))
    → count x (arr ++ y ∷ []) ≡ count x arr + (if same y x then 1 else 0)
count-append_one x y [] = ground arith
count-append_one x y (v ∷ arr) = ground (arith, count-append_one x y arr)

same_apart : (v x y : List ℕ) → same v y ≡ false → same v x ≡ true → same y x ≡ false
same_apart v x y h e = same_sym y x ∙ (ap (λ s. same s y) (sym (same-≡ v x e)) ∙ h)

same_joined : (v x y : List ℕ) → same v y ≡ true → same v x ≡ same y x
same_joined v x y h = ap (λ s. same s x) (same-≡ v y h)

pub count-remove_arr_val :
    (x y : List ℕ) (arr : List (List ℕ))
    → count x (remove_arr_val arr y) ≡ (if same y x then count x arr - 1 else count x arr)
unfolding remove_arr_val
count-remove_arr_val x y [] = ground arith
count-remove_arr_val x y (v ∷ arr) = elim (Bool-cases (same v y)) [
  | inl e ↦ let joined = same_joined v x y e in rw e (ground (arith, joined))
  | inr n ↦ elim (Bool-cases (same v x)) [
    | inl e ↦
        let apart = same_apart v x y n e in
        rw n (ground (arith, apart, e, count-remove_arr_val x y arr))
    | inr m ↦ rw n (ground (arith, m, count-remove_arr_val x y arr))
  ]
]
