-- ===== src/File/Targets/Turns.antt =====
-- The targets come in turn, each once in a round.
use nat_punch.Base.{
  ℕ, zero, suc, false, ◌+◌, ◌%◌, ◌<◌, ◌≡◌, refl, ap, ◌∙◌, arith, List, Option, some, length,
  get_elem?, ◌==◌, dec_lt,
}
use nat_punch.File.Targets.{Target, targets, next_index, turn, get_random_target}
use native.Mathlib.Nat.{mod-add-mod, mod-eq_of_lt, mod-lt, mod_self}

-- What the call after `n` others returns.
unfoldable pub call : ℕ → Target → Option (List ℕ)
call zero t = (get_random_target t).1
call (suc n) t = call n (get_random_target t).0

next_index_lem : (count now : ℕ) → now < count → next_index count now ≡ (now + 1) % count
unfolding next_index
next_index_lem count now h = elim (dec_lt (now + 1) count) [
  | yes l ↦ ground (arith, mod-eq_of_lt l)
  | no n ↦
      let e : now + 1 ≡ count = omega arith in ground (arith, ap (λ k. k % count) e, mod_self count)
]

abbrev turned : Target → List (List ℕ) → Target
turned t arr = record {
  now_index = (t.now_index + 1) % length arr;
  target_str = t.target_str;
  target_arr = some arr;
}

turn_lem :
    (t : Target) (arr : List (List ℕ))
    → t.now_index < length arr
    → turn t arr ≡ (turned t arr, get_elem? arr ((t.now_index + 1) % length arr))
turn_lem t arr h =
    let some_left : (length arr == 0) ≡ false = ground arith in
    rw (some_left, next_index_lem (length arr) t.now_index h) refl

targets-turned : (t : Target) (arr : List (List ℕ)) → targets (turned t arr) ≡ arr
unfolding targets
targets-turned t arr = refl

get_random_target-turned :
    (t : Target) (arr : List (List ℕ))
    → targets t ≡ arr
    → t.now_index < length arr
    → get_random_target t ≡ (turned t arr, get_elem? arr ((t.now_index + 1) % length arr))
unfolding get_random_target
get_random_target-turned t arr e h = ap (turn t) e ∙ turn_lem t arr h

call-turns :
    (n : ℕ) (t : Target) (arr : List (List ℕ))
    → targets t ≡ arr
    → t.now_index < length arr
    → call n t ≡ get_elem? arr ((t.now_index + 1 + n) % length arr)
unfolding call
call-turns zero t arr e h =
    let same_place : t.now_index + 1 ≡ t.now_index + 1 + 0 = omega arith in
    ap (λ (p : Target × Option (List ℕ)). p.1) (get_random_target-turned t arr e h)
    ∙ ap (λ k. get_elem? arr (k % length arr)) same_place
call-turns (suc n) t arr e h =
    ap (λ (p : Target × Option (List ℕ)). call n p.0) (get_random_target-turned t arr e h)
    ∙ call-turns n (turned t arr) arr (targets-turned t arr) (below (length arr) (omega arith))
    ∙ ap (get_elem? arr) (shift (t.now_index + 1) (length arr) n)
  where
    shift : (a k n : ℕ) → (a % k + 1 + n) % k ≡ (a + suc n) % k
    shift a k n =
        let regroup : a % k + 1 + n ≡ a % k + suc n = omega arith in
        ap (λ m. m % k) regroup ∙ mod-add-mod a k (suc n)

    below : (k : ℕ) → 0 < k → (t.now_index + 1) % k < k
    below k l = mod-lt (t.now_index + 1) l

-- From an index within the targets, the call after `n` others returns the target `n + 1` places
-- further on, going round: each round of calls hands out every target once.
pub call_lem :
    (n : ℕ) (t : Target)
    → t.now_index < length (targets t)
    → call n t ≡ get_elem? (targets t) ((t.now_index + 1 + n) % length (targets t))
call_lem n t h = call-turns n t (targets t) refl h
