-- ===== src/Mux/Chain/Runs.antt =====
-- A chain against the list that it stands for, over any sequence of calls.
use nat_punch.Base.{ℕ, ◌^◌, ◌≤◌, ◌≡◌, refl, List, [], ◌∷◌, ◌++◌, Option, none, some}
use nat_punch.Mux.Chain.{Chain, Outcome, waits, done, new, push_head, pop_tail}
use nat_punch.Mux.Chain.Fifo.{
  ChainHolds, first, rest, new-ChainHolds, push_head-ChainHolds, pop_tail-ChainHolds,
}
use mathlib.Core.Option

pub data Op {ℓ} (A : Type ℓ) : Type ℓ where
  put : A → Op A
  take : Op A

module _ {ℓ} {A : Type ℓ} where
  abbrev noted : Outcome A → (Chain A → Option (List (Option A))) → Option (List (Option A))
  noted waits k = none
  noted (done o c) k = Option.map (◌∷◌ o) (k c)

  -- What each `take` of a script returns; `none` if one of them would wait.
  unfoldable pub run : Chain A → List (Op A) → Option (List (Option A))
  run c [] = some []
  run c (put x ∷ ops) = run (push_head x c) ops
  run c (take ∷ ops) = noted (pop_tail c) (λ c'. run c' ops)

  -- The same calls on a list, oldest element first.
  unfoldable pub run_list : List A → List (Op A) → List (Option A)
  run_list xs [] = []
  run_list xs (put x ∷ ops) = run_list (xs ++ x ∷ []) ops
  run_list xs (take ∷ ops) = first xs ∷ run_list (rest xs) ops

  run-ChainHolds :
      (ops : List (Op A)) (c : Chain A) (xs : List A)
      → ChainHolds c xs
      → run c ops ≡ some (run_list xs ops)
  unfolding run run_list
  run-ChainHolds [] c xs h = refl
  run-ChainHolds (put x ∷ ops) c xs h =
      run-ChainHolds ops (push_head x c) (xs ++ x ∷ []) (push_head-ChainHolds x c h)
  run-ChainHolds (take ∷ ops) c xs h =
      let (c', e, h') = pop_tail-ChainHolds c h in rw (e, run-ChainHolds ops c' (rest xs) h') refl

  -- A chain made with a ring of 2 ^ k slots, k at most 30, answers every sequence of `pushHead` and
  -- `popTail` as a first-in first-out list that starts empty does, and no call waits.
  pub run-run_list :
      (k : ℕ) (ops : List (Op A)) → k ≤ 30 → run (new (2 ^ k)) ops ≡ some (run_list [] ops)
  run-run_list k ops h = run-ChainHolds ops (new (2 ^ k)) [] (new-ChainHolds k h)
