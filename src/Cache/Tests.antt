-- ===== src/Cache/Tests.antt =====
-- The cache at a concrete run.
use nat_punch.Base.{ℕ, ◌≡◌, refl, true, List, [], ◌∷◌, none, some}
use nat_punch.Cache.{new, add, get, remove_oldest, within_limit, remove_element_locked, back}
use nat_punch.Cache.Runs.{Op, adding, getting, run, run_list, run-new-list}

-- The third key drives out the second, which was used less recently than the first.
abbrev ops : List (Op ℕ)
ops = adding 1 10 ∷ adding 2 20 ∷ getting 1 ∷ adding 3 30 ∷ getting 2 ∷ getting 1 ∷ []

ops-answers : run ops (new 2 true) ≡ some 10 ∷ none ∷ some 10 ∷ []
unfolding run new add get within_limit remove_oldest remove_element_locked back
ops-answers = refl

run-new-list_example : run ops (new 2 true) ≡ run_list 2 ops []
run-new-list_example = run-new-list 2 true ops
