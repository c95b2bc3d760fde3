-- ===== src/Bridge/Recovery.antt =====
-- Which targets requests go to, after what the client has reported.
use nat_punch.Base.{
  ℕ, ◌≡◌, refl, sym, ap, ◌∙◌, subst, arith, Bool, true, false, not, ◌&&◌, List, [], ◌∷◌, ◌++◌, none,
  some, ◌⊎◌, inl, inr, ltb, Bool-cases, if◌then◌else◌,
}
use nat_punch.File.Clients.{same}
use nat_punch.File.Targets.{Target, split_lines, kept_lines, targets_of, targets}
use nat_punch.File.Hosts.{contains}
use nat_punch.Common.{trim_arr, is_arr_contains, remove_arr_val}
use nat_punch.Common.Arrays.{
  count, same-≡, is_arr_contains-count, count-append_one, count-remove_arr_val,
}
use nat_punch.Bridge.Health.{Watched, target_list, put_down, arr_of, put_up, report}

-- What was reported last of a target, which is up before any report.
abbrev pub last_report : List ℕ → Bool → List (List ℕ × Bool) → Bool
last_report x was [] = was
last_report x was ((info, status) ∷ notices) =
    last_report x (if same info x then status else was) notices

abbrev pub reports : List (List ℕ × Bool) → Watched → Watched
reports [] w = w
reports ((info, status) ∷ notices) w = reports notices (report info status w)

-- `x` is a line of the target, and stands in the list exactly when it is up; when it is down it
-- stands among the removed.
abbrev pub Tracks : (str x : List ℕ) → Bool → Watched → Type 0
Tracks str x up (t, removed) =
    (t.target_str ≡ str)
    × (((t.target_arr ≡ none) × (removed ≡ []) × (up ≡ true))
        ⊎ ((arr : List (List ℕ)) × (t.target_arr ≡ some arr)
            × (count x arr ≡ (if up then 1 else 0))
            × (count x removed ≡ 0 → up ≡ true)))

module _ (str x : List ℕ) (line : count x (trim_arr (split_lines str)) ≡ 1)
    (inside : contains x str ≡ true) where
  listed_some :
      (arr removed : List (List ℕ)) (up : Bool)
      → count x arr ≡ (if up then 1 else 0)
      → (count x removed ≡ 0 → up ≡ true)
      → count x (target_list (some arr) str removed) ≡ (if up then 1 else 0)
  unfolding target_list
  listed_some [] [] up p q = let e : up ≡ true = q refl in rw e line
  listed_some [] (r ∷ removed) up p q = p
  listed_some (a ∷ arr) removed up p q = p

  listed :
      (t : Target) (removed : List (List ℕ)) (up : Bool)
      → Tracks str x up (t, removed)
      → count x (target_list t.target_arr t.target_str removed) ≡ (if up then 1 else 0)
  unfolding target_list
  listed t removed up (s, inl (p, q, r)) = rw (p, s, r) line
  listed t removed up (s, inr (arr, p, q, r)) =
      ap (λ o. count x (target_list o t.target_str removed)) p
      ∙ (ap (λ s. count x (target_list (some arr) s removed)) s ∙ listed_some arr removed up q r)

  listed_after :
      (t : Target) (removed : List (List ℕ)) (up : Bool)
      → Tracks str x up (t, removed)
      → count x removed ≡ 0
      → up ≡ true
  listed_after t removed up (s, inl (p, q, r)) h = r
  listed_after t removed up (s, inr (arr, p, q, r)) h = r h

  put_down-Tracks :
      (info : List ℕ) (t : Target) (removed : List (List ℕ)) (up : Bool)
      → Tracks str x up (t, removed)
      → Tracks str x (if same info x then false else up) (put_down info (t, removed))
  unfolding put_down
  put_down-Tracks info t removed up h =
      let old = target_list t.target_arr t.target_str removed in
      let listed_old : count x old ≡ (if up then 1 else 0) = listed t removed up h in
      let implied : count x removed ≡ 0 → up ≡ true = listed_after t removed up h in
      (
        h.0,
        inr (
          remove_arr_val old info,
          refl,
          ground (arith, count-remove_arr_val x info old, listed_old),
          λ none_removed. ground (arith, count-append_one x info removed, none_removed, implied _),
        ),
      )

  count_alike :
      (info : List ℕ) (arr : List (List ℕ)) → same info x ≡ true → count info arr ≡ count x arr
  count_alike info arr e = ap (λ s. count s arr) (same-≡ info x e)

  put_up-Tracks :
      (info : List ℕ) (t : Target) (removed : List (List ℕ)) (up : Bool)
      → Tracks str x up (t, removed)
      → is_arr_contains removed info ≡ true
      → is_arr_contains (arr_of t.target_arr) info ≡ false
      → Tracks str x (if same info x then true else up) (put_up info (t, removed))
  unfolding put_up arr_of is_arr_contains
  put_up-Tracks info t removed up (s, inl (p, q, r)) was not_in =
      let none_removed = ap (λ l. is_arr_contains l info) (sym q) ∙ was in absurd cc
  put_up-Tracks info t removed up (s, inr (arr, p, q, r)) was not_in =
      let here : arr_of t.target_arr ≡ arr = ap arr_of p in
      let out : ltb 0 (count info arr) ≡ false =
        sym (is_arr_contains-count info arr)
        ∙ (ap (λ l. is_arr_contains l info) (sym here) ∙ not_in) in
      (
        s,
        inr (
          arr_of t.target_arr ++ info ∷ [],
          refl,
          ap (λ l. count x (l ++ info ∷ [])) here
              ∙ ground (arith, count-append_one x info arr, q, out, count_alike info arr _),
          λ none_removed. ground (arith, count-remove_arr_val x info removed, none_removed, r _),
        ),
      )

  -- A report that changes nothing agrees with what was known.
  unreported :
      (info : List ℕ) (t : Target) (removed : List (List ℕ)) (up : Bool)
      → Tracks str x up (t, removed)
      → is_arr_contains removed info ≡ false
      → (if same info x then true else up) ≡ up
  unreported info t removed up h n = elim (Bool-cases (same info x)) [
    | inl e ↦
        let none_removed : count x removed ≡ 0 =
          ground (arith, is_arr_contains-count info removed, n, count_alike info removed e) in
        rw e (sym (listed_after t removed up h none_removed))
    | inr m ↦ rw m refl
  ]

  served :
      (info : List ℕ) (t : Target) (removed : List (List ℕ)) (up : Bool)
      → Tracks str x up (t, removed)
      → is_arr_contains (arr_of t.target_arr) info ≡ true
      → (if same info x then true else up) ≡ up
  unfolding arr_of
  served info t removed up (s, inl (p, q, r)) n = ground (arith, r)
  served info t removed up (s, inr (arr, p, q, r)) n = elim (Bool-cases (same info x)) [
    | inl e ↦
        let some_count : ltb 0 (count info arr) ≡ true =
          sym (is_arr_contains-count info arr)
          ∙ (ap (λ o. is_arr_contains (arr_of o) info) (sym p) ∙ n) in
        rw e (ground (arith, some_count, count_alike info arr e, q))
    | inr m ↦ rw m refl
  ]

  elsewhere :
      (info : List ℕ) (t : Target) (removed : List (List ℕ)) (up : Bool)
      → Tracks str x up (t, removed)
      → contains info t.target_str ≡ false
      → (if same info x then false else up) ≡ up
  elsewhere info t removed up h n = elim (Bool-cases (same info x)) [
    | inl e ↦
        let within : contains info t.target_str ≡ true =
          ap (λ s. contains s t.target_str) (same-≡ info x e) ∙ (ap (contains x) h.0 ∙ inside) in
        absurd cc
    | inr m ↦ rw m refl
  ]

  report_up-Tracks :
      (info : List ℕ) (t : Target) (removed : List (List ℕ)) (up : Bool) (was found : Bool)
      → Tracks str x up (t, removed)
      → is_arr_contains removed info ≡ was
      → is_arr_contains (arr_of t.target_arr) info ≡ found
      → Tracks str x
          (if same info x then true else up)
          (if was && not found then put_up info (t, removed) else (t, removed))
  report_up-Tracks info t removed up true false h p q = put_up-Tracks info t removed up h p q
  report_up-Tracks info t removed up false found h p q =
      subst (λ u. Tracks str x u (t, removed)) (sym (unreported info t removed up h p)) h
  report_up-Tracks info t removed up true true h p q =
      subst (λ u. Tracks str x u (t, removed)) (sym (served info t removed up h q)) h

  report-Tracks :
      (info : List ℕ) (status : Bool) (t : Target) (removed : List (List ℕ)) (up : Bool)
      → Tracks str x up (t, removed)
      → Tracks str x (if same info x then status else up) (report info status (t, removed))
  unfolding report
  report-Tracks info true t removed up h = report_up-Tracks info t removed up _ _ h refl refl
  report-Tracks info false t removed up h = elim (Bool-cases (contains info t.target_str)) [
    | inl e ↦ rw e (put_down-Tracks info t removed up h)
    | inr n ↦
        rw n (subst (λ u. Tracks str x u (t, removed)) (sym (elsewhere info t removed up h n)) h)
  ]

  pub reports-Tracks :
      (notices : List (List ℕ × Bool)) (w : Watched) (up : Bool)
      → Tracks str x up w
      → Tracks str x (last_report x up notices) (reports notices w)
  reports-Tracks [] w up h = h
  reports-Tracks ((info, status) ∷ notices) (t, removed) up h =
      reports-Tracks notices (report info status (t, removed)) (if same info x then status else up)
        (report-Tracks info status t removed up h)

  -- `GetRandomTarget` hands out what is tracked.
  offered :
      count x (kept_lines (split_lines str)) ≡ 1
      → (t : Target) (removed : List (List ℕ)) (up : Bool) → Tracks str x up (t, removed)
      → count x (targets t) ≡ (if up then 1 else 0)
  unfolding targets
  offered kept t removed up (s, inl (p, q, r)) =
      ap (λ o. count x (targets_of t.target_str o)) p
      ∙ (ap (λ s. count x (kept_lines (split_lines s))) s ∙ rw r kept)
  offered kept t removed up (s, inr (arr, p, q, r)) =
      ap (λ o. count x (targets_of t.target_str o)) p ∙ q

  pub count-reports :
      (notices : List (List ℕ × Bool)) (t : Target)
      → t.target_str ≡ str
      → t.target_arr ≡ none
      → count x (kept_lines (split_lines str)) ≡ 1
      → count x (targets (reports notices (t, [])).0)
        ≡ (if last_report x true notices then 1 else 0)
  count-reports notices t p q kept =
      offered kept (reports notices (t, [])).0 (reports notices (t, [])).1
        (last_report x true notices) (reports-Tracks notices (t, []) true (p, inl (q, refl, refl)))
