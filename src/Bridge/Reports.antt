-- ===== src/Bridge/Reports.antt =====
-- The reports of a client, from what it sends to where requests go.
use nat_punch.Base.{
  ℕ, zero, suc, ◌<◌, ◌≤◌, ◌≡◌, refl, sym, ap, ◌∙◌, arith, Bool, true, List, [], ◌∷◌, ◌++◌, Option,
  none, some, inl, inr, length, ◌==◌, Bool-cases, some_unique, All, if◌then◌else◌,
}
use nat_punch.Base.Maps.{Map, lookup}
use nat_punch.File.Targets.{split_lines, kept_lines, targets}
use nat_punch.File.Tasks.{belongs_to}
use nat_punch.File.Hosts.{Host, contains}
use nat_punch.Link.{
  pool_size, get_write_str, get_bool_by_str, send_health_info, get_health_info, read_full, get_len,
}
use nat_punch.Link.Health.{Starless, get_health_info-send_health_info}
use nat_punch.Common.{trim_arr}
use nat_punch.Common.Arrays.{count}
use nat_punch.Bridge.Health.{
  Watched, report, with_host, report_hosts, Served, reported, and_again, get_health_from_client,
}
use nat_punch.Bridge.Recovery.{last_report, reports, count-reports}

-- What the client sends, a target and a status at a time, and what they say.
abbrev pub send_all : List (List ℕ × List ℕ) → List ℕ
send_all [] = []
send_all ((info, status) ∷ sent) = send_health_info info status ++ send_all sent

abbrev pub notices : List (List ℕ × List ℕ) → List (List ℕ × Bool)
notices [] = []
notices ((info, status) ∷ sent) = (info, get_bool_by_str status) ∷ notices sent

abbrev pub Sendable : List ℕ × List ℕ → Type 0
Sendable (info, status) =
    Starless info × Starless status × (length (get_write_str (info ∷ status ∷ [])) ≤ pool_size)

abbrev pub report_all : ℕ → List (List ℕ × Bool) → Served → Served
report_all id [] served = served
report_all id (notice ∷ rest) served = report_all id rest (reported id notice served)

nothing_sent : get_health_info [] ≡ none
unfolding get_health_info read_full get_len
nothing_sent = refl

received :
    (id fuel : ℕ) (sent : List (List ℕ × List ℕ)) (served : Served)
    → All Sendable sent
    → length sent < fuel
    → get_health_from_client fuel id (send_all sent) served ≡ report_all id (notices sent) served
unfolding get_health_from_client
received id zero sent served ok h = absurd (omega (arith, h))
received id (suc fuel) [] served ok h =
    ap (λ o. and_again id (get_health_from_client fuel id) o served) nothing_sent
received id (suc fuel) ((info, status) ∷ sent) served ((p, q, r), ok) h =
    ap (λ o. and_again id (get_health_from_client fuel id) o served)
      (get_health_info-send_health_info info status (send_all sent) p q r)
    ∙ received id fuel sent (reported id (info, get_bool_by_str status) served) ok
        (omega (arith, h))

owned : (o : Option ℕ) (id : ℕ) → o ≡ some id → belongs_to o id ≡ true
owned none id e = absurd cc
owned (some c) id e = ground (arith, e)

module _ (id k : ℕ) where
  lookup-report_hosts :
      (info : List ℕ) (status : Bool) (m : Map Host) (v : Host)
      → lookup k m ≡ some v
      → v.client ≡ some id
      → lookup k (report_hosts id info status m)
        ≡ some (with_host v (report info status (v.target, v.health_remove_arr)))
  unfolding report_hosts
  lookup-report_hosts info status [] v h mine = absurd cc
  lookup-report_hosts info status ((j, u) ∷ m) v h mine = elim (Bool-cases (k == j)) [
    | inl e ↦
        let here : u ≡ v =
          some_unique refl (sym (ap (λ t. if t then some u else lookup k m) e) ∙ h) in
        let own : belongs_to u.client id ≡ true =
          ap (λ w. belongs_to w.client id) here ∙ owned v.client id mine in
        rw (own, e)
          (ap (λ w. some (with_host w (report info status (w.target, w.health_remove_arr)))) here)
    | inr n ↦
        let there : lookup k m ≡ some v = sym (ap (λ t. if t then some u else lookup k m) n) ∙ h in
        elim (Bool-cases (belongs_to u.client id)) [
          | inl own ↦ rw (own, n) (lookup-report_hosts info status m v there mine)
          | inr other ↦ rw (other, n) (lookup-report_hosts info status m v there mine)
        ]
  ]

  abbrev watched : Host → Watched
  watched v = (v.target, v.health_remove_arr)

  lookup-report_all :
      (ns : List (List ℕ × Bool)) (served : Served) (v : Host)
      → lookup k served.1 ≡ some v
      → v.client ≡ some id
      → lookup k (report_all id ns served).1 ≡ some (with_host v (reports ns (watched v)))
  lookup-report_all [] served v h mine = h
  lookup-report_all ((info, status) ∷ ns) served v h mine =
      lookup-report_all ns (reported id (info, status) served)
        (with_host v (report info status (watched v)))
        (lookup-report_hosts info status served.1 v h mine) mine

  -- A client `id` that reports, with enough fuel for the reports, on targets by names and statuses
  -- without stars that fit a buffer. Take a host of that client of which nothing was reported and
  -- whose list of targets is not set, and a target that is found in its text and is one of its lines,
  -- once, both as they are and when the carriage returns at their ends are cut. The host stays under
  -- its key, the same but for its targets, and the targets that `GetRandomTarget` hands out hold that
  -- one exactly when it is not reported down, or has been reported up since.
  pub lookup-get_health_from_client :
      (fuel : ℕ) (sent : List (List ℕ × List ℕ)) (served : Served) (v : Host) (x : List ℕ)
      → All Sendable sent
      → length sent < fuel
      → lookup k served.1 ≡ some v
      → v.client ≡ some id
      → v.target.target_arr ≡ none
      → v.health_remove_arr ≡ []
      → count x (trim_arr (split_lines v.target.target_str)) ≡ 1
      → count x (kept_lines (split_lines v.target.target_str)) ≡ 1
      → contains x v.target.target_str ≡ true
      → (w : Watched) × (lookup k (get_health_from_client fuel id (send_all sent) served).1
          ≡ some (with_host v w))
        × (count x (targets w.0) ≡ (if last_report x true (notices sent) then 1 else 0))
  lookup-get_health_from_client fuel sent served v x ok enough at mine unset untouched once kept
        inside =
      (
        reports (notices sent) (watched v),
        ap (λ (s : Served). lookup k s.1) (received id fuel sent served ok enough)
            ∙ lookup-report_all (notices sent) served v at mine,
        ap (λ r. count x (targets (reports (notices sent) (v.target, r)).0)) untouched
            ∙ count-reports v.target.target_str x once inside (notices sent) v.target refl unset
                kept,
      )
