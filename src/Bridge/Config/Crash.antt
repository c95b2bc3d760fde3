-- ===== src/Bridge/Config/Crash.antt =====
-- The ports and the targets of `NEW_TASK`, which need not be as many.
use nat_punch.Base.{
  ℕ, ◌≤◌, ◌<◌, ◌≡◌, ◌≢◌, refl, sym, ap, ◌∙◌, arith, Bool, true, false, not, ◌&&◌, ◌||◌, List, [],
  ◌∷◌, Option, none, some, inl, inr, length, ltb, ◌==◌, Bool-cases, leb,
}
use nat_punch.Base.Bytes.{codes}
use nat_punch.Base.Maps.{Map}
use nat_punch.File.Clients.{same}
use nat_punch.File.Tasks.{Tunnel, has_tunnel, new_task, get_task_count_by_client}
use nat_punch.Common.Ports.{get_ports}
use nat_punch.Bridge.Config.{Session, Turn, goes_on, stops, fails, fails_without_client, panics}
use nat_punch.Bridge.Config.Tasks.{
  TaskInfo, Outside, only_tunnel, one_tunnel, opened, stored, add_tunnel, and_rest, add_tunnels,
  add_ports, work_as_new_task,
}

abbrev is_panic : Turn → Bool
is_panic panics = true
is_panic goes_on = false
is_panic stops = false
is_panic fails = false
is_panic fails_without_client = false

module _ (o : Outside) where
  opened_safe : (t : Tunnel) (s : Session) → is_panic (opened o t s).1 ≡ false
  opened_safe t s = elim (Bool-cases (o.test_server_port t.port t.mode)) [
    | inl e ↦ rw e refl
    | inr e ↦ rw e refl
  ]

  stored_safe :
      (t : Tunnel) (s : Session) (m : Option (Map Tunnel)) → is_panic (stored o t s m).1 ≡ false
  stored_safe t s none = refl
  stored_safe t s (some m) = elim (Bool-cases o.saved) [
    | inl e ↦ rw e (opened_safe t (record s { tasks = m }))
    | inr e ↦ rw e refl
  ]

  add_tunnel_safe : (t : Tunnel) (s : Session) → is_panic (add_tunnel o t s).1 ≡ false
  unfolding add_tunnel
  add_tunnel_safe t s = elim (Bool-cases (has_tunnel s.client.id t s.tasks)) [
    | inl has ↦ rw has refl
    | inr new ↦
        elim (Bool-cases (
          ltb 0 o.max_tunnels
          && leb o.max_tunnels (get_task_count_by_client s.client.id s.tasks))) [
            | inl full ↦ rw (new, full) refl
            | inr free ↦ rw (new, free) (stored_safe t s (new_task o.max_tunnels t s.tasks))
          ]
  ]

  and_rest_safe :
      (rest : Session → Session × Turn) (r : Session × Turn)
      → is_panic r.1 ≡ false
      → ((s : Session) → is_panic (rest s).1 ≡ false)
      → is_panic (and_rest o rest r).1 ≡ false
  and_rest_safe rest (s, goes_on) p q = q s
  and_rest_safe rest (s, stops) p q = p
  and_rest_safe rest (s, fails) p q = p
  and_rest_safe rest (s, fails_without_client) p q = p
  and_rest_safe rest (s, panics) p q = p

  add_tunnels_safe :
      (info : TaskInfo) (ports targets : List ℕ)
      → length ports ≤ length targets
      → (s : Session) → is_panic (add_tunnels o info ports targets s).1 ≡ false
  unfolding add_tunnels
  add_tunnels_safe info [] targets h s = refl
  add_tunnels_safe info (port ∷ ports) [] h s = absurd (omega (arith, h))
  add_tunnels_safe info (port ∷ ports) (target ∷ targets) h s =
      and_rest_safe (add_tunnels o info ports targets)
        (add_tunnel o (one_tunnel o info port target s) s)
        (add_tunnel_safe (one_tunnel o info port target s) s)
        (add_tunnels_safe info ports targets (omega (arith, h)))

  add_ports_safe :
      (info : TaskInfo) (ports targets : List ℕ) (s : Session)
      → (1 < length ports → length ports ≤ length targets)
      → is_panic (add_ports o info ports targets s).1 ≡ false
  add_ports_safe info [] targets s h = refl
  add_ports_safe info (port ∷ []) targets s h = add_tunnel_safe (only_tunnel o info port s) s
  add_ports_safe info (port ∷ next ∷ ports) targets s h =
      add_tunnels_safe info (port ∷ next ∷ ports) targets (h (omega arith)) s

  abbrev pub sent_ports : TaskInfo → List ℕ
  sent_ports info = get_ports o.atoi info.ports

  abbrev pub sent_targets : TaskInfo → List ℕ
  sent_targets info = get_ports o.atoi info.task.target.target_str

  abbrev pub is_paired : TaskInfo → Bool
  is_paired info = same info.task.mode (codes "tcp") || same info.task.mode (codes "udp")

  -- `NEW_TASK` for a tunnel in the mode `tcp` or `udp` never indexes its targets out of range,
  -- however many ports and targets are sent.
  pub work_as_new_task-is_paired :
      (info : TaskInfo) (s : Session)
      → is_paired info ≡ true
      → (work_as_new_task o (some info) s).1 ≢ panics
  unfolding work_as_new_task
  work_as_new_task-is_paired info s paired h =
      let ports = sent_ports info in
      let targets = sent_targets info in
      elim (Bool-cases
        (ltb 1 (length ports) && is_paired info && not (length ports == length targets))) [
          | inl bad ↦
              let refused : is_panic (work_as_new_task o (some info) s).1 ≡ false = rw bad refl in
              let e = sym refused ∙ ap is_panic h in absurd cc
          | inr good ↦
              let safe : is_panic (work_as_new_task o (some info) s).1 ≡ false =
                rw good
                  (add_ports_safe info ports targets s (λ l. ground (arith, good, paired, l))) in
              let e = sym safe ∙ ap is_panic h in absurd cc
        ]

  out_of_range :
      (info : TaskInfo) (port : ℕ) (ports : List ℕ) (s : Session)
      → add_tunnels o info (port ∷ ports) [] s ≡ (s, panics)
  unfolding add_tunnels
  out_of_range info port ports s = refl

  -- `NEW_TASK` in any other mode with more than one port and no target at all, as for a range of
  -- ports of a SOCKS5 tunnel, indexes the empty list of targets: the process ends in a panic.
  pub work_as_new_task-panics :
      (info : TaskInfo) (s : Session)
      → is_paired info ≡ false
      → 1 < length (sent_ports info)
      → sent_targets info ≡ []
      → work_as_new_task o (some info) s ≡ (s, panics)
  unfolding work_as_new_task
  work_as_new_task-panics info s other more none_sent =
      let test : (ltb 1 (length (sent_ports info))
            && is_paired info
            && not (length (sent_ports info) == length (sent_targets info)))
          ≡ false =
        ground (arith, other) in
      rw test (first (sent_ports info) (sent_targets info) more none_sent)
    where
      first :
          (ports targets : List ℕ)
          → 1 < length ports
          → targets ≡ []
          → add_ports o info ports targets s ≡ (s, panics)
      first [] targets l e = absurd (omega (arith, l))
      first (port ∷ []) targets l e = absurd (omega (arith, l))
      first (port ∷ next ∷ ports) targets l e = rw e (out_of_range info port (next ∷ ports) s)
