-- ===== src/Bridge/Config/Others.antt =====
-- The hosts and tunnels of a configuration, and all its messages.
use nat_punch.Base.{
  ℕ, ◌+◌, ◌%◌, ◌^◌, ◌<◌, ◌≤◌, ◌≡◌, refl, ap, ◌∙◌, arith, true, not, ◌&&◌, ◌||◌, List, [], ◌∷◌,
  Option, none, some, inl, inr, length, ltb, leb, ◌==◌, Bool-cases, if◌then◌else◌,
}
use nat_punch.Base.Bytes.{codes}
use nat_punch.Base.Maps.{lookup, store, Each-map, store-Each, lookup-store_other}
use nat_punch.File.Clients.{same}
use nat_punch.File.Free.{next_free_lem}
use nat_punch.File.Tasks.{
  Tunnel, has_tunnel, new_task, over_limit, get_task_id, get_task_count_by_client,
}
use nat_punch.File.Hosts.{Host, slash, has_host, is_host_exist, new_host}
use nat_punch.Common.Ports.{get_ports}
use nat_punch.Bridge.Config.{
  Session, Turn, goes_on, stops, fails, fails_without_client, panics, refuse, get_host_info,
  with_hosts, add_host, next_host_id, work_as_new_host,
}
use nat_punch.Bridge.Config.Tasks.{
  TaskInfo, Outside, only_tunnel, one_tunnel, opened, stored, add_tunnel, and_rest, add_tunnels,
  add_ports, work_as_new_task,
}
use nat_punch.Bridge.Config.Kept.{task_id, Registry, Fine, unchanged, looser, onward, stored_host}

module _ (id : ℕ) where
  counted :
      (s : Session)
      → Registry s
      → Fine 1 id s (record s { host_increase_id = s.host_increase_id + 1 })
  counted s (keyed, distinct, numbered, below) = (
    (
      keyed,
      distinct,
      numbered,
      Each-map (λ k v. k ≤ s.host_increase_id) (λ k v. k ≤ s.host_increase_id + 1) s.hosts
          (λ k v l. omega (arith, l)) below,
    ),
    ((λ i d n at. at), (λ k t at. at), λ k h at. at),
    omega arith,
  )

  abbrev next_host : Session → Session
  next_host s = record s { host_increase_id = s.host_increase_id + 1 }

  with_new_host-Fine :
      (h : Host) (s : Session)
      → h.id ≡ s.host_increase_id + 1
      → Registry s
      → Fine 1 id s (with_hosts (new_host h s.hosts) (next_host s))
  unfolding new_host
  with_new_host-Fine h s e r =
      let h' = record h { location = if same h.location [] then slash else h.location } in
      elim (Bool-cases (is_host_exist h' s.hosts)) [
        | inl taken ↦ rw taken (counted s r)
        | inr free ↦ rw free (stored_host id (record h' { has_flow = true }) s e r)
      ]

  add_host-Fine :
      (h : Host) (s : Session)
      → h.id ≡ s.host_increase_id + 1
      → Registry s
      → Fine 1 id s (add_host h (next_host s)).0
  add_host-Fine h s e r = elim (Bool-cases (has_host s.client.id h s.hosts)) [
    | inl has ↦ rw has (counted s r)
    | inr new ↦ elim (Bool-cases (is_host_exist h s.hosts)) [
      | inl taken ↦ rw (new, taken) (counted s r)
      | inr free ↦ rw (new, free) (with_new_host-Fine h s e r)
    ]
  ]

  pub new_host-Fine :
      (h : Option Host) (s : Session)
      → s.host_increase_id + 1 < 2 ^ 31
      → Registry s
      → Fine 1 id s (work_as_new_host h s).0
  unfolding work_as_new_host get_host_info next_host_id
  new_host-Fine none s room r = looser id 1 s s (unchanged id s r)
  new_host-Fine (some h) s room r =
      let small : (s.host_increase_id + 1) % 2 ^ 32 ≡ s.host_increase_id + 1 =
        omega (arith, room) in
      rw small (add_host-Fine (record (get_host_info h s) { id = s.host_increase_id + 1 }) s refl r)

  module _ (o : Outside) where
    stored_task :
        (t : Tunnel) (s : Session)
        → t.id ≡ get_task_id s.tasks
        → Registry s
        → Fine 0 id s (record s { tasks = store t.id (record t { has_flow = true }) s.tasks })
    unfolding get_task_id
    stored_task t s e (keyed, distinct, numbered, below) =
        let (free, positive, _) = next_free_lem task_id s.tasks numbered in
        let absent : lookup t.id s.tasks ≡ none = ap (λ k. lookup k s.tasks) e ∙ free in
        (
          (
            keyed,
            distinct,
            store-Each (λ k v. (v.id ≡ k) × (1 ≤ k)) t.id (record t { has_flow = true }) s.tasks
                (refl, omega (arith, e, positive)) numbered,
            below,
          ),
          (
            (λ i d n at. at),
            (λ k v at.
                lookup-store_other t.id k (record t { has_flow = true }) s.tasks
                  (λ q. let same_key = ap (λ k. lookup k s.tasks) q in absurd cc)
                ∙ at),
            λ k h at. at,
          ),
          omega arith,
        )

    opened-Fine : (t : Tunnel) (s : Session) → Registry s → Fine 0 id s (opened o t s).0
    opened-Fine t s r = elim (Bool-cases (o.test_server_port t.port t.mode)) [
      | inl e ↦ rw e (unchanged id s r)
      | inr e ↦ rw e (unchanged id s r)
    ]

    saved-Fine :
        (t : Tunnel) (s : Session)
        → Registry s
        → Fine 0 id s (if o.saved then opened o t s else refuse s).0
    saved-Fine t s r = elim (Bool-cases o.saved) [
      | inl e ↦ rw e (opened-Fine t s r)
      | inr e ↦ rw e (unchanged id s r)
    ]

    stored-Fine :
        (t : Tunnel) (s : Session)
        → t.id ≡ get_task_id s.tasks
        → Registry s
        → Fine 0 id s (stored o t s (new_task o.max_tunnels t s.tasks)).0
    unfolding new_task
    stored-Fine t s e r = elim (Bool-cases (over_limit o.max_tunnels t.client s.tasks)) [
      | inl over ↦ rw over (unchanged id s r)
      | inr free ↦
          let s' = record s { tasks = store t.id (record t { has_flow = true }) s.tasks } in
          let r' = if o.saved then opened o t s' else refuse s' in
          rw free (onward id 0 0 s s' r'.0 (stored_task t s e r) (λ r near. saved-Fine t s' r))
    ]

    add_tunnel-Fine :
        (t : Tunnel) (s : Session)
        → t.id ≡ get_task_id s.tasks
        → Registry s
        → Fine 0 id s (add_tunnel o t s).0
    unfolding add_tunnel
    add_tunnel-Fine t s e r = elim (Bool-cases (has_tunnel s.client.id t s.tasks)) [
      | inl has ↦ rw has (unchanged id s r)
      | inr new ↦
          elim (Bool-cases (
            ltb 0 o.max_tunnels
            && leb o.max_tunnels (get_task_count_by_client s.client.id s.tasks))) [
              | inl full ↦ rw (new, full) (unchanged id s r)
              | inr free ↦ rw (new, free) (stored-Fine t s e r)
            ]
    ]

    and_rest-Fine :
        (rest : Session → Session × Turn) (s : Session) (r : Session × Turn)
        → Fine 0 id s r.0
        → ((s' : Session) → Registry s' → Fine 0 id s' (rest s').0)
        → Fine 0 id s (and_rest o rest r).0
    and_rest-Fine rest s (s', goes_on) p q = onward id 0 0 s s' (rest s').0 p (λ r near. q s' r)
    and_rest-Fine rest s (s', stops) p q = p
    and_rest-Fine rest s (s', fails) p q = p
    and_rest-Fine rest s (s', fails_without_client) p q = p
    and_rest-Fine rest s (s', panics) p q = p

    add_tunnels-Fine :
        (info : TaskInfo) (ports targets : List ℕ) (s : Session)
        → Registry s
        → Fine 0 id s (add_tunnels o info ports targets s).0
    unfolding add_tunnels one_tunnel
    add_tunnels-Fine info [] targets s r = unchanged id s r
    add_tunnels-Fine info (port ∷ ports) [] s r = unchanged id s r
    add_tunnels-Fine info (port ∷ ports) (target ∷ targets) s r =
        and_rest-Fine (add_tunnels o info ports targets) s _
          (add_tunnel-Fine (one_tunnel o info port target s) s refl r)
          (add_tunnels-Fine info ports targets)

    add_ports-Fine :
        (info : TaskInfo) (ports targets : List ℕ) (s : Session)
        → Registry s
        → Fine 0 id s (add_ports o info ports targets s).0
    unfolding only_tunnel
    add_ports-Fine info [] targets s r = unchanged id s r
    add_ports-Fine info (port ∷ []) targets s r =
        add_tunnel-Fine (only_tunnel o info port s) s refl r
    add_ports-Fine info (port ∷ next ∷ ports) targets s r =
        add_tunnels-Fine info (port ∷ next ∷ ports) targets s r

    pub new_task-Fine :
        (info : Option TaskInfo) (s : Session)
        → Registry s
        → Fine 0 id s (work_as_new_task o info s).0
    unfolding work_as_new_task
    new_task-Fine none s r = unchanged id s r
    new_task-Fine (some info) s r =
        let ports = get_ports o.atoi info.ports in
        let targets = get_ports o.atoi info.task.target.target_str in
        elim (Bool-cases (
          ltb 1 (length ports)
          && (same info.task.mode (codes "tcp") || same info.task.mode (codes "udp"))
          && not (length ports == length targets))) [
            | inl bad ↦ rw bad (unchanged id s r)
            | inr good ↦ rw good (add_ports-Fine info ports targets s r)
          ]
