-- ===== src/Bridge/Config/Tasks.antt =====
-- `NEW_TASK` in `getConfig` of bridge/bridge.go: one tunnel for each port.
use nat_punch.Base.{
  ℕ, Bool, true, not, ◌&&◌, ◌||◌, List, [], ◌∷◌, ◌++◌, Option, none, some, length, ltb, leb, ◌==◌,
  if◌then◌else◌,
}
use nat_punch.Base.Bytes.{codes}
use nat_punch.Base.Int.{ℤ}
use nat_punch.Base.Maps.{Map}
use nat_punch.File.Clients.{same}
use nat_punch.File.Tasks.{
  Tunnel, zero_tunnel, zero_target, get_task_id, get_task_count_by_client, has_tunnel, new_task,
}
use nat_punch.Common.Ports.{get_ports}
use nat_punch.Bridge.Config.{Session, Turn, goes_on, panics, answer, refuse, add_ok}

-- A tunnel as it is sent, with the fields that only stand for several.
pub record TaskInfo : Type 0 where
  pub task : Tunnel
  pub ports : List ℕ
  pub target_addr : List ℕ

-- What is not this code: numbers as text and back, the test of a port, and the limit of the
-- configuration.
pub record Outside : Type 0 where
  pub atoi : List ℕ → Option ℤ
  pub itoa : ℕ → List ℕ
  pub test_server_port : ℕ → List ℕ → Bool
  pub max_tunnels : ℕ
  pub saved : Bool

module _ (o : Outside) where
  -- The fields that every new tunnel gets.
  abbrev pub common_fields : Tunnel → ℕ → Session → Tunnel
  common_fields t port s = record zero_tunnel {
    id = get_task_id s.tasks;
    port = port;
    server_ip = t.server_ip;
    mode = t.mode;
    status = true;
    client = some s.client.id;
    has_flow = true;
    password = t.password;
    no_store = true;
    local_path = t.local_path;
    strip_pre = t.strip_pre;
    multi_account = t.multi_account;
  }

  -- The tunnel of the only port.
  unfoldable pub only_tunnel : TaskInfo → ℕ → Session → Tunnel
  only_tunnel info port s = record (common_fields info.task port s) {
    target = info.task.target;
    remark = info.task.remark;
  }

  -- One of several, to the port `target`.
  unfoldable pub one_tunnel : TaskInfo → (port target : ℕ) → Session → Tunnel
  one_tunnel info port target s = record (common_fields info.task port s) {
    remark = info.task.remark ++ (codes "_" ++ o.itoa port);
    target = record zero_target {
      target_str =
          if same info.target_addr []
          then o.itoa target
          else info.target_addr ++ (codes ":" ++ o.itoa target);
    };
  }

  -- The port is tested behind the store, and the tunnel sent on `OpenTask`.
  abbrev pub opened : Tunnel → Session → Session × Turn
  opened t s =
      if o.test_server_port t.port t.mode
      then (
        answer add_ok
            (record s { bridge = record s.bridge { open_task = s.bridge.open_task ++ t.id ∷ [] } }),
        goes_on,
      )
      else refuse s

  abbrev pub stored : Tunnel → Session → Option (Map Tunnel) → Session × Turn
  stored t s none = refuse s
  stored t s (some m) =
      let s' = record s { tasks = m } in if o.saved then opened t s' else refuse s'

  -- `tl` in the loop over the ports.
  unfoldable pub add_tunnel : Tunnel → Session → Session × Turn
  add_tunnel t s =
      if not (has_tunnel s.client.id t s.tasks)
      then (if ltb 0 o.max_tunnels
            && leb o.max_tunnels (get_task_count_by_client s.client.id s.tasks)
          then refuse s
          else stored t s (new_task o.max_tunnels t s.tasks))
      else (answer add_ok s, goes_on)

  abbrev pub and_rest : (Session → Session × Turn) → Session × Turn → Session × Turn
  and_rest rest (s, goes_on) = rest s
  and_rest rest (s, other) = (s, other)

  -- The loop, with the targets that are left; the index into them may be out of range.
  unfoldable pub add_tunnels : TaskInfo → (ports targets : List ℕ) → Session → Session × Turn
  add_tunnels info [] targets s = (s, goes_on)
  add_tunnels info (port ∷ ports) [] s = (s, panics)
  add_tunnels info (port ∷ ports) (target ∷ targets) s =
      and_rest (add_tunnels info ports targets) (add_tunnel (one_tunnel info port target s) s)

  abbrev pub add_ports : TaskInfo → (ports targets : List ℕ) → Session → Session × Turn
  add_ports info [] targets s = refuse s
  add_ports info (port ∷ []) targets s = add_tunnel (only_tunnel info port s) s
  add_ports info (port ∷ next ∷ ports) targets s = add_tunnels info (port ∷ next ∷ ports) targets s

  -- `none` is an error of `GetTaskInfo`.
  unfoldable pub work_as_new_task : Option TaskInfo → Session → Session × Turn
  work_as_new_task none s = refuse s
  work_as_new_task (some info) s =
      let ports = get_ports o.atoi info.ports in
      let targets = get_ports o.atoi info.task.target.target_str in
      if ltb 1 (length ports)
        && (same info.task.mode (codes "tcp") || same info.task.mode (codes "udp"))
        && not (length ports == length targets)
      then refuse s
      else add_ports info ports targets s
