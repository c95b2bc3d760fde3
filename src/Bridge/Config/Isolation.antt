-- ===== src/Bridge/Config/Isolation.antt =====
-- All that one client sends about its configuration.
use nat_punch.Base.{suc, ℕ, ◌+◌, ◌^◌, ◌<◌, ◌≤◌, arith, length, Bool, List, [], ◌∷◌, Option}
use nat_punch.Bridge.Config.{
  work_status, new_conf, Session, Turn, goes_on, stops, fails, fails_without_client, panics,
}
use nat_punch.Bridge.Config.Tasks.{Outside, work_as_new_task}
use nat_punch.Bridge.Config.Loop.{
  Message, asks_status, gives_conf, gives_host, gives_task, unknown, process, ended, get_config,
}
use nat_punch.Bridge.Config.Kept.{
  Registry, Fine, unchanged, looser, onward, work_status-Fine, new_conf-Fine,
}
use nat_punch.Bridge.Config.Others.{new_host-Fine, new_task-Fine}

module _ (digest : List ℕ → List ℕ) (hash_password : List ℕ → Option (List ℕ)) (runs : ℕ → Bool)
    (o : Outside) (auth_id c : ℕ) where
  process-Fine :
      (m : Message) (s : Session)
      → s.host_increase_id + 1 < 2 ^ 31
      → Registry s
      → Fine 1 auth_id s (process digest hash_password runs o auth_id c m s).0
  unfolding process
  process-Fine (asks_status k) s room r =
      looser auth_id 1 s (work_status digest runs k s).0
        (work_status-Fine auth_id digest runs k s r)
  process-Fine (gives_conf saved sent keys client) s room r =
      looser auth_id 1 s (new_conf hash_password auth_id saved sent keys client s).0
        (new_conf-Fine auth_id hash_password saved sent keys client s r)
  process-Fine (gives_host h) s room r = new_host-Fine auth_id h s room r
  process-Fine (gives_task t) s room r =
      looser auth_id 1 s (work_as_new_task o t s).0 (new_task-Fine auth_id o t s r)
  process-Fine unknown s room r = looser auth_id 1 s s (unchanged auth_id s r)

  abbrev ends : (Session → Session × Bool) → Session × Turn → Session × Bool
  ends = ended digest hash_password runs o auth_id c

  wider : (n m : ℕ) (s s' : Session) → n ≤ m → Fine n auth_id s s' → Fine m auth_id s s'
  wider n m s s' l (r, g, k) = (r, g, omega (arith, l, k))

  ended-Fine :
      (n : ℕ) (rest : Session → Session × Bool) (s : Session) (r : Session × Turn)
      → Fine 1 auth_id s r.0
      → ((s' : Session)
          → Registry s'
          → s'.host_increase_id ≤ s.host_increase_id + 1
          → Fine n auth_id s' (rest s').0)
      → Fine (suc n) auth_id s (ends rest r).0
  ended-Fine n rest s (s', goes_on) p q =
      wider (1 + n) (suc n) s (rest s').0 (omega arith)
        (onward auth_id 1 n s s' (rest s').0 p (q s'))
  ended-Fine n rest s (s', stops) p q = wider 1 (suc n) s s' (omega arith) p
  ended-Fine n rest s (s', fails) p q = wider 1 (suc n) s s' (omega arith) p
  ended-Fine n rest s (s', fails_without_client) p q = wider 1 (suc n) s s' (omega arith) p
  ended-Fine n rest s (s', panics) p q = wider 1 (suc n) s s' (omega arith) p

  -- In a registry whose clients and tunnels stand under their numbers, from 1 on, in which no two
  -- clients have one key and no host has a number above the counter, and whose counter of hosts has
  -- room for one number for each message below 2^31: whatever a client that has been let in as
  -- `auth_id` sends as its configuration, and in whatever order, the registry stays so, the counter
  -- grows by no more than the number of messages, every client but that one is there as before, and
  -- so are all tunnels and all hosts.
  pub get_config-Fine :
      (ms : List Message) (s : Session)
      → s.host_increase_id + length ms < 2 ^ 31
      → Registry s
      → Fine (length ms) auth_id s (get_config digest hash_password runs o auth_id c ms s).0
  unfolding get_config
  get_config-Fine [] s room r = unchanged auth_id s r
  get_config-Fine (m ∷ ms) s room r =
      ended-Fine (length ms) (get_config digest hash_password runs o auth_id c ms) s
        (process digest hash_password runs o auth_id c m s)
        (process-Fine m s (omega (arith, room)) r)
        (λ s' r' near. get_config-Fine ms s' (omega (arith, room, near)) r')
