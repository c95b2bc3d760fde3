-- ===== src/File/Tasks.antt =====
-- The tunnels of the registry: `DbUtils` of lib/file/db.go and `GetTaskId` of file.go.
pub mod Limit
use nat_punch.Base.{
  ℕ, zero, suc, ◌+◌, Bool, true, false, ◌&&◌, ◌||◌, List, [], ◌∷◌, Option, none, some, length, ltb,
  leb, ◌==◌, if◌then◌else◌,
}
use nat_punch.Base.Maps.{Map, lookup, store, delete}
use nat_punch.File.Free.{next_free}
use nat_punch.File.Targets.{Target}

-- `client` is the identity of the client that the tunnel points to, if it has one; the accounts are a
-- number that stands for the pointer. What a tunnel only shows in the panel is left out.
pub record Tunnel : Type 0 where
  pub id : ℕ
  pub port : ℕ
  pub server_ip : List ℕ
  pub mode : List ℕ
  pub status : Bool
  pub client : Option ℕ
  pub has_flow : Bool
  pub password : List ℕ
  pub remark : List ℕ
  pub no_store : Bool
  pub local_path : List ℕ
  pub strip_pre : List ℕ
  pub target : Target
  pub multi_account : Option ℕ
  pub health_remove_arr : List (List ℕ)

-- `new(file.Target)` and `new(file.Tunnel)`.
abbrev pub zero_target : Target
zero_target = record { now_index = 0; target_str = []; target_arr = none }

abbrev pub zero_tunnel : Tunnel
zero_tunnel = record {
  id = 0;
  port = 0;
  server_ip = [];
  mode = [];
  status = false;
  client = none;
  has_flow = false;
  password = [];
  remark = [];
  no_store = false;
  local_path = [];
  strip_pre = [];
  target = zero_target;
  multi_account = none;
  health_remove_arr = [];
}

abbrev pub belongs_to : Option ℕ → ℕ → Bool
belongs_to none i = false
belongs_to (some c) i = c == i

unfoldable pub get_task_count_by_client : ℕ → Map Tunnel → ℕ
get_task_count_by_client i [] = 0
get_task_count_by_client i ((key, t) ∷ m) =
    let rest = get_task_count_by_client i m in if belongs_to t.client i then suc rest else rest

abbrev pub over_limit : ℕ → Option ℕ → Map Tunnel → Bool
over_limit max none m = false
over_limit max (some i) m = ltb 0 max && leb max (get_task_count_by_client i m)

-- `none` is the error of the limit; the result of saving is left to the caller.
unfoldable pub new_task : ℕ → Tunnel → Map Tunnel → Option (Map Tunnel)
new_task max t m =
    if over_limit max t.client m then none else some (store t.id (record t { has_flow = true }) m)

unfoldable pub get_task_id : Map Tunnel → ℕ
get_task_id m = next_free (λ t. t.id) m

unfoldable pub update_task : Tunnel → Map Tunnel → Map Tunnel
update_task t m = store t.id t m

unfoldable pub del_task : ℕ → Map Tunnel → Map Tunnel
del_task id m = delete id m

unfoldable pub get_task : ℕ → Map Tunnel → Option Tunnel
get_task id m = lookup id m

-- `Client.HasTunnel`, for the client `i`; the tunnels all have one.
unfoldable pub has_tunnel : ℕ → Tunnel → Map Tunnel → Bool
has_tunnel i t [] = false
has_tunnel i t ((key, v) ∷ m) =
    let rest = has_tunnel i t m in belongs_to v.client i && v.port == t.port && ltb 0 t.port || rest
