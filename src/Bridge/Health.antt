-- ===== src/Bridge/Health.antt =====
-- `GetHealthFromClient` of bridge/bridge.go: the targets that a client reports as down are taken out
-- of those that requests go to, and those that are up again put back. What stands behind the loop is
-- `del_client_if_current` of Bridge.
use nat_punch.Base.{
  ℕ, zero, suc, Bool, true, false, not, ◌&&◌, List, [], ◌∷◌, ◌++◌, Option, none, some,
  if◌then◌else◌,
}
use nat_punch.Base.Bytes.{codes}
use nat_punch.Base.Maps.{Map}
use nat_punch.File.Clients.{same}
use nat_punch.File.Targets.{Target, split_lines}
use nat_punch.File.Tasks.{Tunnel, belongs_to}
use nat_punch.File.Hosts.{Host, contains}
use nat_punch.Link.{get_health_info}
use nat_punch.Common.{trim_arr, is_arr_contains, remove_arr_val}

-- The target of a tunnel or of a host, and its `HealthRemoveArr`.
abbrev pub Watched : Type 0
Watched = Target × List (List ℕ)

abbrev pub is_empty : {A : Type 0} → List A → Bool
is_empty [] = true
is_empty (x ∷ xs) = false

-- The list of targets to start from.
unfoldable pub target_list : Option (List (List ℕ)) → List ℕ → List (List ℕ) → List (List ℕ)
target_list none str removed = trim_arr (split_lines str)
target_list (some arr) str removed =
    if is_empty arr && is_empty removed then trim_arr (split_lines str) else arr

unfoldable pub put_down : List ℕ → Watched → Watched
put_down info (t, removed) = (
  record t {
    target_arr = some (remove_arr_val (target_list t.target_arr t.target_str removed) info);
  },
  removed ++ info ∷ [],
)

-- `nil` is an empty list here.
unfoldable pub arr_of : Option (List (List ℕ)) → List (List ℕ)
arr_of none = []
arr_of (some arr) = arr

unfoldable pub put_up : List ℕ → Watched → Watched
put_up info (t, removed) =
    (record t { target_arr = some (arr_of t.target_arr ++ info ∷ []) }, remove_arr_val removed info)

-- What is reported of `info`: `true` is up.
unfoldable pub report : List ℕ → Bool → Watched → Watched
report info true (t, removed) =
    if is_arr_contains removed info && not (is_arr_contains (arr_of t.target_arr) info)
    then put_up info (t, removed)
    else (t, removed)
report info false (t, removed) =
    if contains info t.target_str then put_down info (t, removed) else (t, removed)

abbrev pub with_task : Tunnel → Watched → Tunnel
with_task v (t, removed) = record v { target = t; health_remove_arr = removed }

abbrev pub with_host : Host → Watched → Host
with_host v (t, removed) = record v { target = t; health_remove_arr = removed }

-- The tunnels and the hosts of the client `id`, of the tunnels those in the mode `tcp`.
unfoldable pub report_tasks : ℕ → List ℕ → Bool → Map Tunnel → Map Tunnel
report_tasks id info status [] = []
report_tasks id info status ((key, v) ∷ m) =
    let rest = report_tasks id info status m in
    if belongs_to v.client id && same v.mode (codes "tcp")
    then (key, with_task v (report info status (v.target, v.health_remove_arr))) ∷ rest
    else (key, v) ∷ rest

unfoldable pub report_hosts : ℕ → List ℕ → Bool → Map Host → Map Host
report_hosts id info status [] = []
report_hosts id info status ((key, v) ∷ m) =
    let rest = report_hosts id info status m in
    if belongs_to v.client id
    then (key, with_host v (report info status (v.target, v.health_remove_arr))) ∷ rest
    else (key, v) ∷ rest

abbrev pub Served : Type 0
Served = Map Tunnel × Map Host

abbrev pub reported : ℕ → List ℕ × Bool → Served → Served
reported id (info, status) (tasks, hosts) =
    (report_tasks id info status tasks, report_hosts id info status hosts)

abbrev pub and_again :
    ℕ → (List ℕ → Served → Served) → Option ((List ℕ × Bool) × List ℕ) → Served → Served
and_again id again none served = served
and_again id again (some (notice, stream)) served = again stream (reported id notice served)

-- The loop up to the error that ends it; each round takes bytes off `stream`.
unfoldable pub get_health_from_client : (fuel : ℕ) → ℕ → List ℕ → Served → Served
get_health_from_client zero id stream served = served
get_health_from_client (suc fuel) id stream served =
    and_again id (get_health_from_client fuel id) (get_health_info stream) served
