-- ===== src/Proxy/Forward.antt =====
-- `BaseServer` of server/proxy/base.go with the counter of globalconn.go: who is let in, and which
-- connections are forwarded. `SendLinkInfo` of the bridge is an argument: whether it gives a target.
pub mod Limits
use nat_punch.Base.{
  ℕ, zero, suc, ◌+◌, ◌*◌, ◌^◌, Bool, true, false, not, ◌&&◌, ◌||◌, List, [], ◌∷◌, Option, none,
  some, ◌==◌, if◌then◌else◌,
}
use nat_punch.Base.Int.{ℤ, pos, pos_part, ◌+ℤ◌, ◌-ℤ◌, leb_ℤ, ltb_ℤ}
use nat_punch.File.Clients.{same}
use nat_punch.File.Counters.{Slots, get_conn, Flow}
use nat_punch.File.Hosts.{get_ip_by_addr}

-- `check_flow_and_conn_num`: an error, or the slot that is taken.
pub data Check : Type 0 where
  traffic_exceeded connections_exceed : Check
  passed : Slots → Check

abbrev pub slot : Slots × Bool → Check
slot (s, false) = connections_exceed
slot (s, true) = passed s

unfoldable pub check_flow_and_conn_num : Flow → Slots → Check
check_flow_and_conn_num f s =
    if ltb_ℤ (pos 0) f.flow_limit
      && ltb_ℤ (pos (pos_part f.flow_limit * 2 ^ 20)) (f.inlet_flow +ℤ f.export_flow)
    then traffic_exceeded
    else slot (get_conn s)

-- `maxGlobalConn` and `globalConn`.
pub record Gate : Type 0 where
  pub max_global_conn : ℕ
  pub global_conn : ℤ

unfoldable pub try_acquire_global_conn : Gate → Gate × Bool
try_acquire_global_conn g =
    if not (g.max_global_conn == 0) && leb_ℤ (pos g.max_global_conn) g.global_conn
    then (g, false)
    else (record g { global_conn = g.global_conn +ℤ pos 1 }, true)

unfoldable pub release_global_conn : Gate → Gate
release_global_conn g = record g { global_conn = g.global_conn -ℤ pos 1 }

unfoldable pub is_in : List ℕ → List (List ℕ) → Bool
is_in target [] = false
is_in target (v ∷ vs) = let rest = is_in target vs in same v target || rest

unfoldable pub is_black_ip : List ℕ → List (List ℕ) → Bool
is_black_ip ip_port black_ip_list = is_in (get_ip_by_addr ip_port) black_ip_list

-- `none` where there is no global setting.
unfoldable pub is_global_black_ip : List ℕ → Option (List (List ℕ)) → Bool
is_global_black_ip ip_port none = false
is_global_black_ip ip_port (some black_ip_list) = is_in (get_ip_by_addr ip_port) black_ip_list

-- What becomes of a connection; the one that copies holds its place until it ends.
pub data Deal : Type 0 where
  over_limit black_listed no_target copying : Deal

module _ (global : Option (List (List ℕ))) where
  abbrev pub acquired : List ℕ → List (List ℕ) → Bool → Gate × Bool → Gate × Deal
  acquired remote black link (g, false) = (g, over_limit)
  acquired remote black link (g, true) =
      if is_global_black_ip remote global
      then (release_global_conn g, black_listed)
      else if is_black_ip remote black
      then (release_global_conn g, black_listed)
      else if link
      then (g, copying)
      else (release_global_conn g, no_target)

  -- `DealClient` up to the copying.
  unfoldable pub deal_client :
      (remote : List ℕ) → (black : List (List ℕ)) → (link : Bool) → Gate → Gate × Deal
  deal_client remote black link g = acquired remote black link (try_acquire_global_conn g)
