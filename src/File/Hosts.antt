-- ===== src/File/Hosts.antt =====
-- The hosts of the registry and the routing of HTTP requests to them: `DbUtils` of lib/file/db.go. Strings are byte lists; the map of
-- hosts is ranged over in the order of the list.
pub mod Longest
pub mod Clashes
use nat_punch.Base.{
  ℕ, ◌+◌, zero, suc, Bool, true, false, not, ◌&&◌, ◌||◌, List, [], ◌∷◌, Option, none, some, length,
  ltb, ◌==◌, if◌then◌else◌,
}
use nat_punch.Base.Maps.{Map, lookup, store, delete}
use nat_punch.File.Targets.{Target}
use nat_punch.File.Tasks.{Tunnel, belongs_to, get_task_count_by_client}
use nat_punch.File.Clients.{same}

pub record Host : Type 0 where
  pub id : ℕ
  pub host : List ℕ
  pub location : List ℕ
  pub scheme : List ℕ
  pub is_close : Bool
  pub has_flow : Bool
  pub client : Option ℕ
  pub remark : List ℕ
  pub no_store : Bool
  pub target : Target
  pub health_remove_arr : List (List ℕ)

-- The bytes of `all`, `/` and `*`.
abbrev pub all : List ℕ
all = 97 ∷ 108 ∷ 108 ∷ []

abbrev pub slash : List ℕ
slash = 47 ∷ []

abbrev pub star : ℕ
star = 42

-- `strings.Index(s, t) == 0`.
unfoldable pub has_prefix : (t s : List ℕ) → Bool
has_prefix [] s = true
has_prefix (x ∷ t) [] = false
has_prefix (x ∷ t) (y ∷ s) = let rest = has_prefix t s in x == y && rest

-- `strings.Contains(s, t)`.
unfoldable pub contains : (t s : List ℕ) → Bool
contains t [] = has_prefix t []
contains t (y ∷ s) = let rest = contains t s in has_prefix t (y ∷ s) || rest

-- `strings.Replace(s, "*", "", -1)`.
unfoldable pub without_star : List ℕ → List ℕ
without_star [] = []
without_star (x ∷ s) = let rest = without_star s in if x == star then rest else x ∷ rest

unfoldable pub is_host_exist : Host → Map Host → Bool
is_host_exist h [] = false
is_host_exist h ((key, v) ∷ m) =
    let rest = is_host_exist h m in
    not (v.id == h.id)
      && same v.host h.host
      && same h.location v.location
      && (same v.scheme all || same v.scheme h.scheme)
    || rest

-- `NewHost`: `none` is the error that the host exists. The result of saving is dropped.
unfoldable pub new_host : Host → Map Host → Option (Map Host)
new_host t m =
    let h = record t { location = if same t.location [] then slash else t.location } in
    if is_host_exist h m then none else some (store h.id (record h { has_flow = true }) m)

unfoldable pub get_host_by_id : ℕ → Map Host → Option Host
get_host_by_id id m = lookup id m

unfoldable pub del_host : ℕ → Map Host → Map Host
del_host id m = delete id m

-- `Client.HasHost`, for the client `i`; the hosts all have one.
unfoldable pub has_host : ℕ → Host → Map Host → Bool
has_host i h [] = false
has_host i h ((key, v) ∷ m) =
    let rest = has_host i h m in
    belongs_to v.client i && same v.host h.host && same h.location v.location || rest

-- The second loop of `Client.GetTunnelNum`.
unfoldable pub host_count : ℕ → Map Host → ℕ
host_count i [] = 0
host_count i ((key, v) ∷ m) =
    let rest = host_count i m in if belongs_to v.client i then suc rest else rest

-- The tunnels and the hosts of the client `i`.
unfoldable pub get_tunnel_num : ℕ → Map Tunnel → Map Host → ℕ
get_tunnel_num i tasks hosts = get_task_count_by_client i tasks + host_count i hosts

-- The filter of the first loop of `GetInfoByHost`.
unfoldable pub serves : (host scheme : List ℕ) → Host → Bool
serves host scheme v =
    if v.is_close
    then false
    else if not (same v.scheme all) && not (same v.scheme scheme)
    then false
    else if contains (star ∷ []) v.host
    then contains (without_star v.host) host
    else same v.host host

unfoldable pub loc : Host → List ℕ
loc v = if same v.location [] then slash else v.location

unfoldable pub matches_uri : List ℕ → Host → Bool
matches_uri uri v = if same uri (star ∷ []) then true else has_prefix (loc v) uri

unfoldable pub better : Option Host → Host → Bool
better none v = true
better (some h) v = ltb (length h.location) (length (loc v))

unfoldable pub candidates : (host scheme : List ℕ) → Map Host → List Host
candidates host scheme [] = []
candidates host scheme ((key, v) ∷ m) =
    let rest = candidates host scheme m in if serves host scheme v then v ∷ rest else rest

-- The second loop.
unfoldable pub pick : List ℕ → Option Host → List Host → Option Host
pick uri h [] = h
pick uri h (v ∷ vs) = pick uri (if matches_uri uri v && better h v then some v else h) vs

-- The part of a string before, and after, the first byte `c`.
unfoldable pub before : ℕ → List ℕ → List ℕ
before c [] = []
before c (x ∷ s) = let rest = before c s in if x == c then [] else x ∷ rest

unfoldable pub after : ℕ → List ℕ → List ℕ
after c [] = []
after c (x ∷ s) = let rest = after c s in if x == c then s else rest

-- `common.GetIpByAddr`: the address without its port, or what stands between the brackets.
unfoldable pub get_ip_by_addr : List ℕ → List ℕ
get_ip_by_addr addr =
    if contains (91 ∷ []) addr then before 93 (before 91 (after 91 addr)) else before 58 addr

unfoldable pub get_info_by_host : (host scheme uri : List ℕ) → Map Host → Option Host
get_info_by_host host scheme uri m = pick uri none (candidates (get_ip_by_addr host) scheme m)
