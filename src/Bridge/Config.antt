-- ===== src/Bridge/Config.antt =====
-- `getConfig` of bridge/bridge.go: what a client registers for itself, its hosts and its tunnels. What
-- arrives is read already: JSON, and whether a file is saved or an answer is written, come with the
-- message. The limits of the configuration are those that the registry is given.
pub mod Tasks
pub mod Loop
pub mod Kept
pub mod Others
pub mod Isolation
pub mod Crash
use nat_punch.Base.{
  ℕ, ◌+◌, ◌%◌, ◌^◌, Bool, true, false, not, ◌&&◌, ◌||◌, List, [], ◌∷◌, ◌++◌, Option, none, some,
  ltb, leb, ◌==◌, if◌then◌else◌,
}
use nat_punch.Base.Maps.{Map, lookup, store}
use nat_punch.File.Clients.{
  Client, Db, Failure, quota, hash_failed, user_name_duplicate, vkey_duplicate, not_saved,
  keys_over, same, chosen_id, get_client_count, new_client,
}
use nat_punch.File.Credentials.{get_client, get_client_id_by_vkey, valid_verify_key}
use nat_punch.File.Tasks.{Tunnel, belongs_to}
use nat_punch.File.Hosts.{Host, slash, has_host, is_host_exist, new_host}
use nat_punch.Link.{conn_data_seq}
use nat_punch.Bridge.{Bridge, work_as_new_conf}

-- `WriteAddOk`, `WriteAddFail`, a key with its length, and the answer to `WORK_STATUS`.
pub data Reply : Type 0 where
  add_ok add_fail : Reply
  key status : List ℕ → Reply

-- The variable `client` of `getConfig`, and what it works on.
pub record Session : Type 0 where
  pub client : Client
  pub bridge : Bridge
  pub db : Db
  pub tasks : Map Tunnel
  pub hosts : Map Host
  pub host_increase_id : ℕ
  pub replies : List Reply

-- What comes of a message: the loop goes on, or it is left, with `fail` set or not; `client` may be
-- nil then. A panic ends the process.
pub data Turn : Type 0 where
  goes_on stops fails fails_without_client panics : Turn

abbrev pub answer : Reply → Session → Session
answer r s = record s { replies = s.replies ++ r ∷ [] }

abbrev pub refuse : Session → Session × Turn
refuse s = (answer add_fail s, fails)

unfoldable pub host_remarks : ℕ → Map Host → List ℕ
host_remarks id [] = []
host_remarks id ((k, v) ∷ m) =
    let rest = host_remarks id m in
    if belongs_to v.client id then v.remark ++ (conn_data_seq ++ rest) else rest

-- `runs` is whether a tunnel is in the list of those that run.
unfoldable pub task_remarks : (ℕ → Bool) → ℕ → Map Tunnel → List ℕ
task_remarks runs id [] = []
task_remarks runs id ((k, v) ∷ m) =
    let rest = task_remarks runs id m in
    if runs v.id && belongs_to v.client id then v.remark ++ (conn_data_seq ++ rest) else rest

abbrev pub status_of : (ℕ → Bool) → Session → Option ℕ → Session × Turn
status_of runs s none = (s, stops)
status_of runs s (some id) =
    (answer (status (host_remarks id s.hosts ++ task_remarks runs id s.tasks)) s, goes_on)

-- `WORK_STATUS`; `none` is a key that is not read.
unfoldable pub work_status :
    (List ℕ → List ℕ) → (ℕ → Bool) → Option (List ℕ) → Session → Session × Turn
work_status digest runs none s = (s, stops)
work_status digest runs (some k) s = status_of runs s (get_client_id_by_vkey digest k s.db.clients)

-- `GetConfigInfo` of lib/conn/conn.go, behind the JSON.
unfoldable pub get_config_info : Client → Client
get_config_info c = record c { no_store = true; status = true; has_flow = true; no_display = false }

abbrev pub is_no_store : Option Client → Bool
is_no_store none = false
is_no_store (some c) = c.no_store

-- A client that came in with the public key registers as a new one, every other as itself.
unfoldable pub pinned : ℕ → Map Client → Client → Client
pinned auth_id m c = record c { id = if is_no_store (get_client auth_id m) then 0 else auth_id }

-- The object that `NewClient` was given, after it: what is stored, or it was turned away.
abbrev pub or_given : Client → Option Client → Client
or_given c none = c
or_given c (some stored) = stored

abbrev pub given_back : Client → Option Client → Option Failure → Client
given_back c stored none = or_given c stored
given_back c stored (some not_saved) = or_given c stored
given_back c stored (some quota) = c
given_back c stored (some hash_failed) = c
given_back c stored (some user_name_duplicate) = c
given_back c stored (some vkey_duplicate) = c
given_back c stored (some keys_over) = c

-- `sent` is whether the key is written.
abbrev pub answered : Bool → Option Failure → Session → Session × Turn
answered sent (some e) s = refuse s
answered sent none s =
    let told = answer (key s.client.verify_key) (answer add_ok s) in
    if sent
    then (record told { bridge = work_as_new_conf told.client.id told.bridge }, goes_on)
    else (told, stops)

abbrev pub registered : Bool → Client → Session → Db × Option Failure → Session × Turn
registered sent c s (db, failure) =
    let stored = lookup (chosen_id c s.db.clients) db.clients in
    answered sent failure (record s { client = given_back c stored failure; db = db })

module _ (hash_password : List ℕ → Option (List ℕ)) (auth_id : ℕ) where
  abbrev pub register_client :
      (saved sent : Bool) → (keys : List (List ℕ)) → Client → Session → Session × Turn
  register_client saved sent keys c s =
      if not (same c.verify_key []) && not (valid_verify_key c.verify_key)
      then refuse (record s { client = c })
      else let c' = record c { no_store = false } in
        if ltb 0 s.db.max_clients && leb s.db.max_clients (get_client_count s.db.clients)
        then refuse (record s { client = c' })
        else registered sent c' s (new_client hash_password saved keys c' s.db)

  -- `NEW_CONF`; `none` is an error of `GetConfigInfo`, which leaves no client.
  unfoldable pub new_conf :
      (saved sent : Bool) → (keys : List (List ℕ)) → Option Client → Session → Session × Turn
  new_conf saved sent keys none s = (answer add_fail s, fails_without_client)
  new_conf saved sent keys (some c) s =
      register_client saved sent keys (pinned auth_id s.db.clients (get_config_info c)) s

-- The counter of hosts after `atomic.AddInt32`, as its bits: it wraps around.
unfoldable pub next_host_id : ℕ → ℕ
next_host_id n = (n + 1) % 2 ^ 32

-- `GetHostInfo`, behind the JSON, and the two lines behind it.
unfoldable pub get_host_info : Host → Session → Host
get_host_info h s = record h {
  id = next_host_id s.host_increase_id;
  has_flow = true;
  no_store = true;
  client = some s.client.id;
  location = if same h.location [] then slash else h.location;
}

-- The result of `NewHost` is dropped.
abbrev pub with_hosts : Option (Map Host) → Session → Session
with_hosts none s = s
with_hosts (some m) s = record s { hosts = m }

abbrev pub add_host : Host → Session → Session × Turn
add_host h s =
    if not (has_host s.client.id h s.hosts)
    then (if is_host_exist h s.hosts
        then refuse s
        else (answer add_ok (with_hosts (new_host h s.hosts) s), goes_on))
    else (answer add_ok s, goes_on)

-- `NEW_HOST`.
unfoldable pub work_as_new_host : Option Host → Session → Session × Turn
work_as_new_host none s = refuse s
work_as_new_host (some h) s =
    add_host (get_host_info h s) (record s { host_increase_id = next_host_id s.host_increase_id })
