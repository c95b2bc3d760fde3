-- ===== src/File/Clients.antt =====
-- The client registry: `DbUtils` and `JsonDb` of lib/file/db.go and file.go, with `Client` of
-- obj.go. Numbers of Go's `int` are natural here (identities start at 1), strings are byte lists, a
-- rate limiter is an index into the list that says which limiters sample.
pub mod Ids
pub mod Keys
pub mod Admission
pub mod Outcomes
use nat_punch.Base.{
  ℕ, zero, suc, ◌+◌, ◌-◌, ◌*◌, ◌/◌, Bool, true, false, not, ◌&&◌, ◌||◌, List, [], ◌∷◌, ◌++◌, Option,
  none, some, length, get_or, set, take, ltb, leb, ◌==◌, if◌then◌else◌,
}
use nat_punch.Base.Maps.{Map, lookup, store}
use nat_punch.File.Free.{next_free}

pub record Client : Type 0 where
  pub id : ℕ
  pub verify_key : List ℕ
  pub addr : List ℕ
  pub local_addr : List ℕ
  pub status : Bool
  pub is_connect : Bool
  pub rate_limit : ℕ
  pub has_flow : Bool
  pub rate : Option ℕ
  pub no_store : Bool
  pub no_display : Bool
  pub web_user_name : List ℕ
  pub web_password : List ℕ
  pub config_conn_allow : Bool
  pub version : List ℕ
  pub last_online_time : List ℕ
  pub expire_time : List ℕ

pub record Db : Type 0 where
  pub clients : Map Client
  pub sampling : List Bool
  pub client_increase_id : ℕ
  pub max_clients : ℕ

-- `lib/file.NewClient`, the constructor.
unfoldable pub new : List ℕ → Bool → Bool → Client
new v_key no_store no_display = record {
  id = 0;
  verify_key = v_key;
  addr = [];
  local_addr = [];
  status = true;
  is_connect = false;
  rate_limit = 0;
  has_flow = true;
  rate = none;
  no_store = no_store;
  no_display = no_display;
  web_user_name = [];
  web_password = [];
  config_conn_allow = false;
  version = [];
  last_online_time = [];
  expire_time = [];
}

-- Go's `==` on strings.
abbrev pub same : List ℕ → List ℕ → Bool
same [] [] = true
same [] (y ∷ ys) = false
same (x ∷ xs) [] = false
same (x ∷ xs) (y ∷ ys) = let rest = same xs ys in x == y && rest

unfoldable pub get_client_count : Map Client → ℕ
get_client_count [] = 0
get_client_count ((key, c) ∷ m) =
    let rest = get_client_count m in if c.no_store then rest else suc rest

unfoldable pub verify_vkey : List ℕ → ℕ → Map Client → Bool
verify_vkey vkey id [] = true
verify_vkey vkey id ((key, v) ∷ m) =
    let rest = verify_vkey vkey id m in
    if same v.verify_key vkey && not (v.id == id) then false else rest

unfoldable pub verify_user_name : List ℕ → ℕ → Map Client → Bool
verify_user_name name id [] = true
verify_user_name name id ((key, v) ∷ m) =
    let rest = verify_user_name name id m in
    if same v.web_user_name name && not (v.id == id) then false else rest

unfoldable pub next_client_id_locked : Map Client → ℕ
next_client_id_locked m = next_free (λ c. c.id) m

-- A limiter starts to sample, once.
unfoldable pub start : Option ℕ → Db → Db
start none db = db
start (some r) db = record db { sampling = set db.sampling r true }

-- Bytes for each second that a limiter adds.
unfoldable pub rate_limit_add_size : ℕ → ℕ
rate_limit_add_size limit = if limit == 0 then 16777216 * 1024 else limit * 1024 * 1024 / 8

unfoldable pub new_client_rate : Client → Db → Client × Db
new_client_rate c db = (
  record c { rate = some (length db.sampling) },
  record db { sampling = db.sampling ++ false ∷ [] },
)

unfoldable pub keep_rate : Client → Client → Db → Option ℕ → Client × Db
keep_rate existing c db none = new_client_rate c db
keep_rate existing c db (some r) =
    (record c { rate_limit = existing.rate_limit; rate = some r }, db)

unfoldable pub sync_client_rate : Option Client → Client → Db → Client × Db
sync_client_rate none c db = new_client_rate c db
sync_client_rate (some existing) c db = keep_rate existing c db existing.rate

abbrev pub started : Client × Db → Client × Db
started (c, db) = (c, start c.rate db)

-- The lines between the label `reset` and the check of the key.
unfoldable pub prepare : Client → Db → Client × Db
prepare c db = started (sync_client_rate (lookup c.id db.clients) c db)

pub data Failure : Type 0 where
  quota hash_failed user_name_duplicate vkey_duplicate not_saved keys_over : Failure

unfoldable pub chosen_id : Client → Map Client → ℕ
chosen_id c m = if c.id == 0 then next_client_id_locked m else c.id

unfoldable pub placed : Client → Map Client → Map Client
placed c m = store (chosen_id c m) (record c { id = chosen_id c m; has_flow = true }) m

-- The identity is given and the client stored under one lock.
unfoldable pub admit : Client → Db → Db
admit c db = record db {
  clients = placed c db.clients;
  client_increase_id = if c.id == 0 then chosen_id c db.clients else db.client_increase_id;
}

abbrev pub saved_or : Bool → Option Failure
saved_or true = none
saved_or false = some not_saved

abbrev pub try_given : Bool → Client × Db → Db × Option Failure
try_given saved (c, db) =
    if verify_vkey c.verify_key c.id db.clients
    then (admit c db, saved_or saved)
    else (db, some vkey_duplicate)

abbrev pub try_generated :
    Bool → (Client → Db → Db × Option Failure) → Client × Db → Db × Option Failure
try_generated saved again (c, db) =
    if verify_vkey c.verify_key c.id db.clients then (admit c db, saved_or saved) else again c db

-- The loop over `goto reset`, given the keys that `crypt.GetVkey` draws.
unfoldable pub reset : Bool → List (List ℕ) → Client → Db → Db × Option Failure
reset saved [] c db = (db, some keys_over)
reset saved (key ∷ keys) c db =
    try_generated saved (reset saved keys) (prepare (record c { verify_key = key }) db)

module _ (hash_password : List ℕ → Option (List ℕ)) where
  abbrev pub hashed : Client → Option (List ℕ) → Option Client
  hashed c none = none
  hashed c (some h) = some (record c { web_password = h })

  -- A plain password is hashed; the prefix is the bytes of `$2`.
  unfoldable pub hash_web_password : Client → Option Client
  hash_web_password c =
      if not (same c.web_password []) && not (same (take 2 c.web_password) (36 ∷ 50 ∷ []))
      then hashed c (hash_password c.web_password)
      else some c

  unfoldable pub check_names : Bool → List (List ℕ) → Option Client → Db → Db × Option Failure
  check_names saved keys none db = (db, some hash_failed)
  check_names saved keys (some c) db =
      if not (same c.web_user_name []) && not (verify_user_name c.web_user_name c.id db.clients)
      then (db, some user_name_duplicate)
      else if same c.verify_key []
      then reset saved keys c db
      else try_given saved (prepare c db)

  -- `keys` are the draws of `crypt.GetVkey`, `saved` is whether the file is written.
  unfoldable pub new_client : Bool → List (List ℕ) → Client → Db → Db × Option Failure
  new_client saved keys c db =
      if ltb 0 db.max_clients && not c.no_store && leb db.max_clients (get_client_count db.clients)
      then (db, some quota)
      else check_names saved keys (hash_web_password c) db
