-- ===== src/Bridge.antt =====
-- `Bridge` of bridge/bridge.go: which client is connected, over which signal connection and which
-- tunnel. A connection is a number, and the multiplexer over it has the same one; `closed` and
-- `closed_tunnels` are those that the bridge has closed. The channel `CloseClient` is the list of
-- what is sent on it, without the limit of 128 at which a sender waits. The addresses that a client
-- is asked for after its signal connection (`requestClientLocalAddr`) are left out.
mod Tests
pub mod Entries
pub mod Ticks
pub mod Traffic
pub mod Signals
pub mod Effects
pub mod Runs
pub mod Staying
pub mod Handshake
pub mod Meeting
pub mod Health
pub mod Recovery
pub mod Reports
pub mod Sending
pub mod Config
use nat_punch.Base.{
  ℕ, ◌+◌, Bool, true, false, not, ◌&&◌, List, [], ◌∷◌, ◌++◌, Option, none, some, leb, ◌==◌,
  if◌then◌else◌,
}
use nat_punch.Base.Bytes.{codes}
use nat_punch.Base.Int.{ℤ}
use nat_punch.Base.Maps.{Map, lookup, store, delete}
use nat_punch.File.Clients.{Client, same}
use nat_punch.File.Credentials.{get_client, is_pub_client}

-- `Client` of bridge.go.
pub record Entry : Type 0 where
  pub tunnel : Option ℕ
  pub signal : Option ℕ
  pub version : List ℕ
  pub retry_time : ℕ

unfoldable pub new_client : Option ℕ → Option ℕ → List ℕ → Entry
new_client t s vs = record { tunnel = t; signal = s; version = vs; retry_time = 0 }

-- `register` gives the time until which an address is allowed.
pub record Bridge : Type 0 where
  pub client : Map Entry
  pub register : List (List ℕ × ℤ)
  pub open_task : List ℕ
  pub close_client : List ℕ
  pub ip_verify : Bool
  pub closed : List ℕ
  pub closed_tunnels : List ℕ

unfoldable pub new_tunnel : Bool → Bridge
new_tunnel ip_verify = record {
  client = [];
  register = [];
  open_task = [];
  close_client = [];
  ip_verify = ip_verify;
  closed = [];
  closed_tunnels = [];
}

abbrev pub close : Option ℕ → Bridge → Bridge
close none b = b
close (some c) b = record b { closed = c ∷ b.closed }

abbrev pub close_tunnel : Option ℕ → Bridge → Bridge
close_tunnel none b = b
close_tunnel (some t) b = record b { closed_tunnels = t ∷ b.closed_tunnels }

abbrev pub put : ℕ → Entry → Bridge → Bridge
put id cl b = record b { client = store id cl b.client }

-- A client of the registry is told to be gone.
abbrev pub tell_closed : Option Client → Bridge → Bridge
tell_closed none b = b
tell_closed (some c) b = record b { close_client = b.close_client ++ c.id ∷ [] }

abbrev pub announce : Map Client → ℕ → Bridge → Bridge
announce db id b = if is_pub_client id db then b else tell_closed (get_client id db) b

abbrev pub taken_out : ℕ → Entry → Bridge → Bridge
taken_out id cl b = let b' = close cl.signal b in record b' { client = delete id b'.client }

abbrev pub del_entry : Map Client → ℕ → Option Entry → Bridge → Bridge
del_entry db id none b = b
del_entry db id (some cl) b = announce db id (taken_out id cl b)

-- `db` are the clients of the registry.
unfoldable pub del_client : Map Client → ℕ → Bridge → Bridge
del_client db id b = del_entry db id (lookup id b.client) b

abbrev pub is_signal : Option ℕ → ℕ → Bool
is_signal none c = false
is_signal (some s) c = s == c

abbrev pub is_current : Option Entry → ℕ → Bool
is_current none c = false
is_current (some cl) c = is_signal cl.signal c

-- The end of the goroutine that reads the health of connection `c`.
unfoldable pub del_client_if_current : Map Client → ℕ → ℕ → Bridge → Bridge
del_client_if_current db id c b =
    if is_current (lookup id b.client) c then del_client db id b else b

abbrev pub work_main : List ℕ
work_main = codes "main"

abbrev pub work_chan : List ℕ
work_chan = codes "chan"

abbrev pub work_config : List ℕ
work_config = codes "conf"

abbrev pub work_register : List ℕ
work_register = codes "rgst"

-- The new signal connection of a client; the one before is closed.
abbrev pub take_signal : ℕ → ℕ → List ℕ → Option Entry → Bridge → Bridge
take_signal id c vs none b = put id (new_client none (some c) vs) b
take_signal id c vs (some cl) b =
    close cl.signal (put id (record cl { signal = some c; version = vs; retry_time = 0 }) b)

unfoldable pub work_as_main : ℕ → ℕ → List ℕ → Bridge → Bridge
work_as_main id c vs b = take_signal id c vs (lookup id b.client) b

abbrev pub take_tunnel : ℕ → ℕ → List ℕ → Option Entry → Bridge → Bridge
take_tunnel id c vs none b = put id (new_client (some c) none vs) b
take_tunnel id c vs (some cl) b = close_tunnel cl.tunnel (put id (record cl { tunnel = some c }) b)

unfoldable pub work_as_chan : ℕ → ℕ → List ℕ → Bridge → Bridge
work_as_chan id c vs b = take_tunnel id c vs (lookup id b.client) b

abbrev pub clear : ℕ → Option Entry → Bridge → Bridge
clear id none b = put id (new_client none none []) b
clear id (some cl) b =
    close_tunnel cl.tunnel (close cl.signal (put id (record cl { signal = none; tunnel = none }) b))

-- A client whose configuration has come gets an entry without connections.
unfoldable pub work_as_new_conf : ℕ → Bridge → Bridge
work_as_new_conf id b = clear id (lookup id b.client) b

-- What `typeDeal` starts on a connection, if it starts anything.
pub data Next : Type 0 where
  gets_health : Next
  gets_config : Bool → Client → Next
  registers : Next
  nothing : Next

abbrev pub refuse : ℕ → Bridge → Bridge × Next
refuse c b = (close (some c) b, nothing)

-- `written` is whether the flag for a public client is written.
abbrev pub configure : ℕ → Bool → Bool → Option Client → Bridge → Bridge × Next
configure c is_pub written none b = refuse c b
configure c is_pub written (some client) b =
    if not is_pub && not client.config_conn_allow
    then refuse c b
    else if written
    then (b, gets_config is_pub client)
    else refuse c b

unfoldable pub type_deal : Map Client → Bool → List ℕ → ℕ → ℕ → List ℕ → Bridge → Bridge × Next
type_deal db written type_val c id vs b =
    let is_pub = is_pub_client id db in
    if same type_val work_main
    then (if is_pub then refuse c b else (work_as_main id c vs b, gets_health))
    else if same type_val work_chan
    then (work_as_chan id c vs b, nothing)
    else if same type_val work_config
    then configure c is_pub written (get_client id db) b
    else if same type_val work_register
    then (b, registers)
    else (b, nothing)

-- One entry at a tick of `ping`: what becomes of it, and whether it is to be removed.
abbrev pub check : (ℕ → Bool) → Entry → Option ℕ → Option ℕ → Entry × Bool
check is_close v none none = (v, false)
check is_close v none (some s) =
    (record v { retry_time = v.retry_time + 1 }, leb 3 (v.retry_time + 1))
check is_close v (some t) none =
    (record v { retry_time = v.retry_time + 1 }, leb 3 (v.retry_time + 1))
check is_close v (some t) (some s) = (v, is_close t)

unfoldable pub checked : (ℕ → Bool) → Entry → Entry × Bool
checked is_close v = check is_close v v.tunnel v.signal

-- The range of a tick: the entries behind it, and the list of those to be removed.
unfoldable pub ticked : (ℕ → Bool) → Map Entry → Map Entry
ticked is_close [] = []
ticked is_close ((key, v) ∷ m) = (key, (checked is_close v).0) ∷ ticked is_close m

unfoldable pub timed_out : (ℕ → Bool) → Map Entry → List ℕ
timed_out is_close [] = []
timed_out is_close ((key, v) ∷ m) =
    let rest = timed_out is_close m in if (checked is_close v).1 then key ∷ rest else rest

unfoldable pub del_clients : Map Client → List ℕ → Bridge → Bridge
del_clients db [] b = b
del_clients db (id ∷ ids) b = del_clients db ids (del_client db id b)

-- One tick; `is_close` is `Mux.IsClose`.
unfoldable pub ping : (ℕ → Bool) → Map Client → Bridge → Bridge
ping is_close db b =
    del_clients db (timed_out is_close b.client) (record b { client = ticked is_close b.client })
