-- ===== src/Bridge/Config/Loop.antt =====
-- The loop of `getConfig` of bridge/bridge.go, and its end.
use nat_punch.Base.{ℕ, Bool, true, false, List, [], ◌∷◌, Option, some}
use nat_punch.File.Clients.{Client}
use nat_punch.File.Hosts.{Host}
use nat_punch.Bridge.{close, del_client}
use nat_punch.Bridge.Config.{
  Session, Turn, goes_on, stops, fails, fails_without_client, panics, work_status, new_conf,
  work_as_new_host,
}
use nat_punch.Bridge.Config.Tasks.{TaskInfo, Outside, work_as_new_task}

pub data Message : Type 0 where
  asks_status : Option (List ℕ) → Message
  gives_conf : (saved sent : Bool) → (keys : List (List ℕ)) → Option Client → Message
  gives_host : Option Host → Message
  gives_task : Option TaskInfo → Message
  unknown : Message

-- What the connection `c` of the client `auth_id` has at its disposal.
module _ (digest : List ℕ → List ℕ) (hash_password : List ℕ → Option (List ℕ)) (runs : ℕ → Bool)
    (o : Outside) (auth_id c : ℕ) where
  unfoldable pub process : Message → Session → Session × Turn
  process (asks_status k) s = work_status digest runs k s
  process (gives_conf saved sent keys client) s =
      new_conf hash_password auth_id saved sent keys client s
  process (gives_host h) s = work_as_new_host h s
  process (gives_task t) s = work_as_new_task o t s
  process unknown s = (s, goes_on)

  abbrev pub deleted : Session → Session
  deleted s = record s { bridge = del_client s.db.clients s.client.id s.bridge }

  abbrev pub closed : Session → Session
  closed s = record s { bridge = close (some c) s.bridge }

  abbrev pub ended : (Session → Session × Bool) → Session × Turn → Session × Bool
  ended rest (s, goes_on) = rest s
  ended rest (s, stops) = (closed s, true)
  ended rest (s, fails) = (closed (deleted s), true)
  ended rest (s, fails_without_client) = (closed s, true)
  ended rest (s, panics) = (s, false)

  -- All the messages, and the end of the stream; `false` is a panic.
  unfoldable pub get_config : List Message → Session → Session × Bool
  get_config [] s = (closed s, true)
  get_config (m ∷ ms) s = ended (get_config ms) (process m s)
