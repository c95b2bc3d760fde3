-- ===== src/Bridge/Traffic.antt =====
-- All that happens to the clients of a bridge, as events in any order: `typeDeal`, the end of a
-- reader of health, the ticks of `ping`, a new configuration, and `DelClient` from the panel.
use nat_punch.Base.{
  ℕ, ◌+◌, Bool, true, false, List, [], ◌∷◌, Option, none, some, if◌then◌else◌, not, ◌&&◌,
}
use nat_punch.Base.Maps.{Map}
use nat_punch.File.Clients.{Client, same}
use nat_punch.File.Credentials.{get_client, is_pub_client}
use nat_punch.Bridge.{
  Bridge, Next, gets_health, gets_config, registers, nothing, refuse, configure, work_as_main,
  work_as_chan, work_main, work_chan, work_config, work_register, type_deal, new_tunnel,
  del_client_if_current, del_client, ping, work_as_new_conf,
}

-- Each comes with the clients of the registry at the time.
pub data Event : Type 0 where
  deals : Map Client → (written : Bool) → (type_val : List ℕ) → (id : ℕ) → (vs : List ℕ) → Event
  health_ends : Map Client → (id c : ℕ) → Event
  ticks : Map Client → (ℕ → Bool) → Event
  configures : (id : ℕ) → Event
  deletes : Map Client → (id : ℕ) → Event

-- Connections are numbered as they come; `signals` are those whose health is read.
pub record World : Type 0 where
  pub bridge : Bridge
  pub conns : ℕ
  pub signals : List ℕ

abbrev pub heard : Next → ℕ → List ℕ → List ℕ
heard gets_health c cs = c ∷ cs
heard (gets_config p client) c cs = cs
heard registers c cs = cs
heard nothing c cs = cs

abbrev pub dealt : World → Bridge × Next → World
dealt w (b, next) = record {
  bridge = b;
  conns = w.conns + 1;
  signals = heard next w.conns w.signals;
}

abbrev pub step : Event → World → World
step (deals db written type_val id vs) w =
    dealt w (type_deal db written type_val w.conns id vs w.bridge)
step (health_ends db id c) w = record w { bridge = del_client_if_current db id c w.bridge }
step (ticks db is_close) w = record w { bridge = ping is_close db w.bridge }
step (configures id) w = record w { bridge = work_as_new_conf id w.bridge }
step (deletes db id) w = record w { bridge = del_client db id w.bridge }

unfoldable pub run : List Event → World → World
run [] w = w
run (e ∷ es) w = run es (step e w)

abbrev pub start : Bool → World
start ip_verify = record { bridge = new_tunnel ip_verify; conns = 0; signals = [] }

-- How `typeDeal` can end.
pub data Dealt (id c : ℕ) (vs : List ℕ) (b : Bridge) : Bridge × Next → Type 0 where
  as_main : Dealt id c vs b (work_as_main id c vs b, gets_health)
  as_chan : Dealt id c vs b (work_as_chan id c vs b, nothing)
  refused : Dealt id c vs b (refuse c b)
  as_config : (p : Bool) (client : Client) → Dealt id c vs b (b, gets_config p client)
  as_register : Dealt id c vs b (b, registers)
  ignored : Dealt id c vs b (b, nothing)

module _ (id c : ℕ) (vs : List ℕ) (b : Bridge) where
  chosen :
      (t : Bool) (x y : Bridge × Next)
      → Dealt id c vs b x
      → Dealt id c vs b y
      → Dealt id c vs b (if t then x else y)
  chosen true x y p q = p
  chosen false x y p q = q

  configure-Dealt :
      (is_pub written : Bool) (o : Option Client) → Dealt id c vs b (configure c is_pub written o b)
  configure-Dealt is_pub written none = refused
  configure-Dealt is_pub written (some client) =
      chosen (not is_pub && not client.config_conn_allow) _ _ refused
        (chosen written _ _ (as_config is_pub client) refused)

  pub type_deal-Dealt :
      (db : Map Client) (written : Bool) (type_val : List ℕ)
      → Dealt id c vs b (type_deal db written type_val c id vs b)
  unfolding type_deal
  type_deal-Dealt db written type_val =
      chosen (same type_val work_main) _ _ (chosen (is_pub_client id db) _ _ refused as_main) (
        chosen (same type_val work_chan) _ _ as_chan (
          chosen (same type_val work_config) _ _
            (configure-Dealt (is_pub_client id db) written (get_client id db))
            (chosen (same type_val work_register) _ _ as_register ignored)))
