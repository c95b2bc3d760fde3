-- ===== src/Bridge/Runs.antt =====
-- The bridge under any sequence of events.
use nat_punch.Base.{ℕ, ◌≡◌, sym, subst, Bool, List, [], ◌∷◌, Option, inl, inr, Bool-cases}
use nat_punch.Base.Maps.{Map, lookup, store, Single, store-Single}
use nat_punch.File.Clients.{Client}
use nat_punch.Bridge.{
  Entry, Bridge, Next, del_client, del_clients, timed_out, ticked, ping, is_current,
  del_client_if_current, new_tunnel,
}
use nat_punch.Bridge.Entries.{
  del_client-Single, work_as_main-client, work_as_chan-client, work_as_new_conf-client,
}
use nat_punch.Bridge.Ticks.{ping-Single}
use nat_punch.Bridge.Traffic.{
  Event, World, step, run, start, dealt, deals, health_ends, ticks, configures, deletes, Dealt,
  as_main, as_chan, refused, as_config, as_register, ignored, type_deal-Dealt,
}
use nat_punch.Bridge.Signals.{Good, dropped-Good, renewed-Good, passed-Good, refused-Good}
use nat_punch.Bridge.Effects.{
  signal_of, work_as_main-Given, work_as_chan-Unchanged, work_as_new_conf-Given, del_client-Given,
  ticked-Unchanged,
}

abbrev pub Signalled : Bridge → ℕ → List ℕ → Type 0
Signalled b n signals = Good (signal_of b) b.closed n signals × Single b.client

-- `signals` are the connections whose health has been read. No signal connection of a client is
-- closed, no two clients have one, and each that ever came is a client's or closed.
abbrev pub Sound : World → Type 0
Sound w = Signalled w.bridge w.conns w.signals

moved :
    (f f' : ℕ → Option ℕ) (cs cs' : List ℕ) (n : ℕ) (signals : List ℕ)
    → f' ≡ f
    → cs' ≡ cs
    → Good f cs n signals
    → Good f' cs' n signals
moved f f' cs cs' n signals p q good =
    subst (λ f. Good f cs' n signals) (sym p) (subst (λ cs. Good f cs n signals) (sym q) good)

del_client-Signalled :
    (db : Map Client) (id n : ℕ) (signals : List ℕ) (b : Bridge)
    → Signalled b n signals
    → Signalled (del_client db id b) n signals
del_client-Signalled db id n signals b (good, single) =
    let (p, q) = del_client-Given db id b in
    (
      moved _ _ _ _ n signals p q (dropped-Good (signal_of b) b.closed n signals good id),
      del_client-Single db id b single,
    )

del_clients-Good :
    (db : Map Client) (ids : List ℕ) (n : ℕ) (signals : List ℕ) (b : Bridge)
    → Good (signal_of b) b.closed n signals
    → Good (signal_of (del_clients db ids b)) (del_clients db ids b).closed n signals
unfolding del_clients
del_clients-Good db [] n signals b good = good
del_clients-Good db (id ∷ ids) n signals b good =
    let (p, q) = del_client-Given db id b in
    del_clients-Good db ids n signals (del_client db id b)
      (moved _ _ _ _ n signals p q (dropped-Good (signal_of b) b.closed n signals good id))

ping-Good :
    (is_close : ℕ → Bool) (db : Map Client) (n : ℕ) (signals : List ℕ) (b : Bridge)
    → Good (signal_of b) b.closed n signals
    → Good (signal_of (ping is_close db b)) (ping is_close db b).closed n signals
unfolding ping
ping-Good is_close db n signals b good =
    let (p, q) = ticked-Unchanged is_close b in
    del_clients-Good db (timed_out is_close b.client) n signals
      (record b { client = ticked is_close b.client }) (moved _ _ _ _ n signals p q good)

stored-Single : (m m' : Map Entry) (id : ℕ) (v : Entry) → m' ≡ store id v m → Single m → Single m'
stored-Single m m' id v e s = subst Single (sym e) (store-Single id v m s)

dealt-Sound :
    (id : ℕ) (vs : List ℕ) (w : World) (r : Bridge × Next)
    → Dealt id w.conns vs w.bridge r
    → Sound w
    → Sound (dealt w r)
dealt-Sound id vs w r as_main (good, single) =
    let (p, q) = work_as_main-Given id w.conns vs w.bridge in
    (
      moved _ _ _ _ _ _ p q
          (renewed-Good (signal_of w.bridge) w.bridge.closed w.conns w.signals good id),
      stored-Single w.bridge.client _ id _ (work_as_main-client id w.conns vs w.bridge) single,
    )
dealt-Sound id vs w r as_chan (good, single) =
    let (p, q) = work_as_chan-Unchanged id w.conns vs w.bridge in
    (
      moved _ _ _ _ _ _ p q
          (passed-Good (signal_of w.bridge) w.bridge.closed w.conns w.signals good),
      stored-Single w.bridge.client _ id _ (work_as_chan-client id w.conns vs w.bridge) single,
    )
dealt-Sound id vs w r refused (good, single) =
    (refused-Good (signal_of w.bridge) w.bridge.closed w.conns w.signals good, single)
dealt-Sound id vs w r (as_config p client) (good, single) =
    (passed-Good (signal_of w.bridge) w.bridge.closed w.conns w.signals good, single)
dealt-Sound id vs w r as_register (good, single) =
    (passed-Good (signal_of w.bridge) w.bridge.closed w.conns w.signals good, single)
dealt-Sound id vs w r ignored (good, single) =
    (passed-Good (signal_of w.bridge) w.bridge.closed w.conns w.signals good, single)

health-Sound :
    (db : Map Client) (id c : ℕ) (w : World) → Sound w → Sound (step (health_ends db id c) w)
unfolding del_client_if_current
health-Sound db id c w s = elim (Bool-cases (is_current (lookup id w.bridge.client) c)) [
  | inl e ↦ rw e (del_client-Signalled db id w.conns w.signals w.bridge s)
  | inr e ↦ rw e s
]

pub step-Sound : (e : Event) (w : World) → Sound w → Sound (step e w)
step-Sound (deals db written type_val id vs) w s =
    dealt-Sound id vs w _ (type_deal-Dealt id w.conns vs w.bridge db written type_val) s
step-Sound (health_ends db id c) w s = health-Sound db id c w s
step-Sound (ticks db is_close) w (good, single) =
    (ping-Good is_close db w.conns w.signals w.bridge good, ping-Single is_close db w.bridge single)
step-Sound (configures id) w (good, single) =
    let (p, q) = work_as_new_conf-Given id w.bridge in
    (
      moved _ _ _ _ _ _ p q
          (dropped-Good (signal_of w.bridge) w.bridge.closed w.conns w.signals good id),
      stored-Single w.bridge.client _ id _ (work_as_new_conf-client id w.bridge) single,
    )
step-Sound (deletes db id) w s = del_client-Signalled db id w.conns w.signals w.bridge s

start-Sound : (ip_verify : Bool) → Sound (start ip_verify)
unfolding new_tunnel
start-Sound ip_verify = (
  record {
    past = λ c h. absurd cc;
    live = λ i c h. absurd cc;
    apart = λ i j c h k. absurd cc;
    accounted = λ c h. absurd cc;
  },
  tt,
)

steps-Sound : (es : List Event) (w : World) → Sound w → Sound (run es w)
unfolding run
steps-Sound [] w s = s
steps-Sound (e ∷ es) w s = steps-Sound es (step e w) (step-Sound e w s)

-- Whatever happens to a new bridge, in any order (connections dealt with under any flag, ticks of
-- `ping`, ends of health readers, configurations, deletions): the signal connection of a client is
-- not closed, no two clients have the same, and every connection whose health was ever read is the
-- signal of a client or is closed.
pub run-start-Sound : (ip_verify : Bool) (es : List Event) → Sound (run es (start ip_verify))
run-start-Sound ip_verify es = steps-Sound es (start ip_verify) (start-Sound ip_verify)
