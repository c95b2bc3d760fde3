-- ===== src/Bridge/Tests.antt =====
-- The theorems on the bridge at concrete connections, and runs.
mod Registering
use nat_punch.Base.{
  ℕ, ◌+◌, ◌*◌, ◌<◌, ◌≤◌, ◌≡◌, refl, arith, Bool, true, false, List, [], ◌∷◌, ◌++◌, Option, none,
  some, inl, inr, length, take, replicate, length-take, length-append, length-replicate, ltb, min,
  ◌==◌, ◌^◌, if◌then◌else◌, All,
}
use nat_punch.Base.Bytes.{codes}
use nat_punch.Base.Int.{pos}
use nat_punch.Base.Maps.{Map, lookup}
use nat_punch.File.Clients.{Client, new}
use nat_punch.File.Credentials.{get_client, is_pub_client, get_id_by_verify_key}
use nat_punch.File.Targets.{split_lines, kept_lines, trim_right, targets}
use nat_punch.File.Tasks.{zero_target}
use nat_punch.File.Hosts.{Host, all, slash, contains, has_prefix}
use nat_punch.Link.{get_write_str, pool_size}
use nat_punch.Common.{trim_arr}
use nat_punch.Common.Arrays.{count}
use nat_punch.Bridge.{
  Entry, Bridge, new_client, new_tunnel, work_main, work_chan, type_deal, work_as_main,
  work_as_chan, ping, ticked, timed_out, checked, del_clients, del_client,
}
use nat_punch.Bridge.Ticks.{survives, lookup-ping}
use nat_punch.Bridge.Traffic.{
  Event, World, run, start, deals, health_ends, ticks, configures, deletes,
}
use nat_punch.Bridge.Runs.{Sound, run-start-Sound}
use nat_punch.Bridge.Staying.{Connected, Spares, run-Connected}
use nat_punch.Bridge.Handshake.{cli_process, Trusted, cli_process-Trusted}
use nat_punch.Bridge.Meeting.{Agreed, cli_process-new_conn}
use nat_punch.Bridge.Health.{Watched, with_host, get_health_from_client}
use nat_punch.Bridge.Recovery.{last_report}
use nat_punch.Bridge.Reports.{send_all, notices, Sendable, lookup-get_health_from_client}
use nat_punch.Bridge.Sending.{
  Link, hour, send_link_info, register, through, failed, expired, send_link_info-register,
}

abbrev registered : Map Client
registered = (3, record (new (97 ∷ []) false false) { id = 3 }) ∷ []

-- Client 3 comes with a signal and a tunnel.
abbrev arrivals : List Event
arrivals =
    deals registered true work_main 3 (49 ∷ []) ∷ deals registered true work_chan 3 (49 ∷ []) ∷ []

-- It comes again; the reader of the first signal ends later, between two ticks.
abbrev comes_again : List Event
comes_again =
    deals registered true work_main 3 (49 ∷ [])
    ∷ ticks registered (λ t. false)
    ∷ health_ends registered 3 0
    ∷ ticks registered (λ t. false)
    ∷ []

run-start-Sound_example : Sound (run (arrivals ++ comes_again) (start true))
run-start-Sound_example = run-start-Sound true (arrivals ++ comes_again)

abbrev arrived : World
arrived = run arrivals (start true)

abbrev third : Entry
third = record { tunnel = some 1; signal = some 0; version = 49 ∷ []; retry_time = 0 }

arrived-Connected : Connected 3 1 0 third arrived
unfolding run new_tunnel type_deal work_as_main work_as_chan is_pub_client get_client new_client new
arrived-Connected = (refl, refl, refl)

-- Another client comes, `ping` ticks, and the reader of a connection that is not the signal ends.
abbrev others : List Event
others =
    deals registered true work_main 4 []
    ∷ ticks registered (λ t. t == 5)
    ∷ health_ends registered 3 7
    ∷ deletes registered 4
    ∷ []

run-Connected_example : Connected 3 1 0 third (run others arrived)
run-Connected_example =
    run-Connected 3 1 0 third others arrived (run-start-Sound true arrivals) arrived-Connected
      (omega arith, (refl, (inr (omega arith), (omega arith, tt))))

-- One client has a signal only, counted twice, one both, one neither.
abbrev half : Entry
half = record { tunnel = none; signal = some 4; version = []; retry_time = 2 }

abbrev bare : Entry
bare = record { tunnel = none; signal = none; version = []; retry_time = 0 }

abbrev three_clients : Bridge
three_clients = record {
  client = (1, half) ∷ (3, third) ∷ (5, bare) ∷ [];
  register = [];
  open_task = [];
  close_client = [];
  ip_verify = false;
  closed = [];
  closed_tunnels = [];
}

lookup-ping_example :
    lookup 1 (ping (λ t. false) registered three_clients).client
    ≡ survives (λ t. false) (lookup 1 three_clients.client)
lookup-ping_example = lookup-ping (λ t. false) registered 1 three_clients (omega arith)

ping-result : (ping (λ t. false) registered three_clients).client ≡ (3, third) ∷ (5, bare) ∷ []
unfolding ping ticked timed_out checked del_clients del_client is_pub_client get_client new
ping-result = refl

-- A digest of 32 bytes: the text, filled up.
abbrev padded : List ℕ → List ℕ
padded s = take 32 (s ++ replicate 32 0)

padded-length : (s : List ℕ) → length (padded s) ≡ 32
padded-length s = omega (
  arith,
  length-take 32 (s ++ replicate 32 0),
  length-append s (replicate 32 0),
  length-replicate {A = ℕ} 32 0,
)

abbrev remote : List ℕ
remote = codes "1.2.3.4:56"

cli_process-Trusted_example :
    Trusted padded
      (codes "0")
      remote
      registered
      (codes "TST")
      (cli_process padded (codes "0") remote registered (codes "TST"))
cli_process-Trusted_example = cli_process-Trusted padded (codes "0") remote registered (codes "TST")

cli_process-new_conn_example :
    Agreed padded padded-length
      (codes "0")
      remote
      (codes "0")
      (codes "1")
      (97 ∷ [])
      work_main
      registered
      (get_id_by_verify_key padded (padded (97 ∷ [])) remote registered)
cli_process-new_conn_example =
    cli_process-new_conn padded padded-length (codes "0") remote (codes "0") (codes "1") (97 ∷ [])
      work_main registered (omega arith) (omega arith) refl

-- A host with the targets `a` and `b`.
abbrev site : Host
site = record {
  id = 2;
  host = codes "x.a";
  location = slash;
  scheme = all;
  is_close = false;
  has_flow = true;
  client = some 3;
  remark = [];
  no_store = false;
  target = record zero_target { target_str = 97 ∷ 10 ∷ 98 ∷ [] };
  health_remove_arr = [];
}

abbrev sent : List (List ℕ × List ℕ)
sent = (97 ∷ [], 48 ∷ []) ∷ (97 ∷ [], 49 ∷ []) ∷ (98 ∷ [], 48 ∷ []) ∷ []

sent-Sendable : All Sendable sent
unfolding get_write_str
sent-Sendable = omega arith

lines-once : count (97 ∷ []) (trim_arr (split_lines (97 ∷ 10 ∷ 98 ∷ []))) ≡ 1
unfolding trim_arr split_lines
lines-once = refl

lines-kept : count (97 ∷ []) (kept_lines (split_lines (97 ∷ 10 ∷ 98 ∷ []))) ≡ 1
unfolding kept_lines split_lines trim_right
lines-kept = refl

lines-inside : contains (97 ∷ []) (97 ∷ 10 ∷ 98 ∷ []) ≡ true
unfolding contains has_prefix
lines-inside = refl

lookup-get_health_from_client_example :
    (w : Watched) × (lookup 2 (get_health_from_client 4 3 (send_all sent) ([], (2, site) ∷ [])).1
      ≡ some (with_host site w))
    × (count (97 ∷ []) (targets w.0) ≡ (if last_report (97 ∷ []) true (notices sent) then 1 else 0))
lookup-get_health_from_client_example =
    lookup-get_health_from_client 3 2 4 sent ([], (2, site) ∷ []) site (97 ∷ []) sent-Sendable
      (omega arith) refl refl refl refl lines-once lines-kept lines-inside

abbrev to_third : Link
to_third = record {
  conn_type = codes "tcp";
  host = codes "a:1";
  local_proxy = false;
  remote_addr = remote;
  shell_id = [];
  cols = 0;
  rows = 0;
}

abbrev verifying : Bridge
verifying = record three_clients { ip_verify = true }

two_hours : 2 * hour < 2 ^ 63
unfolding hour
two_hours = omega arith

send_link_info-register_example :
    send_link_info (λ t. true) true 5 3 to_third (register 0 remote (some (pos 2)) verifying)
    ≡ (if ltb 5 (0 + 2 * hour) then through (λ t. true) true (some 1) else failed expired)
send_link_info-register_example =
    send_link_info-register (λ t. true) true 0 5 2 3 1 remote to_third third verifying refl refl
      refl refl refl two_hours
