-- ===== src/Bridge/Tests/Registering.antt =====
-- The theorems on the configuration of a client at a concrete registry.
use nat_punch.Base.{
  ℕ, ◌+◌, ◌-◌, ◌<◌, ◌≡◌, refl, arith, true, false, List, [], ◌∷◌, Option, none, some, length, All,
  ◌≢◌, ◌⊎◌, inl, inr, sym, ap, ◌∙◌, some_unique, ℕ_discrete,
}
use nat_punch.Base.Bytes.{codes}
use nat_punch.Base.Int.{ℤ, pos}
use nat_punch.Base.Maps.{lookup}
use nat_punch.File.Clients.{Client, new}
use nat_punch.File.Clients.Keys.{Distinct}
use nat_punch.File.Tasks.{zero_tunnel, zero_target}
use nat_punch.Common.Ports.{IsPort, get_ports, split_at, is_port, count_up, get_ports-IsPort}
use nat_punch.Bridge.{new_tunnel}
use nat_punch.Bridge.Config.{Session, panics}
use nat_punch.Bridge.Config.Tasks.{TaskInfo, Outside, work_as_new_task}
use nat_punch.Bridge.Config.Loop.{Message, gives_conf, gives_task, unknown, get_config}
use nat_punch.Bridge.Config.Kept.{Registry, Fine}
use nat_punch.Bridge.Config.Isolation.{get_config-Fine}
use nat_punch.Bridge.Config.Crash.{
  sent_ports, sent_targets, work_as_new_task-panics, work_as_new_task-is_paired,
}

-- One digit.
abbrev digit : List ℕ → Option ℤ
digit [] = none
digit (c ∷ []) = some (pos (c - 48))
digit (c ∷ d ∷ s) = none

abbrev outside : Outside
outside = record {
  atoi = digit;
  itoa = λ n. (n + 48) ∷ [];
  test_server_port = λ p m. true;
  max_tunnels = 0;
  saved = true;
}

get_ports-IsPort_example : All (IsPort digit) (get_ports digit (codes "2-4,9,x"))
get_ports-IsPort_example = get_ports-IsPort digit (codes "2-4,9,x")

abbrev owner : Client
owner = record (new (codes "abcdefgh") false false) { id = 1; config_conn_allow = true }

abbrev other : Client
other = record (new (codes "ijklmnop") false false) { id = 2 }

abbrev session : Session
session = record {
  client = owner;
  bridge = new_tunnel false;
  db = record {
    clients = (1, owner) ∷ (2, other) ∷ [];
    sampling = [];
    client_increase_id = 0;
    max_clients = 0;
  };
  tasks = (1, record zero_tunnel { id = 1; port = 80; client = some 2 }) ∷ [];
  hosts = [];
  host_increase_id = 0;
  replies = [];
}

-- A range of ports for a SOCKS5 tunnel, which has no target.
abbrev socks_range : TaskInfo
socks_range = record {
  task = record zero_tunnel { mode = codes "socks5" };
  ports = codes "2-4";
  target_addr = [];
}

socks_range-ports :
    (1 < length (sent_ports outside socks_range)) × (sent_targets outside socks_range ≡ [])
unfolding get_ports split_at is_port count_up
socks_range-ports = (omega arith, refl)

work_as_new_task-panics_example :
    work_as_new_task outside (some socks_range) session ≡ (session, panics)
work_as_new_task-panics_example =
    work_as_new_task-panics outside socks_range session refl socks_range-ports.0 socks_range-ports.1

-- A range of ports for TCP, and one target.
abbrev tcp_range : TaskInfo
tcp_range = record {
  task = record zero_tunnel {
    mode = codes "tcp";
    target = record zero_target { target_str = codes "5" };
  };
  ports = codes "2-4";
  target_addr = [];
}

work_as_new_task-is_paired_example : (work_as_new_task outside (some tcp_range) session).1 ≢ panics
work_as_new_task-is_paired_example = work_as_new_task-is_paired outside tcp_range session refl

apart :
    (i : ℕ) (c : Client)
    → lookup i session.db.clients ≡ some c
    → ((i ≡ 1) × (c ≡ owner)) ⊎ ((i ≡ 2) × (c ≡ other))
unfolding new
apart i c p = elim (ℕ_discrete i 1) [
  | yes e ↦ inl (e, some_unique p (ap (λ k. lookup k session.db.clients) e))
  | no n ↦ elim (ℕ_discrete i 2) [
    | yes e ↦ inr (e, some_unique p (ap (λ k. lookup k session.db.clients) e))
    | no m ↦ absurd (ground (arith, p, n, m))
  ]
]

keys-apart : owner.verify_key ≢ other.verify_key
unfolding new
keys-apart e = absurd (ground (arith, e))

session-Distinct : Distinct session.db.clients
session-Distinct i j c d p q e = elim (apart i c p) [
  | inl (a, o) ↦ elim (apart j d q) [
    | inl (b, t) ↦ a ∙ sym b
    | inr (b, t) ↦
        absurd (keys-apart (sym (ap (λ c. c.verify_key) o) ∙ (e ∙ ap (λ c. c.verify_key) t)))
  ]
  | inr (a, o) ↦ elim (apart j d q) [
    | inl (b, t) ↦
        absurd (keys-apart (sym (ap (λ c. c.verify_key) t) ∙ (sym e ∙ ap (λ c. c.verify_key) o)))
    | inr (b, t) ↦ a ∙ sym b
  ]
]

session-Registry : Registry session
unfolding new
session-Registry = (omega arith, session-Distinct, omega arith, tt)

-- The client gives itself the identity of the other one.
abbrev claims : List Message
claims =
    gives_conf true true [] (some (record other { verify_key = codes "qrstuvwx" }))
    ∷ unknown
    ∷ gives_task (some socks_range)
    ∷ []

get_config-Fine_example :
    Fine 3 1 session (get_config (λ k. k) (λ p. some p) (λ t. false) outside 1 0 claims session).0
get_config-Fine_example =
    get_config-Fine (λ k. k) (λ p. some p) (λ t. false) outside 1 0 claims session (omega arith)
      session-Registry
