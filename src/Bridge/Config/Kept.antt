-- ===== src/Bridge/Config/Kept.antt =====
-- What one client's configuration cannot do to the others.
use nat_punch.Base.{
  ℕ, ◌+◌, ◌≤◌, ◌≡◌, ◌≢◌, ap, ◌∙◌, arith, Bool, true, false, not, ◌&&◌, List, [], Option, none, some,
  inl, inr, Bool-cases, ltb, leb, if◌then◌else◌,
}
use nat_punch.Base.Maps.{
  Map, lookup, store, Each, Each-map, lookup-Each, store-Each, lookup-store_other,
}
use nat_punch.File.Clients.{Client, Failure, same, get_client_count, new_client}
use nat_punch.File.Clients.Ids.{Keyed}
use nat_punch.File.Clients.Keys.{Distinct}
use nat_punch.File.Clients.Outcomes.{new_client-Distinct, new_client-others}
use nat_punch.File.Credentials.{get_client, get_client_id_by_vkey, valid_verify_key}
use nat_punch.File.Free.{Numbered}
use nat_punch.File.Tasks.{Tunnel}
use nat_punch.File.Hosts.{Host}
use nat_punch.Bridge.Config.{
  Session, status_of, work_status, is_no_store, pinned, get_config_info, answered, registered,
  register_client, new_conf,
}

abbrev pub task_id : Tunnel → ℕ
task_id t = t.id

-- The registry as its own operations keep it: clients and tunnels stand under their numbers, no two
-- clients have one key, and the numbers of hosts do not pass the counter.
abbrev pub Registry : Session → Type 0
Registry s =
    Keyed s.db.clients
    × Distinct s.db.clients
    × Numbered task_id s.tasks
    × Each (λ k h. k ≤ s.host_increase_id) s.hosts

-- All clients but one, all tunnels and all hosts are there as before.
abbrev pub Grown : ℕ → Session → Session → Type 0
Grown id s s' =
    ((i : ℕ) (d : Client)
      → i ≢ id
      → lookup i s.db.clients ≡ some d
      → lookup i s'.db.clients ≡ some d)
    × ((k : ℕ) (t : Tunnel) → lookup k s.tasks ≡ some t → lookup k s'.tasks ≡ some t)
    × ((k : ℕ) (h : Host) → lookup k s.hosts ≡ some h → lookup k s'.hosts ≡ some h)

-- The counter of hosts has grown by no more than `n`.
abbrev pub Fine : (n id : ℕ) → Session → Session → Type 0
Fine n id s s' = Registry s' × Grown id s s' × (s'.host_increase_id ≤ s.host_increase_id + n)

module _ (id : ℕ) where
  pub unchanged : (s : Session) → Registry s → Fine 0 id s s
  unchanged s r = (r, ((λ i d n at. at), (λ k t at. at), λ k h at. at), omega arith)

  pub looser : (n : ℕ) (s s' : Session) → Fine 0 id s s' → Fine n id s s'
  looser n s s' (r, g, l) = (r, g, omega (arith, l))

  pub onward :
      (n m : ℕ) (s s' s'' : Session)
      → Fine n id s s'
      → (Registry s' → s'.host_increase_id ≤ s.host_increase_id + n → Fine m id s' s'')
      → Fine (n + m) id s s''
  onward n m s s' s'' (r, (c, t, h), l) next =
      let (r', (c', t', h'), l') = next r l in
      (
        r',
        (
          (λ i d n at. c' i d n (c i d n at)),
          (λ k v at. t' k v (t k v at)),
          λ k v at. h' k v (h k v at),
        ),
        omega (arith, l, l'),
      )

  status-Fine :
      (runs : ℕ → Bool) (s : Session) (o : Option ℕ)
      → Registry s
      → Fine 0 id s (status_of runs s o).0
  status-Fine runs s none r = unchanged s r
  status-Fine runs s (some i) r = unchanged s r

  pub work_status-Fine :
      (digest : List ℕ → List ℕ) (runs : ℕ → Bool) (k : Option (List ℕ)) (s : Session)
      → Registry s
      → Fine 0 id s (work_status digest runs k s).0
  unfolding work_status
  work_status-Fine digest runs none s r = unchanged s r
  work_status-Fine digest runs (some k) s r =
      status-Fine runs s (get_client_id_by_vkey digest k s.db.clients) r

  answered-Fine :
      (sent : Bool) (e : Option Failure) (s : Session)
      → Registry s
      → Fine 0 id s (answered sent e s).0
  answered-Fine sent (some e) s r = unchanged s r
  answered-Fine true none s r = unchanged s r
  answered-Fine false none s r = unchanged s r

  -- The pinned identity is that of no other client.
  pinned-apart :
      (c : Client) (m : Map Client) (i : ℕ) (d : Client)
      → Keyed m
      → i ≢ id
      → lookup i m ≡ some d
      → i ≢ (pinned id m c).id
  unfolding pinned
  pinned-apart c m i d keyed n at e =
      let positive = (lookup-Each (λ key c. (c.id ≡ key) × (1 ≤ key)) i m keyed at).1 in
      elim (Bool-cases (is_no_store (get_client id m))) [
        | inl b ↦
            let zero_id = e ∙ ap (λ t. if t then 0 else id) b in omega (arith, zero_id, positive)
        | inr b ↦ n (e ∙ ap (λ t. if t then 0 else id) b)
      ]

  module _ (hash_password : List ℕ → Option (List ℕ)) where
    registered-Fine :
        (saved sent : Bool) (keys : List (List ℕ)) (c : Client) (s : Session)
        → ((i : ℕ) (d : Client) → i ≢ id → lookup i s.db.clients ≡ some d → i ≢ c.id)
        → Registry s
        → Fine 0 id s (registered sent c s (new_client hash_password saved keys c s.db)).0
    registered-Fine saved sent keys c s apart (keyed, distinct, numbered, below) =
        let (db, failure) = new_client hash_password saved keys c s.db in
        let (keyed', distinct') =
          new_client-Distinct hash_password saved keys c s.db keyed distinct in
        let (s', turn) = registered sent c s (db, failure) in
        onward 0 0 s (record s { db = db }) s'
          (
            (keyed', distinct', numbered, below),
            (
              (λ i d n at.
                  new_client-others hash_password saved keys c s.db keyed i d (apart i d n at) at),
              (λ k t at. at),
              λ k h at. at,
            ),
            omega arith,
          )
          (λ r near. answered-Fine sent failure _ r)

    register_client-Fine :
        (saved sent : Bool) (keys : List (List ℕ)) (c : Client) (s : Session)
        → ((i : ℕ) (d : Client) → i ≢ id → lookup i s.db.clients ≡ some d → i ≢ c.id)
        → Registry s
        → Fine 0 id s (register_client hash_password id saved sent keys c s).0
    register_client-Fine saved sent keys c s apart r =
        elim (Bool-cases (not (same c.verify_key []) && not (valid_verify_key c.verify_key))) [
          | inl bad ↦ rw bad (unchanged s r)
          | inr good ↦
              elim (Bool-cases
                (ltb 0 s.db.max_clients && leb s.db.max_clients (get_client_count s.db.clients))) [
                  | inl full ↦ rw (good, full) (unchanged s r)
                  | inr free ↦
                      rw (good, free)
                        (registered-Fine saved sent keys (record c { no_store = false }) s apart r)
                ]
        ]

    pub new_conf-Fine :
        (saved sent : Bool) (keys : List (List ℕ)) (c : Option Client) (s : Session)
        → Registry s
        → Fine 0 id s (new_conf hash_password id saved sent keys c s).0
    unfolding new_conf
    new_conf-Fine saved sent keys none s r = unchanged s r
    new_conf-Fine saved sent keys (some c) s r =
        register_client-Fine saved sent keys (pinned id s.db.clients (get_config_info c)) s
          (λ i d n at. pinned-apart (get_config_info c) s.db.clients i d r.0 n at) r

  -- A host with the next number.
  pub stored_host :
      (h : Host) (s : Session)
      → h.id ≡ s.host_increase_id + 1
      → Registry s
      → Fine 1 id s
          (record s { hosts = store h.id h s.hosts; host_increase_id = s.host_increase_id + 1 })
  stored_host h s e (keyed, distinct, numbered, below) =
      let wider =
        Each-map (λ k v. k ≤ s.host_increase_id) (λ k v. k ≤ s.host_increase_id + 1) s.hosts
          (λ k v l. omega (arith, l)) below in
      (
        (
          keyed,
          distinct,
          numbered,
          store-Each (λ k v. k ≤ s.host_increase_id + 1) h.id h s.hosts (omega (arith, e)) wider,
        ),
        (
          (λ i d n at. at),
          (λ k t at. at),
          λ k v at.
              lookup-store_other h.id k h s.hosts (λ q.
                let l = lookup-Each (λ k v. k ≤ s.host_increase_id) k s.hosts below at in
                omega (arith, l, q, e))
              ∙ at,
        ),
        omega arith,
      )
