-- ===== src/Bridge/Staying.antt =====
-- A client that stays connected.
use nat_punch.Base.{
  ℕ, ◌≡◌, ◌≢◌, refl, sym, ap, ◌∙◌, arith, Bool, false, List, [], ◌∷◌, none, some, ◌⊎◌, inl, inr,
  All, ◌==◌, if◌then◌else◌, ℕ_discrete, Bool-cases,
}
use nat_punch.Base.Maps.{Map, lookup, store, Single, lookup-store_other}
use nat_punch.File.Clients.{Client}
use nat_punch.Bridge.{Entry, Bridge, Next, del_client, is_current, del_client_if_current}
use nat_punch.Bridge.Entries.{
  lookup-del_client, work_as_main-client, work_as_chan-client, work_as_new_conf-client,
}
use nat_punch.Bridge.Ticks.{lookup-ping, survives}
use nat_punch.Bridge.Traffic.{
  Event, World, step, run, dealt, deals, health_ends, ticks, configures, deletes, Dealt, as_main,
  as_chan, refused, as_config, as_register, ignored, type_deal-Dealt,
}
use nat_punch.Bridge.Runs.{Sound, step-Sound}

-- The event is not about the client `i`, and does not find its tunnel `t` closed; the reader of
-- another connection of that client than `c` may end.
abbrev pub Spares : (i t c : ℕ) → Event → Type 0
Spares i t c (deals db written type_val id vs) = i ≢ id
Spares i t c (health_ends db id d) = (i ≢ id) ⊎ (c ≢ d)
Spares i t c (ticks db is_close) = is_close t ≡ false
Spares i t c (configures id) = i ≢ id
Spares i t c (deletes db id) = i ≢ id

kept_apart :
    (db : Map Client) (id i : ℕ) (b : Bridge)
    → i ≢ id
    → lookup i (del_client db id b).client ≡ lookup i b.client
kept_apart db id i b n =
    let test : (i == id) ≡ false = ground (arith, n) in
    lookup-del_client db id i b ∙ ap (λ t. if t then none else lookup i b.client) test

stored :
    (i id : ℕ) (v : Entry) (m m' : Map Entry)
    → i ≢ id
    → m' ≡ store id v m
    → lookup i m' ≡ lookup i m
stored i id v m m' n e = ap (lookup i) e ∙ lookup-store_other id i v m n

dealt-kept :
    (i id : ℕ) (vs : List ℕ) (w : World) (r : Bridge × Next)
    → i ≢ id
    → Dealt id w.conns vs w.bridge r
    → lookup i (dealt w r).bridge.client ≡ lookup i w.bridge.client
dealt-kept i id vs w r n as_main =
    stored i id _ w.bridge.client _ n (work_as_main-client id w.conns vs w.bridge)
dealt-kept i id vs w r n as_chan =
    stored i id _ w.bridge.client _ n (work_as_chan-client id w.conns vs w.bridge)
dealt-kept i id vs w r n refused = refl
dealt-kept i id vs w r n (as_config p client) = refl
dealt-kept i id vs w r n as_register = refl
dealt-kept i id vs w r n ignored = refl

-- A client with the tunnel `t` and the signal `c`.
abbrev pub Connected : (i t c : ℕ) → Entry → World → Type 0
Connected i t c v w =
    (lookup i w.bridge.client ≡ some v) × (v.tunnel ≡ some t) × (v.signal ≡ some c)

module _ (i t c : ℕ) (v : Entry) where
  alive :
      (is_close : ℕ → Bool)
      → is_close t ≡ false
      → v.tunnel ≡ some t
      → v.signal ≡ some c
      → survives is_close (some v) ≡ some v
  alive is_close h p q = rw (p, q, h) refl

  stale :
      (id d : ℕ) (b : Bridge)
      → (i ≢ id) ⊎ (c ≢ d)
      → lookup i b.client ≡ some v
      → v.signal ≡ some c
      → (i ≢ id) ⊎ (is_current (lookup id b.client) d ≡ false)
  stale id d b (inl n) p q = inl n
  stale id d b (inr n) p q = elim (ℕ_discrete i id) [
    | yes e ↦
        let here = ap (λ k. lookup k b.client) (sym e) ∙ p in
        let test : (c == d) ≡ false = ground (arith, n) in inr (rw (here, q) test)
    | no ne ↦ inl ne
  ]

  step-kept :
      (e : Event) (w : World)
      → Spares i t c e
      → Single w.bridge.client
      → Connected i t c v w
      → lookup i (step e w).bridge.client ≡ some v
  unfolding del_client_if_current
  step-kept (deals db written type_val id vs) w n s (p, q, r) =
      dealt-kept i id vs w _ n (type_deal-Dealt id w.conns vs w.bridge db written type_val) ∙ p
  step-kept (health_ends db id d) w h s (p, q, r) = elim (stale id d w.bridge h p r) [
    | inl n ↦ elim (Bool-cases (is_current (lookup id w.bridge.client) d)) [
      | inl e ↦ rw e (kept_apart db id i w.bridge n ∙ p)
      | inr e ↦ rw e p
    ]
    | inr e ↦ rw e p
  ]
  step-kept (ticks db is_close) w h s (p, q, r) =
      lookup-ping is_close db i w.bridge s ∙ (ap (survives is_close) p ∙ alive is_close h q r)
  step-kept (configures id) w n s (p, q, r) =
      stored i id _ w.bridge.client _ n (work_as_new_conf-client id w.bridge) ∙ p
  step-kept (deletes db id) w n s (p, q, r) = kept_apart db id i w.bridge n ∙ p

  -- A client that has a signal connection and a tunnel stays as it is, whatever else happens, as
  -- long as the tunnel is not closed and nothing is done for this client itself: other clients come
  -- and go, `ping` ticks, and readers of health end, also those of connections that this client had
  -- before.
  pub run-Connected :
      (es : List Event) (w : World)
      → Sound w
      → Connected i t c v w
      → All (Spares i t c) es
      → Connected i t c v (run es w)
  unfolding run
  run-Connected [] w s h spares = h
  run-Connected (e ∷ es) w s (p, q, r) (spare, spares) =
      run-Connected es (step e w) (step-Sound e w s) (step-kept e w spare s.1 (p, q, r), q, r)
        spares
