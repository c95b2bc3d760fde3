-- ===== src/Bridge/Signals.antt =====
-- The signal connections of the clients, and those that are closed.
use nat_punch.Base.{
  ℕ, ◌+◌, ◌<◌, ◌≡◌, ◌≢◌, refl, sym, ap, ◌∙◌, arith, true, false, List, ◌∷◌, Option, none, some, ◌⊎◌,
  inl, inr, ◌==◌, if◌then◌else◌, ℕ_discrete, Bool-cases, some_unique,
}
use nat_punch.Bridge.Ticks.{elem}

-- `f` gives the signals, each below `n`, and `signals` all that there ever were.
pub record Good (f : ℕ → Option ℕ) (closed : List ℕ) (n : ℕ) (signals : List ℕ) : Type 0 where
  pub past : (c : ℕ) → elem c closed ≡ true → c < n
  pub live : (i c : ℕ) → f i ≡ some c → (c < n) × (elem c closed ≡ false)
  pub apart : (i j c : ℕ) → f i ≡ some c → f j ≡ some c → i ≡ j
  pub accounted :
      (c : ℕ) → elem c signals ≡ true → (elem c closed ≡ true) ⊎ ((i : ℕ) × (f i ≡ some c))

abbrev pub update : (ℕ → Option ℕ) → ℕ → Option ℕ → ℕ → Option ℕ
update f id o = λ i. if i == id then o else f i

abbrev pub add : Option ℕ → List ℕ → List ℕ
add none cs = cs
add (some c) cs = c ∷ cs

update_same : (f : ℕ → Option ℕ) (id : ℕ) (o : Option ℕ) → update f id o id ≡ o
update_same f id o = ground arith

update_other : (f : ℕ → Option ℕ) (id i : ℕ) (o : Option ℕ) → i ≢ id → update f id o i ≡ f i
update_other f id i o n = ground (arith, n)

elem-add : (o : Option ℕ) (c : ℕ) (cs : List ℕ) → elem c cs ≡ true → elem c (add o cs) ≡ true
elem-add none c cs h = h
elem-add (some d) c cs h = rw h (ground arith)

added : (o : Option ℕ) (c : ℕ) (cs : List ℕ) → o ≡ some c → elem c (add o cs) ≡ true
added none c cs h = absurd cc
added (some d) c cs h = ground (arith, h)

elem-add_other :
    (o : Option ℕ) (c : ℕ) (cs : List ℕ)
    → ((d : ℕ) → o ≡ some d → c ≢ d)
    → elem c (add o cs) ≡ elem c cs
elem-add_other none c cs h = refl
elem-add_other (some d) c cs h = ground (arith, h d refl)

elem-add_back :
    (o : Option ℕ) (c : ℕ) (cs : List ℕ)
    → elem c (add o cs) ≡ true
    → (o ≡ some c) ⊎ (elem c cs ≡ true)
elem-add_back none c cs h = inr h
elem-add_back (some d) c cs h = elim (ℕ_discrete c d) [
  | yes e ↦ inl (ap some (sym e))
  | no n ↦ inr (ground (arith, n, h))
]

module _ (f : ℕ → Option ℕ) (closed : List ℕ) (n : ℕ) (signals : List ℕ)
    (good : Good f closed n signals) where
  past-add : (id c : ℕ) → elem c (add (f id) closed) ≡ true → c < n
  past-add id c h = elim (elem-add_back (f id) c closed h) [
    | inl e ↦ (good.live id c e).0
    | inr old ↦ good.past c old
  ]

  live_other : (id i c : ℕ) → i ≢ id → f i ≡ some c → (c < n) × (elem c (add (f id) closed) ≡ false)
  live_other id i c ne at = (
    (good.live i c at).0,
    elem-add_other (f id) c closed (λ d e q. ne (good.apart i id c at (e ∙ ap some (sym q))))
        ∙ (good.live i c at).1,
  )

  -- Who has a signal after `id` has been given another one.
  still :
      (id : ℕ) (o : Option ℕ) (c : ℕ)
      → elem c signals ≡ true
      → (elem c (add (f id) closed) ≡ true) ⊎ ((i : ℕ) × (update f id o i ≡ some c))
  still id o c h = elim (good.accounted c h) [
    | inl old ↦ inl (elem-add (f id) c closed old)
    | inr (i, at) ↦ elim (ℕ_discrete i id) [
      | yes e ↦ inl (added (f id) c closed (ap f (sym e) ∙ at))
      | no ne ↦ inr (i, update_other f id i o ne ∙ at)
    ]
  ]

  pub dropped-Good : (id : ℕ) → Good (update f id none) (add (f id) closed) n signals
  dropped-Good id = record {
    past = past-add id;
    live = λ i c at. elim (ℕ_discrete i id) [
      | yes e ↦
          let none_there = sym (update_same f id none) ∙ (ap (update f id none) (sym e) ∙ at) in
          absurd cc
      | no ne ↦ live_other id i c ne (sym (update_other f id i none ne) ∙ at)
    ];
    apart = λ i j c p q. elim (ℕ_discrete i id) [
      | yes e ↦
          let none_there = sym (update_same f id none) ∙ (ap (update f id none) (sym e) ∙ p) in
          absurd cc
      | no ne ↦ elim (ℕ_discrete j id) [
        | yes e ↦
            let none_there = sym (update_same f id none) ∙ (ap (update f id none) (sym e) ∙ q) in
            absurd cc
        | no me ↦
            good.apart i j c (sym (update_other f id i none ne) ∙ p)
              (sym (update_other f id j none me) ∙ q)
      ]
    ];
    accounted = still id none;
  }

  new_of :
      (id i c : ℕ)
      → update f id (some n) i ≡ some c
      → ((i ≡ id) × (c ≡ n)) ⊎ ((i ≢ id) × (f i ≡ some c))
  new_of id i c at = elim (ℕ_discrete i id) [
    | yes e ↦ inl (e, some_unique at (ap (update f id (some n)) e ∙ update_same f id (some n)))
    | no ne ↦ inr (ne, sym (update_other f id i (some n) ne) ∙ at)
  ]

  fresh-add : (id c : ℕ) → c ≡ n → elem c (add (f id) closed) ≡ false
  fresh-add id c e = elim (Bool-cases (elem c (add (f id) closed))) [
    | inl old ↦ absurd (omega (arith, e, past-add id c old))
    | inr new ↦ new
  ]

  pub renewed-Good :
      (id : ℕ) → Good (update f id (some n)) (add (f id) closed) (n + 1) (n ∷ signals)
  renewed-Good id = record {
    past = λ c h. omega (arith, past-add id c h);
    live = λ i c at. elim (new_of id i c at) [
      | inl (e, new) ↦ (omega (arith, new), fresh-add id c new)
      | inr (ne, old) ↦ let (l, opened) = live_other id i c ne old in (omega (arith, l), opened)
    ];
    apart = λ i j c p q. elim (new_of id i c p) [
      | inl (e, new) ↦ elim (new_of id j c q) [
        | inl (e', new') ↦ e ∙ sym e'
        | inr (ne, old) ↦ absurd (omega (arith, new, (good.live j c old).0))
      ]
      | inr (ne, old) ↦ elim (new_of id j c q) [
        | inl (e', new') ↦ absurd (omega (arith, new', (good.live i c old).0))
        | inr (ne', old') ↦ good.apart i j c old old'
      ]
    ];
    accounted = λ c h. elim (ℕ_discrete c n) [
      | yes e ↦ inr (id, update_same f id (some n) ∙ ap some (sym e))
      | no ne ↦ still id (some n) c (ground (arith, h, ne))
    ];
  }

  -- A connection that is no signal, and one that is closed at once.
  pub passed-Good : Good f closed (n + 1) signals
  passed-Good = record {
    past = λ c h. omega (arith, good.past c h);
    live = λ i c at. (omega (arith, (good.live i c at).0), (good.live i c at).1);
    apart = good.apart;
    accounted = good.accounted;
  }

  pub refused-Good : Good f (n ∷ closed) (n + 1) signals
  refused-Good = record {
    past = λ c h. elim (elem-add_back (some n) c closed h) [
      | inl e ↦ let same : n ≡ c = some_unique refl e in omega (arith, same)
      | inr old ↦ omega (arith, good.past c old)
    ];
    live = λ i c at. (
      omega (arith, (good.live i c at).0),
      elem-add_other (some n) c closed (λ d e q.
            let same : n ≡ d = some_unique refl e in omega (arith, same, q, (good.live i c at).0))
          ∙ (good.live i c at).1,
    );
    apart = good.apart;
    accounted = λ c h. elim (good.accounted c h) [
      | inl old ↦ inl (elem-add (some n) c closed old)
      | inr at ↦ inr at
    ];
  }
