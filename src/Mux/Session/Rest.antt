-- ===== src/Mux/Session/Rest.antt =====
-- A mux between two handlers, and inside the ones that close something: which connections are at
-- rest, and which are closed.
use nat_punch.Base.{
  ℕ, zero, suc, ◌<◌, ◌≤◌, ◌≡◌, ◌≢◌, refl, sym, ap, ◌∙◌, subst, arith, true, false, List, [], ◌∷◌,
  length, length-set, get_or, set, get_or-set_self, get_or-set_ne, All, ◌⊎◌, ℕ_discrete, dec_lt,
}
use nat_punch.Base.Maps.{Each}
pub use nat_punch.Base.Maps.{Each-map, delete-Each}
use nat_punch.Mux.Conn.{Conn, fresh, done, new_conn}
use nat_punch.Mux.Session.{Session, at, update}

-- The windows take and give nothing any more.
abbrev pub Ended : Conn → Type 0
Ended c =
    (c.is_close ≡ true)
    × (c.receive_window.close_op ≡ true)
    × (c.send_window.close_op ≡ true)
    × (c.stopped ≡ true)

-- Nobody is inside the `Close` of the connection.
abbrev pub Fine : Conn → Type 0
Fine c = ((c.once ≡ fresh) × (c.is_close ≡ false)) ⊎ ((c.once ≡ done) × Ended c)

set_of_length-le {ℓ} : {A : Type ℓ} (xs : List A) (i : ℕ) (v : A) → length xs ≤ i → set xs i v ≡ xs
set_of_length-le [] i v h = refl
set_of_length-le (x ∷ xs) zero v h = absurd (omega (arith, h))
set_of_length-le (x ∷ xs) (suc i) v h = ap (λ t. x ∷ t) (set_of_length-le xs i v (omega (arith, h)))

module _ (r : ℕ) (f : Conn → Conn) (s : Session) where
  pub at-update_same : r < length s.objects → at (update r f s) r ≡ f (at s r)
  at-update_same h = get_or-set_self s.objects r (f (at s r)) (new_conn 0) h

  pub at-update_other : (q : ℕ) → q ≢ r → at (update r f s) q ≡ at s q
  at-update_other q n = get_or-set_ne s.objects r q (f (at s r)) (new_conn 0) (λ e. n (sym e))

  -- What holds of a connection before and after its update holds after any.
  pub at-update :
      (P : Conn → Type 0) (q : ℕ) → (q ≡ r → P (f (at s r))) → P (at s q) → P (at (update r f s) q)
  at-update P q new old = elim (ℕ_discrete q r) [
    | yes e ↦ elim (dec_lt r (length s.objects)) [
      | yes l ↦ subst P (sym (ap (at (update r f s)) e ∙ at-update_same l)) (new e)
      | no l ↦
          subst P
            (ap (λ o. get_or o q (new_conn 0))
              (sym (set_of_length-le s.objects r (f (at s r)) (omega (arith, l)))))
            old
    ]
    | no n ↦ subst P (sym (at-update_other q n)) old
  ]

-- `B` are the connections at rest and `C` those known to be closed: nothing waits for itself, the
-- connections of the map are at rest and stand under their numbers, and the new ones exist.
pub record Rest (B C : ℕ → Type 0) (s : Session) : Type 0 where
  pub unblocked : s.blocked ≡ false
  pub fine : (r : ℕ) → B r → Fine (at s r)
  pub shut : (r : ℕ) → C r → (at s r).is_close ≡ true
  pub keyed : Each (λ i r. B r × (r < length s.objects) × ((at s r).conn_id ≡ i)) s.conn_map
  pub arrived : All (λ r. r < length s.objects) s.new_conn_queue

abbrev pub Open : Session → Type 0
Open s = (s.is_close ≡ false) × (s.close_once ≡ fresh)

abbrev pub Closed : Session → Type 0
Closed s = (s.is_close ≡ true) × (s.close_once ≡ done)

-- No handler is at work.
abbrev pub Quiet : (B C : ℕ → Type 0) → Session → Type 0
Quiet B C s = Rest B C s × (Open s ⊎ Closed s)

pub All-map {ℓ} :
    {A : Type ℓ} (P Q : A → Type 0) (xs : List A) → ((a : A) → P a → Q a) → All P xs → All Q xs
All-map P Q [] h ps = tt
All-map P Q (x ∷ xs) h (p, ps) = (h x p, All-map P Q xs h ps)

-- An update that leaves the number alone, and after which the connection is as it should be.
module _ (B C : ℕ → Type 0) (r : ℕ) (f : Conn → Conn) (s : Session) where
  pub update-Rest :
      Rest B C s
      → (f (at s r)).conn_id ≡ (at s r).conn_id
      → (B r → Fine (f (at s r)))
      → (C r → (f (at s r)).is_close ≡ true)
      → Rest B C (update r f s)
  update-Rest h number fine shut = record {
    unblocked = h.unblocked;
    fine = λ q b. at-update r f s Fine q (λ e. fine (subst B e b)) (h.fine q b);
    shut = λ q c. at-update r f s (λ c. c.is_close ≡ true) q (λ e. shut (subst C e c)) (h.shut q c);
    keyed =
        Each-map _ _ s.conn_map
          (λ i q (b, l, e). (
            b,
            subst (λ n. q < n) (sym (length-set s.objects r (f (at s r)))) l,
            at-update r f s (λ c. c.conn_id ≡ i) q
                (λ same. number ∙ ap (λ q. (at s q).conn_id) (sym same) ∙ e) e,
          ))
          h.keyed;
    arrived =
        All-map _ _ s.new_conn_queue
          (λ q l. subst (λ n. q < n) (sym (length-set s.objects r (f (at s r)))) l) h.arrived;
  }
