-- ===== src/Mux/Session/Closing.antt =====
-- `conn.Close` in its parts, and in a mux that is closed.
use nat_punch.Base.{
  ℕ, ◌<◌, ◌≤◌, ◌≡◌, ◌≢◌, refl, sym, ap, ◌∙◌, subst, arith, true, List, length, length-set,
  if◌then◌else◌, ◌⊎◌, inl, inr, ℕ_discrete,
}
use nat_punch.Base.Maps.{delete}
use nat_punch.Mux.Frame.{nil, mux_conn_close}
use nat_punch.Mux.Conn.{Conn, fresh, running, done, close_windows, close_send, close_receive}
use nat_punch.Mux.Session.{Session, at, update, send_info, close_process, close_conn}
use nat_punch.Mux.Session.Rest.{
  Fine, at-update, at-update_same, at-update_other, Rest, Each-map, All-map, delete-Each,
}

abbrev pub enter : Conn → Conn
enter c = record c { is_close = true; once = running }

abbrev pub leave : Conn → Conn
leave c = record (close_windows c) { once = done }

-- `closeProcess` up to the frame it sends.
abbrev pub entered : ℕ → Session → Session
entered r s =
    let s1 = update r enter s in record s1 { conn_map = delete ((at s r).conn_id) s1.conn_map }

-- The connections of `B` but one, and one more than those of `C`.
abbrev pub But : (B : ℕ → Type 0) → ℕ → ℕ → Type 0
But B r q = B q × (q ≢ r)

abbrev pub Or : (C : ℕ → Type 0) → ℕ → ℕ → Type 0
Or C r q = C q ⊎ (q ≡ r)

module _ (B C : ℕ → Type 0) (r : ℕ) (s : Session) where
  pub entered-Rest : Rest B C s → r < length s.objects → Rest (But B r) (Or C r) (entered r s)
  entered-Rest h l = record {
    unblocked = h.unblocked;
    fine = λ q (b, n). subst Fine (sym (at-update_other r enter s q n)) (h.fine q b);
    shut = shut;
    keyed =
        Each-map _ _ (delete ((at s r).conn_id) s.conn_map) keep
          (delete-Each _ ((at s r).conn_id) s.conn_map h.keyed);
    arrived =
        All-map _ _ s.new_conn_queue
          (λ q l. subst (λ n. q < n) (sym (length-set s.objects r (enter (at s r)))) l) h.arrived;
  }
    where
      shut : (q : ℕ) → Or C r q → (at (entered r s) q).is_close ≡ true
      shut q (inl c) = at-update r enter s (λ c. c.is_close ≡ true) q (λ e. refl) (h.shut q c)
      shut q (inr e) =
          ap (λ q. (at (entered r s) q).is_close) e
          ∙ ap (λ (c : Conn). c.is_close) (at-update_same r enter s l)

      keep :
          (i q : ℕ)
          → (B q × (q < length s.objects) × ((at s q).conn_id ≡ i)) × (i ≢ (at s r).conn_id)
          → But B r q × (q < length (entered r s).objects) × ((at (entered r s) q).conn_id ≡ i)
      keep i q ((b, l, e), other) =
          let n : q ≢ r = λ same. other (sym e ∙ ap (λ q. (at s q).conn_id) same) in
          (
            (b, n),
            subst (λ n. q < n) (sym (length-set s.objects r (enter (at s r)))) l,
            ap (λ (c : Conn). c.conn_id) (at-update_other r enter s q n) ∙ e,
          )

  pub left-Rest : Rest (But B r) C s → C r → r < length s.objects → Rest B C (update r leave s)
  unfolding close_windows close_receive close_send
  left-Rest h c l = record {
    unblocked = h.unblocked;
    fine = fine;
    shut = λ q d. at-update r leave s (λ c. c.is_close ≡ true) q (λ e. h.shut r c) (h.shut q d);
    keyed =
        Each-map _ _ s.conn_map
          (λ i q ((b, n), l, e). (
            b,
            subst (λ n. q < n) (sym (length-set s.objects r (leave (at s r)))) l,
            ap (λ (c : Conn). c.conn_id) (at-update_other r leave s q n) ∙ e,
          ))
          h.keyed;
    arrived =
        All-map _ _ s.new_conn_queue
          (λ q l. subst (λ n. q < n) (sym (length-set s.objects r (leave (at s r)))) l) h.arrived;
  }
    where
      ended : Fine (leave (at s r))
      ended = inr (refl, (h.shut r c, refl, refl, refl))

      fine : (q : ℕ) → B q → Fine (at (update r leave s) q)
      fine q b = elim (ℕ_discrete q r) [
        | yes e ↦ subst Fine (sym (ap (at (update r leave s)) e ∙ at-update_same r leave s l)) ended
        | no n ↦ subst Fine (sym (at-update_other r leave s q n)) (h.fine q (b, n))
      ]

-- What a call inside `closeProcess` must keep: a place that exists goes on to exist.
abbrev Longer : Session → Session → Type 0
Longer s s' = length s.objects ≤ length s'.objects

module _ (buffer : List ℕ) (cl : Session → Session) where
  -- `closeProcess` in three parts.
  pub close_process_lem :
      (r : ℕ) (s : Session)
      → close_process buffer cl r s
        ≡ update r leave (
            if s.is_close
            then entered r s
            else send_info buffer cl mux_conn_close ((at s r).conn_id) nil (entered r s))
  unfolding close_process
  close_process_lem r s = refl

  pub fresh-call :
      (r : ℕ) (s : Session)
      → (at s r).once ≡ fresh
      → close_conn buffer cl r s ≡ close_process buffer cl r s
  unfolding close_conn
  fresh-call r s e = rw e refl

  pub done-call : (r : ℕ) (s : Session) → (at s r).once ≡ done → close_conn buffer cl r s ≡ s
  unfolding close_conn
  done-call r s e = rw e refl

  -- Once the mux is closed, `Close` of a connection sends nothing.
  abbrev Silent : (B C : ℕ → Type 0) → ℕ → Session → Session → Type 0
  Silent B C r s s' =
      Rest B (Or C r) s'
      × (s'.is_close ≡ true)
      × (s'.write_queue ≡ s.write_queue)
      × (length s'.objects ≡ length s.objects)
      × (s'.close_once ≡ s.close_once)

  pub late_close-Rest :
      (B C : ℕ → Type 0) (r : ℕ) (s : Session)
      → s.is_close ≡ true
      → Rest B C s
      → B r
      → r < length s.objects
      → Silent B C r s (close_conn buffer cl r s)
  late_close-Rest B C r s closed h b l = go (h.fine r b)
    where
      entered_length : length (entered r s).objects ≡ length s.objects
      entered_length = length-set s.objects r (enter (at s r))

      shut_too : (at s r).is_close ≡ true → (q : ℕ) → Or C r q → (at s q).is_close ≡ true
      shut_too e q (inl c) = h.shut q c
      shut_too e q (inr same) = ap (λ q. (at s q).is_close) same ∙ e

      go : Fine (at s r) → Silent B C r s (close_conn buffer cl r s)
      go (inl (e, o)) =
          let eq : close_conn buffer cl r s ≡ update r leave (entered r s) =
            fresh-call r s e ∙ close_process_lem r s ∙ rw closed refl in
          subst (Silent B C r s) (sym eq) (
            left-Rest B (Or C r) r (entered r s) (entered-Rest B C r s h l) (inr refl)
                (omega (arith, l, entered_length)),
            closed,
            refl,
            length-set (entered r s).objects r (leave (at (entered r s) r)) ∙ entered_length,
            refl,
          )
      go (inr (e, (o, p, q, t))) = subst (Silent B C r s) (sym (done-call r s e)) (
        record {
          unblocked = h.unblocked;
          fine = h.fine;
          shut = shut_too o;
          keyed = h.keyed;
          arrived = h.arrived;
        },
        closed,
        refl,
        refl,
        refl,
      )
