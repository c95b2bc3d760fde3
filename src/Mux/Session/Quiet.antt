-- ===== src/Mux/Session/Quiet.antt =====
-- Sending and closing from outside every handler.
use nat_punch.Base.{
  ℕ, ◌<◌, ◌≡◌, refl, sym, ap, ◌∙◌, subst, arith, Bool, true, false, List, Option, none, some,
  length, length-set, if◌then◌else◌, inl, inr,
}
use nat_punch.Mux.Frame
use nat_punch.Mux.Frame.{Info, nil, mux_conn_close, blank, Packager}
use nat_punch.Mux.Priority
use nat_punch.Mux.Priority.{Queue}
use nat_punch.Mux.Conn.{Conn}
use nat_punch.Mux.Session.{
  Session, at, update, queued, set_packager, send_info, close_conn, snapshot, close,
}
use nat_punch.Mux.Session.Rest.{Ended, Fine, Rest, Open, Closed, Quiet}
use nat_punch.Mux.Session.Closing.{
  Or, But, enter, leave, entered, entered-Rest, left-Rest, fresh-call, done-call, close_process_lem,
  late_close-Rest,
}
use nat_punch.Mux.Session.Sweep.{In, OrIn, weaken-Rest, close-done, close-Rest}

-- Afterwards the mux is as quiet, and no connection has gone.
abbrev pub Kept : (B C : ℕ → Type 0) → Session → Session → Type 0
Kept B C s s' = Quiet B C s' × (length s'.objects ≡ length s.objects)

module _ (buffer : List ℕ) where
  pub close-Quiet : (B C : ℕ → Type 0) (s : Session) → Quiet B C s → Kept B C s (close buffer s)
  close-Quiet B C s (h, inl (o, f)) =
      let ((h', closed, same, n), c) = close-Rest buffer B C s h f in
      ((weaken-Rest B (OrIn C (snapshot buffer s)) C (close buffer s) (λ q d. inl d) h', inr c), n)
  close-Quiet B C s (h, inr (c, d)) =
      subst (Kept B C s) (sym (close-done buffer s d)) ((h, inr (c, d)), refl)

  queued-Quiet :
      (B C : ℕ → Type 0) (s : Session) (o : Option Queue)
      → Quiet B C s
      → Kept B C s (queued buffer (close buffer) s o)
  queued-Quiet B C s none h = close-Quiet B C s h
  queued-Quiet B C s (some q) (h, p) = (
    (
      record {
        unblocked = h.unblocked;
        fine = h.fine;
        shut = h.shut;
        keyed = h.keyed;
        arrived = h.arrived;
      },
      p,
    ),
    refl,
  )

  packager-Quiet :
      (B C : ℕ → Type 0) (s : Session) (o : Option Packager)
      → Quiet B C s
      → Kept B C s (set_packager buffer (close buffer) s o)
  packager-Quiet B C s none h = close-Quiet B C s h
  packager-Quiet B C s (some p) h = queued-Quiet B C s (Priority.push p s.write_queue) h

  pub send_info-Quiet :
      (B C : ℕ → Type 0) (flag id : ℕ) (info : Info) (s : Session)
      → Quiet B C s
      → Kept B C s (send_info buffer (close buffer) flag id info s)
  unfolding send_info
  send_info-Quiet B C flag id info s h = go s.is_close
    where
      go :
          (b : Bool)
          → Kept B C s (
              if b
              then s
              else set_packager buffer (close buffer) s (Frame.set blank buffer flag id info))
      go true = (h, refl)
      go false = packager-Quiet B C s (Frame.set blank buffer flag id info) h

  -- `Close` of a connection at rest: it is closed afterwards, also where its last frame overflows the
  -- write queue and closes the mux.
  pub close_conn-Quiet :
      (B C : ℕ → Type 0) (r : ℕ) (s : Session)
      → Quiet B C s
      → B r
      → r < length s.objects
      → Kept B (Or C r) s (close_conn buffer (close buffer) r s)
  close_conn-Quiet B C r s (h, inr (c, d)) b l =
      let (h', c', same, n, once) = late_close-Rest buffer (close buffer) B C r s c h b l in
      ((h', inr (c', once ∙ d)), n)
  close_conn-Quiet B C r s (h, inl (o, f)) b l = go (h.fine r b)
    where
      entered_length : length (entered r s).objects ≡ length s.objects
      entered_length = length-set s.objects r (enter (at s r))

      sent : Session
      sent = send_info buffer (close buffer) mux_conn_close ((at s r).conn_id) nil (entered r s)

      left :
          (t : Session)
          → Kept (But B r) (Or C r) (entered r s) t
          → Kept B (Or C r) s (update r leave t)
      left t ((k, phase), n) = (
        (left-Rest B (Or C r) r t k (inr refl) (omega (arith, l, n, entered_length)), phase),
        length-set t.objects r (leave (at t r)) ∙ n ∙ entered_length,
      )

      shut : (at s r).is_close ≡ true → (q : ℕ) → Or C r q → (at s q).is_close ≡ true
      shut e q (inl c) = h.shut q c
      shut e q (inr same) = ap (λ q. (at s q).is_close) same ∙ e

      go : Fine (at s r) → Kept B (Or C r) s (close_conn buffer (close buffer) r s)
      go (inl (e, u)) =
          let eq : close_conn buffer (close buffer) r s ≡ update r leave sent =
            fresh-call buffer (close buffer) r s e
            ∙ close_process_lem buffer (close buffer) r s
            ∙ rw o refl in
          subst (Kept B (Or C r) s) (sym eq) (
            left sent (
              send_info-Quiet (But B r) (Or C r) mux_conn_close ((at s r).conn_id) nil (entered r s)
                (entered-Rest B C r s h l, inl (o, f))))
      go (inr (e, (u, p, q, t))) =
          subst (Kept B (Or C r) s) (sym (done-call buffer (close buffer) r s e)) (
            (
              record {
                unblocked = h.unblocked;
                fine = h.fine;
                shut = shut u;
                keyed = h.keyed;
                arrived = h.arrived;
              },
              inl (o, f),
            ),
            refl,
          )

pub Fine-Ended : (c : Conn) → Fine c → c.is_close ≡ true → Ended c
Fine-Ended c (inl (f, o)) e = absurd cc
Fine-Ended c (inr (d, h)) e = h

-- `Mux.Close` of an open mux outside every handler: afterwards it is closed, every connection of its
-- map is closed with its windows, no frame has been put in the write queue, and nothing waits for
-- itself.
pub close-Closes :
    (buffer : List ℕ) (s : Session)
    → Rest (λ r. Unit) (λ r. ⊥) s
    → Open s
    → Closed (close buffer s)
      × ((r : ℕ) → In r (snapshot buffer s) → Ended (at (close buffer s) r))
      × ((close buffer s).write_queue ≡ s.write_queue)
      × ((close buffer s).blocked ≡ false)
close-Closes buffer s h (o, f) =
    let ((h', closed, same, n), c) = close-Rest buffer (λ r. Unit) (λ r. ⊥) s h f in
    (
      c,
      (λ r i. Fine-Ended (at (close buffer s) r) (h'.fine r tt) (h'.shut r (inr i))),
      same,
      h'.unblocked,
    )
