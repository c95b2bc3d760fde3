-- ===== src/Mux/Session/Runs.antt =====
-- A mux from its beginning on, whatever happens to it.
use nat_punch.Base.{
  Bool-cases, ℕ, ◌≡◌, refl, ap, ◌∙◌, arith, Bool, true, false, ◌||◌, List, [], ◌∷◌, Option, none,
  some, length, All, ◌==◌, if◌then◌else◌, ◌⊎◌, inl, inr, ltb,
}
use nat_punch.Mux.Frame.{bytes, mux_new_msg, mux_new_msg_part}
use nat_punch.Mux.ReceiveWindow
use nat_punch.Mux.ReceiveWindow.{ReceiveWindow}
use nat_punch.Mux.SendWindow
use nat_punch.Mux.SendWindow.{SendWindow}
use nat_punch.Mux.Conn.{new_conn}
use nat_punch.Base.Int.{ℤ}
use nat_punch.Mux.Priority
use nat_punch.Mux.Frame.{mux_ping_flag, mux_ping}
use nat_punch.Mux.Session.{send_info, close, snapshot, Session, new, at, update, open_conn}
use nat_punch.Mux.Session.Rest.{Ended, Fine, Open, Closed}
use nat_punch.Mux.Session.Reach.{
  Everyone, Sound, works-Sound, if-Sound, sends-Sound, closes-Sound, acknowledge-Sound,
  read_frame-Sound, accept_next-Sound, Opened, open_conn-Sound,
}
use nat_punch.Mux.Session.Sweep.{In, OrIn, close-Rest}
use nat_punch.Mux.Session.Quiet.{close-Quiet, Fine-Ended}
use nat_punch.Mux.SendWindow.{set_send_buf, write_to}
use nat_punch.Mux.ReceiveWindow.{read_pass}
use nat_punch.Mux.Session.Traffic.{
  begin_write, sent_on, write_round, read_on, read_round, Act, frame, accepting, opening,
  closing_mux, closing, writing, beginning, reading, sending, packing, ping_ticking, ping_hearing,
  packed, pack_next, late, ping_tick, heard, hear_ping, opened, act, run,
}

module _ (C : ℕ → Type 0) (buffer : List ℕ) where
  sent_on-Sound :
      (r : ℕ) (s : Session) (w : SendWindow.Write)
      → Sound C s
      → (at s r).is_close ≡ false
      → Sound C (sent_on buffer r s w)
  sent_on-Sound r s SendWindow.closed h o = h
  sent_on-Sound r s SendWindow.eof h o = h
  sent_on-Sound r s SendWindow.stuck h o = h
  sent_on-Sound r s (SendWindow.blocked w) h o =
      works-Sound C r (λ c. record c { send_window = w }) s h o refl refl refl
  sent_on-Sound r s (SendWindow.segment p part w) h o =
      sends-Sound C buffer (if part then mux_new_msg_part else mux_new_msg) ((at s r).conn_id)
        (bytes p) (update r (λ c. record c { send_window = w }) s)
        (works-Sound C r (λ c. record c { send_window = w }) s h o refl refl refl)

  -- A closed window sends nothing.
  write_to-closed : (w : SendWindow) → w.close_op ≡ true → write_to w ≡ SendWindow.closed
  unfolding write_to
  write_to-closed w e = rw e refl

  write_round-Sound : (r : ℕ) (s : Session) → Sound C s → Sound C (write_round buffer r s)
  unfolding write_round
  write_round-Sound r s h = go (h.0.fine r tt)
    where
      go : Fine (at s r) → Sound C (sent_on buffer r s (write_to (at s r).send_window))
      go (inl (e, o)) = sent_on-Sound r s (write_to (at s r).send_window) h o
      go (inr (e, (o, p, q, t))) = rw (write_to-closed (at s r).send_window q) h

  begin_write-Sound :
      (r : ℕ) (buf : List ℕ) (s : Session) → Sound C s → Sound C (begin_write buffer r buf s)
  unfolding begin_write
  begin_write-Sound r buf s h =
      if-Sound C (length buf == 0 || (at s r).is_close || (at s r).closing_flag) _ _ (λ e. h)
        (λ e.
          works-Sound C r (λ c. record c { send_window = set_send_buf buf c.send_window }) s h
            (open_still (length buf == 0) (at s r).is_close (at s r).closing_flag e) refl refl refl)
    where
      open_still : (a b c : Bool) → (a || b || c) ≡ false → b ≡ false
      open_still a b c e = ground (arith, e)

  read_on-Sound :
      (r : ℕ) (s : Session) (p : ReceiveWindow.Pass)
      → Sound C s
      → (at s r).is_close ≡ false
      → Sound C (read_on buffer r s p)
  read_on-Sound r s ReceiveWindow.eof h o = h
  read_on-Sound r s (ReceiveWindow.waits w) h o =
      works-Sound C r (λ c. record c { receive_window = w }) s h o refl refl refl
  read_on-Sound r s ReceiveWindow.retries h o = h
  read_on-Sound r s (ReceiveWindow.copied chunk ack again w) h o =
      acknowledge-Sound C buffer ((at s r).conn_id) ack
        (update r (λ c. record c { receive_window = w }) s)
        (works-Sound C r (λ c. record c { receive_window = w }) s h o refl refl refl)

  read_round-Sound : (room r : ℕ) (s : Session) → Sound C s → Sound C (read_round buffer room r s)
  unfolding read_round
  read_round-Sound room r s h =
      if-Sound C ((at s r).is_close || room == 0) _ _ (λ e. h)
        (λ e.
          read_on-Sound r s (read_pass room (at s r).receive_window) h
            (open_still (at s r).is_close e))
    where
      open_still : (b : Bool) → (b || room == 0) ≡ false → b ≡ false
      open_still b e = ground (arith, e)

  -- The same mux with another queue, other bytes written or other pings.
  packed-Sound :
      (ok : Bool) (s : Session) (p : Priority.Popped) → Sound C s → Sound C (packed buffer ok s p)
  packed-Sound ok s Priority.waits h = h
  packed-Sound ok s (Priority.done none q) (h, p) = (
    record {
      unblocked = h.unblocked;
      fine = h.fine;
      shut = h.shut;
      keyed = h.keyed;
      arrived = h.arrived;
    },
    p,
  )
  packed-Sound true s (Priority.done (some x) q) (h, p) = (
    record {
      unblocked = h.unblocked;
      fine = h.fine;
      shut = h.shut;
      keyed = h.keyed;
      arrived = h.arrived;
    },
    p,
  )
  packed-Sound false s (Priority.done (some x) q) (h, p) =
      (close-Quiet buffer Everyone C (record s { write_queue = q })
        (
          record {
            unblocked = h.unblocked;
            fine = h.fine;
            shut = h.shut;
            keyed = h.keyed;
            arrived = h.arrived;
          },
          p,
        )).0

  pack_next-Sound : (ok : Bool) (s : Session) → Sound C s → Sound C (pack_next buffer ok s)
  unfolding pack_next
  pack_next-Sound ok s h =
      if-Sound C s.is_close _ _ (λ e. h) (λ e. packed-Sound ok s (Priority.try_pop s.write_queue) h)

  late-Sound : (s : Session) → Sound C s → Sound C (late buffer s)
  late-Sound s (h, p) = (
    record {
      unblocked = h.unblocked;
      fine = h.fine;
      shut = h.shut;
      keyed = h.keyed;
      arrived = h.arrived;
    },
    p,
  )

  ping_tick-Sound : (now : List ℕ) (s : Session) → Sound C s → Sound C (ping_tick buffer now s)
  unfolding ping_tick
  ping_tick-Sound now s h =
      if-Sound C s.is_close _ _ (λ e. h)
        (λ e.
          if-Sound C (ltb s.ping_check_threshold s.ping_check_time) _ _
            (λ e. (close-Quiet buffer Everyone C s h).0)
            (λ e.
              late-Sound (send_info buffer (close buffer) mux_ping_flag mux_ping (bytes now) s)
                (sends-Sound C buffer mux_ping_flag mux_ping (bytes now) s h)))

  heard-Sound : (pings : List (List ℕ)) (s : Session) → Sound C s → Sound C (heard buffer pings s)
  heard-Sound [] s h = h
  heard-Sound (content ∷ pings) s (h, p) = (
    record {
      unblocked = h.unblocked;
      fine = h.fine;
      shut = h.shut;
      keyed = h.keyed;
      arrived = h.arrived;
    },
    p,
  )

  act-Sound : (a : Act) (s : Session) → Sound C s → Sound C (act buffer a s)
  unfolding act hear_ping
  act-Sound (frame calculated p) s h = read_frame-Sound C buffer calculated p s h
  act-Sound accepting s h = accept_next-Sound C buffer s h
  act-Sound opening s h = go (open_conn buffer s) (open_conn-Sound C buffer s h)
    where
      go : (o : Option (ℕ × Session)) → Opened C buffer o → Sound C (opened buffer s o)
      go none k = h
      go (some (r, s')) k = k
  act-Sound closing_mux s h = (close-Quiet buffer Everyone C s h).0
  act-Sound (closing r) s h =
      if-Sound C (ltb r (length s.objects)) _ _
        (λ e. closes-Sound C buffer r s h (ground (arith, e))) (λ e. h)
  act-Sound (writing r) s h = write_round-Sound r s h
  act-Sound (beginning r buf) s h = begin_write-Sound r buf s h
  act-Sound (reading room r) s h = read_round-Sound room r s h
  act-Sound (sending flag id info) s h = sends-Sound C buffer flag id info s h
  act-Sound (packing ok) s h = pack_next-Sound ok s h
  act-Sound (ping_ticking now) s h = ping_tick-Sound now s h
  act-Sound ping_hearing s h = if-Sound C s.is_close _ _ (λ e. h) (λ e. heard-Sound s.pings s h)

  pub run-Sound : (acts : List Act) (s : Session) → Sound C s → Sound C (run buffer acts s)
  unfolding run
  run-Sound [] s h = h
  run-Sound (a ∷ acts) s h = run-Sound acts (act buffer a s) (act-Sound a s h)

pub new-Sound : (kcp : Bool) (threshold : ℤ) → Sound (λ r. ⊥) (new kcp threshold)
unfolding new new_conn
new-Sound kcp threshold = (
  record {
    unblocked = refl;
    fine = λ r b. inl (refl, refl);
    shut = λ r c. absurd c;
    keyed = tt;
    arrived = tt;
  },
  inl (refl, refl),
)

All-In : (P : ℕ → Type 0) (rs : List ℕ) → ((q : ℕ) → In q rs → P q) → All P rs
All-In P [] f = tt
All-In P (r ∷ rs) f = (f r (inl refl), All-In P rs (λ q i. f q (inr i)))

-- A mux that is open and is closed: whatever happens then, the connections of its map are ended.
close-run :
    (buffer : List ℕ) (after : List Act) (s : Session)
    → Sound (λ r. ⊥) s
    → Open s ⊎ Closed s
    → Closed s ⊎ All (λ q. Ended (at (run buffer after (close buffer s)) q)) (snapshot buffer s)
close-run buffer after s (h, p) (inr c) = inl c
close-run buffer after s (h, p) (inl (o, f)) =
    let ((h', closed, same, n), c) = close-Rest buffer Everyone (λ r. ⊥) s h f in
    let t = run buffer after (close buffer s) in
    let (k, phase) =
      run-Sound (OrIn (λ r. ⊥) (snapshot buffer s)) buffer after (close buffer s) (h', inr c) in
    inr (
      All-In (λ q. Ended (at t q)) (snapshot buffer s)
        (λ q i. Fine-Ended (at t q) (k.fine q tt) (k.shut q (inr i))))

-- Whatever happens to a new mux, and then goes on to happen: no `Close` waits for itself; the mux is
-- either open, or marked as closed with its `closeOnce` through; each connection either was open in
-- between or is closed in the end, with its windows closed and its reader released; and if the mux
-- was open in between, and is closed there, every connection that was in its map is closed in the
-- end, with its windows closed and its reader released.
pub run-Ended :
    (kcp : Bool) (threshold : ℤ) (buffer : List ℕ) (before after : List Act) (r : ℕ)
    → let middle = run buffer before (new kcp threshold) in
      let s = run buffer after middle in
      (s.blocked ≡ false)
      × (Open s ⊎ Closed s)
      × (((at middle r).is_close ≡ false) ⊎ Ended (at s r))
      × (Closed middle
          ⊎ All
              (λ q. Ended (at (run buffer after (close buffer middle)) q))
              (snapshot buffer middle))
run-Ended kcp threshold buffer before after r =
    let middle = run buffer before (new kcp threshold) in
    let (h, p) = run-Sound (λ r. ⊥) buffer before (new kcp threshold) (new-Sound kcp threshold) in
    let (k, phase) = run-Sound (λ r. ⊥) buffer after middle (h, p) in
    (
      k.unblocked,
      phase,
      stays middle (h, p) (Bool-cases (at middle r).is_close),
      close-run buffer after middle (h, p) p,
    )
  where
    stays :
        (middle : Session)
        → Sound (λ r. ⊥) middle
        → ((at middle r).is_close ≡ true) ⊎ ((at middle r).is_close ≡ false)
        → ((at middle r).is_close ≡ false) ⊎ Ended (at (run buffer after middle) r)
    stays middle (h, p) (inr o) = inl o
    stays middle (h, p) (inl e) =
        let known : Sound (λ q. q ≡ r) middle = (
          record {
            unblocked = h.unblocked;
            fine = h.fine;
            shut = λ q same. ap (λ q. (at middle q).is_close) same ∙ e;
            keyed = h.keyed;
            arrived = h.arrived;
          },
          p,
        ) in
        let (k, phase) = run-Sound (λ q. q ≡ r) buffer after middle known in
        inr (Fine-Ended (at (run buffer after middle) r) (k.fine r tt) (k.shut r refl))
