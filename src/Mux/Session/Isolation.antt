-- ===== src/Mux/Session/Isolation.antt =====
-- What a frame that comes in changes.
use nat_punch.Base.{
  ℕ, ◌<◌, ◌≡◌, ◌≢◌, refl, sym, ap, ◌∙◌, subst, Bool, true, false, ◌||◌, List, Option, none, some,
  length, ◌==◌, if◌then◌else◌, ◌⊎◌, inl, inr,
}
use nat_punch.Base.Maps.{lookup-Each}
use nat_punch.Mux.ConnMap.{get}
use nat_punch.Mux.Frame.{
  Info, nil, bytes, size, Packager, mux_msg_send_ok, mux_new_msg, mux_new_msg_part, mux_new_conn_ok,
  mux_new_conn_fail, mux_conn_close, mux_new_conn, mux_ping_flag, mux_ping_return, mux_ping,
}
use nat_punch.Mux.ReceiveWindow
use nat_punch.Mux.ReceiveWindow.{ReceiveWindow}
use nat_punch.Mux.SendWindow
use nat_punch.Mux.SendWindow.{SendWindow}
use nat_punch.Mux.Conn.{Conn, new_conn, stop}
use nat_punch.Mux.Session.{
  Session, at, update, send_info, close_conn, close, stored, new_msg, slid, deliver, deliver_to,
  read_frame,
}
use nat_punch.Mux.Session.Rest.{Fine, Closed, Quiet}
use nat_punch.Mux.Session.Closing.{Or}
use nat_punch.Mux.Frame
use nat_punch.Mux.Frame.{blank}
use nat_punch.Mux.Priority
use nat_punch.Mux.Priority.{Queue}
use nat_punch.Mux.Session.{queued, set_packager}
use nat_punch.Mux.Session.Rest.{at-update_other}
use nat_punch.Mux.Session.Closing.{
  But, enter, leave, entered, entered-Rest, fresh-call, done-call, close_process_lem,
}
use nat_punch.Mux.Session.Sweep.{close-done, close-Rest}
use nat_punch.Mux.Session.Reach.{Everyone, Sound, works-Sound, get_or-grown}

-- The write queue has no room for a frame more.
abbrev pub Refuses : Session → Type 0
Refuses s = (x : Packager) × (Priority.push x s.write_queue ≡ none)

-- The connection `q` is as it was, unless the write queue had no room for the answer, which has
-- closed the mux.
abbrev pub Apart : ℕ → Session → Session → Type 0
Apart q s s' = (at s' q ≡ at s q) ⊎ (Closed s' × Refuses s)

module _ (buffer : List ℕ) (q : ℕ) where
  abbrev cl : Session → Session
  cl = close buffer

  close-Apart : (B C : ℕ → Type 0) (s : Session) → Quiet B C s → Refuses s → Apart q s (cl s)
  close-Apart B C s (h, inl (o, f)) refused = inr ((close-Rest buffer B C s h f).1, refused)
  close-Apart B C s (h, inr (c, d)) refused = inl (ap (λ t. at t q) (close-done buffer s d))

  queued-Apart :
      (B C : ℕ → Type 0) (s : Session) (o : Option Queue)
      → Quiet B C s
      → (o ≡ none → Refuses s)
      → Apart q s (queued buffer cl s o)
  queued-Apart B C s none h refused = close-Apart B C s h (refused refl)
  queued-Apart B C s (some x) h refused = inl refl

  packager-Apart :
      (B C : ℕ → Type 0) (s : Session) (o : Option Packager)
      → Quiet B C s
      → o ≢ none
      → Apart q s (set_packager buffer cl s o)
  packager-Apart B C s none h packs = absurd (packs refl)
  packager-Apart B C s (some p) h packs =
      queued-Apart B C s (Priority.push p s.write_queue) h (λ e. (p, e))

  -- The frames that are sent in answer can be packed.
  close-packs : (id : ℕ) → Frame.set blank buffer mux_conn_close id nil ≢ none
  unfolding Frame.set Frame.set_bytes Frame.has_content
  close-packs id e = absurd cc

  size-packs : (id n : ℕ) → Frame.set blank buffer mux_msg_send_ok id (size n) ≢ none
  unfolding Frame.set Frame.set_window Frame.has_content
  size-packs id n e = absurd cc

  ping-packs : (id : ℕ) (c : List ℕ) → Frame.set blank buffer mux_ping_return id (bytes c) ≢ none
  unfolding Frame.set Frame.set_bytes Frame.has_content
  ping-packs id c e = absurd cc

  send_info-Apart :
      (B C : ℕ → Type 0) (flag id : ℕ) (info : Info) (s : Session)
      → Quiet B C s
      → Frame.set blank buffer flag id info ≢ none
      → Apart q s (send_info buffer cl flag id info s)
  unfolding send_info
  send_info-Apart B C flag id info s h packs = go s.is_close
    where
      go :
          (b : Bool)
          → Apart q s
              (if b then s else set_packager buffer cl s (Frame.set blank buffer flag id info))
      go true = inl refl
      go false = packager-Apart B C s (Frame.set blank buffer flag id info) h packs

  moved :
      (s t u : Session)
      → at t q ≡ at s q
      → t.write_queue ≡ s.write_queue
      → Apart q t u
      → Apart q s u
  moved s t u e same (inl f) = inl (f ∙ e)
  moved s t u e same (inr (c, (x, refused))) =
      inr (c, (x, ap (Priority.push x) (sym same) ∙ refused))

  update-Apart :
      (s t : Session) (r : ℕ) (f : Conn → Conn) → q ≢ r → Apart q s t → Apart q s (update r f t)
  update-Apart s t r f n (inl e) = inl (at-update_other r f t q n ∙ e)
  update-Apart s t r f n (inr c) = inr c

  if-Apart :
      (b : Bool) (s t u : Session) → Apart q s t → Apart q s u → Apart q s (if b then t else u)
  if-Apart true s t u h k = h
  if-Apart false s t u h k = k

  module _ (C : ℕ → Type 0) where
    close_conn-Apart :
        (r : ℕ) (s : Session)
        → q ≢ r
        → Sound C s
        → r < length s.objects
        → Apart q s (close_conn buffer cl r s)
    close_conn-Apart r s n (h, p) l = go (h.fine r tt)
      where
        sent : Session
        sent = send_info buffer cl mux_conn_close ((at s r).conn_id) nil (entered r s)

        away : Apart q s (if s.is_close then entered r s else sent)
        away = if-Apart s.is_close s (entered r s) sent (inl (at-update_other r enter s q n)) (
            moved s (entered r s) sent (at-update_other r enter s q n) refl (
              send_info-Apart (But Everyone r) (Or C r) mux_conn_close ((at s r).conn_id) nil
                (entered r s) (entered-Rest Everyone C r s h l, p)
                (close-packs ((at s r).conn_id))))

        go : Fine (at s r) → Apart q s (close_conn buffer cl r s)
        go (inl (e, o)) =
            subst (Apart q s) (sym (fresh-call buffer cl r s e ∙ close_process_lem buffer cl r s))
              (update-Apart s (if s.is_close then entered r s else sent) r leave n away)
        go (inr (e, x)) = inl (ap (λ t. at t q) (done-call buffer cl r s e))

    -- What a frame for the connection `r` does to `q`.
    module _ (r : ℕ) (n : q ≢ r) (s : Session) (h : Sound C s) (l : r < length s.objects)
        (o : (at s r).is_close ≡ false) where
      worked-Apart : (f : Conn → Conn) → Apart q s (update r f s)
      worked-Apart f = update-Apart s s r f n (inl refl)

      stored-Apart : (id : ℕ) (w : ReceiveWindow.Write) → Apart q s (stored buffer r id s w)
      stored-Apart id ReceiveWindow.closed = close_conn-Apart r s n h l
      stored-Apart id ReceiveWindow.not_match = close_conn-Apart r s n h l
      stored-Apart id (ReceiveWindow.written none wakes w) =
          worked-Apart (λ c. record c { receive_window = w })
      stored-Apart id (ReceiveWindow.written (some word) wakes w) =
          let t = update r (λ c. record c { receive_window = w }) s in
          moved s t (send_info buffer cl mux_msg_send_ok id (size word) t)
            (at-update_other r (λ c. record c { receive_window = w }) s q n) refl
            (send_info-Apart Everyone C mux_msg_send_ok id (size word) t
              (works-Sound C r (λ c. record c { receive_window = w }) s h o refl refl refl)
              (size-packs id word))

      slid-Apart : (a : SendWindow.Acked) → Apart q s (slid buffer r s a)
      slid-Apart SendWindow.closed = inl refl
      slid-Apart SendWindow.ignored = inl refl
      slid-Apart (SendWindow.applied wakes w) = worked-Apart (λ c. record c { send_window = w })

      deliver-Apart :
          (calculated : Option ℕ) (p : Packager) → Apart q s (deliver buffer calculated r p s)
      unfolding deliver new_msg
      deliver-Apart calculated p =
          if-Apart (p.flag == mux_new_msg || p.flag == mux_new_msg_part) s _ _
            (stored-Apart p.id (
              ReceiveWindow.write calculated p.content p.length (p.flag == mux_new_msg_part)
                (at s r).receive_window))
            (if-Apart (p.flag == mux_new_conn_ok) s _ _
              (worked-Apart (λ c. record c { conn_status_ok = true }))
              (if-Apart (p.flag == mux_new_conn_fail) s _ _
                (worked-Apart (λ c. record c { conn_status_fail = true }))
                (if-Apart (p.flag == mux_msg_send_ok) s _ _
                  (slid-Apart (SendWindow.set_size p.window (at s r).send_window))
                  (if-Apart (p.flag == mux_conn_close) s _ _
                    (worked-Apart (λ c. stop (record c { closing_flag = true }))) (inl refl)))))

    deliver_to-Apart :
        (calculated : Option ℕ) (p : Packager) (s : Session) (o : Option ℕ)
        → Sound C s
        → ((r : ℕ) → o ≡ some r → (q ≢ r) × (r < length s.objects))
        → Apart q s (deliver_to buffer calculated p s o)
    deliver_to-Apart calculated p s none h k = inl refl
    deliver_to-Apart calculated p s (some r) h k = go (at s r).is_close refl
      where
        go :
            (b : Bool)
            → (at s r).is_close ≡ b
            → Apart q s (if b then s else deliver buffer calculated r p s)
        go true e = inl refl
        go false e = let (n, l) = k r refl in deliver-Apart r n s h l e calculated p

    -- A frame that comes in changes no connection but the one that stands under its number, whatever
    -- its flag and content. The exception is an answer for which the write queue has no room: it may
    -- have closed the mux. The frame is read between two handlers.
    pub read_frame-Apart :
        (calculated : Option ℕ) (p : Packager) (s : Session)
        → Sound C s
        → q < length s.objects
        → get p.id s.conn_map ≢ some q
        → Apart q s (read_frame buffer calculated p s)
    unfolding read_frame
    read_frame-Apart calculated p s h exists other = if-Apart s.is_close s _ _ (inl refl) (
        if-Apart (p.flag == mux_new_conn) s _ _
          (inl (get_or-grown s.objects q (new_conn p.id) (new_conn 0) exists))
          (if-Apart (p.flag == mux_ping_flag) s _ _
            (send_info-Apart Everyone C mux_ping_return mux_ping (bytes p.content) s h
              (ping-packs mux_ping p.content))
            (if-Apart (p.flag == mux_ping_return) s _ _ (inl refl) (
              deliver_to-Apart calculated p s (get p.id s.conn_map) h (λ r e. (
                (λ same. other (e ∙ ap some (sym same))),
                (lookup-Each _ p.id s.conn_map (h.0.keyed) e).1,
              ))))))
