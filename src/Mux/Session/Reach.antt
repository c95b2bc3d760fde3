-- ===== src/Mux/Session/Reach.antt =====
-- A mux from its beginning on: the frames that come in, and what the application calls.
use nat_punch.Base.{
  ℕ, zero, suc, ◌+◌, ◌<◌, ◌≤◌, ◌≡◌, refl, ap, ◌∙◌, subst, arith, Bool, true, false, ◌||◌, List, [],
  ◌∷◌, ◌++◌, Option, none, some, length, length-append, get_or, All, ◌==◌, if◌then◌else◌, inl, inr,
  dec_lt,
}
use nat_punch.Base.Maps.{lookup-Each, store-Each}
use nat_punch.Mux.ConnMap.{get, get_id}
use nat_punch.Mux.Frame.{
  Info, nil, bytes, size, Packager, mux_msg_send_ok, mux_new_msg, mux_new_msg_part, mux_new_conn_ok,
  mux_new_conn_fail, mux_conn_close, mux_new_conn, mux_ping_flag, mux_ping_return, mux_ping,
}
use nat_punch.Mux.ReceiveWindow
use nat_punch.Mux.ReceiveWindow.{ReceiveWindow}
use nat_punch.Mux.SendWindow
use nat_punch.Mux.SendWindow.{SendWindow}
use nat_punch.Mux.Conn.{Conn, new_conn, stop}
use nat_punch.Mux.Session.{
  Session, at, update, send_info, close_conn, close, acknowledge, stored, new_msg, slid, deliver,
  deliver_to, arrive, read_frame, hand_over, accept_next, numbered, open_conn,
}
use nat_punch.Mux.Session.Rest.{Fine, Quiet, Each-map, All-map, update-Rest}
use nat_punch.Mux.Session.Closing.{Or}
use nat_punch.Mux.Session.Sweep.{weaken-Rest}
use nat_punch.Mux.Session.Quiet.{send_info-Quiet, close_conn-Quiet}

abbrev pub Everyone : ℕ → Type 0
Everyone r = Unit

get_or_of_length-le {ℓ} :
    {A : Type ℓ} (xs : List A) (i : ℕ) (d : A) → length xs ≤ i → get_or xs i d ≡ d
get_or_of_length-le [] i d h = refl
get_or_of_length-le (x ∷ xs) zero d h = absurd (omega (arith, h))
get_or_of_length-le (x ∷ xs) (suc i) d h = get_or_of_length-le xs i d (omega (arith, h))

pub get_or-grown {ℓ} :
    {A : Type ℓ} (xs : List A) (i : ℕ) (y d : A)
    → i < length xs
    → get_or (xs ++ y ∷ []) i d ≡ get_or xs i d
get_or-grown [] i y d h = absurd (omega (arith, h))
get_or-grown (x ∷ xs) zero y d h = refl
get_or-grown (x ∷ xs) (suc i) y d h = get_or-grown xs i y d (omega (arith, h))

get_or-last {ℓ} : {A : Type ℓ} (xs : List A) (y d : A) → get_or (xs ++ y ∷ []) (length xs) d ≡ y
get_or-last [] y d = refl
get_or-last (x ∷ xs) y d = get_or-last xs y d

get_or-either {ℓ} :
    {A : Type ℓ} (P : A → Type 0) (xs : List A) (i : ℕ) (y d : A)
    → P y
    → P (get_or xs i d)
    → P (get_or (xs ++ y ∷ []) i d)
get_or-either P [] zero y d p q = p
get_or-either P [] (suc i) y d p q = q
get_or-either P (x ∷ xs) zero y d p q = q
get_or-either P (x ∷ xs) (suc i) y d p q = get_or-either P xs i y d p q

abbrev grown : ℕ → Session → Session
grown id s = record s { objects = s.objects ++ new_conn id ∷ [] }

module _ (C : ℕ → Type 0) where
  -- Between two handlers, with the connections of `C` closed.
  abbrev pub Sound : Session → Type 0
  Sound s = Quiet Everyone C s

  -- A change of a connection that is not closed.
  pub works-Sound :
      (r : ℕ) (f : Conn → Conn) (s : Session)
      → Sound s
      → (at s r).is_close ≡ false
      → (f (at s r)).conn_id ≡ (at s r).conn_id
      → (f (at s r)).once ≡ (at s r).once
      → (f (at s r)).is_close ≡ (at s r).is_close
      → Sound (update r f s)
  works-Sound r f s (h, p) o number once same =
      (update-Rest Everyone C r f s h number (λ b. fine (h.fine r b)) (λ c. same ∙ h.shut r c), p)
    where
      fine : Fine (at s r) → Fine (f (at s r))
      fine (inl (e, u)) = inl (once ∙ e, same ∙ u)
      fine (inr (e, (u, x, y, z))) = absurd cc

  pub if-Sound :
      (b : Bool) (s t : Session)
      → (b ≡ true → Sound s)
      → (b ≡ false → Sound t)
      → Sound (if b then s else t)
  if-Sound true s t h k = h refl
  if-Sound false s t h k = k refl

  module _ (buffer : List ℕ) where
    pub sends-Sound :
        (flag id : ℕ) (info : Info) (s : Session)
        → Sound s
        → Sound (send_info buffer (close buffer) flag id info s)
    sends-Sound flag id info s h = (send_info-Quiet buffer Everyone C flag id info s h).0

    pub closes-Sound :
        (r : ℕ) (s : Session)
        → Sound s
        → r < length s.objects
        → Sound (close_conn buffer (close buffer) r s)
    closes-Sound r s h l =
        let ((k, p), n) = close_conn-Quiet buffer Everyone C r s h tt l in
        (weaken-Rest Everyone (Or C r) C (close_conn buffer (close buffer) r s) (λ q c. inl c) k, p)

    pub acknowledge-Sound :
        (id : ℕ) (ack : Option ℕ) (s : Session) → Sound s → Sound (acknowledge buffer id ack s)
    acknowledge-Sound id none s h = h
    acknowledge-Sound id (some word) s h = sends-Sound mux_msg_send_ok id (size word) s h

    stored-Sound :
        (r id : ℕ) (s : Session) (w : ReceiveWindow.Write)
        → Sound s
        → r < length s.objects
        → (at s r).is_close ≡ false
        → Sound (stored buffer r id s w)
    stored-Sound r id s ReceiveWindow.closed h l o = closes-Sound r s h l
    stored-Sound r id s ReceiveWindow.not_match h l o = closes-Sound r s h l
    stored-Sound r id s (ReceiveWindow.written ack wakes w) h l o =
        acknowledge-Sound id ack (update r (λ c. record c { receive_window = w }) s)
          (works-Sound r (λ c. record c { receive_window = w }) s h o refl refl refl)

    slid-Sound :
        (r : ℕ) (s : Session) (a : SendWindow.Acked)
        → Sound s
        → (at s r).is_close ≡ false
        → Sound (slid buffer r s a)
    slid-Sound r s SendWindow.closed h o = h
    slid-Sound r s SendWindow.ignored h o = h
    slid-Sound r s (SendWindow.applied wakes w) h o =
        works-Sound r (λ c. record c { send_window = w }) s h o refl refl refl

    deliver-Sound :
        (calculated : Option ℕ) (r : ℕ) (p : Packager) (s : Session)
        → Sound s
        → r < length s.objects
        → (at s r).is_close ≡ false
        → Sound (deliver buffer calculated r p s)
    unfolding deliver new_msg
    deliver-Sound calculated r p s h l o =
        if-Sound (p.flag == mux_new_msg || p.flag == mux_new_msg_part) _ _
          (λ e.
            stored-Sound r p.id s
              (ReceiveWindow.write calculated p.content p.length (p.flag == mux_new_msg_part)
                (at s r).receive_window)
              h l o)
          (λ e.
            if-Sound (p.flag == mux_new_conn_ok) _ _
              (λ e. works-Sound r (λ c. record c { conn_status_ok = true }) s h o refl refl refl)
              (λ e.
                if-Sound (p.flag == mux_new_conn_fail) _ _
                  (λ e.
                    works-Sound r (λ c. record c { conn_status_fail = true }) s h o refl refl refl)
                  (λ e.
                    if-Sound (p.flag == mux_msg_send_ok) _ _
                      (λ e. slid-Sound r s (SendWindow.set_size p.window (at s r).send_window) h o)
                      (λ e.
                        if-Sound (p.flag == mux_conn_close) _ _
                          (λ e.
                            works-Sound r (λ c. stop (record c { closing_flag = true })) s h o refl
                              refl refl)
                          (λ e. h)))))

    deliver_to-Sound :
        (calculated : Option ℕ) (p : Packager) (s : Session) (o : Option ℕ)
        → Sound s
        → ((r : ℕ) → o ≡ some r → r < length s.objects)
        → Sound (deliver_to buffer calculated p s o)
    deliver_to-Sound calculated p s none h l = h
    deliver_to-Sound calculated p s (some r) h l =
        if-Sound ((at s r).is_close) _ _ (λ e. h)
          (λ e. deliver-Sound calculated r p s h (l r refl) e)

    -- One connection more, which nothing points at yet.
    grown-Sound : (id : ℕ) (s : Session) → Sound s → Sound (grown id s)
    unfolding new_conn
    grown-Sound id s (h, p) = (
      record {
        unblocked = h.unblocked;
        fine = λ q b.
            get_or-either Fine s.objects q (new_conn id) (new_conn 0) (inl (refl, refl))
              (h.fine q b);
        shut = λ q c. shut q (h.shut q c);
        keyed =
            Each-map _ _ s.conn_map
              (λ i q (b, l, e). (
                b,
                longer q l,
                ap (λ (c : Conn). c.conn_id) (get_or-grown s.objects q (new_conn id) (new_conn 0) l)
                    ∙ e,
              ))
              h.keyed;
        arrived = All-map _ _ s.new_conn_queue (λ q l. longer q l) h.arrived;
      },
      p,
    )
      where
        longer : (q : ℕ) → q < length s.objects → q < length (grown id s).objects
        longer q l = omega (arith, l, length-append s.objects (new_conn id ∷ []))

        shut : (q : ℕ) → (at s q).is_close ≡ true → (at (grown id s) q).is_close ≡ true
        shut q e = elim (dec_lt q (length s.objects)) [
          | yes l ↦
              ap (λ (c : Conn). c.is_close) (get_or-grown s.objects q (new_conn id) (new_conn 0) l)
              ∙ e
          | no l ↦
              let open_yet : (at s q).is_close ≡ false =
                ap (λ (c : Conn). c.is_close)
                  (get_or_of_length-le s.objects q (new_conn 0) (omega (arith, l))) in
              absurd cc
        ]

    All-snoc : (P : ℕ → Type 0) (xs : List ℕ) (y : ℕ) → All P xs → P y → All P (xs ++ y ∷ [])
    All-snoc P [] y ps p = (p, tt)
    All-snoc P (x ∷ xs) y (q, ps) p = (q, All-snoc P xs y ps p)

    arrive-Sound : (p : Packager) (s : Session) → Sound s → Sound (arrive buffer p s)
    arrive-Sound p s h =
        let (k, phase) = grown-Sound p.id s h in
        (
          record {
            unblocked = k.unblocked;
            fine = k.fine;
            shut = k.shut;
            keyed = k.keyed;
            arrived =
                All-snoc _ s.new_conn_queue (length s.objects) k.arrived
                  (omega (arith, length-append s.objects (new_conn p.id ∷ [])));
          },
          phase,
        )

    pub read_frame-Sound :
        (calculated : Option ℕ) (p : Packager) (s : Session)
        → Sound s
        → Sound (read_frame buffer calculated p s)
    unfolding read_frame
    read_frame-Sound calculated p s h =
        if-Sound s.is_close _ _ (λ e. h)
          (λ e.
            if-Sound (p.flag == mux_new_conn) _ _ (λ e. arrive-Sound p s h)
              (λ e.
                if-Sound (p.flag == mux_ping_flag) _ _
                  (λ e. sends-Sound mux_ping_return mux_ping (bytes p.content) s h)
                  (λ e.
                    if-Sound (p.flag == mux_ping_return) _ _ (λ e. noted h)
                      (λ e.
                        deliver_to-Sound calculated p s (get p.id s.conn_map) h
                          (λ r e. (lookup-Each _ p.id s.conn_map (h.0.keyed) e).1)))))
      where
        noted : Sound s → Sound (record s { pings = s.pings ++ p.content ∷ [] })
        noted (h, p) = (
          record {
            unblocked = h.unblocked;
            fine = h.fine;
            shut = h.shut;
            keyed = h.keyed;
            arrived = h.arrived;
          },
          p,
        )

    hand_over-Sound :
        (rs : List ℕ) (s : Session)
        → s.new_conn_queue ≡ rs
        → Sound s
        → Sound (hand_over buffer rs s)
    hand_over-Sound [] s e h = h
    hand_over-Sound (r ∷ rs) s e (h, p) =
        let (l, ls) = subst (All (λ r. r < length s.objects)) e h.arrived in
        sends-Sound mux_new_conn_ok ((at s r).conn_id) nil _ (
          record {
            unblocked = h.unblocked;
            fine = h.fine;
            shut = h.shut;
            keyed = store-Each _ ((at s r).conn_id) r s.conn_map (tt, l, refl) h.keyed;
            arrived = ls;
          },
          p,
        )

    pub accept_next-Sound : (s : Session) → Sound s → Sound (accept_next buffer s)
    unfolding accept_next
    accept_next-Sound s h =
        if-Sound s.is_close _ _ (λ e. h) (λ e. hand_over-Sound s.new_conn_queue s refl h)

    abbrev pub Opened : Option (ℕ × Session) → Type 0
    Opened none = Unit
    Opened (some (r, s)) = Sound s

    numbered-Sound : (s : Session) (o : Option ℕ) → Sound s → Opened (numbered buffer s o)
    unfolding new_conn
    numbered-Sound s none h = tt
    numbered-Sound s (some id) h =
        let (k, p) = grown-Sound id s h in
        sends-Sound mux_new_conn id nil _ (
          record {
            unblocked = k.unblocked;
            fine = k.fine;
            shut = k.shut;
            keyed =
                store-Each _ id (length s.objects) s.conn_map
                  (
                    tt,
                    omega (arith, length-append s.objects (new_conn id ∷ [])),
                    ap (λ (c : Conn). c.conn_id) (get_or-last s.objects (new_conn id) (new_conn 0)),
                  )
                  k.keyed;
            arrived = k.arrived;
          },
          p,
        )

    pub open_conn-Sound : (s : Session) → Sound s → Opened (open_conn buffer s)
    unfolding open_conn
    open_conn-Sound s h = go s.is_close
      where
        go :
            (b : Bool)
            → Opened (
                if b
                then none
                else numbered buffer s (get_id (length s.conn_map + 1) s.id s.conn_map))
        go true = tt
        go false = numbered-Sound s (get_id (length s.conn_map + 1) s.id s.conn_map) h
