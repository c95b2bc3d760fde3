-- ===== src/Mux/Session/Sweep.antt =====
-- `Mux.Close`: which connections it closes.
use nat_punch.Base.{
  ℕ, ◌<◌, ◌≡◌, refl, sym, ◌∙◌, subst, arith, true, List, [], ◌∷◌, length, map, All, ◌⊎◌, inl, inr,
}
use nat_punch.Base.Maps.{Map, Each}
use nat_punch.Mux.Conn.{fresh, running, done}
use nat_punch.Mux.Session.{
  Session, at, close_conn, close_all, snapshot, close_body, close_within, close,
}
use nat_punch.Mux.Session.Rest.{Rest, Closed, All-map}
use nat_punch.Mux.Session.Closing.{Or, late_close-Rest}

-- The places in a list.
abbrev pub In : ℕ → List ℕ → Type 0
In q [] = ⊥
In q (r ∷ rs) = (q ≡ r) ⊎ In q rs

abbrev pub OrIn : (C : ℕ → Type 0) → List ℕ → ℕ → Type 0
OrIn C rs q = C q ⊎ In q rs

pub weaken-Rest :
    (B C D : ℕ → Type 0) (s : Session) → ((q : ℕ) → D q → C q) → Rest B C s → Rest B D s
weaken-Rest B C D s f h = record {
  unblocked = h.unblocked;
  fine = h.fine;
  shut = λ q d. h.shut q (f q d);
  keyed = h.keyed;
  arrived = h.arrived;
}

module _ (buffer : List ℕ) (cl : Session → Session) where
  abbrev Swept : (B C : ℕ → Type 0) → List ℕ → Session → Session → Type 0
  Swept B C rs s s' =
      Rest B (OrIn C rs) s'
      × (s'.is_close ≡ true)
      × (s'.write_queue ≡ s.write_queue)
      × (length s'.objects ≡ length s.objects)

  close_all-Rest :
      (rs : List ℕ) (B C : ℕ → Type 0) (s : Session)
      → s.is_close ≡ true
      → Rest B C s
      → All (λ r. B r × (r < length s.objects)) rs
      → Swept B C rs s (close_all buffer cl rs s)
  unfolding close_all
  close_all-Rest [] B C s closed h p =
      (weaken-Rest B C (OrIn C []) s (λ q d. drop_none q d) h, closed, refl, refl)
    where
      drop_none : (q : ℕ) → OrIn C [] q → C q
      drop_none q (inl c) = c
      drop_none q (inr e) = absurd e
  close_all-Rest (r ∷ rs) B C s closed h ((b, l), p) =
      let s1 = close_conn buffer cl r s in
      let (h1, closed1, same1, n1, _) = late_close-Rest buffer cl B C r s closed h b l in
      let p1 =
        All-map _ (λ r. B r × (r < length s1.objects)) rs (λ q (b, l). (b, omega (arith, l, n1)))
          p in
      let (h2, closed2, same2, n2) = close_all-Rest rs B (Or C r) s1 closed1 h1 p1 in
      (
        weaken-Rest B (OrIn (Or C r) rs) (OrIn C (r ∷ rs)) (close_all buffer cl rs s1) regroup h2,
        closed2,
        same2 ∙ same1,
        n2 ∙ n1,
      )
    where
      regroup : (q : ℕ) → OrIn C (r ∷ rs) q → OrIn (Or C r) rs q
      regroup q (inl c) = inl (inl c)
      regroup q (inr (inl e)) = inl (inr e)
      regroup q (inr (inr i)) = inr i

  close_body-Rest :
      (B C : ℕ → Type 0) (s : Session)
      → Rest B C s
      → Swept B C (snapshot buffer s) s (close_body buffer cl s) × Closed (close_body buffer cl s)
  unfolding close_body
  close_body-Rest B C s h =
      let s1 = record s { is_close = true; close_once = running } in
      let h1 : Rest B C s1 = record {
        unblocked = h.unblocked;
        fine = h.fine;
        shut = h.shut;
        keyed = h.keyed;
        arrived = h.arrived;
      } in
      let (h2, closed, same, n) =
        close_all-Rest (snapshot buffer s) B C s1 refl h1 (places s.conn_map h.keyed) in
      (
        (
          record {
            unblocked = h2.unblocked;
            fine = h2.fine;
            shut = h2.shut;
            keyed = h2.keyed;
            arrived = h2.arrived;
          },
          closed,
          same,
          n,
        ),
        (closed, refl),
      )
    where
      places :
          (m : Map ℕ)
          → Each (λ i r. B r × (r < length s.objects) × ((at s r).conn_id ≡ i)) m
          → All (λ r. B r × (r < length s.objects)) (map (λ (e : ℕ × ℕ). e.1) m)
      places [] ps = tt
      places ((i, r) ∷ m) ((b, l, e), ps) = ((b, l), places m ps)

module _ (buffer : List ℕ) where
  pub close-fresh :
      (s : Session)
      → s.close_once ≡ fresh
      → close buffer s ≡ close_body buffer (close_within buffer 0) s
  unfolding close close_within
  close-fresh s e = rw e refl

  pub close-done : (s : Session) → s.close_once ≡ done → close buffer s ≡ s
  unfolding close close_within
  close-done s e = rw e refl

  -- `Mux.Close` of an open mux.
  pub close-Rest :
      (B C : ℕ → Type 0) (s : Session)
      → Rest B C s
      → s.close_once ≡ fresh
      → Swept buffer (close_within buffer 0) B C (snapshot buffer s) s (close buffer s)
        × Closed (close buffer s)
  close-Rest B C s h e =
      subst (λ t. Swept buffer (close_within buffer 0) B C (snapshot buffer s) s t × Closed t)
        (sym (close-fresh s e)) (close_body-Rest buffer (close_within buffer 0) B C s h)
