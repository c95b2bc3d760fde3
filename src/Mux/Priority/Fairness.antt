-- ===== src/Mux/Priority/Fairness.antt =====
-- Neither the new connections nor the data of the write queue starve: how often one is served while
-- the other waits.
use nat_punch.Base.{
  ℕ, zero, suc, ◌*◌, ◌-◌, ◌^◌, ◌<◌, ◌≤◌, ◌≡◌, ◌≢◌, refl, ap, sym, ◌∙◌, subst, arith, Option, some,
  List, [], ◌∷◌,
}
use nat_punch.Mux.Frame.{Packager}
use nat_punch.Mux.Priority.{Queue, max_starving, Lane, high, mid, low, lane_of, push, done, try_pop}
use nat_punch.Mux.Priority.Lanes.{
  Lanes, QueueHolds, Serves, choose, chosen, next_starving, unqueue, try_pop-Serves,
}
use nat_punch.Mux.Priority.Push.{enqueue, push-Pushed}
use native.Mathlib.Nat.{pow-suc}

-- A stretch of calls in which `n` frames of the lane `l` are handed out, each at a time when frames
-- of the lane `other` wait. Pushes and pops of pings may come in between in any number.
pub data Stretch (l : Lane) (other : Lanes → List Packager) : ℕ → Queue → Lanes → Type 0 where
  stop : (q : Queue) (v : Lanes) → Stretch l other 0 q v
  pushed :
      (n : ℕ) (p : Packager) (q q' : Queue) (v : Lanes)
      → push p q ≡ some q'
      → Stretch l other n q' (enqueue (lane_of p.flag) p v)
      → Stretch l other n q v
  pinged :
      (n : ℕ) (o : Option Packager) (q q' : Queue) (v : Lanes)
      → chosen v q.starving ≡ some high
      → try_pop q ≡ done o q'
      → Stretch l other n q' (unqueue (some high) v)
      → Stretch l other n q v
  served :
      (n : ℕ) (o : Option Packager) (q q' : Queue) (v : Lanes)
      → other v ≢ []
      → chosen v q.starving ≡ some l
      → try_pop q ≡ done o q'
      → Stretch l other n q' (unqueue (some l) v)
      → Stretch l other (suc n) q v

-- The queue after a pop of the lane `l`, from what `TryPop` is known to answer.
pop-next :
    (l : Option Lane) (q q' : Queue) (v : Lanes) (o : Option Packager)
    → QueueHolds q v
    → chosen v q.starving ≡ l
    → try_pop q ≡ done o q'
    → QueueHolds q' (unqueue l v) × (q'.starving ≡ next_starving l q.starving)
pop-next l q q' v o h e r = next (rw e at (try_pop-Serves q v h))
  where
    next :
        Serves l q v (try_pop q)
        → QueueHolds q' (unqueue l v) × (q'.starving ≡ next_starving l q.starving)
    next s =
        let same : s.after ≡ q' = cc (s.result, r) in
        (
          subst (λ x. QueueHolds x (unqueue l v)) same s.holds,
          ap (λ x. x.starving) (sym same) ∙ s.starved,
        )

choose-mid :
    (highs mids lows : List Packager) (s : ℕ)
    → lows ≢ []
    → choose highs mids lows s ≡ some mid
    → s < max_starving
unfolding choose
choose-mid (p ∷ highs) mids lows s ne e = cc
choose-mid [] (p ∷ mids) [] s ne e = absurd (ne refl)
choose-mid [] (p ∷ mids) (x ∷ lows) s ne e = ground arith
choose-mid [] [] (x ∷ lows) s ne e = cc
choose-mid [] [] [] s ne e = cc

choose-low :
    (highs mids lows : List Packager) (s : ℕ)
    → mids ≢ []
    → choose highs mids lows s ≡ some low
    → max_starving ≤ s
unfolding choose
choose-low (p ∷ highs) mids lows s ne e = cc
choose-low [] (p ∷ mids) [] s ne e = cc
choose-low [] (p ∷ mids) (x ∷ lows) s ne e = ground arith
choose-low [] [] lows s ne e = absurd (ne refl)

mid_stretch :
    (n : ℕ) (q : Queue) (v : Lanes)
    → QueueHolds q v
    → Stretch mid (λ v. v.lows) n q v
    → n ≤ max_starving - q.starving
mid_stretch n q v h (stop _ _) = omega arith
mid_stretch n q v h (pushed _ p _ q' _ e r) =
    let (m, k) = push-Pushed p q q' v h e in omega (arith, k.starved, mid_stretch n q' _ k.holds r)
mid_stretch n q v h (pinged _ o _ q' _ c e r) =
    let (h', s) = pop-next (some high) q q' v o h c e in omega (arith, s, mid_stretch n q' _ h' r)
mid_stretch _ q v h (served n o _ q' _ ne c e r) =
    let (h', s) = pop-next (some mid) q q' v o h c e in
    omega (arith, s, choose-mid v.highs v.mids v.lows q.starving ne c, mid_stretch n q' _ h' r)

low_stretch :
    (k n : ℕ) (q : Queue) (v : Lanes)
    → QueueHolds q v
    → q.starving < 8 * 2 ^ k
    → Stretch low (λ v. v.mids) n q v
    → n ≤ k
low_stretch k n q v h b (stop _ _) = omega arith
low_stretch k n q v h b (pushed _ p _ q' _ e r) =
    let (m, w) = push-Pushed p q q' v h e in
    low_stretch k n q' _ w.holds (omega (arith, w.starved)) r
low_stretch k n q v h b (pinged _ o _ q' _ c e r) =
    let (h', s) = pop-next (some high) q q' v o h c e in
    low_stretch k n q' _ h' (omega (arith, s)) r
low_stretch zero _ q v h b (served n o _ q' _ ne c e r) =
    absurd (omega (arith, choose-low v.highs v.mids v.lows q.starving ne c))
low_stretch (suc k) _ q v h b (served n o _ q' _ ne c e r) =
    let (h', s) = pop-next (some low) q q' v o h c e in
    omega (arith, low_stretch k n q' _ h' (omega (arith, s, pow-suc 2 k)) r)

-- While data waits, at most 8 new-connection frames are handed out in a row, whatever is pushed
-- meanwhile and however many pings go first.
pub mids-le :
    (n : ℕ) (q : Queue) (v : Lanes)
    → QueueHolds q v
    → Stretch mid (λ v. v.lows) n q v
    → n ≤ max_starving
mids-le n q v h r = omega (arith, mid_stretch n q v h r)

-- While a new-connection frame waits, at most 5 data frames are handed out in a row: each halves
-- the 8-bit count, and below 8 the new connection goes first.
pub lows-le :
    (n : ℕ) (q : Queue) (v : Lanes)
    → QueueHolds q v
    → q.starving < 2 ^ 8
    → Stretch low (λ v. v.mids) n q v
    → n ≤ 5
lows-le n q v h b r = low_stretch 5 n q v h b r
