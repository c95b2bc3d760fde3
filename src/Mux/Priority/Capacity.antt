-- ===== src/Mux/Priority/Capacity.antt =====
-- The limit of the write queue: what `Push` and `TryPop` do to the count of waiting frames.
use nat_punch.Base.{
  ℕ, ◌+◌, ◌<◌, ◌≤◌, ◌≡◌, refl, ap, ◌∙◌, arith, ◌⊎◌, inl, inr, true, Option, none, some, List, [],
  ◌∷◌, length, length-append, dec_lt,
}
use nat_punch.Base.Int.{pos, ◌+ℤ◌, ◌-ℤ◌, ltb_ℤ}
use nat_punch.Mux.Chain.Fifo.{new-ChainHolds, rest}
use nat_punch.Mux.Frame.{Packager}
use nat_punch.Mux.Priority.{
  Queue, new, set_max_length, Lane, high, mid, low, lane_of, push, Popped, waits, done, try_pop,
}
use nat_punch.Mux.Priority.Lanes.{
  Lanes, QueueHolds, choose, chosen, next_length, front, unqueue, try_pop-Serves,
}
use nat_punch.Mux.Priority.Push.{enqueue, Pushed, push-limited, push-overflow}

abbrev pub waiting : Lanes → ℕ
waiting v = length v.highs + length v.mids + length v.lows

-- The counter is the number of waiting frames, at most the limit `m`.
pub record Bounded (m : ℕ) (q : Queue) (v : Lanes) : Type 0 where
  pub holds : QueueHolds q v
  pub limit : q.max_length ≡ pos m
  pub counted : q.length ≡ pos (waiting v)
  pub fits : waiting v ≤ m

waiting-enqueue : (l : Lane) (p : Packager) (v : Lanes) → waiting (enqueue l p v) ≡ waiting v + 1
waiting-enqueue high p v = omega (arith, length-append v.highs (p ∷ []))
waiting-enqueue mid p v = omega (arith, length-append v.mids (p ∷ []))
waiting-enqueue low p v = omega (arith, length-append v.lows (p ∷ []))

waiting-unqueue :
    (highs mids lows : List Packager) (s : ℕ)
    → let v : Lanes = record { highs = highs; mids = mids; lows = lows } in
      next_length (choose highs mids lows s) (pos (waiting v))
      ≡ pos (waiting (unqueue (choose highs mids lows s) v))
unfolding choose ◌-ℤ◌
waiting-unqueue (p ∷ highs) mids lows s = ground arith
waiting-unqueue [] (p ∷ mids) [] s = ground arith
waiting-unqueue [] (p ∷ mids) (x ∷ lows) s = ground arith
waiting-unqueue [] [] (x ∷ lows) s = ground arith
waiting-unqueue [] [] [] s = refl

length-rest-le : (xs : List Packager) → length (rest xs) ≤ length xs
length-rest-le [] = omega arith
length-rest-le (x ∷ xs) = omega arith

waiting-unqueue-le : (l : Option Lane) (v : Lanes) → waiting (unqueue l v) ≤ waiting v
waiting-unqueue-le none v = omega arith
waiting-unqueue-le (some high) v = omega (arith, length-rest-le v.highs)
waiting-unqueue-le (some mid) v = omega (arith, length-rest-le v.mids)
waiting-unqueue-le (some low) v = omega (arith, length-rest-le v.lows)

module _ (m : ℕ) (q : Queue) (v : Lanes) (b : Bounded m q v) where
  limited : 0 < m → ltb_ℤ (pos 0) q.max_length ≡ true
  limited h = rw b.limit (ground arith)

  Pushed-Bounded :
      (p : Packager) (q' : Queue)
      → waiting v < m
      → Pushed p q v (q.length +ℤ pos 1) q'
      → Bounded m q' (enqueue (lane_of p.flag) p v)
  unfolding ◌+ℤ◌
  Pushed-Bounded p q' room k = record {
    holds = k.holds;
    limit = k.limit ∙ b.limit;
    counted =
        k.counted
        ∙ ap (λ n. n +ℤ pos 1) b.counted
        ∙ ground (arith, waiting-enqueue (lane_of p.flag) p v);
    fits = omega (arith, waiting-enqueue (lane_of p.flag) p v);
  }

  -- A limited queue refuses a frame exactly when it holds as many as its limit; otherwise the frame
  -- goes to the end of its lane, and the count stays right and within the limit.
  pub push-Bounded :
      (p : Packager)
      → 0 < m
      → ((waiting v ≡ m) × (push p q ≡ none))
        ⊎ ((waiting v < m)
            × ((q' : Queue) × (push p q ≡ some q') × Bounded m q' (enqueue (lane_of p.flag) p v)))
  push-Bounded p h = elim (dec_lt (waiting v) m) [
    | yes room ↦
        let (q', e, k) =
          push-limited p q v b.holds (limited h) (rw (b.limit, b.counted) (ground arith)) in
        inr (room, (q', e, Pushed-Bounded p q' room k))
    | no full ↦ inl (
      omega (arith, b.fits),
      push-overflow p q (limited h) (rw (b.limit, b.counted) (ground (arith, b.fits))),
    )
  ]

  -- A pop takes one frame off the count, if there is one.
  pub try_pop-Bounded :
      let l = chosen v q.starving in
      (q' : Queue) × (try_pop q ≡ done (front l v) q') × Bounded m q' (unqueue l v)
  try_pop-Bounded =
      let s = try_pop-Serves q v b.holds in
      (
        s.after,
        s.result,
        record {
          holds = s.holds;
          limit = s.limit ∙ b.limit;
          counted =
              s.counted
              ∙ ap (next_length (chosen v q.starving)) b.counted
              ∙ waiting-unqueue v.highs v.mids v.lows q.starving;
          fits = omega (arith, b.fits, waiting-unqueue-le (chosen v q.starving) v);
        },
      )

pub data Event : Type 0 where
  put : Packager → Event
  take : Event

abbrev kept : Queue → Option Queue → Queue
kept q none = q
kept q (some q') = q'

abbrev popped : Popped → (Queue → Option Queue) → Option Queue
popped waits k = none
popped (done o q) k = k q

-- A script of calls; a refused frame leaves the queue as it was. `none` if a pop would wait.
pub run : Queue → List Event → Option Queue
run q [] = some q
run q (put p ∷ events) = run (kept q (push p q)) events
run q (take ∷ events) = popped (try_pop q) (λ q'. run q' events)

run-Bounded :
    (m : ℕ)
    → 0 < m
    → (events : List Event) (q : Queue) (v : Lanes) → Bounded m q v
    → (q' : Queue) × (v' : Lanes) × (run q events ≡ some q') × Bounded m q' v'
unfolding run
run-Bounded m h [] q v b = (q, v, refl, b)
run-Bounded m h (put p ∷ events) q v b = elim (push-Bounded m q v b p h) [
  | inl (full, e) ↦ rw e (run-Bounded m h events q v b)
  | inr (room, (q', e, b')) ↦ rw e (run-Bounded m h events q' (enqueue (lane_of p.flag) p v) b')
]
run-Bounded m h (take ∷ events) q v b =
    let (q', e, b') = try_pop-Bounded m q v b in rw e (run-Bounded m h events q' _ b')

new-Bounded :
    (m : ℕ) → Bounded m (set_max_length (pos m) new) (record { highs = []; mids = []; lows = [] })
unfolding set_max_length new
new-Bounded m = ground (
  arith,
  new-ChainHolds {A = Packager} 2 (omega arith),
  new-ChainHolds {A = Packager} 5 (omega arith),
  new-ChainHolds {A = Packager} 8 (omega arith),
)

-- However `Push` and `TryPop` are mixed from a new queue with limit `m`, no call waits, the counter is
-- the number of waiting frames, and there are never more of them than `m`.
pub run-new-Bounded :
    (m : ℕ) (events : List Event)
    → 0 < m
    → (q : Queue) × (v : Lanes) × (run (set_max_length (pos m) new) events ≡ some q) × Bounded m q v
run-new-Bounded m events h = run-Bounded m h events _ _ (new-Bounded m)
