-- ===== src/Mux/Priority/Push.antt =====
-- What `Push` does to the lanes of the write queue.
use nat_punch.Base.{
  some_unique, ◌≡◌, refl, subst, none, some, [], ◌∷◌, ◌++◌, Bool-cases, inl, inr, true, false,
}
use nat_punch.Base.Int.{ℤ, pos, ◌+ℤ◌, ltb_ℤ, leb_ℤ}
use nat_punch.Mux.Chain.Fifo.{push_head-ChainHolds}
use nat_punch.Mux.Frame.{Packager}
use nat_punch.Mux.Priority.{Queue, Lane, high, mid, low, lane_of, push_lane, push}
use nat_punch.Mux.Priority.Lanes.{Lanes, QueueHolds}

abbrev pub enqueue : Lane → Packager → Lanes → Lanes
enqueue high p v = record v { highs = v.highs ++ p ∷ [] }
enqueue mid p v = record v { mids = v.mids ++ p ∷ [] }
enqueue low p v = record v { lows = v.lows ++ p ∷ [] }

pub push_lane-QueueHolds :
    (l : Lane) (p : Packager) (q : Queue) (v : Lanes)
    → QueueHolds q v
    → QueueHolds (push_lane l p q) (enqueue l p v)
push_lane-QueueHolds high p q v h = record {
  in_highest = push_head-ChainHolds p q.highest h.in_highest;
  in_middle = h.in_middle;
  in_lowest = h.in_lowest;
}
push_lane-QueueHolds mid p q v h = record {
  in_highest = h.in_highest;
  in_middle = push_head-ChainHolds p q.middle h.in_middle;
  in_lowest = h.in_lowest;
}
push_lane-QueueHolds low p q v h = record {
  in_highest = h.in_highest;
  in_middle = h.in_middle;
  in_lowest = push_head-ChainHolds p q.lowest h.in_lowest;
}

push_lane-fields :
    (l : Lane) (p : Packager) (q : Queue)
    → ((push_lane l p q).starving ≡ q.starving)
      × ((push_lane l p q).length ≡ q.length)
      × ((push_lane l p q).max_length ≡ q.max_length)
push_lane-fields high p q = (refl, refl, refl)
push_lane-fields mid p q = (refl, refl, refl)
push_lane-fields low p q = (refl, refl, refl)

-- What a push that succeeds leaves: the frame at the end of its lane, the starvation count and the
-- limit as they were.
pub record Pushed (p : Packager) (q : Queue) (v : Lanes) (n : ℤ) (q' : Queue) : Type 0 where
  pub holds : QueueHolds q' (enqueue (lane_of p.flag) p v)
  pub starved : q'.starving ≡ q.starving
  pub limit : q'.max_length ≡ q.max_length
  pub counted : q'.length ≡ n

counted-Pushed :
    (p : Packager) (q : Queue) (v : Lanes) (n : ℤ)
    → QueueHolds q v
    → Pushed p q v n (push_lane (lane_of p.flag) p (record q { length = n }))
counted-Pushed p q v n h =
    let q1 : Queue = record q { length = n } in
    let (s, l, m) = push_lane-fields (lane_of p.flag) p q1 in
    record {
      holds =
          push_lane-QueueHolds (lane_of p.flag) p q1 v (record {
            in_highest = h.in_highest;
            in_middle = h.in_middle;
            in_lowest = h.in_lowest;
          });
      starved = s;
      limit = m;
      counted = l;
    }

-- With a limit, a queue at its limit refuses and any other takes the frame and counts it.
pub push-limited :
    (p : Packager) (q : Queue) (v : Lanes)
    → QueueHolds q v
    → ltb_ℤ (pos 0) q.max_length ≡ true
    → leb_ℤ q.max_length q.length ≡ false
    → (q' : Queue) × (push p q ≡ some q') × Pushed p q v (q.length +ℤ pos 1) q'
unfolding push
push-limited p q v h limited room = rw (limited, room) (_, refl, counted-Pushed p q v _ h)

pub push-overflow :
    (p : Packager) (q : Queue)
    → ltb_ℤ (pos 0) q.max_length ≡ true
    → leb_ℤ q.max_length q.length ≡ true
    → push p q ≡ none
unfolding push
push-overflow p q limited full = rw (limited, full)

pub push-unlimited :
    (p : Packager) (q : Queue) (v : Lanes)
    → QueueHolds q v
    → ltb_ℤ (pos 0) q.max_length ≡ false
    → (q' : Queue) × (push p q ≡ some q') × Pushed p q v q.length q'
unfolding push
push-unlimited p q v h free = rw free (_, refl, counted-Pushed p q v q.length h)

pub push-Pushed :
    (p : Packager) (q q' : Queue) (v : Lanes)
    → QueueHolds q v
    → push p q ≡ some q'
    → (n : ℤ) × Pushed p q v n q'
push-Pushed p q q' v h e = elim (Bool-cases (ltb_ℤ (pos 0) q.max_length)) [
  | inl limited ↦ elim (Bool-cases (leb_ℤ q.max_length q.length)) [
    | inl full ↦ absurd (cc (push-overflow p q limited full))
    | inr room ↦
        let (r, e', k) = push-limited p q v h limited room in
        (q.length +ℤ pos 1, subst (Pushed p q v (q.length +ℤ pos 1)) (some_unique e' e) k)
  ]
  | inr free ↦
      let (r, e', k) = push-unlimited p q v h free in
      (q.length, subst (Pushed p q v q.length) (some_unique e' e) k)
]
