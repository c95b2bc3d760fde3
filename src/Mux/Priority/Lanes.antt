-- ===== src/Mux/Priority/Lanes.antt =====
-- The queue seen as three lists, one to a lane: what `Push` and `TryPop` do to them.
use nat_punch.Base.{
  ℕ, ◌+◌, ◌/◌, ◌%◌, ◌^◌, ◌≡◌, refl, arith, inl, inr, Option, none, some, ltb, if◌then◌else◌,
  Bool-cases, List, [], ◌∷◌,
}
use nat_punch.Base.Int.{ℤ, pos, ◌-ℤ◌}
use nat_punch.Mux.Chain.{Chain}
use nat_punch.Mux.Chain.Fifo.{ChainHolds, first, rest, pop_tail-ChainHolds}
use nat_punch.Mux.Frame.{Packager}
use nat_punch.Mux.Priority.{
  Queue, max_starving, Lane, high, mid, low, Popped, done, try_passed_over, try_lowest, try_middle,
  try_pop,
}

-- The frames that wait, oldest first in each lane.
pub record Lanes : Type 0 where
  pub highs : List Packager
  pub mids : List Packager
  pub lows : List Packager

pub record QueueHolds (q : Queue) (v : Lanes) : Type 0 where
  pub in_highest : ChainHolds q.highest v.highs
  pub in_middle : ChainHolds q.middle v.mids
  pub in_lowest : ChainHolds q.lowest v.lows

-- The lane that is served next: a ping first; then a new connection, unless 8 or more were served
-- while data waits; then data.
unfoldable pub choose : List Packager → List Packager → List Packager → ℕ → Option Lane
choose (p ∷ highs) mids lows starving = some high
choose [] (p ∷ mids) [] starving = some mid
choose [] (p ∷ mids) (q ∷ lows) starving = if ltb starving max_starving then some mid else some low
choose [] [] (q ∷ lows) starving = some low
choose [] [] [] starving = none

abbrev pub chosen : Lanes → ℕ → Option Lane
chosen v starving = choose v.highs v.mids v.lows starving

abbrev pub front : Option Lane → Lanes → Option Packager
front none v = none
front (some high) v = first v.highs
front (some mid) v = first v.mids
front (some low) v = first v.lows

abbrev pub unqueue : Option Lane → Lanes → Lanes
unqueue none v = v
unqueue (some high) v = record v { highs = rest v.highs }
unqueue (some mid) v = record v { mids = rest v.mids }
unqueue (some low) v = record v { lows = rest v.lows }

-- The starvation count is an 8-bit number.
abbrev pub next_starving : Option Lane → ℕ → ℕ
next_starving none s = s
next_starving (some high) s = s
next_starving (some mid) s = (s + 1) % 2 ^ 8
next_starving (some low) s = s / 2

abbrev pub next_length : Option Lane → ℤ → ℤ
next_length none n = n
next_length (some l) n = n -ℤ pos 1

-- `TryPop` answered by serving the lane `l`.
pub record Serves (l : Option Lane) (q : Queue) (v : Lanes) (r : Popped) : Type 0 where
  pub after : Queue
  pub result : r ≡ done (front l v) after
  pub holds : QueueHolds after (unqueue l v)
  pub starved : after.starving ≡ next_starving l q.starving
  pub counted : after.length ≡ next_length l q.length
  pub limit : after.max_length ≡ q.max_length

halved : (s : ℕ) → (if ltb 0 s then s / 2 else s) ≡ s / 2
halved s = ground arith

-- The queues that the branches leave, where `a`, `b` and `c` are the chains of the lanes.
abbrev gave : Option Lane → Queue → Chain Packager → Chain Packager → Chain Packager → Queue
gave l q a b c = record q {
  highest = a;
  middle = b;
  lowest = c;
  length = next_length l q.length;
  starving = next_starving l q.starving;
}

module _ (l : Option Lane) (q : Queue) (v : Lanes) (a b c : Chain Packager) where
  serves :
      (r : Popped)
      → ChainHolds a (unqueue l v).highs
      → ChainHolds b (unqueue l v).mids
      → ChainHolds c (unqueue l v).lows
      → r ≡ done (front l v) (gave l q a b c)
      → Serves l q v r
  serves r ha hb hc e = record {
    after = gave l q a b c;
    result = e;
    holds = record { in_highest = ha; in_middle = hb; in_lowest = hc };
    starved = refl;
    counted = refl;
    limit = refl;
  }

module _ (q : Queue) where
  serve_mid_alone :
      (p : Packager) (mids : List Packager)
      → let v : Lanes = record { highs = []; mids = p ∷ mids; lows = [] } in
        QueueHolds q v → Serves (some mid) q v (try_pop q)
  unfolding try_pop try_middle try_lowest try_passed_over
  serve_mid_alone p mids h =
      let (a, e1, k1) = pop_tail-ChainHolds q.highest h.in_highest in
      let (b, e2, k2) = pop_tail-ChainHolds q.middle h.in_middle in
      let (c, e3, k3) = pop_tail-ChainHolds q.lowest h.in_lowest in
      elim (Bool-cases (ltb q.starving max_starving)) [
        | inl few ↦
            serves (some mid) q _ a b q.lowest (try_pop q) k1 k2 h.in_lowest (rw (e1, few, e2))
        | inr many ↦
            serves (some mid) q _ a b c (try_pop q) k1 k2 k3
              (rw (e1, many, e3) (ground (arith, e2)))
      ]

  serve_mid_or_low :
      (p x : Packager) (mids lows : List Packager)
      → let v : Lanes = record { highs = []; mids = p ∷ mids; lows = x ∷ lows } in
        QueueHolds q v
        → Serves (if ltb q.starving max_starving then some mid else some low) q v (try_pop q)
  unfolding try_pop try_middle try_lowest
  serve_mid_or_low p x mids lows h =
      let (a, e1, k1) = pop_tail-ChainHolds q.highest h.in_highest in
      let (b, e2, k2) = pop_tail-ChainHolds q.middle h.in_middle in
      let (c, e3, k3) = pop_tail-ChainHolds q.lowest h.in_lowest in
      elim (Bool-cases (ltb q.starving max_starving)) [
        | inl few ↦
            rw few
              (serves (some mid) q _ a b q.lowest (try_pop q) k1 k2 h.in_lowest (rw (e1, few, e2)))
        | inr many ↦ rw many (
            serves (some low) q _ a q.middle c (try_pop q) k1 h.in_middle k3
              (rw (e1, many, e3, halved q.starving)))
      ]

  serve_low_alone :
      (x : Packager) (lows : List Packager)
      → let v : Lanes = record { highs = []; mids = []; lows = x ∷ lows } in
        QueueHolds q v → Serves (some low) q v (try_pop q)
  unfolding try_pop try_middle try_lowest
  serve_low_alone x lows h =
      let (a, e1, k1) = pop_tail-ChainHolds q.highest h.in_highest in
      let (b, e2, k2) = pop_tail-ChainHolds q.middle h.in_middle in
      let (c, e3, k3) = pop_tail-ChainHolds q.lowest h.in_lowest in
      elim (Bool-cases (ltb q.starving max_starving)) [
        | inl few ↦
            serves (some low) q _ a b c (try_pop q) k1 k2 k3
              (rw (e1, few, e2, e3, halved q.starving))
        | inr many ↦
            serves (some low) q _ a q.middle c (try_pop q) k1 h.in_middle k3
              (rw (e1, many, e3, halved q.starving))
      ]

  -- The middle chain is read a second time when the count is not 0.
  serve_none :
      let v : Lanes = record { highs = []; mids = []; lows = [] } in
      QueueHolds q v → Serves none q v (try_pop q)
  unfolding try_pop try_middle try_lowest try_passed_over
  serve_none h =
      let (a, e1, k1) = pop_tail-ChainHolds q.highest h.in_highest in
      let (b, e2, k2) = pop_tail-ChainHolds q.middle h.in_middle in
      let (b', e2', k2') = pop_tail-ChainHolds b k2 in
      let (c, e3, k3) = pop_tail-ChainHolds q.lowest h.in_lowest in
      elim (Bool-cases (ltb q.starving max_starving)) [
        | inl few ↦ elim (Bool-cases (ltb 0 q.starving)) [
          | inl some_left ↦
              serves none q _ a b' c (try_pop q) k1 k2' k3 (rw (e1, few, e2, e3, some_left, e2'))
          | inr none_left ↦
              serves none q _ a b c (try_pop q) k1 k2 k3 (rw (e1, few, e2, e3, none_left))
        ]
        | inr many ↦
            serves none q _ a b c (try_pop q) k1 k2 k3 (rw (e1, many, e3) (ground (arith, e2)))
      ]

  serve_lanes :
      (highs mids lows : List Packager)
      → let v : Lanes = record { highs = highs; mids = mids; lows = lows } in
        QueueHolds q v → Serves (choose highs mids lows q.starving) q v (try_pop q)
  unfolding choose try_pop
  serve_lanes (p ∷ highs) mids lows h =
      let (a, e1, k1) = pop_tail-ChainHolds q.highest h.in_highest in
      serves (some high) q _ a q.middle q.lowest (try_pop q) k1 h.in_middle h.in_lowest (rw e1)
  serve_lanes [] (p ∷ mids) [] h = serve_mid_alone p mids h
  serve_lanes [] (p ∷ mids) (x ∷ lows) h = serve_mid_or_low p x mids lows h
  serve_lanes [] [] (x ∷ lows) h = serve_low_alone x lows h
  serve_lanes [] [] [] h = serve_none h

-- `TryPop` never waits. It serves the front of the lane that `choose` names, or says that there is
-- nothing when all lanes are empty; the other frames stay in order, and the counters follow.
pub try_pop-Serves :
    (q : Queue) (v : Lanes) → QueueHolds q v → Serves (chosen v q.starving) q v (try_pop q)
try_pop-Serves q v h = serve_lanes q v.highs v.mids v.lows h
