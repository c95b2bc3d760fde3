-- ===== src/Mux/Priority.antt =====
-- `priorityQueue` of lib/natpunch_mux/queue.go: the write queue of a mux, three chains of frames by
-- urgency. A method is one atomic step. `push` does not go through the condition variable here; the
-- wake-ups have a model of their own.
pub mod Lanes
pub mod Push
pub mod Fairness
pub mod Capacity
use nat_punch.Base.{
  ℕ, zero, suc, ◌+◌, ◌/◌, ◌%◌, ◌^◌, Bool, true, false, ◌||◌, Option, none, some, ltb, ◌==◌,
  if◌then◌else◌,
}
use nat_punch.Base.Int.{ℤ, pos, ◌+ℤ◌, ◌-ℤ◌, ltb_ℤ, leb_ℤ}
use nat_punch.Mux.Chain
use nat_punch.Mux.Chain.{Chain}
use nat_punch.Mux.Frame.{
  Packager, mux_ping_flag, mux_ping_return, mux_new_conn, mux_new_conn_ok, mux_new_conn_fail,
}

pub record Queue : Type 0 where
  pub highest : Chain Packager
  pub middle : Chain Packager
  pub lowest : Chain Packager
  pub starving : ℕ
  pub stop : Bool
  pub length : ℤ
  pub max_length : ℤ

-- `WriteQueueMax`, the default limit of mux.go.
abbrev pub write_queue_max : ℕ
write_queue_max = 16384

abbrev pub max_starving : ℕ
max_starving = 8

unfoldable pub new : Queue
new = record {
  highest = Chain.new 4;
  middle = Chain.new 32;
  lowest = Chain.new 256;
  starving = 0;
  stop = false;
  length = pos 0;
  max_length = pos write_queue_max;
}

unfoldable pub set_max_length : ℤ → Queue → Queue
set_max_length max q = if leb_ℤ (pos 0) max then record q { max_length = max } else q

pub data Lane : Type 0 where
  high mid low : Lane

-- The switch of `push`.
unfoldable pub lane_of : ℕ → Lane
lane_of flag =
    if flag == mux_ping_flag || flag == mux_ping_return
    then high
    else if flag == mux_new_conn || flag == mux_new_conn_ok || flag == mux_new_conn_fail
    then mid
    else low

abbrev pub push_lane : Lane → Packager → Queue → Queue
push_lane high p q = record q { highest = Chain.push_head p q.highest }
push_lane mid p q = record q { middle = Chain.push_head p q.middle }
push_lane low p q = record q { lowest = Chain.push_head p q.lowest }

-- `Push`; `none` is the error of a queue that overflows.
unfoldable pub push : Packager → Queue → Option Queue
push p q =
    if ltb_ℤ (pos 0) q.max_length
    then if leb_ℤ q.max_length q.length
      then none
      else some (push_lane (lane_of p.flag) p (record q { length = q.length +ℤ pos 1 }))
    else some (push_lane (lane_of p.flag) p q)

pub data Popped : Type 0 where
  waits : Popped
  done : Option Packager → Queue → Popped

-- The branches of `TryPop`: each is given what its chain answers, and `next` is the code behind it.
abbrev pub from_highest : Queue → (Queue → Popped) → Chain.Outcome Packager → Popped
from_highest q next Chain.waits = waits
from_highest q next (Chain.done none c) = next (record q { highest = c })
from_highest q next (Chain.done (some p) c) =
    done (some p) (record q { highest = c; length = q.length -ℤ pos 1 })

abbrev pub from_middle : Queue → (Queue → Popped) → Chain.Outcome Packager → Popped
from_middle q next Chain.waits = waits
from_middle q next (Chain.done none c) = next (record q { middle = c })
from_middle q next (Chain.done (some p) c) =
    done (some p)
      (record q { middle = c; length = q.length -ℤ pos 1; starving = (q.starving + 1) % 2 ^ 8 })

abbrev pub from_lowest : Queue → (Queue → Popped) → Chain.Outcome Packager → Popped
from_lowest q next Chain.waits = waits
from_lowest q next (Chain.done none c) = next (record q { lowest = c })
from_lowest q next (Chain.done (some p) c) = done (some p) (record q {
  lowest = c;
  length = q.length -ℤ pos 1;
  starving = if ltb 0 q.starving then q.starving / 2 else q.starving;
})

-- The last `if` of `TryPop`: the middle chain that was passed over.
unfoldable pub try_passed_over : Queue → Popped
try_passed_over q =
    if ltb 0 q.starving
    then from_middle q (λ q. done none q) (Chain.pop_tail q.middle)
    else done none q

unfoldable pub try_lowest : Queue → Popped
try_lowest q = from_lowest q try_passed_over (Chain.pop_tail q.lowest)

unfoldable pub try_middle : Queue → Popped
try_middle q =
    if ltb q.starving max_starving
    then from_middle q try_lowest (Chain.pop_tail q.middle)
    else try_lowest q

unfoldable pub try_pop : Queue → Popped
try_pop q = from_highest q try_middle (Chain.pop_tail q.highest)
