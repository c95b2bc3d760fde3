-- ===== src/Mux/Conn/Release.antt =====
-- `release` and `CloseWindow` against what the queue of a receive window holds.
use nat_punch.Base.{
  ℕ, zero, suc, ◌+◌, ◌<◌, ◌≤◌, ap, arith, Bool, List, [], ◌∷◌, ◌++◌, length, length-append,
}
use nat_punch.Mux.Dequeue.{Dequeue}
use nat_punch.Mux.Dequeue.Holds.{Holds}
use nat_punch.Mux.Chain.Fifo.{Segments}
use nat_punch.Mux.ReceiveQueue.{Element, ReceiveQueue}
use nat_punch.Mux.ReceiveQueue.Holds.{QueueHolds, try_pop-QueueHolds, try_pop-none}
use nat_punch.Mux.ReceiveWindow.{ReceiveWindow}
use nat_punch.Mux.Conn.{slots_of, slots, release, close_receive}

-- A queue holds no more than it has slots.
slots_of-le :
    (ds : List (Dequeue Element)) (d : Dequeue Element) (xs ys : List Element)
    → Segments ds xs
    → Holds d ys
    → length (xs ++ ys) ≤ slots_of (ds ++ d ∷ [])
unfolding slots_of
slots_of-le [] d xs ys s h = omega (arith, ap length s, h.size, h.fits, length-append xs ys)
slots_of-le (e ∷ ds) d xs ys (us, vs, k, s, q) h = omega (
  arith,
  slots_of-le ds d vs ys s h,
  ap length q,
  k.size,
  k.fits,
  length-append us vs,
  length-append xs ys,
  length-append vs ys,
)

slots-le :
    (q : ReceiveQueue) (es : List Element) (waits : Bool)
    → QueueHolds q es waits
    → length es ≤ slots q
slots-le q es waits ((xs, ys, s, h, e), small, word) =
    omega (arith, ap length e, slots_of-le q.chain.older q.chain.head xs ys s h)

pub release-QueueHolds :
    (fuel : ℕ) (q : ReceiveQueue) (es : List Element) (waits : Bool)
    → QueueHolds q es waits
    → length es < fuel
    → QueueHolds (release fuel q) [] waits
unfolding release
release-QueueHolds zero q es waits h enough = absurd (omega (arith, enough))
release-QueueHolds (suc fuel) q [] waits h enough =
    let (q', e, k) = try_pop-none q waits h in rw e k
release-QueueHolds (suc fuel) q (e ∷ es) waits h enough =
    let (q', eq, k) = try_pop-QueueHolds q e es waits h in
    rw eq (release-QueueHolds fuel q' es waits k (omega (arith, enough)))

-- Whatever pieces wait in the queue of a window, `CloseWindow` takes them all out.
pub close_receive-QueueHolds :
    (w : ReceiveWindow) (es : List Element) (waits : Bool)
    → QueueHolds w.buf_queue es waits
    → QueueHolds (close_receive w).buf_queue [] waits
unfolding close_receive
close_receive-QueueHolds w es waits h =
    release-QueueHolds (slots w.buf_queue + 1) w.buf_queue es waits h
      (omega (arith, slots-le w.buf_queue es waits h))
