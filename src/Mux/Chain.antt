-- ===== src/Mux/Chain.antt =====
-- `bufChain` of lib/natpunch_mux/queue.go: a queue that grows by appending ring buffers, each twice
-- as large as the one before. The linked list is a list of rings from the consumer's end, `older`,
-- and the ring that takes new values, `head`. Each method is one atomic step, so the flag `newChain`,
-- which keeps two producers from growing the chain at once, is left out.
pub mod Fifo
pub mod Runs
use nat_punch.Base.{ℕ, ◌*◌, List, [], ◌∷◌, ◌++◌, Option, none, some, length, leb, if◌then◌else◌}
use nat_punch.Mux.Dequeue
use nat_punch.Mux.Dequeue.{Dequeue, dequeue_limit, Popped, empty, spins, got, fresh}

pub record Chain {ℓ} (A : Type ℓ) : Type ℓ where
  pub older : List (Dequeue A)
  pub head : Dequeue A

-- What `popTail` returns, with the chain it leaves; `waits` is the loop that waits for another
-- goroutine to fill a slot.
pub data Outcome {ℓ} (A : Type ℓ) : Type ℓ where
  waits : Outcome A
  done : Option A → Chain A → Outcome A

-- The size of the next ring. Rings hold at most `dequeueLimit` slots, so doubling cannot overflow.
unfoldable pub new_size : ℕ → ℕ
new_size size = if leb dequeue_limit (size * 2) then dequeue_limit else size * 2

module _ {ℓ} {A : Type ℓ} where
  unfoldable pub new : ℕ → Chain A
  new init_size = record { older = []; head = fresh init_size }

  -- The result of the inner `pushHead` is dropped.
  abbrev pub or_same : Dequeue A → Option (Dequeue A) → Dequeue A
  or_same d none = d
  or_same d (some d') = d'

  unfoldable pub grow : A → Chain A → Chain A
  grow val c =
      let d2 = fresh (new_size (length c.head.vals)) in
      record { older = c.older ++ c.head ∷ []; head = or_same d2 (Dequeue.push_head val d2) }

  abbrev pub pushed : A → Chain A → Option (Dequeue A) → Chain A
  pushed val c none = grow val c
  pushed val c (some d) = record c { head = d }

  unfoldable pub push_head : A → Chain A → Chain A
  push_head val c = pushed val c (Dequeue.push_head val c.head)

  -- A drained ring that has a successor is dropped from the chain.
  abbrev pub popped : List (Dequeue A) → Dequeue A → Popped A → Outcome A → Outcome A
  popped ds head empty rest = rest
  popped ds head spins rest = waits
  popped ds head (got val d) rest = done (some val) (record { older = d ∷ ds; head = head })

  abbrev pub popped_last : Dequeue A → Popped A → Outcome A
  popped_last head empty = done none (record { older = []; head = head })
  popped_last head spins = waits
  popped_last head (got val d) = done (some val) (record { older = []; head = d })

  unfoldable pub pop_from : List (Dequeue A) → Dequeue A → Outcome A
  pop_from [] head = popped_last head (Dequeue.pop_tail head)
  pop_from (d ∷ ds) head = popped ds head (Dequeue.pop_tail d) (pop_from ds head)

  unfoldable pub pop_tail : Chain A → Outcome A
  pop_tail c = pop_from c.older c.head
