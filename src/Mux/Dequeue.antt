-- ===== src/Mux/Dequeue.antt =====
-- `bufDequeue` of lib/natpunch_mux/queue.go: a ring buffer whose two 32-bit indexes share a 64-bit
-- word. Each method is one atomic step, which is what its compare-and-swap loop amounts to when no
-- other goroutine interferes; the field `starving`, which only makes a producer yield, is left out.
pub mod Words
pub mod Holds
pub mod Fifo
use Prim.Native.Nat.{bit_and, bit_or}
use nat_punch.Base.{
  ℕ, ◌+◌, ◌-◌, ◌*◌, ◌/◌, ◌%◌, ◌^◌, List, Option, none, some, length, get_or, set, replicate, ltb,
  ◌==◌, if◌then◌else◌,
}

-- A slot holds `none` for the nil pointer.
pub record Dequeue {ℓ} (A : Type ℓ) : Type ℓ where
  pub head_tail : ℕ
  pub vals : List (Option A)

abbrev pub dequeue_bits : ℕ
dequeue_bits = 32

abbrev pub dequeue_limit : ℕ
dequeue_limit = 2 ^ dequeue_bits / 4

abbrev pub mask : ℕ
mask = 2 ^ dequeue_bits - 1

unfoldable pub unpack : ℕ → ℕ × ℕ
unpack ptrs = (bit_and (ptrs / 2 ^ dequeue_bits) mask % 2 ^ 32, bit_and ptrs mask % 2 ^ 32)

unfoldable pub pack : ℕ → ℕ → ℕ
pack head tail = bit_or (head * 2 ^ dequeue_bits % 2 ^ 64) (bit_and tail mask)

-- The word after a pop: the tail goes up by one, and from the last index to 0.
unfoldable pub advance : ℕ → ℕ → ℕ
advance ptrs tail =
    if ltb tail (2 ^ 32 - 1)
    then (ptrs + 1) % 2 ^ 64
    else (ptrs + (2 ^ 64 - 1 - (2 ^ 32 - 1 - 1))) % 2 ^ 64

module _ {ℓ} {A : Type ℓ} where
  -- A dequeue just made by `make([]unsafe.Pointer, size)`.
  unfoldable pub fresh : ℕ → Dequeue A
  fresh size = record { head_tail = 0; vals = replicate size none }

  -- `none` is the result false: the queue is full.
  unfoldable pub push_head : A → Dequeue A → Option (Dequeue A)
  push_head val d =
      let (head, tail) = unpack d.head_tail in
      if bit_and ((tail + length d.vals % 2 ^ 32) % 2 ^ 32) mask == head
      then none
      else some (record {
        head_tail = pack ((head + 1) % 2 ^ 32) tail;
        vals = set d.vals (bit_and head ((length d.vals - 1) % 2 ^ 32)) (some val);
      })

-- `spins` is the loop that finds an index taken and its slot still nil: it waits for another
-- goroutine.
pub data Popped {ℓ} (A : Type ℓ) : Type ℓ where
  empty : Popped A
  spins : Popped A
  got : A → Dequeue A → Popped A

module _ {ℓ} {A : Type ℓ} where
  -- The consumer's loop body once it has read the slot: `none` is a nil slot.
  unfoldable pub take_slot : Dequeue A → ℕ → ℕ → Option A → Popped A
  take_slot d tail slot none = spins
  take_slot d tail slot (some val) =
      got val (record { head_tail = advance d.head_tail tail; vals = set d.vals slot none })

  unfoldable pub pop_tail : Dequeue A → Popped A
  pop_tail d =
      let (head, tail) = unpack d.head_tail in
      let slot = bit_and tail ((length d.vals - 1) % 2 ^ 32) in
      if tail == head then empty else take_slot d tail slot (get_or d.vals slot none)
