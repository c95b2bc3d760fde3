-- ===== src/Mux/ReceiveQueue.antt =====
-- `receiveWindowQueue` of lib/natpunch_mux/queue.go: the received pieces of a connection, with the
-- count of their bytes and the reader's wait flag in one word. Each method is one atomic step; the
-- channels by which a push wakes the reader are the result that says so.
pub mod Holds
use nat_punch.Base.{
  ℕ, ◌+◌, ◌-◌, ◌*◌, ◌%◌, ◌^◌, Bool, true, false, List, Option, none, some, length, ◌==◌,
  if◌then◌else◌,
}
use nat_punch.Mux.Dequeue.{pack, unpack, dequeue_bits}
use nat_punch.Mux.Chain
use nat_punch.Mux.Chain.{Chain}

-- `listElement`.
pub record Element : Type 0 where
  pub buf : List ℕ
  pub l : ℕ
  pub part : Bool

unfoldable pub new_list_element : List ℕ → ℕ → Bool → Option Element
new_list_element buf l part =
    if length buf % 2 ^ 16 == l then some (record { buf = buf; l = l; part = part }) else none

pub record ReceiveQueue : Type 0 where
  pub length_wait : ℕ
  pub chain : Chain Element

unfoldable pub new : ReceiveQueue
new = record { length_wait = 0; chain = Chain.new 64 }

-- The second result is whether a waiting reader is woken.
unfoldable pub push : Element → ReceiveQueue → ReceiveQueue × Bool
push element q =
    let (length, wait) = unpack q.length_wait in
    (
      record {
        length_wait = pack ((length + element.l) % 2 ^ 32) 0;
        chain = Chain.push_head element q.chain;
      },
      wait == 1,
    )

pub data Taken : Type 0 where
  spins : Taken
  took : Option Element → ReceiveQueue → Taken

-- The length goes down by adding its two's complement.
abbrev pub taken : ReceiveQueue → Chain.Outcome Element → Taken
taken q Chain.waits = spins
taken q (Chain.done none chain) = took none (record q { chain = chain })
taken q (Chain.done (some element) chain) = took (some element) (record {
  length_wait = (q.length_wait + (2 ^ 64 - element.l * 2 ^ dequeue_bits)) % 2 ^ 64;
  chain = chain;
})

unfoldable pub try_pop : ReceiveQueue → Taken
try_pop q = taken q (Chain.pop_tail q.chain)

pub data Popping : Type 0 where
  parks : ReceiveQueue → Popping
  tries : Taken → Popping

-- One pass of `Pop` from its label: it parks until a push or a stop, or tries to take.
unfoldable pub pop : ReceiveQueue → Popping
pop q =
    if (unpack q.length_wait).0 == 0
    then parks (record q { length_wait = pack 0 1 })
    else tries (try_pop q)

unfoldable pub len : ReceiveQueue → ℕ
len q = (unpack q.length_wait).0
