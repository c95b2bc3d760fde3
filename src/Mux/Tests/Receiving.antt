-- ===== src/Mux/Tests/Receiving.antt =====
-- The theorems on the receiving side at concrete windows.
use nat_punch.Base.{◌+◌, ◌≡◌, refl, arith, true, false, List, [], ◌∷◌, none, some}
use nat_punch.Mux.ReceiveQueue
use nat_punch.Mux.ReceiveQueue.{Element, ReceiveQueue, push, try_pop, took, pop, parks, tries}
use nat_punch.Mux.ReceiveQueue.Holds.{QueueHolds, new-QueueHolds, push-QueueHolds}
use nat_punch.Mux.ReceiveWindow
use nat_punch.Mux.ReceiveWindow.{ReceiveWindow, write, read_pass}
use nat_punch.Mux.ReceiveWindow.Counting.{
  Event, arrives, is_read, run, read_of, bytes_read, run-counts,
}
use nat_punch.Mux.ReceiveWindow.Reading.{WindowHolds, Reads, read_pass-Reads}
use nat_punch.Mux.ReceiveWindow.Arriving.{Stores, write-Stores}

abbrev piece : Element
piece = record { buf = 7 ∷ 8 ∷ 9 ∷ []; l = 3; part = false }

abbrev second_piece : Element
second_piece = record { buf = 1 ∷ 2 ∷ []; l = 2; part = true }

unfoldable one : ReceiveQueue
one = (push piece ReceiveQueue.new).0

one-QueueHolds : QueueHolds one (piece ∷ []) false
unfolding one
one-QueueHolds = (push-QueueHolds piece ReceiveQueue.new [] false new-QueueHolds (omega arith)).0

-- Two bytes of the second piece are read, then the window turns to the queue.
abbrev half_read : ReceiveWindow
half_read = record {
  max_size_done = 0;
  off = 1;
  close_op = false;
  buf_queue = one;
  element = second_piece;
}

half_read-WindowHolds : WindowHolds half_read (piece ∷ []) false
half_read-WindowHolds =
    (one-QueueHolds, ((refl, omega arith), tt), (refl, omega arith), omega arith)

read_pass-Reads_example : Reads 4 (2 ∷ 7 ∷ 8 ∷ 9 ∷ []) (read_pass 4 half_read)
read_pass-Reads_example = read_pass-Reads 4 half_read (piece ∷ []) false half_read-WindowHolds

write-Stores_example :
    Stores
      (5 ∷ 6 ∷ [])
      (piece ∷ [])
      false
      half_read
      (write (some 200000) (5 ∷ 6 ∷ []) 2 true half_read)
write-Stores_example =
    write-Stores (5 ∷ 6 ∷ []) (piece ∷ []) false (some 200000) true half_read half_read-WindowHolds
      (omega arith) (omega arith)

abbrev events : List Event
events =
    arrives (some 200000) (5 ∷ 6 ∷ []) 2 true
    ∷ is_read 2
    ∷ is_read 70000
    ∷ arrives none [] 0 false
    ∷ []

run-counts_example :
    (run events ReceiveWindow.new).1 + read_of (run events ReceiveWindow.new).0.max_size_done
    ≡ read_of ReceiveWindow.new.max_size_done + bytes_read events
run-counts_example = run-counts events ReceiveWindow.new
