-- ===== src/Mux/Tests.antt =====
-- Runs of the mux model at concrete inputs.
mod Numbers
mod Receiving
mod Sessions
use nat_punch.Base.{
  ℕ, ◌+◌, ◌-◌, ◌^◌, ◌<◌, ◌≤◌, ◌≡◌, refl, arith, ◌⊎◌, true, false, List, [], ◌∷◌, ◌++◌, none, some,
  replicate,
}
use nat_punch.Base.Int.{pos}
use nat_punch.Base.Result.{ok}
use nat_punch.Mux.Dequeue.{Dequeue, fresh, got}
use nat_punch.Mux.Dequeue
use nat_punch.Mux.Dequeue.Words.{unpack-pack_indexes}
use nat_punch.Mux.Dequeue.Holds.{Holds}
use nat_punch.Mux.Dequeue.Fifo.{fresh-Holds, push_head-Holds, pop_tail-Holds, push_head-fresh}
use nat_punch.Mux.Chain
use nat_punch.Mux.Chain.Fifo.{new-ChainHolds, push_head-ChainHolds}
use nat_punch.Mux.Chain.Runs.{Op, put, take as pull, run, run-run_list}
use nat_punch.Mux.Frame.{
  Packager, blank, Info, bytes, set, pack, unpack, mux_new_msg, mux_msg_send_ok, mux_new_conn,
}
use nat_punch.Mux.Frame
use nat_punch.Mux.Frame.RoundTrip.{wire_size, send_ok, unpack-pack}
use nat_punch.Mux.Frame.Limits.{unpack-set, Accepts, unpack-Accepts}
use nat_punch.Mux.Priority
use nat_punch.Mux.Priority.{Queue, mid, low}
use nat_punch.Mux.Priority.Lanes.{Lanes, QueueHolds, Serves, chosen, try_pop-Serves}
use nat_punch.Mux.Priority.Fairness.{Stretch, mids-le, lows-le}
use nat_punch.Mux.Priority.Capacity.{Event, Bounded, run-new-Bounded}
use nat_punch.Mux.Priority.Capacity
use nat_punch.Mux.Window
use nat_punch.Mux.Window.Words.{unpack-pack_window}
use nat_punch.Mux.SendWindow
use nat_punch.Mux.SendWindow.{SendWindow, write_to, segment, set_size, applied, ignored}
use nat_punch.Mux.SendWindow.Views.{View, new-View}
use nat_punch.Mux.SendWindow.Segments.{write_to-segment}
use nat_punch.Mux.SendWindow.Acks.{set_size-View}
use nat_punch.Mux.SendWindow.Transfer.{Wrote, write_full, finished, write_full-Cuts}
use nat_punch.Mux.SendWindow.Progress.{write_full-finished}

abbrev script : List (Op ℕ)
script = put 7 ∷ put 8 ∷ put 9 ∷ pull ∷ pull ∷ put 10 ∷ pull ∷ pull ∷ pull ∷ []

-- A chain that starts with two slots grows under three values.
run-run_list_example :
    run (Chain.new 2) script ≡ some (some 7 ∷ some 8 ∷ some 9 ∷ some 10 ∷ none ∷ [])
unfolding Chain.Runs.run_list
run-run_list_example = run-run_list 1 script (omega arith)

run-script : run (Chain.new 2) script ≡ some (some 7 ∷ some 8 ∷ some 9 ∷ some 10 ∷ none ∷ [])
unfolding run Chain.new Chain.push_head Chain.grow Chain.new_size Chain.pop_tail Chain.pop_from
    fresh Dequeue.push_head Dequeue.pop_tail Dequeue.take_slot Dequeue.pack Dequeue.unpack
    Dequeue.advance
run-script = refl

abbrev data_frame : Packager
data_frame = record {
  flag = mux_new_msg;
  id = 3;
  window = 0;
  length = 2;
  content = b'h' ∷ b'i' ∷ [];
}

abbrev conn_frame : Packager
conn_frame = record blank { flag = mux_new_conn; id = 4 }

abbrev window_frame : Packager
window_frame = record blank { flag = mux_msg_send_ok; id = 4; window = 2 ^ 40 + 5 }

unpack-pack_example :
    unpack (pack window_frame ++ 1 ∷ []) ≡ ok (wire_size window_frame, window_frame, 1 ∷ [])
unpack-pack_example =
    unpack-pack window_frame (1 ∷ []) (omega arith) (send_ok refl (omega arith) refl refl)

unpack_data : unpack (3 ∷ 3 ∷ 0 ∷ 0 ∷ 0 ∷ 2 ∷ 0 ∷ b'h' ∷ b'i' ∷ 9 ∷ []) ≡ ok (9, data_frame, 9 ∷ [])
unfolding unpack Frame.unpack_body Frame.unpack_content Frame.read_full Frame.has_content
unpack_data = refl

unpack-Accepts_example : Accepts 13 5 (unpack (6 ∷ 4 ∷ 0 ∷ 0 ∷ 0 ∷ []))
unpack-Accepts_example = unpack-Accepts (6 ∷ 4 ∷ 0 ∷ 0 ∷ 0 ∷ [])

-- A new connection and a data frame wait; `s` connections were served before.
abbrev busy : ℕ → Queue
busy s = record Priority.new {
  middle = Chain.push_head conn_frame (Chain.new 32);
  lowest = Chain.push_head data_frame (Chain.new 256);
  starving = s;
  length = pos 2;
}

abbrev lanes : Lanes
lanes = record { highs = []; mids = conn_frame ∷ []; lows = data_frame ∷ [] }

busy-QueueHolds : (s : ℕ) → QueueHolds (busy s) lanes
unfolding Priority.new
busy-QueueHolds s = record {
  in_highest = new-ChainHolds 2 (omega arith);
  in_middle = push_head-ChainHolds conn_frame (Chain.new 32) (new-ChainHolds 5 (omega arith));
  in_lowest = push_head-ChainHolds data_frame (Chain.new 256) (new-ChainHolds 8 (omega arith));
}

try_pop-Serves_example : Serves (some low) (busy 8) lanes (Priority.try_pop (busy 8))
unfolding Priority.Lanes.choose
try_pop-Serves_example = try_pop-Serves (busy 8) lanes (busy-QueueHolds 8)

one_mid : Stretch mid (λ v. v.lows) 1 (busy 7) lanes
unfolding Priority.Lanes.choose
one_mid =
    let s = try_pop-Serves (busy 7) lanes (busy-QueueHolds 7) in
    Stretch.served 0 _ (busy 7) s.after lanes (λ e. cc) refl s.result (Stretch.stop s.after _)

mids-le_example : 1 ≤ 8
mids-le_example = mids-le 1 (busy 7) lanes (busy-QueueHolds 7) one_mid

one_low : Stretch low (λ v. v.mids) 1 (busy 20) lanes
unfolding Priority.Lanes.choose
one_low =
    let s = try_pop-Serves (busy 20) lanes (busy-QueueHolds 20) in
    Stretch.served 0 _ (busy 20) s.after lanes (λ e. cc) refl s.result (Stretch.stop s.after _)

abbrev events : List Event
events = Event.put conn_frame ∷ Event.put data_frame ∷ Event.take ∷ Event.put data_frame ∷ []

run-new-Bounded_example :
    (q : Queue) × (v : Lanes) × (Capacity.run (Priority.set_max_length (pos 1) Priority.new) events
      ≡ some q)
    × Bounded 1 q v
run-new-Bounded_example = run-new-Bounded 1 events (omega arith)

-- A new window with a buffer of three bytes.
abbrev loaded : SendWindow
loaded = SendWindow.set_send_buf (1 ∷ 2 ∷ 3 ∷ []) SendWindow.new

loaded-View : View loaded 122550 0 false
unfolding SendWindow.set_send_buf SendWindow.new
loaded-View = record {
  word = refl;
  size_fits = omega arith;
  unread_fits = omega arith;
  buf_fits = omega arith;
  off_le = omega arith;
  is_open = refl;
}

write_full-Cuts_example :
    Wrote
      (1 ∷ 2 ∷ [])
      0
      (write_full (([]) ∷ (Window.pack 9 1 false ∷ []) ∷ []) (1 ∷ 2 ∷ []) SendWindow.new)
write_full-Cuts_example =
    write_full-Cuts (([]) ∷ (Window.pack 9 1 false ∷ []) ∷ []) (1 ∷ 2 ∷ []) SendWindow.new new-View
      (omega arith)

write_full_runs :
    write_full ([] ∷ [] ∷ []) (1 ∷ 2 ∷ 3 ∷ []) SendWindow.new
    ≡ ((false, 1 ∷ 2 ∷ 3 ∷ []) ∷ [], finished)
unfolding write_full SendWindow.Transfer.write_loop SendWindow.Transfer.apply_acks
    SendWindow.set_send_buf SendWindow.new write_to SendWindow.write_start SendWindow.remaining_size
    SendWindow.send_size SendWindow.sent Window.pack Window.unpack
write_full_runs = refl
