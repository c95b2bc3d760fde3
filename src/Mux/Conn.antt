-- ===== src/Mux/Conn.antt =====
-- `conn` of lib/natpunch_mux/conn.go: a connection of a mux with its two windows and its flags. The
-- channels `connStatusOkCh` and `connStatusFailCh` hold one token at most; `stopped` tells whether
-- the queue's `Stop` has run.
pub mod Release
use nat_punch.Base.{
  ℕ, zero, suc, ◌+◌, Bool, true, false, not, List, [], ◌∷◌, ◌++◌, Option, none, some, length, ltb,
  ◌==◌, if◌then◌else◌,
}
use nat_punch.Mux.Dequeue.{Dequeue}
use nat_punch.Mux.Chain.{Chain}
use nat_punch.Mux.ReceiveQueue.{Element, ReceiveQueue, Taken, spins, took, try_pop}
use nat_punch.Mux.ReceiveWindow
use nat_punch.Mux.ReceiveWindow.{ReceiveWindow}
use nat_punch.Mux.SendWindow
use nat_punch.Mux.SendWindow.{SendWindow}

-- A `sync.Once`: `running` is a call that has not come back.
pub data Once : Type 0 where
  fresh running done : Once

pub record Conn : Type 0 where
  pub conn_status_ok : Bool
  pub conn_status_fail : Bool
  pub conn_id : ℕ
  pub is_close : Bool
  pub closing_flag : Bool
  pub receive_window : ReceiveWindow
  pub send_window : SendWindow
  pub once : Once
  pub stopped : Bool

unfoldable pub new_conn : ℕ → Conn
new_conn conn_id = record {
  conn_status_ok = false;
  conn_status_fail = false;
  conn_id = conn_id;
  is_close = false;
  closing_flag = false;
  receive_window = ReceiveWindow.new;
  send_window = SendWindow.new;
  once = fresh;
  stopped = false;
}

-- `Stop` of the receive window.
abbrev pub stop : Conn → Conn
stop c = record c { stopped = true }

unfoldable pub slots_of : List (Dequeue Element) → ℕ
slots_of [] = 0
slots_of (d ∷ ds) = length d.vals + slots_of ds

abbrev pub slots : ReceiveQueue → ℕ
slots q = slots_of (q.chain.older ++ q.chain.head ∷ [])

abbrev pub release_rest : (ReceiveQueue → ReceiveQueue) → ReceiveQueue → Taken → ReceiveQueue
release_rest again q spins = q
release_rest again q (took none q') = q'
release_rest again q (took (some e) q') = again q'

-- The loop of `release`.
unfoldable pub release : (fuel : ℕ) → ReceiveQueue → ReceiveQueue
release zero q = q
release (suc fuel) q = release_rest (release fuel) q (try_pop q)

-- `receiveWindow.CloseWindow`.
unfoldable pub close_receive : ReceiveWindow → ReceiveWindow
close_receive w = record w {
  close_op = true;
  buf_queue = release (slots w.buf_queue + 1) w.buf_queue;
}

-- `sendWindow.CloseWindow`.
unfoldable pub close_send : SendWindow → SendWindow
close_send w = record w { close_op = true }

-- `CloseWindow` of the two windows, the last steps of `closeProcess`.
unfoldable pub close_windows : Conn → Conn
close_windows c = stop (record c {
  send_window = close_send c.send_window;
  receive_window = close_receive c.receive_window;
})
