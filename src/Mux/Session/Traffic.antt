-- ===== src/Mux/Session/Traffic.antt =====
-- `conn.Write` and `conn.Read` of lib/natpunch_mux/conn.go and `writeSession` and `ping` of mux.go, a
-- round of their loops at a time, and all that may happen to a mux.
use nat_punch.Base.{
  ℕ, Bool, true, false, ◌+◌, ◌%◌, ◌^◌, ◌++◌, ◌||◌, List, [], ◌∷◌, Option, none, some, length, ltb,
  ◌==◌, if◌then◌else◌,
}
use nat_punch.Mux.Priority
use nat_punch.Mux.Frame.{
  mux_ping_flag, mux_ping, pack, Info, bytes, Packager, mux_new_msg, mux_new_msg_part,
}
use nat_punch.Mux.ReceiveWindow
use nat_punch.Mux.ReceiveWindow.{read_pass}
use nat_punch.Mux.SendWindow
use nat_punch.Mux.SendWindow.{set_send_buf, write_to}
use nat_punch.Mux.Session.{
  Session, at, update, send_info, close_conn, close, acknowledge, read_frame, accept_next,
  open_conn,
}

-- What comes from the other side, and what the application does, with the place of a connection.
pub data Act : Type 0 where
  frame : (calculated : Option ℕ) → Packager → Act
  accepting opening closing_mux : Act
  closing writing : ℕ → Act
  beginning : ℕ → List ℕ → Act
  reading : (room : ℕ) → ℕ → Act
  sending : ℕ → ℕ → Info → Act
  packing : (ok : Bool) → Act
  ping_ticking : (now : List ℕ) → Act
  ping_hearing : Act

module _ (buffer : List ℕ) where
  -- `Write` up to the loop of `WriteFull`.
  unfoldable pub begin_write : ℕ → List ℕ → Session → Session
  begin_write r buf s =
      if length buf == 0 || (at s r).is_close || (at s r).closing_flag
      then s
      else update r (λ c. record c { send_window = set_send_buf buf c.send_window }) s

  abbrev pub sent_on : ℕ → Session → SendWindow.Write → Session
  sent_on r s SendWindow.closed = s
  sent_on r s SendWindow.eof = s
  sent_on r s SendWindow.stuck = s
  sent_on r s (SendWindow.blocked w) = update r (λ c. record c { send_window = w }) s
  sent_on r s (SendWindow.segment p part w) =
      send_info buffer (close buffer) (if part then mux_new_msg_part else mux_new_msg)
        ((at s r).conn_id) (bytes p) (update r (λ c. record c { send_window = w }) s)

  -- A round of `WriteFull`, for which `writeMu` is held.
  unfoldable pub write_round : ℕ → Session → Session
  write_round r s = sent_on r s (write_to (at s r).send_window)

  abbrev pub read_on : ℕ → Session → ReceiveWindow.Pass → Session
  read_on r s ReceiveWindow.eof = s
  read_on r s (ReceiveWindow.waits w) = update r (λ c. record c { receive_window = w }) s
  read_on r s ReceiveWindow.retries = s
  read_on r s (ReceiveWindow.copied chunk ack again w) =
      acknowledge buffer ((at s r).conn_id) ack (update r (λ c. record c { receive_window = w }) s)

  -- `Read` into a slice with so much room, as far as one pass takes it.
  unfoldable pub read_round : (room : ℕ) → ℕ → Session → Session
  read_round room r s =
      if (at s r).is_close || room == 0
      then s
      else read_on r s (read_pass room (at s r).receive_window)

  abbrev pub packed : (ok : Bool) → Session → Priority.Popped → Session
  packed ok s Priority.waits = s
  packed ok s (Priority.done none q) = record s { write_queue = q }
  packed true s (Priority.done (some p) q) = record s {
    write_queue = q;
    written = s.written ++ pack p ∷ [];
  }
  packed false s (Priority.done (some p) q) = close buffer (record s { write_queue = q })

  -- A round of `writeSession`; `ok` is whether the connection takes the frame.
  unfoldable pub pack_next : (ok : Bool) → Session → Session
  pack_next ok s = if s.is_close then s else packed ok s (Priority.try_pop s.write_queue)

  abbrev pub late : Session → Session
  late s = record s { ping_check_time = (s.ping_check_time + 1) % 2 ^ 32 }

  -- A tick of `ping`, at a time written out as `now`.
  unfoldable pub ping_tick : (now : List ℕ) → Session → Session
  ping_tick now s =
      if s.is_close
      then s
      else if ltb s.ping_check_threshold s.ping_check_time
      then close buffer s
      else late (send_info buffer (close buffer) mux_ping_flag mux_ping (bytes now) s)

  abbrev pub heard : List (List ℕ) → Session → Session
  heard [] s = s
  heard (content ∷ pings) s = record s { pings = pings; ping_check_time = 0 }

  -- The goroutine that takes the answers to pings; what it measures is left out.
  unfoldable pub hear_ping : Session → Session
  hear_ping s = if s.is_close then s else heard s.pings s

  abbrev pub opened : Session → Option (ℕ × Session) → Session
  opened s none = s
  opened s (some (r, s')) = s'

  unfoldable pub act : Act → Session → Session
  act (frame calculated p) s = read_frame buffer calculated p s
  act accepting s = accept_next buffer s
  act opening s = opened s (open_conn buffer s)
  act closing_mux s = close buffer s
  act (closing r) s = if ltb r (length s.objects) then close_conn buffer (close buffer) r s else s
  act (writing r) s = write_round r s
  act (beginning r buf) s = begin_write r buf s
  act (reading room r) s = read_round room r s
  act (sending flag id info) s = send_info buffer (close buffer) flag id info s
  act (packing ok) s = pack_next ok s
  act (ping_ticking now) s = ping_tick now s
  act ping_hearing s = hear_ping s

  unfoldable pub run : List Act → Session → Session
  run [] s = s
  run (a ∷ acts) s = run acts (act a s)
