-- ===== src/Mux/SendWindow.antt =====
-- `sendWindow` of lib/natpunch_mux/conn.go: the sender's end of a connection's flow control. The time
-- out and the channels are left out: a call that would block on `setSizeCh` answers `blocked`. A
-- compare-and-swap loop is one atomic step.
pub mod Views
pub mod Segments
pub mod Acks
pub mod Transfer
pub mod Progress
use Prim.Native.Nat.{bit_and}
use nat_punch.Base.{
  ℕ, ◌+◌, ◌-◌, ◌*◌, ◌%◌, ◌^◌, Bool, true, false, not, ◌&&◌, List, [], ◌∷◌, Option, none, some,
  length, take, drop, ltb, leb, ◌==◌, if◌then◌else◌,
}
use nat_punch.Mux.Window.{unpack, pack, mask31}
use nat_punch.Mux.Frame.{maximum_segment_size}

pub record SendWindow : Type 0 where
  pub max_size_done : ℕ
  pub off : ℕ
  pub close_op : Bool
  pub buf : List ℕ

unfoldable pub new : SendWindow
new = record {
  max_size_done = pack ((maximum_segment_size * 30) % 2 ^ 32) 0 false;
  off = 0;
  close_op = false;
  buf = [];
}

unfoldable pub set_send_buf : List ℕ → SendWindow → SendWindow
set_send_buf buf w = record w { buf = buf; off = 0 }

-- The `int64` difference, 0 if it is negative.
unfoldable pub remaining_size : ℕ → ℕ → ℕ
remaining_size max_size send = bit_and max_size mask31 - bit_and send mask31

-- What `SetSize` did: `wakes` tells whether it woke a writer that waits.
pub data Acked : Type 0 where
  closed : Acked
  ignored : Acked
  applied : (wakes : Bool) → SendWindow → Acked

-- The body of the loop in `SetSize`, once the two words are unpacked.
unfoldable pub slide : SendWindow → ℕ × ℕ × Bool → ℕ × ℕ × Bool → Acked
slide w (current, read, _) (max_size, send, wait) =
    if ltb send read
    then ignored
    else if read == 0 && current == max_size
    then ignored
    else let new_wait = remaining_size current (send - read) == 0 && wait in
      applied (wait && not new_wait)
        (record w { max_size_done = pack current (send - read) new_wait })

unfoldable pub set_size : ℕ → SendWindow → Acked
set_size word w = if w.close_op then closed else slide w (unpack word) (unpack w.max_size_done)

-- `sent`: the new word, or `none` where the loop goes on because the count would overflow.
unfoldable pub sent : ℕ → ℕ → Option ℕ
sent sent_size word =
    let (max_size, send, wait) = unpack word in
    if ltb (bit_and ((send + sent_size) % 2 ^ 32) mask31) send
    then none
    else some (pack max_size ((send + sent_size) % 2 ^ 32) wait)

-- `segment` carries `p` and `part`; `blocked` has set the wait flag, and `stuck` is the endless loop
-- of `sent`.
pub data Write : Type 0 where
  closed : Write
  eof : Write
  stuck : Write
  blocked : SendWindow → Write
  segment : List ℕ → Bool → SendWindow → Write

-- `sendSize`: at most a segment, the rest of the buffer, and the room in the window.
unfoldable pub send_size : SendWindow → ℕ → ℕ
send_size w remain =
    let left = length (drop w.off w.buf) in
    let size = if ltb maximum_segment_size left then maximum_segment_size else left % 2 ^ 32 in
    if ltb remain size then remain else size

abbrev pub counted : SendWindow → ℕ → Option ℕ → Write
counted w size none = stuck
counted w size (some word) =
    segment (take size (drop w.off w.buf)) (ltb size (length (drop w.off w.buf) % 2 ^ 32))
      (record w { max_size_done = word; off = (w.off + size) % 2 ^ 32 })

-- `WriteTo` from the label `start` on.
unfoldable pub write_start : SendWindow → ℕ × ℕ × Bool → Write
write_start w (max_size, send, _) =
    let remain = remaining_size max_size send in
    if remain == 0
    then blocked (record w { max_size_done = pack max_size send true })
    else if ltb (length w.buf % 2 ^ 32) w.off
    then eof
    else counted w (send_size w remain) (sent (send_size w remain) w.max_size_done)

unfoldable pub write_to : SendWindow → Write
write_to w =
    if w.close_op
    then closed
    else if leb (length w.buf % 2 ^ 32) w.off
    then eof
    else write_start w (unpack w.max_size_done)
