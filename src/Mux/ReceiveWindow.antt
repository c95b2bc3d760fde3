-- ===== src/Mux/ReceiveWindow.antt =====
-- `receiveWindow` of lib/natpunch_mux/conn.go: what a connection has received and not yet read, and
-- the acknowledgements that let the other side send on. Each method is one atomic step; the size
-- that `calcSize` computes from measured bandwidth, in floating point, is an argument of `write`.
pub mod Counting
pub mod Reading
pub mod Arriving
use Prim.Native.Nat.{bit_and}
use nat_punch.Base.{
  ℕ, ◌+◌, ◌-◌, ◌*◌, ◌/◌, ◌%◌, ◌^◌, Bool, true, false, not, ◌&&◌, ◌||◌, List, [], Option, none, some,
  length, take, drop, ltb, leb, ◌==◌, if◌then◌else◌,
}
use nat_punch.Mux.Window.{pack, unpack, mask31}
use nat_punch.Mux.Frame.{maximum_segment_size}
use nat_punch.Mux.ReceiveQueue
use nat_punch.Mux.ReceiveQueue.{
  Element, new_list_element, ReceiveQueue, push, Taken, spins, took, try_pop, Popping, parks, tries,
  pop, len,
}

pub record ReceiveWindow : Type 0 where
  pub max_size_done : ℕ
  pub off : ℕ
  pub close_op : Bool
  pub buf_queue : ReceiveQueue
  pub element : Element

unfoldable pub new : ReceiveWindow
new = record {
  max_size_done = pack (maximum_segment_size * 30) 0 false;
  off = 0;
  close_op = false;
  buf_queue = ReceiveQueue.new;
  element = record { buf = []; l = 0; part = false };
}

unfoldable pub remaining_size : ℕ → ℕ → ReceiveQueue → ℕ
remaining_size max_size delta q = max_size - len q - delta

-- What `calcSize` stores: `none` on the calls that its counter skips.
unfoldable pub calc_size : Option ℕ → ReceiveWindow → ReceiveWindow
calc_size none w = w
calc_size (some n) w =
    let (_, read, wait) = unpack w.max_size_done in record w { max_size_done = pack n read wait }

-- The word after a piece of `l` bytes comes in, and the acknowledgement sent.
unfoldable pub arrival : ℕ → ReceiveWindow → ℕ × Option ℕ
arrival l w =
    let (max_size, read, wait) = unpack w.max_size_done in
    if remaining_size max_size l w.buf_queue == 0 && not wait
    then (pack max_size read true, none)
    else if not wait
    then (pack max_size 0 false, some (pack max_size read false))
    else (w.max_size_done, none)

pub data Write : Type 0 where
  closed : Write
  not_match : Write
  written : (ack : Option ℕ) → (wakes : Bool) → ReceiveWindow → Write

abbrev pub pushed : Option ℕ → ReceiveWindow → ReceiveQueue × Bool → Write
pushed ack w (q, wakes) = written ack wakes (record w { buf_queue = q })

unfoldable pub put : Element → ReceiveWindow → Write
put element w =
    let (word, ack) = arrival element.l w in
    pushed ack (record w { max_size_done = word }) (push element w.buf_queue)

abbrev pub put_or : Option ℕ → Option Element → ReceiveWindow → Write
put_or size none w = not_match
put_or size (some element) w = put element (calc_size size w)

unfoldable pub write : Option ℕ → List ℕ → ℕ → Bool → ReceiveWindow → Write
write size buf l part w = if w.close_op then closed else put_or size (new_list_element buf l part) w

-- `sendStatus`: the word after a piece of `l` bytes is read to its end, and what is sent.
unfoldable pub status : ℕ → ReceiveWindow → ℕ × Option ℕ
status l w =
    let (max_size, read, wait) = unpack w.max_size_done in
    let sum = (read + l) % 2 ^ 32 in
    let remain = remaining_size max_size 0 w.buf_queue in
    if leb read (bit_and sum mask31)
    then if wait && ltb 0 remain || leb (max_size / 2) sum || remain == max_size
      then (pack max_size 0 false, some (pack max_size sum false))
      else (pack max_size sum wait, none)
    else (pack max_size l wait, some (pack max_size read false))

unfoldable pub send_status : ℕ → ReceiveWindow → ReceiveWindow × Option ℕ
send_status l w = let (word, ack) = status l w in (record w { max_size_done = word }, ack)

-- One pass of `readFromQueue` from its label.
pub data Pass : Type 0 where
  eof : Pass
  waits : ReceiveWindow → Pass
  retries : Pass
  copied : List ℕ → (ack : Option ℕ) → (again : Bool) → ReceiveWindow → Pass

abbrev pub finished : List ℕ → Bool → ReceiveWindow × Option ℕ → Pass
finished chunk again (w, ack) = copied chunk ack again w

-- The copy into a slice with room for `room` bytes.
unfoldable pub copy_out : ℕ → ReceiveWindow → Pass
copy_out room w =
    let chunk = take room (drop w.off (take w.element.l w.element.buf)) in
    let w1 = record w { off = (w.off + length chunk) % 2 ^ 32 } in
    let again = ltb (length chunk) room && w.element.part in
    if w1.off == w.element.l
    then finished chunk again (send_status w.element.l w1)
    else copied chunk none again w1

abbrev pub next_element : ℕ → ReceiveWindow → Taken → Pass
next_element room w spins = retries
next_element room w (took none q) = retries
next_element room w (took (some el) q) =
    copy_out room (record w { buf_queue = q; element = el; off = 0 })

abbrev pub last_element : ℕ → ReceiveWindow → Taken → Pass
last_element room w spins = retries
last_element room w (took none q) = eof
last_element room w (took (some el) q) =
    copy_out room (record w { buf_queue = q; element = el; off = 0 })

abbrev pub popped : ℕ → ReceiveWindow → Popping → Pass
popped room w (parks q) = waits (record w { buf_queue = q })
popped room w (tries t) = next_element room w t

unfoldable pub read_pass : ℕ → ReceiveWindow → Pass
read_pass room w =
    if w.off == w.element.l
    then if w.close_op
      then last_element room w (try_pop w.buf_queue)
      else popped room w (pop w.buf_queue)
    else copy_out room w
