-- ===== src/Mux/ReceiveWindow/Counting.antt =====
-- Every byte read is acknowledged once: sent, or still counted in the window's word.
use nat_punch.Base.{
  ℕ, ◌+◌, ◌%◌, ◌^◌, ◌<◌, ◌≡◌, refl, ap, ◌∙◌, arith, Bool, true, false, Option, none, some, List, [],
  ◌∷◌, if◌then◌else◌,
}
use nat_punch.Base.Bits.{bit_and-mask}
use nat_punch.Mux.Window.{pack, unpack}
use nat_punch.Mux.Window.Words.{unpack-pack_window, unpack-fits}
use nat_punch.Mux.ReceiveQueue.{Element, new_list_element}
use nat_punch.Mux.ReceiveWindow.{
  ReceiveWindow, calc_size, arrival, status, Write, closed, not_match, written, put, put_or, write,
  send_status,
}

-- The bytes that a word counts, and those that an acknowledgement reports.
abbrev pub read_of : ℕ → ℕ
read_of word = (unpack word).1

abbrev pub acked : Option ℕ → ℕ
acked none = 0
acked (some word) = read_of word

read_of-pack : (m d : ℕ) (w : Bool) → d < 2 ^ 31 → read_of (pack m d w) ≡ d
read_of-pack m d w h = ap (λ (p : ℕ × ℕ × Bool). p.1) (unpack-pack_window m d w) ∙ omega arith

-- When a piece comes in, what its acknowledgement reports and what stays counted make up what was
-- counted.
pub arrival_lem :
    (l : ℕ) (w : ReceiveWindow)
    → acked (arrival l w).1 + read_of (arrival l w).0 ≡ read_of w.max_size_done
unfolding arrival
arrival_lem l w =
    let (fits_max, fits) = unpack-fits w.max_size_done in
    ground (
      arith,
      read_of-pack (unpack w.max_size_done).0 (unpack w.max_size_done).1 true fits,
      read_of-pack (unpack w.max_size_done).0 (unpack w.max_size_done).1 false fits,
      read_of-pack (unpack w.max_size_done).0 0 false (omega arith),
    )

-- Reading a piece of fewer than 2^16 bytes to its end: what is reported and what stays counted make
-- up what was counted and the piece, also where the 31-bit count overflows.
pub status_lem :
    (l : ℕ) (w : ReceiveWindow)
    → l < 2 ^ 16
    → acked (status l w).1 + read_of (status l w).0 ≡ read_of w.max_size_done + l
unfolding status
status_lem l w h =
    let max_size = (unpack w.max_size_done).0 in
    let read = (unpack w.max_size_done).1 in
    let sum = (read + l) % 2 ^ 32 in
    let (fits_max, fits) = unpack-fits w.max_size_done in
    let wait = (unpack w.max_size_done).2 in
    ground (
      arith,
      bit_and-mask 31 sum,
      cut max_size sum wait,
      cut max_size sum false,
      cut max_size read false,
      cut max_size l wait,
      cut max_size 0 false,
    )
  where
    cut : (m d : ℕ) (w : Bool) → read_of (pack m d w) ≡ d % 2 ^ 31
    cut m d w = ap (λ (p : ℕ × ℕ × Bool). p.1) (unpack-pack_window m d w)

calc_size-read_of :
    (size : Option ℕ) (w : ReceiveWindow)
    → read_of (calc_size size w).max_size_done ≡ read_of w.max_size_done
unfolding calc_size
calc_size-read_of none w = refl
calc_size-read_of (some n) w =
    let (fits_max, fits) = unpack-fits w.max_size_done in
    read_of-pack n (unpack w.max_size_done).1 (unpack w.max_size_done).2 fits

-- What happens to a receive window: a frame comes in, or a piece, whose length is of 16 bits, is
-- read to its end.
pub data Event : Type 0 where
  arrives : (size : Option ℕ) → (buf : List ℕ) → (l : ℕ) → (part : Bool) → Event
  is_read : ℕ → Event

-- The window after a call of `Write`, and what it acknowledged.
abbrev pub after_write : ReceiveWindow → Write → ReceiveWindow × ℕ
after_write w closed = (w, 0)
after_write w not_match = (w, 0)
after_write w (written ack wakes w') = (w', acked ack)

abbrev pub after_status : ReceiveWindow × Option ℕ → ReceiveWindow × ℕ
after_status (w, ack) = (w, acked ack)

abbrev pub step : Event → ReceiveWindow → ReceiveWindow × ℕ
step (arrives size buf l part) w = after_write w (write size buf l part w)
step (is_read l) w = after_status (send_status (l % 2 ^ 16) w)

abbrev pub and_then : ℕ → ReceiveWindow × ℕ → ReceiveWindow × ℕ
and_then n (w, k) = (w, n + k)

unfoldable pub run : List Event → ReceiveWindow → ReceiveWindow × ℕ
run [] w = (w, 0)
run (e ∷ es) w = and_then (step e w).1 (run es (step e w).0)

-- The bytes of the pieces that are read.
abbrev pub bytes_read : List Event → ℕ
bytes_read [] = 0
bytes_read (arrives size buf l part ∷ es) = bytes_read es
bytes_read (is_read l ∷ es) = l % 2 ^ 16 + bytes_read es

abbrev Counts : ℕ → ℕ → ReceiveWindow × ℕ → Type 0
Counts before read (w, sent) = sent + read_of w.max_size_done ≡ before + read

put_or-Counts :
    (size : Option ℕ) (o : Option Element) (w : ReceiveWindow)
    → Counts (read_of w.max_size_done) 0 (after_write w (put_or size o w))
unfolding put
put_or-Counts size none w = omega arith
put_or-Counts size (some element) w =
    omega (arith, arrival_lem element.l (calc_size size w), calc_size-read_of size w)

write-Counts :
    (size : Option ℕ) (buf : List ℕ) (l : ℕ) (part : Bool) (w : ReceiveWindow)
    → Counts (read_of w.max_size_done) 0 (after_write w (write size buf l part w))
unfolding write
write-Counts size buf l part w = closed_or w.close_op
  where
    closed_or :
        (b : Bool)
        → Counts
            (read_of w.max_size_done)
            0
            (after_write w (if b then closed else put_or size (new_list_element buf l part) w))
    closed_or true = omega arith
    closed_or false = put_or-Counts size (new_list_element buf l part) w

-- However frames come in and pieces are read, and whatever sizes are computed, the bytes reported in
-- acknowledgements and those still counted in the word are the bytes counted at first and those read.
pub run-counts :
    (es : List Event) (w : ReceiveWindow)
    → (run es w).1 + read_of (run es w).0.max_size_done ≡ read_of w.max_size_done + bytes_read es
unfolding run send_status
run-counts [] w = omega arith
run-counts (arrives size buf l part ∷ es) w =
    let (w', sent) = after_write w (write size buf l part w) in
    omega (arith, write-Counts size buf l part w, run-counts es w')
run-counts (is_read l ∷ es) w =
    let w' = record w { max_size_done = (status (l % 2 ^ 16) w).0 } in
    omega (arith, status_lem (l % 2 ^ 16) w (omega arith), run-counts es w')
