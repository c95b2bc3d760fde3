-- ===== src/Mux/Window.antt =====
-- `window` of lib/natpunch_mux/conn.go: the word that both ends of a connection's flow control keep,
-- a wait flag, a 31-bit window size and a 31-bit count.
pub mod Words
use Prim.Native.Nat.{bit_and, bit_or}
use nat_punch.Base.{ℕ, ◌+◌, ◌-◌, ◌*◌, ◌/◌, ◌%◌, ◌^◌, Bool, true, false, ◌==◌}
use nat_punch.Mux.Dequeue.{dequeue_bits}

abbrev pub window_bits : ℕ
window_bits = 31

abbrev pub wait_bits : ℕ
wait_bits = dequeue_bits + window_bits

abbrev pub mask1 : ℕ
mask1 = 1

abbrev pub mask31 : ℕ
mask31 = 2 ^ window_bits - 1

-- The parts of the word: `maxSize`, `done` and `wait`.
unfoldable pub unpack : ℕ → ℕ × ℕ × Bool
unpack ptrs = (
  bit_and (ptrs / 2 ^ dequeue_bits) mask31 % 2 ^ 32,
  bit_and ptrs mask31 % 2 ^ 32,
  bit_and (ptrs / 2 ^ wait_bits) mask1 == 1,
)

abbrev pub wait_word : Bool → ℕ
wait_word true = 1
wait_word false = 0

unfoldable pub pack : ℕ → ℕ → Bool → ℕ
pack max_size done wait =
    bit_or (bit_or (wait_word wait * 2 ^ wait_bits) (bit_and max_size mask31 * 2 ^ dequeue_bits))
      (bit_and done mask31)
