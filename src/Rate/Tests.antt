-- ===== src/Rate/Tests.antt =====
-- The theorems on the limiter at concrete numbers.
use nat_punch.Base.{◌^◌, ◌+◌, ◌≤◌, ◌≡◌, refl, arith, true}
use nat_punch.Base.Int.{pos}
use nat_punch.Rate.{new_rate, get, Sampler}
use nat_punch.Rate.Chunks.{Pieces, get-Pieces}

ten-add_size : (new_rate (pos 4)).add_size ≡ pos 4
unfolding new_rate
ten-add_size = refl

get-Pieces_example : Pieces 4 10 (get (2 ^ 31) (pos 10) (new_rate (pos 4)))
get-Pieces_example =
    get-Pieces (2 ^ 31) 10 (new_rate (pos 4)) 4 ten-add_size (omega arith) (omega arith)

new_rate-slow : ((new_rate (pos 4)).now_rate ≤ 8) × (8 ≤ (new_rate (pos 4)).now_rate + 2 ^ 3)
unfolding new_rate
new_rate-slow = (omega arith, omega arith)

abbrev idle : Sampler
idle = record { read = true; last_total = 0; have_last = true }
