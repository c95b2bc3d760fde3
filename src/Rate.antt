-- ===== src/Rate.antt =====
-- `Rate` of lib/rate/rate.go: the limiter of a client, which waits for its tokens, and the rate that
-- the panel shows, sampled from the bytes counted so far; and `rateConn` of conn.go, which charges
-- what goes through it. `WaitN` of golang.org/x/time/rate is a call that the model records.
pub mod Chunks
pub mod Sampling
mod Tests
use nat_punch.Base.{
  ℕ, zero, suc, ◌+◌, ◌-◌, ◌*◌, ◌/◌, ◌%◌, Bool, true, false, not, List, [], ◌∷◌, Option, none, some,
  map, ltb, ◌==◌, if◌then◌else◌,
}
use nat_punch.Base.Int.{ℤ, pos, negsuc, leb_ℤ, pos_part}

-- `read_total` tells whether there is a source to sample. A sampling goroutine has a number; `live` are those that run, and `stop_chan` is the one that the
-- channel reaches.
pub record Rate : Type 0 where
  pub add_size : ℤ
  pub read_total : Bool
  pub now_rate : ℕ
  pub stop_chan : Option ℕ
  pub started : ℕ
  pub live : List ℕ

unfoldable pub new_rate : ℤ → Rate
new_rate add_size = record {
  add_size = add_size;
  read_total = false;
  now_rate = 0;
  stop_chan = none;
  started = 0;
  live = [];
}

unfoldable pub set_flow_source : Rate → Rate
set_flow_source r = record r { read_total = true }

unfoldable pub set_now_rate : ℕ → Rate → Rate
set_now_rate v r = record r { now_rate = v }

abbrev pub start_from : Option ℕ → Rate → Rate
start_from none r = record r {
  stop_chan = some r.started;
  started = r.started + 1;
  live = r.started ∷ r.live;
}
start_from (some n) r = r

unfoldable pub start : Rate → Rate
start r = start_from r.stop_chan r

abbrev pub ended : ℕ → List ℕ → List ℕ
ended n [] = []
ended n (m ∷ live) = let rest = ended n live in if m == n then rest else m ∷ rest

abbrev pub stop_from : Option ℕ → Rate → Rate
stop_from none r = r
stop_from (some n) r = record r { stop_chan = none; live = ended n r.live }

unfoldable pub stop : Rate → Rate
stop r = stop_from r.stop_chan r

-- The loop of `Get`: the sizes that `WaitN` is called with. `none` is fuel that ran out.
abbrev pub cons_chunk : ℕ → Option (List ℕ) → Option (List ℕ)
cons_chunk n none = none
cons_chunk n (some ns) = some (n ∷ ns)

-- `int(z)`, where an `int` holds what is below `half`: 2^31 or 2^63.
abbrev pub wrapped : ℕ → ℕ → ℤ
wrapped half n = if ltb n half then pos n else negsuc (2 * half - 1 - n)

unfoldable pub to_int : ℕ → ℤ → ℤ
to_int half (pos n) = if ltb n half then pos n else wrapped half (n % (2 * half))
to_int half (negsuc n) = wrapped half (2 * half - 1 - n % (2 * half))

-- What the limiter that `NewRate` makes is given as its burst, and answers.
unfoldable pub burst_of : ℕ → Rate → ℤ
burst_of half r = to_int half r.add_size

abbrev pub chunk : ℕ → ℕ → ℕ
chunk burst size = if ltb burst size then burst else size

unfoldable pub chunks : (fuel : ℕ) → (burst size : ℕ) → Option (List ℕ)
chunks fuel burst zero = some []
chunks zero burst (suc size) = none
chunks (suc fuel) burst (suc size) =
    let rest = chunks fuel burst (suc size - chunk burst (suc size)) in
    cons_chunk (chunk burst (suc size)) rest

-- With a negative burst the size grows in each round.
abbrev pub chunks_by : ℤ → ℕ → Option (List ℕ)
chunks_by (pos burst) size = chunks size burst size
chunks_by (negsuc n) size = none

unfoldable pub get : (half : ℕ) → ℤ → Rate → Option (List ℕ)
get half size r =
    if leb_ℤ r.add_size (pos 0)
    then some []
    else if leb_ℤ size (pos 0)
    then some []
    else chunks_by (burst_of half r) (pos_part size)

-- `Read` and `Write` of `rateConn`, once `n` bytes have gone through.
unfoldable pub charge : (half : ℕ) → Option Rate → ℕ → Option (List ℕ)
charge half none n = some []
charge half (some r) n = if not (leb_ℤ r.add_size (pos 0)) then get half (pos n) r else some []

-- The goroutine of `Start`; `read` is whether there was a source when it began.
pub record Sampler : Type 0 where
  pub read : Bool
  pub last_total : ℕ
  pub have_last : Bool

unfoldable pub new_sampler : Rate → Sampler
new_sampler r = record { read = r.read_total; last_total = 0; have_last = false }

abbrev pub sample : Bool → ℕ → ℕ → Rate → Rate
sample false total last_total r = r
sample true total last_total r = set_now_rate ((r.now_rate + (total - last_total) / 2) / 2) r

-- A tick, with the bytes counted so far; a count that went back gives 0.
unfoldable pub tick : ℕ → Sampler × Rate → Sampler × Rate
tick total (s, r) = if not s.read then (s, r) else (
  record s { last_total = total; have_last = true },
  sample s.have_last total s.last_total r,
)
