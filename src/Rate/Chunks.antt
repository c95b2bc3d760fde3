-- ===== src/Rate/Chunks.antt =====
-- The pieces that `Get` waits for.
use nat_punch.Base.{
  ltb, ℕ, zero, suc, ◌+◌, ◌-◌, ◌<◌, ◌≤◌, ◌≡◌, refl, arith, true, false, List, [], ◌∷◌, Option, none,
  some, All, if◌then◌else◌,
}
use nat_punch.Base.Int.{pos, leb_ℤ}
use nat_punch.Rate.{Rate, to_int, burst_of, chunk, chunks, cons_chunk, get}

abbrev pub sum : List ℕ → ℕ
sum [] = 0
sum (n ∷ ns) = n + sum ns

-- A piece that the limiter grants: not empty, and no more than it can ever hold.
abbrev pub Granted : ℕ → ℕ → Type 0
Granted burst n = (0 < n) × (n ≤ burst)

abbrev pub Pieces : ℕ → ℕ → Option (List ℕ) → Type 0
Pieces burst size none = ⊥
Pieces burst size (some ns) = All (Granted burst) ns × (sum ns ≡ size)

cons_chunk-Pieces :
    (burst size n : ℕ) (o : Option (List ℕ))
    → Granted burst n
    → n ≤ size
    → Pieces burst (size - n) o
    → Pieces burst size (cons_chunk n o)
cons_chunk-Pieces burst size n none g l p = p
cons_chunk-Pieces burst size n (some ns) g l (all, e) = ((g, all), omega (arith, e, l))

chunk-Granted :
    (burst size : ℕ)
    → 0 < burst
    → Granted burst (chunk burst (suc size)) × (chunk burst (suc size) ≤ suc size)
chunk-Granted burst size h = ground (arith, h)

chunks-Pieces :
    (fuel burst size : ℕ) → 0 < burst → size ≤ fuel → Pieces burst size (chunks fuel burst size)
unfolding chunks
chunks-Pieces fuel burst zero h enough = (tt, refl)
chunks-Pieces zero burst (suc size) h enough = absurd (omega (arith, enough))
chunks-Pieces (suc fuel) burst (suc size) h enough =
    let (g, l) = chunk-Granted burst size h in
    cons_chunk-Pieces burst (suc size) (chunk burst (suc size)) _ g l
      (chunks-Pieces fuel burst (suc size - chunk burst (suc size)) h (omega (arith, enough, g.0)))

-- With a positive limit that an `int` of the machine holds, `Get` of any size comes to its end, and
-- waits for pieces that are not empty, that the limiter can hold each, and that add up to the size.
pub get-Pieces :
    (half size : ℕ) (r : Rate) (burst : ℕ)
    → r.add_size ≡ pos burst
    → 0 < burst
    → burst < half
    → Pieces burst size (get half (pos size) r)
unfolding get burst_of to_int
get-Pieces half size r burst e h fits =
    let kept : ltb burst half ≡ true = ground (arith, fits) in rw (e, kept) (go size)
  where
    positive : leb_ℤ (pos burst) (pos 0) ≡ false
    positive = ground (arith, h)

    go :
        (size : ℕ)
        → Pieces burst size (
            if leb_ℤ (pos burst) (pos 0)
            then some []
            else if leb_ℤ (pos size) (pos 0)
            then some []
            else chunks size burst size)
    go zero = rw positive (tt, refl)
    go (suc size) =
        let some_left : leb_ℤ (pos (suc size)) (pos 0) ≡ false = ground arith in
        rw (positive, some_left) (chunks-Pieces (suc size) burst (suc size) h (omega arith))
