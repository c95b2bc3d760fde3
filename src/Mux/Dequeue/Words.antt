-- ===== src/Mux/Dequeue/Words.antt =====
-- The packed word of `bufDequeue` as arithmetic: `pack`, `unpack`, the step of the tail, and the
-- index of a slot.
use nat_punch.Base.{ℕ, zero, suc, ◌+◌, ◌-◌, ◌*◌, ◌/◌, ◌%◌, ◌^◌, ◌≤◌, ◌<◌, ◌≡◌, ap, ◌∙◌, sym, arith}
use nat_punch.Base.Bits.{bit_or-fields, bit_and-mask}
use nat_punch.Mux.Dequeue.{pack, unpack, advance}
use native.Mathlib.Nat.{pow-le-pow_right, pow-suc, mod-eq_of_lt, mod-mod_of_dvd, mod-add-mod}
use Prim.Native.Nat.{bit_and, ◌∣◌}

pub pack_lem :
    (head tail : ℕ) → head < 2 ^ 32 → tail < 2 ^ 32 → pack head tail ≡ head * 2 ^ 32 + tail
unfolding pack
pack_lem head tail h t =
    rw
      (
        bit_and-mask 32 tail,
        mod-eq_of_lt t,
        mod-eq_of_lt {n = head * 2 ^ 32} {m = 2 ^ 64} (omega arith),
      )
      (bit_or-fields 32 head tail t)

pub unpack_lem :
    (head tail : ℕ) → head < 2 ^ 32 → tail < 2 ^ 32 → unpack (head * 2 ^ 32 + tail) ≡ (head, tail)
unfolding unpack
unpack_lem head tail h t = ground (
  arith,
  bit_and-mask 32 ((head * 2 ^ 32 + tail) / 2 ^ 32),
  bit_and-mask 32 (head * 2 ^ 32 + tail),
)

-- Unpacking what was packed gives the two indexes back.
pub unpack-pack_indexes :
    (head tail : ℕ) → head < 2 ^ 32 → tail < 2 ^ 32 → unpack (pack head tail) ≡ (head, tail)
unpack-pack_indexes head tail h t = ap unpack (pack_lem head tail h t) ∙ unpack_lem head tail h t

pub advance_lem :
    (head tail : ℕ)
    → head < 2 ^ 32
    → tail < 2 ^ 32
    → advance (head * 2 ^ 32 + tail) tail ≡ head * 2 ^ 32 + (tail + 1) % 2 ^ 32
unfolding advance
advance_lem head tail h t = ground arith

pub pow-le-limit : (k : ℕ) → k ≤ 30 → 2 ^ k ≤ 2 ^ 30
pow-le-limit k h = pow-le-pow_right (omega arith) h

-- The index of a slot in a ring of 2 ^ k entries.
pub slot_lem : (k i : ℕ) → k ≤ 30 → bit_and i ((2 ^ k - 1) % 2 ^ 32) ≡ i % 2 ^ k
slot_lem k i h = ground (
  arith,
  ap (bit_and i) (mod-eq_of_lt {n = 2 ^ k - 1} {m = 2 ^ 32} (omega (arith, pow-le-limit k h))),
  bit_and-mask k i,
)

pow-split : (k n : ℕ) → k ≤ n → (q : ℕ) × (2 ^ n ≡ 2 ^ k * q)
pow-split zero n h = (2 ^ n, omega arith)
pow-split (suc k) zero h = absurd (omega arith)
pow-split (suc k) (suc n) h =
    let (q, e) = pow-split k n (omega arith) in
    (q, omega (arith, pow-suc 2 n, pow-suc 2 k, ap (λ (t : ℕ). t * q) (pow-suc 2 k), e))

pow-dvd : (k : ℕ) → k ≤ 30 → 2 ^ k ∣ 2 ^ 32
pow-dvd k h = ∣ pow-split k 32 (omega arith) ∣₁

-- Slots do not notice that an index wraps at 2 ^ 32.
pub wrap_lem : (k a : ℕ) → k ≤ 30 → a % 2 ^ 32 % 2 ^ k ≡ a % 2 ^ k
wrap_lem k a h = mod-mod_of_dvd (2 ^ k) a (pow-dvd k h)

pub wrap-add : (k a b : ℕ) → k ≤ 30 → (a % 2 ^ 32 + b) % 2 ^ k ≡ (a + b) % 2 ^ k
wrap-add k a b h =
    sym (mod-add-mod (a % 2 ^ 32) (2 ^ k) b)
    ∙ ap (λ t. (t + b) % 2 ^ k) (wrap_lem k a h)
    ∙ mod-add-mod a (2 ^ k) b
