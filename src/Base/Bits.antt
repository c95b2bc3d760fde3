-- ===== src/Base/Bits.antt =====
-- `|` of disjoint bit fields and `&` with a mask of low ones, as arithmetic.
use Prim.Native.Nat.{
  ℕ, zero, suc, ◌+◌, ◌-◌, ◌*◌, ◌/◌, ◌%◌, ◌^◌, ◌≤◌, ◌<◌, min, max, digits, bit_and, bit_or,
  bit_and-bitwise, bit_or-bitwise,
}
use mathlib.Core.Path.{◌≡◌, refl, ap, sym, ◌∙◌}
use native.Mathlib.Nat.{pow-suc, one-le-pow}
use native.Mathlib.Omega.{arith}

-- Both operations go digit by digit on fuel; any fuel that is at least the first number is enough.
module _ (keep : ℕ → ℕ) (join : ℕ → ℕ → ℕ) where
  -- Without digits left the fuel does not matter.
  digits-none : (fuel b : ℕ) → digits keep join fuel 0 b ≡ digits keep join 0 0 b
  digits-none zero b = refl
  digits-none (suc fuel) b = refl

  digits_fuel : (a n m b : ℕ) → a ≤ n → a ≤ m → digits keep join n a b ≡ digits keep join m a b
  digits_fuel zero n m b p q = digits-none n b ∙ sym (digits-none m b)
  digits_fuel (suc a) zero m b p q = absurd (omega arith)
  digits_fuel (suc a) (suc n) zero b p q = absurd (omega arith)
  digits_fuel (suc a) (suc n) (suc m) b p q =
      omega (arith, digits_fuel (suc a / 2) n m (b / 2) (omega arith) (omega arith))

nothing-bit_and : (b : ℕ) → bit_and 0 b ≡ 0
nothing-bit_and b = bit_and-bitwise 0 b

nothing-bit_or : (b : ℕ) → bit_or 0 b ≡ b
nothing-bit_or b = bit_or-bitwise 0 b

bit_and_halves : (a b : ℕ) → bit_and a b ≡ bit_and (a / 2) (b / 2) * 2 + min (a % 2) (b % 2)
bit_and_halves zero b = omega (arith, nothing-bit_and b, nothing-bit_and (b / 2))
bit_and_halves (suc a) b = omega (
  arith,
  bit_and-bitwise (suc a) b,
  bit_and-bitwise (suc a / 2) (b / 2),
  digits_fuel (λ b. zero) min (suc a / 2) a (suc a / 2) (b / 2) (omega arith) (omega arith),
)

bit_or_halves : (a b : ℕ) → bit_or a b ≡ bit_or (a / 2) (b / 2) * 2 + max (a % 2) (b % 2)
bit_or_halves zero b = omega (arith, nothing-bit_or b, nothing-bit_or (b / 2))
bit_or_halves (suc a) b = omega (
  arith,
  bit_or-bitwise (suc a) b,
  bit_or-bitwise (suc a / 2) (b / 2),
  digits_fuel (λ b. b) max (suc a / 2) a (suc a / 2) (b / 2) (omega arith) (omega arith),
)

bit_and-nothing : (n a : ℕ) → a ≤ n → bit_and a 0 ≡ 0
bit_and-nothing n zero h = refl
bit_and-nothing zero (suc a) h = absurd (omega arith)
bit_and-nothing (suc n) (suc a) h =
    omega (arith, bit_and_halves (suc a) 0, bit_and-nothing n (suc a / 2) (omega arith))

bit_or-nothing : (n a : ℕ) → a ≤ n → bit_or a 0 ≡ a
bit_or-nothing n zero h = refl
bit_or-nothing zero (suc a) h = absurd (omega arith)
bit_or-nothing (suc n) (suc a) h =
    omega (arith, bit_or_halves (suc a) 0, bit_or-nothing n (suc a / 2) (omega arith))

-- With `low` below 2 ^ k, `(high << k) | low` is a sum.
pub bit_or-fields : (k high low : ℕ) → low < 2 ^ k → bit_or (high * 2 ^ k) low ≡ high * 2 ^ k + low
bit_or-fields zero high low h = ground (arith, bit_or-nothing (high * 2 ^ zero) (high * 2 ^ zero))
bit_or-fields (suc k) high low h = ground (
  arith,
  bit_or_halves (high * 2 ^ suc k) low,
  ap (λ (t : ℕ). high * t) (pow-suc 2 k),
  bit_or-fields k high (low / 2) (omega arith),
)

bit_and-fields : (k high low : ℕ) → low < 2 ^ k → bit_and (high * 2 ^ k + low) (2 ^ k - 1) ≡ low
bit_and-fields zero high low h =
    ground (arith, bit_and-nothing (high * 2 ^ zero + low) (high * 2 ^ zero + low))
bit_and-fields (suc k) high low h = ground (
  arith,
  bit_and_halves (high * 2 ^ suc k + low) (2 ^ suc k - 1),
  ap (λ (t : ℕ). high * t) (pow-suc 2 k),
  pow-suc 2 k,
  bit_and-fields k high (low / 2) (omega arith),
)

-- A mask of `k` ones is the remainder by 2 ^ k.
pub bit_and-mask : (k a : ℕ) → bit_and a (2 ^ k - 1) ≡ a % 2 ^ k
bit_and-mask k a = ground (arith, one-le-pow k 2, bit_and-fields k (a / 2 ^ k) (a % 2 ^ k))
