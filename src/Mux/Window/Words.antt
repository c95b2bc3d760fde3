-- ===== src/Mux/Window/Words.antt =====
-- The packed word of a window as arithmetic.
use nat_punch.Base.{ℕ, ◌+◌, ◌*◌, ◌/◌, ◌%◌, ◌^◌, ◌<◌, ◌≡◌, ap, ◌∙◌, arith, Bool, true, false}
use nat_punch.Base.Bits.{bit_or-fields, bit_and-mask}
use nat_punch.Mux.Window.{pack, unpack, wait_word}
use Prim.Native.Nat.{bit_or}

pub pack_lem :
    (m d : ℕ) (w : Bool) → pack m d w ≡ wait_word w * 2 ^ 63 + m % 2 ^ 31 * 2 ^ 32 + d % 2 ^ 31
unfolding pack
pack_lem m d w =
    rw (bit_and-mask 31 m, bit_and-mask 31 d)
      (ap (λ t. bit_or t (d % 2 ^ 31))
          (bit_or-fields 63 (wait_word w) (m % 2 ^ 31 * 2 ^ 32) (omega arith) ∙ regroup)
        ∙ bit_or-fields 32 (wait_word w * 2 ^ 31 + m % 2 ^ 31) (d % 2 ^ 31) (omega arith)
        ∙ omega arith)
  where
    regroup :
        wait_word w * 2 ^ 63 + m % 2 ^ 31 * 2 ^ 32 ≡ (wait_word w * 2 ^ 31 + m % 2 ^ 31) * 2 ^ 32
    regroup = omega arith

module _ (m d : ℕ) where
  abbrev word : Bool → ℕ
  word w = wait_word w * 2 ^ 63 + m % 2 ^ 31 * 2 ^ 32 + d % 2 ^ 31

  unpack-word : (w : Bool) → unpack (word w) ≡ (m % 2 ^ 31, d % 2 ^ 31, w)
  unfolding unpack
  unpack-word true = ground (
    arith,
    bit_and-mask 31 (word true / 2 ^ 32),
    bit_and-mask 31 (word true),
    bit_and-mask 1 (word true / 2 ^ 63),
  )
  unpack-word false = ground (
    arith,
    bit_and-mask 31 (word false / 2 ^ 32),
    bit_and-mask 31 (word false),
    bit_and-mask 1 (word false / 2 ^ 63),
  )

  -- Unpacking gives back the flag and the two numbers, these cut to 31 bits.
  pub unpack-pack_window : (w : Bool) → unpack (pack m d w) ≡ (m % 2 ^ 31, d % 2 ^ 31, w)
  unpack-pack_window w = ap unpack (pack_lem m d w) ∙ unpack-word w

-- Numbers that fit 31 bits come back as they were.
pub unpack-pack_exact :
    (m d : ℕ) (w : Bool) → m < 2 ^ 31 → d < 2 ^ 31 → unpack (pack m d w) ≡ (m, d, w)
unpack-pack_exact m d w hm hd = unpack-pack_window m d w ∙ ground arith

-- Whatever the word, its two numbers fit 31 bits.
pub unpack-fits : (word : ℕ) → ((unpack word).0 < 2 ^ 31) × ((unpack word).1 < 2 ^ 31)
unfolding unpack
unpack-fits word = omega (arith, bit_and-mask 31 (word / 2 ^ 32), bit_and-mask 31 word)
