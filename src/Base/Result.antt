-- ===== src/Base/Result.antt =====
-- Results that may fail with an error of the component's own, and their do blocks.
use mathlib.Core.Bool.{Bool, true, false}

pub data Result {ℓ κ} (E : Type ℓ) (A : Type κ) : Type (ℓ ⊔ κ) where
  err : E → Result E A
  ok : A → Result E A

-- Go's `if test { return err }`.
abbrev pub refuse {ℓ} : {E : Type ℓ} → (test : Bool) → E → Result E (Unit {0})
refuse false error = ok tt
refuse true error = err error

infixl 5 ◌>>◌ ◌>>=◌
abbrev pub ◌>>◌ {ℓ κ} : {E : Type ℓ} {B : Type κ} → Result E (Unit {0}) → Result E B → Result E B
err error >> rest = err error
ok tt >> rest = rest

abbrev pub ◌>>=◌ {ℓ κ μ} :
    {E : Type ℓ} {A : Type κ} {B : Type μ} → Result E A → (A → Result E B) → Result E B
err error >>= rest = err error
ok a >>= rest = rest a
