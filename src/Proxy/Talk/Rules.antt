-- ===== src/Proxy/Talk/Rules.antt =====
-- How a conversation ends: a rule for each of its steps.
use mathlib.Core.Path.{ap₂}
use nat_punch.Base.{
  ℕ, zero, suc, ◌≡◌, refl, sym, ◌∙◌, arith, Bool, true, false, List, ◌++◌, length, leb,
  if◌then◌else◌, length-take, take-append-drop, dec_le, take-length_append, drop-length_append,
  length-append,
}
use nat_punch.Proxy.Talk.{Wire, Step, next, stop, Talk, and_then, put, read, write_with, write}

-- A handler that returns early has closed the connection; otherwise `P` holds of where it got.
abbrev pub After {ℓ} : {A : Type ℓ} → (A → Wire → Type 0) → Step A → Type 0
After P (stop w) = w.closed ≡ true
After P (next a w) = P a w

pub and_then-After {ℓ κ} :
    {A : Type ℓ} {B : Type κ} (P : A → Wire → Type 0) (Q : B → Wire → Type 0) (s : Step A)
    (f : A → Talk B)
    → After P s
    → ((a : A) → (w : Wire) → P a w → After Q (f a w))
    → After Q (and_then s f)
and_then-After P Q (stop w) f h k = h
and_then-After P Q (next a w) f h k = k a w h

-- What is read stood in front of what is left.
abbrev pub Took : ℕ → Wire → List ℕ → Wire → Type 0
Took n w b w' = (w.input ≡ b ++ w'.input) × (length b ≡ n)

pub read-After : (say : Wire → Wire) (n : ℕ) (w : Wire) → After (Took n w) (read say n w)
unfolding read
read-After say n w = elim (dec_le n (length w.input)) [
  | yes l ↦
      let test : leb n (length w.input) ≡ true = ground (arith, l) in
      rw test (sym (take-append-drop n w.input), length-take n w.input ∙ omega (arith, l))
  | no l ↦ let test : leb n (length w.input) ≡ false = ground (arith, l) in rw test refl
]

write_with-After :
    (n : ℕ) (out : List ℕ) (w : Wire) → After (λ u w'. w'.input ≡ w.input) (write_with n out w)
unfolding put
write_with-After zero out w = refl
write_with-After (suc n) out w = refl

pub write-After : (out : List ℕ) (w : Wire) → After (λ u w'. w'.input ≡ w.input) (write out w)
unfolding write
write-After out w = write_with-After w.writes out w

-- A connection, not closed, with so much to read and so many writes to come.
abbrev pub wire : List ℕ → List (List ℕ) → ℕ → Wire
wire input sent writes = record { input = input; sent = sent; writes = writes; closed = false }

-- A read of what stands in front.
pub read-front :
    (say : Wire → Wire) (n : ℕ) (b rest : List ℕ) (sent : List (List ℕ)) (writes : ℕ)
    → length b ≡ n
    → read say n (wire (b ++ rest) sent writes) ≡ next b (wire rest sent writes)
unfolding read
read-front say n b rest sent writes e =
    let enough : leb n (length (b ++ rest)) ≡ true = ground (arith, length-append b rest, e) in
    rw (enough, sym e)
      (ap₂ (λ x y. next x (wire y sent writes)) (take-length_append b rest)
        (drop-length_append b rest))

pub if-After {ℓ} :
    {A : Type ℓ} (P : A → Wire → Type 0) (b : Bool) (m k : Talk A) (w : Wire)
    → (b ≡ true → After P (m w))
    → (b ≡ false → After P (k w))
    → After P ((if b then m else k) w)
if-After P true m k w p q = p refl
if-After P false m k w p q = q refl

pub and_then_assoc {ℓ κ μ} :
    {A : Type ℓ} {B : Type κ} {C : Type μ} (s : Step A) (f : A → Talk B) (g : B → Talk C)
    → and_then s (λ a w. and_then (f a w) g) ≡ and_then (and_then s f) g
and_then_assoc (stop w) f g = refl
and_then_assoc (next a w) f g = refl
