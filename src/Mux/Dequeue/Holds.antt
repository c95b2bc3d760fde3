-- ===== src/Mux/Dequeue/Holds.antt =====
-- The representation invariant of `bufDequeue`: a list of the elements that the ring holds.
use nat_punch.Base.{ℕ, ◌+◌, ◌*◌, ◌%◌, ◌^◌, ◌≤◌, ◌<◌, ◌≡◌, List, none, length, get_or, get_elem?}
use nat_punch.Mux.Dequeue.{Dequeue}

-- `tail` is the index of the oldest element of `xs`, and the slots from it on hold `xs`; all others
-- are nil. The ring has 2 ^ bits slots, at most `dequeueLimit`.
pub record Holds {ℓ} {A : Type ℓ} (d : Dequeue A) (xs : List A) : Type ℓ where
  pub bits : ℕ
  pub tail : ℕ
  pub small : bits ≤ 30
  pub size : length d.vals ≡ 2 ^ bits
  pub tail_fits : tail < 2 ^ 32
  pub word : d.head_tail ≡ (tail + length xs) % 2 ^ 32 * 2 ^ 32 + tail
  pub fits : length xs ≤ 2 ^ bits
  pub slots : (i : ℕ) → i < 2 ^ bits → get_or d.vals ((tail + i) % 2 ^ bits) none ≡ get_elem? xs i
