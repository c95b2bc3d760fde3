-- ===== src/Mux/Bucket.antt =====
-- The token bucket of lib/natpunch_mux/rate.go: a ticker adds tokens, a sender takes them.
use nat_punch.Base.{
  ℕ, zero, suc, ◌+◌, ◌-◌, ◌*◌, min, ◌<◌, ◌≤◌, ◌≡◌, refl, ap, ◌∙◌, ◌⊎◌, inl, inr, dec_lt, arith,
  true, false, Option, none, some, ltb, leb, if◌then◌else◌,
}

pub record Rate : Type 0 where
  pub bucket_size : ℕ
  pub bucket_surplus_size : ℕ
  pub bucket_add_size : ℕ

-- A surplus that is above the size, which does not come up, would be brought down by the difference.
unfoldable pub add : ℕ → Rate → Rate
add size s =
    if ltb s.bucket_size (s.bucket_surplus_size + s.bucket_add_size)
    then record s { bucket_surplus_size = s.bucket_size }
    else record s { bucket_surplus_size = s.bucket_surplus_size + size }

-- `none` is another round of waiting for the ticker.
unfoldable pub get : ℕ → Rate → Option Rate
get size s =
    if leb size s.bucket_surplus_size
    then some (record s { bucket_surplus_size = s.bucket_surplus_size - size })
    else none

unfoldable pub new : ℕ → Rate
new add_size = record {
  bucket_size = add_size * 2;
  bucket_surplus_size = 0;
  bucket_add_size = add_size;
}

-- The loop of `session` on `n` ticks.
unfoldable pub session : ℕ → Rate → Rate
session zero s = s
session (suc n) s = session n (add s.bucket_add_size s)

-- A bucket that adds `a` tokens for each tick and holds `k`.
abbrev pub bucket : ℕ → ℕ → Rate
bucket a k = record { bucket_size = a * 2; bucket_surplus_size = k; bucket_add_size = a }

add-bucket : (a k : ℕ) → k ≤ a * 2 → add a (bucket a k) ≡ bucket a (min (k + a) (a * 2))
unfolding add
add-bucket a k h = elim (dec_lt (a * 2) (k + a)) [
  | yes l ↦
      let test : ltb (a * 2) (k + a) ≡ true = ground (arith, l) in
      let full : a * 2 ≡ min (k + a) (a * 2) = omega arith in rw test (ap (bucket a) full)
  | no l ↦
      let test : ltb (a * 2) (k + a) ≡ false = ground (arith, l) in
      let more : k + a ≡ min (k + a) (a * 2) = omega arith in rw test (ap (bucket a) more)
]

session-bucket :
    (n a k : ℕ)
    → k ≤ a * 2
    → (j : ℕ) × (session n (bucket a k) ≡ bucket a j) × (min (k + n * a) (a * 2) ≤ j) × (j ≤ a * 2)
unfolding session
session-bucket zero a k h = (k, refl, omega arith, h)
session-bucket (suc n) a k h =
    let (j, e, l, u) = session-bucket n a (min (k + a) (a * 2)) (omega arith) in
    (j, ap (session n) (add-bucket a k h) ∙ e, omega arith, u)

get-enough : (size a j : ℕ) → size ≤ j → get size (bucket a j) ≡ some (bucket a (j - size))
unfolding get
get-enough size a j h = let test : leb size j ≡ true = ground (arith, h) in rw test refl

get-short : (size a j : ℕ) → j < size → get size (bucket a j) ≡ none
unfolding get
get-short size a j h = let test : leb size j ≡ false = ground (arith, h) in rw test refl

-- From a new bucket, a sender of no more than two ticks' tokens gets them after any two or more
-- ticks, and the bucket keeps the rest; a sender of more never gets them.
pub get-session :
    (size a n : ℕ)
    → ((j : ℕ) × (size ≤ a * 2)
        × (get size (session (n + 2) (new a)) ≡ some (bucket a j))
        × (j + size ≤ a * 2))
      ⊎ ((a * 2 < size) × (get size (session n (new a)) ≡ none))
unfolding new
get-session size a n = elim (dec_lt (a * 2) size) [
  | yes l ↦
      let (j, e, _, u) = session-bucket n a 0 (omega arith) in
      inr (l, ap (get size) e ∙ get-short size a j (omega arith))
  | no l ↦
      let (j, e, low, u) = session-bucket (n + 2) a 0 (omega arith) in
      let enough : a * 2 ≤ 0 + (n + 2) * a = grind arith in
      inl (j - size, omega arith, ap (get size) e ∙ get-enough size a j (omega arith), omega arith)
]
