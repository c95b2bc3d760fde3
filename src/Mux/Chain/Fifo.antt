-- ===== src/Mux/Chain/Fifo.antt =====
-- `bufChain` is an unbounded first-in first-out queue.
use nat_punch.Base.{
  ℕ, suc, ◌^◌, ◌≤◌, ◌≡◌, refl, arith, List, [], ◌∷◌, ◌++◌, Option, none, some, length, append_assoc,
  append-nil,
}
use nat_punch.Mux.Dequeue.{Dequeue}
use nat_punch.Mux.Dequeue.Holds.{Holds}
use nat_punch.Mux.Dequeue.Fifo.{
  fresh-Holds, push_head-Holds, push_head-full, pop_tail-empty, pop_tail-Holds, push_head-fresh,
}
use nat_punch.Mux.Chain.{Chain, done, new_size, new, grow, pushed, push_head, pop_from, pop_tail}
use native.Mathlib.Decide.{dec_lt}
use native.Mathlib.Nat.{pow-suc, pow-le-pow_right}

module _ {ℓ} {A : Type ℓ} where
  -- What a pop hands out of a list, and what it leaves.
  abbrev pub first : List A → Option A
  first [] = none
  first (x ∷ xs) = some x

  abbrev pub rest : List A → List A
  rest [] = []
  rest (x ∷ xs) = xs

  -- The rings hold `zs` between them, the oldest element in the first ring.
  abbrev pub Segments : List (Dequeue A) → List A → Type ℓ
  Segments [] zs = zs ≡ []
  Segments (d ∷ ds) zs = (xs ys : List A) × Holds d xs × Segments ds ys × (zs ≡ xs ++ ys)

  -- The chain holds `zs`: the elements of the older rings, then those of the newest.
  abbrev pub ChainHolds : Chain A → List A → Type ℓ
  ChainHolds c zs = (xs ys : List A) × Segments c.older xs × Holds c.head ys × (zs ≡ xs ++ ys)

  Segments-snoc :
      (ds : List (Dequeue A)) (d : Dequeue A) (xs ys : List A)
      → Segments ds xs
      → Holds d ys
      → Segments (ds ++ d ∷ []) (xs ++ ys)
  Segments-snoc [] d xs ys s h = (ys, [], h, refl, rw (s, append-nil))
  Segments-snoc (e ∷ ds) d xs ys (us, vs, k, s, q) h =
      (us, vs ++ ys, k, Segments-snoc ds d vs ys s h, rw (q, append_assoc))

new_size-pow : (k : ℕ) → k ≤ 30 → (j : ℕ) × (j ≤ 30) × (new_size (2 ^ k) ≡ 2 ^ j)
unfolding new_size
new_size-pow k h = elim (dec_lt k 29) [
  | yes p ↦ (
    suc k,
    omega arith,
    ground (
      arith,
      pow-suc 2 k,
      pow-suc 2 (suc k),
      pow-le-pow_right {n = 2} (omega arith) {i = suc k} {j = 29} p,
    ),
  )
  | no p ↦ (
    30,
    omega arith,
    ground (arith, pow-le-pow_right {n = 2} (omega arith) {i = 29} {j = k} (omega arith)),
  )
]

module _ {ℓ} {A : Type ℓ} where
  -- A chain just made is empty.
  pub new-ChainHolds : (k : ℕ) → k ≤ 30 → ChainHolds {A = A} (new (2 ^ k)) []
  unfolding new
  new-ChainHolds k h = ([], [], refl, fresh-Holds k h, refl)

  grow-ChainHolds :
      (x : A) (c : Chain A) {zs : List A} → ChainHolds c zs → ChainHolds (grow x c) (zs ++ x ∷ [])
  unfolding grow
  grow-ChainHolds x c {zs} (xs, ys, s, h, q) =
      let (j, small, e) = new_size-pow h.bits h.small in
      let (d, pushed, k) = push_head-fresh {A = A} j small x in
      rw (h.size, e, pushed, q) (xs ++ ys, x ∷ [], Segments-snoc c.older c.head xs ys s h, k, refl)

  -- `pushHead` always succeeds, and adds the value at the end.
  pub push_head-ChainHolds :
      (x : A) (c : Chain A) {zs : List A}
      → ChainHolds c zs
      → ChainHolds (push_head x c) (zs ++ x ∷ [])
  unfolding push_head
  push_head-ChainHolds x c {zs} (xs, ys, s, h, q) = elim (dec_lt (length ys) (2 ^ h.bits)) [
    | yes room ↦
        let (d, e, k) = push_head-Holds h x room in
        rw e (xs, ys ++ x ∷ [], s, k, rw (q, append_assoc))
    | no full ↦
        rw (push_head-full h x (omega (arith, h.fits))) (grow-ChainHolds x c (xs, ys, s, h, q))
  ]

  pop_from-ChainHolds :
      (ds : List (Dequeue A)) (head : Dequeue A) (zs : List A)
      → ChainHolds (record { older = ds; head = head }) zs
      → (c : Chain A) × (pop_from ds head ≡ done (first zs) c) × ChainHolds c (rest zs)
  unfolding pop_from
  pop_from-ChainHolds [] head zs (xs, [], s, h, q) =
      rw (q, s, pop_tail-empty h)
        (record { older = []; head = head }, refl, ([], [], refl, h, refl))
  pop_from-ChainHolds [] head zs (xs, y ∷ ys, s, h, q) =
      let (head', e, h') = pop_tail-Holds h in
      rw (q, s, e) (record { older = []; head = head' }, refl, ([], ys, refl, h', refl))
  pop_from-ChainHolds (d ∷ ds) head zs (xs, ys, ([], vs, k, s, r), h, q) =
      rw (pop_tail-empty k) (pop_from-ChainHolds ds head zs (vs, ys, s, h, rw (q, r)))
  pop_from-ChainHolds (d ∷ ds) head zs (xs, ys, (u ∷ us, vs, k, s, r), h, q) =
      let (d', e, k') = pop_tail-Holds k in
      rw (q, r, e)
        (
          record { older = d' ∷ ds; head = head },
          refl,
          (us ++ vs, ys, (us, vs, k', s, refl), h, refl),
        )

  -- `popTail` never waits; it hands out the oldest value, or nothing if there is none.
  pub pop_tail-ChainHolds :
      (c : Chain A) {zs : List A}
      → ChainHolds c zs
      → (c' : Chain A) × (pop_tail c ≡ done (first zs) c') × ChainHolds c' (rest zs)
  unfolding pop_tail
  pop_tail-ChainHolds c {zs} h = pop_from-ChainHolds c.older c.head zs h
