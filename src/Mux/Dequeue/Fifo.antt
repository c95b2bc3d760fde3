-- ===== src/Mux/Dequeue/Fifo.antt =====
-- `bufDequeue` is a bounded first-in first-out queue: what `pushHead` and `popTail` do to the list
-- of elements that the ring holds.
use nat_punch.Base.{
  ℕ, suc, ◌+◌, ◌-◌, ◌*◌, ◌%◌, ◌^◌, ◌≤◌, ◌<◌, ◌≡◌, ◌≢◌, refl, ap, ◌∙◌, sym, arith, List, [], ◌∷◌,
  ◌++◌, none, some, length, get_or, get_elem?, set, length-set, length-append, length-replicate,
  get_or-replicate, get_or-set_self, get_or-set_ne, get_elem?_of_length-le, get_elem?-append_last,
  get_elem?-append_ne,
}
use nat_punch.Base.Bits.{bit_and-mask}
use nat_punch.Mux.Dequeue.{
  Dequeue, empty, got, fresh, unpack, advance, push_head, take_slot, pop_tail,
}
use nat_punch.Mux.Dequeue.Words.{
  pack_lem, unpack_lem, advance_lem, pow-le-limit, slot_lem, wrap_lem, wrap-add,
}
use nat_punch.Mux.Dequeue.Holds.{Holds}
use native.Mathlib.Nat.{
  mod-lt, mod-add-mod, mod-eq_of_lt, mod-eq-sub-mod, one-le-pow, add-mod_right,
}
use Prim.Native.Nat.{bit_and}
use native.Mathlib.Decide.{dec_lt, ℕ_discrete}

-- Going on by less than a round leads to another slot.
turn-ne : (n r k : ℕ) → r < n → 0 < k → k < n → (r + k) % n ≢ r
turn-ne n r k hr pos hk = elim (dec_lt (r + k) n) [
  | yes p ↦ omega (arith, mod-eq_of_lt p)
  | no p ↦ omega (
    arith,
    mod-eq-sub-mod {n = r + k} {m = n} (omega arith),
    mod-eq_of_lt {n = r + k - n} {m = n} (omega arith),
  )
]

later-ne : (n a k : ℕ) → 0 < k → k < n → (a + k) % n ≢ a % n
later-ne n a k pos hk =
    rw (← mod-add-mod a n k) (turn-ne n (a % n) k (mod-lt a (omega arith)) pos hk)

-- A whole round comes back.
whole-turn : (n t i : ℕ) → i + 1 ≡ n → (t + 1 + i) % n ≡ t % n
whole-turn n t i e = ap (λ k. k % n) (omega arith) ∙ add-mod_right t n

-- Two slots fewer than a round apart are different.
slot-ne : (n t i j : ℕ) → i < n → j < n → i ≢ j → (t + i) % n ≢ (t + j) % n
slot-ne n t i j hi hj ne = elim (dec_lt i j) [
  | yes p ↦ λ e.
      later-ne n (t + i) (j - i) (omega arith) (omega arith) (ap (λ k. k % n) (omega arith) ∙ sym e)
  | no p ↦ λ e.
      later-ne n (t + j) (i - j) (omega arith) (omega arith) (ap (λ k. k % n) (omega arith) ∙ e)
]

module _ {ℓ} {A : Type ℓ} where
  -- A ring just made is empty.
  unfoldable pub fresh-Holds : (k : ℕ) → k ≤ 30 → Holds {A = A} (fresh (2 ^ k)) []
  unfolding fresh
  fresh-Holds k h = record {
    bits = k;
    tail = 0;
    small = h;
    size = length-replicate (2 ^ k) none;
    tail_fits = omega arith;
    word = refl;
    fits = omega arith;
    slots = λ i p. get_or-replicate (2 ^ k) ((0 + i) % 2 ^ k) none;
  }

  module _ {d : Dequeue A} {xs : List A} (v : Holds d xs) where
    open v use {bits, tail}

    abbrev head : ℕ
    head = (tail + length xs) % 2 ^ 32

    unpack-Holds : unpack d.head_tail ≡ (head, tail)
    unpack-Holds = ap unpack v.word ∙ unpack_lem head tail (omega arith) v.tail_fits

    size-le : length d.vals ≤ 2 ^ 30
    size-le = omega (arith, v.size, pow-le-limit bits v.small)

    slot-Holds : (i : ℕ) → bit_and i ((length d.vals - 1) % 2 ^ 32) ≡ i % 2 ^ bits
    slot-Holds i = rw v.size (slot_lem bits i v.small)

    pushed : A → Dequeue A
    pushed x = record {
      head_tail = (head + 1) % 2 ^ 32 * 2 ^ 32 + tail;
      vals = set d.vals (head % 2 ^ bits) (some x);
    }

    push_head-eq : (x : A) → length xs < 2 ^ bits → push_head x d ≡ some (pushed x)
    unfolding push_head pushed
    push_head-eq x room =
        rw
          (
            unpack-Holds,
            slot-Holds head,
            bit_and-mask 32 ((tail + length d.vals % 2 ^ 32) % 2 ^ 32),
            pack_lem ((head + 1) % 2 ^ 32) tail (omega arith) v.tail_fits,
          )
          (ground (arith, size-le, v.size))

    pushed-slots :
        (x : A)
        → length xs < 2 ^ bits
        → (i : ℕ) → i < 2 ^ bits
        → get_or (pushed x).vals ((tail + i) % 2 ^ bits) none ≡ get_elem? (xs ++ x ∷ []) i
    unfolding pushed
    pushed-slots x room i h = elim (ℕ_discrete i (length xs)) [
      | yes e ↦
          rw (e, get_elem?-append_last xs x, wrap_lem bits (tail + length xs) v.small)
            (get_or-set_self d.vals ((tail + length xs) % 2 ^ bits) (some x) none
              (omega (arith, v.size, mod-lt (tail + length xs) {m = 2 ^ bits} (omega arith))))
      | no ne ↦
          rw (get_elem?-append_ne xs i x ne, wrap_lem bits (tail + length xs) v.small)
            (get_or-set_ne d.vals ((tail + length xs) % 2 ^ bits) ((tail + i) % 2 ^ bits) (some x)
                none (slot-ne (2 ^ bits) tail (length xs) i room h (λ e. ne (sym e)))
              ∙ v.slots i h)
    ]

    pushed-Holds : (x : A) → length xs < 2 ^ bits → Holds (pushed x) (xs ++ x ∷ [])
    unfolding pushed
    pushed-Holds x room = record {
      bits = bits;
      tail = tail;
      small = v.small;
      size = length-set d.vals (head % 2 ^ bits) (some x) ∙ v.size;
      tail_fits = v.tail_fits;
      word = rw (length-append xs (x ∷ [])) (omega arith);
      fits = omega (arith, length-append xs (x ∷ []));
      slots = pushed-slots x room;
    }

    -- With a free slot `pushHead` succeeds, and puts the value behind the others.
    pub push_head-Holds :
        (x : A)
        → length xs < 2 ^ bits
        → (d' : Dequeue A) × (push_head x d ≡ some d') × Holds d' (xs ++ x ∷ [])
    push_head-Holds x room = (pushed x, push_head-eq x room, pushed-Holds x room)

    -- A full ring refuses.
    pub push_head-full : (x : A) → length xs ≡ 2 ^ bits → push_head x d ≡ none
    unfolding push_head
    push_head-full x e =
        rw (unpack-Holds, bit_and-mask 32 ((tail + length d.vals % 2 ^ 32) % 2 ^ 32))
          (ground (arith, size-le, v.size))

  -- An empty ring has nothing to pop, and says so at once.
  pub pop_tail-empty : {d : Dequeue A} → Holds d [] → pop_tail d ≡ empty
  unfolding pop_tail
  pop_tail-empty {d} v = rw (unpack-Holds v) (ground (arith, v.tail_fits))

  module _ {d : Dequeue A} {x : A} {xs : List A} (v : Holds d (x ∷ xs)) where
    open v use {bits, tail}

    abbrev popped_head : ℕ
    popped_head = (tail + suc (length xs)) % 2 ^ 32

    popped : Dequeue A
    popped = record {
      head_tail = popped_head * 2 ^ 32 + (tail + 1) % 2 ^ 32;
      vals = set d.vals (tail % 2 ^ bits) none;
    }

    oldest : get_or d.vals (tail % 2 ^ bits) none ≡ some x
    oldest =
        ap (λ i. get_or d.vals (i % 2 ^ bits) none) (omega arith)
        ∙ v.slots 0 (omega (arith, v.fits))

    step_tail : advance d.head_tail tail ≡ popped_head * 2 ^ 32 + (tail + 1) % 2 ^ 32
    step_tail =
        ap (λ w. advance w tail) v.word ∙ advance_lem popped_head tail (omega arith) v.tail_fits

    pop_tail-eq : pop_tail d ≡ got x popped
    unfolding pop_tail popped take_slot
    pop_tail-eq =
        rw (unpack-Holds v, slot-Holds v tail, oldest, step_tail)
          (ground (arith, v.tail_fits, v.fits, pow-le-limit bits v.small))

    popped-slots :
        (i : ℕ)
        → i < 2 ^ bits
        → get_or popped.vals (((tail + 1) % 2 ^ 32 + i) % 2 ^ bits) none ≡ get_elem? xs i
    unfolding popped
    popped-slots i h = elim (ℕ_discrete (i + 1) (2 ^ bits)) [
      | yes e ↦
          rw (wrap-add bits (tail + 1) i v.small, whole-turn (2 ^ bits) tail i e)
            (get_or-set_self d.vals (tail % 2 ^ bits) none none
                (omega (arith, v.size, mod-lt tail {m = 2 ^ bits} (omega arith)))
              ∙ sym (get_elem?_of_length-le xs i (omega (arith, v.fits))))
      | no ne ↦ rw (wrap-add bits (tail + 1) i v.small) (
          get_or-set_ne d.vals (tail % 2 ^ bits) ((tail + 1 + i) % 2 ^ bits) none none (λ e.
            later-ne (2 ^ bits) tail (i + 1) (omega arith) (omega arith)
              (ap (λ k. k % 2 ^ bits) (omega arith) ∙ sym e))
          ∙ ap (λ k. get_or d.vals (k % 2 ^ bits) none) (omega arith)
          ∙ v.slots (suc i) (omega arith))
    ]

    popped-Holds : Holds popped xs
    unfolding popped
    popped-Holds = record {
      bits = bits;
      tail = (tail + 1) % 2 ^ 32;
      small = v.small;
      size = length-set d.vals (tail % 2 ^ bits) none ∙ v.size;
      tail_fits = omega arith;
      word = omega arith;
      fits = omega (arith, v.fits);
      slots = popped-slots;
    }

    -- A ring that holds an element never spins: it hands out the oldest and keeps the others.
    pub pop_tail-Holds : (d' : Dequeue A) × (pop_tail d ≡ got x d') × Holds d' xs
    pop_tail-Holds = (popped, pop_tail-eq, popped-Holds)

module _ {ℓ} {A : Type ℓ} where
  -- A ring just made has room for one value.
  pub push_head-fresh :
      (k : ℕ)
      → k ≤ 30
      → (x : A) → (d : Dequeue A) × (push_head x (fresh (2 ^ k)) ≡ some d) × Holds d (x ∷ [])
  unfolding fresh-Holds
  push_head-fresh k h x = push_head-Holds (fresh-Holds k h) x (one-le-pow k 2 (omega arith))
