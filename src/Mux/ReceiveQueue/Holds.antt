-- ===== src/Mux/ReceiveQueue/Holds.antt =====
-- What a receive queue holds, and how its operations change it.
use nat_punch.Base.{
  ℕ, ◌+◌, ◌-◌, ◌*◌, ◌%◌, ◌^◌, ◌<◌, ◌≡◌, ◌≢◌, refl, ap, ◌∙◌, arith, Bool, true, false, List, [], ◌∷◌,
  ◌++◌, none, some, ◌==◌, ◌⊎◌, inl, inr, ℕ_discrete,
}
use nat_punch.Mux.Dequeue.{pack, unpack}
use nat_punch.Mux.Dequeue.Words.{pack_lem, unpack_lem}
use nat_punch.Mux.Chain.Fifo.{ChainHolds, new-ChainHolds, push_head-ChainHolds, pop_tail-ChainHolds}
use nat_punch.Mux.ReceiveQueue.{
  Element, ReceiveQueue, new, push, took, taken, try_pop, parks, tries, pop, len,
}

-- The bytes of the elements.
abbrev pub total : List Element → ℕ
total [] = 0
total (e ∷ es) = e.l + total es

total-append : (es : List Element) (e : Element) → total (es ++ e ∷ []) ≡ total es + e.l
total-append [] e = omega arith
total-append (x ∷ es) e = omega (arith, total-append es e)

abbrev pub wait_word : Bool → ℕ
wait_word true = 1
wait_word false = 0

-- The queue holds `es`, and its word has their bytes and the wait flag.
abbrev pub QueueHolds : ReceiveQueue → List Element → Bool → Type 0
QueueHolds q es waits =
    ChainHolds q.chain es
    × (total es < 2 ^ 32)
    × (q.length_wait ≡ total es * 2 ^ 32 + wait_word waits)

unpack-held :
    (n : ℕ) (waits : Bool)
    → n < 2 ^ 32
    → unpack (n * 2 ^ 32 + wait_word waits) ≡ (n, wait_word waits)
unpack-held n true h = unpack_lem n 1 h (omega arith)
unpack-held n false h = unpack_lem n 0 h (omega arith)

wait-eq : (waits : Bool) → (wait_word waits == 1) ≡ waits
wait-eq true = refl
wait-eq false = refl

pub new-QueueHolds : QueueHolds new [] false
unfolding new
new-QueueHolds = (new-ChainHolds 6 (omega arith), omega arith, refl)

pub len-QueueHolds :
    (q : ReceiveQueue) (es : List Element) (waits : Bool) → QueueHolds q es waits → len q ≡ total es
unfolding len
len-QueueHolds q es waits (h, small, e) =
    ap (λ w. (unpack w).0) e ∙ ap (λ (p : ℕ × ℕ). p.0) (unpack-held (total es) waits small)

-- While the queue holds fewer than 2^32 bytes, `Push` puts the element behind the others, counts its
-- bytes, clears the wait flag, and wakes the reader exactly when the flag was set.
pub push-QueueHolds :
    (element : Element) (q : ReceiveQueue) (es : List Element) (waits : Bool)
    → QueueHolds q es waits
    → total es + element.l < 2 ^ 32
    → QueueHolds (push element q).0 (es ++ element ∷ []) false × ((push element q).1 ≡ waits)
unfolding push
push-QueueHolds element q es waits (h, small, e) room =
    let read = ap unpack e ∙ unpack-held (total es) waits small in
    (
      (
        push_head-ChainHolds element q.chain h,
        omega (arith, total-append es element),
        rw read (
            pack_lem ((total es + element.l) % 2 ^ 32) 0 (omega arith) (omega arith)
            ∙ omega (arith, total-append es element)),
      ),
      ap (λ (p : ℕ × ℕ). p.1 == 1) read ∙ wait-eq waits,
    )

-- `TryPop` takes the oldest element off, if there is one, with its bytes, and keeps the wait flag.
pub try_pop-QueueHolds :
    (q : ReceiveQueue) (e : Element) (es : List Element) (waits : Bool)
    → QueueHolds q (e ∷ es) waits
    → (q' : ReceiveQueue) × (try_pop q ≡ took (some e) q') × QueueHolds q' es waits
unfolding try_pop
try_pop-QueueHolds q e es waits (h, small, word) =
    let (c, popped, k) = pop_tail-ChainHolds q.chain h in
    (
      record { length_wait = (q.length_wait + (2 ^ 64 - e.l * 2 ^ 32)) % 2 ^ 64; chain = c },
      ap (taken q) popped,
      (k, omega arith, less waits word),
    )
  where
    less :
        (waits : Bool)
        → q.length_wait ≡ (e.l + total es) * 2 ^ 32 + wait_word waits
        → (q.length_wait + (2 ^ 64 - e.l * 2 ^ 32)) % 2 ^ 64 ≡ total es * 2 ^ 32 + wait_word waits
    less true h = omega arith
    less false h = omega arith

pub try_pop-none :
    (q : ReceiveQueue) (waits : Bool)
    → QueueHolds q [] waits
    → (q' : ReceiveQueue) × (try_pop q ≡ took none q') × QueueHolds q' [] waits
unfolding try_pop
try_pop-none q waits (h, small, word) =
    let (c, popped, k) = pop_tail-ChainHolds q.chain h in
    (record q { chain = c }, ap (taken q) popped, (k, small, word))

parked-QueueHolds :
    (q : ReceiveQueue) (es : List Element) (waits : Bool)
    → QueueHolds q es waits
    → total es ≡ 0
    → (q' : ReceiveQueue) × (pop q ≡ parks q') × QueueHolds q' es true
unfolding pop len
parked-QueueHolds q es waits (h, small, word) e =
    let none_held : (unpack q.length_wait).0 ≡ 0 = len-QueueHolds q es waits (h, small, word) ∙ e in
    (
      record q { length_wait = pack 0 1 },
      rw none_held refl,
      (h, small, pack_lem 0 1 (omega arith) (omega arith) ∙ omega (arith, e)),
    )

popped-QueueHolds :
    (q : ReceiveQueue) (es : List Element) (waits : Bool)
    → QueueHolds q es waits
    → total es ≢ 0
    → (e : Element) × (rest : List Element) × (es ≡ e ∷ rest)
      × ((q' : ReceiveQueue) × (pop q ≡ tries (took (some e) q')) × QueueHolds q' rest waits)
unfolding pop len
popped-QueueHolds q [] waits h n = absurd (omega arith)
popped-QueueHolds q (e ∷ es) waits h n =
    let (q', taken, k) = try_pop-QueueHolds q e es waits h in
    let held : (unpack q.length_wait).0 ≡ total (e ∷ es) = len-QueueHolds q (e ∷ es) waits h in
    let some_held : ((unpack q.length_wait).0 == 0) ≡ false = ground (arith, held, n) in
    (e, es, refl, (q', rw (some_held, taken) refl, k))

-- `Pop` parks, with the wait flag set, when no bytes are held, and takes the oldest element
-- otherwise.
pub pop-QueueHolds :
    (q : ReceiveQueue) (es : List Element) (waits : Bool)
    → QueueHolds q es waits
    → ((total es ≡ 0) × ((q' : ReceiveQueue) × (pop q ≡ parks q') × QueueHolds q' es true))
      ⊎ ((e : Element) × (rest : List Element) × (es ≡ e ∷ rest)
          × ((q' : ReceiveQueue) × (pop q ≡ tries (took (some e) q')) × QueueHolds q' rest waits))
pop-QueueHolds q es waits h = elim (ℕ_discrete (total es) 0) [
  | yes e ↦ inl (e, parked-QueueHolds q es waits h e)
  | no n ↦ inr (popped-QueueHolds q es waits h n)
]
