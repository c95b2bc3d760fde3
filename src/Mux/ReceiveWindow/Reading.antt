-- ===== src/Mux/ReceiveWindow/Reading.antt =====
-- `readFromQueue` hands out the bytes in the order they came in.
use nat_punch.Base.{
  ℕ, zero, suc, ◌+◌, ◌%◌, ◌^◌, ◌<◌, ◌≤◌, ◌≡◌, refl, sym, ap, ◌∙◌, subst, arith, Bool, true, false,
  ◌&&◌, none, List, [], ◌∷◌, ◌++◌, append_assoc, length, take, drop, ltb, ◌==◌, if◌then◌else◌,
  ℕ_discrete, inl, inr, length-drop, length-take, drop-add, take_of_length-le, drop_of_length-le,
}
use nat_punch.Mux.ReceiveQueue.{Element, ReceiveQueue, try_pop, pop}
use nat_punch.Mux.ReceiveQueue.Holds.{
  total, QueueHolds, try_pop-none, try_pop-QueueHolds, pop-QueueHolds,
}
use nat_punch.Mux.ReceiveWindow.{
  ReceiveWindow, send_status, Pass, eof, waits, retries, copied, finished, copy_out, last_element,
  popped, read_pass,
}

-- A length is that of the bytes, of 16 bits.
abbrev pub Whole : Element → Type 0
Whole e = (length e.buf ≡ e.l) × (e.l < 2 ^ 16)

abbrev pub AllWhole : List Element → Type 0
AllWhole [] = Unit
AllWhole (e ∷ es) = Whole e × AllWhole es

abbrev pub bytes : List Element → List ℕ
bytes [] = []
bytes (e ∷ es) = e.buf ++ bytes es

-- The bytes that the reader has still to get.
abbrev pub pending : ReceiveWindow → List Element → List ℕ
pending w es = drop w.off w.element.buf ++ bytes es

abbrev pub WindowHolds : ReceiveWindow → List Element → Bool → Type 0
WindowHolds w es parked =
    QueueHolds w.buf_queue es parked × AllWhole es × Whole w.element × (w.off ≤ w.element.l)

-- What a pass may do when `left` are the bytes to read: the end comes, or the reader parks, only
-- when there are none; a copy hands out the next ones, no more than fit.
abbrev pub Reads : ℕ → List ℕ → Pass → Type 0
Reads room left eof = left ≡ []
Reads room left (waits w) = (left ≡ []) × ((es : List Element) × WindowHolds w es true)
Reads room left retries = ⊥
Reads room left (copied chunk ack again w) =
    (es : List Element) × (parked : Bool) × WindowHolds w es parked
    × (chunk ++ pending w es ≡ left)
    × (length chunk ≤ room)

take-rejoin : (n : ℕ) (xs : List ℕ) → take n xs ++ drop (length (take n xs)) xs ≡ xs
take-rejoin zero xs = refl
take-rejoin (suc n) [] = refl
take-rejoin (suc n) (x ∷ xs) = ap (◌∷◌ x) (take-rejoin n xs)

module _ (room : ℕ) (w : ReceiveWindow) (es : List Element) (parked : Bool) where
  abbrev chunk : List ℕ
  chunk = take room (drop w.off (take w.element.l w.element.buf))

  abbrev moved : ReceiveWindow
  moved = record w { off = (w.off + length chunk) % 2 ^ 32 }

  chunk-eq : WindowHolds w es parked → chunk ≡ take room (drop w.off w.element.buf)
  chunk-eq (_, _, (e, _), _) =
      ap (λ xs. take room (drop w.off xs))
        (take_of_length-le w.element.l w.element.buf (omega arith))

  chunk-le : WindowHolds w es parked → (length chunk ≤ room) × (w.off + length chunk ≤ w.element.l)
  chunk-le (_, _, (e, _), o) = omega (
    arith,
    length-take room (drop w.off (take w.element.l w.element.buf)),
    length-drop w.off (take w.element.l w.element.buf),
    length-take w.element.l w.element.buf,
  )

  moved-off : WindowHolds w es parked → moved.off ≡ w.off + length chunk
  moved-off (h1, h2, (e, small), o) = omega (arith, chunk-le (h1, h2, (e, small), o))

  rejoin :
      WindowHolds w es parked
      → chunk ++ drop (length chunk) (drop w.off w.element.buf) ≡ drop w.off w.element.buf
  rejoin h =
      subst (λ c. c ++ drop (length c) (drop w.off w.element.buf) ≡ drop w.off w.element.buf)
        (sym (chunk-eq h)) (take-rejoin room (drop w.off w.element.buf))

  moved-pending : WindowHolds w es parked → chunk ++ pending moved es ≡ pending w es
  moved-pending h =
      let next : drop moved.off w.element.buf ≡ drop (length chunk) (drop w.off w.element.buf) =
        ap (λ k. drop k w.element.buf) (moved-off h)
        ∙ drop-add w.off (length chunk) w.element.buf in
      rw next (sym (append_assoc chunk _ (bytes es)) ∙ ap (λ xs. xs ++ bytes es) (rejoin h))

  moved-WindowHolds : WindowHolds w es parked → WindowHolds moved es parked
  moved-WindowHolds (h1, h2, (e, small), o) =
      let at = moved-off (h1, h2, (e, small), o) in
      let fits = chunk-le (h1, h2, (e, small), o) in (h1, h2, (e, small), omega (arith, at, fits))

  finished_or-Reads :
      (b : Bool)
      → WindowHolds w es parked
      → Reads room (pending w es) (
          if b
          then finished chunk
              (ltb (length chunk) room && w.element.part)
              (send_status w.element.l moved)
          else copied chunk none (ltb (length chunk) room && w.element.part) moved)
  unfolding send_status
  finished_or-Reads true h = (es, parked, moved-WindowHolds h, moved-pending h, (chunk-le h).0)
  finished_or-Reads false h = (es, parked, moved-WindowHolds h, moved-pending h, (chunk-le h).0)

  copy_out-Reads : WindowHolds w es parked → Reads room (pending w es) (copy_out room w)
  unfolding copy_out
  copy_out-Reads h = finished_or-Reads _ h

-- With the element read to its end, only the queue's bytes are left.
pending-next :
    (w : ReceiveWindow) (es : List Element) (parked : Bool)
    → WindowHolds w es parked
    → w.off ≡ w.element.l
    → bytes es ≡ pending w es
pending-next w es parked (_, _, (e, _), _) at =
    ap (λ xs. xs ++ bytes es) (sym (drop_of_length-le w.element.buf w.off (omega arith)))

total-bytes : (es : List Element) → AllWhole es → total es ≡ 0 → bytes es ≡ []
total-bytes [] a h = refl
total-bytes (e ∷ es) ((p, q), a) h =
    let empty : e.buf ≡ [] = length-nil e.buf (omega arith) in
    rw empty (total-bytes es a (omega arith))
  where
    length-nil : (xs : List ℕ) → length xs ≡ 0 → xs ≡ []
    length-nil [] h = refl
    length-nil (x ∷ xs) h = absurd (omega arith)

next-Reads :
    (room : ℕ) (w : ReceiveWindow) (q : ReceiveQueue) (e : Element) (es : List Element)
    (parked : Bool)
    → QueueHolds q es parked
    → Whole e
    → AllWhole es
    → Reads room (bytes (e ∷ es)) (copy_out room (record w { buf_queue = q; element = e; off = 0 }))
next-Reads room w q e es parked h p a =
    copy_out-Reads room (record w { buf_queue = q; element = e; off = 0 }) es parked
      (h, a, p, omega arith)

closing-Reads :
    (room : ℕ) (w : ReceiveWindow) (es : List Element) (parked : Bool)
    → WindowHolds w es parked
    → Reads room (bytes es) (last_element room w (try_pop w.buf_queue))
closing-Reads room w [] parked (h, _, _, _) =
    let (q, none_left, _) = try_pop-none w.buf_queue parked h in rw none_left refl
closing-Reads room w (e ∷ es) parked (h, (p, a), _, _) =
    let (q, popping, k) = try_pop-QueueHolds w.buf_queue e es parked h in
    rw popping (next-Reads room w q e es parked k p a)

open_pass-Reads :
    (room : ℕ) (w : ReceiveWindow) (es : List Element) (parked : Bool)
    → WindowHolds w es parked
    → Reads room (bytes es) (popped room w (pop w.buf_queue))
open_pass-Reads room w es parked (h, a, p, o) = elim (pop-QueueHolds w.buf_queue es parked h) [
  | inl park ↦
      let (empty, (q, popping, k)) = park in rw popping (total-bytes es a empty, (es, (k, a, p, o)))
  | inr take ↦
      let (e, rest, split, (q, popping, k)) = take in
      let whole = subst AllWhole split a in
      rw (popping, split) (next-Reads room w q e rest parked k whole.0 whole.1)
]

abbrev ended : ℕ → ReceiveWindow → Bool → Pass
ended room w b =
    if b then last_element room w (try_pop w.buf_queue) else popped room w (pop w.buf_queue)

ended-Reads :
    (room : ℕ) (w : ReceiveWindow) (es : List Element) (parked b : Bool)
    → WindowHolds w es parked
    → Reads room
        (bytes es)
        (if b then last_element room w (try_pop w.buf_queue) else popped room w (pop w.buf_queue))
ended-Reads room w es parked true h = closing-Reads room w es parked h
ended-Reads room w es parked false h = open_pass-Reads room w es parked h

-- One pass of `readFromQueue` over a window that holds its pieces, open or closed: the bytes copied
-- are the next ones still to read, no more than the room, and the window holds the rest; the end of
-- the stream and a parked reader are seen only with no bytes left; the pass never spins.
pub read_pass-Reads :
    (room : ℕ) (w : ReceiveWindow) (es : List Element) (parked : Bool)
    → WindowHolds w es parked
    → Reads room (pending w es) (read_pass room w)
unfolding read_pass
read_pass-Reads room w es parked h = elim (ℕ_discrete w.off w.element.l) [
  | yes at ↦
      let test : (w.off == w.element.l) ≡ true = ground (arith, at) in
      rw test (
        subst (λ left. Reads room left (ended room w w.close_op)) (pending-next w es parked h at)
          (ended-Reads room w es parked w.close_op h))
  | no more ↦
      let test : (w.off == w.element.l) ≡ false = ground (arith, more) in
      rw test (copy_out-Reads room w es parked h)
]
