-- ===== src/Mux/ReceiveWindow/Arriving.antt =====
-- `Write` of a receive window puts what it accepts behind the bytes still to read.
use nat_punch.Base.{
  ℕ, ◌+◌, ◌%◌, ◌^◌, ◌<◌, ◌≡◌, refl, sym, arith, Bool, true, false, Option, none, some, List, [],
  ◌∷◌, ◌++◌, append_assoc, append-nil, length, drop, ◌==◌, if◌then◌else◌,
}
use nat_punch.Mux.ReceiveQueue.{Element, new_list_element}
use nat_punch.Mux.ReceiveQueue.Holds.{total, push-QueueHolds}
use nat_punch.Mux.ReceiveWindow.{
  ReceiveWindow, Write, closed, not_match, written, put, put_or, calc_size, write,
}
use nat_punch.Mux.ReceiveWindow.Reading.{Whole, AllWhole, bytes, pending, WindowHolds}

AllWhole-snoc : (es : List Element) (e : Element) → AllWhole es → Whole e → AllWhole (es ++ e ∷ [])
AllWhole-snoc [] e a p = (p, tt)
AllWhole-snoc (x ∷ es) e (q, a) p = (q, AllWhole-snoc es e a p)

bytes-snoc : (es : List Element) (e : Element) → bytes (es ++ e ∷ []) ≡ bytes es ++ e.buf
bytes-snoc [] e = append-nil e.buf
bytes-snoc (x ∷ es) e = rw (bytes-snoc es e) (sym (append_assoc x.buf (bytes es) e.buf))

-- What a call with `buf` does to a window that holds `es`.
abbrev pub Stores : List ℕ → List Element → Bool → ReceiveWindow → Write → Type 0
Stores buf es parked w closed = w.close_op ≡ true
Stores buf es parked w not_match = ⊥
Stores buf es parked w (written ack wakes w') =
    (e : Element) × (w.close_op ≡ false)
    × WindowHolds w' (es ++ e ∷ []) false
    × (pending w' (es ++ e ∷ []) ≡ pending w es ++ buf)
    × (wakes ≡ parked)

module _ (buf : List ℕ) (es : List Element) (parked : Bool) where
  calc_size-WindowHolds :
      (size : Option ℕ) (w : ReceiveWindow)
      → WindowHolds w es parked
      → WindowHolds (calc_size size w) es parked × (pending (calc_size size w) es ≡ pending w es)
  unfolding calc_size
  calc_size-WindowHolds none w h = (h, refl)
  calc_size-WindowHolds (some n) w h = (h, refl)

  put-Stores :
      (e : Element) (w : ReceiveWindow)
      → w.close_op ≡ false
      → WindowHolds w es parked
      → Whole e
      → e.buf ≡ buf
      → total es + e.l < 2 ^ 32
      → Stores buf es parked w (put e w)
  unfolding put
  put-Stores e w is_open (h, a, p, o) whole same room =
      let (k, woken) = push-QueueHolds e w.buf_queue es parked h room in
      (
        e,
        is_open,
        (k, AllWhole-snoc es e a whole, p, o),
        rw (bytes-snoc es e, same) (sym (append_assoc (drop w.off w.element.buf) (bytes es) buf)),
        woken,
      )

  sized-Stores :
      (size : Option ℕ) (e : Element) (w : ReceiveWindow)
      → w.close_op ≡ false
      → WindowHolds w es parked
      → Whole e
      → e.buf ≡ buf
      → total es + e.l < 2 ^ 32
      → Stores buf es parked w (put e (calc_size size w))
  unfolding calc_size put
  sized-Stores none e w is_open h whole same room = put-Stores e w is_open h whole same room
  sized-Stores (some n) e w is_open h whole same room =
      put-Stores e (calc_size (some n) w) is_open h whole same room

  write_or-Stores :
      (b : Bool) (size : Option ℕ) (part : Bool) (w : ReceiveWindow)
      → w.close_op ≡ b
      → WindowHolds w es parked
      → length buf < 2 ^ 16
      → total es + length buf < 2 ^ 32
      → Stores buf es parked w
          (if b then closed else put_or size (new_list_element buf (length buf) part) w)
  unfolding new_list_element
  write_or-Stores true size part w e h small room = e
  write_or-Stores false size part w e h small room =
      let whole : (length buf % 2 ^ 16 == length buf) ≡ true = ground (arith, small) in
      rw whole (
        sized-Stores size (record { buf = buf; l = length buf; part = part }) w e h (refl, small)
          refl room)

  -- `Write` with a slice of fewer than 2^16 bytes and its length, on a window that holds its pieces
  -- and has room below 2^32 bytes: a closed window refuses it; an open one puts exactly these bytes
  -- behind those still to read, whatever size is computed, and wakes the reader exactly if parked.
  pub write-Stores :
      (size : Option ℕ) (part : Bool) (w : ReceiveWindow)
      → WindowHolds w es parked
      → length buf < 2 ^ 16
      → total es + length buf < 2 ^ 32
      → Stores buf es parked w (write size buf (length buf) part w)
  unfolding write
  write-Stores size part w = write_or-Stores w.close_op size part w refl
