-- ===== src/Mux/SendWindow/Transfer.antt =====
-- `WriteFull`: a whole buffer cut into segments, while acknowledgements arrive.
use nat_punch.Base.{
  ℕ, ◌+◌, ◌^◌, ◌<◌, ◌≤◌, ◌≡◌, refl, ap, sym, ◌∙◌, arith, ◌⊎◌, inl, inr, Bool, true, List, [], ◌∷◌,
  ◌++◌, length, take, drop, ltb, dec_lt, ℕ_discrete, length-drop, length-take, take-append-drop,
  drop_of_length-le, drop-add,
}
use nat_punch.Mux.Window.{unpack}
use nat_punch.Mux.Frame.{maximum_segment_size}
use nat_punch.Mux.SendWindow.{
  SendWindow, set_send_buf, set_size, Acked, ignored, applied, Write, eof, stuck, blocked, segment,
  write_to,
}
use nat_punch.Mux.SendWindow.Views.{View, left-eq}
use nat_punch.Mux.SendWindow.Segments.{
  next_size, after_segment, write_to-segment, write_to-blocked, write_to-eof, after_segment-View,
  blocked-View,
}
use nat_punch.Mux.SendWindow.Acks.{set_size-View}

-- How the loop of `WriteFull` stands when the schedule is over.
pub data End : Type 0 where
  finished failed looping unfinished : End

-- A segment with the flag that makes it a `muxNewMsgPart`.
abbrev pub Segment : Type 0
Segment = Bool × List ℕ

abbrev acked : SendWindow → Acked → SendWindow
acked w Acked.closed = w
acked w ignored = w
acked w (applied wakes w') = w'

-- The acknowledgements that arrive before a round.
unfoldable pub apply_acks : List ℕ → SendWindow → SendWindow
apply_acks [] w = w
apply_acks (word ∷ words) w = apply_acks words (acked w (set_size word w))

abbrev emit : Segment → List Segment × End → List Segment × End
emit s (segs, e) = (s ∷ segs, e)

abbrev round : Write → (SendWindow → List Segment × End) → List Segment × End
round Write.closed next = ([], failed)
round eof next = ([], finished)
round stuck next = ([], looping)
round (blocked w) next = next w
round (segment p part w) next = emit (part, p) (next w)

-- The loop of `WriteFull` over a schedule: for each round the words of the acknowledgements that come
-- before it. A writer that is blocked looks at its window again in the next round.
unfoldable pub write_loop : List (List ℕ) → SendWindow → List Segment × End
write_loop [] w = ([], unfinished)
write_loop (words ∷ rounds) w = round (write_to (apply_acks words w)) (λ w'. write_loop rounds w')

unfoldable pub write_full : List (List ℕ) → List ℕ → SendWindow → List Segment × End
write_full rounds buf w = write_loop rounds (set_send_buf buf w)

-- `segs` cuts up `buf` but for `rest`: each segment holds at least a byte and fits a frame, and is
-- marked as a part exactly when bytes of the buffer come after it.
abbrev pub Cuts : List Segment → List ℕ → List ℕ → Type 0
Cuts [] buf rest = buf ≡ rest
Cuts ((part, p) ∷ segs) buf rest =
    (buf' : List ℕ) × (buf ≡ p ++ buf')
    × (0 < length p)
    × (length p ≤ maximum_segment_size)
    × (part ≡ ltb 0 (length buf'))
    × Cuts segs buf' rest

-- The window, the buffer and the place in it, for a window of some size.
abbrev Sound : List ℕ → ℕ → SendWindow → Type 0
Sound buf off w =
    (size : ℕ) × (unread : ℕ) × (wait : Bool) × View w size unread wait
    × (w.buf ≡ buf)
    × (w.off ≡ off)

acked-Sound :
    (word : ℕ) (buf : List ℕ) (off : ℕ) (w : SendWindow)
    → Sound buf off w
    → Sound buf off (acked w (set_size word w))
acked-Sound word buf off w (size, unread, wait, v, eb, eo) =
    elim (set_size-View v word (unpack word).0 (unpack word).1 (unpack word).2 refl) [
      | inl (_, e) ↦ rw e (size, unread, wait, v, eb, eo)
      | inr (inl (_, _, e)) ↦ rw e (size, unread, wait, v, eb, eo)
      | inr (inr (_, (w', e, v', same_buf, same_off))) ↦
          rw e (_, _, _, v', same_buf ∙ eb, same_off ∙ eo)
    ]

apply_acks-Sound :
    (words : List ℕ) (buf : List ℕ) (off : ℕ) (w : SendWindow)
    → Sound buf off w
    → Sound buf off (apply_acks words w)
unfolding apply_acks
apply_acks-Sound [] buf off w s = s
apply_acks-Sound (word ∷ words) buf off w s =
    apply_acks-Sound words buf off (acked w (set_size word w)) (acked-Sound word buf off w s)

-- What a writer at `off` has done when its schedule is over: it has cut up the buffer from there on,
-- all of it if it finished; it has not failed, and not met an endless loop.
abbrev pub Wrote : List ℕ → ℕ → List Segment × End → Type 0
Wrote buf off (segs, e) =
    (rest : List ℕ) × Cuts segs (drop off buf) rest
    × (((e ≡ finished) × (rest ≡ [])) ⊎ (e ≡ unfinished))

abbrev Goes : List ℕ → (SendWindow → List Segment × End) → Type 0
Goes buf next = (off : ℕ) (w : SendWindow) → Sound buf off w → Wrote buf off (next w)

module _ (buf : List ℕ) where
  emit-Wrote :
      (off n : ℕ) (r : List Segment × End)
      → off + n ≤ length buf
      → 0 < n
      → n ≤ maximum_segment_size
      → Wrote buf (off + n) r
      → Wrote buf off (emit (ltb n (length (drop off buf)), take n (drop off buf)) r)
  emit-Wrote off n (segs, e) fits pos small (rest, cuts, ends) = (
    rest,
    (
      drop (off + n) buf,
      sym (take-append-drop n (drop off buf))
          ∙ ap (◌++◌ (take n (drop off buf))) (sym (drop-add off n buf)),
      omega (arith, length-take n (drop off buf), length-drop off buf),
      omega (arith, length-take n (drop off buf), length-drop off buf),
      ground (arith, length-drop off buf, length-drop (off + n) buf),
      cuts,
    ),
    ends,
  )

module _ (w : SendWindow) (next : SendWindow → List Segment × End) (goes : Goes w.buf next) where
  segment-Wrote :
      {size unread : ℕ} {wait : Bool} (v : View w size unread wait)
      → w.off < length w.buf
      → unread < size
      → Wrote w.buf w.off (round (write_to w) next)
  segment-Wrote {size} {unread} {wait} v more room = rw (write_to-segment v more room) (
      emit-Wrote w.buf w.off (next_size v) (next (after_segment v)) (omega (arith, left-eq v))
        (omega (arith, left-eq v)) (omega arith)
        (goes (w.off + next_size v) (after_segment v)
          (size, unread + next_size v, wait, after_segment-View v more room, refl, refl)))

  round-Wrote :
      {size unread : ℕ} {wait : Bool}
      → View w size unread wait
      → Wrote w.buf w.off (round (write_to w) next)
  round-Wrote {size} {unread} {wait} v = elim (ℕ_discrete w.off (length w.buf)) [
    | yes all ↦
        rw (write_to-eof v all)
          (drop w.off w.buf, refl, inl (refl, drop_of_length-le w.buf w.off (omega arith)))
    | no some_left ↦
        let more : w.off < length w.buf = omega (arith, v.off_le) in
        elim (dec_lt unread size) [
          | yes room ↦ segment-Wrote v more room
          | no full ↦
              rw (write_to-blocked v more (omega arith))
                (goes w.off _ (size, unread, true, blocked-View v, refl, refl))
        ]
  ]

write_loop-Wrote :
    (rounds : List (List ℕ)) (buf : List ℕ) (off : ℕ) (w : SendWindow)
    → Sound buf off w
    → Wrote buf off (write_loop rounds w)
unfolding write_loop
write_loop-Wrote [] buf off w s = (drop off buf, refl, inr refl)
write_loop-Wrote (words ∷ rounds) buf off w s =
    let (size, unread, wait, v, eb, eo) = apply_acks-Sound words buf off w s in
    rw (← eb, ← eo)
      (round-Wrote (apply_acks words w) (write_loop rounds)
        (λ off' w' s'. write_loop-Wrote rounds _ off' w' s') v)

-- On a window that is open and stays so, without a time out, whose sizes and counts are in range,
-- and with a buffer of fewer than 2^32 bytes: whatever acknowledgements arrive between the rounds,
-- the segments are successive pieces of the buffer, each of at least one byte and at most a
-- segment, and marked as a part exactly when bytes follow. If the loop finished they make up the
-- whole buffer; otherwise it is still waiting for its turn: it does not fail, and no count
-- overflows.
pub write_full-Cuts :
    (rounds : List (List ℕ)) (buf : List ℕ) (w : SendWindow) {size unread : ℕ} {wait : Bool}
    → View w size unread wait
    → length buf < 2 ^ 32
    → Wrote buf 0 (write_full rounds buf w)
unfolding write_full set_send_buf
write_full-Cuts rounds buf w {size} {unread} {wait} v h =
    write_loop-Wrote rounds buf 0 (record w { buf = buf; off = 0 })
      (
        size,
        unread,
        wait,
        record {
          word = v.word;
          size_fits = v.size_fits;
          unread_fits = v.unread_fits;
          buf_fits = h;
          off_le = omega arith;
          is_open = v.is_open;
        },
        refl,
        refl,
      )
