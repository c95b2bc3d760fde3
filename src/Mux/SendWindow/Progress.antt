-- ===== src/Mux/SendWindow/Progress.antt =====
-- `WriteFull` ends: with room in the window every round sends, and the buffer runs out.
use nat_punch.Base.{
  ℕ, zero, suc, ◌-◌, ◌^◌, ◌<◌, ◌≤◌, ◌≡◌, arith, Bool, List, [], length, replicate, ℕ_discrete,
}
use nat_punch.Mux.SendWindow.{SendWindow, set_send_buf}
use nat_punch.Mux.SendWindow.Views.{View, left-eq}
use nat_punch.Mux.SendWindow.Segments.{
  after_segment, write_to-segment, write_to-eof, after_segment-View,
}
use nat_punch.Mux.SendWindow.Transfer.{finished, apply_acks, write_loop, write_full}

write_loop-finished :
    (k : ℕ) (w : SendWindow) {size unread : ℕ} {wait : Bool}
    → View w size unread wait
    → length w.buf - w.off < k
    → length w.buf - w.off ≤ size - unread
    → (write_loop (replicate k []) w).1 ≡ finished
unfolding write_loop apply_acks
write_loop-finished zero w v h room = absurd (omega arith)
write_loop-finished (suc k) w v h room = elim (ℕ_discrete w.off (length w.buf)) [
  | yes all ↦ rw (write_to-eof v all)
  | no some_left ↦
      let more : w.off < length w.buf = omega (arith, v.off_le) in
      rw (write_to-segment v more (omega arith)) (
        write_loop-finished k (after_segment v) (after_segment-View v more (omega arith))
          (omega (arith, left-eq v)) (omega (arith, left-eq v)))
]

-- A buffer that fits the free part of the window is sent to its end without a single
-- acknowledgement, in at most one round for each byte and one more.
pub write_full-finished :
    (buf : List ℕ) (w : SendWindow) {size unread : ℕ} {wait : Bool}
    → View w size unread wait
    → length buf < 2 ^ 32
    → length buf ≤ size - unread
    → (write_full (replicate (suc (length buf)) []) buf w).1 ≡ finished
unfolding write_full set_send_buf
write_full-finished buf w v h room =
    write_loop-finished (suc (length buf)) (record w { buf = buf; off = 0 })
      (record {
        word = v.word;
        size_fits = v.size_fits;
        unread_fits = v.unread_fits;
        buf_fits = h;
        off_le = omega arith;
        is_open = v.is_open;
      })
      (omega arith) (omega arith)
