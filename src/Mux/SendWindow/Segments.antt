-- ===== src/Mux/SendWindow/Segments.antt =====
-- `WriteTo` on every branch, and `SetSize`.
use nat_punch.Base.{
  ℕ, ◌+◌, ◌-◌, ◌<◌, ◌≤◌, ◌≡◌, refl, ap, ◌∙◌, arith, Bool, true, length, take, min, drop, ltb,
}
use nat_punch.Mux.Window.{pack}
use nat_punch.Mux.Frame.{maximum_segment_size}
use nat_punch.Mux.SendWindow.{
  SendWindow, remaining_size, eof, blocked, segment, write_start, write_to,
}
use nat_punch.Mux.SendWindow.Views.{
  View, unpack-View, sent-View, left, left-eq, send_size_lem, remaining_size_lem,
}

module _ {w : SendWindow} {size unread : ℕ} {wait : Bool} (v : View w size unread wait) where
  -- The segment that is sent next: as much as fits a frame, the buffer and the window.
  abbrev pub next_size : ℕ
  next_size = min (size - unread) (min maximum_segment_size (left v))

  abbrev pub after_segment : SendWindow
  after_segment = record w {
    max_size_done = pack size (unread + next_size) wait;
    off = w.off + next_size;
  }

  past_guards : w.off < length w.buf → write_to w ≡ write_start w (size, unread, wait)
  unfolding write_to
  past_guards more = ground (arith, v.is_open, v.buf_fits, ap (write_start w) (unpack-View v))

  room_left : remaining_size size unread ≡ size - unread
  room_left = remaining_size_lem size unread v.size_fits v.unread_fits

  -- With bytes to send and room in the window a segment goes out: it is counted as sent, and marked
  -- as a part exactly when bytes of the buffer are left behind it.
  pub write_to-segment :
      w.off < length w.buf
      → unread < size
      → write_to w
        ≡ segment (take next_size (drop w.off w.buf)) (ltb next_size (left v)) after_segment
  unfolding write_start
  write_to-segment more room =
      past_guards more
      ∙ rw (room_left, send_size_lem v (size - unread), sent-View v next_size (omega arith))
          (ground (arith, v.buf_fits, left-eq v, v.off_le))

  -- With bytes to send and no room the writer sets the wait flag and waits.
  pub write_to-blocked :
      w.off < length w.buf
      → size ≤ unread
      → write_to w ≡ blocked (record w { max_size_done = pack size unread true })
  unfolding write_start
  write_to-blocked more full = past_guards more ∙ rw room_left (ground arith)

  -- When the buffer is sent the writer is told so.
  pub write_to-eof : w.off ≡ length w.buf → write_to w ≡ eof
  unfolding write_to
  write_to-eof done = ground (arith, v.is_open, v.buf_fits)

  pub after_segment-View :
      w.off < length w.buf → unread < size → View after_segment size (unread + next_size) wait
  after_segment-View more room = record {
    word = refl;
    size_fits = v.size_fits;
    unread_fits = omega (arith, v.size_fits);
    buf_fits = v.buf_fits;
    off_le = omega (arith, left-eq v, v.off_le);
    is_open = v.is_open;
  }

  pub blocked-View : View (record w { max_size_done = pack size unread true }) size unread true
  blocked-View = record {
    word = refl;
    size_fits = v.size_fits;
    unread_fits = v.unread_fits;
    buf_fits = v.buf_fits;
    off_le = v.off_le;
    is_open = v.is_open;
  }
