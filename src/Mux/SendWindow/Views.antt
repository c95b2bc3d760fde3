-- ===== src/Mux/SendWindow/Views.antt =====
-- A send window by its parts: the size that the receiver announced, the bytes sent and not yet
-- acknowledged, and the wait flag.
use nat_punch.Base.{
  ℕ, ◌+◌, ◌-◌, ◌*◌, ◌%◌, ◌^◌, ◌<◌, ◌≤◌, ◌≡◌, refl, ap, ◌∙◌, arith, Bool, false, some, length, min,
  drop, length-drop,
}
use nat_punch.Base.Bits.{bit_and-mask}
use nat_punch.Mux.Window.{unpack, pack}
use nat_punch.Mux.Window.Words.{unpack-pack_exact}
use nat_punch.Mux.Frame.{maximum_segment_size}
use nat_punch.Mux.SendWindow.{SendWindow, new, remaining_size, sent, send_size}

pub record View (w : SendWindow) (size unread : ℕ) (wait : Bool) : Type 0 where
  pub word : w.max_size_done ≡ pack size unread wait
  pub size_fits : size < 2 ^ 31
  pub unread_fits : unread < 2 ^ 31
  pub buf_fits : length w.buf < 2 ^ 32
  pub off_le : w.off ≤ length w.buf
  pub is_open : w.close_op ≡ false

-- A new window may send thirty segments.
pub new-View : View new (maximum_segment_size * 30) 0 false
unfolding new
new-View = record {
  word = refl;
  size_fits = omega arith;
  unread_fits = omega arith;
  buf_fits = omega arith;
  off_le = omega arith;
  is_open = refl;
}

pub remaining_size_lem : (m s : ℕ) → m < 2 ^ 31 → s < 2 ^ 31 → remaining_size m s ≡ m - s
unfolding remaining_size
remaining_size_lem m s hm hs = omega (arith, bit_and-mask 31 m, bit_and-mask 31 s)

module _ {w : SendWindow} {size unread : ℕ} {wait : Bool} (v : View w size unread wait) where
  pub unpack-View : unpack w.max_size_done ≡ (size, unread, wait)
  unpack-View = ap unpack v.word ∙ unpack-pack_exact size unread wait v.size_fits v.unread_fits

  -- Counting the bytes of a segment that the window has room for never loops.
  pub sent-View :
      (n : ℕ) → unread + n ≤ size → sent n w.max_size_done ≡ some (pack size (unread + n) wait)
  unfolding sent
  sent-View n h =
      rw (unpack-View, bit_and-mask 31 ((unread + n) % 2 ^ 32)) (ground (arith, v.size_fits))

  -- The bytes of the buffer still to be sent.
  abbrev pub left : ℕ
  left = length (drop w.off w.buf)

  pub left-eq : left ≡ length w.buf - w.off
  left-eq = length-drop w.off w.buf

  pub send_size_lem : (remain : ℕ) → send_size w remain ≡ min remain (min maximum_segment_size left)
  unfolding send_size
  send_size_lem remain = ground (arith, left-eq, v.buf_fits)
