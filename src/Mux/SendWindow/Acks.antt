-- ===== src/Mux/SendWindow/Acks.antt =====
-- `SetSize` on every branch.
use nat_punch.Base.{
  ℕ, ◌-◌, ◌^◌, ◌<◌, ◌≤◌, ◌≡◌, refl, ap, ◌∙◌, arith, ◌⊎◌, inl, inr, Bool, false, not, ◌&&◌, ltb, leb,
  Bool-cases, ◌==◌, dec_lt,
}
use nat_punch.Mux.Window.{unpack, pack}
use nat_punch.Mux.Window.Words.{unpack-fits}
use nat_punch.Mux.SendWindow.{SendWindow, remaining_size, set_size, slide, ignored, applied}
use nat_punch.Mux.SendWindow.Views.{View, unpack-View, remaining_size_lem}

module _ {w : SendWindow} {size unread : ℕ} {wait : Bool} (v : View w size unread wait) where
  module _ (word current read : ℕ) (b : Bool) (said : unpack word ≡ (current, read, b)) where
    hc : current < 2 ^ 31
    hc = omega (arith, (unpack-fits word).0, ap (λ (x : ℕ × ℕ × Bool). x.0) said)

    slides : set_size word w ≡ slide w (current, read, b) (size, unread, wait)
    unfolding set_size
    slides = ground (
      arith,
      v.is_open,
      ap (slide w (current, read, b)) (unpack-View v),
      ap (λ x. slide w x (unpack w.max_size_done)) said,
    )

    keeps_waiting : Bool
    keeps_waiting = remaining_size current (unread - read) == 0 && wait

    slid : SendWindow
    unfolding keeps_waiting
    slid = record w { max_size_done = pack current (unread - read) keeps_waiting }

    keeps_waiting_lem : keeps_waiting ≡ (wait && leb current (unread - read))
    unfolding keeps_waiting
    keeps_waiting_lem =
        rw (remaining_size_lem current (unread - read) hc (omega (arith, v.unread_fits)))
          (ground arith)

    wakes_lem : (wait && not keeps_waiting) ≡ (wait && ltb (unread - read) current)
    wakes_lem = rw keeps_waiting_lem (ground arith)

    slid-View : View slid current (unread - read) keeps_waiting
    unfolding slid
    slid-View = record {
      word = refl;
      size_fits = hc;
      unread_fits = omega (arith, v.unread_fits);
      buf_fits = v.buf_fits;
      off_le = v.off_le;
      is_open = v.is_open;
    }

    applies :
        read ≤ unread
        → (read == 0 && current == size) ≡ false
        → slide w (current, read, b) (size, unread, wait) ≡ applied (wait && not keeps_waiting) slid
    unfolding slide slid keeps_waiting
    applies le news = rw news (ground arith)

    -- An acknowledgement of `read` bytes under a window of `current`. One that claims more than was
    -- sent changes nothing, and nor does one with no news. Any other slides the window; a waiting
    -- writer is woken exactly when there is room again, and goes on waiting otherwise; the buffer and
    -- the place in it stay.
    pub set_size-View :
        ((unread < read) × (set_size word w ≡ ignored))
        ⊎ ((read ≡ 0) × (current ≡ size) × (set_size word w ≡ ignored))
        ⊎ ((read ≤ unread)
            × ((w' : SendWindow) × (set_size word w
                  ≡ applied (wait && ltb (unread - read) current) w')
                × View w' current (unread - read) (wait && leb current (unread - read))
                × (w'.buf ≡ w.buf)
                × (w'.off ≡ w.off)))
    unfolding slide slid
    set_size-View = elim (dec_lt unread read) [
      | yes more ↦ inl (more, slides ∙ ground arith)
      | no le ↦ elim (Bool-cases (read == 0 && current == size)) [
        | inl quiet ↦ inr (inl (ground arith, ground arith, slides ∙ rw quiet (ground arith)))
        | inr news ↦
            let le' : read ≤ unread = omega arith in
            inr (
              inr (
                le',
                (
                  slid,
                  slides ∙ applies le' news ∙ ap (λ b. applied b slid) wakes_lem,
                  rw (← keeps_waiting_lem) slid-View,
                  refl,
                  refl,
                ),
              ))
      ]
    ]
