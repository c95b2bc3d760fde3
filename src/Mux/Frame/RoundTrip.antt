-- ===== src/Mux/Frame/RoundTrip.antt =====
-- Reading a frame back gives the frame that was packed: `muxPackager.UnPack` after `Pack`.
use nat_punch.Base.{
  ℕ, zero, suc, ◌+◌, ◌-◌, ◌^◌, ◌%◌, ◌<◌, ◌≤◌, ◌≡◌, ◌≢◌, refl, sym, subst, ap, ◌∙◌, arith, Bool,
  true, false, ◌||◌, ◌&&◌, List, [], ◌∷◌, ◌++◌, Option, none, some, take, append_assoc, append-nil,
  ==_iff, drop, leb, ltb, ◌==◌, if◌then◌else◌, take-length_append, drop-length_append,
  length-append, take_of_length-le,
}
use nat_punch.Base
use nat_punch.Base.Bytes.{put_le, get_le-put_le}
use nat_punch.Base.Result.{ok}
use nat_punch.Mux.Frame.{
  Packager, blank, has_content, mux_msg_send_ok, maximum_segment_size, pack, read_full,
  unpack_content, unpack_body, unpack,
}

-- The frames that `Set` makes: bytes of the stated length, a window, or neither.
pub data IsFrame (p : Packager) : Type 0 where
  message :
      has_content p.flag ≡ true
      → Base.length p.content ≡ p.length
      → p.length ≤ maximum_segment_size
      → p.window ≡ 0
      → IsFrame p
  send_ok : p.flag ≡ mux_msg_send_ok → p.window < 2 ^ 64 → p.length ≡ 0 → p.content ≡ [] → IsFrame p
  bare :
      has_content p.flag ≡ false
      → p.flag ≢ mux_msg_send_ok
      → p.window ≡ 0
      → p.length ≡ 0
      → p.content ≡ []
      → IsFrame p

-- The length of a frame on the wire.
abbrev pub wire_size : Packager → ℕ
wire_size p = Base.length (pack p)

read_full-append :
    (n : ℕ) (xs rest : List ℕ) → Base.length xs ≡ n → read_full n (xs ++ rest) ≡ ok (xs, rest)
unfolding read_full
read_full-append n xs rest e =
    rw (← e) (
      ground (arith, length-append xs rest, take-length_append xs rest, drop-length_append xs rest))

header : Packager → List ℕ
header p = p.flag ∷ put_le 4 p.id

-- Reading the header leaves the frame's body to be read.
unpack-header :
    (p : Packager) (s : List ℕ)
    → p.id < 2 ^ 32
    → unpack (header p ++ s) ≡ unpack_body (record blank { flag = p.flag; id = p.id }) s
unfolding unpack header
unpack-header p s h =
    rw (read_full-append 5 (header p) s refl) (ground (arith, get_le-put_le 4 p.id h))

unpack_content-eq :
    (p : Packager) (content rest : List ℕ)
    → Base.length content ≤ maximum_segment_size
    → unpack_content p (put_le 2 (Base.length content) ++ (content ++ rest))
      ≡ ok (
        (2 + Base.length content) % 2 ^ 16,
        record p { length = Base.length content; content = content },
        rest,
      )
unfolding unpack_content
unpack_content-eq p content rest h =
    let n : ℕ = Base.length content in
    rw
      (
        read_full-append 2 (put_le 2 n) (content ++ rest) refl,
        get_le-put_le 2 n (omega arith),
        read_full-append n content rest refl,
      )
      (ground (arith, h))

abbrev message_frame : ℕ → ℕ → List ℕ → Packager
message_frame flag id content = record {
  flag = flag;
  id = id;
  window = 0;
  length = Base.length content;
  content = content;
}

abbrev window_frame : ℕ → ℕ → Packager
window_frame id window = record {
  flag = mux_msg_send_ok;
  id = id;
  window = window;
  length = 0;
  content = [];
}

abbrev bare_frame : ℕ → ℕ → Packager
bare_frame flag id = record { flag = flag; id = id; window = 0; length = 0; content = [] }

-- Reading back what was packed, with any bytes behind it.
abbrev pub ReadsBack : Packager → Type 0
ReadsBack p = (rest : List ℕ) → unpack (pack p ++ rest) ≡ ok (wire_size p, p, rest)

-- What `Pack` writes of each kind.
pack-message :
    (flag id : ℕ) (content : List ℕ)
    → has_content flag ≡ true
    → let p = message_frame flag id content in
      pack p ≡ header p ++ (put_le 2 (Base.length content) ++ content)
unfolding pack header
pack-message flag id content c =
    rw (c, take_of_length-le (Base.length content) content (omega arith)) refl

pack-window :
    (id window : ℕ)
    → pack (window_frame id window) ≡ header (window_frame id window) ++ put_le 8 window
unfolding pack header has_content
pack-window id window = refl

pack-bare :
    (flag id : ℕ)
    → has_content flag ≡ false
    → flag ≢ mux_msg_send_ok
    → pack (bare_frame flag id) ≡ header (bare_frame flag id)
unfolding pack header
pack-bare flag id c ne = rw c (ground arith)

message-ReadsBack :
    (flag id : ℕ) (content : List ℕ)
    → has_content flag ≡ true
    → id < 2 ^ 32
    → Base.length content ≤ maximum_segment_size
    → ReadsBack (message_frame flag id content)
unfolding unpack_body header
message-ReadsBack flag id content c h fits rest =
    rw
      (
        pack-message flag id content c,
        unpack-header (message_frame flag id content)
            (put_le 2 (Base.length content) ++ (content ++ rest)) h,
        c,
        unpack_content-eq (bare_frame flag id) content rest fits,
      )
      (ground arith)

window-ReadsBack :
    (id window : ℕ) → id < 2 ^ 32 → window < 2 ^ 64 → ReadsBack (window_frame id window)
unfolding unpack_body header has_content
window-ReadsBack id window h w rest =
    rw
      (
        pack-window id window,
        unpack-header (window_frame id window) (put_le 8 window ++ rest) h,
        read_full-append 8 (put_le 8 window) rest refl,
        get_le-put_le 8 window w,
      )
      refl

bare-ReadsBack :
    (flag id : ℕ)
    → has_content flag ≡ false
    → flag ≢ mux_msg_send_ok
    → id < 2 ^ 32
    → ReadsBack (bare_frame flag id)
unfolding unpack_body header
bare-ReadsBack flag id c ne h rest =
    rw (pack-bare flag id c ne, unpack-header (bare_frame flag id) rest h, c) (ground arith)

-- Whatever follows it in the stream, a packed frame is read back as it was, with the number of its
-- bytes, and the reader is left at the bytes behind it.
pub unpack-pack :
    (p : Packager) (rest : List ℕ)
    → p.id < 2 ^ 32
    → IsFrame p
    → unpack (pack p ++ rest) ≡ ok (wire_size p, p, rest)
unpack-pack p rest h (message c e fits w) =
    subst ReadsBack {x = message_frame p.flag p.id p.content} {y = p} (ground arith)
      (message-ReadsBack p.flag p.id p.content c h (omega arith)) rest
unpack-pack p rest h (send_ok f w l c) =
    subst ReadsBack {x = window_frame p.id p.window} {y = p} (ground arith)
      (window-ReadsBack p.id p.window h w) rest
unpack-pack p rest h (bare c ne w l e) =
    subst ReadsBack {x = bare_frame p.flag p.id} {y = p} (ground arith)
      (bare-ReadsBack p.flag p.id c ne h) rest
