-- ===== src/Mux/Frame.antt =====
-- lib/natpunch_mux/netpackager.go, with the flags of mux.go and the sizes of pool.go: the frames that
-- cross the bridge connection. A byte is a number below 256, an `int32` id its bit pattern. The
-- scratch buffer `buf` and the buffer pools are left out; what a pool hands out is an argument. A
-- writer that fails is left out; a reader is the list of bytes that it still delivers.
pub mod RoundTrip
pub mod Limits
use nat_punch.Base.{
  ℕ, zero, suc, ◌+◌, ◌-◌, ◌^◌, ◌%◌, Bool, true, false, ◌||◌, ◌&&◌, List, [], ◌∷◌, ◌++◌, Option,
  none, some, length, take, drop, leb, ltb, ◌==◌, if◌then◌else◌,
}
use nat_punch.Base
use nat_punch.Base.Bytes.{put_le, get_le}
use nat_punch.Base.Result.{Result, ok, err, ◌>>=◌, ◌>>◌, refuse}

abbrev pub mux_ping_flag : ℕ
mux_ping_flag = 0

abbrev pub mux_new_conn_ok : ℕ
mux_new_conn_ok = 1

abbrev pub mux_new_conn_fail : ℕ
mux_new_conn_fail = 2

abbrev pub mux_new_msg : ℕ
mux_new_msg = 3

abbrev pub mux_new_msg_part : ℕ
mux_new_msg_part = 4

abbrev pub mux_msg_send_ok : ℕ
mux_msg_send_ok = 5

abbrev pub mux_new_conn : ℕ
mux_new_conn = 6

abbrev pub mux_conn_close : ℕ
mux_conn_close = 7

abbrev pub mux_ping_return : ℕ
mux_ping_return = 8

-- The id of the ping frames, -1.
abbrev pub mux_ping : ℕ
mux_ping = 2 ^ 32 - 1

abbrev pub pool_size_buffer : ℕ
pool_size_buffer = 4096

abbrev pub pool_size_window : ℕ
pool_size_window = pool_size_buffer - 2 - 4 - 4 - 1

abbrev pub maximum_segment_size : ℕ
maximum_segment_size = pool_size_window

-- `muxPackager` with its embedded `basePackager`.
pub record Packager : Type 0 where
  pub flag : ℕ
  pub id : ℕ
  pub window : ℕ
  pub length : ℕ
  pub content : List ℕ

-- A packager as the pool hands it out, after `reset`.
abbrev pub blank : Packager
blank = record { flag = 0; id = 0; window = 0; length = 0; content = [] }

-- What `sendInfo` is given: nil, a byte slice (which may be nil itself) or a window.
pub data Info : Type 0 where
  nil : Info
  nil_bytes : Info
  bytes : List ℕ → Info
  size : ℕ → Info

-- The flags whose frames carry bytes.
unfoldable pub has_content : ℕ → Bool
has_content flag =
    flag == mux_ping_flag
    || flag == mux_ping_return
    || flag == mux_new_msg
    || flag == mux_new_msg_part

-- `basePackager.Set`: too large a slice is logged and leaves the packager empty.
unfoldable pub set_content : Packager → List ℕ → Packager
set_content p content =
    if ltb maximum_segment_size (Base.length content)
    then record p { length = 0; content = [] }
    else record p { length = Base.length content % 2 ^ 16; content = content }

-- The first case of the switch in `muxPackager.Set`. A failed type assertion is `none`.
unfoldable pub set_bytes : Packager → Info → Option Packager
set_bytes p nil = some p
set_bytes p nil_bytes = some (record p { length = 0; content = [] })
set_bytes p (bytes content) = some (set_content p content)
set_bytes p (size n) = none

unfoldable pub set_window : Packager → Info → Option Packager
set_window p (size n) = some (record p { window = n })
set_window p other = none

-- `muxPackager.Set`, where `buffer` is what the pool of buffers hands out.
unfoldable pub set : Packager → List ℕ → ℕ → ℕ → Info → Option Packager
set p buffer flag id info =
    if has_content flag
    then set_bytes (record p { flag = flag; id = id; content = buffer }) info
    else if flag == mux_msg_send_ok
    then set_window (record p { flag = flag; id = id }) info
    else some (record p { flag = flag; id = id })

-- `muxPackager.Pack`: the bytes written.
unfoldable pub pack : Packager → List ℕ
pack p =
    let header = p.flag ∷ put_le 4 p.id in
    if has_content p.flag
    then (header ++ put_le 2 p.length) ++ take p.length p.content
    else if p.flag == mux_msg_send_ok
    then header ++ put_le 8 p.window
    else header

-- `eof` and `unexpected_eof` are those of `io.ReadFull`; `too_large` is a length that no frame has.
pub data Error : Type 0 where
  eof unexpected_eof too_large : Error

-- `io.ReadFull` into a buffer of `n` bytes: the bytes read, and those still to come.
unfoldable pub read_full : ℕ → List ℕ → Result Error (List ℕ × List ℕ)
read_full n s =
    if leb n (Base.length s)
    then ok (take n s, drop n s)
    else if Base.length s == 0
    then err eof
    else err unexpected_eof

-- `basePackager.UnPack`. The capacity of the content buffer is that of a pool buffer.
unfoldable pub unpack_content : Packager → List ℕ → Result Error (ℕ × Packager × List ℕ)
unpack_content p s = do
  (word, s1) ← read_full 2 s
  refuse (ltb pool_size_window (get_le word)) too_large
  refuse (ltb maximum_segment_size (get_le word)) too_large
  (content, s2) ← read_full (get_le word) s1
  ok (
    (Base.length word + Base.length content) % 2 ^ 16,
    record p { length = get_le word; content = content },
    s2,
  )

-- The switch of `muxPackager.UnPack`, once the flag and the id are read.
unfoldable pub unpack_body : Packager → List ℕ → Result Error (ℕ × Packager × List ℕ)
unpack_body p s =
    if has_content p.flag
    then (do (m, q, s1) ← unpack_content p s; ok ((5 + m) % 2 ^ 16, q, s1))
    else if p.flag == mux_msg_send_ok
    then (do
      (word, s1) ← read_full 8 s
      ok ((5 + Base.length word) % 2 ^ 16, record p { window = get_le word }, s1))
    else ok (5, p, s)

-- `muxPackager.UnPack` on a packager from the pool: the count of bytes read, the frame, and the bytes
-- still to come.
unfoldable pub unpack : List ℕ → Result Error (ℕ × Packager × List ℕ)
unpack s = do
  (header, s1) ← read_full 5 s
  unpack_body (record blank { flag = get_le (take 1 header); id = get_le (drop 1 header) }) s1
