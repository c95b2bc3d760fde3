-- ===== src/Link.antt =====
-- `Conn` of lib/conn/conn.go: how the client and the server write values, with their lengths, on the
-- connection between them, and read them back. `stream` is what the connection still delivers, the
-- bytes of `Rb` first. JSON is an argument, as is what the standard library makes of a value.
pub mod Infos
pub mod Health
mod Tests
use nat_punch.Base.{
  ℕ, zero, suc, ◌+◌, ◌-◌, ◌*◌, ◌^◌, ◌%◌, Bool, true, false, ◌||◌, List, [], ◌∷◌, ◌++◌, Option, none,
  some, length, take, drop, ltb, leb, ◌==◌, if◌then◌else◌,
}
use nat_punch.Base.Bytes.{put_le, get_le}
use nat_punch.Base.Int.{ℤ, pos, negsuc, leb_ℤ, ltb_ℤ, pos_part}
use nat_punch.File.Clients.{same}

-- The size of the buffers of `BufPoolMax`.
abbrev pub pool_size : ℕ
pool_size = 64 * 1024

-- A read that may fail; the second part is what is left of the stream.
abbrev pub Reading {ℓ} : Type ℓ → Type ℓ
Reading A = List ℕ → Option (A × List ℕ)

abbrev pub and_then {ℓ κ} :
    {A : Type ℓ} {B : Type κ} → Option (A × List ℕ) → (A → Reading B) → Option (B × List ℕ)
and_then none f = none
and_then (some (a, stream)) f = f a stream

infixl 5 ◌>>=◌
abbrev pub ◌>>=◌ {ℓ κ} : {A : Type ℓ} {B : Type κ} → Reading A → (A → Reading B) → Reading B
m >>= f = λ stream. and_then (m stream) f

abbrev pub give {ℓ} : {A : Type ℓ} → A → Reading A
give a = λ stream. some (a, stream)

abbrev pub fail {ℓ} : {A : Type ℓ} → Reading A
fail = λ stream. none

-- `io.ReadFull` and `binary.Read` into so many bytes.
unfoldable pub read_full : ℕ → Reading (List ℕ)
read_full n = λ stream. if leb n (length stream) then some (take n stream, drop n stream) else none

-- An `int32` from its bit pattern.
unfoldable pub to_int32 : ℕ → ℤ
to_int32 word = if ltb word (2 ^ 31) then pos word else negsuc (2 ^ 32 - 1 - word)

unfoldable pub get_len_bytes : List ℕ → List ℕ
get_len_bytes buf = put_le 4 (length buf % 2 ^ 32) ++ buf

unfoldable pub get_len : Reading ℤ
get_len = do b ← read_full 4; give (to_int32 (get_le b))

unfoldable pub get_short_content : ℤ → Reading (List ℕ)
get_short_content l = read_full (pos_part l)

unfoldable pub get_short_len_content : Reading (List ℕ)
get_short_len_content = do
  l ← get_len
  if ltb_ℤ l (pos 0) || ltb_ℤ (pos (32 * 2 ^ 10)) l then fail else get_short_content l

-- `ReadLen` into a buffer of the pool.
unfoldable pub read_len : ℤ → Reading (List ℕ)
read_len c_len =
    if ltb_ℤ (pos pool_size) c_len || leb_ℤ c_len (pos 0) then fail else read_full (pos_part c_len)

unfoldable pub read_flag : Reading (List ℕ)
read_flag = read_full 4

module _ {ℓ} {T : Type ℓ} (marshal : T → Option (List ℕ)) (unmarshal : List ℕ → Option T) where
  abbrev pub flagged : List ℕ → Option (List ℕ) → Option (List ℕ)
  flagged flag none = none
  flagged flag (some b) = some (flag ++ get_len_bytes b)

  -- `SendInfo`: what is written.
  unfoldable pub send_info : T → List ℕ → Option (List ℕ)
  send_info t flag = flagged flag (marshal t)

  abbrev pub decoded : Option T → Reading T
  decoded none = fail
  decoded (some t) = give t

  unfoldable pub get_info : Reading T
  get_info = do l ← get_len; b ← read_len l; decoded (unmarshal b)

-- `CONN_DATA_SEQ`.
abbrev pub conn_data_seq : List ℕ
conn_data_seq = 42 ∷ 35 ∷ 42 ∷ []

unfoldable pub get_write_str : List (List ℕ) → List ℕ
get_write_str [] = []
get_write_str (v ∷ vs) = v ++ (conn_data_seq ++ get_write_str vs)

unfoldable pub binary_write : List (List ℕ) → List ℕ
binary_write vs = get_len_bytes (get_write_str vs)

abbrev pub cons_part : ℕ → List (List ℕ) → List (List ℕ)
cons_part c [] = (c ∷ []) ∷ []
cons_part c (part ∷ parts) = (c ∷ part) ∷ parts

-- `strings.Split` at the separator.
unfoldable pub split : List ℕ → List (List ℕ)
split [] = [] ∷ []
split (c ∷ []) = (c ∷ []) ∷ []
split (c ∷ d ∷ []) = (c ∷ d ∷ []) ∷ []
split (c ∷ d ∷ e ∷ s) =
    let rest = split s in
    let next = split (d ∷ e ∷ s) in
    if c == 42
    then (if d == 35 then (if e == 42 then [] ∷ rest else cons_part c next) else cons_part c next)
    else cons_part c next

unfoldable pub get_bool_by_str : List ℕ → Bool
get_bool_by_str s = same s (49 ∷ []) || same s (116 ∷ 114 ∷ 117 ∷ 101 ∷ [])

unfoldable pub send_health_info : List ℕ → List ℕ → List ℕ
send_health_info info status = binary_write (info ∷ status ∷ [])

abbrev pub health_of : List (List ℕ) → Reading (List ℕ × Bool)
health_of [] = fail
health_of (info ∷ []) = fail
health_of (info ∷ status ∷ more) = give (info, get_bool_by_str status)

unfoldable pub get_health_info : Reading (List ℕ × Bool)
get_health_info = do l ← get_len; b ← read_len l; health_of (split b)
