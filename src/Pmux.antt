-- ===== src/Pmux.antt =====
-- The port multiplexer of lib/pmux: one port for clients, HTTP, HTTPS and the panel, told apart by
-- the first bytes of a connection (pmux.go), which are then played back (pconn.go).
pub mod Playback
pub mod Host
pub mod Whole
mod Tests
use nat_punch.Base.{
  ℕ, zero, suc, ◌+◌, ◌*◌, ◌-◌, ◌^◌, Bool, true, false, not, ◌&&◌, ◌||◌, List, [], ◌∷◌, ◌++◌, Option,
  none, some, length, get_or, reverse, take, drop, ltb, leb, ◌==◌, if◌then◌else◌,
}
use nat_punch.File.Clients.{same}
use nat_punch.File.Hosts.{get_ip_by_addr}

abbrev pub max_http_header_bytes : ℕ
max_http_header_bytes = 8 * 2 ^ 10

abbrev pub http_numbers : List ℕ
http_numbers = 677978 ∷ 686976 ∷ 716984 ∷ 726965 ∷ 798084 ∷ 807983 ∷ 808585 ∷ 848265 ∷ []

abbrev pub client_number : ℕ
client_number = 848384

-- `common.BytesToNum`: the decimal digits of the bytes, one after another.
abbrev pub shift_of : ℕ → ℕ
shift_of b = if ltb b 10 then 10 else if ltb b 100 then 100 else 1000

unfoldable pub bytes_to_num : ℕ → List ℕ → ℕ
bytes_to_num n [] = n
bytes_to_num n (b ∷ bs) = bytes_to_num (n * shift_of b + b) bs

abbrev pub one_of : ℕ → List ℕ → Bool
one_of n [] = false
one_of n (m ∷ ms) = let rest = one_of n ms in n == m || rest

-- The white space of Unicode, by its bytes in UTF-8: one byte, two bytes, or three.
abbrev pub is_space : ℕ → Bool
is_space c = c == 32 || leb 9 c && leb c 13

abbrev pub is_space_pair : ℕ → ℕ → Bool
is_space_pair c d = c == 194 && (d == 133 || d == 160)

abbrev pub is_space_triple : ℕ → ℕ → ℕ → Bool
is_space_triple c d e =
    c == 225 && d == 154 && e == 128
    || c == 226 && d == 128 && (leb 128 e && leb e 138 || e == 168 || e == 169 || e == 175)
    || c == 226 && d == 129 && e == 159
    || c == 227 && d == 128 && e == 128

-- How many bytes of white space a string begins with, one rune at most, and a reversed one.
unfoldable pub space_front : List ℕ → ℕ
space_front [] = 0
space_front (c ∷ s) =
    if is_space c
    then 1
    else if is_space_pair c (get_or s 0 0)
    then 2
    else if is_space_triple c (get_or s 0 0) (get_or s 1 0)
    then 3
    else 0

unfoldable pub space_back : List ℕ → ℕ
space_back [] = 0
space_back (c ∷ s) =
    if is_space c
    then 1
    else if is_space_pair (get_or s 0 0) c
    then 2
    else if is_space_triple (get_or s 1 0) (get_or s 0 0) c
    then 3
    else 0

-- A string without its first runes as long as `size` finds one; `n` bytes of the last one are left.
abbrev pub keep_or_skip : List ℕ → (ℕ → List ℕ) → ℕ → List ℕ
keep_or_skip s skip zero = s
keep_or_skip s skip (suc n) = skip n

unfoldable pub trim_runes : (size : List ℕ → ℕ) → (n : ℕ) → List ℕ → List ℕ
trim_runes size n [] = []
trim_runes size zero (c ∷ s) = keep_or_skip (c ∷ s) (λ n. trim_runes size n s) (size (c ∷ s))
trim_runes size (suc n) (c ∷ s) = trim_runes size n s

-- `strings.TrimSpace`.
unfoldable pub trim_space : List ℕ → List ℕ
trim_space s = reverse (trim_runes space_back 0 (reverse (trim_runes space_front 0 s)))

-- The first colon of a line, and what stands around it.
abbrev pub cons_key : ℕ → Option (List ℕ × List ℕ) → Option (List ℕ × List ℕ)
cons_key c none = none
cons_key c (some (key, val)) = some (c ∷ key, val)

unfoldable pub cut_colon : List ℕ → Option (List ℕ × List ℕ)
cut_colon [] = none
cut_colon (c ∷ s) = let rest = cut_colon s in if c == 58 then some ([], s) else cons_key c rest

abbrev pub header_of : Option (List ℕ × List ℕ) → Option (List ℕ × List ℕ)
header_of none = none
header_of (some ([], val)) = none
header_of (some (c ∷ key, val)) = some (trim_space (c ∷ key), val)

-- `none` is a line that is no header.
unfoldable pub cut_header_line : List ℕ → Option (List ℕ × List ℕ)
cut_header_line line = header_of (cut_colon line)

abbrev pub lower : ℕ → ℕ
lower c = if leb 65 c && leb c 90 then c + 32 else c

-- How many bytes at the front of a string are a rune that folds to the ASCII letter `d`: one, or the
-- two of the long s, or the three of the sign for Kelvin.
unfoldable pub fold_front : List ℕ → ℕ → ℕ
fold_front [] d = 0
fold_front (c ∷ s) d =
    if lower c == lower d
    then 1
    else if c == 197 && get_or s 0 0 == 191 && lower d == 115
    then 2
    else if c == 226 && get_or s 0 0 == 132 && get_or s 1 0 == 170 && lower d == 107
    then 3
    else 0

-- `strings.EqualFold(s, t)` for a `t` in ASCII, which is all that it is called with.
unfoldable pub equal_fold : (s t : List ℕ) → Bool
equal_fold s [] = same s []
equal_fold s (d ∷ t) =
    let rest = equal_fold (drop (fold_front s d) s) t in not (fold_front s d == 0) && rest

-- The bytes of `host`.
abbrev pub host_key : List ℕ
host_key = 104 ∷ 111 ∷ 115 ∷ 116 ∷ []

abbrev pub host_value : Option (List ℕ × List ℕ) → Option (List ℕ)
host_value none = none
host_value (some (key, val)) = if equal_fold key host_key then some (trim_space val) else none

abbrev pub buffer_size : ℕ
buffer_size = 4096

-- How a slice up to a line feed ends: with one, with the stream, or with the reader's buffer.
pub data Ending : Type 0 where
  feed eof full : Ending

pub record Line : Type 0 where
  pub bytes : List ℕ
  pub rest : List ℕ
  pub ending : Ending

abbrev pub cons_line : ℕ → Line → Line
cons_line c l = record l { bytes = c ∷ l.bytes }

-- `bufio.Reader.ReadSlice` up to a line feed, which is left out, with so much room in the buffer.
unfoldable pub read_slice : (room : ℕ) → List ℕ → Line
read_slice zero s = record { bytes = []; rest = s; ending = full }
read_slice (suc room) [] = record { bytes = []; rest = []; ending = eof }
read_slice (suc room) (c ∷ s) =
    let more = read_slice room s in
    if c == 10 then record { bytes = []; rest = s; ending = feed } else cons_line c more

-- A carriage return at the end.
unfoldable pub ends_in_return : List ℕ → Bool
ends_in_return [] = false
ends_in_return (c ∷ []) = c == 13
ends_in_return (c ∷ d ∷ s) = ends_in_return (d ∷ s)

unfoldable pub drop_last : List ℕ → List ℕ
drop_last [] = []
drop_last (c ∷ []) = []
drop_last (c ∷ d ∷ s) = c ∷ drop_last (d ∷ s)

abbrev pub trimmed : Line → Ending → List ℕ × List ℕ
trimmed l feed = (if ends_in_return l.bytes then drop_last l.bytes else l.bytes, l.rest)
trimmed l eof = (l.bytes, l.rest)
trimmed l full =
    if ends_in_return l.bytes then (drop_last l.bytes, 13 ∷ l.rest) else (l.bytes, l.rest)

-- `bufio.Reader.ReadLine`, without the mark of a part of a line, which the caller ignores; `none` is
-- the end of the stream.
unfoldable pub read_line : List ℕ → Option (List ℕ × List ℕ)
read_line [] = none
read_line (c ∷ s) = let l = read_slice buffer_size (c ∷ s) in some (trimmed l l.ending)

abbrev pub crlf : List ℕ
crlf = 13 ∷ 10 ∷ []

-- How the search for a Host header ends: the connection is dropped, or the host is found, with what
-- has been read and what has not. `exhausted` is fuel that ran out.
pub data Search : Type 0 where
  dropped exhausted : Search
  found : (host : List ℕ) → (buffer rest : List ℕ) → Search

abbrev pub unless_host : Option (List ℕ) → List ℕ → List ℕ → Search → Search
unless_host none buffer rest next = next
unless_host (some host) buffer rest next = found host buffer rest

abbrev pub after_line : (List ℕ → List ℕ → Search) → List ℕ → Option (List ℕ × List ℕ) → Search
after_line again buffer none = dropped
after_line again buffer (some (b, rest)) =
    if ltb max_http_header_bytes (length (buffer ++ b ++ crlf))
    then dropped
    else unless_host (host_value (cut_header_line b)) (buffer ++ b ++ crlf) rest
        (again (buffer ++ b ++ crlf) rest)

unfoldable pub search_host : (fuel : ℕ) → List ℕ → List ℕ → Search
search_host zero buffer s = exhausted
search_host (suc fuel) buffer s = after_line (search_host fuel) buffer (read_line s)

pub data Channel : Type 0 where
  client_conn http_conn https_conn manager_conn : Channel

-- What a connection comes to: it is closed, or handed to a channel with the bytes to play back and
-- those still to read from it.
pub data Route : Type 0 where
  closed : Route
  routed : Channel → (rs : List ℕ) → (read_more : Bool) → (rest : List ℕ) → Route

module _ (manager_host : List ℕ) (buffered : ℕ) where
  -- `buffered` is how many bytes behind the header line the reader has already fetched.
  unfoldable pub by_host : Search → Route
  by_host dropped = closed
  by_host exhausted = closed
  by_host (found host buffer rest) =
      routed (if same (get_ip_by_addr host) manager_host then manager_conn else http_conn)
        (buffer ++ take buffered rest) false (drop buffered rest)

  unfoldable pub process : List ℕ → Route
  process input =
      let buf = take 3 input in
      let number = bytes_to_num 0 buf in
      if ltb (length input) 3
      then closed
      else if one_of number http_numbers
      then by_host (search_host (length input) buf (drop 3 input))
      else if number == client_number
      then routed client_conn buf false (drop 3 input)
      else routed https_conn buf true (drop 3 input)
