-- ===== src/Pmux/Tests.antt =====
-- The theorems on the port multiplexer at concrete connections.
use nat_punch.Base.{ℕ, ◌≡◌, refl, arith, true, false, some, List, [], ◌∷◌, ◌++◌, take}
use nat_punch.Pmux.{
  cut_header_line, cut_colon, trim_space, trim_runes, space_front, space_back, equal_fold,
  fold_front, host_value, search_host, http_numbers, bytes_to_num, one_of,
}
use nat_punch.Pmux.Playback.{PortConn, reads, stream, reads-stream}
use nat_punch.Pmux.Host.{Ended, unlines, search_host-Ended}

abbrev played : PortConn
played = record { rs = 1 ∷ 2 ∷ 3 ∷ []; read_more = true; start = 1; rest = 4 ∷ 5 ∷ [] }

-- Two reads, each with room for one byte more than the first left, and three bytes on the way.
abbrev two_reads : List (ℕ × ℕ)
two_reads = (1, 3) ∷ (2, 3) ∷ []

reads-stream_example :
    (reads two_reads played).0 ++ stream ((reads two_reads played).1) ≡ 2 ∷ 3 ∷ 4 ∷ 5 ∷ []
reads-stream_example = reads-stream two_reads played (omega arith)

-- ` / `
abbrev request_line : List ℕ
request_line = 32 ∷ 47 ∷ 32 ∷ []

-- `HOST: a:1`
abbrev host_line : List ℕ
host_line = 72 ∷ 79 ∷ 83 ∷ 84 ∷ 58 ∷ 32 ∷ 97 ∷ 58 ∷ 49 ∷ []

abbrev get : List ℕ
get = 71 ∷ 69 ∷ 84 ∷ []

-- The long s and the space that does not break.
odd_line-host :
    host_value
      (cut_header_line (104 ∷ 111 ∷ 197 ∷ 191 ∷ 116 ∷ 58 ∷ 194 ∷ 160 ∷ 97 ∷ 194 ∷ 133 ∷ []))
    ≡ some (97 ∷ [])
unfolding cut_header_line cut_colon trim_space trim_runes space_front space_back equal_fold
    fold_front
odd_line-host = refl

abbrev request : List ℕ
request = get ++ (unlines (request_line ∷ host_line ∷ []) ++ 13 ∷ 10 ∷ 7 ∷ [])

search_host-Ended_example : Ended (search_host 9 [] (72 ∷ 58 ∷ 10 ∷ []))
search_host-Ended_example = search_host-Ended 9 [] (72 ∷ 58 ∷ 10 ∷ []) (omega arith)

abbrev hello : List ℕ
hello = 22 ∷ 3 ∷ 1 ∷ 9 ∷ []

hello-other : one_of (bytes_to_num 0 (take 3 hello)) http_numbers ≡ false
unfolding bytes_to_num
hello-other = refl
