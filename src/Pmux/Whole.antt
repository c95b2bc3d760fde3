-- ===== src/Pmux/Whole.antt =====
-- `process` and what the consumers of its channels then read.
use nat_punch.Base.{
  ℕ, ◌≤◌, ◌≡◌, refl, ◌∙◌, arith, Bool, true, false, List, ◌++◌, length, take, drop, ltb, ◌==◌,
  if◌then◌else◌, inl, inr, Bool-cases, take-append-drop,
}
use nat_punch.Pmux.{
  http_numbers, client_number, bytes_to_num, one_of, Channel, client_conn, https_conn, Route,
  closed, routed, process,
}
use nat_punch.Pmux.Playback.{new_port_conn, reads, stream, reads-stream}

-- All that a consumer reads from what a connection is routed to, with what it has not read yet.
abbrev pub Seen : List (ℕ × ℕ) → List ℕ → Route → Type 0
Seen ops input closed = ⊥
Seen ops input (routed ch rs read_more rest) =
    let end = reads ops (new_port_conn rs read_more rest) in (end.0) ++ stream (end.1) ≡ input

abbrev pub To : Channel → Route → Type 0
To ch closed = ⊥
To ch (routed to rs read_more rest) = ch ≡ to

routed-Seen :
    (ops : List (ℕ × ℕ)) (input : List ℕ) (ch : Channel) (rs : List ℕ) (more : Bool) (rest : List ℕ)
    → rs ++ rest ≡ input
    → Seen ops input (routed ch rs more rest)
unfolding new_port_conn
routed-Seen ops input ch rs more rest e =
    reads-stream ops (new_port_conn rs more rest) (omega arith) ∙ e

module _ (manager_host : List ℕ) (buffered : ℕ) (ops : List (ℕ × ℕ)) where
  -- A connection of three bytes at least that does not begin as an HTTP request goes to the clients'
  -- channel when its first three bytes are `TST` and to the HTTPS channel otherwise, and the consumer
  -- sees every byte of it in order, however it reads.
  pub process-tunnelled :
      (input : List ℕ)
      → one_of (bytes_to_num 0 (take 3 input)) http_numbers ≡ false
      → 3 ≤ length input
      → Seen ops input (process manager_host buffered input)
        × To
            (if bytes_to_num 0 (take 3 input) == client_number then client_conn else https_conn)
            (process manager_host buffered input)
  unfolding process
  process-tunnelled input other enough =
      let test : ltb (length input) 3 ≡ false = ground (arith, enough) in
      let whole : take 3 input ++ drop 3 input ≡ input = take-append-drop 3 input in
      elim (Bool-cases (bytes_to_num 0 (take 3 input) == client_number)) [
        | inl e ↦
            rw (test, other, e)
              (routed-Seen ops input client_conn (take 3 input) false (drop 3 input) whole, refl)
        | inr e ↦
            rw (test, other, e)
              (routed-Seen ops input https_conn (take 3 input) true (drop 3 input) whole, refl)
      ]
