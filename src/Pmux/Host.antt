-- ===== src/Pmux/Host.antt =====
-- How the header of an HTTP request is searched for its Host line.
use nat_punch.Base.{
  ℕ, zero, suc, ◌+◌, ◌<◌, ◌≤◌, ◌≡◌, ◌≢◌, refl, sym, ap, ◌∙◌, subst, arith, true, false, List, [],
  ◌∷◌, ◌++◌, append_assoc, length, length-append, ltb, ◌==◌, Option, none, some, All, inl, inr,
  Bool-cases, dec_lt,
}
use nat_punch.Pmux.{
  max_http_header_bytes, buffer_size, Line, Ending, feed, eof, full, cons_line, read_slice,
  ends_in_return, drop_last, trimmed, read_line, crlf, Search, dropped, exhausted, found,
  unless_host, after_line, search_host, cut_header_line, host_value,
}

-- A line without line feeds that fits the reader's buffer.
abbrev pub Fits : List ℕ → Type 0
Fits b = All (λ c. c ≢ 10) b × (length b + 2 ≤ buffer_size)

abbrev pub unlines : List (List ℕ) → List ℕ
unlines [] = []
unlines (b ∷ ls) = b ++ (crlf ++ unlines ls)

abbrev returned : List ℕ → List ℕ
returned b = b ++ 13 ∷ []

read_slice-line :
    (b rest : List ℕ) (room : ℕ)
    → All (λ c. c ≢ 10) b
    → length b + 2 ≤ room
    → read_slice room (b ++ (crlf ++ rest))
      ≡ record { bytes = returned b; rest = rest; ending = feed }
unfolding read_slice
read_slice-line [] rest zero p h = absurd (omega (arith, h))
read_slice-line [] rest (suc zero) p h = absurd (omega (arith, h))
read_slice-line [] rest (suc (suc room)) p h = refl
read_slice-line (c ∷ b) rest zero p h = absurd (omega (arith, h))
read_slice-line (c ∷ b) rest (suc room) (n, p) h =
    let test : (c == 10) ≡ false = ground (arith, n) in
    rw (read_slice-line b rest room p (omega (arith, h)), test) refl

ends_in_return-returned : (b : List ℕ) → ends_in_return (returned b) ≡ true
unfolding ends_in_return
ends_in_return-returned [] = refl
ends_in_return-returned (c ∷ []) = refl
ends_in_return-returned (c ∷ d ∷ b) = ends_in_return-returned (d ∷ b)

drop_last-returned : (b : List ℕ) → drop_last (returned b) ≡ b
unfolding drop_last
drop_last-returned [] = refl
drop_last-returned (c ∷ []) = refl
drop_last-returned (c ∷ d ∷ b) = ap (λ s. c ∷ s) (drop_last-returned (d ∷ b))

read_line-slice :
    (s : List ℕ)
    → length s ≢ 0
    → read_line s ≡ some (trimmed (read_slice buffer_size s) (read_slice buffer_size s).ending)
unfolding read_line
read_line-slice [] h = absurd (h refl)
read_line-slice (c ∷ s) h = refl

pub read_line-front : (b rest : List ℕ) → Fits b → read_line (b ++ (crlf ++ rest)) ≡ some (b, rest)
read_line-front b rest (p, h) =
    let some_bytes : length (b ++ (crlf ++ rest)) ≢ 0 =
      ground (arith, length-append b (crlf ++ rest)) in
    rw
      (
        read_line-slice (b ++ (crlf ++ rest)) some_bytes,
        read_slice-line b rest buffer_size p h,
        ends_in_return-returned b,
        drop_last-returned b,
      )
      refl

-- The lines in front of the Host line are no Host lines.
abbrev pub Passed : List ℕ → Type 0
Passed b = Fits b × (host_value (cut_header_line b) ≡ none)

abbrev joined : List ℕ → List ℕ → List ℕ
joined buffer b = buffer ++ b ++ crlf

joined_lem : (buffer b more : List ℕ) → joined buffer b ++ more ≡ buffer ++ (b ++ (crlf ++ more))
joined_lem buffer b more =
    append_assoc (buffer ++ b) crlf more ∙ append_assoc buffer b (crlf ++ more)

module _ (again : List ℕ → List ℕ → Search) (buffer b rest : List ℕ) where
  after_line-small :
      length (joined buffer b) ≤ max_http_header_bytes
      → after_line again buffer (some (b, rest))
        ≡ unless_host
            (host_value (cut_header_line b))
            (joined buffer b)
            rest
            (again (joined buffer b) rest)
  after_line-small small =
      let test : ltb max_http_header_bytes (length (joined buffer b)) ≡ false =
        ground (arith, small) in
      rw test refl

  after_line-large :
      max_http_header_bytes < length (joined buffer b)
      → after_line again buffer (some (b, rest)) ≡ dropped
  after_line-large large =
      let test : ltb max_http_header_bytes (length (joined buffer b)) ≡ true =
        ground (arith, large) in
      rw test refl

module _ (h host : List ℕ) (ok : Fits h) (is : host_value (cut_header_line h) ≡ some host) where
  -- The search goes past the lines in front, and stops behind the Host line.
  pub search_host-found :
      (fuel : ℕ) (ls : List (List ℕ)) (buffer rest : List ℕ)
      → All Passed ls
      → length (buffer ++ unlines (ls ++ h ∷ [])) ≤ max_http_header_bytes
      → length ls < fuel
      → search_host fuel buffer (unlines (ls ++ h ∷ []) ++ rest)
        ≡ found host (buffer ++ unlines (ls ++ h ∷ [])) rest
  unfolding search_host
  search_host-found zero ls buffer rest p small enough = absurd (omega (arith, enough))
  search_host-found (suc fuel) [] buffer rest p small enough =
      let end : joined buffer h ≡ buffer ++ (h ++ crlf) = append_assoc buffer h crlf in
      let line : read_line ((h ++ crlf) ++ rest) ≡ some (h, rest) =
        ap read_line (append_assoc h crlf rest) ∙ read_line-front h rest ok in
      ap (after_line (search_host fuel) buffer) line
      ∙ after_line-small (search_host fuel) buffer h rest
          (subst (λ s. length s ≤ max_http_header_bytes) (sym end) small)
      ∙ rw (is, end) refl
  search_host-found (suc fuel) (b ∷ ls) buffer rest ((ok_b, other), p) small enough =
      let more = unlines (ls ++ h ∷ []) in
      let regroup : joined buffer b ++ more ≡ buffer ++ (b ++ (crlf ++ more)) =
        joined_lem buffer b more in
      let whole : length (joined buffer b ++ more) ≤ max_http_header_bytes =
        subst (λ s. length s ≤ max_http_header_bytes) (sym regroup) small in
      let line : read_line ((b ++ (crlf ++ more)) ++ rest) ≡ some (b, more ++ rest) =
        ap read_line (append_assoc b (crlf ++ more) rest) ∙ read_line-front b (more ++ rest) ok_b in
      ap (after_line (search_host fuel) buffer) line
      ∙ after_line-small (search_host fuel) buffer b (more ++ rest)
          (omega (arith, whole, length-append (joined buffer b) more))
      ∙ rw (other, sym regroup)
          (search_host-found fuel ls (joined buffer b) rest p whole (omega (arith, enough)))

-- A read takes at least one byte, if there is one.
abbrev Shorter : ℕ → Option (List ℕ × List ℕ) → Type 0
Shorter n none = Unit
Shorter n (some (b, rest)) = length rest < n

abbrev Consumed : ℕ → ℕ → Line → Ending → Type 0
Consumed room n l feed = length l.rest < n
Consumed room n l eof = length l.rest ≡ 0
Consumed room n l full = length l.rest + room ≤ n

cons_line-Consumed :
    (room n c : ℕ) (l : Line) (e : Ending)
    → Consumed room n l e
    → Consumed (suc room) (suc n) (cons_line c l) e
cons_line-Consumed room n c l feed h = omega (arith, h)
cons_line-Consumed room n c l eof h = h
cons_line-Consumed room n c l full h = omega (arith, h)

read_slice-Consumed :
    (room : ℕ) (s : List ℕ)
    → Consumed room (length s) (read_slice room s) (read_slice room s).ending
unfolding read_slice
read_slice-Consumed zero s = omega arith
read_slice-Consumed (suc room) [] = refl
read_slice-Consumed (suc room) (c ∷ s) =
    let more = read_slice room s in
    elim (Bool-cases (c == 10)) [
      | inl e ↦ rw e (omega arith)
      | inr e ↦
          rw e (cons_line-Consumed room (length s) c more more.ending (read_slice-Consumed room s))
    ]

trimmed-Shorter :
    (room n : ℕ) (l : Line) (e : Ending)
    → 1 < room
    → 0 < n
    → Consumed room n l e
    → Shorter n (some (trimmed l e))
trimmed-Shorter room n l feed r p h = h
trimmed-Shorter room n l eof r p h = omega (arith, h, p)
trimmed-Shorter room n l full r p h = elim (Bool-cases (ends_in_return l.bytes)) [
  | inl e ↦ rw e (omega (arith, h, r))
  | inr e ↦ rw e (omega (arith, h, r))
]

read_line-Shorter : (s : List ℕ) → Shorter (length s) (read_line s)
unfolding read_line
read_line-Shorter [] = tt
read_line-Shorter (c ∷ s) =
    let l = read_slice buffer_size (c ∷ s) in
    trimmed-Shorter buffer_size (suc (length s)) l l.ending (omega arith) (omega arith)
      (read_slice-Consumed buffer_size (c ∷ s))

-- A search ends by itself, and what it has collected up to the Host line is within the limit.
abbrev pub Ended : Search → Type 0
Ended dropped = Unit
Ended exhausted = ⊥
Ended (found host buffer rest) = length buffer ≤ max_http_header_bytes

unless_host-Ended :
    (o : Option (List ℕ)) (buffer rest : List ℕ) (again : Search)
    → length buffer ≤ max_http_header_bytes
    → Ended again
    → Ended (unless_host o buffer rest again)
unless_host-Ended none buffer rest again h k = k
unless_host-Ended (some host) buffer rest again h k = h

after_line-Ended :
    (again : List ℕ → List ℕ → Search) (buffer : List ℕ) (n : ℕ) (o : Option (List ℕ × List ℕ))
    → Shorter n o
    → ((buffer rest : List ℕ) → length rest < n → Ended (again buffer rest))
    → Ended (after_line again buffer o)
after_line-Ended again buffer n none h k = tt
after_line-Ended again buffer n (some (b, rest)) h k =
    elim (dec_lt max_http_header_bytes (length (joined buffer b))) [
      | yes large ↦ subst Ended (sym (after_line-large again buffer b rest large)) tt
      | no small ↦
          let fits : length (joined buffer b) ≤ max_http_header_bytes = omega (arith, small) in
          subst Ended (sym (after_line-small again buffer b rest fits)) (
            unless_host-Ended (host_value (cut_header_line b)) (joined buffer b) rest
              (again (joined buffer b) rest) fits (k (joined buffer b) rest h))
    ]

-- With more fuel than there are bytes to come, the search for a Host header ends by itself, whatever
-- the bytes are, and if it finds one, the bytes that it has collected up to the end of the Host line
-- are within the limit on headers; what the reader has fetched beyond is not counted.
pub search_host-Ended :
    (fuel : ℕ) (buffer s : List ℕ) → length s < fuel → Ended (search_host fuel buffer s)
unfolding search_host
search_host-Ended zero buffer s h = absurd (omega (arith, h))
search_host-Ended (suc fuel) buffer s h =
    after_line-Ended (search_host fuel) buffer (length s) (read_line s) (read_line-Shorter s)
      (λ buffer rest l. search_host-Ended fuel buffer rest (omega (arith, h, l)))
