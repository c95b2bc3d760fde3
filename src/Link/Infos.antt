-- ===== src/Link/Infos.antt =====
-- Values and short contents that one side writes and the other reads.
use nat_punch.Base.{
  ℕ, ◌*◌, ◌^◌, ◌%◌, ◌<◌, ◌≤◌, ◌≡◌, refl, sym, ◌∙◌, arith, true, false, ◌||◌, List, ◌++◌, Option,
  none, some, append_assoc, length, length-append, take-length_append, drop-length_append, ltb, leb,
  dec_le, if◌then◌else◌,
}
use nat_punch.Base.Bytes.{put_le, get_le, length-put_le, get_le-put_le}
use nat_punch.Base.Int.{pos, leb_ℤ, ltb_ℤ}
use nat_punch.Link.{
  pool_size, and_then, read_full, to_int32, get_len_bytes, get_len, get_short_content,
  get_short_len_content, read_len, read_flag, send_info, get_info,
}

-- A read of what stands in front.
pub read_full-front :
    (n : ℕ) (b rest : List ℕ) → length b ≡ n → read_full n (b ++ rest) ≡ some (b, rest)
unfolding read_full
read_full-front n b rest e =
    let enough : leb n (length (b ++ rest)) ≡ true = ground (arith, length-append b rest, e) in
    rw (enough, sym e, take-length_append b rest, drop-length_append b rest) refl

pub get_len-front :
    (b rest : List ℕ)
    → length b < 2 ^ 31
    → get_len (get_len_bytes b ++ rest) ≡ some (pos (length b), b ++ rest)
unfolding get_len get_len_bytes to_int32
get_len-front b rest small =
    let word : length b % 2 ^ 32 ≡ length b = omega (arith, small) in
    let back : get_le (put_le 4 (length b % 2 ^ 32)) ≡ length b =
      get_le-put_le 4 (length b % 2 ^ 32) (omega arith) ∙ word in
    let test : ltb (length b) (2 ^ 31) ≡ true = ground (arith, small) in
    rw
      (
        append_assoc (put_le 4 (length b % 2 ^ 32)) b rest,
        read_full-front 4 (put_le 4 (length b % 2 ^ 32)) (b ++ rest)
            (length-put_le 4 (length b % 2 ^ 32)),
        back,
        test,
      )
      refl

pub read_len-front :
    (b rest : List ℕ)
    → 0 < length b
    → length b ≤ pool_size
    → read_len (pos (length b)) (b ++ rest) ≡ some (b, rest)
unfolding read_len
read_len-front b rest some_bytes small =
    let test : (ltb_ℤ (pos pool_size) (pos (length b)) || leb_ℤ (pos (length b)) (pos 0)) ≡ false =
      ground (arith, some_bytes, small) in
    rw (test, read_full-front (length b) b rest refl) refl

module _ {ℓ} {T : Type ℓ} (marshal : T → Option (List ℕ)) (unmarshal : List ℕ → Option T) where
  -- A flag, and the value behind it.
  abbrev pub received : List ℕ → Option ((List ℕ × T) × List ℕ)
  received stream =
      and_then (read_flag stream)
        (λ flag s. and_then (get_info marshal unmarshal s) (λ t s. some ((flag, t), s)))

  -- A value that JSON encodes in one byte at least and in no more than a buffer holds, and decodes to
  -- itself again, is sent with a flag of four bytes and received as it was, with the flag, and nothing
  -- is taken of what follows.
  pub get_info-send_info :
      (t : T) (b flag rest : List ℕ)
      → marshal t ≡ some b
      → unmarshal b ≡ some t
      → length flag ≡ 4
      → 0 < length b
      → length b ≤ pool_size
      → (w : List ℕ) × (send_info marshal unmarshal t flag ≡ some w)
        × (received (w ++ rest) ≡ some ((flag, t), rest))
  unfolding send_info get_info read_flag
  get_info-send_info t b flag rest encoded back four some_bytes small = (
    flag ++ get_len_bytes b,
    rw encoded refl,
    rw
        (
          append_assoc flag (get_len_bytes b) rest,
          read_full-front 4 flag (get_len_bytes b ++ rest) four,
          get_len-front b rest (omega (arith, small)),
          read_len-front b rest some_bytes small,
          back,
        )
        refl,
  )

-- A short content of at most 32 KiB is read back with its length; a longer one is refused, and so is
-- any stream whose length says more.
pub get_short_len_content-bytes :
    (b rest : List ℕ)
    → length b < 2 ^ 31
    → get_short_len_content (get_len_bytes b ++ rest)
      ≡ (if leb (length b) (32 * 2 ^ 10) then some (b, rest) else none)
unfolding get_short_len_content get_short_content
get_short_len_content-bytes b rest small = elim (dec_le (length b) (32 * 2 ^ 10)) [
  | yes short ↦
      let test : (ltb_ℤ (pos (length b)) (pos 0) || ltb_ℤ (pos (32 * 2 ^ 10)) (pos (length b)))
          ≡ false =
        ground (arith, short) in
      let fits : leb (length b) (32 * 2 ^ 10) ≡ true = ground (arith, short) in
      rw (get_len-front b rest small, test, fits, read_full-front (length b) b rest refl) refl
  | no long ↦
      let test : (ltb_ℤ (pos (length b)) (pos 0) || ltb_ℤ (pos (32 * 2 ^ 10)) (pos (length b)))
          ≡ true =
        ground (arith, long) in
      let over : leb (length b) (32 * 2 ^ 10) ≡ false = ground (arith, long) in
      rw (get_len-front b rest small, test, over) refl
]
