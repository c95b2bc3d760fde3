-- ===== src/Mux/Frame/Limits.antt =====
-- What `Set` lets through to the other side, and what a reader accepts from any byte stream.
use nat_punch.Base.{
  ℕ, zero, suc, ◌+◌, ◌-◌, ◌^◌, ◌%◌, ◌<◌, ◌≤◌, ◌≡◌, ◌≢◌, refl, sym, subst, ap, ◌∙◌, arith, Bool,
  true, false, ◌||◌, ◌&&◌, List, [], ◌∷◌, ◌++◌, Option, none, some, take, append_assoc, append-nil,
  ==_iff, Bool-cases, inl, inr, drop, leb, ltb, ◌==◌, if◌then◌else◌, length-take, length-drop,
  length-append, take_of_length-le,
}
use nat_punch.Base
use nat_punch.Base.Bytes.{get_le}
use nat_punch.Base.Result.{Result, ok, err, ◌>>=◌, ◌>>◌, refuse}
use nat_punch.Mux.Frame.{
  Packager, blank, bytes, Error, too_large, has_content, mux_msg_send_ok, pool_size_window,
  maximum_segment_size, set, set_bytes, set_content, pack, read_full, unpack_content, unpack_body,
  unpack,
}
use nat_punch.Mux.Frame.RoundTrip.{IsFrame, message, wire_size, unpack-pack}

-- What the receiver gets of a byte slice that was sent: the slice, or nothing of one that is larger
-- than a segment.
abbrev pub delivered : List ℕ → List ℕ
delivered content = if ltb maximum_segment_size (Base.length content) then [] else content

set-IsFrame :
    (buffer : List ℕ) (flag id : ℕ) (content : List ℕ)
    → has_content flag ≡ true
    → (p : Packager) × (set blank buffer flag id (bytes content) ≡ some p)
      × IsFrame p
      × (p.content ≡ delivered content)
      × (p.id ≡ id)
unfolding set set_bytes set_content
set-IsFrame buffer flag id content c =
    elim (Bool-cases (ltb maximum_segment_size (Base.length content))) [
      | inl large ↦
          rw (c, large)
            (
              record { flag = flag; id = id; window = 0; length = 0; content = [] },
              refl,
              message c refl (omega arith) refl,
              refl,
              refl,
            )
      | inr fits ↦
          rw (c, fits)
            (
              record {
                flag = flag;
                id = id;
                window = 0;
                length = Base.length content % 2 ^ 16;
                content = content;
              },
              refl,
              message c (ground arith) (ground arith) refl,
              refl,
              refl,
            )
    ]

-- A slice sent under a flag that carries bytes is read back on the other side, whole if it fits a
-- segment and empty if it does not; no error tells the two apart.
pub unpack-set :
    (buffer : List ℕ) (flag id : ℕ) (content rest : List ℕ)
    → has_content flag ≡ true
    → id < 2 ^ 32
    → (p : Packager) × (set blank buffer flag id (bytes content) ≡ some p)
      × (unpack (pack p ++ rest) ≡ ok (wire_size p, p, rest))
      × (p.content ≡ delivered content)
unpack-set buffer flag id content rest c h =
    let (p, e, frame, same, i) = set-IsFrame buffer flag id content c in
    (p, e, unpack-pack p rest (omega (arith, i)) frame, same)

-- What a successful read took and left.
abbrev Took : ℕ → List ℕ → Result Error (List ℕ × List ℕ) → Type 0
Took n s (ok (xs, rest)) = (Base.length xs ≡ n) × (n + Base.length rest ≡ Base.length s)
Took n s (err e) = Unit

read_full-Took : (n : ℕ) (s : List ℕ) → Took n s (read_full n s)
unfolding read_full
read_full-Took n s = ground (arith, length-take n s, length-drop n s)

-- A frame that a stream of `total` bytes gave: `n` bytes are gone, and the content has the stated
-- length, at most a segment. The rest of the frame has at most `fixed` bytes.
pub record Accepted (fixed total n : ℕ) (p : Packager) (rest : List ℕ) : Type 0 where
  pub consumed : n + Base.length rest ≡ total
  pub sized : Base.length p.content ≡ p.length
  pub counted : n ≤ fixed + p.length
  pub bounded : p.length ≤ maximum_segment_size

-- The same of a whole result; an error promises nothing.
abbrev pub Accepts : ℕ → ℕ → Result Error (ℕ × Packager × List ℕ) → Type 0
Accepts fixed total (ok (n, p, rest)) = Accepted fixed total n p rest
Accepts fixed total (err e) = Unit

content_read :
    (p : Packager) (s1 word : List ℕ)
    → Base.length word ≡ 2
    → get_le word ≤ maximum_segment_size
    → (r : Result Error (List ℕ × List ℕ)) → Took (get_le word) s1 r
    → Accepts 8 (2 + Base.length s1) (
        r >>= λ x. ok (
          (Base.length word + Base.length x.0) % 2 ^ 16,
          record p { length = get_le word; content = x.0 },
          x.1,
        ))
content_read p s1 word two fits (ok (xs, rest)) t = omega arith
content_read p s1 word two fits (err e) t = tt

size_read :
    (p : Packager) (s : List ℕ)
    → (r : Result Error (List ℕ × List ℕ)) → Took 2 s r
    → Accepts 8 (Base.length s) (
        r >>= λ x.
        refuse (ltb pool_size_window (get_le x.0)) too_large
        >> (refuse (ltb maximum_segment_size (get_le x.0)) too_large
            >> (read_full (get_le x.0) x.1 >>= λ y. ok (
              (Base.length x.0 + Base.length y.0) % 2 ^ 16,
              record p { length = get_le x.0; content = y.0 },
              y.1,
            ))))
size_read p s (ok (word, s1)) t = elim (Bool-cases (ltb pool_size_window (get_le word))) [
  | inl large ↦ rw large tt
  | inr fits ↦
      rw (fits, ← t.1)
        (content_read p s1 word t.0 (ground arith) (read_full (get_le word) s1)
          (read_full-Took (get_le word) s1))
]
size_read p s (err e) t = tt

unpack_content-Accepts :
    (p : Packager) (s : List ℕ) → Accepts 8 (Base.length s) (unpack_content p s)
unfolding unpack_content
unpack_content-Accepts p s = size_read p s (read_full 2 s) (read_full-Took 2 s)

-- Five more bytes stand in front of a body.
body_read :
    (total : ℕ) (r : Result Error (ℕ × Packager × List ℕ))
    → Accepts 8 total r
    → Accepts 13 (5 + total) (r >>= λ x. ok ((5 + x.0) % 2 ^ 16, x.1, x.2))
body_read total (ok (n, p, rest)) a = omega arith
body_read total (err e) a = tt

window_read :
    (p : Packager) (s : List ℕ) (r : Result Error (List ℕ × List ℕ))
    → p.length ≡ 0
    → p.content ≡ []
    → Took 8 s r
    → Accepts 13
        (5 + Base.length s)
        (r >>= λ x. ok ((5 + Base.length x.0) % 2 ^ 16, record p { window = get_le x.0 }, x.1))
window_read p s (ok (xs, rest)) l c t = omega (arith, ap (Base.length {A = ℕ}) c)
window_read p s (err e) l c t = tt

unpack_body-Accepts :
    (p : Packager) (s : List ℕ)
    → p.length ≡ 0
    → p.content ≡ []
    → Accepts 13 (5 + Base.length s) (unpack_body p s)
unfolding unpack_body
unpack_body-Accepts p s l c = elim (Bool-cases (has_content p.flag)) [
  | inl e ↦ rw e (body_read (Base.length s) (unpack_content p s) (unpack_content-Accepts p s))
  | inr e ↦ rw e (elim (Bool-cases (p.flag == mux_msg_send_ok)) [
    | inl w ↦ rw w (window_read p s (read_full 8 s) l c (read_full-Took 8 s))
    | inr b ↦ rw b (omega (arith, ap (Base.length {A = ℕ}) c))
  ])
]

frame_read :
    (s : List ℕ) (r : Result Error (List ℕ × List ℕ))
    → Took 5 s r
    → Accepts 13 (Base.length s) (
        r >>= λ x.
        unpack_body (record blank { flag = get_le (take 1 x.0); id = get_le (drop 1 x.0) }) x.1)
frame_read s (ok (header, s1)) t = rw (← t.1) (unpack_body-Accepts _ s1 refl refl)
frame_read s (err e) t = tt

-- Whatever bytes arrive, a frame that `UnPack` accepts has content of its stated length, at most
-- `maximumSegmentSize`; the count it returns is the number of bytes it took from the stream, and is
-- at most 13 more than that length.
pub unpack-Accepts : (s : List ℕ) → Accepts 13 (Base.length s) (unpack s)
unfolding unpack
unpack-Accepts s = frame_read s (read_full 5 s) (read_full-Took 5 s)
