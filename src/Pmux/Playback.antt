-- ===== src/Pmux/Playback.antt =====
-- `PortConn`: the bytes read to classify a connection come first, then the connection's own.
use nat_punch.Base.{
  ℕ, ◌+◌, ◌-◌, ◌<◌, ◌≤◌, ◌≡◌, refl, sym, ap, ◌∙◌, arith, Bool, true, false, not, List, [], ◌∷◌,
  ◌++◌, append_assoc, length, take, drop, ltb, if◌then◌else◌, take-append-drop, drop-add,
  drop_of_length-le, length-take, length-append, inl, inr, Bool-cases, subst, length-drop, dec_lt,
}

pub record PortConn : Type 0 where
  pub rs : List ℕ
  pub read_more : Bool
  pub start : ℕ
  pub rest : List ℕ

unfoldable pub new_port_conn : List ℕ → Bool → List ℕ → PortConn
new_port_conn rs read_more rest = record { rs = rs; read_more = read_more; start = 0; rest = rest }

-- `copy`, and then a read of the connection, which gives `arrived` bytes at most.
abbrev pub then_conn : List ℕ → ℕ → ℕ → PortConn → List ℕ × PortConn
then_conn head room arrived c =
    let n = if ltb arrived room then arrived else room in
    (head ++ take n c.rest, record c { rest = drop n c.rest })

-- `Read` into a slice with room for `room` bytes.
unfoldable pub read : ℕ → ℕ → PortConn → List ℕ × PortConn
read room arrived c =
    let left = drop c.start c.rs in
    if ltb room (length left)
    then (take room left, record c { start = c.start + room })
    else if ltb c.start (length c.rs)
    then (if not c.read_more
        then (left, record c { start = length c.rs })
        else then_conn left (room - length left) arrived (record c { start = length c.rs }))
    else then_conn [] room arrived c

-- All that a consumer will see.
abbrev pub stream : PortConn → List ℕ
stream c = drop c.start c.rs ++ c.rest

abbrev pub Plays : ℕ → List ℕ → List ℕ × PortConn → Type 0
Plays room before (chunk, c) =
    (chunk ++ stream c ≡ before) × (length chunk ≤ room) × (c.start ≤ length c.rs)

module _ (room arrived : ℕ) (c : PortConn) where
  abbrev left : List ℕ
  left = drop c.start c.rs

  arrived-le : (space : ℕ) → (if ltb arrived space then arrived else space) ≤ space
  arrived-le space = ground arith

  then_conn-Plays :
      (head : List ℕ) (space : ℕ) (d : PortConn)
      → d.start ≡ length d.rs
      → length head + space ≤ room
      → Plays room (head ++ d.rest) (then_conn head space arrived d)
  then_conn-Plays head space d e h =
      let n = if ltb arrived space then arrived else space in
      let small : n ≤ space = arrived-le space in
      let taken : length (head ++ take n d.rest) ≤ room =
        omega (arith, length-append head (take n d.rest), length-take n d.rest, small, h) in
      (
        rw
            (
              drop_of_length-le d.rs d.start (omega (arith, e)),
              append_assoc head (take n d.rest) (drop n d.rest),
              take-append-drop n d.rest,
            )
            refl,
        taken,
        omega (arith, e),
      )

  within-Plays :
      room < length left
      → Plays room (stream c) (take room left, record c { start = c.start + room })
  within-Plays h = (
    rw
        (
          drop-add c.start room c.rs,
          sym (append_assoc (take room left) (drop room left) c.rest),
          take-append-drop room left,
        )
        refl,
    omega (arith, length-take room left),
    omega (arith, h, length-drop c.start c.rs),
  )

  over-Plays :
      length left ≤ room
      → Plays room (stream c) (
          if not c.read_more
          then (left, record c { start = length c.rs })
          else then_conn left (room - length left) arrived (record c { start = length c.rs }))
  over-Plays h = elim (Bool-cases c.read_more) [
    | inl more ↦ rw more (
        then_conn-Plays left (room - length left) (record c { start = length c.rs }) refl
          (omega (arith, h)))
    | inr alone ↦
        rw alone (rw (drop_of_length-le c.rs (length c.rs) (omega arith)) refl, h, omega arith)
  ]

  -- A read gives the next bytes of the stream, no more than there is room for, and leaves those
  -- behind them.
  pub read-Plays : c.start ≤ length c.rs → Plays room (stream c) (read room arrived c)
  unfolding read
  read-Plays ok = elim (dec_lt room (length left)) [
    | yes short ↦
        let test : ltb room (length left) ≡ true = ground (arith, short) in
        rw test (within-Plays short)
    | no long ↦
        let test : ltb room (length left) ≡ false = ground (arith, long) in
        let size : length left ≡ length c.rs - c.start = length-drop c.start c.rs in
        elim (dec_lt c.start (length c.rs)) [
          | yes more ↦
              let within : ltb c.start (length c.rs) ≡ true = ground (arith, more) in
              rw (test, within) (over-Plays (omega (arith, long)))
          | no done ↦
              let past : ltb c.start (length c.rs) ≡ false = ground (arith, done) in
              let none_left : left ≡ [] = drop_of_length-le c.rs c.start (omega (arith, done)) in
              rw (test, past)
                (subst (λ l. Plays room (l ++ c.rest) (then_conn [] room arrived c)) (sym none_left)
                  (then_conn-Plays [] room c (omega (arith, done, ok)) (omega arith)))
        ]
  ]

-- Reads one after another, each with its room and what the connection has for it.
abbrev pub then_reads : List ℕ → List ℕ × PortConn → List ℕ × PortConn
then_reads chunk (more, c) = (chunk ++ more, c)

unfoldable pub reads : List (ℕ × ℕ) → PortConn → List ℕ × PortConn
reads [] c = ([], c)
reads ((room, arrived) ∷ more) c =
    let now = read room arrived c in then_reads (now.0) (reads more (now.1))

-- However a connection is read, from a place within its played-back bytes on, what has been read and
-- what is still to come are its stream.
pub reads-stream :
    (ops : List (ℕ × ℕ)) (c : PortConn)
    → c.start ≤ length c.rs
    → (reads ops c).0 ++ stream (reads ops c).1 ≡ stream c
unfolding reads
reads-stream [] c ok = refl
reads-stream ((room, arrived) ∷ more) c ok =
    let h = read-Plays room arrived c ok in
    let now = read room arrived c in
    append_assoc (now.0) ((reads more (now.1)).0) (stream (reads more (now.1)).1)
    ∙ ap (λ s. now.0 ++ s) (reads-stream more (now.1) (h.2))
    ∙ (h.0)
