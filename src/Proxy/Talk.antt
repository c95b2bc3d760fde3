-- ===== src/Proxy/Talk.antt =====
-- A conversation over a connection: what the other side sends, what has been written, and whether
-- the connection is closed. `writes` counts the writes that still succeed.
pub mod Rules
use nat_punch.Base.{
  ℕ, zero, suc, Bool, true, false, List, [], ◌∷◌, ◌++◌, length, take, drop, leb, if◌then◌else◌,
}

pub record Wire : Type 0 where
  pub input : List ℕ
  pub sent : List (List ℕ)
  pub writes : ℕ
  pub closed : Bool

-- A handler goes on with a value, or returns early.
pub data Step {ℓ} (A : Type ℓ) : Type ℓ where
  next : A → Wire → Step A
  stop : Wire → Step A

abbrev pub Talk {ℓ} : Type ℓ → Type ℓ
Talk A = Wire → Step A

abbrev pub and_then {ℓ κ} : {A : Type ℓ} {B : Type κ} → Step A → (A → Talk B) → Step B
and_then (stop w) f = stop w
and_then (next a w) f = f a w

infixl 5 ◌>>=◌ ◌>>◌
abbrev pub ◌>>=◌ {ℓ κ} : {A : Type ℓ} {B : Type κ} → Talk A → (A → Talk B) → Talk B
m >>= f = λ w. and_then (m w) f

abbrev pub ◌>>◌ {ℓ κ} : {A : Type ℓ} {B : Type κ} → Talk A → Talk B → Talk B
m >> k = m >>= λ _. k

abbrev pub give {ℓ} : {A : Type ℓ} → A → Talk A
give a = λ w. next a w

abbrev pub close : Wire → Wire
close w = record w { closed = true }

-- A write that nobody checks.
unfoldable pub put : List ℕ → Wire → Wire
put out w = record w { sent = w.sent ++ out ∷ [] }

-- `c.Close(); return`, after what `say` writes.
abbrev pub quit {ℓ} : {A : Type ℓ} → (Wire → Wire) → Talk A
quit say = λ w. stop (close (say w))

-- `io.ReadFull`, where a failure is answered by `say` and the end of the connection.
unfoldable pub read : (Wire → Wire) → ℕ → Talk (List ℕ)
read say n = λ w.
    if leb n (length w.input)
    then next (take n w.input) (record w { input = drop n w.input })
    else stop (close (say w))

abbrev pub silent : Wire → Wire
silent w = w

-- `c.Write`, where a failure ends the connection.
abbrev pub write_with : ℕ → List ℕ → Talk (Unit {0})
write_with zero out = λ w. stop (close w)
write_with (suc left) out = λ w. next tt (record (put out w) { writes = left })

unfoldable pub write : List ℕ → Talk (Unit {0})
write out = λ w. write_with w.writes out w
