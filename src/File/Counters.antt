-- ===== src/File/Counters.antt =====
-- The counters of a client in lib/file/obj.go: the slots for connections, of which `GetConn` takes
-- one and `AddConn` gives one back, and the bytes of `Flow`. A count is a signed 32-bit number in Go;
-- here it is an integer, as wide as needed.
use nat_punch.Base.{
  ℕ, zero, suc, ◌+◌, ◌<◌, ◌≤◌, ◌≡◌, refl, arith, Bool, true, false, not, ◌&&◌, List, [], ◌∷◌, ◌==◌,
  leb, dec_lt, if◌then◌else◌,
}
use nat_punch.Base.Int.{ℤ, pos, sub_ℕ, ◌+ℤ◌, ◌-ℤ◌, leb_ℤ}

pub record Slots : Type 0 where
  pub max_conn : ℕ
  pub now_conn : ℤ

-- The result is whether a slot was free.
unfoldable pub get_conn : Slots → Slots × Bool
get_conn s =
    if not (s.max_conn == 0) && leb_ℤ (pos s.max_conn) s.now_conn
    then (s, false)
    else (record s { now_conn = s.now_conn +ℤ pos 1 }, true)

-- `AddConn` gives a slot back, `CutConn` takes one unasked.
unfoldable pub add_conn : Slots → Slots
add_conn s = record s { now_conn = s.now_conn -ℤ pos 1 }

unfoldable pub cut_conn : Slots → Slots
cut_conn s = record s { now_conn = s.now_conn +ℤ pos 1 }

pub record Flow : Type 0 where
  pub export_flow : ℤ
  pub inlet_flow : ℤ
  pub flow_limit : ℤ

unfoldable pub add : ℤ → ℤ → Flow → Flow
add inward outward f = record f {
  inlet_flow = f.inlet_flow +ℤ inward;
  export_flow = f.export_flow +ℤ outward;
}

unfoldable pub snapshot : Flow → ℤ × ℤ × ℤ
snapshot f = (f.flow_limit, f.inlet_flow, f.export_flow)

unfoldable pub set_limit : ℤ → Flow → Flow
set_limit limit f = record f { flow_limit = limit }

unfoldable pub set_flows : ℤ → ℤ → Flow → Flow
set_flows inward outward f = record f { inlet_flow = inward; export_flow = outward }

-- Connections come and go: `true` asks for a slot, `false` gives one back, if one is held.
-- The second component is the number of slots held.
unfoldable pub serve : List Bool → Slots × ℕ → Slots × ℕ
serve [] s = s
serve (true ∷ ops) (s, held) =
    let (s', free) = get_conn s in serve ops (s', if free then suc held else held)
serve (false ∷ ops) (s, zero) = serve ops (s, zero)
serve (false ∷ ops) (s, suc held) = serve ops (add_conn s, held)

-- A client with `held` of its slots taken.
abbrev pub taken_slots : ℕ → ℕ → Slots
taken_slots max held = record { max_conn = max; now_conn = pos held }

get_conn-free :
    (max held : ℕ)
    → held < max
    → get_conn (taken_slots max held) ≡ (taken_slots max (suc held), true)
unfolding get_conn ◌+ℤ◌
get_conn-free max held h =
    let guard : (not (max == 0) && leb (max + 0) (held + 0)) ≡ false = ground arith in
    let more : sub_ℕ (held + 1) 0 ≡ pos (suc held) = ground arith in rw (guard, more) refl

get_conn-full :
    (max held : ℕ)
    → 0 < max
    → max ≤ held
    → get_conn (taken_slots max held) ≡ (taken_slots max held, false)
unfolding get_conn
get_conn-full max held p h =
    let guard : (not (max == 0) && leb (max + 0) (held + 0)) ≡ true = ground arith in rw guard refl

add_conn-taken : (max held : ℕ) → add_conn (taken_slots max (suc held)) ≡ taken_slots max held
unfolding add_conn ◌-ℤ◌
add_conn-taken max held =
    let less : sub_ℕ (suc held + 0) 1 ≡ pos held = ground arith in rw less refl

-- With a positive limit, however connections ask for slots and give back those they hold, the
-- counter is the number of slots held, and never more than the limit.
pub serve_lem :
    (ops : List Bool) (max held : ℕ)
    → 0 < max
    → held ≤ max
    → (now : ℕ) × (serve ops (taken_slots max held, held) ≡ (taken_slots max now, now))
      × (now ≤ max)
unfolding serve
serve_lem [] max held p h = (held, refl, h)
serve_lem (true ∷ ops) max held p h = elim (dec_lt held max) [
  | yes l ↦ rw (get_conn-free max held l) (serve_lem ops max (suc held) p (omega arith))
  | no l ↦ rw (get_conn-full max held p (omega arith)) (serve_lem ops max held p h)
]
serve_lem (false ∷ ops) max zero p h = serve_lem ops max zero p h
serve_lem (false ∷ ops) max (suc held) p h =
    rw (add_conn-taken max held) (serve_lem ops max held p (omega arith))
