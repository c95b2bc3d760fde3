-- ===== src/Mux/ConnMap.antt =====
-- `connMap` of lib/natpunch_mux/map.go, whose values are connections, and `getId` of mux.go, which
-- numbers new ones.
pub mod Fresh
use nat_punch.Base.{
  ℕ, zero, suc, ◌+◌, ◌-◌, ◌%◌, ◌^◌, Option, none, some, List, [], length, ltb, if◌then◌else◌,
}
use nat_punch.Base.Maps.{Map, lookup, store, delete}

abbrev pub max_int32 : ℕ
max_int32 = 2 ^ 31 - 1

-- The number that a call tries: the counter starts over near the end of the range.
unfoldable pub next : ℕ → ℕ
next id = (if ltb (max_int32 - id) 10000 then 0 else id) + 1

module _ {ℓ} {A : Type ℓ} where
  abbrev pub new_conn_map : Map A
  new_conn_map = []

  abbrev pub size : Map A → ℕ
  size m = length m

  abbrev pub get : ℕ → Map A → Option A
  get id m = lookup id m

  abbrev pub set_conn : ℕ → A → Map A → Map A
  set_conn id v m = store id v m

  abbrev pub delete_conn : ℕ → Map A → Map A
  delete_conn id m = delete id m

  abbrev pub retry : Option A → ℕ → Option ℕ → Option ℕ
  retry none id again = some id
  retry (some v) id again = again

  -- The counter is `s.id`; the result is also its new value. `none` is fuel that ran out.
  unfoldable pub get_id : (fuel : ℕ) → ℕ → Map A → Option ℕ
  get_id zero id m = none
  get_id (suc fuel) id m = retry (get (next id) m) (next id) (get_id fuel (next id) m)
