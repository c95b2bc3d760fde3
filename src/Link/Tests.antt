-- ===== src/Link/Tests.antt =====
-- The theorems on values between the two sides at concrete ones.
use nat_punch.Base.{ℕ, ◌≤◌, length, ◌≡◌, refl, arith, List, [], ◌∷◌, ◌++◌, Option, none, some}
use nat_punch.Link.{
  pool_size, send_info, get_write_str, get_health_info, send_health_info, get_bool_by_str,
}
use nat_punch.Link.Infos.{received, get_info-send_info}
use nat_punch.Link.Health.{get_health_info-send_health_info}

-- A number as one byte.
abbrev marshal : ℕ → Option (List ℕ)
marshal n = some (n ∷ [])

abbrev unmarshal : List ℕ → Option ℕ
unmarshal [] = none
unmarshal (n ∷ s) = some n

abbrev conf : List ℕ
conf = 99 ∷ 111 ∷ 110 ∷ 102 ∷ []

get_info-send_info_example :
    (w : List ℕ) × (send_info marshal unmarshal 7 conf ≡ some w)
    × (received marshal unmarshal (w ++ 5 ∷ []) ≡ some ((conf, 7), 5 ∷ []))
get_info-send_info_example =
    get_info-send_info marshal unmarshal 7 (7 ∷ []) conf (5 ∷ []) refl refl refl (omega arith)
      (omega arith)

-- The target `a` is up.
abbrev target : List ℕ
target = 97 ∷ []

written-size : length (get_write_str (target ∷ (49 ∷ []) ∷ [])) ≤ pool_size
unfolding get_write_str
written-size = omega arith

get_health_info-send_health_info_example :
    get_health_info (send_health_info target (49 ∷ []) ++ 5 ∷ [])
    ≡ some ((target, get_bool_by_str (49 ∷ [])), 5 ∷ [])
get_health_info-send_health_info_example =
    get_health_info-send_health_info target (49 ∷ []) (5 ∷ []) (omega arith, tt) (omega arith, tt)
      written-size
