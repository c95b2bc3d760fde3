-- ===== src/Common.antt =====
-- Helpers of lib/common/util.go on lists of strings and on ports. Strings are byte lists.
pub mod Arrays
pub mod Ports
use nat_punch.Base.{
  ℕ, ◌+◌, ◌-◌, ◌*◌, Bool, true, false, ◌&&◌, ◌||◌, List, [], ◌∷◌, Option, none, some, if◌then◌else◌,
}
use nat_punch.File.Clients.{same}

-- Throws the empty strings out.
unfoldable pub trim_arr : List (List ℕ) → List (List ℕ)
trim_arr [] = []
trim_arr (v ∷ arr) = let rest = trim_arr arr in if same v [] then rest else v ∷ rest

unfoldable pub is_arr_contains : List (List ℕ) → List ℕ → Bool
is_arr_contains [] val = false
is_arr_contains (v ∷ arr) val = let rest = is_arr_contains arr val in same v val || rest

-- Removes the first string that is `val`.
unfoldable pub remove_arr_val : List (List ℕ) → List ℕ → List (List ℕ)
remove_arr_val [] val = []
remove_arr_val (v ∷ arr) val =
    let rest = remove_arr_val arr val in if same v val then arr else v ∷ rest
