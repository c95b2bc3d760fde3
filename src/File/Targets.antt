-- ===== src/File/Targets.antt =====
-- `Target.GetRandomTarget` of lib/file/obj.go, which hands out the targets in turn, and the counter of
-- connections of `Client`. Strings are byte lists.
pub mod Turns
use nat_punch.Base.{
  ℕ, zero, suc, ◌+◌, ◌-◌, Bool, List, [], ◌∷◌, Option, none, some, length, get_elem?, leb, ◌==◌,
  if◌then◌else◌,
}
use nat_punch.File.Clients.{same}

pub record Target : Type 0 where
  pub now_index : ℕ
  pub target_str : List ℕ
  pub target_arr : Option (List (List ℕ))

-- The line that starts a string, put before the lines behind it.
abbrev pub glue : ℕ → List (List ℕ) → List (List ℕ)
glue x [] = (x ∷ []) ∷ []
glue x (line ∷ lines) = (x ∷ line) ∷ lines

-- `strings.Split(s, "\n")`.
unfoldable pub split_lines : List ℕ → List (List ℕ)
split_lines [] = [] ∷ []
split_lines (x ∷ s) = let rest = split_lines s in if x == 10 then [] ∷ rest else glue x rest

-- `strings.TrimRight(s, "\r")`.
unfoldable pub trim_right : List ℕ → List ℕ
trim_right [] = []
trim_right (x ∷ s) =
    let rest = trim_right s in if x == 13 then (if same rest [] then [] else x ∷ rest) else x ∷ rest

unfoldable pub kept_lines : List (List ℕ) → List (List ℕ)
kept_lines [] = []
kept_lines (v ∷ vs) =
    let rest = kept_lines vs in if same (trim_right v) [] then rest else trim_right v ∷ rest

abbrev pub targets_of : List ℕ → Option (List (List ℕ)) → List (List ℕ)
targets_of str none = kept_lines (split_lines str)
targets_of str (some arr) = arr

unfoldable pub targets : Target → List (List ℕ)
targets t = targets_of t.target_str t.target_arr

-- The index after a call; Go sets it to -1 at the end and then adds 1.
unfoldable pub next_index : ℕ → ℕ → ℕ
next_index count now = if leb (count - 1) now then 0 else now + 1

abbrev pub turn : Target → List (List ℕ) → Target × Option (List ℕ)
turn t arr = if length arr == 0 then (record t { target_arr = some arr }, none) else (
  record t { target_arr = some arr; now_index = next_index (length arr) t.now_index },
  get_elem? arr (next_index (length arr) t.now_index),
)

-- `none` is the error that all targets are offline.
unfoldable pub get_random_target : Target → Target × Option (List ℕ)
get_random_target t = turn t (targets t)
