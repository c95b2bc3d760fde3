-- ===== src/Common/Ports.antt =====
-- Ports as text: `GetPorts` and `IsPort` of lib/common/util.go. `strconv.Atoi` is an argument.
use nat_punch.Base.{
  ℕ, zero, suc, ◌+◌, ◌-◌, ◌≤◌, arith, List, [], ◌∷◌, ◌++◌, Option, none, some, All, ltb, leb, ◌==◌,
  if◌then◌else◌, inl, inr, Bool-cases,
}
use nat_punch.Base.Int.{ℤ, pos, negsuc}
use nat_punch.File.Targets.{glue}

-- `strings.Split` at one byte.
unfoldable pub split_at : ℕ → List ℕ → List (List ℕ)
split_at c [] = [] ∷ []
split_at c (x ∷ s) = let rest = split_at c s in if x == c then [] ∷ rest else glue x rest

-- The numbers from `i` on, so many of them.
unfoldable pub count_up : ℕ → ℕ → List ℕ
count_up i zero = []
count_up i (suc n) = i ∷ count_up (i + 1) n

module _ (atoi : List ℕ → Option ℤ) where
  abbrev pub in_range : Option ℤ → Option ℕ
  in_range none = none
  in_range (some (pos n)) = if ltb 65536 n then none else if ltb n 1 then none else some n
  in_range (some (negsuc n)) = none

  -- `IsPort`, with the number.
  unfoldable pub is_port : List ℕ → Option ℕ
  is_port p = in_range (atoi p)

  abbrev pub interval : Option ℕ → Option ℕ → List ℕ
  interval none b = []
  interval (some a) none = []
  interval (some a) (some b) = count_up a (b + 1 - a)

  abbrev pub one_port : Option ℕ → List ℕ
  one_port none = []
  one_port (some a) = a ∷ []

  abbrev pub part : List ℕ → List (List ℕ) → List ℕ
  part v (a ∷ b ∷ []) = interval (is_port a) (is_port b)
  part v other = one_port (is_port v)

  abbrev pub parts : List (List ℕ) → List ℕ
  parts [] = []
  parts (v ∷ arr) = part v (split_at 45 v) ++ parts arr

  unfoldable pub get_ports : List ℕ → List ℕ
  get_ports p = parts (split_at 44 p)

  abbrev pub IsPort : ℕ → Type 0
  IsPort n = (1 ≤ n) × (n ≤ 65536)

  append-All : (xs ys : List ℕ) → All IsPort xs → All IsPort ys → All IsPort (xs ++ ys)
  append-All [] ys p q = q
  append-All (x ∷ xs) ys (p, ps) q = (p, append-All xs ys ps q)

  count_up-All : (i n : ℕ) → 1 ≤ i → i + n ≤ 65537 → All IsPort (count_up i n)
  unfolding count_up
  count_up-All i zero p q = tt
  count_up-All i (suc n) p q =
      ((p, omega (arith, q)), count_up-All (i + 1) n (omega arith) (omega (arith, q)))

  abbrev Ported : Option ℕ → Type 0
  Ported none = Unit
  Ported (some n) = IsPort n

  in_range-Ported : (o : Option ℤ) → Ported (in_range o)
  in_range-Ported none = tt
  in_range-Ported (some (negsuc n)) = tt
  in_range-Ported (some (pos n)) = elim (Bool-cases (ltb 65536 n)) [
    | inl e ↦ rw e tt
    | inr e ↦ elim (Bool-cases (ltb n 1)) [
      | inl f ↦ rw (e, f) tt
      | inr f ↦ rw (e, f) (ground (arith, f), ground (arith, e))
    ]
  ]

  is_port-Ported : (p : List ℕ) → Ported (is_port p)
  unfolding is_port
  is_port-Ported p = in_range-Ported (atoi p)

  interval-All : (a b : Option ℕ) → Ported a → Ported b → All IsPort (interval a b)
  interval-All none b p q = tt
  interval-All (some a) none p q = tt
  interval-All (some a) (some b) p q = elim (Bool-cases (leb a b)) [
    | inl e ↦ count_up-All a (b + 1 - a) p.0 (ground (arith, e, q))
    | inr e ↦ count_up-All a (b + 1 - a) p.0 (ground (arith, e, p))
  ]

  one_port-All : (a : Option ℕ) → Ported a → All IsPort (one_port a)
  one_port-All none p = tt
  one_port-All (some a) p = (p, tt)

  part-All : (v : List ℕ) (fw : List (List ℕ)) → All IsPort (part v fw)
  part-All v [] = one_port-All (is_port v) (is_port-Ported v)
  part-All v (a ∷ []) = one_port-All (is_port v) (is_port-Ported v)
  part-All v (a ∷ b ∷ []) =
      interval-All (is_port a) (is_port b) (is_port-Ported a) (is_port-Ported b)
  part-All v (a ∷ b ∷ c ∷ fw) = one_port-All (is_port v) (is_port-Ported v)

  -- Whatever the text is, every number of `GetPorts` lies between 1 and 65536.
  pub get_ports-IsPort : (p : List ℕ) → All IsPort (get_ports p)
  unfolding get_ports
  get_ports-IsPort p = all (split_at 44 p)
    where
      all : (arr : List (List ℕ)) → All IsPort (parts arr)
      all [] = tt
      all (v ∷ arr) = append-All _ _ (part-All v (split_at 45 v)) (all arr)
