-- ===== src/File/Tasks/Limit.antt =====
-- `NewTask` keeps every client within the limit on tunnels.
use nat_punch.Base.{
  ℕ, ◌+◌, ◌<◌, ◌≤◌, ◌≡◌, refl, subst, arith, Bool, true, false, ◌&&◌, [], ◌∷◌, Option, none, some,
  ltb, leb, ◌==◌, if◌then◌else◌, ℕ_discrete,
}
use nat_punch.Base.Maps.{Map, store}
use nat_punch.File.Tasks.{Tunnel, belongs_to, get_task_count_by_client, over_limit, new_task}

count-store :
    (i key : ℕ) (t : Tunnel) (m : Map Tunnel)
    → get_task_count_by_client i (store key t m)
      ≤ get_task_count_by_client i m + (if belongs_to t.client i then 1 else 0)
unfolding get_task_count_by_client
count-store i key t [] = ground arith
count-store i key t ((k, v) ∷ m) = ground (arith, count-store i key t m)

abbrev pub Within : ℕ → ℕ → Option (Map Tunnel) → Type 0
Within max i none = Unit
Within max i (some m) = get_task_count_by_client i m ≤ max

owner-Within :
    (max i : ℕ) (c : Option ℕ) (m : Map Tunnel)
    → 0 < max
    → over_limit max c m ≡ false
    → get_task_count_by_client i m ≤ max
    → get_task_count_by_client i m + (if belongs_to c i then 1 else 0) ≤ max
owner-Within max i none m p q r = omega arith
owner-Within max i (some c) m p q r = elim (ℕ_discrete c i) [
  | yes e ↦
      let b : (c == i) ≡ true = ground (arith, e) in
      let free : (ltb 0 max && leb max (get_task_count_by_client i m)) ≡ false =
        subst (λ c. (ltb 0 max && leb max (get_task_count_by_client c m)) ≡ false) e q in
      rw b (ground (arith, free, p))
  | no n ↦ let b : (c == i) ≡ false = ground (arith, n) in rw b (omega arith)
]

-- With a positive limit, a client with no more tunnels than the limit has no more after `NewTask`,
-- whatever tunnel is given and whosever it is, also where it replaces another.
pub new_task-Within :
    (max i : ℕ) (t : Tunnel) (m : Map Tunnel)
    → 0 < max
    → get_task_count_by_client i m ≤ max
    → Within max i (new_task max t m)
unfolding new_task
new_task-Within max i t m p q = decided (over_limit max t.client m) refl
  where
    decided :
        (b : Bool)
        → over_limit max t.client m ≡ b
        → Within max i (if b then none else some (store t.id (record t { has_flow = true }) m))
    decided true e = tt
    decided false e = omega (
      arith,
      count-store i t.id (record t { has_flow = true }) m,
      owner-Within max i t.client m p e q,
    )
