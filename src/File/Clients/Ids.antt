-- ===== src/File/Clients/Ids.antt =====
-- `nextClientIdLocked` finds the smallest free number, and its loop ends.
use nat_punch.Base.{ℕ, ◌≤◌, ◌<◌, ◌≡◌, true, none}
use nat_punch.Base.Maps.{Map, lookup}
use nat_punch.File.Free.{Numbered, used, next_free_lem}
use nat_punch.File.Clients.{Client, next_client_id_locked}

abbrev pub number : Client → ℕ
number c = c.id

-- Each client stands under its own identity, and identities start at 1.
abbrev pub Keyed : Map Client → Type 0
Keyed m = Numbered number m

-- In a registry whose clients stand under their own identities, from 1 on, `nextClientIdLocked`
-- gives a number from 1 on that no client has, and every smaller one from 1 on is taken.
pub next_client_id_locked_lem :
    (m : Map Client)
    → Keyed m
    → (lookup (next_client_id_locked m) m ≡ none)
      × (1 ≤ next_client_id_locked m)
      × ((j : ℕ) → 1 ≤ j → j < next_client_id_locked m → used number j m ≡ true)
unfolding next_client_id_locked
next_client_id_locked_lem m k = next_free_lem number m k
