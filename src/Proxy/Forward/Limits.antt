-- ===== src/Proxy/Forward/Limits.antt =====
-- Connections that come and end, under the global limit.
use nat_punch.Base.{ℕ, zero, suc, ◌≤◌, ◌≡◌, Bool, true, false, List, [], ◌∷◌, Option, All}
use nat_punch.Base.Int.{pos}
use nat_punch.Proxy.Forward.{
  Gate, release_global_conn, is_black_ip, is_global_black_ip, Deal, over_limit, black_listed,
  no_target, copying, deal_client,
}

-- A connection from an address, with the black list of its client and whether the bridge has a
-- target; or one that ends.
pub data Event : Type 0 where
  comes : (remote : List ℕ) → (black : List (List ℕ)) → (link : Bool) → Event
  ends : Event

-- The gate, how many connections copy, and where those that ever did came from.
pub record Traffic : Type 0 where
  pub gate : Gate
  pub held : ℕ
  pub forwarded : List (List ℕ × List (List ℕ))

module _ (global : Option (List (List ℕ))) where
  abbrev pub counted : List ℕ → List (List ℕ) → Traffic → Gate × Deal → Traffic
  counted remote black t (g, copying) = record {
    gate = g;
    held = suc t.held;
    forwarded = (remote, black) ∷ t.forwarded;
  }
  counted remote black t (g, over_limit) = record t { gate = g }
  counted remote black t (g, black_listed) = record t { gate = g }
  counted remote black t (g, no_target) = record t { gate = g }

  abbrev pub ended : ℕ → Traffic → Traffic
  ended zero t = t
  ended (suc n) t = record t { gate = release_global_conn t.gate; held = n }

  unfoldable pub deals : List Event → Traffic → Traffic
  deals [] t = t
  deals (comes remote black link ∷ es) t =
      deals es (counted remote black t (deal_client global remote black link t.gate))
  deals (ends ∷ es) t = deals es (ended t.held t)

  -- Neither list has the address.
  abbrev pub Clean : List ℕ × List (List ℕ) → Type 0
  Clean (remote, black) =
      (is_global_black_ip remote global ≡ false) × (is_black_ip remote black ≡ false)

  abbrev pub Within : ℕ → ℕ → Type 0
  Within zero held = Unit
  Within (suc max) held = held ≤ suc max

  abbrev pub Kept : ℕ → Traffic → Type 0
  Kept max t =
      (t.gate ≡ record { max_global_conn = max; global_conn = pos t.held })
      × Within max t.held
      × All Clean t.forwarded

  abbrev at : ℕ → ℕ → Gate
  at max held = record { max_global_conn = max; global_conn = pos held }

  -- A place that is free is taken.
  abbrev Acquired : ℕ → ℕ → Gate × Bool → Type 0
  Acquired max held (g, false) = g ≡ at max held
  Acquired max held (g, true) = (g ≡ at max (suc held)) × Within max (suc held)
