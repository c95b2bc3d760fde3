-- ===== src/Mux/Tests/Numbers.antt =====
-- `getId` at a concrete map.
use nat_punch.Base.{ℕ, List, [], ◌∷◌}
use nat_punch.Base.Maps.{Map}

-- Connections 4 and 5, by their streams.
abbrev conns : Map (List ℕ)
conns = (4, 1 ∷ []) ∷ (5, 2 ∷ []) ∷ []
