-- ===== src/File/Tests/Access.antt =====
-- The theorems on credentials and limits at concrete values.
use nat_punch.Base.{◌≡◌, true, false, ℕ, ◌≤◌, arith, false, List, [], ◌∷◌, some}
use nat_punch.Base.Maps.{Map}
use nat_punch.File.Clients.{Client, new}
use nat_punch.File.Tasks.{Tunnel, zero_tunnel, get_task_count_by_client}
use nat_punch.File.Counters.{serve, taken_slots, serve_lem}
use nat_punch.File.Credentials.{Identified, get_id_by_verify_key, get_id_by_verify_key-Identified}

abbrev web : Tunnel
web = record zero_tunnel { id = 1; port = 80; client = some 7 }

abbrev ssh : Tunnel
ssh = record zero_tunnel { id = 2; port = 22; client = some 7 }

one-within : get_task_count_by_client 7 ((1, web) ∷ []) ≤ 2
unfolding get_task_count_by_client
one-within = omega arith

-- A stand-in for the digest.
abbrev marked_key : List ℕ → List ℕ
marked_key key = 0 ∷ key

abbrev registered : Map Client
registered = (3, record (new (97 ∷ []) false false) { id = 3 }) ∷ []

get_id_by_verify_key-Identified_example :
    Identified marked_key
      (0 ∷ 97 ∷ [])
      (49 ∷ 58 ∷ 56 ∷ [])
      registered
      (get_id_by_verify_key marked_key (0 ∷ 97 ∷ []) (49 ∷ 58 ∷ 56 ∷ []) registered)
get_id_by_verify_key-Identified_example =
    get_id_by_verify_key-Identified marked_key (0 ∷ 97 ∷ []) (49 ∷ 58 ∷ 56 ∷ []) registered

serve_lem_example :
    (now : ℕ) × (serve (true ∷ true ∷ true ∷ false ∷ []) (taken_slots 2 0, 0)
      ≡ (taken_slots 2 now, now))
    × (now ≤ 2)
serve_lem_example = serve_lem (true ∷ true ∷ true ∷ false ∷ []) 2 0 (omega arith) (omega arith)
