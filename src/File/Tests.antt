-- ===== src/File/Tests.antt =====
-- The theorems on the registry at concrete clients, and runs.
mod Access
mod Routing
use nat_punch.Base.{ℕ, ◌≤◌, ◌<◌, ◌≡◌, refl, arith, true, false, Option, none, some, List, [], ◌∷◌}
use nat_punch.Base.Maps.{lookup}
use nat_punch.File.Clients.{
  Client, Db, Failure, new, get_client_count, verify_vkey, next_client_id_locked, start,
  new_client_rate, sync_client_rate, prepare, chosen_id, placed, admit, reset, hash_web_password,
  check_names, new_client,
}
use nat_punch.File.Free.{used, search_from, next_free}
use nat_punch.File.Clients.Ids.{Keyed, next_client_id_locked_lem}
use nat_punch.File.Clients.Keys.{Distinct}
use nat_punch.File.Clients.Admission.{Settled, new_client-Settled}
use nat_punch.File.Clients.Outcomes.{new_client-Distinct, new_client-kept, new_client-quota}

abbrev marked : List ℕ → Option (List ℕ)
marked password = some (36 ∷ 50 ∷ password)

abbrev empty_db : Db
empty_db = record { clients = []; sampling = []; client_increase_id = 0; max_clients = 2 }

abbrev first_client : Client
first_client = record (new (97 ∷ 98 ∷ []) false false) { web_password = 112 ∷ [] }

abbrev second_client : Client
second_client = new [] false false

-- The generator draws the key of the first client again, then a new one.
abbrev draws : List (List ℕ)
draws = (97 ∷ 98 ∷ []) ∷ (99 ∷ []) ∷ []

unfoldable one_db : Db
one_db = (new_client marked true [] first_client empty_db).0

empty-Distinct : Distinct []
empty-Distinct i j c d p q e = absurd cc

one-Registered : Keyed one_db.clients × Distinct one_db.clients
unfolding one_db
one-Registered = new_client-Distinct marked true [] first_client empty_db tt empty-Distinct

-- The second registration draws twice, takes number 2 and leaves a limiter behind.
unfoldable second_run : Db × Option Failure
second_run = new_client marked true draws second_client one_db

second-lookup : get_client_count second_run.0.clients ≡ 2
unfolding second_run one_db new_client hash_web_password check_names reset prepare sync_client_rate
    new_client_rate start admit placed chosen_id next_client_id_locked next_free search_from used
    verify_vkey get_client_count new
second-lookup = refl

second-sampling : second_run.0.sampling ≡ true ∷ true ∷ true ∷ []
unfolding second_run one_db new_client hash_web_password check_names reset prepare sync_client_rate
    new_client_rate start admit placed chosen_id next_client_id_locked next_free search_from used
    verify_vkey get_client_count new
second-sampling = refl

new_client-Distinct_example : Keyed second_run.0.clients × Distinct second_run.0.clients
unfolding second_run
new_client-Distinct_example =
    new_client-Distinct marked true draws second_client one_db one-Registered.0 one-Registered.1

one_db-lookup : (c : Client) × (lookup 1 one_db.clients ≡ some c)
unfolding one_db new_client hash_web_password check_names reset prepare sync_client_rate
    new_client_rate start admit placed chosen_id next_client_id_locked next_free search_from used
    verify_vkey get_client_count new
one_db-lookup = (_, refl)

one-quota : (0 < one_db.max_clients) × (get_client_count one_db.clients ≤ one_db.max_clients)
unfolding one_db new_client hash_web_password check_names reset prepare sync_client_rate
    new_client_rate start admit placed chosen_id next_client_id_locked next_free search_from used
    verify_vkey get_client_count new
one-quota = (omega arith, omega arith)

new_client-quota_example : get_client_count second_run.0.clients ≤ one_db.max_clients
unfolding second_run
new_client-quota_example =
    new_client-quota marked true draws second_client one_db one-quota.0 one-quota.1
