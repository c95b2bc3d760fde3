-- ===== src/Cache.antt =====
-- `Cache` of lib/cache/lru.go: a least recently used cache, whose list of elements and whose map from
-- keys to elements are kept in step. A `*list.Element` is a place in `elements`, which holds its
-- entry; `ll` lists the places from the front; a key is a number, and `evicted` the calls of
-- `OnEvicted`, where there is one. A method runs under the mutex, so each is one step.
pub mod Keeps
pub mod Removing
pub mod Adding
pub mod Front
pub mod Works
pub mod Runs
mod Tests
use nat_punch.Base.{
  ℕ, zero, suc, ◌+◌, Bool, true, false, not, ◌&&◌, List, [], ◌∷◌, ◌++◌, Option, none, some, length,
  get_elem?, set, ltb, ◌==◌, if◌then◌else◌,
}
use nat_punch.Base.Maps.{Map, lookup, store, delete}

pub record Cache {ℓ} (A : Type ℓ) : Type ℓ where
  pub max_entries : ℕ
  pub on_evicted : Bool
  pub elements : List (ℕ × A)
  pub ll : List ℕ
  pub cache : Map ℕ
  pub evicted : List (ℕ × A)

-- All but the elements with a key.
abbrev pub erase_by {ℓ} : {A : Type ℓ} → (A → ℕ) → ℕ → List A → List A
erase_by key_of key [] = []
erase_by key_of key (a ∷ l) =
    let rest = erase_by key_of key l in if key_of a == key then rest else a ∷ rest

-- `list.Remove`.
abbrev pub without : ℕ → List ℕ → List ℕ
without r ll = erase_by (λ q. q) r ll

unfoldable pub back : List ℕ → Option ℕ
back [] = none
back (r ∷ []) = some r
back (r ∷ q ∷ ll) = back (q ∷ ll)

module _ {ℓ} {A : Type ℓ} where
  unfoldable pub new : (max_entries : ℕ) → (on_evicted : Bool) → Cache A
  new max_entries on_evicted = record {
    max_entries = max_entries;
    on_evicted = on_evicted;
    elements = [];
    ll = [];
    cache = [];
    evicted = [];
  }

  abbrev pub move_to_front : ℕ → Cache A → Cache A
  move_to_front r c = record c { ll = r ∷ without r c.ll }

  -- A call of `OnEvicted`, if it is set.
  abbrev pub tell : ℕ × A → Cache A → Cache A
  tell e c = record c { evicted = if c.on_evicted then c.evicted ++ e ∷ [] else c.evicted }

  abbrev pub remove_entry : ℕ → Option (ℕ × A) → Cache A → Cache A
  remove_entry r none c = c
  remove_entry r (some (key, value)) c =
      tell (key, value) (record c { ll = without r c.ll; cache = delete key c.cache })

  -- `removeElementLocked`.
  unfoldable pub remove_element_locked : ℕ → Cache A → Cache A
  remove_element_locked r c = remove_entry r (get_elem? c.elements r) c

  abbrev pub remove_place : Option ℕ → Cache A → Cache A
  remove_place none c = c
  remove_place (some r) c = remove_element_locked r c

  unfoldable pub remove_oldest : Cache A → Cache A
  remove_oldest c = remove_place (back c.ll) c

  -- The end of `Add`.
  unfoldable pub within_limit : Cache A → Cache A
  within_limit c =
      if not (c.max_entries == 0) && ltb c.max_entries (length c.ll) then remove_oldest c else c

  abbrev pub add_at : Option ℕ → ℕ → A → Cache A → Cache A
  add_at none key value c = within_limit (record c {
    elements = c.elements ++ (key, value) ∷ [];
    ll = length c.elements ∷ c.ll;
    cache = store key (length c.elements) c.cache;
  })
  add_at (some r) key value c = record (move_to_front r c) {
    elements = set c.elements r (key, value);
  }

  unfoldable pub add : ℕ → A → Cache A → Cache A
  add key value c = add_at (lookup key c.cache) key value c

  abbrev pub value_of : Option (ℕ × A) → Option A
  value_of none = none
  value_of (some (key, value)) = some value

  abbrev pub get_at : Option ℕ → Cache A → Option A × Cache A
  get_at none c = (none, c)
  get_at (some r) c = (value_of (get_elem? c.elements r), move_to_front r c)

  unfoldable pub get : ℕ → Cache A → Option A × Cache A
  get key c = get_at (lookup key c.cache) c

  unfoldable pub remove : ℕ → Cache A → Cache A
  remove key c = remove_place (lookup key c.cache) c

  abbrev pub len : Cache A → ℕ
  len c = length c.ll

  abbrev pub tell_of : Option (ℕ × A) → Cache A → Cache A
  tell_of none c = c
  tell_of (some e) c = tell e c

  -- `Clear` tells of the entries in the order of the map.
  unfoldable pub tell_all : Map ℕ → Cache A → Cache A
  tell_all [] c = c
  tell_all ((key, r) ∷ m) c = tell_all m (tell_of (get_elem? c.elements r) c)

  unfoldable pub clear : Cache A → Cache A
  clear c = record (tell_all c.cache c) { ll = []; cache = [] }
