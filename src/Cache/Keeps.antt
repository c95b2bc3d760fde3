-- ===== src/Cache/Keeps.antt =====
-- What a cache holds: its entries in the order of use, each at its place.
use nat_punch.Base.{
  ℕ, ◌≡◌, ◌≢◌, refl, sym, ap, ◌∙◌, subst, arith, true, false, List, [], ◌∷◌, Option, none, some,
  some_unique, get_elem?, map, All, ◌==◌, if◌then◌else◌, ℕ_discrete,
}
use nat_punch.Base.Maps.{lookup}
use nat_punch.Cache.{Cache, erase_by, without}

-- A place with its key and value.
abbrev pub Item {ℓ} : Type ℓ → Type ℓ
Item A = ℕ × (ℕ × A)

module _ {ℓ} {A : Type ℓ} where
  abbrev pub place : Item A → ℕ
  place i = i.0

  abbrev pub entry : Item A → ℕ × A
  entry i = i.1

  abbrev pub key : Item A → ℕ
  key i = i.1.0

  abbrev pub place_of : ℕ → List (Item A) → Option ℕ
  place_of k [] = none
  place_of k (i ∷ l) = let rest = place_of k l in if key i == k then some (place i) else rest

  abbrev pub Other : Item A → Item A → Type 0
  Other i j = (place j ≢ place i) × (key j ≢ key i)

  -- No two items share a place or a key.
  abbrev pub Apart : List (Item A) → Type 0
  Apart [] = Unit
  Apart (i ∷ l) = All (Other i) l × Apart l

  pub record Represents (c : Cache A) (l : List (Item A)) : Type ℓ where
    pub order : c.ll ≡ map place l
    pub stored : All (λ i. get_elem? c.elements (place i) ≡ some (entry i)) l
    pub index : (k : ℕ) → lookup k c.cache ≡ place_of k l
    pub apart : Apart l

pub map-erase_by {ℓ κ} :
    {A : Type ℓ} {B : Type κ} (f : A → B) (g : B → ℕ) (k : ℕ) (l : List A)
    → map f (erase_by (λ a. g (f a)) k l) ≡ erase_by g k (map f l)
map-erase_by f g k [] = refl
map-erase_by f g k (a ∷ l) = elim (ℕ_discrete (g (f a)) k) [
  | yes e ↦ let test : (g (f a) == k) ≡ true = ground (arith, e) in rw test (map-erase_by f g k l)
  | no n ↦
      let test : (g (f a) == k) ≡ false = ground (arith, n) in
      rw test (ap (λ t. f a ∷ t) (map-erase_by f g k l))
]

pub erase_by-same {ℓ} :
    {A : Type ℓ} (g h : A → ℕ) (a b : ℕ) (l : List A)
    → All (λ x. (g x == a) ≡ (h x == b)) l
    → erase_by g a l ≡ erase_by h b l
erase_by-same g h a b [] p = refl
erase_by-same g h a b (x ∷ l) (e, p) =
    ap (λ t. if t then erase_by g a l else x ∷ erase_by g a l) e
    ∙ ap (λ t. if h x == b then t else x ∷ t) (erase_by-same g h a b l p)

pub erase_by-All {ℓ κ} :
    {A : Type ℓ} (P : A → Type κ) (g : A → ℕ) (k : ℕ) (l : List A)
    → All P l
    → All (λ a. P a × (g a ≢ k)) (erase_by g k l)
erase_by-All P g k [] ps = tt
erase_by-All P g k (a ∷ l) (p, ps) = elim (ℕ_discrete (g a) k) [
  | yes e ↦ let test : (g a == k) ≡ true = ground (arith, e) in rw test (erase_by-All P g k l ps)
  | no n ↦
      let test : (g a == k) ≡ false = ground (arith, n) in rw test ((p, n), erase_by-All P g k l ps)
]

pub All-map {ℓ κ μ} :
    {A : Type ℓ} (P : A → Type κ) (Q : A → Type μ) (xs : List A)
    → ((a : A) → P a → Q a)
    → All P xs
    → All Q xs
All-map P Q [] h ps = tt
All-map P Q (x ∷ xs) h (p, ps) = (h x p, All-map P Q xs h ps)

module _ {ℓ} {A : Type ℓ} where
  pub erase-Apart : (k : ℕ) (l : List (Item A)) → Apart l → Apart (erase_by key k l)
  erase-Apart k [] h = tt
  erase-Apart k (i ∷ l) (p, h) = elim (ℕ_discrete (key i) k) [
    | yes e ↦ let test : (key i == k) ≡ true = ground (arith, e) in rw test (erase-Apart k l h)
    | no n ↦
        let test : (key i == k) ≡ false = ground (arith, n) in
        rw test (
          All-map _ (Other i) (erase_by key k l) (λ j (o, m). o) (erase_by-All (Other i) key k l p),
          erase-Apart k l h,
        )
  ]

  -- A key that is found is that of an item, at the place found.
  pub place_of-All :
      (P : ℕ → Type 0) (k r : ℕ) (l : List (Item A))
      → place_of k l ≡ some r
      → All (λ i. P (place i)) l
      → P r
  place_of-All P k r [] e ps = absurd cc
  place_of-All P k r (i ∷ l) e (p, ps) = elim (ℕ_discrete (key i) k) [
    | yes same ↦
        let test : (key i == k) ≡ true = ground (arith, same) in
        let found : some (place i) ≡ some r =
          sym (ap (λ t. if t then some (place i) else place_of k l) test) ∙ e in
        subst P (some_unique refl found) p
    | no n ↦
        let test : (key i == k) ≡ false = ground (arith, n) in
        place_of-All P k r l (sym (ap (λ t. if t then some (place i) else place_of k l) test) ∙ e)
          ps
  ]

  -- Then the place stands for the key.
  pub chosen :
      (k r : ℕ) (l : List (Item A))
      → Apart l
      → place_of k l ≡ some r
      → All (λ i. (place i == r) ≡ (key i == k)) l
  chosen k r [] h e = tt
  chosen k r (i ∷ l) (p, h) e = elim (ℕ_discrete (key i) k) [
    | yes same ↦
        let test : (key i == k) ≡ true = ground (arith, same) in
        let found : some (place i) ≡ some r =
          sym (ap (λ t. if t then some (place i) else place_of k l) test) ∙ e in
        let here : place i ≡ r = some_unique refl found in
        (
          ground (arith, same, here),
          All-map (Other i) _ l (λ j (o, m). ground (arith, same, here, o, m)) p,
        )
    | no n ↦
        let test : (key i == k) ≡ false = ground (arith, n) in
        let later : place_of k l ≡ some r =
          sym (ap (λ t. if t then some (place i) else place_of k l) test) ∙ e in
        let away : r ≢ place i =
          place_of-All (λ q. q ≢ place i) k r l later (All-map (Other i) _ l (λ j (o, m). o) p) in
        (ground (arith, n, away), chosen k r l h later)
  ]

  -- The list of places without that of a key.
  pub without-places :
      (k r : ℕ) (l : List (Item A))
      → Apart l
      → place_of k l ≡ some r
      → without r (map place l) ≡ map place (erase_by key k l)
  without-places k r l h e =
      sym (map-erase_by place (λ q. q) r l)
      ∙ ap (map place) (erase_by-same place key r k l (chosen k r l h e))

  pub place_of-erase_same : (k : ℕ) (l : List (Item A)) → place_of k (erase_by key k l) ≡ none
  place_of-erase_same k [] = refl
  place_of-erase_same k (i ∷ l) = ground (arith, place_of-erase_same k l)

  pub place_of-erase_other :
      (k q : ℕ) (l : List (Item A)) → q ≢ k → place_of q (erase_by key k l) ≡ place_of q l
  place_of-erase_other k q [] n = refl
  place_of-erase_other k q (i ∷ l) n = ground (arith, n, place_of-erase_other k q l n)
