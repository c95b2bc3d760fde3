-- ===== src/Cache/Front.antt =====
-- Entries that come to the front: one that is there, or a new one.
use nat_punch.Base.{
  ℕ, zero, suc, ◌≡◌, ◌≢◌, refl, sym, ap, ◌∙◌, subst, arith, true, false, List, [], ◌∷◌, ◌++◌, none,
  some, some_unique, length, get_elem?, get_elem?-append_last, get_elem?-append_ne, set, All, ◌==◌,
  if◌then◌else◌, ℕ_discrete,
}
use nat_punch.Base.Maps.{lookup, store, lookup-store_same, lookup-store_other}
use nat_punch.Cache.{Cache, erase_by, without, move_to_front}
use nat_punch.Cache.Keeps.{
  Item, place, entry, key, place_of, Represents, erase_by-All, All-map, erase-Apart, without-places,
  place_of-erase_other, chosen, erase_by-same,
}
use nat_punch.Cache.Removing.{found}

module _ {ℓ} {A : Type ℓ} where
  get_elem?-set_self :
      (xs : List A) (i : ℕ) (x y : A) → get_elem? xs i ≡ some y → get_elem? (set xs i x) i ≡ some x
  get_elem?-set_self [] i x y e = absurd cc
  get_elem?-set_self (z ∷ xs) zero x y e = refl
  get_elem?-set_self (z ∷ xs) (suc i) x y e = get_elem?-set_self xs i x y e

  get_elem?-set_other :
      (xs : List A) (i j : ℕ) (x : A) → j ≢ i → get_elem? (set xs i x) j ≡ get_elem? xs j
  get_elem?-set_other [] i j x n = refl
  get_elem?-set_other (z ∷ xs) zero zero x n = absurd (n refl)
  get_elem?-set_other (z ∷ xs) zero (suc j) x n = refl
  get_elem?-set_other (z ∷ xs) (suc i) zero x n = refl
  get_elem?-set_other (z ∷ xs) (suc i) (suc j) x n =
      get_elem?-set_other xs i j x (λ e. n (ap suc e))

  pub set-same : (xs : List A) (i : ℕ) (x : A) → get_elem? xs i ≡ some x → set xs i x ≡ xs
  set-same [] i x e = absurd cc
  set-same (z ∷ xs) zero x e = ap (λ t. t ∷ xs) (sym (some_unique refl e))
  set-same (z ∷ xs) (suc i) x e = ap (λ t. z ∷ t) (set-same xs i x e)

  get_elem?-some-lt : (xs : List A) (i : ℕ) (x : A) → get_elem? xs i ≡ some x → i ≢ length xs
  get_elem?-some-lt [] i x e = absurd cc
  get_elem?-some-lt (z ∷ xs) zero x e = omega arith
  get_elem?-some-lt (z ∷ xs) (suc i) x e =
      let n = get_elem?-some-lt xs i x e in λ same. n (omega (arith, same))

All-both {ℓ κ μ} :
    {A : Type ℓ} (P : A → Type κ) (Q : A → Type μ) (l : List A)
    → All P l
    → All Q l
    → All (λ i. P i × Q i) l
All-both P Q [] ps qs = tt
All-both P Q (i ∷ l) (p, ps) (q, qs) = ((p, q), All-both P Q l ps qs)

module _ {ℓ} {A : Type ℓ} where
  absent-All : (k : ℕ) (l : List (Item A)) → place_of k l ≡ none → All (λ i. key i ≢ k) l
  absent-All k [] e = tt
  absent-All k (i ∷ l) e = elim (ℕ_discrete (key i) k) [
    | yes same ↦
        let test : (key i == k) ≡ true = ground (arith, same) in
        let never : some (place i) ≡ none =
          sym (ap (λ t. if t then some (place i) else place_of k l) test) ∙ e in
        absurd cc
    | no n ↦
        let test : (key i == k) ≡ false = ground (arith, n) in
        (n, absent-All k l (sym (ap (λ t. if t then some (place i) else place_of k l) test) ∙ e))
  ]

  -- The entry of a place with a new value, in front of the others.
  abbrev pub renewed : ℕ → ℕ → A → Cache A → Cache A
  renewed r k w c = record (move_to_front r c) { elements = set c.elements r (k, w) }

  pub renewed-Represents :
      (c : Cache A) (l : List (Item A)) (k r : ℕ) (w : A)
      → Represents c l
      → place_of k l ≡ some r
      → Represents (renewed r k w c) ((r, (k, w)) ∷ erase_by key k l)
  renewed-Represents c l k r w h e =
      let (v, at, _) =
        found (λ i. get_elem? c.elements (place i) ≡ some (entry i)) k r l e h.stored in
      let rest = erase_by-All _ key k l h.stored in
      record {
        order =
            ap (λ t. r ∷ without r t) h.order ∙ ap (λ t. r ∷ t) (without-places k r l h.apart e);
        stored = (
          get_elem?-set_self c.elements r (k, w) (k, v) at,
          All-map _ _ (erase_by key k l)
              (λ i ((s, n), m). get_elem?-set_other c.elements r (place i) (k, w) m ∙ s)
              (All-both _ _ (erase_by key k l) rest places),
        );
        index = index;
        apart = (
          All-map _ _ (erase_by key k l) (λ i ((s, n), m). (m, n))
              (All-both _ _ (erase_by key k l) rest places),
          erase-Apart k l h.apart,
        );
      }
    where
      places : All (λ i. place i ≢ r) (erase_by key k l)
      places =
          subst (All (λ i. place i ≢ r)) (erase_by-same place key r k l (chosen k r l h.apart e))
            (All-map _ _ (erase_by place r l) (λ i (s, n). n) (erase_by-All _ place r l h.stored))

      index : (q : ℕ) → lookup q c.cache ≡ place_of q ((r, (k, w)) ∷ erase_by key k l)
      index q = elim (ℕ_discrete k q) [
        | yes same ↦
            let test : (k == q) ≡ true = ground (arith, same) in
            rw test (ap (λ q. lookup q c.cache) (sym same) ∙ h.index k ∙ e)
        | no n ↦
            let test : (k == q) ≡ false = ground (arith, n) in
            rw test (h.index q ∙ sym (place_of-erase_other k q l (λ s. n (sym s))))
      ]

  -- A new entry in front.
  abbrev pub pushed : ℕ → A → Cache A → Cache A
  pushed k w c = record c {
    elements = c.elements ++ (k, w) ∷ [];
    ll = length c.elements ∷ c.ll;
    cache = store k (length c.elements) c.cache;
  }

  pub pushed-Represents :
      (c : Cache A) (l : List (Item A)) (k : ℕ) (w : A)
      → Represents c l
      → place_of k l ≡ none
      → Represents (pushed k w c) ((length c.elements, (k, w)) ∷ l)
  pushed-Represents c l k w h e = record {
    order = ap (λ t. length c.elements ∷ t) h.order;
    stored = (
      get_elem?-append_last c.elements (k, w),
      All-map _ _ l
          (λ i s.
            get_elem?-append_ne c.elements (place i) (k, w)
              (get_elem?-some-lt c.elements (place i) (entry i) s)
            ∙ s)
          h.stored,
    );
    index = index;
    apart = (
      All-map _ _ l (λ i (s, n). (get_elem?-some-lt c.elements (place i) (entry i) s, n))
          (All-both _ _ l h.stored (absent-All k l e)),
      h.apart,
    );
  }
    where
      index :
          (q : ℕ)
          → lookup q (store k (length c.elements) c.cache)
            ≡ place_of q ((length c.elements, (k, w)) ∷ l)
      index q = elim (ℕ_discrete k q) [
        | yes same ↦
            let test : (k == q) ≡ true = ground (arith, same) in
            rw test (
              ap (λ q. lookup q (store k (length c.elements) c.cache)) (sym same)
              ∙ lookup-store_same k (length c.elements) c.cache)
        | no n ↦
            let test : (k == q) ≡ false = ground (arith, n) in
            rw test
              (lookup-store_other k q (length c.elements) c.cache (λ s. n (sym s)) ∙ h.index q)
      ]
