-- ===== src/File/Hosts/Longest.antt =====
-- `GetInfoByHost` finds a host that serves the request, with the longest location.
use nat_punch.Base.{
  ℕ, ◌≤◌, ◌≡◌, refl, sym, ap, ◌∙◌, subst, arith, max, Bool, true, false, ◌&&◌, List, [], ◌∷◌,
  Option, none, some, length, if◌then◌else◌, ◌⊎◌, inl, inr,
}
use nat_punch.Base.Maps.{Map, Each, Among}
use nat_punch.File.Hosts.{
  Host, get_ip_by_addr, loc, matches_uri, serves, better, candidates, pick, get_info_by_host,
}

-- `h` is one of the list.
abbrev pub OneOf : Host → List Host → Type 0
OneOf h [] = ⊥
OneOf h (v ∷ vs) = (h ≡ v) ⊎ OneOf h vs

-- No host of the list that the request matches has a longer location; the empty one counts as `/`.
abbrev pub NoLonger : List ℕ → Host → List Host → Type 0
NoLonger uri h [] = Unit
NoLonger uri h (v ∷ vs) =
    ((matches_uri uri v ≡ false) ⊎ (length (loc v) ≤ max (length h.location) 1)) × NoLonger uri h vs

abbrev pub NoMatch : List ℕ → List Host → Type 0
NoMatch uri [] = Unit
NoMatch uri (v ∷ vs) = (matches_uri uri v ≡ false) × NoMatch uri vs

abbrev Before : Host → Option Host → Type 0
Before h none = Unit
Before h (some g) = length g.location ≤ max (length h.location) 1

-- What the loop makes of the hosts `vs`, having chosen `before`.
abbrev Picked : List ℕ → Option Host → List Host → Option Host → Type 0
Picked uri before vs none = (before ≡ none) × NoMatch uri vs
Picked uri before vs (some h) =
    ((before ≡ some h) ⊎ (OneOf h vs × (matches_uri uri h ≡ true)))
    × Before h before
    × NoLonger uri h vs

loc-le : (v : Host) → length (loc v) ≤ max (length v.location) 1
unfolding loc
loc-le v = ground arith

skip-Picked :
    (uri : List ℕ) (before : Option Host) (v : Host) (vs : List Host) (r : Option Host)
    → (matches_uri uri v ≡ false)
      ⊎ ((g : Host) × (before ≡ some g) × (length (loc v) ≤ length g.location))
    → Picked uri before vs r
    → Picked uri before (v ∷ vs) r
skip-Picked uri before v vs none (inl m) (p, q) = (p, (m, q))
skip-Picked uri before v vs none (inr (g, e, _)) (p, q) = absurd cc
skip-Picked uri before v vs (some h) (inl m) (inl p, q, r) = (inl p, q, (inl m, r))
skip-Picked uri before v vs (some h) (inl m) (inr (p, p'), q, r) = (inr (inr p, p'), q, (inl m, r))
skip-Picked uri before v vs (some h) (inr (g, e, l)) (p, q, r) =
    let far : length g.location ≤ max (length h.location) 1 = subst (Before h) e q in
    (widen p, q, (inr (omega arith), r))
  where
    widen :
        ((before ≡ some h) ⊎ (OneOf h vs × (matches_uri uri h ≡ true)))
        → ((before ≡ some h) ⊎ (OneOf h (v ∷ vs) × (matches_uri uri h ≡ true)))
    widen (inl p) = inl p
    widen (inr (p, q)) = inr (inr p, q)

-- The loop goes on with `v`, which is better than what was chosen before.
take-Picked :
    (uri : List ℕ) (before : Option Host) (v : Host) (vs : List Host) (r : Option Host)
    → matches_uri uri v ≡ true
    → Before v before
    → Picked uri (some v) vs r
    → Picked uri before (v ∷ vs) r
take-Picked uri before v vs none m b (p, q) = absurd cc
take-Picked uri before v vs (some h) m b (p, q, r) =
    (chosen p, earlier before b, (inr (omega (arith, loc-le v)), r))
  where
    chosen :
        ((some v ≡ some h) ⊎ (OneOf h vs × (matches_uri uri h ≡ true)))
        → ((before ≡ some h) ⊎ (OneOf h (v ∷ vs) × (matches_uri uri h ≡ true)))
    chosen (inl p) =
        let e : h ≡ v = cc in inr (inl e, subst (λ g. matches_uri uri g ≡ true) (sym e) m)
    chosen (inr (p, q)) = inr (inr p, q)

    earlier : (o : Option Host) → Before v o → Before h o
    earlier none b = tt
    earlier (some g) b = omega arith

better-Before : (o : Option Host) (v : Host) → better o v ≡ true → Before v o
unfolding better
better-Before none v h = tt
better-Before (some g) v h = let l = loc-le v in ground (arith, h, l)

not_better :
    (o : Option Host) (v : Host)
    → better o v ≡ false
    → (g : Host) × (o ≡ some g) × (length (loc v) ≤ length g.location)
unfolding better
not_better none v h = absurd cc
not_better (some g) v h = (g, refl, ground (arith, h))

start-Picked : (uri : List ℕ) (o : Option Host) → Picked uri o [] o
start-Picked uri none = (refl, tt)
start-Picked uri (some h) = (inl refl, omega arith, tt)

step-Picked :
    (uri : List ℕ) (o : Option Host) (v : Host) (vs : List Host) (b c : Bool)
    → ((o : Option Host) → Picked uri o vs (pick uri o vs))
    → matches_uri uri v ≡ b
    → better o v ≡ c
    → Picked uri o (v ∷ vs) (pick uri (if b && c then some v else o) vs)
step-Picked uri o v vs false c rest p q = skip-Picked uri o v vs _ (inl p) (rest o)
step-Picked uri o v vs true false rest p q =
    skip-Picked uri o v vs _ (inr (not_better o v q)) (rest o)
step-Picked uri o v vs true true rest p q =
    take-Picked uri o v vs _ p (better-Before o v q) (rest (some v))

pick-Picked : (uri : List ℕ) (o : Option Host) (vs : List Host) → Picked uri o vs (pick uri o vs)
unfolding pick
pick-Picked uri o [] = start-Picked uri o
pick-Picked uri o (v ∷ vs) = step-Picked uri o v vs _ _ (λ o. pick-Picked uri o vs) refl refl

module _ (host scheme uri : List ℕ) where
  -- The host does not serve the name and scheme, or has a location that the request does not match.
  abbrev pub Unfit : Host → Type 0
  Unfit v = (serves host scheme v ≡ false) ⊎ (matches_uri uri v ≡ false)

  -- What a request finds among the hosts of a map.
  abbrev pub Found : Map Host → Option Host → Type 0
  Found m none = Each (λ key v. Unfit v) m
  Found m (some h) =
      Among h m
      × (serves host scheme h ≡ true)
      × (matches_uri uri h ≡ true)
      × Each (λ key v. Unfit v ⊎ (length (loc v) ≤ max (length h.location) 1)) m

  candidates-Among :
      (h : Host) (m : Map Host)
      → OneOf h (candidates host scheme m)
      → Among h m × (serves host scheme h ≡ true)
  unfolding candidates
  candidates-Among h [] p = absurd p
  candidates-Among h ((key, v) ∷ m) p = decided (serves host scheme v) refl (candidates-Among h m) p
    where
      decided :
          (b : Bool)
          → serves host scheme v ≡ b
          → (OneOf h (candidates host scheme m) → Among h m × (serves host scheme h ≡ true))
          → OneOf h (if b then v ∷ candidates host scheme m else candidates host scheme m)
          → Among h ((key, v) ∷ m) × (serves host scheme h ≡ true)
      decided true e more (inl p) = (inl p, ap (serves host scheme) p ∙ e)
      decided true e more (inr p) = let (among, q) = more p in (inr among, q)
      decided false e more p = let (among, q) = more p in (inr among, q)

  NoMatch-Each : (m : Map Host) → NoMatch uri (candidates host scheme m) → Each (λ key v. Unfit v) m
  unfolding candidates
  NoMatch-Each [] p = tt
  NoMatch-Each ((key, v) ∷ m) p = decided (serves host scheme v) refl (NoMatch-Each m) p
    where
      decided :
          (b : Bool)
          → serves host scheme v ≡ b
          → (NoMatch uri (candidates host scheme m) → Each (λ key v. Unfit v) m)
          → NoMatch uri (if b then v ∷ candidates host scheme m else candidates host scheme m)
          → Each (λ key v. Unfit v) ((key, v) ∷ m)
      decided true e more (p, ps) = (inr p, more ps)
      decided false e more ps = (inl e, more ps)

  NoLonger-Each :
      (h : Host) (m : Map Host)
      → NoLonger uri h (candidates host scheme m)
      → Each (λ key v. Unfit v ⊎ (length (loc v) ≤ max (length h.location) 1)) m
  unfolding candidates
  NoLonger-Each h [] p = tt
  NoLonger-Each h ((key, v) ∷ m) p = decided (serves host scheme v) refl (NoLonger-Each h m) p
    where
      decided :
          (b : Bool)
          → serves host scheme v ≡ b
          → (NoLonger uri h (candidates host scheme m)
              → Each (λ key v. Unfit v ⊎ (length (loc v) ≤ max (length h.location) 1)) m)
          → NoLonger uri h (if b then v ∷ candidates host scheme m else candidates host scheme m)
          → Each (λ key v. Unfit v ⊎ (length (loc v) ≤ max (length h.location) 1)) ((key, v) ∷ m)
      decided true e more (inl p, ps) = (inl (inr p), more ps)
      decided true e more (inr p, ps) = (inr p, more ps)
      decided false e more ps = (inl (inl e), more ps)

  Picked-Found :
      (m : Map Host) (r : Option Host) → Picked uri none (candidates host scheme m) r → Found m r
  Picked-Found m none (p, q) = NoMatch-Each m q
  Picked-Found m (some h) (inl p, q, r) = absurd cc
  Picked-Found m (some h) (inr (p, p'), q, r) =
      let (among, s) = candidates-Among h m p in (among, s, p', NoLonger-Each h m r)

-- `GetInfoByHost` finds nothing only when no host of the map that serves the name and scheme has a
-- location that the request matches; what it finds is such a host of the map, and none of them has
-- a longer location, the empty one counting as the slash.
pub get_info_by_host-Found :
    (host scheme uri : List ℕ) (m : Map Host)
    → Found (get_ip_by_addr host) scheme uri m (get_info_by_host host scheme uri m)
unfolding get_info_by_host
get_info_by_host-Found host scheme uri m =
    Picked-Found (get_ip_by_addr host) scheme uri m _ (pick-Picked uri none _)
