-- ===== src/File/Pages.antt =====
-- The pages of the panel's lists: `paginateClients` and `paginateHosts` of lib/file/db.go, which are
-- the same function on the two types.
use nat_punch.Base.{
  ℕ, zero, suc, ◌+◌, ◌-◌, ◌*◌, ◌<◌, ◌≡◌, refl, sym, ap, ◌∙◌, arith, List, [], ◌∷◌, ◌++◌, length,
  take, drop, drop-add, drop_of_length-le, take_of_length-le, length-drop, ltb, leb, if◌then◌else◌,
  dec_le, dec_lt, true, false,
}
use nat_punch.Base.Int.{ℤ, pos, pos_part, ltb_ℤ, leb_ℤ}

abbrev pub end_of : ℕ → ℕ → ℕ → ℕ
end_of cnt start size = if ltb cnt (start + size) then cnt else start + size

module _ {ℓ} {A : Type ℓ} where
  -- `all[start:end]`, with a start that is not negative and a positive size.
  unfoldable pub slice : List A → ℕ → ℕ → List A
  slice all start size =
      if leb (length all) start
      then []
      else take (end_of (length all) start size - start) (drop start all)

  -- A page with the count of all.
  unfoldable pub paginate : List A → ℤ → ℤ → List A × ℕ
  paginate all start size =
      let from = if ltb_ℤ start (pos 0) then 0 else pos_part start in
      (if leb_ℤ size (pos 0) then [] else slice all from (pos_part size), length all)

  take-nil : (n : ℕ) (xs : List A) → xs ≡ [] → take n xs ≡ []
  take-nil zero xs e = refl
  take-nil (suc n) [] e = refl
  take-nil (suc n) (x ∷ xs) e = absurd cc

  cut-take :
      (cnt start size : ℕ) (xs : List A)
      → length xs ≡ cnt - start
      → take (end_of cnt start size - start) xs ≡ take size xs
  cut-take cnt start size xs h = elim (dec_lt cnt (start + size)) [
    | yes l ↦
        let e : end_of cnt start size ≡ cnt = ground (arith, l) in
        rw e (
          take_of_length-le (cnt - start) xs (omega arith)
          ∙ sym (take_of_length-le size xs (omega arith)))
    | no l ↦
        let e : end_of cnt start size - start ≡ size = ground (arith, l) in ap (λ n. take n xs) e
  ]

  slice_lem : (all : List A) (start size : ℕ) → slice all start size ≡ take size (drop start all)
  unfolding slice
  slice_lem all start size = elim (dec_le (length all) start) [
    | yes l ↦
        let past : leb (length all) start ≡ true = ground (arith, l) in
        rw past (sym (take-nil size (drop start all) (drop_of_length-le all start l)))
    | no l ↦
        let inside : leb (length all) start ≡ false = ground (arith, l) in
        rw inside (cut-take (length all) start size (drop start all) (length-drop start all))
  ]

  paginate_lem :
      (all : List A) (start size : ℕ)
      → 0 < size
      → (paginate all (pos start) (pos size)).0 ≡ take size (drop start all)
  unfolding paginate
  paginate_lem all start size h =
      let some_size : leb (size + 0) 0 ≡ false = ground arith in
      let from : (if ltb (start + 0) 0 then 0 else start) ≡ start = ground arith in
      rw (some_size, from) (slice_lem all start size)

  -- `k` pages from `start` on, one after another.
  unfoldable pub pages : ℕ → List A → (start size : ℕ) → List A
  pages zero all start size = []
  pages (suc k) all start size =
      (paginate all (pos start) (pos size)).0 ++ pages k all (start + size) size

  take-add : (n m : ℕ) (xs : List A) → take n xs ++ take m (drop n xs) ≡ take (n + m) xs
  take-add zero m xs = let e : m ≡ zero + m = omega arith in ap (λ k. take k xs) e
  take-add (suc n) m [] = take-nil m [] refl ∙ sym (take-nil (suc n + m) [] refl)
  take-add (suc n) m (x ∷ xs) =
      let e : suc (n + m) ≡ suc n + m = omega arith in
      ap (◌∷◌ x) (take-add n m xs) ∙ ap (λ k. take k (x ∷ xs)) e

  -- Pages of a positive size, from any place on, follow one another without gap or overlap: `k` of
  -- them are the next `k` times as many entries.
  pub pages-take :
      (k : ℕ) (all : List A) (start size : ℕ)
      → 0 < size
      → pages k all start size ≡ take (k * size) (drop start all)
  unfolding pages
  pages-take zero all start size h =
      let e : 0 ≡ zero * size = omega arith in ap (λ n. take n (drop start all)) e
  pages-take (suc k) all start size h =
      let e : size + k * size ≡ suc k * size = omega arith in
      rw
        (
          paginate_lem all start size h,
          pages-take k all (start + size) size h,
          drop-add start size all,
        )
        (take-add size (k * size) (drop start all) ∙ ap (λ n. take n (drop start all)) e)
