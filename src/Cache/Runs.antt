-- ===== src/Cache/Runs.antt =====
-- A cache against a list of its entries, the most recent first.
use nat_punch.Base.{
  ℕ, zero, suc, ◌≡◌, refl, sym, ap, ◌∙◌, subst, arith, Bool, List, [], ◌∷◌, Option, none, some,
  get_elem?,
}
use nat_punch.Base.Maps.{Map}
use nat_punch.Cache.{Cache, new, add, get, remove, remove_oldest, tell_of, tell_all, clear}
use nat_punch.Cache.Keeps.{Item, Represents}
use nat_punch.Cache.Removing.{entries, find}
use nat_punch.Cache.Adding.{recent, Bounded}
use nat_punch.Cache.Works.{
  forget, drop_last, Works, add-Works, remove-Works, touched, get-Works, oldest-Works,
}

pub data Op {ℓ} (A : Type ℓ) : Type ℓ where
  adding : ℕ → A → Op A
  getting removing : ℕ → Op A
  removing_oldest clearing : Op A

module _ {ℓ} {A : Type ℓ} where
  -- What the calls of `Get` answer, in their order.
  unfoldable pub run : List (Op A) → Cache A → List (Option A)
  run [] c = []
  run (adding k v ∷ ops) c = run ops (add k v c)
  run (getting k ∷ ops) c = let (o, c') = get k c in o ∷ run ops c'
  run (removing k ∷ ops) c = run ops (remove k c)
  run (removing_oldest ∷ ops) c = run ops (remove_oldest c)
  run (clearing ∷ ops) c = run ops (clear c)

  abbrev pub to_front : ℕ → Option A → List (ℕ × A) → List (ℕ × A)
  to_front k none xs = xs
  to_front k (some v) xs = (k, v) ∷ forget k xs

  -- The same calls on a list of entries under a limit.
  unfoldable pub run_list : ℕ → List (Op A) → List (ℕ × A) → List (Option A)
  run_list max [] xs = []
  run_list max (adding k v ∷ ops) xs = run_list max ops (recent max ((k, v) ∷ forget k xs))
  run_list max (getting k ∷ ops) xs = find k xs ∷ run_list max ops (to_front k (find k xs) xs)
  run_list max (removing k ∷ ops) xs = run_list max ops (forget k xs)
  run_list max (removing_oldest ∷ ops) xs = run_list max ops (drop_last xs)
  run_list max (clearing ∷ ops) xs = run_list max ops []

  tell_of-max : (o : Option (ℕ × A)) (c : Cache A) → (tell_of o c).max_entries ≡ c.max_entries
  tell_of-max none c = refl
  tell_of-max (some e) c = refl

  tell_all-max : (m : Map ℕ) (c : Cache A) → (tell_all m c).max_entries ≡ c.max_entries
  unfolding tell_all
  tell_all-max [] c = refl
  tell_all-max ((k, r) ∷ m) c =
      tell_all-max m (tell_of (get_elem? c.elements r) c) ∙ tell_of-max (get_elem? c.elements r) c

  clear-Works : (max : ℕ) (c : Cache A) → c.max_entries ≡ max → Works max (clear c) []
  unfolding clear
  clear-Works max c e = (
    ([], record { order = refl; stored = tt; index = λ k. refl; apart = tt }, refl),
    tell_all-max c.cache c ∙ e,
    none_yet max,
  )
    where
      none_yet : (max : ℕ) → Bounded {A = A} max []
      none_yet zero = tt
      none_yet (suc n) = omega arith

  got-touched :
      (max k : ℕ) (c c' : Cache A) (l : List (Item A)) (h : Represents c l)
      (e : c.max_entries ≡ max) (b : Bounded max (entries l)) (o : Option A)
      → Works max c' (touched max c l h e b k o)
      → Works max c' (to_front k o (entries l))
  got-touched max k c c' l h e b none w = w
  got-touched max k c c' l h e b (some v) w = w

  run-run_list_lem :
      (max : ℕ) (ops : List (Op A)) (c : Cache A) (xs : List (ℕ × A))
      → Works max c xs
      → run ops c ≡ run_list max ops xs
  unfolding run run_list
  run-run_list_lem max [] c xs w = refl
  run-run_list_lem max (adding k v ∷ ops) c xs ((l, h, same), e, b) =
      let b' = subst (Bounded max) (sym same) b in
      run-run_list_lem max ops (add k v c) (recent max ((k, v) ∷ forget k (entries l)))
        (add-Works max c l h e b' k v)
      ∙ ap (λ xs. run_list max ops (recent max ((k, v) ∷ forget k xs))) same
  run-run_list_lem max (getting k ∷ ops) c xs ((l, h, same), e, b) =
      let b' = subst (Bounded max) (sym same) b in
      let (answer, w) = get-Works max c l h e b' k in
      let c' = (get k c).1 in
      ap (λ o. o ∷ run ops c') answer
      ∙ ap (λ t. find k (entries l) ∷ t)
          (run-run_list_lem max ops c' (to_front k (find k (entries l)) (entries l))
            (got-touched max k c c' l h e b' (find k (entries l)) w))
      ∙ ap (λ xs. find k xs ∷ run_list max ops (to_front k (find k xs) xs)) same
  run-run_list_lem max (removing k ∷ ops) c xs ((l, h, same), e, b) =
      let b' = subst (Bounded max) (sym same) b in
      run-run_list_lem max ops (remove k c) (forget k (entries l)) (remove-Works max c l h e b' k)
      ∙ ap (λ xs. run_list max ops (forget k xs)) same
  run-run_list_lem max (removing_oldest ∷ ops) c xs ((l, h, same), e, b) =
      let b' = subst (Bounded max) (sym same) b in
      run-run_list_lem max ops (remove_oldest c) (drop_last (entries l))
        (oldest-Works max c l h e b')
      ∙ ap (λ xs. run_list max ops (drop_last xs)) same
  run-run_list_lem max (clearing ∷ ops) c xs ((l, h, same), e, b) =
      run-run_list_lem max ops (clear c) [] (clear-Works max c e)

  -- A new cache answers every sequence of calls as a list of entries does: `Add` puts its entry in
  -- front, without the one its key had, and keeps as many as the limit allows (0 is no limit); `Get`
  -- moves what it finds to the front; `Remove` drops a key, `RemoveOldest` the last entry, `Clear` all.
  pub run-new-list :
      (max : ℕ) (on_evicted : Bool) (ops : List (Op A))
      → run ops (new max on_evicted) ≡ run_list max ops []
  unfolding new
  run-new-list max on_evicted ops = run-run_list_lem max ops (new max on_evicted) [] (
    ([], record { order = refl; stored = tt; index = λ k. refl; apart = tt }, refl),
    refl,
    none_yet max,
  )
    where
      none_yet : (max : ℕ) → Bounded {A = A} max []
      none_yet zero = tt
      none_yet (suc n) = omega arith
