-- ===== src/Queue/Sorted.antt =====
-- A priority queue as a list, from which the first greatest element is taken.
use mqo_public.Prelude.{
  ◌≡◌, refl, sym, subst, Bool, true, false, Option, none, some, List, [], ◌∷◌, SameTotals, All,
  if◌then◌else◌, arith, Bool-cases, inl, inr,
}
use mqo_public.Queue.{IsStrictWeak, PriorityQueue}

module _ {A : Type 0} (less : A → A → Bool) where
  extract : A → List A → A × List A
  extract x [] = (x, [])
  extract x (y ∷ ys) =
      if less x y
      then (let (m, r) = extract y ys in (m, x ∷ r))
      else (let (m, r) = extract x ys in (m, y ∷ r))

  pub take_greatest : List A → Option (A × List A)
  unfolding extract
  take_greatest [] = none
  take_greatest (x ∷ xs) = some (extract x xs)

  extract-items : (x : A) (xs : List A) → SameTotals (x ∷ xs) ((extract x xs).0 ∷ (extract x xs).1)
  unfolding extract
  extract-items x [] p = refl
  extract-items x (y ∷ ys) p = ground (arith, extract-items y ys p, extract-items x ys p)

  abbrev Greatest : A → List A → Type 0
  Greatest m xs = All (λ b. less m b ≡ false) xs

  extract_later :
      (x y : A) (ys : List A)
      → less x y ≡ true
      → extract x (y ∷ ys) ≡ ((extract y ys).0, x ∷ (extract y ys).1)
  unfolding extract
  extract_later x y ys e = rw e

  extract_keep :
      (x y : A) (ys : List A)
      → less x y ≡ false
      → extract x (y ∷ ys) ≡ ((extract x ys).0, y ∷ (extract x ys).1)
  unfolding extract
  extract_keep x y ys e = rw e

  extract-Greatest : IsStrictWeak less → (x : A) (xs : List A) → Greatest (extract x xs).0 (x ∷ xs)
  unfolding extract
  extract-Greatest w x [] = (ground (arith, w.asym x x), tt)
  extract-Greatest w x (y ∷ ys) = elim (Bool-cases (less x y)) [
    | inl e ↦
        let (above_y, rest) = extract-Greatest w y ys in
        let m : A = (extract y ys).0 in
        subst (λ (t : A × List A). Greatest t.0 (x ∷ y ∷ ys)) (sym (extract_later x y ys e))
          (w.neg_trans m y x above_y (w.asym x y e), (above_y, rest))
    | inr e ↦
        let (above_x, rest) = extract-Greatest w x ys in
        let m : A = (extract x ys).0 in
        subst (λ (t : A × List A). Greatest t.0 (x ∷ y ∷ ys)) (sym (extract_keep x y ys e))
          (above_x, (w.neg_trans m x y above_x e, rest))
  ]

  pub take_greatest-none : (q : List A) → take_greatest q ≡ none → q ≡ []
  unfolding take_greatest
  take_greatest-none [] h = refl
  take_greatest-none (x ∷ xs) h = cc

  pub take_greatest-some :
      (q : List A) (a : A) (r : List A) → take_greatest q ≡ some (a, r) → SameTotals q (a ∷ r)
  unfolding take_greatest
  take_greatest-some [] a r h = cc
  take_greatest-some (x ∷ xs) a r h =
      let e : extract x xs ≡ (a, r) = cc in
      subst (λ (t : A × List A). SameTotals (x ∷ xs) (t.0 ∷ t.1)) e (extract-items x xs)

  pub take_greatest-Greatest :
      IsStrictWeak less
      → (q : List A) (a : A) (r : List A) → take_greatest q ≡ some (a, r)
      → Greatest a q
  unfolding take_greatest
  take_greatest-Greatest w [] a r h = cc
  take_greatest-Greatest w (x ∷ xs) a r h =
      let e : extract x xs ≡ (a, r) = cc in
      subst (λ (t : A × List A). Greatest t.0 (x ∷ xs)) e (extract-Greatest w x xs)

  unfoldable pub list_queue : IsStrictWeak less → PriorityQueue A less
  unfolding take_greatest
  list_queue weak = record {
    weak = weak;
    Queue = List A;
    empty = [];
    push = λ a q. a ∷ q;
    pop = take_greatest;
    items = λ q. q;
    items-empty = refl;
    items-push = λ a q p. refl;
    pop_none = take_greatest-none;
    pop_some = take_greatest-some;
    pop_greatest = take_greatest-Greatest;
  }
