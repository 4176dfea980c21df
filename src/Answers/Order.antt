-- ===== src/Answers/Order.antt =====
-- The order of the queue of near points, and facts on lists that hold the same elements.
use mqo_public.Prelude.{
  ap, zero, suc, map, length, All-append, ℕ, ◌+◌, ◌≡◌, refl, Bool, false, List, [], ◌∷◌, ◌++◌,
  total, All, if◌then◌else◌, arith,
}
use mqo_public.Floats.{Floats}
use mqo_public.Queue.{IsStrictWeak}
use mqo_public.Answers.{Near, nearer}

-- A strict weak order of the distances is one of the pairs, in which ties go by the index.
pub nearer-IsStrictWeak : (fl : Floats) → IsStrictWeak fl.lt → IsStrictWeak (nearer fl)
nearer-IsStrictWeak fl weak = record {
  asym = λ a b h. ground (arith, h, weak.asym a.0 b.0);
  neg_trans = λ a b c h k. ground (
    arith,
    h,
    k,
    weak.neg_trans a.0 b.0 c.0,
    weak.neg_trans c.0 a.0 b.0,
    weak.neg_trans b.0 c.0 a.0,
  );
}

module _ (fl : Floats) where
  -- The points `i`, `i + 1`, … with their distances.
  abbrev pub measured : (ℕ → fl.Float) → ℕ → ℕ → List (Near fl)
  measured d zero i = []
  measured d (suc k) i = (d i, i) ∷ measured d k (suc i)

  pub length-measured : (d : ℕ → fl.Float) (k i : ℕ) → length (measured d k i) ≡ k
  length-measured d zero i = refl
  length-measured d (suc k) i = ap suc (length-measured d k (suc i))

  -- The indices of the points.
  abbrev pub places : List (Near fl) → List ℕ
  places near = map (λ (a : Near fl). a.1) near

module _ {A : Type 0} where
  -- Whether a test holds, as a number.
  abbrev pub hits : (A → Bool) → A → ℕ
  hits p x = if p x then 1 else 0

  pub All_of_hits : (p : A → Bool) (xs : List A) → total (hits p) xs ≡ 0 → All (λ x. p x ≡ false) xs
  All_of_hits p [] h = tt
  All_of_hits p (x ∷ xs) h = (ground (arith, h), All_of_hits p xs (omega (arith, h)))

  pub hits_of_All : (p : A → Bool) (xs : List A) → All (λ x. p x ≡ false) xs → total (hits p) xs ≡ 0
  hits_of_All p [] h = refl
  hits_of_All p (x ∷ xs) h = ground (arith, h.0, hits_of_All p xs h.1)

  pub total-append : (f : A → ℕ) (xs ys : List A) → total f (xs ++ ys) ≡ total f xs + total f ys
  total-append f [] ys = omega arith
  total-append f (x ∷ xs) ys = omega (arith, total-append f xs ys)

  pub All-map : (P Q : A → Type 0) → ((x : A) → P x → Q x) → (xs : List A) → All P xs → All Q xs
  All-map P Q f [] h = tt
  All-map P Q f (x ∷ xs) h = (f x h.0, All-map P Q f xs h.1)

  pub All_of_empty : (P : A → Type 0) (xs : List A) → length xs ≡ 0 → All P xs
  All_of_empty P [] h = tt
  All_of_empty P (x ∷ xs) h = absurd (omega (arith, h))

  -- No element is less than one before it.
  abbrev pub Ascending : (A → A → Bool) → List A → Type 0
  Ascending less [] = Unit
  Ascending less (x ∷ xs) = All (λ y. less y x ≡ false) xs × Ascending less xs

  pub Ascending-snoc :
      (less : A → A → Bool) (xs : List A) (m : A)
      → Ascending less xs
      → All (λ x. less m x ≡ false) xs
      → Ascending less (xs ++ m ∷ [])
  Ascending-snoc less [] m a h = (tt, tt)
  Ascending-snoc less (x ∷ xs) m a h = (
    All-append (λ y. less y x ≡ false) xs (m ∷ []) a.0 (h.0, tt),
    Ascending-snoc less xs m a.1 h.1,
  )

  pub total_of_empty : (f : A → ℕ) (xs : List A) → length xs ≡ 0 → total f xs ≡ 0
  total_of_empty f [] h = refl
  total_of_empty f (x ∷ xs) h = absurd (omega (arith, h))
