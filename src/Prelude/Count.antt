-- ===== src/Prelude/Count.antt =====
-- Multisets by counting: how many elements of a list pass a test, and how often a number occurs.
use Prim.Native.Nat.{ℕ, zero, suc, ◌+◌, ◌*◌, ◌<◌, ◌≤◌}
use mathlib.Core.Path.{◌≡◌, refl}
use mathlib.Core.Bool.{Bool, true}
use mathlib.Core.List.{List, [], ◌∷◌, ◌++◌}
use mathlib.Core.Option.{some}
use native.Mathlib.Omega.{arith}
use mqo_public.Prelude.Tests.{◌==◌, if◌then◌else◌}
use mqo_public.Prelude.Lists.{length, get_elem?}

module _ {ℓ} {A : Type ℓ} where
  abbrev pub count_if : (A → Bool) → List A → ℕ
  count_if p [] = 0
  count_if p (x ∷ xs) = (if p x then 1 else 0) + count_if p xs

  -- The same elements, each as often: every test counts alike on both lists.
  abbrev pub SameItems : List A → List A → Type ℓ
  SameItems xs ys = (p : A → Bool) → count_if p xs ≡ count_if p ys

  -- The sum of a weight over the elements. Lists with equal totals of every weight hold the same
  -- elements, each as often.
  abbrev pub total : (A → ℕ) → List A → ℕ
  total f [] = 0
  total f (x ∷ xs) = f x + total f xs

  abbrev pub SameTotals : List A → List A → Type ℓ
  SameTotals xs ys = (f : A → ℕ) → total f xs ≡ total f ys

  pub total_one : (xs : List A) → total (λ _. 1) xs ≡ length xs
  total_one [] = refl
  total_one (x ∷ xs) = omega (arith, total_one xs)

  pub count_if-append :
      (p : A → Bool) (xs ys : List A) → count_if p (xs ++ ys) ≡ count_if p xs + count_if p ys
  count_if-append p [] ys = omega arith
  count_if-append p (x ∷ xs) ys = omega (arith, count_if-append p xs ys)

  pub count_if-le-length : (p : A → Bool) (xs : List A) → count_if p xs ≤ length xs
  count_if-le-length p [] = omega arith
  count_if-le-length p (x ∷ xs) = ground (arith, count_if-le-length p xs)

  pub count_if-true : (xs : List A) → count_if (λ _. true) xs ≡ length xs
  count_if-true [] = refl
  count_if-true (x ∷ xs) = omega (arith, count_if-true xs)

-- How often a number occurs.
abbrev pub count : ℕ → List ℕ → ℕ
count v [] = 0
count v (x ∷ xs) = (if x == v then 1 else 0) + count v xs

pub count-append : (v : ℕ) (xs ys : List ℕ) → count v (xs ++ ys) ≡ count v xs + count v ys
count-append v [] ys = omega arith
count-append v (x ∷ xs) ys = omega (arith, count-append v xs ys)

pub count_pos_of_get : (xs : List ℕ) (i v : ℕ) → get_elem? xs i ≡ some v → 0 < count v xs
count_pos_of_get [] i v h = cc
count_pos_of_get (x ∷ xs) zero v h = ground arith
count_pos_of_get (x ∷ xs) (suc i) v h = ground (arith, count_pos_of_get xs i v h)

pub count-le-length : (v : ℕ) (xs : List ℕ) → count v xs ≤ length xs
count-le-length v [] = omega arith
count-le-length v (x ∷ xs) = ground (arith, count-le-length v xs)

pub mul_mono : (k n c : ℕ) → k ≤ n → k * c ≤ n * c
mul_mono zero n c h = omega arith
mul_mono (suc k) zero c h = absurd (omega (arith, h))
mul_mono (suc k) (suc n) c h = omega (arith, mul_mono k n c (omega (arith, h)))
