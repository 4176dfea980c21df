-- ===== src/Checker/Pigeonhole.antt =====
-- A list of n numbers that holds each of 0 … n - 1 holds each of them once, and nothing else.
use mqo_public.Prelude.{
  ℕ, zero, suc, ◌+◌, ◌<◌, ◌≤◌, ◌≡◌, refl, List, [], ◌∷◌, length, count, ltb, if◌then◌else◌, arith,
}
use mqo_public.Trajectory.{VisitsOnce}

-- How many elements are below `n`.
below : ℕ → List ℕ → ℕ
below zero xs = 0
below (suc n) xs = count n xs + below n xs

below-nil : (n : ℕ) → below n [] ≡ 0
unfolding below
below-nil zero = refl
below-nil (suc n) = omega (arith, below-nil n)

below-cons : (n x : ℕ) (xs : List ℕ) → below n (x ∷ xs) ≡ (if ltb x n then 1 else 0) + below n xs
unfolding below
below-cons zero x xs = ground arith
below-cons (suc n) x xs = ground (arith, below-cons n x xs)

below-le-length : (n w : ℕ) (xs : List ℕ) → n ≤ w → below n xs + count w xs ≤ length xs
below-le-length n w [] h = omega (arith, below-nil n)
below-le-length n w (x ∷ xs) h = ground (arith, below-cons n x xs, below-le-length n w xs)

le-below : (n : ℕ) (xs : List ℕ) → ((v : ℕ) → v < n → 0 < count v xs) → n ≤ below n xs
unfolding below
le-below zero xs h = omega arith
le-below (suc n) xs h = omega (arith, h n, le-below n xs (λ v k. h v (omega arith)))

count-le-below :
    (n w : ℕ) (xs : List ℕ)
    → w < n
    → ((v : ℕ) → v < n → 0 < count v xs)
    → n + count w xs ≤ suc (below n xs)
unfolding below
count-le-below zero w xs k h = absurd (omega arith)
count-le-below (suc n) w xs k h =
    let rest : (v : ℕ) → v < n → 0 < count v xs = λ v j. h v (omega arith) in
    ground (arith, h n, le-below n xs rest, λ (j : w < n). count-le-below n w xs j rest)

pub pigeonhole :
    (n : ℕ) (xs : List ℕ) → length xs ≡ n → ((v : ℕ) → v < n → 0 < count v xs) → VisitsOnce n xs
pigeonhole n xs e h v = ground (
  arith,
  λ (k : v < n). count-le-below n v xs k h,
  λ (k : v < n). h v k,
  le-below n xs h,
  below-le-length n v xs,
  below-le-length n n xs,
)

below-full : (n : ℕ) (xs : List ℕ) → ((v : ℕ) → n ≤ v → count v xs ≡ 0) → below n xs ≡ length xs
below-full n [] h = below-nil n
below-full n (x ∷ xs) h =
    ground (arith, below-cons n x xs, h x, below-full n xs (λ v k. ground (arith, h v k)))

below-once : (n k : ℕ) (xs : List ℕ) → VisitsOnce n xs → k ≤ n → below k xs ≡ k
unfolding below
below-once n zero xs h le = refl
below-once n (suc k) xs h le = ground (arith, h k, below-once n k xs h)

-- A list that holds each of 0 … n - 1 once, and nothing else, has n elements.
pub VisitsOnce-length : (n : ℕ) (xs : List ℕ) → VisitsOnce n xs → length xs ≡ n
VisitsOnce-length n xs h =
    omega (arith, below-full n xs (λ v k. ground (arith, h v)), below-once n n xs h)

below-le : (n k : ℕ) (xs : List ℕ) → ((v : ℕ) → count v xs ≤ 1) → below k xs ≤ k
unfolding below
below-le n zero xs h = omega arith
below-le n (suc k) xs h = omega (arith, h k, below-le n k xs h)

-- A list that holds each of 0 … n - 1 at most once, and nothing else, has at most n elements.
pub length_bounded :
    (n : ℕ) (xs : List ℕ) → ((v : ℕ) → count v xs ≤ (if ltb v n then 1 else 0)) → length xs ≤ n
length_bounded n xs h = omega (
  arith,
  below-full n xs (λ v k. ground (arith, h v)),
  below-le n n xs (λ v. ground (arith, h v)),
)
