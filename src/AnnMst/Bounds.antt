-- ===== src/AnnMst/Bounds.antt =====
-- Sums that bound the work of the loop over the queue, and what is pushed for one vertex.
use mqo_public.Prelude.{
  ℕ, zero, suc, ◌+◌, ◌<◌, ◌≤◌, ◌≡◌, refl, Bool, true, false, some, List, [], ◌∷◌, length, get_elem?,
  total, All, Run, ok, ltb, ◌==◌, if◌then◌else◌, arith,
}
use mqo_public.Floats.{Floats}
use mqo_public.Queue.{PriorityQueue}
use mqo_public.AnnMst.{PqItem, heavier, push_unvisited}

-- The sum of a weight over the numbers below `k`.
abbrev pub sum_below : (ℕ → ℕ) → ℕ → ℕ
sum_below f zero = 0
sum_below f (suc k) = f k + sum_below f k

-- Weights that differ at `v` only.
pub sum_below-change :
    (f g : ℕ → ℕ) (v c k : ℕ)
    → ((u : ℕ) → f u ≡ g u + (if u == v then c else 0))
    → sum_below f k ≡ sum_below g k + (if ltb v k then c else 0)
sum_below-change f g v c zero h = ground arith
sum_below-change f g v c (suc k) h = ground (arith, h k, sum_below-change f g v c k h)

pub sum_below_mono :
    (f g : ℕ → ℕ) (k : ℕ) → ((u : ℕ) → u < k → f u ≤ g u) → sum_below f k ≤ sum_below g k
sum_below_mono f g zero h = omega arith
sum_below_mono f g (suc k) h =
    omega (arith, h k (omega arith), sum_below_mono f g k (λ u l. h u (omega arith)))

pub total_mono :
    {A : Type 0} (f g : A → ℕ) (xs : List A) → ((a : A) → f a ≤ g a) → total f xs ≤ total g xs
total_mono f g [] h = omega arith
total_mono f g (x ∷ xs) h = omega (arith, h x, total_mono f g xs h)

module _ (fl : Floats) (pq : PriorityQueue (PqItem fl) (heavier fl)) where
  open pq use {Queue, push, items, items-push}

  abbrev pub weigh : (PqItem fl → ℕ) → Queue → ℕ
  weigh f q = total f (items q)

  -- The outcome of pushing `k` neighbours of `v`.
  abbrev pub Pushed : ℕ → ℕ → ℕ → Queue → Run Queue → Type 0
  Pushed n v k q r =
      (q' : Queue) × (r ≡ ok q')
      × (weigh (λ _. 1) q' ≤ weigh (λ _. 1) q + k)
      × ((f : PqItem fl → ℕ)
          → ((d : fl.Float) (u : ℕ)
              → u < n
              → f (record { weight = d; node = u; parent = some v }) ≡ 0)
          → weigh f q' ≡ weigh f q)
      × ((f : PqItem fl → ℕ) → weigh f q ≤ weigh f q')

  -- What is pushed for `v`: at most its neighbours, each with the parent `v`. A weight that is 0 on
  -- such items does not change.
  pub push_unvisited_lem :
      (n : ℕ) (visited : List Bool) (v : ℕ) (nbs : List (ℕ × fl.Float)) (q : Queue)
      → ((u : ℕ) → u < n → (b : Bool) × (get_elem? visited u ≡ some b))
      → All (λ e. e.0 < n) nbs
      → Pushed n v (length nbs) q (push_unvisited fl pq visited v nbs q)
  unfolding push_unvisited
  push_unvisited_lem n visited v [] q known near =
      (q, refl, omega arith, λ f h. refl, λ f. omega arith)
  push_unvisited_lem n visited v ((u, d) ∷ nbs) q known near =
      let it : PqItem fl = record { weight = d; node = u; parent = some v } in
      let (b, e) = known u near.0 in
      elim b
          as (λ b.
            get_elem? visited u ≡ some b
            → Pushed n v (suc (length nbs)) q (push_unvisited fl pq visited v ((u, d) ∷ nbs) q)) [
              | true ↦ λ e.
                  let (q', ends, few, same, more) =
                    push_unvisited_lem n visited v nbs q known near.1 in
                  (q', rw e ends, omega (arith, few), same, more)
              | false ↦ λ e.
                  let (q', ends, few, same, more) =
                    push_unvisited_lem n visited v nbs (push it q) known near.1 in
                  (
                    q',
                    rw e ends,
                    omega (arith, few, items-push it q (λ _. 1)),
                    λ f h. omega (arith, same f h, items-push it q f, h d u near.0),
                    λ f. omega (arith, more f, items-push it q f),
                  )
            ]
        e
