-- ===== src/Queue.antt =====
-- `std::priority_queue`: the operations that the program calls and what the standard says of them.
-- The comparison must be a strict weak ordering, as the standard asks: without one the queue is
-- undefined, and so a queue of distances has none that is not a number. Which of several greatest
-- elements comes first is left open, so theorems hold for every choice.
pub mod Sorted
use mqo_public.Prelude.{
  ℕ, ◌≡◌, Bool, true, false, Option, none, some, List, [], ◌∷◌, SameTotals, All,
}

-- A strict weak ordering, as the standard asks of a comparison.
pub record IsStrictWeak {A : Type 0} (less : A → A → Bool) : Type 0 where
  pub asym : (a b : A) → less a b ≡ true → less b a ≡ false
  pub neg_trans : (a b c : A) → less a b ≡ false → less b c ≡ false → less a c ≡ false

pub record PriorityQueue (A : Type 0) (less : A → A → Bool) : Type 1 where
  pub weak : IsStrictWeak less
  pub Queue : Type 0
  pub empty : Queue
  pub push : A → Queue → Queue
  -- `top()` and `pop()` together; both are undefined on an empty queue.
  pub pop : Queue → Option (A × Queue)
  pub items : Queue → List A
  pub items-empty : items empty ≡ []
  pub items-push : (a : A) (q : Queue) → SameTotals (items (push a q)) (a ∷ items q)
  pub pop_none : (q : Queue) → pop q ≡ none → items q ≡ []
  pub pop_some :
      (q : Queue) (a : A) (r : Queue) → pop q ≡ some (a, r) → SameTotals (items q) (a ∷ items r)
  pub pop_greatest :
      IsStrictWeak less
      → (q : Queue) (a : A) (r : Queue) → pop q ≡ some (a, r)
      → All (λ b. less a b ≡ false) (items q)
