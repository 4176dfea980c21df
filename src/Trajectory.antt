-- ===== src/Trajectory.antt =====
-- The data that the parts of mqo/ hand to one another: a `vector<pair<int, int>>` of pairs
-- (child, parent), where the parent -1 of a root is `none`. A trajectory visits every query once and
-- a parent before its children; a forest has the same pairs in any order.
pub mod Forest
use mqo_public.Prelude.{
  ℕ, ◌+◌, ◌<◌, ◌≡◌, Bool, true, false, ◌&&◌, Option, none, some, List, [], ◌∷◌, length, count,
  count_if, All, ◌==◌, ltb, if◌then◌else◌,
}

abbrev pub Edge : Type 0
Edge = ℕ × Option ℕ

-- The children, in the order of the list.
abbrev pub nodes : List Edge → List ℕ
nodes [] = []
nodes ((v, p) ∷ t) = v ∷ nodes t

abbrev pub parent_is : ℕ → Option ℕ → Bool
parent_is v none = false
parent_is v (some p) = p == v

abbrev pub is_root : Option ℕ → Bool
is_root none = true
is_root (some p) = false

-- Every parent is in `seen`, or stands earlier in the list than its child.
abbrev pub ParentsFirst : List ℕ → List Edge → Type 0
ParentsFirst seen [] = Unit
ParentsFirst seen ((v, none) ∷ t) = ParentsFirst (v ∷ seen) t
ParentsFirst seen ((v, some p) ∷ t) = (0 < count p seen) × ParentsFirst (v ∷ seen) t

-- Each of the queries 0 … n - 1 stands in the list once, and nothing else does.
abbrev pub VisitsOnce : ℕ → List ℕ → Type 0
VisitsOnce n vs = (v : ℕ) → count v vs ≡ (if ltb v n then 1 else 0)

pub record IsTrajectory (n : ℕ) (t : List Edge) : Type 0 where
  pub size : length t ≡ n
  pub visits : VisitsOnce n (nodes t)
  pub ordered : ParentsFirst [] t

-- The node is a root, or its parent links lead to one.
pub data Rooted (t : List Edge) : ℕ → Type 0 where
  root : {v : ℕ} → 0 < count_if (λ e. e.0 == v && is_root e.1) t → Rooted t v
  child : {v p : ℕ} → 0 < count_if (λ e. e.0 == v && parent_is p e.1) t → Rooted t p → Rooted t v

abbrev pub ParentBelow : ℕ → Option ℕ → Type 0
ParentBelow n none = Unit
ParentBelow n (some p) = p < n

-- The pairs of a trajectory in any order: what the reordering takes.
pub record IsForest (n : ℕ) (t : List Edge) : Type 0 where
  pub size : length t ≡ n
  pub visits : VisitsOnce n (nodes t)
  pub parents : All (λ e. ParentBelow n e.1) t
  pub rooted : (v : ℕ) → v < n → Rooted t v
