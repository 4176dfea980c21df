-- ===== src/Checker.antt =====
-- mqo/checker.hpp: the assertions on a trajectory. A `std::set<int>` is a list in ascending order.
pub mod Set
pub mod Pigeonhole
pub mod Sound
use mqo_public.Prelude.{
  ℕ, zero, suc, Bool, true, false, not, ◌&&◌, ◌||◌, Option, none, some, List, [], ◌∷◌, length, ◌==◌,
  ltb, if◌then◌else◌, Run, ok, guard, assertion_failed, ◌>>=◌, ◌>>◌,
}
use mqo_public.Trajectory.{Edge}

-- `s.insert(x)`
pub insert : ℕ → List ℕ → List ℕ
insert x [] = x ∷ []
insert x (y ∷ ys) = if ltb x y then x ∷ y ∷ ys else if x == y then y ∷ ys else y ∷ insert x ys

-- `s == r`
pub set_eq : List ℕ → List ℕ → Bool
set_eq [] [] = true
set_eq (x ∷ xs) (y ∷ ys) = x == y && set_eq xs ys
set_eq _ _ = false

-- `s.count(x) == 1`
pub contains : ℕ → List ℕ → Bool
contains v [] = false
contains v (x ∷ s) = x == v || contains v s

-- `for (i = 0; i < n_query; i++) full.insert(i)`, from `i` on with `k` rounds left.
pub fill : ℕ → ℕ → List ℕ → List ℕ
fill zero i s = s
fill (suc k) i s = fill k (suc i) (insert i s)

-- `for (auto x : trajectory) nodes.insert(x.first)`
pub collect : List Edge → List ℕ → List ℕ
collect [] s = s
collect ((v, p) ∷ t) s = collect t (insert v s)

pub parent_seen : Option ℕ → List ℕ → Bool
unfolding contains
parent_seen none prev = true
parent_seen (some p) prev = contains p prev

-- The last loop, which goes on after a parent that was not seen.
pub scan_parents : List Edge → List ℕ → Bool → Bool
unfolding insert parent_seen
scan_parents [] prev possible = possible
scan_parents ((v, p) ∷ t) prev possible =
    scan_parents t (insert v prev) (if parent_seen p prev then possible else false)

unfoldable pub check_trajectory : List Edge → ℕ → Run (Unit {0})
unfolding fill collect set_eq scan_parents
check_trajectory t n = do
  guard (length t == n) assertion_failed
  guard (set_eq (fill n 0 []) (collect t [])) assertion_failed
  guard (scan_parents t [] true) assertion_failed
  ok tt
