-- ===== src/Reorder/Correct.antt =====
-- Reordering a forest gives a trajectory of the same pairs.
use mqo_public.Prelude.{
  ℕ, ◌+◌, ◌<◌, ◌≡◌, refl, sym, ◌∙◌, Bool, true, false, ◌&&◌, Option, none, some, List, [], ◌∷◌,
  length, count, count_if, count_if-true, SameItems, All, ok, arith, ◌==◌,
}
use mqo_public.Trajectory.{
  Edge, nodes, parent_is, is_root, VisitsOnce, IsTrajectory, IsForest, Rooted, root, child,
  ParentBelow,
}
use mqo_public.Trajectory.Forest.{count-nodes, count_if_mono}
use mqo_public.Reorder.{reorder_multiple_dfs}
use mqo_public.Reorder.Children.{root_nodes, link_start}
use mqo_public.Reorder.Dfs.{waiting, waits, roots_of, Inv, dfs_roots_ends}

-- At the start the roots are to be done, and every other pair waits.
Inv-start :
    (n : ℕ) (t : List Edge) (once : VisitsOnce n (nodes t))
    → Inv n t once [] (roots_of (root_nodes t)) []
Inv-start n t once = record { items = λ p. parts p t; ordered = tt; ready = tt }
  where
    parts :
        (p : Edge → Bool) (s : List Edge)
        → count_if p s ≡ 0 + 0 + count_if p (roots_of (root_nodes s)) + count_if (waits [] p) s
    parts p [] = refl
    parts p ((v, none) ∷ s) = ground (arith, parts p s)
    parts p ((v, some q) ∷ s) = ground (arith, parts p s)

count_if_none : (p : Edge → Bool) (t : List Edge) → ((e : Edge) → p e ≡ false) → count_if p t ≡ 0
count_if_none p [] h = refl
count_if_none p (e ∷ t) h = ground (arith, h e, count_if_none p t h)

count_if-All :
    (p : Edge → Bool) (out t : List Edge)
    → All (λ e. waiting out e.1 ≡ false) t
    → count_if (waits out p) t ≡ 0
count_if-All p out [] h = refl
count_if-All p out (e ∷ t) h = ground (arith, h.0, count_if-All p out t h.1)

module _ (n : ℕ) (t : List Edge) (forest : IsForest n t) where
  module _ (out : List Edge) (inv : Inv n t forest.visits [] [] out) where
    -- A pair that does not wait is written, and so is its node.
    settled :
        (v : ℕ) (p : Option ℕ → Bool)
        → 0 < count_if (λ e. e.0 == v && p e.1) t
        → ((q : Option ℕ) → p q && waiting out q ≡ false)
        → 0 < count v (nodes out)
    settled v p h k =
        let test : Edge → Bool = λ e. e.0 == v && p e.1 in
        omega (
          arith,
          inv.items test,
          count_if_none (waits out test) t (λ e. ground (arith, k e.1)),
          count_if_mono test (λ e. e.0 == v) out (λ e j. ground arith),
          count-nodes v out,
        )

    -- At the end every node that parent links connect to a root is written.
    Rooted-written : {v : ℕ} → Rooted t v → 0 < count v (nodes out)
    Rooted-written (root {v} h) = settled v is_root h (λ q. ground arith)
    Rooted-written (child {v} {p = q} h r) =
        let done : 0 < count q (nodes out) = Rooted-written r in
        settled v (parent_is q) h (λ o. ground arith)

    none-waits :
        (s : List Edge) → All (λ e. ParentBelow n e.1) s → All (λ e. waiting out e.1 ≡ false) s
    none-waits [] a = tt
    none-waits ((v, none) ∷ s) a = (refl, none-waits s a.1)
    none-waits ((v, some q) ∷ s) a =
        (ground (arith, Rooted-written (forest.rooted q a.0)), none-waits s a.1)

    same : SameItems t out
    same p = omega (arith, inv.items p, count_if-All p out t (none-waits t forest.parents))

    done-IsTrajectory : IsTrajectory n out
    done-IsTrajectory = record {
      size = omega (arith, same (λ _. true), count_if-true t, count_if-true out, forest.size);
      visits = λ v.
          count-nodes v out ∙ sym (same (λ e. e.0 == v)) ∙ sym (count-nodes v t) ∙ forest.visits v;
      ordered = inv.ordered;
    }

-- `reorder_multiple_DFS` of a forest of n nodes ends within more pops for each tree than there are
-- pairs, without a fault. Its result is a trajectory of the n nodes and holds the same pairs.
pub reorder_multiple_dfs-IsTrajectory :
    (n fuel : ℕ) (edges : List Edge)
    → IsForest n edges
    → length edges < fuel
    → (t : List Edge) × (reorder_multiple_dfs fuel edges ≡ ok t)
      × IsTrajectory n t
      × SameItems edges t
unfolding reorder_multiple_dfs
reorder_multiple_dfs-IsTrajectory n fuel edges forest h =
    let (c, e, linked) = link_start n edges forest.parents in
    let (t, e', inv) =
      dfs_roots_ends n edges forest.visits c linked fuel (root_nodes edges) [] h
        (Inv-start n edges forest.visits) in
    (t, rw (forest.size, e) e', done-IsTrajectory n edges forest t inv, same n edges forest t inv)
