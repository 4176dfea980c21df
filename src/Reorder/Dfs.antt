-- ===== src/Reorder/Dfs.antt =====
-- The depth-first loop: what is written, what is stacked and what still waits for its parent are
-- together the pairs of the forest, after every pop.
use mqo_public.Prelude.{
  ℕ, zero, suc, ◌+◌, ◌<◌, ◌≤◌, ◌≡◌, refl, Bool, true, false, ◌&&◌, Option, none, some, List, [],
  ◌∷◌, ◌++◌, length, length-append, get_elem?, count, count-append, count_if, count_if-append,
  count_if-true, All, ok, arith, ◌==◌, ==_refl, if◌then◌else◌, ap,
}
use mqo_public.Trajectory.{Edge, nodes, ParentsFirst, VisitsOnce}
use mqo_public.Trajectory.Forest.{count-nodes, nodes-append, ParentIn, ParentsFirst-snoc}
use mqo_public.Reorder.{push_children, dfs, dfs_roots}
use mqo_public.Reorder.Children.{kids}

-- A pair waits while its parent is not written.
abbrev pub waiting : List Edge → Option ℕ → Bool
waiting out none = false
waiting out (some q) = count q (nodes out) == 0

abbrev pub waits : List Edge → (Edge → Bool) → Edge → Bool
waits out p e = p e && waiting out e.1

abbrev pub roots_of : List ℕ → List Edge
roots_of [] = []
roots_of (r ∷ rs) = (r, none) ∷ roots_of rs

push_children-count :
    (v : ℕ) (cs : List ℕ) (s : List Edge) (p : Edge → Bool)
    → count_if p (push_children v cs s) ≡ count_if p (push_children v cs []) + count_if p s
unfolding push_children
push_children-count v [] s p = omega arith
push_children-count v (c ∷ cs) s p = omega (arith, push_children-count v cs s p)

count-snoc :
    (w : ℕ) (out : List Edge) (v : ℕ) (q : Option ℕ)
    → count w (nodes (out ++ (v, q) ∷ [])) ≡ count w (nodes out) + (if v == w then 1 else 0)
count-snoc w out v q =
    rw (nodes-append out ((v, q) ∷ [])) (omega (arith, count-append w (nodes out) (v ∷ [])))

-- Writing `v` releases exactly its children.
released :
    (t out : List Edge) (v : ℕ) (q : Option ℕ) (p : Edge → Bool)
    → count v (nodes out) ≡ 0
    → count_if (waits out p) t
      ≡ count_if p (push_children v (kids v t) []) + count_if (waits (out ++ (v, q) ∷ []) p) t
unfolding push_children
released [] out v q p h = refl
released ((u, none) ∷ t) out v q p h = ground (arith, released t out v q p h)
released ((u, some w) ∷ t) out v q p h =
    let same : w ≡ v → p (u, some w) ≡ p (u, some v) = λ e. ap (λ x. p (u, some x)) e in
    ground (arith, released t out v q p h, count-snoc w out v q, same)

module _ (n : ℕ) (edges : List Edge) (once : VisitsOnce n (nodes edges)) where
  -- `s` is the stack, `later` are the roots that the outer loop has not reached.
  pub record Inv (s later out : List Edge) : Type 0 where
    pub items :
        (p : Edge → Bool)
        → count_if p edges
          ≡ count_if p out + count_if p s + count_if p later + count_if (waits out p) edges
    pub ordered : ParentsFirst [] out
    pub ready : All (λ e. ParentIn out e.1) s

  -- The node on top of the stack is one of the n, and is not written yet.
  pub top-fresh :
      (v : ℕ) (q : Option ℕ) (s later out : List Edge)
      → Inv ((v, q) ∷ s) later out
      → (v < n) × (count v (nodes out) ≡ 0)
  top-fresh v q s later out inv =
      ground (
        arith,
        inv.items (λ e. e.0 == v),
        once v,
        count-nodes v edges,
        count-nodes v out,
        ==_refl v,
      )

  push_children-ready :
      (v : ℕ) (cs : List ℕ) (s out : List Edge)
      → 0 < count v (nodes out)
      → All (λ e. ParentIn out e.1) s
      → All (λ e. ParentIn out e.1) (push_children v cs s)
  unfolding push_children
  push_children-ready v [] s out h a = a
  push_children-ready v (c ∷ cs) s out h a = (h, push_children-ready v cs s out h a)

  ready_mono :
      (s out : List Edge) (v : ℕ) (q : Option ℕ)
      → All (λ e. ParentIn out e.1) s
      → All (λ e. ParentIn (out ++ (v, q) ∷ []) e.1) s
  ready_mono [] out v q a = tt
  ready_mono ((u, none) ∷ s) out v q a = (tt, ready_mono s out v q a.1)
  ready_mono ((u, some w) ∷ s) out v q a =
      (omega (arith, a.0, count-snoc w out v q), ready_mono s out v q a.1)

  -- One pop keeps the invariant.
  pub Inv-pop :
      (v : ℕ) (q : Option ℕ) (s later out : List Edge)
      → Inv ((v, q) ∷ s) later out
      → Inv (push_children v (kids v edges) s) later (out ++ (v, q) ∷ [])
  Inv-pop v q s later out inv =
      let (_, fresh) = top-fresh v q s later out inv in
      record {
        items = λ p. omega (
          arith,
          inv.items p,
          released edges out v q p fresh,
          push_children-count v (kids v edges) s p,
          count_if-append p out ((v, q) ∷ []),
        );
        ordered = ParentsFirst-snoc out v q inv.ordered inv.ready.0;
        ready =
            push_children-ready v (kids v edges) s (out ++ (v, q) ∷ [])
              (ground (arith, count-snoc v out v q, ==_refl v)) (ready_mono s out v q inv.ready.1);
      }

  length-out : (s later out : List Edge) → Inv s later out → length out + length s ≤ length edges
  length-out s later out inv =
      omega (arith, inv.items (λ _. true), count_if-true edges, count_if-true out, count_if-true s)

  module _ (c : List (List ℕ))
      (linked : (v : ℕ) → v < n → get_elem? c v ≡ some (kids v edges)) where
    -- With fuel for the pairs that are not written the loop ends, with an empty stack.
    pub dfs_ends :
        (fuel : ℕ) (s later out : List Edge)
        → length edges < fuel + length out
        → Inv s later out
        → (out' : List Edge) × (dfs fuel c s out ≡ ok out') × Inv [] later out'
    unfolding dfs
    dfs_ends fuel [] later out h inv = (out, refl, inv)
    dfs_ends zero (e ∷ s) later out h inv = absurd (omega (arith, length-out (e ∷ s) later out inv))
    dfs_ends (suc fuel) ((v, q) ∷ s) later out h inv =
        let (out', e, inv') =
          dfs_ends fuel (push_children v (kids v edges) s) later (out ++ (v, q) ∷ [])
            (omega (arith, length-append out ((v, q) ∷ []))) (Inv-pop v q s later out inv) in
        (out', rw (linked v (top-fresh v q s later out inv).0) e, inv')

    pub dfs_roots_ends :
        (fuel : ℕ) (rs : List ℕ) (out : List Edge)
        → length edges < fuel
        → Inv [] (roots_of rs) out
        → (out' : List Edge) × (dfs_roots fuel c rs out ≡ ok out') × Inv [] [] out'
    unfolding dfs_roots
    dfs_roots_ends fuel [] out h inv = (out, refl, inv)
    dfs_roots_ends fuel (r ∷ rs) out h inv =
        let started : Inv ((r, none) ∷ []) (roots_of rs) out = record {
          items = λ p. omega (arith, inv.items p);
          ordered = inv.ordered;
          ready = (tt, tt);
        } in
        let (out₁, e₁, inv₁) =
          dfs_ends fuel ((r, none) ∷ []) (roots_of rs) out (omega arith) started in
        let (out', e, inv') = dfs_roots_ends fuel rs out₁ h inv₁ in (out', rw e₁ e, inv')
