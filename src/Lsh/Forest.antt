-- ===== src/Lsh/Forest.antt =====
-- The trees of all groups together are a trajectory of the queries.
use mqo_public.Prelude.{
  ℕ, zero, suc, ◌+◌, ◌-◌, ◌<◌, ◌≡◌, ap, ◌∙◌, false, none, some, List, [], ◌∷◌, ◌++◌, length, count,
  total_one, All, Run, ok, ◌==◌, arith, Bool-cases, Option-cases, inl, inr,
}
use mqo_public.Floats.{Floats}
use mqo_public.Trajectory.{Edge, nodes, ParentsFirst, VisitsOnce}
use mqo_public.Queue.{PriorityQueue}
use mqo_public.GroupMst.{prim_group}
use mqo_public.GroupMst.Taken.{roots}
use mqo_public.GroupMst.Relax.{Reaches}
use mqo_public.GroupMst.Rounds.{IsInfinity, AllReach}
use mqo_public.GroupMst.Tree.{prim_from_lem}
use mqo_public.Lsh.{GroupInfo, smaller, mst_loop}
use mqo_public.Lsh.Split.{in_groups}
use mqo_public.Lsh.Sofar.{nil_of_length, Sofar, Sofar-inside, Sofar-add, Sofar-single, popped-cons}

pub All-of_counts {ℓ} : (P : ℕ → Type ℓ) (vs : List ℕ) → ((v : ℕ) → 0 < count v vs → P v) → All P vs
All-of_counts P [] h = tt
All-of_counts P (v ∷ vs) h =
    (h v (ground arith), All-of_counts P vs (λ u k. h u (omega (arith, k))))

pub Reaches-all :
    (fl : Floats) (dist : ℕ → ℕ → Run fl.Float) (n : ℕ) (group : List ℕ)
    → ((i j : ℕ) → i < n → j < n → Reaches fl dist i j)
    → ((v : ℕ) → 0 < count v group → v < n)
    → AllReach fl dist group
Reaches-all fl dist n group close inside =
    All-of_counts (λ x. All (Reaches fl dist x) group) group
      λ x k. All-of_counts (Reaches fl dist x) group λ y j. close x y (inside x k) (inside y j)

module _ (fl : Floats) (laws : IsInfinity fl) (pq : PriorityQueue GroupInfo smaller)
    (dist : ℕ → ℕ → Run fl.Float) (n : ℕ)
    (close : (i j : ℕ) → i < n → j < n → Reaches fl dist i j) where
  open pq use {Queue, pop, items, pop_none, pop_some}

  -- One group adds its tree.
  Sofar-group :
      (q q' : Queue) (info : GroupInfo) (edges : ℕ) (out : List Edge)
      → Sofar pq n q edges out
      → pop q ≡ some (info, q')
      → (g : ℕ) (rest : List ℕ) → info.group ≡ g ∷ rest
      → (w : fl.Float) × (out' : List Edge) × (prim_group fl dist info.group out ≡ ok (w, out'))
        × Sofar pq n q' (edges + (length info.group - 1)) out'
  unfolding prim_group
  Sofar-group q q' info edges out s popped g rest e =
      let inside : (v : ℕ) → 0 < count v (g ∷ rest) → v < n = λ v k.
        Sofar-inside pq n q q' info edges out s popped v (omega (arith, k, ap (count v) e)) in
      let (w, out', ends, (ordered, counts, rooted, sized)) =
        prim_from_lem fl laws dist g rest fl.add fl.zero out
          (Reaches-all fl dist n (g ∷ rest) close inside) s.ordered in
      (
        w,
        out',
        rw e ends,
        Sofar-add pq n q q' info edges (edges + (length info.group - 1)) out out' s popped ordered
            (λ v. omega (arith, counts v, ap (count v) e))
            (omega (arith, s.counted, rooted, sized, ap length e)),
      )

  end_eq :
      (fuel : ℕ) (q : Queue) (sum : fl.Double) (edges : ℕ) (out : List Edge)
      → pop q ≡ none
      → mst_loop fl pq dist (suc fuel) q sum edges out ≡ ok (sum, edges, out)
  unfolding mst_loop
  end_eq fuel q sum edges out e = rw (e, mst_loop)

  single_eq :
      (fuel : ℕ) (q q' : Queue) (sum : fl.Double) (edges : ℕ) (out : List Edge) (info : GroupInfo)
      (g : ℕ)
      → pop q ≡ some (info, q')
      → info.group ≡ g ∷ []
      → mst_loop fl pq dist (suc fuel) q sum edges out
        ≡ mst_loop fl pq dist fuel q' sum edges (out ++ (g, none) ∷ [])
  unfolding mst_loop
  single_eq fuel q q' sum edges out info g e h = rw (e, mst_loop, h) (rw h)

  group_eq :
      (fuel : ℕ) (q q' : Queue) (sum : fl.Double) (edges : ℕ) (out out' : List Edge)
      (info : GroupInfo) (w : fl.Float)
      → pop q ≡ some (info, q')
      → (length info.group == 1) ≡ false
      → prim_group fl dist info.group out ≡ ok (w, out')
      → mst_loop fl pq dist (suc fuel) q sum edges out
        ≡ mst_loop fl pq dist fuel q'
            (fl.d_add sum (fl.to_double w))
            (edges + (length info.group - 1))
            out'
  unfolding mst_loop
  group_eq fuel q q' sum edges out out' info w e h k = rw (e, mst_loop, h, k)

  -- With fuel for every group the loop ends. Each query is written once, parents first, and the
  -- pairs that are no roots are counted.
  pub mst_loop_lem :
      (fuel : ℕ) (q : Queue) (sum : fl.Double) (edges : ℕ) (out : List Edge)
      → length (items q) < fuel
      → Sofar pq n q edges out
      → (sum' : fl.Double) × (edges' : ℕ) × (out' : List Edge) × (mst_loop fl pq dist fuel q sum
            edges out
          ≡ ok (sum', edges', out'))
        × VisitsOnce n (nodes out')
        × ParentsFirst [] out'
        × (edges' + roots out' ≡ length out')
  mst_loop_lem zero q sum edges out h s = absurd (omega arith)
  mst_loop_lem (suc fuel) q sum edges out h s = elim (Option-cases (pop q)) [
    | inl e ↦ (
      sum,
      edges,
      out,
      end_eq fuel q sum edges out e,
      λ v. omega (arith, s.once v, ap (in_groups v) (pop_none q e)),
      s.ordered,
      s.counted,
    )
    | inr ((info, q'), e) ↦
        let (g, rest, shape) = popped-cons pq n q q' info edges out s e in
        let fewer : length (items q') < fuel =
          omega (arith, pop_some q info q' e (λ _. 1), total_one (items q), total_one (items q')) in
        elim (Bool-cases (length info.group == 1)) [
          | inl one ↦
              let only : info.group ≡ g ∷ [] =
                shape ∙ ap (◌∷◌ g) (nil_of_length rest (ground (arith, one, ap length shape))) in
              let (sum', edges', out', ends, once, ordered, counted) =
                mst_loop_lem fuel q' sum edges (out ++ (g, none) ∷ []) fewer
                  (Sofar-single pq n q q' info edges out g s e only) in
              (
                sum',
                edges',
                out',
                single_eq fuel q q' sum edges out info g e only ∙ ends,
                once,
                ordered,
                counted,
              )
          | inr more ↦
              let (w, out₁, grown, next) = Sofar-group q q' info edges out s e g rest shape in
              let (sum', edges', out', ends, once, ordered, counted) =
                mst_loop_lem fuel q' (fl.d_add sum (fl.to_double w))
                  (edges + (length info.group - 1)) out₁ fewer next in
              (
                sum',
                edges',
                out',
                group_eq fuel q q' sum edges out out₁ info w e more grown ∙ ends,
                once,
                ordered,
                counted,
              )
        ]
  ]
