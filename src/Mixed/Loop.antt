-- ===== src/Mixed/Loop.antt =====
-- The loop over the groups, for every way to find the tree of a group.
use mqo_public.Prelude.{
  ℕ, zero, suc, ◌+◌, ◌-◌, ◌*◌, ◌<◌, ◌≤◌, ◌≡◌, refl, ap, ◌∙◌, false, none, some, List, [], ◌∷◌, ◌++◌,
  length, count, total_one, Run, ok, ◌>>=◌, leb, ltb, if◌then◌else◌, arith, Bool-cases,
  Option-cases, inl, inr,
}
use mqo_public.Floats.{Floats}
use mqo_public.Trajectory.{Edge, nodes, ParentsFirst, VisitsOnce, IsTrajectory}
use mqo_public.Trajectory.Forest.{length-nodes}
use mqo_public.Queue.{PriorityQueue}
use mqo_public.Checker.Pigeonhole.{VisitsOnce-length}
use mqo_public.Distance.{int_limit}
use mqo_public.Distance.Bounds.{HasRows}
use mqo_public.Distance.Sampling.{IsVaried, get_weight_for_root_ends}
use mqo_public.Distance.{get_weight_for_root}
use mqo_public.Lsh.{GroupInfo, smaller, generate_random_hyperplane, split}
use mqo_public.Lsh.Bounds.{hyperplane_rows, get_innerproduct-row}
use mqo_public.Lsh.Split.{in_groups, split-Partition}
use mqo_public.Lsh.Sofar.{nil_of_length, Sofar, Sofar-add, Sofar-single, popped-cons}
use mqo_public.Mixed.{append_local, mixed_loop, with_average, mixed}
use mqo_public.Mixed.Append.{append_local_lem}

-- The tree of a group of two or more queries is found, on their positions.
abbrev pub FindsTrees : (fl : Floats) → ℕ → (List ℕ → Run (List Edge × fl.Double)) → Type 0
FindsTrees fl n tree =
    (group : List ℕ)
    → 1 < length group
    → ((v : ℕ) → count v group ≤ (if ltb v n then 1 else 0))
    → (t : List Edge) × (w : fl.Double) × (tree group ≡ ok (t, w)) × IsTrajectory (length group) t

module _ (fl : Floats) (pq : PriorityQueue GroupInfo smaller) (n : ℕ)
    (tree : List ℕ → Run (List Edge × fl.Double)) where
  open pq use {Queue, pop, items, pop_none, pop_some}

  end_eq :
      (fuel : ℕ) (q : Queue) (sum : fl.Double) (edges : ℕ) (out : List Edge)
      → pop q ≡ none
      → mixed_loop fl pq tree (suc fuel) q sum edges out ≡ ok (sum, edges, out)
  unfolding mixed_loop
  end_eq fuel q sum edges out e = rw (e, mixed_loop)

  single_eq :
      (fuel : ℕ) (q q' : Queue) (sum : fl.Double) (edges : ℕ) (out : List Edge) (info : GroupInfo)
      (g : ℕ)
      → pop q ≡ some (info, q')
      → info.group ≡ g ∷ []
      → mixed_loop fl pq tree (suc fuel) q sum edges out
        ≡ mixed_loop fl pq tree fuel q' sum edges (out ++ (g, none) ∷ [])
  unfolding mixed_loop
  single_eq fuel q q' sum edges out info g e h = rw (e, mixed_loop, h) (rw h)

  group_eq :
      (fuel : ℕ) (q q' : Queue) (sum : fl.Double) (edges c : ℕ) (out out' loc : List Edge)
      (info : GroupInfo) (avg : fl.Double)
      → pop q ≡ some (info, q')
      → leb (length info.group) 1 ≡ false
      → tree info.group ≡ ok (loc, avg)
      → append_local fl info.group loc out 0 ≡ ok (out', c)
      → mixed_loop fl pq tree (suc fuel) q sum edges out
        ≡ mixed_loop fl pq tree fuel q'
            (fl.d_add sum (fl.d_mul avg (fl.d_of_int c)))
            (edges + c)
            out'
  unfolding mixed_loop
  group_eq fuel q q' sum edges c out out' loc info avg e h k l = rw (e, mixed_loop, h, k, l)

  -- With fuel for every group the loop ends, and each query is written once, parents first.
  mixed_loop_lem :
      FindsTrees fl n tree
      → (fuel : ℕ) (q : Queue) (sum : fl.Double) (edges : ℕ) (out : List Edge)
      → length (items q) < fuel
      → Sofar pq n q edges out
      → (sum' : fl.Double) × (edges' : ℕ) × (out' : List Edge) × (mixed_loop fl pq tree fuel q sum
            edges out
          ≡ ok (sum', edges', out'))
        × VisitsOnce n (nodes out')
        × ParentsFirst [] out'
  mixed_loop_lem finds zero q sum edges out h s = absurd (omega arith)
  mixed_loop_lem finds (suc fuel) q sum edges out h s = elim (Option-cases (pop q)) [
    | inl e ↦ (
      sum,
      edges,
      out,
      end_eq fuel q sum edges out e,
      λ v. omega (arith, s.once v, ap (in_groups v) (pop_none q e)),
      s.ordered,
    )
    | inr ((info, q'), e) ↦
        let (g, rest, shape) = popped-cons pq n q q' info edges out s e in
        let fewer : length (items q') < fuel =
          omega (arith, pop_some q info q' e (λ _. 1), total_one (items q), total_one (items q')) in
        elim (Bool-cases (leb (length info.group) 1)) [
          | inl one ↦
              let only : info.group ≡ g ∷ [] =
                shape ∙ ap (◌∷◌ g) (nil_of_length rest (ground (arith, one, ap length shape))) in
              let (sum', edges', out', ends, once, ordered) =
                mixed_loop_lem finds fuel q' sum edges (out ++ (g, none) ∷ []) fewer
                  (Sofar-single pq n q q' info edges out g s e only) in
              (
                sum',
                edges',
                out',
                single_eq fuel q q' sum edges out info g e only ∙ ends,
                once,
                ordered,
              )
          | inr more ↦
              let (loc, avg, found, trajectory) =
                finds info.group (ground (arith, more))
                  (λ v. omega (arith, s.once v, pop_some q info q' e (λ i. count v i.group))) in
              let (out₁, c, added, ordered₁, counts, counted) =
                append_local_lem fl info.group loc out trajectory s.ordered in
              let (sum', edges', out', ends, once, ordered) =
                mixed_loop_lem finds fuel q' (fl.d_add sum (fl.d_mul avg (fl.d_of_int c)))
                  (edges + c) out₁ fewer
                  (Sofar-add pq n q q' info edges (edges + c) out out₁ s e ordered₁ counts
                    (omega (arith, counted, s.counted))) in
              (
                sum',
                edges',
                out',
                group_eq fuel q q' sum edges c out out₁ loc info avg e more found added ∙ ends,
                once,
                ordered,
              )
        ]
  ]

  with_average_lem :
      (rand : ℕ → ℕ → ℕ) (fuel : ℕ) (query : List fl.Float) (dim edges : ℕ) (sum w : fl.Double)
      (t : List Edge)
      → get_weight_for_root fl rand fuel query n dim 3000 ≡ ok w
      → with_average fl rand fuel query n dim (ok (sum, edges, t))
        ≡ ok (t, fl.d_div (fl.d_add sum (fl.d_mul (fl.d_of_int (n - edges)) w)) (fl.d_of_int n))
  unfolding with_average
  with_average_lem rand fuel query dim edges sum w t e = rw e refl

  mixed_eq :
      (normal : ℕ → fl.Float) (rand : ℕ → ℕ → ℕ) (fuel : ℕ) (query plane : List fl.Float)
      (dim b : ℕ) (q : Queue) (r : Run (fl.Double × ℕ × List Edge))
      → generate_random_hyperplane fl normal b 1 dim ≡ ok plane
      → split fl pq query plane n dim b ≡ ok q
      → mixed_loop fl pq tree fuel q (fl.d_of_int 0) 0 [] ≡ r
      → mixed fl pq tree normal rand fuel query n dim b ≡ with_average fl rand fuel query n dim r
  unfolding mixed
  mixed_eq normal rand fuel query plane dim b q r e₁ e₂ e₃ =
      let after : Queue → Run (List Edge × fl.Double) = λ q'.
        with_average fl rand fuel query n dim
          (mixed_loop fl pq tree fuel q' (fl.d_of_int 0) 0 []) in
      ap (λ m. m >>= λ p. split fl pq query p n dim b >>= after) e₁
      ∙ ap (λ m. m >>= after) e₂
      ∙ ap (with_average fl rand fuel query n dim) e₃

  -- The groups, the loop and the average weight: a trajectory of the queries, if the trees of groups
  -- are found.
  pub mixed_lem :
      (normal : ℕ → fl.Float) (rand : ℕ → ℕ → ℕ) (fuel : ℕ) (query : List fl.Float) (dim b : ℕ)
      → FindsTrees fl n tree
      → 0 < n
      → 0 < b
      → (b - 1) * 1 * dim < int_limit
      → HasRows query n dim
      → IsVaried rand n fuel
      → b < fuel
      → (t : List Edge) × (w : fl.Double) × (mixed fl pq tree normal rand fuel query n dim b
          ≡ ok (t, w))
        × IsTrajectory n t
  mixed_lem normal rand fuel query dim b finds pos some_groups fits rows varied enough =
      let (plane, e₁, long, short) = hyperplane_rows fl normal b dim some_groups fits in
      let (q, e₂, part, few) = split-Partition fl query plane dim pq n b pos (λ v h k j.
        (_, get_innerproduct-row fl query plane n (b - 1) dim v h rows long short k j)) in
      let start : Sofar pq n q 0 [] = record {
        once = λ v. omega (arith, part.once v);
        nonempty = part.nonempty;
        ordered = tt;
        counted = refl;
      } in
      let (sum, edges, t, e₃, once, ordered) =
        mixed_loop_lem finds fuel q (fl.d_of_int 0) 0 [] (omega (arith, few, enough, some_groups))
          start in
      let (w, e₄) = get_weight_for_root_ends fl rand fuel query n dim varied rows 3000 in
      (
        t,
        fl.d_div (fl.d_add sum (fl.d_mul (fl.d_of_int (n - edges)) w)) (fl.d_of_int n),
        mixed_eq normal rand fuel query plane dim b q (ok (sum, edges, t)) e₁ e₂ e₃
            ∙ with_average_lem rand fuel query dim edges sum w t e₄,
        record {
          size = omega (arith, length-nodes t, VisitsOnce-length n (nodes t) once);
          visits = once;
          ordered = ordered;
        },
      )
