-- ===== src/AnnMst/Drain.antt =====
-- The loop over the queue ends, with the queue empty.
use mqo_public.Prelude.{
  ℕ, zero, suc, ◌+◌, ◌<◌, ◌≤◌, ◌≡◌, refl, ap, ◌∙◌, true, false, Option, none, some, List, get_elem?,
  count, total, Run, ok, ltb, ◌==◌, ==_iff, if◌then◌else◌, arith, Bool-cases, Option-cases, inl,
  inr,
}
use mqo_public.Floats.{Floats}
use mqo_public.Trajectory.{Edge, nodes}
use mqo_public.Trajectory.Forest.{ParentIn}
use mqo_public.Queue.{PriorityQueue}
use mqo_public.AnnMst.{PqItem, heavier, State, visit, drain}
use mqo_public.AnnMst.Bounds.{weigh}
use mqo_public.AnnMst.Visit.{IsGraph, written, stray, ahead, Inv, measure, visit_lem, count-snoc}

ParentIn-written : (p : Option ℕ) (edges : List Edge) → written p edges ≡ true → ParentIn edges p
ParentIn-written none edges h = tt
ParentIn-written (some p) edges h = ground (arith, h)

module _ (fl : Floats) (pq : PriorityQueue (PqItem fl) (heavier fl)) (n : ℕ)
    (adj : ℕ → Run (List (ℕ × fl.Float))) (nbs : ℕ → List (ℕ × fl.Float)) where
  open pq use {Queue, pop, items, pop_none, pop_some}

  -- Between two vertices from which the search starts.
  pub record Rest (bound : ℕ) (s : State fl pq) : Type 0 where
    pub inv : Inv fl pq n adj nbs s
    pub idle : weigh fl pq (λ _. 1) s.queue ≡ 0
    pub short : ahead fl pq n adj nbs s.edges ≤ bound

  -- 1 for an item of `v`.
  abbrev pub at : ℕ → PqItem fl → ℕ
  at v it = if it.node == v then 1 else 0

  -- A run that ends at rest, with all that was written or queued before written.
  abbrev pub Ends : ℕ → State fl pq → Run (State fl pq) → Type 0
  Ends bound s r =
      (s' : State fl pq) × (r ≡ ok s')
      × Rest bound s'
      × ((v : ℕ)
          → 0 < count v (nodes s.edges) + weigh fl pq (at v) s.queue
          → 0 < count v (nodes s'.edges))

  end_eq : (fuel : ℕ) (s : State fl pq) → pop s.queue ≡ none → drain fl pq adj (suc fuel) s ≡ ok s
  unfolding drain
  end_eq fuel s e = rw (e, drain)

  skip_eq :
      (fuel : ℕ) (s : State fl pq) (it : PqItem fl) (q : Queue)
      → pop s.queue ≡ some (it, q)
      → get_elem? s.visited it.node ≡ some true
      → drain fl pq adj (suc fuel) s ≡ drain fl pq adj fuel (record s { queue = q })
  unfolding drain
  skip_eq fuel s it q e h = rw (e, drain, h)

  take_eq :
      (fuel : ℕ) (s s' : State fl pq) (it : PqItem fl) (q : Queue)
      → pop s.queue ≡ some (it, q)
      → get_elem? s.visited it.node ≡ some false
      → visit fl pq adj it.node it.parent
          (record s { queue = q; total = fl.d_add s.total (fl.to_double it.weight) })
        ≡ ok s'
      → drain fl pq adj (suc fuel) s ≡ drain fl pq adj fuel s'
  unfolding drain
  take_eq fuel s s' it q e h k = rw (e, drain, h, k)

  -- The invariant does not read the weight.
  Inv-pop :
      (s : State fl pq) (it : PqItem fl) (q : Queue) (sum : fl.Double)
      → pop s.queue ≡ some (it, q)
      → Inv fl pq n adj nbs s
      → Inv fl pq n adj nbs (record s { queue = q; total = sum })
  Inv-pop s it q sum e inv = record {
    flags = inv.flags;
    once = inv.once;
    ordered = inv.ordered;
    sound = omega (arith, inv.sound, pop_some s.queue it q e (stray fl pq n adj nbs s.edges));
  }

  -- With more fuel than the measure the loop ends, and no item is left.
  pub drain_lem :
      (fuel bound : ℕ) (s : State fl pq)
      → IsGraph fl pq n adj nbs
      → Inv fl pq n adj nbs s
      → measure fl pq n adj nbs s < fuel
      → ahead fl pq n adj nbs s.edges ≤ bound
      → Ends bound s (drain fl pq adj fuel s)
  drain_lem zero bound s g inv few short = absurd (omega (arith, few))
  drain_lem (suc fuel) bound s g inv few short = elim (Option-cases (pop s.queue)) [
    | inl e ↦ (
      s,
      end_eq fuel s e,
      record { inv = inv; idle = rw (pop_none s.queue e) refl; short = short },
      λ v h. omega (arith, h, ap (total (at v)) (pop_none s.queue e)),
    )
    | inr ((it, q), e) ↦
        let good = pop_some s.queue it q e (stray fl pq n adj nbs s.edges) in
        let one = pop_some s.queue it q e (λ _. 1) in
        let below : it.node < n = ground (arith, good, inv.sound) in
        let parent : ParentIn s.edges it.parent =
          ParentIn-written it.parent s.edges (ground (arith, good, inv.sound)) in
        elim (Bool-cases (ltb 0 (count it.node (nodes s.edges)))) [
          | inl seen ↦
              let inv' = Inv-pop s it q s.total e inv in
              let (s', ends, rest, more) =
                drain_lem fuel bound (record s { queue = q }) g inv' (omega (arith, few, one))
                  short in
              let again : (v : ℕ)
                  → 0 < count v (nodes s.edges) + weigh fl pq (at v) s.queue
                  → 0 < count v (nodes s'.edges) =
                λ v h. elim (Bool-cases (it.node == v)) [
                  | inl same ↦ more v (
                      ground (
                        arith,
                        seen,
                        ap (λ u. count u (nodes s.edges)) ((==_iff it.node v).0 same),
                      ))
                  | inr other ↦ more v (ground (arith, h, pop_some s.queue it q e (at v)))
                ] in
              (
                s',
                skip_eq fuel s it q e (inv.flags it.node below ∙ ap some seen) ∙ ends,
                rest,
                again,
              )
          | inr new ↦
              let sum = fl.d_add s.total (fl.to_double it.weight) in
              let (s₁, visited, inv₁, edges, less, fewer, kept) =
                visit_lem fl pq n adj nbs (record s { queue = q; total = sum }) it.node it.parent g
                  (Inv-pop s it q sum e inv) below (ground (arith, new)) parent in
              let (s', ends, rest, more) =
                drain_lem fuel bound s₁ g inv₁ (omega (arith, few, one, less))
                  (omega (arith, short, fewer)) in
              (
                s',
                take_eq fuel s s₁ it q e (inv.flags it.node below ∙ ap some new) visited ∙ ends,
                rest,
                λ v h. more v (
                    ground (
                      arith,
                      h,
                      pop_some s.queue it q e (at v),
                      kept (at v),
                      ap (λ t. count v (nodes t)) edges,
                      count-snoc fl pq n adj nbs s.edges it.node v it.parent,
                    )),
              )
        ]
  ]
