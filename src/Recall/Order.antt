-- ===== src/Recall/Order.antt =====
-- The search in the order of a trajectory: each query starts from the answer of its parent.
use mqo_public.Prelude.{
  ℕ, ◌+◌, ◌*◌, ◌<◌, ◌≤◌, ◌≡◌, refl, ◌∙◌, Option, none, some, List, [], ◌∷◌, length, length-set,
  length-replicate, set, replicate, get_elem?, get_elem?-lt, get_elem?-set_self, get_elem?-set_ne,
  count, All, ok, index, ltb, ◌==◌, ==_refl, if◌then◌else◌, arith,
}
use mqo_public.Floats.{Floats}
use mqo_public.Distance.{int_limit, int_of}
use mqo_public.Distance.Bounds.{int_of_ok}
use mqo_public.AnnBuild.Laws.{row_end}
use mqo_public.Trajectory.{Edge, nodes, ParentsFirst, IsTrajectory}
use mqo_public.Recall.{Search, tally, entry_points, write, trajectory_loop, get_recall_optimized}

module _ (fl : Floats) (search : Search) (ans : List (List ℕ)) (dim topk n : ℕ) where
  -- The search finds something for every query, wherever it starts, and the true answers are there.
  pub record IsReady : Type 0 where
    pub finds :
        (v : ℕ) (entries : List ℕ)
        → v < n
        → (l : ℕ) × (index (search topk (v * dim) entries) 0 ≡ ok l)
    pub answers :
        (v : ℕ)
        → v < n
        → (a : List ℕ) × (f : ℕ) × (get_elem? ans v ≡ some a) × (get_elem? a 0 ≡ some f)

  -- The answer of `v` is what the search finds from the answer of its parent, or from no entry point.
  abbrev pub Follows : List ℕ → ℕ → Option ℕ → Type 0
  Follows ann v none =
      (l : ℕ) × (get_elem? ann v ≡ some l) × (index (search topk (v * dim) []) 0 ≡ ok l)
  Follows ann v (some p) =
      (a l : ℕ) × (get_elem? ann p ≡ some a)
      × (get_elem? ann v ≡ some l)
      × (index (search topk (v * dim) (a ∷ [])) 0 ≡ ok l)

  step_eq :
      (v label : ℕ) (p : Option ℕ) (t : List Edge) (ann ann' entries : List ℕ)
      (correct correct' : fl.Float)
      → entry_points fl ann p ≡ ok entries
      → int_of (v * dim) ≡ ok (v * dim)
      → index (search topk (v * dim) entries) 0 ≡ ok label
      → write fl ann v label ≡ ok ann'
      → tally fl ans v label correct ≡ ok correct'
      → trajectory_loop fl search ans dim topk ((v, p) ∷ t) ann correct
        ≡ trajectory_loop fl search ans dim topk t ann' correct'
  unfolding trajectory_loop
  step_eq v label p t ann ann' entries correct correct' h₁ fits h₂ h₃ h₄ =
      rw (h₁, fits, h₂, h₃, h₄) refl

  write_ok :
      (ann : List ℕ) (v label : ℕ) → v < length ann → write fl ann v label ≡ ok (set ann v label)
  unfolding write
  write_ok ann v label h = let (old, e) = get_elem?-lt ann v h in rw e refl

  tally_ok :
      IsReady
      → (v label : ℕ) (correct : fl.Float) → v < n
      → (c : fl.Float) × (tally fl ans v label correct ≡ ok c)
  unfolding tally
  tally_ok ready v label correct h =
      let (a, f, e, e') = ready.answers v h in
      (if label == f then fl.add correct fl.one else correct, rw (e, e') refl)

  -- The entry points of a pair whose parent's answer is in its place.
  entries_ok :
      (ann : List ℕ) (seen : List ℕ) (v : ℕ) (p : Option ℕ) (t : List Edge)
      → ((u : ℕ) → 0 < count u seen → u < length ann)
      → ParentsFirst seen ((v, p) ∷ t)
      → (entries : List ℕ) × (entry_points fl ann p ≡ ok entries)
        × ParentsFirst (v ∷ seen) t
        × ((ann' : List ℕ) (l : ℕ)
            → ((u : ℕ) → 0 < count u seen → get_elem? ann' u ≡ get_elem? ann u)
            → get_elem? ann' v ≡ some l
            → index (search topk (v * dim) entries) 0 ≡ ok l
            → Follows ann' v p)
  unfolding entry_points
  entries_ok ann seen v none t below ordered = ([], refl, ordered, λ ann' l same e f. (l, e, f))
  entries_ok ann seen v (some p) t below ordered =
      let (a, e) = get_elem?-lt ann p (below p ordered.0) in
      (a ∷ [], rw e refl, ordered.1, λ ann' l same e' f. (a, l, same p ordered.0 ∙ e, e', f))

  -- The rest of the loop leaves the answers of the queries before it, and finds the others.
  loop_lem :
      IsReady
      → 0 < dim
      → n * dim ≤ int_limit
      → (seen : List ℕ) (t : List Edge) (ann : List ℕ) (correct : fl.Float) → length ann ≡ n
      → ((v : ℕ) → count v seen + count v (nodes t) ≤ (if ltb v n then 1 else 0))
      → ParentsFirst seen t
      → (ann' : List ℕ) × (c : fl.Float) × (trajectory_loop fl search ans dim topk t ann correct
          ≡ ok (ann', c))
        × ((v : ℕ) → count v (nodes t) ≡ 0 → get_elem? ann' v ≡ get_elem? ann v)
        × All (λ e. Follows ann' e.0 e.1) t
  unfolding trajectory_loop
  loop_lem ready pos fits seen [] ann correct size once ordered =
      (ann, correct, refl, λ v h. refl, tt)
  loop_lem ready pos fits seen ((v, p) ∷ t) ann correct size once ordered =
      let below : v < n = ground (arith, once v, ==_refl v) in
      let (entries, e₁, ordered', follow) =
        entries_ok ann seen v p t (λ u h. ground (arith, once u, h, size)) ordered in
      let (label, e₂) = ready.finds v entries below in
      let (c₁, e₄) = tally_ok ready v label correct below in
      let ann₁ = set ann v label in
      let (ann', c, ends, same, rest) =
        loop_lem ready pos fits (v ∷ seen) t ann₁ c₁ (length-set ann v label ∙ size)
          (λ u. omega (arith, once u)) ordered' in
      let here : get_elem? ann' v ≡ some label =
        same v (ground (arith, once v, ==_refl v))
        ∙ get_elem?-set_self ann v label (omega (arith, below, size)) in
      let kept : (u : ℕ) → count u (nodes ((v, p) ∷ t)) ≡ 0 → get_elem? ann' u ≡ get_elem? ann u =
        λ u h.
          same u (omega (arith, h))
          ∙ get_elem?-set_ne ann v u label (λ e. absurd (ground (arith, h, e))) in
      (
        ann',
        c,
        step_eq v label p t ann ann₁ entries correct c₁ e₁
              (int_of_ok (v * dim) (omega (arith, row_end v n dim below, pos, fits))) e₂
              (write_ok ann v label (omega (arith, below, size))) e₄
            ∙ ends,
        kept,
        (follow ann' label (λ u h. kept u (ground (arith, once u, h))) here e₂, rest),
      )

  -- Along a trajectory of the n queries the search of each query starts from the answer of its parent,
  -- found before, and no answer is written twice: the loop ends, and the answers that it leaves
  -- follow from one another along the trajectory. The search must find something for every query, and
  -- an `int` can index the queries.
  pub trajectory_loop-Follows :
      (t : List Edge)
      → IsReady
      → 0 < dim
      → n * dim ≤ int_limit
      → IsTrajectory n t
      → (ann : List ℕ) × (c : fl.Float) × (trajectory_loop fl search ans dim topk t
            (replicate n 0)
            fl.zero
          ≡ ok (ann, c))
        × (get_recall_optimized fl search ans t n dim topk ≡ ok (fl.div c (fl.of_int n)))
        × All (λ e. Follows ann e.0 e.1) t
  unfolding get_recall_optimized
  trajectory_loop-Follows t ready pos fits trajectory =
      let (ann, c, ends, _, follows) =
        loop_lem ready pos fits [] t (replicate n 0) fl.zero (length-replicate n 0)
          (λ v. omega (arith, trajectory.visits v)) trajectory.ordered in
      (ann, c, ends, rw ends refl, follows)
