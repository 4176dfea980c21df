-- ===== src/Follow/Order.antt =====
-- The loop along a trajectory: each search starts from the first answer of the parent, and the count
-- is that of the queries whose first answer is the true one.
use mqo_public.Prelude.{
  ℕ, zero, suc, ◌+◌, ◌<◌, ◌≤◌, ◌≡◌, refl, sym, ap, ◌∙◌, Bool, false, Option, none, some, List, [],
  ◌∷◌, length, length-set, set, get_elem?, get_elem?-lt, get_elem?-set_self, get_elem?-set_ne,
  count, count_if, All, Run, ok, ltb, ◌==◌, ==_refl, if◌then◌else◌, arith, Bool-cases, inl, inr,
}
use mqo_public.Trajectory.{Edge, nodes, ParentsFirst, IsTrajectory}
use mqo_public.Trajectory.Forest.{in-cons}
use mqo_public.Follow.{hit, scan_loop, entry_point, put_row, follow_loop}

-- `k` increments.
abbrev pub times {ℓ} : {A : Type ℓ} → ℕ → (A → A) → A → A
times zero f a = a
times (suc k) f a = times k f (f a)

-- Both are there, and start with the same number.
abbrev pub same_first : Option (List ℕ) → Option (List ℕ) → Bool
same_first (some (a ∷ _)) (some (b ∷ _)) = a == b
same_first _ _ = false

-- The true answer of each of the n queries is there.
abbrev pub HasAnswers : ℕ → List (List ℕ) → Type 0
HasAnswers n ans = (v : ℕ) → v < n → (f : ℕ) × (rest : List ℕ) × (get_elem? ans v ≡ some (f ∷ rest))

module _ {C : Type 0} (bump : C → C) (ans : List (List ℕ)) (n : ℕ) (known : HasAnswers n ans) where
  hit_lem :
      (v label : ℕ) (labels : List ℕ) (correct : C)
      → v < n
      → hit bump ans v label correct
        ≡ ok (
            times
              (if same_first (some (label ∷ labels)) (get_elem? ans v) then 1 else 0)
              bump
              correct)
  unfolding hit
  hit_lem v label labels correct h =
      let (f, rest, e) = known v h in
      elim (Bool-cases (label == f)) [
        | inl same ↦ rw (e, same) refl
        | inr other ↦ rw (e, other) refl
      ]

  times_add : (a b : ℕ) (c : C) → times b bump (times a bump c) ≡ times (a + b) bump c
  times_add zero b c = let e : b ≡ 0 + b = omega arith in ap (λ k. times k bump c) e
  times_add (suc a) b c =
      let e : suc (a + b) ≡ suc a + b = omega arith in
      times_add a b (bump c) ∙ ap (λ k. times k bump c) e

  -- How many of the queries i … i + k - 1 the search answers rightly.
  abbrev pub right_from : (ℕ → List ℕ) → ℕ → ℕ → ℕ
  right_from search zero i = 0
  right_from search (suc k) i =
      (if same_first (some (search i)) (get_elem? ans i) then 1 else 0)
      + right_from search k (suc i)

  scan_step :
      (search : ℕ → List ℕ) (k i label : ℕ) (labels : List ℕ) (correct : C)
      → i < n
      → search i ≡ label ∷ labels
      → scan_loop bump search ans (suc k) i correct
        ≡ scan_loop bump search ans k
            (suc i)
            (times (if same_first (some (search i)) (get_elem? ans i) then 1 else 0) bump correct)
  unfolding scan_loop
  scan_step search k i label labels correct h e = rw (e, hit_lem i label labels correct h) refl

  -- The loop over the queries counts those that are answered rightly.
  pub scan_loop_lem :
      (search : ℕ → List ℕ) (k i : ℕ) (correct : C)
      → i + k ≤ n
      → ((v : ℕ) → v < n → (label : ℕ) × (labels : List ℕ) × (search v ≡ label ∷ labels))
      → scan_loop bump search ans k i correct ≡ ok (times (right_from search k i) bump correct)
  unfolding scan_loop
  scan_loop_lem search zero i correct h finds = refl
  scan_loop_lem search (suc k) i correct h finds =
      let (label, labels, e) = finds i (omega (arith, h)) in
      let here = if same_first (some (search i)) (get_elem? ans i) then 1 else 0 in
      scan_step search k i label labels correct (omega (arith, h)) e
      ∙ scan_loop_lem search k (suc i) (times here bump correct) (omega (arith, h)) finds
      ∙ ap ok (times_add here (right_from search k (suc i)) correct)

  module _ (offset : ℕ → Run ℕ) (search : ℕ → Option ℕ → List ℕ) where
    -- The row of `v` is what is found from the first answer of its parent, or from no entry point.
    abbrev pub Follows : List (List ℕ) → ℕ → Option ℕ → Type 0
    Follows res v none = (s : ℕ) × (offset v ≡ ok s) × (get_elem? res v ≡ some (search s none))
    Follows res v (some p) =
        (s : ℕ) × (row : List ℕ) × (a : ℕ) × (offset v ≡ ok s)
        × (get_elem? res p ≡ some row)
        × (get_elem? row 0 ≡ some a)
        × (get_elem? res v ≡ some (search s (some a)))

    follow_step :
        (v s label : ℕ) (p entry : Option ℕ) (t : List Edge) (res : List (List ℕ)) (labels : List ℕ)
        (correct : C)
        → v < n
        → v < length res
        → entry_point bump res p ≡ ok entry
        → offset v ≡ ok s
        → search s entry ≡ label ∷ labels
        → follow_loop bump offset search ans ((v, p) ∷ t) res correct
          ≡ follow_loop bump offset search ans t (set res v (search s entry)) (
              times
                (if same_first (some (search s entry)) (get_elem? ans v) then 1 else 0)
                bump
                correct)
    unfolding follow_loop put_row
    follow_step v s label p entry t res labels correct h inside e₁ e₂ e₃ =
        let (old, e) = get_elem?-lt res v inside in
        rw (e₁, e₂, e, e₃, hit_lem v label labels correct h) refl

    -- The row of `u` is in its place and not empty.
    abbrev Filled : List (List ℕ) → ℕ → Type 0
    Filled res u = (a : ℕ) × (row : List ℕ) × (get_elem? res u ≡ some (a ∷ row))

    -- The entry point of a pair whose parent's row is in its place and not empty.
    entries_ok :
        (res : List (List ℕ)) (seen : List ℕ) (v s : ℕ) (p : Option ℕ) (t : List Edge)
        → offset v ≡ ok s
        → ((u : ℕ) → 0 < count u seen → Filled res u)
        → ParentsFirst seen ((v, p) ∷ t)
        → (entry : Option ℕ) × (entry_point bump res p ≡ ok entry)
          × ParentsFirst (v ∷ seen) t
          × ((res' : List (List ℕ))
              → ((u : ℕ) → 0 < count u seen → get_elem? res' u ≡ get_elem? res u)
              → get_elem? res' v ≡ some (search s entry)
              → Follows res' v p)
    unfolding entry_point
    entries_ok res seen v s none t at filled ordered =
        (none, refl, ordered, λ res' same e. (s, at, e))
    entries_ok res seen v s (some p) t at filled ordered =
        let (a, row, e) = filled p ordered.0 in
        (
          some a,
          rw e refl,
          ordered.1,
          λ res' same e'. (s, a ∷ row, a, at, same p ordered.0 ∙ e, refl, e'),
        )

    -- Every offset is found, and so is a row from every entry point.
    abbrev pub Finds : Type 0
    Finds =
        (v : ℕ)
        → v < n
        → (s : ℕ) × (offset v ≡ ok s)
          × ((entry : Option ℕ)
              → (label : ℕ) × (labels : List ℕ) × (search s entry ≡ label ∷ labels))

    -- How many of the pairs have a row that starts with the true answer.
    abbrev pub right_answers : List (List ℕ) → List Edge → ℕ
    right_answers res t = count_if (λ e. same_first (get_elem? res e.0) (get_elem? ans e.0)) t

    -- The rest of the loop leaves the rows of the queries before it, and finds the others.
    follow_lem :
        Finds
        → (seen : List ℕ) (t : List Edge) (res : List (List ℕ)) (correct : C) → length res ≡ n
        → ((u : ℕ) → 0 < count u seen → Filled res u)
        → ((v : ℕ) → count v seen + count v (nodes t) ≤ (if ltb v n then 1 else 0))
        → ParentsFirst seen t
        → (res' : List (List ℕ)) × (follow_loop bump offset search ans t res correct
            ≡ ok (res', times (right_answers res' t) bump correct))
          × ((v : ℕ) → count v (nodes t) ≡ 0 → get_elem? res' v ≡ get_elem? res v)
          × All (λ e. Follows res' e.0 e.1) t
    unfolding follow_loop
    follow_lem finds seen [] res correct size filled once ordered = (res, refl, λ v h. refl, tt)
    follow_lem finds seen ((v, p) ∷ t) res correct size filled once ordered =
        let below : v < n = ground (arith, once v, ==_refl v) in
        let inside : v < length res = omega (arith, below, size) in
        let (s, at, rows) = finds v below in
        let (entry, e₁, ordered', follow) = entries_ok res seen v s p t at filled ordered in
        let (label, labels, e₃) = rows entry in
        let row = search s entry in
        let here = if same_first (some row) (get_elem? ans v) then 1 else 0 in
        let new : (u : ℕ) → 0 < count u seen → get_elem? (set res v row) u ≡ get_elem? res u =
          λ u h. get_elem?-set_ne res v u row (λ e. absurd (ground (arith, once u, h, e))) in
        let filled' : (u : ℕ) → 0 < count u (v ∷ seen) → Filled (set res v row) u =
          in-cons (Filled (set res v row)) v seen
            (label, labels, get_elem?-set_self res v row inside ∙ ap some e₃)
            (λ u h. let (a, r, e) = filled u h in (a, r, new u h ∙ e)) in
        let (res', ends, same, rest) =
          follow_lem finds (v ∷ seen) t (set res v row) (times here bump correct)
            (length-set res v row ∙ size) filled' (λ u. omega (arith, once u)) ordered' in
        let found : get_elem? res' v ≡ some row =
          same v (ground (arith, once v, ==_refl v)) ∙ get_elem?-set_self res v row inside in
        let kept : (u : ℕ) → count u (nodes ((v, p) ∷ t)) ≡ 0 → get_elem? res' u ≡ get_elem? res u =
          λ u h.
            same u (omega (arith, h))
            ∙ get_elem?-set_ne res v u row (λ e. absurd (ground (arith, h, e))) in
        let counted : times (right_answers res' t) bump (times here bump correct)
            ≡ times (right_answers res' ((v, p) ∷ t)) bump correct =
          times_add here (right_answers res' t) correct
          ∙ ap
              (λ o.
                times ((if same_first o (get_elem? ans v) then 1 else 0) + right_answers res' t)
                  bump correct)
              (sym found) in
        (
          res',
          follow_step v s label p entry t res labels correct below inside e₁ at e₃
              ∙ ends
              ∙ ap (λ c. ok (res', c)) counted,
          kept,
          (follow res' (λ u h. kept u (ground (arith, once u, h))) found, rest),
        )

    -- Along a trajectory of the n queries the loop ends. Each query's row is what is found from the
    -- first answer of its parent, and the count is that of the rows that start with the true answer.
    pub follow_loop-Follows :
        (t : List Edge) (res : List (List ℕ)) (correct : C)
        → Finds
        → length res ≡ n
        → IsTrajectory n t
        → (res' : List (List ℕ)) × (follow_loop bump offset search ans t res correct
            ≡ ok (res', times (right_answers res' t) bump correct))
          × All (λ e. Follows res' e.0 e.1) t
    follow_loop-Follows t res correct finds size trajectory =
        let (res', ends, _, follows) =
          follow_lem finds [] t res correct size (λ u h. absurd (omega (arith, h)))
            (λ v. omega (arith, trajectory.visits v)) trajectory.ordered in
        (res', ends, follows)
