-- ===== src/Mixed/Append.antt =====
-- The pairs of a group's own tree, with the numbers of its queries.
use mqo_public.Prelude.{
  ℕ, zero, suc, ◌+◌, ◌<◌, ◌≡◌, refl, ap, ◌∙◌, sym, subst, Option, none, some, List, [], ◌∷◌, ◌++◌,
  length, length-append, get_elem?, get_elem?-lt, count, count-append, count_if-append, total, Run,
  ok, ◌==◌, ==_iff, if◌then◌else◌, arith, Bool-cases, inl, inr,
}
use mqo_public.Floats.{Floats}
use mqo_public.Trajectory.{Edge, nodes, is_root, ParentsFirst, VisitsOnce, IsTrajectory}
use mqo_public.Trajectory.Forest.{ParentsFirst-snoc, nodes-append, in-cons}
use mqo_public.GroupMst.{parent_of}
use mqo_public.GroupMst.Taken.{roots}
use mqo_public.AnnMst.Bounds.{sum_below, sum_below-change}
use mqo_public.Mixed.{append_local}

-- 1 if `v` stands at position `i`.
abbrev stands : ℕ → List ℕ → ℕ → ℕ
stands v [] i = 0
stands v (x ∷ xs) zero = if x == v then 1 else 0
stands v (x ∷ xs) (suc i) = stands v xs i

stands-get :
    (v : ℕ) (xs : List ℕ) (i x : ℕ)
    → get_elem? xs i ≡ some x
    → stands v xs i ≡ (if x == v then 1 else 0)
stands-get v [] i x h = cc
stands-get v (y ∷ xs) zero x h = let e : y ≡ x = cc in rw e refl
stands-get v (y ∷ xs) (suc i) x h = stands-get v xs i x h

sum_below-shift : (f : ℕ → ℕ) (k : ℕ) → sum_below f (suc k) ≡ f 0 + sum_below (λ i. f (suc i)) k
sum_below-shift f zero = refl
sum_below-shift f (suc k) = omega (arith, sum_below-shift f k)

sum_below-count : (v : ℕ) (xs : List ℕ) → sum_below (stands v xs) (length xs) ≡ count v xs
sum_below-count v [] = refl
sum_below-count v (x ∷ xs) =
    sum_below-shift (stands v (x ∷ xs)) (length xs) ∙ omega (arith, sum_below-count v xs)

-- The part of a total that position `i` has.
abbrev part : (ℕ → ℕ) → List ℕ → ℕ → ℕ
part f is i = total (λ j. if j == i then f i else 0) is

part-count0 : (f : ℕ → ℕ) (is : List ℕ) (i : ℕ) → count i is ≡ 0 → part f is i ≡ 0
part-count0 f [] i h = refl
part-count0 f (j ∷ is) i h = ground (arith, part-count0 f is i)

part-count1 : (f : ℕ → ℕ) (is : List ℕ) (i : ℕ) → count i is ≡ 1 → part f is i ≡ f i
part-count1 f [] i h = absurd (omega (arith, h))
part-count1 f (j ∷ is) i h = ground (arith, part-count0 f is i, part-count1 f is i)

sum_below-part :
    (f : ℕ → ℕ) (is : List ℕ) (n : ℕ)
    → ((i : ℕ) → 0 < count i is → i < n)
    → total f is ≡ sum_below (part f is) n
sum_below-part f [] n h = zeros n
  where
    zeros : (k : ℕ) → 0 ≡ sum_below (λ i. 0) k
    zeros zero = refl
    zeros (suc k) = omega (arith, zeros k)
sum_below-part f (j ∷ is) n h =
    let change : (u : ℕ) → part f (j ∷ is) u ≡ part f is u + (if u == j then f j else 0) = λ u.
      elim (Bool-cases (u == j)) [
        | inl e ↦
            subst (λ x. part f (j ∷ is) x ≡ part f is x + (if x == j then f j else 0))
              (sym ((==_iff u j).0 e)) (omega arith)
        | inr e ↦ ground (arith, e)
      ] in
    ground (
      arith,
      h j,
      sum_below-part f is n (λ i k. h i (omega (arith, k))),
      sum_below-change (part f (j ∷ is)) (part f is) j (f j) n change,
    )

sum_below-ext :
    (f g : ℕ → ℕ) (k : ℕ) → ((i : ℕ) → i < k → f i ≡ g i) → sum_below f k ≡ sum_below g k
sum_below-ext f g zero h = refl
sum_below-ext f g (suc k) h =
    omega (arith, h k (omega arith), sum_below-ext f g k (λ i l. h i (omega (arith, l))))

-- Positions that are visited once pick every element once.
total-stands :
    (v : ℕ) (xs is : List ℕ) → VisitsOnce (length xs) is → total (stands v xs) is ≡ count v xs
total-stands v xs is once =
    sum_below-part (stands v xs) is (length xs) (λ i k. ground (arith, once i, k))
    ∙ sum_below-ext (part (stands v xs) is) (stands v xs) (length xs)
        (λ i k. part-count1 (stands v xs) is i (ground (arith, once i, k)))
    ∙ sum_below-count v xs

module _ (fl : Floats) (group : List ℕ) where
  step_eq :
      (v gv : ℕ) (p gp : Option ℕ) (t out : List Edge) (c : ℕ)
      → get_elem? group v ≡ some gv
      → parent_of fl group p ≡ ok gp
      → append_local fl group ((v, p) ∷ t) out c
        ≡ append_local fl group t (out ++ (gv, gp) ∷ []) (if is_root p then c else suc c)
  unfolding append_local
  step_eq v gv p gp t out c h k = rw (h, k) refl

  -- Positions in the group.
  abbrev Inside : List ℕ → Type 0
  Inside is = (i : ℕ) → 0 < count i is → i < length group

  -- Their queries are written.
  abbrev Written : List ℕ → List Edge → Type 0
  Written seen out =
      (i g : ℕ) → 0 < count i seen → get_elem? group i ≡ some g → 0 < count g (nodes out)

  -- What is added, and that the other pairs are counted.
  abbrev pub Added : List Edge → List Edge → ℕ → Run (List Edge × ℕ) → Type 0
  Added t out c r =
      (out' : List Edge) × (c' : ℕ) × (r ≡ ok (out', c'))
      × ParentsFirst [] out'
      × ((v : ℕ) → count v (nodes out') ≡ count v (nodes out) + total (stands v group) (nodes t))
      × (length out' + c + roots out ≡ length out + c' + roots out')

  Written-snoc :
      (seen : List ℕ) (out : List Edge) (v gv : ℕ) (gp : Option ℕ)
      → get_elem? group v ≡ some gv
      → Written seen out
      → Written (v ∷ seen) (out ++ (gv, gp) ∷ [])
  Written-snoc seen out v gv gp found old i g k e =
      rw (nodes-append out ((gv, gp) ∷ [])) (elim (Bool-cases (v == i)) [
        | inl same ↦
            let vi : v ≡ i = (==_iff v i).0 same in
            let gg : gv ≡ g =
              let found' = subst (λ j. get_elem? group j ≡ some gv) vi found in cc in
            ground (arith, count-append g (nodes out) (gv ∷ []), gg)
        | inr other ↦
            omega
              (arith, count-append g (nodes out) (gv ∷ []), old i g (ground (arith, other, k)) e)
      ])

  -- The parent's query is found and is written.
  parent-Written :
      (p : Option ℕ) (v : ℕ) (seen : List ℕ) (t out : List Edge)
      → Inside seen
      → Written seen out
      → ParentsFirst seen ((v, p) ∷ t)
      → (gp : Option ℕ) × (parent_of fl group p ≡ ok gp)
        × (is_root gp ≡ is_root p)
        × ((gv : ℕ) → ParentsFirst [] out → ParentsFirst [] (out ++ (gv, gp) ∷ []))
        × ParentsFirst (v ∷ seen) t
  unfolding parent_of
  parent-Written none v seen t out inside old ordered =
      (none, refl, refl, λ gv first. ParentsFirst-snoc out gv none first tt, ordered)
  parent-Written (some p) v seen t out inside old ordered =
      let (g, e) = get_elem?-lt group p (inside p ordered.0) in
      (
        some g,
        rw e refl,
        refl,
        λ gv first. ParentsFirst-snoc out gv (some g) first (old p g ordered.0 e),
        ordered.1,
      )

  append_rest :
      (seen : List ℕ) (t out : List Edge) (c : ℕ)
      → Inside seen
      → Inside (nodes t)
      → Written seen out
      → ParentsFirst seen t
      → ParentsFirst [] out
      → Added t out c (append_local fl group t out c)
  unfolding append_local
  append_rest seen [] out c inside near old ordered first =
      (out, c, refl, first, λ v. omega arith, omega arith)
  append_rest seen ((v, p) ∷ t) out c inside near old ordered first =
      let below : v < length group = near v (ground (arith, ==_iff v v)) in
      let (gv, found) = get_elem?-lt group v below in
      let (gp, parent, kind, grow, ordered') = parent-Written p v seen t out inside old ordered in
      let out₁ = out ++ (gv, gp) ∷ [] in
      let c₁ = if is_root p then c else suc c in
      let (out', c', ends, first', counts, counted) =
        append_rest (v ∷ seen) t out₁ c₁ (in-cons (λ x. x < length group) v seen below inside)
          (λ i k. near i (omega (arith, k))) (Written-snoc seen out v gv gp found old) ordered'
          (grow gv first) in
      (
        out',
        c',
        step_eq v gv p gp t out c found parent ∙ ends,
        first',
        λ u. omega (
          arith,
          counts u,
          ap (count u) (nodes-append out ((gv, gp) ∷ [])),
          count-append u (nodes out) (gv ∷ []),
          stands-get u group v gv found,
        ),
        ground (
          arith,
          counted,
          kind,
          length-append out ((gv, gp) ∷ []),
          count_if-append (λ e. is_root e.1) out ((gv, gp) ∷ []),
        ),
      )

  -- A trajectory of the positions of a group adds each of its queries once, parents first.
  pub append_local_lem :
      (t out : List Edge)
      → IsTrajectory (length group) t
      → ParentsFirst [] out
      → (out' : List Edge) × (c : ℕ) × (append_local fl group t out 0 ≡ ok (out', c))
        × ParentsFirst [] out'
        × ((v : ℕ) → count v (nodes out') ≡ count v (nodes out) + count v group)
        × (length out' + roots out ≡ length out + c + roots out')
  append_local_lem t out trajectory first =
      let (out', c, ends, first', counts, counted) =
        append_rest [] t out 0 (λ i k. absurd (omega (arith, k)))
          (λ i k. ground (arith, trajectory.visits i, k)) (λ i g k e. absurd (omega (arith, k)))
          trajectory.ordered first in
      (
        out',
        c,
        ends,
        first',
        λ v. omega (arith, counts v, total-stands v group (nodes t) trajectory.visits),
        omega (arith, counted),
      )
