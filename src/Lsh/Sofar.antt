-- ===== src/Lsh/Sofar.antt =====
-- What holds between two groups of the loop over the queue, for every way to find their trees.
use mqo_public.Prelude.{
  ℕ, ◌+◌, ◌<◌, ◌≡◌, refl, ap, none, some, List, [], ◌∷◌, ◌++◌, length, length-append, count,
  count-append, count_if-append, total, ltb, ◌==◌, if◌then◌else◌, arith,
}
use mqo_public.Trajectory.{Edge, nodes, is_root, ParentsFirst}
use mqo_public.Trajectory.Forest.{ParentsFirst-snoc, nodes-append}
use mqo_public.Queue.{PriorityQueue}
use mqo_public.GroupMst.Taken.{roots}
use mqo_public.Lsh.{GroupInfo, smaller}
use mqo_public.Lsh.Split.{in_groups, empties}

pub nil_of_length : (l : List ℕ) → length l ≡ 0 → l ≡ []
nil_of_length [] h = refl
nil_of_length (x ∷ l) h = absurd (omega arith)

module _ (pq : PriorityQueue GroupInfo smaller) (n : ℕ) where
  open pq use {Queue, pop, items, pop_some}

  -- Between two groups: `edges` counts the pairs that are no roots.
  pub record Sofar (q : Queue) (edges : ℕ) (out : List Edge) : Type 0 where
    pub once : (v : ℕ) → count v (nodes out) + in_groups v (items q) ≡ (if ltb v n then 1 else 0)
    pub nonempty : empties (items q) ≡ 0
    pub ordered : ParentsFirst [] out
    pub counted : edges + roots out ≡ length out

  -- The queries of a group that is popped are below n.
  pub Sofar-inside :
      (q q' : Queue) (info : GroupInfo) (edges : ℕ) (out : List Edge)
      → Sofar q edges out
      → pop q ≡ some (info, q')
      → (v : ℕ) → 0 < count v info.group
      → v < n
  Sofar-inside q q' info edges out s popped v k =
      ground (arith, s.once v, pop_some q info q' popped (λ i. count v i.group))

  -- A tree of the group that is popped is added, parents first.
  pub Sofar-add :
      (q q' : Queue) (info : GroupInfo) (edges edges' : ℕ) (out out' : List Edge)
      → Sofar q edges out
      → pop q ≡ some (info, q')
      → ParentsFirst [] out'
      → ((v : ℕ) → count v (nodes out') ≡ count v (nodes out) + count v info.group)
      → edges' + roots out' ≡ length out'
      → Sofar q' edges' out'
  Sofar-add q q' info edges edges' out out' s popped ordered counts counted =
      let all : (f : GroupInfo → ℕ) → total f (items q) ≡ f info + total f (items q') =
        pop_some q info q' popped in
      record {
        once = λ v. omega (arith, s.once v, all (λ i. count v i.group), counts v);
        nonempty = omega (arith, s.nonempty, all (λ i. if length i.group == 0 then 1 else 0));
        ordered = ordered;
        counted = counted;
      }

  -- A single query becomes a root.
  pub Sofar-single :
      (q q' : Queue) (info : GroupInfo) (edges : ℕ) (out : List Edge) (g : ℕ)
      → Sofar q edges out
      → pop q ≡ some (info, q')
      → info.group ≡ g ∷ []
      → Sofar q' edges (out ++ (g, none) ∷ [])
  Sofar-single q q' info edges out g s popped e =
      let all : (f : GroupInfo → ℕ) → total f (items q) ≡ f info + total f (items q') =
        pop_some q info q' popped in
      record {
        once = λ v. rw (nodes-append out ((g, none) ∷ [])) (
            omega (
              arith,
              s.once v,
              all (λ i. count v i.group),
              ap (count v) e,
              count-append v (nodes out) (g ∷ []),
            ));
        nonempty = omega (arith, s.nonempty, all (λ i. if length i.group == 0 then 1 else 0));
        ordered = ParentsFirst-snoc out g none s.ordered tt;
        counted = omega (
          arith,
          s.counted,
          length-append out ((g, none) ∷ []),
          count_if-append (λ x. is_root x.1) out ((g, none) ∷ []),
        );
      }

  -- A group that is popped has at least one query.
  pub popped-cons :
      (q q' : Queue) (info : GroupInfo) (edges : ℕ) (out : List Edge)
      → Sofar q edges out
      → pop q ≡ some (info, q')
      → (g : ℕ) × (rest : List ℕ) × (info.group ≡ g ∷ rest)
  popped-cons q q' info edges out s popped = cases info.group refl
    where
      cases : (l : List ℕ) → info.group ≡ l → (g : ℕ) × (rest : List ℕ) × (info.group ≡ g ∷ rest)
      cases [] e = absurd (
          ground (
            arith,
            s.nonempty,
            ap length e,
            pop_some q info q' popped (λ i. if length i.group == 0 then 1 else 0),
          ))
      cases (g ∷ rest) e = (g, rest, e)
