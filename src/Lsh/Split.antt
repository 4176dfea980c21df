-- ===== src/Lsh/Split.antt =====
-- The groups that `split` makes hold each query once.
use mqo_public.Prelude.{
  ℕ, zero, suc, ◌+◌, ◌-◌, ◌<◌, ◌≤◌, ◌≡◌, refl, ap, some, List, [], ◌∷◌, ◌++◌, length, count,
  count-append, count-le-length, total, total_one, ok, ltb, ◌==◌, if◌then◌else◌, arith,
  Option-cases, inl, inr,
}
use mqo_public.Floats.{Floats}
use mqo_public.Queue.{PriorityQueue}
use mqo_public.Lsh.{
  GroupInfo, smaller, iota, get_innerproduct, split_loop, splitgroup, push_group, split_rounds,
  split,
}

pub count-iota :
    (v k i : ℕ) → count v (iota k i) ≡ (if ltb v i then 0 else if ltb v (i + k) then 1 else 0)
unfolding iota
count-iota v zero i = ground arith
count-iota v (suc k) i = ground (arith, count-iota v k (suc i))

pub length-iota : (k i : ℕ) → length (iota k i) ≡ k
unfolding iota
length-iota zero i = refl
length-iota (suc k) i = ap suc (length-iota k (suc i))

-- How often a query stands in the groups, and how many groups are empty.
abbrev pub in_groups : ℕ → List GroupInfo → ℕ
in_groups v = total (λ g. count v g.group)

abbrev pub empties : List GroupInfo → ℕ
empties = total (λ g. if length g.group == 0 then 1 else 0)

-- The groups in the queue hold each of the n queries once, and none is empty.
pub record Partition (pq : PriorityQueue GroupInfo smaller) (n : ℕ) (q : pq.Queue) : Type 0 where
  pub once : (v : ℕ) → in_groups v (pq.items q) ≡ (if ltb v n then 1 else 0)
  pub nonempty : empties (pq.items q) ≡ 0

module _ (fl : Floats) (query plane : List fl.Float) (dim : ℕ) where
  -- The inner product of the query with the hyperplane reads inside both arrays.
  abbrev pub Sums : ℕ → ℕ → Type 0
  Sums q h = (d : fl.Float) × (get_innerproduct fl query plane dim q h ≡ ok d)

  pub split_loop_lem :
      (h : ℕ) (group left right : List ℕ)
      → ((q : ℕ) → 0 < count q group → Sums q h)
      → (l r : List ℕ) × (split_loop fl query plane dim h group left right ≡ ok (l, r))
        × ((v : ℕ) → count v l + count v r ≡ count v left + count v right + count v group)
  unfolding split_loop
  split_loop_lem h [] left right sums = (left, right, refl, λ v. omega arith)
  split_loop_lem h (q ∷ group) left right sums =
      let (d, e) = sums q (ground arith) in
      let goes = fl.lt d fl.zero in
      let (l, r, e', counts) =
        split_loop_lem h group (if goes then left ++ q ∷ [] else left)
          (if goes then right else right ++ q ∷ []) (λ v k. sums v (omega arith)) in
      (
        l,
        r,
        rw e e',
        λ v. ground (arith, counts v, count-append v left (q ∷ []), count-append v right (q ∷ [])),
      )

  module _ (pq : PriorityQueue GroupInfo smaller) where
    open pq use {Queue, empty, push, pop, items, items-empty, items-push, pop_none, pop_some}

    push_group-total :
        (f : GroupInfo → ℕ) (g : List ℕ) (q : Queue)
        → total f (items (push_group fl pq g q))
          ≡ (if ltb 0 (length g) then f (record { group = g; size = length g }) else 0)
            + total f (items q)
    unfolding push_group
    push_group-total f g q = ground (arith, items-push (record { group = g; size = length g }) q f)

    pub pop-some :
        (n : ℕ) (q : Queue)
        → 0 < n
        → Partition pq n q
        → (info : GroupInfo) × (q' : Queue) × (pop q ≡ some (info, q'))
    pop-some n q h part = elim (Option-cases (pop q)) [
      | inl e ↦
          let none-left : in_groups 0 (items q) ≡ 0 = ap (in_groups 0) (pop_none q e) in
          absurd (ground (arith, none-left, part.once 0))
      | inr ((info, q'), e) ↦ (info, q', e)
    ]

    -- A group that is taken out and its two parts that are put back leave a partition.
    Partition-split :
        (n : ℕ) (q q₁ : Queue) (info : GroupInfo) (l r : List ℕ)
        → Partition pq n q
        → pop q ≡ some (info, q₁)
        → ((v : ℕ) → count v l + count v r ≡ count v info.group)
        → Partition pq n (push_group fl pq r (push_group fl pq l q₁))
    Partition-split n q q₁ info l r part popped counts = record {
      once = λ v.
          let f = λ (g : GroupInfo). count v g.group in
          ground (
            arith,
            part.once v,
            counts v,
            pop_some q info q₁ popped f,
            push_group-total f r (push_group fl pq l q₁),
            push_group-total f l q₁,
            count-le-length v l,
            count-le-length v r,
          );
      nonempty =
          let f : GroupInfo → ℕ = λ g. if length g.group == 0 then 1 else 0 in
          ground (
            arith,
            part.nonempty,
            pop_some q info q₁ popped f,
            push_group-total f r (push_group fl pq l q₁),
            push_group-total f l q₁,
          );
    }

    grows :
        (g : List ℕ) (q : Queue) → length (items (push_group fl pq g q)) ≤ suc (length (items q))
    grows g q = ground (
      arith,
      push_group-total (λ _. 1) g q,
      total_one (items q),
      total_one (items (push_group fl pq g q)),
    )

    split_rounds_lem :
        (n b k s : ℕ) (q : Queue)
        → 0 < n
        → ((v h : ℕ) → v < n → h < b → Sums v h)
        → s + k ≤ b
        → Partition pq n q
        → (q' : Queue) × (split_rounds fl pq query plane dim k s q ≡ ok q')
          × Partition pq n q'
          × (length (items q') ≤ length (items q) + k)
    unfolding split_rounds splitgroup
    split_rounds_lem n b zero s q pos sums le part = (q, refl, part, omega arith)
    split_rounds_lem n b (suc k) s q pos sums le part =
        let (info, q₁, popped) = pop-some n q pos part in
        let (l, r, e, counts) = split_loop_lem s info.group [] [] (λ v c.
          sums v s (ground (arith, part.once v, pop_some q info q₁ popped (λ g. count v g.group)))
            (omega arith)) in
        let next : Partition pq n (push_group fl pq r (push_group fl pq l q₁)) =
          Partition-split n q q₁ info l r part popped (λ v. omega (arith, counts v)) in
        let (q', e', part', few) = split_rounds_lem n b k (suc s) _ pos sums (omega arith) next in
        (
          q',
          rw (popped, e) e',
          part',
          ground (
            arith,
            few,
            grows r (push_group fl pq l q₁),
            grows l q₁,
            pop_some q info q₁ popped (λ _. 1),
            total_one (items q),
            total_one (items q₁),
          ),
        )

    -- `split` of n > 0 queries by b - 1 hyperplanes ends without a fault, if the inner products that
    -- it takes are found. Its groups hold each query once, and none is empty.
    pub split-Partition :
        (n b : ℕ)
        → 0 < n
        → ((v h : ℕ) → v < n → h < b - 1 → Sums v h)
        → (q : Queue) × (split fl pq query plane n dim b ≡ ok q)
          × Partition pq n q
          × (length (items q) ≤ suc (b - 1))
    unfolding split
    split-Partition n b pos sums =
        let whole : GroupInfo = record { group = iota n 0; size = n } in
        let start : Partition pq n (push whole empty) = record {
          once = λ v. ground (
            arith,
            items-push whole empty (λ g. count v g.group),
            ap (in_groups v) items-empty,
            count-iota v n 0,
          );
          nonempty = ground (
            arith,
            items-push whole empty (λ g. if length g.group == 0 then 1 else 0),
            ap empties items-empty,
            length-iota n 0,
          );
        } in
        let (q, e, part, few) =
          split_rounds_lem n (b - 1) (b - 1) 0 (push whole empty) pos sums (omega arith) start in
        (
          q,
          e,
          part,
          omega (
            arith,
            few,
            items-push whole empty (λ _. 1),
            ap length items-empty,
            total_one (items (push whole empty)),
            total_one (items empty),
          ),
        )
