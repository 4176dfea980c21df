-- ===== src/Answers/Nearest.antt =====
-- The queue of a query holds the `topk` nearest of the points that were seen.
use mqo_public.Prelude.{
  ℕ, zero, suc, ◌+◌, ◌<◌, ◌≤◌, ◌≡◌, refl, sym, ap, ◌∙◌, true, false, some, List, [], ◌∷◌, ◌++◌,
  length, total, total_one, SameTotals, All, Run, ok, err, out_of_bounds, ltb, Bool-cases,
  Option-cases, inl, inr, arith,
}
use mqo_public.Floats.{Floats}
use mqo_public.Queue.{IsStrictWeak, PriorityQueue}
use mqo_public.Answers.{Near, nearer, keep, nearest, take_out}
use mqo_public.Answers.Order.{
  hits, All_of_hits, hits_of_All, total-append, All-map, All_of_empty, total_of_empty, Ascending,
  Ascending-snoc, measured, places,
}

module _ (fl : Floats) (pq : PriorityQueue (Near fl) (nearer fl))
    (weak : IsStrictWeak (nearer fl)) where
  open pq use {Queue, push, pop, items, items-push, pop_none, pop_some, pop_greatest}

  -- Between two points: `out` was taken out of the queue, of the points `seen`.
  pub record Kept (topk : ℕ) (seen : List (Near fl)) (q : Queue) (out : List (Near fl))
      : Type 0 where
    pub split : (f : Near fl → ℕ) → total f (items q) + total f out ≡ total f seen
    pub few : length (items q) ≤ topk
    pub full : 0 < length out → length (items q) ≡ topk
    pub nearest : All (λ o. total (hits (nearer fl o)) (items q) ≡ 0) out

  length-push : (a : Near fl) (q : Queue) → length (items (push a q)) ≡ suc (length (items q))
  length-push a q =
      omega (arith, total_one (items (push a q)), total_one (items q), items-push a q (λ _. 1))

  keep_more :
      (topk : ℕ) (a : Near fl) (q : Queue)
      → ltb topk (length (items (push a q))) ≡ false
      → keep fl pq topk a q ≡ ok (push a q)
  unfolding keep
  keep_more topk a q h = rw h refl

  keep_less :
      (topk : ℕ) (a m : Near fl) (q r : Queue)
      → ltb topk (length (items (push a q))) ≡ true
      → pop (push a q) ≡ some (m, r)
      → keep fl pq topk a q ≡ ok r
  unfolding keep
  keep_less topk a m q r h e = rw (h, e) refl

  -- A point that is taken out is no nearer than those that stay, nor are those taken out before.
  still_nearest :
      (a m : Near fl) (q r : Queue) (o : Near fl)
      → pop (push a q) ≡ some (m, r)
      → total (hits (nearer fl o)) (items q) ≡ 0
      → total (hits (nearer fl o)) (items r) ≡ 0
  still_nearest a m q r o e h =
      let f = hits (nearer fl o) in
      let top : total (hits (nearer fl m)) (items (push a q)) ≡ 0 =
        hits_of_All (nearer fl m) (items (push a q)) (pop_greatest weak (push a q) m r e) in
      ground (
        arith,
        items-push a q f,
        pop_some (push a q) m r e f,
        h,
        top,
        items-push a q (hits (nearer fl m)),
        weak.neg_trans o m a,
      )

  keep_lem :
      (topk : ℕ) (a : Near fl) (seen : List (Near fl)) (q : Queue) (out : List (Near fl))
      → Kept topk seen q out
      → (q' : Queue) × (out' : List (Near fl)) × (keep fl pq topk a q ≡ ok q')
        × Kept topk (a ∷ seen) q' out'
  keep_lem topk a seen q out kept = elim (Bool-cases (ltb topk (length (items (push a q))))) [
    | inl over ↦ elim (Option-cases (pop (push a q))) [
      | inl gone ↦ absurd (
          let e : length (items (push a q)) ≡ 0 = ap length (pop_none (push a q) gone) in
          omega (arith, e, length-push a q))
      | inr ((m, r), e) ↦
          let size : suc (length (items r)) ≡ length (items (push a q)) = omega (
            arith,
            total_one (items (push a q)),
            total_one (items r),
            pop_some (push a q) m r e (λ _. 1),
          ) in
          (
            r,
            m ∷ out,
            keep_less topk a m q r over e,
            record {
              split =
                  λ f. omega (arith, kept.split f, items-push a q f, pop_some (push a q) m r e f);
              few = omega (arith, size, length-push a q, kept.few);
              full = λ h. ground (arith, over, size, length-push a q, kept.few);
              nearest = (
                omega (
                  arith,
                  pop_some (push a q) m r e (hits (nearer fl m)),
                  hits_of_All (nearer fl m) (items (push a q)) (pop_greatest weak (push a q) m r e),
                ),
                All-map _ _ (λ o. still_nearest a m q r o e) out kept.nearest,
              );
            },
          )
    ]
    | inr fits ↦ (
      push a q,
      out,
      keep_more topk a q fits,
      record {
        split = λ f. omega (arith, kept.split f, items-push a q f);
        few = ground (arith, fits);
        full = λ h. absurd (ground (arith, fits, h, kept.full, length-push a q));
        nearest = All_of_empty _ out (ground (arith, fits, kept.full, length-push a q));
      },
    )
  ]

  nearest_step :
      (dist : ℕ → Run fl.Float) (topk k i : ℕ) (q q' : Queue) (d : fl.Float)
      → dist i ≡ ok d
      → keep fl pq topk (d, i) q ≡ ok q'
      → nearest fl pq dist topk (suc k) i q ≡ nearest fl pq dist topk k (suc i) q'
  unfolding nearest
  nearest_step dist topk k i q q' d e e' = rw (e, e') refl

  -- The loop over the points `i` on.
  pub nearest_lem :
      (dist : ℕ → Run fl.Float) (d : ℕ → fl.Float) (topk k i : ℕ) (seen : List (Near fl))
      (q : Queue) (out : List (Near fl))
      → ((j : ℕ) → i ≤ j → j < i + k → dist j ≡ ok (d j))
      → Kept topk seen q out
      → (seen' : List (Near fl)) × (q' : Queue) × (out' : List (Near fl)) × (nearest fl pq dist topk
            k i q
          ≡ ok q')
        × Kept topk seen' q' out'
        × ((f : Near fl → ℕ) → total f seen' ≡ total f seen + total f (measured fl d k i))
  unfolding nearest
  nearest_lem dist d topk zero i seen q out found kept =
      (seen, q, out, refl, kept, λ f. omega arith)
  nearest_lem dist d topk (suc k) i seen q out found kept =
      let (q₁, out₁, e, kept₁) = keep_lem topk (d i, i) seen q out kept in
      let (seen', q', out', ends, kept', all) =
        nearest_lem dist d topk k (suc i) ((d i, i) ∷ seen) q₁ out₁
          (λ j h h'. found j (omega (arith, h)) (omega (arith, h'))) kept₁ in
      (
        seen',
        q',
        out',
        nearest_step dist topk k i q q₁ (d i) (found i (omega arith) (omega arith)) e ∙ ends,
        kept',
        λ f. omega (arith, all f),
      )

  take_out_step :
      (k : ℕ) (q r : Queue) (m : Near fl) (answer : List ℕ)
      → pop q ≡ some (m, r)
      → take_out fl pq (suc k) q answer ≡ take_out fl pq k r (m.1 ∷ answer)
  unfolding take_out
  take_out_step k q r m answer e = rw e refl

  places-snoc :
      (near : List (Near fl)) (m : Near fl) (answer : List ℕ)
      → places fl near ++ m.1 ∷ answer ≡ places fl (near ++ m ∷ []) ++ answer
  places-snoc [] m answer = refl
  places-snoc (x ∷ near) m answer = ap (λ r. x.1 ∷ r) (places-snoc near m answer)

  -- A queue of `k` points is taken out in ascending order.
  pub take_out_lem :
      (k : ℕ) (q : Queue) (answer : List ℕ)
      → length (items q) ≡ k
      → (near : List (Near fl)) × (take_out fl pq k q answer ≡ ok (places fl near ++ answer))
        × SameTotals near (items q)
        × Ascending (nearer fl) near
  unfolding take_out
  take_out_lem zero q answer size = ([], refl, λ f. sym (total_of_empty f (items q) size), tt)
  take_out_lem (suc k) q answer size = elim (Option-cases (pop q)) [
    | inl gone ↦
        absurd
          (let e : length (items q) ≡ 0 = ap length (pop_none q gone) in omega (arith, e, size))
    | inr ((m, r), e) ↦
        let left : length (items r) ≡ k =
          omega
            (arith, size, total_one (items q), total_one (items r), pop_some q m r e (λ _. 1)) in
        let (near, ends, same, ascending) = take_out_lem k r (m.1 ∷ answer) left in
        let top : total (hits (nearer fl m)) near ≡ 0 = omega (
          arith,
          same (hits (nearer fl m)),
          pop_some q m r e (hits (nearer fl m)),
          hits_of_All (nearer fl m) (items q) (pop_greatest weak q m r e),
        ) in
        (
          near ++ m ∷ [],
          take_out_step k q r m answer e ∙ ends ∙ ap ok (places-snoc near m answer),
          λ f. omega (arith, total-append f near (m ∷ []), same f, pop_some q m r e f),
          Ascending-snoc (nearer fl) near m ascending (All_of_hits (nearer fl m) near top),
        )
  ]

  -- More rounds than points pop an empty queue.
  pub take_out_short :
      (k : ℕ) (q : Queue) (answer : List ℕ)
      → length (items q) < k
      → take_out fl pq k q answer ≡ err out_of_bounds
  unfolding take_out
  take_out_short zero q answer h = absurd (omega (arith, h))
  take_out_short (suc k) q answer h = elim (Option-cases (pop q)) [
    | inl gone ↦ rw gone refl
    | inr ((m, r), e) ↦
        take_out_step k q r m answer e
        ∙ take_out_short k r (m.1 ∷ answer)
            (omega (arith, h, total_one (items q), total_one (items r), pop_some q m r e (λ _. 1)))
  ]
