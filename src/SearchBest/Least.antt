-- ===== src/SearchBest/Least.antt =====
-- The loop over the candidates finds the least time.
use mqo_public.Prelude.{
  suc, subst, ℕ, ◌≡◌, refl, sym, ap, ◌∙◌, false, List, [], ◌∷◌, get_elem?, All, Run, ok, Bool-cases,
  ◌⊎◌, inl, inr, some,
}
use mqo_public.Floats.{Floats}
use mqo_public.Queue.{IsStrictWeak}
use mqo_public.SearchBest.{
  Candidate, Measured, Best, total_time, consider, best_loop, minus_one, search_best,
}

module _ (fl : Floats) (weak : IsStrictWeak fl.d_lt) (measure : Candidate → Run (Measured fl))
    (measured : Candidate → Measured fl) where
  -- The variables are those of the candidate.
  abbrev pub IsOf : Candidate → Best fl → Type 0
  IsOf c best =
      (best.best_time ≡ total_time fl (measured c))
      × (best.best_params ≡ c)
      × (best.best_mst_time ≡ (measured c).mst_time)
      × (best.best_query_time ≡ (measured c).query_time)
      × (best.recall_value ≡ (measured c).recall)

  -- The variables are those of a candidate of the list.
  abbrev pub Chosen : List Candidate → Best fl → Type 0
  Chosen candidates best =
      (i : ℕ) × (c : Candidate) × (get_elem? candidates i ≡ some c) × IsOf c best

  irreflexive : (x : fl.Double) → fl.d_lt x x ≡ false
  irreflexive x = elim (Bool-cases (fl.d_lt x x)) [ inl e ↦ weak.asym x x e | inr e ↦ e ]

  abbrev NotAbove : Best fl → Best fl → Type 0
  NotAbove r best = fl.d_lt best.best_time r.best_time ≡ false

  consider_lem :
      (c : Candidate) (best : Best fl)
      → NotAbove (consider fl c (measured c) best) best
        × (fl.d_lt (total_time fl (measured c)) (consider fl c (measured c) best).best_time ≡ false)
        × ((consider fl c (measured c) best ≡ best) ⊎ IsOf c (consider fl c (measured c) best))
  unfolding consider
  consider_lem c best = elim (Bool-cases (fl.d_lt (total_time fl (measured c)) best.best_time)) [
    | inl less ↦ rw less (
      weak.asym (total_time fl (measured c)) best.best_time less,
      irreflexive (total_time fl (measured c)),
      inr (refl, refl, refl, refl, refl),
    )
    | inr more ↦ rw more (irreflexive best.best_time, more, inl refl)
  ]

  step :
      (c : Candidate) (candidates : List Candidate) (best : Best fl)
      → measure c ≡ ok (measured c)
      → best_loop fl measure (c ∷ candidates) best
        ≡ best_loop fl measure candidates (consider fl c (measured c) best)
  unfolding best_loop
  step c candidates best e = rw e refl

  loop_lem :
      (candidates : List Candidate) (best : Best fl)
      → All (λ c. measure c ≡ ok (measured c)) candidates
      → (r : Best fl) × (best_loop fl measure candidates best ≡ ok r)
        × NotAbove r best
        × All (λ c. fl.d_lt (total_time fl (measured c)) r.best_time ≡ false) candidates
        × ((r ≡ best) ⊎ Chosen candidates r)
  unfolding best_loop
  loop_lem [] best all = (best, refl, irreflexive best.best_time, tt, inl refl)
  loop_lem (c ∷ candidates) best all =
      let best' = consider fl c (measured c) best in
      let (kept, below, from) = consider_lem c best in
      let (r, ends, under, least, chosen) = loop_lem candidates best' all.1 in
      (
        r,
        step c candidates best all.0 ∙ ends,
        weak.neg_trans best.best_time best'.best_time r.best_time kept under,
        (
          weak.neg_trans (total_time fl (measured c)) best'.best_time r.best_time below under,
          least,
        ),
        elim chosen [
          | inr (i, c', at, of) ↦ inr (suc i, c', at, of)
          | inl same ↦ elim from [
            | inl old ↦ inl (same ∙ old)
            | inr of ↦ inr (0, c, refl, subst (IsOf c) (sym same) of)
          ]
        ],
      )

  -- If each candidate can be measured and there is one, the loop ends with the parameters, the times and
  -- the recall of a candidate, no candidate takes less time;
  -- or with the first candidate, the time -1 for its trajectory and the total of 1,000,000 seconds, which no
  -- candidate is below. `<` on the times is a strict weak order.
  pub search_best-Chosen :
      (c : Candidate) (candidates : List Candidate)
      → All (λ c. measure c ≡ ok (measured c)) (c ∷ candidates)
      → (r : Best fl) × (search_best fl measure (c ∷ candidates) ≡ ok r)
        × All (λ c. fl.d_lt (total_time fl (measured c)) r.best_time ≡ false) (c ∷ candidates)
        × (Chosen (c ∷ candidates) r
            ⊎ (r.best_time ≡ fl.d_of_int 1000000)
              × (r.best_params ≡ c)
              × (r.best_mst_time ≡ minus_one fl))
  unfolding search_best
  search_best-Chosen c candidates all =
      let start : Best fl = record {
        best_time = fl.d_of_int 1000000;
        best_params = c;
        best_mst_time = minus_one fl;
        best_query_time = minus_one fl;
        recall_value = minus_one fl;
      } in
      let (r, ends, _, least, chosen) = loop_lem (c ∷ candidates) start all in
      (
        r,
        ends,
        least,
        elim chosen [
          | inr of ↦ inl of
          | inl same ↦ inr (
            ap (λ (b : Best fl). b.best_time) same,
            ap (λ (b : Best fl). b.best_params) same,
            ap (λ (b : Best fl). b.best_mst_time) same,
          )
        ],
      )
