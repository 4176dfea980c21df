-- ===== src/NsgRecall/Correct.antt =====
-- The recall of the NSG index is the share of the queries that are answered rightly.
use mqo_public.Prelude.{
  ℕ, ◌*◌, ◌<◌, ◌≤◌, ◌≡◌, refl, Option, List, ◌∷◌, length-replicate, replicate, All, ok, arith,
}
use mqo_public.Floats.{Floats}
use mqo_public.Trajectory.{Edge, IsTrajectory}
use mqo_public.Distance.{int_limit}
use mqo_public.Distance.Bounds.{int_of_ok}
use mqo_public.AnnBuild.Laws.{row_end}
use mqo_public.Follow.Order.{
  times, HasAnswers, right_from, scan_loop_lem, Follows, right_answers, follow_loop-Follows,
}
use mqo_public.NsgRecall.{
  NsgLib, bump, unsigned_offset, int_offset, get_recall, get_recall_optimized, get_recall_ip,
  get_recall_optimized_ip,
}

-- A search for some results finds one.
pub record FindsSome (nsg : NsgLib) (beamsize topk : ℕ) : Type 0 where
  pub opt_graph :
      (x : ℕ) → (l : ℕ) × (ls : List ℕ) × (nsg.search_with_opt_graph beamsize topk x ≡ l ∷ ls)
  pub opt_graph_mine :
      (x : ℕ) (entry : Option ℕ)
      → (l : ℕ) × (ls : List ℕ) × (nsg.search_with_opt_graph_mine beamsize topk x entry ≡ l ∷ ls)
  pub ip : (x : ℕ) → (l : ℕ) × (ls : List ℕ) × (nsg.search beamsize topk x ≡ l ∷ ls)
  pub ip_mine :
      (x : ℕ) (entry : Option ℕ)
      → (l : ℕ) × (ls : List ℕ) × (nsg.search_mine beamsize topk x entry ≡ l ∷ ls)

module _ (fl : Floats) (nsg : NsgLib) (ans : List (List ℕ)) (n dim topk beamsize : ℕ)
    (known : HasAnswers n ans) (finds : FindsSome nsg beamsize topk) where
  -- `k` right answers of n.
  abbrev pub share : ℕ → fl.Float
  share k = fl.div (times k (bump fl nsg) fl.zero) (fl.of_int n)

  -- `get_recall` and `get_recall_ip` return the share of the n queries for which the first result of
  -- their search is the first true answer, if each search finds something and the answers are there.
  pub get_recall-share :
      (get_recall fl nsg ans n dim topk beamsize
        ≡ ok (
            share (
              right_from
                (bump fl nsg)
                ans
                n
                known
                (λ i. nsg.search_with_opt_graph beamsize topk (unsigned_offset fl nsg dim i))
                n
                0)))
      × (get_recall_ip fl nsg ans n dim topk beamsize
          ≡ ok (
              share (
                right_from
                  (bump fl nsg)
                  ans
                  n
                  known
                  (λ i. nsg.search beamsize topk (unsigned_offset fl nsg dim i))
                  n
                  0)))
  unfolding get_recall get_recall_ip
  get_recall-share = (
    rw
        (scan_loop_lem (bump fl nsg) ans n known
          (λ i. nsg.search_with_opt_graph beamsize topk (unsigned_offset fl nsg dim i)) n 0 fl.zero
          (omega arith) (λ v h. finds.opt_graph (unsigned_offset fl nsg dim v)))
        refl,
    rw
        (scan_loop_lem (bump fl nsg) ans n known
          (λ i. nsg.search beamsize topk (unsigned_offset fl nsg dim i)) n 0 fl.zero (omega arith)
          (λ v h. finds.ip (unsigned_offset fl nsg dim v)))
        refl,
  )

  offset_ok :
      0 < dim → n * dim ≤ int_limit → (v : ℕ) → v < n → int_offset fl nsg dim v ≡ ok (v * dim)
  offset_ok pos fits v below = int_of_ok (v * dim) (omega (arith, row_end v n dim below, pos, fits))

  -- The rows `res` follow from one another along the trajectory, and a recall is their share.
  abbrev pub Recalled : (ℕ → Option ℕ → List ℕ) → List Edge → List (List ℕ) → Type 0
  Recalled search t res =
      All (λ e. Follows (bump fl nsg) ans n known (int_offset fl nsg dim) search res e.0 e.1) t

  abbrev pub right : (ℕ → Option ℕ → List ℕ) → List Edge → List (List ℕ) → ℕ
  right search t res = right_answers (bump fl nsg) ans n known (int_offset fl nsg dim) search res t

  -- Along a trajectory of the n queries `get_recall_optimized` and `get_recall_optimized_ip` start the
  -- search of each query from the first result of its parent, and return the share of the queries for
  -- which the first result is the first true answer. The rows of the queries must be indexable by an
  -- `int`, each search find something, and the answers be there.
  pub get_recall_optimized-Recalled :
      (t : List Edge)
      → 0 < dim
      → n * dim ≤ int_limit
      → IsTrajectory n t
      → (res res' : List (List ℕ)) × (get_recall_optimized fl nsg ans t n dim topk beamsize
          ≡ ok (share (right (nsg.search_with_opt_graph_mine beamsize topk) t res)))
        × Recalled (nsg.search_with_opt_graph_mine beamsize topk) t res
        × (get_recall_optimized_ip fl nsg ans t n dim topk beamsize
            ≡ ok (share (right (nsg.search_mine beamsize topk) t res')))
        × Recalled (nsg.search_mine beamsize topk) t res'
  unfolding get_recall_optimized get_recall_optimized_ip
  get_recall_optimized-Recalled t pos fits trajectory =
      let start = replicate n (replicate topk 0) in
      let (res, ends, follows) =
        follow_loop-Follows (bump fl nsg) ans n known (int_offset fl nsg dim)
          (nsg.search_with_opt_graph_mine beamsize topk) t start fl.zero
          (λ v h. (v * dim, offset_ok pos fits v h, finds.opt_graph_mine (v * dim)))
          (length-replicate n (replicate topk 0)) trajectory in
      let (res', ends', follows') =
        follow_loop-Follows (bump fl nsg) ans n known (int_offset fl nsg dim)
          (nsg.search_mine beamsize topk) t start fl.zero
          (λ v h. (v * dim, offset_ok pos fits v h, finds.ip_mine (v * dim)))
          (length-replicate n (replicate topk 0)) trajectory in
      (res, res', rw ends refl, follows, rw ends' refl, follows')
