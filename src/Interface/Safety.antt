-- ===== src/Interface/Safety.antt =====
-- What a call of `mqo` guarantees when it returns.
use mqo_public.Prelude.{
  ℕ, ◌≡◌, refl, subst, Bool, List, Run, ok, err, ◌>>=◌, ◌>>◌, bind_ok, Run-cases, inl, inr,
}
use mqo_public.Floats.{Floats}
use mqo_public.Trajectory.{Edge, IsTrajectory}
use mqo_public.Queue.{PriorityQueue}
use mqo_public.Checker.{check_trajectory}
use mqo_public.Checker.Sound.{check_trajectory_iff}
use mqo_public.Reorder.{reorder_multiple_dfs}
use mqo_public.AnnMst.{PqItem, heavier}
use mqo_public.AnnBuild.{HnswLib}
use mqo_public.Lsh.{GroupInfo, smaller, Params}
use mqo_public.Interface.{
  Method, lsh, ann, mixed, mixed_modified, custom, optimize, optimize_no_reorder,
  optimize_with_info, mqo, mqo_with_info,
}

module _ (fl : Floats) (lib : HnswLib fl) (groups : PriorityQueue GroupInfo smaller)
    (items : PriorityQueue (PqItem fl) (heavier fl)) (normal : ℕ → fl.Float)
    (rand : ℕ → ℕ → ℕ) where
  passed : (t t' : List Edge) (n : ℕ) → (check_trajectory t n >> ok t) ≡ ok t' → IsTrajectory n t'
  passed t t' n h =
      let (u, e, h') = bind_ok (check_trajectory t n) (λ _. ok t) t' h in
      let same : t ≡ t' = cc in subst (IsTrajectory n) same ((check_trajectory_iff t n).0 e)

  -- What `mqo` returns is a trajectory of the n queries: for every method, every file of edges, every
  -- index library and every state of the queries, also those for which it may fail. There are no
  -- conditions but that it returns.
  pub mqo-IsTrajectory :
      (option : Method) (fuel : ℕ) (query : List fl.Float) (n dim : ℕ) (use_l2 : Bool)
      (params : Params) (t : List Edge)
      → mqo fl lib groups items normal rand option fuel query n dim use_l2 params ≡ ok t
      → IsTrajectory n t
  unfolding mqo
  mqo-IsTrajectory option fuel query n dim use_l2 params t h =
      let ((t₁, w), _, h₁) =
        bind_ok (optimize fl lib groups items normal rand option fuel query n dim use_l2 params)
          (λ r. reorder_multiple_dfs fuel r.0 >>= λ t'. check_trajectory t' n >> ok t') t h in
      let (t₂, _, h₂) =
        bind_ok (reorder_multiple_dfs fuel t₁) (λ t'. check_trajectory t' n >> ok t') t h₁ in
      passed t₂ t n h₂

  checked : ℕ → List Edge → Run (List Edge)
  checked n t = check_trajectory t n >> ok t

  checked_with : ℕ → fl.Double → List Edge → Run (List Edge × fl.Double)
  checked_with n w t = check_trajectory t n >> ok (t, w)

  first : List Edge × fl.Double → Run (List Edge)
  first r = ok r.0

  checked_same :
      (n : ℕ) (w : fl.Double) (r : Run (List Edge))
      → (r >>= checked n) ≡ ((r >>= checked_with n w) >>= first)
  unfolding checked checked_with first
  checked_same n w (err e) = refl
  checked_same n w (ok t) = elim (Run-cases (check_trajectory t n)) [
    | inl (u, e) ↦ rw e refl
    | inr (f, e) ↦ rw e refl
  ]

  with_info_same :
      (option : Method) (fuel : ℕ) (query : List fl.Float) (n dim : ℕ) (use_l2 : Bool)
      (params : Params)
      → optimize_with_info fl lib groups items normal rand option fuel query n dim use_l2 params
        ≡ optimize fl lib groups items normal rand option fuel query n dim use_l2 params
  unfolding optimize optimize_with_info
  with_info_same lsh fuel query n dim use_l2 params = refl
  with_info_same ann fuel query n dim use_l2 params = refl
  with_info_same mixed fuel query n dim use_l2 params = refl
  with_info_same mixed_modified fuel query n dim use_l2 params = refl
  with_info_same (custom file) fuel query n dim use_l2 params = refl

  pub no_reorder_same :
      (option : Method) (fuel : ℕ) (query : List fl.Float) (n dim : ℕ) (use_l2 : Bool)
      (params : Params)
      → optimize_no_reorder fl lib groups items normal rand option fuel query n dim use_l2 params
        ≡ optimize fl lib groups items normal rand option fuel query n dim use_l2 params
  unfolding optimize optimize_no_reorder
  no_reorder_same lsh fuel query n dim use_l2 params = refl
  no_reorder_same ann fuel query n dim use_l2 params = refl
  no_reorder_same mixed fuel query n dim use_l2 params = refl
  no_reorder_same mixed_modified fuel query n dim use_l2 params = refl
  no_reorder_same (custom file) fuel query n dim use_l2 params = refl

  -- `mqo` is `mqo_with_info` without the average weight, faults included.
  pub mqo-mqo_with_info :
      (option : Method) (fuel : ℕ) (query : List fl.Float) (n dim : ℕ) (use_l2 : Bool)
      (params : Params)
      → mqo fl lib groups items normal rand option fuel query n dim use_l2 params ≡ (
          mqo_with_info fl lib groups items normal rand option fuel query n dim use_l2 params
          >>= λ r. ok r.0)
  unfolding mqo mqo_with_info checked checked_with first
  mqo-mqo_with_info option fuel query n dim use_l2 params =
      elim (Run-cases
        (optimize fl lib groups items normal rand option fuel query n dim use_l2 params)) [
          | inr (f, e) ↦ rw (with_info_same option fuel query n dim use_l2 params, e) refl
          | inl ((made, w), e) ↦
              rw (with_info_same option fuel query n dim use_l2 params, e)
                (checked_same n w (reorder_multiple_dfs fuel made))
        ]
