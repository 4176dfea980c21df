-- ===== src/Flatten/Order.antt =====
-- Flattening keeps the order: the queries of the depth-first order, with parents before them.
use mqo_public.Prelude.{
  bind_ok, ℕ, zero, suc, ◌+◌, ◌<◌, ◌≡◌, refl, sym, ap, ◌∙◌, subst, Option, none, some, List, [],
  ◌∷◌, ◌++◌, append-nil, append_assoc, count, count-append, Run, ok, index, inl, inr, if◌then◌else◌,
  arith, Bool-cases,
}
use mqo_public.Floats.{Floats}
use mqo_public.Trajectory.{Edge, nodes, ParentsFirst}
use mqo_public.Trajectory.Forest.{nodes-append, ParentIn, ParentsFirst-snoc}
use mqo_public.Reorder.{push_children, dfs, dfs_roots}
use mqo_public.Flatten.{flatten_pair, flatten_dfs, flatten_roots}

ParentsFirst-start :
    (seen : List ℕ) (xs ys : List Edge) → ParentsFirst seen (xs ++ ys) → ParentsFirst seen xs
ParentsFirst-start seen [] ys h = tt
ParentsFirst-start seen ((v, none) ∷ xs) ys h = ParentsFirst-start (v ∷ seen) xs ys h
ParentsFirst-start seen ((v, some p) ∷ xs) ys h = (h.0, ParentsFirst-start (v ∷ seen) xs ys h.1)

parent_before :
    (seen : List ℕ) (xs ys : List Edge) (v p : ℕ)
    → ParentsFirst seen (xs ++ (v, some p) ∷ ys)
    → 0 < count p seen + count p (nodes xs)
parent_before seen [] ys v p h = omega (arith, h.0)
parent_before seen ((u, none) ∷ xs) ys v p h = omega (arith, parent_before (u ∷ seen) xs ys v p h)
parent_before seen ((u, some q) ∷ xs) ys v p h =
    omega (arith, parent_before (u ∷ seen) xs ys v p h.1)

module _ (children : List (List ℕ)) where
  dfs_step :
      (fuel v : ℕ) (p : Option ℕ) (s out out' : List Edge)
      → dfs (suc fuel) children ((v, p) ∷ s) out ≡ ok out'
      → (cs : List ℕ) × (index children v ≡ ok cs)
        × (dfs fuel children (push_children v cs s) (out ++ (v, p) ∷ []) ≡ ok out')
  unfolding dfs
  dfs_step fuel v p s out out' h =
      bind_ok (index children v)
        (λ cs. dfs fuel children (push_children v cs s) (out ++ (v, p) ∷ [])) out' h

  -- A loop only adds to what is written.
  dfs_adds :
      (fuel : ℕ) (s out out' : List Edge)
      → dfs fuel children s out ≡ ok out'
      → (rest : List Edge) × (out' ≡ out ++ rest)
  unfolding dfs
  dfs_adds zero [] out out' h = ([], let e : out' ≡ out = cc in e ∙ sym (append-nil out))
  dfs_adds (suc fuel) [] out out' h = ([], let e : out' ≡ out = cc in e ∙ sym (append-nil out))
  dfs_adds zero (e ∷ s) out out' h = cc
  dfs_adds (suc fuel) ((v, p) ∷ s) out out' h =
      let (cs, e, k) = dfs_step fuel v p s out out' h in
      let (rest, e') = dfs_adds fuel (push_children v cs s) (out ++ (v, p) ∷ []) out' k in
      ((v, p) ∷ rest, e' ∙ append_assoc out ((v, p) ∷ []) rest)

  dfs_roots_adds :
      (fuel : ℕ) (roots : List ℕ) (out out' : List Edge)
      → dfs_roots fuel children roots out ≡ ok out'
      → (rest : List Edge) × (out' ≡ out ++ rest)
  unfolding dfs_roots
  dfs_roots_adds fuel [] out out' h = ([], let e : out' ≡ out = cc in e ∙ sym (append-nil out))
  dfs_roots_adds fuel (r ∷ roots) out out' h =
      let (out₁, e₁, k) =
        bind_ok (dfs fuel children ((r, none) ∷ []) out) (dfs_roots fuel children roots) out' h in
      let (rest, e) = dfs_adds fuel ((r, none) ∷ []) out out₁ e₁ in
      let (rest', e') = dfs_roots_adds fuel roots out₁ out' k in
      (rest ++ rest', e' ∙ ap (λ l. l ++ rest') e ∙ append_assoc out rest rest')

  module _ (fl : Floats) (dist : ℕ → ℕ → Run fl.Float) (alpha : fl.Float) (n : ℕ)
      (found : (i j : ℕ) → i < n → j < n → (d : fl.Float) × (dist i j ≡ ok d)) where
    -- A pair that is no root has a query before it.
    abbrev Ready : Option ℕ → List Edge → List Edge → Type 0
    Ready prev out [] = Unit
    Ready prev out ((v, none) ∷ s) = Unit
    Ready prev out ((v, some p) ∷ s) = (q : ℕ) × (prev ≡ some q) × (0 < count q (nodes out))

    -- What is written is a trajectory's start.
    abbrev Good : List Edge → Type 0
    Good out = ParentsFirst [] out × ((v : ℕ) → 0 < count v (nodes out) → v < n)

    ready : (v : ℕ) (out s : List Edge) → 0 < count v (nodes out) → Ready (some v) out s
    ready v out [] h = tt
    ready v out ((u, none) ∷ s) h = tt
    ready v out ((u, some p) ∷ s) h = (v, refl, h)

    pair_ok :
        (v : ℕ) (p prev : Option ℕ) (out s : List Edge)
        → v < n
        → ((u : ℕ) → 0 < count u (nodes out) → u < n)
        → ParentIn out p
        → Ready prev out ((v, p) ∷ s)
        → (p' : Option ℕ) × (flatten_pair fl dist alpha v p prev ≡ ok (v, p')) × ParentIn out p'
    unfolding flatten_pair
    pair_ok v none prev out s below inside parent r = (none, refl, tt)
    pair_ok v (some p) prev out s below inside parent (q, e, before) =
        let (own, e₁) = found v p below (inside p parent) in
        let (other, e₂) = found v q below (inside q before) in
        (
          some (if fl.lt other (fl.mul own alpha) then q else p),
          rw (e₁, e, e₂) refl,
          elim (Bool-cases (fl.lt other (fl.mul own alpha))) [
            | inl near ↦ rw near before
            | inr far ↦ rw far parent
          ],
        )

    step_eq :
        (fuel v : ℕ) (p prev : Option ℕ) (s out : List Edge) (e : Edge) (cs : List ℕ)
        → flatten_pair fl dist alpha v p prev ≡ ok e
        → index children v ≡ ok cs
        → flatten_dfs fl dist alpha (suc fuel) children ((v, p) ∷ s) prev out
          ≡ flatten_dfs fl dist alpha fuel children (push_children v cs s) (some v) (out ++ e ∷ [])
    unfolding flatten_dfs
    step_eq fuel v p prev s out e cs h k = rw (h, k) refl

    parent_in :
        (v : ℕ) (p : Option ℕ) (out outF rest : List Edge)
        → nodes outF ≡ nodes out
        → ParentsFirst [] (out ++ (v, p) ∷ rest)
        → ParentIn outF p
    parent_in v none out outF rest same h = tt
    parent_in v (some p) out outF rest same h =
        omega (arith, parent_before [] out rest v p h, ap (count p) same)

    flatten_dfs_lem :
        (fuel : ℕ) (s : List Edge) (prev : Option ℕ) (out outF out' : List Edge)
        → dfs fuel children s out ≡ ok out'
        → Good out'
        → nodes outF ≡ nodes out
        → ParentsFirst [] outF
        → Ready prev outF s
        → (outF' : List Edge) × (flatten_dfs fl dist alpha fuel children s prev outF ≡ ok outF')
          × (nodes outF' ≡ nodes out')
          × ParentsFirst [] outF'
    unfolding dfs flatten_dfs
    flatten_dfs_lem zero [] prev out outF out' h good same ordered r =
        (outF, refl, same ∙ ap nodes (let e : out ≡ out' = cc in e), ordered)
    flatten_dfs_lem (suc fuel) [] prev out outF out' h good same ordered r =
        (outF, refl, same ∙ ap nodes (let e : out ≡ out' = cc in e), ordered)
    flatten_dfs_lem zero (e ∷ s) prev out outF out' h good same ordered r = cc
    flatten_dfs_lem (suc fuel) ((v, p) ∷ s) prev out outF out' h good same ordered r =
        let (cs, e, k) = dfs_step fuel v p s out out' h in
        let (rest, e') = dfs_adds fuel (push_children v cs s) (out ++ (v, p) ∷ []) out' k in
        let whole : out' ≡ out ++ (v, p) ∷ rest = e' ∙ append_assoc out ((v, p) ∷ []) rest in
        let counts : (u : ℕ)
            → count u (nodes out') ≡ count u (nodes out) + count u (v ∷ nodes rest) =
          λ u.
            ap (λ t. count u (nodes t)) whole
            ∙ ap (count u) (nodes-append out ((v, p) ∷ rest))
            ∙ count-append u (nodes out) (v ∷ nodes rest) in
        let (p', made, parent) =
          pair_ok v p prev outF s (good.1 v (ground (arith, counts v)))
            (λ u l. good.1 u (omega (arith, counts u, l, ap (count u) same)))
            (parent_in v p out outF rest same (subst (ParentsFirst []) whole good.0)) r in
        let outF₁ = outF ++ (v, p') ∷ [] in
        let same₁ : nodes outF₁ ≡ nodes (out ++ (v, p) ∷ []) =
          nodes-append outF ((v, p') ∷ [])
          ∙ ap (λ l. l ++ v ∷ []) same
          ∙ sym (nodes-append out ((v, p) ∷ [])) in
        let here : 0 < count v (nodes outF₁) = ground (
          arith,
          ap (count v) (nodes-append outF ((v, p') ∷ [])),
          count-append v (nodes outF) (v ∷ []),
        ) in
        let (outF', ends, same', ordered') =
          flatten_dfs_lem fuel (push_children v cs s) (some v) (out ++ (v, p) ∷ []) outF₁ out' k
            good same₁ (ParentsFirst-snoc outF v p' ordered parent)
            (ready v outF₁ (push_children v cs s) here) in
        (outF', step_eq fuel v p prev s outF (v, p') cs made e ∙ ends, same', ordered')

    root_eq :
        (fuel r : ℕ) (roots : List ℕ) (out out' : List Edge)
        → flatten_dfs fl dist alpha fuel children ((r, none) ∷ []) none out ≡ ok out'
        → flatten_roots fl dist alpha fuel children (r ∷ roots) out
          ≡ flatten_roots fl dist alpha fuel children roots out'
    unfolding flatten_roots
    root_eq fuel r roots out out' h = rw h refl

    pub flatten_roots_lem :
        (fuel : ℕ) (roots : List ℕ) (out outF out' : List Edge)
        → dfs_roots fuel children roots out ≡ ok out'
        → ParentsFirst [] out'
        → ((v : ℕ) → 0 < count v (nodes out') → v < n)
        → nodes outF ≡ nodes out
        → ParentsFirst [] outF
        → (outF' : List Edge) × (flatten_roots fl dist alpha fuel children roots outF ≡ ok outF')
          × (nodes outF' ≡ nodes out')
          × ParentsFirst [] outF'
    unfolding dfs_roots flatten_roots
    flatten_roots_lem fuel [] out outF out' h first inside same ordered =
        (outF, refl, same ∙ ap nodes (let e : out ≡ out' = cc in e), ordered)
    flatten_roots_lem fuel (r ∷ roots) out outF out' h first inside same ordered =
        let (out₁, e₁, k) =
          bind_ok (dfs fuel children ((r, none) ∷ []) out) (dfs_roots fuel children roots) out' h in
        let (rest, e) = dfs_roots_adds fuel roots out₁ out' k in
        let counts : (u : ℕ) → count u (nodes out') ≡ count u (nodes out₁) + count u (nodes rest) =
          λ u.
            ap (λ t. count u (nodes t)) e
            ∙ ap (count u) (nodes-append out₁ rest)
            ∙ count-append u (nodes out₁) (nodes rest) in
        let (outF₁, ends, same₁, ordered₁) =
          flatten_dfs_lem fuel ((r, none) ∷ []) none out outF out₁ e₁
            (
              ParentsFirst-start [] out₁ rest (subst (ParentsFirst []) e first),
              λ v l. inside v (omega (arith, counts v, l)),
            )
            same ordered tt in
        let (outF', ends', same', ordered') =
          flatten_roots_lem fuel roots out₁ outF₁ out' k first inside same₁ ordered₁ in
        (outF', root_eq fuel r roots outF outF₁ ends ∙ ends', same', ordered')
