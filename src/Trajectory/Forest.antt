-- ===== src/Trajectory/Forest.antt =====
-- Facts on lists of (child, parent) pairs, and that a trajectory is a forest.
use mqo_public.Prelude.{
  ap, ◌∙◌, All-append, length-append, count_if-append, count-append, ℕ, ◌+◌, ◌<◌, ◌≤◌, ◌≡◌, refl,
  Bool, true, ◌&&◌, Option, none, some, List, [], ◌∷◌, ◌++◌, length, count, count_if, All, ◌==◌,
  ==_refl, ==_iff, Bool-cases, inl, inr, subst, arith,
}
use mqo_public.Trajectory.{
  Edge, nodes, parent_is, is_root, ParentsFirst, IsTrajectory, Rooted, root, child, ParentBelow,
  IsForest,
}

pub count-nodes : (v : ℕ) (t : List Edge) → count v (nodes t) ≡ count_if (λ e. e.0 == v) t
count-nodes v [] = refl
count-nodes v ((u, p) ∷ t) = omega (arith, count-nodes v t)

pub length-nodes : (t : List Edge) → length (nodes t) ≡ length t
length-nodes [] = refl
length-nodes ((u, p) ∷ t) = omega (arith, length-nodes t)

pub nodes-append : (s t : List Edge) → nodes (s ++ t) ≡ nodes s ++ nodes t
nodes-append [] t = refl
nodes-append ((u, p) ∷ s) t = rw (nodes-append s t)

-- A test that implies another counts no more.
pub count_if_mono :
    (p q : Edge → Bool) (t : List Edge)
    → ((e : Edge) → p e ≡ true → q e ≡ true)
    → count_if p t ≤ count_if q t
count_if_mono p q [] h = omega arith
count_if_mono p q (e ∷ t) h = ground (arith, h e, count_if_mono p q t h)

pub ParentsFirst-mono :
    (s s' : List ℕ) (t : List Edge)
    → ((q : ℕ) → 0 < count q s → 0 < count q s')
    → ParentsFirst s t
    → ParentsFirst s' t
ParentsFirst-mono s s' [] h p = tt
ParentsFirst-mono s s' ((v, none) ∷ t) h p =
    ParentsFirst-mono (v ∷ s) (v ∷ s') t (λ q k. ground (arith, h q)) p
ParentsFirst-mono s s' ((v, some u) ∷ t) h p =
    (h u p.0, ParentsFirst-mono (v ∷ s) (v ∷ s') t (λ q k. ground (arith, h q)) p.1)

pub ParentsFirst-append :
    (s s' : List ℕ) (xs ys : List Edge)
    → ((q : ℕ) → 0 < count q s' → 0 < count q s + count q (nodes xs))
    → ParentsFirst s xs
    → ParentsFirst s' ys
    → ParentsFirst s (xs ++ ys)
ParentsFirst-append s s' [] ys h p q = ParentsFirst-mono s' s ys (λ v k. omega (arith, h v k)) q
ParentsFirst-append s s' ((v, none) ∷ xs) ys h p q =
    ParentsFirst-append (v ∷ s) s' xs ys (λ u k. ground (arith, h u k)) p q
ParentsFirst-append s s' ((v, some u) ∷ xs) ys h p q =
    (p.0, ParentsFirst-append (v ∷ s) s' xs ys (λ w k. ground (arith, h w k)) p.1 q)

-- What may be put behind a list in parents-first order.
abbrev pub ParentIn : List Edge → Option ℕ → Type 0
ParentIn t none = Unit
ParentIn t (some p) = 0 < count p (nodes t)

pub ParentsFirst-snoc :
    (t : List Edge) (v : ℕ) (p : Option ℕ)
    → ParentsFirst [] t
    → ParentIn t p
    → ParentsFirst [] (t ++ (v, p) ∷ [])
ParentsFirst-snoc t v none f h =
    ParentsFirst-append [] [] t ((v, none) ∷ []) (λ q k. omega arith) f tt
ParentsFirst-snoc t v (some p) f h =
    ParentsFirst-append [] (nodes t) t ((v, some p) ∷ []) (λ q k. omega arith) f (h, tt)

-- What holds of `u` and of every element of `vs` holds of every element of `u ∷ vs`.
pub in-cons {ℓ} :
    (P : ℕ → Type ℓ) (u : ℕ) (vs : List ℕ)
    → P u
    → ((v : ℕ) → 0 < count v vs → P v)
    → (v : ℕ) → 0 < count v (u ∷ vs)
    → P v
in-cons P u vs here old v h = elim (Bool-cases (u == v)) [
  | inl e ↦ subst P ((==_iff u v).0 e) here
  | inr e ↦ old v (ground arith)
]

-- The nodes of a suffix are rooted in the whole list, if those before it are.
Rooted-suffix :
    (whole : List Edge) (seen : List ℕ) (t : List Edge)
    → ((p : Edge → Bool) → count_if p t ≤ count_if p whole)
    → ((v : ℕ) → 0 < count v seen → Rooted whole v)
    → ParentsFirst seen t
    → (v : ℕ) → 0 < count v (nodes t)
    → Rooted whole v
Rooted-suffix whole seen [] sub old f = λ v h. absurd (omega arith)
Rooted-suffix whole seen ((u, none) ∷ t) sub old f =
    let here : Rooted whole u =
      root (ground (arith, sub (λ e. e.0 == u && is_root e.1), ==_refl u)) in
    in-cons (Rooted whole) u (nodes t) here (
      Rooted-suffix whole (u ∷ seen) t (λ p. ground (arith, sub p))
        (in-cons (Rooted whole) u seen here old) f)
Rooted-suffix whole seen ((u, some q) ∷ t) sub old f =
    let here : Rooted whole u =
      child (ground (arith, sub (λ e. e.0 == u && parent_is q e.1), ==_refl u, ==_refl q))
        (old q f.0) in
    in-cons (Rooted whole) u (nodes t) here (
      Rooted-suffix whole (u ∷ seen) t (λ p. ground (arith, sub p))
        (in-cons (Rooted whole) u seen here old) f.1)

parents-below :
    (n : ℕ) (seen : List ℕ) (t : List Edge)
    → ((v : ℕ) → 0 < count v seen → v < n)
    → ((v : ℕ) → 0 < count v (nodes t) → v < n)
    → ParentsFirst seen t
    → All (λ e. ParentBelow n e.1) t
parents-below n seen [] a b f = tt
parents-below n seen ((v, none) ∷ t) a b f = (
  tt,
  parents-below n (v ∷ seen) t (in-cons (λ x. x < n) v seen (b v (ground arith)) a)
      (λ x k. b x (ground arith)) f,
)
parents-below n seen ((v, some p) ∷ t) a b f = (
  a p f.0,
  parents-below n (v ∷ seen) t (in-cons (λ x. x < n) v seen (b v (ground arith)) a)
      (λ x k. b x (ground arith)) f.1,
)

-- The pairs of a trajectory are a forest.
pub IsTrajectory-IsForest : (n : ℕ) (t : List Edge) → IsTrajectory n t → IsForest n t
IsTrajectory-IsForest n t h = record {
  size = h.size;
  visits = h.visits;
  parents =
      parents-below n [] t (λ v k. absurd (omega arith)) (λ v k. ground (arith, h.visits v))
        h.ordered;
  rooted = λ v k.
      Rooted-suffix t [] t (λ p. omega arith) (λ x j. absurd (omega arith)) h.ordered v
        (ground (arith, h.visits v));
}

rotate_sub :
    (e : Edge) (t : List Edge) (p : Edge → Bool) → count_if p (e ∷ t) ≤ count_if p (t ++ e ∷ [])
rotate_sub e t p = omega (arith, count_if-append p t (e ∷ []))

-- More pairs root no fewer queries.
Rooted-mono :
    (s t : List Edge) (v : ℕ)
    → ((p : Edge → Bool) → count_if p s ≤ count_if p t)
    → Rooted s v
    → Rooted t v
Rooted-mono s t v sub (root {v = _} h) = root (omega (arith, h, sub (λ e. e.0 == v && is_root e.1)))
Rooted-mono s t v sub (child {v = _} {p = p} h r) =
    child (omega (arith, h, sub (λ e. e.0 == v && parent_is p e.1))) (Rooted-mono s t p sub r)

-- The first pair of a forest may stand last.
pub IsForest-rotate :
    (n : ℕ) (e : Edge) (t : List Edge) → IsForest n (e ∷ t) → IsForest n (t ++ e ∷ [])
IsForest-rotate n e t h = record {
  size = omega (arith, h.size, length-append t (e ∷ []));
  visits = λ v.
      ap (count v) (nodes-append t (e ∷ []))
      ∙ omega (arith, h.visits v, count-append v (nodes t) (e.0 ∷ []));
  parents = All-append (λ e. ParentBelow n e.1) t (e ∷ []) h.parents.1 (h.parents.0, tt);
  rooted = λ v below. Rooted-mono (e ∷ t) (t ++ e ∷ []) v (rotate_sub e t) (h.rooted v below);
}
