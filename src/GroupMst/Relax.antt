-- ===== src/GroupMst/Relax.antt =====
-- The update of the keys: after it every open vertex has an edge into the tree.
use mqo_public.Prelude.{
  ℕ, zero, suc, ◌≡◌, refl, sym, subst, Bool, true, false, some, List, [], ◌∷◌, length, set,
  get_elem?, All, Run, ok, if◌then◌else◌, arith, Bool-cases, ◌⊎◌, inl, inr,
}
use mqo_public.Floats.{Floats}
use mqo_public.GroupMst.{Key, relax}

module _ (fl : Floats) where
  open fl use {Float, lt, infinity}

  -- The key is a finite distance to a vertex of the tree; `tree` has a flag for each vertex.
  abbrev pub Joined : List Bool → Key fl → Type 0
  Joined tree k =
      (lt k.0 infinity ≡ true) × ((p : ℕ) × (k.1 ≡ some p) × (get_elem? tree p ≡ some true))

  -- Each key of an open vertex is `P`.
  abbrev pub Open : (Key fl → Type 0) → List Bool → List (Key fl) → Type 0
  Open P [] keys = Unit
  Open P (d ∷ done) [] = Unit
  Open P (true ∷ done) (k ∷ keys) = Open P done keys
  Open P (false ∷ done) (k ∷ keys) = P k × Open P done keys

  abbrev pub Near : List Bool → Key fl → Type 0
  Near tree k = (k.0 ≡ infinity) ⊎ Joined tree k

  pub Open-get :
      (P : Key fl → Type 0) (done : List Bool) (keys : List (Key fl)) (i : ℕ) (k : Key fl)
      → Open P done keys
      → get_elem? done i ≡ some false
      → get_elem? keys i ≡ some k
      → P k
  Open-get P [] keys i k o p q = cc
  Open-get P (d ∷ done) [] i k o p q = cc
  Open-get P (true ∷ done) (x ∷ keys) zero k o p q = cc
  Open-get P (true ∷ done) (x ∷ keys) (suc i) k o p q = Open-get P done keys i k o p q
  Open-get P (false ∷ done) (x ∷ keys) zero k o p q = let e : x ≡ k = cc in subst P e o.0
  Open-get P (false ∷ done) (x ∷ keys) (suc i) k o p q = Open-get P done keys i k o.1 p q

  pub Open-map :
      (P Q : Key fl → Type 0)
      → ((k : Key fl) → P k → Q k)
      → (done : List Bool) (keys : List (Key fl)) → Open P done keys
      → Open Q done keys
  Open-map P Q f [] keys o = tt
  Open-map P Q f (d ∷ done) [] o = tt
  Open-map P Q f (true ∷ done) (k ∷ keys) o = Open-map P Q f done keys o
  Open-map P Q f (false ∷ done) (k ∷ keys) o = (f k o.0, Open-map P Q f done keys o.1)

  -- Closing a vertex leaves fewer open ones.
  pub Open-close :
      (P : Key fl → Type 0) (i : ℕ) (done : List Bool) (keys : List (Key fl))
      → Open P done keys
      → Open P (set done i true) keys
  Open-close P i [] keys o = tt
  Open-close P zero (d ∷ done) [] o = tt
  Open-close P (suc i) (d ∷ done) [] o = tt
  Open-close P zero (true ∷ done) (k ∷ keys) o = o
  Open-close P zero (false ∷ done) (k ∷ keys) o = o.1
  Open-close P (suc i) (true ∷ done) (k ∷ keys) o = Open-close P i done keys o
  Open-close P (suc i) (false ∷ done) (k ∷ keys) o = (o.0, Open-close P i done keys o.1)

  pub get_elem?-set-true :
      (tree : List Bool) (c p : ℕ)
      → get_elem? tree p ≡ some true
      → get_elem? (set tree c true) p ≡ some true
  get_elem?-set-true [] c p h = h
  get_elem?-set-true (b ∷ tree) zero zero h = refl
  get_elem?-set-true (b ∷ tree) zero (suc p) h = h
  get_elem?-set-true (b ∷ tree) (suc c) zero h = h
  get_elem?-set-true (b ∷ tree) (suc c) (suc p) h = get_elem?-set-true tree c p h

  pub Joined-set :
      (tree : List Bool) (c : ℕ) (k : Key fl) → Joined tree k → Joined (set tree c true) k
  Joined-set tree c k (l, (p, e, t)) = (l, (p, e, get_elem?-set-true tree c p t))

  -- The distance of two queries is found, and finite.
  abbrev pub Reaches : (ℕ → ℕ → Run Float) → ℕ → ℕ → Type 0
  Reaches dist x g = (d : Float) × (dist x g ≡ ok d) × (lt d infinity ≡ true)

  Joined-update :
      (tree : List Bool) (c : ℕ) (d : Float) (k : Key fl)
      → get_elem? tree c ≡ some true
      → lt d infinity ≡ true
      → Near tree k
      → Joined tree (if lt d k.0 then (d, some c) else k)
  Joined-update tree c d k t finite near = elim (Bool-cases (lt d k.0)) [
    | inl e ↦ rw e (finite, (c, refl, t))
    | inr e ↦ elim near [
      | inl far ↦
          let below : lt d k.0 ≡ true = subst (λ (y : Float). lt d y ≡ true) (sym far) finite in cc
      | inr joined ↦ rw e joined
    ]
  ]

  pub relax_joins :
      (dist : ℕ → ℕ → Run Float) (tree : List Bool) (c x : ℕ) (group : List ℕ) (done : List Bool)
      (keys : List (Key fl))
      → get_elem? tree c ≡ some true
      → All (Reaches dist x) group
      → length done ≡ length group
      → length keys ≡ length group
      → Open (Near tree) done keys
      → (keys' : List (Key fl)) × (relax fl dist c x group done keys ≡ ok keys')
        × (length keys' ≡ length group)
        × Open (Joined tree) done keys'
  unfolding relax
  relax_joins dist tree c x [] [] keys t a s r o = ([], refl, refl, tt)
  relax_joins dist tree c x [] (d ∷ done) keys t a s r o = absurd (omega arith)
  relax_joins dist tree c x (g ∷ group) [] keys t a s r o = absurd (omega arith)
  relax_joins dist tree c x (g ∷ group) (d ∷ done) [] t a s r o = absurd (omega arith)
  relax_joins dist tree c x (g ∷ group) (true ∷ done) (k ∷ keys) t a s r o =
      let (keys', e, size, joined) =
        relax_joins dist tree c x group done keys t a.1 (omega arith) (omega arith) o in
      (k ∷ keys', rw e, omega arith, joined)
  relax_joins dist tree c x (g ∷ group) (false ∷ done) (k ∷ keys) t a s r o =
      let (d, here, finite) = a.0 in
      let (keys', e, size, joined) =
        relax_joins dist tree c x group done keys t a.1 (omega arith) (omega arith) o.1 in
      (
        (if lt d k.0 then (d, some c) else k) ∷ keys',
        rw (here, e),
        omega arith,
        (Joined-update tree c d k t finite o.0, joined),
      )
