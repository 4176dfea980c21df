-- ===== src/GroupMst/Select.antt =====
-- The scan for the next vertex.
use mqo_public.Prelude.{
  ℕ, zero, suc, ◌+◌, ◌≡◌, refl, sym, ap, subst, ◌∙◌, Bool, true, false, none, some, List, [], ◌∷◌,
  get_elem?, arith, ◌⊎◌, inl, inr,
}
use mqo_public.Floats.{Floats}
use mqo_public.GroupMst.{Key, Pick, consider, select, no_pick}

module _ (fl : Floats) where
  open fl use {Float, lt, infinity}

  -- The pick is the open vertex at `index`, of what was scanned from the vertex `i` on.
  pub record Picked (i : ℕ) (done : List Bool) (keys : List (Key fl)) (r : Pick fl) : Type 0 where
    pub at : ℕ
    pub curr : r.curr ≡ some (i + at)
    pub is_open : get_elem? done at ≡ some false
    pub key : get_elem? keys at ≡ some (r.best, r.parent)

  consider_cases :
      (j : ℕ) (d : Bool) (k : Key fl) (b : Pick fl)
      → (consider fl j d k b ≡ b)
        ⊎ (d ≡ false)
          × (lt k.0 b.best ≡ true)
          × (consider fl j d k b ≡ record { curr = some j; parent = k.1; best = k.0 })
  unfolding consider
  consider_cases j d k b = ground arith

  shift :
      (i : ℕ) (d : Bool) (done : List Bool) (k : Key fl) (keys : List (Key fl)) (r : Pick fl)
      → Picked (suc i) done keys r
      → Picked i (d ∷ done) (k ∷ keys) r
  shift i d done k keys r p = record {
    at = suc p.at;
    curr = p.curr ∙ ap some (omega arith);
    is_open = p.is_open;
    key = p.key;
  }

  pub select_lem :
      (i : ℕ) (done : List Bool) (keys : List (Key fl)) (b : Pick fl)
      → (select fl i done keys b ≡ b) ⊎ Picked i done keys (select fl i done keys b)
  unfolding select
  select_lem i [] keys b = inl refl
  select_lem i (d ∷ done) [] b = inl refl
  select_lem i (d ∷ done) (k ∷ keys) b = elim (select_lem (suc i) done keys (consider fl i d k b)) [
    | inr p ↦ inr (shift i d done k keys _ p)
    | inl same ↦ elim (consider_cases i d k b) [
      | inl kept ↦ inl (same ∙ kept)
      | inr (op, _, new) ↦ inr (record {
        at = 0;
        curr = ap (λ (r : Pick fl). r.curr) (same ∙ new) ∙ ap some (omega arith);
        is_open = ap some op;
        key = ap (λ (r : Pick fl). some (r.best, r.parent)) (sym (same ∙ new));
      })
    ]
  ]

  -- A vertex that was picked is only replaced by another one.
  select_keeps :
      (i : ℕ) (done : List Bool) (keys : List (Key fl)) (b : Pick fl) (c : ℕ)
      → b.curr ≡ some c
      → (c' : ℕ) × ((select fl i done keys b).curr ≡ some c')
  unfolding select
  select_keeps i [] keys b c h = (c, h)
  select_keeps i (d ∷ done) [] b c h = (c, h)
  select_keeps i (d ∷ done) (k ∷ keys) b c h = elim (consider_cases i d k b) [
    | inl kept ↦
        select_keeps (suc i) done keys (consider fl i d k b) c
          (ap (λ (r : Pick fl). r.curr) kept ∙ h)
    | inr (_, _, new) ↦
        select_keeps (suc i) done keys (consider fl i d k b) i (ap (λ (r : Pick fl). r.curr) new)
  ]

  consider_open :
      (i : ℕ) (d : Bool) (k : Key fl) (b : Pick fl) (key : Key fl)
      → b.best ≡ infinity
      → some d ≡ some false
      → some k ≡ some key
      → lt key.0 infinity ≡ true
      → (consider fl i d k b).curr ≡ some i
  unfolding consider
  consider_open i d k b key e p q l =
      let op : d ≡ false = cc in
      let same : k ≡ key = cc in
      let below : lt k.0 b.best ≡ true =
        subst (λ (x : Key fl). lt x.0 b.best ≡ true) (sym same)
          (subst (λ (y : Float). lt key.0 y ≡ true) (sym e) l) in
      ground arith

  -- An open vertex with a key below infinity is found, or another one is.
  select_finds :
      (i j : ℕ) (done : List Bool) (keys : List (Key fl)) (b : Pick fl) (key : Key fl)
      → b.best ≡ infinity
      → get_elem? done j ≡ some false
      → get_elem? keys j ≡ some key
      → lt key.0 infinity ≡ true
      → (c : ℕ) × ((select fl i done keys b).curr ≡ some c)
  unfolding select
  select_finds i j [] keys b key e p q l = cc
  select_finds i j (d ∷ done) [] b key e p q l = cc
  select_finds i zero (d ∷ done) (k ∷ keys) b key e p q l =
      select_keeps (suc i) done keys (consider fl i d k b) i (consider_open i d k b key e p q l)
  select_finds i (suc j) (d ∷ done) (k ∷ keys) b key e p q l = elim (consider_cases i d k b) [
    | inl kept ↦
        select_finds (suc i) j done keys (consider fl i d k b) key
          (ap (λ (r : Pick fl). r.best) kept ∙ e) p q l
    | inr (_, _, new) ↦
        select_keeps (suc i) done keys (consider fl i d k b) i (ap (λ (r : Pick fl). r.curr) new)
  ]

  -- From the start of a round: the pick is an open vertex.
  pub select_picks :
      (j : ℕ) (done : List Bool) (keys : List (Key fl)) (key : Key fl)
      → get_elem? done j ≡ some false
      → get_elem? keys j ≡ some key
      → lt key.0 infinity ≡ true
      → Picked 0 done keys (select fl 0 done keys (no_pick fl))
  select_picks j done keys key p q l =
      let (c, found) = select_finds 0 j done keys (no_pick fl) key refl p q l in
      elim (select_lem 0 done keys (no_pick fl)) [
        | inl same ↦ absurd (none-ne-some (sym (ap (λ (r : Pick fl). r.curr) same) ∙ found))
        | inr picked ↦ picked
      ]
    where
      none-ne-some : {c : ℕ} → ¬ (none ≡ some c)
      none-ne-some h = cc
