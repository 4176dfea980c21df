-- ===== src/GroupMst/Tree.antt =====
-- A group of queries gets one tree.
use mqo_public.Prelude.{
  ℕ, zero, suc, ◌+◌, ◌≡◌, refl, ap, ◌∙◌, Bool, true, false, none, some, List, [], ◌∷◌, ◌++◌, length,
  length-append, length-replicate, count, count_if-append, replicate, Run, ok, arith, inl,
  count-append,
}
use mqo_public.Floats.{Floats}
use mqo_public.Trajectory.{Edge, nodes, is_root, ParentsFirst}
use mqo_public.Trajectory.Forest.{ParentsFirst-snoc, nodes-append}
use mqo_public.GroupMst.{Key, Pick, consider, select, parent_of, no_pick, prim_from}
use mqo_public.GroupMst.Taken.{taken, opens-replicate, taken-replicate, roots}
use mqo_public.GroupMst.Relax.{Near, Open, relax_joins}
use mqo_public.GroupMst.Rounds.{IsInfinity, AllReach, step_eq, Spans, rounds_span}

module _ (fl : Floats) (laws : IsInfinity fl) where
  open fl use {Float, lt, add, infinity, zero as float_zero}

  abbrev pub first : Pick fl
  first = record { curr = some 0; parent = none; best = float_zero }

  -- Vertices at infinity do not replace the pick.
  select_far :
      (i m : ℕ) (b : Pick fl) → select fl i (replicate m false) (replicate m (infinity, none)) b ≡ b
  unfolding select consider
  select_far i zero b = refl
  select_far i (suc m) b = rw (laws.not_below b.best) (select_far (suc i) m b)

  pub select-first :
      (m : ℕ)
      → select fl 0
          (false ∷ replicate m false)
          ((float_zero, none) ∷ replicate m (infinity, none))
          (no_pick fl)
        ≡ first
  unfolding select consider
  select-first m =
      ap (select fl 1 (replicate m false) (replicate m (infinity, none)))
        (rw laws.zero_below (refl {a = first}))
      ∙ select_far 1 m first

  Open-far :
      (tree : List Bool) (m : ℕ)
      → Open fl (Near fl tree) (replicate m false) (replicate m (infinity, none))
  Open-far tree zero = tt
  Open-far tree (suc m) = (inl refl, Open-far tree m)

  module _ (dist : ℕ → ℕ → Run Float) (g : ℕ) (rest : List ℕ) where
    parent_none : parent_of fl (g ∷ rest) none ≡ ok none
    unfolding parent_of
    parent_none = refl

    written_first :
        (v : ℕ) (out : List Edge)
        → count v (nodes (out ++ (g, none) ∷ []))
          ≡ count v (nodes out) + count v (taken (g ∷ rest) (true ∷ replicate (length rest) false))
    written_first v out =
        rw (nodes-append out ((g, none) ∷ []), taken-replicate rest (length rest))
          (count-append v (nodes out) (g ∷ []))

    -- Prim's algorithm on a group whose distances are found and finite ends without a fault. It
    -- adds one tree of the queries of the group to what is written, parents first.
    pub prim_from_lem :
        {W : Type 0} (plus : W → Float → W) (start : W) (out : List Edge)
        → AllReach fl dist (g ∷ rest)
        → ParentsFirst [] out
        → (w : W) × (out' : List Edge) × (prim_from fl plus start dist (g ∷ rest) out
            ≡ ok (w, out'))
          × Spans fl plus dist
              (g ∷ rest)
              (λ v. count v (nodes out))
              (suc (roots out))
              (length out + length (g ∷ rest))
              out'
    unfolding prim_from
    prim_from_lem plus start out reach ordered =
        let m = length rest in
        let done : List Bool = true ∷ replicate m false in
        let keys : List (Key fl) = (float_zero, none) ∷ replicate m (infinity, none) in
        let (keys', relaxed, size, joined) =
          relax_joins fl dist done 0 g (g ∷ rest) done keys refl reach.0
            (ap suc (length-replicate m false)) (ap suc (length-replicate m (infinity, none)))
            (Open-far done m) in
        let step =
          step_eq fl plus dist (g ∷ rest) m 0 (false ∷ replicate m false) keys start out g
            (float_zero, none) none none keys' (ap (λ (r : Pick fl). r.curr) (select-first m))
            (ap (λ (r : Pick fl). r.parent) (select-first m)) refl refl parent_none relaxed in
        let (w, out', e, spans) =
          rounds_span fl plus dist (g ∷ rest) reach m (λ v. count v (nodes out)) (suc (roots out))
            (length out + length (g ∷ rest)) done keys' (plus start float_zero)
            (out ++ (g, none) ∷ [])
            (record {
              flags = ap suc (length-replicate m false);
              slots = size;
              left = opens-replicate m;
              joined = joined;
              ordered = ParentsFirst-snoc out g none ordered tt;
              written = λ v. written_first v out;
              rooted = omega (arith, count_if-append (λ e. is_root e.1) out ((g, none) ∷ []));
              sized = omega (arith, length-append out ((g, none) ∷ []));
            }) in
        (w, out', step ∙ e, spans)
