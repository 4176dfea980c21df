-- ===== src/Mixed/Trees.antt =====
-- The tree of a small group.
use mqo_public.Prelude.{
  ℕ, ◌-◌, ◌<◌, ◌≡◌, refl, List, [], ◌∷◌, length, count, get_elem?-lt, count_pos_of_get, Run, ok,
  index, ◌>>=◌, arith,
}
use mqo_public.Floats.{Floats}
use mqo_public.Trajectory.{Edge, nodes, VisitsOnce, IsTrajectory}
use mqo_public.Trajectory.Forest.{length-nodes}
use mqo_public.Checker.Pigeonhole.{VisitsOnce-length}
use mqo_public.GroupMst.Relax.{Reaches}
use mqo_public.GroupMst.Rounds.{IsInfinity}
use mqo_public.GroupMst.Tree.{prim_from_lem}
use mqo_public.Lsh.{iota}
use mqo_public.Lsh.Split.{count-iota}
use mqo_public.Lsh.Forest.{Reaches-all}
use mqo_public.Mixed.{small_tree}

module _ (fl : Floats) (laws : IsInfinity fl) (dist : ℕ → ℕ → Run fl.Float) (n : ℕ)
    (close : (i j : ℕ) → i < n → j < n → Reaches fl dist i j) where
  -- The distance of two positions of a group.
  abbrev at_positions : List ℕ → ℕ → ℕ → Run fl.Float
  at_positions group curr v = index group curr >>= λ a. index group v >>= λ b. dist a b

  positions-close :
      (group : List ℕ)
      → ((v : ℕ) → 0 < count v group → v < n)
      → (i j : ℕ) → i < length group
      → j < length group
      → Reaches fl (at_positions group) i j
  positions-close group inside i j p q =
      let (a, ea) = get_elem?-lt group i p in
      let (b, eb) = get_elem?-lt group j q in
      let (d, found, finite) =
        close a b (inside a (count_pos_of_get group i a ea))
          (inside b (count_pos_of_get group j b eb)) in
      (d, rw (ea, eb) found, finite)

  -- The tree of a group of queries below n with finite distances is found.
  pub small_tree_lem :
      (group : List ℕ)
      → 1 < length group
      → ((v : ℕ) → 0 < count v group → v < n)
      → (t : List Edge) × (w : fl.Double) × (small_tree fl dist group ≡ ok (t, w))
        × IsTrajectory (length group) t
  unfolding small_tree iota
  small_tree_lem [] two inside = absurd (omega (arith, two))
  small_tree_lem (g ∷ group) two inside =
      let k = length (g ∷ group) in
      let reach =
        Reaches-all fl (at_positions (g ∷ group)) k (iota k 0) (positions-close (g ∷ group) inside)
          (λ v h. ground (arith, h, count-iota v k 0)) in
      let (w, t, ends, (ordered, counts, rooted, sized)) =
        prim_from_lem fl laws (at_positions (g ∷ group)) 0 (iota (length group) 1)
          (λ w key. fl.d_add w (fl.to_double key)) (fl.d_of_int 0) [] reach tt in
      let once : VisitsOnce k (nodes t) = λ v. ground (arith, counts v, count-iota v k 0) in
      (
        t,
        fl.d_div w (fl.d_of_int (k - 1)),
        rw ends refl,
        record {
          size = omega (arith, length-nodes t, VisitsOnce-length k (nodes t) once);
          visits = once;
          ordered = ordered;
        },
      )
