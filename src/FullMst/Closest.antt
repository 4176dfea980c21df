-- ===== src/FullMst/Closest.antt =====
-- The search and the update of `get_mst`, which keeps distances and parents apart, do what those of
-- Prim's algorithm do with keys, over `double`.
use mqo_public.Prelude.{
  ℕ, zero, suc, ◌+◌, ◌≡◌, refl, sym, ap, ◌∙◌, subst, Bool, true, false, Option, none, some, List,
  [], ◌∷◌, map, length, get_elem?, Run, ok, bind_ok, expect_ok, index, out_of_bounds, ◌>>=◌,
  if◌then◌else◌, arith,
}
use mqo_public.Floats.{Floats}
use mqo_public.Trajectory.{Edge}
use mqo_public.GroupMst.{Key, Pick, consider, select, relax, parent_of}
use mqo_public.Lsh.{iota}
use mqo_public.FullMst.{closest, update}

-- The numbers of `get_mst`: its `float` operations are those of `double`.
abbrev pub doubles : Floats → Floats
doubles fl = record fl {
  Float = fl.Double;
  zero = fl.d_of_int 0;
  one = fl.d_of_int 1;
  infinity = fl.d_infinity;
  lt = fl.d_lt;
  add = fl.d_add;
  sub = fl.d_sub;
  mul = fl.d_mul;
  div = fl.d_div;
  root = fl.d_root;
  of_int = fl.d_of_int;
  to_double = λ x. x;
}

-- The edges to a parent.
abbrev pub links : List Edge → List Edge
links [] = []
links ((v, none) ∷ t) = links t
links ((v, some p) ∷ t) = (v, some p) ∷ links t

module _ (fl : Floats) where
  abbrev pub dists : List (Key (doubles fl)) → List fl.Double
  dists keys = map (λ (k : Key (doubles fl)). k.0) keys

  abbrev pub parents : List (Key (doubles fl)) → List (Option ℕ)
  parents keys = map (λ (k : Key (doubles fl)). k.1) keys

  pub closest-select :
      (i : ℕ) (visited : List Bool) (keys : List (Key (doubles fl))) (b : Pick (doubles fl))
      → closest fl i visited (dists keys) b.curr b.best
        ≡ ((select (doubles fl) i visited keys b).curr, (select (doubles fl) i visited keys b).best)
  unfolding closest select consider
  closest-select i [] keys b = refl
  closest-select i (true ∷ visited) [] b = refl
  closest-select i (false ∷ visited) [] b = refl
  closest-select i (true ∷ visited) (k ∷ keys) b = closest-select (suc i) visited keys b
  closest-select i (false ∷ visited) (k ∷ keys) b =
      let new : Pick (doubles fl) = record { curr = some i; parent = k.1; best = k.0 } in
      elim (fl.d_lt k.0 b.best)
        as (λ t.
          closest fl (suc i) visited (dists keys) (if t then some i else b.curr)
            (if t then k.0 else b.best)
          ≡ (
            (select (doubles fl) (suc i) visited keys (if t then new else b)).curr,
            (select (doubles fl) (suc i) visited keys (if t then new else b)).best,
          )) [
            | true ↦ closest-select (suc i) visited keys new
            | false ↦ closest-select (suc i) visited keys b
          ]

  -- The update of the two vectors is that of the pairs.
  pub update-relax :
      (cost_of : ℕ → ℕ → Run fl.Double) (u m j : ℕ) (visited : List Bool)
      (keys keys' : List (Key (doubles fl)))
      → length visited ≡ m
      → length keys ≡ m
      → relax (doubles fl) cost_of u u (iota m j) visited keys ≡ ok keys'
      → (length keys' ≡ m)
        × (update fl (cost_of u) u j visited (dists keys) (parents keys)
            ≡ ok (dists keys', parents keys'))
  unfolding update relax iota
  update-relax cost_of u zero j [] [] [] s r h = (refl, refl)
  update-relax cost_of u zero j [] [] (k ∷ keys') s r h = cc
  update-relax cost_of u zero j (v ∷ visited) keys keys' s r h = absurd (omega (arith, s))
  update-relax cost_of u zero j [] (k ∷ keys) keys' s r h = absurd (omega (arith, r))
  update-relax cost_of u (suc m) j [] keys keys' s r h = absurd (omega (arith, s))
  update-relax cost_of u (suc m) j (v ∷ visited) [] keys' s r h = absurd (omega (arith, r))
  update-relax cost_of u (suc m) j (true ∷ visited) (k ∷ keys) keys' s r h =
      let (ks, e, e') =
        bind_ok (relax (doubles fl) cost_of u u (iota m (suc j)) visited keys) (λ ks. ok (k ∷ ks))
          keys' h in
      let (size, same) =
        update-relax cost_of u m (suc j) visited keys ks (omega (arith, s)) (omega (arith, r)) e in
      let out : k ∷ ks ≡ keys' = cc in
      (subst (λ ks. length ks ≡ suc m) out (ap suc size), rw (sym out, same) refl)
  update-relax cost_of u (suc m) j (false ∷ visited) (k ∷ keys) keys' s r h =
      let (c, here, h') =
        bind_ok (cost_of u j)
          (λ c. relax (doubles fl) cost_of u u (iota m (suc j)) visited keys >>= λ ks.
            ok ((if fl.d_lt c k.0 then (c, some u) else k) ∷ ks))
          keys' h in
      let (ks, e, e') =
        bind_ok (relax (doubles fl) cost_of u u (iota m (suc j)) visited keys)
          (λ ks. ok ((if fl.d_lt c k.0 then (c, some u) else k) ∷ ks)) keys' h' in
      let (size, same) =
        update-relax cost_of u m (suc j) visited keys ks (omega (arith, s)) (omega (arith, r)) e in
      let out : (if fl.d_lt c k.0 then (c, some u) else k) ∷ ks ≡ keys' = cc in
      (
        subst (λ ks. length ks ≡ suc m) out (ap suc size),
        rw (here, same)
            (apart (fl.d_lt c k.0) c u k ks ∙ ap (λ out. ok (dists out, parents out)) out),
      )
    where
      apart :
          (t : Bool) (c : fl.Double) (u : ℕ) (k : Key (doubles fl)) (ks : List (Key (doubles fl)))
          → ◌≡◌ {A = Run (List fl.Double × List (Option ℕ))}
              (ok ((if t then c else k.0) ∷ dists ks, (if t then some u else k.1) ∷ parents ks))
              (ok (
                dists ((if t then (c, some u) else k) ∷ ks),
                parents ((if t then (c, some u) else k) ∷ ks),
              ))
      apart true c u k ks = refl
      apart false c u k ks = refl

  pub get_elem?-iota : (n i q g : ℕ) → get_elem? (iota n i) q ≡ some g → i + q ≡ g
  unfolding iota
  get_elem?-iota zero i q g h = cc
  get_elem?-iota (suc n) i zero g h = let e : i ≡ g = cc in omega (arith, e)
  get_elem?-iota (suc n) i (suc q) g h = omega (arith, get_elem?-iota n (suc i) q g h)

  pub parent_of-iota : (n : ℕ) (o p : Option ℕ) → parent_of (doubles fl) (iota n 0) o ≡ ok p → o ≡ p
  unfolding parent_of
  parent_of-iota n none p h = cc
  parent_of-iota n (some q) p h =
      let (g, e, e') = bind_ok (index (iota n 0) q) (λ g. ok (some g)) p h in
      let same : q ≡ g =
        omega
          (arith, get_elem?-iota n 0 q g (expect_ok (get_elem? (iota n 0) q) out_of_bounds g e)) in
      cc

  pub get_elem?-parents :
      (keys : List (Key (doubles fl))) (c : ℕ) (k : Key (doubles fl))
      → get_elem? keys c ≡ some k
      → get_elem? (parents keys) c ≡ some k.1
  get_elem?-parents [] c k h = cc
  get_elem?-parents (x ∷ keys) zero k h =
      let e : x ≡ k = cc in ap (λ (y : Key (doubles fl)). some y.1) e
  get_elem?-parents (x ∷ keys) (suc c) k h = get_elem?-parents keys c k h
