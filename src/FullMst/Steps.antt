-- ===== src/FullMst/Steps.antt =====
-- `get_mst` keeps distances and parents apart: step by step it does what Prim's algorithm on the one
-- group of all queries does, over `double`.
use mqo_public.Prelude.{
  ℕ, zero, suc, ◌+◌, ◌≡◌, refl, sym, ap, ◌∙◌, subst, Bool, true, Option, none, some, List, [], ◌∷◌,
  ◌++◌, length, length-set, set, get_elem?, append-nil, append_assoc, Run, ok, bind_ok, expect_ok,
  index, expect, out_of_bounds, ◌>>=◌, arith, inl, inr,
}
use mqo_public.Floats.{Floats}
use mqo_public.Trajectory.{Edge}
use mqo_public.GroupMst.{Key, Pick, select, relax, parent_of, no_pick, prim_rounds}
use mqo_public.GroupMst.Select.{select_lem}
use mqo_public.Lsh.{iota}
use mqo_public.FullMst.{closest, update, record_edge, full_rounds}
use mqo_public.FullMst.Closest.{
  doubles, links, dists, parents, closest-select, update-relax, get_elem?-iota, parent_of-iota,
  get_elem?-parents,
}

module _ (fl : Floats) where
  module _ (use_l2 : Bool) (cost_of : ℕ → ℕ → Run fl.Double) where
    full_step :
        (k u : ℕ) (visited : List Bool) (dist dist' : List fl.Double)
        (parent parent' : List (Option ℕ)) (total : fl.Double) (edges : List Edge)
        (best : fl.Double) (p : Option ℕ)
        → (closest fl 0 visited dist none fl.d_infinity).0 ≡ some u
        → (closest fl 0 visited dist none fl.d_infinity).1 ≡ best
        → get_elem? parent u ≡ some p
        → update fl (cost_of u) u 0 (set visited u true) dist parent ≡ ok (dist', parent')
        → full_rounds fl use_l2 cost_of (suc k) visited dist parent total edges
          ≡ full_rounds fl use_l2 cost_of k
              (set visited u true)
              dist'
              parent'
              (record_edge fl use_l2 u p best total edges).0
              (record_edge fl use_l2 u p best total edges).1
    unfolding full_rounds
    full_step k u visited dist dist' parent parent' total edges best p h₁ h₁' h₂ h₃ =
        rw (full_rounds, h₁, h₂, h₃, h₁') refl

    record_edge-links :
        (u : ℕ) (p : Option ℕ) (best total : fl.Double) (edges more : List Edge)
        → (record_edge fl use_l2 u p best total edges).1 ++ links more
          ≡ edges ++ links ((u, p) ∷ more)
    unfolding record_edge
    record_edge-links u none best total edges more = refl
    record_edge-links u (some p) best total edges more =
        append_assoc edges ((u, some p) ∷ []) (links more)

    module _ {W : Type 0} (plus : W → fl.Double → W) (n : ℕ) where
      round_inv :
          (k : ℕ) (visited : List Bool) (keys : List (Key (doubles fl))) (w : W) (out : List Edge)
          (r : W × List Edge)
          → prim_rounds (doubles fl) plus cost_of (iota n 0) (suc k) visited keys w out ≡ ok r
          → (c : ℕ) × (p : Option ℕ) × (w' : W) × (keys' : List (Key (doubles fl))) × ((select
                (doubles fl)
                0
                visited
                keys
                (no_pick (doubles fl))).curr
              ≡ some c)
            × ((select (doubles fl) 0 visited keys (no_pick (doubles fl))).parent ≡ p)
            × (relax (doubles fl) cost_of c c (iota n 0) (set visited c true) keys ≡ ok keys')
            × (prim_rounds
                  (doubles fl)
                  plus
                  cost_of
                  (iota n 0)
                  k
                  (set visited c true)
                  keys'
                  w'
                  (out ++ (c, p) ∷ [])
                ≡ ok r)
      unfolding prim_rounds
      round_inv k visited keys w out r h =
          let pick = select (doubles fl) 0 visited keys (no_pick (doubles fl)) in
          let rounds : ℕ
              → Key (doubles fl)
              → ℕ
              → Option ℕ
              → List (Key (doubles fl))
              → Run (W × List Edge) =
            λ c key x p keys'.
              prim_rounds (doubles fl) plus cost_of (iota n 0) k (set visited c true) keys'
                (plus w key.0) (out ++ (x, p) ∷ []) in
          let (c, e₁, h₁) =
            bind_ok (expect pick.curr out_of_bounds)
              (λ c. index keys c >>= λ key. index (iota n 0) c >>= λ x.
                parent_of (doubles fl) (iota n 0) pick.parent >>= λ p.
                relax (doubles fl) cost_of c x (iota n 0) (set visited c true) keys
                >>= rounds c key x p)
              r h in
          let (key, e₂, h₂) =
            bind_ok (index keys c)
              (λ key. index (iota n 0) c >>= λ x.
                parent_of (doubles fl) (iota n 0) pick.parent >>= λ p.
                relax (doubles fl) cost_of c x (iota n 0) (set visited c true) keys
                >>= rounds c key x p)
              r h₁ in
          let (x, e₃, h₃) =
            bind_ok (index (iota n 0) c)
              (λ x. parent_of (doubles fl) (iota n 0) pick.parent >>= λ p.
                relax (doubles fl) cost_of c x (iota n 0) (set visited c true) keys
                >>= rounds c key x p)
              r h₂ in
          let (p, e₄, h₄) =
            bind_ok (parent_of (doubles fl) (iota n 0) pick.parent)
              (λ p.
                relax (doubles fl) cost_of c x (iota n 0) (set visited c true) keys
                >>= rounds c key x p)
              r h₃ in
          let (keys', e₅, h₅) =
            bind_ok (relax (doubles fl) cost_of c x (iota n 0) (set visited c true) keys)
              (rounds c key x p) r h₄ in
          let same : c ≡ x = omega (
            arith,
            get_elem?-iota fl n 0 c x (expect_ok (get_elem? (iota n 0) c) out_of_bounds x e₃),
          ) in
          (
            c,
            p,
            plus w key.0,
            keys',
            expect_ok pick.curr out_of_bounds c e₁,
            parent_of-iota fl n pick.parent p e₄,
            subst
                (λ y.
                  relax (doubles fl) cost_of c y (iota n 0) (set visited c true) keys ≡ ok keys')
                (sym same) e₅,
            subst
                (λ y.
                  prim_rounds (doubles fl) plus cost_of (iota n 0) k (set visited c true) keys'
                    (plus w key.0) (out ++ (y, p) ∷ [])
                  ≡ ok r)
                (sym same) h₅,
          )

      -- Where Prim's algorithm on the group ends well, so does the loop of `get_mst`, and it records the
      -- edges of the pairs that the group gets.
      pub full_rounds_lem :
          (k : ℕ) (visited : List Bool) (keys : List (Key (doubles fl))) (w : W)
          (out out' : List Edge) (w' : W) (total : fl.Double) (edges : List Edge)
          → length visited ≡ n
          → length keys ≡ n
          → prim_rounds (doubles fl) plus cost_of (iota n 0) k visited keys w out ≡ ok (w', out')
          → (more : List Edge) × (out' ≡ out ++ more)
            × ((total' : fl.Double) × (full_rounds fl use_l2 cost_of k visited
                    (dists fl keys)
                    (parents fl keys)
                    total
                    edges
                  ≡ ok (total', edges ++ links more)))
      unfolding prim_rounds full_rounds
      full_rounds_lem zero visited keys w out out' w' total edges s r h =
          let e : out' ≡ out = cc in
          (
            [],
            e ∙ sym (append-nil out),
            (total, ap (λ es. ok (total, es)) (sym (append-nil edges))),
          )
      full_rounds_lem (suc k) visited keys w out out' w' total edges s r h =
          let (c, p, w₁, keys', found, from, relaxed, left) =
            round_inv k visited keys w out (w', out') h in
          let pick = select (doubles fl) 0 visited keys (no_pick (doubles fl)) in
          elim (select_lem (doubles fl) 0 visited keys (no_pick (doubles fl))) [
            | inl same ↦
                absurd (none-ne-some (sym (ap (λ (r : Pick (doubles fl)). r.curr) same) ∙ found))
            | inr picked ↦
                let at : picked.at ≡ c =
                  let e : some (0 + picked.at) ≡ some c = sym picked.curr ∙ found in
                  ground (arith, e) in
                let key : get_elem? (parents fl keys) c ≡ some p =
                  subst (λ i. get_elem? (parents fl keys) i ≡ some p) at
                    (get_elem?-parents fl keys picked.at (pick.best, pick.parent) picked.key
                      ∙ ap some from) in
                let (size, updated) =
                  update-relax fl cost_of c n 0 (set visited c true) keys keys'
                    (length-set visited c true ∙ s) r relaxed in
                let (total₁, edges₁) = record_edge fl use_l2 c p pick.best total edges in
                let (more, out_eq, (total', ends)) =
                  full_rounds_lem k (set visited c true) keys' w₁ (out ++ (c, p) ∷ []) out' w'
                    total₁ edges₁ (length-set visited c true ∙ s) size left in
                (
                  (c, p) ∷ more,
                  out_eq ∙ append_assoc out ((c, p) ∷ []) more,
                  (
                    total',
                    full_step k c visited (dists fl keys) (dists fl keys') (parents fl keys)
                          (parents fl keys') total edges pick.best p
                          (ap (λ (r : Option ℕ × fl.Double). r.0)
                              (closest-select fl 0 visited keys (no_pick (doubles fl)))
                            ∙ found)
                          (ap (λ (r : Option ℕ × fl.Double). r.1)
                            (closest-select fl 0 visited keys (no_pick (doubles fl))))
                          key updated
                        ∙ ends
                        ∙ ap (λ es. ok (total', es))
                            (record_edge-links c p pick.best total edges more),
                  ),
                )
          ]
        where
          none-ne-some : {c : ℕ} → ¬ (none ≡ some c)
          none-ne-some h = cc

      -- The rounds only add to what is written.
      prim_rounds_adds :
          (k : ℕ) (visited : List Bool) (keys : List (Key (doubles fl))) (w w' : W)
          (out out' : List Edge)
          → prim_rounds (doubles fl) plus cost_of (iota n 0) k visited keys w out ≡ ok (w', out')
          → (more : List Edge) × (out' ≡ out ++ more)
      unfolding prim_rounds
      prim_rounds_adds zero visited keys w w' out out' h =
          ([], let e : out' ≡ out = cc in e ∙ sym (append-nil out))
      prim_rounds_adds (suc k) visited keys w w' out out' h =
          let (c, p, w₁, keys', _, _, _, left) = round_inv k visited keys w out (w', out') h in
          let (more, e) =
            prim_rounds_adds k (set visited c true) keys' w₁ w' (out ++ (c, p) ∷ []) out' left in
          ((c, p) ∷ more, e ∙ append_assoc out ((c, p) ∷ []) more)

      -- The first pair is that of the vertex that is picked first.
      pub prim_rounds-first :
          (k c : ℕ) (p : Option ℕ) (visited : List Bool) (keys : List (Key (doubles fl))) (w w' : W)
          (out' : List Edge)
          → (select (doubles fl) 0 visited keys (no_pick (doubles fl))).curr ≡ some c
          → (select (doubles fl) 0 visited keys (no_pick (doubles fl))).parent ≡ p
          → prim_rounds (doubles fl) plus cost_of (iota n 0) (suc k) visited keys w []
            ≡ ok (w', out')
          → (more : List Edge) × (out' ≡ (c, p) ∷ more)
      prim_rounds-first k c p visited keys w w' out' at from h =
          let (c', p', w₁, keys', found, from', _, left) =
            round_inv k visited keys w [] (w', out') h in
          let (more, e) =
            prim_rounds_adds k (set visited c' true) keys' w₁ w' ((c', p') ∷ []) out' left in
          let same : c' ≡ c = cc in
          let same' : p' ≡ p = sym from' ∙ from in (more, e ∙ rw (same, same') refl)
