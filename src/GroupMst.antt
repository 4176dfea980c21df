-- ===== src/GroupMst.antt =====
-- mqo/lsh_mst_opt.hpp, the body of the loop in `computeMSTs`: Prim's algorithm on one group of
-- queries, with a scan for the next vertex. `dist` is the distance of two queries.
pub mod Select
pub mod Relax
pub mod Taken
pub mod Rounds
pub mod Tree
use mqo_public.Prelude.{
  ℕ, zero, suc, Bool, true, false, not, ◌&&◌, Option, none, some, List, [], ◌∷◌, ◌++◌, length, set,
  replicate, Run, ok, index, expect, out_of_bounds, ◌>>=◌, if◌then◌else◌,
}
use mqo_public.Floats.{Floats}
use mqo_public.Trajectory.{Edge}

module _ (fl : Floats) where
  open fl use {Float, lt, add, infinity, zero as float_zero}

  -- `vector<pair<float, int>> key`: the best edge into the tree so far.
  abbrev pub Key : Type 0
  Key = Float × Option ℕ

  -- The variables `curr`, `parent` and `best` of a round.
  pub record Pick : Type 0 where
    pub curr : Option ℕ
    pub parent : Option ℕ
    pub best : Float

  -- `if (!inMST[j] && key[j].first < best)`
  unfoldable pub consider : ℕ → Bool → Key → Pick → Pick
  consider j d k b =
      if not d && lt k.0 b.best then (record { curr = some j; parent = k.1; best = k.0 }) else b

  -- `for (j = 0; j < n; j++)`: the scan, from index `j` on.
  unfoldable pub select : ℕ → List Bool → List Key → Pick → Pick
  unfolding consider
  select j [] keys b = b
  select j (d ∷ done) [] b = b
  select j (d ∷ done) (k ∷ keys) b = select (suc j) done keys (consider j d k b)

  -- `for (v = 0; v < n; v++)`: the update of the keys, over what is left of the three vectors.
  unfoldable pub relax :
      (ℕ → ℕ → Run Float) → ℕ → ℕ → List ℕ → List Bool → List Key → Run (List Key)
  relax dist curr x [] done keys = ok []
  relax dist curr x (g ∷ group) [] keys = ok []
  relax dist curr x (g ∷ group) (d ∷ done) [] = ok []
  relax dist curr x (g ∷ group) (true ∷ done) (k ∷ keys) = do
    keys' ← relax dist curr x group done keys
    ok (k ∷ keys')
  relax dist curr x (g ∷ group) (false ∷ done) (k ∷ keys) = do
    d ← dist x g
    keys' ← relax dist curr x group done keys
    ok ((if lt d k.0 then (d, some curr) else k) ∷ keys')

  -- `parent != -1 ? group[parent] : -1`
  unfoldable pub parent_of : List ℕ → Option ℕ → Run (Option ℕ)
  parent_of group none = ok none
  parent_of group (some p) = do g ← index group p; ok (some g)

  abbrev pub no_pick : Pick
  no_pick = record { curr = none; parent = none; best = infinity }

  module _ {W : Type 0} (plus : W → Float → W) where
    -- `for (i = 0; i < n; i++)` with `k` rounds left: the weight, which grows by `plus`, and the
    -- trajectory. With no vertex found `curr` is -1, and `inMST[-1]` is written.
    unfoldable pub prim_rounds :
        (ℕ → ℕ → Run Float)
        → List ℕ
        → ℕ
        → List Bool
        → List Key
        → W
        → List Edge
        → Run (W × List Edge)
    unfolding select relax parent_of
    prim_rounds dist group zero done keys weight out = ok (weight, out)
    prim_rounds dist group (suc k) done keys weight out = do
      let pick = select 0 done keys no_pick
      curr ← expect pick.curr out_of_bounds
      key ← index keys curr
      x ← index group curr
      p ← parent_of group pick.parent
      keys' ← relax dist curr x group (set done curr true) keys
      prim_rounds dist group k (set done curr true) keys' (plus weight key.0) (out ++ (x, p) ∷ [])

    -- `vector key(n, {infinity, -1}); key[0] = {0, -1};` and the rounds. An empty group has no
    -- `key[0]`.
    unfoldable pub prim_from : W → (ℕ → ℕ → Run Float) → List ℕ → List Edge → Run (W × List Edge)
    unfolding prim_rounds
    prim_from start dist [] out = Run.err out_of_bounds
    prim_from start dist (g ∷ group) out =
        prim_rounds dist (g ∷ group) (length (g ∷ group)) (replicate (length (g ∷ group)) false)
          ((float_zero, none) ∷ replicate (length group) (infinity, none)) start out

  -- `computeMSTs` adds up the weights as floats.
  unfoldable pub prim_group : (ℕ → ℕ → Run Float) → List ℕ → List Edge → Run (Float × List Edge)
  unfolding prim_from
  prim_group dist group out = prim_from add float_zero dist group out
