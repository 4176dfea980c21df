-- ===== src/AnnBuild.antt =====
-- mqo/ann/build_ann.hpp and mqo/ann/build_ann_base_only.hpp: an HNSW index is made and the rows of
-- the array are added to it, one by one. hnswlib is a parameter.
pub mod Laws
use mqo_public.Prelude.{
  ℕ, zero, suc, ◌+◌, ◌*◌, Bool, true, false, Option, none, some, ltb, if◌then◌else◌, List, [], ◌∷◌,
  Run, ok, index, ◌>>=◌,
}
use mqo_public.Floats.{Floats}
use mqo_public.Distance.{int_of}
use mqo_public.AnnMst.{Hnsw}

-- `L2Space` and `InnerProductSpace`.
pub data Space : Type 0 where
  l2 ip : Space

-- The `dim` floats that a pointer points to, from `start` on.
unfoldable pub read_row : {A : Type 0} → List A → ℕ → ℕ → Run (List A)
read_row points start zero = ok []
read_row points start (suc k) = do
  x ← index points start
  rest ← read_row points (suc start) k
  ok (x ∷ rest)

module _ (fl : Floats) where
  open fl use {Float}

  -- What the code calls of hnswlib: the constructor and `addPoint`, and what `addPoint_modified` uses of
  -- it: the fields that it reads and writes, `searchBaseLayerST_logging` and
  -- `mutuallyConnectNewElement_logging`. `open_slot` is the writing of a new element without links
  -- into the memory of the index: the count, the label, the level 0 and the vector.
  pub record HnswLib : Type 1 where
    pub Index : Type 0
    pub create : Space → (max_elements m ef_construction : ℕ) → Index
    pub add_point : List Float → ℕ → Index → Run Index
    pub Candidates : Type 0
    pub cur_element_count : Index → ℕ
    pub enterpoint_node : Index → Option ℕ
    pub links_and_ef : Index → ℕ × ℕ
    pub open_slot : List Float → ℕ → Index → Run Index
    pub set_enterpoint : ℕ → Index → Index
    pub search_base_layer : ℕ → List Float → ℕ → Index → Candidates
    pub connect : List Float → ℕ → Candidates → Index → Run Index
    pub view : Index → Hnsw fl

  module _ (lib : HnswLib) where
    open lib use {
      Index, create, add_point, cur_element_count, enterpoint_node, links_and_ef, open_slot,
      set_enterpoint, search_base_layer, connect,
    }

    -- `ef_base = std::max(M_, ef_construction_)`
    pub ef_base : Index → ℕ
    ef_base hnsw = let (links, ef) = links_and_ef hnsw in if ltb links ef then ef else links

    -- `addPoint_modified`: the new element becomes the entry point, or is connected with what the search
    -- from the entry point finds. The log of distances is not modelled here.
    pub add_point_modified : List Float → ℕ → Index → Run Index
    unfolding ef_base
    add_point_modified vec label hnsw = do
      let cur_c = cur_element_count hnsw
      opened ← open_slot vec label hnsw
      elim (enterpoint_node opened) [
        | none ↦ ok (set_enterpoint cur_c opened)
        | some entry ↦
            connect vec cur_c (search_base_layer entry vec (ef_base opened) opened) opened
      ]

    -- `for (i = 0; i < num_elements; i++) alg_hnsw->addPoint(points+i*dim, i)`, from `i` on.
    pub add_points : List Float → ℕ → ℕ → ℕ → Index → Run Index
    unfolding read_row
    add_points points dim zero i hnsw = ok hnsw
    add_points points dim (suc k) i hnsw = do
      start ← int_of (i * dim)
      vec ← read_row points start dim
      hnsw' ← add_point vec i hnsw
      add_points points dim k (suc i) hnsw'

    pub build_ann_full_l2 : List Float → ℕ → ℕ → ℕ → ℕ → Run Index
    unfolding add_points
    build_ann_full_l2 points n dim m ef = add_points points dim n 0 (create l2 n m ef)

    pub build_ann_full_ip : List Float → ℕ → ℕ → ℕ → ℕ → Run Index
    unfolding add_points
    build_ann_full_ip points n dim m ef = add_points points dim n 0 (create ip n m ef)

    -- `for (size_t i = 0; i < max_elements; i++) add(data + i * dim, i)`, from `i` on: the offsets are
    -- `size_t`.
    unfoldable pub add_rows :
        (List Float → ℕ → Index → Run Index) → List Float → ℕ → ℕ → ℕ → Index → Run Index
    unfolding read_row
    add_rows add points dim zero i hnsw = ok hnsw
    add_rows add points dim (suc k) i hnsw = do
      vec ← read_row points (i * dim) dim
      hnsw' ← add vec i hnsw
      add_rows add points dim k (suc i) hnsw'

    -- The loop of `build_ann_base_only`.
    pub add_points_modified : List Float → ℕ → ℕ → ℕ → Index → Run Index
    unfolding add_rows add_point_modified
    add_points_modified points dim k i hnsw = add_rows add_point_modified points dim k i hnsw

    pub build_ann_base_only : List Float → ℕ → ℕ → ℕ → ℕ → Run Index
    unfolding add_points_modified
    build_ann_base_only points n dim m ef = add_points_modified points dim n 0 (create l2 n m ef)

    -- The choice of the callers.
    unfoldable pub build_ann : Bool → Bool → List Float → ℕ → ℕ → ℕ → ℕ → Run Index
    unfolding build_ann_base_only build_ann_full_l2 build_ann_full_ip
    build_ann true use_l2 points n dim m ef = build_ann_base_only points n dim m ef
    build_ann false true points n dim m ef = build_ann_full_l2 points n dim m ef
    build_ann false false points n dim m ef = build_ann_full_ip points n dim m ef
