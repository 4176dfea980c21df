-- ===== src/AnnBuild/Laws.antt =====
-- What hnswlib's documentation says of an index, and that the rows of an array can be added to it.
use mqo_public.Prelude.{
  ℕ, zero, suc, ◌+◌, ◌*◌, ◌<◌, ◌≤◌, ◌≡◌, refl, ap, ◌∙◌, Bool, true, false, List, [], ◌∷◌, ◌++◌,
  length, get_elem?-lt, some, Option-cases, inl, inr, All, Run, ok, arith,
}
use mqo_public.Floats.{Floats}
use mqo_public.Distance.{int_limit}
use mqo_public.Distance.Bounds.{int_of_ok}
use mqo_public.AnnBuild.{
  Space, read_row, HnswLib, ef_base, add_point_modified, add_points, add_rows, add_points_modified,
  build_ann,
}

pub read_row_ok :
    {A : Type 0} (points : List A) (start k : ℕ)
    → start + k ≤ length points
    → (r : List A) × (read_row points start k ≡ ok r) × (length r ≡ k)
unfolding read_row
read_row_ok points start zero h = ([], refl, refl)
read_row_ok points start (suc k) h =
    let (x, e) = get_elem?-lt points start (omega (arith, h)) in
    let (r, e', l) = read_row_ok points (suc start) k (omega (arith, h)) in
    (x ∷ r, rw (e, e') refl, ap suc l)

-- A row ends where the next one starts.
pub row_end : (i n dim : ℕ) → i < n → i * dim + dim ≤ n * dim
row_end i zero dim h = absurd (omega (arith, h))
row_end zero (suc n) dim h = omega arith
row_end (suc i) (suc n) dim h = omega (arith, row_end i n dim (omega (arith, h)))

module _ (fl : Floats) where
  -- An index has room for `max_elements`; the point that is added last gets the next internal id, and
  -- a list at level 0 holds at most 2 M ids of points that were added. M must be more than 1: hnswlib
  -- divides by its logarithm.
  pub record HnswLaws (lib : HnswLib fl) : Type 0 where
    pub size : lib.Index → ℕ
    pub room : lib.Index → ℕ
    pub degree : lib.Index → ℕ
    pub size-create : (s : Space) (n m ef : ℕ) → 1 < m → size (lib.create s n m ef) ≡ 0
    pub room-create : (s : Space) (n m ef : ℕ) → 1 < m → room (lib.create s n m ef) ≡ n
    pub degree-create : (s : Space) (n m ef : ℕ) → 1 < m → degree (lib.create s n m ef) ≡ 2 * m
    pub add_point-size :
        (vec : List fl.Float) (i : lib.Index)
        → size i < room i
        → (j : lib.Index) × (lib.add_point vec (size i) i ≡ ok j)
          × (size j ≡ suc (size i))
          × (room j ≡ room i)
          × (degree j ≡ degree i)
    pub count-size : (i : lib.Index) → lib.cur_element_count i ≡ size i
    pub open_slot-size :
        (vec : List fl.Float) (label : ℕ) (i : lib.Index)
        → size i < room i
        → (j : lib.Index) × (lib.open_slot vec label i ≡ ok j)
          × (size j ≡ suc (size i))
          × (room j ≡ room i)
          × (degree j ≡ degree i)
    pub set_enterpoint-size :
        (c : ℕ) (i : lib.Index)
        → c < size i
        → (size (lib.set_enterpoint c i) ≡ size i)
          × (room (lib.set_enterpoint c i) ≡ room i)
          × (degree (lib.set_enterpoint c i) ≡ degree i)
    pub connect-size :
        (vec : List fl.Float) (c entry ef : ℕ) (i : lib.Index)
        → c < size i
        → lib.enterpoint_node i ≡ some entry
        → (j : lib.Index) × (lib.connect vec c (lib.search_base_layer entry vec ef i) i ≡ ok j)
          × (size j ≡ size i)
          × (room j ≡ room i)
          × (degree j ≡ degree i)
    pub links-size :
        (i : lib.Index) (v : ℕ)
        → v < size i
        → All (λ u. u < size i) ((lib.view i).links v) × (length ((lib.view i).links v) ≤ degree i)

  -- An index keeps its distance, and the labels and vectors that were added, in their order. A label
  -- that is there already would have its vector changed.
  pub record HnswContents (lib : HnswLib fl) : Type 0 where
    pub space : lib.Index → Space
    pub vectors : lib.Index → List (ℕ × List fl.Float)
    pub space-create : (s : Space) (n m ef : ℕ) → 1 < m → space (lib.create s n m ef) ≡ s
    pub vectors-create : (s : Space) (n m ef : ℕ) → 1 < m → vectors (lib.create s n m ef) ≡ []
    pub space-add_point :
        (vec : List fl.Float) (label : ℕ) (i j : lib.Index)
        → lib.add_point vec label i ≡ ok j
        → space j ≡ space i
    pub vectors-add_point :
        (vec : List fl.Float) (label : ℕ) (i j : lib.Index)
        → lib.add_point vec label i ≡ ok j
        → All (λ e. e.0 < label) (vectors i)
        → vectors j ≡ vectors i ++ (label, vec) ∷ []

  module _ (lib : HnswLib fl) (laws : HnswLaws lib) where
    -- `addPoint_modified` adds one element, whether it is the first or is connected.
    add_point_modified-size :
        (vec : List fl.Float) (i : lib.Index)
        → laws.size i < laws.room i
        → (j : lib.Index) × (add_point_modified fl lib vec (laws.size i) i ≡ ok j)
          × (laws.size j ≡ suc (laws.size i))
          × (laws.room j ≡ laws.room i)
          × (laws.degree j ≡ laws.degree i)
    unfolding add_point_modified
    add_point_modified-size vec i free =
        let (o, opened, s, r, d) = laws.open_slot-size vec (laws.size i) i free in
        let c = lib.cur_element_count i in
        let inside : c < laws.size o = omega (arith, laws.count-size i, s) in
        elim (Option-cases (lib.enterpoint_node o)) [
          | inl e ↦
              let (s', r', d') = laws.set_enterpoint-size c o inside in
              (lib.set_enterpoint c o, rw (opened, e) refl, s' ∙ s, r' ∙ r, d' ∙ d)
          | inr (entry, e) ↦
              let (j, runs, s', r', d') =
                laws.connect-size vec c entry (ef_base fl lib o) o inside e in
              (j, rw (opened, e) runs, s' ∙ s, r' ∙ r, d' ∙ d)
        ]

  module _ (lib : HnswLib fl) (laws : HnswLaws lib) (points : List fl.Float) (dim n : ℕ) where
    -- After the rows have been added.
    abbrev pub Built : ℕ → Run lib.Index → Type 0
    Built d r = (j : lib.Index) × (r ≡ ok j) × (laws.size j ≡ n) × (laws.degree j ≡ d)

    points_eq :
        (i k : ℕ) (hnsw j : lib.Index) (r : List fl.Float)
        → i * dim < int_limit
        → read_row points (i * dim) dim ≡ ok r
        → lib.add_point r i hnsw ≡ ok j
        → add_points fl lib points dim (suc k) i hnsw ≡ add_points fl lib points dim k (suc i) j
    unfolding add_points
    points_eq i k hnsw j r fits e e' = rw (int_of_ok (i * dim) fits, e, e')

    add_points_lem :
        (k i d : ℕ) (hnsw : lib.Index)
        → 0 < dim
        → n * dim ≤ length points
        → n * dim ≤ int_limit
        → i + k ≡ n
        → laws.size hnsw ≡ i
        → laws.room hnsw ≡ n
        → laws.degree hnsw ≡ d
        → Built d (add_points fl lib points dim k i hnsw)
    unfolding add_points
    add_points_lem zero i d hnsw pos long fits e s r g = (hnsw, refl, omega (arith, s, e), g)
    add_points_lem (suc k) i d hnsw pos long fits e s r g =
        let below : i < n = omega (arith, e) in
        let (row, found, _) =
          read_row_ok points (i * dim) dim (omega (arith, row_end i n dim below, long)) in
        let (j, added, s', r', g') = laws.add_point-size row hnsw (omega (arith, s, r, below)) in
        let added' : lib.add_point row i hnsw ≡ ok j =
          ap (λ l. lib.add_point row l hnsw) (omega (arith, s)) ∙ added in
        let (j', ends, full, lists) =
          add_points_lem k (suc i) d j pos long fits (omega (arith, e)) (omega (arith, s, s'))
            (omega (arith, r, r')) (omega (arith, g, g')) in
        (
          j',
          points_eq i k hnsw j row (omega (arith, row_end i n dim below, fits, pos)) found added'
              ∙ ends,
          full,
          lists,
        )

    -- What adding one row does, as for `add_point` above.
    abbrev pub AddsRow : (List fl.Float → ℕ → lib.Index → Run lib.Index) → Type 0
    AddsRow add =
        (vec : List fl.Float) (i : lib.Index)
        → laws.size i < laws.room i
        → (j : lib.Index) × (add vec (laws.size i) i ≡ ok j)
          × (laws.size j ≡ suc (laws.size i))
          × (laws.room j ≡ laws.room i)
          × (laws.degree j ≡ laws.degree i)

    rows_eq :
        (add : List fl.Float → ℕ → lib.Index → Run lib.Index) (i k : ℕ) (hnsw j : lib.Index)
        (r : List fl.Float)
        → read_row points (i * dim) dim ≡ ok r
        → add r i hnsw ≡ ok j
        → add_rows fl lib add points dim (suc k) i hnsw ≡ add_rows fl lib add points dim k (suc i) j
    unfolding add_rows
    rows_eq add i k hnsw j r e e' = rw (e, e')

    pub add_rows_lem :
        (add : List fl.Float → ℕ → lib.Index → Run lib.Index) (k i d : ℕ) (hnsw : lib.Index)
        → AddsRow add
        → n * dim ≤ length points
        → i + k ≡ n
        → laws.size hnsw ≡ i
        → laws.room hnsw ≡ n
        → laws.degree hnsw ≡ d
        → Built d (add_rows fl lib add points dim k i hnsw)
    unfolding add_rows
    add_rows_lem add zero i d hnsw adds long e s r g = (hnsw, refl, omega (arith, s, e), g)
    add_rows_lem add (suc k) i d hnsw adds long e s r g =
        let below : i < n = omega (arith, e) in
        let (row, found, _) =
          read_row_ok points (i * dim) dim (omega (arith, row_end i n dim below, long)) in
        let (j, added, s', r', g') = adds row hnsw (omega (arith, s, r, below)) in
        let added' : add row i hnsw ≡ ok j = ap (λ l. add row l hnsw) (omega (arith, s)) ∙ added in
        let (j', ends, full, lists) =
          add_rows_lem add k (suc i) d j adds long (omega (arith, e)) (omega (arith, s, s'))
            (omega (arith, r, r')) (omega (arith, g, g')) in
        (j', rows_eq add i k hnsw j row found added' ∙ ends, full, lists)

    -- The index holds every row, whichever function builds it.
    pub build_ann_lem :
        (base_only use_l2 : Bool) (m ef : ℕ)
        → 1 < m
        → 0 < dim
        → n * dim ≤ length points
        → n * dim ≤ int_limit
        → Built (2 * m) (build_ann fl lib base_only use_l2 points n dim m ef)
    unfolding build_ann add_points_modified
    build_ann_lem true use_l2 m ef two pos long fits =
        add_rows_lem (add_point_modified fl lib) n 0 (2 * m) _ (add_point_modified-size lib laws)
          long (omega arith) (laws.size-create _ n m ef two) (laws.room-create _ n m ef two)
          (laws.degree-create _ n m ef two)
    build_ann_lem false true m ef two pos long fits =
        add_points_lem n 0 (2 * m) _ pos long fits (omega arith) (laws.size-create _ n m ef two)
          (laws.room-create _ n m ef two) (laws.degree-create _ n m ef two)
    build_ann_lem false false m ef two pos long fits =
        add_points_lem n 0 (2 * m) _ pos long fits (omega arith) (laws.size-create _ n m ef two)
          (laws.room-create _ n m ef two) (laws.degree-create _ n m ef two)
