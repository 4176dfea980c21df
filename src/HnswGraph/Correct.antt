-- ===== src/HnswGraph/Correct.antt =====
-- The index that build_graphs.cpp saves holds every row of the data.
use mqo_public.Prelude.{
  ℕ, zero, suc, ◌+◌, ◌*◌, ◌≤◌, ◌<◌, ◌≡◌, refl, sym, ap, ◌∙◌, subst, Bool, true, false, Option, none,
  some, List, [], ◌∷◌, ◌++◌, append-nil, append_assoc, All, All-append, length, take, drop,
  length-take, length-map, ok, guard, runtime_error, bind_ok, ltb, leb, if◌then◌else◌, arith,
}
use mqo_public.Floats.{Floats}
use mqo_public.DataFiles.{VectorFile, Format, u8bin, fbin, other, load, get_data}
use mqo_public.Distance.Bounds.{drop-get}
use mqo_public.Answers.Order.{All-map}
use mqo_public.AnnBuild.{Space, l2, ip, HnswLib, read_row, add_rows}
use mqo_public.AnnBuild.Laws.{row_end, HnswLaws, HnswContents, add_rows_lem}
use mqo_public.HnswGraph.{build, build_ip, build_graphs}

guard-true : (b : Bool) (u : Unit {0}) → guard b runtime_error ≡ ok u → b ≡ true
guard-true true u h = refl
guard-true false u h = cc

abbrev HasLength : {A : Type 0} → ℕ × ℕ × List A → Type 0
HasLength (n, d, xs) = n * d ≤ length xs

ok_inj : {A : Type 0} (a b : A) → ok a ≡ ok b → a ≡ b
ok_inj a b h = cc

-- What is loaded has its n * d values.
load-HasLength :
    {A : Type 0} (file : Option (VectorFile A)) (r : ℕ × ℕ × List A)
    → load file ≡ ok r
    → HasLength r
unfolding load
load-HasLength none r h = absurd (cc)
load-HasLength (some f) r h =
    let (_, _, h₁) = bind_ok (guard (ltb 0 f.n) runtime_error) _ r h in
    let (_, _, h₂) = bind_ok (guard (ltb 0 f.d) runtime_error) _ r h₁ in
    let (u, g, h₃) = bind_ok (guard (leb (f.n * f.d) (length f.values)) runtime_error) _ r h₂ in
    let long : leb (f.n * f.d) (length f.values) ≡ true = guard-true _ u g in
    let fits : f.n * f.d ≤ length f.values = ground (arith, long) in
    let size = length-take (f.n * f.d) f.values fits in
    subst HasLength (ok_inj _ r h₃) (omega (arith, size))

-- So has what `get_data` returns.
get_data-HasLength :
    {F U : Type 0} (to_float : U → F) (path : Format F U) (r : ℕ × ℕ × List F)
    → get_data to_float path ≡ ok r
    → HasLength r
unfolding get_data
get_data-HasLength to_float (u8bin file) r h =
    let (s, e, h') = bind_ok (load file) _ r h in
    subst HasLength (ok_inj _ r h')
      (omega (arith, load-HasLength file s e, length-map to_float s.2))
get_data-HasLength to_float (fbin file) r h = load-HasLength file r h
get_data-HasLength to_float other r h = absurd (cc)

-- The labels and the rows of an array, from the row `i` on.
abbrev pub rows_from {ℓ} : {A : Type ℓ} → List A → (dim k i : ℕ) → List (ℕ × List A)
rows_from points dim zero i = []
rows_from points dim (suc k) i =
    (i, take dim (drop (i * dim) points)) ∷ rows_from points dim k (suc i)

read_row-take :
    {A : Type 0} (points : List A) (start k : ℕ)
    → start + k ≤ length points
    → read_row points start k ≡ ok (take k (drop start points))
unfolding read_row
read_row-take points start zero h = refl
read_row-take points start (suc k) h =
    let (x, e, d) = drop-get points start (omega (arith, h)) in
    rw (e, read_row-take points (suc start) k (omega (arith, h)), d) refl

module _ (fl : Floats) (lib : HnswLib fl) (contents : HnswContents fl lib) where
  add_rows-nil :
      (points : List fl.Float) (dim i : ℕ) (hnsw : lib.Index)
      → add_rows fl lib lib.add_point points dim zero i hnsw ≡ ok hnsw
  unfolding add_rows
  add_rows-nil points dim i hnsw = refl

  add_rows-cons :
      (points : List fl.Float) (dim k i : ℕ) (hnsw j : lib.Index)
      → i * dim + dim ≤ length points
      → add_rows fl lib lib.add_point points dim (suc k) i hnsw ≡ ok j
      → (next : lib.Index) × (lib.add_point (take dim (drop (i * dim) points)) i hnsw ≡ ok next)
        × (add_rows fl lib lib.add_point points dim k (suc i) next ≡ ok j)
  unfolding add_rows
  add_rows-cons points dim k i hnsw j inside h =
      let h' = rw (read_row-take points (i * dim) dim inside) at h in
      bind_ok (lib.add_point (take dim (drop (i * dim) points)) i hnsw) _ j h'

  -- The rows that are added are in the index, in their order.
  add_rows-vectors :
      (points : List fl.Float) (dim n k i : ℕ) (hnsw j : lib.Index)
      → n * dim ≤ length points
      → i + k ≡ n
      → All (λ e. e.0 < i) (contents.vectors hnsw)
      → add_rows fl lib lib.add_point points dim k i hnsw ≡ ok j
      → (contents.vectors j ≡ contents.vectors hnsw ++ rows_from points dim k i)
        × (contents.space j ≡ contents.space hnsw)
  add_rows-vectors points dim n zero i hnsw j long e below h =
      let same : hnsw ≡ j = ok_inj hnsw j (sym (add_rows-nil points dim i hnsw) ∙ h) in
      (
        ap contents.vectors (sym same) ∙ sym (append-nil (contents.vectors hnsw)),
        ap contents.space (sym same),
      )
  add_rows-vectors points dim n (suc k) i hnsw j long e below h =
      let row = take dim (drop (i * dim) points) in
      let end = row_end i n dim (omega (arith, e)) in
      let (next, added, rest) = add_rows-cons points dim k i hnsw j (omega (arith, end, long)) h in
      let grown = contents.vectors-add_point row i hnsw next added below in
      let below' : All (λ e. e.0 < suc i) (contents.vectors next) =
        subst (λ vs. All (λ e. e.0 < suc i) vs) (sym grown)
          (All-append _ (contents.vectors hnsw) ((i, row) ∷ [])
            (All-map _ _ (λ a lt. omega (arith, lt)) (contents.vectors hnsw) below)
            (omega arith, tt)) in
      let (held, same) =
        add_rows-vectors points dim n k (suc i) next j long (omega (arith, e)) below' rest in
      (
        held
            ∙ ap (λ vs. vs ++ rows_from points dim k (suc i)) grown
            ∙ append_assoc (contents.vectors hnsw) ((i, row) ∷ []) (rows_from points dim k (suc i)),
        same ∙ contents.space-add_point row i hnsw next added,
      )

module _ (fl : Floats) (lib : HnswLib fl) (laws : HnswLaws fl lib) (contents : HnswContents fl lib)
    {U : Type 0} (to_float : U → fl.Float) (dpath : Format fl.Float U) (n dim : ℕ)
    (points : List fl.Float) where
  -- An index of all rows, with the distance `s` and at most 2 m links a list.
  abbrev pub HoldsRows : Space → ℕ → lib.Index → Type 0
  HoldsRows s m saved =
      (laws.size saved ≡ n)
      × (laws.degree saved ≡ 2 * m)
      × (contents.vectors saved ≡ rows_from points dim n 0)
      × (contents.space saved ≡ s)

  holds_lem :
      (s : Space) (m ef : ℕ)
      → 1 < m
      → n * dim ≤ length points
      → (saved : lib.Index) × (add_rows fl lib lib.add_point points dim n 0 (lib.create s n m ef)
          ≡ ok saved)
        × HoldsRows s m saved
  holds_lem s m ef two long =
      let start = lib.create s n m ef in
      let (saved, ends, size, degree) =
        add_rows_lem fl lib laws points dim n lib.add_point n 0 (2 * m) start laws.add_point-size
          long (omega arith) (laws.size-create s n m ef two) (laws.room-create s n m ef two)
          (laws.degree-create s n m ef two) in
      let none_yet = contents.vectors-create s n m ef two in
      let (held, same) =
        add_rows-vectors fl lib contents points dim n n 0 start saved long (omega arith)
          (subst (λ vs. All (λ e. e.0 < 0) vs) (sym none_yet) tt) ends in
      (
        saved,
        ends,
        (
          size,
          degree,
          held ∙ ap (λ vs. vs ++ rows_from points dim n 0) none_yet,
          same ∙ contents.space-create s n m ef two,
        ),
      )

  -- When the data can be read and M is more than 1, `build_graphs` saves an index that holds the rows
  -- of the data in their order under the labels 0, 1, …, for the distance that was asked for, with at
  -- most 2 M links a list.
  pub build_graphs-holds :
      (use_l2 : Bool) (m ef : ℕ)
      → 1 < m
      → get_data to_float dpath ≡ ok (n, dim, points)
      → (saved : lib.Index) × (build_graphs fl lib to_float dpath use_l2 m ef ≡ ok saved)
        × HoldsRows (if use_l2 then l2 else ip) m saved
  unfolding build_graphs build build_ip
  build_graphs-holds true m ef two loads =
      rw loads (holds_lem l2 m ef two (get_data-HasLength to_float dpath (n, dim, points) loads))
  build_graphs-holds false m ef two loads =
      rw loads (holds_lem ip m ef two (get_data-HasLength to_float dpath (n, dim, points) loads))
