-- ===== src/Distance/Bounds.antt =====
-- The distances read two rows of the array, and nothing else, when the rows are inside it.
use mqo_public.Prelude.{
  ℕ, zero, suc, ◌+◌, ◌*◌, ◌<◌, ◌≤◌, ◌≡◌, refl, ◌∙◌, List, [], ◌∷◌, length, get_elem?, take, drop,
  ok, err, int_overflow, some, arith,
}
use native.Mathlib.Nat.{add-zero}
use mqo_public.Floats.{Floats}
use mqo_public.Distance.{
  int_limit, int_of, ip_loop, get_distance_ip, squared_loop, get_distance_squared, get_distance,
}

pub int_of_ok : (x : ℕ) → x < int_limit → int_of x ≡ ok x
int_of_ok x h = ground arith

pub int_of_overflow : (x : ℕ) → int_limit ≤ x → int_of x ≡ err int_overflow
int_of_overflow x h = ground arith

pub drop-get {ℓ} :
    {A : Type ℓ} (xs : List A) (i : ℕ)
    → i < length xs
    → (x : A) × (get_elem? xs i ≡ some x) × (drop i xs ≡ x ∷ drop (suc i) xs)
drop-get [] i h = absurd (omega arith)
drop-get (x ∷ xs) zero h = (x, refl, refl)
drop-get (x ∷ xs) (suc i) h = drop-get xs i (omega arith)

-- The row `i` of an array with `dim` entries a row.
abbrev pub row {ℓ} : {A : Type ℓ} → List A → ℕ → ℕ → List A
row xs dim i = take dim (drop (dim * i) xs)

-- An accumulation over two rows, entry by entry.
abbrev pub fold_rows {ℓ} : {A : Type ℓ} → (A → A → A → A) → A → List A → List A → A
fold_rows step acc (x ∷ xs) (y ∷ ys) = fold_rows step (step acc x y) xs ys
fold_rows step acc _ _ = acc

module _ (fl : Floats) where
  open fl use {Float, one, add, sub, mul, root, zero as float_zero}

  abbrev pub add_square : Float → Float → Float → Float
  add_square acc a b = add acc (mul (sub a b) (sub a b))

  abbrev pub add_product : Float → Float → Float → Float
  add_product acc a b = add acc (mul a b)

  pub squared_loop_lem :
      (query : List Float) (istart jstart k pos : ℕ) (sum : Float)
      → istart + pos + k ≤ length query
      → jstart + pos + k ≤ length query
      → length query ≤ int_limit
      → squared_loop fl query istart jstart k pos sum
        ≡ ok (
            fold_rows add_square sum
              (take k (drop (istart + pos) query))
              (take k (drop (jstart + pos) query)))
  unfolding squared_loop
  squared_loop_lem query istart jstart zero pos sum p q r = refl
  squared_loop_lem query istart jstart (suc k) pos sum p q r =
      let (a, ga, da) = drop-get query (istart + pos) (omega arith) in
      let (b, gb, db) = drop-get query (jstart + pos) (omega arith) in
      let next_i : istart + suc pos ≡ suc (istart + pos) = omega arith in
      let next_j : jstart + suc pos ≡ suc (jstart + pos) = omega arith in
      rw
        (
          int_of_ok (istart + pos) (omega arith),
          ga,
          int_of_ok (jstart + pos) (omega arith),
          gb,
          da,
          db,
          ← next_i,
          ← next_j,
        )
        (squared_loop_lem query istart jstart k (suc pos) (add_square sum a b) (omega arith)
          (omega arith) r)

  product_loop_lem :
      (query : List Float) (istart jstart k pos : ℕ) (sum : Float)
      → istart + pos + k ≤ length query
      → jstart + pos + k ≤ length query
      → length query ≤ int_limit
      → ip_loop fl query istart jstart k pos sum
        ≡ ok (
            fold_rows add_product sum
              (take k (drop (istart + pos) query))
              (take k (drop (jstart + pos) query)))
  unfolding ip_loop
  product_loop_lem query istart jstart zero pos sum p q r = refl
  product_loop_lem query istart jstart (suc k) pos sum p q r =
      let (a, ga, da) = drop-get query (istart + pos) (omega arith) in
      let (b, gb, db) = drop-get query (jstart + pos) (omega arith) in
      let next_i : istart + suc pos ≡ suc (istart + pos) = omega arith in
      let next_j : jstart + suc pos ≡ suc (jstart + pos) = omega arith in
      rw
        (
          int_of_ok (istart + pos) (omega arith),
          ga,
          int_of_ok (jstart + pos) (omega arith),
          gb,
          da,
          db,
          ← next_i,
          ← next_j,
        )
        (product_loop_lem query istart jstart k (suc pos) (add_product sum a b) (omega arith)
          (omega arith) r)

pub row-le : (dim i n : ℕ) → i < n → dim * i + dim ≤ n * dim
row-le dim i n h = grind arith

-- An array of n rows whose length an `int` can index.
pub record HasRows {ℓ} {A : Type ℓ} (xs : List A) (n dim : ℕ) : Type 0 where
  pub positive : 0 < dim
  pub rows : n * dim ≤ length xs
  pub indexable : length xs ≤ int_limit

module _ (fl : Floats) (query : List fl.Float) (n dim : ℕ) (h : HasRows query n dim) where
  open fl use {Float, one, sub, root, zero as float_zero}

  pub start-ok : (i : ℕ) → i < n → int_of (dim * i) ≡ ok (dim * i)
  start-ok i k =
      int_of_ok (dim * i) (omega (arith, row-le dim i n k, h.positive, h.rows, h.indexable))

  -- Inside an array of n rows `get_distance_squared` returns the sum of the squared differences of
  -- the two rows, taken from the first entry on, with no fault and no overflow.
  pub get_distance_squared-row :
      (i j : ℕ)
      → i < n
      → j < n
      → get_distance_squared fl query dim i j
        ≡ ok (fold_rows (add_square fl) float_zero (row query dim i) (row query dim j))
  unfolding get_distance_squared
  get_distance_squared-row i j p q =
      rw (start-ok i p, start-ok j q)
        (squared_loop_lem fl query (dim * i) (dim * j) dim 0 float_zero
            (omega (arith, row-le dim i n p, h.rows)) (omega (arith, row-le dim j n q, h.rows))
            h.indexable
          ∙ rw (add-zero (dim * i), add-zero (dim * j)))

  -- `get_distance_ip` is 1 less the inner product of the two rows, in the same way.
  pub get_distance_ip-row :
      (i j : ℕ)
      → i < n
      → j < n
      → get_distance_ip fl query dim i j
        ≡ ok (sub one (fold_rows (add_product fl) float_zero (row query dim i) (row query dim j)))
  unfolding get_distance_ip
  get_distance_ip-row i j p q = rw (
    start-ok i p,
    start-ok j q,
    product_loop_lem fl query (dim * i) (dim * j) dim 0 float_zero
        (omega (arith, row-le dim i n p, h.rows)) (omega (arith, row-le dim j n q, h.rows))
        h.indexable,
    add-zero (dim * i),
    add-zero (dim * j),
  )

  -- The Euclidean distance of two rows is the root of that sum.
  pub get_distance-row :
      (i j : ℕ)
      → i < n
      → j < n
      → get_distance fl query dim i j
        ≡ ok (root (fold_rows (add_square fl) float_zero (row query dim i) (row query dim j)))
  unfolding get_distance
  get_distance-row i j p q = rw (get_distance_squared-row i j p q)
