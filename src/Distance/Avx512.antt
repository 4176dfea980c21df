-- ===== src/Distance/Avx512.antt =====
-- The distance by vector registers, lane by lane.
use mqo_public.Prelude.{
  ℕ, zero, suc, ◌+◌, ◌*◌, ◌/◌, ◌%◌, ◌<◌, ◌≤◌, ◌≡◌, refl, ap, ◌∙◌, some, List, [], ◌∷◌, length,
  length-replicate, get_elem?, get_elem?-lt, take, drop, replicate, ok, arith,
}
use native.Mathlib.Nat.{add-zero}
use mqo_public.Floats.{Floats}
use mqo_public.Distance.{int_limit, zip_with, load_lanes, block_loop, get_distance_squared_avx512}
use mqo_public.Distance.Bounds.{
  int_of_ok, HasRows, start-ok, row-le, fold_rows, add_square, squared_loop_lem,
}
use mqo_public.Distance.Slices.{get_elem?-slice, length-slice, strided, strided-cons}

get_elem?-replicate {ℓ} :
    {A : Type ℓ} (n l : ℕ) (x : A) → l < n → get_elem? (replicate n x) l ≡ some x
get_elem?-replicate zero l x h = absurd (omega (arith, h))
get_elem?-replicate (suc n) zero x h = refl
get_elem?-replicate (suc n) (suc l) x h = get_elem?-replicate n l x (omega (arith, h))

module _ (fl : Floats) where
  open fl use {Float, add, sub, mul, zero as float_zero}

  get_elem?-zip_with :
      (f : Float → Float → Float) (xs ys : List Float) (l : ℕ) (a b : Float)
      → get_elem? xs l ≡ some a
      → get_elem? ys l ≡ some b
      → get_elem? (zip_with fl f xs ys) l ≡ some (f a b)
  unfolding zip_with
  get_elem?-zip_with f [] ys l a b h k = cc
  get_elem?-zip_with f (x ∷ xs) [] l a b h k = cc
  get_elem?-zip_with f (x ∷ xs) (y ∷ ys) zero a b h k =
      let e : x ≡ a = cc in
      let e' : y ≡ b = cc in ap (λ z. some (f z y)) e ∙ ap (λ z. some (f a z)) e'
  get_elem?-zip_with f (x ∷ xs) (y ∷ ys) (suc l) a b h k = get_elem?-zip_with f xs ys l a b h k

  length-zip_with :
      (f : Float → Float → Float) (n : ℕ) (xs ys : List Float)
      → length xs ≡ n
      → length ys ≡ n
      → length (zip_with fl f xs ys) ≡ n
  unfolding zip_with
  length-zip_with f n [] ys h k = h
  length-zip_with f n (a ∷ xs) [] h k = k
  length-zip_with f zero (a ∷ xs) (b ∷ ys) h k = absurd (omega (arith, h))
  length-zip_with f (suc n) (a ∷ xs) (b ∷ ys) h k =
      ap suc (length-zip_with f n xs ys (omega (arith, h)) (omega (arith, k)))

  load_lanes-slice :
      (query : List Float) (start : ℕ)
      → start + 16 ≤ length query
      → load_lanes fl query start ≡ ok (take 16 (drop start query))
  unfolding load_lanes
  load_lanes-slice query start h = ground arith

  -- The squared difference in the lane `l` of the blocks at `s` and `t`.
  square_lane :
      (query : List Float) (s t l : ℕ) (a b : Float)
      → l < 16
      → get_elem? query (s + l) ≡ some a
      → get_elem? query (t + l) ≡ some b
      → get_elem?
          (zip_with fl mul
            (zip_with fl sub (take 16 (drop s query)) (take 16 (drop t query)))
            (zip_with fl sub (take 16 (drop s query)) (take 16 (drop t query))))
          l
        ≡ some (mul (sub a b) (sub a b))
  square_lane query s t l a b h e e' =
      let va = take 16 (drop s query) in
      let vb = take 16 (drop t query) in
      let d =
        get_elem?-zip_with sub va vb l a b (get_elem?-slice query s 16 l a h e)
          (get_elem?-slice query t 16 l b h e') in
      get_elem?-zip_with mul (zip_with fl sub va vb) (zip_with fl sub va vb) l (sub a b) (sub a b) d
        d

  -- Each lane adds up the squared differences of its own entries.
  abbrev pub lane : List Float → (istart jstart k l : ℕ) → Float → Float
  lane query istart jstart k l acc =
      fold_rows (add_square fl) acc (strided k (drop (istart + l) query))
        (strided k (drop (jstart + l) query))

  block_loop-lanes :
      (query : List Float) (istart jstart k pos : ℕ) (vsum : List Float)
      → length vsum ≡ 16
      → istart + pos + 16 * k ≤ length query
      → jstart + pos + 16 * k ≤ length query
      → length query ≤ int_limit
      → (v : List Float) × (block_loop fl query istart jstart k pos vsum ≡ ok v)
        × (length v ≡ 16)
        × ((l : ℕ) (a : Float)
            → l < 16
            → get_elem? vsum l ≡ some a
            → get_elem? v l ≡ some (lane query (istart + pos) (jstart + pos) k l a))
  unfolding block_loop
  block_loop-lanes query istart jstart zero pos vsum full p q r = (vsum, refl, full, λ l a h e. e)
  block_loop-lanes query istart jstart (suc k) pos vsum full p q r =
      let va = take 16 (drop (istart + pos) query) in
      let vb = take 16 (drop (jstart + pos) query) in
      let diff = zip_with fl sub va vb in
      let next = zip_with fl add vsum (zip_with fl mul diff diff) in
      let la : length va ≡ 16 = length-slice query (istart + pos) 16 (omega (arith, p)) in
      let lb : length vb ≡ 16 = length-slice query (jstart + pos) 16 (omega (arith, q)) in
      let ld = length-zip_with sub 16 va vb la lb in
      let full' =
        length-zip_with add 16 vsum (zip_with fl mul diff diff) full
          (length-zip_with mul 16 diff diff ld ld) in
      let (v, runs, size, lanes) =
        block_loop-lanes query istart jstart k (pos + 16) next full' (omega (arith, p))
          (omega (arith, q)) r in
      (
        v,
        rw
            (
              int_of_ok (istart + pos) (omega (arith, p, r)),
              load_lanes-slice query (istart + pos) (omega (arith, p)),
              int_of_ok (jstart + pos) (omega (arith, q, r)),
              load_lanes-slice query (jstart + pos) (omega (arith, q)),
            )
            runs,
        size,
        λ l a h e.
            let (x, ex) = get_elem?-lt query (istart + pos + l) (omega (arith, p, h)) in
            let (y, ey) = get_elem?-lt query (jstart + pos + l) (omega (arith, q, h)) in
            let here =
              get_elem?-zip_with add vsum (zip_with fl mul diff diff) l a (mul (sub x y) (sub x y))
                e (square_lane query (istart + pos) (jstart + pos) l x y h ex ey) in
            let next_i : istart + pos + l + 16 ≡ istart + (pos + 16) + l = omega arith in
            let next_j : jstart + pos + l + 16 ≡ jstart + (pos + 16) + l = omega arith in
            lanes l (add_square fl a x y) h here
            ∙ rw
                (
                  strided-cons query (istart + pos + l) k x (omega (arith, p, h)) ex,
                  strided-cons query (jstart + pos + l) k y (omega (arith, q, h)) ey,
                  next_i,
                  next_j,
                )
                refl,
      )

  module _ (reduce_add : List Float → Float) (query : List Float) (n dim : ℕ)
      (h : HasRows query n dim) where
    -- Inside an array of n rows the lane l of the register adds up the squared differences of the entries
    -- l, l + 16, … of the two rows, up to the last full block. From the sum of the lanes, as
    -- `_mm512_reduce_add_ps` gives it, the entries that are left are added one by one. No law of
    -- floats is used.
    pub get_distance_squared_avx512-lanes :
        (i j : ℕ)
        → i < n
        → j < n
        → (v : List Float) × (length v ≡ 16)
          × ((l : ℕ)
              → l < 16
              → get_elem? v l ≡ some (lane query (dim * i) (dim * j) (dim / 16) l float_zero))
          × (get_distance_squared_avx512 fl reduce_add query dim i j
              ≡ ok (
                  fold_rows
                    (add_square fl)
                    (reduce_add v)
                    (take (dim % 16) (drop (dim * i + 16 * (dim / 16)) query))
                    (take (dim % 16) (drop (dim * j + 16 * (dim / 16)) query))))
    unfolding get_distance_squared_avx512
    get_distance_squared_avx512-lanes i j p q =
        let k = dim / 16 in
        let end_i = row-le dim i n p in
        let end_j = row-le dim j n q in
        let parts : 16 * k + dim % 16 ≡ dim = omega arith in
        let (v, runs, size, lanes) =
          block_loop-lanes query (dim * i) (dim * j) k 0 (replicate 16 float_zero)
            (length-replicate 16 float_zero) (omega (arith, end_i, h.rows, parts))
            (omega (arith, end_j, h.rows, parts)) h.indexable in
        (
          v,
          size,
          λ l below.
              lanes l float_zero below (get_elem?-replicate 16 l float_zero below)
              ∙ rw (add-zero (dim * i), add-zero (dim * j)) refl,
          rw (start-ok fl query n dim h i p, start-ok fl query n dim h j q, runs)
              (squared_loop_lem fl query (dim * i) (dim * j) (dim % 16) (16 * k) (reduce_add v)
                (omega (arith, end_i, h.rows, parts)) (omega (arith, end_j, h.rows, parts))
                h.indexable),
        )
