-- ===== src/DataFiles/Subsets.antt =====
-- A subset that is saved can be loaded, and holds rows of the range.
use mqo_public.Prelude.{
  length-take, take_all, ℕ, zero, suc, ◌+◌, ◌-◌, ◌*◌, ◌<◌, ◌≤◌, ◌≡◌, refl, sym, ap, ◌∙◌, true, some,
  List, [], ◌∷◌, ◌++◌, length, length-append, take, count, ltb, leb, ok, if◌then◌else◌, arith,
}
use mqo_public.AnnBuild.Laws.{read_row_ok, row_end}
use mqo_public.DataFiles.{VectorFile, load, range, copy_indices, sample_and_save_subset}

count-range :
    (v l k : ℕ) → count v (range l k) ≡ (if ltb v l then 0 else if ltb v (l + k) then 1 else 0)
unfolding range
count-range v l zero = ground arith
count-range v l (suc k) = ground (arith, count-range v (suc l) k)

length-range : (l k : ℕ) → length (range l k) ≡ k
unfolding range
length-range l zero = refl
length-range l (suc k) = ap suc (length-range (suc l) k)

count-take : (v k : ℕ) (xs : List ℕ) → count v (take k xs) ≤ count v xs
count-take v zero xs = omega arith
count-take v (suc k) [] = omega arith
count-take v (suc k) (x ∷ xs) = omega (arith, count-take v k xs)

module _ {A : Type 0} where
  copy_indices_ok :
      (values : List A) (n d : ℕ) (indices : List ℕ)
      → n * d ≤ length values
      → ((v : ℕ) → 0 < count v indices → v < n)
      → (subset : List A) × (copy_indices values d indices ≡ ok subset)
        × (length subset ≡ length indices * d)
  unfolding copy_indices
  copy_indices_ok values n d [] long inside = ([], refl, omega arith)
  copy_indices_ok values n d (i ∷ indices) long inside =
      let below : i < n = inside i (ground arith) in
      let (r, e, l) = read_row_ok values (i * d) d (omega (arith, row_end i n d below, long)) in
      let (rest, e', l') =
        copy_indices_ok values n d indices long (λ v k. inside v (omega (arith, k))) in
      (r ++ rest, rw (e, e') refl, omega (arith, length-append r rest, l, l'))

  load_ok :
      (n d : ℕ) (values : List A)
      → 0 < n
      → 0 < d
      → length values ≡ n * d
      → load (some (record { n = n; d = d; values = values })) ≡ ok (n, d, values)
  unfolding load
  load_ok n d values p q e =
      let h₁ : ltb 0 n ≡ true = ground (arith, p) in
      let h₂ : ltb 0 d ≡ true = ground (arith, q) in
      let h₃ : leb (n * d) (length values) ≡ true = ground (arith, e) in
      rw (h₁, h₂, h₃) (ap (λ xs. ok (n, d, xs)) (ap (λ k. take k values) (sym e) ∙ take_all values))

  sample_eq :
      (shuffle : List ℕ → List ℕ) (file : VectorFile A) (l r sample_size : ℕ) (subset : List A)
      → load (some file) ≡ ok (file.n, file.d, file.values)
      → r < file.n
      → l ≤ r
      → 0 < sample_size
      → sample_size ≤ r - l + 1
      → copy_indices file.values file.d (take sample_size (shuffle (range l (r - l + 1))))
        ≡ ok subset
      → sample_and_save_subset shuffle (some file) l r sample_size
        ≡ ok (record { n = sample_size; d = file.d; values = subset })
  unfolding sample_and_save_subset
  sample_eq shuffle file l r sample_size subset e p₁ p₂ p₃ p₄ e' =
      let h₁ : ltb r file.n ≡ true = ground (arith, p₁) in
      let h₂ : leb l r ≡ true = ground (arith, p₂) in
      let h₃ : ltb 0 sample_size ≡ true = ground (arith, p₃) in
      let h₄ : leb sample_size (r - l + 1) ≡ true = ground (arith, p₄) in
      rw (e, h₁, h₂, h₃, h₄, e') refl

  -- Sampling from a range [l, r] of a complete file ends without an exception, whatever permutation
  -- the shuffle makes. What is written loads again, as the rows at `sample_size` different indices of
  -- the range, in order.
  pub load-sample_and_save_subset :
      (shuffle : List ℕ → List ℕ) (file : VectorFile A) (l r sample_size : ℕ)
      → ((xs : List ℕ) → length (shuffle xs) ≡ length xs)
      → ((v : ℕ) (xs : List ℕ) → count v (shuffle xs) ≡ count v xs)
      → length file.values ≡ file.n * file.d
      → 0 < file.d
      → r < file.n
      → l ≤ r
      → 0 < sample_size
      → sample_size ≤ r - l + 1
      → (indices : List ℕ) × (subset : List A) × (out : VectorFile A) × (sample_and_save_subset
            shuffle
            (some file)
            l
            r
            sample_size
          ≡ ok out)
        × (load (some out) ≡ ok (sample_size, file.d, subset))
        × (copy_indices file.values file.d indices ≡ ok subset)
        × (length indices ≡ sample_size)
        × ((v : ℕ) → count v indices ≤ (if ltb v l then 0 else if leb v r then 1 else 0))
  load-sample_and_save_subset shuffle file l r sample_size sizes counts whole pos below order
        some_rows few =
      let all = range l (r - l + 1) in
      let indices = take sample_size (shuffle all) in
      let once : (v : ℕ) → count v indices ≤ (if ltb v l then 0 else if leb v r then 1 else 0) =
        λ v. ground (
          arith,
          order,
          count-take v sample_size (shuffle all),
          counts v all,
          count-range v l (r - l + 1),
        ) in
      let size : length indices ≡ sample_size =
        length-take sample_size (shuffle all)
          (omega (arith, sizes all, length-range l (r - l + 1), few)) in
      let (subset, copied, long) =
        copy_indices_ok file.values file.n file.d indices (omega (arith, whole))
          (λ v k. ground (arith, once v, k, below)) in
      (
        indices,
        subset,
        record { n = sample_size; d = file.d; values = subset },
        sample_eq shuffle file l r sample_size subset
            (load_ok file.n file.d file.values (omega (arith, below)) pos whole) below order
            some_rows few copied,
        load_ok sample_size file.d subset some_rows pos (long ∙ ap (λ k. k * file.d) size),
        copied,
        size,
        once,
      )
