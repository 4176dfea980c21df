-- ===== src/DataScripts/Correct.antt =====
-- What the scripts write loads as the rows that it was made from.
use mqo_public.Prelude.{
  mul_mono, length-take, take_all, take-add, length-drop, take-append, ℕ, zero, suc, ◌+◌, ◌*◌, ◌<◌,
  ◌≤◌, ◌≡◌, refl, sym, ap, ◌∙◌, ◌==◌, true, false, Option, none, some, List, [], ◌∷◌, ◌++◌, map,
  length, length-map, length-append, take, drop, replicate, Run, ok, err, guard, runtime_error,
  ◌>>=◌, ◌>>◌, ltb, leb, Bool-cases, inl, inr, arith,
}
use mqo_public.DataFiles.{VectorFile, u8bin, fbin, load, get_data}
use mqo_public.DataScripts.{
  convert_rows, convert_u8bin_to_fbin, read_buffer, sample_and_save_norandom,
}

map-append : {A B : Type 0} (f : A → B) (xs ys : List A) → map f (xs ++ ys) ≡ map f xs ++ map f ys
map-append f [] ys = refl
map-append f (x ∷ xs) ys = ap (λ zs. f x ∷ zs) (map-append f xs ys)

loaded : {A : Type 0} → ℕ → ℕ → List A → Run (ℕ × ℕ × List A)
loaded n d values =
    guard (leb (n * d) (length values)) runtime_error >> ok (n, d, take (n * d) values)

module _ {F U : Type 0} (to_float : U → F) where
  rows_whole :
      (k d : ℕ) (bytes : List U)
      → k * d ≤ length bytes
      → convert_rows to_float k d bytes ≡ map to_float (take (k * d) bytes)
  unfolding convert_rows
  rows_whole zero d bytes h =
      let e : 0 * d ≡ 0 = omega arith in ap (λ m. map to_float (take m bytes)) (sym e)
  rows_whole (suc k) d bytes h =
      let first : length bytes ≡ length (drop d bytes) + d =
        sym (length-drop d bytes (omega (arith, h))) in
      let whole : ltb (length bytes) d ≡ false = ground (arith, h) in
      let size : suc k * d ≡ d + k * d = omega arith in
      rw (whole, rows_whole k d (drop d bytes) (omega (arith, h, first)))
        (sym (map-append to_float (take d bytes) (take (k * d) (drop d bytes)))
          ∙ ap (map to_float) (sym (take-add d (k * d) bytes))
          ∙ ap (λ m. map to_float (take m bytes)) (sym size))

  rows_short :
      (k d : ℕ) (bytes : List U)
      → length bytes < k * d
      → length (convert_rows to_float k d bytes) < k * d
  unfolding convert_rows
  rows_short zero d bytes h = absurd (omega (arith, h))
  rows_short (suc k) d bytes h = elim (Bool-cases (ltb (length bytes) d)) [
    | inl short ↦ rw short (omega (arith, h))
    | inr whole ↦
        let first : length (drop d bytes) + d ≡ length bytes =
          length-drop d bytes (ground (arith, whole)) in
        rw whole (
          omega (
            arith,
            rows_short k d (drop d bytes) (omega (arith, h, first)),
            length-append (map to_float (take d bytes)) (convert_rows to_float k d (drop d bytes)),
            length-map to_float (take d bytes),
            length-take d bytes (ground (arith, whole)),
          ))
  ]

  floats : ℕ × ℕ × List U → Run (ℕ × ℕ × List F)
  floats (n, d, bytes) = ok (n, d, map to_float bytes)

  values_same :
      (n d : ℕ) (bytes : List U)
      → loaded n d (convert_rows to_float n d bytes) ≡ (loaded n d bytes >>= floats)
  unfolding loaded floats
  values_same n d bytes = elim (Bool-cases (leb (n * d) (length bytes))) [
    | inl whole ↦
        let rows : convert_rows to_float n d bytes ≡ map to_float (take (n * d) bytes) =
          rows_whole n d bytes (ground (arith, whole)) in
        let size : length (map to_float (take (n * d) bytes)) ≡ n * d =
          length-map to_float (take (n * d) bytes)
          ∙ length-take (n * d) bytes (ground (arith, whole)) in
        let fits : leb (n * d) (length (map to_float (take (n * d) bytes))) ≡ true =
          ground (arith, size) in
        let all : take (n * d) (map to_float (take (n * d) bytes))
            ≡ map to_float (take (n * d) bytes) =
          ap (λ k. take k (map to_float (take (n * d) bytes))) (sym size)
          ∙ take_all (map to_float (take (n * d) bytes)) in
        rw (rows, whole, fits, all) refl
    | inr short ↦
        let less : leb (n * d) (length (convert_rows to_float n d bytes)) ≡ false =
          ground (arith, rows_short n d bytes (ground (arith, short))) in
        rw (short, less) refl
  ]

  -- `get_data` gives the same for a `.u8bin` file and for the `.fbin` file that it is converted to:
  -- the same rows, or an exception for both. That holds for files whose header is complete, the
  -- truncated ones included.
  pub get_data-convert_u8bin_to_fbin :
      (file : Option (VectorFile U))
      → get_data to_float (fbin (convert_u8bin_to_fbin to_float file))
        ≡ get_data to_float (u8bin file)
  unfolding get_data convert_u8bin_to_fbin load loaded floats
  get_data-convert_u8bin_to_fbin none = refl
  get_data-convert_u8bin_to_fbin (some f) = elim (Bool-cases (f.n == 0)) [
    | inl e ↦ let no_rows : ltb 0 f.n ≡ false = ground (arith, e) in rw (e, no_rows) refl
    | inr e ↦ elim (Bool-cases (f.d == 0)) [
      | inl e' ↦
          let rows : ltb 0 f.n ≡ true = ground (arith, e) in
          let no_dim : ltb 0 f.d ≡ false = ground (arith, e') in rw (e, e', rows, no_dim) refl
      | inr e' ↦
          let rows : ltb 0 f.n ≡ true = ground (arith, e) in
          let dim : ltb 0 f.d ≡ true = ground (arith, e') in
          rw (e, e', rows, dim) (values_same f.n f.d f.values)
    ]
  ]

module _ {A : Type 0} (default : A) where
  load-norandom_step :
      (n d : ℕ) (values : List A)
      → 0 < n
      → 0 < d
      → n * d ≤ length values
      → load (some (record { n = n; d = d; values = values })) ≡ ok (n, d, take (n * d) values)
  unfolding load
  load-norandom_step n d values p q long =
      let h₁ : ltb 0 n ≡ true = ground (arith, p) in
      let h₂ : ltb 0 d ≡ true = ground (arith, q) in
      let h₃ : leb (n * d) (length values) ≡ true = ground (arith, long) in rw (h₁, h₂, h₃) refl

  -- A sample of 0 < samplesize ≤ n rows of a complete file loads as the first samplesize rows. A sample
  -- of more rows is refused.
  pub load-sample_and_save_norandom :
      (f : VectorFile A) (samplesize : ℕ)
      → 0 < samplesize
      → 0 < f.d
      → f.n * f.d ≤ length f.values
      → (samplesize ≤ f.n
          → (out : VectorFile A) × (sample_and_save_norandom default (some f) samplesize ≡ ok out)
            × (load (some out) ≡ ok (samplesize, f.d, take (samplesize * f.d) f.values)))
        × (f.n < samplesize
            → sample_and_save_norandom default (some f) samplesize ≡ err runtime_error)
  unfolding sample_and_save_norandom
  load-sample_and_save_norandom f samplesize pos dim long = (
    λ few.
        let size = samplesize * f.d in
        let fits : leb samplesize f.n ≡ true = ground (arith, few) in
        let enough : size ≤ length f.values =
          omega (arith, long, mul_mono samplesize f.n f.d few) in
        let buffer = read_buffer default size f.values in
        let same : buffer ≡ take size f.values =
          take-append size f.values (replicate size default) enough in
        let length_same : length buffer ≡ size =
          ap length same ∙ length-take size f.values enough in
        let all : take size buffer ≡ take size f.values =
          ap (λ k. take k buffer) (sym length_same) ∙ take_all buffer ∙ same in
        (
          record { n = samplesize; d = f.d; values = buffer },
          rw fits refl,
          load-norandom_step samplesize f.d buffer pos dim (omega (arith, length_same))
              ∙ ap (λ vs. ok (samplesize, f.d, vs)) all,
        ),
    λ many. let over : leb samplesize f.n ≡ false = ground (arith, many) in rw over refl,
  )
