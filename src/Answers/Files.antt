-- ===== src/Answers/Files.antt =====
-- What `save2DvecToBinary` writes, `load2DvecFromBinary` reads.
use mqo_public.Prelude.{
  ℕ, zero, suc, ◌*◌, ◌/◌, ◌<◌, ◌≡◌, refl, sym, ap, ◌∙◌, true, some, List, [], ◌∷◌, ◌++◌, append-nil,
  append_assoc, length, All, arith,
}
use mqo_public.Answers.{
  put, get, put_ints, get_ints, put_rows, get_rows, save_2d_vec_to_binary, load_2d_vec_from_binary,
}

-- One more than the greatest number of `w` bytes.
abbrev pub limit : ℕ → ℕ
limit zero = 1
limit (suc w) = 256 * limit w

get-put : (w x : ℕ) (rest : List ℕ) → x < limit w → get w (put w x ++ rest) ≡ some (x, rest)
unfolding get put
get-put zero x rest h = ap (λ y. some (y, rest)) (omega (arith, h))
get-put (suc w) x rest h =
    rw (get-put w (x / 256) rest (omega (arith, h))) (ap (λ y. some (y, rest)) (omega arith))

get_ints_cons :
    (n x : ℕ) (bytes rest rest' xs : List ℕ)
    → get 4 bytes ≡ some (x, rest)
    → get_ints n rest ≡ some (xs, rest')
    → get_ints (suc n) bytes ≡ some (x ∷ xs, rest')
unfolding get_ints
get_ints_cons n x bytes rest rest' xs h k = rw (get_ints, h, k) refl

get_ints-put_ints :
    (xs rest : List ℕ)
    → All (λ x. x < limit 4) xs
    → get_ints (length xs) (put_ints xs ++ rest) ≡ some (xs, rest)
unfolding get_ints put_ints
get_ints-put_ints [] rest h = refl
get_ints-put_ints (x ∷ xs) rest h =
    get_ints_cons (length xs) x ((put 4 x ++ put_ints xs) ++ rest) (put_ints xs ++ rest) rest xs
      (ap (get 4) (sym (append_assoc (put 4 x) (put_ints xs) rest))
        ∙ get-put 4 x (put_ints xs ++ rest) h.0)
      (get_ints-put_ints xs rest h.1)

get_rows_cons :
    (n size : ℕ) (bytes rest rest' xs : List ℕ) (rows : List (List ℕ))
    → get 8 bytes ≡ some (size, rest)
    → get_ints size rest ≡ some (xs, rest')
    → get_rows (suc n) bytes rows ≡ get_rows n rest' (rows ++ xs ∷ [])
unfolding get_rows
get_rows_cons n size bytes rest rest' xs rows h k = rw (get_rows, h, k) refl

-- Every row is shorter than 2^64 and holds numbers of 32 bits.
abbrev pub AreInts : List (List ℕ) → Type 0
AreInts rows = All (λ r. (length r < limit 8) × All (λ x. x < limit 4) r) rows

get_rows-put_rows :
    (rows before : List (List ℕ))
    → AreInts rows
    → get_rows (length rows) (put_rows rows) before ≡ (true, before ++ rows)
unfolding get_rows put_rows
get_rows-put_rows [] before h = ap (λ r. (true, r)) (sym (append-nil before))
get_rows-put_rows (r ∷ rows) before h =
    get_rows_cons (length rows) (length r) (put_rows (r ∷ rows)) (put_ints r ++ put_rows rows)
      (put_rows rows) r before (get-put 8 (length r) (put_ints r ++ put_rows rows) h.0.0)
      (get_ints-put_ints r (put_rows rows) h.0.1)
    ∙ get_rows-put_rows rows (before ++ r ∷ []) h.1
    ∙ ap (λ l. (true, l)) (append_assoc before (r ∷ []) rows)

load_eq :
    (before : List (List ℕ)) (size : ℕ) (bytes rest : List ℕ)
    → get 8 bytes ≡ some (size, rest)
    → load_2d_vec_from_binary before (some bytes) ≡ get_rows size rest []
unfolding load_2d_vec_from_binary
load_eq before size bytes rest h = rw (load_2d_vec_from_binary, h) refl

-- `load2DvecFromBinary` of a file that `save2DvecToBinary` has written succeeds and gives back the
-- rows, whatever the vector held before, if there are fewer than 2^64 rows, each shorter than 2^64 and
-- of numbers of 32 bits.
pub load_2d_vec_from_binary-save_2d_vec_to_binary :
    (before rows : List (List ℕ))
    → length rows < limit 8
    → AreInts rows
    → load_2d_vec_from_binary before (some (save_2d_vec_to_binary rows)) ≡ (true, rows)
unfolding save_2d_vec_to_binary
load_2d_vec_from_binary-save_2d_vec_to_binary before rows h k =
    load_eq before (length rows) (put 8 (length rows) ++ put_rows rows) (put_rows rows)
      (get-put 8 (length rows) (put_rows rows) h)
    ∙ get_rows-put_rows rows [] k
