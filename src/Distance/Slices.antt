-- ===== src/Distance/Slices.antt =====
-- Entries of slices of a list, and every sixteenth entry.
use mqo_public.Prelude.{
  ℕ, zero, suc, ◌+◌, ◌<◌, ◌≤◌, ◌≡◌, refl, sym, ap, ◌∙◌, some, List, [], ◌∷◌, length, get_elem?,
  take, drop, length-take, length-drop, arith,
}
use mqo_public.Distance.Bounds.{drop-get}

drop-nil {ℓ} : {A : Type ℓ} (n : ℕ) → drop {A = A} n [] ≡ []
drop-nil zero = refl
drop-nil (suc n) = refl

drop-drop {ℓ} : {A : Type ℓ} (m n : ℕ) (xs : List A) → drop n (drop m xs) ≡ drop (m + n) xs
drop-drop zero n xs = let e : n ≡ 0 + n = omega arith in ap (λ k. drop k xs) e
drop-drop (suc m) n [] = drop-nil n ∙ sym (drop-nil (suc m + n))
drop-drop (suc m) n (x ∷ xs) =
    let e : suc (m + n) ≡ suc m + n = omega arith in drop-drop m n xs ∙ ap (λ k. drop k (x ∷ xs)) e

get_elem?-take {ℓ} :
    {A : Type ℓ} (xs : List A) (n l : ℕ) (x : A)
    → l < n
    → get_elem? xs l ≡ some x
    → get_elem? (take n xs) l ≡ some x
get_elem?-take [] n l x h e = cc
get_elem?-take (y ∷ xs) zero l x h e = absurd (omega (arith, h))
get_elem?-take (y ∷ xs) (suc n) zero x h e = e
get_elem?-take (y ∷ xs) (suc n) (suc l) x h e = get_elem?-take xs n l x (omega (arith, h)) e

get_elem?-drop {ℓ} :
    {A : Type ℓ} (xs : List A) (m l : ℕ) → get_elem? (drop m xs) l ≡ get_elem? xs (m + l)
get_elem?-drop xs zero l = let e : l ≡ 0 + l = omega arith in ap (get_elem? xs) e
get_elem?-drop [] (suc m) l = refl
get_elem?-drop (x ∷ xs) (suc m) l =
    let e : suc (m + l) ≡ suc m + l = omega arith in
    get_elem?-drop xs m l ∙ ap (get_elem? (x ∷ xs)) e

-- An entry of a slice.
pub get_elem?-slice {ℓ} :
    {A : Type ℓ} (xs : List A) (start n l : ℕ) (x : A)
    → l < n
    → get_elem? xs (start + l) ≡ some x
    → get_elem? (take n (drop start xs)) l ≡ some x
get_elem?-slice xs start n l x h e =
    get_elem?-take (drop start xs) n l x h (get_elem?-drop xs start l ∙ e)

pub length-slice {ℓ} :
    {A : Type ℓ} (xs : List A) (m n : ℕ) → m + n ≤ length xs → length (take n (drop m xs)) ≡ n
length-slice xs m n h =
    length-take n (drop m xs) (omega (arith, h, length-drop m xs (omega (arith, h))))

-- `k` entries, the first and then each sixteenth after it.
abbrev pub strided {ℓ} : {A : Type ℓ} → ℕ → List A → List A
strided zero xs = []
strided (suc k) [] = []
strided (suc k) (x ∷ xs) = x ∷ strided k (drop 15 xs)

pub strided-cons {ℓ} :
    {A : Type ℓ} (xs : List A) (start k : ℕ) (x : A)
    → start < length xs
    → get_elem? xs start ≡ some x
    → strided (suc k) (drop start xs) ≡ x ∷ strided k (drop (start + 16) xs)
strided-cons xs start k x h e =
    let (y, e', d) = drop-get xs start h in
    let same : y ≡ x = cc in
    let next : suc start + 15 ≡ start + 16 = omega arith in
    ap (strided (suc k)) d
    ∙ ap (λ z. z ∷ strided k (drop 15 (drop (suc start) xs))) same
    ∙ ap (λ zs. x ∷ strided k zs) (drop-drop (suc start) 15 xs ∙ ap (λ m. drop m xs) next)
