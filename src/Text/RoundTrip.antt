-- ===== src/Text/RoundTrip.antt =====
-- A number that is written is read back, with the text after it.
use mqo_public.Prelude.{
  ℕ, zero, suc, ◌+◌, ◌-◌, ◌*◌, ◌/◌, ◌%◌, ◌<◌, ◌≡◌, refl, ap, ◌∙◌, true, false, Bool-cases, inl, inr,
  Option, none, some, List, ◌∷◌, ok, ltb, ◌==◌, arith,
}
use mqo_public.Text.{
  put_digits, put_number, put_int, is_space, is_digit, skip_spaces, get_digits, get_number,
  negative, positive, get_signed, get_int,
}

abbrev tens : ℕ → ℕ
tens zero = 1
tens (suc k) = 10 * tens k

below-tens : (n : ℕ) → n < tens n
below-tens zero = omega arith
below-tens (suc n) = omega (arith, below-tens n)

below-tens-suc : (n : ℕ) → n < tens (suc n)
below-tens-suc n = omega (arith, below-tens n)

get_digits_step :
    (n c : ℕ) (text : List ℕ)
    → is_digit c ≡ true
    → get_digits n (c ∷ text) ≡ get_digits (n * 10 + (c - 48)) text
unfolding get_digits
get_digits_step n c text h = rw h refl

get_digits-put_digits :
    (fuel n : ℕ) (text : List ℕ)
    → n < tens fuel
    → 0 < fuel
    → get_digits 0 (put_digits fuel n text) ≡ get_digits n text
unfolding put_digits
get_digits-put_digits zero n text h pos = absurd (omega (arith, pos))
get_digits-put_digits (suc fuel) n text h pos = elim (Bool-cases (ltb n 10)) [
  | inl e ↦
      let value : 0 * 10 + (48 + n - 48) ≡ n = omega arith in
      rw e (get_digits_step 0 (48 + n) text (ground (arith, e)) ∙ ap (λ m. get_digits m text) value)
  | inr e ↦
      let more : 0 < fuel = ground (arith, e, h) in
      let value : n / 10 * 10 + (48 + n % 10 - 48) ≡ n = omega arith in
      rw e (
        get_digits-put_digits fuel (n / 10) ((48 + n % 10) ∷ text) (omega (arith, h)) more
        ∙ get_digits_step (n / 10) (48 + n % 10) text (ground arith)
        ∙ ap (λ m. get_digits m text) value)
]

-- A text whose first character is a digit.
abbrev Starts : List ℕ → Type 0
Starts text = (c : ℕ) × (rest : List ℕ) × (text ≡ c ∷ rest) × (is_digit c ≡ true)

put_digits-Starts : (fuel n : ℕ) (text : List ℕ) → Starts text → Starts (put_digits fuel n text)
unfolding put_digits
put_digits-Starts zero n text s = s
put_digits-Starts (suc fuel) n text s = elim (Bool-cases (ltb n 10)) [
  | inl e ↦ (48 + n, text, rw e refl, ground (arith, e))
  | inr e ↦
      let (c, rest, same, digit) =
        put_digits-Starts fuel (n / 10) ((48 + n % 10) ∷ text)
          (48 + n % 10, text, refl, ground arith) in
      (c, rest, rw e same, digit)
]

put_number-Starts : (n : ℕ) (text : List ℕ) → Starts (put_number n text)
unfolding put_digits
put_number-Starts n text = elim (Bool-cases (ltb n 10)) [
  | inl e ↦ (48 + n, text, rw e refl, ground (arith, e))
  | inr e ↦
      let (c, rest, same, digit) =
        put_digits-Starts n (n / 10) ((48 + n % 10) ∷ text)
          (48 + n % 10, text, refl, ground arith) in
      (c, rest, rw e same, digit)
]

get_int_digit :
    (text : List ℕ)
    → Starts text
    → get_int text ≡ ok (some (get_digits 0 text).0, (get_digits 0 text).1)
unfolding get_int get_signed get_number positive skip_spaces
get_int_digit text (c, rest, same, digit) =
    let no_space : is_space c ≡ false = ground (arith, digit) in
    let no_minus : (c == 45) ≡ false = ground (arith, digit) in
    let no_plus : (c == 43) ≡ false = ground (arith, digit) in
    rw (same, no_space, no_minus, no_plus, digit) refl

get_digits_end :
    (n c : ℕ) (text : List ℕ) → is_digit c ≡ false → get_digits n (c ∷ text) ≡ (n, c ∷ text)
unfolding get_digits
get_digits_end n c text h = rw h refl

-- What `put_number` writes in front of a character that is no digit, `get_int` reads.
pub get_int-put_number :
    (n c : ℕ) (text : List ℕ)
    → is_digit c ≡ false
    → get_int (put_number n (c ∷ text)) ≡ ok (some n, c ∷ text)
get_int-put_number n c text h =
    let read : get_digits 0 (put_number n (c ∷ text)) ≡ (n, c ∷ text) =
      get_digits-put_digits (suc n) n (c ∷ text) (below-tens-suc n) (omega arith)
      ∙ get_digits_end n c text h in
    get_int_digit (put_number n (c ∷ text)) (put_number-Starts n (c ∷ text))
    ∙ ap (λ (r : ℕ × List ℕ). ok (some r.0, r.1)) read

pub get_int-put_int :
    (p : Option ℕ) (c : ℕ) (text : List ℕ)
    → is_digit c ≡ false
    → get_int (put_int p (c ∷ text)) ≡ ok (p, c ∷ text)
unfolding get_int get_signed get_number negative skip_spaces get_digits
get_int-put_int none c text h = rw h refl
get_int-put_int (some n) c text h = get_int-put_number n c text h

-- White space in front of a number is skipped.
pub get_int-space : (c : ℕ) (text : List ℕ) → is_space c ≡ true → get_int (c ∷ text) ≡ get_int text
unfolding get_int skip_spaces
get_int-space c text h = rw h refl
