-- ===== src/Text.antt =====
-- Decimal numbers in a text file, as `<<` writes and `>>` reads them. A text is its character codes.
pub mod RoundTrip
use mqo_public.Prelude.{
  ℕ, zero, suc, ◌+◌, ◌-◌, ◌*◌, ◌/◌, ◌%◌, Bool, ◌&&◌, ◌||◌, Option, none, some, List, [], ◌∷◌, Run,
  ok, err, out_of_bounds, ◌>>=◌, ltb, leb, ◌==◌, if◌then◌else◌,
}

-- The digits of n in front of a text, with `fuel` digits at most.
unfoldable pub put_digits : ℕ → ℕ → List ℕ → List ℕ
put_digits zero n text = text
put_digits (suc fuel) n text =
    let more = put_digits fuel (n / 10) ((48 + n % 10) ∷ text) in
    if ltb n 10 then (48 + n) ∷ text else more

-- `out << n`, in front of the text that follows.
abbrev pub put_number : ℕ → List ℕ → List ℕ
put_number n text = put_digits (suc n) n text

-- An `int` that may be -1.
abbrev pub put_int : Option ℕ → List ℕ → List ℕ
put_int none text = 45 ∷ 49 ∷ text
put_int (some n) text = put_number n text

abbrev pub is_space : ℕ → Bool
is_space c = c == 32 || leb 9 c && leb c 13

abbrev pub is_digit : ℕ → Bool
is_digit c = leb 48 c && leb c 57

unfoldable pub skip_spaces : List ℕ → List ℕ
skip_spaces [] = []
skip_spaces (c ∷ text) = let rest = skip_spaces text in if is_space c then rest else c ∷ text

-- The digits at the start of a text, after the digits of n.
unfoldable pub get_digits : ℕ → List ℕ → ℕ × List ℕ
get_digits n [] = (n, [])
get_digits n (c ∷ text) =
    let more = get_digits (n * 10 + (c - 48)) text in if is_digit c then more else (n, c ∷ text)

-- A text without a digit leaves a variable that nothing has set.
unfoldable pub get_number : List ℕ → Run (ℕ × List ℕ)
unfolding get_digits
get_number [] = err out_of_bounds
get_number (c ∷ text) =
    let read = get_digits 0 (c ∷ text) in if is_digit c then ok read else err out_of_bounds

-- A negative number that is not -1 stands for no vertex.
unfoldable pub negative : ℕ × List ℕ → Run (Option ℕ × List ℕ)
negative (n, text) =
    if n == 1 then ok (none, text) else if n == 0 then ok (some 0, text) else err out_of_bounds

unfoldable pub positive : ℕ × List ℕ → Run (Option ℕ × List ℕ)
positive (n, text) = ok (some n, text)

unfoldable pub get_signed : List ℕ → Run (Option ℕ × List ℕ)
unfolding get_number negative positive
get_signed [] = err out_of_bounds
get_signed (c ∷ text) =
    if c == 45
    then get_number text >>= negative
    else if c == 43
    then get_number text >>= positive
    else get_number (c ∷ text) >>= positive

-- `in >> x` with an `int` x.
unfoldable pub get_int : List ℕ → Run (Option ℕ × List ℕ)
unfolding skip_spaces get_signed
get_int text = get_signed (skip_spaces text)
