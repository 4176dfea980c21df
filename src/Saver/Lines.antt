-- ===== src/Saver/Lines.antt =====
-- The text that `save` writes is a table.
use mqo_public.Prelude.{
  ℕ, zero, suc, ◌+◌, ◌/◌, ◌%◌, ◌<◌, ◌≡◌, refl, ◌∙◌, Bool-cases, inl, inr, List, [], ◌∷◌, ◌++◌,
  count, ltb, ◌==◌, if◌then◌else◌, arith,
}
use mqo_public.Text.{put_digits}
use mqo_public.Saver.{save_values}

-- A text split at the ends of its lines; what follows the last one comes last.
abbrev pub lines : List ℕ → List (List ℕ)
lines [] = [] ∷ []
lines (c ∷ text) = if c == 10 then [] ∷ lines text else push (lines text)
  where
    push : List (List ℕ) → List (List ℕ)
    push [] = (c ∷ []) ∷ []
    push (l ∷ ls) = (c ∷ l) ∷ ls

-- Digits are no commas and no ends of lines.
pub count-put_digits :
    (c fuel n : ℕ) (text : List ℕ) → c < 48 → count c (put_digits fuel n text) ≡ count c text
unfolding put_digits
count-put_digits c zero n text h = refl
count-put_digits c (suc fuel) n text h = elim (Bool-cases (ltb n 10)) [
  | inl e ↦ rw e (ground (arith, h))
  | inr e ↦ rw e (count-put_digits c fuel (n / 10) ((48 + n % 10) ∷ text) h ∙ ground (arith, h))
]

module _ {A : Type 0} (write_key : ℕ → List ℕ) (write : A → List ℕ) where
  -- A key has no comma, a value one, between its recall and its time, and neither has an end of line.
  pub record WritesFields : Type 0 where
    pub key_commas : (b : ℕ) → count 44 (write_key b) ≡ 0
    pub key_ends : (b : ℕ) → count 10 (write_key b) ≡ 0
    pub value_commas : (x : A) → count 44 (write x) ≡ 1
    pub value_ends : (x : A) → count 10 (write x) ≡ 0

  line : ℕ → List A → List ℕ
  line b values = write_key b ++ save_values write_key write values []
