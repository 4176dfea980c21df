-- ===== src/Saver/Table.antt =====
-- The results of a beam size are those that were added last for it.
use mqo_public.Prelude.{ℕ, ◌≡◌, refl, Option, none, some, List, [], ◌∷◌, ◌==◌, if◌then◌else◌, arith}
use mqo_public.Saver.{add}

-- The row of a beam size, the first one.
abbrev pub row_of {ℓ} : {A : Type ℓ} → ℕ → List (ℕ × List A) → Option (List A)
row_of j [] = none
row_of j ((b, values) ∷ m) = if b == j then some values else row_of j m

module _ {A : Type 0} where
  pub row_of-add :
      (j beamsize : ℕ) (values : List A) (m : List (ℕ × List A))
      → row_of j (add beamsize values m) ≡ (if beamsize == j then some values else row_of j m)
  unfolding add
  row_of-add j beamsize values [] = refl
  row_of-add j beamsize values ((b, old) ∷ m) = ground (arith, row_of-add j beamsize values m)
