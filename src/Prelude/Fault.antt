-- ===== src/Prelude/Fault.antt =====
-- The result of a run that may go wrong: what C++ leaves undefined, an assertion that fails, an
-- exception, and fuel that does not reach the end of a loop.
use mathlib.Core.Path.{◌≡◌, refl}
use mathlib.Core.Logic.{◌⊎◌, inl, inr}
use mathlib.Core.Bool.{Bool, true, false}
use mathlib.Core.List.{List}
use mathlib.Core.Option.{Option, none, some}
use Prim.Native.Nat.{ℕ}
use mqo_public.Prelude.Lists.{get_elem?}

pub data Error : Type 0 where
  out_of_bounds int_overflow assertion_failed runtime_error out_of_fuel : Error

pub data Run {ℓ} (A : Type ℓ) : Type ℓ where
  ok : A → Run A
  err : Error → Run A

-- `xs[i]` of a vector, and any other value that may be missing.
abbrev pub expect {ℓ} : {A : Type ℓ} → Option A → Error → Run A
expect (some a) fault = ok a
expect none fault = err fault

abbrev pub index {ℓ} : {A : Type ℓ} → List A → ℕ → Run A
index xs i = expect (get_elem? xs i) out_of_bounds

-- The first fault ends the run.
infixl 5 ◌>>=◌
abbrev pub ◌>>=◌ {ℓ κ} : {A : Type ℓ} {B : Type κ} → Run A → (A → Run B) → Run B
err fault >>= next = err fault
ok a >>= next = next a

-- `assert`, and `if (…) throw …` with the test negated.
abbrev pub guard : Bool → Error → Run (Unit {0})
guard false fault = err fault
guard true fault = ok tt

infixl 5 ◌>>◌
abbrev pub ◌>>◌ {ℓ} : {B : Type ℓ} → Run (Unit {0}) → Run B → Run B
first >> second = first >>= λ _. second

pub Run-cases {ℓ} : {A : Type ℓ} (m : Run A) → ((a : A) × (m ≡ ok a)) ⊎ ((e : Error) × (m ≡ err e))
Run-cases (ok a) = inl (a, refl)
Run-cases (err e) = inr (e, refl)

-- The first half of a run that ends well.
pub bind_ok :
    {A B : Type 0} (m : Run A) (f : A → Run B) (b : B)
    → (m >>= f) ≡ ok b
    → (a : A) × (m ≡ ok a) × (f a ≡ ok b)
bind_ok (ok a) f b h = (a, refl, h)
bind_ok (err e) f b h = cc

pub expect_ok {ℓ} : {A : Type ℓ} (o : Option A) (e : Error) (a : A) → expect o e ≡ ok a → o ≡ some a
expect_ok none e a h = cc
expect_ok (some x) e a h = cc
