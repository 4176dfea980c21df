-- ===== src/Floats.antt =====
-- What the program does with `float` and `double`: the operations that its code calls, and no laws.
-- Conversions that C++ makes implicitly are written out (`to_double`, `of_int`, `d_of_int`).
use mqo_public.Prelude.{ℕ, Bool}

pub record Floats : Type 1 where
  pub Float : Type 0
  pub Double : Type 0
  pub zero : Float
  pub one : Float
  pub infinity : Float
  pub lt : Float → Float → Bool
  pub add : Float → Float → Float
  pub sub : Float → Float → Float
  pub mul : Float → Float → Float
  pub div : Float → Float → Float
  pub root : Float → Float
  pub of_int : ℕ → Float
  pub d_lt : Double → Double → Bool
  pub d_add : Double → Double → Double
  pub d_sub : Double → Double → Double
  pub d_mul : Double → Double → Double
  pub d_div : Double → Double → Double
  pub d_root : Double → Double
  pub d_infinity : Double
  pub d_of_int : ℕ → Double
  pub to_double : Float → Double
