-- ===== src/Examples/Numbers.antt =====
-- Concrete floats for the tests: integers and infinity.
use mqo_public.Prelude.{
  arith, ◌≡◌, ℕ, suc, ◌+◌, ◌-◌, ◌*◌, refl, Bool, true, false, ltb, leb, if◌then◌else◌,
}
use mqo_public.Queue.{IsStrictWeak}
use mqo_public.Floats.{Floats}
use mqo_public.GroupMst.Rounds.{IsInfinity}

-- `negsuc n` is -(n + 1).
pub data Number : Type 0 where
  pos : ℕ → Number
  negsuc : ℕ → Number
  infinite : Number

abbrev pub plus_part : Number → ℕ
plus_part (pos n) = n
plus_part (negsuc n) = 0
plus_part infinite = 0

abbrev pub minus_part : Number → ℕ
minus_part (pos n) = 0
minus_part (negsuc n) = suc n
minus_part infinite = 0

abbrev pub difference : ℕ → ℕ → Number
difference a b = if leb b a then pos (a - b) else negsuc (b - a - 1)

abbrev pub finite : (ℕ → ℕ → ℕ → ℕ → Number) → Number → Number → Number
finite f infinite b = infinite
finite f a infinite = infinite
finite f a b = f (plus_part a) (minus_part a) (plus_part b) (minus_part b)

abbrev pub plus : Number → Number → Number
plus = finite λ a b c d. difference (a + c) (b + d)

abbrev pub minus : Number → Number → Number
minus = finite λ a b c d. difference (a + d) (b + c)

abbrev pub times : Number → Number → Number
times = finite λ a b c d. difference (a * c + b * d) (a * d + b * c)

abbrev pub below : Number → Number → Bool
below infinite b = false
below a infinite = true
below a b = ltb (plus_part a + minus_part b) (plus_part b + minus_part a)

abbrev pub numbers : Floats
numbers = record {
  Float = Number;
  Double = Number;
  zero = pos 0;
  one = pos 1;
  infinity = infinite;
  lt = below;
  add = plus;
  sub = minus;
  mul = times;
  div = λ a b. a;
  root = λ a. a;
  of_int = pos;
  d_lt = below;
  d_add = plus;
  d_sub = minus;
  d_mul = times;
  d_div = λ a b. a;
  d_root = λ a. a;
  d_infinity = infinite;
  d_of_int = pos;
  to_double = λ a. a;
}

pub numbers-IsInfinity : IsInfinity numbers
numbers-IsInfinity = record { zero_below = refl; not_below = λ x. refl }

pub numbers-IsStrictWeak : IsStrictWeak below
numbers-IsStrictWeak = record { asym = asym; neg_trans = neg_trans }
  where
    asym : (a b : Number) → below a b ≡ true → below b a ≡ false
    asym infinite b h = cc
    asym (pos a) infinite h = refl
    asym (negsuc a) infinite h = refl
    asym (pos a) (pos b) h = ground (arith, h)
    asym (pos a) (negsuc b) h = ground (arith, h)
    asym (negsuc a) (pos b) h = ground (arith, h)
    asym (negsuc a) (negsuc b) h = ground (arith, h)

    neg_trans : (a b c : Number) → below a b ≡ false → below b c ≡ false → below a c ≡ false
    neg_trans infinite b c h k = refl
    neg_trans (pos a) infinite c h k = cc
    neg_trans (negsuc a) infinite c h k = cc
    neg_trans (pos a) (pos b) infinite h k = cc
    neg_trans (pos a) (negsuc b) infinite h k = cc
    neg_trans (negsuc a) (pos b) infinite h k = cc
    neg_trans (negsuc a) (negsuc b) infinite h k = cc
    neg_trans (pos a) (pos b) (pos c) h k = ground (arith, h, k)
    neg_trans (pos a) (pos b) (negsuc c) h k = ground (arith, h, k)
    neg_trans (pos a) (negsuc b) (pos c) h k = ground (arith, h, k)
    neg_trans (pos a) (negsuc b) (negsuc c) h k = ground (arith, h, k)
    neg_trans (negsuc a) (pos b) (pos c) h k = ground (arith, h, k)
    neg_trans (negsuc a) (pos b) (negsuc c) h k = ground (arith, h, k)
    neg_trans (negsuc a) (negsuc b) (pos c) h k = ground (arith, h, k)
    neg_trans (negsuc a) (negsuc b) (negsuc c) h k = ground (arith, h, k)
