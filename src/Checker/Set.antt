-- ===== src/Checker/Set.antt =====
-- Sets as ascending lists: membership after an insertion, and that equal members make equal sets.
use mqo_public.Prelude.{
  ℕ, zero, suc, ◌+◌, ◌<◌, ◌≤◌, ◌≡◌, refl, true, false, ◌||◌, ◌↔◌, List, [], ◌∷◌, count, ◌==◌, ltb,
  if◌then◌else◌, arith,
}
use mqo_public.Trajectory.{Edge, nodes}
use mqo_public.Checker.{insert, set_eq, contains, fill, collect}

-- Strictly ascending, from `b` on.
abbrev pub Ascends : ℕ → List ℕ → Type 0
Ascends b [] = Unit
Ascends b (x ∷ xs) = (b ≤ x) × Ascends (suc x) xs

pub contains_iff : (v : ℕ) (s : List ℕ) → (contains v s ≡ true) ↔ (0 < count v s)
unfolding contains
contains_iff v [] = ground arith
contains_iff v (x ∷ s) = ground (arith, contains_iff v s)

pub contains-insert : (v x : ℕ) (s : List ℕ) → contains v (insert x s) ≡ (x == v || contains v s)
unfolding contains insert
contains-insert v x [] = ground arith
contains-insert v x (y ∷ s) = ground (arith, contains-insert v x s)

Ascends-mono : (b c : ℕ) (s : List ℕ) → b ≤ c → Ascends c s → Ascends b s
Ascends-mono b c [] h a = tt
Ascends-mono b c (x ∷ s) h a = (omega arith, a.1)

pub insert-Ascends : (b x : ℕ) (s : List ℕ) → b ≤ x → Ascends b s → Ascends b (insert x s)
unfolding insert
insert-Ascends b x [] h a = (h, tt)
insert-Ascends b x (y ∷ s) h a = ground (arith, insert-Ascends (suc y) x s)

contains-below : (v b : ℕ) (s : List ℕ) → v < b → Ascends b s → contains v s ≡ false
unfolding contains
contains-below v b [] h a = refl
contains-below v b (x ∷ s) h a = ground (arith, contains-below v (suc x) s)

-- Two ascending lists with the same members are equal.
pub Ascends-ext :
    (b : ℕ) (s r : List ℕ)
    → Ascends b s
    → Ascends b r
    → ((v : ℕ) → contains v s ≡ contains v r)
    → s ≡ r
unfolding contains
Ascends-ext b [] [] p q h = refl
Ascends-ext b [] (y ∷ r) p q h = ground (arith, h y)
Ascends-ext b (x ∷ s) [] p q h = ground (arith, h x)
Ascends-ext b (x ∷ s) (y ∷ r) p q h =
    let heads : x ≡ y =
      ground (arith, h x, h y, contains-below x (suc y) r, contains-below y (suc x) s) in
    let tails : s ≡ r =
      Ascends-ext (suc x) s r p.1 (rw heads q.1)
        (λ v. ground (arith, h v, contains-below v (suc x) s, contains-below v (suc y) r)) in
    cc

pub set_eq_iff : (s r : List ℕ) → (set_eq s r ≡ true) ↔ (s ≡ r)
unfolding set_eq
set_eq_iff [] [] = (λ _. refl, λ _. refl)
set_eq_iff [] (y ∷ r) = ground arith
set_eq_iff (x ∷ s) [] = ground arith
set_eq_iff (x ∷ s) (y ∷ r) = ground (arith, set_eq_iff s r)

pub fill-Ascends : (k i : ℕ) (s : List ℕ) → Ascends 0 s → Ascends 0 (fill k i s)
unfolding fill
fill-Ascends zero i s a = a
fill-Ascends (suc k) i s a =
    fill-Ascends k (suc i) (insert i s) (insert-Ascends 0 i s (omega arith) a)

pub collect-Ascends : (t : List Edge) (s : List ℕ) → Ascends 0 s → Ascends 0 (collect t s)
unfolding collect
collect-Ascends [] s a = a
collect-Ascends ((v, p) ∷ t) s a =
    collect-Ascends t (insert v s) (insert-Ascends 0 v s (omega arith) a)

pub contains-fill :
    (v k i : ℕ) (s : List ℕ)
    → (contains v (fill k i s) ≡ true)
      ↔ ((if ltb v i then false else ltb v (i + k)) || contains v s ≡ true)
unfolding fill
contains-fill v zero i s = ground arith
contains-fill v (suc k) i s =
    ground (arith, contains-fill v k (suc i) (insert i s), contains-insert v i s)

pub contains-collect :
    (v : ℕ) (t : List Edge) (s : List ℕ)
    → (contains v (collect t s) ≡ true) ↔ (0 < count v (nodes t) + count v s)
unfolding collect
contains-collect v [] s = ground (arith, contains_iff v s)
contains-collect v ((u, p) ∷ t) s = ground (
  arith,
  contains-collect v t (insert u s),
  contains-insert v u s,
  contains_iff v s,
  contains_iff v (insert u s),
)
