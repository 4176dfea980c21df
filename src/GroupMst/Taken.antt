-- ===== src/GroupMst/Taken.antt =====
-- The queries of a group that its flags `inMST` mark, and how many are not marked.
use mqo_public.Prelude.{
  ℕ, zero, suc, ◌+◌, ◌<◌, ◌≡◌, refl, ap, Bool, true, false, some, List, [], ◌∷◌, length, set,
  get_elem?, count, count_if, replicate, if◌then◌else◌, arith, ◌==◌,
}
use mqo_public.Trajectory.{Edge, is_root}

-- The queries of the group that are in the tree, and how many are not.
abbrev pub taken : List ℕ → List Bool → List ℕ
taken [] done = []
taken (g ∷ group) [] = []
taken (g ∷ group) (true ∷ done) = g ∷ taken group done
taken (g ∷ group) (false ∷ done) = taken group done

abbrev pub opens : List Bool → ℕ
opens [] = 0
opens (true ∷ done) = opens done
opens (false ∷ done) = suc (opens done)

pub opens-pos : (done : List Bool) → 0 < opens done → (j : ℕ) × (get_elem? done j ≡ some false)
opens-pos [] h = absurd (omega arith)
opens-pos (true ∷ done) h = let (j, e) = opens-pos done h in (suc j, e)
opens-pos (false ∷ done) h = (0, refl)

pub opens-set :
    (done : List Bool) (c : ℕ)
    → get_elem? done c ≡ some false
    → suc (opens (set done c true)) ≡ opens done
opens-set [] c h = cc
opens-set (true ∷ done) zero h = cc
opens-set (false ∷ done) zero h = refl
opens-set (true ∷ done) (suc c) h = opens-set done c h
opens-set (false ∷ done) (suc c) h = ap suc (opens-set done c h)

pub opens-replicate : (m : ℕ) → opens (replicate m false) ≡ m
opens-replicate zero = refl
opens-replicate (suc m) = ap suc (opens-replicate m)

pub taken-set :
    (v x c : ℕ) (group : List ℕ) (done : List Bool)
    → get_elem? done c ≡ some false
    → get_elem? group c ≡ some x
    → count v (taken group (set done c true))
      ≡ (if x == v then 1 else 0) + count v (taken group done)
taken-set v x c [] done h k = cc
taken-set v x c (g ∷ group) [] h k = cc
taken-set v x zero (g ∷ group) (true ∷ done) h k = cc
taken-set v x zero (g ∷ group) (false ∷ done) h k = let e : g ≡ x = cc in rw e
taken-set v x (suc c) (g ∷ group) (true ∷ done) h k = omega (arith, taken-set v x c group done h k)
taken-set v x (suc c) (g ∷ group) (false ∷ done) h k = taken-set v x c group done h k

pub taken-pos :
    (g p : ℕ) (group : List ℕ) (done : List Bool)
    → get_elem? group p ≡ some g
    → get_elem? done p ≡ some true
    → 0 < count g (taken group done)
taken-pos g p [] done h k = cc
taken-pos g p (x ∷ group) [] h k = cc
taken-pos g zero (x ∷ group) (true ∷ done) h k = ground arith
taken-pos g zero (x ∷ group) (false ∷ done) h k = cc
taken-pos g (suc p) (x ∷ group) (true ∷ done) h k = ground (arith, taken-pos g p group done h k)
taken-pos g (suc p) (x ∷ group) (false ∷ done) h k = taken-pos g p group done h k

pub taken-all :
    (group : List ℕ) (done : List Bool)
    → length done ≡ length group
    → opens done ≡ 0
    → taken group done ≡ group
taken-all [] done h k = refl
taken-all (g ∷ group) [] h k = absurd (omega arith)
taken-all (g ∷ group) (true ∷ done) h k = ap (◌∷◌ g) (taken-all group done (omega arith) k)
taken-all (g ∷ group) (false ∷ done) h k = absurd (omega arith)

pub taken-replicate : (group : List ℕ) (m : ℕ) → taken group (replicate m false) ≡ []
taken-replicate [] m = refl
taken-replicate (g ∷ group) zero = refl
taken-replicate (g ∷ group) (suc m) = taken-replicate group m

abbrev pub roots : List Edge → ℕ
roots = count_if (λ e. is_root e.1)
