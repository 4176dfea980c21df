-- ===== src/GroupMst/Rounds.antt =====
-- The rounds of Prim's algorithm on one group: a tree of all its queries, parents first.
use mqo_public.Prelude.{
  ℕ, zero, suc, ◌+◌, ◌≡◌, refl, ap, ◌∙◌, Bool, true, false, Option, some, List, [], ◌∷◌, ◌++◌,
  length, length-set, length-append, set, get_elem?, get_elem?-lt, lt-length_of_get,
  get_elem?-set_self, count, count_if-append, All, All-get, Run, ok, arith, inr, count-append,
}
use mqo_public.Floats.{Floats}
use mqo_public.Trajectory.{Edge, nodes, is_root, ParentsFirst}
use mqo_public.Trajectory.Forest.{ParentsFirst-snoc, nodes-append}
use mqo_public.GroupMst.{Key, select, relax, parent_of, no_pick, prim_rounds}
use mqo_public.GroupMst.Taken.{
  taken, opens, opens-pos, opens-set, taken-set, taken-pos, taken-all, roots,
}
use mqo_public.GroupMst.Select.{select_picks}
use mqo_public.GroupMst.Relax.{
  Joined, Near, Open, Open-get, Open-map, Open-close, Joined-set, Reaches, relax_joins,
}

-- What is known of infinity: 0 is below it, and it is below nothing.
pub record IsInfinity (fl : Floats) : Type 0 where
  pub zero_below : fl.lt fl.zero fl.infinity ≡ true
  pub not_below : (x : fl.Float) → fl.lt fl.infinity x ≡ false

abbrev pub AllReach : (fl : Floats) → (ℕ → ℕ → Run fl.Float) → List ℕ → Type 0
AllReach fl dist group = All (λ x. All (Reaches fl dist x) group) group

module _ (fl : Floats) {W : Type 0} (plus : W → fl.Float → W) (dist : ℕ → ℕ → Run fl.Float)
    (group : List ℕ) where
  open fl use {Float}

  -- Between two rounds, with `k` rounds left: `base` counts what was written for other groups.
  pub record State (base : ℕ → ℕ) (r l k : ℕ) (done : List Bool) (keys : List (Key fl))
      (out : List Edge) : Type 0 where
    pub flags : length done ≡ length group
    pub slots : length keys ≡ length group
    pub left : opens done ≡ k
    pub joined : Open fl (Joined fl done) done keys
    pub ordered : ParentsFirst [] out
    pub written : (v : ℕ) → count v (nodes out) ≡ base v + count v (taken group done)
    pub rooted : roots out ≡ r
    pub sized : length out + k ≡ l

  pub step_eq :
      (k c : ℕ) (done : List Bool) (keys : List (Key fl)) (weight : W) (out : List Edge) (x : ℕ)
      (key : Key fl) (o p : Option ℕ) (keys' : List (Key fl))
      → (select fl 0 done keys (no_pick fl)).curr ≡ some c
      → (select fl 0 done keys (no_pick fl)).parent ≡ o
      → get_elem? keys c ≡ some key
      → get_elem? group c ≡ some x
      → parent_of fl group o ≡ ok p
      → relax fl dist c x group (set done c true) keys ≡ ok keys'
      → prim_rounds fl plus dist group (suc k) done keys weight out
        ≡ prim_rounds fl plus dist group k
            (set done c true)
            keys'
            (plus weight key.0)
            (out ++ (x, p) ∷ [])
  unfolding prim_rounds
  step_eq k c done keys weight out x key o p keys' h₁ h₂ h₃ h₄ h₅ h₆ = rw (h₁, h₃, h₄, h₂, h₅, h₆)

  written_snoc :
      (v x c : ℕ) (p : Option ℕ) (done : List Bool) (out : List Edge) (base : ℕ → ℕ)
      → get_elem? done c ≡ some false
      → get_elem? group c ≡ some x
      → count v (nodes out) ≡ base v + count v (taken group done)
      → count v (nodes (out ++ (x, p) ∷ [])) ≡ base v + count v (taken group (set done c true))
  written_snoc v x c p done out base h k e =
      rw (nodes-append out ((x, p) ∷ []))
        (omega (arith, e, count-append v (nodes out) (x ∷ []), taken-set v x c group done h k))

  parent_found : (p g : ℕ) → get_elem? group p ≡ some g → parent_of fl group (some p) ≡ ok (some g)
  unfolding parent_of
  parent_found p g h = rw h

  -- One round adds an edge from an open vertex to one of the tree.
  round :
      AllReach fl dist group
      → (k : ℕ) (base : ℕ → ℕ) (r l : ℕ) (done : List Bool) (keys : List (Key fl)) (weight : W)
        (out : List Edge)
      → State base r l (suc k) done keys out
      → (done' : List Bool) × (keys' : List (Key fl)) × (weight' : W) × (out' : List Edge)
        × (prim_rounds fl plus dist group (suc k) done keys weight out
            ≡ prim_rounds fl plus dist group k done' keys' weight' out')
        × State base r l k done' keys' out'
  round reach k base r l done keys weight out s =
      let (j, open_j) = opens-pos done (omega (arith, s.left)) in
      let (kj, key_j) =
        get_elem?-lt keys j
          (omega (arith, s.flags, s.slots, lt-length_of_get done j false open_j)) in
      let near_j = Open-get fl (Joined fl done) done keys j kj s.joined open_j key_j in
      let picked = select_picks fl j done keys kj open_j key_j near_j.0 in
      let c = picked.at in
      let pick = select fl 0 done keys (no_pick fl) in
      let key : Key fl = (pick.best, pick.parent) in
      let (_, (p, par, in_tree)) =
        Open-get fl (Joined fl done) done keys c key s.joined picked.is_open picked.key in
      let (x, gx) =
        get_elem?-lt group c
          (omega (arith, s.flags, lt-length_of_get done c false picked.is_open)) in
      let (g, gp) =
        get_elem?-lt group p (omega (arith, s.flags, lt-length_of_get done p true in_tree)) in
      let done' = set done c true in
      let (keys', relaxed, size, joined') =
        relax_joins fl dist done' c x group done' keys
          (get_elem?-set_self done c true (lt-length_of_get done c false picked.is_open))
          (All-get (λ y. All (Reaches fl dist y) group) group c x reach gx)
          (length-set done c true ∙ s.flags) s.slots
          (Open-close fl (Near fl done') c done keys (
            Open-map fl (Joined fl done) (Near fl done') (λ q n. inr (Joined-set fl done c q n))
              done keys s.joined)) in
      (
        done',
        keys',
        plus weight pick.best,
        out ++ (x, some g) ∷ [],
        step_eq k c done keys weight out x key (some p) (some g) keys'
            (picked.curr ∙ ap some (omega arith)) par picked.key gx (parent_found p g gp) relaxed,
        record {
          flags = length-set done c true ∙ s.flags;
          slots = size;
          left = omega (arith, s.left, opens-set done c picked.is_open);
          joined = joined';
          ordered =
              ParentsFirst-snoc out x (some g) s.ordered
                (omega (arith, s.written g, taken-pos g p group done gp in_tree));
          written = λ v. written_snoc v x c (some g) done out base picked.is_open gx (s.written v);
          rooted =
              omega (arith, s.rooted, count_if-append (λ e. is_root e.1) out ((x, some g) ∷ []));
          sized = omega (arith, s.sized, length-append out ((x, some g) ∷ []));
        },
      )

  abbrev pub Spans : (ℕ → ℕ) → ℕ → ℕ → List Edge → Type 0
  Spans base r l out =
      ParentsFirst [] out
      × ((v : ℕ) → count v (nodes out) ≡ base v + count v group)
      × (roots out ≡ r)
      × (length out ≡ l)

  pub rounds_span :
      AllReach fl dist group
      → (k : ℕ) (base : ℕ → ℕ) (r l : ℕ) (done : List Bool) (keys : List (Key fl)) (weight : W)
        (out : List Edge)
      → State base r l k done keys out
      → (w : W) × (out' : List Edge) × (prim_rounds fl plus dist group k done keys weight out
          ≡ ok (w, out'))
        × Spans base r l out'
  unfolding prim_rounds
  rounds_span reach zero base r l done keys weight out s =
      let all : taken group done ≡ group = taken-all group done s.flags s.left in
      (
        weight,
        out,
        refl,
        (
          s.ordered,
          λ v. s.written v ∙ ap (λ vs. base v + count v vs) all,
          s.rooted,
          omega (arith, s.sized),
        ),
      )
  rounds_span reach (suc k) base r l done keys weight out s =
      let (done', keys', weight', out₁, e₁, s') = round reach k base r l done keys weight out s in
      let (w, out', e, spans) = rounds_span reach k base r l done' keys' weight' out₁ s' in
      (w, out', e₁ ∙ e, spans)
