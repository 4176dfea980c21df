-- ===== src/Reorder/Children.antt =====
-- What the first loop builds: the list of children of every node, and the roots, in input order.
use mqo_public.Prelude.{
  ℕ, ◌<◌, ◌≡◌, refl, ap, ◌∙◌, none, some, List, [], ◌∷◌, ◌++◌, append_assoc, append-nil, length,
  set, length-set, get_elem?, get_elem?-lt, get_elem?-set_self, get_elem?-set_ne, All, ok, arith,
  ==_iff, Bool-cases, inl, inr, if◌then◌else◌, ◌==◌, replicate, length-replicate,
  get_elem?-replicate,
}
use mqo_public.Trajectory.{Edge, parent_is, ParentBelow}
use mqo_public.Reorder.{push_child, link}

-- The children of `v`, in the order of the list.
abbrev pub kids : ℕ → List Edge → List ℕ
kids v [] = []
kids v ((u, p) ∷ t) = if parent_is v p then u ∷ kids v t else kids v t

abbrev pub root_nodes : List Edge → List ℕ
root_nodes [] = []
root_nodes ((v, none) ∷ t) = v ∷ root_nodes t
root_nodes ((v, some p) ∷ t) = root_nodes t

-- Every entry of `c'` is that of `c` with the children of the node behind it.
abbrev pub Extends : List (List ℕ) → List Edge → List (List ℕ) → Type 0
Extends c t c' =
    (v : ℕ) (cs : List ℕ) → get_elem? c v ≡ some cs → get_elem? c' v ≡ some (cs ++ kids v t)

push_child_lem :
    (c : List (List ℕ)) (p v : ℕ)
    → p < length c
    → (c' : List (List ℕ)) × (push_child p v c ≡ ok c')
      × (length c' ≡ length c)
      × Extends c ((v, some p) ∷ []) c'
unfolding push_child
push_child_lem c p v h =
    let (cs, e) = get_elem?-lt c p h in
    (
      set c p (cs ++ v ∷ []),
      rw e,
      length-set c p (cs ++ v ∷ []),
      λ u us g. elim (Bool-cases (p == u)) [
        | inl q ↦
            let same : p ≡ u = (==_iff p u).0 q in
            let old : cs ≡ us = ground (arith, e, g, ap (get_elem? c) same) in
            rw (q, ← same, ← old) (get_elem?-set_self c p (cs ++ v ∷ []) h)
        | inr q ↦ rw (q, append-nil us) (get_elem?-set_ne c p u (cs ++ v ∷ []) (ground arith) ∙ g)
      ],
    )

kids-cons :
    (u v p : ℕ) (t : List Edge) → kids u ((v, some p) ∷ []) ++ kids u t ≡ kids u ((v, some p) ∷ t)
kids-cons u v p t = ground arith

-- The loop succeeds when every parent is in range.
link_lem :
    (t : List Edge) (c : List (List ℕ)) (roots : List ℕ)
    → All (λ e. ParentBelow (length c) e.1) t
    → (c' : List (List ℕ)) × (link t c roots ≡ ok (c', roots ++ root_nodes t))
      × (length c' ≡ length c)
      × Extends c t c'
unfolding link
link_lem [] c roots h = (c, rw append-nil, refl, λ v cs g. rw (append-nil cs) g)
link_lem ((v, none) ∷ t) c roots h =
    let (c', e, size, ext) = link_lem t c (roots ++ v ∷ []) h.1 in
    (c', rw (append_assoc roots (v ∷ []) (root_nodes t)) at e, size, ext)
link_lem ((v, some p) ∷ t) c roots h =
    let (c₁, e₁, size₁, ext₁) = push_child_lem c p v h.0 in
    let (c', e, size, ext) = link_lem t c₁ roots (rw size₁ h.1) in
    (
      c',
      rw e₁ e,
      size ∙ size₁,
      λ u cs g.
          ext u (cs ++ kids u ((v, some p) ∷ [])) (ext₁ u cs g)
          ∙ ap some (
              append_assoc cs (kids u ((v, some p) ∷ [])) (kids u t)
              ∙ ap (◌++◌ cs) (kids-cons u v p t)),
    )

-- From the empty lists of `vector<vector<int>> children(n)`.
pub link_start :
    (n : ℕ) (t : List Edge)
    → All (λ e. ParentBelow n e.1) t
    → (c : List (List ℕ)) × (link t (replicate n []) [] ≡ ok (c, root_nodes t))
      × ((v : ℕ) → v < n → get_elem? c v ≡ some (kids v t))
link_start n t h =
    let size : length (replicate {A = List ℕ} n []) ≡ n = length-replicate n [] in
    let (c, e, _, ext) = link_lem t (replicate n []) [] (rw size h) in
    (c, e, λ v k. ext v [] (get_elem?-replicate n [] v k))
