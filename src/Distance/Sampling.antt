-- ===== src/Distance/Sampling.antt =====
-- The random pairs of `sample_two`, and the average distance over them.
use mqo_public.Prelude.{
  ℕ, zero, suc, ◌+◌, ◌<◌, ◌≡◌, ◌≢◌, refl, sym, ap, ◌∙◌, true, List, ok, err, out_of_fuel, ◌==◌,
  arith, Bool-cases, inl, inr,
}
use mqo_public.Floats.{Floats}
use mqo_public.Distance.{redraw, sample_two, get_distance, weight_loop, get_weight_for_root}
use mqo_public.Distance.Bounds.{HasRows, get_distance-row}

-- Draws below n that do not stay the same for `bound` draws in a row.
pub record IsVaried (rand : ℕ → ℕ → ℕ) (n bound : ℕ) : Type 0 where
  pub in_range : (k : ℕ) → rand n k < n
  pub varies : (k : ℕ) → (m : ℕ) × (m < bound) × (rand n (suc (k + m)) ≢ rand n k)

redraw_ends :
    (rand : ℕ → ℕ → ℕ) (n a m fuel k : ℕ)
    → m < fuel
    → rand n (k + m) ≢ a
    → (j k' : ℕ) × (redraw rand n a fuel k ≡ ok (rand n j, k')) × (rand n j ≢ a)
unfolding redraw
redraw_ends rand n a m zero k h d = absurd (omega arith)
redraw_ends rand n a zero (suc fuel) k h d =
    let here : rand n k ≢ a = λ e. d (ap (rand n) (omega arith) ∙ e) in
    (k, suc k, ground arith, here)
redraw_ends rand n a (suc m) (suc fuel) k h d = elim (Bool-cases (rand n k == a)) [
  | inr other ↦ (k, suc k, rw other, ground arith)
  | inl same ↦
      rw same
        (redraw_ends rand n a m fuel (suc k) (omega arith) (λ e. d (ap (rand n) (omega arith) ∙ e)))
]

-- `sample_two` ends once the draws vary within the fuel, and returns two different numbers below n.
pub sample_two-differ :
    (rand : ℕ → ℕ → ℕ) (n fuel k : ℕ)
    → IsVaried rand n fuel
    → (a b k' : ℕ) × (sample_two rand fuel n k ≡ ok (a, b, k')) × (a < n) × (b < n) × (a ≢ b)
unfolding sample_two
sample_two-differ rand n fuel k v =
    let (m, less, differs) = v.varies k in
    let (j, k', e, d) =
      redraw_ends rand n (rand n k) m fuel (suc k) less
        (λ q. differs (ap (rand n) (omega arith) ∙ q)) in
    (rand n k, rand n j, k', rw e, v.in_range k, v.in_range j, λ q. d (sym q))

redraw-zero :
    (rand : ℕ → ℕ → ℕ) (fuel k : ℕ)
    → ((i : ℕ) → rand 1 i < 1)
    → redraw rand 1 (rand 1 0) fuel k ≡ err out_of_fuel
unfolding redraw
redraw-zero rand zero k h = refl
redraw-zero rand (suc fuel) k h =
    let same : (rand 1 k == rand 1 0) ≡ true = ground (arith, h k, h 0) in
    rw same (redraw-zero rand fuel (suc k) h)

-- For a single query the loop of `sample_two` never ends, whatever is drawn: both draws are 0.
pub sample_two_single :
    (rand : ℕ → ℕ → ℕ) (fuel k : ℕ)
    → ((i : ℕ) → rand 1 i < 1)
    → sample_two rand fuel 1 k ≡ err out_of_fuel
unfolding sample_two
sample_two_single rand fuel k h =
    let start : rand 1 k ≡ rand 1 0 = omega (arith, h k, h 0) in
    rw (start, redraw-zero rand fuel (suc k) h)

module _ (fl : Floats) (rand : ℕ → ℕ → ℕ) (fuel : ℕ) (query : List fl.Float) (n dim : ℕ)
    (v : IsVaried rand n fuel) (h : HasRows query n dim) where
  distance-found :
      (i j : ℕ) → i < n → j < n → (d : fl.Float) × (get_distance fl query dim i j ≡ ok d)
  distance-found i j p q = (_, get_distance-row fl query n dim h i j p q)

  weight_loop_ends :
      (rep k : ℕ) (weight : fl.Double)
      → (w : fl.Double) × (weight_loop fl rand fuel query n dim rep k weight ≡ ok w)
  unfolding weight_loop
  weight_loop_ends zero k weight = (weight, refl)
  weight_loop_ends (suc rep) k weight =
      let (a, b, k', e, p, q, _) = sample_two-differ rand n fuel k v in
      let (d, found) = distance-found a b p q in
      let (w, e') = weight_loop_ends rep k' (fl.d_add weight (fl.to_double d)) in
      (w, rw (e, found) e')

  -- The average over sampled pairs is found when the draws vary and the array has n rows.
  pub get_weight_for_root_ends :
      (n_sample : ℕ)
      → (w : fl.Double) × (get_weight_for_root fl rand fuel query n dim n_sample ≡ ok w)
  unfolding get_weight_for_root
  get_weight_for_root_ends n_sample =
      let (w, e) = weight_loop_ends n_sample 0 (fl.d_of_int 0) in
      (fl.d_div w (fl.d_of_int n_sample), rw e)
