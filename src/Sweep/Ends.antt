-- ===== src/Sweep/Ends.antt =====
-- When the loop over the beam sizes ends, and what it leaves.
use mqo_public.Prelude.{
  ℕ, zero, suc, ◌+◌, ◌<◌, ◌≤◌, ◌≡◌, refl, ◌∙◌, Bool, true, false, ◌&&◌, ◌||◌, some, List, Run, ok,
  err, out_of_fuel, leb, ◌==◌, if◌then◌else◌, ap, ==_iff, Bool-cases, inl, inr, arith,
}
use mqo_public.Saver.{add}
use mqo_public.Saver.Table.{row_of, row_of-add}
use mqo_public.Sweep.{sweep}

-- Whether the loop from the beam size `b` on visits `j`, within some rounds.
abbrev pub visits : (ℕ → ℕ) → ℕ → ℕ → ℕ → ℕ → Bool
visits next limit zero b j = false
visits next limit (suc fuel) b j = leb b limit && (b == j || visits next limit fuel (next b) j)

module _ {A : Type 0} (step : ℕ → Run ℕ) (measure : ℕ → Run (List A)) where
  -- The loop over beam sizes that are an `int`.
  abbrev pub int_sweep : ℕ → ℕ → ℕ → List (ℕ × List A) → Run (List (ℕ × List A))
  int_sweep = sweep leb (λ b. b) step measure

  sweep_round :
      (fuel b next limit : ℕ) (values : List A) (results : List (ℕ × List A))
      → b ≤ limit
      → measure b ≡ ok values
      → step b ≡ ok next
      → int_sweep (suc fuel) b limit results ≡ int_sweep fuel next limit (add b values results)
  unfolding sweep
  sweep_round fuel b next limit values results h e e' =
      let inside : leb b limit ≡ true = ground (arith, h) in rw (sweep, inside, e, e') refl

  sweep_over :
      (fuel b limit : ℕ) (results : List (ℕ × List A))
      → leb b limit ≡ false
      → int_sweep (suc fuel) b limit results ≡ ok results
  unfolding sweep
  sweep_over fuel b limit results h = rw (sweep, h) refl

  -- A beam size that the loop does not change is measured again and again: the loop never ends.
  pub sweep_stuck :
      (fuel b limit : ℕ) (values : List A) (results : List (ℕ × List A))
      → b ≤ limit
      → step b ≡ ok b
      → measure b ≡ ok values
      → int_sweep fuel b limit results ≡ err out_of_fuel
  unfolding sweep
  sweep_stuck zero b limit values results h e m = refl
  sweep_stuck (suc fuel) b limit values results h e m =
      sweep_round fuel b b limit values results h m e
      ∙ sweep_stuck fuel b limit values (add b values results) h e m

  module _ (next : ℕ → ℕ) (row : ℕ → List A) (least limit : ℕ)
      (steps : (b : ℕ) → least ≤ b → b ≤ limit → step b ≡ ok (next b))
      (grows : (b : ℕ) → least ≤ b → b ≤ limit → b < next b)
      (measured : (b : ℕ) → b ≤ limit → measure b ≡ ok (row b)) where
    row_here :
        (b j : ℕ) (later : Bool) (results results' : List (ℕ × List A))
        → row_of j results' ≡ (if later then some (row j) else row_of j (add b (row b) results))
        → row_of j results' ≡ (if b == j || later then some (row j) else row_of j results)
    row_here b j true results results' h = ground (arith, h)
    row_here b j false results results' h = elim (Bool-cases (b == j)) [
      | inl e ↦
          let same : b ≡ j = (==_iff b j).0 e in
          h ∙ row_of-add j b (row b) results ∙ rw e (ap (λ k. some (row k)) same)
      | inr e ↦ h ∙ row_of-add j b (row b) results ∙ rw e refl
    ]

    -- With beam sizes that the step computes and that grow, from `least` on, results that are measured
    -- and more fuel than the beam sizes up to the limit, the loop ends. It leaves what was measured for the beam sizes that it visits, and for the
    -- others the results from before.
    pub sweep-visits :
        (fuel b : ℕ) (results : List (ℕ × List A))
        → least ≤ b
        → limit < fuel + b
        → (results' : List (ℕ × List A)) × (int_sweep (suc fuel) b limit results ≡ ok results')
          × ((j : ℕ)
              → row_of j results'
                ≡ (if visits next limit (suc fuel) b j then some (row j) else row_of j results))
    sweep-visits zero b results above enough = elim (Bool-cases (leb b limit)) [
      | inl inside ↦ absurd (ground (arith, inside, enough))
      | inr over ↦ (results, sweep_over zero b limit results over, λ j. rw over refl)
    ]
    sweep-visits (suc fuel) b results above enough = elim (Bool-cases (leb b limit)) [
      | inl inside ↦
          let below : b ≤ limit = ground (arith, inside) in
          let more : b < next b = grows b above below in
          let (results', ends, rows) =
            sweep-visits fuel (next b) (add b (row b) results) (omega (arith, above, more))
              (omega (arith, enough, more)) in
          (
            results',
            sweep_round (suc fuel) b (next b) limit (row b) results below (measured b below)
                  (steps b above below)
                ∙ ends,
            λ j.
                rw inside (
                  row_here b j (visits next limit (suc fuel) (next b) j) results results' (rows j)),
          )
      | inr over ↦ (results, sweep_over (suc fuel) b limit results over, λ j. rw over refl)
    ]
