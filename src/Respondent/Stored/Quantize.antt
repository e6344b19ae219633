-- ===== src/Respondent/Stored/Quantize.antt =====
-- The stored masses sum to the scale, and none falls below its floor.
use conclution_ai_teacher.Prelude.{
  ℕ, zero, suc, ◌+◌, ◌≤◌, ◌<◌, ◌≡◌, inl, inr, true, arith, ltb, Bool-cases, ltb→lt,
}
use conclution_ai_teacher.Respondent.Floats.{FloatOps, Five, map_five}
use conclution_ai_teacher.Respondent.Posterior.{
  VerifierProgressPosterior, posterior_values, normalize_probability_values,
}
use conclution_ai_teacher.Respondent.Stored.{
  is_valid, Quantized, top_up_round, top_up, quantize, store_verifier_progress, scale, total_mass,
  get_five, set_five, u16, largest_remainder,
}

total_mass-set_five :
    (m : Five ℕ) (i : ℕ)
    → total_mass m < scale
    → total_mass (set_five m i (u16 (get_five m i + 1))) ≡ total_mass m + 1
total_mass-set_five m zero h = omega arith
total_mass-set_five m (suc zero) h = omega arith
total_mass-set_five m (suc (suc zero)) h = omega arith
total_mass-set_five m (suc (suc (suc zero))) h = omega arith
total_mass-set_five m (suc (suc (suc (suc i)))) h = omega arith

module _ {F : Type 0} (fl : FloatOps F) where
  -- The loop's invariant: what is assigned is what the masses hold.
  record IsBalanced (q : Quantized F) : Type 0 where
    exact : total_mass q.masses ≡ q.assigned
    bounded : q.assigned ≤ scale

  top_up_round-IsBalanced :
      (q : Quantized F)
      → q.assigned < scale
      → IsBalanced q
      → IsBalanced (top_up_round fl q) × ((top_up_round fl q).assigned ≡ q.assigned + 1)
  unfolding top_up_round
  top_up_round-IsBalanced q h b =
      let set =
        total_mass-set_five q.masses (largest_remainder fl q.remainders) (omega (arith, b.exact)) in
      (record { exact = omega (arith, set, b.exact); bounded = omega arith }, omega arith)

  top_up-total :
      (fuel : ℕ) (q : Quantized F)
      → IsBalanced q
      → scale ≤ q.assigned + fuel
      → total_mass (top_up fl fuel q).masses ≡ scale
  unfolding top_up
  top_up-total zero q b h = omega (arith, b.exact, b.bounded)
  top_up-total (suc fuel) q b h = elim (Bool-cases (ltb q.assigned scale)) [
    | inl more ↦
        let (b', e) = top_up_round-IsBalanced q (ltb→lt _ _ more) b in
        rw more (top_up-total fuel (top_up_round fl q) b' (omega arith))
    | inr done ↦ rw done (ground (arith, b.exact, b.bounded))
  ]

  -- The floors of the normalised posterior, scaled.
  abbrev pub floors : VerifierProgressPosterior F → Five ℕ
  floors p =
      map_five (λ x. fl.floor_u16 (fl.mul x (fl.of_u16 scale)))
        (normalize_probability_values fl (posterior_values p)).0

  quantize-IsBalanced :
      (p : VerifierProgressPosterior F)
      → total_mass (floors p) ≤ scale
      → IsBalanced (quantize fl (normalize_probability_values fl (posterior_values p)).0)
  unfolding quantize
  quantize-IsBalanced p h = omega arith

  -- Where the floors of the scaled, normalised posterior sum to at most 10,000, the stored
  -- progress is valid: its masses sum to exactly 10,000 and it carries the current versions.
  pub store-is_valid :
      (p : VerifierProgressPosterior F)
      → total_mass (floors p) ≤ scale
      → is_valid (store_verifier_progress fl p) ≡ true
  unfolding store_verifier_progress is_valid
  store-is_valid p h = ground (
    arith,
    top_up-total scale (quantize fl (normalize_probability_values fl (posterior_values p)).0)
        (quantize-IsBalanced p h),
  )
