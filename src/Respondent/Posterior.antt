-- ===== src/Respondent/Posterior.antt =====
-- internal/respondent/belief_controller.go: the posterior over the five verifier-progress states,
-- its repair and its Bayes update. The arithmetic is that of the parameter `fl`.
use conclution_ai_teacher.Prelude.{ℕ, Bool, true, false, not, ◌||◌, if◌then◌else◌}
use conclution_ai_teacher.Respondent.Floats.{FloatOps, Five, five, map_five, fold_five, zip_five}
use conclution_ai_teacher.Respondent.Progress.{
  AnswerObservation, AnswerEvidence, verification_unknown, hesitating, target_missing,
  available_uncommitted, committed_late, committed_first, ambiguous_evidence,
}

-- The array index of each state, in the order of the source's constants.
pub data LatentAnswerState : Type 0 where
  latent_target_missing latent_available_uncommitted latent_committed_late : LatentAnswerState
  latent_committed_first latent_verification_unknown : LatentAnswerState
  unknown_state : ℕ → LatentAnswerState

pub record VerifierProgressPosterior (F : Type 0) : Type 0 where
  pub target_missing_mass : F
  pub available_uncommitted_mass : F
  pub committed_late_mass : F
  pub committed_first_mass : F
  pub verification_unknown_mass : F

module _ {F : Type 0} where
  abbrev pub posterior_values : VerifierProgressPosterior F → Five F
  posterior_values p =
      five p.target_missing_mass p.available_uncommitted_mass p.committed_late_mass
        p.committed_first_mass p.verification_unknown_mass

  abbrev pub posterior_from_values : Five F → VerifierProgressPosterior F
  posterior_from_values v = record {
    target_missing_mass = v.at_0;
    available_uncommitted_mass = v.at_1;
    committed_late_mass = v.at_2;
    committed_first_mass = v.at_3;
    verification_unknown_mass = v.at_4;
  }

module _ {F : Type 0} (fl : FloatOps F) where
  open fl use {dec, add, sub, mul, div, lt, is_nan, is_inf, abs, max}

  abbrev zero_float : F
  zero_float = dec 0 0

  unfoldable pub default_verifier_progress_posterior : VerifierProgressPosterior F
  default_verifier_progress_posterior = record {
    target_missing_mass = dec 30 2;
    available_uncommitted_mass = dec 25 2;
    committed_late_mass = dec 10 2;
    committed_first_mass = dec 15 2;
    verification_unknown_mass = dec 20 2;
  }

  -- The method `Probability`; a state outside the five has probability 0.
  unfoldable pub probability : VerifierProgressPosterior F → LatentAnswerState → F
  probability p latent_target_missing = p.target_missing_mass
  probability p latent_available_uncommitted = p.available_uncommitted_mass
  probability p latent_committed_late = p.committed_late_mass
  probability p latent_committed_first = p.committed_first_mass
  probability p latent_verification_unknown = p.verification_unknown_mass
  probability p (unknown_state n) = zero_float

  -- A value that is NaN, infinite or negative is replaced by 0 and leaves the sum alone.
  abbrev is_unusable : F → Bool
  is_unusable value = is_nan value || is_inf value || lt value zero_float

  abbrev repair : F → F
  repair value = if is_unusable value then zero_float else value

  abbrev needs_repair : F → Bool
  needs_repair value = is_unusable value || lt (dec 1 0) value

  abbrev add_usable : F → F → F
  add_usable sum value = if is_unusable value then sum else add sum value

  -- Division by the sum; the residual of the rounding goes to the last state.
  rescale : Five F → F → Five F
  rescale values sum = record scaled { at_4 = max zero_float (sub (dec 1 0) partial) }
    where
      scaled : Five F
      scaled = map_five (λ value. div value sum) values

      partial : F
      partial = add (add (add (add zero_float scaled.at_0) scaled.at_1) scaled.at_2) scaled.at_3

  unfoldable pub normalize_probability_values : Five F → Five F × Bool
  unfolding rescale default_verifier_progress_posterior
  normalize_probability_values values =
      if not (lt zero_float sum) || is_nan sum || is_inf sum
      then (posterior_values default_verifier_progress_posterior, true)
      else (
        rescale (map_five repair values) sum,
        fold_five (λ acc value. acc || needs_repair value) false values
            || lt (dec 1 12) (abs (sub sum (dec 1 0))),
      )
    where
      sum : F
      sum = fold_five add_usable zero_float values

  unfoldable pub evidence_likelihood : AnswerEvidence → Five F
  evidence_likelihood target_missing = five (dec 930 0) (dec 30 0) (dec 2 0) (dec 1 0) (dec 37 0)
  evidence_likelihood available_uncommitted =
      five (dec 20 0) (dec 900 0) (dec 20 0) (dec 5 0) (dec 55 0)
  evidence_likelihood committed_late = five (dec 1 0) (dec 4 0) (dec 980 0) (dec 5 0) (dec 10 0)
  evidence_likelihood committed_first = five (dec 1 0) (dec 3 0) (dec 8 0) (dec 980 0) (dec 8 0)
  evidence_likelihood ambiguous_evidence =
      five (dec 80 0) (dec 100 0) (dec 50 0) (dec 20 0) (dec 750 0)
  evidence_likelihood hesitating = five (dec 1 0) (dec 1 0) (dec 1 0) (dec 1 0) (dec 1 0)
  evidence_likelihood verification_unknown =
      five (dec 5 0) (dec 8 0) (dec 8 0) (dec 5 0) (dec 974 0)

  unfoldable pub update_verifier_progress_posterior :
      VerifierProgressPosterior F → AnswerObservation → VerifierProgressPosterior F × Bool
  unfolding normalize_probability_values evidence_likelihood default_verifier_progress_posterior
  update_verifier_progress_posterior prior o =
      let (values, repaired) = normalize_probability_values (posterior_values prior) in
      let predicted =
        zip_five (λ value default_mass. add (mul value (dec 97 2)) (mul default_mass (dec 3 2)))
          values (posterior_values default_verifier_progress_posterior) in
      let weighted = zip_five mul predicted (evidence_likelihood o.evidence) in
      let (final, _) = normalize_probability_values weighted in
      (posterior_from_values final, repaired)
