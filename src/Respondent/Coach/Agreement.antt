-- ===== src/Respondent/Coach/Agreement.antt =====
-- When the coach records a verified first answer, and when it closes a turn as complete.
use conclution_ai_teacher.Prelude.{◌≤◌, ◌≡◌, ◌≢◌, ◌↔◌, ◌⊎◌, true, false, not, ◌&&◌, arith}
use conclution_ai_teacher.Respondent.Contracts.{keep, position_first}
use conclution_ai_teacher.Respondent.Coach.{
  coach_restate, coach_complete, AttemptInput, guide_attempt, guide_attempt_with_restatement,
  is_phase_expanding, is_full, is_full, succeeded, covered, either_later,
}
use conclution_ai_teacher.Respondent.Floats.{FloatOps}
use conclution_ai_teacher.Respondent.Progress.{max_coach_attempts}

module _ {F : Type 0} (fl : FloatOps F) where
  guide-verified_first_succeeded :
      (i : AttemptInput F)
      → ((guide_attempt_with_restatement fl i).verified_first ≡ true) ↔ (
          (i.verification_available ≡ true)
          × (succeeded fl i ≡ true)
          × (is_phase_expanding i.phase ≡ false))
  unfolding guide_attempt_with_restatement
  guide-verified_first_succeeded i = (λ h. ground arith, λ h. ground arith)

  -- The deterministic gate and the independent critic both keep the answer, and both find the whole
  -- target first in the person's own words.
  pub record BothAgree (i : AttemptInput F) : Type 0 where
    pub gate_keeps : i.gate.outcome ≡ keep
    pub gate_first : i.gate.original_commitment_position ≡ position_first
    pub gate_covers : is_full fl i.gate.original_target_coverage ≡ true
    pub gate_satisfied : i.gate.target_satisfied ≡ true
    pub critic_keeps : i.critic.critic_outcome ≡ keep
    pub critic_satisfied : i.critic.critic_satisfied ≡ true
    pub critic_first : i.critic.metrics.commitment_front_position ≡ position_first
    pub critic_covers : is_full fl i.critic.metrics.target_slot_coverage ≡ true

  succeeded_iff : (i : AttemptInput F) → (succeeded fl i ≡ true) ↔ BothAgree i
  unfolding succeeded
  succeeded_iff i = (λ h. ground arith, λ h. ground arith)

  -- The guide records a verified first answer exactly when the verification was available, the
  -- gate and the critic agree on a kept, satisfied answer with the whole target first, and the
  -- phase is not the expansion.
  pub guide-verified_first_iff :
      (i : AttemptInput F)
      → ((guide_attempt_with_restatement fl i).verified_first ≡ true)
        ↔ ((i.verification_available ≡ true) × BothAgree i × (is_phase_expanding i.phase ≡ false))
  guide-verified_first_iff i = (
    λ h. let (v, s, e) = (guide-verified_first_succeeded i).0 h in (v, (succeeded_iff i).0 s, e),
    λ (v, b, e). (guide-verified_first_succeeded i).1 (v, (succeeded_iff i).1 b, e),
  )

  -- A late answer that both checks found closes without another task.
  abbrev pub LateAccepted : AttemptInput F → Type 0
  LateAccepted i =
      (i.attempts ≡ 0)
      × (is_phase_expanding i.phase ≡ false)
      × (covered fl i ≡ true)
      × (i.critic.ambiguous_contract ≡ false)
      × (either_later fl i ≡ true)
      × ((i.require_restatement && not i.one_shot) ≡ false)

  -- With at most 2 attempts, the guide completes a turn exactly when the verification was
  -- available and the answer succeeded, or an expansion is covered by both checks, or on the first
  -- attempt a covered, unambiguous answer came late where no restatement is asked for.
  pub guide-complete_iff :
      (i : AttemptInput F)
      → i.attempts ≤ max_coach_attempts
      → ((guide_attempt_with_restatement fl i).action ≡ coach_complete) ↔ (
          (i.verification_available ≡ true)
          × ((succeeded fl i ≡ true)
              ⊎ ((is_phase_expanding i.phase ≡ true) × (covered fl i ≡ true))
              ⊎ LateAccepted i))
  unfolding guide_attempt_with_restatement
  guide-complete_iff i a = (λ h. ground arith, λ h. ground arith)

  pub guide_attempt-no_restate : (i : AttemptInput F) → (guide_attempt fl i).action ≢ coach_restate
  unfolding guide_attempt
  guide_attempt-no_restate i = ground arith
