-- ===== src/Conversation/Projection.antt =====
-- internal/conversation/verifier_progress_observation.go: the only adapter from the two assessments
-- to the policy's finite input.
pub mod Signals
pub mod Turns
use conclution_ai_teacher.Prelude.{
  ℕ, zero, suc, Bool, true, false, not, ◌&&◌, ◌||◌, if◌then◌else◌, List, [], ◌∷◌, any_of, ltb, ◌==◌,
}
use conclution_ai_teacher.Respondent.Floats.{FloatOps}
use conclution_ai_teacher.Respondent.Contracts.{
  Outcome, other_outcome, CommitmentPosition, position_first, position_later, position_absent,
  other_position, Issue, invalid_contract, content_changed, ambiguous_question, Assessment,
  CriticAssessment, is_keep, is_reject, is_first_position, is_later_position, is_absent_position,
}
use conclution_ai_teacher.Respondent.Coach.{
  CoachPhase, phase_none, phase_awaiting_answer, phase_awaiting_restatement, phase_expanding,
  phase_complete, phase_blocked, other_coach_phase,
}
use conclution_ai_teacher.Respondent.Progress.{
  VerifierSignal, invalid, missing, available, first, later, ambiguous, rejected, AnswerPhase,
  invalid_phase, no_phase, awaiting_answer, awaiting_restatement, expanding, complete_phase,
  blocked, AnswerAttemptLevel, no_attempt, one_attempt, attempt_limit, ObservedInput,
  max_coach_attempts,
}
use conclution_ai_teacher.Respondent.Posterior.{VerifierProgressPosterior}
use conclution_ai_teacher.Respondent.Plan.{AnswerControllerInput}

-- `validRespondentVerifierOutcome`, `validCriticVerifierOutcome`, and so for the positions.
abbrev pub valid_outcome : Outcome → Bool
valid_outcome other_outcome = false
valid_outcome _ = true

abbrev pub valid_position : CommitmentPosition → Bool
valid_position other_position = false
valid_position _ = true

unfoldable pub project_verifier_progress_phase : CoachPhase → AnswerPhase
project_verifier_progress_phase phase_none = no_phase
project_verifier_progress_phase phase_awaiting_answer = awaiting_answer
project_verifier_progress_phase phase_awaiting_restatement = awaiting_restatement
project_verifier_progress_phase phase_expanding = expanding
project_verifier_progress_phase phase_complete = complete_phase
project_verifier_progress_phase phase_blocked = blocked
project_verifier_progress_phase other_coach_phase = invalid_phase

unfoldable pub project_verifier_progress_attempts : ℕ → AnswerAttemptLevel
project_verifier_progress_attempts attempts =
    if attempts == 0
    then no_attempt
    else if ltb attempts max_coach_attempts
    then one_attempt
    else attempt_limit

-- The first loop over the issues: the first of the two fatal issues decides.
fatal_issue : List Issue → VerifierSignal → VerifierSignal
fatal_issue [] otherwise = otherwise
fatal_issue (invalid_contract ∷ issues) otherwise = invalid
fatal_issue (content_changed ∷ issues) otherwise = rejected
fatal_issue (_ ∷ issues) otherwise = fatal_issue issues otherwise

abbrev is_ambiguous_question : Issue → Bool
is_ambiguous_question ambiguous_question = true
is_ambiguous_question _ = false

-- The final switch, on a covered target; an unknown position falls through.
covered_signal : CommitmentPosition → Bool → VerifierSignal
covered_signal position_first kept = if kept then first else available
covered_signal position_later kept = later
covered_signal position_absent kept = available
covered_signal other_position kept = missing

module _ {F : Type 0} (fl : FloatOps F) where
  open fl use {dec, le, eq, is_nan, is_inf}

  unfoldable pub valid_verifier_probability : F → Bool
  valid_verifier_probability value =
      not (is_nan value) && not (is_inf value) && le (dec 0 0) value && le value (dec 1 0)

  abbrev pub is_one : F → Bool
  is_one value = eq value (dec 1 0)

  unfoldable pub valid_assessment : Assessment F → Bool
  unfolding valid_verifier_probability
  valid_assessment a =
      valid_outcome a.outcome
      && valid_position a.original_commitment_position
      && valid_position a.commitment_position
      && valid_verifier_probability a.original_target_coverage
      && valid_verifier_probability a.target_coverage

  -- The part of `projectRespondentVerifierSignal` after the fatal issues.
  respondent_signal : Assessment F → VerifierSignal
  unfolding covered_signal
  respondent_signal a =
      if is_reject a.outcome
        && not
            (is_one a.original_target_coverage && is_later_position a.original_commitment_position)
      then rejected
      else if any_of is_ambiguous_question a.issues
      then ambiguous
      else if is_one a.original_target_coverage
      then covered_signal a.original_commitment_position (a.target_satisfied && is_keep a.outcome)
      else missing

  pub project_respondent_verifier_signal : Assessment F → VerifierSignal
  project_respondent_verifier_signal a =
      if not (valid_assessment a) then invalid else fatal_issue a.issues (respondent_signal a)

  unfoldable pub valid_critic : CriticAssessment F → Bool
  unfolding valid_verifier_probability
  valid_critic a =
      valid_outcome a.critic_outcome
      && valid_position a.metrics.commitment_front_position
      && valid_verifier_probability a.metrics.target_slot_coverage
      && valid_verifier_probability a.metrics.hypothesis_entropy
      && valid_verifier_probability a.metrics.meaning_preservation
      && valid_verifier_probability a.metrics.hypothesis_gap

  pub project_critic_verifier_signal : CriticAssessment F → VerifierSignal
  unfolding covered_signal
  project_critic_verifier_signal a =
      if not (valid_critic a)
      then invalid
      else if is_reject a.critic_outcome
          && not (
              is_one a.metrics.target_slot_coverage
              && not (is_absent_position a.metrics.commitment_front_position))
      then rejected
      else if a.ambiguous_contract
      then ambiguous
      else if is_reject a.critic_outcome
      then later
      else if is_one a.metrics.target_slot_coverage
      then covered_signal a.metrics.commitment_front_position
          (a.critic_satisfied && is_keep a.critic_outcome)
      else missing

  unfoldable pub verifier_progress_input :
      VerifierProgressPosterior F
      → Assessment F
      → CriticAssessment F
      → CoachPhase
      → ℕ
      → (one_shot hesitation verification_available : Bool) → AnswerControllerInput F
  unfolding project_verifier_progress_phase project_verifier_progress_attempts
  verifier_progress_input prior gate critic phase attempts one_shot hesitation checked = record {
    prior = prior;
    observed = record {
      gate_signal = project_respondent_verifier_signal gate;
      critic_signal = project_critic_verifier_signal critic;
      phase = project_verifier_progress_phase phase;
      attempts = project_verifier_progress_attempts attempts;
      one_shot = one_shot;
      hesitation = hesitation;
      verification_available = checked;
    };
  }
