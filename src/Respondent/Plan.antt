-- ===== src/Respondent/Plan.antt =====
-- internal/respondent/belief_controller.go: `PlanAnswerSupport`.
pub mod Safety
pub mod Turns
pub mod Reasons
use conclution_ai_teacher.Prelude.{ℕ, ◌+◌, Bool, not, ◌&&◌, ◌||◌, if◌then◌else◌, ltb}
use conclution_ai_teacher.Respondent.Floats.{FloatOps, Five}
use conclution_ai_teacher.Respondent.Progress.{
  is_committed_first, AnswerObservation, ObservedInput, observe_answer_state, max_coach_attempts,
  attempts_from_level, is_expanding,
}
use conclution_ai_teacher.Respondent.Policy.{
  AnswerSupportAction, AnswerReasonCode, allowed_answer_actions, reason_for_answer_action,
  is_release, is_complete, is_restate, is_elicit, is_wait,
}
use conclution_ai_teacher.Respondent.Posterior.{
  VerifierProgressPosterior, posterior_values, update_verifier_progress_posterior,
}
use conclution_ai_teacher.Respondent.Utility.{
  AnswerActionUtility, evaluate_answer_actions, select_answer_action,
}

-- `AnswerControllerInput`: the prior beside the observed fields.
pub record AnswerControllerInput (F : Type 0) : Type 0 where
  pub prior : VerifierProgressPosterior F
  pub observed : ObservedInput
  pub open observed use *

pub record AnswerControlDecision (F : Type 0) : Type 0 where
  pub observation : AnswerObservation
  pub posterior : VerifierProgressPosterior F
  pub action : AnswerSupportAction
  pub reason_code : AnswerReasonCode
  pub utilities : Five (AnswerActionUtility F)
  pub next_attempts : ℕ
  pub keep_pending : Bool
  pub verified_first : Bool
  pub prior_repaired : Bool

unfoldable pub next_attempts_after : ℕ → AnswerSupportAction → ℕ
next_attempts_after attempts action =
    if is_release action
    then max_coach_attempts
    else if (is_elicit action || is_restate action) && ltb attempts max_coach_attempts
    then attempts + 1
    else attempts

module _ {F : Type 0} (fl : FloatOps F) where
  -- The action that `PlanAnswerSupport` chooses on an observation.
  unfoldable pub choose_action :
      VerifierProgressPosterior F → AnswerObservation → AnswerSupportAction
  choose_action posterior o = select_answer_action fl (
      evaluate_answer_actions fl (posterior_values posterior) o.attempts (allowed_answer_actions o))

  unfoldable pub plan_answer_support : AnswerControllerInput F → AnswerControlDecision F
  unfolding choose_action next_attempts_after
  plan_answer_support input =
      let o = observe_answer_state input.observed in
      let (posterior, repaired) = update_verifier_progress_posterior fl input.prior o in
      let utilities =
        evaluate_answer_actions fl (posterior_values posterior) o.attempts
          (allowed_answer_actions o) in
      let action = choose_action posterior o in
      record {
        observation = o;
        posterior = posterior;
        action = action;
        reason_code = reason_for_answer_action o action;
        utilities = utilities;
        next_attempts = next_attempts_after (attempts_from_level o.attempts) action;
        keep_pending = is_wait action || is_elicit action || is_restate action;
        verified_first =
            is_complete action && is_committed_first o.evidence && not (is_expanding o.phase);
        prior_repaired = repaired;
      }
