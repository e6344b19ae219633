-- ===== src/Respondent/Guide.antt =====
-- internal/respondent/coach.go: `GuideAttemptWithVerifierProgress`, which turns a control decision
-- into fixed guidance. The posterior and the reason code travel beside the `CoachDecision`.
pub mod Render
use conclution_ai_teacher.Prelude.{ℕ, Bool, true, false, not, ◌&&◌, ◌||◌, if◌then◌else◌}
use conclution_ai_teacher.Respondent.Floats.{FloatOps}
use conclution_ai_teacher.Respondent.Contracts.{Operator}
use conclution_ai_teacher.Respondent.Progress.{
  AnswerPhase, invalid_phase, no_phase, awaiting_answer, awaiting_restatement, expanding,
  complete_phase, blocked, unknown_phase, max_coach_attempts,
}
use conclution_ai_teacher.Respondent.Policy.{
  AnswerSupportAction, wait, elicit, restate, complete, release, other_action, AnswerReasonCode,
  late_accepted, invalid_phase_reason,
}
use conclution_ai_teacher.Respondent.Posterior.{VerifierProgressPosterior}
use conclution_ai_teacher.Respondent.Plan.{
  AnswerControllerInput, AnswerControlDecision, plan_answer_support,
}
use conclution_ai_teacher.Respondent.Replies.{
  gentle_reask_prompt, core_prompt, expansion_prompt, completion_reply, natural_continuation_reply,
  late_answer_continuation_reply,
}
use conclution_ai_teacher.Respondent.Coach.{
  CoachPhase, phase_none, phase_awaiting_answer, phase_awaiting_restatement, phase_expanding,
  phase_complete, phase_blocked, coach_none, coach_elicit, coach_restate, coach_expand,
  CoachDecision, pending, completed, is_phase_expanding, release_decision,
}

unfoldable pub coach_phase_from_answer_phase : AnswerPhase → CoachPhase
coach_phase_from_answer_phase no_phase = phase_none
coach_phase_from_answer_phase awaiting_answer = phase_awaiting_answer
coach_phase_from_answer_phase awaiting_restatement = phase_awaiting_restatement
coach_phase_from_answer_phase expanding = phase_expanding
coach_phase_from_answer_phase complete_phase = phase_complete
coach_phase_from_answer_phase _ = phase_blocked

-- A `CoachDecision` with its posterior and reason code; the update flag is always set here.
pub record ProgressDecision (F : Type 0) : Type 0 where
  pub decision : CoachDecision
  pub open decision use *
  pub posterior : VerifierProgressPosterior F
  pub reason_code : AnswerReasonCode

abbrev pub is_late_accepted : AnswerReasonCode → Bool
is_late_accepted late_accepted = true
is_late_accepted _ = false

-- The `switch` on the action, over the phase, the attempts, the reason and the verified flag.
render :
    Operator → Bool → CoachPhase → ℕ → AnswerReasonCode → Bool → AnswerSupportAction → CoachDecision
unfolding release_decision
render operator abstained phase attempts reason first complete =
    completed
      (if is_late_accepted reason
        then late_answer_continuation_reply
        else if is_phase_expanding phase || abstained
        then completion_reply abstained
        else natural_continuation_reply operator abstained)
      attempts first
render operator abstained phase attempts reason first release = release_decision attempts
render operator abstained phase attempts reason first restate =
    record (pending phase_awaiting_restatement coach_restate (gentle_reask_prompt operator)
      attempts) { verified_first = first }
render operator abstained phase attempts reason first elicit =
    if is_phase_expanding phase
    then record (pending phase_expanding coach_expand (expansion_prompt operator) attempts) {
      verified_first = first;
    }
    else record (pending phase_awaiting_answer coach_elicit (core_prompt operator) attempts) {
      verified_first = first;
    }
render operator abstained phase attempts reason first wait =
    record (pending phase coach_none "" attempts) { verified_first = first }
render operator abstained phase attempts reason first other_action =
    release_decision max_coach_attempts

abbrev is_unknown_action : AnswerSupportAction → Bool
is_unknown_action other_action = true
is_unknown_action _ = false

module _ {F : Type 0} (fl : FloatOps F) where
  unfoldable pub guide_attempt_with_verifier_progress :
      Operator → Bool → AnswerControllerInput F → ProgressDecision F
  unfolding render coach_phase_from_answer_phase
  guide_attempt_with_verifier_progress operator abstained input =
      let control = plan_answer_support fl input in
      record {
        decision =
            render operator abstained (coach_phase_from_answer_phase control.observation.phase)
              control.next_attempts control.reason_code control.verified_first control.action;
        posterior = control.posterior;
        reason_code =
            if is_unknown_action control.action then invalid_phase_reason else control.reason_code;
      }
