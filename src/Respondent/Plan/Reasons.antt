-- ===== src/Respondent/Plan/Reasons.antt =====
-- The groups of the reason codes, against the actions they explain.
use conclution_ai_teacher.Prelude.{◌≡◌, ◌⊎◌}
use conclution_ai_teacher.Respondent.Floats.{FloatOps}
use conclution_ai_teacher.Respondent.Progress.{observe_answer_state}
use conclution_ai_teacher.Respondent.Policy.{wait, code_of_reason}
use conclution_ai_teacher.Respondent.Posterior.{update_verifier_progress_posterior}
use conclution_ai_teacher.Respondent.Plan.{
  AnswerControllerInput, choose_action, plan_answer_support,
}
use conclution_ai_teacher.Respondent.Policy.{late_accepted}
use conclution_ai_teacher.Respondent.Plan.Safety.{choose-permitted}
use conclution_ai_teacher.Respondent.Policy.Mask.{reason_group-permitted, InGroup}
use conclution_ai_teacher.Respondent.Progress.Evidence.{observed-uncommitted}

module _ {F : Type 0} (fl : FloatOps F) where
  -- The thousands digit of the reason code is 1 for a completion, 2 for a prompt, 4 for a release,
  -- and 2 or 3 for a wait, except that a wait may also carry the code of a late acceptance.
  pub plan-reason_group :
      (input : AnswerControllerInput F)
      → let d = plan_answer_support fl input in
        InGroup d.action (code_of_reason d.reason_code)
        ⊎ ((d.action ≡ wait) × (d.reason_code ≡ late_accepted))
  unfolding plan_answer_support
  plan-reason_group input =
      let o = observe_answer_state input.observed in
      let (p, _) = update_verifier_progress_posterior fl input.prior o in
      let c = choose-permitted fl p o in
      let (h, v, i) = observed-uncommitted input.observed in
      reason_group-permitted o (choose_action fl p o) c.1 h v i c.0
