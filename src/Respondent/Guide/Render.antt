-- ===== src/Respondent/Guide/Render.antt =====
-- What the rendered guidance says of the control decision behind it.
use conclution_ai_teacher.Prelude.{◌≡◌, ◌≢◌, Bool, true, false, arith}
use conclution_ai_teacher.Respondent.Floats.{FloatOps}
use conclution_ai_teacher.Respondent.Contracts.{Operator}
use conclution_ai_teacher.Respondent.Progress.{rejected}
use conclution_ai_teacher.Respondent.Progress.Evidence.{FailsClosed}
use conclution_ai_teacher.Respondent.Plan.{AnswerControllerInput, plan_answer_support}
use conclution_ai_teacher.Respondent.Plan.Safety.{
  plan-permitted, plan-FailsClosed, plan-first_completes, plan-first_completes,
}
use conclution_ai_teacher.Respondent.Coach.{coach_none}
use conclution_ai_teacher.Respondent.Guide.{guide_attempt_with_verifier_progress}

module _ {F : Type 0} (fl : FloatOps F) (operator : Operator) (abstained : Bool) where
  -- The guidance rendered from a control decision keeps its pending flag, its verified-first flag
  -- and its attempt count.
  pub guide-pending :
      (input : AnswerControllerInput F)
      → let d = guide_attempt_with_verifier_progress fl operator abstained input in
        let control = plan_answer_support fl input in
        (d.keep_pending ≡ control.keep_pending)
        × (d.verified_first ≡ control.verified_first)
        × (d.attempts ≡ control.next_attempts)
  unfolding guide_attempt_with_verifier_progress
  guide-pending input =
      let p = plan-permitted fl input in ground (arith, p, plan-first_completes fl input)

  -- Where the gate has not rejected the scope and the signals, the phase or the speech give no
  -- ground to act on, the rendered guidance says nothing, keeps the scope pending and records no
  -- first answer.
  pub guide-silent :
      (input : AnswerControllerInput F)
      → input.gate_signal ≢ rejected
      → FailsClosed input.observed
      → let d = guide_attempt_with_verifier_progress fl operator abstained input in
        (d.action ≡ coach_none)
        × (d.spoken_reply ≡ "")
        × (d.keep_pending ≡ true)
        × (d.verified_first ≡ false)
  unfolding guide_attempt_with_verifier_progress
  guide-silent input n h = let p = plan-FailsClosed fl input n h in ground (arith, p)
