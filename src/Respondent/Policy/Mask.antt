-- ===== src/Respondent/Policy/Mask.antt =====
-- Which actions the mask leaves, in each situation.
use conclution_ai_teacher.Prelude.{ℕ, ◌/◌, ◌≡◌, ◌≢◌, ◌⊎◌, true, false, ◌||◌, arith}
use conclution_ai_teacher.Respondent.Progress.{
  is_hesitating, is_committed_late, is_committed_first, hesitating, is_verification_unknown,
  is_committed_first, rejected, AnswerObservation, committed_first, hesitating, is_invalid_phase,
  is_rejected, is_complete_phase, at_least_one,
}
use conclution_ai_teacher.Respondent.Policy.{
  AnswerSupportAction, wait, elicit, restate, complete, release, other_action, permits,
  allowed_answer_actions, reason_for_answer_action, code_of_reason, late_accepted,
}

-- Some action is always permitted.
pub some_permitted :
    (o : AnswerObservation)
    → let mask = allowed_answer_actions o in
      mask.at_0 || mask.at_1 || mask.at_2 || mask.at_3 || mask.at_4 ≡ true
unfolding allowed_answer_actions
some_permitted o = ground arith

-- A prompt is permitted only before the first counted attempt, and on a scope that stands.
pub prompt_permitted :
    (o : AnswerObservation) (action : AnswerSupportAction)
    → (action ≡ elicit) ⊎ (action ≡ restate)
    → permits (allowed_answer_actions o) action ≡ true
    → (at_least_one o.attempts ≡ false) × (is_rejected o.gate_signal ≡ false)
unfolding allowed_answer_actions
prompt_permitted o action p h = ground arith

pub rejected_permits :
    (o : AnswerObservation) (action : AnswerSupportAction)
    → o.gate_signal ≡ rejected
    → action ≢ other_action
    → permits (allowed_answer_actions o) action ≡ true
    → action ≡ release
unfolding allowed_answer_actions
rejected_permits o action r n h = ground arith

pub committed_first_permits :
    (o : AnswerObservation) (action : AnswerSupportAction)
    → o.evidence ≡ committed_first
    → o.hesitation ≡ false
    → o.verification_available ≡ true
    → is_invalid_phase o.phase ≡ false
    → is_rejected o.gate_signal ≡ false
    → action ≢ other_action
    → permits (allowed_answer_actions o) action ≡ true
    → action ≡ complete
unfolding allowed_answer_actions
committed_first_permits o action e h v p r n m = ground arith

pub inconclusive_permits :
    (o : AnswerObservation) (action : AnswerSupportAction)
    → is_verification_unknown o.evidence || is_hesitating o.evidence ≡ true
    → is_rejected o.gate_signal ≡ false
    → action ≢ other_action
    → permits (allowed_answer_actions o) action ≡ true
    → action ≡ wait
unfolding allowed_answer_actions
inconclusive_permits o action e r n m = ground arith

-- The thousands of the code: terminal, prompting, waiting and release, and the prompting codes of
-- a turn that waits for want of an answer.
abbrev pub InGroup : AnswerSupportAction → ℕ → Type 0
InGroup complete code = code / 1000 ≡ 1
InGroup elicit code = code / 1000 ≡ 2
InGroup restate code = code / 1000 ≡ 2
InGroup release code = code / 1000 ≡ 4
InGroup _ code = (code / 1000 ≡ 3) ⊎ (code / 1000 ≡ 2)

pub reason_group-permitted :
    (o : AnswerObservation) (action : AnswerSupportAction)
    → action ≢ other_action
    → (o.hesitation ≡ true → o.evidence ≡ hesitating)
    → (o.verification_available ≡ false
        → is_committed_first o.evidence || is_committed_late o.evidence ≡ false)
    → (is_invalid_phase o.phase ≡ true
        → is_committed_first o.evidence || is_committed_late o.evidence ≡ false)
    → permits (allowed_answer_actions o) action ≡ true
    → InGroup action (code_of_reason (reason_for_answer_action o action))
      ⊎ ((action ≡ wait) × (reason_for_answer_action o action ≡ late_accepted))
unfolding allowed_answer_actions reason_for_answer_action code_of_reason
reason_group-permitted o action n hh hv hp h = ground arith

-- Once an attempt has been counted, a conclusive turn closes the scope.
pub second_permits :
    (o : AnswerObservation) (action : AnswerSupportAction)
    → is_verification_unknown o.evidence || is_hesitating o.evidence ≡ false
    → o.hesitation ≡ false
    → o.verification_available ≡ true
    → is_invalid_phase o.phase ≡ false
    → is_complete_phase o.phase ≡ false
    → at_least_one o.attempts ≡ true
    → action ≢ other_action
    → permits (allowed_answer_actions o) action ≡ true
    → (action ≡ complete) ⊎ (action ≡ release)
unfolding allowed_answer_actions
second_permits o action e h v p c a n m = ground arith
