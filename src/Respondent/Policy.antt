-- ===== src/Respondent/Policy.antt =====
-- internal/respondent/belief_controller.go: the action mask, the selection and the reason codes.
pub mod Mask
use conclution_ai_teacher.Prelude.{ℕ, Bool, true, false, not, ◌&&◌, ◌||◌, if◌then◌else◌}
use conclution_ai_teacher.Respondent.Floats.{Five, five}
use conclution_ai_teacher.Respondent.Progress.{
  AnswerObservation, AnswerEvidence, verification_unknown, hesitating, target_missing,
  available_uncommitted, committed_late, committed_first, ambiguous_evidence, is_rejected,
  is_committed_first, is_committed_late, is_hesitating, is_verification_unknown, is_complete_phase,
  is_expanding, is_invalid_phase, at_least_one, verifier_has_target,
}

-- `other_action` stands for every string that is no constant.
pub data AnswerSupportAction : Type 0 where
  wait elicit restate complete release other_action : AnswerSupportAction

-- The masks, in the order of `actionIndex`: wait, elicit, restate, complete, release.
abbrev only_wait : Five Bool
only_wait = five true false false false false

abbrev only_complete : Five Bool
only_complete = five false false false true false

abbrev only_release : Five Bool
only_release = five false false false false true

-- The part of `allowedAnswerActions` from the test for late commitment on.
allowed_uncommitted : AnswerObservation → Five Bool
allowed_uncommitted o =
    if is_committed_late o.evidence
    then (if not o.one_shot && not (is_expanding o.phase)
        then (if at_least_one o.attempts then only_release else five true false true false false)
        else only_complete)
    else if at_least_one o.attempts
    then only_release
    else five true true false false false

unfoldable pub allowed_answer_actions : AnswerObservation → Five Bool
unfolding allowed_uncommitted
allowed_answer_actions o =
    if is_rejected o.gate_signal
    then only_release
    else if is_complete_phase o.phase
    then (if is_committed_first o.evidence || is_committed_late o.evidence
        then only_complete
        else only_wait)
    else if o.hesitation || is_hesitating o.evidence || not o.verification_available
    then only_wait
    else if is_invalid_phase o.phase || is_verification_unknown o.evidence
    then only_wait
    else if is_committed_first o.evidence
    then only_complete
    else if is_expanding o.phase
        && verifier_has_target o.gate_signal
        && verifier_has_target o.critic_signal
    then only_complete
    else allowed_uncommitted o

-- `allowed[actionIndex(action)]`; the index of an unknown action is 0.
abbrev pub permits : Five Bool → AnswerSupportAction → Bool
permits mask wait = mask.at_0
permits mask elicit = mask.at_1
permits mask restate = mask.at_2
permits mask complete = mask.at_3
permits mask release = mask.at_4
permits mask other_action = mask.at_0

pub data AnswerReasonCode : Type 0 where
  terminal_complete verified_first late_accepted expansion_accepted : AnswerReasonCode
  reason_target_missing reason_available_uncommitted reason_ambiguous : AnswerReasonCode
  late_restatement reason_hesitation verification_unavailable : AnswerReasonCode
  verification_inconclusive invalid_phase_reason attempt_limit_reached : AnswerReasonCode
  scope_rejected : AnswerReasonCode

-- The stable number of each reason.
unfoldable pub code_of_reason : AnswerReasonCode → ℕ
code_of_reason terminal_complete = 1000
code_of_reason verified_first = 1010
code_of_reason late_accepted = 1020
code_of_reason expansion_accepted = 1030
code_of_reason reason_target_missing = 2000
code_of_reason reason_available_uncommitted = 2010
code_of_reason reason_ambiguous = 2020
code_of_reason late_restatement = 2030
code_of_reason reason_hesitation = 3000
code_of_reason verification_unavailable = 3010
code_of_reason verification_inconclusive = 3020
code_of_reason invalid_phase_reason = 3030
code_of_reason attempt_limit_reached = 4000
code_of_reason scope_rejected = 4010

abbrev pub is_release : AnswerSupportAction → Bool
is_release release = true
is_release _ = false

abbrev pub is_complete : AnswerSupportAction → Bool
is_complete complete = true
is_complete _ = false

abbrev pub is_restate : AnswerSupportAction → Bool
is_restate restate = true
is_restate _ = false

abbrev pub is_elicit : AnswerSupportAction → Bool
is_elicit elicit = true
is_elicit _ = false

abbrev pub is_wait : AnswerSupportAction → Bool
is_wait wait = true
is_wait _ = false

-- The final `switch` on the evidence.
reason_for_evidence : AnswerEvidence → AnswerSupportAction → AnswerReasonCode
reason_for_evidence committed_first action = verified_first
reason_for_evidence committed_late action =
    if is_restate action then late_restatement else late_accepted
reason_for_evidence target_missing action = reason_target_missing
reason_for_evidence available_uncommitted action = reason_available_uncommitted
reason_for_evidence ambiguous_evidence action = reason_ambiguous
reason_for_evidence _ action = verification_inconclusive

unfoldable pub reason_for_answer_action : AnswerObservation → AnswerSupportAction → AnswerReasonCode
unfolding reason_for_evidence
reason_for_answer_action o action =
    if is_release action
    then (if is_rejected o.gate_signal then scope_rejected else attempt_limit_reached)
    else if is_invalid_phase o.phase
    then invalid_phase_reason
    else if is_complete_phase o.phase && is_complete action
    then terminal_complete
    else if o.hesitation || is_hesitating o.evidence
    then reason_hesitation
    else if not o.verification_available
    then verification_unavailable
    else if is_complete action && is_expanding o.phase
    then expansion_accepted
    else reason_for_evidence o.evidence action
