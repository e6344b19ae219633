-- ===== src/Respondent/Coach.antt =====
-- internal/respondent/coach.go: the fixed guidance that a coach turn may give. An attempt count is a
-- Go `uint8`, whose increment wraps at 256.
pub mod Attempts
pub mod Agreement
use Prim.Native.String.{String}
use conclution_ai_teacher.Prelude.{
  ℕ, ◌+◌, ◌-◌, ◌%◌, Bool, true, false, not, ◌&&◌, ◌||◌, if◌then◌else◌, leb,
}
use conclution_ai_teacher.Respondent.Floats.{FloatOps}
use conclution_ai_teacher.Respondent.Contracts.{
  Operator, boolean, choice, quantity, state, cause, purpose, procedure, definition, comparison,
  evidence, open_answer, other_operator, Assessment, CriticAssessment, is_keep, is_clarify,
  is_first_position, is_later_position, is_absent_position,
}
use conclution_ai_teacher.Respondent.Progress.{max_coach_attempts}
use conclution_ai_teacher.Respondent.Replies.{
  gentle_reask_prompt, core_prompt, expansion_prompt, completion_reply, natural_continuation_reply,
  late_answer_continuation_reply,
}

-- `other_coach_phase` stands for every string that is no constant.
pub data CoachPhase : Type 0 where
  phase_none phase_awaiting_answer phase_awaiting_restatement phase_expanding : CoachPhase
  phase_complete phase_blocked other_coach_phase : CoachPhase

pub data CoachAction : Type 0 where
  coach_none coach_elicit coach_restate coach_expand coach_complete : CoachAction
  coach_retry coach_release : CoachAction

-- The fields of `CoachDecision` without the posterior, which stands in `Respondent.Guide`.
pub record CoachDecision : Type 0 where
  pub phase : CoachPhase
  pub action : CoachAction
  pub spoken_reply : String
  pub attempts : ℕ
  pub keep_pending : Bool
  pub verified_first : Bool

abbrev pub is_phase_expanding : CoachPhase → Bool
is_phase_expanding phase_expanding = true
is_phase_expanding _ = false

abbrev pub is_phase_restatement : CoachPhase → Bool
is_phase_restatement phase_awaiting_restatement = true
is_phase_restatement _ = false

unfoldable pub release_decision : ℕ → CoachDecision
release_decision attempts = record {
  phase = phase_blocked;
  action = coach_release;
  spoken_reply = "大丈夫です。言い直さなくても、今のままで話を続けられます。";
  attempts = attempts;
  keep_pending = false;
  verified_first = false;
}

-- A decision that keeps the scope open.
abbrev pub pending : CoachPhase → CoachAction → String → ℕ → CoachDecision
pending phase action reply attempts = record {
  phase = phase;
  action = action;
  spoken_reply = reply;
  attempts = attempts;
  keep_pending = true;
  verified_first = false;
}

-- A decision that closes the scope as complete.
abbrev pub completed : String → ℕ → Bool → CoachDecision
completed reply attempts first = record {
  phase = phase_complete;
  action = coach_complete;
  spoken_reply = reply;
  attempts = attempts;
  keep_pending = false;
  verified_first = first;
}

unfoldable pub hold_for_hesitation : CoachPhase → ℕ → CoachDecision
hold_for_hesitation phase_awaiting_restatement attempts =
    pending phase_awaiting_restatement coach_restate "" attempts
hold_for_hesitation phase_expanding attempts = pending phase_expanding coach_expand "" attempts
hold_for_hesitation phase_blocked attempts = pending phase_blocked coach_retry "" attempts
hold_for_hesitation _ attempts = pending phase_awaiting_answer coach_elicit "" attempts

-- The prompt of the phase, after the attempt has been counted.
guide_in_phase : Operator → CoachPhase → ℕ → CoachDecision
guide_in_phase operator phase attempts =
    if is_phase_expanding phase
    then pending phase_expanding coach_expand (expansion_prompt operator) attempts
    else if is_phase_restatement phase
    then pending phase_awaiting_restatement coach_restate (gentle_reask_prompt operator) attempts
    else pending phase_awaiting_answer coach_elicit (core_prompt operator) attempts

unfoldable pub guide_awaiting_in_phase : Operator → CoachPhase → ℕ → Bool → CoachDecision
unfolding guide_in_phase release_decision
guide_awaiting_in_phase operator phase attempts count_attempt =
    if count_attempt
    then (if leb (max_coach_attempts - 1) attempts
        then release_decision max_coach_attempts
        else guide_in_phase operator phase ((attempts + 1) % 256))
    else guide_in_phase operator phase attempts

unfoldable pub guide_awaiting : Operator → ℕ → Bool → CoachDecision
unfolding guide_awaiting_in_phase
guide_awaiting operator attempts count_attempt =
    guide_awaiting_in_phase operator phase_awaiting_answer attempts count_attempt

unfoldable pub begin_expansion : Operator → CoachDecision
begin_expansion operator =
    record (pending phase_expanding coach_expand (expansion_prompt operator) 0) {
      verified_first = true;
    }

unfoldable pub complete_expansion : Bool → CoachDecision
complete_expansion abstained = completed (completion_reply abstained) 0 false

-- The nine arguments of `guideAttempt`.
pub record AttemptInput (F : Type 0) : Type 0 where
  pub operator : Operator
  pub phase : CoachPhase
  pub attempts : ℕ
  pub gate : Assessment F
  pub critic : CriticAssessment F
  pub verification_available : Bool
  pub abstained : Bool
  pub one_shot : Bool
  pub require_restatement : Bool

module _ {F : Type 0} (fl : FloatOps F) where
  open fl use {dec, lt, eq}

  -- x == 1 and x < 1.
  abbrev pub is_full : F → Bool
  is_full x = eq x (dec 1 0)

  abbrev pub is_partial : F → Bool
  is_partial x = lt x (dec 1 0)

  -- The conjunction `succeeded`.
  unfoldable pub succeeded : AttemptInput F → Bool
  succeeded i =
      is_keep i.gate.outcome
      && is_first_position i.gate.original_commitment_position
      && is_full i.gate.original_target_coverage
      && i.gate.target_satisfied
      && is_keep i.critic.critic_outcome
      && i.critic.critic_satisfied
      && is_first_position i.critic.metrics.commitment_front_position
      && is_full i.critic.metrics.target_slot_coverage

  unfoldable pub covered : AttemptInput F → Bool
  covered i =
      is_full i.gate.original_target_coverage && is_full i.critic.metrics.target_slot_coverage

  unfoldable pub either_later : AttemptInput F → Bool
  either_later i =
      is_later_position i.gate.original_commitment_position
      || is_later_position i.critic.metrics.commitment_front_position

  unfoldable pub needs_answer : AttemptInput F → Bool
  needs_answer i =
      is_partial i.gate.original_target_coverage
      || is_absent_position i.gate.original_commitment_position
      || is_partial i.critic.metrics.target_slot_coverage
      || is_absent_position i.critic.metrics.commitment_front_position
      || is_clarify i.gate.outcome
      || is_clarify i.critic.critic_outcome
      || i.critic.ambiguous_contract

  guide_success : AttemptInput F → CoachDecision
  guide_success i =
      if i.one_shot
      then completed (natural_continuation_reply i.operator i.abstained) i.attempts first
      else if is_phase_expanding i.phase || i.abstained
      then completed (completion_reply i.abstained) i.attempts first
      else completed (natural_continuation_reply i.operator i.abstained) i.attempts first
    where
      first : Bool
      first = not (is_phase_expanding i.phase)

  -- The branches after the attempt has been counted and is below the limit.
  guide_retry : AttemptInput F → ℕ → CoachDecision
  guide_retry i next_attempts =
      if is_phase_expanding i.phase
      then pending phase_expanding coach_expand
          (if either_later i
            then "今の話には支えの核があります。もし話しやすければ、その一文から続きを聞かせてください。"
            else expansion_prompt i.operator)
          next_attempts
      else if covered i && not i.critic.ambiguous_contract && either_later i
      then (if i.require_restatement && not i.one_shot
          then pending phase_awaiting_restatement coach_restate (gentle_reask_prompt i.operator)
              next_attempts
          else completed late_answer_continuation_reply i.attempts false)
      else if needs_answer i
      then pending phase_awaiting_answer coach_elicit (core_prompt i.operator) next_attempts
      else pending phase_blocked coach_retry "そこまで聞けています。浮かんだ続きがあれば、そのまま聞かせてください。" next_attempts

  unfoldable pub guide_attempt_with_restatement : AttemptInput F → CoachDecision
  unfolding guide_success guide_retry release_decision
  guide_attempt_with_restatement i =
      if not i.verification_available
      then pending phase_blocked coach_retry "こちらの確認が間に合いませんでした。あなたの言い方の問題ではありません。そのまま続けて大丈夫です。"
          i.attempts
      else if succeeded i
      then guide_success i
      else if is_phase_expanding i.phase && covered i
      then completed (completion_reply i.abstained) i.attempts false
      else if leb max_coach_attempts ((i.attempts + 1) % 256)
      then release_decision max_coach_attempts
      else guide_retry i ((i.attempts + 1) % 256)

  -- `GuideAttempt`: the same with no restatement required.
  unfoldable pub guide_attempt : AttemptInput F → CoachDecision
  unfolding guide_attempt_with_restatement
  guide_attempt i = guide_attempt_with_restatement (record i { require_restatement = false })
