-- ===== src/Respondent/Tests.antt =====
-- Runs of the controller and the coach on a fixed-point arithmetic, and the theorems at concrete turns.
use conclution_ai_teacher.Prelude.{
  ℕ, ◌+◌, ◌-◌, ◌*◌, ◌/◌, ◌^◌, ◌≤◌, ◌≡◌, refl, ◌≢◌, ◌↔◌, inr, Bool, true, false, not, ◌||◌, [],
  arith, ltb, leb, ◌==◌, if◌then◌else◌,
}
use conclution_ai_teacher.Respondent.Floats.{FloatOps, five}
use conclution_ai_teacher.Respondent.Progress.{
  VerifierSignal, invalid, missing, available, first, later, rejected, AnswerPhase, awaiting_answer,
  AnswerAttemptLevel, no_attempt, one_attempt, max_coach_attempts, attempts_from_level,
  observe_answer_state, normalize_verifier_signal, normalize_attempt_level,
}
use conclution_ai_teacher.Respondent.Policy.{
  wait, elicit, restate, release, other_action, permits, allowed_answer_actions, is_complete,
  is_release, scope_rejected, reason_for_answer_action,
}
use conclution_ai_teacher.Respondent.Posterior.{
  VerifierProgressPosterior, posterior_values, update_verifier_progress_posterior,
  normalize_probability_values,
}
use conclution_ai_teacher.Respondent.Utility.{select_answer_action, evaluate_answer_actions}
use conclution_ai_teacher.Respondent.Plan.{
  AnswerControllerInput, choose_action, plan_answer_support,
}
use conclution_ai_teacher.Respondent.Contracts.{
  cause, Assessment, CriticAssessment, keep, CommitmentPosition, position_later, position_absent,
}
use conclution_ai_teacher.Respondent.Coach.{
  phase_awaiting_answer, coach_restate, AttemptInput, guide_attempt_with_restatement, succeeded,
  covered, either_later,
}
use conclution_ai_teacher.Respondent.Policy.{late_accepted}
use conclution_ai_teacher.Respondent.Plan.Safety.{
  plan-permitted, plan-verified_first_iff, plan-scope_rejected, plan-FailsClosed, IsVerifiedFirst,
}
use conclution_ai_teacher.Respondent.Plan.Turns.{plan-second_closes}
use conclution_ai_teacher.Respondent.Utility.Maximal.{IsOrdered, total_of, select-maximal}
use conclution_ai_teacher.Respondent.Coach.Attempts.{guide-two_turns, follow_up}
use conclution_ai_teacher.Respondent.Stored.{is_valid, store_verifier_progress}
use conclution_ai_teacher.Respondent.Stored.Quantize.{store-is_valid}

-- Millionths, with subtraction that stops at 0.
abbrev one : ℕ
one = 1_000_000

abbrev fixed : FloatOps ℕ
fixed = record {
  dec = λ n k. n * one / 10 ^ k;
  add = λ x y. x + y;
  sub = λ x y. x - y;
  mul = λ x y. x * y / one;
  div = λ x y. x * one / y;
  neg = λ x. 0;
  lt = ltb;
  le = leb;
  eq = λ x y. x == y;
  is_nan = λ x. false;
  is_inf = λ x. false;
  abs = λ x. x;
  max = λ x y. if ltb x y then y else x;
  log2 = λ x. 0;
  floor_u16 = λ x. x / one;
  of_u16 = λ n. n * one;
  max_float = one * one;
}

fixed-IsOrdered : IsOrdered fixed
fixed-IsOrdered = record {
  irreflexive = λ x. ground arith;
  asymmetric = λ x y h. ground arith;
  cotransitive = λ x y z h k. ground arith;
}

-- The uniform prior.
abbrev level_prior : VerifierProgressPosterior ℕ
level_prior = record {
  target_missing_mass = 200_000;
  available_uncommitted_mass = 200_000;
  committed_late_mass = 200_000;
  committed_first_mass = 200_000;
  verification_unknown_mass = 200_000;
}

abbrev turn :
    VerifierSignal → VerifierSignal → AnswerPhase → AnswerAttemptLevel → AnswerControllerInput ℕ
turn gate critic phase attempts = record {
  prior = level_prior;
  observed = record {
    gate_signal = gate;
    critic_signal = critic;
    phase = phase;
    attempts = attempts;
    one_shot = false;
    hesitation = false;
    verification_available = true;
  };
}

missing_elicits :
    (plan_answer_support fixed (turn missing available awaiting_answer no_attempt)).action ≡ elicit
unfolding plan_answer_support choose_action observe_answer_state update_verifier_progress_posterior
    allowed_answer_actions evaluate_answer_actions select_answer_action
missing_elicits = refl

plan-permitted_example :
    let d = plan_answer_support fixed (turn missing available awaiting_answer no_attempt) in
    (permits (allowed_answer_actions d.observation) d.action ≡ true)
    × (d.action ≢ other_action)
    × (d.keep_pending ≡ not (is_complete d.action || is_release d.action))
    × (d.next_attempts ≤ max_coach_attempts)
plan-permitted_example = plan-permitted fixed (turn missing available awaiting_answer no_attempt)

plan-verified_first_iff_example :
    ((plan_answer_support fixed (turn first first awaiting_answer one_attempt)).verified_first
      ≡ true)
    ↔ IsVerifiedFirst (turn first first awaiting_answer one_attempt).observed
plan-verified_first_iff_example =
    plan-verified_first_iff fixed (turn first first awaiting_answer one_attempt)

plan-scope_rejected_example :
    let d = plan_answer_support fixed (turn rejected first awaiting_answer no_attempt) in
    (d.action ≡ release)
    × (d.reason_code ≡ scope_rejected)
    × (d.keep_pending ≡ false)
    × (d.verified_first ≡ false)
    × (d.next_attempts ≡ max_coach_attempts)
plan-scope_rejected_example =
    plan-scope_rejected fixed (turn rejected first awaiting_answer no_attempt) refl

plan-FailsClosed_example :
    let d = plan_answer_support fixed (turn first invalid awaiting_answer one_attempt) in
    (d.action ≡ wait)
    × (d.verified_first ≡ false)
    × (d.keep_pending ≡ true)
    × (d.next_attempts ≡ attempts_from_level (normalize_attempt_level one_attempt))
unfolding normalize_verifier_signal
plan-FailsClosed_example =
    plan-FailsClosed fixed (turn first invalid awaiting_answer one_attempt) (λ e. cc)
      (inr (inr (inr (inr refl))))

plan-second_closes_example :
    (plan_answer_support fixed (turn missing missing awaiting_answer one_attempt)).keep_pending
    ≡ false
unfolding plan_answer_support observe_answer_state
plan-second_closes_example =
    plan-second_closes fixed (turn missing missing awaiting_answer one_attempt) refl refl refl

select-maximal_example :
    let us =
      evaluate_answer_actions fixed
        (posterior_values level_prior)
        no_attempt
        (five true false true false false) in
    ltb (total_of us (select_answer_action fixed us)) (total_of us restate) ≡ false
select-maximal_example =
    select-maximal fixed fixed-IsOrdered (posterior_values level_prior) no_attempt
      (five true false true false false) restate refl

-- A turn of the strict guide.
abbrev own : CommitmentPosition → ℕ → Assessment ℕ
own position coverage = record {
  outcome = keep;
  original_target_coverage = coverage;
  target_coverage = coverage;
  original_commitment_position = position;
  commitment_position = position;
  target_satisfied = true;
  meaning_preserved = true;
  issues = [];
}

abbrev critic : CommitmentPosition → ℕ → CriticAssessment ℕ
critic position coverage = record {
  metrics = record {
    hypothesis_gap = one;
    hypothesis_entropy = 0;
    target_slot_coverage = coverage;
    commitment_front_position = position;
    meaning_preservation = one;
  };
  critic_outcome = keep;
  ambiguous_contract = false;
  critic_satisfied = true;
}

abbrev attempt : CommitmentPosition → ℕ → ℕ → Bool → AttemptInput ℕ
attempt position coverage attempts strict = record {
  operator = cause;
  phase = phase_awaiting_answer;
  attempts = attempts;
  gate = own position coverage;
  critic = critic position coverage;
  verification_available = true;
  abstained = false;
  one_shot = false;
  require_restatement = strict;
}

late_strict_restates :
    (guide_attempt_with_restatement fixed (attempt position_later one 0 true)).action
    ≡ coach_restate
unfolding guide_attempt_with_restatement succeeded covered either_later
late_strict_restates = refl

guide-two_turns_example :
    let d = guide_attempt_with_restatement fixed (attempt position_later one 0 true) in
    (guide_attempt_with_restatement fixed
      (follow_up fixed d (attempt position_absent 0 0 true))).keep_pending
    ≡ false
unfolding guide_attempt_with_restatement succeeded covered either_later
guide-two_turns_example =
    guide-two_turns fixed (attempt position_later one 0 true) (attempt position_absent 0 0 true)
      refl refl (omega arith) refl

store-is_valid_example : is_valid (store_verifier_progress fixed level_prior) ≡ true
unfolding normalize_probability_values
store-is_valid_example = store-is_valid fixed level_prior (omega arith)

-- A prior that holds all its mass on the last state makes a late answer wait.
abbrev unknown_prior : VerifierProgressPosterior ℕ
unknown_prior = record {
  target_missing_mass = 0;
  available_uncommitted_mass = 0;
  committed_late_mass = 0;
  committed_first_mass = 0;
  verification_unknown_mass = one;
}

abbrev late_turn : AnswerControllerInput ℕ
late_turn = record (turn later later awaiting_answer no_attempt) { prior = unknown_prior }

late_turn_waits :
    ((plan_answer_support fixed late_turn).action ≡ wait)
    × ((plan_answer_support fixed late_turn).reason_code ≡ late_accepted)
unfolding plan_answer_support choose_action observe_answer_state update_verifier_progress_posterior
    allowed_answer_actions evaluate_answer_actions select_answer_action reason_for_answer_action
late_turn_waits = (refl, refl)
