-- ===== src/Conversation/Tests.antt =====
-- The adapters and the turns of a scope at concrete assessments, on an exact unit arithmetic.
use conclution_ai_teacher.Prelude.{
  ℕ, ◌+◌, ◌-◌, ◌*◌, ◌/◌, ◌^◌, ◌≤◌, ◌≡◌, refl, ◌↔◌, true, false, [], ◌∷◌, ltb, leb, ◌==◌,
  if◌then◌else◌,
}
use conclution_ai_teacher.Respondent.Floats.{FloatOps}
use conclution_ai_teacher.Respondent.Progress.{
  missing, available, ObservedInput, awaiting_answer, no_attempt,
}
use conclution_ai_teacher.Respondent.Posterior.{VerifierProgressPosterior}
use conclution_ai_teacher.Respondent.Plan.{AnswerControllerInput, plan_answer_support}
use conclution_ai_teacher.Respondent.Contracts.{
  choice, Assessment, CriticAssessment, keep, position_first,
}
use conclution_ai_teacher.Respondent.Coach.{phase_awaiting_answer, guide_attempt_with_restatement}
use conclution_ai_teacher.Conversation.Projection.{
  verifier_progress_input, valid_assessment, valid_critic,
}
use conclution_ai_teacher.Conversation.Projection.Signals.{
  VerifiedTurn, recorded-VerifiedTurn_iff, recorded-strict, strict_input,
}
use conclution_ai_teacher.Conversation.Projection.Turns.{support_turns, prompts, support-prompts_le}

-- Hundredths, with subtraction that stops at 0.
abbrev cents : FloatOps ℕ
cents = record {
  dec = λ n k. n * 100 / 10 ^ k;
  add = λ x y. x + y;
  sub = λ x y. x - y;
  mul = λ x y. x * y / 100;
  div = λ x y. x * 100 / y;
  neg = λ x. 0;
  lt = ltb;
  le = leb;
  eq = λ x y. x == y;
  is_nan = λ x. false;
  is_inf = λ x. false;
  abs = λ x. x;
  max = λ x y. if ltb x y then y else x;
  log2 = λ x. 0;
  floor_u16 = λ x. x / 100;
  of_u16 = λ n. n * 100;
  max_float = 10000;
}

abbrev fifths : VerifierProgressPosterior ℕ
fifths = record {
  target_missing_mass = 20;
  available_uncommitted_mass = 20;
  committed_late_mass = 20;
  committed_first_mass = 20;
  verification_unknown_mass = 20;
}

abbrev leading : Assessment ℕ
leading = record {
  outcome = keep;
  original_target_coverage = 100;
  target_coverage = 100;
  original_commitment_position = position_first;
  commitment_position = position_first;
  target_satisfied = true;
  meaning_preserved = true;
  issues = [];
}

abbrev agreeing : CriticAssessment ℕ
agreeing = record {
  metrics = record {
    hypothesis_gap = 100;
    hypothesis_entropy = 0;
    target_slot_coverage = 100;
    commitment_front_position = position_first;
    meaning_preservation = 100;
  };
  critic_outcome = keep;
  ambiguous_contract = false;
  critic_satisfied = true;
}

abbrev seen : AnswerControllerInput ℕ
seen =
    verifier_progress_input cents fifths leading agreeing phase_awaiting_answer 1 false false true

recorded-VerifiedTurn_iff_example :
    ((plan_answer_support cents (
        verifier_progress_input cents fifths leading agreeing phase_awaiting_answer 1 false false
          true)).verified_first
      ≡ true)
    ↔ VerifiedTurn cents leading agreeing phase_awaiting_answer false true
recorded-VerifiedTurn_iff_example =
    recorded-VerifiedTurn_iff cents fifths leading agreeing phase_awaiting_answer 1 false false true

leading_turn : VerifiedTurn cents leading agreeing phase_awaiting_answer false true
unfolding valid_assessment valid_critic
leading_turn = record {
  own_first = record {
    well_formed = refl;
    kept = refl;
    covers = refl;
    leads = refl;
    satisfied = refl;
    not_fatal = refl;
    not_ambiguous = refl;
  };
  critic_first = record {
    well_formed = refl;
    kept = refl;
    covers = refl;
    leads = refl;
    satisfied = refl;
    not_ambiguous = refl;
  };
  speaking = refl;
  verified = refl;
  phase_known = λ e. cc;
  not_expanding = λ e. cc;
}

recorded-strict_example :
    (guide_attempt_with_restatement cents (
      strict_input cents choice leading agreeing phase_awaiting_answer 1 true false false
        true)).verified_first
    ≡ true
recorded-strict_example =
    recorded-strict cents fifths choice leading agreeing phase_awaiting_answer 1 false false true
      false true
      ((recorded-VerifiedTurn_iff cents fifths leading agreeing phase_awaiting_answer 1 false false
          true).1
        leading_turn)

abbrev quiet : ObservedInput
quiet = record {
  gate_signal = missing;
  critic_signal = available;
  phase = awaiting_answer;
  attempts = no_attempt;
  one_shot = false;
  hesitation = false;
  verification_available = true;
}

support-prompts_le_example : prompts (support_turns cents fifths 0 (quiet ∷ quiet ∷ quiet ∷ [])) ≤ 1
support-prompts_le_example = support-prompts_le cents fifths 0 (quiet ∷ quiet ∷ quiet ∷ [])
