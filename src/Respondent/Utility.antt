-- ===== src/Respondent/Utility.antt =====
-- internal/respondent/belief_controller.go: the counterfactual utility of each action, and the
-- choice among the permitted ones.
use conclution_ai_teacher.Prelude.{ℕ, Bool, true, false, not, ◌&&◌, ◌||◌, if◌then◌else◌}
pub mod Choice
pub mod Maximal
use conclution_ai_teacher.Respondent.Floats.{FloatOps, Five, five, fold_five, zip_five}
use conclution_ai_teacher.Respondent.Progress.{AnswerAttemptLevel, at_least_one}
use conclution_ai_teacher.Respondent.Policy.{
  AnswerSupportAction, wait, elicit, restate, complete, release, other_action, is_elicit,
  is_restate,
}

pub record AnswerActionUtility (F : Type 0) : Type 0 where
  pub action : AnswerSupportAction
  pub permitted : Bool
  pub a_first_success : F
  pub information_gain : F
  pub cognitive_load : F
  pub interruption_risk : F
  pub coercion_risk : F
  pub leakage_risk : F
  pub total : F

-- One `answerCounterfactualEffect` for each latent state.
pub record Effects (F : Type 0) : Type 0 where
  pub success : Five F
  pub load : Five F
  pub interrupt : Five F
  pub coercion : F
  pub leakage : F

-- The state of the loop of `selectAnswerAction`.
record Selected (F : Type 0) : Type 0 where
  chosen : AnswerSupportAction
  best_total : F
  found : Bool

module _ {F : Type 0} (fl : FloatOps F) where
  open fl use {dec, add, sub, mul, neg, lt, le, log2, max_float}

  abbrev cents : ℕ → F
  cents n = dec n 2

  abbrev same : F → Five F
  same x = five x x x x x

  repetition_cost : AnswerAttemptLevel → AnswerSupportAction → F
  repetition_cost attempts action =
      if at_least_one attempts && (is_elicit action || is_restate action) then cents 20 else cents 0

  counterfactual_effect : AnswerSupportAction → AnswerAttemptLevel → Effects F
  unfolding repetition_cost
  counterfactual_effect wait attempts = record {
    success = five (cents 4) (cents 20) (cents 18) (cents 90) (cents 2);
    load = same (cents 2);
    interrupt = five (cents 1) (cents 1) (cents 3) (cents 8) (cents 1);
    coercion = cents 0;
    leakage = cents 0;
  }
  counterfactual_effect elicit attempts = record {
    success = five (cents 25) (cents 58) (cents 28) (cents 92) (cents 10);
    load = five (cents 28) (cents 22) (cents 30) (cents 34) (cents 24);
    interrupt = five (cents 8) (cents 12) (cents 18) (cents 45) (cents 12);
    coercion = add (cents 10) (repetition_cost attempts elicit);
    leakage = cents 0;
  }
  counterfactual_effect restate attempts = record {
    success = five (cents 10) (cents 56) (cents 72) (cents 95) (cents 6);
    load = five (cents 42) (cents 40) (cents 38) (cents 46) (cents 42);
    interrupt = five (cents 14) (cents 18) (cents 12) (cents 48) (cents 16);
    coercion = add (cents 26) (repetition_cost attempts restate);
    leakage = cents 0;
  }
  counterfactual_effect complete attempts = record {
    success = five (cents 0) (cents 0) (cents 0) (dec 1 0) (cents 0);
    load = same (cents 1);
    interrupt = same (cents 0);
    coercion = cents 0;
    leakage = cents 0;
  }
  counterfactual_effect release attempts = record {
    success = same (cents 0);
    load = same (cents 0);
    interrupt = same (cents 0);
    coercion = cents 0;
    leakage = cents 0;
  }
  counterfactual_effect other_action attempts = record {
    success = same (cents 0);
    load = same (cents 0);
    interrupt = same (cents 0);
    coercion = cents 0;
    leakage = dec 1 0;
  }

  binary_entropy : F → F
  binary_entropy p =
      if le p (dec 0 0) || le (dec 1 0) p
      then dec 0 0
      else sub (mul (neg p) (log2 p)) (mul (sub (dec 1 0) p) (log2 (sub (dec 1 0) p)))

  -- The sum over the states of probability times value.
  abbrev expectation : Five F → Five F → F
  expectation values effect = fold_five add (dec 0 0) (zip_five mul values effect)

  information_of : Five F → Five F → F
  unfolding binary_entropy
  information_of values resolved =
      if lt gain (dec 0 0) && lt (neg (dec 1 12)) gain then dec 0 0 else gain
    where
      gain : F
      gain = sub (binary_entropy (expectation values resolved)) (
          expectation values (
            five (binary_entropy resolved.at_0) (binary_entropy resolved.at_1)
              (binary_entropy resolved.at_2) (binary_entropy resolved.at_3)
              (binary_entropy resolved.at_4)))

  expected_answer_information_gain : Five F → AnswerSupportAction → F
  unfolding information_of
  expected_answer_information_gain values wait =
      information_of values (five (cents 10) (cents 28) (cents 55) (cents 95) (cents 10))
  expected_answer_information_gain values elicit =
      information_of values (five (cents 42) (cents 68) (cents 72) (cents 95) (cents 30))
  expected_answer_information_gain values restate =
      information_of values (five (cents 18) (cents 62) (cents 82) (cents 96) (cents 18))
  expected_answer_information_gain values _ = dec 0 0

  -- One round of the loop of `evaluateAnswerActions`.
  evaluate_answer_action :
      Five F → AnswerAttemptLevel → Bool → AnswerSupportAction → AnswerActionUtility F
  unfolding counterfactual_effect expected_answer_information_gain
  evaluate_answer_action values attempts permitted action = record {
    action = action;
    permitted = permitted;
    a_first_success = success;
    information_gain = gain;
    cognitive_load = load;
    interruption_risk = interruption;
    coercion_risk = coercion;
    leakage_risk = leakage;
    total =
        sub
          (sub
            (sub (sub (add (mul (dec 240 2) success) (mul (dec 80 2) gain)) (mul (dec 55 2) load))
              (mul (dec 65 2) interruption))
            (mul (dec 90 2) coercion))
          (mul (dec 140 2) leakage);
  }
    where
      effect : Effects F
      effect = counterfactual_effect action attempts

      success : F
      success = expectation values effect.success

      gain : F
      gain = expected_answer_information_gain values action

      load : F
      load = expectation values effect.load

      interruption : F
      interruption = expectation values effect.interrupt

      coercion : F
      coercion = expectation values (same effect.coercion)

      leakage : F
      leakage = expectation values (same effect.leakage)

  unfoldable pub evaluate_answer_actions :
      Five F → AnswerAttemptLevel → Five Bool → Five (AnswerActionUtility F)
  unfolding evaluate_answer_action
  evaluate_answer_actions values attempts mask =
      zip_five (evaluate_answer_action values attempts) mask
        (five wait elicit restate complete release)

  -- One round of the loop of `selectAnswerAction`.
  select_step : Selected F → AnswerActionUtility F → Selected F
  select_step s u =
      if not u.permitted
      then s
      else if not s.found || lt s.best_total u.total
      then record { chosen = u.action; best_total = u.total; found = true }
      else s

  unfoldable pub select_answer_action : Five (AnswerActionUtility F) → AnswerSupportAction
  unfolding select_step
  select_answer_action utilities =
      (fold_five select_step (record { chosen = wait; best_total = neg max_float; found = false })
        utilities).chosen
