-- ===== src/Respondent/Plan/Turns.antt =====
-- What one turn does to the count of attempts, and which turn is the last.
use conclution_ai_teacher.Prelude.{◌≤◌, ◌≡◌, Bool, true, false, ◌||◌, arith}
use conclution_ai_teacher.Respondent.Floats.{FloatOps}
use conclution_ai_teacher.Respondent.Progress.{
  is_hesitating, is_verification_unknown, no_attempt, attempts_from_level, is_complete_phase,
  observe_answer_state, normalize_attempt_level, at_least_one,
}
use conclution_ai_teacher.Respondent.Policy.{AnswerSupportAction, is_elicit, is_restate}
use conclution_ai_teacher.Respondent.Posterior.{update_verifier_progress_posterior}
use conclution_ai_teacher.Respondent.Plan.{
  AnswerControllerInput, choose_action, plan_answer_support,
}
use conclution_ai_teacher.Respondent.Plan.Safety.{choose-permitted}
use conclution_ai_teacher.Respondent.Policy.Mask.{prompt_permitted, second_permits}
use conclution_ai_teacher.Respondent.Progress.Evidence.{
  level-at_least, observed-conclusive, observed-phase,
}

abbrev pub is_prompt : AnswerSupportAction → Bool
is_prompt action = is_elicit action || is_restate action

module _ {F : Type 0} (fl : FloatOps F) where
  pub plan-prompt :
      (input : AnswerControllerInput F)
      → let d = plan_answer_support fl input in
        is_prompt d.action ≡ true
        → (normalize_attempt_level input.attempts ≡ no_attempt) × (d.next_attempts ≡ 1)
  unfolding plan_answer_support attempts_from_level
  plan-prompt input h =
      let o = observe_answer_state input.observed in
      let (p, _) = update_verifier_progress_posterior fl input.prior o in
      let c = choose-permitted fl p o in
      let e = observed-phase input.observed in
      ground (arith, c, prompt_permitted o (choose_action fl p o), e)

  -- No turn lowers the count.
  pub plan-attempts_grow :
      (input : AnswerControllerInput F)
      → attempts_from_level (normalize_attempt_level input.attempts)
        ≤ (plan_answer_support fl input).next_attempts
  unfolding plan_answer_support attempts_from_level
  plan-attempts_grow input = ground (arith, observed-phase input.observed)

  -- Once an attempt has been counted, a turn whose evidence is neither unknown nor hesitation, in
  -- a phase other than complete, closes the scope.
  pub plan-second_closes :
      (input : AnswerControllerInput F)
      → at_least_one input.attempts ≡ true
      → let d = plan_answer_support fl input in
        is_verification_unknown d.observation.evidence || is_hesitating d.observation.evidence
          ≡ false
        → is_complete_phase d.observation.phase ≡ false
        → d.keep_pending ≡ false
  unfolding plan_answer_support normalize_attempt_level
  plan-second_closes input a e n =
      let o = observe_answer_state input.observed in
      let (p, _) = update_verifier_progress_posterior fl input.prior o in
      let c = choose-permitted fl p o in
      let (h, v, k) = observed-conclusive input.observed e in
      let s =
        second_permits o (choose_action fl p o) e h v k n (level-at_least input.observed a) c.1
          c.0 in
      ground (arith, s)
