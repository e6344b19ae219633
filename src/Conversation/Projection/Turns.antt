-- ===== src/Conversation/Projection/Turns.antt =====
-- A scope over several turns: each turn's count of attempts and posterior go to the next.
use conclution_ai_teacher.Prelude.{
  ℕ, suc, ◌≤◌, ◌≡◌, refl, ◌↔◌, List, [], ◌∷◌, arith, ltb, if◌then◌else◌,
}
use conclution_ai_teacher.Respondent.Floats.{FloatOps}
use conclution_ai_teacher.Respondent.Progress.{
  ObservedInput, no_attempt, attempts_from_level, normalize_attempt_level,
}
use conclution_ai_teacher.Respondent.Policy.{AnswerSupportAction}
use conclution_ai_teacher.Respondent.Posterior.{VerifierProgressPosterior}
use conclution_ai_teacher.Respondent.Plan.{AnswerControllerInput, plan_answer_support}
use conclution_ai_teacher.Conversation.Projection.{project_verifier_progress_attempts}
use conclution_ai_teacher.Respondent.Plan.Turns.{is_prompt, plan-prompt, plan-attempts_grow}

-- How many turns speak a prompt.
abbrev pub prompts : List AnswerSupportAction → ℕ
prompts [] = 0
prompts (action ∷ actions) = if is_prompt action then suc (prompts actions) else prompts actions

module _ {F : Type 0} (fl : FloatOps F) where
  -- The input of a turn: the environment's signals, and the stored count of attempts.
  abbrev turn_input : VerifierProgressPosterior F → ℕ → ObservedInput → AnswerControllerInput F
  turn_input prior attempts seen = record {
    prior = prior;
    observed = record seen { attempts = project_verifier_progress_attempts attempts };
  }

  -- The actions of a scope, turn by turn.
  unfoldable pub support_turns :
      VerifierProgressPosterior F → ℕ → List ObservedInput → List AnswerSupportAction
  support_turns prior attempts [] = []
  support_turns prior attempts (seen ∷ rest) =
      let d = plan_answer_support fl (turn_input prior attempts seen) in
      d.action ∷ support_turns d.posterior d.next_attempts rest

  level_of_attempts :
      (n : ℕ)
      → ((project_verifier_progress_attempts n ≡ no_attempt) ↔ (n ≡ 0))
        × (normalize_attempt_level (project_verifier_progress_attempts n)
            ≡ project_verifier_progress_attempts n)
        × (attempts_from_level (project_verifier_progress_attempts n) ≡ (if ltb n 2 then n else 2))
  unfolding project_verifier_progress_attempts normalize_attempt_level attempts_from_level
  level_of_attempts n = ((λ h. ground arith, λ h. ground arith), ground arith, ground arith)

  prompts_after :
      (prior : VerifierProgressPosterior F) (attempts : ℕ) (turns : List ObservedInput)
      → 1 ≤ attempts
      → prompts (support_turns prior attempts turns) ≡ 0
  unfolding support_turns
  prompts_after prior attempts [] h = refl
  prompts_after prior attempts (seen ∷ rest) h =
      let input = turn_input prior attempts seen in
      let d = plan_answer_support fl input in
      ground (
        arith,
        plan-prompt fl input,
        plan-attempts_grow fl input,
        level_of_attempts attempts,
        prompts_after d.posterior d.next_attempts rest,
      )

  -- Over any sequence of turns of a scope, in which each turn starts from the posterior and the
  -- attempt count that the turn before left, whatever the signals, the controller speaks at most
  -- one prompt (an elicitation or a request to restate).
  pub support-prompts_le :
      (prior : VerifierProgressPosterior F) (attempts : ℕ) (turns : List ObservedInput)
      → prompts (support_turns prior attempts turns) ≤ 1
  unfolding support_turns
  support-prompts_le prior attempts [] = omega arith
  support-prompts_le prior attempts (seen ∷ rest) =
      let input = turn_input prior attempts seen in
      let d = plan_answer_support fl input in
      ground (
        arith,
        plan-prompt fl input,
        prompts_after d.posterior d.next_attempts rest,
        support-prompts_le d.posterior d.next_attempts rest,
      )
