-- ===== src/Respondent/Plan/Safety.antt =====
-- What every decision of `PlanAnswerSupport` satisfies, for every arithmetic of the floats.
use conclution_ai_teacher.Prelude.{◌≤◌, ◌≡◌, ◌≢◌, ◌↔◌, true, false, not, ◌&&◌, ◌||◌, arith}
use conclution_ai_teacher.Respondent.Floats.{FloatOps}
use conclution_ai_teacher.Respondent.Progress.{
  is_committed_first, first, rejected, AnswerObservation, ObservedInput, AnswerAttemptLevel,
  max_coach_attempts, attempts_from_level, is_invalid_phase, is_expanding, observe_answer_state,
  normalize_verifier_signal, normalize_answer_phase, normalize_attempt_level,
}
use conclution_ai_teacher.Respondent.Policy.{
  AnswerSupportAction, wait, release, other_action, permits, allowed_answer_actions, is_wait,
  is_elicit, is_restate, is_complete, is_release, scope_rejected, reason_for_answer_action,
}
use conclution_ai_teacher.Respondent.Posterior.{
  VerifierProgressPosterior, posterior_values, update_verifier_progress_posterior,
}
use conclution_ai_teacher.Respondent.Plan.{
  AnswerControllerInput, choose_action, plan_answer_support, next_attempts_after,
}
use conclution_ai_teacher.Respondent.Progress.Evidence.{
  observed-committed_first, observed-first_first, observed-phase, observed-rejected,
  observed-not_rejected, observed-inconclusive, first-phase_known, FailsClosed,
}
use conclution_ai_teacher.Respondent.Policy.Mask.{
  some_permitted, rejected_permits, committed_first_permits, inconclusive_permits,
}
use conclution_ai_teacher.Respondent.Utility.Choice.{select-permitted}

-- Both verifiers saw the person's own answer first, in a phase that is known and not the optional
-- expansion.
pub record IsVerifiedFirst (i : ObservedInput) : Type 0 where
  pub not_hesitating : i.hesitation ≡ false
  pub verified : i.verification_available ≡ true
  pub gate_first : i.gate_signal ≡ first
  pub critic_first : i.critic_signal ≡ first
  pub phase_known : is_invalid_phase (normalize_answer_phase i.phase) ≡ false
  pub phase_not_expanding : is_expanding i.phase ≡ false

module _ {F : Type 0} (fl : FloatOps F) where
  pub choose-permitted :
      (p : VerifierProgressPosterior F) (o : AnswerObservation)
      → (permits (allowed_answer_actions o) (choose_action fl p o) ≡ true)
        × (choose_action fl p o ≢ other_action)
  unfolding choose_action
  choose-permitted p o =
      select-permitted fl (posterior_values p) o.attempts (allowed_answer_actions o)
        (some_permitted o)

  -- The three flags of a decision are functions of its action.
  keep_pending-not :
      {action : AnswerSupportAction}
      → action ≢ other_action
      → (is_wait action || is_elicit action || is_restate action)
        ≡ not (is_complete action || is_release action)
  keep_pending-not n = ground arith

  next_attempts-le :
      (level : AnswerAttemptLevel) (action : AnswerSupportAction)
      → next_attempts_after (attempts_from_level level) action ≤ max_coach_attempts
  unfolding next_attempts_after attempts_from_level
  next_attempts-le level action = ground arith

  -- For every arithmetic of the floats and every input, the chosen action is one of the five and
  -- the mask permits it; the scope stays pending exactly when the action is neither complete nor
  -- release; and the attempt count is at most 2.
  pub plan-permitted :
      (input : AnswerControllerInput F)
      → let d = plan_answer_support fl input in
        (permits (allowed_answer_actions d.observation) d.action ≡ true)
        × (d.action ≢ other_action)
        × (d.keep_pending ≡ not (is_complete d.action || is_release d.action))
        × (d.next_attempts ≤ max_coach_attempts)
  unfolding plan_answer_support
  plan-permitted input =
      let o = observe_answer_state input.observed in
      let (p, _) = update_verifier_progress_posterior fl input.prior o in
      let c = choose-permitted p o in
      (c.0, c.1, keep_pending-not c.1, next_attempts-le o.attempts (choose_action fl p o))

  IsVerifiedFirst-sound :
      (p : VerifierProgressPosterior F) (i : ObservedInput)
      → let o = observe_answer_state i in
        let action = choose_action fl p o in
        is_complete action && is_committed_first o.evidence && not (is_expanding o.phase) ≡ true
        → IsVerifiedFirst i
  unfolding normalize_answer_phase
  IsVerifiedFirst-sound p i h =
      ground (arith, observed-committed_first i, observed-phase i, first-phase_known i)

  verified_first_complete :
      (p : VerifierProgressPosterior F) (i : ObservedInput)
      → IsVerifiedFirst i
      → let o = observe_answer_state i in
        let action = choose_action fl p o in
        is_complete action && is_committed_first o.evidence && not (is_expanding o.phase) ≡ true
  unfolding normalize_answer_phase normalize_verifier_signal
  verified_first_complete p i v =
      let o = observe_answer_state i in
      let c = choose-permitted p o in
      ground (
        arith,
        observed-first_first i v.not_hesitating v.verified v.phase_known v.gate_first
            v.critic_first,
        observed-phase i,
        committed_first_permits o (choose_action fl p o),
        c,
      )

  pub plan-verified_first_iff :
      (input : AnswerControllerInput F)
      → ((plan_answer_support fl input).verified_first ≡ true) ↔ IsVerifiedFirst input.observed
  unfolding plan_answer_support
  plan-verified_first_iff input =
      (IsVerifiedFirst-sound _ input.observed, λ v. verified_first_complete _ input.observed v)

  pub plan-first_completes :
      (input : AnswerControllerInput F)
      → is_complete (plan_answer_support fl input).action ≡ false
      → (plan_answer_support fl input).verified_first ≡ false
  unfolding plan_answer_support
  plan-first_completes input h = ground arith

  -- Where the gate rejects the scope, the controller releases it with the reason scope_rejected,
  -- whatever the critic, the phase and the attempts: nothing stays pending, no first answer is
  -- recorded, and the attempts are at their limit.
  pub plan-scope_rejected :
      (input : AnswerControllerInput F)
      → input.gate_signal ≡ rejected
      → let d = plan_answer_support fl input in
        (d.action ≡ release)
        × (d.reason_code ≡ scope_rejected)
        × (d.keep_pending ≡ false)
        × (d.verified_first ≡ false)
        × (d.next_attempts ≡ max_coach_attempts)
  unfolding plan_answer_support reason_for_answer_action
  plan-scope_rejected input h =
      let o = observe_answer_state input.observed in
      let (p, _) = update_verifier_progress_posterior fl input.prior o in
      let c = choose-permitted p o in
      let released =
        rejected_permits o (choose_action fl p o) (observed-rejected input.observed h) c.1 c.0 in
      ground (arith, released, observed-rejected input.observed h)

  -- Where the gate has not rejected the scope, and the speech was hesitation, the verification was
  -- unavailable, the phase is unknown, or a verifier signal is invalid, unknown or rejected, the
  -- controller waits: it records no first answer, keeps the scope pending and leaves the attempt
  -- count.
  pub plan-FailsClosed :
      (input : AnswerControllerInput F)
      → input.gate_signal ≢ rejected
      → FailsClosed input.observed
      → let d = plan_answer_support fl input in
        (d.action ≡ wait)
        × (d.verified_first ≡ false)
        × (d.keep_pending ≡ true)
        × (d.next_attempts ≡ attempts_from_level (normalize_attempt_level input.attempts))
  unfolding plan_answer_support
  plan-FailsClosed input n h =
      let o = observe_answer_state input.observed in
      let (p, _) = update_verifier_progress_posterior fl input.prior o in
      let c = choose-permitted p o in
      let waits =
        inconclusive_permits o (choose_action fl p o) (observed-inconclusive input.observed h)
          (observed-not_rejected input.observed n) c.1 c.0 in
      ground (arith, waits, observed-phase input.observed)
