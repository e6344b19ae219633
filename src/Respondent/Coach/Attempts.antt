-- ===== src/Respondent/Coach/Attempts.antt =====
-- Coaching is bounded: the count of attempts, and the turn after which a scope is closed.
use conclution_ai_teacher.Prelude.{◌≤◌, ◌≡◌, ◌⊎◌, true, false, arith}
use conclution_ai_teacher.Respondent.Coach.{
  phase_awaiting_answer, phase_awaiting_restatement, phase_expanding, phase_complete, phase_blocked,
  coach_elicit, coach_restate, coach_expand, coach_complete, coach_retry, coach_release,
  CoachDecision, AttemptInput, guide_attempt_with_restatement,
}
use conclution_ai_teacher.Respondent.Floats.{FloatOps}
use conclution_ai_teacher.Respondent.Progress.{max_coach_attempts}

-- Which phase and pending flag each action comes with.
abbrev pub Coherent : CoachDecision → Type 0
Coherent d =
    ((d.action ≡ coach_complete) × (d.phase ≡ phase_complete) × (d.keep_pending ≡ false))
    ⊎ ((d.action ≡ coach_release) × (d.phase ≡ phase_blocked) × (d.keep_pending ≡ false))
    ⊎ ((d.action ≡ coach_retry) × (d.phase ≡ phase_blocked) × (d.keep_pending ≡ true))
    ⊎ ((d.action ≡ coach_expand) × (d.phase ≡ phase_expanding) × (d.keep_pending ≡ true))
    ⊎ ((d.action ≡ coach_elicit) × (d.phase ≡ phase_awaiting_answer) × (d.keep_pending ≡ true))
    ⊎ ((d.action ≡ coach_restate)
        × (d.phase ≡ phase_awaiting_restatement)
        × (d.keep_pending ≡ true))

module _ {F : Type 0} (fl : FloatOps F) where
  -- With at most 2 attempts, every decision of the guide pairs its action with the phase and the
  -- pending flag that belong to it, and leaves at most 2 attempts.
  pub guide-Coherent :
      (i : AttemptInput F)
      → i.attempts ≤ max_coach_attempts
      → Coherent (guide_attempt_with_restatement fl i)
        × ((guide_attempt_with_restatement fl i).attempts ≤ max_coach_attempts)
  unfolding guide_attempt_with_restatement
  guide-Coherent i h = ground arith

  pub guide_second_closes :
      (i : AttemptInput F)
      → i.verification_available ≡ true
      → 1 ≤ i.attempts
      → i.attempts ≤ max_coach_attempts
      → (guide_attempt_with_restatement fl i).keep_pending ≡ false
  unfolding guide_attempt_with_restatement
  guide_second_closes i v l h = ground arith

  pub guide_counts :
      (i : AttemptInput F)
      → i.verification_available ≡ true
      → i.attempts ≤ max_coach_attempts
      → (guide_attempt_with_restatement fl i).keep_pending ≡ true
      → ((guide_attempt_with_restatement fl i).attempts ≡ 1) × (i.attempts ≡ 0)
  unfolding guide_attempt_with_restatement
  guide_counts i v h p = ground arith

  -- The turn that follows decision `d` in the same scope.
  pub follow_up : CoachDecision → AttemptInput F → AttemptInput F
  follow_up d i = record i { phase = d.phase; attempts = d.attempts }

  -- In a strict scope with at most 2 attempts whose verifications are available, a turn that
  -- leaves the scope pending is followed by a turn that closes it, whatever that turn is.
  pub guide-two_turns :
      (i j : AttemptInput F)
      → i.verification_available ≡ true
      → j.verification_available ≡ true
      → i.attempts ≤ max_coach_attempts
      → let d = guide_attempt_with_restatement fl i in
        d.keep_pending ≡ true
        → (guide_attempt_with_restatement fl (follow_up d j)).keep_pending ≡ false
  unfolding follow_up
  guide-two_turns i j v w h p =
      let d = guide_attempt_with_restatement fl i in
      let c = guide_counts i v h p in
      guide_second_closes (record j { phase = d.phase; attempts = d.attempts }) w (omega arith)
        (omega arith)
