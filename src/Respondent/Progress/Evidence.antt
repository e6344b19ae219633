-- ===== src/Respondent/Progress/Evidence.antt =====
-- What the joint evidence of two verifiers says of their signals.
use conclution_ai_teacher.Prelude.{◌≡◌, refl, ◌≢◌, ◌⊎◌, true, false, ◌||◌, arith}
use conclution_ai_teacher.Respondent.Progress.{
  VerifierSignal, first, later, ObservedInput, committed_first, committed_late, hesitating,
  combine_signals, rejected, is_rejected, is_hesitating, is_committed_first, is_committed_late,
  is_verification_unknown, is_invalid_phase, verifier_failed_closed, observe_answer_state,
  normalize_verifier_signal, normalize_answer_phase, normalize_attempt_level, at_least_one,
}

signals-committed_first :
    (g c : VerifierSignal) → combine_signals g c ≡ committed_first → (g ≡ first) × (c ≡ first)
unfolding combine_signals
signals-committed_first g c h = ground arith

signals-committed_late :
    (g c : VerifierSignal) → combine_signals g c ≡ committed_late → (g ≡ later) × (c ≡ later)
unfolding combine_signals
signals-committed_late g c h = ground arith

-- The observation of any input: its evidence is derived, and hesitation is the only evidence that
-- does not come from the signals.
pub observed-committed_first :
    (i : ObservedInput)
    → (observe_answer_state i).evidence ≡ committed_first
    → (i.hesitation ≡ false)
      × (i.verification_available ≡ true)
      × (i.gate_signal ≡ first)
      × (i.critic_signal ≡ first)
unfolding observe_answer_state
observed-committed_first i h = ground (
  arith,
  signals-committed_first (normalize_verifier_signal i.gate_signal)
      (normalize_verifier_signal i.critic_signal),
)

-- First evidence follows from two first signals and nothing else.
pub observed-first_first :
    (i : ObservedInput)
    → i.hesitation ≡ false
    → i.verification_available ≡ true
    → is_invalid_phase (normalize_answer_phase i.phase) ≡ false
    → i.gate_signal ≡ first
    → i.critic_signal ≡ first
    → (observe_answer_state i).evidence ≡ committed_first
unfolding observe_answer_state
observed-first_first i h v p g c = ground arith

pub observed-phase :
    (i : ObservedInput)
    → ((observe_answer_state i).phase ≡ normalize_answer_phase i.phase)
      × ((observe_answer_state i).gate_signal ≡ normalize_verifier_signal i.gate_signal)
      × ((observe_answer_state i).attempts ≡ normalize_attempt_level i.attempts)
      × ((observe_answer_state i).hesitation ≡ i.hesitation)
      × ((observe_answer_state i).verification_available ≡ i.verification_available)
unfolding observe_answer_state
observed-phase i = (refl, refl, refl, refl, refl)

pub first-phase_known :
    (i : ObservedInput)
    → (observe_answer_state i).evidence ≡ committed_first
    → is_invalid_phase (normalize_answer_phase i.phase) ≡ false
unfolding observe_answer_state
first-phase_known i h = ground arith

pub observed-rejected :
    (i : ObservedInput) → i.gate_signal ≡ rejected → (observe_answer_state i).gate_signal ≡ rejected
unfolding observe_answer_state
observed-rejected i h = ground arith

pub observed-not_rejected :
    (i : ObservedInput)
    → i.gate_signal ≢ rejected
    → is_rejected (observe_answer_state i).gate_signal ≡ false
unfolding observe_answer_state
observed-not_rejected i h = ground arith

-- The signals, the phase or the speech give no ground to act on.
abbrev pub FailsClosed : ObservedInput → Type 0
FailsClosed i =
    (i.hesitation ≡ true)
    ⊎ (i.verification_available ≡ false)
    ⊎ (is_invalid_phase (normalize_answer_phase i.phase) ≡ true)
    ⊎ (verifier_failed_closed (normalize_verifier_signal i.gate_signal) ≡ true)
    ⊎ (verifier_failed_closed (normalize_verifier_signal i.critic_signal) ≡ true)

pub observed-inconclusive :
    (i : ObservedInput)
    → FailsClosed i
    → is_verification_unknown (observe_answer_state i).evidence
        || is_hesitating (observe_answer_state i).evidence
      ≡ true
unfolding observe_answer_state
observed-inconclusive i h = ground arith

-- Hesitation is reported as such, and without verification or a known phase nothing is committed.
pub observed-uncommitted :
    (i : ObservedInput)
    → let o = observe_answer_state i in
      (o.hesitation ≡ true → o.evidence ≡ hesitating)
      × (o.verification_available ≡ false
          → is_committed_first o.evidence || is_committed_late o.evidence ≡ false)
      × (is_invalid_phase o.phase ≡ true
          → is_committed_first o.evidence || is_committed_late o.evidence ≡ false)
unfolding observe_answer_state
observed-uncommitted i = (λ h. ground arith, λ h. ground arith, λ h. ground arith)

pub observed-conclusive :
    (i : ObservedInput)
    → let o = observe_answer_state i in
      is_verification_unknown o.evidence || is_hesitating o.evidence ≡ false
      → (o.hesitation ≡ false)
        × (o.verification_available ≡ true)
        × (is_invalid_phase o.phase ≡ false)
unfolding observe_answer_state
observed-conclusive i h = ground arith

pub level-at_least :
    (i : ObservedInput)
    → at_least_one i.attempts ≡ true
    → at_least_one (observe_answer_state i).attempts ≡ true
unfolding observe_answer_state
level-at_least i h = ground arith
