-- ===== src/Respondent/Progress.antt =====
-- internal/respondent/belief_controller.go, lines 13 to 370: the finite observation of one turn.
-- A value of a Go `uint8` enumeration that has no constant is a constructor of its own.
pub mod Evidence
use conclution_ai_teacher.Prelude.{ℕ, ◌+◌, Bool, true, false, not, ◌&&◌, ◌||◌, if◌then◌else◌, leb}

pub data VerifierSignal : Type 0 where
  invalid missing available later first ambiguous rejected : VerifierSignal
  unknown_signal : ℕ → VerifierSignal

pub data AnswerEvidence : Type 0 where
  verification_unknown hesitating target_missing available_uncommitted : AnswerEvidence
  committed_late committed_first ambiguous_evidence : AnswerEvidence

pub data AnswerPhase : Type 0 where
  invalid_phase no_phase awaiting_answer awaiting_restatement expanding : AnswerPhase
  complete_phase blocked : AnswerPhase
  unknown_phase : ℕ → AnswerPhase

-- `beyond n` is the value n + 3.
pub data AnswerAttemptLevel : Type 0 where
  no_attempt one_attempt attempt_limit : AnswerAttemptLevel
  beyond : ℕ → AnswerAttemptLevel

pub record AnswerObservation : Type 0 where
  pub evidence : AnswerEvidence
  pub gate_signal : VerifierSignal
  pub critic_signal : VerifierSignal
  pub phase : AnswerPhase
  pub attempts : AnswerAttemptLevel
  pub one_shot : Bool
  pub hesitation : Bool
  pub verification_available : Bool

abbrev pub is_first : VerifierSignal → Bool
is_first first = true
is_first _ = false

abbrev pub is_later : VerifierSignal → Bool
is_later later = true
is_later _ = false

abbrev pub is_missing : VerifierSignal → Bool
is_missing missing = true
is_missing _ = false

abbrev pub is_available : VerifierSignal → Bool
is_available available = true
is_available _ = false

abbrev pub is_ambiguous : VerifierSignal → Bool
is_ambiguous ambiguous = true
is_ambiguous _ = false

abbrev pub is_rejected : VerifierSignal → Bool
is_rejected rejected = true
is_rejected _ = false

abbrev pub is_invalid : VerifierSignal → Bool
is_invalid invalid = true
is_invalid _ = false

abbrev pub is_committed_first : AnswerEvidence → Bool
is_committed_first committed_first = true
is_committed_first _ = false

abbrev pub is_committed_late : AnswerEvidence → Bool
is_committed_late committed_late = true
is_committed_late _ = false

abbrev pub is_hesitating : AnswerEvidence → Bool
is_hesitating hesitating = true
is_hesitating _ = false

abbrev pub is_verification_unknown : AnswerEvidence → Bool
is_verification_unknown verification_unknown = true
is_verification_unknown _ = false

abbrev pub is_invalid_phase : AnswerPhase → Bool
is_invalid_phase invalid_phase = true
is_invalid_phase _ = false

abbrev pub is_expanding : AnswerPhase → Bool
is_expanding expanding = true
is_expanding _ = false

abbrev pub is_complete_phase : AnswerPhase → Bool
is_complete_phase complete_phase = true
is_complete_phase _ = false

-- The value of the `uint8`, for `observation.Attempts >= AnswerAttemptOne`.
abbrev pub level_value : AnswerAttemptLevel → ℕ
level_value no_attempt = 0
level_value one_attempt = 1
level_value attempt_limit = 2
level_value (beyond n) = n + 3

abbrev pub at_least_one : AnswerAttemptLevel → Bool
at_least_one level = leb 1 (level_value level)

unfoldable pub normalize_verifier_signal : VerifierSignal → VerifierSignal
normalize_verifier_signal (unknown_signal n) = invalid
normalize_verifier_signal signal = signal

unfoldable pub normalize_answer_phase : AnswerPhase → AnswerPhase
normalize_answer_phase (unknown_phase n) = invalid_phase
normalize_answer_phase phase = phase

unfoldable pub normalize_attempt_level : AnswerAttemptLevel → AnswerAttemptLevel
normalize_attempt_level (beyond n) = attempt_limit
normalize_attempt_level attempts = attempts

abbrev pub max_coach_attempts : ℕ
max_coach_attempts = 2

unfoldable pub attempts_from_level : AnswerAttemptLevel → ℕ
attempts_from_level no_attempt = 0
attempts_from_level one_attempt = 1
attempts_from_level _ = max_coach_attempts

abbrev pub verifier_failed_closed : VerifierSignal → Bool
verifier_failed_closed signal = is_invalid signal || is_rejected signal

abbrev pub verifier_has_committed_target : VerifierSignal → Bool
verifier_has_committed_target signal = is_first signal || is_later signal

abbrev pub verifier_has_target : VerifierSignal → Bool
verifier_has_target signal = verifier_has_committed_target signal || is_available signal

-- The last four tests, on signals that neither failed closed nor committed together.
combine_uncommitted : VerifierSignal → VerifierSignal → AnswerEvidence
combine_uncommitted gate critic =
    if verifier_has_committed_target gate || verifier_has_committed_target critic
    then verification_unknown
    else if is_missing gate || is_missing critic
    then target_missing
    else if is_available gate || is_available critic
    then available_uncommitted
    else verification_unknown

combine_signals : VerifierSignal → VerifierSignal → AnswerEvidence
unfolding combine_uncommitted
combine_signals gate critic =
    if verifier_failed_closed gate || verifier_failed_closed critic
    then verification_unknown
    else if is_ambiguous gate || is_ambiguous critic
    then ambiguous_evidence
    else if is_first gate && is_first critic
    then committed_first
    else if is_later gate && is_later critic
    then committed_late
    else combine_uncommitted gate critic

unfoldable pub combine_answer_evidence : AnswerObservation → AnswerEvidence
unfolding combine_signals
combine_answer_evidence o =
    if o.hesitation
    then hesitating
    else if not o.verification_available || is_invalid_phase o.phase
    then verification_unknown
    else combine_signals o.gate_signal o.critic_signal

-- The fields of `AnswerControllerInput` that `observeAnswerState` reads: all but the prior.
pub record ObservedInput : Type 0 where
  pub gate_signal : VerifierSignal
  pub critic_signal : VerifierSignal
  pub phase : AnswerPhase
  pub attempts : AnswerAttemptLevel
  pub one_shot : Bool
  pub hesitation : Bool
  pub verification_available : Bool

unfoldable pub observe_answer_state : ObservedInput → AnswerObservation
unfolding normalize_verifier_signal normalize_answer_phase normalize_attempt_level
    combine_answer_evidence
observe_answer_state i = record o { evidence = combine_answer_evidence o }
  where
    o : AnswerObservation
    o = record {
      evidence = verification_unknown;
      gate_signal = normalize_verifier_signal i.gate_signal;
      critic_signal = normalize_verifier_signal i.critic_signal;
      phase = normalize_answer_phase i.phase;
      attempts = normalize_attempt_level i.attempts;
      one_shot = i.one_shot;
      hesitation = i.hesitation;
      verification_available = i.verification_available;
    }
