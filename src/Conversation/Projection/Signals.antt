-- ===== src/Conversation/Projection/Signals.antt =====
-- When the adapters report a first answer, and what a recorded success rests on.
use conclution_ai_teacher.Prelude.{
  ℕ, ◌≡◌, refl, ◌≢◌, ◌↔◌, inl, inr, Bool, true, false, List, [], ◌∷◌, arith, Bool-cases,
}
use conclution_ai_teacher.Respondent.Floats.{FloatOps}
use conclution_ai_teacher.Respondent.Progress.{
  VerifierSignal, first, is_invalid_phase, is_expanding, normalize_answer_phase,
}
use conclution_ai_teacher.Respondent.Posterior.{VerifierProgressPosterior}
use conclution_ai_teacher.Respondent.Plan.{plan_answer_support}
use conclution_ai_teacher.Respondent.Contracts.{
  Operator, Assessment, CriticAssessment, keep, position_first,
}
use conclution_ai_teacher.Respondent.Coach.{
  CoachPhase, phase_expanding, other_coach_phase, AttemptInput, guide_attempt_with_restatement,
}
use conclution_ai_teacher.Conversation.Projection.{
  verifier_progress_input, project_respondent_verifier_signal, project_critic_verifier_signal,
  project_verifier_progress_phase, valid_assessment, valid_critic, fatal_issue, is_one,
  is_ambiguous_question, respondent_signal,
}
use conclution_ai_teacher.Prelude.{any_of}
use conclution_ai_teacher.Respondent.Contracts.{Issue, invalid_contract, content_changed}
use conclution_ai_teacher.Respondent.Plan.Safety.{plan-verified_first_iff}
use conclution_ai_teacher.Respondent.Coach.Agreement.{guide-verified_first_iff}

abbrev pub is_fatal : Issue → Bool
is_fatal invalid_contract = true
is_fatal content_changed = true
is_fatal _ = false

fatal_issue-first :
    (issues : List Issue) (s : VerifierSignal)
    → fatal_issue issues s ≡ first
    → (s ≡ first) × (any_of is_fatal issues ≡ false)
unfolding fatal_issue
fatal_issue-first [] s h = (h, refl)
fatal_issue-first (invalid_contract ∷ issues) s h = cc
fatal_issue-first (content_changed ∷ issues) s h = cc
fatal_issue-first (_ ∷ issues) s h = fatal_issue-first issues s h

fatal_issue-pass :
    (issues : List Issue) (s : VerifierSignal)
    → any_of is_fatal issues ≡ false
    → fatal_issue issues s ≡ s
unfolding fatal_issue
fatal_issue-pass [] s h = refl
fatal_issue-pass (invalid_contract ∷ issues) s h = cc
fatal_issue-pass (content_changed ∷ issues) s h = cc
fatal_issue-pass (_ ∷ issues) s h = fatal_issue-pass issues s h

module _ {F : Type 0} (fl : FloatOps F) where
  -- The deterministic gate kept the person's own answer, with the whole target first.
  pub record GateFirst (a : Assessment F) : Type 0 where
    pub well_formed : valid_assessment fl a ≡ true
    pub kept : a.outcome ≡ keep
    pub covers : is_one fl a.original_target_coverage ≡ true
    pub leads : a.original_commitment_position ≡ position_first
    pub satisfied : a.target_satisfied ≡ true
    pub not_fatal : any_of is_fatal a.issues ≡ false
    pub not_ambiguous : any_of is_ambiguous_question a.issues ≡ false

  -- And so did the independent critic.
  pub record CriticFirst (a : CriticAssessment F) : Type 0 where
    pub well_formed : valid_critic fl a ≡ true
    pub kept : a.critic_outcome ≡ keep
    pub covers : is_one fl a.metrics.target_slot_coverage ≡ true
    pub leads : a.metrics.commitment_front_position ≡ position_first
    pub satisfied : a.critic_satisfied ≡ true
    pub not_ambiguous : a.ambiguous_contract ≡ false

  respondent_signal-first :
      (a : Assessment F)
      → respondent_signal fl a ≡ first
      → (a.outcome ≡ keep)
        × (is_one fl a.original_target_coverage ≡ true)
        × (a.original_commitment_position ≡ position_first)
        × (a.target_satisfied ≡ true)
        × (any_of is_ambiguous_question a.issues ≡ false)
  unfolding respondent_signal
  respondent_signal-first a h = ground arith

  gate_signal_first :
      (a : Assessment F) → project_respondent_verifier_signal fl a ≡ first → GateFirst a
  unfolding project_respondent_verifier_signal
  gate_signal_first a h = elim (Bool-cases (valid_assessment fl a)) [
    | inl v ↦
        let passed : fatal_issue a.issues (respondent_signal fl a) ≡ first = ground arith in
        let (s, n) = fatal_issue-first a.issues (respondent_signal fl a) passed in
        let (k, c, l, t, q) = respondent_signal-first a s in
        record {
          well_formed = v;
          kept = k;
          covers = c;
          leads = l;
          satisfied = t;
          not_fatal = n;
          not_ambiguous = q;
        }
    | inr w ↦ ground arith
  ]

  GateFirst-signal :
      (a : Assessment F) → GateFirst a → project_respondent_verifier_signal fl a ≡ first
  unfolding project_respondent_verifier_signal respondent_signal
  GateFirst-signal a g = ground (arith, g, fatal_issue-pass a.issues (respondent_signal fl a))

  pub gate_signal_first_iff :
      (a : Assessment F) → (project_respondent_verifier_signal fl a ≡ first) ↔ GateFirst a
  gate_signal_first_iff a = (gate_signal_first a, GateFirst-signal a)

  pub critic_signal_first_iff :
      (a : CriticAssessment F) → (project_critic_verifier_signal fl a ≡ first) ↔ CriticFirst a
  unfolding project_critic_verifier_signal
  critic_signal_first_iff a = (λ h. ground arith, λ c. ground arith)

  -- A turn that may be recorded as a verified first answer.
  pub record VerifiedTurn (gate : Assessment F) (critic : CriticAssessment F) (phase : CoachPhase)
      (hesitation checked : Bool) : Type 0 where
    pub own_first : GateFirst gate
    pub critic_first : CriticFirst critic
    pub speaking : hesitation ≡ false
    pub verified : checked ≡ true
    pub phase_known : phase ≢ other_coach_phase
    pub not_expanding : phase ≢ phase_expanding

  phase_projection :
      (phase : CoachPhase)
      → (is_invalid_phase (normalize_answer_phase (project_verifier_progress_phase phase)) ≡ false
          → phase ≢ other_coach_phase)
        × (is_expanding (project_verifier_progress_phase phase) ≡ false → phase ≢ phase_expanding)
        × (phase ≢ other_coach_phase
            → is_invalid_phase (normalize_answer_phase (project_verifier_progress_phase phase))
              ≡ false)
        × (phase ≢ phase_expanding → is_expanding (project_verifier_progress_phase phase) ≡ false)
  unfolding project_verifier_progress_phase normalize_answer_phase
  phase_projection phase =
      (λ h. ground arith, λ h. ground arith, λ h. ground arith, λ h. ground arith)

  -- For every arithmetic of the floats, prior, attempt count and mode, the controller records a
  -- verified first answer of a turn exactly when the gate and the critic, each with a well-formed
  -- assessment, kept the answer with the whole target first and satisfied and reported no
  -- ambiguity, the gate no fatal issue, the speech was no hesitation, the verification was
  -- available, and the phase is a known one other than the expansion.
  pub recorded-VerifiedTurn_iff :
      (prior : VerifierProgressPosterior F) (gate : Assessment F) (critic : CriticAssessment F)
      (phase : CoachPhase) (attempts : ℕ) (one_shot hesitation checked : Bool)
      → ((plan_answer_support fl (
            verifier_progress_input fl prior gate critic phase attempts one_shot hesitation
              checked)).verified_first
          ≡ true)
        ↔ VerifiedTurn gate critic phase hesitation checked
  unfolding verifier_progress_input
  recorded-VerifiedTurn_iff prior gate critic phase attempts one_shot hesitation checked =
      let input =
        verifier_progress_input fl prior gate critic phase attempts one_shot hesitation checked in
      let (to_known, to_open, of_known, of_open) = phase_projection phase in
      (
        λ h.
            let v = (plan-verified_first_iff fl input).0 h in
            record {
              own_first = gate_signal_first gate v.gate_first;
              critic_first = (critic_signal_first_iff critic).0 v.critic_first;
              speaking = v.not_hesitating;
              verified = v.verified;
              phase_known = to_known v.phase_known;
              not_expanding = to_open v.phase_not_expanding;
            },
        λ t. (plan-verified_first_iff fl input).1 (record {
          not_hesitating = t.speaking;
          verified = t.verified;
          gate_first = GateFirst-signal gate t.own_first;
          critic_first = (critic_signal_first_iff critic).1 t.critic_first;
          phase_known = of_known t.phase_known;
          phase_not_expanding = of_open t.not_expanding;
        }),
      )

  -- The input of the strict guide on the same turn.
  abbrev pub strict_input :
      Operator
      → Assessment F
      → CriticAssessment F
      → CoachPhase
      → ℕ
      → Bool
      → Bool
      → Bool
      → Bool
      → AttemptInput F
  strict_input operator gate critic phase attempts checked abstained one_shot strict = record {
    operator = operator;
    phase = phase;
    attempts = attempts;
    gate = gate;
    critic = critic;
    verification_available = checked;
    abstained = abstained;
    one_shot = one_shot;
    require_restatement = strict;
  }

  -- Whenever the controller records a verified first answer of a turn, the strict guide, on the
  -- same assessments, phase and availability and whatever its other arguments, records one too.
  pub recorded-strict :
      (prior : VerifierProgressPosterior F) (operator : Operator) (gate : Assessment F)
      (critic : CriticAssessment F) (phase : CoachPhase) (attempts : ℕ)
      (one_shot hesitation checked abstained strict : Bool)
      → (plan_answer_support fl (
          verifier_progress_input fl prior gate critic phase attempts one_shot hesitation
            checked)).verified_first
        ≡ true
      → (guide_attempt_with_restatement fl (
          strict_input operator gate critic phase attempts checked abstained one_shot
            strict)).verified_first
        ≡ true
  recorded-strict prior operator gate critic phase attempts one_shot hesitation checked abstained
        strict h =
      let t =
        (recorded-VerifiedTurn_iff prior gate critic phase attempts one_shot hesitation checked).0
          h in
      let i = strict_input operator gate critic phase attempts checked abstained one_shot strict in
      (guide-verified_first_iff fl i).1 (
        t.verified,
        record {
          gate_keeps = t.own_first.kept;
          gate_first = t.own_first.leads;
          gate_covers = t.own_first.covers;
          gate_satisfied = t.own_first.satisfied;
          critic_keeps = t.critic_first.kept;
          critic_satisfied = t.critic_first.satisfied;
          critic_first = t.critic_first.leads;
          critic_covers = t.critic_first.covers;
        },
        ground (arith, t.not_expanding),
      )
