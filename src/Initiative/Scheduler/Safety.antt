-- ===== src/Initiative/Scheduler/Safety.antt =====
-- When a decision lets an initiative be heard.
use conclution_ai_teacher.Prelude.{
  if◌then◌else◌, ◌≡◌, ◌≢◌, ◌↔◌, inl, inr, refl, sym, ap, ◌∙◌, true, false, Option, none, some,
  arith, Bool-cases, Option-cases, ok,
}
use mathlib.Core.Path.{subst}
use conclution_ai_teacher.Prelude.Int.{ℤ, pos, ◌≤ℤ◌, ◌<ℤ◌}
use conclution_ai_teacher.Initiative.Scheduler.{
  Floor, idle, unknown_floor, no_control, commit_stage, hard_veto, stale_lease, abort_stage,
  without_deadline, Reason, Lease, Input, Decision, malformed_input, malformed_lease, vetoed, stale,
  inactive, decide_on_idle, decide_on_floor, decide,
}

-- A lease for this very input that has not expired.
abbrev pub Current : Input → Lease → Type 0
Current i l =
    (l.session_capability ≡ i.session_capability)
    × (l.user_generation ≡ i.user_generation)
    × (l.goal_generation ≡ i.goal_generation)
    × (l.turn_generation ≡ i.turn_generation)
    × (l.action ≡ i.action)
    × (i.now_ms ≤ℤ l.expires_ms)

abbrev pub NotVetoed : Input → Type 0
NotVetoed i =
    (i.control ≡ no_control)
    × (i.goal_active ≡ true)
    × (i.would_substitute_answer ≡ false)
    × (i.cooldown_active ≡ false)
    × (i.calibrated ≡ true)
    × (i.floor_resume_risk_upper_bps ≤ℤ i.maximum_floor_resume_risk_bps)
    × (pos 0 <ℤ i.utility_lower_bound_bps)

abbrev pub SafeToHear : Input → Type 0
SafeToHear i =
    NotVetoed i
    × (i.floor ≡ idle)
    × (i.provider_ready ≡ true)
    × (i.final_acoustic_commit ≡ true)
    × ((l : Lease) × (i.prepared ≡ some l) × Current i l)

vetoed_iff : (i : Input) → (vetoed i ≡ false) ↔ NotVetoed i
unfolding vetoed
vetoed_iff i = (λ h. ground arith, λ h. ground arith)

stale_iff : (i : Input) (l : Lease) → (stale i (some l) ≡ false) ↔ Current i l
unfolding stale
stale_iff i l = (λ h. ground arith, λ h. ground arith)

-- The decision on an input that passes the two tests of its form.
abbrev decided : Input → Decision
decided i =
    if vetoed i
    then inactive i.prepared hard_veto
    else if stale i i.prepared
    then without_deadline abort_stage stale_lease
    else decide_on_floor i i.floor

decide-decided :
    (i : Input) {d : Decision} → decide i ≡ ok d → (d ≡ decided i) × (malformed_input i ≡ false)
unfolding decide
decide-decided i h = elim (Bool-cases (malformed_input i)) [
  | inl bad ↦ absurd (ground arith)
  | inr good ↦ elim (Bool-cases (malformed_lease i.prepared)) [
    | inl bad ↦ absurd (ground arith)
    | inr fine ↦ (ground arith, good)
  ]
]

malformed_floor : (i : Input) → malformed_input i ≡ false → i.floor ≢ unknown_floor
unfolding malformed_input
malformed_floor i h = ground arith

floor-commits :
    (i : Input) (l : Lease) (floor : Floor)
    → vetoed i ≡ false
    → floor ≢ unknown_floor
    → i.prepared ≡ some l
    → ((decide_on_floor i floor).stage ≡ commit_stage)
      ↔ ((floor ≡ idle) × (i.provider_ready ≡ true) × (i.final_acoustic_commit ≡ true))
unfolding decide_on_floor inactive decide_on_idle vetoed
floor-commits i l floor v f p = (λ h. ground (arith, p), λ h. ground (arith, p))

floor_without_lease :
    (i : Input) (floor : Floor) → i.prepared ≡ none → (decide_on_floor i floor).stage ≢ commit_stage
unfolding decide_on_floor inactive decide_on_idle
floor_without_lease i floor p = ground (arith, p)

inactive-stage : (o : Option Lease) (r : Reason) → (inactive o r).stage ≢ commit_stage
unfolding inactive
inactive-stage o r = ground arith

-- Which of the cases of `decided` applies.
decided-vetoed : (i : Input) → vetoed i ≡ true → (decided i).stage ≢ commit_stage
decided-vetoed i v = ground (arith, inactive-stage i.prepared hard_veto)

decided_floor :
    (i : Input)
    → vetoed i ≡ false
    → stale i i.prepared ≡ false
    → decided i ≡ decide_on_floor i i.floor
decided_floor i v s = rw (v, s) refl

decided-stale :
    (i : Input) → vetoed i ≡ false → stale i i.prepared ≡ true → (decided i).stage ≢ commit_stage
decided-stale i v s = ground arith

stale_without_lease : (i : Input) → i.prepared ≡ none → stale i i.prepared ≡ false
unfolding stale
stale_without_lease i p = rw p refl

stale-Current :
    (i : Input) (l l' : Lease)
    → i.prepared ≡ some l
    → i.prepared ≡ some l'
    → Current i l'
    → stale i (some l) ≡ false
stale-Current i l l' p q c = (stale_iff i l).1 (subst (Current i) (cc (p, q)) c)

-- A decision on a well-formed input lets the initiative be heard exactly when there is no control,
-- the goal is active, nothing would substitute the answer, no cooldown runs, the calibrated risk
-- is at most its maximum, the utility is positive, the floor is idle, the provider is ready, the
-- final acoustic commit is there, and a lease for the same capability, generations and action was
-- prepared and has not expired.
pub commit_iff :
    (i : Input) {d : Decision} → decide i ≡ ok d → (d.stage ≡ commit_stage) ↔ SafeToHear i
commit_iff i {d = d} h =
    let (e, good) = decide-decided i h in
    let known = malformed_floor i good in
    let shown = ap (λ x. x.stage) (sym e) in
    elim (Bool-cases (vetoed i)) [
      | inl v ↦ (
        λ c. absurd (decided-vetoed i v (shown ∙ c)),
        λ (ne, _, _, _, _). absurd (cc (v, (vetoed_iff i).1 ne)),
      )
      | inr v ↦ elim (Option-cases i.prepared) [
        | inl p ↦
            let floors = decided_floor i v (stale_without_lease i p) in
            (
              λ c.
                  absurd
                    (floor_without_lease i i.floor p (ap (λ x. x.stage) (sym floors) ∙ shown ∙ c)),
              λ (_, _, _, _, (l, q, _)). absurd (cc (p, q)),
            )
        | inr (l, p) ↦
            let same_stale : stale i i.prepared ≡ stale i (some l) = ap (stale i) p in
            elim (Bool-cases (stale i (some l))) [
              | inl st ↦ (
                λ c. absurd (decided-stale i v (same_stale ∙ st) (shown ∙ c)),
                λ (_, _, _, _, (l', q, cur)). absurd (cc (st, stale-Current i l l' p q cur)),
              )
              | inr st ↦
                  let floors = floor-commits i l i.floor v known p in
                  let same = ap (λ x. x.stage) (e ∙ decided_floor i v (same_stale ∙ st)) in
                  (
                    λ c.
                        let (fl, pr, ac) = floors.0 (sym same ∙ c) in
                        ((vetoed_iff i).0 v, fl, pr, ac, (l, p, (stale_iff i l).0 st)),
                    λ (_, fl, pr, ac, _). same ∙ floors.1 (fl, pr, ac),
                  )
            ]
      ]
    ]

-- The same input with another deadline and another estimate of the delivery.
abbrev pub retimed : Input → ℤ → ℤ → Input
retimed i deadline estimate = record i {
  first_audio_deadline_ms = deadline;
  estimated_delivery_ms = estimate;
}

vetoed-retimed : (i : Input) (x y : ℤ) → vetoed (retimed i x y) ≡ vetoed i
unfolding vetoed
vetoed-retimed i x y = refl

stale-retimed : (i : Input) (x y : ℤ) (o : Option Lease) → stale (retimed i x y) o ≡ stale i o
unfolding stale
stale-retimed i x y none = refl
stale-retimed i x y (some l) = refl

floor-retimed :
    (i : Input) (x y : ℤ) (floor : Floor)
    → ((decide_on_floor (retimed i x y) floor).stage ≡ (decide_on_floor i floor).stage)
      × ((decide_on_floor (retimed i x y) floor).reason ≡ (decide_on_floor i floor).reason)
unfolding decide_on_floor inactive decide_on_idle
floor-retimed i x y floor = ground arith

-- Where an input is decided with and without another deadline for the first audio and another
-- estimate of the delivery, the stage and the reason are the same: a missed deadline never changes
-- what may be heard.
pub decide-retimed :
    (i : Input) (x y : ℤ) {d d' : Decision}
    → decide i ≡ ok d
    → decide (retimed i x y) ≡ ok d'
    → (d'.stage ≡ d.stage) × (d'.reason ≡ d.reason)
decide-retimed i x y h h' =
    let (e, _) = decide-decided i h in
    let (e', _) = decide-decided (retimed i x y) h' in
    ground (
      arith,
      e,
      e',
      vetoed-retimed i x y,
      stale-retimed i x y i.prepared,
      floor-retimed i x y i.floor,
    )
