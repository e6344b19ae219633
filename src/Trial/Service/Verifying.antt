-- ===== src/Trial/Service/Verifying.antt =====
-- The record of a trial while its answer is verified, and the step from a verdict to the store.
use conclution_ai_teacher.Prelude.Text.{Text}
use conclution_ai_teacher.Prelude.{
  ◌<◌, ◌≡◌, refl, ap, ◌∙◌, ◌⊎◌, inl, inr, Bool, List, Option, some, arith, Bool-cases, Option-cases,
  Result, ok, err, Result-cases,
}
use mathlib.Core.Path.{subst}
use conclution_ai_teacher.Prelude.Int.{ℤ, pos, ◌+ℤ◌}
use conclution_ai_teacher.Prelude.Clock.{Time}
use conclution_ai_teacher.Trial.Ledger.{
  TrialError, Event, Record, Status, answer_first, unverified, valid_key, validate_record,
  transition, current,
}
use conclution_ai_teacher.Trial.Ledger.Lifetime.{
  transition-advances, transition-Granted, current-eq, Request,
}
use conclution_ai_teacher.Trial.Memory.{MemoryStore, find, read, applied, apply}
use conclution_ai_teacher.Trial.Memory.Bounds.{Call, step, run, WellFormed, applied-found}
use conclution_ai_teacher.Trial.Memory.Runs.{NoCreations, run-keeps}
use conclution_ai_teacher.Trial.Memory.Swap.{Past, applied-stored, Past-transition}
use conclution_ai_teacher.Trial.Service.{
  Snapshot, snapshot, Verdict, verdict_answer_first, Contexts, event_of_verdict, event_of_answer,
  publish,
}

-- What a successful `Read` found.
pub read-found :
    (s : MemoryStore) (cancelled : Bool) (key : Text) (now : Time) {r : Record}
    → read s cancelled key now ≡ ok r
    → (find key s.records ≡ some r) × (validate_record r ≡ ok tt)
unfolding read
read-found s cancelled key now {r = r} h = elim (Bool-cases (valid_key key)) [
  | inr bad ↦ absurd (ground arith)
  | inl good ↦ elim (Option-cases (find key s.records)) [
    | inl f ↦ absurd (ground arith)
    | inr (r', f) ↦
        let c : current r' now ≡ ok r = ground arith in
        let (same, v, _, _) = current-eq r' now c in
        (f ∙ ap some same, subst (λ x. validate_record x ≡ ok tt) same v)
  ]
]

-- The record under a key is still `r`, or past its generation.
abbrev pub Kept : Record → Option Record → Type 0
Kept r o = (o ≡ some r) ⊎ Past r.generation o

pub Kept-transition :
    (r x : Record) (generation : ℤ) (event : Event) (now : Time) (next : Record)
    → Kept r (some x)
    → transition x generation event now ≡ ok next
    → Past r.generation (some next)
Kept-transition r x generation event now next (inr p) t =
    Past-transition r.generation x generation event now next p t
Kept-transition r x generation event now next (inl e) t =
    ground (arith, e, transition-advances x generation event now t)

pub run-Kept :
    (s : MemoryStore) (cs : List Call) (key : Text) (r : Record)
    → WellFormed s
    → NoCreations key cs
    → Kept r (find key s.records)
    → Kept r (find key (run s cs).records)
run-Kept s cs key r =
    run-keeps key (Kept r) (inr tt) (λ x g e t next k m. inr (Kept-transition r x g e t next k m)) s
      cs

abbrev pub status_of_verdict : Verdict → Status
status_of_verdict verdict_answer_first = answer_first
status_of_verdict _ = unverified

pub ok-injective : {A : Type 0} {x y : A} → ◌≡◌ {A = Result TrialError A} (ok x) (ok y) → x ≡ y
ok-injective e = cc e

some-injective : {x y : Record} → some x ≡ some y → x ≡ y
some-injective e = cc e

pub answer-event :
    (ctx : Contexts) (answer : Result TrialError Verdict) {event : Event}
    → event_of_answer ctx answer ≡ ok event
    → (v : Verdict) × (answer ≡ ok v) × (event_of_verdict v ≡ ok event)
unfolding event_of_answer
answer-event ctx (err e) h = absurd (ground arith)
answer-event ctx (ok v) h = (v, refl, ground arith)

pub publish-applied :
    (s : MemoryStore) (ctx : Contexts) (key id : Text) (generation : ℤ) (later : Time)
    (answer : Result TrialError Event) {snap : Snapshot}
    → (publish s ctx key id generation later answer).1 ≡ ok snap
    → (event : Event) × (next : Record) × (answer ≡ ok event)
      × (applied s ctx.at_apply key generation event later ≡ ok next)
      × (snap ≡ snapshot id next)
      × (find key (publish s ctx key id generation later answer).0.records ≡ some next)
unfolding publish apply step
publish-applied s ctx key id generation later (err e) h = absurd (ground arith)
publish-applied s ctx key id generation later (ok event) h =
    elim (Result-cases (applied s ctx.at_apply key generation event later)) [
      | inr (e, a) ↦ absurd (ground arith)
      | inl (next, a) ↦ (
        event,
        next,
        refl,
        a,
        ground arith,
        applied-stored s ctx.at_apply key generation event later a,
      )
    ]

-- A record that is past a generation is not the one an update of that generation finds.
pub applied-Kept :
    (s : MemoryStore) (cancelled : Bool) (key : Text) (event : Event) (later : Time) (r : Record)
    {next : Record}
    → Kept r (find key s.records)
    → applied s cancelled key r.generation event later ≡ ok next
    → transition r r.generation event later ≡ ok next
applied-Kept s cancelled key event later r {next = next} k h =
    let (v, (x, f, t)) = applied-found s cancelled key r.generation event later h in
    elim (subst (Kept r) f k) [
      | inl e ↦ subst (λ y. transition y r.generation event later ≡ ok next) (some-injective e) t
      | inr p ↦ absurd (ground (arith, transition-advances x r.generation event later t))
    ]

-- The record of a trial with its verdict.
abbrev pub with_verdict : Record → Verdict → Record
with_verdict r v = record r { generation = r.generation +ℤ pos 1; status = status_of_verdict v }

pub transition-verdict :
    (r : Record) (v : Verdict) (event : Event) (later : Time) {next : Record}
    → validate_record r ≡ ok tt
    → event_of_verdict v ≡ ok event
    → transition r r.generation event later ≡ ok next
    → (next ≡ with_verdict r v) × (later < r.expires_at)
transition-verdict r v event later {next = next} valid ev t =
    let q : Request = record { generation = r.generation; event = event; now = later } in
    let ((_, _, _, in_time, _, _), e) = transition-Granted r q valid t in
    (e ∙ ground (arith, ev), in_time)
