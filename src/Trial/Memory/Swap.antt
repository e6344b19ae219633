-- ===== src/Trial/Memory/Swap.antt =====
-- `Apply` as a compare-and-swap on the generation: of the updates that name one, at most one wins.
use conclution_ai_teacher.Prelude.Text.{Text}
use conclution_ai_teacher.Prelude.{
  ◌≡◌, refl, ap, ◌∙◌, inl, inr, Bool, List, Option, none, some, arith, ok, err, Result-cases,
}
use mathlib.Core.Path.{subst}
use conclution_ai_teacher.Prelude.Int.{ℤ, ◌<ℤ◌}
use conclution_ai_teacher.Prelude.Clock.{Time}
use conclution_ai_teacher.Trial.Ledger.{TrialError, Event, Record, transition}
use conclution_ai_teacher.Trial.Ledger.Lifetime.{transition-advances}
use conclution_ai_teacher.Trial.Memory.{MemoryStore, find, assign, applied, apply}
use conclution_ai_teacher.Trial.Memory.Bounds.{
  Call, applies, step, run, WellFormed, step-WellFormed, applied-found,
}
use conclution_ai_teacher.Trial.Memory.Runs.{find-assign_same, NoCreations, run-keeps}

-- A record under the key, if there is one, is past generation `g`.
abbrev pub Past : ℤ → Option Record → Type 0
Past g none = Unit {0}
Past g (some r) = g <ℤ r.generation

pub Past-transition :
    (g : ℤ) (r : Record) (generation : ℤ) (event : Event) (now : Time) (next : Record)
    → Past g (some r)
    → transition r generation event now ≡ ok next
    → Past g (some next)
Past-transition g r generation event now next p t =
    ground (arith, p, transition-advances r generation event now t)

pub run-Past :
    (s : MemoryStore) (cs : List Call) (key : Text) (g : ℤ)
    → WellFormed s
    → NoCreations key cs
    → Past g (find key s.records)
    → Past g (find key (run s cs).records)
run-Past s cs key g = run-keeps key (Past g) tt (Past-transition g) s cs

-- An update that names a generation the record is past fails.
pub Past-refused :
    (s : MemoryStore) (cancelled : Bool) (key : Text) (g : ℤ) (event : Event) (now : Time)
    → Past g (find key s.records)
    → (e : TrialError) × (applied s cancelled key g event now ≡ err e)
Past-refused s cancelled key g event now p =
    elim (Result-cases (applied s cancelled key g event now)) [
      | inr e ↦ e
      | inl (next, e) ↦
          let (v, (r, f, t)) = applied-found s cancelled key g event now e in
          let p' : g <ℤ r.generation = subst (Past g) f p in
          absurd (ground (arith, p', transition-advances r g event now t))
    ]

applied-apply :
    (s : MemoryStore) (cancelled : Bool) (key : Text) (generation : ℤ) (event : Event) (now : Time)
    {next : Record}
    → applied s cancelled key generation event now ≡ ok next
    → (apply s cancelled key generation event now).0.records ≡ assign key next s.records
unfolding apply
applied-apply s cancelled key generation event now h = rw h refl

pub applied-stored :
    (s : MemoryStore) (cancelled : Bool) (key : Text) (generation : ℤ) (event : Event) (now : Time)
    {next : Record}
    → applied s cancelled key generation event now ≡ ok next
    → find key (step s (applies cancelled key generation event now)).records ≡ some next
unfolding step
applied-stored s cancelled key generation event now {next = next} h =
    ap (find key) (applied-apply s cancelled key generation event now h)
    ∙ find-assign_same key next s.records

-- On a well-formed store, after an update of a trial succeeds under a generation, and after any
-- calls that create no trial under the same key, every other update under that generation fails.
pub apply-once :
    (s : MemoryStore) (cancelled cancelled' : Bool) (key : Text) (generation : ℤ)
    (event event' : Event) (now now' : Time) (cs : List Call) {next : Record}
    → WellFormed s
    → applied s cancelled key generation event now ≡ ok next
    → NoCreations key cs
    → (e : TrialError) × (applied
          (run (apply s cancelled key generation event now).0 cs)
          cancelled'
          key
          generation
          event'
          now'
        ≡ err e)
unfolding apply step
apply-once s cancelled cancelled' key generation event event' now now' cs {next = next} w h n =
    let (v, (r, f, t)) = applied-found s cancelled key generation event now h in
    Past-refused (run (apply s cancelled key generation event now).0 cs) cancelled' key generation
      event' now'
      (run-Past (apply s cancelled key generation event now).0 cs key generation
        (step-WellFormed s (applies cancelled key generation event now) w) n
        (rw (h, find-assign_same key next s.records)
          (ground (arith, transition-advances r generation event now t))))
