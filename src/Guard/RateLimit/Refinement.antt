-- ===== src/Guard/RateLimit/Refinement.antt =====
-- The Firestore limiter and the in-memory limiter decide alike, and users do not share counters.
use conclution_ai_teacher.Prelude.Text.{Text}
use conclution_ai_teacher.Prelude.{
  ℕ, ◌≡◌, refl, sym, ap, ◌∙◌, inl, inr, false, Option, none, some, List, [], ◌∷◌, map, arith, ◌==◌,
  Bool-cases, Option-cases, err, Result-cases,
}
use conclution_ai_teacher.Prelude.Int.{pos}
use conclution_ai_teacher.Prelude.Clock.{Time}
use conclution_ai_teacher.Guard.Identity.{user_document_id}
use conclution_ai_teacher.Guard.RateLimit.{
  Limits, CounterState, zero_counter, check_counter, count_request, advance, LimitError,
  MemoryLimiter, consume, try_consume, put, FirestoreLimiter, CounterDocument, consume_firestore,
  firestore_counter_document, transaction_body, surface, get_document, uid_required,
}
use mathlib.Core.Option
use mathlib.Core.Path.{ap₂}
use conclution_ai_teacher.Guard.RateLimit.Window.{schema-advance}

-- A document holds the counters of its key; a key without one has the zero counters.
abbrev pub Holds : Option CounterDocument → CounterState → Type 0
Holds none s = s ≡ zero_counter
Holds (some d) s = (d.counter ≡ s) × (s.schema ≡ pos 1)

pub record Agree (f : FirestoreLimiter) (l : MemoryLimiter) : Type 0 where
  pub same_limits : f.limits ≡ l.limits
  pub same_counters : (key : ℕ) → Holds (f.documents key) (l.counters key)

-- The error of the Firestore limiter for an error of the other.
abbrev pub wrap : LimitError → LimitError
unfolding surface
wrap uid_required = uid_required
wrap e = surface e

transaction_body-Holds :
    (limits : Limits) (now : Time) (d : Option CounterDocument) (s : CounterState)
    → Holds d s
    → transaction_body limits now (get_document d) ≡ advance s now limits
unfolding transaction_body
transaction_body-Holds limits now none s h = rw h refl
transaction_body-Holds limits now (some d) s h =
    let schema : d.counter.schema ≡ pos 1 = ap (λ (c : CounterState). c.schema) h.0 ∙ h.1 in
    simp schema (ap (λ (c : CounterState). advance c now limits) h.0)

-- Counting never complains of the uid.
advance-not_uid :
    (s : CounterState) (now : Time) (limits : Limits) {e : LimitError}
    → advance s now limits ≡ err e
    → wrap e ≡ surface e
unfolding advance check_counter count_request surface
advance-not_uid s now limits h = ground arith

module _ (digest : Text → ℕ) where
  put-Holds :
      (f : FirestoreLimiter) (l : MemoryLimiter) (key : ℕ) (state : CounterState) (now : Time)
      → Agree f l
      → state.schema ≡ pos 1
      → Agree
          (record f {
            documents = put key (some (firestore_counter_document state now)) f.documents;
          })
          (record l { counters = put key state l.counters })
  unfolding firestore_counter_document
  put-Holds f l key state now a s = record {
    same_limits = a.same_limits;
    same_counters = λ k. elim (Bool-cases (k == key)) [
      | inl e ↦ rw e (ground arith, s)
      | inr e ↦ rw e (a.same_counters k)
    ];
  }

  pub consume-Agree :
      (f : FirestoreLimiter) (l : MemoryLimiter) (uid : Text) (now : Time)
      → Agree f l
      → let (f', e) = consume_firestore digest f uid now in
        let (l', x) = consume digest l false uid now in Agree f' l' × (e ≡ Option.map wrap x)
  unfolding consume consume_firestore
  consume-Agree f l uid now a = elim (Option-cases (user_document_id digest uid)) [
    | inl e ↦ rw (e, consume, consume_firestore, try_consume) (a, refl)
    | inr (key, e) ↦ elim (Result-cases (advance (l.counters key) now l.limits)) [
      | inl (state, r) ↦
          let body =
            transaction_body-Holds f.limits now (f.documents key) (l.counters key)
              (a.same_counters key)
            ∙ ap (λ (m : Limits). advance (l.counters key) now m) a.same_limits
            ∙ r in
          rw (e, body, r, consume, consume_firestore, try_consume)
            (put-Holds f l key state now a (schema-advance (l.counters key) now l.limits r), refl)
      | inr (x, r) ↦
          let body =
            transaction_body-Holds f.limits now (f.documents key) (l.counters key)
              (a.same_counters key)
            ∙ ap (λ (m : Limits). advance (l.counters key) now m) a.same_limits
            ∙ r in
          rw (e, body, r, consume, consume_firestore, try_consume)
            (a, ap some (sym (advance-not_uid (l.counters key) now l.limits r)))
    ]
  ]

  -- The answers of each limiter to a run of requests.
  unfoldable pub memory_answers : MemoryLimiter → List (Text × Time) → List (Option LimitError)
  memory_answers l [] = []
  memory_answers l ((uid, now) ∷ rs) =
      let (l', e) = consume digest l false uid now in e ∷ memory_answers l' rs

  unfoldable pub firestore_answers :
      FirestoreLimiter → List (Text × Time) → List (Option LimitError)
  firestore_answers f [] = []
  firestore_answers f ((uid, now) ∷ rs) =
      let (f', e) = consume_firestore digest f uid now in e ∷ firestore_answers f' rs

  answers-Agree :
      (f : FirestoreLimiter) (l : MemoryLimiter) (rs : List (Text × Time))
      → Agree f l
      → firestore_answers f rs ≡ map (Option.map wrap) (memory_answers l rs)
  unfolding memory_answers firestore_answers
  answers-Agree f l [] a = refl
  answers-Agree f l ((uid, now) ∷ rs) a =
      let (a', e) = consume-Agree f l uid now a in
      ap₂ ◌∷◌ e (
        answers-Agree (consume_firestore digest f uid now).0 (consume digest l false uid now).0 rs
          a')

  -- A Firestore limiter whose reads and commits succeed and an in-memory limiter with the same
  -- limits, both without counters, give the same answers to every sequence of requests, up to the
  -- wrapping of the errors.
  pub fresh-answers :
      (limits : Limits) (rs : List (Text × Time))
      → firestore_answers (record { limits = limits; documents = λ _. none }) rs
        ≡ map
            (Option.map wrap)
            (memory_answers (record { limits = limits; counters = λ _. zero_counter }) rs)
  fresh-answers limits rs =
      answers-Agree _ _ rs (record { same_limits = refl; same_counters = λ _. refl })
