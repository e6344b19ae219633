-- ===== src/Guard/RateLimit/Limiters.antt =====
-- The limiters over a sequence of requests: the quota of a window, isolation, and the agreement of
-- the two implementations.
use conclution_ai_teacher.Prelude.Text.{Text, is_blank}
use conclution_ai_teacher.Prelude.{
  ℕ, ◌+◌, ◌-◌, ◌≤◌, ◌≡◌, refl, ◌≢◌, ◌⊎◌, inl, inr, Bool, true, false, ◌&&◌, Option, none, some,
  List, [], ◌∷◌, arith, ltb, ◌==◌, if◌then◌else◌, Bool-cases, Option-cases, ok, Result-cases,
}
use conclution_ai_teacher.Prelude.Int.{ℤ, pos, pos_part, eqb_ℤ, ◌≤ℤ◌}
use conclution_ai_teacher.Prelude.Clock.{Time}
use conclution_ai_teacher.Guard.Identity.{user_document_id}
use conclution_ai_teacher.Guard.RateLimit.{
  Limits, CounterState, new_memory_limiter, utc_windows, advance, LimitError, MemoryLimiter,
  consume, put, uid_required, context_done,
}
use conclution_ai_teacher.Guard.RateLimit.Window.{
  Counted, advance-minute, advance-day, schema-advance, advance-schema,
}

pub record Request : Type 0 where
  pub cancelled : Bool
  pub uid : Text
  pub now : Time

-- The windows that a time falls in.
abbrev pub minute_of : Time → Time
minute_of t = (utc_windows t).0

abbrev pub day_of : Time → Time
day_of t = (utc_windows t).1

-- What is left of a window's quota: the window starts at `m`, the counters hold `start` and `count`.
abbrev pub budget : ℤ → ℤ → Time → ℤ → Time → ℕ
budget schema limit start count m =
    if eqb_ℤ schema (pos 0)
    then pos_part limit
    else if ltb m start
    then 0
    else if start == m
    then pos_part limit - pos_part count
    else pos_part limit

budget-step :
    (schema limit count count' : ℤ) (start start' now m : Time)
    → (schema ≡ pos 0) ⊎ (schema ≡ pos 1)
    → Counted start count start' count' limit now schema
    → budget (pos 1) limit start' count' m + (if now == m then 1 else 0)
      ≤ budget schema limit start count m
budget-step schema limit count count' start start' now m s c = ground (arith, c)

module _ (digest : Text → ℕ) where
  -- A call either fails and leaves the limiter as it was, or advances the counters of one key.
  abbrev Outcome : MemoryLimiter → Request → MemoryLimiter × Option LimitError → Type 0
  Outcome l r (l', e) =
      ((x : LimitError) × (e ≡ some x) × (l' ≡ l))
      ⊎ ((key : ℕ) × (state : CounterState) × (user_document_id digest r.uid ≡ some key)
          × (advance (l.counters key) r.now l.limits ≡ ok state)
          × (e ≡ none)
          × (l' ≡ record l { counters = put key state l.counters }))

  abbrev pub call : MemoryLimiter → Request → MemoryLimiter × Option LimitError
  call l r = consume digest l r.cancelled r.uid r.now

  consume-Outcome : (l : MemoryLimiter) (r : Request) → Outcome l r (call l r)
  unfolding consume
  consume-Outcome l r = elim (Bool-cases r.cancelled) [
    | inl c ↦ inl (context_done, ground arith, ground arith)
    | inr c ↦ elim (Option-cases (user_document_id digest r.uid)) [
      | inl e ↦ inl (uid_required, ground arith, ground arith)
      | inr (key, e) ↦ elim (Result-cases (advance (l.counters key) r.now l.limits)) [
        | inl (state, a) ↦ inr (key, state, e, a, ground arith, ground arith)
        | inr (x, a) ↦ inl (x, ground arith, ground arith)
      ]
    ]
  ]

  abbrev is_admitted : Option LimitError → Bool
  is_admitted none = true
  is_admitted (some e) = false

  abbrev is_key : ℕ → Option ℕ → Bool
  is_key key none = false
  is_key key (some other) = key == other

  -- The requests of a run that are admitted under `key` in the window `m`.
  pub admitted_in : (Time → Time) → ℕ → Time → MemoryLimiter → List Request → ℕ
  admitted_in window key m l [] = 0
  admitted_in window key m l (r ∷ rs) =
      let (l', e) = call l r in
      (if is_admitted e && is_key key (user_document_id digest r.uid) && window r.now == m
        then 1
        else 0)
      + admitted_in window key m l' rs

  -- One window's view of the counters of a key.
  abbrev minute_budget : MemoryLimiter → ℕ → Time → ℕ
  minute_budget l key m =
      let s = l.counters key in budget s.schema l.limits.per_minute s.minute_start s.minute_count m

  abbrev day_budget : MemoryLimiter → ℕ → Time → ℕ
  day_budget l key d =
      let s = l.counters key in budget s.schema l.limits.per_day s.day_start s.day_count d

  minute_budget-call :
      (l : MemoryLimiter) (r : Request) (key : ℕ) (m : Time)
      → let (l', e) = call l r in
        (if is_admitted e && is_key key (user_document_id digest r.uid) && minute_of r.now == m
            then 1
            else 0)
          + minute_budget l' key m
        ≤ minute_budget l key m
  minute_budget-call l r key m = elim (consume-Outcome l r) [
    | inl (x, e, same) ↦ rw (e, same) (omega arith)
    | inr (k, state, named, a, e, new) ↦
        let c = advance-minute (l.counters k) r.now l.limits a in
        let z = schema-advance (l.counters k) r.now l.limits a in
        let s = advance-schema (l.counters k) r.now l.limits a in
        let b =
          budget-step (l.counters k).schema l.limits.per_minute (l.counters k).minute_count
            state.minute_count (l.counters k).minute_start state.minute_start (minute_of r.now) m s
            c in
        rw (e, new, named) (ground (arith, b, z))
  ]

  day_budget-call :
      (l : MemoryLimiter) (r : Request) (key : ℕ) (d : Time)
      → let (l', e) = call l r in
        (if is_admitted e && is_key key (user_document_id digest r.uid) && day_of r.now == d
            then 1
            else 0)
          + day_budget l' key d
        ≤ day_budget l key d
  day_budget-call l r key d = elim (consume-Outcome l r) [
    | inl (x, e, same) ↦ rw (e, same) (omega arith)
    | inr (k, state, named, a, e, new) ↦
        let c = advance-day (l.counters k) r.now l.limits a in
        let z = schema-advance (l.counters k) r.now l.limits a in
        let s = advance-schema (l.counters k) r.now l.limits a in
        let b =
          budget-step (l.counters k).schema l.limits.per_day (l.counters k).day_count
            state.day_count (l.counters k).day_start state.day_start (day_of r.now) d s c in
        rw (e, new, named) (ground (arith, b, z))
  ]

  admitted-minute_budget :
      (l : MemoryLimiter) (rs : List Request) (key : ℕ) (m : Time)
      → admitted_in minute_of key m l rs ≤ minute_budget l key m
  unfolding admitted_in
  admitted-minute_budget l [] key m = omega arith
  admitted-minute_budget l (r ∷ rs) key m =
      omega (arith, minute_budget-call l r key m, admitted-minute_budget (call l r).0 rs key m)

  admitted-day_budget :
      (l : MemoryLimiter) (rs : List Request) (key : ℕ) (d : Time)
      → admitted_in day_of key d l rs ≤ day_budget l key d
  unfolding admitted_in
  admitted-day_budget l [] key d = omega arith
  admitted-day_budget l (r ∷ rs) key d =
      omega (arith, day_budget-call l r key d, admitted-day_budget (call l r).0 rs key d)

  -- Of any sequence of requests, at any times and in any order, that a new in-memory limiter with
  -- valid limits receives, it admits under one document id at most 20 and at most the per-minute
  -- limit in each UTC minute, and at most the daily limit in each UTC day.
  pub quota_holds :
      (limits : Limits) (l : MemoryLimiter)
      → new_memory_limiter limits ≡ ok l
      → (rs : List Request) (key : ℕ) (w : Time)
      → (admitted_in minute_of key w l rs ≤ 20)
        × (pos (admitted_in minute_of key w l rs) ≤ℤ limits.per_minute)
        × (pos (admitted_in day_of key w l rs) ≤ℤ limits.per_day)
  unfolding new_memory_limiter
  quota_holds limits l h rs key w =
      let m = admitted-minute_budget l rs key w in
      let d = admitted-day_budget l rs key w in ground (arith, m, d)

  call-answer :
      (k l : MemoryLimiter) (q : Request)
      → k.limits ≡ l.limits
      → k.counters (digest q.uid) ≡ l.counters (digest q.uid)
      → (call k q).1 ≡ (call l q).1
  unfolding consume user_document_id
  call-answer k l q e c = elim (Bool-cases q.cancelled) [
    | inl done ↦ ground arith
    | inr live ↦ elim (Bool-cases (is_blank q.uid)) [
      | inl blank ↦ ground arith
      | inr named ↦ ground arith
    ]
  ]

  call-others :
      (l : MemoryLimiter) (r : Request) (key : ℕ)
      → digest r.uid ≢ key
      → ((call l r).0.limits ≡ l.limits) × ((call l r).0.counters key ≡ l.counters key)
  unfolding user_document_id
  call-others l r key n = elim (consume-Outcome l r) [
    | inl (x, e, same) ↦ rw same (refl, refl)
    | inr (k, state, named, a, e, new) ↦ rw new (refl, ground arith)
  ]

  -- Where two users have different digests, the answer of the in-memory limiter to one is the same
  -- with and without a request of the other just before.
  pub consume-isolated :
      (l : MemoryLimiter) (r q : Request)
      → digest r.uid ≢ digest q.uid
      → (call (call l r).0 q).1 ≡ (call l q).1
  consume-isolated l r q n =
      let (e, c) = call-others l r (digest q.uid) n in call-answer (call l r).0 l q e c
