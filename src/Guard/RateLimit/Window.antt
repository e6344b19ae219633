-- ===== src/Guard/RateLimit/Window.antt =====
-- A window admits at most its limit, whatever requests come in whatever order of times.
use conclution_ai_teacher.Prelude.{
  ◌+◌, ◌≤◌, ◌<◌, ◌≡◌, ◌↔◌, ◌⊎◌, inl, inr, arith, ◌==◌, if◌then◌else◌, ok, err, Result-cases,
}
use conclution_ai_teacher.Prelude.Int.{ℤ, pos, pos_part, neg_part, ◌≤ℤ◌}
use conclution_ai_teacher.Prelude.Clock.{Time}
use conclution_ai_teacher.Guard.RateLimit.{
  Limits, CounterState, utc_windows, check_counter, roll_counter, count_request, advance,
  rate_limit_exceeded,
}

-- What a successful step shows of one window: its start, its count and the limit.
pub record Counted (start : Time) (count : ℤ) (start' : Time) (count' limit : ℤ) (now : Time)
    (schema : ℤ) : Type 0 where
  pub moved : start' ≡ now
  pub fits : pos_part count' ≤ pos_part limit
  pub positive : 1 ≤ pos_part count'
  pub kept : start ≡ now → pos_part count' ≡ pos_part count + 1
  pub ordered : schema ≡ pos 1 → start ≤ now

advance-parts :
    (s : CounterState) (now : Time) (limits : Limits) {t : CounterState}
    → advance s now limits ≡ ok t
    → let (m, d) = utc_windows now in
      (check_counter s m d ≡ ok tt) × (count_request limits (roll_counter s m d) ≡ ok t)
unfolding advance
advance-parts s now limits h =
    elim (Result-cases (check_counter s (utc_windows now).0 (utc_windows now).1)) [
      | inl (u, e) ↦ (e, rw e at h)
      | inr (x, e) ↦ absurd (ground arith)
    ]

check-facts :
    (s : CounterState) (m d : Time)
    → check_counter s m d ≡ ok tt
    → (neg_part s.minute_count ≡ 0)
      × (neg_part s.day_count ≡ 0)
      × (s.schema ≡ pos 1 → s.minute_start ≤ m)
      × (s.schema ≡ pos 1 → s.day_start ≤ d)
unfolding check_counter
check-facts s m d h = ground arith

-- The count of one window after the roll and the step.
count-facts :
    (limits : Limits) (r : CounterState) {t : CounterState}
    → count_request limits r ≡ ok t
    → neg_part r.minute_count ≡ 0
    → neg_part r.day_count ≡ 0
    → (t.minute_start ≡ r.minute_start)
      × (t.day_start ≡ r.day_start)
      × (t.schema ≡ r.schema)
      × (pos_part t.minute_count ≡ pos_part r.minute_count + 1)
      × (pos_part t.day_count ≡ pos_part r.day_count + 1)
      × (pos_part t.minute_count ≤ pos_part limits.per_minute)
      × (pos_part t.day_count ≤ pos_part limits.per_day)
unfolding count_request
count-facts limits r h m d = ground arith

pub schema-advance :
    (s : CounterState) (now : Time) (limits : Limits) {t : CounterState}
    → advance s now limits ≡ ok t
    → t.schema ≡ pos 1
unfolding roll_counter
schema-advance s now limits h =
    let (c, e) = advance-parts s now limits h in
    let (m, d, _, _) = check-facts s _ _ c in
    (count-facts limits (roll_counter s (utc_windows now).0 (utc_windows now).1) e (ground arith)
      (ground arith)).2

module _ (s : CounterState) (now : Time) (limits : Limits) {t : CounterState}
    (done : advance s now limits ≡ ok t) where
  abbrev rolled : CounterState
  rolled = roll_counter s (utc_windows now).0 (utc_windows now).1

  pub advance-minute :
      Counted s.minute_start s.minute_count t.minute_start t.minute_count limits.per_minute
        (utc_windows now).0
        s.schema
  unfolding roll_counter
  advance-minute =
      let (c, e) = advance-parts s now limits done in
      let k = check-facts s _ _ c in
      let f = count-facts limits rolled e (ground arith) (ground arith) in ground (arith, k, f)

  pub advance-day :
      Counted s.day_start s.day_count t.day_start t.day_count limits.per_day
        (utc_windows now).1
        s.schema
  unfolding roll_counter
  advance-day =
      let (c, e) = advance-parts s now limits done in
      let k = check-facts s _ _ c in
      let f = count-facts limits rolled e (ground arith) (ground arith) in ground (arith, k, f)

check-schema :
    (s : CounterState) (m d : Time)
    → check_counter s m d ≡ ok tt
    → (s.schema ≡ pos 0) ⊎ (s.schema ≡ pos 1)
unfolding check_counter
check-schema s m d h = ground arith

pub advance-schema :
    (s : CounterState) (now : Time) (limits : Limits) {t : CounterState}
    → advance s now limits ≡ ok t
    → (s.schema ≡ pos 0) ⊎ (s.schema ≡ pos 1)
advance-schema s now limits h = check-schema s _ _ (advance-parts s now limits h).0

-- The requests that a window has already admitted.
abbrev pub used : Time → ℤ → Time → ℤ
used start count now = if start == now then count else pos 0

-- A stored counter that `advance` accepts at the windows `m` and `d`.
pub record IsCurrent (s : CounterState) (m d : Time) : Type 0 where
  pub stored : s.schema ≡ pos 1
  pub minute_nonneg : neg_part s.minute_count ≡ 0
  pub day_nonneg : neg_part s.day_count ≡ 0
  pub minute_set : 0 < s.minute_start
  pub day_set : 0 < s.day_start
  pub minute_past : s.minute_start ≤ m
  pub day_past : s.day_start ≤ d

check-IsCurrent : (s : CounterState) (m d : Time) → IsCurrent s m d → check_counter s m d ≡ ok tt
unfolding check_counter
check-IsCurrent s m d c = ground (arith, c)

count-refused :
    (limits : Limits) (r : CounterState)
    → (count_request limits r ≡ err rate_limit_exceeded)
      ↔ ((limits.per_minute ≤ℤ r.minute_count) ⊎ (limits.per_day ≤ℤ r.day_count))
unfolding count_request
count-refused limits r = (λ h. ground arith, λ h. ground arith)

-- On a stored counter that is current for the time, counting a request fails with
-- rate_limit_exceeded exactly when what the current minute or day has used has reached its limit.
pub advance-refuses_iff :
    (s : CounterState) (now : Time) (limits : Limits)
    → IsCurrent s (utc_windows now).0 (utc_windows now).1
    → (advance s now limits ≡ err rate_limit_exceeded) ↔ (
        (limits.per_minute ≤ℤ used s.minute_start s.minute_count (utc_windows now).0)
        ⊎ (limits.per_day ≤ℤ used s.day_start s.day_count (utc_windows now).1))
unfolding advance roll_counter
advance-refuses_iff s now limits c =
    rw (check-IsCurrent s (utc_windows now).0 (utc_windows now).1 c)
      (count-refused limits (roll_counter s (utc_windows now).0 (utc_windows now).1))
