-- ===== src/Guard/RateLimit.antt =====
-- internal/guard/rate_limit.go: the fixed-window counters, the limits, and the two limiters.
-- A context that is done is the argument `cancelled`; Firestore's answers are arguments too.
pub mod Window
pub mod Limiters
pub mod Refinement
use conclution_ai_teacher.Prelude.Text.{Text}
use conclution_ai_teacher.Prelude.{
  ℕ, Bool, true, false, not, ◌&&◌, ◌||◌, ◌==◌, if◌then◌else◌, Option, none, some, Result, ok, err,
  ◌>>=◌, ◌>>◌, fail_if, ◌+◌, ◌*◌,
}
use conclution_ai_teacher.Prelude.Int.{ℤ, pos, negsuc, ltb_ℤ, leb_ℤ, eqb_ℤ, ◌+ℤ◌}
use conclution_ai_teacher.Prelude.Clock.{Time, minute, day, second, is_zero, after, truncate}
use conclution_ai_teacher.Guard.Identity.{user_document_id}

-- The source's bounds on limits.
abbrev max_per_minute : ℤ
max_per_minute = pos 20

abbrev max_per_day : ℤ
max_per_day = pos 200

abbrev max_breaker_per_minute : ℤ
max_breaker_per_minute = pos 300

abbrev max_breaker_per_day : ℤ
max_breaker_per_day = pos 20_000

pub data LimitError : Type 0 where
  minute_limit_out_of_range day_limit_out_of_range unsupported_scope client_required : LimitError
  uid_required context_done unsupported_schema negative_counter invalid_window : LimitError
  rate_limit_exceeded read_failed decode_failed unsupported_persisted_schema : LimitError
  commit_failed : LimitError
  consume_failed : LimitError → LimitError

pub record Limits : Type 0 where
  pub per_minute : ℤ
  pub per_day : ℤ

abbrev in_range : ℤ → ℤ → Bool
in_range top n = not (ltb_ℤ n (pos 1) || ltb_ℤ top n)

unfoldable pub validate : Limits → Result LimitError (Unit {0})
validate l = do
  fail_if (not (in_range max_per_minute l.per_minute)) minute_limit_out_of_range
  fail_if (not (in_range max_per_day l.per_day)) day_limit_out_of_range

unfoldable pub validate_passkey_app_circuit_breaker : Limits → Result LimitError (Unit {0})
validate_passkey_app_circuit_breaker l = do
  fail_if (not (in_range max_breaker_per_minute l.per_minute)) minute_limit_out_of_range
  fail_if (not (in_range max_breaker_per_day l.per_day)) day_limit_out_of_range

pub record CounterState : Type 0 where
  pub minute_start : Time
  pub minute_count : ℤ
  pub day_start : Time
  pub day_count : ℤ
  pub schema : ℤ

-- The zero value, which a missing map entry reads as.
abbrev pub zero_counter : CounterState
zero_counter = record {
  minute_start = 0;
  minute_count = pos 0;
  day_start = 0;
  day_count = pos 0;
  schema = pos 0;
}

unfoldable pub utc_windows : Time → Time × Time
utc_windows now = (truncate now minute, truncate now day)

-- The three checks of the stored state against the windows of `now`.
unfoldable pub check_counter : CounterState → Time → Time → Result LimitError (Unit {0})
check_counter s minute_now day_now = do
  fail_if (not (eqb_ℤ s.schema (pos 0)) && not (eqb_ℤ s.schema (pos 1))) unsupported_schema
  fail_if (ltb_ℤ s.minute_count (pos 0) || ltb_ℤ s.day_count (pos 0)) negative_counter
  fail_if
      (eqb_ℤ s.schema (pos 1)
        && (is_zero s.minute_start
            || is_zero s.day_start
            || after s.minute_start minute_now
            || after s.day_start day_now))
      invalid_window

-- A window that has moved on starts again at 0.
unfoldable pub roll_counter : CounterState → Time → Time → CounterState
roll_counter s minute_now day_now = record {
  minute_start = minute_now;
  minute_count = if s.minute_start == minute_now then s.minute_count else pos 0;
  day_start = day_now;
  day_count = if s.day_start == day_now then s.day_count else pos 0;
  schema = pos 1;
}

unfoldable pub count_request : Limits → CounterState → Result LimitError CounterState
count_request limits s =
    if leb_ℤ limits.per_minute s.minute_count || leb_ℤ limits.per_day s.day_count
    then err rate_limit_exceeded
    else ok (record s { minute_count = s.minute_count +ℤ pos 1; day_count = s.day_count +ℤ pos 1 })

-- `advance` on a copy of the state: every caller drops the copy on an error.
unfoldable pub advance : CounterState → Time → Limits → Result LimitError CounterState
advance s now limits =
    let (minute_now, day_now) = utc_windows now in
    do check_counter s minute_now day_now; count_request limits (roll_counter s minute_now day_now)

pub record MemoryLimiter : Type 0 where
  pub limits : Limits
  pub counters : ℕ → CounterState

unfoldable pub new_memory_limiter : Limits → Result LimitError MemoryLimiter
unfolding validate
new_memory_limiter l = validate l >> ok (record { limits = l; counters = λ _. zero_counter })

unfoldable pub new_memory_passkey_app_limiter : Limits → Result LimitError MemoryLimiter
unfolding validate_passkey_app_circuit_breaker
new_memory_passkey_app_limiter l =
    validate_passkey_app_circuit_breaker l
    >> ok (record { limits = l; counters = λ _. zero_counter })

abbrev pub put {ℓ} : {A : Type ℓ} → ℕ → A → (ℕ → A) → ℕ → A
put key value map other = if other == key then value else map other

-- What the digest names, or the error "uid is required".
abbrev or_required : Option ℕ → Result LimitError ℕ
or_required none = err uid_required
or_required (some key) = ok key

-- What a Firestore `Get` answers in a transaction: a decoded document, one that does not decode, no
-- document, or another failure.
pub data GetResult : Type 0 where
  found : CounterState → GetResult
  undecodable not_found get_failed : GetResult

-- The body of the transaction: the document to set.
transaction_body : Limits → Time → GetResult → Result LimitError CounterState
transaction_body limits now (found s) = do
  fail_if (not (eqb_ℤ s.schema (pos 1))) unsupported_persisted_schema
  advance s now limits
transaction_body limits now undecodable = err decode_failed
transaction_body limits now not_found = advance zero_counter now limits
transaction_body limits now get_failed = err read_failed

-- The error that reaches the caller.
unfoldable pub surface : LimitError → LimitError
surface rate_limit_exceeded = rate_limit_exceeded
surface e = consume_failed e

-- The stored document: the counters, and when Firestore may drop them.
pub record CounterDocument : Type 0 where
  pub counter : CounterState
  pub expires_at : Time

abbrev document_ttl : ℕ
document_ttl = 48 * 3600 * second

unfoldable pub firestore_counter_document : CounterState → Time → CounterDocument
firestore_counter_document s now = record {
  counter = record s { schema = pos 1 };
  expires_at = now + document_ttl;
}

pub record FirestoreLimiter : Type 0 where
  pub limits : Limits
  pub documents : ℕ → Option CounterDocument

abbrev get_document : Option CounterDocument → GetResult
get_document none = not_found
get_document (some d) = found d.counter

module _ (digest : Text → ℕ) where
  -- The body of `MemoryLimiter.Consume`.
  try_consume : MemoryLimiter → Bool → Text → Time → Result LimitError MemoryLimiter
  try_consume l cancelled uid now = do
    fail_if cancelled context_done
    key ← or_required (user_document_id digest uid)
    state ← advance (l.counters key) now l.limits
    ok (record l { counters = put key state l.counters })

  -- `MemoryLimiter.Consume`: the limiter after the call, and the error.
  unfoldable pub consume : MemoryLimiter → Bool → Text → Time → MemoryLimiter × Option LimitError
  unfolding try_consume
  consume l cancelled uid now = elim (try_consume l cancelled uid now) [
    | ok l' ↦ (l', none)
    | err e ↦ (l, some e)
  ]

  -- `FirestoreLimiter.Consume` where the reads and the commit of the transaction succeed.
  unfoldable pub consume_firestore :
      FirestoreLimiter → Text → Time → FirestoreLimiter × Option LimitError
  unfolding transaction_body surface firestore_counter_document
  consume_firestore l uid now = elim (user_document_id digest uid) [
    | none ↦ (l, some uid_required)
    | some key ↦ elim (transaction_body l.limits now (get_document (l.documents key))) [
      | ok state ↦ (
        record l { documents = put key (some (firestore_counter_document state now)) l.documents },
        none,
      )
      | err e ↦ (l, some (surface e))
    ]
  ]

  -- The same where Firestore fails: nothing is written, and the error is wrapped.
  unfoldable pub consume_firestore_failing :
      FirestoreLimiter → Text → LimitError → FirestoreLimiter × Option LimitError
  unfolding surface
  consume_firestore_failing l uid failure = elim (user_document_id digest uid) [
    | none ↦ (l, some uid_required)
    | some key ↦ (l, some (surface failure))
  ]
