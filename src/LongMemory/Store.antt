-- ===== src/LongMemory/Store.antt =====
-- internal/longmemory/memory_store.go: consents, records and used capabilities. A Go map of entries
-- is a function that reads the zero entry where there is none, as the code does; `cancelled` says
-- that the context is done.
pub mod Generations
pub mod Validity
use conclution_ai_teacher.Prelude.Text.{Text, is_hex, assign, is_empty}
use conclution_ai_teacher.Prelude.{
  ℕ, ◌+◌, ◌*◌, Bool, true, false, not, ◌&&◌, ◌||◌, if◌then◌else◌, List, [], ◌∷◌, Option, none, some,
  length, ltb, ◌==◌, Result, ok, err, ◌>>=◌, ◌>>◌, fail_if,
}
use conclution_ai_teacher.Prelude.Int.{ℤ, pos, ◌+ℤ◌, ltb_ℤ, eqb_ℤ}
use conclution_ai_teacher.Prelude.Clock.{Time, second, minute, day, is_zero, after}

abbrev pub default_ttl : ℕ
default_ttl = 30 * day

abbrev pub context_capability_ttl : ℕ
context_capability_ttl = 15 * minute

-- The last constructor stands for the errors of other layers.
pub data MemoryError : Type 0 where
  invalid_state disabled stale_generation not_found replayed passed_on : MemoryError

pub record Consent : Type 0 where
  pub enabled : Bool
  pub generation : ℤ

pub record MemoryRecord : Type 0 where
  pub schema_version : ℤ
  pub generation : ℤ
  pub ciphertext : List ℕ
  pub nonce : List ℕ
  pub expires_at : Time

pub record MemoryEntry : Type 0 where
  pub consent : Consent
  pub stored : Option MemoryRecord

abbrev pub zero_entry : MemoryEntry
zero_entry = record { consent = record { enabled = false; generation = pos 0 }; stored = none }

pub record MemoryStore : Type 0 where
  pub entries : Text → MemoryEntry
  pub uses : Text → Option Time

unfoldable pub new_memory_store : MemoryStore
new_memory_store = record { entries = λ _. zero_entry; uses = λ _. none }

abbrev pub set_entry : MemoryStore → Text → MemoryEntry → MemoryStore
set_entry s key e = record s { entries = assign key e s.entries }

unfoldable pub valid_use_digest : Text → Bool
valid_use_digest value = is_hex value && length value == 64

unfoldable pub validate_memory_record : MemoryRecord → ℤ → Time → Result MemoryError (Unit {0})
validate_memory_record r generation now =
    fail_if
      (not (eqb_ℤ r.schema_version (pos 1))
        || not (eqb_ℤ r.generation generation)
        || ltb_ℤ generation (pos 1)
        || is_empty r.ciphertext
        || ltb 4096 (length r.ciphertext)
        || not (length r.nonce == 12)
        || is_zero r.expires_at
        || not (after r.expires_at now)
        || after r.expires_at (now + (default_ttl + minute)))
      invalid_state

-- The checks that `Put` and `ConsumeCapability` make of the consent.
unfoldable pub check_consent : Consent → ℤ → Result MemoryError (Unit {0})
check_consent c generation = do
  fail_if (not c.enabled) disabled
  fail_if (not (eqb_ℤ c.generation generation)) stale_generation

abbrev is_used : Option Time → Bool
is_used none = false
is_used (some _) = true

-- The checks of `ConsumeCapability`.
unfoldable pub check_use :
    MemoryStore → Bool → Text → ℤ → Text → Time → Time → Result MemoryError (Unit {0})
check_use s cancelled key generation digest expires_at now = do
  fail_if cancelled passed_on
  fail_if
      (is_empty key
        || ltb_ℤ generation (pos 1)
        || not (valid_use_digest digest)
        || not (after expires_at now)
        || after expires_at (now + context_capability_ttl))
      invalid_state
  check_consent (s.entries key).consent generation
  fail_if (is_used (s.uses digest)) replayed

abbrev used : MemoryStore → Text → Time → Result MemoryError (Unit {0}) → MemoryStore
used s digest expires_at (ok _) = record s { uses = assign digest (some expires_at) s.uses }
used s digest expires_at (err _) = s

-- `ConsumeCapability`: the store after the call, and what it returns.
unfoldable pub consume_capability :
    MemoryStore → Bool → Text → ℤ → Text → Time → Time → MemoryStore × Result MemoryError (Unit {0})
consume_capability s cancelled key generation digest expires_at now =
    let r = check_use s cancelled key generation digest expires_at now in
    (used s digest expires_at r, r)

unfoldable pub status : MemoryStore → Bool → Text → Result MemoryError Consent
status s cancelled key = fail_if cancelled passed_on >> ok (s.entries key).consent

abbrev pub next_consent : Consent → Bool → MemoryEntry
next_consent c enabled = record {
  consent = record { enabled = enabled; generation = c.generation +ℤ pos 1 };
  stored = none;
}

unfoldable pub malformed_call : Bool → Text → Time → Bool
malformed_call cancelled key now = cancelled || is_empty key || is_zero now

unfoldable pub enable : MemoryStore → Bool → Text → Time → MemoryStore × Result MemoryError Consent
enable s cancelled key now =
    if malformed_call cancelled key now
    then (s, err invalid_state)
    else if (s.entries key).consent.enabled
    then (s, ok (s.entries key).consent)
    else (
      set_entry s key (next_consent (s.entries key).consent true),
      ok (next_consent (s.entries key).consent true).consent,
    )

unfoldable pub disable_and_delete :
    MemoryStore → Bool → Text → Time → MemoryStore × Result MemoryError (Unit {0})
disable_and_delete s cancelled key now =
    if malformed_call cancelled key now
    then (s, err invalid_state)
    else (set_entry s key (next_consent (s.entries key).consent false), ok tt)

-- The checks of `Put`.
unfoldable pub check_put :
    MemoryStore → Bool → Text → ℤ → MemoryRecord → Time → Result MemoryError (Unit {0})
check_put s cancelled key generation r now = do
  fail_if cancelled passed_on
  check_consent (s.entries key).consent generation
  validate_memory_record r generation now

abbrev kept : MemoryStore → Text → MemoryRecord → Result MemoryError (Unit {0}) → MemoryStore
kept s key r (ok _) = set_entry s key (record (s.entries key) { stored = some r })
kept s key r (err _) = s

unfoldable pub put_record :
    MemoryStore
    → Bool
    → Text
    → ℤ
    → MemoryRecord
    → Time
    → MemoryStore × Result MemoryError (Unit {0})
put_record s cancelled key generation r now =
    let checked = check_put s cancelled key generation r now in (kept s key r checked, checked)

-- `entry.record == nil || !entry.record.ExpiresAt.After(now)`
unfoldable pub live_record : Option MemoryRecord → Time → Result MemoryError MemoryRecord
live_record none now = err not_found
live_record (some r) now = if after r.expires_at now then ok r else err not_found

unfoldable pub get_current :
    MemoryStore → Bool → Text → Time → Result MemoryError (Consent × MemoryRecord)
get_current s cancelled key now = do
  fail_if cancelled passed_on
  fail_if (not (s.entries key).consent.enabled) disabled
  r ← live_record (s.entries key).stored now
  validate_memory_record r (s.entries key).consent.generation now
  ok ((s.entries key).consent, r)

unfoldable pub get_record : MemoryStore → Bool → Text → ℤ → Time → Result MemoryError MemoryRecord
get_record s cancelled key generation now = do
  (consent, r) ← get_current s cancelled key now
  fail_if (not (eqb_ℤ consent.generation generation)) stale_generation
  ok r
