-- ===== src/Trial/Memory.antt =====
-- internal/guesttrial/memory.go: the bounded store of trials. A Go map is a list of its entries,
-- with one entry for a key; `cancelled` says that the context is done when `ctx.Err()` is called.
pub mod Bounds
pub mod Runs
pub mod Swap
use conclution_ai_teacher.Prelude.Text.{Text, text_eq}
use conclution_ai_teacher.Prelude.{
  ℕ, Bool, true, false, not, ◌&&◌, ◌||◌, if◌then◌else◌, List, [], ◌∷◌, Option, none, some, length,
  Result, ok, err, ◌>>=◌, ◌>>◌, fail_if, ltb,
}
use conclution_ai_teacher.Prelude.Int.{ℤ, pos, ltb_ℤ, leb_ℤ, eqb_ℤ}
use conclution_ai_teacher.Prelude.Clock.{Time, after}
use conclution_ai_teacher.Trial.Ledger.{
  TrialError, invalid_input, stale_or_terminal, not_found, capacity_exceeded, passed_on, Event,
  Record, valid_key, is_pending, validate_record, current, transition,
}

abbrev pub Records : Type 0
Records = List (Text × Record)

pub record MemoryStore : Type 0 where
  pub capacity : ℤ
  pub records : Records

unfoldable pub new_memory_store : ℤ → Result TrialError MemoryStore
new_memory_store capacity =
    if ltb_ℤ capacity (pos 1) || ltb_ℤ (pos 10000) capacity
    then err invalid_input
    else ok (record { capacity = capacity; records = [] })

-- `records[key]`
unfoldable pub find : Text → Records → Option Record
find key [] = none
find key ((k, r) ∷ rest) = if text_eq k key then some r else find key rest

-- `records[key] = record`
unfoldable pub assign : Text → Record → Records → Records
assign key record' [] = (key, record') ∷ []
assign key record' ((k, r) ∷ rest) =
    if text_eq k key then (k, record') ∷ rest else (k, r) ∷ assign key record' rest

-- The loop of `Create` that deletes what has expired by `now`.
unfoldable pub delete_expired : Time → Records → Records
delete_expired now [] = []
delete_expired now ((k, r) ∷ rest) =
    if after r.expires_at now then (k, r) ∷ delete_expired now rest else delete_expired now rest

abbrev is_ok : Result TrialError (Unit {0}) → Bool
is_ok (ok _) = true
is_ok (err _) = false

-- The first test of `Create`, on what it is given.
unfoldable pub valid_creation : Text → Record → Bool
valid_creation key r =
    valid_key key
    && is_ok (validate_record r)
    && eqb_ℤ r.generation (pos 1)
    && not r.assisted
    && is_pending r.status

-- The part of `Create` after the sweep.
unfoldable pub admit : MemoryStore → Text → Record → MemoryStore × Option TrialError
admit s key r =
    if leb_ℤ s.capacity (pos (length s.records))
    then (s, some capacity_exceeded)
    else (record s { records = assign key r s.records }, none)

-- `MemoryStore.Create`: the store after the call, and the error. A refusal for the capacity has
-- swept the expired records all the same.
unfoldable pub create : MemoryStore → Bool → Text → Record → MemoryStore × Option TrialError
create s cancelled key r =
    if not (valid_creation key r)
    then (s, some invalid_input)
    else if cancelled
    then (s, some passed_on)
    else elim (find key s.records) [
      | some _ ↦ (s, some stale_or_terminal)
      | none ↦ admit (record s { records = delete_expired r.created_at s.records }) key r
    ]

abbrev or_not_found : Option Record → Result TrialError Record
or_not_found none = err not_found
or_not_found (some r) = ok r

-- `MemoryStore.Read`
unfoldable pub read : MemoryStore → Bool → Text → Time → Result TrialError Record
read s cancelled key now = do
  fail_if (not (valid_key key)) invalid_input
  fail_if cancelled passed_on
  r ← or_not_found (find key s.records)
  current r now

-- `MemoryStore.Apply`, without the assignment: what it returns.
unfoldable pub applied : MemoryStore → Bool → Text → ℤ → Event → Time → Result TrialError Record
applied s cancelled key generation event now = do
  fail_if (not (valid_key key)) invalid_input
  fail_if cancelled passed_on
  r ← or_not_found (find key s.records)
  transition r generation event now

abbrev stored :
    MemoryStore → Text → Result TrialError Record → MemoryStore × Result TrialError Record
stored s key (ok next) = (record s { records = assign key next s.records }, ok next)
stored s key (err e) = (s, err e)

-- `MemoryStore.Apply`: the store after the call, and what it returns.
unfoldable pub apply :
    MemoryStore → Bool → Text → ℤ → Event → Time → MemoryStore × Result TrialError Record
apply s cancelled key generation event now =
    stored s key (applied s cancelled key generation event now)
