-- ===== src/Trial/Service.antt =====
-- internal/guesttrial/service.go and verification.go: the operations of a guest on a trial, over
-- the store in memory, and the publication of a verdict. A call is given the times that it reads
-- from the clock, in nanoseconds of UTC, and what it reads from the source of random bytes.
pub mod Begin
pub mod Verifying
pub mod Publication
use conclution_ai_teacher.Prelude.Text.{Text, encode_to_string}
use conclution_ai_teacher.Prelude.{
  ℕ, ◌+◌, Bool, true, false, not, ◌&&◌, ◌||◌, if◌then◌else◌, List, [], ◌∷◌, Option, none, some,
  Result, ok, err, ◌>>=◌, ◌>>◌, fail_if,
}
use conclution_ai_teacher.Prelude.Int.{ℤ, pos, ltb_ℤ, eqb_ℤ}
use conclution_ai_teacher.Prelude.Clock.{Time, microsecond, truncate}
use conclution_ai_teacher.Trial.Ledger.{
  ttl, TrialError, invalid_input, stale_or_terminal, passed_on, Status, pending, Event, help, stop,
  complete_verified, complete_unverified, Question, rest_activity_v1, Record, is_pending,
}
use conclution_ai_teacher.Trial.Memory.{MemoryStore, create, read, apply}
use conclution_ai_teacher.Trial.Memory.Bounds.{Call, run}
use conclution_ai_teacher.Trial.Owner.{Owner, valid_owner, document_key}
use conclution_ai_teacher.Prelude.Text.{Rune}

-- `QuestionText`, by its code points.
abbrev pub question_text : Text
question_text =
    23569 ∷ 12375 ∷ 20241 ∷ 12417 ∷ 12427 ∷ 12392 ∷ 12375 ∷ 12383 ∷ 12425 ∷ 12289 ∷ 20309 ∷ 12434
    ∷ 12375 ∷ 12383 ∷ 12356 ∷ 12391 ∷ 12377 ∷ 12363 ∷ 65311 ∷ []

pub record Snapshot : Type 0 where
  pub version : ℤ
  pub id : Text
  pub question_id : Question
  pub question : Text
  pub generation : ℤ
  pub assisted : Bool
  pub status : Status
  pub expires_at : Time

unfoldable pub snapshot : Text → Record → Snapshot
snapshot id r = record {
  version = pos 1;
  id = id;
  question_id = r.question;
  question = question_text;
  generation = r.generation;
  assisted = r.assisted;
  status = r.status;
  expires_at = r.expires_at;
}

-- The action of a request: "help", "stop" or any other string.
pub data Action : Type 0 where
  asks_help asks_stop asks_other : Action

pub data Verdict : Type 0 where
  verdict_answer_first verdict_unverified other_verdict : Verdict

-- When the context of an evaluation is done: at its two stores' calls and at its three tests.
pub record Contexts : Type 0 where
  pub at_start : Bool
  pub at_read : Bool
  pub before_verify : Bool
  pub after_verify : Bool
  pub at_apply : Bool

unfoldable pub new_record : Time → Record
new_record now = record {
  version = pos 1;
  question = rest_activity_v1;
  generation = pos 1;
  assisted = false;
  status = pending;
  created_at = now;
  expires_at = now + ttl;
}

abbrev or_read_failed : Option (List ℕ) → Result TrialError (List ℕ)
or_read_failed none = err passed_on
or_read_failed (some bytes) = ok bytes

abbrev event_of : Action → Result TrialError Event
event_of asks_help = ok help
event_of asks_stop = ok stop
event_of asks_other = err invalid_input

abbrev pub event_of_verdict : Verdict → Result TrialError Event
event_of_verdict verdict_answer_first = ok complete_verified
event_of_verdict verdict_unverified = ok complete_unverified
event_of_verdict other_verdict = err invalid_input

-- generation < 1 || generation > 2
abbrev out_of_turn : ℤ → Bool
out_of_turn generation = ltb_ℤ generation (pos 1) || ltb_ℤ (pos 2) generation

abbrev pub snapshot_of : Text → Result TrialError Record → Result TrialError Snapshot
snapshot_of id (ok r) = ok (snapshot id r)
snapshot_of id (err e) = err e

abbrev created : Text → Record → Option TrialError → Result TrialError Snapshot
created id r none = ok (snapshot id r)
created id r (some e) = err e

-- The part of `Service.Evaluate` from the verifier's answer to the event.
unfoldable pub event_of_answer : Contexts → Result TrialError Verdict → Result TrialError Event
event_of_answer ctx answer = do
  verdict ← answer
  fail_if ctx.after_verify passed_on
  event_of_verdict verdict

-- The rest of `Service.Evaluate`, on the store as it is after the verification.
unfoldable pub publish :
    MemoryStore
    → Contexts
    → Text
    → Text
    → ℤ
    → Time
    → Result TrialError Event
    → MemoryStore × Result TrialError Snapshot
publish s ctx key id generation now (err e) = (s, err e)
publish s ctx key id generation now (ok event) =
    let (s', r) = apply s ctx.at_apply key generation event now in (s', snapshot_of id r)

-- The verification, and the publication, of an evaluation that was opened.
abbrev pub verify_and_publish :
    MemoryStore
    → Contexts
    → Text
    → ℤ
    → (Snapshot → Result TrialError Verdict)
    → List Call
    → Time
    → Result TrialError (Text × Record)
    → MemoryStore × Result TrialError Snapshot
verify_and_publish s ctx id generation verify meanwhile later (err e) = (s, err e)
verify_and_publish s ctx id generation verify meanwhile later (ok (key, r)) =
    publish (run s meanwhile) ctx key id generation later
      (event_of_answer ctx (verify (snapshot id r)))

-- The call of the store in `Begin`, and in `Update`.
abbrev begun :
    MemoryStore
    → Bool
    → Result TrialError (Text × Text × Record)
    → MemoryStore × Result TrialError Snapshot
begun s at_create (err e) = (s, err e)
begun s at_create (ok (id, key, r)) = let (s', e) = create s at_create key r in (s', created id r e)

abbrev updated :
    MemoryStore
    → Bool
    → Text
    → ℤ
    → Time
    → Result TrialError (Text × Event)
    → MemoryStore × Result TrialError Snapshot
updated s cancelled id generation now (err e) = (s, err e)
updated s cancelled id generation now (ok (key, event)) =
    let (s', r) = apply s cancelled key generation event now in (s', snapshot_of id r)

module _ (mac : List Rune → List ℕ) where
  -- The part of `Begin` before the store: the id, its key and the record.
  unfoldable pub prepare :
      Bool → Owner → Option (List ℕ) → Time → Result TrialError (Text × Text × Record)
  prepare cancelled owner random now = do
    fail_if (not (valid_owner owner)) invalid_input
    fail_if cancelled passed_on
    raw ← or_read_failed random
    key ← document_key mac owner (encode_to_string raw)
    ok (encode_to_string raw, key, new_record (truncate now microsecond))

  -- `Service.Begin`; the two Booleans say whether the context is done at the start and in `Create`.
  unfoldable pub begin :
      MemoryStore
      → Bool
      → Bool
      → Owner
      → Option (List ℕ)
      → Time
      → MemoryStore × Result TrialError Snapshot
  begin s cancelled at_create owner random now =
      begun s at_create (prepare cancelled owner random now)

  -- `Service.Read`
  unfoldable pub read_trial : MemoryStore → Bool → Owner → Text → Time → Result TrialError Snapshot
  read_trial s cancelled owner id now = do
    key ← document_key mac owner id
    snapshot_of id (read s cancelled key now)

  -- The tests of `Update` before the store: the key and the event.
  unfoldable pub check_update : Owner → Text → ℤ → Action → Result TrialError (Text × Event)
  check_update owner id generation action = do
    key ← document_key mac owner id
    event ← event_of action
    fail_if (out_of_turn generation) invalid_input
    ok (key, event)

  -- `Service.Update`
  unfoldable pub update :
      MemoryStore
      → Bool
      → Owner
      → Text
      → ℤ
      → Action
      → Time
      → MemoryStore × Result TrialError Snapshot
  update s cancelled owner id generation action now =
      updated s cancelled id generation now (check_update owner id generation action)

  -- `Evaluate` up to the call of the verifier: the key and the record that it reads.
  unfoldable pub open_evaluation :
      MemoryStore → Contexts → Owner → Text → ℤ → Time → Result TrialError (Text × Record)
  open_evaluation s ctx owner id generation now = do
    fail_if (out_of_turn generation) invalid_input
    fail_if ctx.at_start passed_on
    key ← document_key mac owner id
    r ← read s ctx.at_read key now
    fail_if (not (is_pending r.status) || not (eqb_ℤ r.generation generation)) stale_or_terminal
    fail_if ctx.before_verify passed_on
    ok (key, r)

  -- `Service.Evaluate` with a verifier that is not nil: other requests make the calls `meanwhile` while it verifies;
  -- it reads the store at `now` and applies the verdict at `later`.
  unfoldable pub evaluate :
      MemoryStore
      → Contexts
      → Owner
      → Text
      → ℤ
      → (Snapshot → Result TrialError Verdict)
      → Time
      → List Call
      → Time
      → MemoryStore × Result TrialError Snapshot
  evaluate s ctx owner id generation verify now meanwhile later =
      verify_and_publish s ctx id generation verify meanwhile later
        (open_evaluation s ctx owner id generation now)
