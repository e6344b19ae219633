-- ===== src/LongMemory/Tests.antt =====
-- Runs of internal/longmemory.
mod Codec
use conclution_ai_teacher.Prelude.{
  ℕ, ◌+◌, ◌*◌, ◌≡◌, ◌≢◌, refl, sym, ap, Bool, true, false, List, [], ◌∷◌, ◌++◌, Option, none, some,
  length, arith, Result, ok, err,
}
use conclution_ai_teacher.Prelude.Int.{ℤ, pos}
use conclution_ai_teacher.Prelude.Clock.{Time, unix, of_unix, second, epoch}
use conclution_ai_teacher.Prelude.Text.{Text, Rune, code, is_space, text_eq}
use conclution_ai_teacher.LongMemory.Store.{
  MemoryError, MemoryStore, new_memory_store, enable, malformed_call, put_record, check_put,
  check_consent, validate_memory_record, disable_and_delete, consume_capability, check_use,
  valid_use_digest, get_current, live_record, get_record, status,
}
use conclution_ai_teacher.LongMemory.Store.Generations.{Call, run, enables, disables, generation_of}
use conclution_ai_teacher.LongMemory.Manager.{
  Payload, capability_token, session_token, save, prepare_save, validate_payload, principal_key,
  sealed_record, read_payload, open_loaded, load, manager_status,
}
use conclution_ai_teacher.LongMemory.Manager.RoundTrip.{load-save}
use conclution_ai_teacher.LongMemory.Context.{
  strip_prefix, valid_app_id, app_id_key, token_aad, validate_envelope, is_apart, read_token,
  open_token, new_envelope, seal_token, open_record, issue_context, issue_found, begin_context,
}
use conclution_ai_teacher.LongMemory.Context.Redeem.{
  open_context, consume_token, prepare_context, consume_context, prepare_session,
  consume_session_context, open_session_context,
}
use conclution_ai_teacher.LongMemory.Context.Redeem.Once.{
  redeem, by_context, by_session, redeem-once,
}
use conclution_ai_teacher.LongMemory.Context.Redeem.Issued.{Lasts}
use conclution_ai_teacher.LongMemory.Context.Redeem.Sessions.{
  open_context-begin, open_session_context-consume,
}
use conclution_ai_teacher.LongMemory.Context.Redeem.Revoked.{redeem-revoked}
use conclution_ai_teacher.LongMemory.Dispatcher.{
  Outcome, outcome_saved, MemoryJob, Observations, DispatcherOptions, Dispatcher, new_dispatcher,
  admit, stop_admission, cancel, receive, take_wake, leave, prepare_process, process,
}
use conclution_ai_teacher.LongMemory.Dispatcher.Processed.{Unsaved, process-load, process-revoked}
use conclution_ai_teacher.LongMemory.Dispatcher.Shutdown
use conclution_ai_teacher.LongMemory.Dispatcher.Shutdown.{
  Event, admits, stops, cancels, receives, leaves, leave-Wiped,
}
use conclution_ai_teacher.LongMemory.Store.Validity.{WellFormed, run-WellFormed_new}
use conclution_ai_teacher.LongMemory.Tests.Codec.{keys, keys-Opens, keys-Carries, keys-length}

abbrev start : Time
start = (epoch + 1_000) * second

abbrev uid : List Rune
uid = code b'u' ∷ []

abbrev app : List Rune
app = code b'a' ∷ []

abbrev owner : Text
owner = b'p' ∷ []

abbrev memory : Payload
memory = record { topics = (code b'h' ∷ code b'i' ∷ []) ∷ []; preferences = []; open_loops = [] }

abbrev twelve : List ℕ
twelve = 1 ∷ 2 ∷ 3 ∷ 4 ∷ 5 ∷ 6 ∷ 7 ∷ 8 ∷ 9 ∷ 10 ∷ 11 ∷ 12 ∷ []

abbrev sixteen : List ℕ
sixteen = 13 ∷ 14 ∷ 15 ∷ 16 ∷ twelve

abbrev enabled_store : MemoryStore
enabled_store = (enable new_memory_store false owner start).0

abbrev saved_store : MemoryStore
saved_store = (save keys enabled_store false uid (pos 1) memory (some twelve) start start).0

abbrev token_of : Result MemoryError (Option Text) → Text
token_of (ok (some token)) = token
token_of _ = []

abbrev token : Text
token = token_of (begin_context keys saved_store false uid app (some (sixteen ++ twelve)) start)

-- A later time, within the life of the tokens.
abbrev soon : Time
soon = start + 60 * second

abbrev session_of : Result MemoryError (Text × ℕ) → Text
session_of (ok (session, _)) = session
session_of (err _) = []

abbrev session : Text
session =
    session_of
      (consume_session_context keys saved_store false uid app token (some (sixteen ++ twelve))
        soon).1

saved_test : (save keys enabled_store false uid (pos 1) memory (some twelve) start start).1 ≡ ok tt
unfolding new_memory_store enable malformed_call put_record check_put check_consent
    validate_memory_record disable_and_delete consume_capability check_use valid_use_digest
    get_current live_record get_record status save prepare_save validate_payload principal_key
    sealed_record read_payload open_loaded load manager_status is_space text_eq
saved_test = refl

begun_test :
    begin_context keys saved_store false uid app (some (sixteen ++ twelve)) start ≡ ok (some token)
unfolding new_memory_store enable malformed_call put_record check_put check_consent
    validate_memory_record disable_and_delete consume_capability check_use valid_use_digest
    get_current live_record get_record status save prepare_save validate_payload principal_key
    sealed_record read_payload open_loaded load manager_status is_space text_eq strip_prefix
    valid_app_id app_id_key token_aad validate_envelope is_apart read_token open_token new_envelope
    seal_token open_record issue_context issue_found begin_context unix of_unix open_context
    consume_token prepare_context consume_context prepare_session consume_session_context
    open_session_context
begun_test = refl

owner_test : principal_key keys uid ≡ ok owner
unfolding principal_key is_space
owner_test = refl

redeemed_test : (redeem keys by_context saved_store false uid app token soon).1 ≡ ok tt
unfolding new_memory_store enable malformed_call put_record check_put check_consent
    validate_memory_record disable_and_delete consume_capability check_use valid_use_digest
    get_current live_record get_record status save prepare_save validate_payload principal_key
    sealed_record read_payload open_loaded load manager_status is_space text_eq strip_prefix
    valid_app_id app_id_key token_aad validate_envelope is_apart read_token open_token new_envelope
    seal_token open_record issue_context issue_found begin_context unix of_unix open_context
    consume_token prepare_context consume_context prepare_session consume_session_context
    open_session_context redeem
redeemed_test = refl

session_test :
    (consume_session_context keys saved_store false uid app token (some (sixteen ++ twelve)) soon).1
    ≡ ok (session, 900)
unfolding new_memory_store enable malformed_call put_record check_put check_consent
    validate_memory_record disable_and_delete consume_capability check_use valid_use_digest
    get_current live_record get_record status save prepare_save validate_payload principal_key
    sealed_record read_payload open_loaded load manager_status is_space text_eq strip_prefix
    valid_app_id app_id_key token_aad validate_envelope is_apart read_token open_token new_envelope
    seal_token open_record issue_context issue_found begin_context unix of_unix open_context
    consume_token prepare_context consume_context prepare_session consume_session_context
    open_session_context
session_test = refl

revoked_test : (disable_and_delete (run saved_store []) false owner soon).1 ≡ ok tt
unfolding new_memory_store enable malformed_call put_record check_put check_consent
    validate_memory_record disable_and_delete consume_capability check_use valid_use_digest
    get_current live_record get_record status save prepare_save validate_payload principal_key
    sealed_record read_payload open_loaded load manager_status is_space text_eq run
revoked_test = refl

current_test : generation_of saved_store owner ≡ pos 1
unfolding new_memory_store enable malformed_call put_record check_put check_consent
    validate_memory_record disable_and_delete consume_capability check_use valid_use_digest
    get_current live_record get_record status save prepare_save validate_payload principal_key
    sealed_record read_payload open_loaded load manager_status is_space text_eq
current_test = refl

abbrev bytes_of : Option (List ℕ) → List ℕ
bytes_of none = []
bytes_of (some bytes) = bytes

drawn : (bytes : List ℕ) → some (sixteen ++ twelve) ≡ some bytes → length bytes ≡ 28
drawn bytes e = ap (λ o. length (bytes_of o)) (sym e)

run-WellFormed_new_example : WellFormed (run new_memory_store (enables false owner start ∷ []))
run-WellFormed_new_example = run-WellFormed_new (enables false owner start ∷ [])

load-save_example :
    load keys
      (run
        (save keys enabled_store false uid (pos 1) memory (some twelve) start start).0
        (disables false (b'p' ∷ b'p' ∷ []) soon ∷ []))
      false
      uid
      (pos 1)
      soon
    ≡ ok memory
load-save_example =
    load-save keys enabled_store uid owner (pos 1) memory (some twelve) start start soon
      (disables false (b'p' ∷ b'p' ∷ []) soon ∷ []) keys-Opens owner_test saved_test
      ((λ e. cc e), tt) (omega arith) (omega arith)

redeem-once_example :
    (x : MemoryError) × ((redeem keys
        (by_session (some (sixteen ++ twelve)))
        (run
          (redeem keys by_context saved_store false uid app token soon).0
          (enables false owner soon ∷ []))
        false
        uid
        app
        token
        soon).1
      ≡ err x)
redeem-once_example =
    redeem-once keys by_context (by_session (some (sixteen ++ twelve))) saved_store false false uid
      app token soon soon (enables false owner soon ∷ []) redeemed_test

redeem-revoked_example :
    (x : MemoryError) × ((redeem keys by_context
        (run
          (disable_and_delete (run saved_store []) false owner soon).0
          (enables false owner soon ∷ []))
        false
        uid
        app
        token
        soon).1
      ≡ err x)
redeem-revoked_example =
    redeem-revoked keys saved_store false false uid app owner (some (sixteen ++ twelve)) start soon
      soon token [] (enables false owner soon ∷ []) by_context (keys-Carries capability_token)
      (drawn, omega arith, omega arith, omega arith) owner_test begun_test revoked_test

opened_test :
    (p : Payload) × (load keys saved_store false uid (generation_of saved_store owner) start ≡ ok p)
    × (open_context keys saved_store false uid app token soon
        ≡ ok (p, generation_of saved_store owner))
opened_test =
    open_context-begin keys saved_store saved_store false uid app owner (some (sixteen ++ twelve))
      start soon token (keys-Carries capability_token)
      (drawn, omega arith, omega arith, omega arith) owner_test begun_test refl

open_session_context-consume_example :
    (p : Payload) × (load keys saved_store false uid (generation_of saved_store owner) start ≡ ok p)
    × (open_session_context keys uid app session soon ≡ ok (p, generation_of saved_store owner))
open_session_context-consume_example =
    open_session_context-consume keys saved_store saved_store false false uid app owner
      (some (sixteen ++ twelve)) (some (sixteen ++ twelve)) start soon soon token session 900
      (keys-Carries capability_token) (keys-Carries session_token) keys-length
      (drawn, omega arith, omega arith, omega arith) (drawn, omega arith, omega arith, omega arith)
      owner_test begun_test session_test

-- Jobs.
abbrev job : MemoryJob
job = record { uid = uid; state_token = b't' ∷ []; created_at = start }

abbrev observations : Observations
observations = record {
  now = start;
  done_before_status = false;
  status_cancelled = false;
  done_after_status = false;
  done_after_candidate = false;
  save_cancelled = false;
  nonce = some twelve;
  saved_at = start;
  put_at = start;
}

abbrev candidate : List Rune → Text → Option (Payload × Bool)
candidate _ _ = some (memory, true)

processed_test :
    (process keys candidate enabled_store enabled_store (30 * second) job observations).1
    ≡ some outcome_saved
unfolding new_memory_store enable malformed_call put_record check_put check_consent
    validate_memory_record disable_and_delete status save prepare_save validate_payload
    principal_key sealed_record manager_status is_space text_eq prepare_process process
processed_test = refl

process-load_example :
    (p : Payload) × (candidate uid (b't' ∷ []) ≡ some (p, true))
    × (load keys
          (run
            (process keys candidate enabled_store enabled_store (30 * second) job observations).0
            [])
          false
          uid
          (generation_of enabled_store owner)
          soon
        ≡ ok p)
process-load_example =
    process-load keys candidate enabled_store enabled_store (30 * second) job observations owner
      soon [] keys-Opens owner_test processed_test tt (omega arith) (omega arith)

disabled_test : (disable_and_delete (run enabled_store []) false owner start).1 ≡ ok tt
unfolding new_memory_store enable malformed_call put_record check_put check_consent
    validate_memory_record disable_and_delete status run
disabled_test = refl

process-revoked_example :
    Unsaved keys candidate enabled_store
      (run
        (disable_and_delete (run enabled_store []) false owner start).0
        (enables false owner start ∷ []))
      (30 * second)
      job
      observations
process-revoked_example =
    process-revoked keys candidate enabled_store (30 * second) job observations owner start []
      (enables false owner start ∷ []) owner_test disabled_test

-- The queue.
abbrev options : DispatcherOptions
options = record { queue_capacity = pos 1; workers = pos 0; job_ttl = pos 0; job_timeout = pos 0 }

abbrev dispatcher : Dispatcher
dispatcher = record {
  capacity = 1;
  workers = 1;
  ttl = 30 * second;
  timeout = 10 * second;
  observed = true;
  jobs = [];
  wake = false;
  closed = false;
  cancelled = false;
  exited = 0;
}

abbrev shutdown : List Event
shutdown = admits job ∷ admits job ∷ stops ∷ cancels ∷ receives ∷ leaves ∷ []

dispatcher_test : new_dispatcher options true ≡ ok dispatcher
unfolding new_dispatcher
dispatcher_test = refl

left_test : (Shutdown.run dispatcher shutdown).0.exited ≢ 0
unfolding Shutdown.run Shutdown.step admit stop_admission cancel receive take_wake leave
left_test e = cc e

leave-Wiped_example :
    ((Shutdown.run dispatcher shutdown).0.jobs ≡ [])
    × ((Shutdown.run dispatcher shutdown).1 ≡ (Shutdown.run dispatcher shutdown).2)
    × ((Shutdown.run (Shutdown.run dispatcher shutdown).0 (admits job ∷ [])).1 ≡ [])
leave-Wiped_example =
    leave-Wiped options true dispatcher shutdown (admits job ∷ []) dispatcher_test left_test
