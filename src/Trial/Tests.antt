-- ===== src/Trial/Tests.antt =====
-- The trial of a guest at concrete requests.
use conclution_ai_teacher.Prelude.Text.{AllBytes, Text, encode_to_string, is_space, text_eq}
use conclution_ai_teacher.Prelude.{
  ℕ, zero, suc, ◌+◌, ◌<◌, ◌≡◌, ◌↔◌, refl, false, List, [], ◌∷◌, ◌++◌, some, arith, Result, ok, err,
  replicate,
}
use conclution_ai_teacher.Prelude.Int.{ℤ, pos}
use conclution_ai_teacher.Prelude.Clock.{Time, second, minute, microsecond, truncate}
use conclution_ai_teacher.Trial.Ledger.{
  TrialError, Event, help, stop, complete_verified, pending, Record, valid_key, validate_record,
  current, move, transition,
}
use conclution_ai_teacher.Trial.Ledger.Lifetime.{
  Request, after_all, Granted, outcome, transition_iff,
}
use conclution_ai_teacher.Trial.Memory.{
  MemoryStore, new_memory_store, find, assign, delete_expired, valid_creation, admit, create, read,
  applied, apply,
}
use conclution_ai_teacher.Trial.Memory.Bounds.{
  creates, reads, applies, step, run, WellFormed, run-WellFormed,
}
use conclution_ai_teacher.Trial.Memory.Swap.{apply-once}
use conclution_ai_teacher.Trial.Owner.{Owner, valid_name, valid_owner, document_key}
use conclution_ai_teacher.Prelude.Text.{Rune, code}
use conclution_ai_teacher.Trial.Service.{
  Snapshot, snapshot, new_record, Verdict, verdict_answer_first, Contexts, prepare, begin,
  read_trial, open_evaluation, evaluate, publish, event_of_answer,
}
use conclution_ai_teacher.Trial.Service.Verifying.{with_verdict}
use conclution_ai_teacher.Trial.Service.Publication.{evaluate-published, evaluate-overtaken}
use conclution_ai_teacher.Trial.Service.Begin.{begin-read, begin_starts}

abbrev noon : Time
noon = 63_900_000_000_000_000_000

-- A MAC for runs: 32 bytes, whatever the message.
abbrev flat_mac : List Rune → List ℕ
flat_mac _ = replicate 32 1

abbrev zeros : List ℕ
zeros = replicate 32 0

abbrev guest : Owner
guest = record { uid = code b'u' ∷ []; app_id = code b'a' ∷ [] }

abbrev id : Text
id = encode_to_string zeros

abbrev key : Text
key = encode_to_string (replicate 32 1)

abbrev fresh : Record
fresh = new_record noon

abbrev empty_store : MemoryStore
empty_store = record { capacity = pos 2; records = [] }

-- The store with one pending trial.
abbrev one_trial : MemoryStore
one_trial = record { capacity = pos 2; records = (key, fresh) ∷ [] }

abbrev asks : ℤ → Event → Time → Request
asks generation event now = record { generation = generation; event = event; now = now }

-- Help once, then a second help, which is refused, then a stop, and what comes after it.
abbrev session : List Request
session =
    asks (pos 1) help (noon + second)
    ∷ asks (pos 2) help (noon + second)
    ∷ asks (pos 2) stop (noon + minute)
    ∷ asks (pos 3) complete_verified (noon + minute)
    ∷ []

session_counts : (after_all fresh session).1 ≡ 2
unfolding after_all transition current move validate_record new_record
session_counts = refl

transition_iff_example :
    (transition fresh (pos 1) help (noon + second) ≡ ok (outcome fresh help)) ↔ (
      Granted fresh (asks (pos 1) help (noon + second)) × (outcome fresh help ≡ outcome fresh help))
unfolding validate_record new_record
transition_iff_example =
    transition_iff fresh (outcome fresh help) (asks (pos 1) help (noon + second)) refl

run-WellFormed_example : WellFormed (
    run empty_store (creates false key fresh ∷ applies false key (pos 1) help (noon + second) ∷ []))
unfolding new_memory_store
run-WellFormed_example =
    run-WellFormed (pos 2)
      (creates false key fresh ∷ applies false key (pos 1) help (noon + second) ∷ []) refl

one_trial-WellFormed : WellFormed one_trial
unfolding valid_key validate_record new_record encode_to_string
one_trial-WellFormed = ((refl, refl, tt, tt), omega arith)

apply-once_example :
    (e : TrialError) × (applied
        (run
          (apply one_trial false key (pos 1) help (noon + second)).0
          (reads false key (noon + second) ∷ []))
        false
        key
        (pos 1)
        stop
        (noon + minute)
      ≡ err e)
unfolding applied find transition current move validate_record new_record valid_key encode_to_string
    text_eq
apply-once_example =
    apply-once one_trial false false key (pos 1) help stop (noon + second) (noon + minute)
      (reads false key (noon + second) ∷ []) one_trial-WellFormed refl (tt, tt)

abbrev live : Contexts
live = record {
  at_start = false;
  at_read = false;
  before_verify = false;
  after_verify = false;
  at_apply = false;
}

abbrev approves : Snapshot → Result TrialError Verdict
approves _ = ok verdict_answer_first

evaluate-published_example :
    (r : Record) × (v : Verdict) × (find key one_trial.records ≡ some r)
    × (r.generation ≡ pos 1)
    × (r.status ≡ pending)
    × (approves (snapshot id r) ≡ ok v)
    × (snapshot id (with_verdict fresh verdict_answer_first) ≡ snapshot id (with_verdict r v))
    × (find key
          (evaluate flat_mac one_trial live guest id
            (pos 1)
            approves
            (noon + second)
            (reads false key (noon + second) ∷ [])
            (noon + minute)).0.records
        ≡ some (with_verdict r v))
    × (noon + minute < r.expires_at)
unfolding document_key valid_owner valid_name is_space valid_key encode_to_string evaluate
    open_evaluation read find current validate_record new_record text_eq run step publish
    event_of_answer apply applied transition move snapshot
evaluate-published_example =
    evaluate-published flat_mac one_trial live guest id key (pos 1) approves (noon + second)
      (noon + minute) (reads false key (noon + second) ∷ []) one_trial-WellFormed refl (tt, tt) refl

evaluate-overtaken_example :
    (e : TrialError) × ((evaluate flat_mac one_trial live guest id
        (pos 1)
        approves
        (noon + second)
        ([] ++ (applies false key (pos 1) help (noon + second) ∷ []))
        (noon + minute)).1
      ≡ err e)
unfolding document_key valid_owner valid_name is_space valid_key encode_to_string find current
    validate_record new_record text_eq run applied transition move
evaluate-overtaken_example =
    evaluate-overtaken flat_mac one_trial live guest id key (pos 1) approves (noon + second)
      (noon + minute) [] [] false (pos 1) help (noon + second) one_trial-WellFormed refl tt tt refl

begin-read_example :
    read_trial flat_mac
      (begin flat_mac empty_store false false guest (some zeros) noon).0
      false
      guest
      id
      (noon + second)
    ≡ ok (snapshot id fresh)
unfolding begin prepare document_key valid_owner valid_name is_space valid_key encode_to_string
    create admit valid_creation validate_record find assign delete_expired new_record snapshot
begin-read_example =
    begin-read flat_mac empty_store false false guest (some zeros) noon (noon + second)
      {snap = snapshot id fresh} refl (omega arith) (omega arith)

AllBytes-replicate : (n b : ℕ) → b < 256 → AllBytes (replicate n b)
AllBytes-replicate zero b h = tt
AllBytes-replicate (suc n) b h = (h, AllBytes-replicate n b h)

begin_starts_example :
    (begin flat_mac empty_store false false guest (some zeros) noon).1
    ≡ ok (snapshot id (new_record (truncate noon microsecond)))
unfolding valid_owner valid_name is_space find delete_expired
begin_starts_example =
    begin_starts flat_mac empty_store guest zeros noon refl (AllBytes-replicate 32 0 (omega arith))
      refl (AllBytes-replicate 32 1 (omega arith)) refl (omega arith) refl (omega arith)
