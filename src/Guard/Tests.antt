-- ===== src/Guard/Tests.antt =====
-- The limiters and the lease managers at concrete requests.
use conclution_ai_teacher.Prelude.Text.{Text, encode_to_string, is_blank}
use conclution_ai_teacher.Prelude.{
  replicate, ℕ, ◌+◌, ◌*◌, ◌≤◌, ◌≡◌, ◌⊎◌, refl, inr, false, none, some, List, [], ◌∷◌, map, arith,
  ok, err,
}
use conclution_ai_teacher.Prelude.Int.{pos, ◌≤ℤ◌}
use conclution_ai_teacher.Prelude.Clock.{Time, microsecond, minute, day, second, truncate}
use conclution_ai_teacher.Guard.Identity.{user_document_id}
use conclution_ai_teacher.Guard.RateLimit.{
  Limits, CounterState, zero_counter, utc_windows, check_counter, roll_counter, count_request,
  advance, rate_limit_exceeded, MemoryLimiter, consume, put,
}
use mathlib.Core.Option
use conclution_ai_teacher.Guard.RateLimit.{new_memory_limiter}
use conclution_ai_teacher.Guard.RateLimit.Limiters.{
  Request, admitted_in, minute_of, day_of, quota_holds,
}
use conclution_ai_teacher.Guard.RateLimit.Refinement.{
  wrap, memory_answers, firestore_answers, fresh-answers,
}
use conclution_ai_teacher.Guard.LiveLease.{
  VoiceLiveLeaseState, validate_lease, lease_held, lease_schema, Leases, LeaseHandle, acquire,
  slot_is_free, new_voice_live_lease_state,
}
use conclution_ai_teacher.Guard.LiveLease.Exclusion.{
  Call, acquires, releases, run, acquire-excludes,
}
use conclution_ai_teacher.Guard.LiveLease.Firestore.{
  Documents, document_of, may_replace, acquire_firestore,
}
use conclution_ai_teacher.Guard.LiveLease.Durable
use conclution_ai_teacher.Guard.LiveLease.Agreement.{
  Agree, SameGrant, GrantedEarly, put-Agree, acquire-Agree,
}

-- A digest for runs: the first code point.
abbrev first_code : Text → ℕ
first_code [] = 0
first_code (c ∷ cs) = c

abbrev noon : Time
noon = 63_900_000_000_000_000_000

abbrev two_a_minute : Limits
two_a_minute = record { per_minute = pos 2; per_day = pos 3 }

abbrev limiter : MemoryLimiter
limiter = record { limits = two_a_minute; counters = λ _. zero_counter }

abbrev by : Text → Time → Request
by uid now = record { cancelled = false; uid = uid; now = now }

-- Three requests in one minute, one in the next: the third is refused, and so is the one after the
-- day's third.
abbrev busy : List (Text × Time)
busy =
    ((7 ∷ []), noon)
    ∷ ((7 ∷ []), noon + 1)
    ∷ ((7 ∷ []), noon + 2)
    ∷ ((7 ∷ []), noon + minute)
    ∷ ((7 ∷ []), noon + minute + 1)
    ∷ []

busy_answers :
    memory_answers first_code limiter busy
    ≡ none ∷ none ∷ some rate_limit_exceeded ∷ none ∷ some rate_limit_exceeded ∷ []
unfolding memory_answers consume is_blank user_document_id advance check_counter roll_counter
    count_request utc_windows
busy_answers = refl

quota_holds_example :
    (admitted_in first_code minute_of 7 (truncate noon minute) limiter (by (7 ∷ []) noon ∷ []) ≤ 20)
    × (pos (
          admitted_in first_code minute_of 7 (truncate noon minute) limiter (by (7 ∷ []) noon ∷ []))
        ≤ℤ pos 2)
    × (pos (admitted_in first_code day_of 7 (truncate noon minute) limiter (by (7 ∷ []) noon ∷ []))
        ≤ℤ pos 3)
unfolding new_memory_limiter
quota_holds_example =
    quota_holds first_code two_a_minute limiter refl (by (7 ∷ []) noon ∷ []) 7
      (truncate noon minute)

fresh-answers_example :
    firestore_answers first_code (record { limits = two_a_minute; documents = λ _. none }) busy
    ≡ map (Option.map wrap) (memory_answers first_code limiter busy)
fresh-answers_example = fresh-answers first_code two_a_minute busy

abbrev half_used : CounterState
half_used = record {
  minute_start = noon;
  minute_count = pos 2;
  day_start = truncate noon day;
  day_count = pos 2;
  schema = pos 1;
}

-- 32 random bytes.
abbrev bytes : List ℕ
bytes = replicate 32 171

abbrev no_leases : Leases
no_leases = λ _. none

abbrev seconds : ℕ → ℕ
seconds n = n * second

abbrev granted : Leases × LeaseHandle
granted = (
  put 7
      (some (record {
        holder = encode_to_string bytes;
        expires_at = noon + seconds 60;
        schema = lease_schema;
      }))
      no_leases,
  record { document_id = 7; holder = encode_to_string bytes },
)

first_grant :
    acquire first_code no_leases false (7 ∷ []) noon (pos (seconds 60)) (some bytes) ≡ ok granted
unfolding acquire is_blank user_document_id new_voice_live_lease_state slot_is_free encode_to_string
first_grant = refl

-- Another user's connection comes and goes, and a stale handle is released.
abbrev meanwhile : List Call
meanwhile =
    acquires false (8 ∷ []) (noon + 1) (pos (seconds 60)) (some bytes)
    ∷ releases false (record { document_id = 7; holder = 1 ∷ [] })
    ∷ []

acquire-excludes_example :
    acquire first_code
      (run first_code granted.0 meanwhile)
      false
      (7 ∷ [])
      (noon + 2)
      (pos 5)
      (some bytes)
    ≡ err lease_held
unfolding encode_to_string
acquire-excludes_example =
    acquire-excludes first_code no_leases (7 ∷ []) noon (seconds 60) bytes (omega arith) refl
      first_grant meanwhile (noon + 2) 5 bytes (omega arith, (inr (λ e. cc), tt)) (omega arith)
      (omega arith)

abbrev no_documents : Documents
no_documents = λ _. none

-- A lease that expires between two microseconds, asked for in between.
abbrev cut : Time → Time
cut t = truncate t microsecond

abbrev uneven : VoiceLiveLeaseState
uneven = record { holder = encode_to_string bytes; expires_at = noon + 500; schema = lease_schema }

abbrev uneven_leases : Leases
uneven_leases = put 7 (some uneven) no_leases

abbrev uneven_documents : Documents
uneven_documents = put 7 (some (document_of cut uneven)) no_documents

uneven-Agree : Agree cut uneven_documents uneven_leases
unfolding validate_lease encode_to_string
uneven-Agree =
    put-Agree cut no_documents no_leases 7 (some (document_of cut uneven)) (some uneven) (λ _. tt)
      (refl, refl, omega arith)

acquire-Agree_example :
    SameGrant cut
      (acquire_firestore first_code cut uneven_documents (7 ∷ []) (noon + 300) (pos 5) (some bytes))
      (acquire first_code uneven_leases false (7 ∷ []) (noon + 300) (pos 5) (some bytes))
    ⊎ GrantedEarly cut first_code
        (acquire_firestore first_code cut uneven_documents
          (7 ∷ [])
          (noon + 300)
          (pos 5)
          (some bytes))
        (acquire first_code uneven_leases false (7 ∷ []) (noon + 300) (pos 5) (some bytes))
        uneven_leases
        (7 ∷ [])
        (noon + 300)
acquire-Agree_example =
    acquire-Agree cut first_code uneven_documents uneven_leases (7 ∷ []) (noon + 300) (pos 5) bytes
      (λ t. omega arith) (omega arith) refl (omega arith) uneven-Agree

abbrev durable_grant : Documents × LeaseHandle
durable_grant = (
  put 7
      (some (
        document_of cut (record {
          holder = encode_to_string bytes;
          expires_at = noon + seconds 60;
          schema = lease_schema;
        })))
      no_documents,
  record { document_id = 7; holder = encode_to_string bytes },
)

first_durable_grant :
    acquire_firestore first_code cut no_documents (7 ∷ []) noon (pos (seconds 60)) (some bytes)
    ≡ ok durable_grant
unfolding acquire_firestore is_blank user_document_id new_voice_live_lease_state may_replace
    encode_to_string
first_durable_grant = refl

abbrev meanwhile_elsewhere : List Durable.Call
meanwhile_elsewhere =
    Durable.acquires (7 ∷ []) (noon + 1) (pos (seconds 60)) (some bytes)
    ∷ Durable.releases (record { document_id = 7; holder = 1 ∷ [] })
    ∷ []

acquire_firestore-excludes_example :
    acquire_firestore first_code cut
      (Durable.run cut first_code durable_grant.0 meanwhile_elsewhere)
      (7 ∷ [])
      (noon + 2)
      (pos 5)
      (some bytes)
    ≡ err lease_held
unfolding encode_to_string
acquire_firestore-excludes_example =
    Durable.acquire_firestore-excludes cut first_code no_documents (7 ∷ []) noon (seconds 60) bytes
      (λ t. omega arith) (omega arith) refl (omega arith) first_durable_grant meanwhile_elsewhere
      (noon + 2) 5 bytes (omega arith, (inr (λ e. cc), tt)) (omega arith) (omega arith)
