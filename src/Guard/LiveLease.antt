-- ===== src/Guard/LiveLease.antt =====
-- internal/guard/voice_live_lease.go: one live voice connection for each user. The 32 random bytes
-- of a holder are an argument, `none` where `rand.Read` fails.
pub mod Holder
pub mod Exclusion
pub mod Firestore
pub mod Agreement
pub mod Durable
use conclution_ai_teacher.Prelude.Text.{
  Text, text_eq, text_eq_iff, is_hex, is_hex_digit, hex_digit, encode_to_string, AllBytes,
  length-encode, is_hex-encode,
}
use conclution_ai_teacher.Prelude.{
  ℕ, ◌+◌, ◌-◌, ◌/◌, ◌%◌, Bool, true, false, not, ◌&&◌, ◌||◌, ◌==◌, leb, ltb, if◌then◌else◌, Option,
  none, some, List, [], ◌∷◌, all_of, length, Result, ok, err, ◌>>=◌, ◌>>◌, fail_if,
}
use conclution_ai_teacher.Prelude.Int.{ℤ, pos, negsuc, leb_ℤ, eqb_ℤ, pos_part}
use conclution_ai_teacher.Prelude.Clock.{Time, is_zero, after}
use conclution_ai_teacher.Guard.Identity.{user_document_id}
use conclution_ai_teacher.Guard.RateLimit.{put}

pub data LeaseError : Type 0 where
  uid_missing context_done unsupported_schema invalid_holder invalid_expiry : LeaseError
  expiry_missing ttl_not_positive random_failed lease_held read_failed : LeaseError
  decode_failed : LeaseError
  acquire_failed release_failed : LeaseError → LeaseError

abbrev pub lease_schema : ℤ
lease_schema = pos 1

pub record VoiceLiveLeaseState : Type 0 where
  pub holder : Text
  pub expires_at : Time
  pub schema : ℤ

unfoldable pub validate_lease : VoiceLiveLeaseState → Result LeaseError (Unit {0})
validate_lease s = do
  fail_if (not (eqb_ℤ s.schema lease_schema)) unsupported_schema
  fail_if (not (length s.holder == 64)) invalid_holder
  fail_if (not (is_hex s.holder)) invalid_holder
  fail_if (is_zero s.expires_at) invalid_expiry

-- A field of a Firestore document: missing, of another type, or a value.
pub data Field (A : Type 0) : Type 0 where
  missing mistyped : Field A
  value : A → Field A

pub record LeaseDocument : Type 0 where
  pub holder : Field Text
  pub expires_at : Field Time
  pub schema : Field ℤ

-- Whether the lease has expired, and its expiry.
unfoldable pub voice_live_lease_expiry : Field Time → Time → Result LeaseError (Bool × Time)
voice_live_lease_expiry (value t) now =
    if is_zero t then err invalid_expiry else ok (not (after t now), t)
voice_live_lease_expiry _ now = err invalid_expiry

abbrev holder_of : Field Text → Result LeaseError Text
holder_of (value h) = ok h
holder_of _ = err invalid_holder

abbrev schema_of : Field ℤ → Result LeaseError ℤ
schema_of (value n) = if eqb_ℤ n lease_schema then ok n else err unsupported_schema
schema_of _ = err unsupported_schema

abbrev is_missing : {A : Type 0} → Field A → Bool
is_missing missing = true
is_missing _ = false

-- The checks of a document whose lease has not expired.
unfoldable pub check_active : LeaseDocument → Time → Result LeaseError (Unit {0})
check_active d expires_at = do
  holder ← holder_of d.holder
  schema ← schema_of d.schema
  validate_lease (record { holder = holder; expires_at = expires_at; schema = schema })
  err lease_held

-- `ok` where the document may be replaced.
unfoldable pub validate_voice_live_lease_for_acquire :
    LeaseDocument → Time → Result LeaseError (Unit {0})
unfolding voice_live_lease_expiry
validate_voice_live_lease_for_acquire d now = do
  fail_if (is_missing d.expires_at) expiry_missing
  (expired, expires_at) ← voice_live_lease_expiry d.expires_at now
  if expired then ok tt else check_active d expires_at

abbrev or_random : Option (List ℕ) → Result LeaseError (List ℕ)
or_random none = err random_failed
or_random (some bytes) = ok bytes

unfoldable pub new_voice_live_lease_state :
    Time → ℤ → Option (List ℕ) → Result LeaseError VoiceLiveLeaseState
new_voice_live_lease_state now ttl random = do
  fail_if (leb_ℤ ttl (pos 0)) ttl_not_positive
  bytes ← or_random random
  ok (record {
    holder = encode_to_string bytes;
    expires_at = now + pos_part ttl;
    schema = lease_schema;
  })

-- The handle that `Acquire` returns.
pub record LeaseHandle : Type 0 where
  pub document_id : ℕ
  pub holder : Text

abbrev pub Leases : Type 0
Leases = ℕ → Option VoiceLiveLeaseState

abbrev or_uid : Option ℕ → Result LeaseError ℕ
or_uid none = err uid_missing
or_uid (some key) = ok key

-- Whether the slot of a key may be taken at `now`.
unfoldable pub slot_is_free : Option VoiceLiveLeaseState → Time → Result LeaseError (Unit {0})
unfolding voice_live_lease_expiry
slot_is_free none now = ok tt
slot_is_free (some persisted) now = do
  (expired, _) ← voice_live_lease_expiry (value persisted.expires_at) now
  if expired then ok tt else validate_lease persisted >> err lease_held

module _ (digest : Text → ℕ) where
  -- `MemoryVoiceLiveLeaseManager.Acquire`: the leases after the call and the handle.
  unfoldable pub acquire :
      Leases → Bool → Text → Time → ℤ → Option (List ℕ) → Result LeaseError (Leases × LeaseHandle)
  acquire leases cancelled uid now ttl random = do
    fail_if cancelled context_done
    key ← or_uid (user_document_id digest uid)
    requested ← new_voice_live_lease_state now ttl random
    slot_is_free (leases key) now
    ok (put key (some requested) leases, record { document_id = key; holder = requested.holder })

-- The slot after `memoryVoiceLiveLease.Release`, where the context is live.
abbrev released : Option VoiceLiveLeaseState → Text → Option VoiceLiveLeaseState
released none holder = none
released (some persisted) holder = if text_eq persisted.holder holder then none else some persisted

unfoldable pub release : Leases → Bool → LeaseHandle → Leases × Option LeaseError
release leases cancelled handle =
    if cancelled
    then (leases, some context_done)
    else (put handle.document_id (released (leases handle.document_id) handle.holder) leases, none)
