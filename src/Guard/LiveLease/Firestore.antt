-- ===== src/Guard/LiveLease/Firestore.antt =====
-- internal/guard/voice_live_lease.go: the Firestore manager, where the reads and the commit of its
-- transaction succeed. Firestore keeps a timestamp with a precision of microseconds: `kept t` is
-- what it keeps of the time `t`.
use conclution_ai_teacher.Prelude.Text.{Text, text_eq}
use conclution_ai_teacher.Prelude.{
  ℕ, Option, none, some, List, [], if◌then◌else◌, Result, ok, err, ◌>>=◌, ◌>>◌,
}
use conclution_ai_teacher.Prelude.Int.{ℤ, pos}
use conclution_ai_teacher.Prelude.Clock.{Time}
use conclution_ai_teacher.Guard.Identity.{user_document_id}
use conclution_ai_teacher.Guard.RateLimit.{put}
use conclution_ai_teacher.Guard.LiveLease.{
  VoiceLiveLeaseState, LeaseError, lease_held, LeaseHandle, validate_lease,
  new_voice_live_lease_state, LeaseDocument, Field, value, validate_voice_live_lease_for_acquire,
}
use conclution_ai_teacher.Guard.LiveLease.{
  missing, mistyped, or_uid, acquire_failed, release_failed, decode_failed, lease_schema,
}

abbrev pub Documents : Type 0
Documents = ℕ → Option LeaseDocument

-- The document that `Acquire` sets, as Firestore keeps it.
abbrev pub document_of : (Time → Time) → VoiceLiveLeaseState → LeaseDocument
document_of kept s = record {
  holder = value s.holder;
  expires_at = value (kept s.expires_at);
  schema = value lease_schema;
}

-- `snapshot.DataTo`: a missing field decodes as its zero value.
abbrev decode : {A : Type 0} → A → Field A → Result LeaseError A
decode zero_value missing = ok zero_value
decode zero_value mistyped = err decode_failed
decode zero_value (value x) = ok x

unfoldable pub decode_document : LeaseDocument → Result LeaseError VoiceLiveLeaseState
decode_document d = do
  holder ← decode [] d.holder
  expires_at ← decode 0 d.expires_at
  schema ← decode (pos 0) d.schema
  ok (record { holder = holder; expires_at = expires_at; schema = schema })

-- The transaction of `Acquire`: whether the document may be replaced.
unfoldable pub may_replace : Option LeaseDocument → Time → Result LeaseError (Unit {0})
may_replace none now = ok tt
may_replace (some d) now = validate_voice_live_lease_for_acquire d now

-- The error of `Acquire` for an error of its transaction.
abbrev pub surface_acquire : LeaseError → LeaseError
surface_acquire lease_held = lease_held
surface_acquire e = acquire_failed e

abbrev surfaced : Result LeaseError (Unit {0}) → Result LeaseError (Unit {0})
surfaced (ok u) = ok u
surfaced (err e) = err (surface_acquire e)

-- The transaction of `Release`: the document after it.
unfoldable pub after_release :
    Option LeaseDocument → Text → Result LeaseError (Option LeaseDocument)
unfolding decode_document
after_release none holder = ok none
after_release (some d) holder = do
  persisted ← decode_document d
  validate_lease persisted
  ok (if text_eq persisted.holder holder then none else some d)

module _ (digest : Text → ℕ) (kept : Time → Time) where
  unfoldable pub acquire_firestore :
      Documents → Text → Time → ℤ → Option (List ℕ) → Result LeaseError (Documents × LeaseHandle)
  acquire_firestore documents uid now ttl random = do
    key ← or_uid (user_document_id digest uid)
    requested ← new_voice_live_lease_state now ttl random
    surfaced (may_replace (documents key) now)
    ok (
      put key (some (document_of kept requested)) documents,
      record { document_id = key; holder = requested.holder },
    )

unfoldable pub release_firestore : Documents → LeaseHandle → Documents × Option LeaseError
release_firestore documents handle =
    elim (after_release (documents handle.document_id) handle.holder) [
      | ok d ↦ (put handle.document_id d documents, none)
      | err e ↦ (documents, some (release_failed e))
    ]
