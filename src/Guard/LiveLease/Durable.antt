-- ===== src/Guard/LiveLease/Durable.antt =====
-- Mutual exclusion of the Firestore manager, over any interleaving of calls by any instances.
use conclution_ai_teacher.Prelude.Text.{AllBytes, Text, encode_to_string, text_eq_iff}
use conclution_ai_teacher.Prelude.{
  ℕ, ◌+◌, ◌<◌, ◌≤◌, ◌≡◌, refl, sym, ◌≢◌, ◌⊎◌, inl, inr, Option, some, List, [], ◌∷◌, arith,
  Option-cases, length, Result, ok, err, Result-cases,
}
use mathlib.Core.Path.{subst}
use conclution_ai_teacher.Prelude.Int.{ℤ, pos}
use conclution_ai_teacher.Prelude.Clock.{Time, microsecond}
use conclution_ai_teacher.Guard.Identity.{user_document_id}
use conclution_ai_teacher.Guard.LiveLease.{
  VoiceLiveLeaseState, LeaseError, lease_held, LeaseHandle, validate_lease,
  new_voice_live_lease_state, lease_schema, check_active, validate_voice_live_lease_for_acquire,
}
use conclution_ai_teacher.Guard.LiveLease.Holder.{new-validates}
use conclution_ai_teacher.Guard.LiveLease.Firestore.{
  Documents, document_of, may_replace, after_release, acquire_firestore, release_firestore,
}
use conclution_ai_teacher.Guard.LiveLease.Agreement.{IsKept}

-- A call by any connection; one that fails changes nothing.
pub data Call : Type 0 where
  acquires : Text → Time → ℤ → Option (List ℕ) → Call
  releases : LeaseHandle → Call

module _ (kept : Time → Time) where
  -- The document of a well-formed lease, which has not expired at a time.
  abbrev Holds : VoiceLiveLeaseState → Type 0
  Holds s = (validate_lease s ≡ ok tt) × (0 < kept s.expires_at)

  document_held :
      (s : VoiceLiveLeaseState) (now : Time)
      → Holds s
      → now < kept s.expires_at
      → may_replace (some (document_of kept s)) now ≡ err lease_held
  unfolding may_replace validate_voice_live_lease_for_acquire check_active validate_lease
  document_held s now v h = ground (arith, v)

  after_release_held :
      (s : VoiceLiveLeaseState) (holder : Text)
      → Holds s
      → holder ≢ s.holder
      → after_release (some (document_of kept s)) holder ≡ ok (some (document_of kept s))
  unfolding after_release validate_lease
  after_release_held s holder v n = ground (arith, v, text_eq_iff s.holder holder)

  module _ (digest : Text → ℕ) where
    abbrev keep : Documents → Result LeaseError (Documents × LeaseHandle) → Documents
    keep documents (ok (documents', h)) = documents'
    keep documents (err e) = documents

    unfoldable pub step : Documents → Call → Documents
    step documents (acquires uid now ttl random) =
        keep documents (acquire_firestore digest kept documents uid now ttl random)
    step documents (releases handle) = (release_firestore documents handle).0

    unfoldable pub run : Documents → List Call → Documents
    run documents [] = documents
    run documents (c ∷ cs) = run (step documents c) cs

    -- The call comes before the time, and releases no lease of the holder under the key.
    abbrev pub IsForeign : ℕ → Text → Time → Call → Type 0
    IsForeign key holder until (acquires uid now ttl random) = now + microsecond ≤ until
    IsForeign key holder until (releases h) = (h.document_id ≢ key) ⊎ (h.holder ≢ holder)

    abbrev pub AllForeign : ℕ → Text → Time → List Call → Type 0
    AllForeign key holder until [] = Unit {0}
    AllForeign key holder until (c ∷ cs) =
        IsForeign key holder until c × AllForeign key holder until cs

    acquire_held :
        (documents : Documents) (key : ℕ) (s : VoiceLiveLeaseState) (uid : Text) (now : Time)
        (ttl : ℤ) (random : Option (List ℕ))
        → documents key ≡ some (document_of kept s)
        → Holds s
        → now < kept s.expires_at
        → keep documents (acquire_firestore digest kept documents uid now ttl random) key
          ≡ some (document_of kept s)
    unfolding acquire_firestore
    acquire_held documents key s uid now ttl random l v h =
        elim (Option-cases (user_document_id digest uid)) [
          | inl e ↦ ground arith
          | inr (k, e) ↦ elim (Result-cases (new_voice_live_lease_state now ttl random)) [
            | inr (x, r) ↦ ground arith
            | inl (t, r) ↦ elim (Result-cases (may_replace (documents k) now)) [
              | inr (x, f) ↦ ground arith
              | inl (u, f) ↦ ground (arith, document_held s now v h)
            ]
          ]
        ]

    release_held :
        (documents : Documents) (key : ℕ) (s : VoiceLiveLeaseState) (h : LeaseHandle)
        → documents key ≡ some (document_of kept s)
        → Holds s
        → (h.document_id ≢ key) ⊎ (h.holder ≢ s.holder)
        → (release_firestore documents h).0 key ≡ some (document_of kept s)
    unfolding release_firestore
    release_held documents key s h l v f =
        elim (Result-cases (after_release (documents h.document_id) h.holder)) [
          | inr (e, r) ↦ ground arith
          | inl (x, r) ↦ ground (arith, after_release_held s h.holder v)
        ]

    step_foreign :
        (documents : Documents) (key : ℕ) (s : VoiceLiveLeaseState) (c : Call)
        → IsKept kept
        → documents key ≡ some (document_of kept s)
        → Holds s
        → IsForeign key s.holder s.expires_at c
        → step documents c key ≡ some (document_of kept s)
    unfolding step
    step_foreign documents key s (acquires uid now ttl random) p l v f =
        acquire_held documents key s uid now ttl random l v (ground (arith, p s.expires_at))
    step_foreign documents key s (releases h) p l v f = release_held documents key s h l v f

    run_foreign :
        (documents : Documents) (key : ℕ) (s : VoiceLiveLeaseState) (cs : List Call)
        → IsKept kept
        → documents key ≡ some (document_of kept s)
        → Holds s
        → AllForeign key s.holder s.expires_at cs
        → run documents cs key ≡ some (document_of kept s)
    unfolding run
    run_foreign documents key s [] p l v f = l
    run_foreign documents key s (c ∷ cs) p l v f =
        run_foreign (step documents c) key s cs p (step_foreign documents key s c p l v f.0) v f.1

    -- What a successful acquisition stores.
    acquire_stored :
        (documents : Documents) (uid : Text) (now : Time) (ttl : ℕ) (bytes : List ℕ)
        {documents' : Documents} {h : LeaseHandle}
        → acquire_firestore digest kept documents uid now (pos ttl) (some bytes)
          ≡ ok (documents', h)
        → (s : VoiceLiveLeaseState) × (documents' h.document_id ≡ some (document_of kept s))
          × (new_voice_live_lease_state now (pos ttl) (some bytes) ≡ ok s)
          × (s.holder ≡ h.holder)
          × (s.expires_at ≡ now + ttl)
          × (user_document_id digest uid ≡ some h.document_id)
    unfolding acquire_firestore new_voice_live_lease_state
    acquire_stored documents uid now ttl bytes a =
        elim (Option-cases (user_document_id digest uid)) [
          | inl e ↦ absurd (ground arith)
          | inr (k, e) ↦
              elim (Result-cases (new_voice_live_lease_state now (pos ttl) (some bytes))) [
                | inr (x, r) ↦ absurd (ground arith)
                | inl (t, r) ↦ elim (Result-cases (may_replace (documents k) now)) [
                  | inr (x, f) ↦ absurd (ground arith)
                  | inl (u, f) ↦ (t, ground arith, r, ground arith, ground arith, ground arith)
                ]
              ]
        ]

    new_state_made :
        (now : Time) (ttl : ℕ) (bytes : List ℕ)
        → 0 < ttl
        → (s : VoiceLiveLeaseState) × (new_voice_live_lease_state now (pos ttl) (some bytes) ≡ ok s)
    unfolding new_voice_live_lease_state
    new_state_made now ttl bytes h = (
      record { holder = encode_to_string bytes; expires_at = now + ttl; schema = lease_schema },
      ground arith,
    )

    -- Where Firestore rounds a time down by less than a microsecond: after the Firestore manager
    -- grants a lease with 32 random bytes, and after any acquisitions of any users made at least a
    -- microsecond before the lease expires, and any releases for another document or another
    -- holder, a further acquisition for the same user at least a microsecond before the expiry,
    -- with a positive TTL and random bytes at hand, fails with the error that the lease is held.
    pub acquire_firestore-excludes :
        (documents : Documents) (uid : Text) (now : Time) (ttl : ℕ) (bytes : List ℕ)
        {documents' : Documents} {h : LeaseHandle}
        → IsKept kept
        → AllBytes bytes
        → length bytes ≡ 32
        → microsecond ≤ now
        → acquire_firestore digest kept documents uid now (pos ttl) (some bytes)
          ≡ ok (documents', h)
        → (cs : List Call) (later : Time) (ttl' : ℕ) (bytes' : List ℕ)
        → AllForeign h.document_id h.holder (now + ttl) cs
        → later + microsecond ≤ now + ttl
        → 0 < ttl'
        → acquire_firestore digest kept (run documents' cs) uid later (pos ttl') (some bytes')
          ≡ err lease_held
    unfolding acquire_firestore
    acquire_firestore-excludes documents uid now ttl bytes {documents' = d'} {h = h} p a b from e cs
          later ttl' bytes' f u q =
        let (s, stored, made, holder, until, named) =
          acquire_stored documents uid now ttl bytes e in
        let (valid, lasts) = new-validates now (pos ttl) bytes a b made in
        let v : Holds s = (valid, ground (arith, p s.expires_at)) in
        let held = run_foreign d' h.document_id s cs p stored v (
          subst (λ x. AllForeign h.document_id x s.expires_at cs) (sym holder)
            (subst (λ x. AllForeign h.document_id h.holder x cs) (sym until) f)) in
        let busy = document_held s later v (ground (arith, p s.expires_at)) in
        let (t, made') = new_state_made later ttl' bytes' q in rw (named, made', held, busy) refl
