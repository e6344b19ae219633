-- ===== src/Guard/LiveLease/Exclusion.antt =====
-- Mutual exclusion over any interleaving of acquisitions and releases.
use conclution_ai_teacher.Prelude.Text.{AllBytes, Text, encode_to_string, text_eq_iff}
use conclution_ai_teacher.Prelude.{
  ℕ, ◌+◌, ◌<◌, ◌≡◌, ap, ◌∙◌, ◌≢◌, ◌⊎◌, inl, inr, Bool, false, Option, some, List, [], ◌∷◌, arith,
  Bool-cases, Option-cases, length, Result, ok, err, Result-cases,
}
use conclution_ai_teacher.Prelude.Int.{ℤ, pos}
use conclution_ai_teacher.Prelude.Clock.{Time}
use conclution_ai_teacher.Guard.Identity.{user_document_id}
use conclution_ai_teacher.Guard.LiveLease.{
  VoiceLiveLeaseState, LeaseError, lease_held, Leases, LeaseHandle, acquire, release, slot_is_free,
  lease_schema, validate_lease, new_voice_live_lease_state,
}
use conclution_ai_teacher.Guard.LiveLease.Holder.{new-validates}

-- A call by any connection; one that fails changes nothing.
pub data Call : Type 0 where
  acquires : Bool → Text → Time → ℤ → Option (List ℕ) → Call
  releases : Bool → LeaseHandle → Call

slot_held :
    (s : VoiceLiveLeaseState) (now : Time)
    → validate_lease s ≡ ok tt
    → now < s.expires_at
    → slot_is_free (some s) now ≡ err lease_held
unfolding slot_is_free validate_lease
slot_held s now v h = ground arith

module _ (digest : Text → ℕ) where
  abbrev keep : Leases → Result LeaseError (Leases × LeaseHandle) → Leases
  keep leases (ok (leases', h)) = leases'
  keep leases (err e) = leases

  unfoldable pub step : Leases → Call → Leases
  step leases (acquires cancelled uid now ttl random) =
      keep leases (acquire digest leases cancelled uid now ttl random)
  step leases (releases cancelled handle) = (release leases cancelled handle).0

  unfoldable pub run : Leases → List Call → Leases
  run leases [] = leases
  run leases (c ∷ cs) = run (step leases c) cs

  -- The call is made before the lease expires, and does not release it.
  abbrev pub IsForeign : ℕ → VoiceLiveLeaseState → Call → Type 0
  IsForeign key s (acquires cancelled uid now ttl random) = now < s.expires_at
  IsForeign key s (releases cancelled h) = (h.document_id ≢ key) ⊎ (h.holder ≢ s.holder)

  abbrev pub AllForeign : ℕ → VoiceLiveLeaseState → List Call → Type 0
  AllForeign key s [] = Unit {0}
  AllForeign key s (c ∷ cs) = IsForeign key s c × AllForeign key s cs

  acquire_held :
      (leases : Leases) (key : ℕ) (s : VoiceLiveLeaseState) (cancelled : Bool) (uid : Text)
      (now : Time) (ttl : ℤ) (random : Option (List ℕ))
      → leases key ≡ some s
      → validate_lease s ≡ ok tt
      → now < s.expires_at
      → keep leases (acquire digest leases cancelled uid now ttl random) key ≡ some s
  unfolding acquire
  acquire_held leases key s cancelled uid now ttl random l v h = elim (Bool-cases cancelled) [
    | inl done ↦ ground arith
    | inr live ↦ elim (Option-cases (user_document_id digest uid)) [
      | inl e ↦ ground arith
      | inr (k, e) ↦ elim (Result-cases (new_voice_live_lease_state now ttl random)) [
        | inr (x, r) ↦ ground arith
        | inl (t, r) ↦ elim (Result-cases (slot_is_free (leases k) now)) [
          | inr (x, f) ↦ ground arith
          | inl (u, f) ↦ ground (arith, slot_held s now v h)
        ]
      ]
    ]
  ]

  step_foreign :
      (leases : Leases) (key : ℕ) (s : VoiceLiveLeaseState) (c : Call)
      → leases key ≡ some s
      → validate_lease s ≡ ok tt
      → IsForeign key s c
      → step leases c key ≡ some s
  unfolding step release
  step_foreign leases key s (acquires cancelled uid now ttl random) l v f =
      acquire_held leases key s cancelled uid now ttl random l v f
  step_foreign leases key s (releases cancelled h) l v f =
      ground (arith, text_eq_iff s.holder h.holder)

  run_foreign :
      (leases : Leases) (key : ℕ) (s : VoiceLiveLeaseState) (cs : List Call)
      → leases key ≡ some s
      → validate_lease s ≡ ok tt
      → AllForeign key s cs
      → run leases cs key ≡ some s
  unfolding run
  run_foreign leases key s [] l v f = l
  run_foreign leases key s (c ∷ cs) l v f =
      run_foreign (step leases c) key s cs (step_foreign leases key s c l v f.0) v f.1

  -- What a successful acquisition stores.
  acquire_stored :
      (leases : Leases) (cancelled : Bool) (uid : Text) (now : Time) (ttl : ℤ) (bytes : List ℕ)
      {leases' : Leases} {h : LeaseHandle}
      → acquire digest leases cancelled uid now ttl (some bytes) ≡ ok (leases', h)
      → (s : VoiceLiveLeaseState) × (leases' h.document_id ≡ some s)
        × (new_voice_live_lease_state now ttl (some bytes) ≡ ok s)
        × (s.holder ≡ h.holder)
        × (user_document_id digest uid ≡ some h.document_id)
  unfolding acquire
  acquire_stored leases cancelled uid now ttl bytes a = elim (Bool-cases cancelled) [
    | inl done ↦ absurd (ground arith)
    | inr live ↦ elim (Option-cases (user_document_id digest uid)) [
      | inl e ↦ absurd (ground arith)
      | inr (k, e) ↦ elim (Result-cases (new_voice_live_lease_state now ttl (some bytes))) [
        | inr (x, r) ↦ absurd (ground arith)
        | inl (t, r) ↦ elim (Result-cases (slot_is_free (leases k) now)) [
          | inr (x, f) ↦ absurd (ground arith)
          | inl (u, f) ↦ (t, ground arith, r, ground arith, ground arith)
        ]
      ]
    ]
  ]

  -- The lease that an acquisition at `now` for `ttl` leaves under a holder.
  abbrev pub lease_until : Text → Time → ℕ → VoiceLiveLeaseState
  lease_until holder now ttl = record {
    holder = holder;
    expires_at = now + ttl;
    schema = lease_schema;
  }

  new_state-eq :
      (now : Time) (ttl : ℕ) (bytes : List ℕ) (s : VoiceLiveLeaseState)
      → new_voice_live_lease_state now (pos ttl) (some bytes) ≡ ok s
      → s ≡ lease_until s.holder now ttl
  unfolding new_voice_live_lease_state
  new_state-eq now ttl bytes s h = ground arith

  new_state_made :
      (now : Time) (ttl : ℕ) (bytes : List ℕ)
      → 0 < ttl
      → (s : VoiceLiveLeaseState) × (new_voice_live_lease_state now (pos ttl) (some bytes) ≡ ok s)
  unfolding new_voice_live_lease_state
  new_state_made now ttl bytes h = (lease_until (encode_to_string bytes) now ttl, ground arith)

  -- After a successful acquisition with 32 random bytes, and after any interleaving of
  -- acquisitions made before its lease expires and of releases that are for another document or
  -- another holder, a further acquisition for the same user before the expiry, with a positive TTL
  -- and random bytes at hand, fails with the error that the lease is held.
  pub acquire-excludes :
      (leases : Leases) (uid : Text) (now : Time) (ttl : ℕ) (bytes : List ℕ) {leases' : Leases}
      {h : LeaseHandle}
      → AllBytes bytes
      → length bytes ≡ 32
      → acquire digest leases false uid now (pos ttl) (some bytes) ≡ ok (leases', h)
      → (cs : List Call) (later : Time) (ttl' : ℕ) (bytes' : List ℕ)
      → AllForeign h.document_id (lease_until h.holder now ttl) cs
      → later < now + ttl
      → 0 < ttl'
      → acquire digest (run leases' cs) false uid later (pos ttl') (some bytes') ≡ err lease_held
  unfolding acquire
  acquire-excludes leases uid now ttl bytes {leases' = l'} {h = h} a b e cs later ttl' bytes' f u
        p =
      let (s, stored, made, holder, named) =
        acquire_stored leases false uid now (pos ttl) bytes e in
      let (valid, _) = new-validates now (pos ttl) bytes a b made in
      let same : s ≡ lease_until h.holder now ttl =
        new_state-eq now ttl bytes s made ∙ ap (λ t. lease_until t now ttl) holder in
      let valid' : validate_lease (lease_until h.holder now ttl) ≡ ok tt = rw (← same) valid in
      let kept =
        run_foreign l' h.document_id (lease_until h.holder now ttl) cs (stored ∙ ap some same)
          valid' f in
      let busy = slot_held (lease_until h.holder now ttl) later valid' u in
      let (t, made') = new_state_made later ttl' bytes' p in rw (named, made', kept, busy)
