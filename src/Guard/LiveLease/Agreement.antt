-- ===== src/Guard/LiveLease/Agreement.antt =====
-- The two lease managers, in memory and in Firestore, up to the precision of a Firestore timestamp.
use conclution_ai_teacher.Prelude.Text.{AllBytes, Text, text_eq}
use conclution_ai_teacher.Prelude.{
  ℕ, ◌+◌, ◌<◌, ◌≤◌, ◌≡◌, ◌⊎◌, refl, inl, inr, false, Option, none, some, List, arith, ◌==◌, ltb,
  Bool-cases, Option-cases, length, Result, ok, err, Result-cases,
}
use conclution_ai_teacher.Prelude.Int.{ℤ}
use conclution_ai_teacher.Prelude.Clock.{Time, microsecond}
use conclution_ai_teacher.Guard.Identity.{user_document_id}
use conclution_ai_teacher.Guard.RateLimit.{put}
use conclution_ai_teacher.Guard.LiveLease.{
  VoiceLiveLeaseState, LeaseError, lease_held, Leases, LeaseHandle, acquire, release, released,
  slot_is_free, validate_lease, new_voice_live_lease_state, LeaseDocument,
  validate_voice_live_lease_for_acquire,
}
use conclution_ai_teacher.Guard.LiveLease.Holder.{new-validates}
use conclution_ai_teacher.Guard.LiveLease.{lease_schema, check_active}
use conclution_ai_teacher.Guard.LiveLease.Firestore.{
  Documents, document_of, may_replace, after_release, acquire_firestore, release_firestore,
}

-- What Firestore keeps of a time: the time, rounded down to some multiple of at most a microsecond.
abbrev pub IsKept : (Time → Time) → Type 0
IsKept kept = (t : Time) → (kept t ≤ t) × (t < kept t + microsecond)

module _ (kept : Time → Time) where
  -- The document of a key stores its lease, which is well formed, up to the precision.
  abbrev pub Stores : Option LeaseDocument → Option VoiceLiveLeaseState → Type 0
  Stores none none = Unit {0}
  Stores (some d) (some s) =
      (d ≡ document_of kept s) × (validate_lease s ≡ ok tt) × (0 < kept s.expires_at)
  Stores _ _ = ⊥

  abbrev pub Agree : Documents → Leases → Type 0
  Agree documents leases = (key : ℕ) → Stores (documents key) (leases key)

  -- The lease that the memory holds is in the last moment that Firestore does not keep.
  abbrev pub InLastMicrosecond : Option VoiceLiveLeaseState → Time → Type 0
  InLastMicrosecond none now = ⊥
  InLastMicrosecond (some s) now =
      (now < s.expires_at) × (kept s.expires_at ≤ now) × (s.expires_at < now + microsecond)

  slot-may_replace :
      (d : Option LeaseDocument) (s : Option VoiceLiveLeaseState) (now : Time)
      → IsKept kept
      → Stores d s
      → (may_replace d now ≡ slot_is_free s now)
        ⊎ ((may_replace d now ≡ ok tt)
            × (slot_is_free s now ≡ err lease_held)
            × InLastMicrosecond s now)
  unfolding may_replace slot_is_free validate_voice_live_lease_for_acquire check_active
      validate_lease
  slot-may_replace none none now p a = inl refl
  slot-may_replace none (some s) now p a = absurd a
  slot-may_replace (some d) none now p a = absurd a
  slot-may_replace (some d) (some s) now p a = elim (Bool-cases (ltb now s.expires_at)) [
    | inr e ↦ inl (ground (arith, a, p s.expires_at, e))
    | inl e ↦ elim (Bool-cases (ltb now (kept s.expires_at))) [
      | inl f ↦ inl (ground (arith, a, e, f))
      | inr f ↦ inr (
        ground (arith, a, e, f),
        ground (arith, a, e, f),
        (ground (arith, e), ground (arith, f), ground (arith, p s.expires_at, f)),
      )
    ]
  ]

  slot_refuses :
      (d : Option LeaseDocument) (s : Option VoiceLiveLeaseState) (now : Time) {e : LeaseError}
      → Stores d s
      → slot_is_free s now ≡ err e
      → e ≡ lease_held
  unfolding slot_is_free validate_lease
  slot_refuses none none now a h = cc
  slot_refuses none (some s) now a h = absurd a
  slot_refuses (some d) none now a h = absurd a
  slot_refuses (some d) (some s) now a h = ground (arith, a)

  abbrev pub SameGrant :
      Result LeaseError (Documents × LeaseHandle)
      → Result LeaseError (Leases × LeaseHandle)
      → Type 0
  SameGrant (ok (d, h)) (ok (l, k)) = Agree d l × (h ≡ k)
  SameGrant (err e) (err x) = e ≡ x
  SameGrant _ _ = ⊥

  pub put-Agree :
      (d : Documents) (l : Leases) (key : ℕ) (x : Option LeaseDocument)
      (y : Option VoiceLiveLeaseState)
      → Agree d l
      → Stores x y
      → Agree (put key x d) (put key y l)
  put-Agree d l key x y a s k = elim (Bool-cases (k == key)) [ inl e ↦ rw e s | inr e ↦ rw e (a k) ]

  new-Stores :
      (now : Time) (ttl : ℤ) (bytes : List ℕ) {s : VoiceLiveLeaseState}
      → IsKept kept
      → AllBytes bytes
      → length bytes ≡ 32
      → microsecond ≤ now
      → new_voice_live_lease_state now ttl (some bytes) ≡ ok s
      → Stores (some (document_of kept s)) (some s)
  new-Stores now ttl bytes {s = s} p b n later r =
      let (valid, lasts) = new-validates now ttl bytes b n r in
      (refl, valid, ground (arith, p s.expires_at))

  module _ (digest : Text → ℕ) where
    -- The Firestore manager grants what the memory refuses as held, in the last moment of the lease.
    abbrev pub GrantedEarly :
        Result LeaseError (Documents × LeaseHandle)
        → Result LeaseError (Leases × LeaseHandle)
        → Leases
        → Text
        → Time
        → Type 0
    GrantedEarly firestore memory l uid now =
        (key : ℕ) × (granted : Documents × LeaseHandle) × (user_document_id digest uid ≡ some key)
        × InLastMicrosecond (l key) now
        × (firestore ≡ ok granted)
        × (memory ≡ err lease_held)

    -- Where Firestore rounds a time down by less than a microsecond and the clock is at least a
    -- microsecond, with 32 random bytes, on a Firestore store that holds the same valid leases as
    -- the memory with their expiries so rounded: the two managers answer an acquisition with the
    -- same handle or the same error, and after a grant the stores hold the same valid leases with
    -- their expiries so rounded; or the memory refuses it as held in the last microsecond of the
    -- lease, after its rounded expiry, and the Firestore manager grants it.
    pub acquire-Agree :
        (d : Documents) (l : Leases) (uid : Text) (now : Time) (ttl : ℤ) (bytes : List ℕ)
        → IsKept kept
        → AllBytes bytes
        → length bytes ≡ 32
        → microsecond ≤ now
        → Agree d l
        → SameGrant
            (acquire_firestore digest kept d uid now ttl (some bytes))
            (acquire digest l false uid now ttl (some bytes))
          ⊎ GrantedEarly
              (acquire_firestore digest kept d uid now ttl (some bytes))
              (acquire digest l false uid now ttl (some bytes))
              l
              uid
              now
    unfolding acquire acquire_firestore
    acquire-Agree d l uid now ttl bytes p b n later a =
        elim (Option-cases (user_document_id digest uid)) [
          | inl e ↦ inl (rw (e, acquire, acquire_firestore) refl)
          | inr (key, e) ↦ elim (Result-cases (new_voice_live_lease_state now ttl (some bytes))) [
            | inr (x, r) ↦ inl (rw (e, r, acquire, acquire_firestore) refl)
            | inl (s, r) ↦ elim (slot-may_replace (d key) (l key) now p (a key)) [
              | inr (free, held, last) ↦ inr (
                key,
                (
                  put key (some (document_of kept s)) d,
                  record { document_id = key; holder = s.holder },
                ),
                e,
                last,
                rw (e, r, free) refl,
                rw (e, r, held) refl,
              )
              | inl same ↦ elim (Result-cases (slot_is_free (l key) now)) [
                | inr (x, f) ↦
                    let refused = slot_refuses (d key) (l key) now (a key) f in
                    inl (rw (e, r, same, f, refused, acquire, acquire_firestore) refl)
                | inl (u, f) ↦ inl (
                    rw (e, r, same, f, acquire, acquire_firestore)
                      (put-Agree d l key _ _ a (new-Stores now ttl bytes p b n later r), refl))
              ]
            ]
          ]
        ]

  -- What is kept of a valid lease decodes as a valid lease.
  validates :
      (s : VoiceLiveLeaseState)
      → validate_lease s ≡ ok tt
      → 0 < kept s.expires_at
      → validate_lease (record s { expires_at = kept s.expires_at; schema = lease_schema }) ≡ ok tt
  unfolding validate_lease
  validates s v lasts = ground (arith, lasts)

  after_release-Stores :
      (d : Option LeaseDocument) (s : Option VoiceLiveLeaseState) (holder : Text)
      → Stores d s
      → (d' : Option LeaseDocument) × (after_release d holder ≡ ok d')
        × Stores d' (released s holder)
  unfolding after_release
  after_release-Stores none none holder a = (none, refl, tt)
  after_release-Stores none (some s) holder a = absurd a
  after_release-Stores (some d) none holder a = absurd a
  after_release-Stores (some d) (some s) holder (e, v, lasts) =
      elim (Bool-cases (text_eq s.holder holder)) [
        | inl mine ↦ (none, rw (e, validates s v lasts, mine), rw mine tt)
        | inr theirs ↦ (some d, rw (e, validates s v lasts, theirs), rw theirs (e, v, lasts))
      ]

  -- On a Firestore store that holds the same valid leases as the memory, up to the precision, a
  -- release leaves the two stores with the same valid leases and gives the same answer.
  pub release-Agree :
      (d : Documents) (l : Leases) (h : LeaseHandle)
      → Agree d l
      → Agree (release_firestore d h).0 (release l false h).0
        × ((release_firestore d h).1 ≡ (release l false h).1)
  unfolding release release_firestore
  release-Agree d l h a =
      let (x, e, s) =
        after_release-Stores (d h.document_id) (l h.document_id) h.holder (a h.document_id) in
      rw (e, release_firestore) (put-Agree d l h.document_id _ _ a s, refl)
