-- ===== src/Passkey/Calls/Versions.antt =====
-- The version of a credential orders its updates.
use conclution_ai_teacher.Prelude.{
  ℕ, ◌≡◌, ◌≢◌, refl, sym, ap, ◌∙◌, inl, inr, List, [], ◌∷◌, Option, none, some, arith, ok, err,
  Result-cases, Bool-cases,
}
use mathlib.Core.Path.{subst}
use conclution_ai_teacher.Prelude.Int.{ℤ, pos, ◌+ℤ◌, ◌<ℤ◌}
use conclution_ai_teacher.Prelude.Clock.{Time}
use conclution_ai_teacher.Prelude.Text.{
  Text, text_eq, text_eq_iff, assign, assign_other, assign_same,
}
use conclution_ai_teacher.Passkey.Store.{StoreError, Digests, credential_reference}
use conclution_ai_teacher.Passkey.Memory.{MemoryCredential, MemoryStore}
use conclution_ai_teacher.Passkey.Accounts.{first_entry, update_found, update_credential}
use conclution_ai_teacher.Passkey.Lifecycle.{without}
use conclution_ai_teacher.Passkey.Calls.{Call, creates, recovers, step, run}
use conclution_ai_teacher.Passkey.Calls.Effects.{
  on_success_ok, update_found-locked, update_locked-updated,
}
use conclution_ai_teacher.Passkey.Calls.Relation.{
  key_of, Effect, kept, places, takes, takes_registration, replaces, joins, returns, advances,
  loses, ends, step-Effect,
}

-- What is stored, if anything, has a later version.
abbrev PastEntry : {C : Type 0} → ℤ → Option (MemoryCredential C) → Type 0
PastEntry v none = Unit {0}
PastEntry v (some m) = v <ℤ m.version

module _ (d : Digests) (C : Type 0) (id : C → List ℕ) where
  -- No call creates a credential under the key.
  abbrev NotCreated : Text → Call C → Type 0
  NotCreated key (creates user c now) = key_of d C id (id c) ≢ key
  NotCreated key (recovers user c digest now) = key_of d C id (id c) ≢ key
  NotCreated key _ = Unit {0}

  abbrev pub NoneCreated : Text → List (Call C) → Type 0
  NoneCreated key [] = Unit {0}
  NoneCreated key (c ∷ cs) = NotCreated key c × NoneCreated key cs

  removed-Past :
      (v : ℤ) (key removed : Text) (m : Text → Option (MemoryCredential C))
      → PastEntry v (m key)
      → PastEntry v (assign removed none m key)
  removed-Past v key removed m h = elim (Bool-cases (text_eq key removed)) [
    | inl e ↦ rw e tt
    | inr e ↦ rw e h
  ]

  without-Past :
      (v : ℤ) (key : Text) (references : List Text) (m : Text → Option (MemoryCredential C))
      → PastEntry v (m key)
      → PastEntry v (without d C id references m key)
  unfolding without
  without-Past v key [] m h = h
  without-Past v key (reference ∷ references) m h =
      without-Past v key references (assign reference none m) (removed-Past v key reference m h)

  advanced-Past :
      (v : ℤ) (key raw : Text) (entries : Text → Option (MemoryCredential C))
      (m m' : MemoryCredential C)
      → entries raw ≡ some m
      → m'.version ≡ m.version +ℤ pos 1
      → PastEntry v (entries key)
      → PastEntry v (assign raw (some m') entries key)
  advanced-Past v key raw entries m m' f same h = elim (Bool-cases (text_eq key raw)) [
    | inl e ↦
        let found : entries key ≡ some m = ap entries ((text_eq_iff key raw).0 e) ∙ f in
        let old : PastEntry v (some m) = subst (PastEntry v) found h in
        rw e (subst (λ x. v <ℤ x) (sym same) (grind (arith, old)))
    | inr e ↦ rw e h
  ]

  other-Past :
      (v : ℤ) (key raw : Text) (entries : Text → Option (MemoryCredential C))
      (m : MemoryCredential C)
      → raw ≢ key
      → PastEntry v (entries key)
      → PastEntry v (assign raw (some m) entries key)
  other-Past v key raw entries m n h =
      subst (PastEntry v) (sym (assign_other raw key (some m) entries n)) h

  Effect-Past :
      {s s' : MemoryStore C} {c : Call C} (v : ℤ) (key : Text)
      → Effect d C id s c s'
      → NotCreated key c
      → PastEntry v (s.credentials key)
      → PastEntry v (s'.credentials key)
  Effect-Past v key (kept c) n h = h
  Effect-Past v key (places ceremony_id r) n h = h
  Effect-Past v key (takes ceremony_id purpose app now) n h = h
  Effect-Past v key (takes_registration ceremony_id app now) n h = h
  Effect-Past v key (replaces uid digest expires_at now) n h = h
  Effect-Past {s = s} v key (joins user c now stored) n h =
      other-Past v key (key_of d C id (id c)) s.credentials (first_entry d C id user c now) n h
  Effect-Past {s = s} v key (returns user c digest now stored) n h =
      other-Past v key (key_of d C id (id c)) s.credentials (first_entry d C id user c now) n h
  Effect-Past {s = s} v key (advances raw_id expected c now m user f w) n h =
      advanced-Past v key (key_of d C id raw_id) s.credentials m
        (record m { credential = c; version = m.version +ℤ pos 1; updated_at = now }) f refl h
  Effect-Past {s = s} v key (loses uid reference now user) n h =
      removed-Past v key reference s.credentials h
  Effect-Past {s = s} v key (ends uid now references) n h =
      without-Past v key references s.credentials h

  run-Past :
      (s : MemoryStore C) (cs : List (Call C)) (v : ℤ) (key : Text)
      → NoneCreated key cs
      → PastEntry v (s.credentials key)
      → PastEntry v ((run d C id s cs).credentials key)
  unfolding run
  run-Past s [] v key n h = h
  run-Past s (c ∷ cs) v key n h =
      run-Past (step d C id s c) cs v key n.1 (Effect-Past v key (step-Effect d C id s c) n.0 h)

  -- What a successful update found and left.
  update-Past :
      (s : MemoryStore C) (raw_id : List ℕ) (v : ℤ) (c : C) (now : Time)
      → (update_credential d C id s raw_id v c now).1 ≡ ok tt
      → PastEntry v (
          (update_credential d C id s raw_id v c now).0.credentials (credential_reference d raw_id))
  unfolding update_credential
  update-Past s raw_id v c now h =
      let (s', made, same) = on_success_ok d C id s (update_found d C id s raw_id v c now) h in
      let (m, found, locked) = update_found-locked d C id s raw_id v c now made in
      let (user, _, version, left) = update_locked-updated d C id s raw_id v c now m locked in
      subst (λ x. PastEntry v (x.credentials (credential_reference d raw_id))) (sym (same ∙ left))
        (subst (PastEntry v)
          (sym (
            assign_same (credential_reference d raw_id)
              (some (record m { credential = c; version = m.version +ℤ pos 1; updated_at = now }))
              s.credentials))
          (grind (arith, version)))

  past_refused :
      (s : MemoryStore C) (raw_id : List ℕ) (v : ℤ) (c : C) (now : Time)
      → PastEntry v (s.credentials (credential_reference d raw_id))
      → (e : StoreError) × (update_credential d C id s raw_id v c now ≡ (s, err e))
  unfolding update_credential
  past_refused s raw_id v c now h = elim (Result-cases (update_found d C id s raw_id v c now)) [
    | inr (e, f) ↦ (e, rw f refl)
    | inl (s', made) ↦
        let (m, found, locked) = update_found-locked d C id s raw_id v c now made in
        let (_, _, version, _) = update_locked-updated d C id s raw_id v c now m locked in
        let past : v <ℤ m.version = subst (PastEntry v) found h in
        absurd (grind (arith, past, version))
  ]

  -- Of the updates of a credential that expect the same version, one succeeds at most: after it,
  -- and after any calls that create no credential with the same reference, every other fails and
  -- changes nothing, even where the credential was revoked or its account deleted meanwhile.
  pub update-once :
      (s : MemoryStore C) (raw_id : List ℕ) (v : ℤ) (c c' : C) (now now' : Time)
      (cs : List (Call C))
      → (update_credential d C id s raw_id v c now).1 ≡ ok tt
      → NoneCreated (credential_reference d raw_id) cs
      → (e : StoreError) × (update_credential d C id
            (run d C id (update_credential d C id s raw_id v c now).0 cs)
            raw_id
            v
            c'
            now'
          ≡ (run d C id (update_credential d C id s raw_id v c now).0 cs, err e))
  update-once s raw_id v c c' now now' cs h n =
      let s' = (update_credential d C id s raw_id v c now).0 in
      past_refused (run d C id s' cs) raw_id v c' now'
        (run-Past s' cs v (credential_reference d raw_id) n (update-Past s raw_id v c now h))
