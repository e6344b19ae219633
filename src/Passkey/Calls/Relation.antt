-- ===== src/Passkey/Calls/Relation.antt =====
-- The calls as a relation between the store before and the store after.
use conclution_ai_teacher.Prelude.{
  ℕ, ◌≡◌, refl, sym, ap, ◌∙◌, inl, inr, ◌||◌, ◌>>◌, List, Option, none, some, arith, Result, ok,
  err, Result-cases, Bool-cases,
}
use mathlib.Core.Path.{subst}
use conclution_ai_teacher.Prelude.Int.{ℤ}
use conclution_ai_teacher.Prelude.Clock.{Time, is_zero}
use conclution_ai_teacher.Prelude.Text.{Text, Rune, assign, is_empty_string, trim_space}
use conclution_ai_teacher.Passkey.Store.{
  StoreError, User, Ceremony, Digests, credential_reference, validate_credential_creation,
}
use conclution_ai_teacher.Passkey.Memory.{
  MemoryCredential, MemoryStore, on_success, account_key, replaced, replace_checked,
  replace_recovery_code,
}
use conclution_ai_teacher.Passkey.Accounts.{
  placed, put_ceremony, taken, matching, matching_registration, consume_ceremony,
  consume_registration_ceremony, created, create_locked, create_credential, recovered,
  recover_locked, create_recovery_credential, updated, update_found, update_credential,
}
use conclution_ai_teacher.Passkey.Lifecycle.{
  revoked, revoke_found, revoke_credential, erased, marked, delete_locked, delete_account_data,
}
use conclution_ai_teacher.Passkey.Calls.{
  Call, puts_ceremony, consumes, consumes_registration, replaces_code, creates, recovers, updates,
  revokes, deletes, step,
}
use conclution_ai_teacher.Passkey.Calls.Effects.{
  create_locked-created, update_locked-updated, revoke_locked-revoked, delete_locked-erased,
  recover_locked-recovered, update_found-locked, revoke_found-locked, replace_checked-replaced,
}

module _ (d : Digests) (C : Type 0) (id : C → List ℕ) where
  abbrev pub key_of : List ℕ → Text
  key_of raw = credential_reference d raw

  pub data Effect (s : MemoryStore C) : Call C → MemoryStore C → Type 0 where
    kept : (c : Call C) → Effect s c s
    places :
        (ceremony_id : List ℕ) (r : Ceremony)
        → Effect s
            (puts_ceremony ceremony_id r)
            (record s { ceremonies = assign (key_of ceremony_id) (some r) s.ceremonies })
    takes :
        (ceremony_id purpose app : List ℕ) (now : Time)
        → Effect s
            (consumes ceremony_id purpose app now)
            (record s { ceremonies = assign (key_of ceremony_id) none s.ceremonies })
    takes_registration :
        (ceremony_id app : List ℕ) (now : Time)
        → Effect s
            (consumes_registration ceremony_id app now)
            (record s { ceremonies = assign (key_of ceremony_id) none s.ceremonies })
    replaces :
        (uid : List Rune) (digest : List ℕ) (expires_at now : Time)
        → Effect s
            (replaces_code uid digest expires_at now)
            (replaced d C id s (account_key d C id (trim_space uid)) digest expires_at now)
    joins :
        (user : User C) (c : C) (now : Time) (stored : User C)
        → Effect s (creates user c now) (created d C id s user c now stored)
    returns :
        (user : User C) (c : C) (digest : List ℕ) (now : Time) (stored : User C)
        → Effect s
            (recovers user c digest now)
            (recovered d C id (created d C id s user c now stored) user digest)
    advances :
        (raw_id : List ℕ) (expected : ℤ) (c : C) (now : Time) (m : MemoryCredential C)
        (user : User C)
        → s.credentials (key_of raw_id) ≡ some m
        → m.version ≡ expected
        → Effect s (updates raw_id expected c now) (updated d C id s raw_id c now m user)
    loses :
        (uid : List Rune) (reference : Text) (now : Time) (user : User C)
        → Effect s (revokes uid reference now) (revoked d C id s uid reference user)
    ends :
        (uid : List Rune) (now : Time) (references : List Text)
        → Effect s (deletes uid now) (erased d C id s uid now references)

  on_success-Effect :
      (s : MemoryStore C) (c : Call C) (r : Result StoreError (MemoryStore C))
      → ((s' : MemoryStore C) → r ≡ ok s' → Effect s c s')
      → Effect s c (on_success s r).0
  on_success-Effect s c (ok s') f = f s' refl
  on_success-Effect s c (err e) f = kept c

  placed-Effect :
      (s : MemoryStore C) (ceremony_id : List ℕ) (r : Ceremony) (found : Option Ceremony)
      → Effect s
          (puts_ceremony ceremony_id r)
          (on_success s (placed d C id s (key_of ceremony_id) r found)).0
  placed-Effect s ceremony_id r none = places ceremony_id r
  placed-Effect s ceremony_id r (some _) = kept (puts_ceremony ceremony_id r)

  taken-Effect :
      (s : MemoryStore C) (c : Call C) (key : Text) (check : Ceremony → Result StoreError Ceremony)
      (found : Option Ceremony)
      → Effect s c (record s { ceremonies = assign key none s.ceremonies })
      → Effect s c (taken d C id s key check found).0
  taken-Effect s c key check none e = kept c
  taken-Effect s c key check (some _) e = e

  delete-Effect :
      (s : MemoryStore C) (uid : List Rune) (now : Time)
      → Effect s (deletes uid now) (delete_account_data d C id s uid now).0
  unfolding delete_account_data
  delete-Effect s uid now = elim (Bool-cases (is_empty_string uid || is_zero now)) [
    | inl e ↦ rw e (kept (deletes uid now))
    | inr e ↦ elim (Bool-cases (marked d C id (s.deleted (account_key d C id uid)))) [
      | inl m ↦ rw (e, m) (kept (deletes uid now))
      | inr m ↦
          rw (e, m)
            (on_success-Effect s (deletes uid now) (delete_locked d C id s uid now) (λ s' h.
              let (references, same) = delete_locked-erased d C id s uid now h in
              subst (Effect s (deletes uid now)) (sym same) (ends uid now references)))
    ]
  ]

  create-Effect :
      (s : MemoryStore C) (user : User C) (c : C) (now : Time)
      → Effect s (creates user c now) (create_credential d C id s user c now).0
  unfolding create_credential
  create-Effect s user c now =
      on_success-Effect s (creates user c now)
        (validate_credential_creation d C id user c now >> create_locked d C id s user c now)
        (λ s' h. elim (Result-cases (validate_credential_creation d C id user c now)) [
          | inr (x, v) ↦ absurd (ground arith)
          | inl (u, v) ↦
              let (stored, _, _, _, same) =
                create_locked-created d C id s user c now {s' = s'} (ground arith) in
              subst (Effect s (creates user c now)) (sym same) (joins user c now stored)
        ])

  recover-Effect :
      (s : MemoryStore C) (user : User C) (c : C) (digest : List ℕ) (now : Time)
      → Effect s
          (recovers user c digest now)
          (create_recovery_credential d C id s user c digest now).0
  unfolding create_recovery_credential
  recover-Effect s user c digest now =
      on_success-Effect s (recovers user c digest now) (recover_locked d C id s user c digest now)
        (λ s' h.
          let (s'', made, same) = recover_locked-recovered d C id s user c digest now h in
          let (stored, _, _, _, joined) = create_locked-created d C id s user c now made in
          subst (Effect s (recovers user c digest now))
            (sym (same ∙ ap (λ x. recovered d C id x user digest) joined))
            (returns user c digest now stored))

  update-Effect :
      (s : MemoryStore C) (raw_id : List ℕ) (expected : ℤ) (c : C) (now : Time)
      → Effect s
          (updates raw_id expected c now)
          (update_credential d C id s raw_id expected c now).0
  unfolding update_credential
  update-Effect s raw_id expected c now =
      on_success-Effect s (updates raw_id expected c now)
        (update_found d C id s raw_id expected c now)
        (λ s' h.
          let (m, found, made) = update_found-locked d C id s raw_id expected c now h in
          let (user, _, version, same) =
            update_locked-updated d C id s raw_id expected c now m made in
          subst (Effect s (updates raw_id expected c now)) (sym same)
            (advances raw_id expected c now m user found version))

  revoke-Effect :
      (s : MemoryStore C) (uid : List Rune) (reference : Text) (now : Time)
      → Effect s (revokes uid reference now) (revoke_credential d C id s uid reference now).0
  unfolding revoke_credential
  revoke-Effect s uid reference now =
      on_success-Effect s (revokes uid reference now) (revoke_found d C id s uid reference now)
        (λ s' h.
          let (user, references, _, _, made) = revoke_found-locked d C id s uid reference now h in
          let (_, same) = revoke_locked-revoked d C id s uid reference user references made in
          subst (Effect s (revokes uid reference now)) (sym same) (loses uid reference now user))

  replace-Effect :
      (s : MemoryStore C) (uid : List Rune) (digest : List ℕ) (expires_at now : Time)
      → Effect s
          (replaces_code uid digest expires_at now)
          (replace_recovery_code d C id s uid digest expires_at now).0
  unfolding replace_recovery_code
  replace-Effect s uid digest expires_at now =
      on_success-Effect s (replaces_code uid digest expires_at now)
        (replace_checked d C id s (trim_space uid) digest expires_at now)
        (λ s' h.
          subst (Effect s (replaces_code uid digest expires_at now))
            (sym (replace_checked-replaced d C id s (trim_space uid) digest expires_at now h))
            (replaces uid digest expires_at now))

  pub step-Effect : (s : MemoryStore C) (c : Call C) → Effect s c (step d C id s c)
  unfolding step put_ceremony consume_ceremony consume_registration_ceremony
  step-Effect s (puts_ceremony key r) = placed-Effect s key r (s.ceremonies (key_of key))
  step-Effect s (consumes key purpose app now) =
      taken-Effect s (consumes key purpose app now) (key_of key) (matching d C id purpose app now)
        (s.ceremonies (key_of key)) (takes key purpose app now)
  step-Effect s (consumes_registration key app now) =
      taken-Effect s (consumes_registration key app now) (key_of key)
        (matching_registration d C id app now) (s.ceremonies (key_of key))
        (takes_registration key app now)
  step-Effect s (replaces_code uid digest expires_at now) =
      replace-Effect s uid digest expires_at now
  step-Effect s (creates user c now) = create-Effect s user c now
  step-Effect s (recovers user c digest now) = recover-Effect s user c digest now
  step-Effect s (updates raw_id version c now) = update-Effect s raw_id version c now
  step-Effect s (revokes uid reference now) = revoke-Effect s uid reference now
  step-Effect s (deletes uid now) = delete-Effect s uid now
