-- ===== src/Passkey/Accounts.antt =====
-- internal/passkey/memory_store.go: the ceremonies, and the credentials of the accounts.
use conclution_ai_teacher.Prelude.{
  ℕ, Bool, false, not, ◌&&◌, ◌||◌, if◌then◌else◌, List, [], ◌∷◌, ◌++◌, Option, none, some, length,
  any_of, leb, Result, ok, err, ◌>>=◌, ◌>>◌, fail_if,
}
use conclution_ai_teacher.Prelude.Int.{ℤ, pos, ◌+ℤ◌, eqb_ℤ}
use conclution_ai_teacher.Prelude.Clock.{Time}
use conclution_ai_teacher.Prelude.Text.{Text, Rune, text_eq, string_eq, assign}
use conclution_ai_teacher.Passkey.Store.{
  StoreError, ceremony_invalid, credential_not_found, credential_conflict, credential_state_invalid,
  concurrent_assertion, recovery_code, User, Ceremony, StoredCredential, Digests, max_credentials,
  registration_use, recovery_registration_use, ceremony_matches, credential_reference,
  validate_credential_creation, validate_credential_update,
}
use conclution_ai_teacher.Passkey.Memory.{
  MemoryCredential, MemoryStore, or_error, failing_with, Outcome, on_success, account_key, code_key,
  validate_credential_state, code_in_force, has_handle,
}

module _ (d : Digests) (C : Type 0) (id : C → List ℕ) where
  abbrev key_of : List ℕ → Text
  key_of raw = credential_reference d raw

  abbrev pub placed :
      MemoryStore C → Text → Ceremony → Option Ceremony → Result StoreError (MemoryStore C)
  placed s key r (some _) = err credential_conflict
  placed s key r none = ok (record s { ceremonies = assign key (some r) s.ceremonies })

  unfoldable pub put_ceremony : MemoryStore C → List ℕ → Ceremony → Outcome (MemoryStore C)
  put_ceremony s ceremony_id r =
      on_success s (placed s (key_of ceremony_id) r (s.ceremonies (key_of ceremony_id)))

  -- What is read, after the ceremony is deleted.
  abbrev pub matching : Text → List ℕ → Time → Ceremony → Result StoreError Ceremony
  matching purpose app_id_digest now r =
      if ceremony_matches r purpose app_id_digest now then ok r else err ceremony_invalid

  abbrev pub matching_registration : List ℕ → Time → Ceremony → Result StoreError Ceremony
  matching_registration app_id_digest now r =
      if text_eq r.purpose registration_use || text_eq r.purpose recovery_registration_use
      then matching r.purpose app_id_digest now r
      else err ceremony_invalid

  abbrev pub taken :
      MemoryStore C
      → Text
      → (Ceremony → Result StoreError Ceremony)
      → Option Ceremony
      → MemoryStore C × Result StoreError Ceremony
  taken s key check none = (s, err ceremony_invalid)
  taken s key check (some r) = (record s { ceremonies = assign key none s.ceremonies }, check r)

  unfoldable pub consume_ceremony :
      MemoryStore C → List ℕ → Text → List ℕ → Time → MemoryStore C × Result StoreError Ceremony
  consume_ceremony s ceremony_id purpose app_id_digest now =
      taken s (key_of ceremony_id) (matching purpose app_id_digest now)
        (s.ceremonies (key_of ceremony_id))

  unfoldable pub consume_registration_ceremony :
      MemoryStore C → List ℕ → List ℕ → Time → MemoryStore C × Result StoreError Ceremony
  consume_registration_ceremony s ceremony_id app_id_digest now =
      taken s (key_of ceremony_id) (matching_registration app_id_digest now)
        (s.ceremonies (key_of ceremony_id))

  unfoldable pub load_user_by_uid : MemoryStore C → List Rune → Result StoreError (User C)
  load_user_by_uid s uid = or_error credential_not_found (s.users (account_key d C id uid))

  -- The account that a new credential joins.
  unfoldable pub joined_user :
      MemoryStore C → User C → Time → Option (User C) → Result StoreError (User C)
  joined_user s user now none =
      if any_of (λ key. has_handle d C id user.user_handle (s.users key)) s.accounts
      then err credential_conflict
      else ok (record { uid = user.uid; user_handle = user.user_handle; credentials = [] })
  joined_user s user now (some stored) = do
    fail_if (not (text_eq stored.user_handle user.user_handle)) credential_conflict
    validate_credential_state d C id s stored now
    ok stored

  abbrev free_slot : Option (MemoryCredential C) → Result StoreError (Unit {0})
  free_slot none = ok tt
  free_slot (some _) = err credential_conflict

  abbrev pub first_entry : User C → C → Time → MemoryCredential C
  first_entry user credential now = record {
    uid = user.uid;
    user_handle = user.user_handle;
    credential = credential;
    version = pos 1;
    created_at = now;
    updated_at = now;
  }

  -- The store with a credential that joins the account.
  abbrev pub created : MemoryStore C → User C → C → Time → User C → MemoryStore C
  created s user credential now stored = record s {
    users =
        assign (account_key d C id user.uid)
          (some (record stored { credentials = stored.credentials ++ (credential ∷ []) })) s.users;
    accounts = (account_key d C id user.uid) ∷ s.accounts;
    credentials =
        assign (key_of (id credential)) (some (first_entry user credential now)) s.credentials;
  }

  -- `createCredentialLocked`
  unfoldable pub create_locked :
      MemoryStore C → User C → C → Time → Result StoreError (MemoryStore C)
  create_locked s user credential now =
      let user_key = account_key d C id user.uid in
      do
        free_slot (s.credentials (key_of (id credential)))
        stored ← joined_user s user now (s.users user_key)
        fail_if (leb max_credentials (length stored.credentials)) credential_conflict
        ok (created s user credential now stored)

  unfoldable pub create_credential : MemoryStore C → User C → C → Time → Outcome (MemoryStore C)
  create_credential s user credential now = on_success s (
      validate_credential_creation d C id user credential now
      >> create_locked s user credential now)

  abbrev indexes : Text → Option Text → Bool
  indexes key none = false
  indexes key (some owner) = text_eq owner key

  -- The store after the code was used.
  abbrev pub recovered : MemoryStore C → User C → List ℕ → MemoryStore C
  recovered s user digest = record s {
    recovery_by_code = assign (code_key d C id digest) none s.recovery_by_code;
    recovery = assign (account_key d C id user.uid) none s.recovery;
  }

  unfoldable pub recover_locked :
      MemoryStore C → User C → C → List ℕ → Time → Result StoreError (MemoryStore C)
  recover_locked s user credential digest now =
      let user_key = account_key d C id user.uid in
      do
        failing_with d C id recovery_code (validate_credential_creation d C id user credential now)
        fail_if (not (indexes user_key (s.recovery_by_code (code_key d C id digest)))) recovery_code
        code_in_force d C id (s.recovery user_key) digest now
        s' ← failing_with d C id recovery_code (create_locked s user credential now)
        ok (recovered s' user digest)

  unfoldable pub create_recovery_credential :
      MemoryStore C → User C → C → List ℕ → Time → Outcome (MemoryStore C)
  create_recovery_credential s user credential digest now =
      on_success s (recover_locked s user credential digest now)

  abbrev found_user : List ℕ → List ℕ → MemoryCredential C → Result StoreError (MemoryCredential C)
  found_user raw_id handle m =
      if text_eq (id m.credential) raw_id && text_eq m.user_handle handle
      then ok m
      else err credential_not_found

  unfoldable pub find_credential :
      MemoryStore C → List ℕ → List ℕ → Result StoreError (StoredCredential C)
  find_credential s raw_id handle = do
    m ← or_error credential_not_found (s.credentials (key_of raw_id))
    found_user raw_id handle m
    user ← or_error credential_not_found (s.users (account_key d C id m.uid))
    ok (record { user = user; credential = m.credential; version = m.version })

  -- `user.Credentials[targetIndex] = credential`, at the last reference that is the target.
  unfoldable pub replace_at : Text → C → List C → List C
  replace_at target credential [] = []
  replace_at target credential (c ∷ cs) =
      let rest = replace_at target credential cs in
      if text_eq (key_of (id c)) target && not (any_of (λ x. text_eq (key_of (id x)) target) cs)
      then credential ∷ cs
      else c ∷ rest

  abbrev pub updated :
      MemoryStore C → List ℕ → C → Time → MemoryCredential C → User C → MemoryStore C
  updated s raw_id credential now m user = record s {
    users =
        assign (account_key d C id m.uid)
          (some
            (record user { credentials = replace_at (key_of raw_id) credential user.credentials }))
          s.users;
    credentials =
        assign (key_of raw_id)
          (some
            (record m { credential = credential; version = m.version +ℤ pos 1; updated_at = now }))
          s.credentials;
  }

  unfoldable pub update_locked :
      MemoryStore C → List ℕ → ℤ → C → Time → MemoryCredential C → Result StoreError (MemoryStore C)
  update_locked s raw_id expected_version credential now m = do
    fail_if (not (text_eq (id m.credential) raw_id)) credential_not_found
    fail_if (not (eqb_ℤ m.version expected_version)) concurrent_assertion
    user ← or_error credential_not_found (s.users (account_key d C id m.uid))
    fail_if (not (string_eq user.uid m.uid) || not (text_eq user.user_handle m.user_handle))
        credential_state_invalid
    references ← validate_credential_state d C id s user now
    fail_if (not (any_of (λ r. text_eq r (key_of raw_id)) references)) credential_not_found
    ok (updated s raw_id credential now m user)

  unfoldable pub update_found :
      MemoryStore C → List ℕ → ℤ → C → Time → Result StoreError (MemoryStore C)
  update_found s raw_id expected_version credential now = do
    validate_credential_update d C id raw_id credential now
    m ← or_error credential_not_found (s.credentials (key_of raw_id))
    update_locked s raw_id expected_version credential now m

  unfoldable pub update_credential : MemoryStore C → List ℕ → ℤ → C → Time → Outcome (MemoryStore C)
  update_credential s raw_id expected_version credential now =
      on_success s (update_found s raw_id expected_version credential now)
