-- ===== src/Passkey/Lifecycle.antt =====
-- internal/passkey/memory_store.go: the list of an account's credentials, their revocation, and the
-- deletion of the account.
use conclution_ai_teacher.Prelude.{
  Bool, true, false, not, ◌&&◌, ◌||◌, List, [], ◌∷◌, Option, none, some, length, any_of, ◌==◌,
  Result, ok, err, ◌>>=◌, ◌>>◌, fail_if, ℕ, if◌then◌else◌,
}
use conclution_ai_teacher.Prelude.Clock.{Time, is_zero}
use conclution_ai_teacher.Prelude.Text.{Text, Rune, text_eq, assign, is_empty_string}
use conclution_ai_teacher.Passkey.Store.{
  StoreError, credential_not_found, credential_state_invalid, last_credential, User,
  CredentialSummary, Digests, credential_reference, parse_credential_reference,
  new_credential_summary,
}
use conclution_ai_teacher.Passkey.Memory.{
  MemoryCredential, MemoryStore, or_error, Outcome, on_success, account_key, drop_code,
  validate_credential_state, owned_user,
}

module _ (d : Digests) (C : Type 0) (id : C → List ℕ) where
  unfoldable pub summaries : MemoryStore C → List Text → Result StoreError (List CredentialSummary)
  summaries s [] = ok []
  summaries s (reference ∷ references) =
      let rest = summaries s references in
      do
        m ← or_error credential_state_invalid (s.credentials reference)
        summary ← new_credential_summary d reference m.created_at m.updated_at
        later ← rest
        ok (summary ∷ later)

  unfoldable pub list_credentials :
      MemoryStore C → List Rune → Result StoreError (List CredentialSummary)
  list_credentials s uid = do
    user ← owned_user d C id uid (s.users (account_key d C id uid))
    references ← validate_credential_state d C id s user 0
    summaries s references

  -- The credentials other than the one at `targetIndex`, the last reference that is the target.
  unfoldable pub remaining : Text → List C → List C
  remaining target [] = []
  remaining target (c ∷ cs) =
      let rest = remaining target cs in
      if text_eq (credential_reference d (id c)) target
        && not (any_of (λ x. text_eq (credential_reference d (id x)) target) cs)
      then cs
      else c ∷ rest

  abbrev pub revoked : MemoryStore C → List Rune → Text → User C → MemoryStore C
  revoked s uid reference user = record s {
    users =
        assign (account_key d C id uid)
          (some (record user { credentials = remaining reference user.credentials })) s.users;
    credentials = assign reference none s.credentials;
  }

  unfoldable pub revoke_locked :
      MemoryStore C → List Rune → Text → User C → List Text → Result StoreError (MemoryStore C)
  revoke_locked s uid reference user references = do
    fail_if (not (any_of (λ r. text_eq r reference) references)) credential_not_found
    fail_if (length references == 1) last_credential
    ok (revoked s uid reference user)

  unfoldable pub revoke_found :
      MemoryStore C → List Rune → Text → Time → Result StoreError (MemoryStore C)
  revoke_found s uid reference now = do
    parse_credential_reference d reference
    fail_if (is_zero now) credential_state_invalid
    user ← owned_user d C id uid (s.users (account_key d C id uid))
    references ← validate_credential_state d C id s user now
    revoke_locked s uid reference user references

  unfoldable pub revoke_credential :
      MemoryStore C → List Rune → Text → Time → Outcome (MemoryStore C)
  revoke_credential s uid reference now = on_success s (revoke_found s uid reference now)

  unfoldable pub without :
      List Text → (Text → Option (MemoryCredential C)) → Text → Option (MemoryCredential C)
  without [] m = m
  without (reference ∷ references) m = without references (assign reference none m)

  abbrev pub marked : Option Time → Bool
  marked none = false
  marked (some _) = true

  abbrev pub erased : MemoryStore C → List Rune → Time → List Text → MemoryStore C
  erased s uid now references = record s {
    recovery_by_code = drop_code d C id s.recovery_by_code (s.recovery (account_key d C id uid));
    recovery = assign (account_key d C id uid) none s.recovery;
    credentials = without references s.credentials;
    users = assign (account_key d C id uid) none s.users;
    deleted = assign (account_key d C id uid) (some now) s.deleted;
  }

  unfoldable pub delete_locked :
      MemoryStore C → List Rune → Time → Result StoreError (MemoryStore C)
  delete_locked s uid now =
      let key = account_key d C id uid in
      do
        user ← owned_user d C id uid (s.users key)
        references ← validate_credential_state d C id s user now
        ok (erased s uid now references)

  unfoldable pub delete_account_data : MemoryStore C → List Rune → Time → Outcome (MemoryStore C)
  delete_account_data s uid now =
      if is_empty_string uid || is_zero now
      then (s, err credential_state_invalid)
      else if marked (s.deleted (account_key d C id uid))
      then (s, ok tt)
      else on_success s (delete_locked s uid now)
