-- ===== src/Passkey/Memory.antt =====
-- internal/passkey/memory_store.go. A Go map is a function into Option; `accounts` lists the keys that
-- `users` has had, in the order in which a range over it visits them. Copies are values.
use conclution_ai_teacher.Prelude.{
  ℕ, ◌+◌, Bool, true, false, not, ◌&&◌, ◌||◌, if◌then◌else◌, List, [], ◌∷◌, Option, none, some,
  length, ◌==◌, Result, ok, err, ◌>>=◌, ◌>>◌, fail_if,
}
use conclution_ai_teacher.Prelude.Int.{ℤ, pos, ltb_ℤ}
use conclution_ai_teacher.Prelude.Clock.{Time, is_zero, after, before}
use conclution_ai_teacher.Prelude.Text.{
  Text, Rune, text_eq, string_eq, utf8, trim_space, is_empty, is_empty_string, assign,
}
use conclution_ai_teacher.Passkey.Store.{
  StoreError, credential_not_found, credential_conflict, credential_state_invalid, recovery_code,
  User, Ceremony, Digests, recovery_code_ttl, credential_reference, credential_references,
  new_credential_summary,
}

pub record MemoryCredential (C : Type 0) : Type 0 where
  pub uid : List Rune
  pub user_handle : List ℕ
  pub credential : C
  pub version : ℤ
  pub created_at : Time
  pub updated_at : Time

pub record MemoryRecoveryCode : Type 0 where
  pub digest : List ℕ
  pub expires_at : Time
  pub issued_at : Time

pub record MemoryStore (C : Type 0) : Type 0 where
  pub ceremonies : Text → Option Ceremony
  pub users : Text → Option (User C)
  pub accounts : List Text
  pub credentials : Text → Option (MemoryCredential C)
  pub deleted : Text → Option Time
  pub recovery : Text → Option MemoryRecoveryCode
  pub recovery_by_code : Text → Option Text

abbrev pub or_error {ℓ} : {E A : Type ℓ} → E → Option A → Result E A
or_error e none = err e
or_error e (some a) = ok a

abbrev is_some {ℓ} : {A : Type ℓ} → Option A → Bool
is_some none = false
is_some (some _) = true

-- What a method returns when it changed the store only on success.
abbrev pub Outcome : Type 0 → Type 0
Outcome S = S × Result StoreError (Unit {0})

abbrev pub on_success : {S : Type 0} → S → Result StoreError S → Outcome S
on_success s (ok s') = (s', ok tt)
on_success s (err e) = (s, err e)

module _ (d : Digests) (C : Type 0) (id : C → List ℕ) where
  abbrev pub Store : Type 0
  Store = MemoryStore C

  unfoldable pub new_memory_store : Store
  new_memory_store = record {
    ceremonies = λ _. none;
    users = λ _. none;
    accounts = [];
    credentials = λ _. none;
    deleted = λ _. none;
    recovery = λ _. none;
    recovery_by_code = λ _. none;
  }

  -- `documentID([]byte(uid))` and `recoveryCodeDocumentID(digest)`.
  unfoldable pub account_key : List Rune → Text
  account_key uid = credential_reference d (utf8 uid)

  abbrev pub code_key : List ℕ → Text
  code_key digest = d.encode digest

  -- One round of the loop of `validateCredentialStateLocked`.
  unfoldable pub validate_indexed :
      User C → Time → C → Option (MemoryCredential C) → Result StoreError (Unit {0})
  validate_indexed user next_update c none = err credential_state_invalid
  validate_indexed user next_update c (some m) = do
    fail_if
        (not (string_eq m.uid user.uid)
          || not (text_eq m.user_handle user.user_handle)
          || not (text_eq (id m.credential) (id c))
          || not
              (text_eq (credential_reference d (id m.credential)) (credential_reference d (id c)))
          || ltb_ℤ m.version (pos 1))
        credential_state_invalid
    new_credential_summary d (credential_reference d (id c)) m.created_at m.updated_at
    fail_if (not (is_zero next_update) && before next_update m.updated_at) credential_state_invalid

  unfoldable pub validate_all : Store → User C → Time → List C → Result StoreError (Unit {0})
  validate_all s user next_update [] = ok tt
  validate_all s user next_update (c ∷ cs) =
      let rest = validate_all s user next_update cs in
      validate_indexed user next_update c (s.credentials (credential_reference d (id c))) >> rest

  unfoldable pub validate_credential_state : Store → User C → Time → Result StoreError (List Text)
  validate_credential_state s user next_update = do
    fail_if (is_empty_string user.uid || is_empty user.user_handle) credential_state_invalid
    references ← credential_references d C id user.credentials
    validate_all s user next_update user.credentials
    ok references

  -- `user == nil || user.UID != uid`
  unfoldable pub owned_user : List Rune → Option (User C) → Result StoreError (User C)
  owned_user uid none = err credential_not_found
  owned_user uid (some user) = if string_eq user.uid uid then ok user else err credential_not_found

  abbrev owned_by_other : Text → Option Text → Bool
  owned_by_other key none = false
  owned_by_other key (some owner) = not (text_eq owner key)

  abbrev pub drop_code : (Text → Option Text) → Option MemoryRecoveryCode → Text → Option Text
  drop_code index none = index
  drop_code index (some previous) = assign (code_key previous.digest) none index

  abbrev pub replaced : MemoryStore C → Text → List ℕ → Time → Time → MemoryStore C
  replaced s key digest expires_at now = record s {
    recovery =
        assign key (some (record { digest = digest; expires_at = expires_at; issued_at = now }))
          s.recovery;
    recovery_by_code =
        assign (code_key digest) (some key) (drop_code s.recovery_by_code (s.recovery key));
  }

  -- `ReplaceRecoveryCode` for the trimmed uid.
  unfoldable pub replace_checked :
      MemoryStore C → List Rune → List ℕ → Time → Time → Result StoreError (MemoryStore C)
  replace_checked s uid digest expires_at now = do
    fail_if
        (is_empty_string uid
          || is_zero now
          || not (after expires_at now)
          || after expires_at (now + recovery_code_ttl))
        recovery_code
    user ← owned_user uid (s.users (account_key uid))
    validate_credential_state s user now
    fail_if (owned_by_other (account_key uid) (s.recovery_by_code (code_key digest)))
        credential_conflict
    ok (replaced s (account_key uid) digest expires_at now)

  unfoldable pub replace_recovery_code :
      MemoryStore C → List Rune → List ℕ → Time → Time → Outcome (MemoryStore C)
  unfolding trim_space
  replace_recovery_code s uid digest expires_at now =
      on_success s (replace_checked s (trim_space uid) digest expires_at now)

  -- The recovery code of an account, if the digest is that of a code in force.
  unfoldable pub code_in_force :
      Option MemoryRecoveryCode → List ℕ → Time → Result StoreError (Unit {0})
  code_in_force none digest now = err recovery_code
  code_in_force (some r) digest now =
      fail_if
        (not (text_eq r.digest digest)
          || not (after r.expires_at now)
          || is_zero r.issued_at
          || not (after r.expires_at r.issued_at))
        recovery_code

  abbrev pub failing_with : {A : Type 0} → StoreError → Result StoreError A → Result StoreError A
  failing_with e (ok a) = ok a
  failing_with e (err _) = err e

  unfoldable pub load_recovery_user : Store → List ℕ → Time → Result StoreError (User C)
  load_recovery_user s digest now = do
    fail_if (is_zero now) recovery_code
    key ← or_error recovery_code (s.recovery_by_code (code_key digest))
    code_in_force (s.recovery key) digest now
    user ← or_error recovery_code (s.users key)
    failing_with recovery_code (validate_credential_state s user now)
    ok user

  abbrev pub has_handle : List ℕ → Option (User C) → Bool
  has_handle handle none = false
  has_handle handle (some user) = text_eq user.user_handle handle

  abbrev is_principal : List ℕ → List ℕ → Option (User C) → Bool
  is_principal handle principal none = false
  is_principal handle principal (some user) =
      text_eq user.user_handle handle && text_eq (d.sha256 (utf8 user.uid)) principal

  -- The loop of `LoadRecoveryUserByHandle`.
  unfoldable pub first_principal : Store → List ℕ → List ℕ → List Text → Result StoreError (User C)
  first_principal s handle principal [] = err recovery_code
  first_principal s handle principal (key ∷ keys) =
      let rest = first_principal s handle principal keys in
      if is_principal handle principal (s.users key)
      then or_error recovery_code (s.users key)
      else rest

  unfoldable pub load_recovery_user_by_handle :
      Store → List ℕ → List ℕ → Time → Result StoreError (User C)
  load_recovery_user_by_handle s handle principal now = do
    fail_if (is_empty handle || not (length principal == 32) || is_zero now) recovery_code
    user ← first_principal s handle principal s.accounts
    failing_with recovery_code (validate_credential_state s user now)
    ok user
