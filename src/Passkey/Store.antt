-- ===== src/Passkey/Store.antt =====
-- internal/passkey/store.go: what a store of passkeys holds, and the checks that every store makes.
-- `C` is a credential of the WebAuthn library, `id` its field ID. SHA-256 and base64 are fields of
-- `Digests`.
use conclution_ai_teacher.Prelude.{
  ℕ, ◌*◌, Bool, false, not, ◌&&◌, ◌||◌, List, [], ◌∷◌, Option, none, some, length, any_of, ltb,
  ◌==◌, Result, ok, err, ◌>>=◌, ◌>>◌, fail_if,
}
use conclution_ai_teacher.Prelude.Int.{ℤ}
use conclution_ai_teacher.Prelude.Clock.{Time, day, is_zero, after, before}
use conclution_ai_teacher.Prelude.Text.{Text, Rune, text_eq, is_empty, is_empty_string}

pub data StoreError : Type 0 where
  ceremony_invalid credential_not_found credential_conflict credential_reference_invalid
        credential_state_invalid last_credential concurrent_assertion recovery_code :
      StoreError

pub record User (C : Type 0) : Type 0 where
  pub uid : List Rune
  pub user_handle : List ℕ
  pub credentials : List C

pub record Ceremony : Type 0 where
  pub purpose : Text
  pub app_id_digest : List ℕ
  pub principal_digest : List ℕ
  pub recovery_code_digest : List ℕ
  pub target_uid : List Rune
  pub user_handle : List ℕ
  pub session_json : List ℕ
  pub expires_at : Time
  pub created_at : Time

pub record StoredCredential (C : Type 0) : Type 0 where
  pub user : User C
  pub credential : C
  pub version : ℤ

pub record CredentialSummary : Type 0 where
  pub reference : Text
  pub created_at : Time
  pub last_used_at : Time

pub record Digests : Type 0 where
  pub sha256 : List ℕ → List ℕ
  -- base64.RawURLEncoding, strict.
  pub encode : List ℕ → Text
  pub decode : Text → Option (List ℕ)

abbrev pub max_credentials : ℕ
max_credentials = 8

abbrev pub recovery_code_ttl : ℕ
recovery_code_ttl = 30 * day

-- "registration-v1" and "recovery-registration-v1"
abbrev pub registration_use : Text
registration_use =
    b'r' ∷ b'e' ∷ b'g' ∷ b'i' ∷ b's' ∷ b't' ∷ b'r' ∷ b'a' ∷ b't' ∷ b'i' ∷ b'o' ∷ b'n' ∷ b'-' ∷ b'v'
    ∷ b'1' ∷ []

abbrev pub recovery_registration_use : Text
recovery_registration_use =
    b'r' ∷ b'e' ∷ b'c' ∷ b'o' ∷ b'v' ∷ b'e' ∷ b'r' ∷ b'y' ∷ b'-' ∷ registration_use

unfoldable pub validate_lifecycle_time_progression :
    Time → Time → Time → Result StoreError (Unit {0})
validate_lifecycle_time_progression created_at updated_at next_updated_at =
    fail_if
      (is_zero created_at
        || is_zero updated_at
        || is_zero next_updated_at
        || before updated_at created_at
        || before next_updated_at updated_at)
      credential_state_invalid

unfoldable pub ceremony_matches : Ceremony → Text → List ℕ → Time → Bool
ceremony_matches r purpose app_id_digest now =
    text_eq r.purpose purpose && after r.expires_at now && text_eq r.app_id_digest app_id_digest

module _ (d : Digests) where
  -- `credentialReference` and `documentID`.
  unfoldable pub credential_reference : List ℕ → Text
  credential_reference raw = d.encode (d.sha256 raw)

  unfoldable pub credential_reference_for_raw_id : List ℕ → Result StoreError Text
  credential_reference_for_raw_id raw_id = do
    fail_if (is_empty raw_id) credential_reference_invalid
    ok (credential_reference raw_id)

  abbrev is_digest : Text → Option (List ℕ) → Bool
  is_digest value none = false
  is_digest value (some bytes) = length bytes == 32 && text_eq (d.encode bytes) value

  unfoldable pub parse_credential_reference : Text → Result StoreError Text
  parse_credential_reference value = do
    fail_if (not (length value == 43) || not (is_digest value (d.decode value)))
        credential_reference_invalid
    ok value

  abbrev parses : Result StoreError Text → Text → Bool
  parses (ok parsed) reference = text_eq parsed reference
  parses (err _) reference = false

  unfoldable pub new_credential_summary : Text → Time → Time → Result StoreError CredentialSummary
  new_credential_summary reference created_at last_used_at = do
    fail_if
        (not (parses (parse_credential_reference reference) reference)
          || is_zero created_at
          || is_zero last_used_at
          || before last_used_at created_at)
        credential_state_invalid
    ok (record { reference = reference; created_at = created_at; last_used_at = last_used_at })

  module _ (C : Type 0) (id : C → List ℕ) where
    -- The loop of `credentialReferences`, with the references seen.
    unfoldable pub reference_list : List Text → List C → Result StoreError (List Text)
    reference_list seen [] = ok []
    reference_list seen (c ∷ cs) =
        let reference = credential_reference (id c) in
        let rest = reference_list (reference ∷ seen) cs in
        do
          fail_if (is_empty (id c) || any_of (λ r. text_eq r reference) seen)
              credential_state_invalid
          references ← rest
          ok (reference ∷ references)

    unfoldable pub credential_references : List C → Result StoreError (List Text)
    credential_references credentials = do
      fail_if (not (ltb 0 (length credentials)) || ltb max_credentials (length credentials))
          credential_state_invalid
      reference_list [] credentials

    unfoldable pub validate_credential_creation : User C → C → Time → Result StoreError (Unit {0})
    validate_credential_creation user credential now =
        fail_if
          (is_empty_string user.uid
            || is_empty user.user_handle
            || is_empty (id credential)
            || is_zero now)
          credential_state_invalid

    unfoldable pub validate_credential_update : List ℕ → C → Time → Result StoreError (Unit {0})
    validate_credential_update raw_id credential now =
        fail_if
          (is_empty raw_id
            || is_empty (id credential)
            || is_zero now
            || not (text_eq raw_id (id credential)))
          credential_state_invalid
