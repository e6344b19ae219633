-- ===== src/Passkey/Service.antt =====
-- internal/passkey/passkey.go: the ceremonies of the service over the store in memory. The fields of
-- `Library` are what the WebAuthn library and the token minter answer; a session is its JSON, and a
-- request its body. A limit on the body and the options for the browser are left out.
pub mod Steps
pub mod Login
pub mod Once
pub mod Recovery
use conclution_ai_teacher.Prelude.{
  ℕ, ◌+◌, ◌*◌, ◌-◌, ◌^◌, Bool, true, false, not, ◌&&◌, ◌||◌, if◌then◌else◌, List, [], ◌∷◌, ◌++◌,
  map, Option, none, some, length, leb, ltb, ◌==◌, Result, ok, err, ◌>>=◌, ◌>>◌, fail_if,
}
use conclution_ai_teacher.Prelude.Int.{ℤ, pos, ltb_ℤ}
use conclution_ai_teacher.Prelude.Clock.{Time, minute, unix, is_zero}
use conclution_ai_teacher.Prelude.Text.{
  Text, Rune, code, text_eq, string_eq, utf8, trim_space, is_empty, is_empty_string,
}
use conclution_ai_teacher.Passkey.Store.{
  StoreError, credential_not_found, User, Ceremony, StoredCredential, Digests, max_credentials,
  registration_use, recovery_registration_use,
}
use conclution_ai_teacher.Passkey.Memory.{MemoryStore, or_error, load_recovery_user_by_handle}
use conclution_ai_teacher.Passkey.Accounts.{
  put_ceremony, consume_ceremony, consume_registration_ceremony, load_user_by_uid,
  create_credential, create_recovery_credential, find_credential, update_credential,
}

pub data ServiceError : Type 0 where
  registration_failed credential_registration_failed authentication_failed other_failure :
      ServiceError

pub record Library (C : Type 0) : Type 0 where
  -- The session's JSON, or none on an error.
  pub begin_registration : User C → Time → Option (List ℕ)
  pub begin_login : Time → Option (List ℕ)
  -- The user ID of a session, if its JSON decodes.
  pub session_user : List ℕ → Option (List ℕ)
  pub finish_registration : User C → List ℕ → List ℕ → Option C
  -- The credential ID and the user handle that a login looks up, and its result for the user found.
  pub presented : List ℕ → List ℕ → Option (List ℕ × List ℕ)
  pub finish_login : User C → List ℕ → List ℕ → Option C
  pub user_verified : C → Bool
  pub clone_warning : C → Bool
  pub mint_custom_token : List Rune → ℤ → Option Text

abbrev pub ceremony_ttl : ℕ
ceremony_ttl = 5 * minute

-- "credential-addition-v1" and "authentication-v1"
abbrev pub credential_addition_use : Text
credential_addition_use =
    b'c' ∷ b'r' ∷ b'e' ∷ b'd' ∷ b'e' ∷ b'n' ∷ b't' ∷ b'i' ∷ b'a' ∷ b'l' ∷ b'-' ∷ b'a' ∷ b'd' ∷ b'd'
    ∷ b'i' ∷ b't' ∷ b'i' ∷ b'o' ∷ b'n' ∷ b'-' ∷ b'v' ∷ b'1' ∷ []

abbrev pub authentication_use : Text
authentication_use =
    b'a' ∷ b'u' ∷ b't' ∷ b'h' ∷ b'e' ∷ b'n' ∷ b't' ∷ b'i' ∷ b'c' ∷ b'a' ∷ b't' ∷ b'i' ∷ b'o' ∷ b'n'
    ∷ b'-' ∷ b'v' ∷ b'1' ∷ []

unfoldable pub blank : List Rune → Bool
unfolding trim_space
blank s = is_empty_string (trim_space s)

-- `[]byte(strings.TrimSpace(ceremonyID))`
unfoldable pub trimmed_id : List Rune → List ℕ
unfolding trim_space
trimmed_id ceremony_id = utf8 (trim_space ceremony_id)

-- A result of the store or of the library, under the service's own error.
abbrev pub or_failed : {E A : Type 0} → ServiceError → Result E A → Result ServiceError A
or_failed e (ok a) = ok a
or_failed e (err _) = err e

module _ (d : Digests) (C : Type 0) (id : C → List ℕ) (lib : Library C) where
  -- digestString
  abbrev pub digest_string : List Rune → List ℕ
  digest_string value = d.sha256 (utf8 value)

  unfoldable pub mint : List Rune → Time → Result ServiceError Text
  mint uid verified_at = do
    fail_if
        (is_zero verified_at
          || ltb_ℤ (unix verified_at) (pos 1)
          || ltb_ℤ (pos (2 ^ 53 - 1)) (unix verified_at))
        other_failure
    or_error other_failure (lib.mint_custom_token uid (unix verified_at))

  -- A ceremony that was prepared is stored, under its id.
  abbrev pub begun :
      MemoryStore C
      → ServiceError
      → Result ServiceError (List ℕ × Ceremony)
      → MemoryStore C × Result ServiceError (List ℕ)
  begun s e (err x) = (s, err x)
  begun s e (ok (ceremony_id, r)) =
      let (s', put) = put_ceremony d C id s ceremony_id r in (s', or_failed e put >> ok ceremony_id)

  unfoldable pub begin_registration_of :
      MemoryStore C
      → List Rune
      → Option (List ℕ)
      → Option (List ℕ)
      → Option (List ℕ)
      → Time
      → MemoryStore C × Result ServiceError (List ℕ)
  begin_registration_of s app uid_bytes handle_bytes id_bytes now = begun s other_failure (do
    fail_if (blank app) registration_failed
    bytes ← or_error other_failure uid_bytes
    handle ← or_error other_failure handle_bytes
    let uid = map code (b'p' ∷ b'k' ∷ b'_' ∷ d.encode bytes)
    let user : User C = record { uid = uid; user_handle = handle; credentials = [] }
    session ← or_error other_failure (lib.begin_registration user (now + ceremony_ttl))
    random ← or_error other_failure id_bytes
    ok (
      d.encode random,
      record {
        purpose = registration_use;
        app_id_digest = digest_string app;
        principal_digest = [];
        recovery_code_digest = [];
        target_uid = uid;
        user_handle = handle;
        session_json = session;
        expires_at = now + ceremony_ttl;
        created_at = now;
      },
    ))

  unfoldable pub begin_authentication :
      MemoryStore C
      → List Rune
      → Option (List ℕ)
      → Time
      → MemoryStore C × Result ServiceError (List ℕ)
  begin_authentication s app id_bytes now = begun s other_failure (do
    fail_if (blank app) authentication_failed
    session ← or_error other_failure (lib.begin_login (now + ceremony_ttl))
    random ← or_error other_failure id_bytes
    ok (
      d.encode random,
      record {
        purpose = authentication_use;
        app_id_digest = digest_string app;
        principal_digest = [];
        recovery_code_digest = [];
        target_uid = [];
        user_handle = [];
        session_json = session;
        expires_at = now + ceremony_ttl;
        created_at = now;
      },
    ))

  abbrev known_user : Ceremony → Result StoreError (User C) → Result ServiceError (User C)
  known_user r (ok stored) =
      if text_eq stored.user_handle r.user_handle then ok stored else err registration_failed
  known_user r (err credential_not_found) =
      ok (record { uid = r.target_uid; user_handle = r.user_handle; credentials = [] })
  known_user r (err _) = err registration_failed

  unfoldable pub registration_user : MemoryStore C → Ceremony → Time → Result ServiceError (User C)
  registration_user s r now =
      if text_eq r.purpose recovery_registration_use
      then (do
        fail_if (is_empty r.user_handle || not (length r.principal_digest == 32))
            registration_failed
        or_failed registration_failed
            (load_recovery_user_by_handle d C id s r.user_handle r.principal_digest now))
      else known_user r (load_user_by_uid d C id s r.target_uid)

  -- Everything that `FinishRegistration` checks before it creates the credential.
  unfoldable pub check_registration :
      MemoryStore C
      → Result StoreError Ceremony
      → List ℕ
      → Time
      → Result ServiceError (Ceremony × User C × C)
  check_registration s consumed request now = do
    r ← or_failed registration_failed consumed
    or_error registration_failed (lib.session_user r.session_json)
    user ← registration_user s r now
    c ← or_error registration_failed (lib.finish_registration user r.session_json request)
    fail_if (not (lib.user_verified c)) registration_failed
    fail_if
        (text_eq r.purpose recovery_registration_use && not (length r.recovery_code_digest == 32))
        registration_failed
    fail_if
        (not (text_eq r.purpose recovery_registration_use || text_eq r.purpose registration_use))
        registration_failed
    ok (r, user, c)

  abbrev pub registered :
      MemoryStore C
      → Time
      → Result ServiceError (Ceremony × User C × C)
      → MemoryStore C × Result ServiceError Text
  registered s verified_at (err e) = (s, err e)
  registered s verified_at (ok (r, user, c)) =
      let (s', created) =
        if text_eq r.purpose recovery_registration_use
        then create_recovery_credential d C id s user c r.recovery_code_digest verified_at
        else create_credential d C id s user c verified_at in
      (s', or_failed registration_failed created >> mint user.uid verified_at)

  unfoldable pub finish_registration_of :
      MemoryStore C
      → List Rune
      → List Rune
      → List ℕ
      → Time
      → Time
      → MemoryStore C × Result ServiceError Text
  finish_registration_of s app ceremony_id request now verified_at =
      if blank app
      then (s, err registration_failed)
      else let (s', consumed) =
          consume_registration_ceremony d C id s (trimmed_id ceremony_id) (digest_string app) now in
        registered s' verified_at (check_registration s' consumed request now)

  -- Everything that `FinishAuthentication` checks before it updates the credential.
  unfoldable pub check_login :
      MemoryStore C
      → Result StoreError Ceremony
      → List ℕ
      → Result ServiceError (StoredCredential C × C)
  check_login s consumed request = do
    r ← or_failed authentication_failed consumed
    or_error authentication_failed (lib.session_user r.session_json)
    (raw_id, handle) ← or_error authentication_failed (lib.presented r.session_json request)
    loaded ← or_failed authentication_failed (find_credential d C id s raw_id handle)
    c ← or_error authentication_failed (lib.finish_login loaded.user r.session_json request)
    fail_if (not (lib.user_verified c) || lib.clone_warning c) authentication_failed
    ok (loaded, c)

  abbrev pub logged_in :
      MemoryStore C
      → Time
      → Result ServiceError (StoredCredential C × C)
      → MemoryStore C × Result ServiceError Text
  logged_in s verified_at (err e) = (s, err e)
  logged_in s verified_at (ok (loaded, c)) =
      let (s', updated) = update_credential d C id s (id c) loaded.version c verified_at in
      (s', or_failed authentication_failed updated >> mint loaded.user.uid verified_at)

  unfoldable pub finish_authentication :
      MemoryStore C
      → List Rune
      → List Rune
      → List ℕ
      → Time
      → Time
      → MemoryStore C × Result ServiceError Text
  finish_authentication s app ceremony_id request now verified_at =
      if blank app
      then (s, err authentication_failed)
      else let (s', consumed) =
          consume_ceremony d C id s (trimmed_id ceremony_id) authentication_use (digest_string app)
            now in
        logged_in s' verified_at (check_login s' consumed request)
