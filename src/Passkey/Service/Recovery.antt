-- ===== src/Passkey/Service/Recovery.antt =====
-- internal/passkey/recovery_code.go: the recovery codes, from their issue to the ceremony that a code
-- begins.
pub mod Issue
use conclution_ai_teacher.Prelude.{
  ℕ, ◌+◌, ◌≤◌, ◌<◌, ◌≡◌, refl, sym, ap, ◌∙◌, inl, inr, Bool, true, false, not, ◌&&◌, ◌||◌, List, [],
  ◌∷◌, ◌++◌, Option, none, some, length, leb, ltb, ◌==◌, arith, Result, ok, err, ◌>>=◌, ◌>>◌,
  fail_if, Result-cases, Bool-cases, Option-cases,
}
use mathlib.Core.Path.{subst}
use conclution_ai_teacher.Prelude.Clock.{Time, is_zero}
use conclution_ai_teacher.Prelude.Text.{
  Text, Rune, text_eq, text_eq_iff, utf8, trim_space, is_empty, is_empty_string, assign,
  assign_same,
}
use conclution_ai_teacher.Passkey.Store.{
  StoreError, recovery_code, User, Ceremony, Digests, credential_reference, max_credentials,
  recovery_code_ttl, recovery_registration_use, credential_references, new_credential_summary,
}
use conclution_ai_teacher.Passkey.Memory.{
  MemoryCredential, MemoryRecoveryCode, MemoryStore, or_error, failing_with, on_success,
  account_key, code_key, replace_recovery_code, load_recovery_user,
}
use conclution_ai_teacher.Passkey.Accounts.{put_ceremony}
use conclution_ai_teacher.Passkey.Service.{Library, ceremony_ttl, digest_string, blank}

-- "krc1_" and "kotae-passkey-recovery-code-v1\x00"
abbrev recovery_code_prefix : Text
recovery_code_prefix = b'k' ∷ b'r' ∷ b'c' ∷ b'1' ∷ b'_' ∷ []

abbrev recovery_label : Text
recovery_label =
    b'k' ∷ b'o' ∷ b't' ∷ b'a' ∷ b'e' ∷ b'-' ∷ b'p' ∷ b'a' ∷ b's' ∷ b's' ∷ b'k' ∷ b'e' ∷ b'y' ∷ b'-'
    ∷ b'r' ∷ b'e' ∷ b'c' ∷ b'o' ∷ b'v' ∷ b'e' ∷ b'r' ∷ b'y' ∷ b'-' ∷ b'c' ∷ b'o' ∷ b'd' ∷ b'e'
    ∷ b'-' ∷ b'v' ∷ b'1' ∷ 0 ∷ []

unfoldable pub without_prefix : Text → Text → Option Text
without_prefix [] text = some text
without_prefix (x ∷ xs) [] = none
without_prefix (x ∷ xs) (y ∷ ys) = elim (x == y) [ true ↦ without_prefix xs ys | false ↦ none ]

module _ (d : Digests) where
  unfoldable pub recovery_code_digest : Text → Result StoreError (List ℕ)
  recovery_code_digest recovery_text = do
    encoded ← or_error recovery_code (without_prefix recovery_code_prefix recovery_text)
    fail_if (not (length encoded == 43)) recovery_code
    material ← or_error recovery_code (d.decode encoded)
    fail_if (not (length material == 32) || not (text_eq (d.encode material) encoded)) recovery_code
    ok (d.sha256 (recovery_label ++ material))

  module _ (C : Type 0) (id : C → List ℕ) where
    -- `IssueRecoveryCode` up to the store: the code, and its digest.
    unfoldable pub new_recovery_code :
        List Rune → Option (List ℕ) → Result StoreError (Text × List ℕ)
    new_recovery_code uid random = do
      fail_if (blank uid) recovery_code
      material ← or_error recovery_code random
      let recovery_text = recovery_code_prefix ++ d.encode material
      digest ← recovery_code_digest recovery_text
      ok (recovery_text, digest)

    abbrev pub issued :
        MemoryStore C
        → List Rune
        → Time
        → Result StoreError (Text × List ℕ)
        → MemoryStore C × Result StoreError Text
    issued s uid now (err e) = (s, err recovery_code)
    issued s uid now (ok (recovery_text, digest)) =
        let (s', replaced) =
          replace_recovery_code d C id s uid digest (now + recovery_code_ttl) now in
        (s', failing_with d C id recovery_code replaced >> ok recovery_text)

    unfoldable pub issue_recovery_code :
        MemoryStore C → List Rune → Option (List ℕ) → Time → MemoryStore C × Result StoreError Text
    unfolding trim_space
    issue_recovery_code s uid random now =
        issued s (trim_space uid) now (new_recovery_code uid random)

    -- `BeginRecoveryRegistration` up to the store: the ceremony and its id.
    unfoldable pub prepare_recovery :
        Library C
        → MemoryStore C
        → List Rune
        → Text
        → Option (List ℕ)
        → Time
        → Result StoreError (List ℕ × Ceremony)
    unfolding trim_space
    prepare_recovery lib s app recovery_text id_bytes now = do
      fail_if (blank app) recovery_code
      digest ← recovery_code_digest recovery_text
      user ← load_recovery_user d C id s digest now
      fail_if
          (is_empty_string user.uid
            || is_empty user.user_handle
            || not (ltb 0 (length user.credentials))
            || leb max_credentials (length user.credentials)
            || is_zero now)
          recovery_code
      session ← or_error recovery_code (lib.begin_registration user (now + ceremony_ttl))
      random ← or_error recovery_code id_bytes
      ok (
        d.encode random,
        record {
          purpose = recovery_registration_use;
          app_id_digest = digest_string d C id lib (trim_space app);
          principal_digest = digest_string d C id lib user.uid;
          recovery_code_digest = digest;
          target_uid = [];
          user_handle = user.user_handle;
          session_json = session;
          expires_at = now + ceremony_ttl;
          created_at = now;
        },
      )

    abbrev pub recovery_begun :
        MemoryStore C
        → Result StoreError (List ℕ × Ceremony)
        → MemoryStore C × Result StoreError (List ℕ)
    recovery_begun s (err e) = (s, err recovery_code)
    recovery_begun s (ok (ceremony_id, r)) =
        let (s', put) = put_ceremony d C id s ceremony_id r in
        (s', failing_with d C id recovery_code put >> ok ceremony_id)

    unfoldable pub begin_recovery_registration :
        Library C
        → MemoryStore C
        → List Rune
        → Text
        → Option (List ℕ)
        → Time
        → MemoryStore C × Result StoreError (List ℕ)
    begin_recovery_registration lib s app recovery_text id_bytes now =
        recovery_begun s (prepare_recovery lib s app recovery_text id_bytes now)
