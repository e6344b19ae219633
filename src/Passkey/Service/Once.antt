-- ===== src/Passkey/Service/Once.antt =====
-- A ceremony that was finished gives nothing further.
use conclution_ai_teacher.Prelude.{
  ℕ, ◌≡◌, refl, inl, inr, false, List, none, Result, ok, err, Bool-cases,
}
use conclution_ai_teacher.Prelude.Clock.{Time}
use conclution_ai_teacher.Prelude.Text.{Text, Rune, text_eq}
use conclution_ai_teacher.Passkey.Store.{
  StoreError, ceremony_invalid, User, Ceremony, StoredCredential, Digests,
  recovery_registration_use,
}
use conclution_ai_teacher.Passkey.Memory.{MemoryStore}
use conclution_ai_teacher.Passkey.Accounts.{consume_ceremony, consume_registration_ceremony}
use conclution_ai_teacher.Passkey.Calls.{Call, creates, recovers, updates, step, run}
use conclution_ai_teacher.Passkey.Calls.Relation.{key_of, step-Effect}
use conclution_ai_teacher.Passkey.Calls.Ceremonies.{
  NonePlaced, for_purpose, for_registration, present, present_gone, gone_refused, run_gone,
  Effect-gone,
}
use conclution_ai_teacher.Passkey.Service.{
  ServiceError, authentication_failed, registration_failed, Library, authentication_use, blank,
  trimmed_id, digest_string, check_registration, registered, finish_registration_of, check_login,
  logged_in, finish_authentication,
}

-- The two ways of finishing a ceremony for a token.
pub data Finish : Type 0 where
  logs_in : Finish
  registers : Finish

module _ (d : Digests) (C : Type 0) (id : C → List ℕ) (lib : Library C) where
  unfoldable pub finish :
      Finish
      → MemoryStore C
      → List Rune
      → List Rune
      → List ℕ
      → Time
      → Time
      → MemoryStore C × Result ServiceError Text
  finish logs_in s app ceremony_id request now verified_at =
      finish_authentication d C id lib s app ceremony_id request now verified_at
  finish registers s app ceremony_id request now verified_at =
      finish_registration_of d C id lib s app ceremony_id request now verified_at

  logged_in_gone :
      (s : MemoryStore C) (key : Text) (verified_at : Time)
      (r : Result ServiceError (StoredCredential C × C))
      → s.ceremonies key ≡ none
      → (logged_in d C id lib s verified_at r).0.ceremonies key ≡ none
  unfolding step
  logged_in_gone s key verified_at (err e) h = h
  logged_in_gone s key verified_at (ok (loaded, c)) h =
      Effect-gone d C id key (step-Effect d C id s (updates (id c) loaded.version c verified_at)) tt
        h

  registered_gone :
      (s : MemoryStore C) (key : Text) (verified_at : Time)
      (r : Result ServiceError (Ceremony × User C × C))
      → s.ceremonies key ≡ none
      → (registered d C id lib s verified_at r).0.ceremonies key ≡ none
  unfolding step
  registered_gone s key verified_at (err e) h = h
  registered_gone s key verified_at (ok (r, user, c)) h =
      elim (Bool-cases (text_eq r.purpose recovery_registration_use)) [
        | inl e ↦ rw e (
            Effect-gone d C id key
              (step-Effect d C id s (recovers user c r.recovery_code_digest verified_at)) tt h)
        | inr e ↦
            rw e (Effect-gone d C id key (step-Effect d C id s (creates user c verified_at)) tt h)
      ]

  finish_gone :
      (f : Finish) (s : MemoryStore C) (app ceremony_id : List Rune) (request : List ℕ)
      (now verified_at : Time)
      → blank app ≡ false
      → (finish f s app ceremony_id request now verified_at).0.ceremonies
          (key_of d C id (trimmed_id ceremony_id))
        ≡ none
  unfolding finish finish_authentication finish_registration_of present
  finish_gone logs_in s app ceremony_id request now verified_at b =
      let s' =
        (consume_ceremony d C id s (trimmed_id ceremony_id) authentication_use
          (digest_string d C id lib app) now).0 in
      let consumed =
        (consume_ceremony d C id s (trimmed_id ceremony_id) authentication_use
          (digest_string d C id lib app) now).1 in
      rw b (
        logged_in_gone s' (key_of d C id (trimmed_id ceremony_id)) verified_at
          (check_login d C id lib s' consumed request)
          (present_gone d C id (for_purpose authentication_use) s (trimmed_id ceremony_id)
            (digest_string d C id lib app) now))
  finish_gone registers s app ceremony_id request now verified_at b =
      let s' =
        (consume_registration_ceremony d C id s (trimmed_id ceremony_id)
          (digest_string d C id lib app) now).0 in
      let consumed =
        (consume_registration_ceremony d C id s (trimmed_id ceremony_id)
          (digest_string d C id lib app) now).1 in
      rw b (
        registered_gone s' (key_of d C id (trimmed_id ceremony_id)) verified_at
          (check_registration d C id lib s' consumed request now)
          (present_gone d C id for_registration s (trimmed_id ceremony_id)
            (digest_string d C id lib app) now))

  check_login-refused :
      (s : MemoryStore C) (consumed : Result StoreError Ceremony) (request : List ℕ)
      → consumed ≡ err ceremony_invalid
      → check_login d C id lib s consumed request ≡ err authentication_failed
  unfolding check_login
  check_login-refused s consumed request h = rw h refl

  check_registration-refused :
      (s : MemoryStore C) (consumed : Result StoreError Ceremony) (request : List ℕ) (now : Time)
      → consumed ≡ err ceremony_invalid
      → check_registration d C id lib s consumed request now ≡ err registration_failed
  unfolding check_registration
  check_registration-refused s consumed request now h = rw h refl

  finish_refused :
      (f : Finish) (s : MemoryStore C) (app ceremony_id : List Rune) (request : List ℕ)
      (now verified_at : Time)
      → s.ceremonies (key_of d C id (trimmed_id ceremony_id)) ≡ none
      → (e : ServiceError) × ((finish f s app ceremony_id request now verified_at).1 ≡ err e)
  unfolding finish finish_authentication finish_registration_of present
  finish_refused logs_in s app ceremony_id request now verified_at h =
      let refused =
        gone_refused d C id (for_purpose authentication_use) s (trimmed_id ceremony_id)
          (digest_string d C id lib app) now h in
      elim (Bool-cases (blank app)) [
        | inl b ↦ (authentication_failed, rw b refl)
        | inr b ↦ (
          authentication_failed,
          rw
              (
                b,
                check_login-refused
                    (consume_ceremony d C id s (trimmed_id ceremony_id) authentication_use
                      (digest_string d C id lib app) now).0
                    (consume_ceremony d C id s (trimmed_id ceremony_id) authentication_use
                      (digest_string d C id lib app) now).1
                    request refused,
              )
              refl,
        )
      ]
  finish_refused registers s app ceremony_id request now verified_at h =
      let refused =
        gone_refused d C id for_registration s (trimmed_id ceremony_id)
          (digest_string d C id lib app) now h in
      elim (Bool-cases (blank app)) [
        | inl b ↦ (registration_failed, rw b refl)
        | inr b ↦ (
          registration_failed,
          rw
              (
                b,
                check_registration-refused
                    (consume_registration_ceremony d C id s (trimmed_id ceremony_id)
                      (digest_string d C id lib app) now).0
                    (consume_registration_ceremony d C id s (trimmed_id ceremony_id)
                      (digest_string d C id lib app) now).1
                    request now refused,
              )
              refl,
        )
      ]

  -- After a ceremony was finished for a non-blank app, as a login or as a registration and with
  -- any outcome, and after any calls that put no ceremony under the same key, no login and no
  -- registration with the same ceremony succeeds.
  pub finish-once :
      (f f' : Finish) (s : MemoryStore C) (app app' ceremony_id : List Rune)
      (request request' : List ℕ) (now verified_at now' verified_at' : Time) (cs : List (Call C))
      → blank app ≡ false
      → NonePlaced d C id (key_of d C id (trimmed_id ceremony_id)) cs
      → (e : ServiceError) × ((finish f'
            (run d C id (finish f s app ceremony_id request now verified_at).0 cs)
            app'
            ceremony_id
            request'
            now'
            verified_at').1
          ≡ err e)
  finish-once f f' s app app' ceremony_id request request' now verified_at now' verified_at' cs b
        n =
      let s' = (finish f s app ceremony_id request now verified_at).0 in
      finish_refused f' (run d C id s' cs) app' ceremony_id request' now' verified_at' (
        run_gone d C id s' cs (key_of d C id (trimmed_id ceremony_id)) n
          (finish_gone f s app ceremony_id request now verified_at b))
