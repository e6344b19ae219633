-- ===== src/Passkey/Service/Login.antt =====
-- What a login that succeeds has found in the store, and what it leaves there.
use conclution_ai_teacher.Prelude.{
  ℕ, ◌≡◌, refl, sym, ap, ◌∙◌, inl, inr, true, false, List, none, some, arith, ok, Result-cases,
  Bool-cases,
}
use mathlib.Core.Path.{subst}
use conclution_ai_teacher.Prelude.Int.{pos, ◌+ℤ◌}
use conclution_ai_teacher.Prelude.Clock.{Time, unix}
use conclution_ai_teacher.Prelude.Text.{Text, Rune, utf8, assign, assign_same}
use conclution_ai_teacher.Passkey.Store.{
  User, Ceremony, StoredCredential, Digests, credential_reference,
}
use conclution_ai_teacher.Passkey.Memory.{MemoryCredential, MemoryStore, account_key}
use conclution_ai_teacher.Passkey.Accounts.{consume_ceremony, update_credential}
use conclution_ai_teacher.Passkey.Service.{
  Library, authentication_use, blank, trimmed_id, digest_string, mint, check_login, logged_in,
  finish_authentication,
}
use conclution_ai_teacher.Passkey.Service.Steps.{
  InForce, consume_ceremony-InForce, find_credential-found, update_credential-updated, mint-minted,
  check_login-Found, check_login-consumed,
}

module _ (d : Digests) (C : Type 0) (id : C → List ℕ) (lib : Library C) where
  -- The credential and the account that the response presents, and what the library has verified.
  abbrev pub Verified :
      MemoryStore C → List ℕ → List ℕ → List ℕ → List ℕ → MemoryCredential C → User C → C → Type 0
  Verified s session request raw_id handle m user c =
      (lib.presented session request ≡ some (raw_id, handle))
      × (s.credentials (credential_reference d raw_id) ≡ some m)
      × (id m.credential ≡ raw_id)
      × (m.user_handle ≡ handle)
      × (s.users (account_key d C id m.uid) ≡ some user)
      × (lib.finish_login user session request ≡ some c)
      × (lib.user_verified c ≡ true)
      × (lib.clone_warning c ≡ false)

  -- The store has held the credential under the version, and holds its new state under the next.
  abbrev pub Advanced : MemoryStore C → MemoryStore C → MemoryCredential C → C → Time → Type 0
  Advanced s s' m c at =
      (m' : MemoryCredential C) × (s.credentials (credential_reference d (id c)) ≡ some m')
      × (m'.version ≡ m.version)
      × (s'.credentials (credential_reference d (id c))
          ≡ some (record m' { credential = c; version = m.version +ℤ pos 1; updated_at = at }))

  -- What a login that succeeds has found in the store before it, and left in the store after it.
  abbrev pub LoggedIn :
      MemoryStore C → MemoryStore C → List Rune → List Rune → List ℕ → Time → Time → Text → Type 0
  LoggedIn s s' app ceremony_id request now verified_at token =
      (r : Ceremony) × (raw_id : List ℕ) × (handle : List ℕ) × (m : MemoryCredential C)
      × (user : User C) × (c : C) × InForce d C id
          (s.ceremonies (credential_reference d (trimmed_id ceremony_id))) authentication_use
          (d.sha256 (utf8 app)) now r
      × (s'.ceremonies (credential_reference d (trimmed_id ceremony_id)) ≡ none)
      × Verified s r.session_json request raw_id handle m user c
      × Advanced s s' m c verified_at
      × (lib.mint_custom_token user.uid (unix verified_at) ≡ some token)

  logged_in-updated :
      (s : MemoryStore C) (verified_at : Time) (loaded : StoredCredential C) (c : C) {token : Text}
      → (logged_in d C id lib s verified_at (ok (loaded, c))).1 ≡ ok token
      → ((update_credential d C id s (id c) loaded.version c verified_at).1 ≡ ok tt)
        × (mint d C id lib loaded.user.uid verified_at ≡ ok token)
  logged_in-updated s verified_at loaded c h =
      elim (Result-cases (update_credential d C id s (id c) loaded.version c verified_at).1) [
        | inr (e, u) ↦ absurd (ground arith)
        | inl (u, e) ↦ (ground arith, ground arith)
      ]

  -- The login from the consumed ceremony on.
  logged_in-LoggedIn :
      (s : MemoryStore C) (r : Ceremony) (app ceremony_id : List Rune) (request : List ℕ)
      (now verified_at : Time) (loaded : StoredCredential C) (c : C) {token : Text}
      → InForce d C id
          (s.ceremonies (credential_reference d (trimmed_id ceremony_id)))
          authentication_use
          (d.sha256 (utf8 app))
          now
          r
      → let t = record s {
        ceremonies = assign (credential_reference d (trimmed_id ceremony_id)) none s.ceremonies;
      } in
        check_login d C id lib t (ok r) request ≡ ok (loaded, c)
        → (logged_in d C id lib t verified_at (ok (loaded, c))).1 ≡ ok token
        → LoggedIn s
            (logged_in d C id lib t verified_at (ok (loaded, c))).0
            app
            ceremony_id
            request
            now
            verified_at
            token
  logged_in-LoggedIn s r app ceremony_id request now verified_at loaded c held f h =
      let key = credential_reference d (trimmed_id ceremony_id) in
      let t = record s { ceremonies = assign key none s.ceremonies } in
      let (raw_id, handle, p, found, l, verified, cloned) =
        check_login-Found d C id lib t r request (loaded, c) f in
      let (m, at_reference, same_id, same_handle, of_user, version) =
        find_credential-found d C id t raw_id handle found in
      let (succeeds, minted) = logged_in-updated t verified_at loaded c h in
      let (m', user', held', version', left) =
        update_credential-updated d C id t (id c) loaded.version c verified_at succeeds in
      (
        r,
        raw_id,
        handle,
        m,
        loaded.user,
        c,
        held,
        ap (λ x. x.ceremonies key) left ∙ assign_same key none s.ceremonies,
        (p, at_reference, same_id, same_handle, of_user, l, verified, cloned),
        (
          m',
          held',
          version' ∙ sym version,
          ap (λ x. x.credentials (credential_reference d (id c))) left
              ∙ assign_same (credential_reference d (id c))
                  (some (record m' {
                    credential = c;
                    version = m'.version +ℤ pos 1;
                    updated_at = verified_at;
                  }))
                  s.credentials
              ∙ ap
                  (λ v.
                    some (record m' {
                      credential = c;
                      version = v +ℤ pos 1;
                      updated_at = verified_at;
                    }))
                  (version' ∙ sym version),
        ),
        mint-minted d C id lib loaded.user.uid verified_at minted,
      )

  -- Where a login succeeds, the store held, under the ID given, an authentication ceremony for the
  -- app that had not expired, and holds it no longer; under the session of that ceremony, the
  -- library read an ID and a user handle from the response, the store held a credential with both
  -- and its account, and the library verified the response for that account, with the user
  -- verified and no warning of a clone; the store held the verified credential under the version
  -- of the credential that was found, and holds its new state, at the time of the verification,
  -- under the next version; and the token is the one minted for the account.
  pub finish_authentication-LoggedIn :
      (s : MemoryStore C) (app ceremony_id : List Rune) (request : List ℕ) (now verified_at : Time)
      (token : Text)
      → (finish_authentication d C id lib s app ceremony_id request now verified_at).1 ≡ ok token
      → LoggedIn s
          (finish_authentication d C id lib s app ceremony_id request now verified_at).0
          app
          ceremony_id
          request
          now
          verified_at
          token
  unfolding finish_authentication
  finish_authentication-LoggedIn s app ceremony_id request now verified_at token h =
      elim (Bool-cases (blank app)) [
        | inl b ↦ absurd (ground arith)
        | inr b ↦
            let after_consumption =
              consume_ceremony d C id s (trimmed_id ceremony_id) authentication_use
                (digest_string d C id lib app) now in
            elim (Result-cases
              (check_login d C id lib after_consumption.0 after_consumption.1 request)) [
                | inr (e, f) ↦ absurd (ground arith)
                | inl ((loaded, c), f) ↦
                    let passed : finish_authentication d C id lib s app ceremony_id request now
                          verified_at
                        ≡ logged_in d C id lib after_consumption.0 verified_at (ok (loaded, c)) =
                      rw (b, f) refl in
                    let (r, consumed) =
                      check_login-consumed d C id lib after_consumption.0 after_consumption.1
                        request f in
                    let (held, gone) =
                      consume_ceremony-InForce d C id s (trimmed_id ceremony_id) authentication_use
                        (digest_string d C id lib app) now consumed in
                    subst (λ x. LoggedIn s x app ceremony_id request now verified_at token)
                      (ap (λ x. (logged_in d C id lib x verified_at (ok (loaded, c))).0) (sym gone)
                        ∙ sym (ap (λ y. y.0) passed))
                      (logged_in-LoggedIn s r app ceremony_id request now verified_at loaded c held
                        (subst (λ x. check_login d C id lib x (ok r) request ≡ ok (loaded, c)) gone
                          (subst
                            (λ x.
                              check_login d C id lib after_consumption.0 x request ≡ ok (loaded, c))
                            consumed f))
                        (ap (λ x. (logged_in d C id lib x verified_at (ok (loaded, c))).1)
                            (sym gone)
                          ∙ sym (ap (λ y. y.1) passed)
                          ∙ h))
              ]
      ]
