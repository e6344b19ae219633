-- ===== src/Passkey/Service/Steps.antt =====
-- What the steps of a login have found in the store, where they succeed.
use conclution_ai_teacher.Prelude.{
  ℕ, ◌<◌, ◌≡◌, refl, ap, ◌∙◌, inl, inr, true, false, not, ◌||◌, List, Option, none, some, arith,
  Result, ok, err, Result-cases, Bool-cases, Option-cases,
}
use mathlib.Core.Path.{subst}
use conclution_ai_teacher.Prelude.Int.{ℤ}
use conclution_ai_teacher.Prelude.Clock.{Time, unix}
use conclution_ai_teacher.Prelude.Text.{Text, Rune, text_eq_iff, assign}
use conclution_ai_teacher.Passkey.Store.{
  StoreError, User, Ceremony, StoredCredential, Digests, credential_reference, ceremony_matches,
}
use conclution_ai_teacher.Passkey.Memory.{MemoryCredential, MemoryStore, account_key}
use conclution_ai_teacher.Passkey.Accounts.{
  taken, matching, consume_ceremony, find_credential, updated, update_found, update_credential,
}
use conclution_ai_teacher.Passkey.Calls.Effects.{
  on_success_ok, update_found-locked, update_locked-updated,
}
use conclution_ai_teacher.Passkey.Service.{Library, mint, check_login}

module _ (d : Digests) (C : Type 0) (id : C → List ℕ) where
  -- A ceremony that is stored for the purpose and the app, and has not expired.
  abbrev pub InForce : Option Ceremony → Text → List ℕ → Time → Ceremony → Type 0
  InForce found purpose app now r =
      (found ≡ some r) × (r.purpose ≡ purpose) × (r.app_id_digest ≡ app) × (now < r.expires_at)

  taken-InForce :
      (s : MemoryStore C) (key purpose : Text) (app : List ℕ) (now : Time) (found : Option Ceremony)
      {r : Ceremony}
      → (taken d C id s key (matching d C id purpose app now) found).1 ≡ ok r
      → InForce found purpose app now r
        × ((taken d C id s key (matching d C id purpose app now) found).0
            ≡ record s { ceremonies = assign key none s.ceremonies })
  unfolding ceremony_matches
  taken-InForce s key purpose app now none h = absurd (ground arith)
  taken-InForce s key purpose app now (some x) {r = r} h =
      elim (Bool-cases (ceremony_matches x purpose app now)) [
        | inr e ↦ absurd (ground arith)
        | inl e ↦
            let same : x ≡ r = ground arith in
            (
              subst (InForce (some x) purpose app now) same (
                refl,
                (text_eq_iff x.purpose purpose).0 (ground arith),
                (text_eq_iff x.app_id_digest app).0 (ground arith),
                ground arith,
              ),
              refl,
            )
      ]

  pub consume_ceremony-InForce :
      (s : MemoryStore C) (ceremony_id : List ℕ) (purpose : Text) (app : List ℕ) (now : Time)
      {r : Ceremony}
      → (consume_ceremony d C id s ceremony_id purpose app now).1 ≡ ok r
      → InForce (s.ceremonies (credential_reference d ceremony_id)) purpose app now r
        × ((consume_ceremony d C id s ceremony_id purpose app now).0 ≡ record s {
          ceremonies = assign (credential_reference d ceremony_id) none s.ceremonies;
        })
  unfolding consume_ceremony
  consume_ceremony-InForce s ceremony_id purpose app now =
      taken-InForce s (credential_reference d ceremony_id) purpose app now
        (s.ceremonies (credential_reference d ceremony_id))

  pub find_credential-found :
      (s : MemoryStore C) (raw_id handle : List ℕ) {loaded : StoredCredential C}
      → find_credential d C id s raw_id handle ≡ ok loaded
      → (m : MemoryCredential C) × (s.credentials (credential_reference d raw_id) ≡ some m)
        × (id m.credential ≡ raw_id)
        × (m.user_handle ≡ handle)
        × (s.users (account_key d C id m.uid) ≡ some loaded.user)
        × (m.version ≡ loaded.version)
  unfolding find_credential
  find_credential-found s raw_id handle h =
      elim (Option-cases (s.credentials (credential_reference d raw_id))) [
        | inl e ↦ absurd (ground arith)
        | inr (m, e) ↦ elim (Option-cases (s.users (account_key d C id m.uid))) [
          | inl f ↦ absurd (ground arith)
          | inr (user, f) ↦ (
            m,
            e,
            (text_eq_iff (id m.credential) raw_id).0 (ground arith),
            (text_eq_iff m.user_handle handle).0 (ground arith),
            f ∙ ap some (ground arith),
            ground arith,
          )
        ]
      ]

  pub update_credential-updated :
      (s : MemoryStore C) (raw_id : List ℕ) (v : ℤ) (c : C) (now : Time)
      → (update_credential d C id s raw_id v c now).1 ≡ ok tt
      → (m : MemoryCredential C) × (user : User C) × (s.credentials (credential_reference d raw_id)
          ≡ some m)
        × (m.version ≡ v)
        × ((update_credential d C id s raw_id v c now).0 ≡ updated d C id s raw_id c now m user)
  unfolding update_credential
  update_credential-updated s raw_id v c now h =
      let (s', made, same) = on_success_ok d C id s (update_found d C id s raw_id v c now) h in
      let (m, found, locked) = update_found-locked d C id s raw_id v c now made in
      let (user, _, version, left) = update_locked-updated d C id s raw_id v c now m locked in
      (m, user, found, version, same ∙ left)

  module _ (lib : Library C) where
    pub mint-minted :
        (uid : List Rune) (at : Time) {token : Text}
        → mint d C id lib uid at ≡ ok token
        → lib.mint_custom_token uid (unix at) ≡ some token
    unfolding mint
    mint-minted uid at h = elim (Option-cases (lib.mint_custom_token uid (unix at))) [
      | inl e ↦ absurd (ground arith)
      | inr (t, e) ↦ e ∙ ap some (ground arith)
    ]

    -- What the checks of a login have found for the ceremony.
    abbrev pub Found : MemoryStore C → Ceremony → List ℕ → StoredCredential C × C → Type 0
    Found s r request x =
        (raw_id : List ℕ) × (handle : List ℕ) × (lib.presented r.session_json request
          ≡ some (raw_id, handle))
        × (find_credential d C id s raw_id handle ≡ ok x.0)
        × (lib.finish_login x.0.user r.session_json request ≡ some x.1)
        × (lib.user_verified x.1 ≡ true)
        × (lib.clone_warning x.1 ≡ false)

    pub check_login-Found :
        (s : MemoryStore C) (r : Ceremony) (request : List ℕ) (x : StoredCredential C × C)
        → check_login d C id lib s (ok r) request ≡ ok x
        → Found s r request x
    unfolding check_login
    check_login-Found s r request x h = elim (Option-cases (lib.session_user r.session_json)) [
      | inl e ↦ absurd (ground arith)
      | inr (u, e) ↦ elim (Option-cases (lib.presented r.session_json request)) [
        | inl p ↦ absurd (ground arith)
        | inr ((raw_id, handle), p) ↦ elim (Result-cases (find_credential d C id s raw_id handle)) [
          | inr (y, f) ↦ absurd (ground arith)
          | inl (loaded, f) ↦
              elim (Option-cases (lib.finish_login loaded.user r.session_json request)) [
                | inl l ↦ absurd (ground arith)
                | inr (c, l) ↦
                    elim (Bool-cases (not (lib.user_verified c) || lib.clone_warning c)) [
                      | inl b ↦ absurd (ground arith)
                      | inr b ↦
                          let same : ◌≡◌ {A = StoredCredential C × C} (loaded, c) x =
                            ground arith in
                          subst (Found s r request) same
                            (raw_id, handle, p, f, l, ground arith, ground arith)
                    ]
              ]
        ]
      ]
    ]

    pub check_login-consumed :
        (s : MemoryStore C) (consumed : Result StoreError Ceremony) (request : List ℕ)
        {x : StoredCredential C × C}
        → check_login d C id lib s consumed request ≡ ok x
        → (r : Ceremony) × (consumed ≡ ok r)
    unfolding check_login
    check_login-consumed s (ok r) request h = (r, refl)
    check_login-consumed s (err e) request h = absurd (ground arith)
