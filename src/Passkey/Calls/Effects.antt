-- ===== src/Passkey/Calls/Effects.antt =====
-- What a call that succeeds has found, and the store that it leaves.
use conclution_ai_teacher.Prelude.{
  ℕ, ◌+◌, ◌≤◌, ◌≡◌, ◌≢◌, refl, inl, inr, List, [], Option, none, some, length, arith, Result, ok,
  err, Result-cases, Option-cases,
}
use conclution_ai_teacher.Prelude.Int.{ℤ}
use conclution_ai_teacher.Prelude.Clock.{Time}
use conclution_ai_teacher.Prelude.Text.{Text, Rune}
use conclution_ai_teacher.Passkey.Store.{
  StoreError, User, Ceremony, Digests, credential_reference, reference_list, credential_references,
  validate_credential_creation, parse_credential_reference, validate_credential_update,
}
use conclution_ai_teacher.Passkey.Memory.{
  MemoryCredential, MemoryStore, on_success, account_key, code_in_force, validate_all,
  validate_credential_state, owned_user, replaced, replace_checked,
}
use conclution_ai_teacher.Passkey.Accounts.{
  placed, taken, joined_user, created, create_locked, updated, update_locked, update_found,
  recovered, recover_locked,
}
use conclution_ai_teacher.Passkey.Lifecycle.{
  revoked, revoke_locked, revoke_found, erased, delete_locked,
}

module _ (d : Digests) (C : Type 0) (id : C → List ℕ) where
  pub validate_credential_state-references :
      (s : MemoryStore C) (user : User C) (now : Time) {references : List Text}
      → validate_credential_state d C id s user now ≡ ok references
      → reference_list d C id [] user.credentials ≡ ok references
  unfolding validate_credential_state credential_references
  validate_credential_state-references s user now h =
      elim (Result-cases (reference_list d C id [] user.credentials)) [
        | inr (x, e) ↦ absurd (ground arith)
        | inl (references, e) ↦
            elim (Result-cases (validate_all d C id s user now user.credentials)) [
              | inr (x, v) ↦ absurd (ground arith)
              | inl (u, v) ↦ ground arith
            ]
      ]

  pub create_locked-created :
      (s : MemoryStore C) (user : User C) (c : C) (now : Time) {s' : MemoryStore C}
      → create_locked d C id s user c now ≡ ok s'
      → (stored : User C) × (s.credentials (credential_reference d (id c)) ≡ none)
        × (joined_user d C id s user now (s.users (account_key d C id user.uid)) ≡ ok stored)
        × (length stored.credentials + 1 ≤ 8)
        × (s' ≡ created d C id s user c now stored)
  unfolding create_locked
  create_locked-created s user c now h =
      elim (Option-cases (s.credentials (credential_reference d (id c)))) [
        | inr (m, e) ↦ absurd (ground arith)
        | inl e ↦
            elim (Result-cases
              (joined_user d C id s user now (s.users (account_key d C id user.uid)))) [
                | inr (x, j) ↦ absurd (ground arith)
                | inl (stored, j) ↦ (stored, e, j, ground arith, ground arith)
              ]
      ]

  pub update_locked-updated :
      (s : MemoryStore C) (raw_id : List ℕ) (expected : ℤ) (c : C) (now : Time)
      (m : MemoryCredential C) {s' : MemoryStore C}
      → update_locked d C id s raw_id expected c now m ≡ ok s'
      → (user : User C) × (s.users (account_key d C id m.uid) ≡ some user)
        × (m.version ≡ expected)
        × (s' ≡ updated d C id s raw_id c now m user)
  unfolding update_locked
  update_locked-updated s raw_id expected c now m h =
      elim (Option-cases (s.users (account_key d C id m.uid))) [
        | inl e ↦ absurd (ground arith)
        | inr (user, e) ↦ elim (Result-cases (validate_credential_state d C id s user now)) [
          | inr (x, v) ↦ absurd (ground arith)
          | inl (references, v) ↦ (user, e, ground arith, ground arith)
        ]
      ]

  pub revoke_locked-revoked :
      (s : MemoryStore C) (uid : List Rune) (reference : Text) (user : User C)
      (references : List Text) {s' : MemoryStore C}
      → revoke_locked d C id s uid reference user references ≡ ok s'
      → (length references ≢ 1) × (s' ≡ revoked d C id s uid reference user)
  unfolding revoke_locked
  revoke_locked-revoked s uid reference user references h = (ground arith, ground arith)

  pub owned_user-owned :
      (uid : List Rune) (found : Option (User C)) {user : User C}
      → owned_user d C id uid found ≡ ok user
      → found ≡ some user
  unfolding owned_user
  owned_user-owned uid none h = absurd (ground arith)
  owned_user-owned uid (some user) h = ground arith

  pub delete_locked-erased :
      (s : MemoryStore C) (uid : List Rune) (now : Time) {s' : MemoryStore C}
      → delete_locked d C id s uid now ≡ ok s'
      → (references : List Text) × (s' ≡ erased d C id s uid now references)
  unfolding delete_locked
  delete_locked-erased s uid now h =
      elim (Result-cases (owned_user d C id uid (s.users (account_key d C id uid)))) [
        | inr (x, e) ↦ absurd (ground arith)
        | inl (user, e) ↦ elim (Result-cases (validate_credential_state d C id s user now)) [
          | inr (x, v) ↦ absurd (ground arith)
          | inl (references, v) ↦ (references, ground arith)
        ]
      ]

  pub recover_locked-recovered :
      (s : MemoryStore C) (user : User C) (c : C) (digest : List ℕ) (now : Time)
      {s' : MemoryStore C}
      → recover_locked d C id s user c digest now ≡ ok s'
      → (s'' : MemoryStore C) × (create_locked d C id s user c now ≡ ok s'')
        × (s' ≡ recovered d C id s'' user digest)
  unfolding recover_locked
  recover_locked-recovered s user c digest now h =
      elim (Result-cases (validate_credential_creation d C id user c now)) [
        | inr (x, v) ↦ absurd (ground arith)
        | inl (u, v) ↦
            elim (Result-cases
              (code_in_force d C id (s.recovery (account_key d C id user.uid)) digest now)) [
                | inr (x, r) ↦ absurd (ground arith)
                | inl (w, r) ↦ elim (Result-cases (create_locked d C id s user c now)) [
                  | inr (x, e) ↦ absurd (ground arith)
                  | inl (s'', e) ↦ (s'', e, ground arith)
                ]
              ]
      ]

  pub update_found-locked :
      (s : MemoryStore C) (raw_id : List ℕ) (expected : ℤ) (c : C) (now : Time) {s' : MemoryStore C}
      → update_found d C id s raw_id expected c now ≡ ok s'
      → (m : MemoryCredential C) × (s.credentials (credential_reference d raw_id) ≡ some m)
        × (update_locked d C id s raw_id expected c now m ≡ ok s')
  unfolding update_found
  update_found-locked s raw_id expected c now h =
      elim (Result-cases (validate_credential_update d C id raw_id c now)) [
        | inr (x, v) ↦ absurd (ground arith)
        | inl (u, v) ↦ elim (Option-cases (s.credentials (credential_reference d raw_id))) [
          | inl e ↦ absurd (ground arith)
          | inr (m, e) ↦ (m, e, ground arith)
        ]
      ]

  pub revoke_found-locked :
      (s : MemoryStore C) (uid : List Rune) (reference : Text) (now : Time) {s' : MemoryStore C}
      → revoke_found d C id s uid reference now ≡ ok s'
      → (user : User C) × (references : List Text) × (s.users (account_key d C id uid) ≡ some user)
        × (validate_credential_state d C id s user now ≡ ok references)
        × (revoke_locked d C id s uid reference user references ≡ ok s')
  unfolding revoke_found
  revoke_found-locked s uid reference now h =
      elim (Result-cases (parse_credential_reference d reference)) [
        | inr (x, p) ↦ absurd (ground arith)
        | inl (t, p) ↦
            elim (Result-cases (owned_user d C id uid (s.users (account_key d C id uid)))) [
              | inr (x, e) ↦ absurd (ground arith)
              | inl (user, e) ↦ elim (Result-cases (validate_credential_state d C id s user now)) [
                | inr (x, v) ↦ absurd (ground arith)
                | inl (references, v) ↦ (
                  user,
                  references,
                  owned_user-owned uid (s.users (account_key d C id uid)) e,
                  v,
                  ground arith,
                )
              ]
            ]
      ]

  pub replace_checked-replaced :
      (s : MemoryStore C) (uid : List Rune) (digest : List ℕ) (expires_at now : Time)
      {s' : MemoryStore C}
      → replace_checked d C id s uid digest expires_at now ≡ ok s'
      → s' ≡ replaced d C id s (account_key d C id uid) digest expires_at now
  unfolding replace_checked
  replace_checked-replaced s uid digest expires_at now h =
      elim (Result-cases (owned_user d C id uid (s.users (account_key d C id uid)))) [
        | inr (x, e) ↦ absurd (ground arith)
        | inl (user, e) ↦ elim (Result-cases (validate_credential_state d C id s user now)) [
          | inr (x, v) ↦ absurd (ground arith)
          | inl (references, v) ↦ ground arith
        ]
      ]

  pub placed-users :
      (s : MemoryStore C) (key : Text) (r : Ceremony) (found : Option Ceremony)
      → (on_success s (placed d C id s key r found)).0.users ≡ s.users
  placed-users s key r none = refl
  placed-users s key r (some _) = refl

  pub taken-users :
      (s : MemoryStore C) (key : Text) (check : Ceremony → Result StoreError Ceremony)
      (found : Option Ceremony)
      → (taken d C id s key check found).0.users ≡ s.users
  taken-users s key check none = refl
  taken-users s key check (some _) = refl

  pub on_success_ok :
      (s : MemoryStore C) (r : Result StoreError (MemoryStore C))
      → (on_success s r).1 ≡ ok tt
      → (s' : MemoryStore C) × (r ≡ ok s') × ((on_success s r).0 ≡ s')
  on_success_ok s (ok s') h = (s', refl, refl)
  on_success_ok s (err e) h = absurd (ground arith)
