-- ===== src/Passkey/Calls/Bounded.antt =====
-- An account has at least one credential as long as it exists.
use conclution_ai_teacher.Prelude.{
  ℕ, ◌+◌, ◌≤◌, ◌≡◌, refl, sym, inl, inr, ◌||◌, ◌>>◌, List, [], ◌∷◌, ◌++◌, Option, none, some,
  length, arith, Result, ok, err, Result-cases, Bool-cases,
}
use mathlib.Core.Path.{subst}
use conclution_ai_teacher.Prelude.Int.{ℤ}
use conclution_ai_teacher.Prelude.Clock.{Time, is_zero}
use conclution_ai_teacher.Prelude.Text.{Text, Rune, text_eq, assign, is_empty_string, trim_space}
use conclution_ai_teacher.Passkey.Store.{
  StoreError, User, Digests, credential_reference, validate_credential_creation,
}
use conclution_ai_teacher.Passkey.Memory.{
  MemoryCredential, MemoryStore, new_memory_store, on_success, account_key,
  validate_credential_state, replace_checked, replace_recovery_code,
}
use conclution_ai_teacher.Passkey.Accounts.{
  matching, matching_registration, put_ceremony, consume_ceremony, consume_registration_ceremony,
  created, create_locked, recover_locked, update_found, create_credential,
  create_recovery_credential, replace_at, update_locked, update_credential,
}
use conclution_ai_teacher.Passkey.Lifecycle.{
  remaining, revoke_locked, revoke_found, marked, revoke_credential, delete_locked,
  delete_account_data,
}
use conclution_ai_teacher.Passkey.Calls.References.{length-reference_list}
use conclution_ai_teacher.Passkey.Calls.Effects.{
  placed-users, taken-users, validate_credential_state-references, create_locked-created,
  update_locked-updated, revoke_locked-revoked, delete_locked-erased, recover_locked-recovered,
  update_found-locked, revoke_found-locked, replace_checked-replaced,
}
use conclution_ai_teacher.Passkey.Calls.{
  Call, puts_ceremony, consumes, consumes_registration, replaces_code, creates, recovers, updates,
  revokes, deletes, step, run,
}

module _ (d : Digests) (C : Type 0) (id : C → List ℕ) where
  abbrev pub UserBounded : Option (User C) → Type 0
  UserBounded none = Unit {0}
  UserBounded (some user) = (1 ≤ length user.credentials) × (length user.credentials ≤ 8)

  abbrev pub AllBounded : (Text → Option (User C)) → Type 0
  AllBounded users = (key : Text) → UserBounded (users key)

  on_success_keeps :
      (P : MemoryStore C → Type 0) (s : MemoryStore C) (r : Result StoreError (MemoryStore C))
      → P s
      → ((s' : MemoryStore C) → r ≡ ok s' → P s')
      → P (on_success s r).0
  on_success_keeps P s (ok s') p f = f s' refl
  on_success_keeps P s (err e) p f = p

  length-snoc : (cs : List C) (c : C) → length (cs ++ (c ∷ [])) ≡ length cs + 1
  length-snoc [] c = refl
  length-snoc (x ∷ cs) c = omega (arith, length-snoc cs c)

  assign-AllBounded :
      (users : Text → Option (User C)) (key : Text) (user : Option (User C))
      → UserBounded user
      → AllBounded users
      → AllBounded (assign key user users)
  assign-AllBounded users key user v w other = elim (Bool-cases (text_eq other key)) [
    | inl same ↦ rw same v
    | inr ne ↦ rw ne (w other)
  ]

  owned-UserBounded :
      (users : Text → Option (User C)) (key : Text) {user : User C}
      → AllBounded users
      → users key ≡ some user
      → (1 ≤ length user.credentials) × (length user.credentials ≤ 8)
  owned-UserBounded users key w e = subst UserBounded e (w key)

  joined-Small :
      (s : MemoryStore C) (user : User C) (c : C) (now : Time) (stored : User C)
      → AllBounded s.users
      → length stored.credentials + 1 ≤ 8
      → AllBounded (created d C id s user c now stored).users
  joined-Small s user c now stored w fits =
      assign-AllBounded s.users (account_key d C id user.uid)
        (some (record stored { credentials = stored.credentials ++ (c ∷ []) }))
        (
          omega (arith, length-snoc stored.credentials c),
          omega (arith, length-snoc stored.credentials c, fits),
        )
        w

  create_locked-AllBounded :
      (s : MemoryStore C) (user : User C) (c : C) (now : Time) (s' : MemoryStore C)
      → AllBounded s.users
      → create_locked d C id s user c now ≡ ok s'
      → AllBounded s'.users
  create_locked-AllBounded s user c now s' w h =
      let (stored, _, _, fits, same) = create_locked-created d C id s user c now h in
      subst (λ x. AllBounded x.users) (sym same) (joined-Small s user c now stored w fits)

  length-replace_at :
      (target : Text) (c : C) (cs : List C) → length (replace_at d C id target c cs) ≡ length cs
  unfolding replace_at
  length-replace_at target c [] = refl
  length-replace_at target c (x ∷ cs) = ground (arith, length-replace_at target c cs)

  update_locked-AllBounded :
      (s : MemoryStore C) (raw_id : List ℕ) (expected : ℤ) (c : C) (now : Time)
      (m : MemoryCredential C) (s' : MemoryStore C)
      → AllBounded s.users
      → update_locked d C id s raw_id expected c now m ≡ ok s'
      → AllBounded s'.users
  update_locked-AllBounded s raw_id expected c now m s' w h =
      let (user, found, _, same) = update_locked-updated d C id s raw_id expected c now m h in
      let (least, most) = owned-UserBounded s.users (account_key d C id m.uid) w found in
      let size = length-replace_at (credential_reference d raw_id) c user.credentials in
      subst (λ x. AllBounded x.users) (sym same)
        (assign-AllBounded s.users (account_key d C id m.uid)
          (some (record user {
            credentials = replace_at d C id (credential_reference d raw_id) c user.credentials;
          }))
          (omega (arith, size, least), omega (arith, size, most)) w)

  -- At most one credential is removed.
  length-remaining :
      (t : Text) (cs : List C)
      → (length (remaining d C id t cs) ≤ length cs)
        × (length cs ≤ length (remaining d C id t cs) + 1)
  unfolding remaining
  length-remaining t [] = omega arith
  length-remaining t (c ∷ cs) = ground (arith, length-remaining t cs)

  revoke_locked-AllBounded :
      (s : MemoryStore C) (uid : List Rune) (reference : Text) (now : Time) (user : User C)
      (references : List Text) (s' : MemoryStore C)
      → AllBounded s.users
      → s.users (account_key d C id uid) ≡ some user
      → validate_credential_state d C id s user now ≡ ok references
      → revoke_locked d C id s uid reference user references ≡ ok s'
      → AllBounded s'.users
  revoke_locked-AllBounded s uid reference now user references s' w found v h =
      let (several, same) = revoke_locked-revoked d C id s uid reference user references h in
      let (least, most) = owned-UserBounded s.users (account_key d C id uid) w found in
      let size =
        length-reference_list d C id [] user.credentials
          (validate_credential_state-references d C id s user now v) in
      let (fewer, kept) = length-remaining reference user.credentials in
      subst (λ x. AllBounded x.users) (sym same)
        (assign-AllBounded s.users (account_key d C id uid)
          (some (record user { credentials = remaining d C id reference user.credentials }))
          (omega (arith, several, size, kept, least), omega (arith, fewer, most)) w)

  abbrev Bounded : MemoryStore C → Type 0
  Bounded s = AllBounded s.users

  create-AllBounded :
      (s : MemoryStore C) (user : User C) (c : C) (now : Time)
      → Bounded s
      → Bounded (create_credential d C id s user c now).0
  unfolding create_credential
  create-AllBounded s user c now w =
      on_success_keeps Bounded s
        (validate_credential_creation d C id user c now >> create_locked d C id s user c now) w
        (λ s' h. elim (Result-cases (validate_credential_creation d C id user c now)) [
          | inr (x, v) ↦ absurd (ground arith)
          | inl (u, v) ↦ create_locked-AllBounded s user c now s' w (ground arith)
        ])

  recover-AllBounded :
      (s : MemoryStore C) (user : User C) (c : C) (digest : List ℕ) (now : Time)
      → Bounded s
      → Bounded (create_recovery_credential d C id s user c digest now).0
  unfolding create_recovery_credential
  recover-AllBounded s user c digest now w =
      on_success_keeps Bounded s (recover_locked d C id s user c digest now) w (λ s' h.
        let (s'', made, same) = recover_locked-recovered d C id s user c digest now h in
        subst Bounded (sym same) (create_locked-AllBounded s user c now s'' w made))

  update-AllBounded :
      (s : MemoryStore C) (raw_id : List ℕ) (expected : ℤ) (c : C) (now : Time)
      → Bounded s
      → Bounded (update_credential d C id s raw_id expected c now).0
  unfolding update_credential
  update-AllBounded s raw_id expected c now w =
      on_success_keeps Bounded s (update_found d C id s raw_id expected c now) w (λ s' h.
        let (m, _, made) = update_found-locked d C id s raw_id expected c now h in
        update_locked-AllBounded s raw_id expected c now m s' w made)

  revoke-AllBounded :
      (s : MemoryStore C) (uid : List Rune) (reference : Text) (now : Time)
      → Bounded s
      → Bounded (revoke_credential d C id s uid reference now).0
  unfolding revoke_credential
  revoke-AllBounded s uid reference now w =
      on_success_keeps Bounded s (revoke_found d C id s uid reference now) w (λ s' h.
        let (user, references, found, v, made) = revoke_found-locked d C id s uid reference now h in
        revoke_locked-AllBounded s uid reference now user references s' w found v made)

  delete-AllBounded :
      (s : MemoryStore C) (uid : List Rune) (now : Time)
      → Bounded s
      → Bounded (delete_account_data d C id s uid now).0
  unfolding delete_account_data
  delete-AllBounded s uid now w = elim (Bool-cases (is_empty_string uid || is_zero now)) [
    | inl e ↦ rw e w
    | inr e ↦ elim (Bool-cases (marked d C id (s.deleted (account_key d C id uid)))) [
      | inl m ↦ rw (e, m) w
      | inr m ↦
          rw (e, m)
            (on_success_keeps Bounded s (delete_locked d C id s uid now) w (λ s' h.
              let (references, same) = delete_locked-erased d C id s uid now h in
              subst Bounded (sym same)
                (assign-AllBounded s.users (account_key d C id uid) none tt w)))
    ]
  ]

  replace-AllBounded :
      (s : MemoryStore C) (uid : List Rune) (digest : List ℕ) (expires_at now : Time)
      → Bounded s
      → Bounded (replace_recovery_code d C id s uid digest expires_at now).0
  unfolding replace_recovery_code
  replace-AllBounded s uid digest expires_at now w =
      on_success_keeps Bounded s (replace_checked d C id s (trim_space uid) digest expires_at now) w
        (λ s' h.
          subst Bounded
            (sym (replace_checked-replaced d C id s (trim_space uid) digest expires_at now h)) w)

  step-AllBounded :
      (s : MemoryStore C) (c : Call C) → AllBounded s.users → AllBounded (step d C id s c).users
  unfolding step put_ceremony consume_ceremony consume_registration_ceremony
  step-AllBounded s (puts_ceremony key r) w =
      subst AllBounded
        (sym (
          placed-users d C id s (credential_reference d key) r
            (s.ceremonies (credential_reference d key))))
        w
  step-AllBounded s (consumes key purpose app now) w =
      subst AllBounded
        (sym (
          taken-users d C id s (credential_reference d key) (matching d C id purpose app now)
            (s.ceremonies (credential_reference d key))))
        w
  step-AllBounded s (consumes_registration key app now) w =
      subst AllBounded
        (sym (
          taken-users d C id s (credential_reference d key) (matching_registration d C id app now)
            (s.ceremonies (credential_reference d key))))
        w
  step-AllBounded s (replaces_code uid digest expires_at now) w =
      replace-AllBounded s uid digest expires_at now w
  step-AllBounded s (creates user c now) w = create-AllBounded s user c now w
  step-AllBounded s (recovers user c digest now) w = recover-AllBounded s user c digest now w
  step-AllBounded s (updates raw_id version c now) w = update-AllBounded s raw_id version c now w
  step-AllBounded s (revokes uid reference now) w = revoke-AllBounded s uid reference now w
  step-AllBounded s (deletes uid now) w = delete-AllBounded s uid now w

  run_keeps :
      (s : MemoryStore C) (cs : List (Call C))
      → AllBounded s.users
      → AllBounded (run d C id s cs).users
  unfolding run
  run_keeps s [] w = w
  run_keeps s (c ∷ cs) w = run_keeps (step d C id s c) cs (step-AllBounded s c w)

  -- After any calls on a new store, every account has at least 1 and at most 8 credentials: a
  -- revocation never takes the last one.
  pub run-AllBounded :
      (cs : List (Call C)) → AllBounded (run d C id (new_memory_store d C id) cs).users
  unfolding new_memory_store
  run-AllBounded cs = run_keeps (new_memory_store d C id) cs (λ key. tt)
