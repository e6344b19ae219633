-- ===== src/Passkey/Calls/Recovery.antt =====
-- A recovery code that was used is gone.
use conclution_ai_teacher.Prelude.{
  ℕ, ◌≡◌, ◌≢◌, refl, ap, ◌∙◌, inl, inr, List, [], ◌∷◌, Option, none, some, arith, ok, err,
  Result-cases,
}
use conclution_ai_teacher.Prelude.Clock.{Time}
use conclution_ai_teacher.Prelude.Text.{Text, assign_other, assign-none, assign_same, trim_space}
use conclution_ai_teacher.Passkey.Store.{recovery_code, User, Digests, validate_credential_creation}
use conclution_ai_teacher.Passkey.Memory.{
  MemoryRecoveryCode, MemoryStore, on_success, account_key, code_key, drop_code, load_recovery_user,
}
use conclution_ai_teacher.Passkey.Accounts.{recover_locked, create_recovery_credential}
use conclution_ai_teacher.Passkey.Calls.{Call, replaces_code, step, run}
use conclution_ai_teacher.Passkey.Calls.Effects.{on_success_ok, recover_locked-recovered}
use conclution_ai_teacher.Passkey.Calls.Relation.{
  Effect, kept, places, takes, takes_registration, replaces, joins, returns, advances, loses, ends,
  step-Effect,
}

module _ (d : Digests) (C : Type 0) (id : C → List ℕ) where
  -- No call issues a code with this key.
  abbrev NotIssued : Text → Call C → Type 0
  NotIssued key (replaces_code uid digest expires_at now) = code_key d C id digest ≢ key
  NotIssued key _ = Unit {0}

  abbrev pub NoneIssued : Text → List (Call C) → Type 0
  NoneIssued key [] = Unit {0}
  NoneIssued key (c ∷ cs) = NotIssued key c × NoneIssued key cs

  drop_none :
      (index : Text → Option Text) (found : Option MemoryRecoveryCode) (key : Text)
      → index key ≡ none
      → drop_code d C id index found key ≡ none
  drop_none index none key h = h
  drop_none index (some r) key h = assign-none (code_key d C id r.digest) key index h

  Effect-unindexed :
      {s s' : MemoryStore C} {c : Call C} (key : Text)
      → Effect d C id s c s'
      → NotIssued key c
      → s.recovery_by_code key ≡ none
      → s'.recovery_by_code key ≡ none
  Effect-unindexed key (kept c) n h = h
  Effect-unindexed key (places ceremony_id r) n h = h
  Effect-unindexed key (takes ceremony_id purpose app now) n h = h
  Effect-unindexed key (takes_registration ceremony_id app now) n h = h
  Effect-unindexed {s = s} key (replaces uid digest expires_at now) n h =
      let account = account_key d C id (trim_space uid) in
      assign_other (code_key d C id digest) key (some account)
        (drop_code d C id s.recovery_by_code (s.recovery account)) n
      ∙ drop_none s.recovery_by_code (s.recovery account) key h
  Effect-unindexed key (joins user c now stored) n h = h
  Effect-unindexed {s = s} key (returns user c digest now stored) n h =
      assign-none (code_key d C id digest) key s.recovery_by_code h
  Effect-unindexed key (advances raw_id expected c now m user f v) n h = h
  Effect-unindexed key (loses uid reference now user) n h = h
  Effect-unindexed {s = s} key (ends uid now references) n h =
      drop_none s.recovery_by_code (s.recovery (account_key d C id uid)) key h

  run_unindexed :
      (s : MemoryStore C) (cs : List (Call C)) (key : Text)
      → NoneIssued key cs
      → s.recovery_by_code key ≡ none
      → (run d C id s cs).recovery_by_code key ≡ none
  unfolding run
  run_unindexed s [] key n h = h
  run_unindexed s (c ∷ cs) key n h =
      run_unindexed (step d C id s c) cs key n.1
        (Effect-unindexed key (step-Effect d C id s c) n.0 h)

  recover_unindexed :
      (s : MemoryStore C) (user : User C) (c : C) (digest : List ℕ) (now : Time)
      → (create_recovery_credential d C id s user c digest now).1 ≡ ok tt
      → (create_recovery_credential d C id s user c digest now).0.recovery_by_code
          (code_key d C id digest)
        ≡ none
  unfolding create_recovery_credential
  recover_unindexed s user c digest now h =
      let (s', made, same) = on_success_ok d C id s (recover_locked d C id s user c digest now) h in
      let (s'', _, used) = recover_locked-recovered d C id s user c digest now made in
      ap (λ x. x.recovery_by_code (code_key d C id digest)) (same ∙ used)
      ∙ assign_same (code_key d C id digest) none s''.recovery_by_code

  unindexed_refused :
      (s : MemoryStore C) (user : User C) (c : C) (digest : List ℕ) (now : Time)
      → s.recovery_by_code (code_key d C id digest) ≡ none
      → recover_locked d C id s user c digest now ≡ err recovery_code
  unfolding recover_locked
  unindexed_refused s user c digest now h =
      elim (Result-cases (validate_credential_creation d C id user c now)) [
        | inr (x, v) ↦ rw v refl
        | inl (u, v) ↦ rw (v, h) refl
      ]

  -- The code gives no account and no credential.
  abbrev pub Spent : MemoryStore C → List ℕ → Type 0
  Spent s digest =
      ((user : User C) (c : C) (now : Time)
        → create_recovery_credential d C id s user c digest now ≡ (s, err recovery_code))
      × ((now : Time) → load_recovery_user d C id s digest now ≡ err recovery_code)

  unindexed-Spent :
      (s : MemoryStore C) (digest : List ℕ)
      → s.recovery_by_code (code_key d C id digest) ≡ none
      → Spent s digest
  unfolding create_recovery_credential load_recovery_user
  unindexed-Spent s digest h = (
    λ user c now. ap (on_success s) (unindexed_refused s user c digest now h),
    λ now. ground (arith, h),
  )

  -- After a recovery code gave a credential, and after any calls that issue no code with the same
  -- key, the code gives no further credential to any account, leaves the store as it is, and loads
  -- no account.
  pub recover-Spent :
      (s : MemoryStore C) (user : User C) (c : C) (digest : List ℕ) (now : Time)
      (cs : List (Call C))
      → (create_recovery_credential d C id s user c digest now).1 ≡ ok tt
      → NoneIssued (code_key d C id digest) cs
      → Spent (run d C id (create_recovery_credential d C id s user c digest now).0 cs) digest
  recover-Spent s user c digest now cs h n =
      let s' = (create_recovery_credential d C id s user c digest now).0 in
      unindexed-Spent (run d C id s' cs) digest
        (run_unindexed s' cs (code_key d C id digest) n (recover_unindexed s user c digest now h))
