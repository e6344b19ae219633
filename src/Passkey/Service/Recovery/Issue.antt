-- ===== src/Passkey/Service/Recovery/Issue.antt =====
-- A recovery code that was issued leads back to the account.
use conclution_ai_teacher.Prelude.{
  ◌++◌, ℕ, ◌+◌, ◌≤◌, ◌<◌, ◌≡◌, ◌≢◌, refl, sym, ap, ◌∙◌, inl, inr, false, List, [], ◌∷◌, Option,
  none, some, arith, ok, Result-cases, Option-cases,
}
use mathlib.Core.Path.{subst}
use conclution_ai_teacher.Prelude.Clock.{Time, is_zero}
use conclution_ai_teacher.Prelude.Text.{Text, Rune, text_eq_iff, trim_space, assign_same}
use conclution_ai_teacher.Passkey.Store.{
  User, Digests, credential_reference, recovery_code_ttl, credential_references,
  new_credential_summary,
}
use conclution_ai_teacher.Passkey.Memory.{
  MemoryCredential, MemoryRecoveryCode, MemoryStore, account_key, code_key, validate_indexed,
  validate_all, validate_credential_state, owned_user, replaced, replace_checked,
  replace_recovery_code, code_in_force, load_recovery_user, drop_code,
}
use conclution_ai_teacher.Passkey.Calls.Effects.{
  on_success_ok, owned_user-owned, replace_checked-replaced,
}
use conclution_ai_teacher.Passkey.Service.Recovery.{
  recovery_code_prefix, recovery_code_digest, new_recovery_code, issued, issue_recovery_code,
}

module _ (d : Digests) (C : Type 0) (id : C → List ℕ) where
  -- A valid state stays valid as time passes, whatever else of the store changes.
  validate_indexed-later :
      (user : User C) (now later : Time) (c : C) (found : Option (MemoryCredential C))
      {u : Unit {0}}
      → now ≢ 0
      → now ≤ later
      → validate_indexed d C id user now c found ≡ ok u
      → validate_indexed d C id user later c found ≡ ok tt
  unfolding validate_indexed
  validate_indexed-later user now later c none n le h = absurd (ground arith)
  validate_indexed-later user now later c (some m) n le h =
      elim (Result-cases
        (new_credential_summary d (credential_reference d (id c)) m.created_at m.updated_at)) [
          | inr (x, e) ↦ absurd (ground arith)
          | inl (x, e) ↦ ground (arith, n, le, e, h)
        ]

  validate_all-later :
      (s s' : MemoryStore C) (user : User C) (now later : Time) (cs : List C) {u : Unit {0}}
      → s'.credentials ≡ s.credentials
      → now ≢ 0
      → now ≤ later
      → validate_all d C id s user now cs ≡ ok u
      → validate_all d C id s' user later cs ≡ ok tt
  unfolding validate_all
  validate_all-later s s' user now later [] same n le h = refl
  validate_all-later s s' user now later (c ∷ cs) same n le h =
      elim (Result-cases
        (validate_indexed d C id user now c (s.credentials (credential_reference d (id c))))) [
          | inr (x, e) ↦ absurd (ground arith)
          | inl (u, e) ↦
              let first =
                validate_indexed-later user now later c
                  (s.credentials (credential_reference d (id c))) n le e in
              let rest = validate_all-later s s' user now later cs same n le (ground arith) in
              rw (same, first, rest) refl
        ]

  validate_credential_state-later :
      (s s' : MemoryStore C) (user : User C) (now later : Time) {references : List Text}
      → s'.credentials ≡ s.credentials
      → now ≢ 0
      → now ≤ later
      → validate_credential_state d C id s user now ≡ ok references
      → validate_credential_state d C id s' user later ≡ ok references
  unfolding validate_credential_state
  validate_credential_state-later s s' user now later same n le h =
      elim (Result-cases (credential_references d C id user.credentials)) [
        | inr (x, e) ↦ absurd (ground arith)
        | inl (r, e) ↦ elim (Result-cases (validate_all d C id s user now user.credentials)) [
          | inr (x, v) ↦ absurd (ground arith)
          | inl (u, v) ↦
              let v' = validate_all-later s s' user now later user.credentials same n le v in
              ground (arith, e, v, v', h)
        ]
      ]

  -- What a replacement that succeeds has checked.
  replace_checked-user :
      (s : MemoryStore C) (uid : List Rune) (digest : List ℕ) (expires_at now : Time)
      {s' : MemoryStore C}
      → replace_checked d C id s uid digest expires_at now ≡ ok s'
      → (user : User C) × (references : List Text) × (s.users (account_key d C id uid) ≡ some user)
        × (validate_credential_state d C id s user now ≡ ok references)
        × (now ≢ 0)
  unfolding replace_checked
  replace_checked-user s uid digest expires_at now h =
      elim (Result-cases (owned_user d C id uid (s.users (account_key d C id uid)))) [
        | inr (x, e) ↦ absurd (ground arith)
        | inl (user, e) ↦ elim (Result-cases (validate_credential_state d C id s user now)) [
          | inr (x, v) ↦ absurd (ground arith)
          | inl (references, v) ↦ (
            user,
            references,
            owned_user-owned d C id uid (s.users (account_key d C id uid)) e,
            v,
            ground arith,
          )
        ]
      ]

  load_recovery_user-eq :
      (s : MemoryStore C) (digest : List ℕ) (later : Time) (key : Text) (r : MemoryRecoveryCode)
      (user : User C) {references : List Text}
      → is_zero later ≡ false
      → s.recovery_by_code (code_key d C id digest) ≡ some key
      → s.recovery key ≡ some r
      → code_in_force d C id (some r) digest later ≡ ok tt
      → s.users key ≡ some user
      → validate_credential_state d C id s user later ≡ ok references
      → load_recovery_user d C id s digest later ≡ ok user
  unfolding load_recovery_user
  load_recovery_user-eq s digest later key r user z i h f u v = rw (z, i, h, f, u, v) refl

  in_force :
      (digest : List ℕ) (now later : Time)
      → now ≢ 0
      → now ≤ later
      → later < now + recovery_code_ttl
      → code_in_force d C id
          (some (record { digest = digest; expires_at = now + recovery_code_ttl; issued_at = now }))
          digest
          later
        ≡ ok tt
  unfolding code_in_force
  in_force digest now later n le b = ground (arith, text_eq_iff digest digest, n, le, b)

  load-replaced :
      (s : MemoryStore C) (key : Text) (digest : List ℕ) (now later : Time) (user : User C)
      {references : List Text}
      → s.users key ≡ some user
      → validate_credential_state d C id s user now ≡ ok references
      → now ≢ 0
      → now ≤ later
      → later < now + recovery_code_ttl
      → load_recovery_user d C id
          (replaced d C id s key digest (now + recovery_code_ttl) now)
          digest
          later
        ≡ ok user
  load-replaced s key digest now later user found v n le b =
      let s' = replaced d C id s key digest (now + recovery_code_ttl) now in
      let indexed =
        assign_same (code_key d C id digest) (some key)
          (drop_code d C id s.recovery_by_code (s.recovery key)) in
      let code : MemoryRecoveryCode = record {
        digest = digest;
        expires_at = now + recovery_code_ttl;
        issued_at = now;
      } in
      let held = assign_same key (some code) s.recovery in
      let valid = validate_credential_state-later s s' user now later refl n le v in
      load_recovery_user-eq s' digest later key code user (ground (arith, n, le)) indexed held
        (in_force digest now later n le b) found valid

  new_recovery_code-digest :
      (uid : List Rune) (random : Option (List ℕ)) {recovery_text : Text} {digest : List ℕ}
      → new_recovery_code d C id uid random ≡ ok (recovery_text, digest)
      → recovery_code_digest d recovery_text ≡ ok digest
  unfolding new_recovery_code
  new_recovery_code-digest uid random h = elim (Option-cases random) [
    | inl n ↦ absurd (ground arith)
    | inr (material, n) ↦
        elim (Result-cases (recovery_code_digest d (recovery_code_prefix ++ d.encode material))) [
          | inr (x, e) ↦ absurd (ground arith)
          | inl (digest, e) ↦ ground (arith, n, e, h)
        ]
  ]

  issued-replaced :
      (s : MemoryStore C) (uid : List Rune) (now : Time) (recovery_text : Text) (digest : List ℕ)
      {t : Text}
      → (issued d C id s uid now (ok (recovery_text, digest))).1 ≡ ok t
      → (t ≡ recovery_text)
        × ((replace_recovery_code d C id s uid digest (now + recovery_code_ttl) now).1 ≡ ok tt)
  issued-replaced s uid now recovery_text digest h =
      elim (Result-cases
        (replace_recovery_code d C id s uid digest (now + recovery_code_ttl) now).1) [
          | inr (x, e) ↦ absurd (ground arith)
          | inl (u, e) ↦ (ground arith, e)
        ]

  -- The code leads to an account of the store, in the store that the issue left.
  abbrev pub LeadsBack : MemoryStore C → MemoryStore C → List Rune → Text → Time → Type 0
  LeadsBack s s' uid recovery_text later =
      (digest : List ℕ) × (user : User C) × (recovery_code_digest d recovery_text ≡ ok digest)
      × (s.users (account_key d C id (trim_space uid)) ≡ some user)
      × (load_recovery_user d C id s' digest later ≡ ok user)

  replace-LeadsBack :
      (s : MemoryStore C) (uid : List Rune) (recovery_text : Text) (digest : List ℕ)
      (now later : Time)
      → recovery_code_digest d recovery_text ≡ ok digest
      → (replace_recovery_code d C id s uid digest (now + recovery_code_ttl) now).1 ≡ ok tt
      → now ≤ later
      → later < now + recovery_code_ttl
      → LeadsBack s
          (replace_recovery_code d C id s uid digest (now + recovery_code_ttl) now).0
          uid
          recovery_text
          later
  unfolding replace_recovery_code
  replace-LeadsBack s uid recovery_text digest now later r h le b =
      let name = trim_space uid in
      let (s', made, left) =
        on_success_ok d C id s (replace_checked d C id s name digest (now + recovery_code_ttl) now)
          h in
      let (user, references, found, valid, n) =
        replace_checked-user s name digest (now + recovery_code_ttl) now made in
      let after =
        left ∙ replace_checked-replaced d C id s name digest (now + recovery_code_ttl) now made in
      (
        digest,
        user,
        r,
        found,
        subst (λ x. load_recovery_user d C id x digest later ≡ ok user) (sym after)
            (load-replaced s (account_key d C id name) digest now later user found valid n le b),
      )

  -- A recovery code whose issue succeeds has a digest, and from its issue to before it expires the
  -- store that the issue left loads by that digest an account, the one that the store before held
  -- under the trimmed uid.
  pub issue-LeadsBack :
      (s : MemoryStore C) (uid : List Rune) (random : Option (List ℕ)) (now later : Time)
      (recovery_text : Text)
      → (issue_recovery_code d C id s uid random now).1 ≡ ok recovery_text
      → now ≤ later
      → later < now + recovery_code_ttl
      → LeadsBack s
          (issue_recovery_code d C id s uid random now).0
          (trim_space uid)
          recovery_text
          later
  unfolding issue_recovery_code
  issue-LeadsBack s uid random now later recovery_text h le b =
      elim (Result-cases (new_recovery_code d C id uid random)) [
        | inr (x, e) ↦ absurd (ground arith)
        | inl ((t, digest), e) ↦
            let passed : issue_recovery_code d C id s uid random now
                ≡ issued d C id s (trim_space uid) now (ok (t, digest)) =
              rw e refl in
            let (same, replaced_ok) =
              issued-replaced s (trim_space uid) now t digest (sym (ap (λ y. y.1) passed) ∙ h) in
            let leads =
              replace-LeadsBack s (trim_space uid) t digest now later
                (new_recovery_code-digest uid random e) replaced_ok le b in
            let left =
              subst (λ x. LeadsBack s x (trim_space uid) t later) (sym (ap (λ y. y.0) passed))
                leads in
            subst
              (λ x.
                LeadsBack s (issue_recovery_code d C id s uid random now).0 (trim_space uid) x
                  later)
              (sym same) left
      ]
