-- ===== src/LongMemory/Dispatcher/Processed.antt =====
-- What a job leaves in the store.
use conclution_ai_teacher.Prelude.{
  ℕ, ◌+◌, ◌≤◌, ◌<◌, ◌≡◌, ◌≢◌, refl, sym, ap, ◌∙◌, inl, inr, Bool, true, false, List, Option, some,
  arith, Result, ok, err, Option-cases, Result-cases,
}
use mathlib.Core.Path.{subst}
use conclution_ai_teacher.Prelude.Int.{ℤ}
use conclution_ai_teacher.Prelude.Clock.{Time}
use conclution_ai_teacher.Prelude.Text.{Text, Rune}
use conclution_ai_teacher.LongMemory.Store.{
  default_ttl, MemoryError, invalid_state, disabled, stale_generation, not_found, replayed,
  passed_on, Consent, MemoryRecord, MemoryStore, status, disable_and_delete, put_record, check_put,
}
use conclution_ai_teacher.LongMemory.Store.Generations.{
  Call, run, run_grows, generation_of, revoked-Refused, Refused,
}
use conclution_ai_teacher.LongMemory.Store.Validity.{AllElsewhere}
use conclution_ai_teacher.LongMemory.Manager.{
  Payload, Keys, principal_key, manager_status, prepare_save, save, load,
}
use conclution_ai_teacher.LongMemory.Manager.RoundTrip.{Opens, load-save, prepare_save-eq}
use conclution_ai_teacher.LongMemory.Dispatcher.{
  MemoryJob, Observations, Outcome, outcome_saved, save_outcome, prepare_process, process,
}

saved-ok : (r : Result MemoryError (Unit {0})) → save_outcome r ≡ outcome_saved → r ≡ ok tt
saved-ok (ok u) h = refl
saved-ok (err invalid_state) h = cc
saved-ok (err disabled) h = cc
saved-ok (err stale_generation) h = cc
saved-ok (err not_found) h = cc
saved-ok (err replayed) h = cc
saved-ok (err passed_on) h = cc

some_once : {x y : Outcome} → ◌≡◌ {A = Option Outcome} (some x) (some y) → x ≡ y
some_once e = cc e

err_ok : {x : MemoryError} → ◌≢◌ {A = Result MemoryError (Unit {0})} (err x) (ok tt)
err_ok h = cc

saved_key : {x y : Text} → ◌≡◌ {A = Result MemoryError Text} (ok x) (ok y) → x ≡ y
saved_key e = cc e

put_cancelled :
    (s : MemoryStore) (key : Text) (g : ℤ) (r : MemoryRecord) (now : Time)
    → (put_record s true key g r now).1 ≢ ok tt
unfolding put_record check_put
put_cancelled s key g r now h = cc

module _ (k : Keys) where
  manager_status-consent :
      (s : MemoryStore) (cancelled : Bool) (uid : List Rune) {c : Consent}
      → manager_status k s cancelled uid ≡ ok c
      → (key : Text) × (principal_key k uid ≡ ok key) × (c ≡ (s.entries key).consent)
  unfolding manager_status status
  manager_status-consent s cancelled uid h = elim (Result-cases (principal_key k uid)) [
    | inr (x, e) ↦ absurd (ground arith)
    | inl (key, e) ↦ (key, e, ground arith)
  ]

  save-live :
      (s : MemoryStore) (cancelled : Bool) (uid : List Rune) (g : ℤ) (p : Payload)
      (random : Option (List ℕ)) (now put_at : Time)
      → (save k s cancelled uid g p random now put_at).1 ≡ ok tt
      → cancelled ≡ false
  unfolding save
  save-live s false uid g p random now put_at h = refl
  save-live s true uid g p random now put_at h =
      elim (Result-cases (prepare_save k uid g p random now)) [
        | inr (x, e) ↦ absurd (ground arith)
        | inl ((key, r), e) ↦ absurd (put_cancelled s key g r put_at (ground arith))
      ]

  save-Refused :
      (s : MemoryStore) (cancelled : Bool) (uid : List Rune) (key : Text) (g : ℤ) (p : Payload)
      (random : Option (List ℕ)) (now put_at : Time)
      → principal_key k uid ≡ ok key
      → Refused s key g
      → (x : MemoryError) × (save k s cancelled uid g p random now put_at ≡ (s, err x))
  unfolding save
  save-Refused s cancelled uid key g p random now put_at named (refuses, _, _) =
      elim (Result-cases (prepare_save k uid g p random now)) [
        | inr (x, e) ↦ (x, rw e refl)
        | inl ((key', r), e) ↦
            let (_, _, named', _, _) = prepare_save-eq k uid g p random now e in
            let same = saved_key (sym named' ∙ named) in
            let (x, refused) = refuses cancelled r put_at in (x, rw (e, same) refused)
      ]

  module _ (candidate : List Rune → Text → Option (Payload × Bool)) where
    prepare_process-eq :
        (s : MemoryStore) (ttl : ℕ) (job : MemoryJob) (o : Observations) {g : ℤ} {p : Payload}
        → prepare_process k candidate s ttl job o ≡ ok (g, p)
        → (key : Text) × (principal_key k job.uid ≡ ok key)
          × (g ≡ generation_of s key)
          × (candidate job.uid job.state_token ≡ some (p, true))
    unfolding prepare_process
    prepare_process-eq s ttl job o h =
        elim (Result-cases (manager_status k s o.status_cancelled job.uid)) [
          | inr (x, e) ↦ absurd (ground arith)
          | inl (c, e) ↦ elim (Option-cases (candidate job.uid job.state_token)) [
            | inl n ↦ absurd (ground arith)
            | inr ((p', found), n) ↦
                let (key, named, same) = manager_status-consent s o.status_cancelled job.uid e in
                (key, named, ground arith, ground arith)
          ]
        ]

    prepare_process-unsaved :
        (s : MemoryStore) (ttl : ℕ) (job : MemoryJob) (o : Observations)
        → prepare_process k candidate s ttl job o ≢ err (some outcome_saved)
    unfolding prepare_process
    prepare_process-unsaved s ttl job o h =
        elim (Result-cases (manager_status k s o.status_cancelled job.uid)) [
          | inr (x, e) ↦ ground arith
          | inl (c, e) ↦ elim (Option-cases (candidate job.uid job.state_token)) [
            | inl n ↦ ground arith
            | inr ((p', found), n) ↦ ground arith
          ]
        ]

    -- What `process` returns when it saves.
    process-save :
        (s s' : MemoryStore) (ttl : ℕ) (job : MemoryJob) (o : Observations) (g : ℤ) (p : Payload)
        → prepare_process k candidate s ttl job o ≡ ok (g, p)
        → process k candidate s s' ttl job o ≡ (
          (save k s' o.save_cancelled job.uid g p o.nonce o.saved_at o.put_at).0,
          some
              (save_outcome (save k s' o.save_cancelled job.uid g p o.nonce o.saved_at o.put_at).1),
        )
    unfolding process
    process-save s s' ttl job o g p e = rw e refl

    process-skip :
        (s s' : MemoryStore) (ttl : ℕ) (job : MemoryJob) (o : Observations) (x : Option Outcome)
        → prepare_process k candidate s ttl job o ≡ err x
        → process k candidate s s' ttl job o ≡ (s', x)
    unfolding process
    process-skip s s' ttl job o x e = rw e refl

    -- `process` changes nothing and reports no saved memory.
    abbrev pub Unsaved : MemoryStore → MemoryStore → ℕ → MemoryJob → Observations → Type 0
    Unsaved s s' ttl job o =
        ((process k candidate s s' ttl job o).0 ≡ s')
        × ((process k candidate s s' ttl job o).1 ≢ some outcome_saved)

    refused-Unsaved :
        (s s' : MemoryStore) (ttl : ℕ) (job : MemoryJob) (o : Observations) (g : ℤ) (p : Payload)
        (x : MemoryError)
        → prepare_process k candidate s ttl job o ≡ ok (g, p)
        → save k s' o.save_cancelled job.uid g p o.nonce o.saved_at o.put_at ≡ (s', err x)
        → Unsaved s s' ttl job o
    refused-Unsaved s s' ttl job o g p x e refused =
        let saving = process-save s s' ttl job o g p e in
        (
          ap (λ y. y.0) saving ∙ ap (λ y. y.0) refused,
          λ h. err_ok (
              sym (ap (λ y. y.1) refused)
              ∙ saved-ok (save k s' o.save_cancelled job.uid g p o.nonce o.saved_at o.put_at).1
                  (some_once (sym (ap (λ y. y.1) saving) ∙ h))),
        )

    abbrev SavedAs : MemoryStore → MemoryStore → ℕ → MemoryJob → Observations → ℤ → Payload → Type 0
    SavedAs s s' ttl job o g p =
        ((save k s' false job.uid g p o.nonce o.saved_at o.put_at).1 ≡ ok tt)
        × ((process k candidate s s' ttl job o).0
            ≡ (save k s' false job.uid g p o.nonce o.saved_at o.put_at).0)

    -- A job that is saved went through `save` with the candidate and the consent's generation.
    saved-save :
        (s s' : MemoryStore) (ttl : ℕ) (job : MemoryJob) (o : Observations) (key : Text)
        → principal_key k job.uid ≡ ok key
        → (process k candidate s s' ttl job o).1 ≡ some outcome_saved
        → (p : Payload) × (candidate job.uid job.state_token ≡ some (p, true))
          × ((save k s' false job.uid (generation_of s key) p o.nonce o.saved_at o.put_at).1
              ≡ ok tt)
          × ((process k candidate s s' ttl job o).0
              ≡ (save k s' false job.uid (generation_of s key) p o.nonce o.saved_at o.put_at).0)
    saved-save s s' ttl job o key named h =
        elim (Result-cases (prepare_process k candidate s ttl job o)) [
          | inr (x, e) ↦
              let skipped = ap (λ y. y.1) (process-skip s s' ttl job o x e) in
              absurd (prepare_process-unsaved s ttl job o (e ∙ ap err (sym skipped ∙ h)))
          | inl ((g, p), e) ↦
              let (key', named', same, found) = prepare_process-eq s ttl job o e in
              let saving = process-save s s' ttl job o g p e in
              let current : g ≡ generation_of s key =
                same ∙ ap (generation_of s) (saved_key (sym named' ∙ named)) in
              let done =
                saved-ok (save k s' o.save_cancelled job.uid g p o.nonce o.saved_at o.put_at).1
                  (some_once (sym (ap (λ y. y.1) saving) ∙ h)) in
              let live =
                save-live s' o.save_cancelled job.uid g p o.nonce o.saved_at o.put_at done in
              let (done', store) =
                subst (λ y. SavedAs s s' ttl job o y p) current
                  (subst
                    (λ c.
                      ((save k s' c job.uid g p o.nonce o.saved_at o.put_at).1 ≡ ok tt)
                      × ((process k candidate s s' ttl job o).0
                          ≡ (save k s' c job.uid g p o.nonce o.saved_at o.put_at).0))
                    live (done, ap (λ y. y.0) saving)) in
              (p, found, done', store)
        ]

    -- Where records unseal and payloads decode to what was sealed and encoded: a job that is
    -- processed with the outcome saved leaves a store from which, until the record expires and
    -- after any calls that leave the entry of the person alone, a load under the generation that
    -- the job read returns the payload that the source gave for the state token.
    pub process-load :
        (s s' : MemoryStore) (ttl : ℕ) (job : MemoryJob) (o : Observations) (key : Text)
        (later : Time) (cs : List Call)
        → Opens k
        → principal_key k job.uid ≡ ok key
        → (process k candidate s s' ttl job o).1 ≡ some outcome_saved
        → AllElsewhere key cs
        → o.put_at ≤ later
        → later < o.saved_at + default_ttl
        → (p : Payload) × (candidate job.uid job.state_token ≡ some (p, true))
          × (load k
                (run (process k candidate s s' ttl job o).0 cs)
                false
                job.uid
                (generation_of s key)
                later
              ≡ ok p)
    process-load s s' ttl job o key later cs laws named h n a b =
        let (p, found, done, same) = saved-save s s' ttl job o key named h in
        (
          p,
          found,
          subst (λ m. load k (run m cs) false job.uid (generation_of s key) later ≡ ok p) (sym same)
              (load-save k s' job.uid key (generation_of s key) p o.nonce o.saved_at o.put_at later
                cs laws named done n a b),
        )

    -- Where the person withdraws the consent between the reading of the status and the saving,
    -- with any calls before and after the withdrawal, a job changes nothing in the store and its
    -- outcome is not saved.
    pub process-revoked :
        (s : MemoryStore) (ttl : ℕ) (job : MemoryJob) (o : Observations) (key : Text) (now : Time)
        (cs cs' : List Call)
        → principal_key k job.uid ≡ ok key
        → (disable_and_delete (run s cs) false key now).1 ≡ ok tt
        → Unsaved s (run (disable_and_delete (run s cs) false key now).0 cs') ttl job o
    process-revoked s ttl job o key now cs cs' named revoked =
        let s' = run (disable_and_delete (run s cs) false key now).0 cs' in
        let refused =
          revoked-Refused (run s cs) key (generation_of s key) now cs' revoked
            (run_grows s cs key) in
        elim (Result-cases (prepare_process k candidate s ttl job o)) [
          | inr (x, e) ↦
              let skipped = process-skip s s' ttl job o x e in
              (
                ap (λ y. y.0) skipped,
                λ h.
                    prepare_process-unsaved s ttl job o
                      (e ∙ ap err (sym (ap (λ y. y.1) skipped) ∙ h)),
              )
          | inl ((g, p), e) ↦
              let (key', named', same, _) = prepare_process-eq s ttl job o e in
              let current : g ≡ generation_of s key =
                same ∙ ap (generation_of s) (saved_key (sym named' ∙ named)) in
              let (x, kept) =
                save-Refused s' o.save_cancelled job.uid key g p o.nonce o.saved_at o.put_at named
                  (subst (Refused s' key) (sym current) refused) in
              refused-Unsaved s s' ttl job o g p x e kept
        ]
