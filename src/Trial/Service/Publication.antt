-- ===== src/Trial/Service/Publication.antt =====
-- A verdict is published on the very record that the verifier saw, or not at all.
use conclution_ai_teacher.Prelude.Text.{Text}
use conclution_ai_teacher.Prelude.{
  ℕ, ◌<◌, ◌≡◌, refl, ap, sym, ◌∙◌, inl, inr, Bool, List, [], ◌∷◌, ◌++◌, some, arith, Result, ok,
  err, Result-cases,
}
use mathlib.Core.Path.{subst}
use conclution_ai_teacher.Prelude.Int.{ℤ}
use conclution_ai_teacher.Prelude.Clock.{Time}
use conclution_ai_teacher.Trial.Ledger.{TrialError, Event, Record, pending, validate_record}
use conclution_ai_teacher.Trial.Memory.{MemoryStore, find, read, applied, apply}
use conclution_ai_teacher.Trial.Memory.Bounds.{
  Call, applies, step, run, WellFormed, step-WellFormed, run_keeps, applied-found,
}
use conclution_ai_teacher.Trial.Memory.Runs.{NoCreations}
use conclution_ai_teacher.Trial.Memory.Swap.{Past, run-Past, applied-stored, Past-refused}
use conclution_ai_teacher.Trial.Owner.{Owner, document_key}
use conclution_ai_teacher.Prelude.Text.{Rune}
use conclution_ai_teacher.Trial.Service.{
  Snapshot, snapshot, Verdict, Contexts, event_of_answer, open_evaluation, publish, evaluate,
}
use conclution_ai_teacher.Trial.Service.Verifying.{
  read-found, run-Kept, answer-event, publish-applied, applied-Kept, transition-verdict,
  ok-injective, Kept-transition, Kept, with_verdict,
}

module _ (mac : List Rune → List ℕ) where
  open-found :
      (s : MemoryStore) (ctx : Contexts) (owner : Owner) (id : Text) (generation : ℤ) (now : Time)
      {key : Text} {r : Record}
      → open_evaluation mac s ctx owner id generation now ≡ ok (key, r)
      → (document_key mac owner id ≡ ok key)
        × (find key s.records ≡ some r)
        × (validate_record r ≡ ok tt)
        × (r.status ≡ pending)
        × (r.generation ≡ generation)
  unfolding open_evaluation
  open-found s ctx owner id generation now {key = key} {r = r} h =
      elim (Result-cases (document_key mac owner id)) [
        | inr (e, d) ↦ absurd (ground arith)
        | inl (k, d) ↦ elim (Result-cases (read s ctx.at_read k now)) [
          | inr (e, f) ↦ absurd (ground arith)
          | inl (r', f) ↦
              let (found, v) = read-found s ctx.at_read k now f in ground (arith, found, v)
        ]
      ]

  evaluate-closed :
      (s : MemoryStore) (ctx : Contexts) (owner : Owner) (id : Text) (generation : ℤ)
      (verify : Snapshot → Result TrialError Verdict) (now later : Time) (cs : List Call)
      {e : TrialError}
      → open_evaluation mac s ctx owner id generation now ≡ err e
      → evaluate mac s ctx owner id generation verify now cs later ≡ (s, err e)
  unfolding evaluate
  evaluate-closed s ctx owner id generation verify now later cs o = rw o refl

  evaluate-open :
      (s : MemoryStore) (ctx : Contexts) (owner : Owner) (id : Text) (generation : ℤ)
      (verify : Snapshot → Result TrialError Verdict) (now later : Time) (cs : List Call)
      {key : Text} {r : Record}
      → open_evaluation mac s ctx owner id generation now ≡ ok (key, r)
      → evaluate mac s ctx owner id generation verify now cs later
        ≡ publish
            (run s cs)
            ctx
            key
            id
            generation
            later
            (event_of_answer ctx (verify (snapshot id r)))
  unfolding evaluate
  evaluate-open s ctx owner id generation verify now later cs o = rw o refl

  -- On a well-formed store, where no other call creates a trial under the same key meanwhile:
  -- whatever calls other requests make during the verification, an evaluation that succeeds does
  -- so before the deadline, returns the snapshot of the pending record, with the generation asked
  -- for, that the verifier saw, changed to the status of the verdict and the next generation and
  -- in nothing else, and leaves exactly that record in the store under the key.
  pub evaluate-published :
      (s : MemoryStore) (ctx : Contexts) (owner : Owner) (id key : Text) (generation : ℤ)
      (verify : Snapshot → Result TrialError Verdict) (now later : Time) (cs : List Call)
      {snap : Snapshot}
      → WellFormed s
      → document_key mac owner id ≡ ok key
      → NoCreations key cs
      → (evaluate mac s ctx owner id generation verify now cs later).1 ≡ ok snap
      → (r : Record) × (v : Verdict) × (find key s.records ≡ some r)
        × (r.generation ≡ generation)
        × (r.status ≡ pending)
        × (verify (snapshot id r) ≡ ok v)
        × (snap ≡ snapshot id (with_verdict r v))
        × (find key (evaluate mac s ctx owner id generation verify now cs later).0.records
            ≡ some (with_verdict r v))
        × (later < r.expires_at)
  evaluate-published s ctx owner id key generation verify now later cs {snap = snap} w d n h =
      elim (Result-cases (open_evaluation mac s ctx owner id generation now)) [
        | inr (e, o) ↦
            absurd (cc (evaluate-closed s ctx owner id generation verify now later cs o, h))
        | inl ((k, r), o) ↦
            let (d', found, valid, waiting, gen) = open-found s ctx owner id generation now o in
            let same_key : k ≡ key = ok-injective (sym d' ∙ d) in
            let shown =
              ap (λ p. p.1) (sym (evaluate-open s ctx owner id generation verify now later cs o))
              ∙ h in
            let (event, next, answered, a, e, kept_there) =
              publish-applied (run s cs) ctx k id generation later
                (event_of_answer ctx (verify (snapshot id r))) shown in
            let (v, verified, ev) = answer-event ctx (verify (snapshot id r)) answered in
            let kept =
              run-Kept s cs k r w (subst (λ x. NoCreations x cs) (sym same_key) n) (inl found) in
            let t = applied-Kept (run s cs) ctx.at_apply k event later r kept (
              subst (λ g. applied (run s cs) ctx.at_apply k g event later ≡ ok next) (sym gen) a) in
            let (to_verdict, in_time) = transition-verdict r v event later valid ev t in
            (
              r,
              v,
              subst (λ x. find x s.records ≡ some r) same_key found,
              gen,
              waiting,
              verified,
              e ∙ ap (snapshot id) to_verdict,
              subst
                  (λ x.
                    find x (evaluate mac s ctx owner id generation verify now cs later).0.records
                    ≡ some (with_verdict r v))
                  same_key
                  (ap (λ p. find k p.0.records)
                      (evaluate-open s ctx owner id generation verify now later cs o)
                    ∙ kept_there
                    ∙ ap some to_verdict),
              in_time,
            )
      ]

  run-append : (s : MemoryStore) (cs cs' : List Call) → run s (cs ++ cs') ≡ run (run s cs) cs'
  unfolding run
  run-append s [] cs' = refl
  run-append s (c ∷ cs) cs' = run-append (step s c) cs cs'

  -- An update of the trial, under whatever generation, succeeds during the verification.
  overtaken-Past :
      (s : MemoryStore) (key : Text) (r : Record) (before after : List Call) (cancelled : Bool)
      (generation : ℤ) (event : Event) (then : Time) {next : Record}
      → WellFormed s
      → NoCreations key before
      → NoCreations key after
      → find key s.records ≡ some r
      → applied (run s before) cancelled key generation event then ≡ ok next
      → Past r.generation (
          find key
            (run s (before ++ (applies cancelled key generation event then ∷ after))).records)
  unfolding run
  overtaken-Past s key r before after cancelled generation event then {next = next} w n n' f a =
      let (v, (x, f', t)) = applied-found (run s before) cancelled key generation event then a in
      let kept = subst (Kept r) f' (run-Kept s before key r w n (inl f)) in
      subst (λ x. Past r.generation (find key x.records))
        (sym (run-append s before (applies cancelled key generation event then ∷ after)))
        (run-Past (step (run s before) (applies cancelled key generation event then)) after key
          r.generation
          (step-WellFormed (run s before) (applies cancelled key generation event then)
            (run_keeps s before w))
          n'
          (subst (Past r.generation)
            (sym (applied-stored (run s before) cancelled key generation event then a))
            (Kept-transition r x generation event then next kept t)))

  publish-Past :
      (s : MemoryStore) (ctx : Contexts) (key id : Text) (generation : ℤ) (later : Time)
      (answer : Result TrialError Event)
      → Past generation (find key s.records)
      → (e : TrialError) × (publish s ctx key id generation later answer ≡ (s, err e))
  unfolding publish apply
  publish-Past s ctx key id generation later (err e) p = (e, refl)
  publish-Past s ctx key id generation later (ok event) p =
      let (e, a) = Past-refused s ctx.at_apply key generation event later p in (e, rw a refl)

  -- On a well-formed store, where no other call creates a trial under the same key meanwhile: if
  -- any update of the trial succeeds during the verification, the evaluation fails.
  pub evaluate-overtaken :
      (s : MemoryStore) (ctx : Contexts) (owner : Owner) (id key : Text) (generation : ℤ)
      (verify : Snapshot → Result TrialError Verdict) (now later : Time) (before after : List Call)
      (cancelled : Bool) (generation' : ℤ) (event : Event) (then : Time) {next : Record}
      → WellFormed s
      → document_key mac owner id ≡ ok key
      → NoCreations key before
      → NoCreations key after
      → applied (run s before) cancelled key generation' event then ≡ ok next
      → (e : TrialError) × ((evaluate mac s ctx owner id generation verify now
            (before ++ (applies cancelled key generation' event then ∷ after))
            later).1
          ≡ err e)
  evaluate-overtaken s ctx owner id key generation verify now later before after cancelled
        generation' event then w d n n' a =
      let cs = before ++ (applies cancelled key generation' event then ∷ after) in
      elim (Result-cases (open_evaluation mac s ctx owner id generation now)) [
        | inr (e, o) ↦
            (e, ap (λ p. p.1) (evaluate-closed s ctx owner id generation verify now later cs o))
        | inl ((k, r), o) ↦
            let (d', found, _, _, gen) = open-found s ctx owner id generation now o in
            let same_key : k ≡ key = ok-injective (sym d' ∙ d) in
            let past =
              overtaken-Past s key r before after cancelled generation' event then w n n'
                (subst (λ x. find x s.records ≡ some r) same_key found) a in
            let (e, p) =
              publish-Past (run s cs) ctx k id generation later
                (event_of_answer ctx (verify (snapshot id r)))
                (subst (λ x. Past x (find k (run s cs).records)) gen
                  (subst (λ x. Past r.generation (find x (run s cs).records)) (sym same_key)
                    past)) in
            (e, ap (λ p. p.1) (evaluate-open s ctx owner id generation verify now later cs o ∙ p))
      ]
