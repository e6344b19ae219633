-- ===== src/LongMemory/Context/Redeem/Revoked.antt =====
-- What a revocation does to the capabilities that were issued before it.
use conclution_ai_teacher.Prelude.{
  ℕ, ◌≡◌, ◌≢◌, sym, ap, ◌∙◌, inl, inr, Bool, false, List, Option, some, Result, ok, err,
  Result-cases,
}
use mathlib.Core.Path.{subst}
use conclution_ai_teacher.Prelude.Int.{◌≤ℤ◌}
use conclution_ai_teacher.Prelude.Clock.{Time, of_unix}
use conclution_ai_teacher.Prelude.Text.{Text, Rune}
use conclution_ai_teacher.LongMemory.Store.{
  MemoryError, MemoryStore, consume_capability, disable_and_delete,
}
use conclution_ai_teacher.LongMemory.Store.Generations.{
  Call, run, run_grows, generation_of, revoked-Refused,
}
use conclution_ai_teacher.LongMemory.Manager.{Envelope, capability_token, Keys, principal_key}
use conclution_ai_teacher.LongMemory.Context.{read_token, begin_context}
use conclution_ai_teacher.LongMemory.Context.Redeem.{consume_token}
use conclution_ai_teacher.LongMemory.Context.Redeem.Once.{
  Redemption, redeem, redeem-Uses, open_token-read, read_once,
}
use conclution_ai_teacher.LongMemory.Context.Redeem.RoundTrip.{Carries}
use conclution_ai_teacher.LongMemory.Context.Redeem.Issued.{Lasts, begin_context-Begun}

ok-err : {A : Type 0} {a : A} {x : MemoryError} → ◌≢◌ {A = Result MemoryError A} (ok a) (err x)
ok-err h = cc

module _ (k : Keys) where
  -- The envelope of an issued capability is under the generation of that time.
  begin_context-read :
      (s : MemoryStore) (cancelled : Bool) (uid app : List Rune) (u : Text)
      (random : Option (List ℕ)) (now : Time) (token : Text)
      → Carries k capability_token
      → Lasts random now now
      → principal_key k uid ≡ ok u
      → begin_context k s cancelled uid app random now ≡ ok (some token)
      → (e : Envelope) × (read_token k capability_token uid app token ≡ ok (u, e))
        × (e.generation ≡ generation_of s u)
  begin_context-read s cancelled uid app u random now token laws lasts named h =
      let ((p, _, (e, opened, _, same, _), _, _, _), _) =
        begin_context-Begun k s cancelled uid app u random now now token laws lasts named h in
      let (read, _) = open_token-read k capability_token uid app token now opened in (e, read, same)

  consume_token-err :
      (s : MemoryStore) (cancelled : Bool) (now : Time) (u : Text) (e : Envelope) {x : MemoryError}
      → consume_capability s cancelled u e.generation
          (k.use_mac e.id u e.app_id_digest)
          (of_unix e.expires_at)
          now
        ≡ (s, err x)
      → (consume_token k s cancelled now u e).1 ≡ err x
  unfolding consume_token
  consume_token-err s cancelled now u e h = ap (λ y. y.1) h

  -- Where the tokens decode and unseal to what was encoded and sealed, 28 random bytes were read
  -- and the clock is a second past the Unix epoch: a capability that was issued before its owner
  -- withdrew the consent is redeemed by neither way afterwards, at any time and even if the
  -- consent is given again, whatever calls come between.
  pub redeem-revoked :
      (s : MemoryStore) (cancelled cancelled' : Bool) (uid app : List Rune) (u : Text)
      (random : Option (List ℕ)) (now revoked_at later : Time) (token : Text) (cs cs' : List Call)
      (r : Redemption)
      → Carries k capability_token
      → Lasts random now now
      → principal_key k uid ≡ ok u
      → begin_context k s cancelled uid app random now ≡ ok (some token)
      → (disable_and_delete (run s cs) false u revoked_at).1 ≡ ok tt
      → (x : MemoryError) × ((redeem k r
            (run (disable_and_delete (run s cs) false u revoked_at).0 cs')
            cancelled'
            uid
            app
            token
            later).1
          ≡ err x)
  redeem-revoked s cancelled cancelled' uid app u random now revoked_at later token cs cs' r laws
        lasts named h revoked =
      let after = run (disable_and_delete (run s cs) false u revoked_at).0 cs' in
      elim (Result-cases (redeem k r after cancelled' uid app token later).1) [
        | inr e ↦ e
        | inl (w, redeemed) ↦
            let (e, read, same) =
              begin_context-read s cancelled uid app u random now token laws lasts named h in
            let (u', e', read', used, _) =
              redeem-Uses k r after cancelled' uid app token later redeemed in
            let owner : ◌≡◌ {A = Text × Envelope} (u, e) (u', e') = read_once (sym read ∙ read') in
            let (_, refuses, _) =
              revoked-Refused (run s cs) u e.generation revoked_at cs' revoked
                (subst (λ x. x ≤ℤ generation_of (run s cs) u) (sym same) (run_grows s cs u)) in
            let (x, refused) =
              refuses cancelled' (k.use_mac e.id u e.app_id_digest) (of_unix e.expires_at) later in
            let refused' : (consume_token k after cancelled' later u e).1 ≡ err x =
              consume_token-err after cancelled' later u e refused in
            let never =
              subst (λ o. (consume_token k after cancelled' later o.0 o.1).1 ≡ err x) owner
                refused' in
            absurd (ok-err (sym used ∙ never))
      ]
