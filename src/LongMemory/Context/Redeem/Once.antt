-- ===== src/LongMemory/Context/Redeem/Once.antt =====
-- Every way of redeeming a capability uses the same digest, whatever the time.
use conclution_ai_teacher.Prelude.{
  ℕ, ◌≡◌, refl, sym, ◌∙◌, inl, inr, Bool, List, Option, arith, Result, ok, err, ◌>>◌, Option-cases,
  Result-cases,
}
use mathlib.Core.Path.{subst}
use conclution_ai_teacher.Prelude.Int.{ℤ}
use conclution_ai_teacher.Prelude.Clock.{Time, of_unix}
use conclution_ai_teacher.Prelude.Text.{Text, Rune}
use conclution_ai_teacher.LongMemory.Store.{MemoryError, MemoryStore}
use conclution_ai_teacher.LongMemory.Store.Generations.{Call, run, consume-once}
use conclution_ai_teacher.LongMemory.Manager.{Payload, Envelope, capability_token, TokenKind, Keys}
use conclution_ai_teacher.LongMemory.Context.{app_id_key, read_token, validate_envelope, open_token}
use conclution_ai_teacher.LongMemory.Context.Redeem.{
  consume_token, prepare_context, consume_context, prepare_session, consume_session_context,
}

-- The two calls that use up a capability.
pub data Redemption : Type 0 where
  by_context : Redemption
  by_session : Option (List ℕ) → Redemption

pub read_once : {A : Type 0} {x y : A} → ◌≡◌ {A = Result MemoryError A} (ok x) (ok y) → x ≡ y
read_once e = cc e

module _ (k : Keys) where
  unfoldable pub redeem :
      Redemption
      → MemoryStore
      → Bool
      → List Rune
      → List Rune
      → Text
      → Time
      → MemoryStore × Result MemoryError (Unit {0})
  redeem by_context s cancelled uid app token now =
      let (s', r) = consume_context k s cancelled uid app token now in (s', r >> ok tt)
  redeem (by_session random) s cancelled uid app token now =
      let (s', r) = consume_session_context k s cancelled uid app token random now in
      (s', r >> ok tt)

  pub open_token-read :
      (kind : TokenKind) (uid app : List Rune) (token : Text) (now : Time) {x : Text × Envelope}
      → open_token k kind uid app token now ≡ ok x
      → (read_token k kind uid app token ≡ ok x)
        × (validate_envelope k (x.1) (x.0) (app_id_key k app) now ≡ ok tt)
  unfolding open_token
  open_token-read kind uid app token now h = elim (Result-cases (read_token k kind uid app token)) [
    | inr (x, e) ↦ absurd (ground arith)
    | inl ((u, e), r) ↦ elim (Result-cases (validate_envelope k e u (app_id_key k app) now)) [
      | inr (x, v) ↦ absurd (ground arith)
      | inl (w, v) ↦ ground arith
    ]
  ]

  prepare_context-read :
      (uid app : List Rune) (token : Text) (now : Time) {u : Text} {e : Envelope} {a : Payload × ℤ}
      → prepare_context k uid app token now ≡ ok (u, e, a)
      → read_token k capability_token uid app token ≡ ok (u, e)
  unfolding prepare_context
  prepare_context-read uid app token now h =
      elim (Result-cases (open_token k capability_token uid app token now)) [
        | inr (x, e) ↦ absurd (ground arith)
        | inl (x, o) ↦
            let (read, _) = open_token-read capability_token uid app token now o in ground arith
      ]

  pub prepare_session-read :
      (uid app : List Rune) (token : Text) (random : Option (List ℕ)) (now : Time) {u : Text}
      {e : Envelope} {a : Text × ℕ}
      → prepare_session k uid app token random now ≡ ok (u, e, a)
      → read_token k capability_token uid app token ≡ ok (u, e)
  unfolding prepare_session
  prepare_session-read uid app token random now h =
      elim (Result-cases (open_token k capability_token uid app token now)) [
        | inr (x, e) ↦ absurd (ground arith)
        | inl (x, o) ↦
            let (read, _) = open_token-read capability_token uid app token now o in
            elim (Option-cases random) [
              | inl n ↦ absurd (ground arith)
              | inr (bytes, n) ↦ ground arith
            ]
      ]

  -- What a redemption that succeeds has done.
  abbrev pub Uses : MemoryStore → Bool → Time → List Rune → List Rune → Text → MemoryStore → Type 0
  Uses s cancelled now uid app token s' =
      (u : Text) × (e : Envelope) × (read_token k capability_token uid app token ≡ ok (u, e))
      × ((consume_token k s cancelled now u e).1 ≡ ok tt)
      × (s' ≡ (consume_token k s cancelled now u e).0)

  pub redeem-Uses :
      (r : Redemption) (s : MemoryStore) (cancelled : Bool) (uid app : List Rune) (token : Text)
      (now : Time)
      → (redeem r s cancelled uid app token now).1 ≡ ok tt
      → Uses s cancelled now uid app token (redeem r s cancelled uid app token now).0
  unfolding redeem consume_context consume_session_context
  redeem-Uses by_context s cancelled uid app token now h =
      elim (Result-cases (prepare_context k uid app token now)) [
        | inr (x, e) ↦ absurd (ground arith)
        | inl ((u, e, a), p) ↦ elim (Result-cases (consume_token k s cancelled now u e).1) [
          | inr (x, c) ↦ absurd (ground arith)
          | inl (w, c) ↦ (u, e, prepare_context-read uid app token now p, c, rw p refl)
        ]
      ]
  redeem-Uses (by_session random) s cancelled uid app token now h =
      elim (Result-cases (prepare_session k uid app token random now)) [
        | inr (x, e) ↦ absurd (ground arith)
        | inl ((u, e, a), p) ↦ elim (Result-cases (consume_token k s cancelled now u e).1) [
          | inr (x, c) ↦ absurd (ground arith)
          | inl (w, c) ↦ (u, e, prepare_session-read uid app token random now p, c, rw p refl)
        ]
      ]

  consume_token-once :
      (s : MemoryStore) (cancelled cancelled' : Bool) (now now' : Time) (u : Text) (e : Envelope)
      (cs : List Call)
      → (consume_token k s cancelled now u e).1 ≡ ok tt
      → (x : MemoryError) × ((consume_token k
            (run (consume_token k s cancelled now u e).0 cs)
            cancelled'
            now'
            u
            e).1
          ≡ err x)
  unfolding consume_token
  consume_token-once s cancelled cancelled' now now' u e cs h =
      consume-once s cancelled cancelled' u u e.generation e.generation
        (k.use_mac e.id u e.app_id_digest) (of_unix e.expires_at) now (of_unix e.expires_at) now' cs
        h

  -- After a capability is redeemed, for its memory or for a session context, and after any later
  -- calls on the store, no redemption of the same token for the same person and app succeeds, in
  -- either way and at any time.
  pub redeem-once :
      (r r' : Redemption) (s : MemoryStore) (cancelled cancelled' : Bool) (uid app : List Rune)
      (token : Text) (now now' : Time) (cs : List Call)
      → (redeem r s cancelled uid app token now).1 ≡ ok tt
      → (x : MemoryError) × ((redeem r'
            (run (redeem r s cancelled uid app token now).0 cs)
            cancelled'
            uid
            app
            token
            now').1
          ≡ err x)
  redeem-once r r' s cancelled cancelled' uid app token now now' cs h =
      let later = run (redeem r s cancelled uid app token now).0 cs in
      elim (Result-cases (redeem r' later cancelled' uid app token now').1) [
        | inr e ↦ e
        | inl (w, second) ↦
            let (u, e, read, used, same) = redeem-Uses r s cancelled uid app token now h in
            let (u', e', read', used', _) =
              redeem-Uses r' later cancelled' uid app token now' second in
            let owner : ◌≡◌ {A = Text × Envelope} (u, e) (u', e') = read_once (sym read ∙ read') in
            let first =
              subst
                (λ m.
                  (x : MemoryError) × ((consume_token k (run m cs) cancelled' now' u e).1 ≡ err x))
                (sym same) (consume_token-once s cancelled cancelled' now now' u e cs used) in
            let (x, refused) =
              subst
                (λ o.
                  (x : MemoryError) × ((consume_token k later cancelled' now' o.0 o.1).1 ≡ err x))
                owner first in
            absurd (ground arith)
      ]
