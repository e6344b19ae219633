-- ===== src/LongMemory/Context/Redeem.antt =====
-- internal/longmemory/context_capability.go and session_context.go: what the holder of a token gets.
pub mod Once
pub mod RoundTrip
pub mod Issued
pub mod Sessions
pub mod Revoked
use conclution_ai_teacher.Prelude.{
  ℕ, ◌+◌, ◌/◌, Bool, List, ◌∷◌, Option, length, take, drop, ltb, Result, ok, err, ◌>>=◌, ◌>>◌,
  fail_if,
}
use conclution_ai_teacher.Prelude.Int.{ℤ}
use conclution_ai_teacher.Prelude.Clock.{Time, of_unix}
use conclution_ai_teacher.Prelude.Text.{Text, Rune}
use conclution_ai_teacher.LongMemory.Store.{
  MemoryError, invalid_state, MemoryStore, check_consent, consume_capability,
}
use conclution_ai_teacher.LongMemory.Manager.{
  Payload, nonce_size, overhead, Envelope, capability_token, session_token, Keys, or_invalid,
  manager_status,
}
use conclution_ai_teacher.LongMemory.Context.{
  id_bytes, max_token_bytes, max_token_plaintext, encoded_len, lifetime, prefix, open_token,
  new_envelope, seal_token,
}

module _ (k : Keys) where
  unfoldable pub open_context :
      MemoryStore → Bool → List Rune → List Rune → Text → Time → Result MemoryError (Payload × ℤ)
  open_context s cancelled uid app token now = do
    (_, e) ← open_token k capability_token uid app token now
    consent ← manager_status k s cancelled uid
    check_consent consent e.generation
    ok (e.memory, e.generation)

  -- The call of `ConsumeCapability` for an opened token.
  unfoldable pub consume_token :
      MemoryStore → Bool → Time → Text → Envelope → MemoryStore × Result MemoryError (Unit {0})
  unfolding of_unix
  consume_token s cancelled now uid_digest e =
      consume_capability s cancelled uid_digest e.generation
        (k.use_mac e.id uid_digest e.app_id_digest) (of_unix e.expires_at) now

  -- What follows the checks: the use of the capability, and the answer if it succeeds.
  abbrev pub consumed :
      {A : Type 0}
      → MemoryStore
      → Bool
      → Time
      → Result MemoryError (Text × Envelope × A)
      → MemoryStore × Result MemoryError A
  consumed s cancelled now (err x) = (s, err x)
  consumed s cancelled now (ok (uid_digest, e, answer)) =
      let (s', used) = consume_token s cancelled now uid_digest e in (s', used >> ok answer)

  unfoldable pub prepare_context :
      List Rune → List Rune → Text → Time → Result MemoryError (Text × Envelope × (Payload × ℤ))
  prepare_context uid app token now = do
    (uid_digest, e) ← open_token k capability_token uid app token now
    ok (uid_digest, e, (e.memory, e.generation))

  unfoldable pub consume_context :
      MemoryStore
      → Bool
      → List Rune
      → List Rune
      → Text
      → Time
      → MemoryStore × Result MemoryError (Payload × ℤ)
  consume_context s cancelled uid app token now =
      consumed s cancelled now (prepare_context uid app token now)

  -- Everything that `ConsumeSessionContext` checks before it uses the capability.
  unfoldable pub prepare_session :
      List Rune
      → List Rune
      → Text
      → Option (List ℕ)
      → Time
      → Result MemoryError (Text × Envelope × (Text × ℕ))
  prepare_session uid app token random now = do
    (uid_digest, e) ← open_token k capability_token uid app token now
    bytes ← or_invalid random
    let session = new_envelope k uid_digest e.app_id_digest e.generation e.memory bytes now
    let plaintext = k.marshal_envelope session_token session
    fail_if (ltb max_token_plaintext (length plaintext)) invalid_state
    let size = nonce_size + length plaintext + overhead
    fail_if (ltb max_token_bytes (length (prefix session_token) + encoded_len size)) invalid_state
    let issued =
        seal_token k session_token plaintext uid_digest e.app_id_digest (drop id_bytes bytes)
    ok (uid_digest, e, (issued, lifetime))

  unfoldable pub consume_session_context :
      MemoryStore
      → Bool
      → List Rune
      → List Rune
      → Text
      → Option (List ℕ)
      → Time
      → MemoryStore × Result MemoryError (Text × ℕ)
  consume_session_context s cancelled uid app token random now =
      consumed s cancelled now (prepare_session uid app token random now)

  unfoldable pub open_session_context :
      List Rune → List Rune → Text → Time → Result MemoryError (Payload × ℤ)
  open_session_context uid app token now = do
    (_, e) ← open_token k session_token uid app token now
    ok (e.memory, e.generation)
