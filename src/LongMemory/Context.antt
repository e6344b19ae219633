-- ===== src/LongMemory/Context.antt =====
-- internal/longmemory/context_capability.go and session_context.go: a memory that leaves the server
-- in an encrypted token. A token is its bytes; `random` is what was read of the random source.
pub mod Redeem
use conclution_ai_teacher.Prelude.{
  ℕ, ◌+◌, ◌*◌, ◌/◌, ◌^◌, Bool, true, false, not, ◌&&◌, ◌||◌, if◌then◌else◌, List, [], ◌∷◌, ◌++◌,
  Option, none, some, length, take, drop, all_of, ltb, leb, ◌==◌, Result, ok, err, ◌>>=◌, ◌>>◌,
  fail_if,
}
use conclution_ai_teacher.Prelude.Int.{ℤ, pos, ltb_ℤ, leb_ℤ, eqb_ℤ, ◌+ℤ◌}
use conclution_ai_teacher.Prelude.Clock.{Time, second, truncate, unix}
use conclution_ai_teacher.Prelude.Text.{
  Text, Rune, byte_length, is_code, is_empty_string, trim_space, text_eq,
}
use conclution_ai_teacher.LongMemory.Store.{
  context_capability_ttl, MemoryError, invalid_state, disabled, not_found, Consent, MemoryRecord,
  MemoryStore, validate_memory_record, get_current,
}
use conclution_ai_teacher.LongMemory.Manager.{
  Payload, nonce_size, overhead, Envelope, TokenKind, capability_token, session_token, Keys, aad,
  or_invalid, validate_payload, principal_key, read_payload,
}

-- "kmc1." and "kms1."
abbrev prefix : TokenKind → Text
prefix capability_token = b'k' ∷ b'm' ∷ b'c' ∷ b'1' ∷ b'.' ∷ []
prefix session_token = b'k' ∷ b'm' ∷ b's' ∷ b'1' ∷ b'.' ∷ []

-- "kotae-long-memory-context-capability-v1\x00" and "kotae-long-memory-session-context-v1\x00"
abbrev label : TokenKind → Text
label capability_token =
    b'k' ∷ b'o' ∷ b't' ∷ b'a' ∷ b'e' ∷ b'-' ∷ b'l' ∷ b'o' ∷ b'n' ∷ b'g' ∷ b'-' ∷ b'm' ∷ b'e' ∷ b'm'
    ∷ b'o' ∷ b'r' ∷ b'y' ∷ b'-' ∷ b'c' ∷ b'o' ∷ b'n' ∷ b't' ∷ b'e' ∷ b'x' ∷ b't' ∷ b'-' ∷ b'c'
    ∷ b'a' ∷ b'p' ∷ b'a' ∷ b'b' ∷ b'i' ∷ b'l' ∷ b'i' ∷ b't' ∷ b'y' ∷ b'-' ∷ b'v' ∷ b'1' ∷ 0 ∷ []
label session_token =
    b'k' ∷ b'o' ∷ b't' ∷ b'a' ∷ b'e' ∷ b'-' ∷ b'l' ∷ b'o' ∷ b'n' ∷ b'g' ∷ b'-' ∷ b'm' ∷ b'e' ∷ b'm'
    ∷ b'o' ∷ b'r' ∷ b'y' ∷ b'-' ∷ b's' ∷ b'e' ∷ b's' ∷ b's' ∷ b'i' ∷ b'o' ∷ b'n' ∷ b'-' ∷ b'c'
    ∷ b'o' ∷ b'n' ∷ b't' ∷ b'e' ∷ b'x' ∷ b't' ∷ b'-' ∷ b'v' ∷ b'1' ∷ 0 ∷ []

-- `contextAAD` and `sessionContextAAD`.
unfoldable pub token_aad : TokenKind → Text → Text → Text
token_aad kind uid_digest app_digest = label kind ++ (uid_digest ++ (0 ∷ app_digest))

abbrev id_bytes : ℕ
id_bytes = 16

abbrev pub max_token_bytes : ℕ
max_token_bytes = 4096

abbrev pub max_token_plaintext : ℕ
max_token_plaintext = 3072

-- strings.HasPrefix and strings.TrimPrefix
unfoldable pub strip_prefix : Text → Text → Option Text
strip_prefix [] token = some token
strip_prefix (x ∷ xs) [] = none
strip_prefix (x ∷ xs) (y ∷ ys) = let rest = strip_prefix xs ys in if x == y then rest else none

-- base64.RawURLEncoding.EncodedLen
abbrev pub encoded_len : ℕ → ℕ
encoded_len n = (n * 8 + 5) / 6

-- `b - a == ttl` on the 64-bit integers, which wraps around.
unfoldable pub is_apart : ℤ → ℤ → ℤ → Bool
is_apart a b ttl = eqb_ℤ b (a +ℤ ttl) || eqb_ℤ (b +ℤ pos (2 ^ 64)) (a +ℤ ttl)

abbrev has_id_length : Option (List ℕ) → Bool
has_id_length none = false
has_id_length (some bytes) = length bytes == id_bytes

abbrev pub lifetime : ℕ
lifetime = context_capability_ttl / second

unfoldable pub valid_app_id : List Rune → Bool
unfolding trim_space
valid_app_id app =
    let v = trim_space app in not (is_empty_string v) && leb (byte_length v) 512 && all_of is_code v

module _ (k : Keys) where
  unfoldable pub app_id_key : List Rune → Text
  unfolding trim_space
  app_id_key app = k.app_mac (trim_space app)

  unfoldable pub validate_envelope : Envelope → Text → Text → Time → Result MemoryError (Unit {0})
  unfolding is_apart unix
  validate_envelope e uid_digest app_digest now = do
    fail_if
        (not (has_id_length (k.decode e.id))
          || not (eqb_ℤ e.version (pos 1))
          || not (text_eq e.uid_digest uid_digest)
          || not (text_eq e.app_id_digest app_digest)
          || ltb_ℤ e.generation (pos 1)
          || ltb_ℤ e.issued_at (pos 1)
          || not (is_apart e.issued_at e.expires_at (pos lifetime))
          || ltb_ℤ (unix now +ℤ pos 30) e.issued_at
          || leb_ℤ e.expires_at (unix now))
        invalid_state
    validate_payload k e.memory

  abbrev unsealed : TokenKind → Text → Text → List ℕ → Option (List ℕ)
  unsealed kind uid_digest app_digest raw =
      (k.tokens kind).unseal (take nonce_size raw) (drop nonce_size raw)
        (token_aad kind uid_digest app_digest)

  -- A token's envelope before it is validated, with the digest of its owner.
  unfoldable pub read_token :
      TokenKind → List Rune → List Rune → Text → Result MemoryError (Text × Envelope)
  read_token kind uid app token = do
    fail_if (not (valid_app_id app)) invalid_state
    encoded ← or_invalid (strip_prefix (prefix kind) token)
    fail_if (ltb max_token_bytes (length token)) invalid_state
    uid_digest ← principal_key k uid
    raw ← or_invalid (k.decode encoded)
    fail_if (ltb (length raw) (nonce_size + overhead + 2)) invalid_state
    plaintext ← or_invalid (unsealed kind uid_digest (app_id_key app) raw)
    fail_if (ltb max_token_plaintext (length plaintext)) invalid_state
    envelope ← or_invalid (k.unmarshal_envelope kind plaintext)
    ok (uid_digest, envelope)

  -- `decryptContextEnvelope`, and the same in `OpenSessionContext`.
  unfoldable pub open_token :
      TokenKind → List Rune → List Rune → Text → Time → Result MemoryError (Text × Envelope)
  open_token kind uid app token now = do
    (uid_digest, envelope) ← read_token kind uid app token
    validate_envelope envelope uid_digest (app_id_key app) now
    ok (uid_digest, envelope)

  unfoldable pub new_envelope : Text → Text → ℤ → Payload → List ℕ → Time → Envelope
  unfolding unix
  new_envelope uid_digest app_digest generation memory random now = record {
    version = pos 1;
    uid_digest = uid_digest;
    app_id_digest = app_digest;
    generation = generation;
    issued_at = unix (truncate now second);
    expires_at = unix (truncate now second + context_capability_ttl);
    id = k.encode (take id_bytes random);
    memory = memory;
  }

  unfoldable pub seal_token : TokenKind → List ℕ → Text → Text → List ℕ → Text
  seal_token kind plaintext uid_digest app_digest nonce =
      prefix kind
      ++ k.encode
          (nonce ++ (k.tokens kind).seal nonce plaintext (token_aad kind uid_digest app_digest))

  unfoldable pub open_record : Text → ℤ → MemoryRecord → Time → Result MemoryError Payload
  open_record key generation r now = do
    u ← validate_memory_record r generation now
    fail_if (not (length r.nonce == nonce_size)) invalid_state
    read_payload k (k.records.unseal r.nonce r.ciphertext (aad key generation))

  -- `BeginContext` from the record on.
  unfoldable pub issue_context :
      Text
      → List Rune
      → Option (List ℕ)
      → Time
      → Consent × MemoryRecord
      → Result MemoryError (Option Text)
  issue_context uid_digest app random now (consent, r) = do
    fail_if (not consent.enabled || ltb_ℤ consent.generation (pos 1)) invalid_state
    memory ← open_record uid_digest consent.generation r now
    bytes ← or_invalid random
    let e = new_envelope uid_digest (app_id_key app) consent.generation memory bytes now
    let plaintext = k.marshal_envelope capability_token e
    fail_if (ltb max_token_plaintext (length plaintext)) invalid_state
    let token =
        seal_token capability_token plaintext uid_digest (app_id_key app) (drop id_bytes bytes)
    fail_if (ltb max_token_bytes (length token)) invalid_state
    ok (some token)

  unfoldable pub issue_found :
      Text
      → List Rune
      → Option (List ℕ)
      → Time
      → Result MemoryError (Consent × MemoryRecord)
      → Result MemoryError (Option Text)
  issue_found uid_digest app random now (err disabled) = ok none
  issue_found uid_digest app random now (err not_found) = ok none
  issue_found uid_digest app random now (err _) = err invalid_state
  issue_found uid_digest app random now (ok found) = issue_context uid_digest app random now found

  unfoldable pub begin_context :
      MemoryStore
      → Bool
      → List Rune
      → List Rune
      → Option (List ℕ)
      → Time
      → Result MemoryError (Option Text)
  begin_context s cancelled uid app random now = do
    fail_if (not (valid_app_id app)) invalid_state
    uid_digest ← principal_key k uid
    issue_found uid_digest app random now (get_current s cancelled uid_digest now)
