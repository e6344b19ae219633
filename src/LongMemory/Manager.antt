-- ===== src/LongMemory/Manager.antt =====
-- internal/longmemory/longmemory.go: the payloads, and their sealed records. AES-GCM, HMAC-SHA-256,
-- JSON, base64 and the scan of internal/privacyguard are fields of `Keys`.
pub mod RoundTrip
use conclution_ai_teacher.Prelude.{
  ℕ, ◌+◌, ◌^◌, ◌/◌, ◌%◌, Bool, true, false, not, ◌&&◌, ◌||◌, if◌then◌else◌, List, [], ◌∷◌, ◌++◌,
  Option, none, some, length, all_of, ltb, ◌==◌, Result, ok, err, ◌>>=◌, ◌>>◌, fail_if,
}
use conclution_ai_teacher.Prelude.Int.{ℤ, pos, pos_part, ltb_ℤ, eqb_ℤ}
use conclution_ai_teacher.Prelude.Clock.{Time}
use conclution_ai_teacher.Prelude.Text.{
  is_empty, Text, Rune, byte_length, is_code, is_empty_string, trim_space, trim_left, trim_right,
  is_space,
}
use conclution_ai_teacher.LongMemory.Store.{
  default_ttl, MemoryError, invalid_state, MemoryRecord, MemoryStore, Consent, status, enable,
  disable_and_delete, put_record, get_record,
}

pub record Payload : Type 0 where
  pub topics : List (List Rune)
  pub preferences : List (List Rune)
  pub open_loops : List (List Rune)

-- A `cipher.AEAD`: nonce, plaintext or ciphertext, and additional data.
pub record Sealer : Type 0 where
  pub seal : List ℕ → List ℕ → Text → List ℕ
  pub unseal : List ℕ → List ℕ → Text → Option (List ℕ)

-- `cipher.AEAD.NonceSize()` and `Overhead()` of GCM.
abbrev pub nonce_size : ℕ
nonce_size = 12

abbrev pub overhead : ℕ
overhead = 16

-- The part of `contextEnvelope` and of `sessionContextEnvelope`: the two differ in the name of `id`.
pub record Envelope : Type 0 where
  pub version : ℤ
  pub uid_digest : Text
  pub app_id_digest : Text
  pub generation : ℤ
  pub issued_at : ℤ
  pub expires_at : ℤ
  pub id : Text
  pub memory : Payload

pub data TokenKind : Type 0 where
  capability_token session_token : TokenKind

pub record Keys : Type 0 where
  -- The digests of a principal, of an app, and of the use of a capability.
  pub principal_mac : List Rune → Text
  pub app_mac : List Rune → Text
  pub use_mac : Text → Text → Text → Text
  pub records : Sealer
  pub marshal_payload : Payload → List ℕ
  pub unmarshal_payload : List ℕ → Option Payload
  -- The sealing and the encoding of `contextEnvelope` and of `sessionContextEnvelope`.
  pub tokens : TokenKind → Sealer
  pub marshal_envelope : TokenKind → Envelope → List ℕ
  pub unmarshal_envelope : TokenKind → List ℕ → Option Envelope
  -- base64.RawURLEncoding
  pub encode : List ℕ → Text
  pub decode : Text → Option (List ℕ)
  -- privacyguard.HasHighConfidenceFinding
  pub sensitive : List Rune → Bool

abbrev max_items : ℕ
max_items = 4

abbrev max_item_runes : ℕ
max_item_runes = 96

abbrev max_plaintext : ℕ
max_plaintext = 2048

abbrev pub or_invalid : {A : Type 0} → Option A → Result MemoryError A
or_invalid none = err invalid_state
or_invalid (some a) = ok a

abbrev has_items : List (List Rune) → Bool
has_items [] = false
has_items (_ ∷ _) = true

-- 64 bits, the high byte first.
abbrev big_endian : ℕ → Text
big_endian n =
    n / 2 ^ 56 % 256
    ∷ n / 2 ^ 48 % 256
    ∷ n / 2 ^ 40 % 256
    ∷ n / 2 ^ 32 % 256
    ∷ n / 2 ^ 24 % 256
    ∷ n / 2 ^ 16 % 256
    ∷ n / 2 ^ 8 % 256
    ∷ n % 256
    ∷ []

-- "kotae-long-memory-envelope-v1\x00"
abbrev envelope_label : Text
envelope_label =
    b'k' ∷ b'o' ∷ b't' ∷ b'a' ∷ b'e' ∷ b'-' ∷ b'l' ∷ b'o' ∷ b'n' ∷ b'g' ∷ b'-' ∷ b'm' ∷ b'e' ∷ b'm'
    ∷ b'o' ∷ b'r' ∷ b'y' ∷ b'-' ∷ b'e' ∷ b'n' ∷ b'v' ∷ b'e' ∷ b'l' ∷ b'o' ∷ b'p' ∷ b'e' ∷ b'-'
    ∷ b'v' ∷ b'1' ∷ 0 ∷ []

-- The additional data of a record; the generations are positive.
unfoldable pub aad : Text → ℤ → Text
aad key generation = envelope_label ++ (key ++ big_endian (pos_part generation))

module _ (k : Keys) where
  unfoldable pub valid_item : List Rune → Bool
  unfolding trim_space
  valid_item value =
      let v = trim_space value in
      not (
        is_empty_string v
        || not (all_of is_code v)
        || ltb max_item_runes (length v)
        || k.sensitive v)

  unfoldable pub valid_group : List (List Rune) → Bool
  unfolding valid_item
  valid_group group = not (ltb max_items (length group)) && all_of valid_item group

  unfoldable pub validate_payload : Payload → Result MemoryError (Unit {0})
  unfolding valid_group
  validate_payload p = do
    fail_if (not (has_items p.topics || has_items p.preferences || has_items p.open_loops))
        invalid_state
    fail_if (not (valid_group p.topics && valid_group p.preferences && valid_group p.open_loops))
        invalid_state

  unfoldable pub principal_key : List Rune → Result MemoryError Text
  unfolding trim_space
  principal_key uid =
      let v = trim_space uid in
      if is_empty_string v || ltb 256 (byte_length v) || not (all_of is_code v)
      then err invalid_state
      else ok (k.principal_mac v)

  unfoldable pub sealed_record : Text → ℤ → Payload → List ℕ → Time → MemoryRecord
  unfolding aad
  sealed_record key generation payload nonce now = record {
    schema_version = pos 1;
    generation = generation;
    ciphertext = k.records.seal nonce (k.marshal_payload payload) (aad key generation);
    nonce = nonce;
    expires_at = now + default_ttl;
  }

  -- `Save` before the store: the key and the record.
  unfoldable pub prepare_save :
      List Rune → ℤ → Payload → Option (List ℕ) → Time → Result MemoryError (Text × MemoryRecord)
  prepare_save uid generation payload random now = do
    fail_if (ltb_ℤ generation (pos 1)) invalid_state
    validate_payload payload
    key ← principal_key uid
    fail_if (ltb max_plaintext (length (k.marshal_payload payload))) invalid_state
    nonce ← or_invalid random
    ok (key, sealed_record key generation payload nonce now)

  abbrev saved :
      MemoryStore
      → Bool
      → ℤ
      → Time
      → Result MemoryError (Text × MemoryRecord)
      → MemoryStore × Result MemoryError (Unit {0})
  saved s cancelled generation now (err e) = (s, err e)
  saved s cancelled generation now (ok (key, r)) = put_record s cancelled key generation r now

  -- `Save`, which reads the clock twice; the nonce is what was read of the random source.
  unfoldable pub save :
      MemoryStore
      → Bool
      → List Rune
      → ℤ
      → Payload
      → Option (List ℕ)
      → Time
      → Time
      → MemoryStore × Result MemoryError (Unit {0})
  save s cancelled uid generation payload random now put_at =
      saved s cancelled generation put_at (prepare_save uid generation payload random now)

  -- From the plaintext to a valid payload.
  unfoldable pub read_payload : Option (List ℕ) → Result MemoryError Payload
  read_payload plaintext = do
    bytes ← or_invalid plaintext
    fail_if (ltb max_plaintext (length bytes)) invalid_state
    payload ← or_invalid (k.unmarshal_payload bytes)
    validate_payload payload
    ok payload

  -- The tests that `Load` makes of the record it reads.
  unfoldable pub open_loaded : Text → ℤ → MemoryRecord → Result MemoryError Payload
  open_loaded key generation r = do
    fail_if
        (not (eqb_ℤ r.schema_version (pos 1))
          || not (eqb_ℤ r.generation generation)
          || not (length r.nonce == nonce_size)
          || is_empty r.ciphertext)
        invalid_state
    read_payload (k.records.unseal r.nonce r.ciphertext (aad key generation))

  unfoldable pub manager_status : MemoryStore → Bool → List Rune → Result MemoryError Consent
  manager_status s cancelled uid = principal_key uid >>= λ key. status s cancelled key

  abbrev keyed :
      {A : Type 0}
      → MemoryStore
      → (Text → MemoryStore × Result MemoryError A)
      → Result MemoryError Text
      → MemoryStore × Result MemoryError A
  keyed s call (err e) = (s, err e)
  keyed s call (ok key) = call key

  unfoldable pub manager_enable :
      MemoryStore → Bool → List Rune → Time → MemoryStore × Result MemoryError Consent
  manager_enable s cancelled uid now =
      keyed s (λ key. enable s cancelled key now) (principal_key uid)

  unfoldable pub manager_disable_and_delete :
      MemoryStore → Bool → List Rune → Time → MemoryStore × Result MemoryError (Unit {0})
  manager_disable_and_delete s cancelled uid now =
      keyed s (λ key. disable_and_delete s cancelled key now) (principal_key uid)

  unfoldable pub load : MemoryStore → Bool → List Rune → ℤ → Time → Result MemoryError Payload
  load s cancelled uid generation now = do
    fail_if (ltb_ℤ generation (pos 1)) invalid_state
    key ← principal_key uid
    r ← get_record s cancelled key generation now
    open_loaded key generation r
