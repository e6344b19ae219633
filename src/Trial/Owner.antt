-- ===== src/Trial/Owner.antt =====
-- internal/guesttrial/service.go: the owner of a trial and the key of its document. HMAC-SHA-256
-- under the service's key is the parameter `mac`.
pub mod Message
use conclution_ai_teacher.Prelude.Text.{
  Rune, code, bad_byte, is_nul, byte_length, is_code, is_space_rune, is_empty_string,
  starts_with_space, ends_with_space, Text, encode_to_string, is_space,
}
use conclution_ai_teacher.Prelude.{
  ℕ, ◌+◌, Bool, true, false, not, ◌&&◌, ◌||◌, if◌then◌else◌, List, [], ◌∷◌, ◌++◌, map, all_of,
  any_of, ltb, leb, ◌==◌, Result, ok, err,
}
use conclution_ai_teacher.Trial.Ledger.{TrialError, invalid_input, valid_key}

pub record Owner : Type 0 where
  pub uid : List Rune
  pub app_id : List Rune

unfoldable pub valid_name : List Rune → Bool
unfolding is_space
valid_name v = not (
    is_empty_string v
    || ltb 256 (byte_length v)
    || not (all_of is_code v)
    || starts_with_space v
    || ends_with_space v
    || any_of is_nul v)

unfoldable pub valid_owner : Owner → Bool
valid_owner o = valid_name o.uid && valid_name o.app_id

-- "kotae-guest-trial-v1\x00"
abbrev pub message_prefix : Text
message_prefix =
    b'k' ∷ b'o' ∷ b't' ∷ b'a' ∷ b'e' ∷ b'-' ∷ b'g' ∷ b'u' ∷ b'e' ∷ b's' ∷ b't' ∷ b'-' ∷ b't' ∷ b'r'
    ∷ b'i' ∷ b'a' ∷ b'l' ∷ b'-' ∷ b'v' ∷ b'1' ∷ 0 ∷ []

-- What the MAC reads.
unfoldable pub message : Owner → Text → List Rune
message o id = map code message_prefix ++ o.uid ++ (code 0 ∷ o.app_id ++ (code 0 ∷ map code id))

module _ (mac : List Rune → List ℕ) where
  unfoldable pub document_key : Owner → Text → Result TrialError Text
  document_key o id =
      if not (valid_owner o) || not (valid_key id)
      then err invalid_input
      else ok (encode_to_string (mac (message o id)))
