-- ===== src/Trial/Ledger.antt =====
-- internal/guesttrial/ledger.go: the record of one trial and its pure transition.
pub mod Lifetime
use conclution_ai_teacher.Prelude.Text.{Text}
use conclution_ai_teacher.Prelude.{
  ℕ, ◌+◌, ◌*◌, Bool, true, false, not, ◌&&◌, ◌||◌, if◌then◌else◌, List, all_of, length, leb, ◌==◌,
  Result, ok, err, ◌>>=◌, ◌>>◌, fail_if,
}
use conclution_ai_teacher.Prelude.Int.{ℤ, pos, ◌+ℤ◌, ltb_ℤ, eqb_ℤ}
use conclution_ai_teacher.Prelude.Clock.{Time, minute, is_zero, before}

abbrev pub ttl : ℕ
ttl = 15 * minute

-- The last constructor stands for the errors of other layers: a context that is done, a read of
-- random bytes that failed, a verifier that failed.
pub data TrialError : Type 0 where
  invalid_input stale_or_terminal expired not_found capacity_exceeded passed_on : TrialError

-- A string of the type, the last constructor any string but the four constants.
pub data Status : Type 0 where
  pending stopped answer_first unverified other_status : Status

pub data Event : Type 0 where
  help stop complete_verified complete_unverified other_event : Event

-- `QuestionID`, or any other string.
pub data Question : Type 0 where
  rest_activity_v1 other_question : Question

pub record Record : Type 0 where
  pub version : ℤ
  pub question : Question
  pub generation : ℤ
  pub assisted : Bool
  pub status : Status
  pub created_at : Time
  pub expires_at : Time

-- What `hex.EncodeToString` prints: decoding and encoding such a string gives it back.
abbrev pub is_lower_hex_digit : ℕ → Bool
is_lower_hex_digit c = (leb b'0' c && leb c b'9') || (leb b'a' c && leb c b'f')

unfoldable pub valid_key : Text → Bool
valid_key key = length key == 64 && all_of is_lower_hex_digit key

abbrev is_question_id : Question → Bool
is_question_id rest_activity_v1 = true
is_question_id other_question = false

abbrev is_status : Status → Bool
is_status other_status = false
is_status _ = true

abbrev pub is_pending : Status → Bool
is_pending pending = true
is_pending _ = false

-- `int64(1)` and its increments.
abbrev expected_generation : Record → ℤ
expected_generation r =
    pos 1 +ℤ (if r.assisted then pos 1 else pos 0) +ℤ (if is_pending r.status then pos 0 else pos 1)

-- `ExpiresAt.Sub(CreatedAt) != TTL`: the duration saturates far above the TTL.
unfoldable pub validate_record : Record → Result TrialError (Unit {0})
validate_record r = do
  fail_if
      (not (eqb_ℤ r.version (pos 1))
        || not (is_question_id r.question)
        || ltb_ℤ r.generation (pos 1)
        || ltb_ℤ (pos 4) r.generation
        || is_zero r.created_at
        || not (r.expires_at == r.created_at + ttl))
      invalid_input
  fail_if (not (is_status r.status)) invalid_input
  fail_if (not (eqb_ℤ r.generation (expected_generation r))) invalid_input

unfoldable pub current : Record → Time → Result TrialError Record
current r now = do
  validate_record r
  fail_if (is_zero now || before now r.created_at) invalid_input
  fail_if (not (before now r.expires_at)) expired
  ok r

-- The switch on the event.
unfoldable pub move : Record → Event → Result TrialError Record
move r help = if r.assisted then err stale_or_terminal else ok (record r { assisted = true })
move r stop = ok (record r { status = stopped })
move r complete_verified = ok (record r { status = answer_first })
move r complete_unverified = ok (record r { status = unverified })
move r other_event = err invalid_input

unfoldable pub transition : Record → ℤ → Event → Time → Result TrialError Record
transition r generation event now = do
  r1 ← current r now
  fail_if (not (eqb_ℤ generation r1.generation) || not (is_pending r1.status)) stale_or_terminal
  r2 ← move r1 event
  let r3 = record r2 { generation = r2.generation +ℤ pos 1 }
  validate_record r3
  ok r3
