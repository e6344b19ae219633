-- ===== src/LongMemory/Tests/Codec.antt =====
-- A sealing and an encoding that keep what the code relies on, for the tests.
use conclution_ai_teacher.Prelude.{
  ℕ, zero, suc, ◌+◌, ◌-◌, ◌*◌, ◌/◌, ◌%◌, ◌≡◌, refl, ap, ◌∙◌, false, if◌then◌else◌, List, [], ◌∷◌,
  ◌++◌, Option, none, some, length, take, drop, ◌==◌, arith,
}
use mathlib.Core.List.{append_assoc, append-nil}
use conclution_ai_teacher.Prelude.Int.{ℤ, pos, negsuc}
use conclution_ai_teacher.Prelude.Text.{Text, Rune, code, bad_byte}
use conclution_ai_teacher.LongMemory.Manager.{Payload, Sealer, Envelope, TokenKind, Keys}
use conclution_ai_teacher.LongMemory.Manager.RoundTrip.{Opens}
use conclution_ai_teacher.LongMemory.Context.{encoded_len}
use conclution_ai_teacher.LongMemory.Context.Redeem.RoundTrip.{Carries, take-++, drop-++, length-++}

-- Strings, groups and payloads as numbers: 0 opens a string and 1 a group.
abbrev rune_number : Rune → ℕ
rune_number (code c) = 2 * c + 2
rune_number (bad_byte b) = 2 * b + 3

abbrev number_rune : ℕ → Rune
number_rune n = if n % 2 == 0 then code (n / 2 - 1) else bad_byte (n / 2 - 1)

number_rune-number : (r : Rune) → number_rune (rune_number r) ≡ r
number_rune-number (code c) = ground arith
number_rune-number (bad_byte b) = ground arith

abbrev string_numbers : List Rune → List ℕ
string_numbers [] = []
string_numbers (r ∷ rs) = rune_number r ∷ string_numbers rs

abbrev group_numbers : List (List Rune) → List ℕ
group_numbers [] = []
group_numbers (s ∷ ss) = 0 ∷ (string_numbers s ++ group_numbers ss)

abbrev groups_numbers : List (List (List Rune)) → List ℕ
groups_numbers [] = []
groups_numbers (g ∷ gs) = 1 ∷ (group_numbers g ++ groups_numbers gs)

record Parsed : Type 0 where
  runes : List Rune
  strings : List (List Rune)
  groups : List (List (List Rune))

abbrev parse_number : ℕ → Parsed → Parsed
parse_number n s =
    if n == 0
    then record s { runes = []; strings = s.runes ∷ s.strings }
    else if n == 1
    then record s { strings = []; groups = s.strings ∷ s.groups }
    else record s { runes = number_rune n ∷ s.runes }

abbrev parse : List ℕ → Parsed
parse [] = record { runes = []; strings = []; groups = [] }
parse (n ∷ ns) = parse_number n (parse ns)

parse_rune :
    (r : Rune) (s : Parsed) → parse_number (rune_number r) s ≡ record s { runes = r ∷ s.runes }
parse_rune (code c) s = ground (arith, number_rune-number (code c))
parse_rune (bad_byte b) s = ground (arith, number_rune-number (bad_byte b))

parse_string :
    (rs : List Rune) (rest : List ℕ)
    → parse (string_numbers rs ++ rest) ≡ record (parse rest) { runes = rs ++ (parse rest).runes }
parse_string [] rest = refl
parse_string (r ∷ rs) rest =
    ap (parse_number (rune_number r)) (parse_string rs rest)
    ∙ parse_rune r (record (parse rest) { runes = rs ++ (parse rest).runes })

closed_string :
    (s : List Rune) (ss : List (List Rune)) (t : Parsed)
    → t.runes ≡ []
    → ◌≡◌ {A = Parsed}
        (record t { runes = []; strings = (s ++ t.runes) ∷ (ss ++ t.strings) })
        (record t { strings = s ∷ (ss ++ t.strings) })
closed_string s ss t h = rw (h, append-nil s) refl

parse_group :
    (ss : List (List Rune)) (rest : List ℕ)
    → (parse rest).runes ≡ []
    → parse (group_numbers ss ++ rest)
      ≡ record (parse rest) { strings = ss ++ (parse rest).strings }
parse_group [] rest h = refl
parse_group (s ∷ ss) rest h =
    let string =
      ap parse (append_assoc (string_numbers s) (group_numbers ss) rest)
      ∙ parse_string s (group_numbers ss ++ rest) in
    let group = parse_group ss rest h in
    ap (parse_number 0) (string ∙ ap {A = Parsed} (λ x. record x { runes = s ++ x.runes }) group)
    ∙ closed_string s ss (parse rest) h

abbrev opened : List (List Rune) → Parsed → Parsed
opened g s = record { runes = s.runes; strings = []; groups = (g ++ s.strings) ∷ s.groups }

abbrev last_group : List (List (List Rune)) → List (List Rune) → Parsed
last_group gs g = record { runes = []; strings = []; groups = g ∷ gs }

parse_groups :
    (gs : List (List (List Rune)))
    → parse (groups_numbers gs) ≡ record { runes = []; strings = []; groups = gs }
parse_groups [] = refl
parse_groups (g ∷ gs) =
    let rest = parse_groups gs in
    ap (parse_number 1) (parse_group g (groups_numbers gs) (ap (λ x. x.runes) rest))
    ∙ ap (opened g) rest
    ∙ ap (last_group gs) (append-nil g)

abbrev marshal_groups : Payload → List ℕ
marshal_groups p = groups_numbers (p.topics ∷ p.preferences ∷ p.open_loops ∷ [])

abbrev three_groups : List (List (List Rune)) → Option Payload
three_groups (t ∷ p ∷ o ∷ []) = some (record { topics = t; preferences = p; open_loops = o })
three_groups _ = none

abbrev unmarshal_groups : List ℕ → Option Payload
unmarshal_groups ns = three_groups (parse ns).groups

unmarshal_groups-marshal : (p : Payload) → unmarshal_groups (marshal_groups p) ≡ some p
unmarshal_groups-marshal p =
    ap (λ x. three_groups x.groups) (parse_groups (p.topics ∷ p.preferences ∷ p.open_loops ∷ []))

abbrev integer_number : ℤ → ℕ
integer_number (pos n) = 2 * n
integer_number (negsuc n) = 2 * n + 1

abbrev number_integer : ℕ → ℤ
number_integer n = if n % 2 == 0 then pos (n / 2) else negsuc (n / 2)

number_integer-number : (z : ℤ) → number_integer (integer_number z) ≡ z
number_integer-number (pos n) = ground arith
number_integer-number (negsuc n) = ground arith

abbrev marshal_fields : Envelope → List ℕ
marshal_fields e =
    integer_number e.version
    ∷ integer_number e.generation
    ∷ integer_number e.issued_at
    ∷ integer_number e.expires_at
    ∷ length e.uid_digest
    ∷ length e.app_id_digest
    ∷ length e.id
    ∷ (e.uid_digest ++ (e.app_id_digest ++ (e.id ++ marshal_groups e.memory)))

abbrev with_memory : ℕ → ℕ → ℕ → ℕ → Text → Text → Text → Option Payload → Option Envelope
with_memory v g i x u a d none = none
with_memory v g i x u a d (some p) = some (record {
  version = number_integer v;
  uid_digest = u;
  app_id_digest = a;
  generation = number_integer g;
  issued_at = number_integer i;
  expires_at = number_integer x;
  id = d;
  memory = p;
})

abbrev unmarshal_fields : List ℕ → Option Envelope
unmarshal_fields (v ∷ g ∷ i ∷ x ∷ lu ∷ la ∷ li ∷ rest) =
    with_memory v g i x (take lu rest) (take la (drop lu rest)) (take li (drop la (drop lu rest)))
      (unmarshal_groups (drop li (drop la (drop lu rest))))
unmarshal_fields _ = none

unmarshal_fields-marshal : (e : Envelope) → unmarshal_fields (marshal_fields e) ≡ some e
unmarshal_fields-marshal e =
    let rest = e.uid_digest ++ (e.app_id_digest ++ (e.id ++ marshal_groups e.memory)) in
    rw
      (
        take-++ (length e.uid_digest) e.uid_digest
            (e.app_id_digest ++ (e.id ++ marshal_groups e.memory)) refl,
        drop-++ (length e.uid_digest) e.uid_digest
            (e.app_id_digest ++ (e.id ++ marshal_groups e.memory)) refl,
        take-++ (length e.app_id_digest) e.app_id_digest (e.id ++ marshal_groups e.memory) refl,
        drop-++ (length e.app_id_digest) e.app_id_digest (e.id ++ marshal_groups e.memory) refl,
        take-++ (length e.id) e.id (marshal_groups e.memory) refl,
        drop-++ (length e.id) e.id (marshal_groups e.memory) refl,
        unmarshal_groups-marshal e.memory,
        number_integer-number e.version,
        number_integer-number e.generation,
        number_integer-number e.issued_at,
        number_integer-number e.expires_at,
      )
      refl

abbrev zeros : ℕ → List ℕ
zeros zero = []
zeros (suc n) = 0 ∷ zeros n

length-zeros : (n : ℕ) → length (zeros n) ≡ n
length-zeros zero = refl
length-zeros (suc n) = omega (arith, length-zeros n)

abbrev zeros_text : ℕ → Text
zeros_text zero = []
zeros_text (suc n) = b'0' ∷ zeros_text n

abbrev padded : List ℕ → Text
padded bytes = bytes ++ zeros (encoded_len (length bytes) - length bytes)

abbrev unpadded : Text → Option (List ℕ)
unpadded text = some (take (length text * 6 / 8) text)

length-padded : (bytes : List ℕ) → length (padded bytes) ≡ encoded_len (length bytes)
length-padded bytes =
    let n = encoded_len (length bytes) - length bytes in
    omega (arith, length-++ bytes (zeros n), length-zeros n)

unpadded-padded : (bytes : List ℕ) → unpadded (padded bytes) ≡ some bytes
unpadded-padded bytes =
    let n = encoded_len (length bytes) - length bytes in
    ap some
      (take-++ (length (padded bytes) * 6 / 8) bytes (zeros n) (omega (arith, length-padded bytes)))

abbrev plain_sealer : Sealer
plain_sealer = record {
  seal = λ nonce plaintext label. plaintext ++ zeros 16;
  unseal = λ nonce ciphertext label. some (take (length ciphertext - 16) ciphertext);
}

length-sealed : (plaintext : List ℕ) → length (plaintext ++ zeros 16) ≡ length plaintext + 16
length-sealed plaintext = omega (arith, length-++ plaintext (zeros 16), length-zeros 16)

unseal_sealed :
    (plaintext : List ℕ)
    → take (length (plaintext ++ zeros 16) - 16) (plaintext ++ zeros 16) ≡ plaintext
unseal_sealed plaintext =
    take-++ (length (plaintext ++ zeros 16) - 16) plaintext (zeros 16)
      (omega (arith, length-sealed plaintext))

-- One digest for every principal, app and use.
abbrev pub keys : Keys
keys = record {
  principal_mac = λ uid. b'p' ∷ [];
  app_mac = λ app. b'a' ∷ [];
  use_mac = λ id uid_digest app_digest. zeros_text 64;
  records = plain_sealer;
  marshal_payload = marshal_groups;
  unmarshal_payload = unmarshal_groups;
  tokens = λ kind. plain_sealer;
  marshal_envelope = λ kind. marshal_fields;
  unmarshal_envelope = λ kind. unmarshal_fields;
  encode = padded;
  decode = unpadded;
  sensitive = λ value. false;
}

pub keys-Opens : Opens keys
keys-Opens = (
  λ nonce plaintext label n. ap some (unseal_sealed plaintext),
  λ p v. unmarshal_groups-marshal p,
)

pub keys-Carries : (kind : TokenKind) → Carries keys kind
keys-Carries kind = (
  λ nonce plaintext label n. (ap some (unseal_sealed plaintext), length-sealed plaintext),
  unpadded-padded,
  λ e v. (unmarshal_fields-marshal e, omega arith),
)

pub keys-length : (bytes : List ℕ) → length (keys.encode bytes) ≡ encoded_len (length bytes)
keys-length = length-padded
