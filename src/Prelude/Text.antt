-- ===== src/Prelude/Text.antt =====
-- Go strings as lists of code points, and their printing of bytes in hexadecimal.
use Prim.Native.Nat.{ℕ, ◌+◌, ◌-◌, ◌*◌, ◌/◌, ◌%◌, ◌<◌}
use mathlib.Core.Path.{◌≡◌, refl, sym}
use mathlib.Core.Logic.{◌≢◌, ◌↔◌, inl, inr}
use mathlib.Core.Bool.{Bool, true, false, ◌&&◌, ◌||◌}
use mathlib.Core.Option.{Option, none}
use mathlib.Core.List.{List, [], ◌∷◌, ◌++◌}
use native.Mathlib.Omega.{arith}
use conclution_ai_teacher.Prelude.Tests.{Bool-cases, ltb, leb, ◌==◌, if◌then◌else◌}
use conclution_ai_teacher.Prelude.Lists.{length, all_of}

abbrev pub Text : Type 0
Text = List ℕ

-- `unicode.IsSpace`, which `strings.TrimSpace` trims by.
unfoldable pub is_space : ℕ → Bool
is_space c =
    (leb 9 c && leb c 13)
    || c == 32
    || c == 133
    || c == 160
    || c == 5760
    || (leb 8192 c && leb c 8202)
    || c == 8232
    || c == 8233
    || c == 8239
    || c == 8287
    || c == 12288

-- strings.TrimSpace(s) == ""
unfoldable pub is_blank : Text → Bool
unfolding is_space
is_blank s = all_of is_space s

-- Equality of strings.
unfoldable pub text_eq : Text → Text → Bool
text_eq [] [] = true
text_eq (x ∷ xs) (y ∷ ys) = x == y && text_eq xs ys
text_eq _ _ = false

-- m[key] = v
abbrev pub assign {ℓ} : {A : Type ℓ} → Text → A → (Text → A) → Text → A
assign key v m other = if text_eq other key then v else m other

abbrev pub is_empty : List ℕ → Bool
is_empty [] = true
is_empty (_ ∷ _) = false

-- A digit that `hex.DecodeString` accepts.
abbrev pub is_hex_digit : ℕ → Bool
is_hex_digit c =
    (leb b'0' c && leb c b'9') || (leb b'a' c && leb c b'f') || (leb b'A' c && leb c b'F')

-- hex.DecodeString succeeds; the length is even because it is 64 where this is asked.
abbrev pub is_hex : Text → Bool
is_hex t = all_of is_hex_digit t

abbrev pub hex_digit : ℕ → ℕ
hex_digit n = if ltb n 10 then b'0' + n else b'a' + (n - 10)

-- hex.EncodeToString
unfoldable pub encode_to_string : List ℕ → Text
encode_to_string [] = []
encode_to_string (b ∷ bs) = hex_digit (b / 16) ∷ hex_digit (b % 16) ∷ encode_to_string bs

text_eq-eq : (s t : Text) → text_eq s t ≡ true → s ≡ t
unfolding text_eq
text_eq-eq [] [] h = refl
text_eq-eq [] (y ∷ ys) h = cc
text_eq-eq (x ∷ xs) [] h = cc
text_eq-eq (x ∷ xs) (y ∷ ys) h = ground (arith, text_eq-eq xs ys)

text_eq_refl : (s : Text) → text_eq s s ≡ true
unfolding text_eq
text_eq_refl [] = refl
text_eq_refl (x ∷ xs) = ground (arith, text_eq_refl xs)

pub text_eq_iff : (s t : Text) → (text_eq s t ≡ true) ↔ (s ≡ t)
text_eq_iff s t = (text_eq-eq s t, λ e. rw e (text_eq_refl t))

abbrev IsByte : ℕ → Type 0
IsByte b = b < 256

abbrev pub AllBytes : List ℕ → Type 0
AllBytes [] = Unit {0}
AllBytes (b ∷ bs) = IsByte b × AllBytes bs

pub length-encode : (bs : List ℕ) → length (encode_to_string bs) ≡ 2 * length bs
unfolding encode_to_string
length-encode [] = omega arith
length-encode (b ∷ bs) = omega (arith, length-encode bs)

hex_digit-is_hex_digit : (n : ℕ) → n < 16 → is_hex_digit (hex_digit n) ≡ true
hex_digit-is_hex_digit n h = ground arith

pub is_hex-encode : (bs : List ℕ) → AllBytes bs → is_hex (encode_to_string bs) ≡ true
unfolding encode_to_string
is_hex-encode [] h = refl
is_hex-encode (b ∷ bs) h =
    rw
      (hex_digit-is_hex_digit (b / 16) (omega arith), hex_digit-is_hex_digit (b % 16) (omega arith))
      (is_hex-encode bs h.1)

-- What a string holds, as `range` reads it: code points, and bytes that are no UTF-8.
pub data Rune : Type 0 where
  code : ℕ → Rune
  bad_byte : ℕ → Rune

abbrev width : Rune → ℕ
width (code c) = if ltb c 128 then 1 else if ltb c 2048 then 2 else if ltb c 65536 then 3 else 4
width (bad_byte _) = 1

-- `len(v)`
abbrev pub byte_length : List Rune → ℕ
byte_length [] = 0
byte_length (r ∷ rs) = width r + byte_length rs

abbrev pub is_code : Rune → Bool
is_code (code _) = true
is_code (bad_byte _) = false

abbrev pub is_space_rune : Rune → Bool
is_space_rune (code c) = is_space c
is_space_rune (bad_byte _) = false

abbrev pub is_nul : Rune → Bool
is_nul (code c) = c == 0
is_nul (bad_byte _) = false

-- Whether `strings.TrimSpace` cuts something off either end.
abbrev pub starts_with_space : List Rune → Bool
starts_with_space [] = false
starts_with_space (r ∷ _) = is_space_rune r

abbrev pub ends_with_space : List Rune → Bool
ends_with_space [] = false
ends_with_space (r ∷ []) = is_space_rune r
ends_with_space (_ ∷ rs) = ends_with_space rs

abbrev pub is_empty_string : List Rune → Bool
is_empty_string [] = true
is_empty_string _ = false

-- strings.TrimSpace
unfoldable pub trim_left : List Rune → List Rune
trim_left [] = []
trim_left (r ∷ rs) = if is_space_rune r then trim_left rs else r ∷ rs

unfoldable pub trim_right : List Rune → List Rune
trim_right [] = []
trim_right (r ∷ rs) =
    let rest = trim_right rs in if is_space_rune r && is_empty_string rest then [] else r ∷ rest

unfoldable pub trim_space : List Rune → List Rune
unfolding trim_left trim_right
trim_space rs = trim_right (trim_left rs)

-- The bytes of a string.
abbrev utf8_bytes : Rune → List ℕ
utf8_bytes (bad_byte b) = b ∷ []
utf8_bytes (code c) =
    if ltb c 128
    then c ∷ []
    else if ltb c 2048
    then (192 + c / 64) ∷ (128 + c % 64) ∷ []
    else if ltb c 65536
    then (224 + c / 4096) ∷ (128 + c / 64 % 64) ∷ (128 + c % 64) ∷ []
    else (240 + c / 262144) ∷ (128 + c / 4096 % 64) ∷ (128 + c / 64 % 64) ∷ (128 + c % 64) ∷ []

abbrev pub utf8 : List Rune → List ℕ
utf8 [] = []
utf8 (r ∷ rs) = utf8_bytes r ++ utf8 rs

abbrev rune_eq : Rune → Rune → Bool
rune_eq (code a) (code b) = a == b
rune_eq (bad_byte a) (bad_byte b) = a == b
rune_eq _ _ = false

-- Equality of strings that are given by their code points.
unfoldable pub string_eq : List Rune → List Rune → Bool
string_eq [] [] = true
string_eq (x ∷ xs) (y ∷ ys) = rune_eq x y && string_eq xs ys
string_eq _ _ = false

rune_eq-eq : (x y : Rune) → rune_eq x y ≡ true → x ≡ y
rune_eq-eq (code a) (code b) h = ground arith
rune_eq-eq (bad_byte a) (bad_byte b) h = ground arith
rune_eq-eq (code a) (bad_byte b) h = cc
rune_eq-eq (bad_byte a) (code b) h = cc

string_eq-eq : (s t : List Rune) → string_eq s t ≡ true → s ≡ t
unfolding string_eq
string_eq-eq [] [] h = refl
string_eq-eq [] (y ∷ ys) h = cc
string_eq-eq (x ∷ xs) [] h = cc
string_eq-eq (x ∷ xs) (y ∷ ys) h = ground (arith, rune_eq-eq x y, string_eq-eq xs ys)

rune_eq_refl : (x : Rune) → rune_eq x x ≡ true
rune_eq_refl (code a) = ground arith
rune_eq_refl (bad_byte b) = ground arith

string_eq_refl : (s : List Rune) → string_eq s s ≡ true
unfolding string_eq
string_eq_refl [] = refl
string_eq_refl (x ∷ xs) = rw (rune_eq_refl x) (string_eq_refl xs)

pub string_eq_iff : (s t : List Rune) → (string_eq s t ≡ true) ↔ (s ≡ t)
string_eq_iff s t = (string_eq-eq s t, λ e. rw e (string_eq_refl t))

pub assign_other {ℓ} :
    {A : Type ℓ} (key other : Text) (v : A) (m : Text → A)
    → key ≢ other
    → assign key v m other ≡ m other
assign_other key other v m n = elim (Bool-cases (text_eq other key)) [
  | inl e ↦ absurd (n (sym ((text_eq_iff other key).0 e)))
  | inr e ↦ rw e refl
]

pub assign-none :
    {A : Type 0} (key other : Text) (m : Text → Option A)
    → m other ≡ none
    → assign key none m other ≡ none
assign-none key other m h = elim (Bool-cases (text_eq other key)) [
  | inl e ↦ rw e refl
  | inr e ↦ rw e h
]

pub assign_same : {A : Type 0} (key : Text) (v : A) (m : Text → A) → assign key v m key ≡ v
assign_same key v m = rw ((text_eq_iff key key).1 refl) refl
