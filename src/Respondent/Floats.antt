-- ===== src/Respondent/Floats.antt =====
-- `float64` as the controller uses it: a type with operations and no law, so that what is proved
-- holds whatever the rounding. Also the fixed arrays of length 5 (`[5]float64`, `[5]uint16`).
use conclution_ai_teacher.Prelude.{ℕ, Bool}

pub record FloatOps (F : Type 0) : Type 0 where
  -- The constant n / 10 ^ k.
  pub dec : ℕ → ℕ → F
  pub add : F → F → F
  pub sub : F → F → F
  pub mul : F → F → F
  pub div : F → F → F
  pub neg : F → F
  -- x < y, x <= y, and x == y.
  pub lt : F → F → Bool
  pub le : F → F → Bool
  pub eq : F → F → Bool
  -- The package math: IsNaN, IsInf, Abs, Max and Log2.
  pub is_nan : F → Bool
  pub is_inf : F → Bool
  pub abs : F → F
  pub max : F → F → F
  pub log2 : F → F
  -- uint16(math.Floor(x)), float64(n), and math.MaxFloat64.
  pub floor_u16 : F → ℕ
  pub of_u16 : ℕ → F
  pub max_float : F

-- An array of length 5, read by its fields.
pub record Five (A : Type 0) : Type 0 where
  pub at_0 : A
  pub at_1 : A
  pub at_2 : A
  pub at_3 : A
  pub at_4 : A

abbrev pub five : {A : Type 0} → A → A → A → A → A → Five A
five a b c d e = record { at_0 = a; at_1 = b; at_2 = c; at_3 = d; at_4 = e }

module _ {A B : Type 0} where
  -- for index := range values { values[index] = f(values[index]) }
  abbrev pub map_five : (A → B) → Five A → Five B
  map_five f v = five (f v.at_0) (f v.at_1) (f v.at_2) (f v.at_3) (f v.at_4)

  -- for _, value := range values { acc = f(acc, value) }
  abbrev pub fold_five : (B → A → B) → B → Five A → B
  fold_five f acc v = f (f (f (f (f acc v.at_0) v.at_1) v.at_2) v.at_3) v.at_4

module _ {A B C : Type 0} where
  abbrev pub zip_five : (A → B → C) → Five A → Five B → Five C
  zip_five f v w =
      five (f v.at_0 w.at_0) (f v.at_1 w.at_1) (f v.at_2 w.at_2) (f v.at_3 w.at_3) (f v.at_4 w.at_4)
