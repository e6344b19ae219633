-- ===== src/Prelude/Clock.antt =====
-- Go's `time.Time` and `time.Duration`: nanoseconds since the zero time, which is 0.
-- The zero time is midnight UTC and UTC days have 86,400 s, so Go's `Truncate` and `Date` are `%`.
use Prim.Native.Nat.{ℕ, ◌-◌, ◌*◌, ◌/◌, ◌%◌}
use mathlib.Core.Bool.{Bool}
use conclution_ai_teacher.Prelude.Tests.{ltb, ◌==◌}
use conclution_ai_teacher.Prelude.Int.{ℤ, pos, ◌+ℤ◌, sub_ℕ, pos_part}

abbrev pub Time : Type 0
Time = ℕ

abbrev pub microsecond : ℕ
microsecond = 1_000

abbrev pub millisecond : ℕ
millisecond = 1_000_000

abbrev pub second : ℕ
second = 1_000_000_000

abbrev pub minute : ℕ
minute = 60_000_000_000

abbrev pub day : ℕ
day = 86_400_000_000_000

-- `t.IsZero()`, `t.After(u)`, `t.Before(u)`, `t.Truncate(d)`.
abbrev pub is_zero : Time → Bool
is_zero t = t == 0

abbrev pub after : Time → Time → Bool
after t u = ltb u t

abbrev pub before : Time → Time → Bool
before t u = ltb t u

abbrev pub truncate : Time → ℕ → Time
truncate t d = t - t % d

-- `t.Unix()`, and `time.Unix(e, 0)` for the times after the zero time; the epoch is so many seconds
-- after it.
abbrev pub epoch : ℕ
epoch = 62_135_596_800

unfoldable pub unix : Time → ℤ
unix t = sub_ℕ (t / second) epoch

unfoldable pub of_unix : ℤ → Time
of_unix e = pos_part (e +ℤ pos epoch) * second
