-- ===== src/Time.antt =====
-- What the code uses of package time: instants in UTC, with the `Time` methods that it calls.
-- The layouts of package dto have four digits for the year and no zone, so an instant is the number
-- of nanoseconds since 0000-01-01T00:00:00Z, the first that they can name.
use allezon.Base.{ℕ, ◌*◌, ◌/◌, ◌%◌, Bool, ltb, ℤ, sub_ℕ}

abbrev pub Time : Type 0
Time = ℕ

abbrev pub millisecond : ℕ
millisecond = 1_000_000

abbrev pub seconds : ℕ
seconds = 1_000_000_000

abbrev pub minute : ℕ
minute = 60 * seconds

-- 1970-01-01T00:00:00Z, in seconds
abbrev pub unix_epoch : ℕ
unix_epoch = 62_167_219_200

-- `t.Unix()`
abbrev pub unix : Time → ℤ
unix t = sub_ℕ (t / seconds) unix_epoch

-- `t.UnixMilli()`
abbrev pub unix_milli : Time → ℤ
unix_milli t = sub_ℕ (t / millisecond) (unix_epoch * 1000)

-- `t.Second()`
abbrev pub second : Time → ℕ
second t = t / seconds % 60

-- `t.After(u)` and `t.Before(u)`
abbrev pub after : Time → Time → Bool
after t u = ltb u t

abbrev pub before : Time → Time → Bool
before t u = ltb t u
