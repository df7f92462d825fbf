-- ===== src/Base/Decimal.antt =====
-- What the code uses of packages fmt, strconv and strings: `%d`, `ParseInt` and `ParseUint` in base
-- 10 at 64 bits, and `Split` at a one-character separator.
pub mod Laws
use Prim.Native.Nat.{ℕ, zero, suc, ◌+◌, ◌-◌, ◌*◌, ◌/◌, ◌%◌, ◌^◌, ◌<◌, ◌≤◌}
use Prim.Native.Char.{Char, code}
use Prim.Native.String.{String}
use mathlib.Core.Path.{◌≡◌, refl}
use mathlib.Core.Bool.{Bool, true, false, ◌&&◌}
use mathlib.Core.Option.{Option, none, some}
use mathlib.Core.List.{List, [], ◌∷◌}
use native.Mathlib.Omega.{arith}
use allezon.Base.Compare.{ltb, leb, ◌==◌, if◌then◌else◌}
use allezon.Base.Int.{ℤ, pos, negsuc, sub_ℕ}
use allezon.Base.Outcome.{Result, ok, err, failed}

digit : ℕ → Char
digit zero = "0"
digit (suc zero) = "1"
digit (suc (suc zero)) = "2"
digit (suc (suc (suc zero))) = "3"
digit (suc (suc (suc (suc zero)))) = "4"
digit (suc (suc (suc (suc (suc zero))))) = "5"
digit (suc (suc (suc (suc (suc (suc zero)))))) = "6"
digit (suc (suc (suc (suc (suc (suc (suc zero))))))) = "7"
digit (suc (suc (suc (suc (suc (suc (suc (suc zero)))))))) = "8"
digit (suc (suc (suc (suc (suc (suc (suc (suc (suc d))))))))) = "9"

-- The digits of `n` in front of `rest`; fuel above `n` is enough.
digits_before : ℕ → ℕ → String → String
digits_before zero n rest = rest
digits_before (suc fuel) n rest =
    let more = digits_before fuel (n / 10) (String.◌∷◌ (digit (n % 10)) rest) in
    if ltb n 10 then String.◌∷◌ (digit n) rest else more

unfoldable pub natural_before : ℕ → String → String
unfolding digits_before digit
natural_before n rest = digits_before (suc n) n rest

-- `%d` of a signed integer, in front of `rest`
unfoldable pub integer_before : ℤ → String → String
integer_before (pos n) rest = natural_before n rest
integer_before (negsuc n) rest = String.◌∷◌ "-" (natural_before (suc n) rest)

is_digit : Char → Bool
is_digit c = leb 48 (code c) && leb (code c) 57

-- The value of a text of digits, read after `n`.
digits_after : ℕ → String → Option ℕ
digits_after n String.[] = some n
digits_after n (String.◌∷◌ c s) =
    let rest = digits_after (n * 10 + (code c - 48)) s in if is_digit c then rest else none

unsigned : String → Option ℕ
unsigned String.[] = none
unsigned (String.◌∷◌ c s) = digits_after 0 (String.◌∷◌ c s)

in_range : ℕ → Option ℕ → Result ℕ
in_range limit none = err failed
in_range limit (some n) = if ltb n limit then ok n else err failed

-- `strconv.ParseUint(s, 10, 64)`
unfoldable pub parse_uint : String → Result ℕ
unfolding unsigned digits_after is_digit in_range
parse_uint s = in_range (2 ^ 64) (unsigned s)

negative : Option ℕ → Result ℤ
negative none = err failed
negative (some n) = if leb n (2 ^ 63) then ok (sub_ℕ 0 n) else err failed

nonnegative : Option ℕ → Result ℤ
nonnegative none = err failed
nonnegative (some n) = if ltb n (2 ^ 63) then ok (pos n) else err failed

-- `strconv.ParseInt(s, 10, 64)`
unfoldable pub parse_int : String → Result ℤ
unfolding unsigned digits_after is_digit negative nonnegative
parse_int String.[] = err failed
parse_int (String.◌∷◌ c s) =
    if code c == b'-'
    then negative (unsigned s)
    else if code c == b'+'
    then nonnegative (unsigned s)
    else nonnegative (unsigned (String.◌∷◌ c s))

-- A character in front of the first part.
cons_head : Char → List String → List String
cons_head c [] = String.◌∷◌ c String.[] ∷ []
cons_head c (part ∷ parts) = String.◌∷◌ c part ∷ parts

-- `strings.Split(s, sep)`, where `sep` is one character
unfoldable pub split : ℕ → String → List String
unfolding cons_head
split sep String.[] = String.[] ∷ []
split sep (String.◌∷◌ c s) =
    let rest = split sep s in if code c == sep then String.[] ∷ rest else cons_head c rest
