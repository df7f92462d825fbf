-- ===== src/Base/Decimal/Laws.antt =====
-- Printing and parsing of numbers, and splitting of joined texts.
use Prim.Native.Nat.{ℕ, zero, suc, ◌+◌, ◌-◌, ◌*◌, ◌/◌, ◌%◌, ◌^◌, ◌<◌, ◌≤◌}
use Prim.Native.Char.{Char, code}
use Prim.Native.String.{String}
use mathlib.Core.Path.{◌≡◌, refl, ap, ◌∙◌}
use mathlib.Core.Logic.{inl, inr}
use mathlib.Core.Option.{some}
use mathlib.Core.List.{List, [], ◌∷◌}
use native.Mathlib.Omega.{arith}
use allezon.Base.Compare.{ltb, Bool-cases}
use allezon.Base.Int.{ℤ, pos, negsuc, pos_part, neg_part}
use allezon.Base.Outcome.{ok}
use allezon.Base.Decimal.{
  digit, digits_before, natural_before, integer_before, is_digit, digits_after, unsigned,
  parse_uint, negative, nonnegative, parse_int, split,
}

code-digit : (d : ℕ) → d < 10 → code (digit d) ≡ 48 + d
unfolding digit
code-digit zero h = refl
code-digit (suc zero) h = refl
code-digit (suc (suc zero)) h = refl
code-digit (suc (suc (suc zero))) h = refl
code-digit (suc (suc (suc (suc zero)))) h = refl
code-digit (suc (suc (suc (suc (suc zero))))) h = refl
code-digit (suc (suc (suc (suc (suc (suc zero)))))) h = refl
code-digit (suc (suc (suc (suc (suc (suc (suc zero))))))) h = refl
code-digit (suc (suc (suc (suc (suc (suc (suc (suc zero)))))))) h = refl
code-digit (suc (suc (suc (suc (suc (suc (suc (suc (suc zero))))))))) h = refl
code-digit (suc (suc (suc (suc (suc (suc (suc (suc (suc (suc d)))))))))) h = absurd (omega arith)

digit_value : (n d : ℕ) → n * 10 + (48 + d - 48) ≡ n * 10 + d
digit_value n d = omega arith

digits_after-digit :
    (n d : ℕ) (s : String)
    → d < 10
    → digits_after n (String.◌∷◌ (digit d) s) ≡ digits_after (n * 10 + d) s
unfolding digits_after is_digit
digits_after-digit n d s h =
    rw (code-digit d h) (ground (arith, ap (λ (k : ℕ). digits_after k s) (digit_value n d)))

digits_after-before :
    (f n : ℕ) (rest : String)
    → n < f
    → digits_after 0 (digits_before f n rest) ≡ digits_after n rest
unfolding digits_before
digits_after-before zero n rest h = absurd (omega arith)
digits_after-before (suc f) n rest h = elim (Bool-cases (ltb n 10)) [
  | inl small ↦
      rw (small, digits_after-digit 0 n rest (ground arith))
        (ap (λ k. digits_after k rest) (omega arith))
  | inr large ↦
      rw
        (
          large,
          digits_after-before f (n / 10) (String.◌∷◌ (digit (n % 10)) rest) (ground arith),
          digits_after-digit (n / 10) (n % 10) rest (omega arith),
        )
        (ap (λ k. digits_after k rest) (omega arith))
]

-- A printed number begins with a digit.
first_digit :
    (f n e : ℕ) (s : String)
    → e < 10
    → (d : ℕ) × (t : String) × (d < 10)
      × (digits_before f n (String.◌∷◌ (digit e) s) ≡ String.◌∷◌ (digit d) t)
unfolding digits_before
first_digit zero n e s h = (e, s, h, refl)
first_digit (suc f) n e s h = elim (Bool-cases (ltb n 10)) [
  | inl small ↦ (n, String.◌∷◌ (digit e) s, ground arith, rw small)
  | inr large ↦
      let (d, t, less, is) =
        first_digit f (n / 10) (n % 10) (String.◌∷◌ (digit e) s) (omega arith) in
      (d, t, less, rw large is)
]

natural_first :
    (n : ℕ) (rest : String)
    → (d : ℕ) × (t : String) × (d < 10) × (natural_before n rest ≡ String.◌∷◌ (digit d) t)
unfolding natural_before digits_before
natural_first n rest = elim (Bool-cases (ltb n 10)) [
  | inl small ↦ (n, rest, ground arith, rw small)
  | inr large ↦
      let (d, t, less, is) = first_digit n (n / 10) (n % 10) rest (omega arith) in
      (d, t, less, rw large is)
]

unsigned_cons : (s t : String) (c : Char) → s ≡ String.◌∷◌ c t → unsigned s ≡ digits_after 0 s
unfolding unsigned
unsigned_cons s t c is = rw is

digits_after_natural : (n : ℕ) → digits_after 0 (natural_before n "") ≡ some n
unfolding natural_before digits_after
digits_after_natural n = digits_after-before (suc n) n "" (omega arith)

unsigned-natural : (n : ℕ) → unsigned (natural_before n "") ≡ some n
unsigned-natural n =
    let (d, t, less, is) = natural_first n "" in
    unsigned_cons (natural_before n "") t (digit d) is ∙ digits_after_natural n

-- No sign is read off a text that begins with a digit.
parse_int_digits :
    (s t : String) (d : ℕ)
    → d < 10
    → s ≡ String.◌∷◌ (digit d) t
    → parse_int s ≡ nonnegative (unsigned s)
unfolding parse_int
parse_int_digits s t d h is = rw (is, code-digit d h) (ground arith)

-- A printed 64-bit natural is parsed back.
pub parse_uint-natural : (n : ℕ) → n < 2 ^ 64 → parse_uint (natural_before n "") ≡ ok n
unfolding parse_uint
parse_uint-natural n h = rw (unsigned-natural n) (ground arith)

abbrev pub IsInt64 : ℤ → Type 0
IsInt64 a = (pos_part a < 2 ^ 63) × (neg_part a ≤ 2 ^ 63)

-- A printed int64 is parsed back.
pub parse_int-integer : (a : ℤ) → IsInt64 a → parse_int (integer_before a "") ≡ ok a
unfolding parse_int integer_before negative nonnegative
parse_int-integer (pos n) h =
    let (d, t, less, is) = natural_first n "" in
    rw (parse_int_digits (natural_before n "") t d less is, unsigned-natural n) (ground arith)
parse_int-integer (negsuc n) h = rw unsigned-natural (ground arith)

split-digit :
    (d : ℕ) (s part : String) (parts : List String)
    → d < 10
    → split b'_' s ≡ part ∷ parts
    → split b'_' (String.◌∷◌ (digit d) s) ≡ String.◌∷◌ (digit d) part ∷ parts
unfolding split
split-digit d s part parts h is = rw (is, code-digit d h) (ground arith)

split-digits :
    (f n : ℕ) (s part : String) (parts : List String)
    → split b'_' s ≡ part ∷ parts
    → split b'_' (digits_before f n s) ≡ digits_before f n part ∷ parts
unfolding digits_before
split-digits zero n s part parts is = is
split-digits (suc f) n s part parts is = elim (Bool-cases (ltb n 10)) [
  | inl small ↦ rw small (split-digit n s part parts (ground arith) is)
  | inr large ↦ rw large (
      split-digits f (n / 10) (String.◌∷◌ (digit (n % 10)) s) (String.◌∷◌ (digit (n % 10)) part)
        parts (split-digit (n % 10) s part parts (omega arith) is))
]

split-natural :
    (n : ℕ) (s part : String) (parts : List String)
    → split b'_' s ≡ part ∷ parts
    → split b'_' (natural_before n s) ≡ natural_before n part ∷ parts
unfolding natural_before
split-natural n = split-digits (suc n) n

split-integer :
    (a : ℤ) (s part : String) (parts : List String)
    → split b'_' s ≡ part ∷ parts
    → split b'_' (integer_before a s) ≡ integer_before a part ∷ parts
unfolding integer_before split
split-integer (pos n) s part parts is = split-natural n s part parts is
split-integer (negsuc n) s part parts is = rw (split-natural (suc n) s part parts is)

split-underscore :
    (s part : String) (parts : List String)
    → split b'_' s ≡ part ∷ parts
    → split b'_' (String.◌∷◌ "_" s) ≡ "" ∷ part ∷ parts
unfolding split
split-underscore s part parts is = rw is

split-empty : split b'_' "" ≡ "" ∷ []
unfolding split
split-empty = refl

-- `%d_%d` is split into its two numbers.
pub split_joined :
    (a : ℤ) (n : ℕ)
    → split b'_' (integer_before a (String.◌∷◌ "_" (natural_before n "")))
      ≡ integer_before a "" ∷ natural_before n "" ∷ []
split_joined a n =
    split-integer a _ "" (natural_before n "" ∷ [])
      (split-underscore _ (natural_before n "") [] (split-natural n "" "" [] split-empty))
