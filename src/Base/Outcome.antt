-- ===== src/Base/Outcome.antt =====
-- Go's outcomes: a value, an error, or a panic. Of an error the model keeps what the code can tell
-- apart: the sentinel values, the result codes of the database, and the chain that `%w` builds.
use mathlib.Core.Path.{◌≡◌, refl}
use mathlib.Core.Bool.{Bool, true, false}
use mathlib.Core.Logic.{◌⊎◌, inl, inr}
use Prim.Native.Nat.{ℕ}

-- The package variables made by `errors.New`.
pub data Sentinel : Type 0 where
  key_not_found generation_mismatch ids_key_not_found element_exists not_found : Sentinel

-- Result codes of the database's errors; `other_code` is any that the code does not test for.
pub data Code : Type 0 where
  key_not_found_error generation_error key_exists_error fail_element_exists index_found : Code
  other_code : ℕ → Code

pub data Error : Type 0 where
  -- an error that carries no other: `fmt.Errorf` without `%w`, or one of a library
  failed : Error
  sentinel : Sentinel → Error
  database : Code → Error
  -- `fmt.Errorf("… %w", err)`
  wrapped : Error → Error

pub data Result {ℓ} (A : Type ℓ) : Type ℓ where
  ok : A → Result A
  err : Error → Result A
  panic : Result A

infixl 5 ◌>>=◌
abbrev pub ◌>>=◌ {ℓ κ} : {A : Type ℓ} {B : Type κ} → Result A → (A → Result B) → Result B
ok a >>= f = f a
err e >>= f = err e
panic >>= f = panic

-- `if err != nil { return …, fmt.Errorf("… %w", err) }`
abbrev pub wrap {ℓ} : {A : Type ℓ} → Result A → Result A
wrap (ok a) = ok a
wrap (err e) = err (wrapped e)
wrap panic = panic

abbrev pub is_sentinel : Sentinel → Sentinel → Bool
is_sentinel key_not_found key_not_found = true
is_sentinel generation_mismatch generation_mismatch = true
is_sentinel ids_key_not_found ids_key_not_found = true
is_sentinel element_exists element_exists = true
is_sentinel not_found not_found = true
is_sentinel _ _ = false

-- `errors.Is(err, target)` for a sentinel
abbrev pub is : Error → Sentinel → Bool
is failed t = false
is (sentinel s) t = is_sentinel s t
is (database c) t = false
is (wrapped e) t = is e t

abbrev pub same_code : Code → Code → Bool
same_code key_not_found_error key_not_found_error = true
same_code generation_error generation_error = true
same_code key_exists_error key_exists_error = true
same_code fail_element_exists fail_element_exists = true
same_code index_found index_found = true
same_code _ _ = false

-- `err.Matches(code)`, for the codes that the program names
abbrev pub matches : Error → Code → Bool
matches (database c) t = same_code c t
matches failed t = false
matches (sentinel s) t = false
matches (wrapped e) t = matches e t

pub Result-cases {ℓ} :
    {A : Type ℓ} (r : Result A) → ((a : A) × (r ≡ ok a)) ⊎ ((e : Error) × (r ≡ err e)) ⊎ (r ≡ panic)
Result-cases (ok a) = inl (a, refl)
Result-cases (err e) = inr (inl (e, refl))
Result-cases panic = inr (inr refl)
