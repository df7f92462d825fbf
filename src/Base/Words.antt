-- ===== src/Base/Words.antt =====
-- Fixed-width integers as bit patterns: conversion to a narrower type, and to a wider signed one.
use Prim.Native.Nat.{ℕ, ◌+◌, ◌-◌, ◌%◌, ◌^◌, ◌<◌, ◌≤◌}
use mathlib.Core.Path.{◌≡◌}
use mathlib.Core.Logic.{◌↔◌, ◌⊎◌}
use native.Mathlib.Omega.{arith}
use mathlib.Core.Bool.{Bool, ◌||◌}
use allezon.Base.Compare.{ltb, leb, ◌==◌, if◌then◌else◌}

-- Conversion to a type of `w` bits.
abbrev pub truncate : ℕ → ℕ → ℕ
truncate w x = x % 2 ^ w

-- Conversion of a signed value of `w` bits to a signed type of `v` bits.
abbrev pub sign_extend : ℕ → ℕ → ℕ → ℕ
sign_extend w v x = if ltb x (2 ^ (w - 1)) then x else x + (2 ^ v - 2 ^ w)

-- The 64-bit patterns of the integers that an int32 holds.
abbrev pub FitsInt32 : ℕ → Type 0
FitsInt32 x = (x < 2 ^ 31) ⊎ (2 ^ 64 - 2 ^ 31 ≤ x)

pub truncate-sign_extend8 : (x : ℕ) → x < 2 ^ 8 → truncate 8 (sign_extend 8 32 x) ≡ x
truncate-sign_extend8 x h = ground arith

-- An int survives the trip through an int32 exactly when it fits one.
pub sign_extend-truncate_iff :
    (x : ℕ) → x < 2 ^ 64 → (sign_extend 32 64 (truncate 32 x) ≡ x) ↔ FitsInt32 x
sign_extend-truncate_iff x h = (λ e. ground arith, λ f. ground arith)

-- `a < b` and `a <= 0` of int64 values.
abbrev pub int64_lt : ℕ → ℕ → Bool
int64_lt a b = ltb ((a + 2 ^ 63) % 2 ^ 64) ((b + 2 ^ 63) % 2 ^ 64)

abbrev pub int64_nonpositive : ℕ → Bool
int64_nonpositive a = a == 0 || leb (2 ^ 63) a

-- `a - b` of int64 values.
abbrev pub int64_sub : ℕ → ℕ → ℕ
int64_sub a b = (a + 2 ^ 64 - b) % 2 ^ 64
