-- ===== src/Base/Bits.antt =====
-- `hi<<k | lo` is a sum when `lo` fits in `k` bits, for every `k`.
use Prim.Native.Nat.{
  ℕ, zero, suc, ◌+◌, ◌*◌, ◌/◌, ◌%◌, ◌^◌, ◌≤◌, ◌<◌, max, bit_or, digits, bit_or-bitwise,
}
use mathlib.Core.Path.{◌≡◌, refl, sym, ap, ◌∙◌}
use native.Mathlib.Nat.{pow-suc}
use native.Mathlib.Omega.{arith}

-- What the library says that `bit_or` computes: binary digits, on fuel.
abbrev or_loop : ℕ → ℕ → ℕ → ℕ
or_loop fuel a b = digits (λ y. y) max fuel a b

or_loop_nothing : (fuel b : ℕ) → or_loop fuel 0 b ≡ b
or_loop_nothing zero b = refl
or_loop_nothing (suc fuel) b = refl

or_loop_enough : (fuel more a b : ℕ) → a ≤ fuel → a ≤ more → or_loop fuel a b ≡ or_loop more a b
or_loop_enough fuel more zero b h k = or_loop_nothing fuel b ∙ sym (or_loop_nothing more b)
or_loop_enough zero more (suc a) b h k = absurd (omega arith)
or_loop_enough (suc fuel) zero (suc a) b h k = absurd (omega arith)
or_loop_enough (suc fuel) (suc more) (suc a) b h k =
    let rest = or_loop_enough fuel more (suc a / 2) (b / 2) (omega arith) (omega arith) in
    omega (arith, rest)

zero-bit_or : (b : ℕ) → bit_or 0 b ≡ b
zero-bit_or b = bit_or-bitwise 0 b

or_low_digit : (a b : ℕ) → bit_or a b ≡ bit_or (a / 2) (b / 2) * 2 + max (a % 2) (b % 2)
or_low_digit zero b = omega (arith, zero-bit_or b, zero-bit_or (b / 2))
or_low_digit (suc a) b = omega (
  arith,
  bit_or-bitwise (suc a) b,
  bit_or-bitwise (suc a / 2) (b / 2),
  or_loop_enough a (suc a / 2) (suc a / 2) (b / 2) (omega arith) (omega arith),
)

bit_or-zero_below : (n a : ℕ) → a ≤ n → bit_or a 0 ≡ a
bit_or-zero_below zero zero h = refl
bit_or-zero_below zero (suc a) h = absurd (omega arith)
bit_or-zero_below (suc n) zero h = refl
bit_or-zero_below (suc n) (suc a) h =
    omega (arith, or_low_digit (suc a) 0, bit_or-zero_below n (suc a / 2) (omega arith))

pub bit_or_disjoint : (k hi lo : ℕ) → lo < 2 ^ k → bit_or (hi * 2 ^ k) lo ≡ hi * 2 ^ k + lo
bit_or_disjoint zero hi lo fits = ground (arith, bit_or-zero_below hi hi)
bit_or_disjoint (suc k) hi lo fits = ground (
  arith,
  ap (λ (t : ℕ). hi * t) (pow-suc 2 k),
  pow-suc 2 k,
  or_low_digit (hi * 2 ^ suc k) lo,
  bit_or_disjoint k hi (lo / 2),
)
