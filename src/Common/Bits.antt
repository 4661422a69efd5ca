-- ===== src/Common/Bits.antt =====
-- Bit operations as arithmetic: masks on a byte, and `|` of disjoint fields at any width.
use Prim.Native.Nat.{
  ℕ, zero, suc, ◌+◌, ◌*◌, ◌/◌, ◌%◌, ◌^◌, ◌≤◌, ◌<◌, max, bit_and, bit_or, digits, bit_or-bitwise,
}
use mathlib.Core.Path.{◌≡◌, refl, ap}
use mathlib.Core.Bool.{Bool, true, ◌&&◌}
use native.Mathlib.Omega.{arith}
use native.Mathlib.Nat.{pow-suc}
use mautrix_signal.Common.Tests.{◌==◌, ==→eq}

holds_below : ℕ → (ℕ → Bool) → Bool
holds_below zero p = true
holds_below (suc n) p = p n && holds_below n p

holds_below-lt : (n : ℕ) (p : ℕ → Bool) (x : ℕ) → holds_below n p ≡ true → x < n → p x ≡ true
unfolding holds_below
holds_below-lt zero p x h q = absurd (omega arith)
holds_below-lt (suc n) p x h q = ground (arith, holds_below-lt n p x)

-- `b & 0x7f` and `b | 0x80` on a byte.
pub low_seven : (b : ℕ) → b < 256 → bit_and b 0x7f ≡ b % 128
unfolding holds_below
low_seven b h = ==→eq _ _ (holds_below-lt 256 (λ x. bit_and x 0x7f == x % 128) b refl h)

pub set_eighth : (b : ℕ) → b < 256 → bit_or b 0x80 ≡ b % 128 + 128
unfolding holds_below
set_eighth b h = ==→eq _ _ (holds_below-lt 256 (λ x. bit_or x 0x80 == x % 128 + 128) b refl h)

-- `bit_or` by its digits, with as many rounds as are asked for.
abbrev or_rounds : ℕ → ℕ → ℕ → ℕ
or_rounds n a b = digits (λ y. y) max n a b

or_rounds_stable : (m n a b : ℕ) → a ≤ m → a ≤ n → or_rounds m a b ≡ or_rounds n a b
or_rounds_stable zero zero a b p q = refl
or_rounds_stable zero (suc n) zero b p q = refl
or_rounds_stable zero (suc n) (suc a) b p q = absurd (omega arith)
or_rounds_stable (suc m) zero zero b p q = refl
or_rounds_stable (suc m) zero (suc a) b p q = absurd (omega arith)
or_rounds_stable (suc m) (suc n) zero b p q = refl
or_rounds_stable (suc m) (suc n) (suc a) b p q =
    omega (arith, or_rounds_stable m n (suc a / 2) (b / 2) (omega arith) (omega arith))

zero-bit_or : (b : ℕ) → bit_or 0 b ≡ b
zero-bit_or b = bit_or-bitwise 0 b

or_low_digit : (a b : ℕ) → bit_or a b ≡ bit_or (a / 2) (b / 2) * 2 + max (a % 2) (b % 2)
or_low_digit zero b = omega (arith, zero-bit_or b, zero-bit_or (b / 2))
or_low_digit (suc a) b = omega (
  arith,
  bit_or-bitwise (suc a) b,
  bit_or-bitwise (suc a / 2) (b / 2),
  or_rounds_stable a (suc a / 2) (suc a / 2) (b / 2) (omega arith) (omega arith),
)

double_shift : (q k : ℕ) → q * 2 ^ suc k ≡ 2 * (q * 2 ^ k)
double_shift q k = omega (arith, ap (λ (t : ℕ). q * t) (pow-suc 2 k))

-- `x | q << k` is a sum if `x` has `k` bits.
pub or_shifted : (k x q : ℕ) → x < 2 ^ k → bit_or x (q * 2 ^ k) ≡ x + q * 2 ^ k
or_shifted zero zero q h = omega (arith, zero-bit_or (q * 1))
or_shifted zero (suc x) q h = absurd (omega arith)
or_shifted (suc k) x q h = ground (
  arith,
  or_low_digit x (q * 2 ^ suc k),
  double_shift q k,
  pow-suc 2 k,
  or_shifted k (x / 2) q (omega (arith, pow-suc 2 k)),
)
