-- ===== src/Prelude/Bits.antt =====
-- `|` of a shifted number and one below the shift is their sum.
use Prim.Native.Nat.{
  ℕ, zero, suc, ◌+◌, ◌*◌, ◌/◌, ◌%◌, ◌^◌, ◌≤◌, ◌<◌, max, bit_or, digits, bit_or-bitwise,
}
use native.Mathlib.Nat.{pow-suc}
use mathlib.Core.Path.{◌≡◌, refl}
use native.Mathlib.Omega.{arith}

-- The digit recursion of `bit_or`, on any fuel that covers the first number.
abbrev or_digits : ℕ → ℕ → ℕ → ℕ
or_digits fuel a b = digits (λ y. y) max fuel a b

or_digits-fuel : (f g a b : ℕ) → a ≤ f → a ≤ g → or_digits f a b ≡ or_digits g a b
or_digits-fuel zero zero a b hf hg = refl
or_digits-fuel zero (suc g) zero b hf hg = refl
or_digits-fuel zero (suc g) (suc a) b hf hg = absurd (omega arith)
or_digits-fuel (suc f) zero zero b hf hg = refl
or_digits-fuel (suc f) zero (suc a) b hf hg = absurd (omega arith)
or_digits-fuel (suc f) (suc g) zero b hf hg = refl
or_digits-fuel (suc f) (suc g) (suc a) b hf hg =
    omega (arith, or_digits-fuel f g (suc a / 2) (b / 2) (omega arith) (omega arith))

zero-bit_or : (b : ℕ) → bit_or 0 b ≡ b
zero-bit_or b = bit_or-bitwise 0 b

bit_or-halves : (a b : ℕ) → bit_or a b ≡ bit_or (a / 2) (b / 2) * 2 + max (a % 2) (b % 2)
bit_or-halves zero b = omega (arith, zero-bit_or b, zero-bit_or (b / 2))
bit_or-halves (suc a) b = omega (
  arith,
  bit_or-bitwise (suc a) b,
  bit_or-bitwise (suc a / 2) (b / 2),
  or_digits-fuel a (suc a / 2) (suc a / 2) (b / 2) (omega arith) (omega arith),
)

bit_or-zero_fuel : (f a : ℕ) → a ≤ f → bit_or a 0 ≡ a
bit_or-zero_fuel f zero h = zero-bit_or 0
bit_or-zero_fuel zero (suc a) h = absurd (omega arith)
bit_or-zero_fuel (suc f) (suc a) h =
    omega (arith, bit_or-halves (suc a) 0, bit_or-zero_fuel f (suc a / 2) (omega arith))

pub bit_or-shifted : (k a b : ℕ) → b < 2 ^ k → bit_or (a * 2 ^ k) b ≡ a * 2 ^ k + b
bit_or-shifted zero a b h =
    let e : a * 2 ^ 0 ≡ a = omega arith in
    let z : b ≡ 0 = omega arith in rw (e, z) (omega (arith, bit_or-zero_fuel a a (omega arith)))
bit_or-shifted (suc k) a b h =
    let p : 2 ^ suc k ≡ 2 ^ k * 2 = pow-suc 2 k in
    let e : a * 2 ^ suc k ≡ a * 2 ^ k * 2 = rw p (omega arith) in
    let half : a * 2 ^ suc k / 2 ≡ a * 2 ^ k = rw e (omega arith) in
    let even : a * 2 ^ suc k % 2 ≡ 0 = rw e (omega arith) in
    rw bit_or-halves (rw (half, even, bit_or-shifted k a (b / 2) (omega arith)) (omega arith))
