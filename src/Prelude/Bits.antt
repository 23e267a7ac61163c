-- ===== src/Prelude/Bits.antt =====
-- xor of numbers of any size, digit by digit, and a flag set above the low seven bits of a byte.
use Prim.Native.Nat.{
  ℕ, zero, suc, ◌+◌, ◌*◌, ◌/◌, ◌%◌, ◌^◌, ◌≤◌, ◌<◌, bit_xor, bit_or, digits, differ,
}
use Prim.Native.Nat.{bit_xor-bitwise}
use mathlib.Core.Path.{◌≡◌, refl}
use mathlib.Core.Bool.{Bool, true, ◌&&◌}
use native.Mathlib.Nat.{pow-suc}
use native.Mathlib.Omega.{arith}
use websocket.Prelude.Tests.{◌==◌, ==_iff}

abbrev xor_digits : ℕ → ℕ → ℕ → ℕ
xor_digits n a b = digits (λ b. b) differ n a b

xor_digits_fuel : (n m a b : ℕ) → a ≤ n → a ≤ m → xor_digits n a b ≡ xor_digits m a b
xor_digits_fuel (suc n) (suc m) (suc a) b p q =
    let less = xor_digits_fuel n m (suc a / 2) (b / 2) in
    omega (arith, less (omega arith) (omega arith))
xor_digits_fuel (suc n) (suc m) zero b p q = refl
xor_digits_fuel (suc n) zero zero b p q = refl
xor_digits_fuel zero (suc m) zero b p q = refl
xor_digits_fuel zero zero zero b p q = refl
xor_digits_fuel (suc n) zero (suc a) b p q = absurd (omega arith)
xor_digits_fuel zero m (suc a) b p q = absurd (omega arith)

-- The digits of zero are those of the other number.
zero-bit_xor : (b : ℕ) → bit_xor 0 b ≡ b
zero-bit_xor b = bit_xor-bitwise 0 b

differ_self : (x y : ℕ) → x < 2 → y < 2 → differ (differ x y) y ≡ x
differ_self zero zero p q = refl
differ_self zero (suc zero) p q = refl
differ_self zero (suc (suc y)) p q = absurd (omega arith)
differ_self (suc zero) zero p q = refl
differ_self (suc zero) (suc zero) p q = refl
differ_self (suc zero) (suc (suc y)) p q = absurd (omega arith)
differ_self (suc (suc x)) y p q = absurd (omega arith)

differ-lt : (x y : ℕ) → x < 2 → y < 2 → differ x y < 2
differ-lt zero y p q = q
differ-lt (suc zero) zero p q = p
differ-lt (suc zero) (suc y) p q = omega arith
differ-lt (suc (suc x)) y p q = absurd (omega arith)

-- The equation for the lowest digit.
bit_xor_step : (a b : ℕ) → bit_xor a b ≡ bit_xor (a / 2) (b / 2) * 2 + differ (a % 2) (b % 2)
bit_xor_step zero b = omega (arith, zero-bit_xor b, zero-bit_xor (b / 2))
bit_xor_step (suc a) b = omega (
  arith,
  bit_xor-bitwise (suc a) b,
  bit_xor-bitwise (suc a / 2) (b / 2),
  xor_digits_fuel a (suc a / 2) (suc a / 2) (b / 2) (omega arith) (omega arith),
)

bit_xor_undo_fuel : (n a b : ℕ) → a ≤ n → b ≤ n → bit_xor (bit_xor a b) b ≡ a
bit_xor_undo_fuel zero zero zero p q = refl
bit_xor_undo_fuel zero zero (suc b) p q = absurd (omega arith)
bit_xor_undo_fuel zero (suc a) b p q = absurd (omega arith)
bit_xor_undo_fuel (suc n) a b p q =
    let low : differ (a % 2) (b % 2) < 2 = differ-lt (a % 2) (b % 2) (omega arith) (omega arith) in
    let half : bit_xor a b / 2 ≡ bit_xor (a / 2) (b / 2) = omega (arith, bit_xor_step a b) in
    let digit : bit_xor a b % 2 ≡ differ (a % 2) (b % 2) = omega (arith, bit_xor_step a b) in
    rw (bit_xor_step (bit_xor a b) b, half, digit)
      (omega (
        arith,
        bit_xor_undo_fuel n (a / 2) (b / 2) (omega arith) (omega arith),
        differ_self (a % 2) (b % 2) (omega arith) (omega arith),
      ))

-- Masking twice with the same key gives the number back.
pub bit_xor_undo : (a b : ℕ) → bit_xor (bit_xor a b) b ≡ a
bit_xor_undo a b = bit_xor_undo_fuel (a + b) a b (omega arith) (omega arith)

bit_xor-lt_fuel : (n a b : ℕ) → a < 2 ^ n → b < 2 ^ n → bit_xor a b < 2 ^ n
bit_xor-lt_fuel zero a b p q = ground (arith, zero-bit_xor b)
bit_xor-lt_fuel (suc n) a b p q =
    let double : 2 ^ suc n ≡ 2 * 2 ^ n = omega (arith, pow-suc 2 n) in
    omega (
      arith,
      double,
      bit_xor_step a b,
      bit_xor-lt_fuel n (a / 2) (b / 2) (omega (arith, double)) (omega (arith, double)),
      differ-lt (a % 2) (b % 2) (omega arith) (omega arith),
    )

-- The xor of two bytes is a byte.
pub bit_xor-lt : (a b : ℕ) → a < 256 → b < 256 → bit_xor a b < 256
bit_xor-lt a b p q = bit_xor-lt_fuel 8 a b p q

-- Whether the test holds of every number below `n`.
below_hold : (ℕ → Bool) → ℕ → Bool
below_hold test zero = true
below_hold test (suc n) = below_hold test n && test n

below_hold_lem : (test : ℕ → Bool) (n k : ℕ) → k < n → below_hold test n ≡ true → test k ≡ true
unfolding below_hold
below_hold_lem test zero k h every = absurd (omega arith)
below_hold_lem test (suc n) k h every = ground (arith, below_hold_lem test n k)

flags : below_hold (λ k. bit_or 0x80 k == 128 + k) 128 ≡ true
unfolding below_hold
flags = refl

-- `0x80 | x` for a seven-bit `x`.
pub bit_or_high : (x : ℕ) → x < 128 → bit_or 0x80 x ≡ 128 + x
bit_or_high x h = (==_iff _ _).0 (below_hold_lem (λ k. bit_or 0x80 k == 128 + k) 128 x h flags)
