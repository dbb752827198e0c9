-- ===== src/Base/Bits.antt =====
-- Bit operations as arithmetic: `|` of two disjoint fields at every width, and tests of one byte
-- against a mask, which are settled by evaluating all 256 bytes.
use Prim.Native.Nat.{
  ℕ, zero, suc, ◌+◌, ◌*◌, ◌/◌, ◌%◌, ◌^◌, ◌≤◌, ◌<◌, max, bit_and, bit_or, digits, bit_or-bitwise,
}
use mathlib.Core.Path.{◌≡◌, refl, ap}
use mathlib.Core.Bool.{Bool, true, false, ◌&&◌}
use native.Mathlib.Nat.{pow-suc}
use native.Mathlib.Omega.{arith}
use wasm_trustzone.Base.Tests.{◌==◌, ltb, if◌then◌else◌}

-- The digit recursion that `bit_or` stands for, with its fuel made explicit.
abbrev or_digits : ℕ → ℕ → ℕ → ℕ
or_digits n a b = digits (λ r. r) max n a b

or_digits_fuel : (n m a b : ℕ) → a ≤ n → a ≤ m → or_digits n a b ≡ or_digits m a b
or_digits_fuel zero zero a b p q = refl
or_digits_fuel zero (suc m) zero b p q = refl
or_digits_fuel zero (suc m) (suc a) b p q = absurd (omega arith)
or_digits_fuel (suc n) zero zero b p q = refl
or_digits_fuel (suc n) zero (suc a) b p q = absurd (omega arith)
or_digits_fuel (suc n) (suc m) zero b p q = refl
or_digits_fuel (suc n) (suc m) (suc a) b p q =
    omega (arith, or_digits_fuel n m (suc a / 2) (b / 2) (omega arith) (omega arith))

zero-bit_or : (b : ℕ) → bit_or 0 b ≡ b
zero-bit_or b = bit_or-bitwise 0 b

-- The lowest digit, and the rest.
bit_or_digit : (a b : ℕ) → bit_or a b ≡ bit_or (a / 2) (b / 2) * 2 + max (a % 2) (b % 2)
bit_or_digit zero b = omega (arith, zero-bit_or b, zero-bit_or (b / 2))
bit_or_digit (suc a) b = omega (
  arith,
  bit_or-bitwise (suc a) b,
  bit_or-bitwise (suc a / 2) (b / 2),
  or_digits_fuel a (suc a / 2) (suc a / 2) (b / 2) (omega arith) (omega arith),
)

twice_field : (hi k : ℕ) → hi * 2 ^ suc k ≡ 2 * (hi * 2 ^ k)
twice_field hi k = omega (arith, ap (λ (t : ℕ). hi * t) (pow-suc 2 k))

-- `lo | (hi << k)` is a sum where `lo` fits in `k` bits.
pub bit_or_disjoint : (k lo hi : ℕ) → lo < 2 ^ k → bit_or lo (hi * 2 ^ k) ≡ lo + hi * 2 ^ k
bit_or_disjoint zero lo hi fits = ground (arith, zero-bit_or (hi * 2 ^ 0))
bit_or_disjoint (suc k) lo hi fits = ground (
  arith,
  bit_or_digit lo (hi * 2 ^ suc k),
  twice_field hi k,
  pow-suc 2 k,
  bit_or_disjoint k (lo / 2) hi (omega (arith, pow-suc 2 k)),
)

-- Two functions agree on every byte.
agree_on_bytes : ℕ → (ℕ → ℕ) → (ℕ → ℕ) → Bool
agree_on_bytes zero f g = true
agree_on_bytes (suc n) f g = (f n == g n) && agree_on_bytes n f g

agree_at : (n : ℕ) (f g : ℕ → ℕ) (x : ℕ) → agree_on_bytes n f g ≡ true → x < n → f x ≡ g x
unfolding agree_on_bytes
agree_at zero f g x h lt = absurd (omega arith)
agree_at (suc n) f g x h lt = ground (arith, agree_at n f g x)

-- The payload bits of a byte of an LEB128 number.
pub byte_low7 : (b : ℕ) → b < 256 → bit_and b 0x7f ≡ b % 128
unfolding agree_on_bytes
byte_low7 b h = agree_at 256 (λ x. bit_and x 0x7f) (λ x. x % 128) b refl h

-- The continuation bit.
pub byte_top : (b : ℕ) → b < 256 → bit_and b 0x80 ≡ (if ltb b 128 then 0 else 128)
unfolding agree_on_bytes
byte_top b h = agree_at 256 (λ x. bit_and x 0x80) (λ x. if ltb x 128 then 0 else 128) b refl h

pub byte_high_nibble : (b : ℕ) → b < 256 → bit_and b 0xf0 ≡ b / 16 * 16
unfolding agree_on_bytes
byte_high_nibble b h = agree_at 256 (λ x. bit_and x 0xf0) (λ x. x / 16 * 16) b refl h

pub byte_bit3 : (b : ℕ) → b < 256 → bit_and b 0x8 ≡ b / 8 % 2 * 8
unfolding agree_on_bytes
byte_bit3 b h = agree_at 256 (λ x. bit_and x 0x8) (λ x. x / 8 % 2 * 8) b refl h

pub byte_bit0 : (b : ℕ) → b < 256 → bit_and b 0x1 ≡ b % 2
unfolding agree_on_bytes
byte_bit0 b h = agree_at 256 (λ x. bit_and x 0x1) (λ x. x % 2) b refl h

pub byte_high7 : (b : ℕ) → b < 256 → bit_and b 0xfe ≡ b / 2 * 2
unfolding agree_on_bytes
byte_high7 b h = agree_at 256 (λ x. bit_and x 0xfe) (λ x. x / 2 * 2) b refl h

pub byte_bit6 : (b : ℕ) → b < 256 → bit_and b 0x40 ≡ b / 64 % 2 * 64
unfolding agree_on_bytes
byte_bit6 b h = agree_at 256 (λ x. bit_and x 0x40) (λ x. x / 64 % 2 * 64) b refl h

pub byte_or_bit6 : (b : ℕ) → b < 256 → (bit_or b 0x40 == 0) ≡ false
unfolding agree_on_bytes
byte_or_bit6 b h =
    let table : (if bit_or b 0x40 == 0 then 1 else 0) ≡ 0 =
      agree_at 256 (λ x. if bit_or x 0x40 == 0 then 1 else 0) (λ x. 0) b refl h in
    ground (arith, table)
