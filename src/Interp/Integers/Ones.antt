-- ===== src/Interp/Integers/Ones.antt =====
-- The loop of `popcount32` and `popcount64` takes a one from its word in every round.
use native.Mathlib.Nat.{pow-suc}
use Prim.Native.Nat.{digits, bit_and-bitwise}
use wasm_trustzone.Base.{
  ℕ, zero, suc, ◌+◌, ◌-◌, ◌*◌, ◌/◌, ◌%◌, ◌^◌, ◌≤◌, ◌<◌, ◌≡◌, refl, sym, ap, ◌∙◌, bit_and, min,
  false, some, arith, ◌==◌, Bool-cases, inl, inr,
}
use wasm_trustzone.Interp.Integers.{popcount_loop}

-- The number of ones among the lowest n digits.
unfoldable pub ones : ℕ → ℕ → ℕ
ones zero u = 0
ones (suc n) u = u % 2 + ones n (u / 2)

-- The native operation stands for a recursion on digits, for which any count that is large enough
-- serves.
and_of_digits :
    (bound count u v : ℕ) → count ≤ bound → u ≤ count → digits (λ r. 0) min count u v ≡ bit_and u v
and_of_digits bound zero zero v le fits = sym (bit_and-bitwise 0 v)
and_of_digits bound zero (suc u) v le fits = absurd (omega arith)
and_of_digits zero (suc count) u v le fits = absurd (omega arith)
and_of_digits (suc bound) (suc count) zero v le fits = sym (bit_and-bitwise 0 v)
and_of_digits (suc bound) (suc count) (suc u) v le fits =
    let halves = and_of_digits bound count (suc u / 2) (v / 2) (omega arith) (omega arith) in
    let own = and_of_digits bound u (suc u / 2) (v / 2) (omega arith) (omega arith) in
    omega (arith, halves, own, bit_and-bitwise (suc u) v)

bit_and_digit : (u v : ℕ) → bit_and u v ≡ bit_and (u / 2) (v / 2) * 2 + min (u % 2) (v % 2)
bit_and_digit zero v = omega (arith, bit_and-bitwise 0 v, bit_and-bitwise 0 (v / 2))
bit_and_digit (suc u) v =
    let own = and_of_digits u u (suc u / 2) (v / 2) (omega arith) (omega arith) in
    omega (arith, own, bit_and-bitwise (suc u) v)

bit_and-le : (n a b : ℕ) → a ≤ n → bit_and a b ≤ a
bit_and-le n zero b h = omega (arith, bit_and-bitwise 0 b)
bit_and-le zero (suc a) b h = absurd (omega arith)
bit_and-le (suc n) (suc a) b h =
    omega (arith, bit_and_digit (suc a) b, bit_and-le n (suc a / 2) (b / 2) (omega arith))

bit_and_self : (n a : ℕ) → a ≤ n → bit_and a a ≡ a
bit_and_self n zero h = bit_and-bitwise 0 0
bit_and_self zero (suc a) h = absurd (omega arith)
bit_and_self (suc n) (suc a) h =
    omega (arith, bit_and_digit (suc a) (suc a), bit_and_self n (suc a / 2) (omega arith))

bit_and_pred_even :
    (u : ℕ) → 0 < u → u % 2 ≡ 0 → bit_and u (u - 1) ≡ bit_and (u / 2) (u / 2 - 1) * 2
bit_and_pred_even u h even =
    let half : (u - 1) / 2 ≡ u / 2 - 1 = omega arith in
    omega (arith, bit_and_digit u (u - 1), ap (λ t. bit_and (u / 2) t) half)

bit_and_pred_odd : (u : ℕ) → u % 2 ≡ 1 → bit_and u (u - 1) ≡ u / 2 * 2
bit_and_pred_odd u odd =
    let half : (u - 1) / 2 ≡ u / 2 = omega arith in
    omega (
      arith,
      bit_and_digit u (u - 1),
      ap (λ t. bit_and (u / 2) t) half,
      bit_and_self (u / 2) (u / 2) (omega arith),
    )

-- Clearing the lowest one takes one from the count.
ones-bit_and_pred : (n u : ℕ) → 0 < u → u < 2 ^ n → ones n (bit_and u (u - 1)) + 1 ≡ ones n u
unfolding ones
ones-bit_and_pred zero u h small = absurd (omega arith)
ones-bit_and_pred (suc n) u h small = elim (Bool-cases (u % 2 == 0)) [
  | inl even ↦
      let zero_digit : u % 2 ≡ 0 = ground (arith, even) in
      let low : bit_and (u / 2) (u / 2 - 1) * 2 % 2 ≡ 0 = omega arith in
      let rest : bit_and (u / 2) (u / 2 - 1) * 2 / 2 ≡ bit_and (u / 2) (u / 2 - 1) = omega arith in
      rw (bit_and_pred_even u h zero_digit, low, rest, zero_digit)
        (omega (arith, ones-bit_and_pred n (u / 2) (omega arith) (omega (arith, pow-suc 2 n))))
  | inr odd ↦
      let one_digit : u % 2 ≡ 1 = ground (arith, odd) in
      let low : u / 2 * 2 % 2 ≡ 0 = omega arith in
      let rest : u / 2 * 2 / 2 ≡ u / 2 = omega arith in
      rw (bit_and_pred_odd u one_digit, low, rest, one_digit) (omega arith)
]

pub ones-le : (n u : ℕ) → ones n u ≤ n
unfolding ones
ones-le zero u = omega arith
ones-le (suc n) u = omega (arith, ones-le n (u / 2))

ones-zero : (n : ℕ) → ones n 0 ≡ 0
unfolding ones
ones-zero zero = refl
ones-zero (suc n) = omega (arith, ones-zero n)

pub popcount_loop-ones :
    (fuel n u ret : ℕ)
    → u < 2 ^ n
    → ones n u ≤ fuel
    → popcount_loop fuel u ret ≡ some (ret + ones n u)
unfolding popcount_loop
popcount_loop-ones zero n zero ret small enough = ap some (omega (arith, ones-zero n))
popcount_loop-ones (suc fuel) n zero ret small enough = ap some (omega (arith, ones-zero n))
popcount_loop-ones zero n (suc u) ret small enough =
    absurd (omega (arith, ones-bit_and_pred n (suc u) (omega arith) small))
popcount_loop-ones (suc fuel) n (suc u) ret small enough =
    let cleared = ones-bit_and_pred n (suc u) (omega arith) small in
    let some_left : (suc u == 0) ≡ false = ground arith in
    rw some_left (
      popcount_loop-ones fuel n (bit_and (suc u) (suc u - 1)) (ret + 1)
        (omega (arith, bit_and-le (suc u) (suc u) (suc u - 1) (omega arith)))
        (omega (arith, cleared))
      ∙ ap some (omega (arith, cleared)))
