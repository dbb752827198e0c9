-- ===== src/Interp/Integers/Loops.antt =====
-- The loops that count bits end within as many rounds as the word has bits, and what they count.
use native.Mathlib.Nat.{pow-suc, mod-eq_of_lt, div-eq_of_lt, div-eq_of_lt-le}
use wasm_trustzone.Base.{
  ℕ, zero, suc, ◌+◌, ◌-◌, ◌*◌, ◌/◌, ◌%◌, ◌^◌, ◌≤◌, ◌<◌, ◌≡◌, refl, ap, ◌∙◌, true, false, some,
  arith, ltb, ◌==◌, Bool-cases, inl, inr,
}
use wasm_trustzone.Base.Pow.{mul-le_right}
use wasm_trustzone.Interp.Integers.{clz_loop, clz, ctz_loop, ctz, popcount, int_unary}
use wasm_trustzone.Interp.Integers.Ones.{ones, popcount_loop-ones, ones-le}
use wasm_trustzone.Opcode.{IntUnary, int_clz, int_ctz, int_popcnt}

-- After k shifts to the left, and no fewer, the top bit of the word is set.
abbrev pub ShiftsToTop : ℕ → ℕ → ℕ → Type 0
ShiftsToTop w v k = (2 ^ (w - 1) ≤ v * 2 ^ k) × (v * 2 ^ k < 2 ^ w)

double-shift : (x n : ℕ) → x * 2 * 2 ^ n ≡ x * 2 ^ suc n
double-shift x n = omega (arith, ap (λ (t : ℕ). x * t) (pow-suc 2 n))

twice_top : (w : ℕ) → 0 < w → 2 ^ w ≡ 2 * 2 ^ (w - 1)
twice_top zero wide = absurd (omega arith)
twice_top (suc w) wide =
    pow-suc 2 w ∙ omega (arith, ap (λ (t : ℕ). 2 ^ t) {x = suc w - 1} {y = w} (omega arith))

top_bit_clear : (w v : ℕ) → v < 2 ^ (w - 1) → (v / 2 ^ (w - 1) % 2 == 0) ≡ true
top_bit_clear w v low = rw (div-eq_of_lt low) refl

top_bit_set : (w v : ℕ) → 0 < w → 2 ^ (w - 1) ≤ v → v < 2 ^ w → (v / 2 ^ (w - 1) % 2 == 0) ≡ false
top_bit_set w v wide high small =
    let one : v / 2 ^ (w - 1) ≡ 1 =
      div-eq_of_lt-le (2 ^ (w - 1)) (omega arith) (omega (arith, twice_top w wide)) in
    rw one refl

clz_loop-ShiftsToTop :
    (fuel w type num : ℕ)
    → 0 < w
    → type < 2 ^ w
    → 2 ^ (w - 1) ≤ type * 2 ^ fuel
    → (k : ℕ) × (k ≤ fuel)
      × (clz_loop (suc fuel) w type num ≡ some (num + k))
      × ShiftsToTop w type k
unfolding clz_loop
clz_loop-ShiftsToTop zero w type num wide small reach =
    rw (top_bit_set w type wide (omega (arith, reach)) small)
      (0, omega arith, ap some (omega arith), (reach, omega arith))
clz_loop-ShiftsToTop (suc fuel) w type num wide small reach =
    elim (Bool-cases (ltb type (2 ^ (w - 1)))) [
      | inl below ↦
          let low : type < 2 ^ (w - 1) = ground (arith, below) in
          let fits : type * 2 % 2 ^ w ≡ type * 2 = mod-eq_of_lt (omega (arith, twice_top w wide)) in
          let (k, rounds, e, shifted) =
            clz_loop-ShiftsToTop fuel w (type * 2) (num + 1) wide (omega (arith, twice_top w wide))
              (omega (arith, double-shift type fuel)) in
          rw (top_bit_clear w type low, fits)
            (
              suc k,
              omega arith,
              e ∙ ap some (omega arith),
              (
                omega (arith, shifted.0, double-shift type k),
                omega (arith, shifted.1, double-shift type k),
              ),
            )
      | inr above ↦
          let high : 2 ^ (w - 1) ≤ type = ground (arith, above) in
          rw (top_bit_set w type wide high small)
            (0, omega arith, ap some (omega arith), (omega arith, omega arith))
    ]

-- An odd number shifted by k.
abbrev pub OddShifted : ℕ → ℕ → Type 0
OddShifted v k = (m : ℕ) × (v ≡ (2 * m + 1) * 2 ^ k)

ctz_loop-OddShifted :
    (fuel type num : ℕ)
    → 0 < type
    → type < 2 ^ fuel
    → (k : ℕ) × (k < fuel) × (ctz_loop fuel type num ≡ some (num + k)) × OddShifted type k
unfolding ctz_loop
ctz_loop-OddShifted zero type num nonzero small = absurd (omega arith)
ctz_loop-OddShifted (suc fuel) type num nonzero small =
    let twice : 2 ^ suc fuel ≡ 2 * 2 ^ fuel = omega (arith, pow-suc 2 fuel) in
    elim (Bool-cases (type % 2 == 0)) [
      | inl even ↦
          let half : type ≡ 2 * (type / 2) = ground (arith, even) in
          let (k, below, e, odd) =
            ctz_loop-OddShifted fuel (type / 2) (num + 1) (omega (arith, half))
              (omega (arith, half, twice)) in
          rw even (
            suc k,
            omega (arith, below),
            e ∙ ap some (omega arith),
            (
              odd.0,
              half
                  ∙ ap (λ (t : ℕ). 2 * t) odd.1
                  ∙ omega (arith, ap (λ (t : ℕ). (2 * odd.0 + 1) * t) (pow-suc 2 k)),
            ),
          )
      | inr odd ↦ rw odd (0, omega arith, ap some (omega arith), (type / 2, ground (arith, odd)))
    ]

clz-ShiftsToTop :
    (w v : ℕ) → 0 < v → v < 2 ^ w → (k : ℕ) × (k < w) × (clz w v ≡ some k) × ShiftsToTop w v k
unfolding clz
clz-ShiftsToTop zero v nonzero small = absurd (omega arith)
clz-ShiftsToTop (suc w) v nonzero small =
    let reach : 2 ^ (suc w - 1) ≤ v * 2 ^ w = omega (
      arith,
      ap (λ (t : ℕ). 2 ^ t) {x = suc w - 1} {y = w} (omega arith),
      mul-le_right {a = 1} {b = v} (omega arith) (2 ^ w),
    ) in
    let (k, rounds, e, shifted) = clz_loop-ShiftsToTop w (suc w) v 0 (omega arith) small reach in
    let branch : (v == 0) ≡ false = ground arith in
    rw branch (k, omega arith, e ∙ ap some (omega arith), shifted)

ctz-OddShifted :
    (w v : ℕ) → 0 < v → v < 2 ^ w → (k : ℕ) × (k < w) × (ctz w v ≡ some k) × OddShifted v k
unfolding ctz
ctz-OddShifted w v nonzero small =
    let branch : (v == 0) ≡ false = ground arith in
    let (k, rounds, e, odd) = ctz_loop-OddShifted w v 0 nonzero small in
    rw branch (k, rounds, e ∙ ap some (omega arith), odd)

pub popcount-ones : (w v : ℕ) → v < 2 ^ w → popcount w v ≡ some (ones w v)
unfolding popcount
popcount-ones w v small = popcount_loop-ones w w v 0 small (ones-le w v) ∙ ap some (omega arith)

-- On a word of w bits that is not zero each of the three loops ends within w rounds: the leading zeros
-- are the shifts to the left that bring a one to the top bit, the trailing zeros are the shifts that
-- make the word of an odd number, and the population count is the number of ones.
pub counting_loops_end :
    (w v : ℕ)
    → 0 < v
    → v < 2 ^ w
    → ((k : ℕ) × (k < w) × (clz w v ≡ some k) × ShiftsToTop w v k)
      × ((k : ℕ) × (k < w) × (ctz w v ≡ some k) × OddShifted v k)
      × (popcount w v ≡ some (ones w v))
counting_loops_end w v nonzero small =
    (clz-ShiftsToTop w v nonzero small, ctz-OddShifted w v nonzero small, popcount-ones w v small)

pub int_unary_ends :
    (w : ℕ) (op : IntUnary) (v : ℕ) → v < 2 ^ w → (k : ℕ) × (int_unary w op v ≡ some k)
unfolding int_unary clz ctz
int_unary_ends w int_clz zero small = (w, refl)
int_unary_ends w int_clz (suc v) small =
    let (k, rounds, e, shifted) = clz-ShiftsToTop w (suc v) (omega arith) small in (k, e)
int_unary_ends w int_ctz zero small = (w, refl)
int_unary_ends w int_ctz (suc v) small =
    let (k, rounds, e, shifted) = ctz-OddShifted w (suc v) (omega arith) small in (k, e)
int_unary_ends w int_popcnt v small = (ones w v, popcount-ones w v small)
