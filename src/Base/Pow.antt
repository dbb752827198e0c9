-- ===== src/Base/Pow.antt =====
-- Powers of two: products, and a remainder of a shifted field.
use native.Mathlib.Nat.{pow-suc, div-add-mod, mod-lt, mod-eq_of_lt, add-mul-mod_self_left}
use wasm_trustzone.Base.{ℕ, zero, suc, ◌+◌, ◌*◌, ◌/◌, ◌%◌, ◌^◌, ◌≤◌, ◌<◌, ◌≡◌, ap, ◌∙◌, arith}

pub pow-add : (a b : ℕ) → 2 ^ (a + b) ≡ 2 ^ a * 2 ^ b
pow-add a zero = grind arith
pow-add a (suc b) =
    let e : a + suc b ≡ suc (a + b) = omega arith in
    rw e (
      omega (
        arith,
        pow-suc 2 (a + b),
        ap (λ (t : ℕ). 2 ^ a * t) (pow-suc 2 b),
        ap (λ (t : ℕ). t * 2) (pow-add a b),
      ))

pub pow-suc-pos : (k : ℕ) → 0 < 2 ^ k
pow-suc-pos zero = omega arith
pow-suc-pos (suc k) = omega (arith, pow-suc 2 k, pow-suc-pos k)

pub mul-lt : (p a b : ℕ) → 0 < p → a < b → a * p < b * p
mul-lt p a b hp h = grind arith

pub mul-le_right : {a b : ℕ} → a ≤ b → (p : ℕ) → a * p ≤ b * p
mul-le_right h p = grind arith

-- `(x << s)` cut to `n` bits keeps the low `n - s` bits of `x`.
pub field-mod : (q p x : ℕ) → 0 < q → 0 < p → x * p % (q * p) ≡ x % q * p
field-mod q p x hq hp =
    let parts : x * p ≡ x % q * p + q * p * (x / q) =
      omega (arith, ap (λ (t : ℕ). t * p) (div-add-mod x q)) in
    let small : x % q * p < q * p = mul-lt p (x % q) q hp (mod-lt x hq) in
    rw parts (add-mul-mod_self_left (x % q * p) (q * p) (x / q) ∙ mod-eq_of_lt small)
