-- ===== src/Loader/Leb/Extend.antt =====
-- The idiom `(x << k) >> k` of `read_leb` on a signed type: it copies the top bit of the low field.
use native.Mathlib.Nat.{mod-eq_of_lt, div-eq_of_lt-le, mul-div_cancel, pow-le-pow_right}
use wasm_trustzone.Base.{
  ℕ, ◌+◌, ◌-◌, ◌*◌, ◌/◌, ◌^◌, ◌≤◌, ◌<◌, ◌≡◌, ap, ◌∙◌, false, inl, inr, arith, ltb, lt→ltb,
  Bool-cases, if◌then◌else◌,
}
use wasm_trustzone.Base.Pow.{pow-add, pow-suc-pos, mul-lt, mul-le_right}
use wasm_trustzone.Loader.Leb.{shl, asr}

module _ (w k u : ℕ) (narrow : k < w) (fits : u < 2 ^ (w - k)) where
  word : 2 ^ w ≡ 2 ^ (w - k) * 2 ^ k
  word = ap (λ (n : ℕ). 2 ^ n) {x = w} (omega arith) ∙ pow-add (w - k) k

  half : 2 ^ w ≡ 2 * 2 ^ (w - 1)
  half = ap (λ (n : ℕ). 2 ^ n) {x = w} {y = 1 + (w - 1)} (omega arith) ∙ pow-add 1 (w - 1)

  shl_lem : shl w k u ≡ u * 2 ^ k
  unfolding shl
  shl_lem = mod-eq_of_lt (omega (arith, word, mul-lt (2 ^ k) u (2 ^ (w - k)) (pow-suc-pos k) fits))

  -- The number of bits above the field, as the complement of the field's value.
  complement : (2 ^ w - 1 - u * 2 ^ k) / 2 ^ k ≡ 2 ^ (w - k) - 1 - u
  complement =
      let d : ℕ = 2 ^ (w - k) - 1 - u in
      let whole : 2 ^ w ≡ u * 2 ^ k + 2 ^ k + d * 2 ^ k =
        word ∙ ap (λ (n : ℕ). n * 2 ^ k) {y = u + 1 + d} (omega arith) ∙ omega arith in
      let positive : 0 < 2 ^ k = pow-suc-pos k in
      div-eq_of_lt-le (2 ^ k) (omega arith) (omega arith)

  pub asr-shl :
      asr w k (shl w k u) ≡ (if ltb (2 * u) (2 ^ (w - k)) then u else u + (2 ^ w - 2 ^ (w - k)))
  unfolding asr
  asr-shl = rw shl_lem (elim (Bool-cases (ltb (2 * u) (2 ^ (w - k)))) [
    | inl low ↦
        let under : 2 * u * 2 ^ k < 2 ^ (w - k) * 2 ^ k =
          mul-lt (2 ^ k) (2 * u) (2 ^ (w - k)) (pow-suc-pos k) (ground arith) in
        rw (lt→ltb (u * 2 ^ k) (2 ^ (w - 1)) (omega (arith, word, half)), low)
          (mul-div_cancel u (pow-suc-pos k))
    | inr high ↦
        let over : 2 ^ (w - k) * 2 ^ k ≤ 2 * u * 2 ^ k = mul-le_right (ground arith) (2 ^ k) in
        let above : 2 ^ (w - 1) ≤ u * 2 ^ k = omega (arith, word, half) in
        let negative : ltb (u * 2 ^ k) (2 ^ (w - 1)) ≡ false = ground arith in
        let size : 2 ^ (w - k) ≤ 2 ^ w = pow-le-pow_right (omega arith) (omega arith) in
        rw (negative, high, complement) (omega (arith, fits))
  ])
