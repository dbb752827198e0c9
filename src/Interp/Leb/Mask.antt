-- ===== src/Interp/Leb/Mask.antt =====
-- The mask that extends the sign in `read_leb` of core/iwasm/interpreter/wasm_interp_classic.c, and the
-- two shifts of the loader's `read_leb` in core/iwasm/interpreter/wasm_loader.c.
use native.Mathlib.Nat.{mod-eq_of_lt, pow-le-pow_right, add-mul-mod_self_left}
use wasm_trustzone.Base.{
  ℕ, ◌+◌, ◌-◌, ◌*◌, ◌%◌, ◌^◌, ◌≤◌, ◌<◌, ◌≡◌, refl, sym, ap, ◌∙◌, subst, true, false, not, bit_and,
  bit_or, arith, ltb, ◌==◌, if◌then◌else◌, Bool-cases, inl, inr,
}
use wasm_trustzone.Base.Bits.{byte_bit6, bit_or_disjoint}
use wasm_trustzone.Base.Pow.{pow-add, pow-suc-pos, mul-le_right}
use wasm_trustzone.Loader.Leb.{asr, shl}
use wasm_trustzone.Loader.Leb.Span.{Groups, IsShaped, total-lt, pow-add-seven}
use wasm_trustzone.Loader.Leb.Groups.{ended}
use wasm_trustzone.Loader.Leb.Extend.{asr-shl}
use wasm_trustzone.Interp.Leb.{extend_sign}
use wasm_trustzone.Interp.Leb.Agreement.{reading}

module _ (k : ℕ) (g : Groups) (h : IsShaped k g) where
  -- The seventh bit of the last group is the top bit of the number.
  negative : not (bit_and g.last 0x40 == 0) ≡ not (ltb (2 * g.total) (2 ^ (7 * g.count)))
  negative =
      let p : ℕ = 2 ^ (7 * (g.count - 1)) in
      let width : 2 ^ (7 * g.count) ≡ 128 * p =
        ap (λ (n : ℕ). 2 ^ n) {y = 7 * (g.count - 1) + 7} (omega (arith, h.some_group))
        ∙ pow-add-seven (7 * (g.count - 1)) in
      let bit = byte_bit6 g.last (omega (arith, h.last_group)) in
      elim (Bool-cases (ltb g.last 64)) [
        | inl low ↦
            let small : g.last * p ≤ 63 * p = mul-le_right (ground (arith, low)) p in
            let test : (bit_and g.last 0x40 == 0) ≡ true = ground (arith, bit, low) in
            let order : ltb (2 * g.total) (2 ^ (7 * g.count)) ≡ true =
              ground (arith, small, width, h.total_eq, h.below_small) in
            rw (test, order) refl
        | inr high ↦
            let large : 64 * p ≤ g.last * p = mul-le_right (ground (arith, high)) p in
            let test : (bit_and g.last 0x40 == 0) ≡ false =
              ground (arith, bit, high, h.last_group) in
            let order : ltb (2 * g.total) (2 ^ (7 * g.count)) ≡ false =
              ground (arith, large, width, h.total_eq) in
            rw (test, order) refl
      ]

  mask :
      7 * g.count ≤ 64
      → bit_or g.total (2 ^ 64 - 2 ^ (7 * g.count)) ≡ g.total + (2 ^ 64 - 2 ^ (7 * g.count))
  mask short =
      let high : ℕ = 2 ^ (64 - 7 * g.count) in
      let word : 2 ^ 64 ≡ high * 2 ^ (7 * g.count) =
        ap (λ (n : ℕ). 2 ^ n) {x = 64} (omega arith) ∙ pow-add (64 - 7 * g.count) (7 * g.count) in
      let ones : 2 ^ 64 - 2 ^ (7 * g.count) ≡ (high - 1) * 2 ^ (7 * g.count) = omega (
        arith,
        word,
        ap (λ (q : ℕ). q * 2 ^ (7 * g.count)) {x = high} {y = high - 1 + 1}
            (omega (arith, pow-suc-pos (64 - 7 * g.count))),
      ) in
      rw ones (bit_or_disjoint (7 * g.count) g.total (high - 1) (total-lt h))

  -- What both extensions give, at a width that the groups do not fill.
  extend_sign_short :
      (w : ℕ)
      → 7 * g.count < w
      → w ≤ 64
      → extend_sign w true (reading (ended g)) % 2 ^ w ≡ (
          if ltb (2 * g.total) (2 ^ (7 * g.count))
          then g.total
          else g.total + (2 ^ w - 2 ^ (7 * g.count)))
  unfolding extend_sign
  extend_sign_short w short le =
      let field : 2 ^ (7 * g.count) ≤ 2 ^ w =
        pow-le-pow_right {n = 2} (omega arith) {j = w} (omega arith) in
      let word : 2 ^ w ≤ 2 ^ 64 = pow-le-pow_right {n = 2} (omega arith) {j = 64} (omega arith) in
      let whole : g.total % 2 ^ 64 ≡ g.total = mod-eq_of_lt (omega (arith, total-lt h)) in
      let narrow : ltb (7 * g.count) w ≡ true = ground arith in
      elim (Bool-cases (ltb (2 * g.total) (2 ^ (7 * g.count)))) [
        | inl low ↦ rw (narrow, negative, low, whole) (mod-eq_of_lt (omega (arith, total-lt h)))
        | inr high ↦
            let parts : g.total + (2 ^ 64 - 2 ^ (7 * g.count))
                ≡ g.total + (2 ^ w - 2 ^ (7 * g.count)) + 2 ^ w * (2 ^ (64 - w) - 1) =
              omega (
                arith,
                ap (λ (n : ℕ). 2 ^ n) {x = 64} {y = w + (64 - w)} (omega arith)
                    ∙ pow-add w (64 - w),
                ap (λ (q : ℕ). 2 ^ w * q) {x = 2 ^ (64 - w)} {y = 2 ^ (64 - w) - 1 + 1}
                    (omega (arith, pow-suc-pos (64 - w))),
              ) in
            rw (narrow, negative, high, whole, mask (omega arith), parts)
              (add-mul-mod_self_left (g.total + (2 ^ w - 2 ^ (7 * g.count))) (2 ^ w)
                  (2 ^ (64 - w) - 1)
                ∙ mod-eq_of_lt (omega (arith, total-lt h)))
      ]

  -- The loader's two shifts give the same.
  pub shifts_agree :
      (w : ℕ)
      → 7 * g.count < w
      → w ≤ 64
      → asr w (w - 7 * g.count) (shl w (w - 7 * g.count) g.total)
        ≡ extend_sign w true (reading (ended g)) % 2 ^ w
  shifts_agree w short le =
      let width : w - (w - 7 * g.count) ≡ 7 * g.count = omega arith in
      let fits : g.total < 2 ^ (w - (w - 7 * g.count)) =
        subst (λ n. g.total < 2 ^ n) (sym width) (total-lt h) in
      asr-shl w (w - 7 * g.count) g.total (omega (arith, h.some_group)) fits
      ∙ ap (λ n. if ltb (2 * g.total) (2 ^ n) then g.total else g.total + (2 ^ w - 2 ^ n)) width
      ∙ sym (extend_sign_short w short le)
