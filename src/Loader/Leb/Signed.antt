-- ===== src/Loader/Leb/Signed.antt =====
-- What the specification's sN makes of gathered groups, at every number of bits.
use native.Mathlib.Nat.{pow-le-pow_right, pow-suc}
use wasm_trustzone.Base.{
  ℕ, zero, suc, ◌+◌, ◌-◌, ◌*◌, ◌^◌, ◌≤◌, ◌<◌, ◌/◌, ◌≡◌, refl, ap, sym, ◌∙◌, Bool, true, false, ◌||◌,
  List, [], ◌∷◌, Option, none, some, arith, ltb, leb, Bool-cases, inl, inr, if◌then◌else◌,
}
use wasm_trustzone.Base.Int.{ℤ, pos, negsuc, ◌+ℤ◌, ◌*ℤ◌}
use wasm_trustzone.Loader.Leb.Spec.{Bytes, sleb, above, signed}
use wasm_trustzone.Loader.Leb.Span.{
  Groups, before, span, IsShaped, WhenSome, span-IsShaped, total-lt, pow-add-seven,
}

-- The bits of the last group beyond the n-th are copies of the sign bit.
unfoldable pub extends : ℕ → Groups → Bool
extends n g =
    if leb (7 * g.count) n
    then true
    else ltb g.last (2 ^ (n + 6 - 7 * g.count)) || leb 128 (g.last + 2 ^ (n + 6 - 7 * g.count))

pub extends_few : (n : ℕ) (g : Groups) → 7 * g.count ≤ n → extends n g ≡ true
unfolding extends
extends_few n g h = ground arith

unfoldable pub signed_of : ℕ → Option Groups → Option (ℤ × ℕ)
unfolding extends
signed_of n none = none
signed_of n (some g) = if extends n g then some (signed (7 * g.count) g.total, g.count) else none

-- Seven more bits below.
signed_step :
    (w u x : ℕ)
    → 0 < w
    → x < 128
    → u < 2 ^ w
    → signed (w + 7) (u * 128 + x) ≡ pos 128 *ℤ signed w u +ℤ pos x
unfolding signed ◌*ℤ◌ ◌+ℤ◌
signed_step zero u x h small fits = absurd (omega arith)
signed_step (suc q) u x h small fits = ground (arith, pow-add-seven (suc q), pow-suc 2 q)

module _ (k n b : ℕ) (g : Groups) (shape : IsShaped k g) (high : b < 256) where
  extends-next :
      7 < n
      → extends n (record { total = g.total * 128 + (b - 128); count = g.count + 1; last = g.last })
        ≡ extends (n - 7) g
  unfolding extends
  extends-next h =
      let exponent : n + 6 - 7 * (g.count + 1) ≡ n - 7 + 6 - 7 * g.count = omega arith in
      rw exponent (ground arith)

  signed-next :
      128 ≤ b
      → signed (7 * (g.count + 1)) (g.total * 128 + (b - 128))
        ≡ pos 128 *ℤ signed (7 * g.count) g.total +ℤ pos (b - 128)
  signed-next low =
      let wide : 7 * (g.count + 1) ≡ 7 * g.count + 7 = omega arith in
      rw wide (
        signed_step (7 * g.count) g.total (b - 128) (omega (arith, shape.some_group)) (omega arith)
          (total-lt shape))

signed_of-before :
    (k n b : ℕ) (o : Option Groups)
    → 7 < n
    → 128 ≤ b
    → b < 256
    → WhenSome (IsShaped k) o
    → signed_of n (before b o) ≡ above (λ z. pos 128 *ℤ z +ℤ pos (b - 128)) (signed_of (n - 7) o)
unfolding signed_of before
signed_of-before k n b none h low high shape = refl
signed_of-before k n b (some g) h low high shape =
    rw (extends-next k n b g shape high h, signed-next k n b g shape high low)
      (elim (Bool-cases (extends (n - 7) g)) [ inl e ↦ rw e | inr e ↦ rw e ])

-- An encoding of one byte.
single :
    (n b : ℕ)
    → 0 < n
    → b < 128
    → (if ltb b 64
        then (if ltb b (2 ^ (n - 1)) then some (pos b, 1) else none)
        else (if leb 128 (b + 2 ^ (n - 1)) then some (negsuc (127 - b), 1) else none))
      ≡ signed_of n (some (record { total = b; count = 1; last = b }))
unfolding signed_of extends signed
single n b positive low = elim (Bool-cases (ltb 7 n)) [
  | inl wide ↦
      let large : 2 ^ 7 ≤ 2 ^ (n - 1) = pow-le-pow_right (omega arith) {i = 7} (ground arith) in
      ground (arith, large)
  | inr narrow ↦
      let seven : n ≡ 7 → 2 ^ (n - 1) ≡ 64 = λ e. ap (λ (t : ℕ). 2 ^ (t - 1)) e in
      let exponent : n + 6 - 7 * 1 ≡ n - 1 = omega arith in rw exponent (ground (arith, seven))
]

pub sleb-span :
    (k n : ℕ) (bs : List ℕ)
    → 0 < n
    → (n + 6) / 7 ≡ k
    → Bytes bs
    → sleb n bs ≡ signed_of n (span k bs)
unfolding sleb span
sleb-span zero n bs positive e bytes = absurd (omega arith)
sleb-span (suc k) n [] positive e bytes = unfold signed_of in refl
sleb-span (suc k) n (b ∷ bs) positive e (is_byte, bytes) = elim (Bool-cases (ltb b 128)) [
  | inl low ↦ rw low (single n b positive (ground arith))
  | inr high ↦
      let large : ltb b 64 ≡ false = ground arith in
      rw (large, high)
        (elim (Bool-cases (ltb 7 n)) [
          | inl more ↦ rw more (
              ap (above (λ z. pos 128 *ℤ z +ℤ pos (b - 128)))
                (sleb-span k (n - 7) bs (ground arith) (ground arith) bytes)
              ∙ sym (
                  signed_of-before k n b (span k bs) (ground arith) (ground arith) is_byte
                    (span-IsShaped k bs bytes)))
          | inr done ↦
              let last : k ≡ 0 = ground arith in rw (done, last) (unfold signed_of before in refl)
        ])
]

-- Copying the sign bit of a field upwards does not change the number that it stands for.
pub signed-extend :
    (w q u : ℕ)
    → q ≤ w
    → u < 2 ^ q
    → signed w (if ltb (2 * u) (2 ^ q) then u else u + (2 ^ w - 2 ^ q)) ≡ signed q u
unfolding signed
signed-extend w q u narrow fits =
    let wider : 2 ^ q ≤ 2 ^ w = pow-le-pow_right (omega arith) narrow in ground (arith, wider)

pub extended-lt :
    (w q u : ℕ)
    → q ≤ w
    → u < 2 ^ q
    → (if ltb (2 * u) (2 ^ q) then u else u + (2 ^ w - 2 ^ q)) < 2 ^ w
extended-lt w q u narrow fits =
    let wider : 2 ^ q ≤ 2 ^ w = pow-le-pow_right (omega arith) narrow in ground (arith, wider)
