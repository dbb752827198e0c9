-- ===== src/Loader/Leb/Int64.antt =====
-- `read_leb_int64` of core/iwasm/interpreter/wasm_loader.c against the specification's s64.
use wasm_trustzone.Base.{
  ℕ, ◌+◌, ◌-◌, ◌*◌, ◌%◌, ◌^◌, ◌≤◌, ◌<◌, ◌≡◌, refl, ap, sym, subst, ◌∙◌, true, List, [], ◌∷◌, Option,
  none, some, bit_or, arith, ltb, leb, Bool-cases, inl, inr, if◌then◌else◌,
}
use wasm_trustzone.Base.Bits.{byte_top, byte_high7, byte_bit0, byte_bit6, bit_or_disjoint}
use wasm_trustzone.Loader.Outcome.{ok, value, value->>=}
use wasm_trustzone.Loader.Leb.{finish_leb, shl, asr, read_int64_slow, read_leb_int64}
use wasm_trustzone.Loader.Leb.Spec.{Bytes, sleb, signed, as_signed}
use wasm_trustzone.Loader.Leb.Span.{
  Groups, span, IsShaped, WhenSome, span-IsShaped, total-lt, total-lt_of_few, parts_at,
}
use wasm_trustzone.Loader.Leb.Groups.{finish_groups, read_groups, read_leb-groups}
use wasm_trustzone.Loader.Leb.Extend.{asr-shl}
use wasm_trustzone.Loader.Leb.Signed.{extends, extends_few, signed_of, sleb-span, signed-extend}

-- Fewer than ten groups: the shifts copy the sign bit.
finish_short :
    (g : Groups)
    → IsShaped 10 g
    → g.count ≤ 9
    → (r : ℕ) × (finish_groups 64 true g ≡ ok r) × (signed 64 r ≡ signed (7 * g.count) g.total)
unfolding finish_groups finish_leb
finish_short g h few =
    let small : g.total < 2 ^ 63 = total-lt_of_few 9 h few in
    let k : ℕ = 64 - 7 * g.count in
    let low : ltb (7 * g.count) 64 ≡ true = ground arith in
    let word : g.total % 2 ^ 64 ≡ g.total = omega arith in
    let width : 64 - k ≡ 7 * g.count = omega arith in
    let fits : g.total < 2 ^ (64 - k) = subst (λ e. g.total < 2 ^ e) (sym width) (total-lt h) in
    (
      asr 64 k (shl 64 k g.total),
      rw (low, word) refl,
      ap (signed 64) (asr-shl 64 k g.total (omega (arith, h.some_group)) fits)
          ∙ signed-extend 64 (64 - k) g.total (omega arith) fits
          ∙ ap (λ e. signed e g.total) width,
    )

finish_full :
    (g : Groups)
    → IsShaped 10 g
    → g.count ≡ 10
    → value (finish_groups 64 true g) ≡ (if extends 64 g then some (g.total % 2 ^ 64) else none)
unfolding finish_groups finish_leb extends
finish_full g h full =
    let byte : g.last < 256 = omega (arith, h.last_group) in
    rw (full, byte_bit0 g.last byte, byte_high7 g.last byte) (ground (arith, h.last_group))

full_signed :
    (g : Groups)
    → IsShaped 10 g
    → g.count ≡ 10
    → extends 64 g ≡ true
    → signed 64 (g.total % 2 ^ 64) ≡ signed (7 * g.count) g.total
unfolding extends signed
full_signed g h full e =
    let (total, below) = parts_at 9 h full in
    let exponent : 2 ^ (64 + 6 - 7 * g.count) ≡ 1 = ap (λ (n : ℕ). 2 ^ (64 + 6 - 7 * n)) full in
    rw full (ground (arith, total, below, exponent, h.last_group))

-- What `read_leb` makes of the groups is what the specification makes of them.
read-signed :
    (o : Option Groups)
    → WhenSome (IsShaped 10) o
    → as_signed 64 (read_groups 64 true o) ≡ signed_of 64 o
unfolding read_groups signed_of
read-signed none h = refl
read-signed (some g) h = elim (Bool-cases (leb g.count 9)) [
  | inl few ↦
      let (r, finished, same) = finish_short g h (ground arith) in
      rw (finished, same, extends_few 64 g (ground arith)) refl
  | inr many ↦
      let full : g.count ≡ 10 = ground (arith, h.few_groups) in
      rw
        (
          value->>= {B = ℕ × ℕ} (finish_groups 64 true g) (λ r. ok (r, g.count)),
          finish_full g h full,
        )
        (elim (Bool-cases (extends 64 g)) [
          | inl copies ↦ rw copies (ap (λ z. some (z, g.count)) (full_signed g h full copies))
          | inr other ↦ rw other refl
        ])
]

slow-sleb : (bs : List ℕ) → Bytes bs → as_signed 64 (value (read_int64_slow bs)) ≡ sleb 64 bs
unfolding read_int64_slow
slow-sleb bs bytes =
    rw (read_leb-groups 64 10 true bs refl (omega arith) bytes)
      (read-signed (span 10 bs) (span-IsShaped 10 bs bytes))
    ∙ sym (sleb-span 10 64 bs (omega arith) refl bytes)

-- The macro with its fast path for one byte reads exactly the signed integers of the specification:
-- the same value, as a two's complement int64, and length where the bytes begin with one, and an
-- error elsewhere.
pub read_leb_int64-sleb :
    (bs : List ℕ) → Bytes bs → as_signed 64 (value (read_leb_int64 bs)) ≡ sleb 64 bs
unfolding read_leb_int64
read_leb_int64-sleb [] bytes = slow-sleb [] bytes
read_leb_int64-sleb (b ∷ bs) bytes = elim (Bool-cases (ltb b 128)) [
  | inl low ↦
      let filled : bit_or b 0xffffffffffffff80 ≡ b + 0xffffffffffffff80 =
        bit_or_disjoint 7 b 0x1ffffffffffffff (ground arith) in
      rw (byte_top b bytes.0, low, byte_bit6 b bytes.0)
        (unfold sleb signed in ground (arith, filled))
  | inr high ↦ rw (byte_top b bytes.0, high) (slow-sleb (b ∷ bs) bytes)
]
