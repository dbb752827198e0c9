-- ===== src/Loader/Leb/Int32.antt =====
-- `read_leb_int32` of core/iwasm/interpreter/wasm_loader.c against the specification's s32.
use wasm_trustzone.Base.{
  ℕ, ◌+◌, ◌-◌, ◌*◌, ◌%◌, ◌^◌, ◌≤◌, ◌<◌, ◌≡◌, refl, ap, sym, subst, ◌∙◌, true, List, [], ◌∷◌, Option,
  none, some, bit_or, arith, ltb, leb, Bool-cases, inl, inr, if◌then◌else◌,
}
use wasm_trustzone.Base.Bits.{byte_top, byte_high_nibble, byte_bit3, byte_bit6, bit_or_disjoint}
use wasm_trustzone.Loader.Outcome.{ok, value, value->>=, and_then}
use wasm_trustzone.Loader.Leb.{
  finish_leb, widen, shl, asr, read_leb, read_int32_slow, read_leb_int32,
}
use wasm_trustzone.Loader.Leb.Spec.{Bytes, sleb, signed, as_signed}
use wasm_trustzone.Loader.Leb.Span.{
  Groups, span, IsShaped, WhenSome, span-IsShaped, total-lt, total-lt_of_few, parts_at,
}
use wasm_trustzone.Loader.Leb.Groups.{finish_groups, read_groups, read_leb-groups}
use wasm_trustzone.Loader.Leb.Extend.{asr-shl}
use wasm_trustzone.Loader.Leb.Signed.{
  extends, extends_few, signed_of, sleb-span, signed-extend, extended-lt,
}

-- An `int32` that went through a `uint64` comes back.
pub cast_widen : (x : ℕ) → x < 2 ^ 32 → widen x % 2 ^ 32 ≡ x
unfolding widen
cast_widen x h = ground arith

-- Fewer than five groups: the shifts copy the sign bit.
finish_short :
    (g : Groups)
    → IsShaped 5 g
    → g.count ≤ 4
    → (r : ℕ) × (finish_groups 32 true g ≡ ok r)
      × (signed 32 (r % 2 ^ 32) ≡ signed (7 * g.count) g.total)
unfolding finish_groups finish_leb
finish_short g h few =
    let small : g.total < 2 ^ 28 = total-lt_of_few 4 h few in
    let k : ℕ = 32 - 7 * g.count in
    let low : ltb (7 * g.count) 32 ≡ true = ground arith in
    let word : g.total % 2 ^ 64 % 2 ^ 32 ≡ g.total = omega arith in
    let width : 32 - k ≡ 7 * g.count = omega arith in
    let fits : g.total < 2 ^ (32 - k) = subst (λ e. g.total < 2 ^ e) (sym width) (total-lt h) in
    let shifted = asr-shl 32 k g.total (omega (arith, h.some_group)) fits in
    let range : asr 32 k (shl 32 k g.total) < 2 ^ 32 =
      rw shifted (extended-lt 32 (32 - k) g.total (omega arith) fits) in
    (
      widen (asr 32 k (shl 32 k g.total)),
      rw (low, word) refl,
      ap (signed 32) (cast_widen (asr 32 k (shl 32 k g.total)) range ∙ shifted)
          ∙ signed-extend 32 (32 - k) g.total (omega arith) fits
          ∙ ap (λ e. signed e g.total) width,
    )

finish_full :
    (g : Groups)
    → IsShaped 5 g
    → g.count ≡ 5
    → value (finish_groups 32 true g) ≡ (if extends 32 g then some (g.total % 2 ^ 64) else none)
unfolding finish_groups finish_leb extends
finish_full g h full =
    rw
      (
        full,
        byte_bit3 g.last (omega (arith, h.last_group)),
        byte_high_nibble g.last (omega (arith, h.last_group)),
      )
      (ground (arith, h.last_group))

full_signed :
    (g : Groups)
    → IsShaped 5 g
    → g.count ≡ 5
    → extends 32 g ≡ true
    → signed 32 (g.total % 2 ^ 64 % 2 ^ 32) ≡ signed (7 * g.count) g.total
unfolding extends signed
full_signed g h full e =
    let (total, below) = parts_at 4 h full in
    let exponent : 2 ^ (32 + 6 - 7 * g.count) ≡ 8 = ap (λ (n : ℕ). 2 ^ (32 + 6 - 7 * n)) full in
    rw full (ground (arith, total, below, exponent, h.last_group))

-- What `read_leb` makes of the groups is what the specification makes of them.
read-signed :
    (o : Option Groups)
    → WhenSome (IsShaped 5) o
    → as_signed 32 (and_then (read_groups 32 true o) (λ (res64, off). some (res64 % 2 ^ 32, off)))
      ≡ signed_of 32 o
unfolding read_groups signed_of
read-signed none h = refl
read-signed (some g) h = elim (Bool-cases (leb g.count 4)) [
  | inl few ↦
      let (r, finished, same) = finish_short g h (ground arith) in
      rw (finished, same, extends_few 32 g (ground arith)) refl
  | inr many ↦
      let full : g.count ≡ 5 = ground (arith, h.few_groups) in
      rw
        (
          value->>= {B = ℕ × ℕ} (finish_groups 32 true g) (λ r. ok (r, g.count)),
          finish_full g h full,
        )
        (elim (Bool-cases (extends 32 g)) [
          | inl copies ↦ rw copies (ap (λ z. some (z, g.count)) (full_signed g h full copies))
          | inr other ↦ rw other refl
        ])
]

slow-sleb : (bs : List ℕ) → Bytes bs → as_signed 32 (value (read_int32_slow bs)) ≡ sleb 32 bs
unfolding read_int32_slow
slow-sleb bs bytes =
    ap (as_signed 32) (value->>= (read_leb bs 0 32 true) (λ (res64, off). ok (res64 % 2 ^ 32, off)))
    ∙ rw (read_leb-groups 32 5 true bs refl (omega arith) bytes)
        (read-signed (span 5 bs) (span-IsShaped 5 bs bytes))
    ∙ sym (sleb-span 5 32 bs (omega arith) refl bytes)

-- The macro with its fast path for one byte reads exactly the signed integers of the specification:
-- the same value, as a two's complement int32, and length where the bytes begin with one, and an
-- error elsewhere.
pub read_leb_int32-sleb :
    (bs : List ℕ) → Bytes bs → as_signed 32 (value (read_leb_int32 bs)) ≡ sleb 32 bs
unfolding read_leb_int32
read_leb_int32-sleb [] bytes = slow-sleb [] bytes
read_leb_int32-sleb (b ∷ bs) bytes = elim (Bool-cases (ltb b 128)) [
  | inl low ↦
      let filled : bit_or b 0xffffff80 ≡ b + 0xffffff80 =
        bit_or_disjoint 7 b 0x1ffffff (ground arith) in
      rw (byte_top b bytes.0, low, byte_bit6 b bytes.0)
        (unfold sleb signed in ground (arith, filled))
  | inr high ↦ rw (byte_top b bytes.0, high) (slow-sleb (b ∷ bs) bytes)
]
