-- ===== src/Loader/Leb/Unsigned.antt =====
-- `read_leb_uint32` of core/iwasm/interpreter/wasm_loader.c against the specification's u32.
use wasm_trustzone.Base.{
  ℕ, zero, suc, ◌+◌, ◌-◌, ◌*◌, ◌/◌, ◌%◌, ◌^◌, ◌≤◌, ◌<◌, ◌≡◌, refl, ap, sym, ◌∙◌, false, List, [],
  ◌∷◌, Option, none, some, arith, ltb, leb, Bool-cases, inl, inr, if◌then◌else◌,
}
use wasm_trustzone.Base.Bits.{byte_top, byte_high_nibble}
use wasm_trustzone.Loader.Outcome.{ok, value, value->>=, and_then}
use wasm_trustzone.Loader.Leb.{finish_leb, read_leb, read_uint32_slow, read_leb_uint32}
use wasm_trustzone.Loader.Leb.Spec.{Bytes, uleb, above}
use wasm_trustzone.Loader.Leb.Span.{
  Groups, before, span, IsShaped, WhenSome, span-IsShaped, total-lt_of_few, pow-add-seven, parts_at,
}
use wasm_trustzone.Loader.Leb.Groups.{finish_groups, read_groups, read_leb-groups}

-- What the specification makes of the groups: the number, where it fits in `n` bits.
fitted : ℕ → Option Groups → Option (ℕ × ℕ)
fitted n none = none
fitted n (some g) = if ltb g.total (2 ^ n) then some (g.total, g.count) else none

fitted-before :
    (n b : ℕ) (o : Option Groups)
    → 7 < n
    → 128 ≤ b
    → b < 256
    → fitted n (before b o) ≡ above (λ m. m * 128 + (b - 128)) (fitted (n - 7) o)
unfolding fitted before
fitted-before n b none h low high = refl
fitted-before n b (some g) h low high =
    let power : 2 ^ n ≡ 128 * 2 ^ (n - 7) =
      ap (λ (e : ℕ). 2 ^ e) {y = n - 7 + 7} (omega arith) ∙ pow-add-seven (n - 7) in
    ground (arith, power)

uleb-span :
    (k n : ℕ) (bs : List ℕ) → 0 < n → (n + 6) / 7 ≡ k → Bytes bs → uleb n bs ≡ fitted n (span k bs)
unfolding uleb span fitted before
uleb-span zero n bs pos e bytes = absurd (omega arith)
uleb-span (suc k) n [] pos e bytes = refl
uleb-span (suc k) n (b ∷ bs) pos e (is_byte, bytes) = elim (Bool-cases (ltb b 128)) [
  | inl low ↦ rw low refl
  | inr high ↦ rw high (elim (Bool-cases (ltb 7 n)) [
    | inl more ↦ rw more (
        ap (above (λ m. m * 128 + (b - 128)))
          (uleb-span k (n - 7) bs (ground arith) (ground arith) bytes)
        ∙ sym (fitted-before n b (span k bs) (ground arith) (ground arith) is_byte))
    | inr done ↦ let last : k ≡ 0 = ground arith in rw (done, last) refl
  ])
]

finish-unsigned :
    (g : Groups)
    → IsShaped 5 g
    → value (finish_groups 32 false g) ≡ (if ltb g.total (2 ^ 32) then some g.total else none)
unfolding finish_groups finish_leb
finish-unsigned g h =
    let small : g.total < 2 ^ 35 = total-lt_of_few 5 h (omega (arith, h.few_groups)) in
    rw (byte_high_nibble g.last (omega (arith, h.last_group)))
      (elim (Bool-cases (leb 32 (7 * g.count))) [
        | inl full ↦ let parts = parts_at 4 h (ground arith) in ground (arith, parts)
        | inr short ↦ let few = total-lt_of_few 4 h (ground arith) in ground (arith, few)
      ])

-- What `read_leb` makes of the groups is what the specification makes of them.
read-unsigned : (o : Option Groups) → WhenSome (IsShaped 5) o → read_groups 32 false o ≡ fitted 32 o
unfolding read_groups fitted
read-unsigned none h = refl
read-unsigned (some g) h =
    value->>= (finish_groups 32 false g) (λ r. ok (r, g.count))
    ∙ rw (finish-unsigned g h) (ground arith)

slow-unsigned : (bs : List ℕ) → Bytes bs → value (read_leb bs 0 32 false) ≡ uleb 32 bs
slow-unsigned bs bytes =
    read_leb-groups 32 5 false bs refl (omega arith) bytes
    ∙ read-unsigned (span 5 bs) (span-IsShaped 5 bs bytes)
    ∙ sym (uleb-span 5 32 bs (omega arith) refl bytes)

fitted-lt : (n : ℕ) (o : Option Groups) → WhenSome (λ (r : ℕ × ℕ). r.0 < 2 ^ n) (fitted n o)
unfolding fitted
fitted-lt n none = tt
fitted-lt n (some g) = elim (Bool-cases (ltb g.total (2 ^ n))) [
  | inl small ↦ rw small (ground arith)
  | inr large ↦ rw large tt
]

-- `(uint32)res64` changes no result that is in range.
cast_uint32 :
    (o : Option (ℕ × ℕ))
    → WhenSome (λ (r : ℕ × ℕ). r.0 < 2 ^ 32) o
    → and_then o (λ (res64, off). some (res64 % 2 ^ 32, off)) ≡ o
cast_uint32 none h = refl
cast_uint32 (some r) h = ground arith

slow-uleb : (bs : List ℕ) → Bytes bs → value (read_uint32_slow bs) ≡ uleb 32 bs
unfolding read_uint32_slow
slow-uleb bs bytes =
    value->>= (read_leb bs 0 32 false) (λ (res64, off). ok (res64 % 2 ^ 32, off))
    ∙ rw (slow-unsigned bs bytes, uleb-span 5 32 bs (omega arith) refl bytes)
        (cast_uint32 (fitted 32 (span 5 bs)) (fitted-lt 32 (span 5 bs)))

-- The macro with its fast path for one byte reads exactly the unsigned integers of the
-- specification: the same value and length where the bytes begin with one, and an error elsewhere.
pub read_leb_uint32-uleb : (bs : List ℕ) → Bytes bs → value (read_leb_uint32 bs) ≡ uleb 32 bs
unfolding read_leb_uint32
read_leb_uint32-uleb [] bytes = slow-uleb [] bytes
read_leb_uint32-uleb (b ∷ bs) bytes = elim (Bool-cases (ltb b 128)) [
  | inl low ↦ rw (byte_top b bytes.0, low) (unfold uleb in ground arith)
  | inr high ↦ rw (byte_top b bytes.0, high) (slow-uleb (b ∷ bs) bytes)
]
