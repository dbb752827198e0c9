-- ===== src/Interp/Leb/Signed.antt =====
-- The signed integers of the code that runs (core/iwasm/interpreter/wasm_interp_classic.c) against those
-- of the loader.
use native.Mathlib.Nat.{mod-mod}
use wasm_trustzone.Base.{
  ℕ, ◌+◌, ◌-◌, ◌*◌, ◌/◌, ◌%◌, ◌^◌, ◌≤◌, ◌<◌, ◌≡◌, refl, sym, ap, ◌∙◌, subst, true, false, List, [],
  ◌∷◌, Option, none, some, bit_and, arith, ltb, ◌==◌, Bool-cases, inl, inr,
}
use wasm_trustzone.Loader.Outcome.{ok, value, Yields, Yields->>=, Yields-map}
use wasm_trustzone.Loader.Leb.{
  LebState, leb_loop, finish_leb, leb_start, read_leb, widen, asr, shl, read_int32_slow,
  read_leb_int32, read_leb_uint32, read_int64_slow, read_leb_int64,
}
use wasm_trustzone.Loader.Leb.Spec.{Bytes}
use wasm_trustzone.Loader.Leb.Span.{
  Groups, span, gather, leb_loop-span, IsShaped, WhenSome, span-IsShaped, total-lt_of_few,
}
use wasm_trustzone.Loader.Leb.Groups.{ended, gather-start}
use wasm_trustzone.Loader.Leb.Int32.{cast_widen}
use wasm_trustzone.Interp.Leb.{
  extend_sign, unchecked_leb, extended, unchecked_leb_uint32, unchecked_leb_int32,
  unchecked_leb_int64,
}
use wasm_trustzone.Interp.Leb.Agreement.{
  reading, ReadBy, read_leb-ReadBy, no_bytes, read_leb_uint32-unchecked,
}
use wasm_trustzone.Interp.Leb.Mask.{shifts_agree}

gathered :
    (k : ℕ) (o : Option Groups) (s : LebState)
    → WhenSome (IsShaped k) o
    → gather leb_start o ≡ some s
    → (g : Groups) × IsShaped k g × (s ≡ ended g)
unfolding gather
gathered k none s h e = absurd (ground (arith, e))
gathered k (some g) s h e =
    let both = sym (gather-start g) ∙ e in (g, h, sym (ground (arith, both)))

-- The loader's loop ends with groups of seven bits.
loop_groups :
    (maxbits k : ℕ) (bs : List ℕ) (s : LebState)
    → (maxbits + 6) / 7 ≡ k
    → k ≤ 10
    → Bytes bs
    → leb_loop maxbits bs leb_start ≡ ok s
    → (g : Groups) × IsShaped k g × (s ≡ ended g)
loop_groups maxbits k bs s e few bytes own = gathered k (span k bs) s (span-IsShaped k bs bytes) (
    sym (leb_loop-span maxbits k bs leb_start (omega arith) (omega arith) (omega arith) bytes)
    ∙ ap value own)

-- Groups that fill the width are not extended.
extend_sign_full :
    (w : ℕ) (s : LebState) → ltb s.shift w ≡ false → extend_sign w true (reading s) ≡ s.result
unfolding extend_sign
extend_sign_full w s long = rw long refl

finish_full_32 :
    (s : LebState) → ltb s.shift 32 ≡ false → Yields (λ r. r ≡ s.result) (finish_leb 32 true s)
unfolding finish_leb
finish_full_32 s long = rw long (ground arith)

finish_full_64 :
    (s : LebState) → ltb s.shift 64 ≡ false → Yields (λ r. r ≡ s.result) (finish_leb 64 true s)
unfolding finish_leb
finish_full_64 s long = rw long (ground arith)

finish_short_32 :
    (g : Groups)
    → IsShaped 5 g
    → 7 * g.count < 32
    → Yields
        (λ r. r % 2 ^ 32 ≡ extend_sign 32 true (reading (ended g)) % 2 ^ 32)
        (finish_leb 32 true (ended g))
unfolding finish_leb
finish_short_32 g h short =
    let low : ltb (7 * g.count) 32 ≡ true = ground arith in
    let small : g.total < 2 ^ 28 = total-lt_of_few 4 h (omega arith) in
    let word : g.total % 2 ^ 64 % 2 ^ 32 ≡ g.total = omega arith in
    let agree = shifts_agree 5 g h 32 short (omega arith) in
    rw low (
      ap (λ x. widen (asr 32 (32 - 7 * g.count) (shl 32 (32 - 7 * g.count) x)) % 2 ^ 32) word
      ∙ cast_widen _ (omega (arith, agree))
      ∙ agree)

finish_short_64 :
    (g : Groups)
    → IsShaped 10 g
    → 7 * g.count < 64
    → Yields
        (λ r. r ≡ extend_sign 64 true (reading (ended g)) % 2 ^ 64)
        (finish_leb 64 true (ended g))
unfolding finish_leb
finish_short_64 g h short =
    let low : ltb (7 * g.count) 64 ≡ true = ground arith in
    let small : g.total < 2 ^ 63 = total-lt_of_few 9 h (omega arith) in
    let word : g.total % 2 ^ 64 ≡ g.total = omega arith in
    rw low (
      ap (λ x. asr 64 (64 - 7 * g.count) (shl 64 (64 - 7 * g.count) x)) word
      ∙ shifts_agree 10 g h 64 short (omega arith))

-- The two ends of a read, in one form for both widths.
finish_agrees_32 :
    (g : Groups)
    → IsShaped 5 g
    → Yields
        (λ r. r % 2 ^ 32 ≡ extend_sign 32 true (reading (ended g)) % 2 ^ 32)
        (finish_leb 32 true (ended g))
finish_agrees_32 g h = elim (Bool-cases (ltb (7 * g.count) 32)) [
  | inl short ↦ finish_short_32 g h (ground (arith, short))
  | inr long ↦
      subst (λ x. Yields (λ r. r % 2 ^ 32 ≡ x % 2 ^ 32) (finish_leb 32 true (ended g)))
        (sym (extend_sign_full 32 (ended g) long))
        (Yields-map _ _ (finish_leb 32 true (ended g)) (λ r e. ap (λ x. x % 2 ^ 32) e)
          (finish_full_32 (ended g) long))
]

finish_agrees_64 :
    (g : Groups)
    → IsShaped 10 g
    → Yields
        (λ r. r ≡ extend_sign 64 true (reading (ended g)) % 2 ^ 64)
        (finish_leb 64 true (ended g))
finish_agrees_64 g h = elim (Bool-cases (ltb (7 * g.count) 64)) [
  | inl short ↦ finish_short_64 g h (ground (arith, short))
  | inr long ↦
      subst (λ x. Yields (λ r. r ≡ x % 2 ^ 64) (finish_leb 64 true (ended g)))
        (sym (extend_sign_full 64 (ended g) long))
        (Yields-map _ _ (finish_leb 64 true (ended g)) (λ r e. e ∙ sym (mod-mod g.total (2 ^ 64)))
          (finish_full_64 (ended g) long))
]

signed-unchecked_32 :
    (bs : List ℕ)
    → Bytes bs
    → (r : ℕ × ℕ) → ReadBy 32 true bs r
    → unchecked_leb 32 32 true bs ≡ some (r.0 % 2 ^ 32, r.1)
unfolding unchecked_leb extended
signed-unchecked_32 bs bytes r (s, own, read, e, offset) =
    let (g, h, end) = loop_groups 32 5 bs s refl (omega arith) bytes own in
    let same : Yields (λ v. v % 2 ^ 32 ≡ extend_sign 32 true (reading s) % 2 ^ 32)
        (finish_leb 32 true s) =
      subst
        (λ t.
          Yields (λ v. v % 2 ^ 32 ≡ extend_sign 32 true (reading t) % 2 ^ 32)
            (finish_leb 32 true t))
        (sym end) (finish_agrees_32 g h) in
    let value_same =
      subst (Yields (λ v. v % 2 ^ 32 ≡ extend_sign 32 true (reading s) % 2 ^ 32)) e same in
    rw (read, offset, value_same) refl

signed-unchecked_64 :
    (bs : List ℕ)
    → Bytes bs
    → (r : ℕ × ℕ) → ReadBy 64 true bs r
    → unchecked_leb 64 64 true bs ≡ some r
unfolding unchecked_leb extended
signed-unchecked_64 bs bytes r (s, own, read, e, offset) =
    let (g, h, end) = loop_groups 64 10 bs s refl (omega arith) bytes own in
    let same : Yields (λ v. v ≡ extend_sign 64 true (reading s) % 2 ^ 64) (finish_leb 64 true s) =
      subst (λ t. Yields (λ v. v ≡ extend_sign 64 true (reading t) % 2 ^ 64) (finish_leb 64 true t))
        (sym end) (finish_agrees_64 g h) in
    let value_same = subst (Yields (λ v. v ≡ extend_sign 64 true (reading s) % 2 ^ 64)) e same in
    rw read (ap some (ap (λ v. (v, s.bcnt)) (sym value_same) ∙ ap (λ o. (r.0, o)) (sym offset)))

read_int32_slow-unchecked :
    (bs : List ℕ)
    → Bytes bs
    → Yields (λ r. unchecked_leb 32 32 true bs ≡ some r) (read_int32_slow bs)
unfolding read_int32_slow
read_int32_slow-unchecked bs bytes =
    Yields->>= (ReadBy 32 true bs) _ (read_leb bs 0 32 true) _ (read_leb-ReadBy 32 true bs)
      (signed-unchecked_32 bs bytes)

read_int64_slow-unchecked :
    (bs : List ℕ)
    → Bytes bs
    → Yields (λ r. unchecked_leb 64 64 true bs ≡ some r) (read_int64_slow bs)
unfolding read_int64_slow
read_int64_slow-unchecked bs bytes =
    Yields-map (ReadBy 64 true bs) _ (read_leb bs 0 64 true) (signed-unchecked_64 bs bytes)
      (read_leb-ReadBy 64 true bs)

read_leb_int32-unchecked :
    (bs : List ℕ) → Bytes bs → Yields (λ r. unchecked_leb_int32 bs ≡ some r) (read_leb_int32 bs)
unfolding read_leb_int32 unchecked_leb_int32
read_leb_int32-unchecked [] bytes =
    subst (λ o. Yields (λ r. o ≡ some r) (read_int32_slow [])) (no_bytes 32 32 true)
      (read_int32_slow-unchecked [] bytes)
read_leb_int32-unchecked (b ∷ bs) bytes = elim (Bool-cases (bit_and b 0x80 == 0)) [
  | inl last ↦ rw last refl
  | inr more ↦ rw more (read_int32_slow-unchecked (b ∷ bs) bytes)
]

read_leb_int64-unchecked :
    (bs : List ℕ) → Bytes bs → Yields (λ r. unchecked_leb_int64 bs ≡ some r) (read_leb_int64 bs)
unfolding read_leb_int64 unchecked_leb_int64
read_leb_int64-unchecked [] bytes =
    subst (λ o. Yields (λ r. o ≡ some r) (read_int64_slow [])) (no_bytes 64 64 true)
      (read_int64_slow-unchecked [] bytes)
read_leb_int64-unchecked (b ∷ bs) bytes = elim (Bool-cases (bit_and b 0x80 == 0)) [
  | inl last ↦ rw last refl
  | inr more ↦ rw more (read_int64_slow-unchecked (b ∷ bs) bytes)
]

-- On any sequence of bytes: an integer that the loader reads, unsigned or signed, of 32 or of 64 bits, is
-- read by the interpreter, which checks nothing, as the same value from the same number of bytes.
pub read_leb-unchecked :
    (bs : List ℕ)
    → Bytes bs
    → Yields (λ r. unchecked_leb_uint32 bs ≡ some r) (read_leb_uint32 bs)
      × Yields (λ r. unchecked_leb_int32 bs ≡ some r) (read_leb_int32 bs)
      × Yields (λ r. unchecked_leb_int64 bs ≡ some r) (read_leb_int64 bs)
read_leb-unchecked bs bytes = (
  read_leb_uint32-unchecked bs,
  read_leb_int32-unchecked bs bytes,
  read_leb_int64-unchecked bs bytes,
)
