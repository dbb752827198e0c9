-- ===== src/Loader/Leb.antt =====
-- LEB128 integers: `skip_leb`, `read_leb` and the `read_leb_*` macros of
-- core/iwasm/interpreter/wasm_loader.c. A buffer is the list of the bytes from `buf` up to
-- `buf_end`; a `uint64` or `int32` is its bit pattern, a number below 2 ^ 64 or 2 ^ 32.
pub mod Spec
pub mod Span
pub mod Groups
pub mod Extend
pub mod Unsigned
mod Signed
pub mod Int32
pub mod Int64
pub mod Skip
mod Tests
use wasm_trustzone.Base.{
  ℕ, zero, suc, ◌+◌, ◌-◌, ◌*◌, ◌/◌, ◌%◌, ◌^◌, Bool, true, false, not, ◌&&◌, ◌||◌, List, [], ◌∷◌,
  bit_and, bit_or, ltb, leb, ◌==◌, if◌then◌else◌, drop,
}
use wasm_trustzone.Loader.Outcome.{
  Outcome, ok, err, ◌>>=◌, integer_too_long, unexpected_end, integer_too_large,
}

-- `while (true)` of `skip_leb`: the rest of the buffer, and `bcnt`. The result is the final `bcnt`.
skip_loop : ℕ → List ℕ → ℕ → Outcome ℕ
skip_loop maxbits [] bcnt =
    if ltb ((maxbits + 6) / 7) (bcnt + 1) then err integer_too_long else err unexpected_end
skip_loop maxbits (b ∷ bs) bcnt =
    if ltb ((maxbits + 6) / 7) (bcnt + 1)
    then err integer_too_long
    else if bit_and b 0x80 == 0
    then ok (bcnt + 1)
    else skip_loop maxbits bs (bcnt + 1)

-- The new `*p_offset`.
pub skip_leb : List ℕ → ℕ → ℕ → Outcome ℕ
unfolding skip_loop
skip_leb buf offset maxbits = do bcnt ← skip_loop maxbits (drop offset buf) 0; ok (offset + bcnt)

-- The local variables of `read_leb`.
pub record LebState : Type 0 where
  pub result : ℕ
  pub shift : ℕ
  pub bcnt : ℕ
  pub byte : ℕ

-- One round: the byte is taken in.
unfoldable pub take_byte : ℕ → LebState → LebState
take_byte b s = record {
  result = bit_or s.result (bit_and b 0x7f * 2 ^ s.shift % 2 ^ 64);
  shift = s.shift + 7;
  bcnt = s.bcnt + 1;
  byte = b;
}

unfoldable pub leb_loop : ℕ → List ℕ → LebState → Outcome LebState
leb_loop maxbits [] s =
    if ltb ((maxbits + 6) / 7) (s.bcnt + 1) then err integer_too_long else err unexpected_end
leb_loop maxbits (b ∷ bs) s =
    if ltb ((maxbits + 6) / 7) (s.bcnt + 1)
    then err integer_too_long
    else if bit_and b 0x80 == 0
    then ok (take_byte b s)
    else leb_loop maxbits bs (take_byte b s)

-- `x << k` and the arithmetic `x >> k` on a pattern of w bits.
unfoldable pub shl : ℕ → ℕ → ℕ → ℕ
shl w k x = x * 2 ^ k % 2 ^ w

unfoldable pub asr : ℕ → ℕ → ℕ → ℕ
asr w k x = if ltb x (2 ^ (w - 1)) then x / 2 ^ k else 2 ^ w - 1 - (2 ^ w - 1 - x) / 2 ^ k

-- An `int32` assigned to a `uint64`.
unfoldable pub widen : ℕ → ℕ
widen x = if ltb x (2 ^ 31) then x else x + (2 ^ 64 - 2 ^ 32)

-- What follows the loop: sign extension, or the check of the last byte.
unfoldable pub finish_leb : ℕ → Bool → LebState → Outcome ℕ
finish_leb maxbits sign s =
    if not sign && maxbits == 32 && leb maxbits s.shift
    then (if not (bit_and s.byte 0xf0 == 0) then err integer_too_large else ok s.result)
    else if sign && maxbits == 32
    then (if ltb s.shift maxbits
        then ok
            (widen (asr 32 (maxbits - s.shift) (shl 32 (maxbits - s.shift) (s.result % 2 ^ 32))))
        else let sign_bit_set = not (bit_and s.byte 0x8 == 0) in
          let top_bits = bit_and s.byte 0xf0 in
          if (sign_bit_set && not (top_bits == 0x70)) || (not sign_bit_set && not (top_bits == 0))
          then err integer_too_large
          else ok s.result)
    else if sign && maxbits == 64
    then (if ltb s.shift maxbits
        then ok (asr 64 (maxbits - s.shift) (shl 64 (maxbits - s.shift) s.result))
        else let sign_bit_set = not (bit_and s.byte 0x1 == 0) in
          let top_bits = bit_and s.byte 0xfe in
          if (sign_bit_set && not (top_bits == 0x7e)) || (not sign_bit_set && not (top_bits == 0))
          then err integer_too_large
          else ok s.result)
    else ok s.result

abbrev pub leb_start : LebState
leb_start = record { result = 0; shift = 0; bcnt = 0; byte = 0 }

-- `*p_result` and the new `*p_offset`.
unfoldable pub read_leb : List ℕ → ℕ → ℕ → Bool → Outcome (ℕ × ℕ)
read_leb buf offset maxbits sign = do
  s ← leb_loop maxbits (drop offset buf) leb_start
  result ← finish_leb maxbits sign s
  ok (result, offset + s.bcnt)

-- The macros have a fast path for one byte. The result comes with the number of bytes that `p`
-- moves by.
unfoldable pub read_uint32_slow : List ℕ → Outcome (ℕ × ℕ)
read_uint32_slow bs = do (res64, off) ← read_leb bs 0 32 false; ok (res64 % 2 ^ 32, off)

unfoldable pub read_leb_uint32 : List ℕ → Outcome (ℕ × ℕ)
unfolding read_uint32_slow
read_leb_uint32 [] = read_uint32_slow []
read_leb_uint32 (b ∷ bs) = if bit_and b 0x80 == 0 then ok (b, 1) else read_uint32_slow (b ∷ bs)

unfoldable pub read_int32_slow : List ℕ → Outcome (ℕ × ℕ)
read_int32_slow bs = do (res64, off) ← read_leb bs 0 32 true; ok (res64 % 2 ^ 32, off)

unfoldable pub read_leb_int32 : List ℕ → Outcome (ℕ × ℕ)
unfolding read_int32_slow
read_leb_int32 [] = read_int32_slow []
read_leb_int32 (b ∷ bs) =
    if bit_and b 0x80 == 0
    then ok (if not (bit_and b 0x40 == 0) then bit_or b 0xffffff80 else b, 1)
    else read_int32_slow (b ∷ bs)

unfoldable pub read_int64_slow : List ℕ → Outcome (ℕ × ℕ)
read_int64_slow bs = read_leb bs 0 64 true

unfoldable pub read_leb_int64 : List ℕ → Outcome (ℕ × ℕ)
unfolding read_int64_slow
read_leb_int64 [] = read_int64_slow []
read_leb_int64 (b ∷ bs) =
    if bit_and b 0x80 == 0
    then ok (if not (bit_and b 0x40 == 0) then bit_or b 0xffffffffffffff80 else b, 1)
    else read_int64_slow (b ∷ bs)
