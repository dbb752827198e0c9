-- ===== src/Interp/Leb.antt =====
-- The integers in the code that runs: `read_leb` of core/iwasm/interpreter/wasm_interp_classic.c with
-- the macros `read_leb_uint32`, `read_leb_int32` and `read_leb_int64`. They check nothing: a read behind
-- the bytes of the code is `none`. The counters are not wrapped, which takes code of 2 ^ 29 bytes, and a
-- shift by 64 or more, which C does not define, adds nothing.
pub mod Agreement
mod Mask
pub mod Signed
mod Tests
use wasm_trustzone.Base.{
  ℕ, ◌+◌, ◌-◌, ◌*◌, ◌%◌, ◌^◌, Bool, true, false, not, ◌&&◌, List, [], ◌∷◌, Option, none, some,
  bit_and, bit_or, ltb, ◌==◌, if◌then◌else◌,
}

-- The local variables of `read_leb`, with `*p_offset`.
pub record Reading : Type 0 where
  pub result : ℕ
  pub shift : ℕ
  pub offset : ℕ
  pub byte : ℕ

unfoldable pub add_byte : ℕ → Reading → Reading
add_byte b s = record {
  result = bit_or s.result (bit_and b 0x7f * 2 ^ s.shift % 2 ^ 64);
  shift = s.shift + 7;
  offset = s.offset + 1;
  byte = b;
}

unfoldable pub unchecked_loop : List ℕ → Reading → Option Reading
unchecked_loop [] s = none
unchecked_loop (b ∷ bs) s =
    let rest = unchecked_loop bs (add_byte b s) in
    if bit_and b 0x80 == 0 then some (add_byte b s) else rest

-- `-((uint64)1 << shift)` is 2 ^ 64 - 2 ^ shift where the shift is less than 64.
unfoldable pub extend_sign : ℕ → Bool → Reading → ℕ
extend_sign maxbits sign s =
    if sign && ltb s.shift maxbits && not (bit_and s.byte 0x40 == 0)
    then bit_or s.result (2 ^ 64 - 2 ^ s.shift)
    else s.result

abbrev pub reading_start : Reading
reading_start = record { result = 0; shift = 0; offset = 0; byte = 0 }

unfoldable pub extended : ℕ → ℕ → Bool → Option Reading → Option (ℕ × ℕ)
extended w maxbits sign none = none
extended w maxbits sign (some s) = some (extend_sign maxbits sign s % 2 ^ w, s.offset)

-- `read_leb`, and the cast of its result to w bits.
unfoldable pub unchecked_leb : ℕ → ℕ → Bool → List ℕ → Option (ℕ × ℕ)
unchecked_leb w maxbits sign bs = extended w maxbits sign (unchecked_loop bs reading_start)

unfoldable pub unchecked_leb_uint32 : List ℕ → Option (ℕ × ℕ)
unchecked_leb_uint32 [] = none
unchecked_leb_uint32 (b ∷ bs) =
    if bit_and b 0x80 == 0 then some (b, 1) else unchecked_leb 32 32 false (b ∷ bs)

unfoldable pub unchecked_leb_int32 : List ℕ → Option (ℕ × ℕ)
unchecked_leb_int32 [] = none
unchecked_leb_int32 (b ∷ bs) =
    if bit_and b 0x80 == 0
    then some (if not (bit_and b 0x40 == 0) then bit_or b 0xffffff80 else b, 1)
    else unchecked_leb 32 32 true (b ∷ bs)

unfoldable pub unchecked_leb_int64 : List ℕ → Option (ℕ × ℕ)
unchecked_leb_int64 [] = none
unchecked_leb_int64 (b ∷ bs) =
    if bit_and b 0x80 == 0
    then some (if not (bit_and b 0x40 == 0) then bit_or b 0xffffffffffffff80 else b, 1)
    else unchecked_leb 64 64 true (b ∷ bs)
