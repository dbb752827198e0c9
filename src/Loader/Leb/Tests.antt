-- ===== src/Loader/Leb/Tests.antt =====
-- The LEB128 readers on concrete bytes, and their theorems there.
use wasm_trustzone.Base.{List, [], ◌∷◌, ◌≡◌, refl, false, ℕ, some, arith}
use wasm_trustzone.Base.Int.{negsuc}
use wasm_trustzone.Loader.Outcome.{
  ok, err, value, integer_too_large, integer_too_long, unexpected_end,
}
use wasm_trustzone.Loader.Leb.{
  read_leb_uint32, read_leb_int32, read_leb_int64, read_leb, skip_leb, leb_loop, take_byte,
  finish_leb, shl, asr, widen,
}
use wasm_trustzone.Loader.Leb.Spec.{uleb, sleb, as_signed}
use wasm_trustzone.Loader.Leb.Unsigned.{read_leb_uint32-uleb}
use wasm_trustzone.Loader.Leb.Int32.{read_leb_int32-sleb}
use wasm_trustzone.Loader.Leb.Int64.{read_leb_int64-sleb}
use wasm_trustzone.Loader.Leb.Skip.{skip_leb-read_leb}

-- 624485 of the DWARF standard, and -123456.
abbrev large : List ℕ
large = 0xe5 ∷ 0x8e ∷ 0x26 ∷ 0x0b ∷ []

abbrev negative : List ℕ
negative = 0xc0 ∷ 0xbb ∷ 0x78 ∷ []

large_read : read_leb_uint32 large ≡ ok (624485, 3)
unfolding read_leb_uint32 read_leb leb_loop take_byte finish_leb
large_read = refl

negative_read : read_leb_int32 negative ≡ ok (0xfffe1dc0, 3)
unfolding read_leb_int32 read_leb leb_loop take_byte finish_leb shl asr widen
negative_read = refl

fast_negative : read_leb_int64 (0x7f ∷ []) ≡ ok (0xffffffffffffffff, 1)
unfolding read_leb_int64
fast_negative = refl

cut_short : read_leb_uint32 (0xe5 ∷ 0x8e ∷ []) ≡ err unexpected_end
unfolding read_leb_uint32 read_leb leb_loop take_byte finish_leb
cut_short = refl

six_bytes : read_leb_uint32 (0x80 ∷ 0x80 ∷ 0x80 ∷ 0x80 ∷ 0x80 ∷ 0 ∷ []) ≡ err integer_too_long
unfolding read_leb_uint32 read_leb leb_loop take_byte finish_leb
six_bytes = refl

high_bits : read_leb_uint32 (0xff ∷ 0xff ∷ 0xff ∷ 0xff ∷ 0x10 ∷ []) ≡ err integer_too_large
unfolding read_leb_uint32 read_leb leb_loop take_byte finish_leb
high_bits = refl

read_leb_uint32-uleb_example : value (read_leb_uint32 large) ≡ some (624485, 3)
unfolding uleb
read_leb_uint32-uleb_example = read_leb_uint32-uleb large (omega arith)

read_leb_int32-sleb_example :
    as_signed 32 (value (read_leb_int32 negative)) ≡ some (negsuc 123455, 3)
unfolding sleb
read_leb_int32-sleb_example = read_leb_int32-sleb negative (omega arith)

read_leb_int64-sleb_example :
    as_signed 64 (value (read_leb_int64 negative)) ≡ some (negsuc 123455, 3)
unfolding sleb
read_leb_int64-sleb_example = read_leb_int64-sleb negative (omega arith)

skip_leb-read_leb_example : skip_leb large 0 32 ≡ ok 3
unfolding read_leb leb_loop take_byte finish_leb
skip_leb-read_leb_example = skip_leb-read_leb large 0 32 false {result = 624485} refl
