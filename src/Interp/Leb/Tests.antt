-- ===== src/Interp/Leb/Tests.antt =====
-- Runs of the interpreter's LEB128 reader, core/iwasm/interpreter/wasm_interp_classic.c.
use wasm_trustzone.Base.{ℕ, ◌≡◌, refl, List, [], ◌∷◌, none, some, arith}
use wasm_trustzone.Loader.Outcome.{Yields}
use wasm_trustzone.Loader.Leb.{read_leb_uint32, read_leb_int32, read_leb_int64}
use wasm_trustzone.Interp.Leb.{
  unchecked_leb_uint32, unchecked_leb_int32, unchecked_leb_int64, unchecked_leb, extended,
  extend_sign, unchecked_loop, add_byte,
}
use wasm_trustzone.Interp.Leb.Signed.{read_leb-unchecked}

-- -123456, and a byte of the code behind it.
abbrev encoded : List ℕ
encoded = 0xc0 ∷ 0xbb ∷ 0x78 ∷ 0x1a ∷ []

encoded-int32 : unchecked_leb_int32 encoded ≡ some (0xfffe1dc0, 3)
unfolding unchecked_leb_int32 unchecked_leb extended extend_sign unchecked_loop add_byte
encoded-int32 = refl

encoded-int64 : unchecked_leb_int64 encoded ≡ some (0xfffffffffffe1dc0, 3)
unfolding unchecked_leb_int64 unchecked_leb extended extend_sign unchecked_loop add_byte
encoded-int64 = refl

cut : unchecked_leb_uint32 (0xc0 ∷ 0xbb ∷ []) ≡ none
unfolding unchecked_leb_uint32 unchecked_leb extended unchecked_loop
cut = refl

read_leb-unchecked_example :
    Yields (λ r. unchecked_leb_uint32 encoded ≡ some r) (read_leb_uint32 encoded)
    × Yields (λ r. unchecked_leb_int32 encoded ≡ some r) (read_leb_int32 encoded)
    × Yields (λ r. unchecked_leb_int64 encoded ≡ some r) (read_leb_int64 encoded)
read_leb-unchecked_example = read_leb-unchecked encoded (ground arith)
