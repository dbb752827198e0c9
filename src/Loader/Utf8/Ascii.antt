-- ===== src/Loader/Utf8/Ascii.antt =====
-- What `check_utf8_str` accepts: the test of a following byte, `(*p | 0x40)`, never fails to fail.
use wasm_trustzone.Base.{
  ℕ, zero, suc, ◌-◌, ◌≤◌, ◌<◌, ◌≡◌, refl, Bool, true, ◌&&◌, List, [], ◌∷◌, none, arith, inl, inr,
  leb, ltb, Bool-cases, length,
}
use wasm_trustzone.Base.Bits.{byte_or_bit6}
use wasm_trustzone.Loader.Leb.Spec.{Bytes}
use wasm_trustzone.Loader.Utf8.{follow, leading_ones, utf8_loop, check_utf8_str}

unfoldable pub all_ascii : List ℕ → Bool
all_ascii [] = true
all_ascii (b ∷ bs) = ltb b 128 && all_ascii bs

-- Where a byte should follow, none is accepted.
follow-none : (n : ℕ) (bs : List ℕ) → Bytes bs → 0 < n → follow n bs ≡ none
unfolding follow
follow-none zero bs bytes h = absurd (omega arith)
follow-none (suc n) [] bytes h = refl
follow-none (suc n) (b ∷ bs) bytes h = ground (arith, byte_or_bit6 b bytes.0)

utf8_loop-ascii :
    (rounds : ℕ) (bs : List ℕ) → length bs ≤ rounds → Bytes bs → utf8_loop rounds bs ≡ all_ascii bs
unfolding utf8_loop all_ascii
utf8_loop-ascii zero [] h bytes = refl
utf8_loop-ascii zero (b ∷ bs) h bytes = absurd (omega arith)
utf8_loop-ascii (suc rounds) [] h bytes = refl
utf8_loop-ascii (suc rounds) (b ∷ bs) h (is_byte, bytes) = elim (Bool-cases (leb 0x80 b)) [
  | inl high ↦ ground (arith, follow-none (leading_ones 8 b - 1) bs bytes)
  | inr low ↦ ground (arith, utf8_loop-ascii rounds bs (omega arith) bytes)
]

-- The check accepts exactly the strings of ASCII characters: every string with a character of two
-- or more bytes is refused, well-formed UTF-8 included.
pub check_utf8_str-all_ascii : (str : List ℕ) → Bytes str → check_utf8_str str ≡ all_ascii str
unfolding check_utf8_str
check_utf8_str-all_ascii str bytes = utf8_loop-ascii (length str) str (omega arith) bytes
