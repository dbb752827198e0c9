-- ===== src/Loader/Utf8/Tests.antt =====
-- `check_utf8_str` on a name with an accent, and its theorem at that name.
use wasm_trustzone.Base.{List, [], ◌∷◌, ◌≡◌, refl, false, true, ℕ, arith}
use wasm_trustzone.Loader.Utf8.{check_utf8_str, leading_ones, follow}
use wasm_trustzone.Loader.Utf8.Ascii.{all_ascii, check_utf8_str-all_ascii}

-- "caf\u00e9" in UTF-8.
abbrev cafe : List ℕ
cafe = 0x63 ∷ 0x61 ∷ 0x66 ∷ 0xc3 ∷ 0xa9 ∷ []

cafe_refused : check_utf8_str cafe ≡ false
unfolding check_utf8_str leading_ones follow
cafe_refused = refl

ascii_accepted : check_utf8_str (0x63 ∷ 0x61 ∷ 0x66 ∷ []) ≡ true
unfolding check_utf8_str leading_ones follow
ascii_accepted = refl

check_utf8_str-all_ascii_example : check_utf8_str cafe ≡ all_ascii cafe
check_utf8_str-all_ascii_example = check_utf8_str-all_ascii cafe (omega arith)
