-- ===== src/Loader/Utf8.antt =====
-- `check_utf8_str` of core/iwasm/interpreter/wasm_loader.c, which guards every name that a module
-- imports or exports. A string is the list of its bytes.
pub mod Ascii
mod Tests
use wasm_trustzone.Base.{
  ℕ, zero, suc, ◌+◌, ◌-◌, ◌*◌, ◌%◌, Bool, true, false, not, ◌||◌, List, [], ◌∷◌, Option, none, some,
  bit_and, bit_or, ltb, leb, ◌==◌, if◌then◌else◌, length,
}

-- `while ((chr & 0x80) != 0) { chr = (uint8)(chr << 1); n_bytes++; }`: eight shifts leave nothing of
-- a byte, so eight rounds are enough.
leading_ones : ℕ → ℕ → ℕ
leading_ones zero chr = 0
leading_ones (suc rounds) chr =
    let more = leading_ones rounds (chr * 2 % 256) in if bit_and chr 0x80 == 0 then 0 else suc more

-- The loop over the following bytes: what is left behind them, or `none` for `return false`.
follow : ℕ → List ℕ → Option (List ℕ)
follow zero bs = some bs
follow (suc n) [] = none
follow (suc n) (b ∷ bs) =
    if bit_and b 0x80 == 0 || not (bit_or b 0x40 == 0) then none else follow n bs

-- The outer loop, a round for each character.
utf8_loop : ℕ → List ℕ → Bool
utf8_loop zero bs = true
utf8_loop (suc rounds) [] = true
utf8_loop (suc rounds) (chr ∷ bs) =
    if leb 0x80 chr
    then (let n_bytes = leading_ones 8 chr in
        if ltb n_bytes 2 || ltb 6 n_bytes || ltb (length bs) (n_bytes - 1)
        then false
        else elim (follow (n_bytes - 1) bs) [ none ↦ false | some rest ↦ utf8_loop rounds rest ])
    else utf8_loop rounds bs

pub check_utf8_str : List ℕ → Bool
unfolding utf8_loop
check_utf8_str str = utf8_loop (length str) str
