-- ===== src/Interp/Integers/Tests.antt =====
-- Runs of the integer arithmetic, and the example of the theorem.
use wasm_trustzone.Base.{ℕ, ◌<◌, ◌≡◌, refl, some, arith}
use wasm_trustzone.Base.Int.{◌-ℤ◌}
use wasm_trustzone.Interp.Frame.{done, trap, integer_overflow}
use wasm_trustzone.Interp.Integers.{
  signed, bits, quotient, remainder, rotl, clz, ctz, popcount, overflows, int_binary,
}
use wasm_trustzone.Interp.Integers.Ones.{ones}
use wasm_trustzone.Interp.Integers.Loops.{ShiftsToTop, OddShifted, counting_loops_end}
use wasm_trustzone.Opcode.{int_div_s, int_rem_s, int_rotl}

-- -7 / 2 and -7 % 2.
div_rounds_to_zero : int_binary 32 int_div_s 0xfffffff9 2 ≡ done 0xfffffffd
unfolding int_binary overflows signed bits quotient ◌-ℤ◌
div_rounds_to_zero = refl

rem_takes_the_sign : int_binary 32 int_rem_s 0xfffffff9 2 ≡ done 0xffffffff
unfolding int_binary overflows signed bits remainder ◌-ℤ◌
rem_takes_the_sign = refl

div_overflows : int_binary 32 int_div_s 0x80000000 0xffffffff ≡ trap integer_overflow
unfolding int_binary overflows
div_overflows = refl

rotates : int_binary 32 int_rotl 0x80000001 33 ≡ done 3
unfolding int_binary rotl
rotates = refl

counting_loops_end_example :
    ((k : ℕ) × (k < 32) × (clz 32 0x50 ≡ some k) × ShiftsToTop 32 0x50 k)
    × ((k : ℕ) × (k < 32) × (ctz 32 0x50 ≡ some k) × OddShifted 0x50 k)
    × (popcount 32 0x50 ≡ some (ones 32 0x50))
counting_loops_end_example = counting_loops_end 32 0x50 (omega arith) (omega arith)
