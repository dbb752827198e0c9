-- ===== src/Interp/Integers.antt =====
-- The integer arithmetic of core/iwasm/interpreter/wasm_interp_classic.c, at a width of 32 or 64 bits,
-- on the bits of the operands. The shifts are those of a target that is not x86, where the count is
-- cut; a test of one bit is written as a quotient.
pub mod Ones
pub mod Loops
mod Tests
use Prim.Native.Nat.{bit_xor}
use wasm_trustzone.Base.{
  ℕ, zero, suc, ◌+◌, ◌-◌, ◌*◌, ◌/◌, ◌%◌, ◌^◌, bit_and, bit_or, Bool, true, false, not, ◌&&◌, Option,
  none, some, ltb, leb, ◌==◌, if◌then◌else◌,
}
use wasm_trustzone.Base.Int.{ℤ, pos, negsuc, ltb_ℤ, ◌-ℤ◌}
use wasm_trustzone.Interp.Frame.{Step, done, trap, wild, integer_overflow, integer_divide_by_zero}
use wasm_trustzone.Opcode.{
  IntRelation, int_eq, int_ne, int_lt_s, int_lt_u, int_gt_s, int_gt_u, int_le_s, int_le_u, int_ge_s,
  int_ge_u, IntUnary, int_clz, int_ctz, int_popcnt, IntBinary, int_add, int_sub, int_mul, int_div_s,
  int_div_u, int_rem_s, int_rem_u, int_and, int_or, int_xor, int_shl, int_shr_s, int_shr_u,
  int_rotl, int_rotr,
}

-- The bits as a signed integer, and a signed integer as its bits.
unfoldable pub signed : ℕ → ℕ → ℤ
signed w v = if ltb v (2 ^ (w - 1)) then pos v else negsuc (2 ^ w - v - 1)

unfoldable pub bits : ℕ → ℤ → ℕ
bits w (pos n) = n % 2 ^ w
bits w (negsuc n) = 2 ^ w - 1 - n % 2 ^ w

-- `/` and `%` of C, which round towards zero, for a divisor that is not zero.
unfoldable pub quotient : ℤ → ℤ → ℤ
quotient (pos a) (pos b) = pos (a / b)
quotient (pos a) (negsuc b) = pos 0 -ℤ pos (a / suc b)
quotient (negsuc a) (pos b) = pos 0 -ℤ pos (suc a / b)
quotient (negsuc a) (negsuc b) = pos (suc a / suc b)

unfoldable pub remainder : ℤ → ℤ → ℤ
remainder (pos a) (pos b) = pos (a % b)
remainder (pos a) (negsuc b) = pos (a % suc b)
remainder (negsuc a) (pos b) = pos 0 -ℤ pos (suc a % b)
remainder (negsuc a) (negsuc b) = pos 0 -ℤ pos (suc a % suc b)

-- `rotl32`, `rotl64`, `rotr32` and `rotr64`; `(-c) & mask` is the count to the other end.
unfoldable pub rotl : ℕ → ℕ → ℕ → ℕ
rotl w n c = bit_or (n * 2 ^ (c % w) % 2 ^ w) (n / 2 ^ ((w - c % w) % w))

unfoldable pub rotr : ℕ → ℕ → ℕ → ℕ
rotr w n c = bit_or (n / 2 ^ (c % w)) (n * 2 ^ ((w - c % w) % w) % 2 ^ w)

-- The loops of `clz32`, `clz64`, `ctz32`, `ctz64`, `popcount32` and `popcount64`, on fuel.
unfoldable pub clz_loop : ℕ → ℕ → ℕ → ℕ → Option ℕ
clz_loop zero w type num = none
clz_loop (suc fuel) w type num =
    let rest = clz_loop fuel w (type * 2 % 2 ^ w) (num + 1) in
    if type / 2 ^ (w - 1) % 2 == 0 then rest else some num

unfoldable pub clz : ℕ → ℕ → Option ℕ
clz w type = if type == 0 then some w else clz_loop w w type 0

unfoldable pub ctz_loop : ℕ → ℕ → ℕ → Option ℕ
ctz_loop zero type num = none
ctz_loop (suc fuel) type num =
    let rest = ctz_loop fuel (type / 2) (num + 1) in if type % 2 == 0 then rest else some num

unfoldable pub ctz : ℕ → ℕ → Option ℕ
ctz w type = if type == 0 then some w else ctz_loop w type 0

unfoldable pub popcount_loop : ℕ → ℕ → ℕ → Option ℕ
popcount_loop zero u ret = if u == 0 then some ret else none
popcount_loop (suc fuel) u ret =
    let rest = popcount_loop fuel (bit_and u (u - 1)) (ret + 1) in if u == 0 then some ret else rest

unfoldable pub popcount : ℕ → ℕ → Option ℕ
popcount w u = popcount_loop w u 0

unfoldable pub int_unary : ℕ → IntUnary → ℕ → Option ℕ
int_unary w int_clz v = clz w v
int_unary w int_ctz v = ctz w v
int_unary w int_popcnt v = popcount w v

unfoldable pub int_relation : ℕ → IntRelation → ℕ → ℕ → Bool
int_relation w int_eq a b = a == b
int_relation w int_ne a b = not (a == b)
int_relation w int_lt_s a b = ltb_ℤ (signed w a) (signed w b)
int_relation w int_lt_u a b = ltb a b
int_relation w int_gt_s a b = ltb_ℤ (signed w b) (signed w a)
int_relation w int_gt_u a b = ltb b a
int_relation w int_le_s a b = not (ltb_ℤ (signed w b) (signed w a))
int_relation w int_le_u a b = leb a b
int_relation w int_ge_s a b = not (ltb_ℤ (signed w a) (signed w b))
int_relation w int_ge_u a b = leb b a

-- The least integer divided by -1.
unfoldable pub overflows : ℕ → ℕ → ℕ → Bool
overflows w a b = (a == 2 ^ (w - 1)) && (b == 2 ^ w - 1)

unfoldable pub int_binary : ℕ → IntBinary → ℕ → ℕ → Step ℕ
int_binary w int_add a b = done ((a + b) % 2 ^ w)
int_binary w int_sub a b = done ((a + (2 ^ w - b % 2 ^ w)) % 2 ^ w)
int_binary w int_mul a b = done (a * b % 2 ^ w)
int_binary w int_div_s a b =
    if overflows w a b
    then trap integer_overflow
    else if b == 0
    then trap integer_divide_by_zero
    else done (bits w (quotient (signed w a) (signed w b)))
int_binary w int_div_u a b = if b == 0 then trap integer_divide_by_zero else done (a / b)
int_binary w int_rem_s a b =
    if overflows w a b
    then done 0
    else if b == 0
    then trap integer_divide_by_zero
    else done (bits w (remainder (signed w a) (signed w b)))
int_binary w int_rem_u a b = if b == 0 then trap integer_divide_by_zero else done (a % b)
int_binary w int_and a b = done (bit_and a b)
int_binary w int_or a b = done (bit_or a b)
int_binary w int_xor a b = done (bit_xor a b)
int_binary w int_shl a b = done (a * 2 ^ (b % w) % 2 ^ w)
int_binary w int_shr_s a b =
    done
      (if ltb a (2 ^ (w - 1)) then a / 2 ^ (b % w) else 2 ^ w - 1 - (2 ^ w - 1 - a) / 2 ^ (b % w))
int_binary w int_shr_u a b = done (a / 2 ^ (b % w))
int_binary w int_rotl a b = done (rotl w a b)
int_binary w int_rotr a b = done (rotr w a b)
