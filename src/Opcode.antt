-- ===== src/Opcode.antt =====
-- The opcodes without control flow, calls, globals and memory of core/iwasm/interpreter/wasm_opcode.h.
-- The operations that several types have are a type of their own, and the immediate of an instruction
-- is its argument: the bits of a constant, the index of a local, or the byte behind a fast opcode.
use wasm_trustzone.Base.{ℕ}

pub data IntRelation : Type 0 where
  int_eq int_ne int_lt_s int_lt_u int_gt_s int_gt_u int_le_s int_le_u int_ge_s int_ge_u :
      IntRelation

pub data FloatRelation : Type 0 where
  float_eq float_ne float_lt float_gt float_le float_ge : FloatRelation

pub data IntUnary : Type 0 where
  int_clz int_ctz int_popcnt : IntUnary

pub data IntBinary : Type 0 where
  int_add int_sub int_mul int_div_s int_div_u int_rem_s int_rem_u : IntBinary
  int_and int_or int_xor int_shl int_shr_s int_shr_u int_rotl int_rotr : IntBinary

pub data FloatUnary : Type 0 where
  float_abs float_neg float_ceil float_floor float_trunc float_nearest float_sqrt : FloatUnary

pub data FloatBinary : Type 0 where
  float_add float_sub float_mul float_div float_min float_max float_copysign : FloatBinary

pub data Conversion : Type 0 where
  i32_wrap_i64 i32_trunc_s_f32 i32_trunc_u_f32 i32_trunc_s_f64 i32_trunc_u_f64 : Conversion
  i64_extend_s_i32 i64_extend_u_i32 : Conversion
  i64_trunc_s_f32 i64_trunc_u_f32 i64_trunc_s_f64 i64_trunc_u_f64 : Conversion
  f32_convert_s_i32 f32_convert_u_i32 f32_convert_s_i64 f32_convert_u_i64 : Conversion
  f32_demote_f64 : Conversion
  f64_convert_s_i32 f64_convert_u_i32 f64_convert_s_i64 f64_convert_u_i64 : Conversion
  f64_promote_f32 : Conversion
  i32_reinterpret_f32 i64_reinterpret_f64 f32_reinterpret_i32 f64_reinterpret_i64 : Conversion

-- From `WASM_OP_I32_EQZ` to `WASM_OP_F64_REINTERPRET_I64`.
pub data Numeric : Type 0 where
  i32_eqz i64_eqz : Numeric
  i32_relation i64_relation : IntRelation → Numeric
  f32_relation f64_relation : FloatRelation → Numeric
  i32_unary i64_unary : IntUnary → Numeric
  i32_binary i64_binary : IntBinary → Numeric
  f32_unary f64_unary : FloatUnary → Numeric
  f32_binary f64_binary : FloatBinary → Numeric
  conversion : Conversion → Numeric

pub data Instr : Type 0 where
  op_nop op_drop op_drop_64 op_select op_select_64 : Instr
  op_get_local op_set_local op_tee_local : ℕ → Instr
  op_get_local_fast op_set_local_fast op_tee_local_fast : ℕ → Instr
  op_i32_const op_i64_const op_f32_const op_f64_const : ℕ → Instr
  op_numeric : Numeric → Instr
