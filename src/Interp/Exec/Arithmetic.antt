-- ===== src/Interp/Exec/Arithmetic.antt =====
-- The numeric instructions of core/iwasm/interpreter/wasm_interp_classic.c, with the macros
-- `DEF_OP_EQZ` to `DEF_OP_CONVERT` on which they stand.
use wasm_trustzone.Base.{
  ℕ, ◌+◌, ◌-◌, ◌/◌, ◌%◌, ◌^◌, Bool, not, ◌&&◌, ◌||◌, Option, none, some, ◌==◌, if◌then◌else◌,
}
use wasm_trustzone.Loader.Stack.Spec.{ValueType, i32, i64, f32, f64}
use wasm_trustzone.Interp.Frame.{
  Frame, Step, done, trap, wild, ◌>>=◌, invalid_conversion_to_integer, integer_overflow, pop_value,
  push_value,
}
use wasm_trustzone.Interp.Integers.{signed, bits, int_unary, int_relation, int_binary}
use wasm_trustzone.Opcode.{
  FloatRelation, float_eq, float_ne, float_lt, float_gt, float_le, float_ge, IntUnary, FloatUnary,
  float_abs, float_neg, float_ceil, float_floor, float_trunc, float_nearest, float_sqrt,
  FloatBinary, float_add, float_sub, float_mul, float_div, float_min, float_max, float_copysign,
  Conversion, i32_wrap_i64, i32_trunc_s_f32, i32_trunc_u_f32, i32_trunc_s_f64, i32_trunc_u_f64,
  i64_extend_s_i32, i64_extend_u_i32, i64_trunc_s_f32, i64_trunc_u_f32, i64_trunc_s_f64,
  i64_trunc_u_f64, f32_convert_s_i32, f32_convert_u_i32, f32_convert_s_i64, f32_convert_u_i64,
  f32_demote_f64, f64_convert_s_i32, f64_convert_u_i32, f64_convert_s_i64, f64_convert_u_i64,
  f64_promote_f32, i32_reinterpret_f32, i64_reinterpret_f64, f32_reinterpret_i32,
  f64_reinterpret_i64, Numeric, i32_eqz, i64_eqz, i32_relation, i64_relation, f32_relation,
  f64_relation, i32_unary, i64_unary, i32_binary, i64_binary, f32_unary, f64_unary, f32_binary,
  f64_binary, conversion,
}

-- The arithmetic of one floating point type, on bits.
pub record Floats : Type 0 where
  pub isnan : ℕ → Bool
  pub signbit : ℕ → Bool
  pub negated : ℕ → ℕ
  pub fabs : ℕ → ℕ
  pub ceil : ℕ → ℕ
  pub floor : ℕ → ℕ
  pub trunc : ℕ → ℕ
  pub rint : ℕ → ℕ
  pub sqrt : ℕ → ℕ
  pub plus : ℕ → ℕ → ℕ
  pub minus : ℕ → ℕ → ℕ
  pub times : ℕ → ℕ → ℕ
  pub divided : ℕ → ℕ → ℕ
  pub fmin : ℕ → ℕ → ℕ
  pub fmax : ℕ → ℕ → ℕ
  pub equal : ℕ → ℕ → Bool
  pub less : ℕ → ℕ → Bool
  pub at_most : ℕ → ℕ → Bool

-- With the conversions: the two bounds of a truncation, and the cast.
pub record Platform : Type 0 where
  pub single : Floats
  pub double : Floats
  pub min_cond : Conversion → ℕ → Bool
  pub max_cond : Conversion → ℕ → Bool
  pub cast : Conversion → ℕ → ℕ

unfoldable pub wa_fmax : Floats → ℕ → ℕ → ℕ
wa_fmax p a b =
    let c = p.fmax a b in if p.equal c 0 && p.equal a b then (if p.signbit a then b else a) else c

unfoldable pub wa_fmin : Floats → ℕ → ℕ → ℕ
wa_fmin p a b =
    let c = p.fmin a b in if p.equal c 0 && p.equal a b then (if p.signbit a then a else b) else c

-- The sign bit is turned over.
unfoldable pub flip_sign : ℕ → ℕ → ℕ
flip_sign w v = if v / 2 ^ (w - 1) % 2 == 0 then v + 2 ^ (w - 1) else v - 2 ^ (w - 1)

unfoldable pub float_unary_op : Floats → ℕ → FloatUnary → ℕ → ℕ
float_unary_op p w float_abs v = p.fabs v
float_unary_op p w float_neg v = flip_sign w v
float_unary_op p w float_ceil v = p.ceil v
float_unary_op p w float_floor v = p.floor v
float_unary_op p w float_trunc v = p.trunc v
float_unary_op p w float_nearest v = p.rint v
float_unary_op p w float_sqrt v = p.sqrt v

unfoldable pub float_binary_op : Floats → FloatBinary → ℕ → ℕ → ℕ
float_binary_op p float_add a b = p.plus a b
float_binary_op p float_sub a b = p.minus a b
float_binary_op p float_mul a b = p.times a b
float_binary_op p float_div a b = p.divided a b
float_binary_op p float_min a b = if p.isnan a then a else if p.isnan b then b else wa_fmin p a b
float_binary_op p float_max a b = if p.isnan a then a else if p.isnan b then b else wa_fmax p a b
float_binary_op p float_copysign a b = if p.signbit b then p.negated (p.fabs a) else p.fabs a

unfoldable pub float_relation_op : Floats → FloatRelation → ℕ → ℕ → Bool
float_relation_op p float_eq a b = p.equal a b
float_relation_op p float_ne a b = not (p.equal a b)
float_relation_op p float_lt a b = p.less a b
float_relation_op p float_gt a b = p.less b a
float_relation_op p float_le a b = p.at_most a b
float_relation_op p float_ge a b = p.at_most b a

-- One operand of the first type, and a result of the second.
unfoldable pub def_op_unary : ValueType → ValueType → (ℕ → Step ℕ) → Frame → Step Frame
def_op_unary src dst op f = do val ← pop_value src f; res ← op val.0; push_value dst res val.1

-- Two operands, the second one on top.
unfoldable pub def_op_binary : ValueType → ValueType → (ℕ → ℕ → Step ℕ) → Frame → Step Frame
def_op_binary src dst op f = do
  val2 ← pop_value src f
  val1 ← pop_value src val2.1
  res ← op val1.0 val2.0
  push_value dst res val1.1

-- A loop that has ended.
unfoldable pub counted : Option ℕ → Step ℕ
counted none = wild
counted (some n) = done n

unfoldable pub def_op_bit_count : ℕ → ValueType → IntUnary → Frame → Step Frame
def_op_bit_count w t op f = def_op_unary t t (λ v. counted (int_unary w op (v % 2 ^ w))) f

unfoldable pub def_op_cmp : ValueType → (ℕ → ℕ → Bool) → Frame → Step Frame
def_op_cmp t rel f = def_op_binary t i32 (λ a b. done (if rel a b then 1 else 0)) f

unfoldable pub truncated : Platform → Floats → Conversion → ℕ → Step ℕ
truncated platform src c v =
    if src.isnan v
    then trap invalid_conversion_to_integer
    else if platform.min_cond c v || platform.max_cond c v
    then trap integer_overflow
    else done (platform.cast c v)

unfoldable pub def_op_trunc :
    Platform → Floats → Conversion → ValueType → ValueType → Frame → Step Frame
def_op_trunc platform p c dst src f = def_op_unary src dst (truncated platform p c) f

unfoldable pub def_op_convert : (ℕ → ℕ) → ValueType → ValueType → Frame → Step Frame
def_op_convert op dst src f = def_op_unary src dst (λ v. done (op v)) f

unfoldable pub exec_conversion : Platform → Conversion → Frame → Step Frame
exec_conversion p i32_wrap_i64 f = def_op_convert (λ v. v % 2 ^ 32) i32 i64 f
exec_conversion p i32_trunc_s_f32 f = def_op_trunc p p.single i32_trunc_s_f32 i32 f32 f
exec_conversion p i32_trunc_u_f32 f = def_op_trunc p p.single i32_trunc_u_f32 i32 f32 f
exec_conversion p i32_trunc_s_f64 f = def_op_trunc p p.double i32_trunc_s_f64 i32 f64 f
exec_conversion p i32_trunc_u_f64 f = def_op_trunc p p.double i32_trunc_u_f64 i32 f64 f
exec_conversion p i64_extend_s_i32 f = def_op_convert (λ v. bits 64 (signed 32 v)) i64 i32 f
exec_conversion p i64_extend_u_i32 f = def_op_convert (λ v. v) i64 i32 f
exec_conversion p i64_trunc_s_f32 f = def_op_trunc p p.single i64_trunc_s_f32 i64 f32 f
exec_conversion p i64_trunc_u_f32 f = def_op_trunc p p.single i64_trunc_u_f32 i64 f32 f
exec_conversion p i64_trunc_s_f64 f = def_op_trunc p p.double i64_trunc_s_f64 i64 f64 f
exec_conversion p i64_trunc_u_f64 f = def_op_trunc p p.double i64_trunc_u_f64 i64 f64 f
exec_conversion p f32_convert_s_i32 f = def_op_convert (p.cast f32_convert_s_i32) f32 i32 f
exec_conversion p f32_convert_u_i32 f = def_op_convert (p.cast f32_convert_u_i32) f32 i32 f
exec_conversion p f32_convert_s_i64 f = def_op_convert (p.cast f32_convert_s_i64) f32 i64 f
exec_conversion p f32_convert_u_i64 f = def_op_convert (p.cast f32_convert_u_i64) f32 i64 f
exec_conversion p f32_demote_f64 f = def_op_convert (p.cast f32_demote_f64) f32 f64 f
exec_conversion p f64_convert_s_i32 f = def_op_convert (p.cast f64_convert_s_i32) f64 i32 f
exec_conversion p f64_convert_u_i32 f = def_op_convert (p.cast f64_convert_u_i32) f64 i32 f
exec_conversion p f64_convert_s_i64 f = def_op_convert (p.cast f64_convert_s_i64) f64 i64 f
exec_conversion p f64_convert_u_i64 f = def_op_convert (p.cast f64_convert_u_i64) f64 i64 f
exec_conversion p f64_promote_f32 f = def_op_convert (p.cast f64_promote_f32) f64 f32 f
exec_conversion p i32_reinterpret_f32 f = done f
exec_conversion p i64_reinterpret_f64 f = done f
exec_conversion p f32_reinterpret_i32 f = done f
exec_conversion p f64_reinterpret_i64 f = done f

unfoldable pub exec_numeric : Platform → Numeric → Frame → Step Frame
exec_numeric p i32_eqz f = def_op_unary i32 i32 (λ v. done (if v == 0 then 1 else 0)) f
exec_numeric p (i32_relation r) f = def_op_cmp i32 (int_relation 32 r) f
exec_numeric p i64_eqz f = def_op_unary i64 i32 (λ v. done (if v == 0 then 1 else 0)) f
exec_numeric p (i64_relation r) f = def_op_cmp i64 (int_relation 64 r) f
exec_numeric p (f32_relation r) f = def_op_cmp f32 (float_relation_op p.single r) f
exec_numeric p (f64_relation r) f = def_op_cmp f64 (float_relation_op p.double r) f
exec_numeric p (i32_unary o) f = def_op_bit_count 32 i32 o f
exec_numeric p (i32_binary o) f = def_op_binary i32 i32 (int_binary 32 o) f
exec_numeric p (i64_unary o) f = def_op_bit_count 64 i64 o f
exec_numeric p (i64_binary o) f = def_op_binary i64 i64 (int_binary 64 o) f
exec_numeric p (f32_unary o) f = def_op_unary f32 f32 (λ v. done (float_unary_op p.single 32 o v)) f
exec_numeric p (f32_binary o) f =
    def_op_binary f32 f32 (λ a b. done (float_binary_op p.single o a b)) f
exec_numeric p (f64_unary o) f = def_op_unary f64 f64 (λ v. done (float_unary_op p.double 64 o v)) f
exec_numeric p (f64_binary o) f =
    def_op_binary f64 f64 (λ a b. done (float_binary_op p.double o a b)) f
exec_numeric p (conversion c) f = exec_conversion p c f
