-- ===== src/Loader/Body/Signature.antt =====
-- The types of the numeric instructions in the WebAssembly specification, by the kind of each: t.unop,
-- t.binop, t.testop, t.relop, and cvtop, which is named for its result and then for its operand. No table
-- of the loader is used.
use wasm_trustzone.Base.{◌≡◌, refl, List, [], ◌∷◌}
use wasm_trustzone.Loader.Stack.Spec.{ValueType, i32, i64, f32, f64}
use wasm_trustzone.Loader.Body.{conversion_types, numeric_types}
use wasm_trustzone.Opcode.{
  Conversion, Numeric, i32_eqz, i32_relation, i64_eqz, i64_relation, f32_relation, f64_relation,
  i32_unary, i32_binary, i64_unary, i64_binary, f32_unary, f32_binary, f64_unary, f64_binary,
  conversion, i32_wrap_i64, i32_trunc_s_f32, i32_trunc_u_f32, i32_trunc_s_f64, i32_trunc_u_f64,
  i64_extend_s_i32, i64_extend_u_i32, i64_trunc_s_f32, i64_trunc_u_f32, i64_trunc_s_f64,
  i64_trunc_u_f64, f32_convert_s_i32, f32_convert_u_i32, f32_convert_s_i64, f32_convert_u_i64,
  f32_demote_f64, f64_convert_s_i32, f64_convert_u_i32, f64_convert_s_i64, f64_convert_u_i64,
  f64_promote_f32, i32_reinterpret_f32, i64_reinterpret_f64, f32_reinterpret_i32,
  f64_reinterpret_i64,
}

pub data Signature : Type 0 where
  unop : ValueType → Signature
  binop : ValueType → Signature
  testop : ValueType → Signature
  relop : ValueType → Signature
  cvtop : ValueType → ValueType → Signature

-- The operands and the result.
unfoldable pub operands : Signature → List ValueType
operands (unop t) = t ∷ []
operands (binop t) = t ∷ t ∷ []
operands (testop t) = t ∷ []
operands (relop t) = t ∷ t ∷ []
operands (cvtop to from) = from ∷ []

unfoldable pub result : Signature → ValueType
result (unop t) = t
result (binop t) = t
result (testop t) = i32
result (relop t) = i32
result (cvtop to from) = to

unfoldable pub converts : Conversion → Signature
converts i32_wrap_i64 = cvtop i32 i64
converts i32_trunc_s_f32 = cvtop i32 f32
converts i32_trunc_u_f32 = cvtop i32 f32
converts i32_trunc_s_f64 = cvtop i32 f64
converts i32_trunc_u_f64 = cvtop i32 f64
converts i64_extend_s_i32 = cvtop i64 i32
converts i64_extend_u_i32 = cvtop i64 i32
converts i64_trunc_s_f32 = cvtop i64 f32
converts i64_trunc_u_f32 = cvtop i64 f32
converts i64_trunc_s_f64 = cvtop i64 f64
converts i64_trunc_u_f64 = cvtop i64 f64
converts f32_convert_s_i32 = cvtop f32 i32
converts f32_convert_u_i32 = cvtop f32 i32
converts f32_convert_s_i64 = cvtop f32 i64
converts f32_convert_u_i64 = cvtop f32 i64
converts f32_demote_f64 = cvtop f32 f64
converts f64_convert_s_i32 = cvtop f64 i32
converts f64_convert_u_i32 = cvtop f64 i32
converts f64_convert_s_i64 = cvtop f64 i64
converts f64_convert_u_i64 = cvtop f64 i64
converts f64_promote_f32 = cvtop f64 f32
converts i32_reinterpret_f32 = cvtop i32 f32
converts i64_reinterpret_f64 = cvtop i64 f64
converts f32_reinterpret_i32 = cvtop f32 i32
converts f64_reinterpret_i64 = cvtop f64 i64

unfoldable pub signature : Numeric → Signature
signature i32_eqz = testop i32
signature (i32_relation r) = relop i32
signature i64_eqz = testop i64
signature (i64_relation r) = relop i64
signature (f32_relation r) = relop f32
signature (f64_relation r) = relop f64
signature (i32_unary o) = unop i32
signature (i32_binary o) = binop i32
signature (i64_unary o) = unop i64
signature (i64_binary o) = binop i64
signature (f32_unary o) = unop f32
signature (f32_binary o) = binop f32
signature (f64_unary o) = unop f64
signature (f64_binary o) = binop f64
signature (conversion c) = converts c

conversion_types-converts :
    (c : Conversion)
    → ((conversion_types c).0 ∷ [] ≡ operands (converts c))
      × ((conversion_types c).1 ≡ result (converts c))
unfolding conversion_types converts operands result
conversion_types-converts i32_wrap_i64 = (refl, refl)
conversion_types-converts i32_trunc_s_f32 = (refl, refl)
conversion_types-converts i32_trunc_u_f32 = (refl, refl)
conversion_types-converts i32_trunc_s_f64 = (refl, refl)
conversion_types-converts i32_trunc_u_f64 = (refl, refl)
conversion_types-converts i64_extend_s_i32 = (refl, refl)
conversion_types-converts i64_extend_u_i32 = (refl, refl)
conversion_types-converts i64_trunc_s_f32 = (refl, refl)
conversion_types-converts i64_trunc_u_f32 = (refl, refl)
conversion_types-converts i64_trunc_s_f64 = (refl, refl)
conversion_types-converts i64_trunc_u_f64 = (refl, refl)
conversion_types-converts f32_convert_s_i32 = (refl, refl)
conversion_types-converts f32_convert_u_i32 = (refl, refl)
conversion_types-converts f32_convert_s_i64 = (refl, refl)
conversion_types-converts f32_convert_u_i64 = (refl, refl)
conversion_types-converts f32_demote_f64 = (refl, refl)
conversion_types-converts f64_convert_s_i32 = (refl, refl)
conversion_types-converts f64_convert_u_i32 = (refl, refl)
conversion_types-converts f64_convert_s_i64 = (refl, refl)
conversion_types-converts f64_convert_u_i64 = (refl, refl)
conversion_types-converts f64_promote_f32 = (refl, refl)
conversion_types-converts i32_reinterpret_f32 = (refl, refl)
conversion_types-converts i64_reinterpret_f64 = (refl, refl)
conversion_types-converts f32_reinterpret_i32 = (refl, refl)
conversion_types-converts f64_reinterpret_i64 = (refl, refl)

-- The tables of the loader have the types of the specification.
pub numeric_types-signature :
    (op : Numeric)
    → ((numeric_types op).0 ≡ operands (signature op))
      × ((numeric_types op).1 ≡ result (signature op))
unfolding numeric_types signature operands result
numeric_types-signature i32_eqz = (refl, refl)
numeric_types-signature (i32_relation r) = (refl, refl)
numeric_types-signature i64_eqz = (refl, refl)
numeric_types-signature (i64_relation r) = (refl, refl)
numeric_types-signature (f32_relation r) = (refl, refl)
numeric_types-signature (f64_relation r) = (refl, refl)
numeric_types-signature (i32_unary o) = (refl, refl)
numeric_types-signature (i32_binary o) = (refl, refl)
numeric_types-signature (i64_unary o) = (refl, refl)
numeric_types-signature (i64_binary o) = (refl, refl)
numeric_types-signature (f32_unary o) = (refl, refl)
numeric_types-signature (f32_binary o) = (refl, refl)
numeric_types-signature (f64_unary o) = (refl, refl)
numeric_types-signature (f64_binary o) = (refl, refl)
numeric_types-signature (conversion c) = conversion_types-converts c
