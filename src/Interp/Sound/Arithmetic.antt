-- ===== src/Interp/Sound/Arithmetic.antt =====
-- The numeric handlers take what the loader's types let them take and leave the type it pushes.
use native.Mathlib.Nat.{mod-lt}
use wasm_trustzone.Base.{
  ℕ, ◌%◌, ◌^◌, ◌≤◌, ◌≡◌, refl, Option, none, some, List, ◌∷◌, ◌++◌, arith, length,
}
use wasm_trustzone.Base.Pow.{pow-suc-pos}
use wasm_trustzone.Loader.Stack.Spec.{ValueType, i32, i64, f32, f64, cells}
use wasm_trustzone.Loader.Body.Signature.{signature, operands, result, converts}
use wasm_trustzone.Interp.Frame.{Frame, Step, pop_value}
use wasm_trustzone.Interp.Integers.{int_unary, int_binary}
use wasm_trustzone.Interp.Integers.Loops.{int_unary_ends}
use wasm_trustzone.Interp.Exec.Arithmetic.{
  Floats, Platform, def_op_unary, def_op_binary, counted, def_op_bit_count, def_op_cmp, truncated,
  def_op_trunc, def_op_convert, exec_conversion, exec_numeric,
}
use wasm_trustzone.Interp.Sound.{Shape, Runs, Runs->>=, Popped, pop_value-Popped, push_value-Shape}
use wasm_trustzone.Opcode.{
  IntUnary, IntBinary, int_add, int_sub, int_mul, int_div_s, int_div_u, int_rem_s, int_rem_u,
  int_and, int_or, int_xor, int_shl, int_shr_s, int_shr_u, int_rotl, int_rotr, Conversion,
  i32_wrap_i64, i32_trunc_s_f32, i32_trunc_u_f32, i32_trunc_s_f64, i32_trunc_u_f64,
  i64_extend_s_i32, i64_extend_u_i32, i64_trunc_s_f32, i64_trunc_u_f32, i64_trunc_s_f64,
  i64_trunc_u_f64, f32_convert_s_i32, f32_convert_u_i32, f32_convert_s_i64, f32_convert_u_i64,
  f32_demote_f64, f64_convert_s_i32, f64_convert_u_i32, f64_convert_s_i64, f64_convert_u_i64,
  f64_promote_f32, i32_reinterpret_f32, i64_reinterpret_f64, f32_reinterpret_i32,
  f64_reinterpret_i64, Numeric, i32_eqz, i64_eqz, i32_relation, i64_relation, f32_relation,
  f64_relation, i32_unary, i64_unary, i32_binary, i64_binary, f32_unary, f64_unary, f32_binary,
  f64_binary, conversion,
}

-- The operation ends in a value or an exception.
abbrev Ends : Step ℕ → Type 0
Ends s = Runs (λ n. Unit) s

module _ (size room : ℕ) (src dst : ValueType) (ts : List ValueType) (f : Frame) where
  def_op_unary-Shape :
      (op : ℕ → Step ℕ)
      → ((v : ℕ) → Ends (op v))
      → length (cells (dst ∷ ts)) ≤ room
      → Shape size room (src ∷ ts) f
      → Runs (Shape size room (dst ∷ ts)) (def_op_unary src dst op f)
  unfolding def_op_unary
  def_op_unary-Shape op ends fits h =
      Runs->>= (Popped size room ts) _ (pop_value src f) _
        (pop_value-Popped size room src src ts f refl h)
        (λ val k.
          Runs->>= (λ n. Unit) _ (op val.0) _ (ends val.0)
            (λ res u. push_value-Shape size room dst dst res ts val.1 refl fits k))

  def_op_binary-Shape :
      (op : ℕ → ℕ → Step ℕ)
      → ((a b : ℕ) → Ends (op a b))
      → length (cells (dst ∷ ts)) ≤ room
      → Shape size room (src ∷ src ∷ ts) f
      → Runs (Shape size room (dst ∷ ts)) (def_op_binary src dst op f)
  unfolding def_op_binary
  def_op_binary-Shape op ends fits h =
      Runs->>= (Popped size room (src ∷ ts)) _ (pop_value src f) _
        (pop_value-Popped size room src src (src ∷ ts) f refl h)
        (λ val2 j.
          Runs->>= (Popped size room ts) _ (pop_value src val2.1) _
            (pop_value-Popped size room src src ts val2.1 refl j)
            (λ val1 k.
              Runs->>= (λ n. Unit) _ (op val1.0 val2.0) _ (ends val1.0 val2.0)
                (λ res u. push_value-Shape size room dst dst res ts val1.1 refl fits k)))

counted-Ends : (o : Option ℕ) (k : ℕ) → o ≡ some k → Ends (counted o)
unfolding counted
counted-Ends none k e = absurd (ground (arith, e))
counted-Ends (some n) k e = tt

bit_count-Ends : (w : ℕ) (op : IntUnary) (v : ℕ) → Ends (counted (int_unary w op (v % 2 ^ w)))
bit_count-Ends w op v =
    let (k, e) = int_unary_ends w op (v % 2 ^ w) (mod-lt v (pow-suc-pos w)) in
    counted-Ends (int_unary w op (v % 2 ^ w)) k e

int_binary-Ends : (w : ℕ) (op : IntBinary) (a b : ℕ) → Ends (int_binary w op a b)
unfolding int_binary
int_binary-Ends w int_add a b = tt
int_binary-Ends w int_sub a b = tt
int_binary-Ends w int_mul a b = tt
int_binary-Ends w int_div_s a b = ground arith
int_binary-Ends w int_div_u a b = ground arith
int_binary-Ends w int_rem_s a b = ground arith
int_binary-Ends w int_rem_u a b = ground arith
int_binary-Ends w int_and a b = tt
int_binary-Ends w int_or a b = tt
int_binary-Ends w int_xor a b = tt
int_binary-Ends w int_shl a b = tt
int_binary-Ends w int_shr_s a b = tt
int_binary-Ends w int_shr_u a b = tt
int_binary-Ends w int_rotl a b = tt
int_binary-Ends w int_rotr a b = tt

truncated-Ends :
    (platform : Platform) (p : Floats) (c : Conversion) (v : ℕ) → Ends (truncated platform p c v)
unfolding truncated
truncated-Ends platform p c v = ground arith

module _ (p : Platform) (size room : ℕ) (ts : List ValueType) (f : Frame) where
  exec_conversion-Shape :
      (c : Conversion)
      → length (cells (result (converts c) ∷ ts)) ≤ room
      → Shape size room (operands (converts c) ++ ts) f
      → Runs (Shape size room (result (converts c) ∷ ts)) (exec_conversion p c f)
  unfolding exec_conversion converts operands result def_op_convert def_op_trunc cells
  exec_conversion-Shape i32_wrap_i64 fits h =
      def_op_unary-Shape size room i64 i32 ts f _ (λ v. tt) fits h
  exec_conversion-Shape i32_trunc_s_f32 fits h =
      def_op_unary-Shape size room f32 i32 ts f _ (truncated-Ends p p.single i32_trunc_s_f32) fits h
  exec_conversion-Shape i32_trunc_u_f32 fits h =
      def_op_unary-Shape size room f32 i32 ts f _ (truncated-Ends p p.single i32_trunc_u_f32) fits h
  exec_conversion-Shape i32_trunc_s_f64 fits h =
      def_op_unary-Shape size room f64 i32 ts f _ (truncated-Ends p p.double i32_trunc_s_f64) fits h
  exec_conversion-Shape i32_trunc_u_f64 fits h =
      def_op_unary-Shape size room f64 i32 ts f _ (truncated-Ends p p.double i32_trunc_u_f64) fits h
  exec_conversion-Shape i64_extend_s_i32 fits h =
      def_op_unary-Shape size room i32 i64 ts f _ (λ v. tt) fits h
  exec_conversion-Shape i64_extend_u_i32 fits h =
      def_op_unary-Shape size room i32 i64 ts f _ (λ v. tt) fits h
  exec_conversion-Shape i64_trunc_s_f32 fits h =
      def_op_unary-Shape size room f32 i64 ts f _ (truncated-Ends p p.single i64_trunc_s_f32) fits h
  exec_conversion-Shape i64_trunc_u_f32 fits h =
      def_op_unary-Shape size room f32 i64 ts f _ (truncated-Ends p p.single i64_trunc_u_f32) fits h
  exec_conversion-Shape i64_trunc_s_f64 fits h =
      def_op_unary-Shape size room f64 i64 ts f _ (truncated-Ends p p.double i64_trunc_s_f64) fits h
  exec_conversion-Shape i64_trunc_u_f64 fits h =
      def_op_unary-Shape size room f64 i64 ts f _ (truncated-Ends p p.double i64_trunc_u_f64) fits h
  exec_conversion-Shape f32_convert_s_i32 fits h =
      def_op_unary-Shape size room i32 f32 ts f _ (λ v. tt) fits h
  exec_conversion-Shape f32_convert_u_i32 fits h =
      def_op_unary-Shape size room i32 f32 ts f _ (λ v. tt) fits h
  exec_conversion-Shape f32_convert_s_i64 fits h =
      def_op_unary-Shape size room i64 f32 ts f _ (λ v. tt) fits h
  exec_conversion-Shape f32_convert_u_i64 fits h =
      def_op_unary-Shape size room i64 f32 ts f _ (λ v. tt) fits h
  exec_conversion-Shape f32_demote_f64 fits h =
      def_op_unary-Shape size room f64 f32 ts f _ (λ v. tt) fits h
  exec_conversion-Shape f64_convert_s_i32 fits h =
      def_op_unary-Shape size room i32 f64 ts f _ (λ v. tt) fits h
  exec_conversion-Shape f64_convert_u_i32 fits h =
      def_op_unary-Shape size room i32 f64 ts f _ (λ v. tt) fits h
  exec_conversion-Shape f64_convert_s_i64 fits h =
      def_op_unary-Shape size room i64 f64 ts f _ (λ v. tt) fits h
  exec_conversion-Shape f64_convert_u_i64 fits h =
      def_op_unary-Shape size room i64 f64 ts f _ (λ v. tt) fits h
  exec_conversion-Shape f64_promote_f32 fits h =
      def_op_unary-Shape size room f32 f64 ts f _ (λ v. tt) fits h
  exec_conversion-Shape i32_reinterpret_f32 fits h = record {
    height = omega (arith, h.height);
    locals = h.locals;
    boundary = h.boundary;
  }
  exec_conversion-Shape i64_reinterpret_f64 fits h = record {
    height = omega (arith, h.height);
    locals = h.locals;
    boundary = h.boundary;
  }
  exec_conversion-Shape f32_reinterpret_i32 fits h = record {
    height = omega (arith, h.height);
    locals = h.locals;
    boundary = h.boundary;
  }
  exec_conversion-Shape f64_reinterpret_i64 fits h = record {
    height = omega (arith, h.height);
    locals = h.locals;
    boundary = h.boundary;
  }

  pub exec_numeric-Shape :
      (op : Numeric)
      → length (cells (result (signature op) ∷ ts)) ≤ room
      → Shape size room (operands (signature op) ++ ts) f
      → Runs (Shape size room (result (signature op) ∷ ts)) (exec_numeric p op f)
  unfolding exec_numeric signature operands result def_op_bit_count def_op_cmp
  exec_numeric-Shape i32_eqz fits h = def_op_unary-Shape size room i32 i32 ts f _ (λ v. tt) fits h
  exec_numeric-Shape i64_eqz fits h = def_op_unary-Shape size room i64 i32 ts f _ (λ v. tt) fits h
  exec_numeric-Shape (i32_relation r) fits h =
      def_op_binary-Shape size room i32 i32 ts f _ (λ a b. tt) fits h
  exec_numeric-Shape (i64_relation r) fits h =
      def_op_binary-Shape size room i64 i32 ts f _ (λ a b. tt) fits h
  exec_numeric-Shape (f32_relation r) fits h =
      def_op_binary-Shape size room f32 i32 ts f _ (λ a b. tt) fits h
  exec_numeric-Shape (f64_relation r) fits h =
      def_op_binary-Shape size room f64 i32 ts f _ (λ a b. tt) fits h
  exec_numeric-Shape (i32_unary o) fits h =
      def_op_unary-Shape size room i32 i32 ts f _ (bit_count-Ends 32 o) fits h
  exec_numeric-Shape (i64_unary o) fits h =
      def_op_unary-Shape size room i64 i64 ts f _ (bit_count-Ends 64 o) fits h
  exec_numeric-Shape (i32_binary o) fits h =
      def_op_binary-Shape size room i32 i32 ts f _ (int_binary-Ends 32 o) fits h
  exec_numeric-Shape (i64_binary o) fits h =
      def_op_binary-Shape size room i64 i64 ts f _ (int_binary-Ends 64 o) fits h
  exec_numeric-Shape (f32_unary o) fits h =
      def_op_unary-Shape size room f32 f32 ts f _ (λ v. tt) fits h
  exec_numeric-Shape (f64_unary o) fits h =
      def_op_unary-Shape size room f64 f64 ts f _ (λ v. tt) fits h
  exec_numeric-Shape (f32_binary o) fits h =
      def_op_binary-Shape size room f32 f32 ts f _ (λ a b. tt) fits h
  exec_numeric-Shape (f64_binary o) fits h =
      def_op_binary-Shape size room f64 f64 ts f _ (λ a b. tt) fits h
  exec_numeric-Shape (conversion c) fits h = exec_conversion-Shape c fits h
