-- ===== src/Loader/Body.antt =====
-- The type check of the instructions of a function body that neither branch nor call nor use a global
-- or the memory: the cases of `wasm_loader_prepare_bytecode` in
-- core/iwasm/interpreter/wasm_loader.c, without the code of `WASM_ENABLE_FAST_INTERP` and with that of
-- an interpreter alone (neither `WASM_ENABLE_WAMR_COMPILER` nor `WASM_ENABLE_JIT`). The loader rewrites
-- the code in place, so that a check returns the instruction that it leaves. The bytes that a fast
-- opcode frees become NOPs, which are not listed.
pub mod Signature
pub mod Typing
pub mod Checked
pub mod Leaf
pub mod Accepts
pub mod Exact
use wasm_trustzone.Base.{
  ℕ, ◌+◌, ◌-◌, ◌%◌, ◌^◌, Bool, true, false, ◌||◌, List, [], ◌∷◌, ◌++◌, Option, none, some, ltb, leb,
  ◌==◌, if◌then◌else◌, length, get_elem?, get_or, set,
}
use wasm_trustzone.Loader.Outcome.{
  Outcome, ok, err, ◌>>=◌, stack_empty, invalid_opcode, out_of_memory, missing_end,
}
use wasm_trustzone.Loader.Stack.{
  no_block, LoaderContext, cell_at, wasm_loader_ctx_init, wasm_loader_push_frame_ref,
  wasm_loader_pop_frame_ref, wasm_loader_push_frame_csp, wasm_loader_pop_frame_csp, value_type_i32,
  value_type_f32, value_type_void,
}
use wasm_trustzone.Loader.Stack.Spec.{ValueType, i32, i64, f32, f64, code}
use wasm_trustzone.Loader.Locals.{Function, get_local_type_and_offset, fast_byte}
use wasm_trustzone.Opcode.{
  Conversion, i32_wrap_i64, i32_trunc_s_f32, i32_trunc_u_f32, i32_trunc_s_f64, i32_trunc_u_f64,
  i64_extend_s_i32, i64_extend_u_i32, i64_trunc_s_f32, i64_trunc_u_f32, i64_trunc_s_f64,
  i64_trunc_u_f64, f32_convert_s_i32, f32_convert_u_i32, f32_convert_s_i64, f32_convert_u_i64,
  f32_demote_f64, f64_convert_s_i32, f64_convert_u_i32, f64_convert_s_i64, f64_convert_u_i64,
  f64_promote_f32, i32_reinterpret_f32, i64_reinterpret_f64, f32_reinterpret_i32,
  f64_reinterpret_i64, Numeric, i32_eqz, i64_eqz, i32_relation, i64_relation, f32_relation,
  f64_relation, i32_unary, i64_unary, i32_binary, i64_binary, f32_unary, f64_unary, f32_binary,
  f64_binary, conversion, Instr, op_nop, op_drop, op_drop_64, op_select, op_select_64, op_get_local,
  op_set_local, op_tee_local, op_get_local_fast, op_set_local_fast, op_tee_local_fast, op_i32_const,
  op_i64_const, op_f32_const, op_f64_const, op_numeric,
}

abbrev pub block_type_function : ℕ
block_type_function = 3

-- What the numeric opcodes pop, the first one popped first, and what they push.
unfoldable pub conversion_types : Conversion → ValueType × ValueType
conversion_types i32_wrap_i64 = (i64, i32)
conversion_types i32_trunc_s_f32 = (f32, i32)
conversion_types i32_trunc_u_f32 = (f32, i32)
conversion_types i32_trunc_s_f64 = (f64, i32)
conversion_types i32_trunc_u_f64 = (f64, i32)
conversion_types i64_extend_s_i32 = (i32, i64)
conversion_types i64_extend_u_i32 = (i32, i64)
conversion_types i64_trunc_s_f32 = (f32, i64)
conversion_types i64_trunc_u_f32 = (f32, i64)
conversion_types i64_trunc_s_f64 = (f64, i64)
conversion_types i64_trunc_u_f64 = (f64, i64)
conversion_types f32_convert_s_i32 = (i32, f32)
conversion_types f32_convert_u_i32 = (i32, f32)
conversion_types f32_convert_s_i64 = (i64, f32)
conversion_types f32_convert_u_i64 = (i64, f32)
conversion_types f32_demote_f64 = (f64, f32)
conversion_types f64_convert_s_i32 = (i32, f64)
conversion_types f64_convert_u_i32 = (i32, f64)
conversion_types f64_convert_s_i64 = (i64, f64)
conversion_types f64_convert_u_i64 = (i64, f64)
conversion_types f64_promote_f32 = (f32, f64)
conversion_types i32_reinterpret_f32 = (f32, i32)
conversion_types i64_reinterpret_f64 = (f64, i64)
conversion_types f32_reinterpret_i32 = (i32, f32)
conversion_types f64_reinterpret_i64 = (i64, f64)

unfoldable pub numeric_types : Numeric → List ValueType × ValueType
numeric_types i32_eqz = (i32 ∷ [], i32)
numeric_types (i32_relation r) = (i32 ∷ i32 ∷ [], i32)
numeric_types i64_eqz = (i64 ∷ [], i32)
numeric_types (i64_relation r) = (i64 ∷ i64 ∷ [], i32)
numeric_types (f32_relation r) = (f32 ∷ f32 ∷ [], i32)
numeric_types (f64_relation r) = (f64 ∷ f64 ∷ [], i32)
numeric_types (i32_unary o) = (i32 ∷ [], i32)
numeric_types (i32_binary o) = (i32 ∷ i32 ∷ [], i32)
numeric_types (i64_unary o) = (i64 ∷ [], i64)
numeric_types (i64_binary o) = (i64 ∷ i64 ∷ [], i64)
numeric_types (f32_unary o) = (f32 ∷ [], f32)
numeric_types (f32_binary o) = (f32 ∷ f32 ∷ [], f32)
numeric_types (f64_unary o) = (f64 ∷ [], f64)
numeric_types (f64_binary o) = (f64 ∷ f64 ∷ [], f64)
numeric_types (conversion c) = ((conversion_types c).0 ∷ [], (conversion_types c).1)

unfoldable pub pop_all : List ValueType → LoaderContext → Outcome LoaderContext
pop_all [] ctx = ok ctx
pop_all (t ∷ ts) ctx = do popped ← wasm_loader_pop_frame_ref (code t) ctx; pop_all ts popped

-- The last one is pushed first.
unfoldable pub push_all : (ℕ → Bool) → List ValueType → LoaderContext → Outcome LoaderContext
push_all room [] ctx = ok ctx
push_all room (t ∷ ts) ctx = do
  under ← push_all room ts ctx
  wasm_loader_push_frame_ref room (code t) under

-- An instruction that pops some types and pushes some, and the instruction that is left.
unfoldable pub retype :
    (ℕ → Bool)
    → List ValueType
    → List ValueType
    → Instr
    → LoaderContext
    → Outcome (Instr × LoaderContext)
retype room popped pushed left ctx = do
  under ← pop_all popped ctx
  over ← push_all room pushed under
  ok (left, over)

-- `REF_I32` or `REF_F32` is on top.
unfoldable pub top_is_narrow : LoaderContext → Bool
top_is_narrow ctx = (cell_at ctx 1 == value_type_i32) || (cell_at ctx 1 == value_type_f32)

unfoldable pub check_drop : Instr → LoaderContext → Outcome (Instr × LoaderContext)
check_drop opcode ctx =
    if leb ctx.stack_cell_num 0
    then err stack_empty
    else if top_is_narrow ctx
    then ok (
      opcode,
      record ctx { frame_ref = ctx.frame_ref - 1; stack_cell_num = ctx.stack_cell_num - 1 },
    )
    else if leb ctx.stack_cell_num 1
    then err stack_empty
    else ok (
      op_drop_64,
      record ctx { frame_ref = ctx.frame_ref - 2; stack_cell_num = ctx.stack_cell_num - 2 },
    )

-- The type popped and pushed is the byte on top, whatever it is.
unfoldable pub select_top : (ℕ → Bool) → Instr → LoaderContext → Outcome (Instr × LoaderContext)
select_top room opcode ctx =
    if leb ctx.stack_cell_num 0
    then err stack_empty
    else let ref_type = cell_at ctx 1 in
      do
        once ← wasm_loader_pop_frame_ref ref_type ctx
        twice ← wasm_loader_pop_frame_ref ref_type once
        pushed ← wasm_loader_push_frame_ref room ref_type twice
        ok (if top_is_narrow ctx then opcode else op_select_64, pushed)

unfoldable pub check_select : (ℕ → Bool) → Instr → LoaderContext → Outcome (Instr × LoaderContext)
check_select room opcode ctx = do
  popped ← wasm_loader_pop_frame_ref value_type_i32 ctx
  select_top room opcode popped

-- An access to a local: what it pops and pushes, and the fast opcode where the offset fits.
unfoldable pub check_local :
    (ℕ → Bool)
    → Function
    → ℕ
    → Bool
    → Bool
    → Instr
    → (ℕ → Instr)
    → LoaderContext
    → Outcome (Instr × LoaderContext)
check_local room func local_idx pops pushes opcode fast ctx = do
  l ← get_local_type_and_offset func local_idx
  retype room (if pops then l.0 ∷ [] else []) (if pushes then l.0 ∷ [] else [])
      (if ltb l.1 0x80 then fast (fast_byte l.0 l.1) else opcode) ctx

-- The opcodes that only the loader writes are invalid in its input, but for two of them.
unfoldable pub check_instr :
    (ℕ → Bool) → Function → Instr → LoaderContext → Outcome (Instr × LoaderContext)
check_instr room func op_nop ctx = ok (op_nop, ctx)
check_instr room func op_drop ctx = check_drop op_drop ctx
check_instr room func op_drop_64 ctx = check_drop op_drop_64 ctx
check_instr room func op_select ctx = check_select room op_select ctx
check_instr room func op_select_64 ctx = check_select room op_select_64 ctx
check_instr room func (op_get_local n) ctx =
    check_local room func n false true (op_get_local n) op_get_local_fast ctx
check_instr room func (op_set_local n) ctx =
    check_local room func n true false (op_set_local n) op_set_local_fast ctx
check_instr room func (op_tee_local n) ctx =
    check_local room func n true true (op_tee_local n) op_tee_local_fast ctx
check_instr room func (op_get_local_fast b) ctx = err invalid_opcode
check_instr room func (op_set_local_fast b) ctx = err invalid_opcode
check_instr room func (op_tee_local_fast b) ctx = err invalid_opcode
check_instr room func (op_i32_const c) ctx = retype room [] (i32 ∷ []) (op_i32_const c) ctx
check_instr room func (op_i64_const c) ctx = retype room [] (i64 ∷ []) (op_i64_const c) ctx
check_instr room func (op_f32_const c) ctx = retype room [] (f32 ∷ []) (op_f32_const c) ctx
check_instr room func (op_f64_const c) ctx = retype room [] (f64 ∷ []) (op_f64_const c) ctx
check_instr room func (op_numeric op) ctx =
    retype room (numeric_types op).0 ((numeric_types op).1 ∷ []) (op_numeric op) ctx

-- The loop over the code.
unfoldable pub check_code :
    (ℕ → Bool) → Function → List Instr → LoaderContext → Outcome (List Instr × LoaderContext)
check_code room func [] ctx = ok ([], ctx)
check_code room func (i ∷ is) ctx = do
  first ← check_instr room func i ctx
  rest ← check_code room func is first.1
  ok (first.0 ∷ rest.0, rest.1)

-- The byte of a result type, or of none.
unfoldable pub ret_type : Option ValueType → ℕ
ret_type none = value_type_void
ret_type (some t) = code t

unfoldable pub obtained : Option LoaderContext → Outcome LoaderContext
obtained none = err out_of_memory
obtained (some ctx) = ok ctx

-- The block of the function, which is reachable.
unfoldable pub begin_function :
    (ℕ → Bool) → Option ValueType → ℕ → LoaderContext → Outcome LoaderContext
begin_function room ret p ctx = do
  entered ← wasm_loader_push_frame_csp room block_type_function (ret_type ret) p ctx
  ok (record entered {
    frame_csp_bottom =
        set entered.frame_csp_bottom (entered.frame_csp - 1)
          (record (get_or entered.frame_csp_bottom (entered.frame_csp - 1) no_block) {
            is_block_reachable = true;
          });
  })

-- `WASM_OP_END`, up to the type of the block that it closes.
unfoldable pub end_block : (ℕ → Bool) → LoaderContext → Outcome LoaderContext
end_block room ctx = do
  left ← wasm_loader_pop_frame_csp ctx
  let type = (get_or left.frame_csp_bottom left.frame_csp no_block).return_type in
      do under ← wasm_loader_pop_frame_ref type left; wasm_loader_push_frame_ref room type under

-- `wasm_loader_prepare_bytecode` for a body without blocks, which its END follows: the code that is left,
-- and `max_stack_cell_num`. `granted` answers for the allocation of the context.
unfoldable pub prepare_leaf :
    Bool → (ℕ → Bool) → Function → Option ValueType → ℕ → List Instr → Outcome (List Instr × ℕ)
prepare_leaf granted room func ret p code = do
  ctx ← obtained (wasm_loader_ctx_init granted)
  entered ← begin_function room ret p ctx
  checked ← check_code room func code entered
  ended ← end_block room checked.1
  if ltb 0 ended.csp_num then err missing_end else ok (checked.0, ended.max_stack_cell_num)
