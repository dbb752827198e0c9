-- ===== src/Interp/Sound/Tests.antt =====
-- Runs of checked functions, and the examples of the theorem.
use wasm_trustzone.Base.{ℕ, ◌≡◌, refl, Bool, true, false, none, some, List, [], ◌∷◌}
use wasm_trustzone.Loader.Outcome.{ok}
use wasm_trustzone.Loader.Stack.Spec.{i32, i64}
use wasm_trustzone.Loader.Locals.{
  cell_num, init_function, get_local_type_and_offset, within, local_at, with_offset, fast_byte,
  is_narrow, local_offsets_from, wasm_get_cell_num, wasm_value_type_cell_num,
}
use wasm_trustzone.Loader.Body.{
  prepare_leaf, obtained, begin_function, check_code, check_instr, check_local, retype, pop_all,
  push_all, check_drop, end_block, ret_type, top_is_narrow, numeric_types, conversion_types,
}
use wasm_trustzone.Interp.Frame.{
  done, trap, wild, integer_divide_by_zero, take_one, take_two, pop_value, put_one, put_two,
  push_value, read_local, write_local,
}
use wasm_trustzone.Interp.Exec.{
  ret_cell_num, call_leaf, run, exec_instr, exec_select, moved, get_local, set_local, tee_local,
  at_byte, call_frame, return_cells,
}
use wasm_trustzone.Interp.Exec.Arithmetic.{
  Floats, Platform, def_op_unary, def_op_binary, def_op_convert, exec_conversion, exec_numeric,
}
use wasm_trustzone.Loader.Stack.{
  wasm_loader_ctx_init, wasm_loader_push_frame_csp, check_csp_push, put_block,
  wasm_loader_pop_frame_csp, wasm_loader_pop_frame_ref, wasm_loader_push_frame_ref, push_cell,
  check_stack_push, put_cell, cell_at, check_stack_pop, drop_cell,
}
use wasm_trustzone.Interp.Integers.{int_binary, signed, bits, overflows}
use wasm_trustzone.Opcode.{
  int_add, int_div_u, i64_extend_s_i32, i32_binary, i64_binary, conversion, Instr, op_drop,
  op_drop_64, op_get_local, op_tee_local, op_get_local_fast, op_tee_local_fast, op_i32_const,
  op_numeric,
}

abbrev no_floats : Floats
no_floats = record {
  isnan = λ v. false;
  signbit = λ v. false;
  negated = λ v. v;
  fabs = λ v. v;
  ceil = λ v. v;
  floor = λ v. v;
  trunc = λ v. v;
  rint = λ v. v;
  sqrt = λ v. v;
  plus = λ a b. a;
  minus = λ a b. a;
  times = λ a b. a;
  divided = λ a b. a;
  fmin = λ a b. a;
  fmax = λ a b. a;
  equal = λ a b. false;
  less = λ a b. false;
  at_most = λ a b. false;
}

abbrev integers_only : Platform
integers_only = record {
  single = no_floats;
  double = no_floats;
  min_cond = λ c v. false;
  max_cond = λ c v. false;
  cast = λ c v. v;
}

-- `(func (param i32 i64) (result i64) ...)`: the sum of the second parameter and a wide local that is
-- set from the first, over a value that is left behind.
abbrev sum_code : List Instr
sum_code =
    op_get_local 0
    ∷ op_numeric (conversion i64_extend_s_i32)
    ∷ op_tee_local 2
    ∷ op_drop
    ∷ op_get_local 2
    ∷ op_get_local 1
    ∷ op_numeric (i64_binary int_add)
    ∷ []

abbrev sum_left : List Instr
sum_left =
    op_get_local_fast 0
    ∷ op_numeric (conversion i64_extend_s_i32)
    ∷ op_tee_local_fast 0x83
    ∷ op_drop_64
    ∷ op_get_local_fast 0x83
    ∷ op_get_local_fast 0x81
    ∷ op_numeric (i64_binary int_add)
    ∷ []

abbrev granted : ℕ → Bool
granted n = true

-- -2 + 5.
sum_called :
    call_leaf integers_only
      (init_function (i32 ∷ i64 ∷ []) (i64 ∷ []))
      (some i64)
      sum_left
      4
      (0xfffffffe ∷ 5 ∷ 0 ∷ [])
    ≡ done (0 ∷ 3 ∷ [])
unfolding call_leaf run exec_instr exec_select moved get_local set_local tee_local at_byte
    call_frame return_cells ret_cell_num take_one take_two pop_value put_one put_two push_value
    read_local write_local def_op_unary def_op_binary def_op_convert exec_conversion exec_numeric
    int_binary signed bits overflows get_local_type_and_offset init_function within local_at
    with_offset fast_byte is_narrow local_offsets_from wasm_get_cell_num wasm_value_type_cell_num
    cell_num
sum_called = refl

abbrev quotient_code : List Instr
quotient_code = op_get_local_fast 0 ∷ op_i32_const 0 ∷ op_numeric (i32_binary int_div_u) ∷ []

by_zero :
    call_leaf integers_only (init_function (i32 ∷ []) []) (some i32) quotient_code 2 (9 ∷ [])
    ≡ trap integer_divide_by_zero
unfolding call_leaf run exec_instr exec_select moved get_local set_local tee_local at_byte
    call_frame return_cells ret_cell_num take_one take_two pop_value put_one put_two push_value
    read_local write_local def_op_unary def_op_binary def_op_convert exec_conversion exec_numeric
    int_binary signed bits overflows get_local_type_and_offset init_function within local_at
    with_offset fast_byte is_narrow local_offsets_from wasm_get_cell_num wasm_value_type_cell_num
    cell_num
by_zero = refl

-- An opcode of the loader's own in a module is accepted over a narrow value, which it overruns.
overrun_accepted :
    prepare_leaf true granted (init_function [] []) none 7 (op_i32_const 5 ∷ op_drop_64 ∷ [])
    ≡ ok (op_i32_const 5 ∷ op_drop_64 ∷ [], 1)
unfolding prepare_leaf obtained begin_function check_code check_instr check_local retype pop_all
    push_all check_drop end_block ret_type top_is_narrow numeric_types conversion_types
    wasm_loader_ctx_init wasm_loader_push_frame_csp check_csp_push put_block
    wasm_loader_pop_frame_csp wasm_loader_pop_frame_ref wasm_loader_push_frame_ref push_cell
    check_stack_push put_cell cell_at check_stack_pop drop_cell get_local_type_and_offset
    init_function within local_at with_offset fast_byte is_narrow local_offsets_from
    wasm_get_cell_num wasm_value_type_cell_num cell_num
overrun_accepted = refl

overrun_wild :
    call_leaf integers_only (init_function [] []) none (op_i32_const 5 ∷ op_drop_64 ∷ []) 1 []
    ≡ wild
unfolding call_leaf run exec_instr exec_select moved get_local set_local tee_local at_byte
    call_frame return_cells ret_cell_num take_one take_two pop_value put_one put_two push_value
    read_local write_local get_local_type_and_offset init_function within local_at with_offset
    fast_byte is_narrow local_offsets_from wasm_get_cell_num wasm_value_type_cell_num cell_num
overrun_wild = refl
