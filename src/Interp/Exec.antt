-- ===== src/Interp/Exec.antt =====
-- The handlers of core/iwasm/interpreter/wasm_interp_classic.c for the instructions that neither
-- branch nor call nor use a global or the memory. The floating point arithmetic is that of the
-- platform.
pub mod Arithmetic
use wasm_trustzone.Base.{
  ℕ, ◌+◌, ◌-◌, ◌*◌, ◌/◌, ◌%◌, ◌^◌, bit_and, bit_or, Bool, true, false, not, ◌&&◌, ◌||◌, List, [],
  ◌∷◌, Option, none, some, ltb, leb, ◌==◌, if◌then◌else◌, length, take, replicate, ◌++◌,
}
use wasm_trustzone.Loader.Stack.Spec.{ValueType, i32, i64, f32, f64}
use wasm_trustzone.Loader.Locals.{Function, local_at, is_narrow, wasm_get_cell_num}
use wasm_trustzone.Interp.Frame.{
  Frame, Step, done, trap, wild, ◌>>=◌, invalid_conversion_to_integer, integer_overflow, pop_value,
  push_value, read_local, write_local,
}
use wasm_trustzone.Interp.Exec.Arithmetic.{Platform, exec_numeric}
use wasm_trustzone.Opcode.{
  Instr, op_nop, op_drop, op_drop_64, op_select, op_select_64, op_get_local, op_set_local,
  op_tee_local, op_get_local_fast, op_set_local_fast, op_tee_local_fast, op_i32_const, op_i64_const,
  op_f32_const, op_f64_const, op_numeric,
}

-- `WASM_OP_SELECT` and `WASM_OP_SELECT_64`: the condition, the second value and the first.
unfoldable pub exec_select : ValueType → Frame → Step Frame
exec_select t f = do
  cond ← pop_value i32 f
  second ← pop_value t cond.1
  first ← pop_value t second.1
  push_value t (if cond.0 == 0 then second.0 else first.0) first.1

-- The type that a cell, or two, are moved with.
unfoldable pub moved : Bool → ValueType
moved narrow = if narrow then i32 else i64

unfoldable pub get_local : Bool → ℕ → Frame → Step Frame
get_local narrow offset f = do v ← read_local narrow offset f; push_value (moved narrow) v f

unfoldable pub set_local : Bool → ℕ → Frame → Step Frame
set_local narrow offset f = do p ← pop_value (moved narrow) f; write_local narrow offset p.0 p.1

-- The value stays where it is.
unfoldable pub tee_local : Bool → ℕ → Frame → Step Frame
tee_local narrow offset f = do p ← pop_value (moved narrow) f; write_local narrow offset p.0 f

-- `GET_LOCAL_INDEX_TYPE_AND_OFFSET` and the switch over the type.
unfoldable pub at_local :
    Option (ValueType × ℕ) → (Bool → ℕ → Frame → Step Frame) → Frame → Step Frame
at_local none handler f = wild
at_local (some l) handler f = handler (is_narrow l.0) l.1 f

-- The byte behind a fast opcode: `local_offset & 0x80` and `local_offset & 0x7F`.
unfoldable pub at_byte : ℕ → (Bool → ℕ → Frame → Step Frame) → Frame → Step Frame
at_byte b handler f =
    if bit_and b 0x80 == 0 then handler true b f else handler false (bit_and b 0x7f) f

unfoldable pub exec_instr : Platform → Function → Instr → Frame → Step Frame
exec_instr platform func op_nop f = done f
exec_instr platform func op_drop f = do p ← pop_value i32 f; done p.1
exec_instr platform func op_drop_64 f = do p ← pop_value i64 f; done p.1
exec_instr platform func op_select f = exec_select i32 f
exec_instr platform func op_select_64 f = exec_select i64 f
exec_instr platform func (op_get_local n) f = at_local (local_at func n) get_local f
exec_instr platform func (op_set_local n) f = at_local (local_at func n) set_local f
exec_instr platform func (op_tee_local n) f = at_local (local_at func n) tee_local f
exec_instr platform func (op_get_local_fast b) f = at_byte b get_local f
exec_instr platform func (op_set_local_fast b) f = at_byte b set_local f
exec_instr platform func (op_tee_local_fast b) f = at_byte b tee_local f
exec_instr platform func (op_i32_const c) f = push_value i32 c f
exec_instr platform func (op_i64_const c) f = push_value i64 c f
exec_instr platform func (op_f32_const c) f = push_value f32 c f
exec_instr platform func (op_f64_const c) f = push_value f64 c f
exec_instr platform func (op_numeric op) f = exec_numeric platform op f

-- The dispatch loop, along code without branches.
unfoldable pub run : Platform → Function → List Instr → Frame → Step Frame
run platform func [] f = done f
run platform func (i ∷ is) f = do next ← exec_instr platform func i f; run platform func is next

unfoldable pub ret_cell_num : Option ValueType → ℕ
ret_cell_num none = 0
ret_cell_num (some t) = wasm_get_cell_num (t ∷ [])

-- The frame of a call: the arguments, the other locals set to zero, and no operands.
unfoldable pub call_frame : Function → ℕ → List ℕ → Frame
call_frame func max_stack_cell_num args = record {
  lp = args ++ replicate func.local_cell_num 0;
  stack = [];
  sp_boundary = max_stack_cell_num;
}

-- `WASM_OP_END` of a function: the cells that go to the caller, the top first.
unfoldable pub return_cells : ℕ → Frame → Step (List ℕ)
return_cells n f = if leb n (length f.stack) then done (take n f.stack) else wild

-- A call of a function without branches and calls, in a frame that could be allocated.
unfoldable pub call_leaf :
    Platform → Function → Option ValueType → List Instr → ℕ → List ℕ → Step (List ℕ)
call_leaf platform func ret code max_stack_cell_num args = do
  f ← run platform func code (call_frame func max_stack_cell_num args)
  return_cells (ret_cell_num ret) f
