-- ===== src/Loader/Body/Typing.antt =====
-- The types of an instruction, apart from the contexts of the loader: which instruction the loader
-- leaves in its place, and what it makes of a stack of value types.
use wasm_trustzone.Base.{
  ℕ, ◌≤◌, ◌≡◌, Bool, true, false, ◌&&◌, List, [], ◌∷◌, ◌++◌, Option, none, some, ltb, if◌then◌else◌,
  length,
}
use wasm_trustzone.Loader.Stack.Spec.{ValueType, i32, i64, f32, f64, cells}
use wasm_trustzone.Loader.Locals.{Function, local_at, is_narrow, fast_byte}
use wasm_trustzone.Loader.Body.Signature.{signature, operands, result}
use wasm_trustzone.Opcode.{
  Instr, op_nop, op_drop, op_drop_64, op_select, op_select_64, op_get_local, op_set_local,
  op_tee_local, op_get_local_fast, op_set_local_fast, op_tee_local_fast, op_i32_const, op_i64_const,
  op_f32_const, op_f64_const, op_numeric,
}

-- From the first stack to the second.
unfoldable pub Retypes : List ValueType → List ValueType → List ValueType → List ValueType → Type 0
Retypes popped pushed ts us =
    (rest : List ValueType) × (ts ≡ popped ++ rest) × (us ≡ pushed ++ rest)

-- A local that an instruction names, and the instruction that is left.
unfoldable pub LeavesLocal : Function → ℕ → Instr → (ℕ → Instr) → Instr → ValueType → Type 0
LeavesLocal func n opcode fast left t =
    (offset : ℕ) × (local_at func n ≡ some (t, offset))
    × (left ≡ (if ltb offset 0x80 then fast (fast_byte t offset) else opcode))

-- Of the opcodes of the specification: the others have no types.
unfoldable pub Typing : Function → Instr → Instr → List ValueType → List ValueType → Type 0
Typing func op_nop left ts us = (left ≡ op_nop) × (ts ≡ us)
Typing func op_drop left ts us =
    (t : ValueType) × (left ≡ (if is_narrow t then op_drop else op_drop_64)) × (ts ≡ t ∷ us)
Typing func op_select left ts us =
    (t : ValueType) × (left ≡ (if is_narrow t then op_select else op_select_64))
    × Retypes (i32 ∷ t ∷ t ∷ []) (t ∷ []) ts us
Typing func (op_get_local n) left ts us =
    (t : ValueType) × LeavesLocal func n (op_get_local n) op_get_local_fast left t
    × Retypes [] (t ∷ []) ts us
Typing func (op_set_local n) left ts us =
    (t : ValueType) × LeavesLocal func n (op_set_local n) op_set_local_fast left t
    × Retypes (t ∷ []) [] ts us
Typing func (op_tee_local n) left ts us =
    (t : ValueType) × LeavesLocal func n (op_tee_local n) op_tee_local_fast left t
    × Retypes (t ∷ []) (t ∷ []) ts us
Typing func (op_i32_const c) left ts us = (left ≡ op_i32_const c) × Retypes [] (i32 ∷ []) ts us
Typing func (op_i64_const c) left ts us = (left ≡ op_i64_const c) × Retypes [] (i64 ∷ []) ts us
Typing func (op_f32_const c) left ts us = (left ≡ op_f32_const c) × Retypes [] (f32 ∷ []) ts us
Typing func (op_f64_const c) left ts us = (left ≡ op_f64_const c) × Retypes [] (f64 ∷ []) ts us
Typing func (op_numeric op) left ts us =
    (left ≡ op_numeric op) × Retypes (operands (signature op)) (result (signature op) ∷ []) ts us
Typing func op_drop_64 left ts us = ⊥
Typing func op_select_64 left ts us = ⊥
Typing func (op_get_local_fast b) left ts us = ⊥
Typing func (op_set_local_fast b) left ts us = ⊥
Typing func (op_tee_local_fast b) left ts us = ⊥

-- The opcode is one of the specification.
unfoldable pub is_standard : Instr → Bool
is_standard op_nop = true
is_standard op_drop = true
is_standard op_select = true
is_standard (op_get_local n) = true
is_standard (op_set_local n) = true
is_standard (op_tee_local n) = true
is_standard (op_i32_const c) = true
is_standard (op_i64_const c) = true
is_standard (op_f32_const c) = true
is_standard (op_f64_const c) = true
is_standard (op_numeric op) = true
is_standard op_drop_64 = false
is_standard op_select_64 = false
is_standard (op_get_local_fast b) = false
is_standard (op_set_local_fast b) = false
is_standard (op_tee_local_fast b) = false

unfoldable pub all_standard : List Instr → Bool
all_standard [] = true
all_standard (i ∷ is) = is_standard i && all_standard is

-- The code that is left for some code, with the types of each instruction: in between, the values take
-- at most so many cells.
unfoldable pub CodeTyping :
    Function → ℕ → List Instr → List Instr → List ValueType → List ValueType → Type 0
CodeTyping func room [] left ts us = (left ≡ []) × (ts ≡ us)
CodeTyping func room (i ∷ is) left ts us =
    (j : Instr) × (js : List Instr) × (mid : List ValueType) × (left ≡ j ∷ js)
    × Typing func i j ts mid
    × (length (cells mid) ≤ room)
    × CodeTyping func room is js mid us

-- The result is on top.
unfoldable pub EndsWith : Option ValueType → List ValueType → Type 0
EndsWith none us = Unit
EndsWith (some t) us = (rest : List ValueType) × (us ≡ t ∷ rest)
