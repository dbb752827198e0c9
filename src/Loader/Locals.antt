-- ===== src/Loader/Locals.antt =====
-- The locals of a function: the counts of cells and the offsets that `load_function_section` of
-- core/iwasm/interpreter/wasm_loader.c sets, with `init_function_local_offsets`, where there is room
-- for its table, and the functions on types of core/iwasm/interpreter/wasm.h.
use wasm_trustzone.Base.{
  ℕ, ◌+◌, ◌-◌, ◌%◌, ◌^◌, Bool, true, false, List, [], ◌∷◌, ◌++◌, Option, none, some, ltb, leb,
  if◌then◌else◌, length, get_elem?, get_or,
}
use wasm_trustzone.Loader.Outcome.{Outcome, ok, err, local_index_out_of_range, below_bottom}
use wasm_trustzone.Loader.Stack.Spec.{ValueType, i32, i64, f32, f64}

unfoldable pub wasm_value_type_cell_num : ValueType → ℕ
wasm_value_type_cell_num i32 = 1
wasm_value_type_cell_num f32 = 1
wasm_value_type_cell_num i64 = 2
wasm_value_type_cell_num f64 = 2

unfoldable pub cell_num : List ValueType → ℕ
cell_num [] = 0
cell_num (t ∷ ts) = wasm_value_type_cell_num t + cell_num ts

-- The sum is kept in 32 bits and returned in 16.
unfoldable pub wasm_get_cell_num : List ValueType → ℕ
wasm_get_cell_num ts = cell_num ts % 2 ^ 32 % 2 ^ 16

unfoldable pub local_offsets_from : ℕ → List ValueType → List ℕ
local_offsets_from local_offset [] = []
local_offsets_from local_offset (t ∷ ts) =
    local_offset % 2 ^ 16
    ∷ local_offsets_from ((local_offset + wasm_value_type_cell_num t) % 2 ^ 32) ts

-- `WASMFunction`, with the parameters of its type.
pub record Function : Type 0 where
  pub param_types : List ValueType
  pub local_types : List ValueType
  pub param_cell_num : ℕ
  pub local_cell_num : ℕ
  pub local_offsets : List ℕ

unfoldable pub init_function : List ValueType → List ValueType → Function
init_function params locals = record {
  param_types = params;
  local_types = locals;
  param_cell_num = wasm_get_cell_num params;
  local_cell_num = wasm_get_cell_num locals;
  local_offsets = local_offsets_from 0 (params ++ locals);
}

unfoldable pub with_offset : Option ValueType → ℕ → Option (ValueType × ℕ)
with_offset none local_offset = none
with_offset (some t) local_offset = some (t, local_offset)

-- A local: its type, and the offset of its first cell.
unfoldable pub local_at : Function → ℕ → Option (ValueType × ℕ)
local_at func local_idx =
    with_offset
      (if ltb local_idx (length func.param_types)
        then get_elem? func.param_types local_idx
        else get_elem? func.local_types (local_idx - length func.param_types))
      (get_or func.local_offsets local_idx 0)

-- A read of an array that it must not leave.
unfoldable pub within : Option (ValueType × ℕ) → Outcome (ValueType × ℕ)
within none = err below_bottom
within (some l) = ok l

-- `GET_LOCAL_INDEX_TYPE_AND_OFFSET`, for an index that has been read.
unfoldable pub get_local_type_and_offset : Function → ℕ → Outcome (ValueType × ℕ)
get_local_type_and_offset func local_idx =
    if leb (length func.param_types + length func.local_types) local_idx
    then err local_index_out_of_range
    else within (local_at func local_idx)

unfoldable pub is_narrow : ValueType → Bool
is_narrow i32 = true
is_narrow f32 = true
is_narrow i64 = false
is_narrow f64 = false

-- The byte behind a fast opcode: the offset, and in its top bit that the local has two cells.
unfoldable pub fast_byte : ValueType → ℕ → ℕ
fast_byte t local_offset = if is_narrow t then local_offset else local_offset + 0x80
