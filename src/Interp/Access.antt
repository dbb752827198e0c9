-- ===== src/Interp/Access.antt =====
-- The address of a load or a store: `CHECK_MEMORY_OVERFLOW` of
-- core/iwasm/interpreter/wasm_interp_classic.c, with the table `LOAD_SIZE`, in an instance that has a
-- memory.
pub mod Inside
mod Tests
use wasm_trustzone.Base.{
  ℕ, ◌+◌, ◌-◌, ◌*◌, ◌%◌, ◌^◌, List, [], ◌∷◌, Option, none, some, leb, if◌then◌else◌, get_or,
}
use wasm_trustzone.Base.Int.{ℤ, pos, negsuc, ◌-ℤ◌}
use wasm_trustzone.Memory.{MemoryInstance}
use wasm_trustzone.Memory.Instantiate.{int32}
use wasm_trustzone.Memory.Address.{offset_by}

abbrev pub wasm_op_i32_load : ℕ
wasm_op_i32_load = 0x28

abbrev pub load_sizes : List ℕ
load_sizes =
    4 ∷ 8 ∷ 4 ∷ 8 ∷ 1 ∷ 1 ∷ 2 ∷ 2 ∷ 1 ∷ 1 ∷ 2 ∷ 2 ∷ 4 ∷ 4 ∷ 4 ∷ 8 ∷ 4 ∷ 8 ∷ 1 ∷ 2 ∷ 1 ∷ 2 ∷ 4 ∷ []

-- Of the opcodes from `i32.load` to `i64.store32`.
unfoldable pub load_size : ℕ → ℕ
load_size opcode = get_or load_sizes (opcode - wasm_op_i32_load) 0

-- `(uint32)a`
unfoldable pub uint32 : ℤ → ℕ
uint32 (pos n) = n % 2 ^ 32
uint32 (negsuc n) = 2 ^ 32 - 1 - n % 2 ^ 32

unfoldable pub total_mem_size : MemoryInstance → ℕ
total_mem_size m =
    uint32 (pos (m.num_bytes_per_page * m.cur_page_count % 2 ^ 32) -ℤ m.heap_base_offset)

-- `maddr`, or `none` where the access is out of bounds.
unfoldable pub check_memory_overflow : MemoryInstance → ℕ → ℕ → ℕ → Option ℕ
check_memory_overflow m opcode offset addr =
    let offset1 = int32 (offset + addr) in
    let offset2 = uint32 (offset1 -ℤ m.heap_base_offset) in
    if leb (offset2 + load_size opcode) (total_mem_size m)
    then some (offset_by m.memory_data offset1)
    else none
