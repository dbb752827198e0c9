-- ===== src/Memory/Address.antt =====
-- The addresses of an application and those of the runtime: `wasm_validate_app_addr` to
-- `wasm_get_native_addr_range` of core/iwasm/interpreter/wasm_runtime.c. An app offset is an integer
-- of 32 bits, whose sums wrap around; a pointer has 64 bits.
pub mod Bounds
pub mod Conversion
use wasm_trustzone.Base.{
  ℕ, ◌+◌, ◌-◌, ◌*◌, ◌%◌, ◌^◌, Bool, true, false, not, ◌&&◌, ◌||◌, Option, none, some, ltb, leb,
  if◌then◌else◌,
}
use wasm_trustzone.Base.Int.{ℤ, pos, negsuc, pos_part, neg_part, sub_ℕ, ◌+ℤ◌, ◌-ℤ◌, ltb_ℤ}
use wasm_trustzone.Memory.{MemoryInstance}
use wasm_trustzone.Memory.Instantiate.{int32}

unfoldable pub memory_data_size : MemoryInstance → ℤ
memory_data_size m = int32 (m.num_bytes_per_page * m.cur_page_count)

-- A sum of two integers of 32 bits.
unfoldable pub wrap : ℤ → ℤ
wrap a =
    if not (ltb_ℤ a (pos (2 ^ 31)))
    then a -ℤ pos (2 ^ 32)
    else if ltb_ℤ a (negsuc (2 ^ 31 - 1))
    then a +ℤ pos (2 ^ 32)
    else a

unfoldable pub wasm_validate_app_addr : MemoryInstance → ℤ → ℕ → Bool
wasm_validate_app_addr m app_offset size =
    let end = wrap (app_offset +ℤ int32 size) in
    if ltb_ℤ end app_offset
    then false
    else if not (ltb_ℤ m.heap_base_offset app_offset) || ltb_ℤ (memory_data_size m) end
    then false
    else true

-- `pointer + offset`
unfoldable pub offset_by : ℕ → ℤ → ℕ
offset_by pointer offset = pointer + pos_part offset - neg_part offset

unfoldable pub wasm_validate_native_addr : MemoryInstance → ℕ → ℕ → Bool
wasm_validate_native_addr m addr size =
    let end = (addr + size) % 2 ^ 64 in
    if ltb end addr
    then false
    else if leb addr m.heap_data || ltb (offset_by m.memory_data (memory_data_size m)) end
    then false
    else true

-- `none` is NULL.
unfoldable pub wasm_addr_app_to_native : MemoryInstance → ℤ → Option ℕ
wasm_addr_app_to_native m app_offset =
    if ltb_ℤ m.heap_base_offset app_offset && ltb_ℤ app_offset (memory_data_size m)
    then some (offset_by m.memory_data app_offset)
    else none

unfoldable pub wasm_addr_native_to_app : MemoryInstance → ℕ → ℤ
wasm_addr_native_to_app m addr =
    if ltb m.heap_data addr && ltb addr (offset_by m.memory_data (memory_data_size m))
    then sub_ℕ addr m.memory_data
    else pos 0

-- The two ends, where the result is `true`.
pub record Range {ℓ} (A : Type ℓ) : Type ℓ where
  pub start : A
  pub end : A

unfoldable pub wasm_get_app_addr_range : MemoryInstance → ℤ → Option (Range ℤ)
wasm_get_app_addr_range m app_offset =
    if ltb_ℤ m.heap_base_offset app_offset && ltb_ℤ app_offset (memory_data_size m)
    then some (record { start = m.heap_base_offset; end = memory_data_size m })
    else none

unfoldable pub wasm_get_native_addr_range : MemoryInstance → ℕ → Option (Range ℕ)
wasm_get_native_addr_range m addr =
    if ltb m.heap_data addr && ltb addr (offset_by m.memory_data (memory_data_size m))
    then some (record { start = m.heap_data; end = offset_by m.memory_data (memory_data_size m) })
    else none
