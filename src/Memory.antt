-- ===== src/Memory.antt =====
-- The linear memory of an instance: core/iwasm/interpreter/wasm_runtime.c and wasm_runtime.h, and
-- core/iwasm/common/wasm_memory.c. A pointer is a number. What the allocators of the platform give
-- is a parameter: `header` is the offset of `base_addr` in the structure.
pub mod Poison
pub mod Instantiate
pub mod Enlarge
pub mod Address
pub mod Usage
mod Tests
use wasm_trustzone.Base.{ℕ, ◌+◌, ◌-◌, ◌*◌, ◌^◌, ◌≤◌, ◌<◌, ◌≡◌, List, length}
use wasm_trustzone.Base.Int.{ℤ}

-- `self` is the address of the structure, `bytes` what stands from `base_addr` on.
pub record MemoryInstance : Type 0 where
  pub self : ℕ
  pub num_bytes_per_page : ℕ
  pub cur_page_count : ℕ
  pub max_page_count : ℕ
  pub heap_base_offset : ℤ
  pub heap_data : ℕ
  pub heap_handle : ℕ
  pub memory_data : ℕ
  pub global_data : ℕ
  pub global_data_size : ℕ
  pub end_addr : ℕ
  pub total_size : ℕ
  pub bytes : List ℕ

-- The heap, the pages and the globals follow one another behind the header and fill the block, whose
-- size is a number of 32 bits; the heap has `heap_size` bytes.
unfoldable pub IsMemory : ℕ → ℕ → MemoryInstance → Type 0
IsMemory header heap_size m =
    (m.heap_data ≡ m.self + header)
    × ((m.memory_data ≡ m.heap_data + heap_size)
        × ((m.global_data ≡ m.memory_data + m.num_bytes_per_page * m.cur_page_count)
            × ((m.end_addr ≡ m.global_data + m.global_data_size)
                × ((m.end_addr ≡ m.self + m.total_size)
                    × ((m.total_size ≡ header + length m.bytes)
                        × ((m.total_size < 2 ^ 32 - 1) × (m.cur_page_count ≤ m.max_page_count)))))))
