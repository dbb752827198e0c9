-- ===== src/Memory/Instantiate.antt =====
-- `memory_instantiate` of core/iwasm/interpreter/wasm_runtime.c, as compiled with EVAL_NO_AEROGEL 0
-- and WASM_ENABLE_SPEC_TEST 0. The arguments are numbers of 32 bits.
pub mod Layout
use wasm_trustzone.Base.{
  ℕ, ◌+◌, ◌-◌, ◌*◌, ◌%◌, ◌^◌, Bool, true, false, List, [], ◌∷◌, Option, none, some, ltb, leb,
  if◌then◌else◌, replicate,
}
use wasm_trustzone.Base.Int.{ℤ, pos, negsuc, ◌-ℤ◌}
use wasm_trustzone.Memory.{MemoryInstance}
use wasm_trustzone.Memory.Poison.{check_illegal_memory_boundary, aerogel_wasm_safe_allocation}

-- `(int32)n`
unfoldable pub int32 : ℕ → ℤ
int32 n = if ltb (n % 2 ^ 32) (2 ^ 31) then pos (n % 2 ^ 32) else negsuc (2 ^ 32 - n % 2 ^ 32 - 1)

-- What the platform and the rest of the runtime provide.
pub record Platform : Type 0 where
  pub header : ℕ
  pub pool : Bool
  pub malloc : ℕ → Option ℕ
  pub realloc : ℕ → ℕ → Option ℕ
  pub heap_create : ℕ → ℕ → Option ℕ
  pub heap_migrate : ℕ → ℕ → Bool

-- A new memory, NULL, or an access through a NULL pointer.
pub data Instantiated : Type 0 where
  instantiated : MemoryInstance → Instantiated
  null : Instantiated
  crashed : Instantiated

-- The structure behind the memset.
unfoldable pub cleared : ℕ → ℕ → ℕ → MemoryInstance
cleared header self total_size = record {
  self = self;
  num_bytes_per_page = 0;
  cur_page_count = 0;
  max_page_count = 0;
  heap_base_offset = pos 0;
  heap_data = 0;
  heap_handle = 0;
  memory_data = 0;
  global_data = 0;
  global_data_size = 0;
  end_addr = 0;
  total_size = total_size % 2 ^ 32;
  bytes = replicate (total_size - header) 0;
}

-- Behind the check of the addresses.
unfoldable pub lay_out : Platform → ℕ → ℕ → ℕ → ℕ → ℕ → MemoryInstance → Instantiated
lay_out platform num_bytes_per_page init_page_count max_page_count global_data_size heap_size m =
    let heap_data = m.self + platform.header in
    let memory_data = heap_data + heap_size in
    let global_data = memory_data + num_bytes_per_page * init_page_count % 2 ^ 32 in
    elim (platform.heap_create heap_data heap_size) [
      | none ↦ null
      | some heap_handle ↦ instantiated (record m {
        num_bytes_per_page = num_bytes_per_page;
        cur_page_count = init_page_count;
        max_page_count = max_page_count;
        heap_base_offset = pos 0 -ℤ int32 heap_size;
        heap_data = heap_data;
        heap_handle = heap_handle;
        memory_data = memory_data;
        global_data = global_data;
        global_data_size = global_data_size;
        end_addr = global_data + global_data_size;
      })
    ]

unfoldable pub memory_instantiate : Platform → List ℕ → ℕ → ℕ → ℕ → ℕ → ℕ → Instantiated
memory_instantiate platform addresses num_bytes_per_page init_page_count max_page_count
      global_data_size heap_size =
    let total_size =
      (platform.header + heap_size + num_bytes_per_page * init_page_count + global_data_size)
      % 2 ^ 64 in
    if leb (2 ^ 32 - 1) total_size then null else elim (platform.malloc total_size) [
      | none ↦ null
      | some self ↦
          let m = cleared platform.header self total_size in
          if check_illegal_memory_boundary platform.header addresses m
          then lay_out platform num_bytes_per_page init_page_count max_page_count global_data_size
              heap_size m
          else elim (aerogel_wasm_safe_allocation platform.pool platform.realloc addresses
              (self + platform.header) total_size) [ none ↦ crashed | some safe_memory ↦ null ]
    ]
