-- ===== src/Interp/Access/Tests.antt =====
-- Accesses to a memory of one page of 16 bytes, behind a heap of 8.
use wasm_trustzone.Base.{◌≡◌, refl, none, some, replicate}
use wasm_trustzone.Base.Int.{pos, ◌-ℤ◌}
use wasm_trustzone.Memory.{MemoryInstance}
use wasm_trustzone.Interp.Access.{load_size, check_memory_overflow, uint32, total_mem_size}
use wasm_trustzone.Memory.Instantiate.{int32}
use wasm_trustzone.Memory.Address.{offset_by}

abbrev one_page : MemoryInstance
one_page = record {
  self = 4096;
  num_bytes_per_page = 16;
  cur_page_count = 1;
  max_page_count = 1;
  heap_base_offset = pos 0 -ℤ pos 8;
  heap_data = 4160;
  heap_handle = 4160;
  memory_data = 4168;
  global_data = 4184;
  global_data_size = 0;
  end_addr = 4184;
  total_size = 88;
  bytes = replicate 24 0;
}

-- `i32.load` of the last four bytes, of four bytes that begin one later, and of the first four bytes
-- of the heap, at -8.
last_bytes : check_memory_overflow one_page 0x28 8 4 ≡ some 4180
unfolding check_memory_overflow uint32 ◌-ℤ◌ int32 load_size total_mem_size offset_by
last_bytes = refl

too_far : check_memory_overflow one_page 0x28 8 5 ≡ none
unfolding check_memory_overflow uint32 ◌-ℤ◌ int32 load_size total_mem_size
too_far = refl

-- 49,152 pages of 64 KiB: the address 2 ^ 31 passes the test, and lies 2 ^ 31 bytes before the pages.
abbrev three_gib : MemoryInstance
three_gib = record one_page {
  num_bytes_per_page = 65536;
  cur_page_count = 49152;
  max_page_count = 49152;
  heap_base_offset = pos 0 -ℤ pos 0;
  memory_data = 0x200000000;
}

escaped : check_memory_overflow three_gib 0x28 0 0x80000000 ≡ some 0x180000000
unfolding check_memory_overflow uint32 ◌-ℤ◌ int32 load_size total_mem_size offset_by
escaped = refl
