-- ===== src/Memory/Enlarge.antt =====
-- `wasm_enlarge_memory` of core/iwasm/interpreter/wasm_runtime.c, as compiled with EVAL_NO_AEROGEL 0.
-- The lock of the heap has no state here. The copy of the globals is a copy as by `memmove`.
pub mod Contents
pub mod Settle
pub mod Layout
pub mod Once
use wasm_trustzone.Base.{
  ℕ, zero, suc, ◌+◌, ◌-◌, ◌*◌, ◌%◌, ◌^◌, Bool, true, false, not, ◌||◌, List, [], ◌∷◌, ◌++◌, Option,
  none, some, ltb, leb, ◌==◌, if◌then◌else◌, length, take, drop, replicate,
}
use wasm_trustzone.Memory.{MemoryInstance}
use wasm_trustzone.Memory.Poison.{check_illegal_memory_boundary, aerogel_wasm_safe_allocation}
use wasm_trustzone.Memory.Instantiate.{Platform}

-- `default_memory`, and `memory_consumption` of the module's entry in the sheet.
pub record ModuleInstance : Type 0 where
  pub default_memory : MemoryInstance
  pub memory_consumption : ℕ

-- `refused` is `false` with the module as it was; `lost` is `false` after the block has been given
-- to the allocator again, while `default_memory` still is its old address; `crashed` is an access
-- through a NULL pointer.
pub data Enlarged : Type 0 where
  enlarged : ModuleInstance → Enlarged
  refused : Enlarged
  lost : Enlarged
  crashed : Enlarged

-- `memcpy` and `memset` at an offset of a block.
unfoldable pub overwrite : List ℕ → ℕ → List ℕ → List ℕ
overwrite block at new = take at block ++ new ++ drop (at + length new) block

-- The bytes behind the header: the block grows by zeros, the globals are copied behind the new
-- pages and cleared where they stood.
unfoldable pub grown_bytes : List ℕ → ℕ → ℕ → ℕ → ℕ → List ℕ
grown_bytes bytes old_globals new_globals global_data_size grown_by =
    let block = bytes ++ replicate grown_by 0 in
    let globals = take global_data_size (drop old_globals block) in
    overwrite (overwrite block new_globals globals) old_globals (replicate global_data_size 0)

unfoldable pub heap_size_of : MemoryInstance → ℕ
heap_size_of m = (m.memory_data - m.heap_data) % 2 ^ 32

unfoldable pub size_with : Platform → MemoryInstance → ℕ → ℕ
size_with platform m total_page_count =
    (platform.header
      + heap_size_of m
      + m.num_bytes_per_page * total_page_count
      + m.global_data_size)
    % 2 ^ 64

-- Behind the migration of the heap, in the block at `self`.
unfoldable pub settle : Platform → ModuleInstance → ℕ → ℕ → ℕ → ModuleInstance
settle platform g self total_page_count total_size =
    let m = g.default_memory in
    let heap_size = heap_size_of m in
    let heap_data = self + platform.header in
    let memory_data = heap_data + heap_size in
    let old_pages = m.num_bytes_per_page * m.cur_page_count % 2 ^ 32 in
    let new_pages = m.num_bytes_per_page * total_page_count % 2 ^ 32 in
    let total_size_old = (m.end_addr - m.self) % 2 ^ 32 in
    record {
      default_memory = record m {
        self = self;
        cur_page_count = total_page_count;
        heap_data = heap_data;
        heap_handle = m.heap_handle + self - m.self;
        memory_data = memory_data;
        global_data = memory_data + new_pages;
        end_addr = memory_data + new_pages + m.global_data_size;
        total_size = total_size;
        bytes =
            grown_bytes m.bytes (heap_size + old_pages) (heap_size + new_pages) m.global_data_size
              (total_size - total_size_old);
      };
      memory_consumption = total_size;
    }

-- Behind the allocation of the block at `self`, whose header is that of the old block.
unfoldable pub move_to : Platform → List ℕ → ModuleInstance → ℕ → ℕ → ℕ → Enlarged
move_to platform addresses g total_page_count total_size self =
    let m = g.default_memory in
    if not (check_illegal_memory_boundary platform.header addresses (record m { self = self }))
    then elim (aerogel_wasm_safe_allocation platform.pool platform.realloc addresses
        (self + platform.header) total_size) [ none ↦ crashed | some safe_memory ↦ lost ]
    else if platform.heap_migrate (m.heap_handle + self - m.self) m.heap_handle
    then enlarged (settle platform g self total_page_count total_size)
    else lost

unfoldable pub reallocate : Platform → ℕ → ℕ → Option ℕ
reallocate platform self total_size = elim (platform.realloc self total_size) [
  | none ↦ platform.malloc total_size
  | some block ↦ some block
]

-- `heap_migrate` says whether `mem_allocator_migrate` gives 0.
unfoldable pub wasm_enlarge_memory : Platform → List ℕ → ModuleInstance → ℕ → Enlarged
wasm_enlarge_memory platform addresses g inc_page_count =
    let m = g.default_memory in
    let total_page_count = (inc_page_count + m.cur_page_count) % 2 ^ 32 in
    let total_size = size_with platform m total_page_count in
    if inc_page_count == 0
    then enlarged g
    else if ltb g.memory_consumption (total_size % 2 ^ 32)
    then refused
    else if ltb total_page_count m.cur_page_count || ltb m.max_page_count total_page_count
    then refused
    else if leb (2 ^ 32 - 1) total_size
    then refused
    else elim (reallocate platform m.self total_size) [
      | none ↦ refused
      | some self ↦ move_to platform addresses g total_page_count total_size self
    ]
