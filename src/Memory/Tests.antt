-- ===== src/Memory/Tests.antt =====
-- Memories on concrete numbers.
use wasm_trustzone.Base.{ℕ, ◌*◌, ◌≡◌, refl, true, not, ◌&&◌, List, [], ◌∷◌, ◌++◌, some, arith}
use wasm_trustzone.Base.Int.{pos, ◌+ℤ◌, ◌-ℤ◌, ltb_ℤ}
use wasm_trustzone.Aerogel.CString.{strstr, starts_with}
use wasm_trustzone.Memory.{MemoryInstance, IsMemory}
use wasm_trustzone.Memory.Instantiate.{Platform, int32, memory_instantiate}
use wasm_trustzone.Memory.Instantiate.Layout.{memory_instantiate-no_peripherals}
use wasm_trustzone.Memory.Poison.{
  aerogel_check_peripheral_address, aerogel_wasm_safe_allocation, safe_search,
}
use wasm_trustzone.Memory.Enlarge.{ModuleInstance, wasm_enlarge_memory, refused}
use wasm_trustzone.Memory.Enlarge.Settle.{Holds}
use wasm_trustzone.Memory.Enlarge.Layout.{Gives}
use wasm_trustzone.Memory.Enlarge.Once.{wasm_enlarge_memory-once}
use wasm_trustzone.Memory.Address.{
  wasm_validate_app_addr, wasm_addr_app_to_native, wasm_addr_native_to_app, memory_data_size,
  offset_by,
}
use wasm_trustzone.Memory.Address.Bounds.{wasm_validate_app_addr-inside}
use wasm_trustzone.Memory.Address.Conversion.{HasHeap, wasm_addr_native_to_app-app_to_native}

-- A header of 64 bytes, and blocks at 4096.
abbrev platform : Platform
platform = record {
  header = 64;
  pool = true;
  malloc = λ size. some 4096;
  realloc = λ block size. some 4096;
  heap_create = λ heap_data size. some heap_data;
  heap_migrate = λ heap_handle old. true;
}

-- Pages of 4 bytes, a heap of 2, globals of 1.
abbrev memory : MemoryInstance
memory = record {
  self = 4096;
  num_bytes_per_page = 4;
  cur_page_count = 1;
  max_page_count = 3;
  heap_base_offset = pos 0 -ℤ pos 2;
  heap_data = 4160;
  heap_handle = 4160;
  memory_data = 4162;
  global_data = 4166;
  global_data_size = 1;
  end_addr = 4167;
  total_size = 71;
  bytes = 1 ∷ 2 ∷ 3 ∷ 4 ∷ 5 ∷ 6 ∷ 7 ∷ [];
}

abbrev module_instance : ModuleInstance
module_instance = record { default_memory = memory; memory_consumption = 100 }

abbrev heap_and_page : List ℕ
heap_and_page = 1 ∷ 2 ∷ 3 ∷ 4 ∷ 5 ∷ 6 ∷ []

abbrev globals : List ℕ
globals = 7 ∷ []

memory-Holds : Holds 64 2 heap_and_page globals memory
unfolding Holds IsMemory
memory-Holds =
    ((refl, (refl, (refl, (refl, (refl, (refl, (omega arith, omega arith))))))), (refl, refl))

first_word :
    aerogel_wasm_safe_allocation true (λ block size. some block) (5000 ∷ []) 4096 16 ≡ some 4100
unfolding aerogel_wasm_safe_allocation safe_search aerogel_check_peripheral_address
first_word = refl

memory_instantiate-no_peripherals_example :
    memory_instantiate platform (4100 ∷ []) 4 1 3 1 2 ≡ memory_instantiate platform [] 4 1 3 1 2
memory_instantiate-no_peripherals_example =
    memory_instantiate-no_peripherals platform (4100 ∷ []) 4 1 3 1 2

wasm_enlarge_memory-once_example :
    Gives
      (λ new. wasm_enlarge_memory platform [] new 1 ≡ refused)
      (wasm_enlarge_memory platform [] module_instance 1)
wasm_enlarge_memory-once_example =
    wasm_enlarge_memory-once platform platform [] [] module_instance 2 1 1 heap_and_page globals
      memory-Holds (omega arith) (omega arith) (omega arith) (omega arith) (omega arith)
      (omega arith) (omega arith) (omega arith) refl

wasm_validate_app_addr-inside_example :
    wasm_validate_app_addr memory (pos 1) 3
    ≡ (ltb_ℤ (pos 0 -ℤ pos 2) (pos 1) && not (ltb_ℤ (pos (4 * 1)) (pos 1 +ℤ pos 3)))
wasm_validate_app_addr-inside_example =
    wasm_validate_app_addr-inside memory (pos 1) 3 (omega arith) (omega arith) (omega arith)
      (omega arith)

memory-HasHeap : HasHeap 2 memory
unfolding HasHeap
memory-HasHeap = (refl, (refl, omega arith))

pointer : wasm_addr_app_to_native memory (pos 1) ≡ some 4163
unfolding wasm_addr_app_to_native ◌-ℤ◌ memory_data_size int32 offset_by
pointer = refl

wasm_addr_native_to_app-app_to_native_example : wasm_addr_native_to_app memory 4163 ≡ pos 1
wasm_addr_native_to_app-app_to_native_example =
    wasm_addr_native_to_app-app_to_native memory 2 (pos 1) 4163 memory-HasHeap pointer

second_line : strstr (b'a' ∷ b'\n' ∷ [] ++ b'b' ∷ []) (b'b' ∷ []) ≡ some (b'b' ∷ [])
unfolding strstr starts_with
second_line = refl
