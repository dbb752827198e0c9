-- ===== src/Interp/Transfer/Tests.antt =====
-- Loads and stores in a memory of one page of 16 bytes, behind a heap of 8.
use wasm_trustzone.Base.{ℕ, ◌%◌, ◌^◌, ◌≡◌, refl, List, [], ◌∷◌, ◌++◌, replicate}
use wasm_trustzone.Base.Int.{pos, ◌-ℤ◌}
use wasm_trustzone.Loader.Locals.{is_narrow}
use wasm_trustzone.Memory.{MemoryInstance}
use wasm_trustzone.Memory.Instantiate.{int32}
use wasm_trustzone.Memory.Address.{offset_by}
use wasm_trustzone.Interp.Access.{load_size, check_memory_overflow, uint32, total_mem_size}
use wasm_trustzone.Interp.Frame.{
  Frame, done, trap, out_of_bounds_memory_access, take_one, take_two, pop_value, put_one, put_two,
  push_value,
}
use wasm_trustzone.Interp.Transfer.{
  get_bytes, get_at, holds, fetched, transfer_type, extends_sign, sign_ext, extended_to, in_bounds,
  exec_load, exec_store,
}
use wasm_trustzone.Interp.Transfer.RoundTrip.{Ends, exec_load-exec_store}

abbrev page : MemoryInstance
page = record {
  self = 4096;
  num_bytes_per_page = 16;
  cur_page_count = 1;
  max_page_count = 1;
  heap_base_offset = pos 0 -ℤ pos 8;
  heap_data = 4160;
  heap_handle = 4160;
  memory_data = 4168;
  global_data = 4184;
  global_data_size = 0;
  end_addr = 4184;
  total_size = 88;
  bytes = replicate 10 0 ++ 0xfe ∷ 0xff ∷ replicate 12 0;
}

abbrev frame_of : List ℕ → Frame
frame_of cells = record { lp = []; stack = cells; sp_boundary = 4 }

-- `i32.load16_s`, `i64.load16_u` and `i64.store32` past the end.
loaded_signed : exec_load 0x2e 0 page (frame_of (2 ∷ [])) ≡ done (frame_of (0xfffffffe ∷ []))
unfolding exec_load in_bounds fetched holds get_at get_bytes transfer_type extends_sign extended_to
    sign_ext pop_value take_one push_value put_one is_narrow check_memory_overflow uint32 ◌-ℤ◌ int32
    load_size total_mem_size offset_by
loaded_signed = refl

loaded_wide : exec_load 0x33 0 page (frame_of (2 ∷ [])) ≡ done (frame_of (0 ∷ 0xfffe ∷ []))
unfolding exec_load in_bounds fetched holds get_at get_bytes transfer_type extends_sign extended_to
    sign_ext pop_value take_one push_value put_two is_narrow check_memory_overflow uint32 ◌-ℤ◌ int32
    load_size total_mem_size offset_by
loaded_wide = refl

stored_outside :
    exec_store 0x3e 0 page (frame_of (0 ∷ 7 ∷ 13 ∷ [])) ≡ trap out_of_bounds_memory_access
unfolding exec_store in_bounds transfer_type pop_value take_one take_two is_narrow
    check_memory_overflow uint32 ◌-ℤ◌ int32 load_size total_mem_size
stored_outside = refl

-- `i32.store16` and `i32.load16_u`.
exec_load-exec_store_example :
    Ends
      (λ r.
        (value : ℕ × Frame) × (pop_value (transfer_type 0x3b) (frame_of (0x12345 ∷ 2 ∷ []))
          ≡ done value)
        × (exec_load 0x2f 4 r.0 value.1
            ≡ push_value (transfer_type 0x3b) (value.0 % 256 ^ load_size 0x3b) r.1))
      (exec_store 0x3b 4 page (frame_of (0x12345 ∷ 2 ∷ [])))
unfolding load_size transfer_type extends_sign
exec_load-exec_store_example =
    exec_load-exec_store 0x3b 0x2f 4 page (frame_of (0x12345 ∷ 2 ∷ [])) refl refl refl
