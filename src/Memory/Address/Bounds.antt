-- ===== src/Memory/Address/Bounds.antt =====
-- A range of offsets is accepted exactly where it lies within the memory.
use wasm_trustzone.Base.{
  ℕ, ◌-◌, ◌*◌, ◌%◌, ◌^◌, ◌<◌, ◌≡◌, refl, Bool, true, false, not, ◌&&◌, ◌||◌, arith, ltb,
  if◌then◌else◌,
}
use wasm_trustzone.Base.Int.{ℤ, pos, negsuc, ◌+ℤ◌, ◌-ℤ◌, ◌≤ℤ◌, ltb_ℤ}
use wasm_trustzone.Memory.{MemoryInstance}
use wasm_trustzone.Memory.Instantiate.{int32}
use wasm_trustzone.Memory.Address.{wrap, wasm_validate_app_addr, memory_data_size}

-- The end that the code computes against the end: where it does not lie before the start, and the
-- start's sum with the size is at most a bound of 31 bits, they agree.
end_le :
    (app_offset : ℤ) (size bound : ℕ)
    → negsuc (2 ^ 31 - 1) ≤ℤ app_offset
    → app_offset ≤ℤ pos (2 ^ 31 - 1)
    → size < 2 ^ 32
    → bound < 2 ^ 31
    → ((not (ltb_ℤ (wrap (app_offset +ℤ int32 size)) app_offset)
          && not (ltb_ℤ (pos bound) (wrap (app_offset +ℤ int32 size))))
        ≡ not (ltb_ℤ (pos bound) (app_offset +ℤ pos size)))
unfolding wrap int32 ◌+ℤ◌ ◌-ℤ◌
end_le (pos n) size bound low high hs hb = ground arith
end_le (negsuc n) size bound low high hs hb = ground arith

pub memory_data_size-pos :
    (m : MemoryInstance)
    → m.num_bytes_per_page * m.cur_page_count < 2 ^ 31
    → memory_data_size m ≡ pos (m.num_bytes_per_page * m.cur_page_count)
unfolding memory_data_size int32
memory_data_size-pos m h =
    let whole : m.num_bytes_per_page * m.cur_page_count % 2 ^ 32
        ≡ m.num_bytes_per_page * m.cur_page_count =
      omega arith in
    let below : ltb (m.num_bytes_per_page * m.cur_page_count) (2 ^ 31) ≡ true = ground arith in
    rw (whole, below) refl

three_tests :
    (before above past fits : Bool)
    → (not before && not past) ≡ fits
    → (if before then false else if not above || past then false else true) ≡ (above && fits)
three_tests true true past fits h = h
three_tests true false past fits h = refl
three_tests false true true fits h = h
three_tests false true false fits h = h
three_tests false false past fits h = refl

-- The offset of an application is valid for a size exactly where it lies above the base of the heap
-- and its sum with the size, computed without wrap-around, is at most the size of the pages; the
-- offset is an integer of 32 bits, the size a number of 32 bits, and the pages have less than 2^31
-- bytes.
pub wasm_validate_app_addr-inside :
    (m : MemoryInstance) (app_offset : ℤ) (size : ℕ)
    → negsuc (2 ^ 31 - 1) ≤ℤ app_offset
    → app_offset ≤ℤ pos (2 ^ 31 - 1)
    → size < 2 ^ 32
    → m.num_bytes_per_page * m.cur_page_count < 2 ^ 31
    → wasm_validate_app_addr m app_offset size ≡ (
        ltb_ℤ m.heap_base_offset app_offset
        && not (ltb_ℤ (pos (m.num_bytes_per_page * m.cur_page_count)) (app_offset +ℤ pos size)))
unfolding wasm_validate_app_addr
wasm_validate_app_addr-inside m app_offset size low high hs hb =
    let bound = m.num_bytes_per_page * m.cur_page_count in
    let fits = end_le app_offset size bound low high hs hb in
    let data_size = memory_data_size-pos m hb in
    rw data_size (
      three_tests (ltb_ℤ (wrap (app_offset +ℤ int32 size)) app_offset)
        (ltb_ℤ m.heap_base_offset app_offset) (ltb_ℤ (pos bound) (wrap (app_offset +ℤ int32 size)))
        _ fits)
