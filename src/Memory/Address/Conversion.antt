-- ===== src/Memory/Address/Conversion.antt =====
-- Conversions between the two kinds of address.
use wasm_trustzone.Base.{
  ℕ, ◌+◌, ◌-◌, ◌*◌, ◌%◌, ◌^◌, ◌<◌, ◌≡◌, refl, Bool, true, false, not, some, arith, ltb, leb,
  if◌then◌else◌,
}
use wasm_trustzone.Base.Int.{ℤ, pos, negsuc, pos_part, neg_part, ◌+ℤ◌, ◌-ℤ◌, ltb_ℤ}
use wasm_trustzone.Memory.{MemoryInstance}
use wasm_trustzone.Memory.Address.{
  offset_by, wasm_validate_app_addr, wasm_validate_native_addr, wasm_addr_app_to_native,
  wasm_addr_native_to_app,
}
use wasm_trustzone.Memory.Address.Bounds.{memory_data_size-pos, wasm_validate_app_addr-inside}

-- What the conversions use of a layout: the heap lies right before the pages and offsets count from
-- the pages.
unfoldable pub HasHeap : ℕ → MemoryInstance → Type 0
HasHeap heap m =
    (m.memory_data ≡ m.heap_data + heap)
    × ((m.heap_base_offset ≡ pos 0 -ℤ pos heap)
        × (m.num_bytes_per_page * m.cur_page_count < 2 ^ 31))

-- Where the offset and its pointer lie.
inside :
    (m : MemoryInstance) (heap : ℕ) (app_offset : ℤ) (p : ℕ)
    → HasHeap heap m
    → wasm_addr_app_to_native m app_offset ≡ some p
    → (neg_part app_offset < heap + pos_part app_offset)
      × ((pos_part app_offset < m.num_bytes_per_page * m.cur_page_count + neg_part app_offset)
          × (p + neg_part app_offset ≡ m.memory_data + pos_part app_offset))
unfolding HasHeap wasm_addr_app_to_native offset_by ◌-ℤ◌
inside m heap (pos n) p (place, (base, small)) h =
    let data_size = memory_data_size-pos m small in ground (arith, data_size, base, h, place)
inside m heap (negsuc n) p (place, (base, small)) h =
    let data_size = memory_data_size-pos m small in ground (arith, data_size, base, h, place)

-- A pointer that stands for an offset is converted back to it.
pub wasm_addr_native_to_app-app_to_native :
    (m : MemoryInstance) (heap : ℕ) (app_offset : ℤ) (p : ℕ)
    → HasHeap heap m
    → wasm_addr_app_to_native m app_offset ≡ some p
    → wasm_addr_native_to_app m p ≡ app_offset
unfolding HasHeap wasm_addr_native_to_app offset_by
wasm_addr_native_to_app-app_to_native m heap (pos n) p (place, (base, small)) h =
    let data_size = memory_data_size-pos m small in
    let (above, (below, same)) = inside m heap (pos n) p (place, (base, small)) h in
    rw data_size (ground arith)
wasm_addr_native_to_app-app_to_native m heap (negsuc n) p (place, (base, small)) h =
    let data_size = memory_data_size-pos m small in
    let (above, (below, same)) = inside m heap (negsuc n) p (place, (base, small)) h in
    rw data_size (ground arith)

past_end :
    (start bound p size : ℕ) (app_offset : ℤ)
    → p + neg_part app_offset ≡ start + pos_part app_offset
    → ltb (start + bound - 0) (p + size) ≡ ltb_ℤ (pos bound) (app_offset +ℤ pos size)
unfolding ◌+ℤ◌
past_end start bound p size (pos n) h = ground arith
past_end start bound p size (negsuc n) h = ground arith

one_test : (past : Bool) → (if past then false else true) ≡ not past
one_test true = refl
one_test false = refl

-- The two validations agree on an offset and the pointer that stands for it, for every size, where
-- the pages end below 2^63.
pub wasm_validate_native_addr-app :
    (m : MemoryInstance) (heap : ℕ) (app_offset : ℤ) (size p : ℕ)
    → HasHeap heap m
    → heap < 2 ^ 31
    → m.memory_data < 2 ^ 63
    → size < 2 ^ 32
    → wasm_addr_app_to_native m app_offset ≡ some p
    → wasm_validate_native_addr m p size ≡ wasm_validate_app_addr m app_offset size
unfolding HasHeap wasm_validate_native_addr offset_by ◌-ℤ◌
wasm_validate_native_addr-app m heap app_offset size p (place, (base, small)) hh hm hs h =
    let (above, (below, same)) = inside m heap app_offset p (place, (base, small)) h in
    let data_size = memory_data_size-pos m small in
    let app =
      wasm_validate_app_addr-inside m app_offset size (omega arith) (omega arith) hs small in
    let flat : (p + size) % 2 ^ 64 ≡ p + size = omega arith in
    let after : ltb (p + size) p ≡ false = ground arith in
    let in_heap : leb p m.heap_data ≡ false = ground arith in
    let from_heap : ltb_ℤ m.heap_base_offset app_offset ≡ true = ground (arith, base, above) in
    let past : ltb (m.memory_data + m.num_bytes_per_page * m.cur_page_count - 0) (p + size)
        ≡ ltb_ℤ (pos (m.num_bytes_per_page * m.cur_page_count)) (app_offset +ℤ pos size) =
      past_end m.memory_data (m.num_bytes_per_page * m.cur_page_count) p size app_offset same in
    rw (app, data_size, flat, after, in_heap, from_heap, past) (one_test _)
