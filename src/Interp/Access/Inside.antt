-- ===== src/Interp/Access/Inside.antt =====
-- An access that is let through lies in the heap or the pages of the instance.
use wasm_trustzone.Base.{
  ℕ, ◌+◌, ◌*◌, ◌%◌, ◌^◌, ◌≤◌, ◌<◌, ◌≡◌, refl, ◌∙◌, ap, true, none, some, arith, leb, if◌then◌else◌,
}
use wasm_trustzone.Base.Int.{pos, ◌-ℤ◌}
use wasm_trustzone.Memory.{MemoryInstance}
use wasm_trustzone.Memory.Instantiate.{int32}
use wasm_trustzone.Memory.Address.{offset_by}
use wasm_trustzone.Memory.Address.Conversion.{HasHeap}
use wasm_trustzone.Interp.Access.{load_size, uint32, total_mem_size, check_memory_overflow}

total_mem_size-HasHeap :
    (m : MemoryInstance) (heap : ℕ)
    → HasHeap heap m
    → heap < 2 ^ 31
    → total_mem_size m ≡ heap + m.num_bytes_per_page * m.cur_page_count
unfolding total_mem_size HasHeap uint32 ◌-ℤ◌
total_mem_size-HasHeap m heap (place, (base, small)) h = rw base (ground arith)

-- The two offsets of the code: the second is the distance from the base of the heap.
offsets :
    (heap sum : ℕ)
    → heap < 2 ^ 31
    → uint32 (int32 sum -ℤ (pos 0 -ℤ pos heap)) ≡ (sum + heap) % 2 ^ 32
unfolding uint32 int32 ◌-ℤ◌
offsets heap sum h = ground arith

-- Where that distance is small, the first offset is what it should be.
place_of :
    (start heap sum : ℕ)
    → heap < 2 ^ 31
    → (sum + heap) % 2 ^ 32 < 2 ^ 31 + heap
    → heap ≤ start
    → offset_by start (int32 sum) + heap ≡ start + (sum + heap) % 2 ^ 32
unfolding int32 offset_by
place_of start heap sum h k l = ground arith

-- What the check decides, with the distance from the base of the heap.
check_memory_overflow-distance :
    (m : MemoryInstance) (heap opcode offset addr : ℕ)
    → HasHeap heap m
    → heap < 2 ^ 31
    → check_memory_overflow m opcode offset addr ≡ (
        if leb
          ((offset + addr + heap) % 2 ^ 32 + load_size opcode)
          (heap + m.num_bytes_per_page * m.cur_page_count)
        then some (offset_by m.memory_data (int32 (offset + addr)))
        else none)
unfolding check_memory_overflow HasHeap
check_memory_overflow-distance m heap opcode offset addr (place, (base, small)) h =
    let total = total_mem_size-HasHeap m heap (place, (base, small)) h in
    let distance =
      ap (λ b. uint32 (int32 (offset + addr) -ℤ b)) base ∙ offsets heap (offset + addr) h in
    rw (total, distance) refl

-- An access within the pages is let through, to the byte that its offset and its address name.
pub check_memory_overflow-address :
    (m : MemoryInstance) (heap opcode offset addr : ℕ)
    → HasHeap heap m
    → heap < 2 ^ 31
    → offset + addr + load_size opcode ≤ m.num_bytes_per_page * m.cur_page_count
    → check_memory_overflow m opcode offset addr ≡ some (m.memory_data + (offset + addr))
unfolding HasHeap
check_memory_overflow-address m heap opcode offset addr (place, (base, small)) h within =
    let P = m.num_bytes_per_page * m.cur_page_count in
    let D = (offset + addr + heap) % 2 ^ 32 in
    let decided =
      check_memory_overflow-distance m heap opcode offset addr (place, (base, small)) h in
    let exact : D ≡ offset + addr + heap = omega arith in
    let fits : leb (D + load_size opcode) (heap + P) ≡ true = ground (arith, exact) in
    let at = place_of m.memory_data heap (offset + addr) h (omega arith) (omega arith) in
    let here : offset_by m.memory_data (int32 (offset + addr)) ≡ m.memory_data + (offset + addr) =
      omega (arith, at, exact) in
    decided ∙ rw (fits, here) refl
