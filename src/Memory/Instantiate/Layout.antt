-- ===== src/Memory/Instantiate/Layout.antt =====
-- A new memory is laid out within its block, wherever the peripherals are.
use wasm_trustzone.Base.{
  ℕ, ◌+◌, ◌-◌, ◌*◌, ◌%◌, ◌^◌, ◌≤◌, ◌<◌, ◌≡◌, refl, true, List, [], ◌∷◌, arith, leb, Bool-cases,
  Option-cases, inl, inr, length-replicate,
}
use wasm_trustzone.Base.Pow.{mul-le_right}
use wasm_trustzone.Memory.{MemoryInstance, IsMemory}
use wasm_trustzone.Memory.Poison.{check_illegal_memory_boundary}
use wasm_trustzone.Memory.Instantiate.{
  Platform, Instantiated, instantiated, null, crashed, cleared, lay_out, memory_instantiate,
}

-- The end of the memory is still 0 where it is compared with the addresses.
cleared-legal :
    (header self total_size : ℕ) (addresses : List ℕ)
    → check_illegal_memory_boundary header addresses (cleared header self total_size) ≡ true
unfolding check_illegal_memory_boundary cleared
cleared-legal header self total_size [] = refl
cleared-legal header self total_size (a ∷ addresses) =
    let rest = cleared-legal header self total_size addresses in ground (arith, rest)

-- The addresses of the peripherals do not matter to the instantiation of a memory: wherever the
-- block lies, it is what it is where there is no peripheral.
pub memory_instantiate-no_peripherals :
    (platform : Platform) (addresses : List ℕ)
    (num_bytes_per_page init_page_count max_page_count global_data_size heap_size : ℕ)
    → memory_instantiate platform addresses num_bytes_per_page init_page_count max_page_count
        global_data_size heap_size
      ≡ memory_instantiate platform [] num_bytes_per_page init_page_count max_page_count
          global_data_size heap_size
unfolding memory_instantiate
memory_instantiate-no_peripherals platform addresses page init max global heap =
    let total = (platform.header + heap + page * init + global) % 2 ^ 64 in
    elim (Option-cases (platform.malloc total)) [
      | inl e ↦ rw e refl
      | inr (self, e) ↦
          let some_checked = cleared-legal platform.header self total addresses in
          let none_checked = cleared-legal platform.header self total [] in
          rw (e, some_checked, none_checked) refl
    ]

-- Of the memory, where there is one; a crash is excluded.
unfoldable pub Gives : (MemoryInstance → Type 0) → Instantiated → Type 0
Gives P (instantiated m) = P m
Gives P null = Unit
Gives P crashed = ⊥

lay_out-IsMemory :
    (platform : Platform) (page init max global heap self total : ℕ)
    → total ≡ platform.header + heap + page * init + global
    → total < 2 ^ 32 - 1
    → init ≤ max
    → Gives
        (IsMemory platform.header heap)
        (lay_out platform page init max global heap (cleared platform.header self total))
unfolding lay_out Gives cleared IsMemory
lay_out-IsMemory platform page init max global heap self total e small pages =
    elim (Option-cases (platform.heap_create (self + platform.header) heap)) [
      | inl none_left ↦ rw (none_left, lay_out, Gives) tt
      | inr (handle, h) ↦
          let len = length-replicate {A = ℕ} (total - platform.header) 0 in
          let product : page * init % 2 ^ 32 ≡ page * init = omega arith in
          let whole : total % 2 ^ 32 ≡ total = omega arith in
          rw (h, lay_out, Gives, product, whole, len)
            (refl, (refl, (refl, (refl, (omega arith, (omega arith, (small, pages)))))))
    ]

-- The instantiation of a memory never crashes, and gives a memory whose heap, pages and globals
-- follow one another and fill its block; a page has at most 65536 bytes, the other sizes are numbers
-- of 32 bits, and the first number of pages is at most the last.
pub memory_instantiate-IsMemory :
    (platform : Platform) (addresses : List ℕ) (page init max global heap : ℕ)
    → page ≤ 65536
    → init < 2 ^ 32
    → global < 2 ^ 32
    → heap < 2 ^ 32
    → platform.header < 2 ^ 32
    → init ≤ max
    → Gives
        (IsMemory platform.header heap)
        (memory_instantiate platform addresses page init max global heap)
unfolding memory_instantiate Gives
memory_instantiate-IsMemory platform addresses page init max global heap hp hi hg hh hd pages =
    let raw = platform.header + heap + page * init + global in
    let product = mul-le_right hp init in
    let exact : raw % 2 ^ 64 ≡ raw = omega (arith, product) in
    elim (Bool-cases (leb (2 ^ 32 - 1) (raw % 2 ^ 64))) [
      | inl large ↦ rw large tt
      | inr small ↦ elim (Option-cases (platform.malloc (raw % 2 ^ 64))) [
        | inl e ↦ rw (small, e) tt
        | inr (self, e) ↦
            let legal = cleared-legal platform.header self (raw % 2 ^ 64) addresses in
            rw (small, e, legal)
              (lay_out-IsMemory platform page init max global heap self (raw % 2 ^ 64) exact
                (ground (arith, small)) pages)
      ]
    ]
