-- ===== src/Memory/Enlarge/Layout.antt =====
-- A memory that has grown is laid out in its new block, with its contents.
use wasm_trustzone.Base.{
  ℕ, ◌+◌, ◌-◌, ◌*◌, ◌%◌, ◌^◌, ◌≤◌, ◌<◌, ◌≡◌, sym, subst, ap, false, not, ◌||◌, List, Option, none,
  some, arith, ltb, leb, ◌==◌, Bool-cases, if-both, Option-cases, inl, inr, length,
}
use wasm_trustzone.Memory.Poison.{check_illegal_memory_boundary, aerogel_wasm_safe_allocation}
use wasm_trustzone.Memory.Instantiate.{Platform}
use wasm_trustzone.Memory.Enlarge.{
  ModuleInstance, Enlarged, enlarged, refused, lost, crashed, size_with, settle, move_to,
  reallocate, wasm_enlarge_memory,
}
use wasm_trustzone.Memory.Enlarge.Settle.{Holds, Grown, Grown-zero, settle-Grown, sizes}

-- Of the module, where its memory has been enlarged.
unfoldable pub Gives : (ModuleInstance → Type 0) → Enlarged → Type 0
Gives P (enlarged g) = P g
Gives P refused = Unit
Gives P lost = Unit
Gives P crashed = Unit

retried-Gives :
    (P : ModuleInstance → Type 0) (o : Option ℕ)
    → Gives P (elim o [ none ↦ crashed | some safe_memory ↦ lost ])
unfolding Gives
retried-Gives P none = tt
retried-Gives P (some safe_memory) = tt

pub move_to-Gives :
    (P : ModuleInstance → Type 0) (platform : Platform) (addresses : List ℕ) (g : ModuleInstance)
    (pages total self : ℕ)
    → P (settle platform g self pages total)
    → Gives P (move_to platform addresses g pages total self)
unfolding move_to Gives
move_to-Gives P platform addresses g pages total self h =
    let m = g.default_memory in
    if-both (Gives P)
      (not (check_illegal_memory_boundary platform.header addresses (record m { self = self })))
      (retried-Gives P (
        aerogel_wasm_safe_allocation platform.pool platform.realloc addresses
          (self + platform.header) total))
      (if-both (Gives P) (platform.heap_migrate (m.heap_handle + self - m.self) m.heap_handle) h tt)

-- Behind the checks.
checked-Grown :
    (platform : Platform) (g : ModuleInstance) (heap inc self : ℕ) (lin glob : List ℕ)
    → Holds platform.header heap lin glob g.default_memory
    → length glob ≤ g.default_memory.num_bytes_per_page * inc
    → g.default_memory.num_bytes_per_page ≤ 65536
    → g.default_memory.max_page_count < 2 ^ 32
    → inc < 2 ^ 32
    → (ltb ((inc + g.default_memory.cur_page_count) % 2 ^ 32) g.default_memory.cur_page_count
        || ltb g.default_memory.max_page_count ((inc + g.default_memory.cur_page_count) % 2 ^ 32))
      ≡ false
    → leb
        (2 ^ 32 - 1)
        (size_with platform g.default_memory ((inc + g.default_memory.cur_page_count) % 2 ^ 32))
      ≡ false
    → Grown platform.header heap inc lin glob g.default_memory
        (settle platform g self ((inc + g.default_memory.cur_page_count) % 2 ^ 32) (
          size_with platform g.default_memory
            ((inc + g.default_memory.cur_page_count) % 2 ^ 32))).default_memory
unfolding Holds
checked-Grown platform g heap inc self lin glob (ok, contents) room page max hi good small =
    let m = g.default_memory in
    let all = (inc + m.cur_page_count) % 2 ^ 32 in
    let low : m.cur_page_count ≤ all = ground (arith, good) in
    let high : all ≤ m.max_page_count = ground (arith, good) in
    let (pages, exact) = sizes platform heap inc m ok page max hi low in
    let total = size_with platform m (m.cur_page_count + inc) in
    let same = ap (λ n. size_with platform m n) pages in
    let fits : total < 2 ^ 32 - 1 = ground (arith, small, same) in
    subst
      (λ n.
        Grown platform.header heap inc lin glob m
          (settle platform g self n (size_with platform m n)).default_memory)
      (sym pages)
      (settle-Grown platform g heap inc self total lin glob (ok, contents) room exact fits
        (omega arith))

pub wasm_enlarge_memory-Grown :
    (platform : Platform) (addresses : List ℕ) (g : ModuleInstance) (heap inc : ℕ)
    (lin glob : List ℕ)
    → Holds platform.header heap lin glob g.default_memory
    → length glob ≤ g.default_memory.num_bytes_per_page * inc
    → g.default_memory.num_bytes_per_page ≤ 65536
    → g.default_memory.max_page_count < 2 ^ 32
    → inc < 2 ^ 32
    → Gives
        (λ new. Grown platform.header heap inc lin glob g.default_memory new.default_memory)
        (wasm_enlarge_memory platform addresses g inc)
unfolding wasm_enlarge_memory Gives
wasm_enlarge_memory-Grown platform addresses g heap inc lin glob ok room page max hi =
    let m = g.default_memory in
    let pages = (inc + m.cur_page_count) % 2 ^ 32 in
    let total = size_with platform m pages in
    let P =
      λ (new : ModuleInstance). Grown platform.header heap inc lin glob m new.default_memory in
    elim (Bool-cases (inc == 0)) [
      | inl zero_pages ↦
          rw zero_pages
            (Grown-zero platform.header heap inc lin glob m (ground (arith, zero_pages)) ok)
      | inr some_pages ↦ rw some_pages (
          if-both (Gives P) (ltb g.memory_consumption (total % 2 ^ 32)) tt
            (elim (Bool-cases (ltb pages m.cur_page_count || ltb m.max_page_count pages)) [
              | inl bad ↦ rw bad tt
              | inr good ↦ elim (Bool-cases (leb (2 ^ 32 - 1) total)) [
                | inl large ↦ rw (good, large) tt
                | inr small ↦ elim (Option-cases (reallocate platform m.self total)) [
                  | inl e ↦ rw (good, small, e) tt
                  | inr (self, e) ↦
                      rw (good, small, e)
                        (move_to-Gives P platform addresses g pages total self (
                          checked-Grown platform g heap inc self lin glob ok room page max hi good
                            small))
                ]
              ]
            ]))
    ]
