-- ===== src/Memory/Enlarge/Once.antt =====
-- A memory grows once: the size that it has then is the most it may have.
use wasm_trustzone.Base.{
  ℕ, ◌+◌, ◌-◌, ◌*◌, ◌%◌, ◌^◌, ◌≤◌, ◌<◌, ◌≡◌, refl, sym, subst, ap, true, false, ◌||◌, List, arith,
  ltb, leb, ◌==◌, Bool-cases, if-both, Option-cases, inl, inr, length,
}
use wasm_trustzone.Memory.{MemoryInstance, IsMemory}
use wasm_trustzone.Memory.Instantiate.{Platform}
use wasm_trustzone.Memory.Enlarge.{
  ModuleInstance, Enlarged, enlarged, refused, lost, crashed, size_with, settle, reallocate,
  wasm_enlarge_memory,
}
use wasm_trustzone.Memory.Enlarge.Settle.{Holds, Grown, sizes, mul-add_right, heap_size_of-IsMemory}
use wasm_trustzone.Memory.Enlarge.Layout.{Gives, move_to-Gives, wasm_enlarge_memory-Grown}

Gives-both :
    (P Q R : ModuleInstance → Type 0) (o : Enlarged)
    → ((g : ModuleInstance) → P g → Q g → R g)
    → Gives P o
    → Gives Q o
    → Gives R o
unfolding Gives
Gives-both P Q R (enlarged g) h p q = h g p q
Gives-both P Q R refused h p q = tt
Gives-both P Q R lost h p q = tt
Gives-both P Q R crashed h p q = tt

-- The sheet's limit is the size of the memory.
abbrev AtLimit : ModuleInstance → Type 0
AtLimit g = g.memory_consumption ≡ g.default_memory.total_size

settle-AtLimit :
    (platform : Platform) (g : ModuleInstance) (self pages total : ℕ)
    → AtLimit (settle platform g self pages total)
unfolding settle
settle-AtLimit platform g self pages total = refl

wasm_enlarge_memory-AtLimit :
    (platform : Platform) (addresses : List ℕ) (g : ModuleInstance) (inc : ℕ)
    → (inc == 0) ≡ false
    → Gives AtLimit (wasm_enlarge_memory platform addresses g inc)
unfolding wasm_enlarge_memory Gives
wasm_enlarge_memory-AtLimit platform addresses g inc some_pages =
    let m = g.default_memory in
    let pages = (inc + m.cur_page_count) % 2 ^ 32 in
    let total = size_with platform m pages in
    rw some_pages (
      if-both (Gives AtLimit) (ltb g.memory_consumption (total % 2 ^ 32)) tt (
        if-both (Gives AtLimit) (ltb pages m.cur_page_count || ltb m.max_page_count pages) tt (
          if-both (Gives AtLimit) (leb (2 ^ 32 - 1) total) tt
            (elim (Option-cases (reallocate platform m.self total)) [
              | inl e ↦ rw e tt
              | inr (self, e) ↦ rw e (
                  move_to-Gives AtLimit platform addresses g pages total self
                    (settle-AtLimit platform g self pages total))
            ]))))

above_limit :
    (platform : Platform) (g : ModuleInstance) (heap inc : ℕ)
    → IsMemory platform.header heap g.default_memory
    → AtLimit g
    → 0 < g.default_memory.num_bytes_per_page
    → g.default_memory.num_bytes_per_page ≤ 65536
    → g.default_memory.max_page_count < 2 ^ 32
    → 0 < inc
    → inc < 2 ^ 32
    → g.default_memory.cur_page_count ≤ (inc + g.default_memory.cur_page_count) % 2 ^ 32
    → g.memory_consumption
      < size_with platform g.default_memory ((inc + g.default_memory.cur_page_count) % 2 ^ 32)
above_limit platform g heap inc ok limit some_bytes page max some_pages hi low =
    let m = g.default_memory in
    let (pages, exact) = sizes platform heap inc m ok page max hi low in
    let (heap_size, (old, shrunk)) = heap_size_of-IsMemory platform.header heap m ok in
    let same = ap (λ n. size_with platform m n) pages in
    let product = mul-add_right m.num_bytes_per_page m.cur_page_count inc in
    let more : 0 < m.num_bytes_per_page * inc = grind arith in omega arith

-- A module at its limit.
pub refused-AtLimit :
    (platform : Platform) (addresses : List ℕ) (g : ModuleInstance) (heap inc : ℕ)
    → IsMemory platform.header heap g.default_memory
    → AtLimit g
    → 0 < g.default_memory.num_bytes_per_page
    → g.default_memory.num_bytes_per_page ≤ 65536
    → g.default_memory.max_page_count < 2 ^ 32
    → 0 < inc
    → inc < 2 ^ 32
    → wasm_enlarge_memory platform addresses g inc ≡ refused
unfolding wasm_enlarge_memory
refused-AtLimit platform addresses g heap inc ok limit some_bytes page max some_pages hi =
    let m = g.default_memory in
    let pages = (inc + m.cur_page_count) % 2 ^ 32 in
    let total = size_with platform m pages in
    let asked : (inc == 0) ≡ false = ground arith in
    elim (Bool-cases (ltb g.memory_consumption (total % 2 ^ 32))) [
      | inl over ↦ rw (asked, over) refl
      | inr under ↦ elim (Bool-cases (ltb pages m.cur_page_count || ltb m.max_page_count pages)) [
        | inl bad ↦ rw (asked, under, bad) refl
        | inr good ↦
            let low : m.cur_page_count ≤ pages = ground (arith, good) in
            let above =
              above_limit platform g heap inc ok limit some_bytes page max some_pages hi low in
            let large : leb (2 ^ 32 - 1) total ≡ true = ground (arith, under, above) in
            rw (asked, under, good, large) refl
      ]
    ]

refused-Grown :
    (platform later : Platform) (poisoned : List ℕ) (m : MemoryInstance) (new : ModuleInstance)
    (heap inc more : ℕ) (lin glob : List ℕ)
    → Grown platform.header heap inc lin glob m new.default_memory
    → AtLimit new
    → 0 < m.num_bytes_per_page
    → m.num_bytes_per_page ≤ 65536
    → m.max_page_count < 2 ^ 32
    → 0 < more
    → more < 2 ^ 32
    → later.header ≡ platform.header
    → wasm_enlarge_memory later poisoned new more ≡ refused
unfolding Grown Holds
refused-Grown platform later poisoned m new heap inc more lin glob
      ((cur, (bytes, pages)), (ok, contents)) limit some_bytes page max some_more hm same =
    refused-AtLimit later poisoned new heap more
      (subst (λ h. IsMemory h heap new.default_memory) (sym same) ok) limit (omega arith)
      (omega arith) (omega arith) some_more hm

-- Once a memory has grown by a page or more, every later growth by a page or more is refused, within
-- its maximum of pages and whatever the allocators give; the new pages have room for the globals, a
-- page has between 1 and 65536 bytes, and the numbers of pages have 32 bits.
pub wasm_enlarge_memory-once :
    (platform later : Platform) (addresses poisoned : List ℕ) (g : ModuleInstance)
    (heap inc more : ℕ) (lin glob : List ℕ)
    → Holds platform.header heap lin glob g.default_memory
    → length glob ≤ g.default_memory.num_bytes_per_page * inc
    → 0 < g.default_memory.num_bytes_per_page
    → g.default_memory.num_bytes_per_page ≤ 65536
    → g.default_memory.max_page_count < 2 ^ 32
    → 0 < inc
    → inc < 2 ^ 32
    → 0 < more
    → more < 2 ^ 32
    → later.header ≡ platform.header
    → Gives
        (λ new. wasm_enlarge_memory later poisoned new more ≡ refused)
        (wasm_enlarge_memory platform addresses g inc)
wasm_enlarge_memory-once platform later addresses poisoned g heap inc more lin glob ok room
      some_bytes page max some_pages hi some_more hm same =
    let m = g.default_memory in
    let asked : (inc == 0) ≡ false = ground arith in
    Gives-both (λ new. Grown platform.header heap inc lin glob m new.default_memory) AtLimit
      (λ new. wasm_enlarge_memory later poisoned new more ≡ refused)
      (wasm_enlarge_memory platform addresses g inc)
      (λ new grown limit.
        refused-Grown platform later poisoned m new heap inc more lin glob grown limit some_bytes
          page max some_more hm same)
      (wasm_enlarge_memory-Grown platform addresses g heap inc lin glob ok room page max hi)
      (wasm_enlarge_memory-AtLimit platform addresses g inc asked)
