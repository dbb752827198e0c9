-- ===== src/Memory/Poison.antt =====
-- The addresses of the peripherals against a range of memory: `check_illegal_memory_boundary` of
-- core/iwasm/interpreter/wasm_runtime.c, `aerogel_check_peripheral_address` and
-- `aerogel_wasm_safe_allocation` of core/iwasm/common/wasm_memory.c, as compiled with
-- EVAL_NO_AEROGEL 0. The addresses that the sheet of the devices lists are a parameter.
pub mod Checked
use wasm_trustzone.Base.{
  ℕ, zero, suc, ◌+◌, ◌-◌, ◌*◌, ◌%◌, ◌^◌, Bool, true, false, ◌&&◌, List, [], ◌∷◌, Option, none, some,
  ltb, if◌then◌else◌,
}
use wasm_trustzone.Memory.{MemoryInstance}

-- No address lies strictly between the two ends, which are cut to 32 bits.
unfoldable pub aerogel_check_peripheral_address : ℕ → ℕ → List ℕ → Bool
aerogel_check_peripheral_address lower upper [] = true
aerogel_check_peripheral_address lower upper (a ∷ addresses) =
    let rest = aerogel_check_peripheral_address lower upper addresses in
    if ltb (lower % 2 ^ 32) a && ltb a (upper % 2 ^ 32) then false else rest

unfoldable pub check_illegal_memory_boundary : ℕ → List ℕ → MemoryInstance → Bool
check_illegal_memory_boundary header [] m = true
check_illegal_memory_boundary header (a ∷ addresses) m =
    let rest = check_illegal_memory_boundary header addresses m in
    if ltb ((m.self + header) % 2 ^ 32) a && ltb a (m.end_addr % 2 ^ 32) then false else rest

-- `left` iterations remain of the loop, and `i` is its counter.
unfoldable pub safe_search : (ℕ → ℕ → Option ℕ) → List ℕ → ℕ → ℕ → ℕ → ℕ → Option ℕ
safe_search realloc addresses size zero i start = none
safe_search realloc addresses size (suc left) i start =
    let end_address = start + size in
    let next = start + i * 4 in
    let rest = safe_search realloc addresses size left (i + 1) next in
    if aerogel_check_peripheral_address next end_address addresses
    then elim (realloc next size) [ none ↦ rest | some safe_memory ↦ some safe_memory ]
    else rest

-- `pool` says whether the memory mode is that of a pool.
unfoldable pub aerogel_wasm_safe_allocation : Bool → (ℕ → ℕ → Option ℕ) → List ℕ → ℕ → ℕ → Option ℕ
aerogel_wasm_safe_allocation pool realloc addresses start size =
    if pool then safe_search realloc addresses size 2047 1 start else none
