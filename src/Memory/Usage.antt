-- ===== src/Memory/Usage.antt =====
-- `check_memory_usage` and `wasm_add_index_from_name` of core/iwasm/interpreter/wasm_runtime.c, as
-- compiled with EVAL_NO_AEROGEL 0: which limit the sheet gives a module, and whether it is kept.
pub mod Limit
use wasm_trustzone.Base.{
  ℕ, zero, suc, ◌+◌, ◌%◌, ◌^◌, ◌≤◌, ◌<◌, ◌≡◌, ◌≢◌, ◌↔◌, refl, sym, subst, ◌∙◌, ap, Bool, true,
  false, List, [], ◌∷◌, ◌++◌, Option, none, some, arith, leb, ◌==◌, if◌then◌else◌, Bool-cases,
  Option-cases, inl, inr, length, length-append,
}
use wasm_trustzone.Aerogel.CString.{strstr, starts_with, contains}

-- Numbers of 32 bits added to a number of 32 bits.
unfoldable pub add_sizes : ℕ → List ℕ → ℕ
add_sizes total [] = total
add_sizes total (size ∷ sizes) = add_sizes ((total + size) % 2 ^ 32) sizes

-- `memory_usage_bytes`, and the result.
pub record Usage : Type 0 where
  pub memory_usage_bytes : ℕ
  pub allowed : Bool

-- From the sizes of the memories and the tables, and the limit of the module's entry.
unfoldable pub check_memory_usage : List ℕ → List ℕ → ℕ → Usage
check_memory_usage memories tables specified_memory =
    let total_memory = add_sizes (add_sizes 0 memories) tables in
    record { memory_usage_bytes = total_memory; allowed = leb total_memory specified_memory }

-- `while (start_tmp != tmp)`, where `tmp` has `left` bytes to the end of the sheet.
unfoldable pub count_lines : List ℕ → ℕ → ℕ → Option ℕ
count_lines [] left module_index = if 0 == left then some module_index else none
count_lines (c ∷ s) left module_index =
    let rest = count_lines s left (if c == b'\n' then module_index + 1 else module_index) in
    if length (c ∷ s) == left then some module_index else rest

-- `none` where the name does not occur: the loop compares with NULL and leaves the sheet.
unfoldable pub wasm_add_index_from_name : List ℕ → List ℕ → Option ℕ
wasm_add_index_from_name module_spec name = elim (strstr module_spec name) [
  | none ↦ none
  | some tmp ↦ count_lines module_spec (length tmp) 0
]

unfoldable pub sum : List ℕ → ℕ
sum [] = 0
sum (n ∷ ns) = n + sum ns

unfoldable pub newlines : List ℕ → ℕ
newlines [] = 0
newlines (c ∷ s) = (if c == b'\n' then 1 else 0) + newlines s
