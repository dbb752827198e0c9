-- ===== src/Memory/Usage/Limit.antt =====
-- The limit of a module, and the line of the sheet that it stands on.
use wasm_trustzone.Base.{
  ℕ, suc, ◌+◌, ◌%◌, ◌^◌, ◌<◌, ◌≡◌, ◌≢◌, ◌↔◌, refl, sym, subst, ap, true, false, List, [], ◌∷◌, ◌++◌,
  none, some, arith, leb, ◌==◌, if◌then◌else◌, Bool-cases, Option-cases, inl, inr, length,
  length-append,
}
use wasm_trustzone.Aerogel.CString.{strstr, starts_with, contains}
use wasm_trustzone.Memory.Usage.{
  add_sizes, check_memory_usage, count_lines, wasm_add_index_from_name, sum, newlines,
}

add_sizes-sum :
    (total : ℕ) (sizes : List ℕ)
    → total + sum sizes < 2 ^ 32
    → add_sizes total sizes ≡ total + sum sizes
unfolding add_sizes sum
add_sizes-sum total [] h = omega arith
add_sizes-sum total (size ∷ sizes) h =
    let small : (total + size) % 2 ^ 32 ≡ total + size = omega arith in
    rw small (omega (arith, add_sizes-sum (total + size) sizes (omega arith)))

-- Where the sizes of the memories and the tables together fit in 32 bits, they are what is recorded,
-- and a module is let run exactly where they are at most its limit.
pub check_memory_usage-sum :
    (memories tables : List ℕ) (specified_memory : ℕ)
    → sum memories + sum tables < 2 ^ 32
    → check_memory_usage memories tables specified_memory ≡ record {
      memory_usage_bytes = sum memories + sum tables;
      allowed = leb (sum memories + sum tables) specified_memory;
    }
unfolding check_memory_usage
check_memory_usage-sum memories tables specified_memory h =
    let of_memories = add_sizes-sum 0 memories (omega arith) in
    let start : 0 + sum memories ≡ sum memories = omega arith in
    let of_tables = add_sizes-sum (sum memories) tables h in rw (of_memories, start, of_tables) refl

count_lines-append :
    (before tmp : List ℕ) (n : ℕ)
    → count_lines (before ++ tmp) (length tmp) n ≡ some (n + newlines before)
unfolding count_lines newlines
count_lines-append [] [] n = ground arith
count_lines-append [] (c ∷ tmp) n = ground arith
count_lines-append (c ∷ before) tmp n =
    let rest = count_lines-append before tmp (if c == b'\n' then n + 1 else n) in
    let longer : (suc (length (before ++ tmp)) == length tmp) ≡ false =
      ground (arith, length-append before tmp) in
    rw (longer, rest) (ground arith)

-- The line in which the name first occurs is the index, whatever occurs behind it.
pub wasm_add_index_from_name-newlines :
    (before tmp name : List ℕ)
    → strstr (before ++ tmp) name ≡ some tmp
    → wasm_add_index_from_name (before ++ tmp) name ≡ some (newlines before)
unfolding wasm_add_index_from_name
wasm_add_index_from_name-newlines before tmp name h =
    let start : 0 + newlines before ≡ newlines before = omega arith in
    rw (h, wasm_add_index_from_name, count_lines-append before tmp 0, start) refl

strstr-split :
    (s name tmp : List ℕ) → strstr s name ≡ some tmp → (before : List ℕ) × (s ≡ before ++ tmp)
unfolding strstr
strstr-split [] name tmp h = elim (Bool-cases (starts_with [] name)) [
  | inl here ↦ ([], ground (arith, here, h))
  | inr later ↦ absurd (ground (arith, later, h))
]
strstr-split (c ∷ s) name tmp h = elim (Bool-cases (starts_with (c ∷ s) name)) [
  | inl here ↦ ([], ground (arith, here, h))
  | inr later ↦
      let (before, split) = strstr-split s name tmp (ground (arith, later, h)) in
      (c ∷ before, ap (λ t. c ∷ t) split)
]

-- The search for the line of a name ends exactly where the name occurs in the sheet.
pub wasm_add_index_from_name-ends :
    (module_spec name : List ℕ)
    → (wasm_add_index_from_name module_spec name ≢ none) ↔ (contains module_spec name ≡ true)
unfolding contains wasm_add_index_from_name
wasm_add_index_from_name-ends module_spec name = elim (Option-cases (strstr module_spec name)) [
  | inl e ↦
      let absent : wasm_add_index_from_name module_spec name ≡ none =
        rw (e, wasm_add_index_from_name) refl in
      let no : contains module_spec name ≡ false = rw (e, contains) refl in
      (λ h. absurd (h absent), λ h. absurd (ground (arith, no, h)))
  | inr (tmp, e) ↦
      let (before, split) = strstr-split module_spec name tmp e in
      let found : wasm_add_index_from_name module_spec name ≡ some (newlines before) =
        subst
          (λ s. strstr s name ≡ some tmp → wasm_add_index_from_name s name ≡ some (newlines before))
          (sym split) (λ k. wasm_add_index_from_name-newlines before tmp name k) e in
      (λ h. rw (e, contains) refl, λ h k. absurd (ground (arith, found, k)))
]
