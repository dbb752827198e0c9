-- ===== src/Memory/Poison/Checked.antt =====
-- What a safe allocation has checked.
use wasm_trustzone.Base.{
  ℕ, zero, suc, ◌+◌, ◌*◌, ◌%◌, ◌^◌, ◌≤◌, ◌≡◌, Bool, true, false, ◌&&◌, List, [], ◌∷◌, Option, some,
  arith, ltb, Bool-cases, Option-cases, inl, inr, ◌⊎◌,
}
use wasm_trustzone.Memory.Poison.{
  aerogel_check_peripheral_address, safe_search, aerogel_wasm_safe_allocation,
}

-- None of the addresses lies strictly between the ends.
unfoldable pub Clear : ℕ → ℕ → List ℕ → Type 0
Clear lower upper [] = Unit
Clear lower upper (a ∷ addresses) =
    ((a ≤ lower % 2 ^ 32) ⊎ (upper % 2 ^ 32 ≤ a)) × Clear lower upper addresses

check-Clear :
    (lower upper : ℕ) (addresses : List ℕ)
    → aerogel_check_peripheral_address lower upper addresses ≡ true
    → Clear lower upper addresses
unfolding aerogel_check_peripheral_address Clear
check-Clear lower upper [] h = tt
check-Clear lower upper (a ∷ addresses) h =
    elim (Bool-cases (ltb (lower % 2 ^ 32) a && ltb a (upper % 2 ^ 32))) [
      | inl inside ↦ absurd (ground (arith, inside, h))
      | inr outside ↦
          (ground (arith, outside), check-Clear lower upper addresses (ground (arith, outside, h)))
    ]

-- The block is what the allocator gave for an address some words behind `previous`, and no address of
-- a peripheral lies between that address and the end of a block at `previous`.
unfoldable pub Found : (ℕ → ℕ → Option ℕ) → List ℕ → ℕ → ℕ → Type 0
Found realloc addresses size p =
    (previous : ℕ) × ((i : ℕ) × ((realloc (previous + i * 4) size ≡ some p)
        × Clear (previous + i * 4) (previous + size) addresses))

safe_search-Found :
    (realloc : ℕ → ℕ → Option ℕ) (addresses : List ℕ) (size left i start p : ℕ)
    → safe_search realloc addresses size left i start ≡ some p
    → Found realloc addresses size p
unfolding safe_search Found
safe_search-Found realloc addresses size zero i start p h = absurd (ground (arith, h))
safe_search-Found realloc addresses size (suc left) i start p h =
    elim (Bool-cases (aerogel_check_peripheral_address (start + i * 4) (start + size) addresses)) [
      | inl free ↦ elim (Option-cases (realloc (start + i * 4) size)) [
        | inl e ↦
            safe_search-Found realloc addresses size left (i + 1) (start + i * 4) p
              (ground (arith, free, e, h))
        | inr (q, e) ↦ (
          start,
          (
            i,
            (ground (arith, free, e, h), check-Clear (start + i * 4) (start + size) addresses free),
          ),
        )
      ]
      | inr taken ↦
          safe_search-Found realloc addresses size left (i + 1) (start + i * 4) p
            (ground (arith, taken, h))
    ]

-- A safe allocation gives what the allocator gave for an address, and has checked the bytes from
-- that address to an end that falls short of the block's by as much as the address was moved.
pub aerogel_wasm_safe_allocation-Found :
    (pool : Bool) (realloc : ℕ → ℕ → Option ℕ) (addresses : List ℕ) (start size p : ℕ)
    → aerogel_wasm_safe_allocation pool realloc addresses start size ≡ some p
    → Found realloc addresses size p
unfolding aerogel_wasm_safe_allocation
aerogel_wasm_safe_allocation-Found true realloc addresses start size p h =
    safe_search-Found realloc addresses size 2047 1 start p h
aerogel_wasm_safe_allocation-Found false realloc addresses start size p h =
    absurd (ground (arith, h))
