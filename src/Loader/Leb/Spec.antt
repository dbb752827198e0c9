-- ===== src/Loader/Leb/Spec.antt =====
-- The integer encodings of the WebAssembly specification (binary format, "Integers"), as they
-- stand there: uN and sN by recursion on the number of bits. The result is the value and the
-- number of bytes of its encoding.
use wasm_trustzone.Base.{
  ℕ, ◌+◌, ◌-◌, ◌*◌, ◌^◌, ◌<◌, List, [], ◌∷◌, Option, none, some, ltb, leb, if◌then◌else◌,
}
use wasm_trustzone.Base.Int.{ℤ, pos, negsuc, ◌+ℤ◌, ◌*ℤ◌}

-- Every element of a buffer is a byte.
abbrev pub Bytes : List ℕ → Type 0
Bytes [] = Unit {0}
Bytes (b ∷ bs) = (b < 256) × Bytes bs

abbrev pub above {ℓ} : {A : Type ℓ} → (A → A) → Option (A × ℕ) → Option (A × ℕ)
above f none = none
above f (some (m, l)) = some (f m, l + 1)

-- uN ::= n            (n < 2^7, n < 2^N)          ⇒ n
--      | n  m:u(N-7)  (n ≥ 2^7, N > 7)            ⇒ 2^7 · m + (n - 2^7)
unfoldable pub uleb : ℕ → List ℕ → Option (ℕ × ℕ)
uleb n [] = none
uleb n (b ∷ bs) =
    if ltb b 128
    then (if ltb b (2 ^ n) then some (b, 1) else none)
    else if ltb 7 n
    then above (λ m. m * 128 + (b - 128)) (uleb (n - 7) bs)
    else none

-- sN ::= n            (n < 2^6, n < 2^(N-1))              ⇒ n
--      | n            (2^6 ≤ n < 2^7, n ≥ 2^7 - 2^(N-1))  ⇒ n - 2^7
--      | n  i:s(N-7)  (n ≥ 2^7, N > 7)                    ⇒ 2^7 · i + (n - 2^7)
unfoldable pub sleb : ℕ → List ℕ → Option (ℤ × ℕ)
unfolding ◌+ℤ◌ ◌*ℤ◌
sleb n [] = none
sleb n (b ∷ bs) =
    if ltb b 64
    then (if ltb b (2 ^ (n - 1)) then some (pos b, 1) else none)
    else if ltb b 128
    then (if leb 128 (b + 2 ^ (n - 1)) then some (negsuc (127 - b), 1) else none)
    else if ltb 7 n
    then above (λ z. pos 128 *ℤ z +ℤ pos (b - 128)) (sleb (n - 7) bs)
    else none

-- The number that a pattern of w bits stands for in two's complement.
unfoldable pub signed : ℕ → ℕ → ℤ
signed w x = if ltb (2 * x) (2 ^ w) then pos x else negsuc (2 ^ w - 1 - x)

-- A result read as a two's complement integer of `w` bits.
abbrev pub as_signed : ℕ → Option (ℕ × ℕ) → Option (ℤ × ℕ)
as_signed w none = none
as_signed w (some (x, l)) = some (signed w x, l)
