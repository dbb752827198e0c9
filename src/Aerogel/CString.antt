-- ===== src/Aerogel/CString.antt =====
-- The functions of <string.h> and <stdlib.h> that the access control uses.
use wasm_trustzone.Base.{
  ℕ, ◌+◌, ◌-◌, ◌*◌, Bool, true, false, ◌&&◌, List, [], ◌∷◌, Option, none, some, leb, ◌==◌,
  if◌then◌else◌,
}

unfoldable pub starts_with : List ℕ → List ℕ → Bool
starts_with s [] = true
starts_with [] (c ∷ cs) = false
starts_with (x ∷ s) (c ∷ cs) = (x == c) && starts_with s cs

-- The string from the first occurrence on.
unfoldable pub strstr : List ℕ → List ℕ → Option (List ℕ)
strstr [] needle = if starts_with [] needle then some [] else none
strstr (c ∷ s) needle =
    let rest = strstr s needle in if starts_with (c ∷ s) needle then some (c ∷ s) else rest

-- `if (strstr(s, needle))`.
unfoldable pub contains : List ℕ → List ℕ → Bool
contains s needle = elim (strstr s needle) [ none ↦ false | some at ↦ true ]

-- `!strcmp(s, t)`.
unfoldable pub str_eq : List ℕ → List ℕ → Bool
str_eq [] [] = true
str_eq [] (y ∷ t) = false
str_eq (x ∷ s) [] = false
str_eq (x ∷ s) (y ∷ t) = (x == y) && str_eq s t

-- What comes before the first byte `c`.
unfoldable pub until : ℕ → List ℕ → List ℕ
until c [] = []
until c (x ∷ s) = let rest = until c s in if x == c then [] else x ∷ rest

unfoldable pub digits : ℕ → List ℕ → ℕ
digits acc [] = acc
digits acc (d ∷ s) =
    let rest = digits (acc * 10 + (d - b'0')) s in if leb b'0' d && leb d b'9' then rest else acc

-- `atoi` on a string that begins with no sign and no space.
unfoldable pub atoi : List ℕ → ℕ
unfolding digits
atoi s = digits 0 s
