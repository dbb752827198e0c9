-- ===== src/Rest/KeyValue.antt =====
-- `find_key_value` of core/app-framework/app-native-shared/restful_utils.c, on a buffer whose bytes
-- are followed by a NUL, where the list of them ends. A scan that goes on behind this NUL leaves the
-- buffer.
pub mod Termination
pub mod Entries
pub mod Passes
pub mod Lookup
mod Tests
use wasm_trustzone.Base.{
  ℕ, zero, suc, ◌+◌, ◌-◌, Bool, true, false, not, ◌&&◌, ◌||◌, List, [], ◌∷◌, Option, none, some,
  ltb, leb, ◌==◌, if◌then◌else◌, length, get_or, drop,
}
use wasm_trustzone.Aerogel.CString.{starts_with}

-- The pointer and the number of bytes that remain, which stops at 0: every comparison of it treats
-- a negative number as 0.
pub record Cursor : Type 0 where
  pub p : List ℕ
  pub remaining : ℕ

-- `none` where the loop goes on behind the NUL, also in the two loops below.
unfoldable pub skip_blanks : ℕ → List ℕ → ℕ → Option Cursor
skip_blanks delimiter [] remaining =
    if delimiter == 0 then none else some (record { p = []; remaining = remaining })
skip_blanks delimiter (c ∷ p) remaining =
    let rest = skip_blanks delimiter p (remaining - 1) in
    if c == b' ' || (c == delimiter)
    then rest
    else some (record { p = c ∷ p; remaining = remaining })

-- A byte in front of the bytes that are copied behind it.
unfoldable pub copied : ℕ → Option (List ℕ) → Option (List ℕ)
copied c none = none
copied c (some value) = some (c ∷ value)

-- `while (*p != delimiter && remaining > 0 && value_len > 0)`
unfoldable pub copy_value : ℕ → List ℕ → ℕ → ℕ → Option (List ℕ)
copy_value delimiter [] remaining value_len =
    if not (0 == delimiter) && ltb 0 remaining && ltb 0 value_len then none else some []
copy_value delimiter (c ∷ p) remaining value_len =
    let rest = copy_value delimiter p (remaining - 1) (value_len - 1) in
    if not (c == delimiter) && ltb 0 remaining && ltb 0 value_len then copied c rest else some []

-- `while (*p != delimiter && remaining > 0)`
unfoldable pub next_key : ℕ → List ℕ → ℕ → Option Cursor
next_key delimiter [] remaining =
    if not (0 == delimiter) && ltb 0 remaining
    then none
    else some (record { p = []; remaining = remaining })
next_key delimiter (c ∷ p) remaining =
    let rest = next_key delimiter p (remaining - 1) in
    if not (c == delimiter) && ltb 0 remaining
    then rest
    else some (record { p = c ∷ p; remaining = remaining })

-- One pass of the outer loop: a scan that leaves the buffer, NULL, the value, or the cursor for the next
-- pass.
pub data Pass : Type 0 where
  outside : Pass
  missing : Pass
  found : List ℕ → Pass
  again : Cursor → Pass

unfoldable pub found_value : Option (List ℕ) → Pass
found_value none = outside
found_value (some value) = found value

unfoldable pub go_on : Option Cursor → Pass
go_on none = outside
go_on (some t) = again t

unfoldable pub try_key : ℕ → List ℕ → ℕ → Option Cursor → Pass
try_key delimiter key value_len none = outside
try_key delimiter key value_len (some s) =
    let key_len = length key in
    if leb s.remaining key_len
    then missing
    else if starts_with s.p key && (get_or s.p key_len 0 == b'=')
    then found_value (
        copy_value delimiter (drop (key_len + 1) s.p) (s.remaining - (key_len + 1)) (value_len - 1))
    else go_on (next_key delimiter s.p s.remaining)

unfoldable pub find_pass : ℕ → List ℕ → ℕ → Cursor → Pass
find_pass delimiter key value_len s =
    if not (get_or s.p 0 0 == 0) && ltb 0 s.remaining
    then try_key delimiter key value_len (skip_blanks delimiter s.p s.remaining)
    else missing

-- `none` where the fuel runs out, or a scan leaves the buffer.
unfoldable pub find_loop : ℕ → ℕ → List ℕ → ℕ → Cursor → Option (Option (List ℕ))
find_loop zero delimiter key value_len s = none
find_loop (suc fuel) delimiter key value_len s = elim (find_pass delimiter key value_len s) [
  | outside ↦ none
  | missing ↦ some none
  | found value ↦ some (some value)
  | again t ↦ find_loop fuel delimiter key value_len t
]

-- The bytes put in `value`, where a pointer to it is returned.
unfoldable pub find_key_value : List ℕ → ℕ → List ℕ → ℕ → ℕ → Option (Option (List ℕ))
find_key_value buffer buffer_len key value_len delimiter =
    find_loop (buffer_len + 1) delimiter key value_len
      (record { p = buffer; remaining = buffer_len })
