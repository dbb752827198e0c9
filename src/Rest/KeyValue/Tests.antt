-- ===== src/Rest/KeyValue/Tests.antt =====
-- Keys in concrete buffers.
use wasm_trustzone.Base.{ℕ, List, [], ◌∷◌, ◌-◌, ◌≡◌, ◌≢◌, refl, some, none, arith, length}
use wasm_trustzone.Rest.KeyValue.Termination.{find_key_value-ends}
use wasm_trustzone.Rest.KeyValue.Entries.{Entry, Without, IsEntry, AreEntries, render, value_of}
use wasm_trustzone.Rest.KeyValue.Lookup.{find_key_value-value_of}
use wasm_trustzone.Rest.KeyValue.{
  find_key_value, copied, found_value, go_on, copy_value, try_key, find_pass, next_key, skip_blanks,
  find_loop,
}
use wasm_trustzone.Aerogel.CString.{starts_with}

-- "ab=12;c=3", 9 bytes.
abbrev two_pairs : List ℕ
two_pairs = b'a' ∷ b'b' ∷ b'=' ∷ b'1' ∷ b'2' ∷ b';' ∷ b'c' ∷ b'=' ∷ b'3' ∷ []

second_key : find_key_value two_pairs 9 (b'c' ∷ []) 8 b';' ≡ some (some (b'3' ∷ []))
unfolding find_key_value find_loop find_pass try_key skip_blanks starts_with next_key copy_value
    copied found_value go_on
second_key = refl

no_key : find_key_value two_pairs 9 (b'd' ∷ []) 8 b';' ≡ some none
unfolding find_key_value find_loop find_pass try_key skip_blanks starts_with next_key go_on
no_key = refl

cut_value : find_key_value two_pairs 9 (b'a' ∷ b'b' ∷ []) 2 b';' ≡ some (some (b'1' ∷ []))
unfolding find_key_value find_loop find_pass try_key skip_blanks starts_with next_key copy_value
    copied found_value go_on
cut_value = refl

-- A length of one byte too many, which the scan for the next key follows.
beyond : find_key_value two_pairs 10 (b'd' ∷ []) 8 b';' ≡ none
unfolding find_key_value find_loop find_pass try_key skip_blanks starts_with next_key go_on
beyond = refl

find_key_value-ends_example : find_key_value two_pairs 9 (b'c' ∷ []) 8 b';' ≢ none
find_key_value-ends_example = find_key_value-ends two_pairs 9 (b'c' ∷ []) 8 b';' refl (omega arith)

abbrev entries : List Entry
entries =
    record { name = b'a' ∷ b'b' ∷ []; text = b'1' ∷ b'2' ∷ [] }
    ∷ record { name = b'c' ∷ []; text = b'3' ∷ [] }
    ∷ []

entries_ok : AreEntries b';' entries
unfolding AreEntries IsEntry Without
entries_ok = (
  (
    (refl, (refl, tt)),
    ((refl, (refl, tt)), ((refl, (refl, tt)), ((refl, (refl, tt)), (refl, (refl, tt))))),
  ),
  (((refl, tt), ((refl, tt), ((refl, tt), ((refl, tt), (refl, tt))))), tt),
)

key_ok : Without b'=' (b'c' ∷ [])
unfolding Without
key_ok = (refl, tt)

find_key_value-value_of_example :
    find_key_value (render b';' entries) (length (render b';' entries)) (b'c' ∷ []) 8 b';'
    ≡ some (value_of (8 - 1) (b'c' ∷ []) entries)
find_key_value-value_of_example =
    find_key_value-value_of b';' (b'c' ∷ []) 8 entries refl refl key_ok entries_ok
