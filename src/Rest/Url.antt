-- ===== src/Rest/Url.antt =====
-- `check_url_start` and `match_url` of core/app-framework/app-native-shared/restful_utils.c. A string
-- is the list of the bytes before its NUL; a url that comes with its length is the list of its bytes.
pub mod Segments
pub mod Patterns
mod Tests
use wasm_trustzone.Base.{
  ℕ, zero, suc, ◌+◌, ◌-◌, Bool, true, false, not, ◌&&◌, List, [], ◌∷◌, ltb, ◌==◌, if◌then◌else◌,
  length, get_or, take,
}
use wasm_trustzone.Aerogel.CString.{str_eq}

unfoldable pub skip_slash : List ℕ → List ℕ
skip_slash [] = []
skip_slash (c ∷ s) = if c == b'/' then s else c ∷ s

unfoldable pub slash_offset : List ℕ → ℕ
slash_offset [] = 0
slash_offset (c ∷ s) = if c == b'/' then 1 else 0

-- `memcmp(s, t, n) == 0` where both have `n` bytes, and `strncmp(s, t, n) == 0` of two strings.
unfoldable pub same_start : List ℕ → List ℕ → ℕ → Bool
same_start s t n = str_eq (take n s) (take n t)

-- The length without a '/' at the end.
unfoldable pub trimmed_length : List ℕ → ℕ
trimmed_length s =
    let len = length s in
    if len == 0 then 0 else if get_or s (len - 1) 0 == b'/' then len - 1 else len

-- Behind the adjustment of both strings.
unfoldable pub url_offset : ℕ → List ℕ → List ℕ → ℕ → ℕ
url_offset offset url leading_str len =
    if length url == len
    then (if same_start url leading_str len then offset + len else 0)
    else if ltb (length url) len
    then 0
    else if not (same_start url leading_str len)
    then 0
    else if not (get_or url len 0 == b'/') && not (get_or url len 0 == b'?')
    then 0
    else offset + len + 1

unfoldable pub check_url_start : List ℕ → List ℕ → ℕ
check_url_start url leading_str =
    let len = trimmed_length (skip_slash leading_str) in
    if len == 0
    then 0
    else url_offset (slash_offset url) (skip_slash url) (skip_slash leading_str) len

-- The three kinds of pattern.
unfoldable pub match_tree : List ℕ → List ℕ → ℕ → ℕ → Bool
match_tree pattern matched matched_len len =
    if not (same_start pattern matched len)
    then false
    else if len == matched_len
    then true
    else if ltb len matched_len && (get_or matched len 0 == b'/')
    then true
    else false

unfoldable pub match_pattern : List ℕ → List ℕ → ℕ → Bool
match_pattern pattern matched matched_len =
    let len = length pattern in
    if len == 0
    then false
    else if get_or pattern (len - 1) 0 == b'/'
    then match_tree pattern matched matched_len (len - 1)
    else if get_or pattern (len - 1) 0 == b'*'
    then same_start pattern matched (len - 1)
    else str_eq pattern matched

unfoldable pub match_url : List ℕ → List ℕ → Bool
match_url pattern matched =
    let matched_len = trimmed_length (skip_slash matched) in
    if matched_len == 0
    then false
    else match_pattern (skip_slash pattern) (skip_slash matched) matched_len
