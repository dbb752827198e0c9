-- ===== src/Rest/Url/Patterns.antt =====
-- `match_url` by the kind of pattern.
use wasm_trustzone.Base.{
  ℕ, zero, suc, ◌+◌, ◌-◌, ◌≤◌, ◌≡◌, refl, ◌∙◌, false, ◌||◌, List, [], ◌∷◌, ◌++◌, arith, ◌==◌,
  length, length-append, get_or, take,
}
use wasm_trustzone.Aerogel.CString.{str_eq, starts_with}
use wasm_trustzone.Rest.Url.{
  skip_slash, same_start, trimmed_length, match_tree, match_pattern, match_url,
}
use wasm_trustzone.Rest.Url.Segments.{get_or-append}

get_or_last : (s : List ℕ) (c : ℕ) → get_or (s ++ c ∷ []) (length (s ++ c ∷ []) - 1) 0 ≡ c
get_or_last s c =
    let len : length (s ++ c ∷ []) - 1 ≡ length s = omega (arith, length-append s (c ∷ [])) in
    rw len (get_or-append s (c ∷ []))

same_start-starts_with : (p q s : List ℕ) → same_start (p ++ q) s (length p) ≡ starts_with s p
unfolding same_start str_eq starts_with
same_start-starts_with [] q s = refl
same_start-starts_with (c ∷ p) q [] = refl
same_start-starts_with (c ∷ p) q (x ∷ s) =
    let rest = same_start-starts_with p q s in ground (arith, rest)

-- With the pattern's own '/' skipped.
match_url-skipped :
    (p matched : List ℕ)
    → (trimmed_length (skip_slash matched) == 0) ≡ false
    → match_url (b'/' ∷ p) matched
      ≡ match_pattern p (skip_slash matched) (trimmed_length (skip_slash matched))
unfolding match_url skip_slash
match_url-skipped p matched h = rw h refl

length_last : (s : List ℕ) (c : ℕ) → length (s ++ c ∷ []) ≡ length s + 1
length_last s c = omega (arith, length-append s (c ∷ []))

match_pattern-star : (p m : List ℕ) (ml : ℕ) → match_pattern (p ++ b'*' ∷ []) m ml ≡ starts_with m p
unfolding match_pattern
match_pattern-star p m ml =
    let len = length_last p b'*' in
    let last = get_or_last p b'*' in
    let same = same_start-starts_with p (b'*' ∷ []) m in
    let back : length p + 1 - 1 ≡ length p = omega arith in
    let some_left : (length p + 1 == 0) ≡ false = ground arith in
    rw (last, len, back, some_left) same

starts_with-nil : (p : List ℕ) (c : ℕ) → starts_with [] (p ++ c ∷ []) ≡ false
unfolding starts_with
starts_with-nil [] c = refl
starts_with-nil (d ∷ p) c = refl

-- The code's conditions on a url below a directory.
match_tree-below :
    (p m : List ℕ) (ml : ℕ)
    → ml ≤ length m
    → length m ≤ ml + 1
    → match_tree (p ++ b'/' ∷ []) m ml (length p)
      ≡ (str_eq (take ml m) p || starts_with m (p ++ b'/' ∷ []))
unfolding match_tree same_start str_eq starts_with
match_tree-below [] m zero h k = refl
match_tree-below [] [] (suc ml) h k = absurd (omega arith)
match_tree-below [] (c ∷ m) (suc ml) h k = ground arith
match_tree-below (d ∷ p) [] ml h k = ground arith
match_tree-below (d ∷ p) (c ∷ []) zero h k = ground (arith, starts_with-nil p b'/')
match_tree-below (d ∷ p) (c ∷ e ∷ m) zero h k = absurd (omega arith)
match_tree-below (d ∷ p) (c ∷ m) (suc ml) h k =
    let rest = match_tree-below p m ml (omega arith) (omega arith) in ground (arith, rest)

match_pattern-tree :
    (p m : List ℕ) (ml : ℕ)
    → ml ≤ length m
    → length m ≤ ml + 1
    → match_pattern (p ++ b'/' ∷ []) m ml ≡ (str_eq (take ml m) p || starts_with m (p ++ b'/' ∷ []))
unfolding match_pattern
match_pattern-tree p m ml h k =
    let len = length_last p b'/' in
    let last = get_or_last p b'/' in
    let below = match_tree-below p m ml h k in
    let back : length p + 1 - 1 ≡ length p = omega arith in
    let some_left : (length p + 1 == 0) ≡ false = ground arith in
    rw (last, len, back, some_left) below

match_pattern-literal :
    (p m : List ℕ) (c ml : ℕ)
    → (c == b'/') ≡ false
    → (c == b'*') ≡ false
    → match_pattern (p ++ c ∷ []) m ml ≡ str_eq (p ++ c ∷ []) m
unfolding match_pattern
match_pattern-literal p m c ml h k =
    let len = length_last p c in
    let last = get_or_last p c in
    let some_left : (length p + 1 == 0) ≡ false = ground arith in
    rw (last, len, some_left, h, k) refl

trimmed_length-bounds :
    (s : List ℕ) → (trimmed_length s ≤ length s) × (length s ≤ trimmed_length s + 1)
unfolding trimmed_length
trimmed_length-bounds s = ground arith

-- A pattern `/p*` matches the urls that start with `p` behind their first '/'; a pattern `/p/` those
-- that are `p`, with or without a '/' at the end, or lie below it; any other pattern the one url that
-- it spells. The url is neither empty nor "/", nor "//".
pub match_url-kinds :
    (p matched : List ℕ) (c : ℕ)
    → (trimmed_length (skip_slash matched) == 0) ≡ false
    → (c == b'/') ≡ false
    → (c == b'*') ≡ false
    → (match_url (b'/' ∷ p ++ b'*' ∷ []) matched ≡ starts_with (skip_slash matched) p)
      × ((match_url (b'/' ∷ p ++ b'/' ∷ []) matched ≡ (
            str_eq (take (trimmed_length (skip_slash matched)) (skip_slash matched)) p
            || starts_with (skip_slash matched) (p ++ b'/' ∷ [])))
          × (match_url (b'/' ∷ p ++ c ∷ []) matched ≡ str_eq (p ++ c ∷ []) (skip_slash matched)))
match_url-kinds p matched c h slash star =
    let m = skip_slash matched in
    let ml = trimmed_length m in
    let (low, high) = trimmed_length-bounds m in
    (
      match_url-skipped (p ++ b'*' ∷ []) matched h ∙ match_pattern-star p m ml,
      (
        match_url-skipped (p ++ b'/' ∷ []) matched h ∙ match_pattern-tree p m ml low high,
        match_url-skipped (p ++ c ∷ []) matched h ∙ match_pattern-literal p m c ml slash star,
      ),
    )
