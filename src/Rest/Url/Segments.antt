-- ===== src/Rest/Url/Segments.antt =====
-- `check_url_start` finds the urls that continue a prefix by a '/', a '?' or nothing.
use wasm_trustzone.Base.{
  ℕ, zero, suc, ◌+◌, ◌≤◌, ◌<◌, ◌≡◌, ◌≢◌, ◌⊎◌, inl, inr, refl, sym, ◌∙◌, ◌↔◌, ap, true, false, List,
  [], ◌∷◌, ◌++◌, arith, ◌==◌, Bool-cases, length, length-append, length-take, take-append-drop,
  get_or, take, drop,
}
use wasm_trustzone.Aerogel.CString.{str_eq}
use wasm_trustzone.Rest.Url.{
  skip_slash, slash_offset, same_start, trimmed_length, url_offset, check_url_start,
}

pub str_eq-eq : (s t : List ℕ) → str_eq s t ≡ true → s ≡ t
unfolding str_eq
str_eq-eq [] [] h = refl
str_eq-eq [] (y ∷ t) h = ground (arith, h)
str_eq-eq (x ∷ s) [] h = ground (arith, h)
str_eq-eq (x ∷ s) (y ∷ t) h = ground (arith, h, str_eq-eq s t)

pub str_eq_self : (s : List ℕ) → str_eq s s ≡ true
unfolding str_eq
str_eq_self [] = refl
str_eq_self (x ∷ s) = ground (arith, str_eq_self s)

pub take-append : (s t : List ℕ) → take (length s) (s ++ t) ≡ s
take-append [] t = refl
take-append (x ∷ s) t = ap (λ r. x ∷ r) (take-append s t)

pub get_or-append : (s t : List ℕ) → get_or (s ++ t) (length s) 0 ≡ get_or t 0 0
get_or-append [] t = refl
get_or-append (x ∷ s) t = get_or-append s t

-- What may follow a prefix that ends a segment.
unfoldable pub Boundary : List ℕ → Type 0
Boundary [] = Unit
Boundary (c ∷ s) = (c ≡ b'/') ⊎ (c ≡ b'?')

-- The offset that ends behind the prefix and the byte that follows it.
unfoldable pub end_of : List ℕ → ℕ → ℕ
end_of [] n = n
end_of (c ∷ s) n = n + 1

-- The prefix that a leading string stands for: without a '/' at either end.
unfoldable pub segment : List ℕ → List ℕ
segment leading_str = take (trimmed_length (skip_slash leading_str)) (skip_slash leading_str)

pub same_start-append :
    (s rest ls : List ℕ) → take (length s) ls ≡ s → same_start (s ++ rest) ls (length s) ≡ true
unfolding same_start
same_start-append s rest ls h = rw (take-append s rest, h) (str_eq_self s)

url_offset-continued :
    (offset : ℕ) (s rest ls : List ℕ)
    → take (length s) ls ≡ s
    → Boundary rest
    → url_offset offset (s ++ rest) ls (length s) ≡ end_of rest (offset + length s)
unfolding url_offset Boundary end_of
url_offset-continued offset s [] ls h b =
    let same = same_start-append s [] ls h in
    let len = length-append s [] in ground (arith, same, len)
url_offset-continued offset s (c ∷ rest) ls h b =
    let same = same_start-append s (c ∷ rest) ls h in
    let len = length-append s (c ∷ rest) in
    let next = get_or-append s (c ∷ rest) in ground (arith, same, len, next, b)

url_offset-found :
    (offset : ℕ) (url ls : List ℕ) (len : ℕ)
    → url_offset offset url ls len ≢ 0
    → (same_start url ls len ≡ true)
      × ((length url ≡ len)
          ⊎ ((len < length url) × ((get_or url len 0 ≡ b'/') ⊎ (get_or url len 0 ≡ b'?'))))
unfolding url_offset
url_offset-found offset url ls len h = elim (Bool-cases (same_start url ls len)) [
  | inl same ↦ ground (arith, same, h)
  | inr other ↦ absurd (ground (arith, other, h))
]

drop-Boundary :
    (len : ℕ) (url : List ℕ)
    → (length url ≡ len)
      ⊎ ((len < length url) × ((get_or url len 0 ≡ b'/') ⊎ (get_or url len 0 ≡ b'?')))
    → Boundary (drop len url)
unfolding Boundary
drop-Boundary zero [] h = tt
drop-Boundary zero (c ∷ url) (inl h) = absurd (omega arith)
drop-Boundary zero (c ∷ url) (inr (h, next)) = next
drop-Boundary (suc len) [] h = tt
drop-Boundary (suc len) (c ∷ url) (inl h) = drop-Boundary len url (inl (omega arith))
drop-Boundary (suc len) (c ∷ url) (inr (h, next)) = drop-Boundary len url (inr (omega arith, next))

trimmed_length-le : (s : List ℕ) → trimmed_length s ≤ length s
unfolding trimmed_length
trimmed_length-le s = ground arith

length-segment :
    (leading_str : List ℕ) → length (segment leading_str) ≡ trimmed_length (skip_slash leading_str)
unfolding segment
length-segment leading_str = omega (
  arith,
  trimmed_length-le (skip_slash leading_str),
  length-take (trimmed_length (skip_slash leading_str)) (skip_slash leading_str),
)

-- Behind its first '/' the url consists of the segment, which is not empty, and a boundary.
unfoldable pub Continues : List ℕ → List ℕ → List ℕ → Type 0
Continues url leading_str rest =
    (segment leading_str ≢ []) × ((skip_slash url ≡ segment leading_str ++ rest) × Boundary rest)

segment-pos :
    (leading_str : List ℕ)
    → (trimmed_length (skip_slash leading_str) == 0) ≡ false
    → segment leading_str ≢ []
segment-pos leading_str h e =
    let len : length (segment leading_str) ≡ 0 = rw e refl in
    ground (arith, len, length-segment leading_str, h)

pos-segment :
    (leading_str : List ℕ)
    → segment leading_str ≢ []
    → (trimmed_length (skip_slash leading_str) == 0) ≡ false
unfolding segment
pos-segment leading_str h = elim (Bool-cases (trimmed_length (skip_slash leading_str) == 0)) [
  | inl e ↦
      let none_left : trimmed_length (skip_slash leading_str) ≡ 0 = ground (arith, e) in
      absurd (h (ap (λ n. take n (skip_slash leading_str)) none_left))
  | inr e ↦ e
]

same_start-split :
    (url ls : List ℕ) (len : ℕ) → same_start url ls len ≡ true → url ≡ take len ls ++ drop len url
unfolding same_start
same_start-split url ls len h = sym (
    ap (λ s. s ++ drop len url) (sym (str_eq-eq (take len url) (take len ls) h))
    ∙ take-append-drop len url)

take-length-segment :
    (leading_str : List ℕ)
    → take (length (segment leading_str)) (skip_slash leading_str) ≡ segment leading_str
unfolding segment
take-length-segment leading_str =
    ap (λ n. take n (skip_slash leading_str)) (length-segment leading_str)

check_url_start-found :
    (url leading_str : List ℕ)
    → check_url_start url leading_str ≢ 0
    → (rest : List ℕ) × Continues url leading_str rest
unfolding check_url_start Continues segment
check_url_start-found url leading_str h =
    let len = trimmed_length (skip_slash leading_str) in
    elim (Bool-cases (len == 0)) [
      | inl e ↦ absurd (ground (arith, e, h))
      | inr e ↦
          let (same, ends) =
            url_offset-found (slash_offset url) (skip_slash url) (skip_slash leading_str) len
              (ground (arith, e, h)) in
          (
            drop len (skip_slash url),
            (
              segment-pos leading_str e,
              (
                same_start-split (skip_slash url) (skip_slash leading_str) len same,
                drop-Boundary len (skip_slash url) ends,
              ),
            ),
          )
    ]

check_url_start-Continues :
    (url leading_str rest : List ℕ)
    → Continues url leading_str rest
    → check_url_start url leading_str
      ≡ end_of rest (slash_offset url + length (segment leading_str))
unfolding check_url_start Continues
check_url_start-Continues url leading_str rest (some_left, (split, ends)) =
    let found =
      url_offset-continued (slash_offset url) (segment leading_str) rest (skip_slash leading_str)
        (take-length-segment leading_str) ends in
    rw (pos-segment leading_str some_left, split, sym (length-segment leading_str)) found

end_of-pos : (rest s : List ℕ) (n : ℕ) → s ≢ [] → end_of rest (n + length s) ≢ 0
unfolding end_of
end_of-pos rest [] n h e = h refl
end_of-pos [] (c ∷ s) n h e = omega arith
end_of-pos (d ∷ rest) (c ∷ s) n h e = omega arith

-- A url is found to start with a leading string exactly where, behind its first '/', it consists of
-- the string without a '/' at its ends, which is not empty, and nothing, a '/' or a '?' and more; the
-- offset found is then that of the byte behind this boundary.
pub check_url_start_iff :
    (url leading_str : List ℕ)
    → (check_url_start url leading_str ≢ 0) ↔ (
        (rest : List ℕ) × (Continues url leading_str rest
          × (check_url_start url leading_str
              ≡ end_of rest (slash_offset url + length (segment leading_str)))))
unfolding Continues
check_url_start_iff url leading_str = (
  λ h.
      let (rest, ok) = check_url_start-found url leading_str h in
      (rest, (ok, check_url_start-Continues url leading_str rest ok)),
  λ (rest, ((some_left, ends), offset)).
      rw offset (end_of-pos rest (segment leading_str) (slash_offset url) some_left),
)
