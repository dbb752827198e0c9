-- ===== src/Rest/KeyValue/Passes.antt =====
-- One pass of the search over a buffer of pairs.
use wasm_trustzone.Base.{
  ℕ, suc, ◌+◌, ◌-◌, ◌≤◌, ◌≡◌, inl, inr, refl, sym, ◌∙◌, ap, true, false, ◌||◌, List, [], ◌∷◌, ◌++◌,
  none, some, arith, ltb, leb, ◌==◌, if◌then◌else◌, Bool-cases, length, length-append, take,
}
use wasm_trustzone.Aerogel.CString.{str_eq}
use wasm_trustzone.Rest.Url.Segments.{str_eq-eq}
use wasm_trustzone.Rest.KeyValue.Entries.{
  Without, Entry, IsEntry, behind, value_of, key_test, copy_value-text, next_key-behind,
  next_key-append, next_key-equals, skip_blanks-body, drop-append,
}
use wasm_trustzone.Rest.KeyValue.{skip_blanks, found, again, found_value, go_on, try_key, find_pass}

-- What a pass does with an entry.
pub try_key-body :
    (d : ℕ) (key : List ℕ) (n : ℕ) (name text : List ℕ) (es : List Entry)
    → (d == b'=') ≡ false
    → Without b'=' key
    → IsEntry d (record { name = name; text = text })
    → (leb (length (name ++ b'=' ∷ (text ++ behind d es))) (length key)) ≡ false
    → try_key d key n (
        some (record {
          p = name ++ b'=' ∷ (text ++ behind d es);
          remaining = length (name ++ b'=' ∷ (text ++ behind d es));
        }))
      ≡ (if str_eq name key
          then found (take (n - 1) text)
          else again (record { p = behind d es; remaining = length (behind d es) }))
unfolding try_key IsEntry found_value go_on
try_key-body d key n name text es h k (wd, (we, (wt, (wz, wb)))) long =
    let rest = text ++ behind d es in
    let test = key_test name rest key we k in
    elim (Bool-cases (str_eq name key)) [
      | inl same ↦
          let key_len = sym (ap (λ s. length s) (str_eq-eq name key same)) in
          let left : length (name ++ b'=' ∷ rest) - (length name + 1) ≡ length rest =
            omega (arith, length-append name (b'=' ∷ rest)) in
          rw (long, test, same, key_len, drop-append name b'=' rest, left)
            (ap (λ v. found_value v) (copy_value-text d text es (n - 1) wt))
      | inr other ↦
          let along =
            next_key-append d name (b'=' ∷ rest) wd
            ∙ next_key-equals d rest h
            ∙ next_key-behind d text es wt in
          rw (long, test, other) (ap (λ t. go_on t) along)
    ]

pub shorter :
    (d : ℕ) (name text : List ℕ) (es : List Entry) (key : List ℕ)
    → length (name ++ b'=' ∷ (text ++ behind d es)) ≤ length key
    → str_eq name key ≡ false
shorter d name text es key h = elim (Bool-cases (str_eq name key)) [
  | inl same ↦
      let key_len = ap (λ s. length s) (str_eq-eq name key same) in
      absurd (omega (arith, key_len, length-append name (b'=' ∷ (text ++ behind d es))))
  | inr other ↦ other
]

pub value_of-shorter :
    (d k : ℕ) (es : List Entry) (key : List ℕ)
    → length (behind d es) ≤ length key + 1
    → value_of k key es ≡ none
unfolding value_of behind
value_of-shorter d k [] key h = refl
value_of-shorter d k (e ∷ es) key h =
    let other = shorter d e.name e.text es key (omega arith) in
    let more = value_of-shorter d k es key (
      omega (
        arith,
        length-append e.name (b'=' ∷ (e.text ++ behind d es)),
        length-append e.text (behind d es),
      )) in
    rw other more

find_pass-go :
    (d : ℕ) (key : List ℕ) (n c : ℕ) (p : List ℕ) (r : ℕ)
    → (c == 0) ≡ false
    → find_pass d key n (record { p = c ∷ p; remaining = suc r })
      ≡ try_key d key n (skip_blanks d (c ∷ p) (suc r))
unfolding find_pass
find_pass-go d key n c p r h = let left : ltb 0 (suc r) ≡ true = ground arith in rw (h, left) refl

skip_blanks-delimiter :
    (d : ℕ) (p : List ℕ) (r : ℕ) → skip_blanks d (d ∷ p) (suc r) ≡ skip_blanks d p r
unfolding skip_blanks
skip_blanks-delimiter d p r =
    let blank : (d == b' ' || (d == d)) ≡ true = ground arith in
    let back : suc r - 1 ≡ r = omega arith in rw (blank, back) refl

-- The cursor of a pass that starts at a delimiter, and of the first.
pub find_pass-behind :
    (d : ℕ) (key : List ℕ) (n : ℕ) (e : Entry) (es : List Entry)
    → (d == 0) ≡ false
    → (d == b'=') ≡ false
    → IsEntry d e
    → find_pass d key n (record { p = behind d (e ∷ es); remaining = length (behind d (e ∷ es)) })
      ≡ try_key d key n (
          some (record {
            p = e.name ++ b'=' ∷ (e.text ++ behind d es);
            remaining = length (e.name ++ b'=' ∷ (e.text ++ behind d es));
          }))
unfolding behind IsEntry
find_pass-behind d key n e es h k (wd, (we, (wt, (wz, wb)))) =
    let entry = e.name ++ b'=' ∷ (e.text ++ behind d es) in
    find_pass-go d key n d entry (length entry) h
    ∙ ap (λ s. try_key d key n s)
        (skip_blanks-delimiter d entry (length entry)
          ∙ skip_blanks-body d e.name (e.text ++ behind d es) (length entry) k wd wb)

pub find_pass-start :
    (d : ℕ) (key : List ℕ) (n : ℕ) (name rest : List ℕ)
    → (d == b'=') ≡ false
    → Without d name
    → Without 0 name
    → Without b' ' name
    → find_pass d key n
        (record { p = name ++ b'=' ∷ rest; remaining = length (name ++ b'=' ∷ rest) })
      ≡ try_key d key n
          (some (record { p = name ++ b'=' ∷ rest; remaining = length (name ++ b'=' ∷ rest) }))
unfolding Without
find_pass-start d key n [] rest k wd wz wb =
    find_pass-go d key n b'=' rest (length rest) refl
    ∙ ap (λ s. try_key d key n s) (skip_blanks-body d [] rest (length (b'=' ∷ rest)) k tt tt)
find_pass-start d key n (c ∷ name) rest k (d1, wd) (z1, wz) (b1, wb) =
    let entry = name ++ b'=' ∷ rest in
    find_pass-go d key n c entry (length entry) z1
    ∙ ap (λ s. try_key d key n s)
        (skip_blanks-body d (c ∷ name) rest (suc (length entry)) k (d1, wd) (b1, wb))
