-- ===== src/Rest/KeyValue/Termination.antt =====
-- The search for a key ends, and within its buffer.
use wasm_trustzone.Base.{
  ℕ, zero, suc, ◌+◌, ◌-◌, ◌≤◌, ◌<◌, ◌≡◌, ◌≢◌, ◌⊎◌, inl, inr, refl, subst, true, false, not, ◌&&◌,
  ◌||◌, List, [], ◌∷◌, Option, none, some, arith, ltb, leb, ◌==◌, Bool-cases, if-both, length,
  length-drop, get_or, drop,
}
use wasm_trustzone.Aerogel.CString.{starts_with}
use wasm_trustzone.Rest.KeyValue.{
  Cursor, skip_blanks, copied, copy_value, next_key, Pass, outside, missing, found, again,
  found_value, go_on, try_key, find_pass, find_loop, find_key_value,
}

-- A scan ends in the buffer, with no more bytes than before.
unfoldable EndsWithin : ℕ → Option Cursor → Type 0
EndsWithin r none = ⊥
EndsWithin r (some t) = (t.remaining ≤ r) × (t.remaining ≤ length t.p)

EndsWithin-≤ : (r n : ℕ) (o : Option Cursor) → r ≤ n → EndsWithin r o → EndsWithin n o
unfolding EndsWithin
EndsWithin-≤ r n none le h = h
EndsWithin-≤ r n (some t) le (h, k) = (omega arith, k)

next_key-EndsWithin : (d : ℕ) (p : List ℕ) (r : ℕ) → r ≤ length p → EndsWithin r (next_key d p r)
unfolding next_key EndsWithin
next_key-EndsWithin d [] r h =
    let end : ltb 0 r ≡ false = ground arith in
    elim (Bool-cases (0 == d)) [
      | inl stop ↦ rw stop (omega arith, h)
      | inr on ↦ rw (on, end) (omega arith, h)
    ]
next_key-EndsWithin d (c ∷ p) r h = elim (Bool-cases (not (c == d) && ltb 0 r)) [
  | inl on ↦ rw on (
      EndsWithin-≤ (r - 1) r (next_key d p (r - 1)) (omega arith)
        (next_key-EndsWithin d p (r - 1) (omega (arith, h))))
  | inr stop ↦ rw stop (omega arith, h)
]

-- From a byte that is not the delimiter it moves.
next_key-moves :
    (d c : ℕ) (p : List ℕ) (r : ℕ)
    → (c == d) ≡ false
    → 0 < r
    → r ≤ suc (length p)
    → EndsWithin (r - 1) (next_key d (c ∷ p) r)
unfolding next_key
next_key-moves d c p r away some_left h =
    let left : ltb 0 r ≡ true = ground arith in
    rw (away, left) (next_key-EndsWithin d p (r - 1) (omega arith))

-- Where the blanks end: within the buffer, at the NUL or at a byte that is none.
unfoldable NoBlank : ℕ → List ℕ → Type 0
NoBlank d [] = Unit
NoBlank d (c ∷ p) = (c == b' ' || (c == d)) ≡ false

unfoldable Skipped : ℕ → ℕ → Option Cursor → Type 0
Skipped d r none = ⊥
Skipped d r (some t) = (t.remaining ≤ r) × (t.remaining ≤ length t.p) × NoBlank d t.p

Skipped-≤ : (d r n : ℕ) (o : Option Cursor) → r ≤ n → Skipped d r o → Skipped d n o
unfolding Skipped
Skipped-≤ d r n none le h = h
Skipped-≤ d r n (some t) le (h, k, b) = (omega arith, k, b)

skip_blanks-Skipped :
    (d : ℕ) (p : List ℕ) (r : ℕ) → (d == 0) ≡ false → r ≤ length p → Skipped d r (skip_blanks d p r)
unfolding skip_blanks Skipped NoBlank
skip_blanks-Skipped d [] r z h = rw z (omega arith, h, tt)
skip_blanks-Skipped d (c ∷ p) r z h = elim (Bool-cases (c == b' ' || (c == d))) [
  | inl blank ↦ rw blank (
      Skipped-≤ d (r - 1) r (skip_blanks d p (r - 1)) (omega arith)
        (skip_blanks-Skipped d p (r - 1) z (omega (arith, h))))
  | inr other ↦ rw other (omega arith, h, other)
]

-- A copy ends in the buffer.
copy_value-ends :
    (d : ℕ) (p : List ℕ) (r n : ℕ) → r ≤ length p → (v : List ℕ) × (copy_value d p r n ≡ some v)
unfolding copy_value copied
copy_value-ends d [] r n h =
    let end : ltb 0 r ≡ false = ground arith in
    ([], elim (Bool-cases (0 == d)) [ inl stop ↦ rw stop refl | inr on ↦ rw (on, end) refl ])
copy_value-ends d (c ∷ p) r n h =
    let (v, more) = copy_value-ends d p (r - 1) (n - 1) (omega (arith, h)) in
    elim (Bool-cases (not (c == d) && ltb 0 r && ltb 0 n)) [
      | inl on ↦ (c ∷ v, rw (on, more) refl)
      | inr stop ↦ ([], rw stop refl)
    ]

-- A pass stays in the buffer, and one that goes on leaves fewer bytes.
unfoldable Shrinks : ℕ → Pass → Type 0
Shrinks n outside = ⊥
Shrinks n missing = Unit
Shrinks n (found value) = Unit
Shrinks n (again t) = (t.remaining < n) × (t.remaining ≤ length t.p)

Pass-cases :
    (o : Pass)
    → (o ≡ outside)
      ⊎ ((o ≡ missing) ⊎ (((v : List ℕ) × (o ≡ found v)) ⊎ ((t : Cursor) × (o ≡ again t))))
Pass-cases outside = inl refl
Pass-cases missing = inr (inl refl)
Pass-cases (found v) = inr (inr (inl (v, refl)))
Pass-cases (again t) = inr (inr (inr (t, refl)))

go_on-Shrinks : (r n : ℕ) (o : Option Cursor) → r < n → EndsWithin r o → Shrinks n (go_on o)
unfolding go_on EndsWithin Shrinks
go_on-Shrinks r n none lt h = h
go_on-Shrinks r n (some t) lt (h, k) = (omega arith, k)

next_key-Shrinks :
    (d : ℕ) (p : List ℕ) (r n : ℕ)
    → NoBlank d p
    → 0 < r
    → r ≤ n
    → r ≤ length p
    → Shrinks n (go_on (next_key d p r))
unfolding NoBlank
next_key-Shrinks d [] r n b lt le h = absurd (omega arith)
next_key-Shrinks d (c ∷ p) r n b lt le h =
    go_on-Shrinks (r - 1) n (next_key d (c ∷ p) r) (omega arith)
      (next_key-moves d c p r (ground (arith, b)) lt h)

found_value-Shrinks :
    (d : ℕ) (p : List ℕ) (r m n : ℕ) → r ≤ length p → Shrinks n (found_value (copy_value d p r m))
unfolding found_value Shrinks
found_value-Shrinks d p r m n h = let (v, e) = copy_value-ends d p r m h in rw e tt

try_key-Shrinks :
    (d : ℕ) (key : List ℕ) (m n : ℕ) (o : Option Cursor)
    → Skipped d n o
    → Shrinks n (try_key d key m o)
unfolding try_key Skipped Shrinks
try_key-Shrinks d key m n none h = h
try_key-Shrinks d key m n (some t) (le, inside, b) =
    elim (Bool-cases (leb t.remaining (length key))) [
      | inl short ↦ rw short tt
      | inr long ↦ rw long (
          if-both (λ o. Shrinks n o) (starts_with t.p key && (get_or t.p (length key) 0 == b'='))
            (found_value-Shrinks d (drop (length key + 1) t.p) (t.remaining - (length key + 1))
              (m - 1) n (omega (arith, inside, length-drop (length key + 1) t.p)))
            (next_key-Shrinks d t.p t.remaining n b (ground (arith, long)) le inside))
    ]

find_pass-Shrinks :
    (d : ℕ) (key : List ℕ) (n : ℕ) (s : Cursor)
    → (d == 0) ≡ false
    → s.remaining ≤ length s.p
    → Shrinks s.remaining (find_pass d key n s)
unfolding find_pass Shrinks
find_pass-Shrinks d key n s z h =
    if-both (λ o. Shrinks s.remaining o) (not (get_or s.p 0 0 == 0) && ltb 0 s.remaining)
      (try_key-Shrinks d key n s.remaining (skip_blanks d s.p s.remaining)
        (skip_blanks-Skipped d s.p s.remaining z h))
      tt

-- With fuel above the number of bytes the search ends.
find_loop-ends :
    (fuel d : ℕ) (key : List ℕ) (n : ℕ) (s : Cursor)
    → (d == 0) ≡ false
    → s.remaining ≤ length s.p
    → s.remaining < fuel
    → find_loop fuel d key n s ≢ none
unfolding find_loop Shrinks
find_loop-ends zero d key n s z h k e = absurd (omega arith)
find_loop-ends (suc fuel) d key n s z h k e =
    let shrinks = find_pass-Shrinks d key n s z h in
    elim (Pass-cases (find_pass d key n s)) [
      | inl o ↦ absurd (subst (λ x. Shrinks s.remaining x) o shrinks)
      | inr (inl o) ↦ absurd (ground (arith, o, e))
      | inr (inr (inl (v, o))) ↦ absurd (ground (arith, o, e))
      | inr (inr (inr (t, o))) ↦
          let (fewer, inside) = subst (λ x. Shrinks s.remaining x) o shrinks in
          find_loop-ends fuel d key n t z inside (omega arith) (ground (arith, o, e))
    ]

-- With a delimiter other than NUL the search for a key ends, and no scan leaves the buffer, whatever the
-- buffer holds, where `buffer_len` is at most the number of bytes before the NUL behind it.
pub find_key_value-ends :
    (buffer : List ℕ) (buffer_len : ℕ) (key : List ℕ) (value_len delimiter : ℕ)
    → (delimiter == 0) ≡ false
    → buffer_len ≤ length buffer
    → find_key_value buffer buffer_len key value_len delimiter ≢ none
unfolding find_key_value
find_key_value-ends buffer buffer_len key value_len delimiter z h =
    find_loop-ends (buffer_len + 1) delimiter key value_len
      (record { p = buffer; remaining = buffer_len }) z h (omega arith)
