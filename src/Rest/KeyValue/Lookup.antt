-- ===== src/Rest/KeyValue/Lookup.antt =====
-- The search finds in a buffer of pairs the value of the first pair with the key.
use wasm_trustzone.Base.{
  ℕ, zero, suc, ◌+◌, ◌-◌, ◌<◌, ◌≡◌, inl, inr, refl, ◌∙◌, ap, false, List, [], ◌∷◌, ◌++◌, none, some,
  arith, leb, leb→le, ◌==◌, Bool-cases, length, length-append,
}
use wasm_trustzone.Aerogel.CString.{str_eq}
use wasm_trustzone.Rest.KeyValue.Entries.{
  Without, Entry, IsEntry, AreEntries, behind, render, value_of,
}
use wasm_trustzone.Rest.KeyValue.{
  Cursor, Pass, outside, missing, found, again, try_key, find_pass, find_loop, find_key_value,
}
use wasm_trustzone.Rest.KeyValue.Passes.{
  try_key-body, shorter, value_of-shorter, find_pass-behind, find_pass-start,
}

find_loop-pass :
    (fuel d : ℕ) (key : List ℕ) (n : ℕ) (s : Cursor) (o : Pass)
    → find_pass d key n s ≡ o
    → find_loop (suc fuel) d key n s ≡ elim o [
      | outside ↦ none
      | missing ↦ some none
      | found v ↦ some (some v)
      | again t ↦ find_loop fuel d key n t
    ]
unfolding find_loop
find_loop-pass fuel d key n s o e =
    ap
      (λ x. elim x [
        | outside ↦ none
        | missing ↦ some none
        | found v ↦ some (some v)
        | again t ↦ find_loop fuel d key n t
      ])
      e

-- A pass that stands at an entry, with what the loop does behind it.
find_loop-entry :
    (fuel d : ℕ) (key : List ℕ) (n : ℕ) (e : Entry) (es : List Entry) (s : Cursor)
    → (d == b'=') ≡ false
    → Without b'=' key
    → IsEntry d e
    → find_pass d key n s
      ≡ try_key d key n (
          some (record {
            p = e.name ++ b'=' ∷ (e.text ++ behind d es);
            remaining = length (e.name ++ b'=' ∷ (e.text ++ behind d es));
          }))
    → find_loop fuel d key n (record { p = behind d es; remaining = length (behind d es) })
      ≡ some (value_of (n - 1) key es)
    → find_loop (suc fuel) d key n s ≡ some (value_of (n - 1) key (e ∷ es))
unfolding value_of try_key
find_loop-entry fuel d key n e es s h k ok pass rest =
    let whole = e.name ++ b'=' ∷ (e.text ++ behind d es) in
    elim (Bool-cases (leb (length whole) (length key))) [
      | inl short ↦
          let other = shorter d e.name e.text es key (ground (arith, short)) in
          let more = value_of-shorter d (n - 1) es key (
            omega (
              arith,
              leb→le (length whole) (length key) short,
              length-append e.name (b'=' ∷ (e.text ++ behind d es)),
              length-append e.text (behind d es),
            )) in
          let gone = find_loop-pass fuel d key n s missing (pass ∙ rw short refl) in
          rw (gone, other, more) refl
      | inr long ↦
          let entry = try_key-body d key n e.name e.text es h k ok long in
          elim (Bool-cases (str_eq e.name key)) [
            | inl same ↦
                let stop = find_loop-pass fuel d key n s _ (pass ∙ entry) in rw (stop, same) refl
            | inr other ↦
                let go = find_loop-pass fuel d key n s _ (pass ∙ entry) in rw (go, other) rest
          ]
    ]

behind-less :
    (d : ℕ) (e : Entry) (es : List Entry) (fuel : ℕ)
    → length (behind d (e ∷ es)) < suc fuel
    → length (behind d es) < fuel
unfolding behind
behind-less d e es fuel h = omega (
  arith,
  length-append e.name (b'=' ∷ (e.text ++ behind d es)),
  length-append e.text (behind d es),
)

find_pass-nil :
    (d : ℕ) (key : List ℕ) (n : ℕ) → find_pass d key n (record { p = []; remaining = 0 }) ≡ missing
unfolding find_pass
find_pass-nil d key n = refl

find_loop-behind :
    (fuel d : ℕ) (key : List ℕ) (n : ℕ) (es : List Entry)
    → (d == 0) ≡ false
    → (d == b'=') ≡ false
    → Without b'=' key
    → AreEntries d es
    → length (behind d es) < fuel
    → find_loop fuel d key n (record { p = behind d es; remaining = length (behind d es) })
      ≡ some (value_of (n - 1) key es)
unfolding AreEntries behind value_of
find_loop-behind zero d key n es z h k ok lt = absurd (omega arith)
find_loop-behind (suc fuel) d key n [] z h k ok lt =
    find_loop-pass fuel d key n (record { p = []; remaining = 0 }) missing (find_pass-nil d key n)
find_loop-behind (suc fuel) d key n (e ∷ es) z h k (ok, oks) lt =
    find_loop-entry fuel d key n e es
      (record { p = behind d (e ∷ es); remaining = length (behind d (e ∷ es)) }) h k ok
      (find_pass-behind d key n e es z h ok)
      (find_loop-behind fuel d key n es z h k oks (behind-less d e es fuel lt))

-- In a buffer that spells a list of entries, whose names and values do not hold the delimiter and
-- whose names hold no '=', NUL or blank, a key without '=' is given the value of the first entry
-- with that name, cut to `value_len - 1` bytes, and NULL where there is none.
pub find_key_value-value_of :
    (d : ℕ) (key : List ℕ) (value_len : ℕ) (es : List Entry)
    → (d == 0) ≡ false
    → (d == b'=') ≡ false
    → Without b'=' key
    → AreEntries d es
    → find_key_value (render d es) (length (render d es)) key value_len d
      ≡ some (value_of (value_len - 1) key es)
unfolding find_key_value AreEntries render value_of IsEntry
find_key_value-value_of d key n [] z h k ok =
    find_loop-pass 0 d key n (record { p = []; remaining = 0 }) missing (find_pass-nil d key n)
find_key_value-value_of d key n (e ∷ es) z h k ((wd, (we, (wt, (wz, wb)))), oks) =
    let entry = e.name ++ b'=' ∷ (e.text ++ behind d es) in
    let fuel : length entry + 1 ≡ suc (length entry) = omega arith in
    rw fuel (
      find_loop-entry (length entry) d key n e es (record { p = entry; remaining = length entry }) h
        k (wd, (we, (wt, (wz, wb))))
        (find_pass-start d key n e.name (e.text ++ behind d es) h wd wz wb)
        (find_loop-behind (length entry) d key n es z h k oks (
          omega (
            arith,
            length-append e.name (b'=' ∷ (e.text ++ behind d es)),
            length-append e.text (behind d es),
          ))))
