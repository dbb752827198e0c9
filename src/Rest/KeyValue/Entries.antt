-- ===== src/Rest/KeyValue/Entries.antt =====
-- Buffers of pairs, and what each scan of the search does on one.
use wasm_trustzone.Base.{
  ℕ, zero, suc, ◌+◌, ◌≡◌, refl, false, ◌&&◌, List, [], ◌∷◌, ◌++◌, Option, none, some, arith, ◌==◌,
  if◌then◌else◌, length, get_or, take, drop,
}
use wasm_trustzone.Aerogel.CString.{starts_with, str_eq}
use wasm_trustzone.Rest.KeyValue.{skip_blanks, copied, copy_value, next_key}

-- The byte does not occur in the string.
unfoldable pub Without : ℕ → List ℕ → Type 0
Without c [] = Unit
Without c (x ∷ s) = ((x == c) ≡ false) × Without c s

pub record Entry : Type 0 where
  pub name : List ℕ
  pub text : List ℕ

-- The bytes of a name that begin no blank, and the rest of the format.
unfoldable pub IsEntry : ℕ → Entry → Type 0
IsEntry d e =
    Without d e.name
    × (Without b'=' e.name × (Without d e.text × (Without 0 e.name × Without b' ' e.name)))

unfoldable pub AreEntries : ℕ → List Entry → Type 0
AreEntries d [] = Unit
AreEntries d (e ∷ es) = IsEntry d e × AreEntries d es

-- `key1=value1;key2=value2`: an entry with those behind it, and those behind one.
unfoldable pub behind : ℕ → List Entry → List ℕ
behind d [] = []
behind d (e ∷ es) = d ∷ (e.name ++ b'=' ∷ (e.text ++ behind d es))

unfoldable pub render : ℕ → List Entry → List ℕ
render d [] = []
render d (e ∷ es) = e.name ++ b'=' ∷ (e.text ++ behind d es)

-- The first `n` bytes of the value of the first entry with the name.
unfoldable pub value_of : ℕ → List ℕ → List Entry → Option (List ℕ)
value_of n key [] = none
value_of n key (e ∷ es) =
    let rest = value_of n key es in if str_eq e.name key then some (take n e.text) else rest

pub key_test :
    (name rest key : List ℕ)
    → Without b'=' name
    → Without b'=' key
    → (starts_with (name ++ b'=' ∷ rest) key
        && (get_or (name ++ b'=' ∷ rest) (length key) 0 == b'='))
      ≡ str_eq name key
unfolding Without starts_with str_eq
key_test [] rest [] h k = refl
key_test [] rest (c ∷ key) h (k, ks) = ground (arith, k)
key_test (x ∷ name) rest [] (h, hs) k = h
key_test (x ∷ name) rest (c ∷ key) (h, hs) (k, ks) =
    let more = key_test name rest key hs ks in ground (arith, more)

pub copy_value-text :
    (d : ℕ) (text : List ℕ) (es : List Entry) (n : ℕ)
    → Without d text
    → copy_value d (text ++ behind d es) (length (text ++ behind d es)) n ≡ some (take n text)
unfolding Without copy_value copied behind
copy_value-text d [] [] zero h = ground arith
copy_value-text d [] [] (suc n) h = ground arith
copy_value-text d [] (e ∷ es) zero h = ground arith
copy_value-text d [] (e ∷ es) (suc n) h = ground arith
copy_value-text d (c ∷ text) es zero (h, hs) = ground (arith, h)
copy_value-text d (c ∷ text) es (suc n) (h, hs) =
    let more = copy_value-text d text es n hs in ground (arith, h, more)

pub next_key-behind :
    (d : ℕ) (s : List ℕ) (es : List Entry)
    → Without d s
    → next_key d (s ++ behind d es) (length (s ++ behind d es))
      ≡ some (record { p = behind d es; remaining = length (behind d es) })
unfolding Without next_key behind
next_key-behind d [] [] h = ground arith
next_key-behind d [] (e ∷ es) h = ground arith
next_key-behind d (c ∷ s) es (h, hs) =
    let more = next_key-behind d s es hs in ground (arith, h, more)

pub next_key-append :
    (d : ℕ) (s t : List ℕ)
    → Without d s
    → next_key d (s ++ t) (length (s ++ t)) ≡ next_key d t (length t)
unfolding Without next_key
next_key-append d [] t h = refl
next_key-append d (c ∷ s) t (h, hs) = let more = next_key-append d s t hs in ground (arith, h, more)

pub next_key-equals :
    (d : ℕ) (t : List ℕ)
    → (d == b'=') ≡ false
    → next_key d (b'=' ∷ t) (length (b'=' ∷ t)) ≡ next_key d t (length t)
unfolding next_key
next_key-equals d t h = ground (arith, h)

pub skip_blanks-body :
    (d : ℕ) (name rest : List ℕ) (r : ℕ)
    → (d == b'=') ≡ false
    → Without d name
    → Without b' ' name
    → skip_blanks d (name ++ b'=' ∷ rest) r
      ≡ some (record { p = name ++ b'=' ∷ rest; remaining = r })
unfolding Without skip_blanks
skip_blanks-body d [] rest r h k l = ground (arith, h)
skip_blanks-body d (c ∷ name) rest r h (k, ks) (l, ls) = ground (arith, k, l)

pub drop-append :
    (name : List ℕ) (c : ℕ) (rest : List ℕ) → drop (length name + 1) (name ++ c ∷ rest) ≡ rest
drop-append [] c rest = refl
drop-append (x ∷ name) c rest =
    let e : suc (length name) + 1 ≡ suc (length name + 1) = omega arith in
    rw e (drop-append name c rest)
