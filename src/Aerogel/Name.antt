-- ===== src/Aerogel/Name.antt =====
-- `check_access_name` of core/iwasm/interpreter/wasm_runtime.c: which peripherals the specification
-- sheet lists for a module.
use wasm_trustzone.Base.{
  ℕ, ◌+◌, ◌≤◌, ◌<◌, ◌≡◌, ◌⊎◌, refl, sym, ◌∙◌, Bool, true, false, List, [], ◌∷◌, ◌++◌, Option, none,
  some, arith, ltb, ◌==◌, ap, subst, if◌then◌else◌, Bool-cases, Option-cases, inl, inr, length,
  drop,
}
use wasm_trustzone.Aerogel.{Text}
use wasm_trustzone.Aerogel.CString.{strstr, starts_with, contains, until}

-- `access_string` as a string: the line copied over `residue`, what the 200 bytes of the array held
-- before. No NUL is written behind the line, and a line of more than 200 bytes leaves the array:
-- `none`.
unfoldable pub access_string : List ℕ → Text → Option Text
access_string residue line =
    if ltb 200 (length line) then none else some (until 0 (line ++ drop (length line) residue))

-- `true` where the access is denied; `none` where the copy of the line overruns its array.
unfoldable pub check_access_name : Text → List ℕ → Text → Text → Option Bool
check_access_name module_spec residue module_name sensor_name =
    elim (strstr module_spec module_name) [
      | none ↦ some true
      | some tmp ↦ elim (access_string residue (until b'\n' tmp)) [
        | none ↦ none
        | some line ↦ some (if contains line sensor_name then false else true)
      ]
    ]

-- The string has no NUL.
unfoldable pub NoNul : List ℕ → Type 0
NoNul [] = Unit
NoNul (c ∷ s) = (0 < c) × NoNul s

-- The text occurs in the string, at the place named `at`.
unfoldable pub OccursAt : Text → Text → Text → Type 0
OccursAt text s at = ((before : Text) × (s ≡ before ++ at)) × (starts_with at text ≡ true)

strstr-OccursAt : (s text at : Text) → strstr s text ≡ some at → OccursAt text s at
unfolding strstr OccursAt
strstr-OccursAt [] text at e = elim (Bool-cases (starts_with [] text)) [
  | inl begins ↦ (([], ground (arith, begins, e)), ground (arith, begins, e))
  | inr later ↦ absurd (ground (arith, later, e))
]
strstr-OccursAt (c ∷ s) text at e = elim (Bool-cases (starts_with (c ∷ s) text)) [
  | inl begins ↦ (([], ground (arith, begins, e)), ground (arith, begins, e))
  | inr later ↦
      let ((before, split), here) = strstr-OccursAt s text at (ground (arith, later, e)) in
      ((c ∷ before, ap (λ t. c ∷ t) split), here)
]

contains-OccursAt : (s text : Text) → contains s text ≡ true → (at : Text) × OccursAt text s at
unfolding contains
contains-OccursAt s text h = elim (Option-cases (strstr s text)) [
  | inl e ↦ absurd (ground (arith, e, h))
  | inr (at, e) ↦ (at, strstr-OccursAt s text at e)
]

NoNul-OccursAt : (before at : Text) → NoNul (before ++ at) → NoNul at
unfolding NoNul
NoNul-OccursAt [] at h = h
NoNul-OccursAt (c ∷ before) at (h, hs) = NoNul-OccursAt before at hs

NoNul-until : (c : ℕ) (s : Text) → NoNul s → NoNul (until c s)
unfolding NoNul until
NoNul-until c [] h = tt
NoNul-until c (x ∷ s) (h, hs) = elim (Bool-cases (x == c)) [
  | inl same ↦ rw same tt
  | inr other ↦ rw other (h, NoNul-until c s hs)
]

until-append : (line tail : List ℕ) → NoNul line → until 0 (line ++ tail) ≡ line ++ until 0 tail
unfolding until NoNul
until-append [] tail h = refl
until-append (c ∷ line) tail (h, hs) = ground (arith, h, until-append line tail hs)

-- What is left on the stack behind the line, up to its first NUL.
abbrev pub left_over : List ℕ → Text → Text
left_over residue line = until 0 (drop (length line) residue)

access_string-left_over :
    (residue : List ℕ) (line text : Text)
    → NoNul line
    → access_string residue line ≡ some text
    → text ≡ line ++ left_over residue line
unfolding access_string
access_string-left_over residue line text h e =
    let whole = until-append line (drop (length line) residue) h in
    elim (Bool-cases (ltb 200 (length line))) [
      | inl long ↦ absurd (ground (arith, long, e))
      | inr short ↦ ground (arith, short, e, whole)
    ]

starts_with-append :
    (line tail text : Text)
    → length text ≤ length line
    → starts_with (line ++ tail) text ≡ true
    → starts_with line text ≡ true
unfolding starts_with
starts_with-append line tail [] h e = refl
starts_with-append [] tail (c ∷ text) h e = absurd (omega (arith, h))
starts_with-append (x ∷ line) tail (c ∷ text) h e =
    ground (arith, e, starts_with-append line tail text (omega (arith, h)))

-- An occurrence that ends within the line is one in the line.
occurs_within :
    (line tail before at text : Text)
    → line ++ tail ≡ before ++ at
    → starts_with at text ≡ true
    → length before + length text ≤ length line
    → (here : Text) × OccursAt text line here
unfolding OccursAt
occurs_within line tail [] at text e begins h =
    (line, (([], refl), starts_with-append line tail text (omega (arith, h)) (rw e begins)))
occurs_within [] tail (c ∷ before) at text e begins h = absurd (omega (arith, h))
occurs_within (x ∷ line) tail (c ∷ before) at text e begins h =
    let rest : line ++ tail ≡ before ++ at = ground (arith, e) in
    let (here, ((ahead, split), found)) =
      occurs_within line tail before at text rest begins (omega (arith, h)) in
    (here, ((x ∷ ahead, ap (λ t. x ∷ t) split), found))

-- The line of the sheet from the module's name on names the peripheral.
unfoldable pub Listed : Text → Text → Text → Type 0
Listed module_spec module_name sensor_name =
    (tmp : Text) × OccursAt module_name module_spec tmp
    × ((at : Text) × OccursAt sensor_name (until b'\n' tmp) at)

-- The peripheral's name ends in bytes that the stack held behind the line.
unfoldable pub LeftOver : Text → List ℕ → Text → Text → Type 0
LeftOver module_spec residue module_name sensor_name =
    (tmp : Text) × OccursAt module_name module_spec tmp
    × ((before : Text) × (at : Text) × (until b'\n' tmp ++ left_over residue (until b'\n' tmp)
          ≡ before ++ at)
        × (starts_with at sensor_name ≡ true)
        × (length (until b'\n' tmp) < length before + length sensor_name))

-- Whatever the stack held before, an access under a sheet that is a string is granted only to a peripheral
-- that the sheet names behind an occurrence of the module's name, in the same line, or whose name ends
-- in the bytes that the stack held behind the copy of that line.
pub check_access_name-Listed :
    (module_spec : Text) (residue : List ℕ) (module_name sensor_name : Text)
    → NoNul module_spec
    → check_access_name module_spec residue module_name sensor_name ≡ some false
    → Listed module_spec module_name sensor_name
      ⊎ LeftOver module_spec residue module_name sensor_name
unfolding check_access_name Listed LeftOver OccursAt
check_access_name-Listed module_spec residue module_name sensor_name h e =
    elim (Option-cases (strstr module_spec module_name)) [
      | inl absent ↦ absurd (ground (arith, absent, e))
      | inr (tmp, found) ↦
          let ((ahead, split), here) = strstr-OccursAt module_spec module_name tmp found in
          let line = until b'\n' tmp in
          let clean = NoNul-until b'\n' tmp (NoNul-OccursAt ahead tmp (subst NoNul split h)) in
          elim (Option-cases (access_string residue line)) [
            | inl overrun ↦ absurd (ground (arith, found, overrun, e))
            | inr (text, copied) ↦ elim (Bool-cases (contains text sensor_name)) [
              | inl listed ↦
                  let same = access_string-left_over residue line text clean copied in
                  let (at, ((before, parts), begins)) = contains-OccursAt text sensor_name listed in
                  let whole = sym same ∙ parts in
                  elim (Bool-cases (ltb (length line) (length before + length sensor_name))) [
                    | inl beyond ↦ inr (
                      tmp,
                      ((ahead, split), here),
                      (before, at, whole, begins, ground (arith, beyond)),
                    )
                    | inr within ↦ inl (
                      tmp,
                      ((ahead, split), here),
                      occurs_within line (left_over residue line) before at sensor_name whole begins
                          (ground (arith, within)),
                    )
                  ]
              | inr other ↦ absurd (ground (arith, found, copied, other, e))
            ]
          ]
    ]
