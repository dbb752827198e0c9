-- ===== src/Interp/Sound/Locals.antt =====
-- The locals of a function lie in the part of the frame that its counts of cells give, where the cells
-- of its parameters and locals can be counted in 16 bits, and the handlers keep to them.
use native.Mathlib.Nat.{mod-eq_of_lt}
use wasm_trustzone.Base.{
  ℕ, zero, suc, ◌+◌, ◌-◌, ◌/◌, ◌%◌, ◌^◌, ◌≤◌, ◌<◌, ◌≡◌, refl, sym, ap, ◌∙◌, bit_and, Bool, true,
  false, Option, none, some, List, [], ◌∷◌, ◌++◌, arith, ltb, ◌==◌, if◌then◌else◌, length,
  get_elem?, get_or, set, length-set, Bool-cases, inl, inr,
}
use wasm_trustzone.Base.Bits.{byte_top, byte_low7}
use wasm_trustzone.Loader.Stack.Spec.{ValueType, i32, i64, f32, f64, cells}
use wasm_trustzone.Loader.Locals.{
  wasm_value_type_cell_num, cell_num, wasm_get_cell_num, local_offsets_from, init_function,
  local_at, with_offset, is_narrow, fast_byte,
}
use wasm_trustzone.Interp.Frame.{Frame, Step, pop_value, read_local, write_local}
use wasm_trustzone.Interp.Exec.{moved, get_local, set_local, tee_local, at_byte}
use wasm_trustzone.Interp.Sound.{
  Shape, Runs, Runs->>=, is_narrow_cells, Popped, pop_value-Popped, push_value-Shape,
}

cell_num-append : (xs ys : List ValueType) → cell_num (xs ++ ys) ≡ cell_num xs + cell_num ys
unfolding cell_num
cell_num-append [] ys = omega arith
cell_num-append (x ∷ xs) ys = omega (arith, cell_num-append xs ys)

-- Of the frame, in cells.
abbrev pub locals_size : List ValueType → List ValueType → ℕ
locals_size params locals = wasm_get_cell_num params + wasm_get_cell_num locals

locals_size-cell_num :
    (params locals : List ValueType)
    → cell_num (params ++ locals) < 2 ^ 16
    → locals_size params locals ≡ cell_num (params ++ locals)
unfolding wasm_get_cell_num
locals_size-cell_num params locals small = omega (arith, cell_num-append params locals)

get_elem?-append :
    (xs ys : List ValueType) (n : ℕ)
    → (if ltb n (length xs) then get_elem? xs n else get_elem? ys (n - length xs))
      ≡ get_elem? (xs ++ ys) n
get_elem?-append [] ys n =
    let past : ltb n 0 ≡ false = ground arith in rw past (ap (get_elem? ys) (omega arith))
get_elem?-append (x ∷ xs) ys zero =
    let first : ltb 0 (suc (length xs)) ≡ true = ground arith in rw first refl
get_elem?-append (x ∷ xs) ys (suc n) =
    let same : ltb (suc n) (suc (length xs)) ≡ ltb n (length xs) = ground arith in
    rw same (
      ap (λ i. if ltb n (length xs) then get_elem? xs n else get_elem? ys i)
        {x = suc n - suc (length xs)} {y = n - length xs} (omega arith)
      ∙ get_elem?-append xs ys n)

local_offsets_from-le :
    (offset : ℕ) (ts : List ValueType) (n : ℕ) (t : ValueType)
    → offset + cell_num ts < 2 ^ 16
    → get_elem? ts n ≡ some t
    → get_or (local_offsets_from offset ts) n 0 + wasm_value_type_cell_num t ≤ offset + cell_num ts
unfolding local_offsets_from cell_num
local_offsets_from-le offset [] n t small e = absurd (ground (arith, e))
local_offsets_from-le offset (u ∷ ts) zero t small e =
    let same : wasm_value_type_cell_num t ≡ wasm_value_type_cell_num u = ground (arith, e) in
    omega (arith, same)
local_offsets_from-le offset (u ∷ ts) (suc n) t small e =
    let next : (offset + wasm_value_type_cell_num u) % 2 ^ 32
        ≡ offset + wasm_value_type_cell_num u =
      mod-eq_of_lt (omega arith) in
    rw next (
      omega
        (arith, local_offsets_from-le (offset + wasm_value_type_cell_num u) ts n t (omega arith) e))

with_offset-some :
    (o : Option ValueType) (k : ℕ) (t : ValueType) (offset : ℕ)
    → with_offset o k ≡ some (t, offset)
    → (o ≡ some t) × (k ≡ offset)
unfolding with_offset
with_offset-some none k t offset e = absurd (ground (arith, e))
with_offset-some (some u) k t offset e = (ground (arith, e), ground (arith, e))

pub local_at-le :
    (params locals : List ValueType) (n offset : ℕ) (t : ValueType)
    → cell_num (params ++ locals) < 2 ^ 16
    → local_at (init_function params locals) n ≡ some (t, offset)
    → offset + wasm_value_type_cell_num t ≤ locals_size params locals
unfolding local_at init_function
local_at-le params locals n offset t small e =
    let (type, place) = with_offset-some _ _ t offset e in
    let found = sym (get_elem?-append params locals n) ∙ type in
    omega (
      arith,
      place,
      locals_size-cell_num params locals small,
      local_offsets_from-le 0 (params ++ locals) n t (omega arith) found,
    )

read_local_ends :
    (t : ValueType) (offset : ℕ) (f : Frame)
    → offset + wasm_value_type_cell_num t ≤ length f.lp
    → Runs (λ v. Unit) (read_local (is_narrow t) offset f)
unfolding read_local
read_local_ends t offset f inside = ground (arith, is_narrow_cells t)

write_local-Shape :
    (size room : ℕ) (ts : List ValueType) (t : ValueType) (offset v : ℕ) (f : Frame)
    → offset + wasm_value_type_cell_num t ≤ size
    → Shape size room ts f
    → Runs (Shape size room ts) (write_local (is_narrow t) offset v f)
unfolding write_local
write_local-Shape size room ts t offset v f inside h = elim (Bool-cases (is_narrow t)) [
  | inl narrow ↦
      let free : ltb offset (length f.lp) ≡ true =
        ground (arith, is_narrow_cells t, h.locals, narrow) in
      rw (narrow, free)
        (record {
          height = h.height;
          locals = length-set f.lp offset (v % 2 ^ 32) ∙ h.locals;
          boundary = h.boundary;
        })
  | inr wide ↦
      let free : ltb (offset + 1) (length f.lp) ≡ true =
        ground (arith, is_narrow_cells t, h.locals, wide) in
      rw (wide, free)
        (record {
          height = h.height;
          locals =
              length-set (set f.lp offset (v % 2 ^ 32)) (offset + 1) (v / 2 ^ 32 % 2 ^ 32)
              ∙ length-set f.lp offset (v % 2 ^ 32)
              ∙ h.locals;
          boundary = h.boundary;
        })
]

moved_lem : (t : ValueType) → is_narrow (moved (is_narrow t)) ≡ is_narrow t
unfolding moved is_narrow
moved_lem i32 = refl
moved_lem i64 = refl
moved_lem f32 = refl
moved_lem f64 = refl

module _ (size room : ℕ) (ts : List ValueType) (t : ValueType) (offset : ℕ) (f : Frame)
    (inside : offset + wasm_value_type_cell_num t ≤ size) where
  pub get_local-Shape :
      length (cells (t ∷ ts)) ≤ room
      → Shape size room ts f
      → Runs (Shape size room (t ∷ ts)) (get_local (is_narrow t) offset f)
  unfolding get_local
  get_local-Shape fits h =
      Runs->>= (λ v. Unit) _ (read_local (is_narrow t) offset f) _
        (read_local_ends t offset f (omega (arith, h.locals)))
        (λ v u. push_value-Shape size room (moved (is_narrow t)) t v ts f (moved_lem t) fits h)

  pub set_local-Shape :
      Shape size room (t ∷ ts) f → Runs (Shape size room ts) (set_local (is_narrow t) offset f)
  unfolding set_local
  set_local-Shape h =
      Runs->>= (Popped size room ts) _ (pop_value (moved (is_narrow t)) f) _
        (pop_value-Popped size room (moved (is_narrow t)) t ts f (moved_lem t) h)
        (λ p k. write_local-Shape size room ts t offset p.0 p.1 inside k)

  pub tee_local-Shape :
      Shape size room (t ∷ ts) f
      → Runs (Shape size room (t ∷ ts)) (tee_local (is_narrow t) offset f)
  unfolding tee_local
  tee_local-Shape h =
      Runs->>= (Popped size room ts) _ (pop_value (moved (is_narrow t)) f) _
        (pop_value-Popped size room (moved (is_narrow t)) t ts f (moved_lem t) h)
        (λ p k. write_local-Shape size room (t ∷ ts) t offset p.0 f inside h)

-- The byte that the loader leaves says which cells the local has.
pub at_byte-fast_byte :
    (t : ValueType) (offset : ℕ) (handler : Bool → ℕ → Frame → Step Frame) (f : Frame)
    → offset < 0x80
    → at_byte (fast_byte t offset) handler f ≡ handler (is_narrow t) offset f
unfolding at_byte fast_byte
at_byte-fast_byte t offset handler f small = elim (Bool-cases (is_narrow t)) [
  | inl narrow ↦
      let top : (bit_and offset 0x80 == 0) ≡ true = ground (arith, byte_top offset) in
      rw (narrow, top) refl
  | inr wide ↦
      let top : (bit_and (offset + 0x80) 0x80 == 0) ≡ false =
        ground (arith, byte_top (offset + 0x80)) in
      let low : bit_and (offset + 0x80) 0x7f ≡ offset =
        byte_low7 (offset + 0x80) (omega arith) ∙ omega arith in
      rw (wide, top, low) refl
]
