-- ===== src/Interp/Sound.antt =====
-- Each handler of the interpreter, on a frame of the shape that the types give: it goes on with a frame
-- of the shape that the types give then, or sets an exception.
pub mod Arithmetic
pub mod Locals
pub mod Instr
pub mod Code
mod Tests
use wasm_trustzone.Base.{
  ℕ, suc, ◌+◌, ◌*◌, ◌/◌, ◌%◌, ◌^◌, ◌≤◌, ◌<◌, ◌≡◌, refl, ap, ◌∙◌, sym, Bool, true, false, List, [],
  ◌∷◌, arith, ltb, leb, ◌==◌, if◌then◌else◌, length, Bool-cases, inl, inr,
}
use wasm_trustzone.Loader.Stack.Spec.{ValueType, i32, i64, f32, f64, cells}
use wasm_trustzone.Loader.Locals.{is_narrow, wasm_value_type_cell_num}
use wasm_trustzone.Interp.Frame.{
  Frame, Step, done, trap, wild, ◌>>=◌, take_one, take_two, pop_value, put_one, put_two, push_value,
}

-- The operands are as many cells as the types take, and the frame has its locals and its room.
pub record Shape (size room : ℕ) (ts : List ValueType) (f : Frame) : Type 0 where
  pub height : length f.stack ≡ length (cells ts)
  pub locals : length f.lp ≡ size
  pub boundary : f.sp_boundary ≡ room

-- The result has the property, or an exception is set.
abbrev pub Runs {ℓ} : {A : Type ℓ} → (A → Type 0) → Step A → Type 0
Runs P (done a) = P a
Runs P (trap e) = Unit
Runs P wild = ⊥

pub Runs->>= {ℓ κ} :
    {A : Type ℓ} {B : Type κ} (P : A → Type 0) (Q : B → Type 0) (m : Step A) (k : A → Step B)
    → Runs P m
    → ((a : A) → P a → Runs Q (k a))
    → Runs Q (m >>= k)
Runs->>= P Q (done a) k h next = next a h
Runs->>= P Q (trap e) k h next = tt
Runs->>= P Q wild k h next = h

pub length-cells :
    (t : ValueType) (ts : List ValueType)
    → length (cells (t ∷ ts)) ≡ wasm_value_type_cell_num t + length (cells ts)
unfolding cells wasm_value_type_cell_num
length-cells i32 ts = omega arith
length-cells i64 ts = omega arith
length-cells f32 ts = omega arith
length-cells f64 ts = omega arith

pub is_narrow_cells : (t : ValueType) → wasm_value_type_cell_num t ≡ (if is_narrow t then 1 else 2)
unfolding is_narrow wasm_value_type_cell_num
is_narrow_cells i32 = refl
is_narrow_cells i64 = refl
is_narrow_cells f32 = refl
is_narrow_cells f64 = refl

-- A value popped, and the frame under it.
abbrev pub Popped : ℕ → ℕ → List ValueType → ℕ × Frame → Type 0
Popped size room ts p = Shape size room ts p.1

take_one-Popped :
    (size room : ℕ) (ts : List ValueType) (f : Frame) (cs : List ℕ)
    → length cs ≡ suc (length (cells ts))
    → length f.lp ≡ size
    → f.sp_boundary ≡ room
    → Runs (Popped size room ts) (take_one f cs)
unfolding take_one
take_one-Popped size room ts f [] h locals boundary = absurd (omega arith)
take_one-Popped size room ts f (c ∷ cs) h locals boundary = record {
  height = omega arith;
  locals = locals;
  boundary = boundary;
}

take_two-Popped :
    (size room : ℕ) (ts : List ValueType) (f : Frame) (cs : List ℕ)
    → length cs ≡ 2 + length (cells ts)
    → length f.lp ≡ size
    → f.sp_boundary ≡ room
    → Runs (Popped size room ts) (take_two f cs)
unfolding take_two
take_two-Popped size room ts f [] h locals boundary = absurd (omega arith)
take_two-Popped size room ts f (c ∷ []) h locals boundary = absurd (omega arith)
take_two-Popped size room ts f (c ∷ d ∷ cs) h locals boundary = record {
  height = omega arith;
  locals = locals;
  boundary = boundary;
}

-- Any type of as many cells pops as well.
pub pop_value-Popped :
    (size room : ℕ) (t u : ValueType) (ts : List ValueType) (f : Frame)
    → is_narrow t ≡ is_narrow u
    → Shape size room (u ∷ ts) f
    → Runs (Popped size room ts) (pop_value t f)
unfolding pop_value
pop_value-Popped size room t u ts f same h = elim (Bool-cases (is_narrow u)) [
  | inl narrow ↦
      let one : wasm_value_type_cell_num u ≡ 1 =
        is_narrow_cells u ∙ ap (λ b. if b then 1 else 2) narrow in
      rw (same, narrow)
        (take_one-Popped size room ts f f.stack (omega (arith, h.height, length-cells u ts, one))
          h.locals h.boundary)
  | inr wide ↦
      let two : wasm_value_type_cell_num u ≡ 2 =
        is_narrow_cells u ∙ ap (λ b. if b then 1 else 2) wide in
      rw (same, wide)
        (take_two-Popped size room ts f f.stack (omega (arith, h.height, length-cells u ts, two))
          h.locals h.boundary)
]

pub push_value-Shape :
    (size room : ℕ) (t u : ValueType) (v : ℕ) (ts : List ValueType) (f : Frame)
    → is_narrow t ≡ is_narrow u
    → length (cells (u ∷ ts)) ≤ room
    → Shape size room ts f
    → Runs (Shape size room (u ∷ ts)) (push_value t v f)
unfolding push_value put_one put_two
push_value-Shape size room t u v ts f same fits h = elim (Bool-cases (is_narrow u)) [
  | inl narrow ↦
      let one : wasm_value_type_cell_num u ≡ 1 =
        is_narrow_cells u ∙ ap (λ b. if b then 1 else 2) narrow in
      let free : ltb (length f.stack) f.sp_boundary ≡ true =
        ground (arith, h.height, h.boundary, length-cells u ts, one) in
      rw (same, narrow, free)
        (record {
          height = omega (arith, h.height, length-cells u ts, one);
          locals = h.locals;
          boundary = h.boundary;
        })
  | inr wide ↦
      let two : wasm_value_type_cell_num u ≡ 2 =
        is_narrow_cells u ∙ ap (λ b. if b then 1 else 2) wide in
      let free : ltb (length f.stack + 1) f.sp_boundary ≡ true =
        ground (arith, h.height, h.boundary, length-cells u ts, two) in
      rw (same, wide, free)
        (record {
          height = omega (arith, h.height, length-cells u ts, two);
          locals = h.locals;
          boundary = h.boundary;
        })
]
