-- ===== src/Interp/Frame.antt =====
-- The frame of a function in core/iwasm/interpreter/wasm_interp_classic.c: its locals, which
-- `frame_lp` points to, and its operands, from `sp_bottom` to `frame_sp`, in 32-bit cells. A value of
-- 64 bits takes two cells, the lower half first.
use wasm_trustzone.Base.{
  ℕ, ◌+◌, ◌*◌, ◌/◌, ◌%◌, ◌^◌, Bool, List, [], ◌∷◌, ltb, if◌then◌else◌, length, get_or, set,
}
use wasm_trustzone.Loader.Stack.Spec.{ValueType}
use wasm_trustzone.Loader.Locals.{is_narrow}

-- `sp_boundary` counts the cells that the frame has for operands.
pub record Frame : Type 0 where
  pub lp : List ℕ
  pub stack : List ℕ
  pub sp_boundary : ℕ

pub data Exception : Type 0 where
  integer_overflow : Exception
  integer_divide_by_zero : Exception
  invalid_conversion_to_integer : Exception
  out_of_bounds_memory_access : Exception

-- A handler goes on, sets an exception, or lets a pointer leave its part of the frame.
pub data Step {ℓ} (A : Type ℓ) : Type ℓ where
  done : A → Step A
  trap : Exception → Step A
  wild : Step A

infixl 5 ◌>>=◌
abbrev pub ◌>>=◌ {ℓ κ} : {A : Type ℓ} {B : Type κ} → Step A → (A → Step B) → Step B
done a >>= f = f a
trap e >>= f = trap e
wild >>= f = wild

unfoldable pub take_one : Frame → List ℕ → Step (ℕ × Frame)
take_one f [] = wild
take_one f (c ∷ cs) = done (c, record f { stack = cs })

unfoldable pub take_two : Frame → List ℕ → Step (ℕ × Frame)
take_two f [] = wild
take_two f (high ∷ []) = wild
take_two f (high ∷ low ∷ cs) = done (low + high * 2 ^ 32, record f { stack = cs })

-- `POP_I32` to `POP_F64`: a floating point number is its bits.
unfoldable pub pop_value : ValueType → Frame → Step (ℕ × Frame)
pop_value t f = if is_narrow t then take_one f f.stack else take_two f f.stack

unfoldable pub put_one : ℕ → Frame → Step Frame
put_one v f =
    if ltb (length f.stack) f.sp_boundary
    then done (record f { stack = v % 2 ^ 32 ∷ f.stack })
    else wild

unfoldable pub put_two : ℕ → Frame → Step Frame
put_two v f =
    if ltb (length f.stack + 1) f.sp_boundary
    then done (record f { stack = v / 2 ^ 32 % 2 ^ 32 ∷ v % 2 ^ 32 ∷ f.stack })
    else wild

-- `PUSH_I32` to `PUSH_F64`.
unfoldable pub push_value : ValueType → ℕ → Frame → Step Frame
push_value t v f = if is_narrow t then put_one v f else put_two v f

-- `*(int32*)(frame_lp + offset)` and `GET_I64_FROM_ADDR(frame_lp + offset)`.
unfoldable pub read_local : Bool → ℕ → Frame → Step ℕ
read_local narrow offset f =
    if narrow
    then (if ltb offset (length f.lp) then done (get_or f.lp offset 0) else wild)
    else if ltb (offset + 1) (length f.lp)
    then done (get_or f.lp offset 0 + get_or f.lp (offset + 1) 0 * 2 ^ 32)
    else wild

unfoldable pub write_local : Bool → ℕ → ℕ → Frame → Step Frame
write_local narrow offset v f =
    if narrow
    then (if ltb offset (length f.lp)
        then done (record f { lp = set f.lp offset (v % 2 ^ 32) })
        else wild)
    else if ltb (offset + 1) (length f.lp)
    then done
        (record f { lp = set (set f.lp offset (v % 2 ^ 32)) (offset + 1) (v / 2 ^ 32 % 2 ^ 32) })
    else wild
