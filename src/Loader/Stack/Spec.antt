-- ===== src/Loader/Stack/Spec.antt =====
-- What the operand stack stands for: the types of the values on it, the top first.
use wasm_trustzone.Base.{
  ℕ, zero, suc, ◌≤◌, ◌≡◌, Bool, List, [], ◌∷◌, Option, none, some, if◌then◌else◌, ◌==◌, length,
  get_or,
}
use wasm_trustzone.Loader.Outcome.{Outcome, ok, err}
use wasm_trustzone.Loader.Stack.{LoaderContext}

pub data ValueType : Type 0 where
  i32 i64 f32 f64 : ValueType

-- The byte of the type.
abbrev pub code : ValueType → ℕ
code i32 = 0x7f
code i64 = 0x7e
code f32 = 0x7d
code f64 = 0x7c

abbrev pub same : ValueType → ValueType → Bool
same u t = code t == code u

-- A stack of types.
unfoldable pub pop_type : ValueType → List ValueType → Option (List ValueType)
pop_type u [] = none
pop_type u (t ∷ ts) = if same u t then some ts else none

-- The cells that values take, the top first.
unfoldable pub cells : List ValueType → List ℕ
cells [] = []
cells (i32 ∷ ts) = 0x7f ∷ cells ts
cells (i64 ∷ ts) = 0x7e ∷ 0x7e ∷ cells ts
cells (f32 ∷ ts) = 0x7d ∷ cells ts
cells (f64 ∷ ts) = 0x7c ∷ 0x7c ∷ cells ts

-- The first n cells of an array, the last one first.
unfoldable pub top_first : ℕ → List ℕ → List ℕ
top_first zero xs = []
top_first (suc n) xs = get_or xs n 0 ∷ top_first n xs

-- The context has these cells on its stack, the top first.
pub record Holds (ctx : LoaderContext) (cs : List ℕ) : Type 0 where
  pub top : ctx.frame_ref ≡ ctx.stack_cell_num
  pub size : length ctx.frame_ref_bottom ≡ ctx.frame_ref_size
  pub in_bounds : ctx.stack_cell_num ≤ ctx.frame_ref_size
  pub below_max : ctx.stack_cell_num ≤ ctx.max_stack_cell_num
  pub view : top_first ctx.stack_cell_num ctx.frame_ref_bottom ≡ cs

unfoldable pub Represents : LoaderContext → List ValueType → Type 0
Represents ctx ts = Holds ctx (cells ts)

-- The outcome is a context with the property.
unfoldable pub Gives : (LoaderContext → Type 0) → Outcome LoaderContext → Type 0
Gives P (ok ctx) = P ctx
Gives P (err e) = ⊥

-- An outcome and a specified result: both fail, or the context represents the stack.
unfoldable pub Refines : Outcome LoaderContext → Option (List ValueType) → Type 0
Refines (ok ctx) none = ⊥
Refines (ok ctx) (some ts) = Represents ctx ts
Refines (err e) none = Unit
Refines (err e) (some ts) = ⊥
