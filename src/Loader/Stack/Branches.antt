-- ===== src/Loader/Stack/Branches.antt =====
-- Branches: what `wasm_loader_check_br` accepts, against a stack of value types.
use wasm_trustzone.Base.{
  ℕ, ◌+◌, ◌-◌, ◌%◌, ◌^◌, ◌<◌, ◌≡◌, refl, Bool, true, false, not, List, [], ◌∷◌, Option, none, some,
  arith, ltb, ◌==◌, if◌then◌else◌, get_elem?, set, Bool-cases, inl, inr,
}
use wasm_trustzone.Loader.Outcome.{ok, err, type_mismatch}
use wasm_trustzone.Loader.Stack.{
  BranchBlock, LoaderContext, cell_at, br_mismatch, wasm_loader_check_br,
}
use wasm_trustzone.Loader.Stack.Spec.{
  ValueType, i32, i64, f32, f64, code, same, cells, Holds, Represents,
}
use wasm_trustzone.Loader.Stack.Pops.{Holds-count, cell_at-two, top-code, same-≡}

-- The type is on top.
unfoldable pub on_top : ValueType → List ValueType → Bool
on_top u [] = false
on_top u (t ∷ ts) = same u t

count-pos :
    (t : ValueType) (ts : List ValueType) (ctx : LoaderContext)
    → Holds ctx (cells (t ∷ ts))
    → 0 < ctx.stack_cell_num
unfolding cells
count-pos i32 ts ctx h = omega (arith, Holds-count ctx _ h)
count-pos i64 ts ctx h = omega (arith, Holds-count ctx _ h)
count-pos f32 ts ctx h = omega (arith, Holds-count ctx _ h)
count-pos f64 ts ctx h = omega (arith, Holds-count ctx _ h)

mismatch-empty :
    (u : ValueType) (ctx : LoaderContext) → ctx.stack_cell_num ≡ 0 → br_mismatch (code u) ctx ≡ true
unfolding br_mismatch
mismatch-empty i32 ctx e = ground (arith, e)
mismatch-empty i64 ctx e = ground (arith, e)
mismatch-empty f32 ctx e = ground (arith, e)
mismatch-empty f64 ctx e = ground (arith, e)

mismatch-other :
    (u : ValueType) (ctx : LoaderContext) (c : ℕ)
    → cell_at ctx 1 ≡ c
    → (c == code u) ≡ false
    → br_mismatch (code u) ctx ≡ true
unfolding br_mismatch
mismatch-other i32 ctx c e other = ground (arith, e, other)
mismatch-other i64 ctx c e other = ground (arith, e, other)
mismatch-other f32 ctx c e other = ground (arith, e, other)
mismatch-other f64 ctx c e other = ground (arith, e, other)

mismatch-top :
    (t : ValueType) (ts : List ValueType) (ctx : LoaderContext)
    → Holds ctx (cells (t ∷ ts))
    → br_mismatch (code t) ctx ≡ false
unfolding br_mismatch cells
mismatch-top i32 ts ctx h =
    ground (arith, top-code i32 ts ctx h, Holds-count ctx (0x7f ∷ cells ts) h)
mismatch-top f32 ts ctx h =
    ground (arith, top-code f32 ts ctx h, Holds-count ctx (0x7d ∷ cells ts) h)
mismatch-top i64 ts ctx h = ground (
  arith,
  top-code i64 ts ctx h,
  cell_at-two ctx (cells ts) 0x7e 0x7e h,
  Holds-count ctx (0x7e ∷ 0x7e ∷ cells ts) h,
)
mismatch-top f64 ts ctx h = ground (
  arith,
  top-code f64 ts ctx h,
  cell_at-two ctx (cells ts) 0x7c 0x7c h,
  Holds-count ctx (0x7c ∷ 0x7c ∷ cells ts) h,
)

br_mismatch-on_top :
    (u : ValueType) (ctx : LoaderContext) (ts : List ValueType)
    → Represents ctx ts
    → br_mismatch (code u) ctx ≡ not (on_top u ts)
unfolding Represents on_top cells
br_mismatch-on_top u ctx [] h = mismatch-empty u ctx (Holds-count ctx [] h)
br_mismatch-on_top u ctx (t ∷ ts) h = elim (Bool-cases (same u t)) [
  | inl equal ↦ rw (equal, same-≡ u t equal) (mismatch-top t ts ctx h)
  | inr other ↦ rw other (mismatch-other u ctx (code t) (top-code t ts ctx h) other)
]

-- The result of a block on top; one without a result, of the type 0x40, asks for nothing.
unfoldable pub result_code : Option ValueType → ℕ
result_code none = 0x40
result_code (some u) = code u

unfoldable pub result_on_top : Option ValueType → List ValueType → Bool
result_on_top none ts = true
result_on_top (some u) ts = on_top u ts

br_mismatch-result :
    (result : Option ValueType) (ctx : LoaderContext) (ts : List ValueType)
    → Represents ctx ts
    → br_mismatch (result_code result) ctx ≡ not (result_on_top result ts)
unfolding result_code result_on_top br_mismatch
br_mismatch-result none ctx ts h = refl
br_mismatch-result (some u) ctx ts h = br_mismatch-on_top u ctx ts h

-- The block is marked as reached.
unfoldable pub reach : ℕ → BranchBlock → LoaderContext → LoaderContext
reach at block ctx = record ctx {
  frame_csp_bottom = set ctx.frame_csp_bottom at (record block { is_block_reachable = true });
}

-- A branch of a depth below the number of blocks, out of a block with or without a result: one that is not
-- a loop is accepted exactly where it has no result or a value of that type is on top of the stack that the
-- context represents, and is marked as reached; a loop is accepted as it is.
pub wasm_loader_check_br-on_top :
    (depth : ℕ) (ctx : LoaderContext) (ts : List ValueType) (block : BranchBlock)
    (result : Option ValueType)
    → Represents ctx ts
    → depth < ctx.csp_num
    → ctx.csp_num < 2 ^ 32
    → get_elem? ctx.frame_csp_bottom (ctx.frame_csp - (depth + 1)) ≡ some block
    → block.return_type ≡ result_code result
    → wasm_loader_check_br depth ctx ≡ (
        if block.block_type == 1
        then ok ctx
        else if result_on_top result ts
        then ok (reach (ctx.frame_csp - (depth + 1)) block ctx)
        else err type_mismatch)
unfolding wasm_loader_check_br reach
wasm_loader_check_br-on_top depth ctx ts block result h inside small found typed =
    let up : (depth + 1) % 2 ^ 32 ≡ depth + 1 = omega arith in
    let enough : ltb ctx.csp_num (depth + 1) ≡ false = ground arith in
    rw (up, enough, found, up, typed, br_mismatch-result result ctx ts h)
      (elim (Bool-cases (result_on_top result ts)) [
        | inl yes_top ↦ rw yes_top refl
        | inr no_top ↦ rw no_top refl
      ])
