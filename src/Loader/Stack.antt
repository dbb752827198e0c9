-- ===== src/Loader/Stack.antt =====
-- The operand stack and the block stack with which core/iwasm/interpreter/wasm_loader.c checks the
-- types of a function body: `WASMLoaderContext`, without the fields and the code of
-- `WASM_ENABLE_FAST_INTERP`. A pointer into an array is its index, and the sizes of the arrays, which
-- `memory_realloc` asserts to grow, do not wrap around.
pub mod Spec
pub mod Cells
pub mod Operands
pub mod Pops
pub mod Branches
pub mod Blocks
pub mod Partial
mod Tests
use wasm_trustzone.Base.{
  ℕ, zero, suc, ◌+◌, ◌-◌, ◌%◌, ◌^◌, Bool, true, false, not, ◌&&◌, ◌||◌, List, [], ◌∷◌, ◌++◌, Option,
  none, some, ltb, leb, ◌==◌, if◌then◌else◌, get_or, get_elem?, set, replicate,
}
use wasm_trustzone.Loader.Outcome.{
  Outcome, ok, err, ◌>>=◌, type_mismatch, stack_empty, block_stack_empty, out_of_memory,
  below_bottom,
}

abbrev pub value_type_i32 : ℕ
value_type_i32 = 0x7f

abbrev pub value_type_i64 : ℕ
value_type_i64 = 0x7e

abbrev pub value_type_f32 : ℕ
value_type_f32 = 0x7d

abbrev pub value_type_f64 : ℕ
value_type_f64 = 0x7c

abbrev pub value_type_void : ℕ
value_type_void = 0x40

abbrev pub block_type_loop : ℕ
block_type_loop = 1

-- An address is a number, 0 for NULL.
pub record BranchBlock : Type 0 where
  pub block_type : ℕ
  pub return_type : ℕ
  pub is_block_reachable : Bool
  pub start_addr : ℕ
  pub else_addr : ℕ
  pub end_addr : ℕ
  pub stack_cell_num : ℕ

abbrev pub no_block : BranchBlock
no_block = record {
  block_type = 0;
  return_type = 0;
  is_block_reachable = false;
  start_addr = 0;
  else_addr = 0;
  end_addr = 0;
  stack_cell_num = 0;
}

-- `frame_csp_size` counts blocks, not bytes.
pub record LoaderContext : Type 0 where
  pub frame_ref_bottom : List ℕ
  pub frame_ref : ℕ
  pub frame_ref_size : ℕ
  pub stack_cell_num : ℕ
  pub max_stack_cell_num : ℕ
  pub frame_csp_bottom : List BranchBlock
  pub frame_csp : ℕ
  pub frame_csp_size : ℕ
  pub csp_num : ℕ
  pub max_csp_num : ℕ

-- `wasm_loader_ctx_init`, where there is room for the context itself and for both arrays.
unfoldable pub wasm_loader_ctx_init : Bool → Option LoaderContext
wasm_loader_ctx_init room =
    if room
    then some (record {
      frame_ref_bottom = replicate 32 0;
      frame_ref = 0;
      frame_ref_size = 32;
      stack_cell_num = 0;
      max_stack_cell_num = 0;
      frame_csp_bottom = replicate 8 no_block;
      frame_csp = 0;
      frame_csp_size = 8;
      csp_num = 0;
      max_csp_num = 0;
    })
    else none

-- `room` answers for `wasm_runtime_malloc` of so many cells.
unfoldable pub check_stack_push : (ℕ → Bool) → LoaderContext → Outcome LoaderContext
check_stack_push room ctx =
    if leb ctx.frame_ref_size ctx.frame_ref
    then (if room (ctx.frame_ref_size + 16)
        then ok (record ctx {
          frame_ref_bottom = ctx.frame_ref_bottom ++ replicate 16 0;
          frame_ref_size = ctx.frame_ref_size + 16;
          frame_ref = ctx.stack_cell_num;
        })
        else err out_of_memory)
    else ok ctx

-- `*ctx->frame_ref++ = type` and the counts.
unfoldable pub put_cell : ℕ → LoaderContext → LoaderContext
put_cell type ctx = record ctx {
  frame_ref_bottom = set ctx.frame_ref_bottom ctx.frame_ref type;
  frame_ref = ctx.frame_ref + 1;
  stack_cell_num = ctx.stack_cell_num + 1;
  max_stack_cell_num =
      if ltb ctx.max_stack_cell_num (ctx.stack_cell_num + 1)
      then ctx.stack_cell_num + 1
      else ctx.max_stack_cell_num;
}

unfoldable pub push_cell : (ℕ → Bool) → ℕ → LoaderContext → Outcome LoaderContext
push_cell room type ctx = do roomy ← check_stack_push room ctx; ok (put_cell type roomy)

unfoldable pub wasm_loader_push_frame_ref : (ℕ → Bool) → ℕ → LoaderContext → Outcome LoaderContext
wasm_loader_push_frame_ref room type ctx = if type == value_type_void then ok ctx else do
  once ← push_cell room type ctx
  if type == value_type_i32 || type == value_type_f32 then ok once else push_cell room type once

-- `*(ctx->frame_ref - k)`.
unfoldable pub cell_at : LoaderContext → ℕ → ℕ
cell_at ctx k = get_or ctx.frame_ref_bottom (ctx.frame_ref - k) 0

unfoldable pub check_stack_pop : ℕ → LoaderContext → Outcome LoaderContext
check_stack_pop type ctx =
    if ((type == value_type_i32 || type == value_type_f32) && ltb ctx.stack_cell_num 1)
      || ((type == value_type_i64 || type == value_type_f64) && ltb ctx.stack_cell_num 2)
    then err stack_empty
    else if (type == value_type_i32 && not (cell_at ctx 1 == value_type_i32))
        || (type == value_type_f32 && not (cell_at ctx 1 == value_type_f32))
        || (type == value_type_i64
            && (not (cell_at ctx 2 == value_type_i64) || not (cell_at ctx 1 == value_type_i64)))
        || (type == value_type_f64
            && (not (cell_at ctx 2 == value_type_f64) || not (cell_at ctx 1 == value_type_f64)))
    then err type_mismatch
    else ok ctx

-- `ctx->frame_ref--; ctx->stack_cell_num--;`.
unfoldable pub drop_cell : LoaderContext → Outcome LoaderContext
drop_cell ctx =
    if ctx.stack_cell_num == 0
    then err below_bottom
    else ok (record ctx { frame_ref = ctx.frame_ref - 1; stack_cell_num = ctx.stack_cell_num - 1 })

unfoldable pub wasm_loader_pop_frame_ref : ℕ → LoaderContext → Outcome LoaderContext
wasm_loader_pop_frame_ref type ctx = if type == value_type_void then ok ctx else do
  checked ← check_stack_pop type ctx
  once ← drop_cell checked
  if type == value_type_i32 || type == value_type_f32 then ok once else drop_cell once

-- `CHECK_CSP_PUSH`.
unfoldable pub check_csp_push : (ℕ → Bool) → LoaderContext → Outcome LoaderContext
check_csp_push room ctx =
    if leb ctx.frame_csp_size ctx.frame_csp
    then (if room (ctx.frame_csp_size + 8)
        then ok (record ctx {
          frame_csp_bottom = ctx.frame_csp_bottom ++ replicate 8 no_block;
          frame_csp_size = ctx.frame_csp_size + 8;
          frame_csp = ctx.csp_num;
        })
        else err out_of_memory)
    else ok ctx

unfoldable pub put_block : BranchBlock → LoaderContext → LoaderContext
put_block block ctx = record ctx {
  frame_csp_bottom = set ctx.frame_csp_bottom ctx.frame_csp block;
  frame_csp = ctx.frame_csp + 1;
  csp_num = ctx.csp_num + 1;
  max_csp_num = if ltb ctx.max_csp_num (ctx.csp_num + 1) then ctx.csp_num + 1 else ctx.max_csp_num;
}

unfoldable pub wasm_loader_push_frame_csp :
    (ℕ → Bool) → ℕ → ℕ → ℕ → LoaderContext → Outcome LoaderContext
wasm_loader_push_frame_csp room type ret_type start_addr ctx = do
  roomy ← check_csp_push room ctx
  ok (
      put_block
        (record no_block {
          block_type = type;
          return_type = ret_type;
          start_addr = start_addr;
          stack_cell_num = roomy.stack_cell_num;
        })
        roomy)

unfoldable pub wasm_loader_pop_frame_csp : LoaderContext → Outcome LoaderContext
wasm_loader_pop_frame_csp ctx =
    if ltb ctx.csp_num 1
    then err block_stack_empty
    else ok (record ctx { frame_csp = ctx.frame_csp - 1; csp_num = ctx.csp_num - 1 })

-- The condition in `wasm_loader_check_br` under which the branch is refused.
pub br_mismatch : ℕ → LoaderContext → Bool
br_mismatch tmp_ret_type ctx =
    (tmp_ret_type == value_type_i32
      && (ltb ctx.stack_cell_num 1 || not (cell_at ctx 1 == value_type_i32)))
    || (tmp_ret_type == value_type_f32
        && (ltb ctx.stack_cell_num 1 || not (cell_at ctx 1 == value_type_f32)))
    || (tmp_ret_type == value_type_i64
        && (ltb ctx.stack_cell_num 2
            || not (cell_at ctx 2 == value_type_i64)
            || not (cell_at ctx 1 == value_type_i64)))
    || (tmp_ret_type == value_type_f64
        && (ltb ctx.stack_cell_num 2
            || not (cell_at ctx 2 == value_type_f64)
            || not (cell_at ctx 1 == value_type_f64)))

-- `depth + 1` wraps around; the block may then lie behind the array.
pub wasm_loader_check_br : ℕ → LoaderContext → Outcome LoaderContext
wasm_loader_check_br depth ctx =
    let up = (depth + 1) % 2 ^ 32 in
    if ltb ctx.csp_num up
    then err type_mismatch
    else elim (get_elem? ctx.frame_csp_bottom (ctx.frame_csp - up)) [
      | none ↦ err below_bottom
      | some block ↦
          if block.block_type == block_type_loop
          then ok ctx
          else if br_mismatch block.return_type ctx
          then err type_mismatch
          else ok (record ctx {
            frame_csp_bottom =
                set ctx.frame_csp_bottom (ctx.frame_csp - up)
                  (record block { is_block_reachable = true });
          })
    ]
