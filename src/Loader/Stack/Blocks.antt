-- ===== src/Loader/Stack/Blocks.antt =====
-- The block stack: a block that is pushed and popped.
use wasm_trustzone.Base.{
  ℕ, ◌+◌, ◌-◌, ◌≤◌, ◌<◌, ◌≡◌, refl, ap, ◌∙◌, Bool, true, ◌++◌, Option, some, arith, leb, length,
  length-append, length-set, get_elem?, set, replicate, get_elem?-set_self, Bool-cases, inl, inr,
}
use wasm_trustzone.Loader.Stack.{
  BranchBlock, no_block, LoaderContext, check_csp_push, put_block, wasm_loader_push_frame_csp,
}
use wasm_trustzone.Loader.Stack.Spec.{Gives}

pub record BlocksFit (ctx : LoaderContext) : Type 0 where
  pub top : ctx.frame_csp ≡ ctx.csp_num
  pub size : length ctx.frame_csp_bottom ≡ ctx.frame_csp_size
  pub in_bounds : ctx.csp_num ≤ ctx.frame_csp_size
  pub below_max : ctx.csp_num ≤ ctx.max_csp_num

-- The block on top.
unfoldable pub top_block : LoaderContext → Option BranchBlock
top_block ctx = get_elem? ctx.frame_csp_bottom (ctx.frame_csp - 1)

-- A block is on top of so many others, over an operand stack that is unchanged.
unfoldable pub Entered : BranchBlock → LoaderContext → LoaderContext → Type 0
Entered block before after =
    BlocksFit after
    × (top_block after ≡ some block)
    × (after.csp_num ≡ before.csp_num + 1)
    × (after.frame_ref_bottom ≡ before.frame_ref_bottom)
    × (after.stack_cell_num ≡ before.stack_cell_num)

extended-BlocksFit :
    (ctx : LoaderContext)
    → BlocksFit ctx
    → BlocksFit (record ctx {
      frame_csp_bottom = ctx.frame_csp_bottom ++ replicate 8 no_block;
      frame_csp_size = ctx.frame_csp_size + 8;
      frame_csp = ctx.csp_num;
    })
extended-BlocksFit ctx h = record {
  top = refl;
  size = length-append ctx.frame_csp_bottom (replicate 8 no_block) ∙ omega (arith, h.size);
  in_bounds = omega (arith, h.in_bounds);
  below_max = h.below_max;
}

put_block-Entered :
    (block : BranchBlock) (ctx : LoaderContext)
    → BlocksFit ctx
    → ctx.csp_num < ctx.frame_csp_size
    → Entered block ctx (put_block block ctx)
unfolding put_block Entered top_block
put_block-Entered block ctx h room = (
  record {
    top = omega (arith, h.top);
    size = length-set ctx.frame_csp_bottom ctx.frame_csp block ∙ h.size;
    in_bounds = omega arith;
    below_max = ground (arith, h.below_max);
  },
  ap (get_elem? (set ctx.frame_csp_bottom ctx.frame_csp block)) {x = ctx.frame_csp + 1 - 1}
        (omega arith)
      ∙ get_elem?-set_self ctx.frame_csp_bottom ctx.frame_csp block (omega (arith, h.size, h.top)),
  refl,
  refl,
  refl,
)

-- Where memory never runs out and the blocks fit their array, a block that is pushed is on top, over the operand stack as it was, with
-- the height of that stack in it; the block stack stays within its array.
pub wasm_loader_push_frame_csp-Entered :
    (room : ℕ → Bool) (type ret_type start_addr : ℕ) (ctx : LoaderContext)
    → ((n : ℕ) → room n ≡ true)
    → BlocksFit ctx
    → Gives
        (Entered
          (record no_block {
            block_type = type;
            return_type = ret_type;
            start_addr = start_addr;
            stack_cell_num = ctx.stack_cell_num;
          })
          ctx)
        (wasm_loader_push_frame_csp room type ret_type start_addr ctx)
unfolding wasm_loader_push_frame_csp check_csp_push Gives Entered
wasm_loader_push_frame_csp-Entered room type ret_type start_addr ctx granted h =
    elim (Bool-cases (leb ctx.frame_csp_size ctx.frame_csp)) [
      | inl full ↦
          rw (full, granted (ctx.frame_csp_size + 8))
            (put_block-Entered _ _ (extended-BlocksFit ctx h) (omega (arith, h.in_bounds)))
      | inr free ↦ rw free (put_block-Entered _ ctx h (ground (arith, h.top)))
    ]
