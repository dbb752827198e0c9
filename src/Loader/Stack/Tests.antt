-- ===== src/Loader/Stack/Tests.antt =====
-- The stacks of the loader on concrete types, and their theorems there.
use wasm_trustzone.Base.{ℕ, [], ◌∷◌, ◌≡◌, refl, true, some, arith, Bool}
use wasm_trustzone.Loader.Outcome.{ok, err, below_bottom}
use wasm_trustzone.Loader.Stack.{
  BranchBlock, no_block, LoaderContext, wasm_loader_push_frame_ref, wasm_loader_push_frame_csp,
  wasm_loader_check_br,
}
use wasm_trustzone.Loader.Stack.Spec.{i32, i64, cells, top_first, Represents, Gives}
use wasm_trustzone.Loader.Stack.Operands.{wasm_loader_push_frame_ref-Represents}
use wasm_trustzone.Loader.Stack.Branches.{
  on_top, result_on_top, result_code, reach, wasm_loader_check_br-on_top,
}
use wasm_trustzone.Loader.Stack.Blocks.{BlocksFit, Entered, wasm_loader_push_frame_csp-Entered}

abbrev always : ℕ → Bool
always n = true

-- A block that gives an i64, and an i64 over an i32 on the operand stack.
abbrev body : BranchBlock
body = record no_block { return_type = 0x7e }

abbrev busy : LoaderContext
busy = record {
  frame_ref_bottom = 0x7f ∷ 0x7e ∷ 0x7e ∷ 0 ∷ [];
  frame_ref = 3;
  frame_ref_size = 4;
  stack_cell_num = 3;
  max_stack_cell_num = 3;
  frame_csp_bottom = body ∷ [];
  frame_csp = 1;
  frame_csp_size = 1;
  csp_num = 1;
  max_csp_num = 1;
}

busy-Represents : Represents busy (i64 ∷ i32 ∷ [])
unfolding Represents cells top_first
busy-Represents = record {
  top = refl;
  size = refl;
  in_bounds = omega arith;
  below_max = omega arith;
  view = refl;
}

busy-BlocksFit : BlocksFit busy
busy-BlocksFit = record {
  top = refl;
  size = refl;
  in_bounds = omega arith;
  below_max = omega arith;
}

wasm_loader_push_frame_ref-Represents_example :
    Gives
      (λ next. Represents next (i64 ∷ i64 ∷ i32 ∷ []))
      (wasm_loader_push_frame_ref always 0x7e busy)
wasm_loader_push_frame_ref-Represents_example =
    wasm_loader_push_frame_ref-Represents always i64 busy (i64 ∷ i32 ∷ []) (λ n. refl)
      busy-Represents

wasm_loader_check_br-on_top_example : wasm_loader_check_br 0 busy ≡ ok (reach 0 body busy)
unfolding result_on_top on_top result_code
wasm_loader_check_br-on_top_example =
    wasm_loader_check_br-on_top 0 busy (i64 ∷ i32 ∷ []) body (some i64) busy-Represents
      (omega arith) (omega arith) refl refl

wasm_loader_push_frame_csp-Entered_example :
    Gives
      (Entered (record no_block { block_type = 1; start_addr = 9; stack_cell_num = 3 }) busy)
      (wasm_loader_push_frame_csp always 1 0 9 busy)
wasm_loader_push_frame_csp-Entered_example =
    wasm_loader_push_frame_csp-Entered always 1 0 9 busy (λ n. refl) busy-BlocksFit

-- The depth 2 ^ 32 - 1 passes the test of the depth, and the block is read behind the array.
deepest_branch : wasm_loader_check_br 4294967295 busy ≡ err below_bottom
unfolding wasm_loader_check_br
deepest_branch = refl
