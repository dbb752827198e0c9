-- ===== src/Loader/Body/Leaf.antt =====
-- What `wasm_loader_prepare_bytecode` accepts of a body without blocks is typed from the empty stack to
-- one that begins with the result, and `max_stack_cell_num` bounds every stack on the way.
use wasm_trustzone.Base.{
  ℕ, ◌-◌, ◌≤◌, ◌≡◌, refl, ap, ◌∙◌, Bool, true, false, ◌&&◌, Option, none, some, List, [], ◌∷◌,
  replicate, arith, ltb, length, get_or,
}
use wasm_trustzone.Loader.Outcome.{
  err, ◌>>=◌, Yields, Yields->>=, Yields-map, Yields-if, missing_end,
}
use wasm_trustzone.Loader.Stack.{
  no_block, LoaderContext, wasm_loader_ctx_init, check_csp_push, put_block,
  wasm_loader_push_frame_csp, wasm_loader_pop_frame_csp, wasm_loader_push_frame_ref,
  wasm_loader_pop_frame_ref,
}
use wasm_trustzone.Loader.Stack.Spec.{ValueType, code, cells, top_first, Holds}
use wasm_trustzone.Loader.Stack.Pops.{Holds-count}
use wasm_trustzone.Loader.Stack.Partial.{
  Keeps, Above, Uncovers, wasm_loader_push_frame_ref-Above, wasm_loader_pop_frame_ref-Uncovers,
}
use wasm_trustzone.Loader.Locals.{Function}
use wasm_trustzone.Loader.Body.{
  check_instr, check_code, ret_type, obtained, begin_function, end_block, prepare_leaf,
  block_type_function,
}
use wasm_trustzone.Loader.Body.Typing.{Typing, is_standard, all_standard, CodeTyping, EndsWith}
use wasm_trustzone.Loader.Body.Checked.{Leaves, check_instr-Leaves}
use wasm_trustzone.Opcode.{Instr}

pub Keeps-refl : (ctx : LoaderContext) → Keeps ctx ctx
Keeps-refl ctx = (omega arith, refl, refl, refl)

Keeps-trans : (a b c : LoaderContext) → Keeps a b → Keeps b c → Keeps a c
Keeps-trans a b c (h, p, q, r) (k, s, t, u) = (omega arith, s ∙ p, t ∙ q, u ∙ r)

-- The values on the stack never took more cells than the context says.
Holds-max : (ctx : LoaderContext) (cs : List ℕ) → Holds ctx cs → length cs ≤ ctx.max_stack_cell_num
Holds-max ctx cs h = omega (arith, h.below_max, Holds-count ctx cs h)

-- The code that is left is typed in any room that the greatest height leaves.
abbrev pub CodeLeft :
    Function → List Instr → LoaderContext → List ValueType → List Instr × LoaderContext → Type 0
CodeLeft func is m ts r =
    (us : List ValueType) × ((room : ℕ)
      → r.1.max_stack_cell_num ≤ room
      → CodeTyping func room is r.0 ts us)
    × Above m (cells us) r.1

pub and_left : (a b : Bool) → a && b ≡ true → a ≡ true
and_left true b e = refl
and_left false b e = e

pub and_right : (a b : Bool) → a && b ≡ true → b ≡ true
and_right true b e = e
and_right false b e = absurd (ground (arith, e))

pub check_code-CodeLeft :
    (room : ℕ → Bool) (func : Function) (is : List Instr) (m : LoaderContext) (ts : List ValueType)
    (ctx : LoaderContext)
    → all_standard is ≡ true
    → Above m (cells ts) ctx
    → Yields (CodeLeft func is m ts) (check_code room func is ctx)
unfolding check_code all_standard CodeTyping
check_code-CodeLeft room func [] m ts ctx s h = (ts, (λ b le. (refl, refl)), h)
check_code-CodeLeft room func (i ∷ is) m ts ctx s h =
    Yields->>= (Leaves (λ left us. Typing func i left ts us) m) _ (check_instr room func i ctx) _
      (check_instr-Leaves room func i m ts ctx (and_left (is_standard i) (all_standard is) s) h)
      (λ first (mid, typed, (held, kept)).
        Yields->>= (CodeLeft func is first.1 mid) _ (check_code room func is first.1) _
          (check_code-CodeLeft room func is first.1 mid first.1
            (and_right (is_standard i) (all_standard is) s) (held, Keeps-refl first.1))
          (λ rest (us, below, (holds, keeps)). (
            us,
            (λ b le. (
              first.0,
              rest.0,
              mid,
              refl,
              typed,
              omega (arith, Holds-max first.1 (cells mid) held, keeps.0),
              below b le,
            )),
            (holds, Keeps-trans m first.1 rest.1 kept keeps),
          )))

-- The context in which the first instruction is checked.
abbrev pub entered : Option ValueType → ℕ → LoaderContext
entered ret p = record {
  frame_ref_bottom = replicate 32 0;
  frame_ref = 0;
  frame_ref_size = 32;
  stack_cell_num = 0;
  max_stack_cell_num = 0;
  frame_csp_bottom =
      record no_block {
        block_type = block_type_function;
        return_type = ret_type ret;
        is_block_reachable = true;
        start_addr = p;
      }
      ∷ replicate 7 no_block;
  frame_csp = 1;
  frame_csp_size = 8;
  csp_num = 1;
  max_csp_num = 1;
}

pub entered-Above :
    (ret : Option ValueType) (p : ℕ) → Above (entered ret p) (cells []) (entered ret p)
unfolding top_first cells
entered-Above ret p = (
  record { top = refl; size = refl; in_bounds = omega arith; below_max = omega arith; view = refl },
  Keeps-refl (entered ret p),
)

-- The function's block is the last one, and its result is on top.
abbrev pub Ended : Option ValueType → LoaderContext → List ValueType → LoaderContext → Type 0
Ended ret before us next =
    EndsWith ret us × (before.max_stack_cell_num ≤ next.max_stack_cell_num) × (next.csp_num ≡ 0)

result-Ended :
    (room : ℕ → Bool) (ret : Option ValueType) (us : List ValueType) (left : LoaderContext)
    → Holds left (cells us)
    → left.csp_num ≡ 0
    → Yields (Ended ret left us) (
        wasm_loader_pop_frame_ref (ret_type ret) left
        >>= wasm_loader_push_frame_ref room (ret_type ret))
unfolding ret_type EndsWith wasm_loader_pop_frame_ref wasm_loader_push_frame_ref
result-Ended room none us left h last = (tt, omega arith, last)
result-Ended room (some t) us left h last =
    Yields->>= (Uncovers t left us) _ (wasm_loader_pop_frame_ref (code t) left)
      (wasm_loader_push_frame_ref room (code t))
      (wasm_loader_pop_frame_ref-Uncovers t left us left (h, Keeps-refl left))
      (λ under (rest, e, k).
        Yields-map (Above left (cells (t ∷ rest))) _
          (wasm_loader_push_frame_ref room (code t) under)
          (λ next (holds, (high, blocks, top, num)). ((rest, e), high, num ∙ last))
          (wasm_loader_push_frame_ref-Above room t left rest under k))

-- The block that an END closes is the function's.
pub open_block :
    (ret : Option ValueType) (p : ℕ) (ctx : LoaderContext)
    → ctx.csp_num ≡ (entered ret p).csp_num
    → ltb ctx.csp_num 1 ≡ false
open_block ret p ctx num = ground (arith, num)

pub block_type_lem :
    (ret : Option ValueType) (p : ℕ) (ctx : LoaderContext)
    → ctx.frame_csp_bottom ≡ (entered ret p).frame_csp_bottom
    → ctx.frame_csp ≡ (entered ret p).frame_csp
    → (get_or ctx.frame_csp_bottom (ctx.frame_csp - 1) no_block).return_type ≡ ret_type ret
block_type_lem ret p ctx blocks top =
    ap (λ bs. (get_or bs (ctx.frame_csp - 1) no_block).return_type) blocks
    ∙ ap (λ n. (get_or (entered ret p).frame_csp_bottom (n - 1) no_block).return_type) top

pub end_block-Ended :
    (room : ℕ → Bool) (ret : Option ValueType) (p : ℕ) (us : List ValueType) (ctx : LoaderContext)
    → Above (entered ret p) (cells us) ctx
    → Yields (Ended ret ctx us) (end_block room ctx)
unfolding end_block wasm_loader_pop_frame_csp
end_block-Ended room ret p us ctx (h, (high, blocks, top, num)) =
    rw (open_block ret p ctx num, block_type_lem ret p ctx blocks top)
      (result-Ended room ret us
        (record ctx { frame_csp = ctx.frame_csp - 1; csp_num = ctx.csp_num - 1 })
        (record {
          top = h.top;
          size = h.size;
          in_bounds = h.in_bounds;
          below_max = h.below_max;
          view = h.view;
        })
        (omega (arith, num)))

-- The code and the number of cells fit the types, from no values to the result.
abbrev pub LeafTyping : Function → Option ValueType → List Instr → List Instr × ℕ → Type 0
LeafTyping func ret is r =
    (us : List ValueType) × CodeTyping func r.1 is r.0 [] us × EndsWith ret us

pub prepare_leaf-LeafTyping :
    (granted : Bool) (room : ℕ → Bool) (func : Function) (ret : Option ValueType) (p : ℕ)
    (is : List Instr)
    → all_standard is ≡ true
    → Yields (LeafTyping func ret is) (prepare_leaf granted room func ret p is)
unfolding prepare_leaf obtained wasm_loader_ctx_init begin_function wasm_loader_push_frame_csp
    check_csp_push put_block
prepare_leaf-LeafTyping false room func ret p is s = tt
prepare_leaf-LeafTyping true room func ret p is s =
    Yields->>= (CodeLeft func is (entered ret p) []) _ (check_code room func is (entered ret p)) _
      (check_code-CodeLeft room func is (entered ret p) [] (entered ret p) s (entered-Above ret p))
      (λ checked (us, typed, above).
        Yields->>= (Ended ret checked.1 us) _ (end_block room checked.1) _
          (end_block-Ended room ret p us checked.1 above)
          (λ ended (result, high, last).
            Yields-if (LeafTyping func ret is) (ltb 0 ended.csp_num) (err missing_end) _ tt
              (us, typed ended.max_stack_cell_num high, result)))
