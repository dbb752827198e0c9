-- ===== src/Loader/Stack/Operands.antt =====
-- Pushes on the operand stack, against a stack of value types.
use wasm_trustzone.Base.{
  ℕ, suc, ◌+◌, ◌<◌, ◌≡◌, refl, ap, ◌∙◌, Bool, true, List, ◌∷◌, ◌++◌, arith, leb, length-append,
  length-set, set, replicate, Bool-cases, inl, inr,
}
use wasm_trustzone.Loader.Outcome.{Outcome, ok, err, ◌>>=◌}
use wasm_trustzone.Loader.Stack.{
  LoaderContext, check_stack_push, put_cell, push_cell, wasm_loader_push_frame_ref,
}
use wasm_trustzone.Loader.Stack.Spec.{
  ValueType, i32, i64, f32, f64, code, cells, top_first, Holds, Represents, Gives,
}
use wasm_trustzone.Loader.Stack.Cells.{top_first-set, top_first-append}

pub put_cell-Holds :
    (type : ℕ) (ctx : LoaderContext) (cs : List ℕ)
    → Holds ctx cs
    → ctx.stack_cell_num < ctx.frame_ref_size
    → Holds (put_cell type ctx) (type ∷ cs)
unfolding put_cell
put_cell-Holds type ctx cs h room = record {
  top = omega (arith, h.top);
  size = length-set ctx.frame_ref_bottom ctx.frame_ref type ∙ h.size;
  in_bounds = omega arith;
  below_max = ground (arith, h.below_max);
  view =
      ap (λ n. top_first n (set ctx.frame_ref_bottom ctx.frame_ref type))
        {x = ctx.stack_cell_num + 1} {y = suc ctx.stack_cell_num} (omega arith)
      ∙ ap (λ n. top_first (suc ctx.stack_cell_num) (set ctx.frame_ref_bottom n type)) h.top
      ∙ top_first-set ctx.stack_cell_num type ctx.frame_ref_bottom (omega (arith, h.size))
      ∙ ap (λ t. type ∷ t) h.view;
}

pub extended-Holds :
    (ctx : LoaderContext) (cs : List ℕ)
    → Holds ctx cs
    → Holds
        (record ctx {
          frame_ref_bottom = ctx.frame_ref_bottom ++ replicate 16 0;
          frame_ref_size = ctx.frame_ref_size + 16;
          frame_ref = ctx.stack_cell_num;
        })
        cs
extended-Holds ctx cs h = record {
  top = refl;
  size = length-append ctx.frame_ref_bottom (replicate 16 0) ∙ omega (arith, h.size);
  in_bounds = omega (arith, h.in_bounds);
  below_max = h.below_max;
  view =
      top_first-append ctx.stack_cell_num ctx.frame_ref_bottom (replicate 16 0)
        (omega (arith, h.size, h.in_bounds))
      ∙ h.view;
}

push_cell-Holds :
    (room : ℕ → Bool) (type : ℕ) (ctx : LoaderContext) (cs : List ℕ)
    → ((n : ℕ) → room n ≡ true)
    → Holds ctx cs
    → Gives (λ next. Holds next (type ∷ cs)) (push_cell room type ctx)
unfolding push_cell check_stack_push Gives
push_cell-Holds room type ctx cs granted h =
    elim (Bool-cases (leb ctx.frame_ref_size ctx.frame_ref)) [
      | inl full ↦
          rw (full, granted (ctx.frame_ref_size + 16))
            (put_cell-Holds type _ cs (extended-Holds ctx cs h) (omega (arith, h.in_bounds)))
      | inr free ↦ rw free (put_cell-Holds type ctx cs h (ground (arith, h.top)))
    ]

pub Gives->>= :
    (P Q : LoaderContext → Type 0) (o : Outcome LoaderContext)
    (f : LoaderContext → Outcome LoaderContext)
    → Gives P o
    → ((ctx : LoaderContext) → P ctx → Gives Q (f ctx))
    → Gives Q (o >>= f)
unfolding Gives
Gives->>= P Q (ok ctx) f h k = k ctx h
Gives->>= P Q (err e) f h k = absurd h

push_twice-Holds :
    (room : ℕ → Bool) (type : ℕ) (ctx : LoaderContext) (cs : List ℕ)
    → ((n : ℕ) → room n ≡ true)
    → Holds ctx cs
    → Gives
        (λ next. Holds next (type ∷ type ∷ cs))
        (push_cell room type ctx >>= push_cell room type)
push_twice-Holds room type ctx cs granted h =
    Gives->>= _ _ (push_cell room type ctx) (push_cell room type)
      (push_cell-Holds room type ctx cs granted h)
      (λ once k. push_cell-Holds room type once (type ∷ cs) granted k)

push_once-Holds :
    (room : ℕ → Bool) (type : ℕ) (ctx : LoaderContext) (cs : List ℕ)
    → ((n : ℕ) → room n ≡ true)
    → Holds ctx cs
    → Gives (λ next. Holds next (type ∷ cs)) (push_cell room type ctx >>= (λ once. ok once))
unfolding Gives
push_once-Holds room type ctx cs granted h =
    Gives->>= _ _ (push_cell room type ctx) (λ once. ok once)
      (push_cell-Holds room type ctx cs granted h) (λ once k. k)

-- Where memory never runs out, a value type is pushed on the stack that the context represents.
pub wasm_loader_push_frame_ref-Represents :
    (room : ℕ → Bool) (t : ValueType) (ctx : LoaderContext) (ts : List ValueType)
    → ((n : ℕ) → room n ≡ true)
    → Represents ctx ts
    → Gives (λ next. Represents next (t ∷ ts)) (wasm_loader_push_frame_ref room (code t) ctx)
unfolding wasm_loader_push_frame_ref Represents cells
wasm_loader_push_frame_ref-Represents room i32 ctx ts granted h =
    push_once-Holds room 0x7f ctx (cells ts) granted h
wasm_loader_push_frame_ref-Represents room f32 ctx ts granted h =
    push_once-Holds room 0x7d ctx (cells ts) granted h
wasm_loader_push_frame_ref-Represents room i64 ctx ts granted h =
    push_twice-Holds room 0x7e ctx (cells ts) granted h
wasm_loader_push_frame_ref-Represents room f64 ctx ts granted h =
    push_twice-Holds room 0x7c ctx (cells ts) granted h
