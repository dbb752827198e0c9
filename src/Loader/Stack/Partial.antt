-- ===== src/Loader/Stack/Partial.antt =====
-- Pushes and pops on the operand stack that may fail, where the allocator or the types of the code
-- refuse: what the context represents after the ones that succeed, and its greatest height.
use wasm_trustzone.Base.{
  ℕ, ◌+◌, ◌-◌, ◌≤◌, ◌≡◌, sym, ap, ◌∙◌, subst, if◌then◌else◌, Bool, ◌||◌, List, [], ◌∷◌, none, some,
  arith, leb, ◌==◌, Bool-cases, inl, inr,
}
use wasm_trustzone.Loader.Outcome.{Outcome, ok, err, ◌>>=◌, Yields, Yields->>=, Yields-if}
use wasm_trustzone.Loader.Stack.{
  LoaderContext, check_stack_push, check_stack_pop, drop_cell, put_cell, push_cell,
  wasm_loader_push_frame_ref, wasm_loader_pop_frame_ref,
}
use wasm_trustzone.Loader.Stack.Spec.{
  ValueType, i32, i64, f32, f64, code, same, pop_type, cells, top_first, Holds, Represents, Refines,
}
use wasm_trustzone.Loader.Stack.Operands.{put_cell-Holds, extended-Holds}
use wasm_trustzone.Loader.Stack.Pops.{top_first-cons, wasm_loader_pop_frame_ref-Refines, same-≡}

-- The greatest height has not gone down, and the block stack is the same.
abbrev pub Keeps : LoaderContext → LoaderContext → Type 0
Keeps m ctx =
    (m.max_stack_cell_num ≤ ctx.max_stack_cell_num)
    × (ctx.frame_csp_bottom ≡ m.frame_csp_bottom)
    × (ctx.frame_csp ≡ m.frame_csp)
    × (ctx.csp_num ≡ m.csp_num)

-- The context has these cells, and stands to an earlier one so.
abbrev pub Above : LoaderContext → List ℕ → LoaderContext → Type 0
Above m cs ctx = Holds ctx cs × Keeps m ctx

push_cell-Above :
    (room : ℕ → Bool) (type : ℕ) (m : LoaderContext) (cs : List ℕ) (ctx : LoaderContext)
    → Above m cs ctx
    → Yields (Above m (type ∷ cs)) (push_cell room type ctx)
unfolding push_cell check_stack_push put_cell
push_cell-Above room type m cs ctx (h, (high, bottom, csp, num)) =
    elim (Bool-cases (leb ctx.frame_ref_size ctx.frame_ref)) [
      | inl full ↦ elim (Bool-cases (room (ctx.frame_ref_size + 16))) [
        | inl granted ↦
            rw (full, granted)
              (
                put_cell-Holds type _ cs (extended-Holds ctx cs h) (omega (arith, h.in_bounds)),
                (ground arith, bottom, csp, num),
              )
        | inr refused ↦ rw (full, refused) tt
      ]
      | inr free ↦
          rw free
            (put_cell-Holds type ctx cs h (ground (arith, h.top)), (ground arith, bottom, csp, num))
    ]

push_twice-Above :
    (room : ℕ → Bool) (type : ℕ) (m : LoaderContext) (cs : List ℕ) (ctx : LoaderContext)
    → Above m cs ctx
    → Yields (Above m (type ∷ type ∷ cs)) (push_cell room type ctx >>= push_cell room type)
push_twice-Above room type m cs ctx h =
    Yields->>= (Above m (type ∷ cs)) _ (push_cell room type ctx) (push_cell room type)
      (push_cell-Above room type m cs ctx h)
      (λ once k. push_cell-Above room type m (type ∷ cs) once k)

push_once-Above :
    (room : ℕ → Bool) (type : ℕ) (m : LoaderContext) (cs : List ℕ) (ctx : LoaderContext)
    → Above m cs ctx
    → Yields (Above m (type ∷ cs)) (push_cell room type ctx >>= (λ once. ok once))
push_once-Above room type m cs ctx h =
    Yields->>= (Above m (type ∷ cs)) _ (push_cell room type ctx) (λ once. ok once)
      (push_cell-Above room type m cs ctx h) (λ once k. k)

pub wasm_loader_push_frame_ref-Above :
    (room : ℕ → Bool) (t : ValueType) (m : LoaderContext) (ts : List ValueType)
    (ctx : LoaderContext)
    → Above m (cells ts) ctx
    → Yields (Above m (cells (t ∷ ts))) (wasm_loader_push_frame_ref room (code t) ctx)
unfolding wasm_loader_push_frame_ref cells
wasm_loader_push_frame_ref-Above room i32 m ts ctx h = push_once-Above room 0x7f m (cells ts) ctx h
wasm_loader_push_frame_ref-Above room f32 m ts ctx h = push_once-Above room 0x7d m (cells ts) ctx h
wasm_loader_push_frame_ref-Above room i64 m ts ctx h = push_twice-Above room 0x7e m (cells ts) ctx h
wasm_loader_push_frame_ref-Above room f64 m ts ctx h = push_twice-Above room 0x7c m (cells ts) ctx h

drop_cell-Keeps : (m ctx : LoaderContext) → Keeps m ctx → Yields (Keeps m) (drop_cell ctx)
unfolding drop_cell
drop_cell-Keeps m ctx h = elim (Bool-cases (ctx.stack_cell_num == 0)) [
  | inl empty ↦ rw empty tt
  | inr some_cell ↦ rw some_cell h
]

check_stack_pop-same :
    (type : ℕ) (ctx : LoaderContext) → Yields (λ next. next ≡ ctx) (check_stack_pop type ctx)
unfolding check_stack_pop
check_stack_pop-same type ctx = ground arith

pop-Keeps :
    (type : ℕ) (m ctx : LoaderContext)
    → Keeps m ctx
    → Yields (Keeps m) (wasm_loader_pop_frame_ref type ctx)
unfolding wasm_loader_pop_frame_ref
pop-Keeps type m ctx h = Yields-if (Keeps m) (type == 0x40) (ok ctx) _ h (
    Yields->>= (λ next. next ≡ ctx) _ (check_stack_pop type ctx) _ (check_stack_pop-same type ctx)
      (λ checked e.
        Yields->>= (Keeps m) _ (drop_cell checked) _
          (drop_cell-Keeps m checked (subst (Keeps m) (sym e) h))
          (λ once j.
            Yields-if (Keeps m) ((type == 0x7f) || (type == 0x7d)) (ok once) (drop_cell once) j
              (drop_cell-Keeps m once j))))

-- Where a pop succeeds, the type asked for is on top.
abbrev pub Uncovers : ValueType → LoaderContext → List ValueType → LoaderContext → Type 0
Uncovers u m ts ctx = (us : List ValueType) × (ts ≡ u ∷ us) × Above m (cells us) ctx

-- Both at once.
Refines-Uncovers :
    (u : ValueType) (m : LoaderContext) (ts : List ValueType) (o : Outcome LoaderContext)
    → Refines o (pop_type u ts)
    → Yields (Keeps m) o
    → Yields (Uncovers u m ts) o
unfolding Refines pop_type Represents
Refines-Uncovers u m ts (err e) r h = tt
Refines-Uncovers u m [] (ok ctx) r h = absurd r
Refines-Uncovers u m (t ∷ ts) (ok ctx) r h = elim (Bool-cases (same u t)) [
  | inl equal ↦ (
    ts,
    ap (λ v. v ∷ ts) (sym (same-≡ u t equal)),
    (subst (λ b. Refines (ok ctx) (if b then some ts else none)) equal r, h),
  )
  | inr other ↦ absurd (subst (λ b. Refines (ok ctx) (if b then some ts else none)) other r)
]

pub wasm_loader_pop_frame_ref-Uncovers :
    (u : ValueType) (m : LoaderContext) (ts : List ValueType) (ctx : LoaderContext)
    → Above m (cells ts) ctx
    → Yields (Uncovers u m ts) (wasm_loader_pop_frame_ref (code u) ctx)
unfolding Represents
wasm_loader_pop_frame_ref-Uncovers u m ts ctx (h, high) =
    Refines-Uncovers u m ts (wasm_loader_pop_frame_ref (code u) ctx)
      (wasm_loader_pop_frame_ref-Refines u ctx ts h) (pop-Keeps (code u) m ctx high)

pub lower_one-Holds :
    (ctx : LoaderContext) (cs : List ℕ) (c : ℕ)
    → Holds ctx (c ∷ cs)
    → Holds
        (record ctx { frame_ref = ctx.frame_ref - 1; stack_cell_num = ctx.stack_cell_num - 1 })
        cs
lower_one-Holds ctx cs c h = record {
  top = omega (arith, h.top);
  size = h.size;
  in_bounds = omega (arith, h.in_bounds);
  below_max = omega (arith, h.below_max);
  view = (top_first-cons ctx.stack_cell_num ctx.frame_ref_bottom cs c h.view).1;
}

pub lower_two-Holds :
    (ctx : LoaderContext) (cs : List ℕ) (c d : ℕ)
    → Holds ctx (c ∷ d ∷ cs)
    → Holds
        (record ctx { frame_ref = ctx.frame_ref - 2; stack_cell_num = ctx.stack_cell_num - 2 })
        cs
lower_two-Holds ctx cs c d h =
    let below = (top_first-cons ctx.stack_cell_num ctx.frame_ref_bottom (d ∷ cs) c h.view).1 in
    let two : ctx.stack_cell_num - 2 ≡ ctx.stack_cell_num - 1 - 1 = omega arith in
    record {
      top = omega (arith, h.top);
      size = h.size;
      in_bounds = omega (arith, h.in_bounds);
      below_max = omega (arith, h.below_max);
      view =
          ap (λ n. top_first n ctx.frame_ref_bottom) two
          ∙ (top_first-cons (ctx.stack_cell_num - 1) ctx.frame_ref_bottom cs d below).1;
    }
