-- ===== src/Loader/Stack/Pops.antt =====
-- Pops from the operand stack, against a stack of value types.
use wasm_trustzone.Base.{
  ℕ, zero, suc, ◌-◌, ◌≡◌, refl, sym, ap, ◌∙◌, true, false, ◌||◌, List, [], ◌∷◌, none, some, arith,
  ◌==◌, if◌then◌else◌, length, get_or, Bool-cases, inl, inr,
}
use wasm_trustzone.Loader.Outcome.{Outcome, ok, err, ◌>>=◌}
use wasm_trustzone.Loader.Stack.{
  LoaderContext, cell_at, check_stack_pop, drop_cell, wasm_loader_pop_frame_ref,
}
use wasm_trustzone.Loader.Stack.Spec.{
  same, ValueType, i32, i64, f32, f64, code, pop_type, cells, top_first, Holds, Represents, Gives,
  Refines,
}
use wasm_trustzone.Loader.Stack.Operands.{Gives->>=}

length-top_first : (n : ℕ) (xs : List ℕ) → length (top_first n xs) ≡ n
unfolding top_first
length-top_first zero xs = refl
length-top_first (suc n) xs = ap suc (length-top_first n xs)

pub Holds-count :
    (ctx : LoaderContext) (cs : List ℕ) → Holds ctx cs → ctx.stack_cell_num ≡ length cs
Holds-count ctx cs h =
    sym (length-top_first ctx.stack_cell_num ctx.frame_ref_bottom) ∙ ap length h.view

pub top_first-cons :
    (n : ℕ) (xs cs : List ℕ) (c : ℕ)
    → top_first n xs ≡ c ∷ cs
    → (get_or xs (n - 1) 0 ≡ c) × (top_first (n - 1) xs ≡ cs)
unfolding top_first
top_first-cons zero xs cs c e = absurd (ground (arith, e))
top_first-cons (suc n) xs cs c e = (ground (arith, e), ground (arith, e))

cell_at-one : (ctx : LoaderContext) (cs : List ℕ) (c : ℕ) → Holds ctx (c ∷ cs) → cell_at ctx 1 ≡ c
unfolding cell_at
cell_at-one ctx cs c h =
    ap (λ n. get_or ctx.frame_ref_bottom (n - 1) 0) h.top
    ∙ (top_first-cons ctx.stack_cell_num ctx.frame_ref_bottom cs c h.view).0

pub cell_at-two :
    (ctx : LoaderContext) (cs : List ℕ) (c d : ℕ) → Holds ctx (c ∷ d ∷ cs) → cell_at ctx 2 ≡ d
unfolding cell_at
cell_at-two ctx cs c d h =
    let below = (top_first-cons ctx.stack_cell_num ctx.frame_ref_bottom (d ∷ cs) c h.view).1 in
    ap (λ n. get_or ctx.frame_ref_bottom n 0) {y = ctx.stack_cell_num - 1 - 1}
      (omega (arith, h.top))
    ∙ (top_first-cons (ctx.stack_cell_num - 1) ctx.frame_ref_bottom cs d below).0

drop_cell-Holds :
    (ctx : LoaderContext) (cs : List ℕ) (c : ℕ)
    → Holds ctx (c ∷ cs)
    → Gives (λ next. Holds next cs) (drop_cell ctx)
unfolding drop_cell Gives
drop_cell-Holds ctx cs c h =
    let some_cell : (ctx.stack_cell_num == 0) ≡ false =
      ground (arith, Holds-count ctx (c ∷ cs) h) in
    rw some_cell (record {
      top = omega (arith, h.top);
      size = h.size;
      in_bounds = omega (arith, h.in_bounds);
      below_max = omega (arith, h.below_max);
      view = (top_first-cons ctx.stack_cell_num ctx.frame_ref_bottom cs c h.view).1;
    })

drop_twice-Holds :
    (ctx : LoaderContext) (cs : List ℕ) (c d : ℕ)
    → Holds ctx (c ∷ d ∷ cs)
    → Gives (λ next. Holds next cs) (drop_cell ctx >>= drop_cell)
drop_twice-Holds ctx cs c d h =
    Gives->>= _ _ (drop_cell ctx) drop_cell (drop_cell-Holds ctx (d ∷ cs) c h)
      (λ once k. drop_cell-Holds once cs d k)

drop_once-Holds :
    (ctx : LoaderContext) (cs : List ℕ) (c : ℕ)
    → Holds ctx (c ∷ cs)
    → Gives (λ next. Holds next cs) (drop_cell ctx >>= (λ once. ok once))
unfolding Gives
drop_once-Holds ctx cs c h =
    Gives->>= _ _ (drop_cell ctx) (λ once. ok once) (drop_cell-Holds ctx cs c h) (λ once k. k)

-- The outcome is an error.
abbrev Fails : Outcome LoaderContext → Type 0
Fails (ok ctx) = ⊥
Fails (err e) = Unit

pop-empty :
    (u : ValueType) (ctx : LoaderContext)
    → ctx.stack_cell_num ≡ 0
    → Fails (wasm_loader_pop_frame_ref (code u) ctx)
unfolding wasm_loader_pop_frame_ref check_stack_pop
pop-empty i32 ctx e = ground (arith, e)
pop-empty i64 ctx e = ground (arith, e)
pop-empty f32 ctx e = ground (arith, e)
pop-empty f64 ctx e = ground (arith, e)

-- The byte on top is not the one that the type asks for.
pop-mismatch :
    (u : ValueType) (ctx : LoaderContext) (c : ℕ)
    → cell_at ctx 1 ≡ c
    → (c == code u) ≡ false
    → Fails (wasm_loader_pop_frame_ref (code u) ctx)
unfolding wasm_loader_pop_frame_ref check_stack_pop
pop-mismatch i32 ctx c e other = ground (arith, e, other)
pop-mismatch i64 ctx c e other = ground (arith, e, other)
pop-mismatch f32 ctx c e other = ground (arith, e, other)
pop-mismatch f64 ctx c e other = ground (arith, e, other)

Refines-none : (o : Outcome LoaderContext) → Fails o → Refines o none
unfolding Refines
Refines-none (ok ctx) h = h
Refines-none (err e) h = tt

Refines-some :
    (o : Outcome LoaderContext) (ts : List ValueType)
    → Gives (λ next. Holds next (cells ts)) o
    → Refines o (some ts)
unfolding Refines Gives Represents
Refines-some (ok ctx) ts h = h
Refines-some (err e) ts h = h

pop-narrow :
    (ctx : LoaderContext) (cs : List ℕ) (c : ℕ)
    → (c == 0x7f) || (c == 0x7d) ≡ true
    → Holds ctx (c ∷ cs)
    → Gives (λ next. Holds next cs) (wasm_loader_pop_frame_ref c ctx)
unfolding wasm_loader_pop_frame_ref check_stack_pop
pop-narrow ctx cs c narrow h =
    let count = Holds-count ctx (c ∷ cs) h in
    let cell = cell_at-one ctx cs c h in
    let checked : check_stack_pop c ctx ≡ ok ctx = ground (arith, count, cell, narrow) in
    let typed : (c == 0x40) ≡ false = ground (arith, narrow) in
    rw (typed, checked, narrow) (drop_once-Holds ctx cs c h)

pop-wide :
    (ctx : LoaderContext) (cs : List ℕ) (c : ℕ)
    → (c == 0x7e) || (c == 0x7c) ≡ true
    → Holds ctx (c ∷ c ∷ cs)
    → Gives (λ next. Holds next cs) (wasm_loader_pop_frame_ref c ctx)
unfolding wasm_loader_pop_frame_ref check_stack_pop
pop-wide ctx cs c wide h =
    let count = Holds-count ctx (c ∷ c ∷ cs) h in
    let cell = cell_at-one ctx (c ∷ cs) c h in
    let under = cell_at-two ctx cs c c h in
    let checked : check_stack_pop c ctx ≡ ok ctx = ground (arith, count, cell, under, wide) in
    let typed : (c == 0x40) ≡ false = ground (arith, wide) in
    let twice : ((c == 0x7f) || (c == 0x7d)) ≡ false = ground (arith, wide) in
    rw (typed, checked, twice) (drop_twice-Holds ctx cs c c h)

-- The byte of the type on top is the top cell.
pub top-code :
    (t : ValueType) (ts : List ValueType) (ctx : LoaderContext)
    → Holds ctx (cells (t ∷ ts))
    → cell_at ctx 1 ≡ code t
unfolding cells
top-code i32 ts ctx h = cell_at-one ctx (cells ts) 0x7f h
top-code i64 ts ctx h = cell_at-one ctx (0x7e ∷ cells ts) 0x7e h
top-code f32 ts ctx h = cell_at-one ctx (cells ts) 0x7d h
top-code f64 ts ctx h = cell_at-one ctx (0x7c ∷ cells ts) 0x7c h

pop-top :
    (t : ValueType) (ts : List ValueType) (ctx : LoaderContext)
    → Holds ctx (cells (t ∷ ts))
    → Gives (λ next. Holds next (cells ts)) (wasm_loader_pop_frame_ref (code t) ctx)
unfolding cells
pop-top i32 ts ctx h = pop-narrow ctx (cells ts) 0x7f refl h
pop-top f32 ts ctx h = pop-narrow ctx (cells ts) 0x7d refl h
pop-top i64 ts ctx h = pop-wide ctx (cells ts) 0x7e refl h
pop-top f64 ts ctx h = pop-wide ctx (cells ts) 0x7c refl h

uncode : ℕ → ValueType
uncode c = if c == 0x7f then i32 else if c == 0x7e then i64 else if c == 0x7d then f32 else f64

uncode-code : (t : ValueType) → uncode (code t) ≡ t
unfolding uncode
uncode-code i32 = refl
uncode-code i64 = refl
uncode-code f32 = refl
uncode-code f64 = refl

pub same-≡ : (u t : ValueType) → same u t ≡ true → u ≡ t
same-≡ u t e =
    let codes : code u ≡ code t = ground (arith, e) in
    sym (uncode-code u) ∙ ap uncode codes ∙ uncode-code t

pub wasm_loader_pop_frame_ref-Refines :
    (u : ValueType) (ctx : LoaderContext) (ts : List ValueType)
    → Represents ctx ts
    → Refines (wasm_loader_pop_frame_ref (code u) ctx) (pop_type u ts)
unfolding pop_type Represents cells
wasm_loader_pop_frame_ref-Refines u ctx [] h =
    Refines-none (wasm_loader_pop_frame_ref (code u) ctx) (pop-empty u ctx (Holds-count ctx [] h))
wasm_loader_pop_frame_ref-Refines u ctx (t ∷ ts) h = elim (Bool-cases (same u t)) [
  | inl equal ↦
      rw (equal, same-≡ u t equal)
        (Refines-some (wasm_loader_pop_frame_ref (code t) ctx) ts (pop-top t ts ctx h))
  | inr other ↦ rw other (
      Refines-none (wasm_loader_pop_frame_ref (code u) ctx)
        (pop-mismatch u ctx (code t) (top-code t ts ctx h) other))
]
