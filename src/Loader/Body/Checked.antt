-- ===== src/Loader/Body/Checked.antt =====
-- What the checks of the instructions accept is typed: on a context that represents a stack of types,
-- an instruction that passes has types that begin with that stack and end with the one that the next
-- context represents.
use wasm_trustzone.Base.{
  ℕ, ◌+◌, ◌≡◌, refl, ap, ◌∙◌, Bool, true, false, List, [], ◌∷◌, ◌++◌, length, Option, none, some,
  arith, ltb, leb, if◌then◌else◌, Bool-cases, inl, inr,
}
use wasm_trustzone.Loader.Outcome.{ok, Yields, Yields->>=, Yields-map}
use wasm_trustzone.Loader.Stack.{
  LoaderContext, wasm_loader_push_frame_ref, wasm_loader_pop_frame_ref,
}
use wasm_trustzone.Loader.Stack.Spec.{ValueType, i32, i64, f32, f64, code, cells, Holds}
use wasm_trustzone.Loader.Stack.Pops.{Holds-count, top-code}
use wasm_trustzone.Loader.Stack.Partial.{
  Above, Uncovers, wasm_loader_push_frame_ref-Above, wasm_loader_pop_frame_ref-Uncovers,
  lower_one-Holds, lower_two-Holds,
}
use wasm_trustzone.Loader.Locals.{
  Function, local_at, within, get_local_type_and_offset, is_narrow, fast_byte,
}
use wasm_trustzone.Loader.Body.{
  pop_all, push_all, retype, top_is_narrow, check_drop, select_top, check_select, check_local,
  check_instr,
}
use wasm_trustzone.Loader.Body.Signature.{signature, operands, result, numeric_types-signature}
use wasm_trustzone.Loader.Body.Typing.{Retypes, LeavesLocal, Typing, is_standard}
use wasm_trustzone.Opcode.{
  Instr, op_nop, op_drop, op_drop_64, op_select, op_select_64, op_get_local, op_set_local,
  op_tee_local, op_get_local_fast, op_set_local_fast, op_tee_local_fast, op_i32_const, op_i64_const,
  op_f32_const, op_f64_const, op_numeric,
}

-- The types under the ones popped.
abbrev pub Under : List ValueType → LoaderContext → List ValueType → LoaderContext → Type 0
Under popped m ts ctx = (rest : List ValueType) × (ts ≡ popped ++ rest) × Above m (cells rest) ctx

pub pop_all-Under :
    (popped : List ValueType) (m : LoaderContext) (ts : List ValueType) (ctx : LoaderContext)
    → Above m (cells ts) ctx
    → Yields (Under popped m ts) (pop_all popped ctx)
unfolding pop_all
pop_all-Under [] m ts ctx h = (ts, refl, h)
pop_all-Under (t ∷ popped) m ts ctx h =
    Yields->>= (Uncovers t m ts) _ (wasm_loader_pop_frame_ref (code t) ctx) (pop_all popped)
      (wasm_loader_pop_frame_ref-Uncovers t m ts ctx h)
      (λ next (us, e, k).
        Yields-map (Under popped m us) (Under (t ∷ popped) m ts) (pop_all popped next)
          (λ c (rest, f, j). (rest, e ∙ ap (λ vs. t ∷ vs) f, j)) (pop_all-Under popped m us next k))

pub push_all-Above :
    (room : ℕ → Bool) (pushed : List ValueType) (m : LoaderContext) (ts : List ValueType)
    (ctx : LoaderContext)
    → Above m (cells ts) ctx
    → Yields (Above m (cells (pushed ++ ts))) (push_all room pushed ctx)
unfolding push_all
push_all-Above room [] m ts ctx h = h
push_all-Above room (t ∷ pushed) m ts ctx h =
    Yields->>= (Above m (cells (pushed ++ ts))) _ (push_all room pushed ctx)
      (wasm_loader_push_frame_ref room (code t)) (push_all-Above room pushed m ts ctx h)
      (λ under k. wasm_loader_push_frame_ref-Above room t m (pushed ++ ts) under k)

-- An instruction with these types is left.
abbrev pub Leaves :
    (Instr → List ValueType → Type 0) → LoaderContext → Instr × LoaderContext → Type 0
Leaves P m r = (us : List ValueType) × P r.0 us × Above m (cells us) r.1

retype-Leaves :
    (room : ℕ → Bool) (popped pushed : List ValueType) (left : Instr) (m : LoaderContext)
    (ts : List ValueType) (ctx : LoaderContext)
    → Above m (cells ts) ctx
    → Yields
        (Leaves (λ i us. (i ≡ left) × Retypes popped pushed ts us) m)
        (retype room popped pushed left ctx)
unfolding retype Retypes
retype-Leaves room popped pushed left m ts ctx h =
    Yields->>= (Under popped m ts) _ (pop_all popped ctx) _ (pop_all-Under popped m ts ctx h)
      (λ under (rest, e, k).
        Yields->>= (Above m (cells (pushed ++ rest))) _ (push_all room pushed under) _
          (push_all-Above room pushed m rest under k)
          (λ over j. (pushed ++ rest, (refl, (rest, e, refl)), j)))

-- The byte on top tells a narrow type from a wide one.
pub top_is_narrow_iff :
    (t : ValueType) (ts : List ValueType) (ctx : LoaderContext)
    → Holds ctx (cells (t ∷ ts))
    → top_is_narrow ctx ≡ is_narrow t
unfolding top_is_narrow is_narrow
top_is_narrow_iff i32 ts ctx h = rw (top-code i32 ts ctx h)
top_is_narrow_iff i64 ts ctx h = rw (top-code i64 ts ctx h)
top_is_narrow_iff f32 ts ctx h = rw (top-code f32 ts ctx h)
top_is_narrow_iff f64 ts ctx h = rw (top-code f64 ts ctx h)

check_drop-Leaves :
    (func : Function) (m : LoaderContext) (ts : List ValueType) (ctx : LoaderContext)
    → Above m (cells ts) ctx
    → Yields (Leaves (λ i us. Typing func op_drop i ts us) m) (check_drop op_drop ctx)
unfolding check_drop Typing cells is_narrow
check_drop-Leaves func m [] ctx (h, high) =
    let empty : leb ctx.stack_cell_num 0 ≡ true = ground (arith, Holds-count ctx [] h) in
    rw empty tt
check_drop-Leaves func m (i32 ∷ ts) ctx (h, high) =
    let count : leb ctx.stack_cell_num 0 ≡ false =
      ground (arith, Holds-count ctx (0x7f ∷ cells ts) h) in
    rw (count, top_is_narrow_iff i32 ts ctx h)
      (ts, (i32, refl, refl), (lower_one-Holds ctx (cells ts) 0x7f h, high))
check_drop-Leaves func m (f32 ∷ ts) ctx (h, high) =
    let count : leb ctx.stack_cell_num 0 ≡ false =
      ground (arith, Holds-count ctx (0x7d ∷ cells ts) h) in
    rw (count, top_is_narrow_iff f32 ts ctx h)
      (ts, (f32, refl, refl), (lower_one-Holds ctx (cells ts) 0x7d h, high))
check_drop-Leaves func m (i64 ∷ ts) ctx (h, high) =
    let cell : leb ctx.stack_cell_num 0 ≡ false =
      ground (arith, Holds-count ctx (0x7e ∷ 0x7e ∷ cells ts) h) in
    let two : leb ctx.stack_cell_num 1 ≡ false =
      ground (arith, Holds-count ctx (0x7e ∷ 0x7e ∷ cells ts) h) in
    rw (cell, top_is_narrow_iff i64 ts ctx h, two)
      (ts, (i64, refl, refl), (lower_two-Holds ctx (cells ts) 0x7e 0x7e h, high))
check_drop-Leaves func m (f64 ∷ ts) ctx (h, high) =
    let cell : leb ctx.stack_cell_num 0 ≡ false =
      ground (arith, Holds-count ctx (0x7c ∷ 0x7c ∷ cells ts) h) in
    let two : leb ctx.stack_cell_num 1 ≡ false =
      ground (arith, Holds-count ctx (0x7c ∷ 0x7c ∷ cells ts) h) in
    rw (cell, top_is_narrow_iff f64 ts ctx h, two)
      (ts, (f64, refl, refl), (lower_two-Holds ctx (cells ts) 0x7c 0x7c h, high))

-- What the last part of a select leaves on these types.
abbrev SelectsTop : LoaderContext → List ValueType → Instr × LoaderContext → Type 0
SelectsTop m ts r =
    (t : ValueType) × (rest : List ValueType) × (r.0
      ≡ (if is_narrow t then op_select else op_select_64))
    × (ts ≡ t ∷ t ∷ rest)
    × Above m (cells (t ∷ rest)) r.1

select_top-SelectsTop :
    (room : ℕ → Bool) (m : LoaderContext) (ts : List ValueType) (ctx : LoaderContext)
    → Above m (cells ts) ctx
    → Yields (SelectsTop m ts) (select_top room op_select ctx)
unfolding select_top cells
select_top-SelectsTop room m [] ctx (h, high) =
    let empty : leb ctx.stack_cell_num 0 ≡ true = ground (arith, Holds-count ctx [] h) in
    rw empty tt
select_top-SelectsTop room m (t ∷ ts) ctx (h, high) =
    let selected =
      Yields->>= (Uncovers t m (t ∷ ts)) (SelectsTop m (t ∷ ts))
        (wasm_loader_pop_frame_ref (code t) ctx) _
        (wasm_loader_pop_frame_ref-Uncovers t m (t ∷ ts) ctx (h, high))
        (λ once (us, e, k).
          Yields->>= (Uncovers t m us) _ (wasm_loader_pop_frame_ref (code t) once) _
            (wasm_loader_pop_frame_ref-Uncovers t m us once k)
            (λ twice (vs, f, j).
              Yields->>= (Above m (cells (t ∷ vs))) _
                (wasm_loader_push_frame_ref room (code t) twice)
                (λ pushed. ok (if is_narrow t then op_select else op_select_64, pushed))
                (wasm_loader_push_frame_ref-Above room t m vs twice j)
                (λ pushed i. (t, vs, refl, e ∙ ap (λ ws. t ∷ ws) f, i)))) in
    elim (Bool-cases (leb ctx.stack_cell_num 0)) [
      | inl empty ↦ rw empty tt
      | inr some_cell ↦ rw (some_cell, top-code t ts ctx h, top_is_narrow_iff t ts ctx h) selected
    ]

check_select-Leaves :
    (room : ℕ → Bool) (func : Function) (m : LoaderContext) (ts : List ValueType)
    (ctx : LoaderContext)
    → Above m (cells ts) ctx
    → Yields (Leaves (λ i us. Typing func op_select i ts us) m) (check_select room op_select ctx)
unfolding check_select Typing Retypes
check_select-Leaves room func m ts ctx h =
    Yields->>= (Uncovers i32 m ts) _ (wasm_loader_pop_frame_ref 0x7f ctx) _
      (wasm_loader_pop_frame_ref-Uncovers i32 m ts ctx h)
      (λ popped (us, e, k).
        Yields-map (SelectsTop m us) _ (select_top room op_select popped)
          (λ r (t, rest, left, f, j).
            (t ∷ rest, (t, left, (rest, e ∙ ap (λ vs. i32 ∷ vs) f, refl)), j))
          (select_top-SelectsTop room m us popped k))

-- The instruction that is left for an access to a local, and its types.
abbrev LocalTyping :
    Function
    → ℕ
    → Bool
    → Bool
    → Instr
    → (ℕ → Instr)
    → List ValueType
    → Instr
    → List ValueType
    → Type 0
LocalTyping func n pops pushes opcode fast ts left us =
    (t : ValueType) × LeavesLocal func n opcode fast left t
    × Retypes (if pops then t ∷ [] else []) (if pushes then t ∷ [] else []) ts us

within-at : (o : Option (ValueType × ℕ)) → Yields (λ l. o ≡ some l) (within o)
unfolding within
within-at none = tt
within-at (some l) = refl

get_local_type_and_offset-at :
    (func : Function) (n : ℕ)
    → Yields (λ l. local_at func n ≡ some l) (get_local_type_and_offset func n)
unfolding get_local_type_and_offset
get_local_type_and_offset-at func n =
    elim (Bool-cases (leb (length func.param_types + length func.local_types) n)) [
      | inl beyond ↦ rw beyond tt
      | inr inside ↦ rw inside (within-at (local_at func n))
    ]

check_local-Leaves :
    (room : ℕ → Bool) (func : Function) (n : ℕ) (pops pushes : Bool) (opcode : Instr)
    (fast : ℕ → Instr) (m : LoaderContext) (ts : List ValueType) (ctx : LoaderContext)
    → Above m (cells ts) ctx
    → Yields
        (Leaves (λ i us. LocalTyping func n pops pushes opcode fast ts i us) m)
        (check_local room func n pops pushes opcode fast ctx)
unfolding check_local LeavesLocal
check_local-Leaves room func n pops pushes opcode fast m ts ctx h =
    Yields->>= (λ l. local_at func n ≡ some l) _ (get_local_type_and_offset func n) _
      (get_local_type_and_offset-at func n)
      (λ l e.
        Yields-map
          (Leaves
            (λ i us.
              (i ≡ (if ltb l.1 0x80 then fast (fast_byte l.0 l.1) else opcode))
              × Retypes (if pops then l.0 ∷ [] else []) (if pushes then l.0 ∷ [] else []) ts us)
            m)
          _
          (retype room (if pops then l.0 ∷ [] else []) (if pushes then l.0 ∷ [] else [])
            (if ltb l.1 0x80 then fast (fast_byte l.0 l.1) else opcode) ctx)
          (λ r (us, (left, types), k). (us, (l.0, (l.1, e, left), types), k))
          (retype-Leaves room (if pops then l.0 ∷ [] else []) (if pushes then l.0 ∷ [] else [])
            (if ltb l.1 0x80 then fast (fast_byte l.0 l.1) else opcode) m ts ctx h))

pub check_instr-Leaves :
    (room : ℕ → Bool) (func : Function) (i : Instr) (m : LoaderContext) (ts : List ValueType)
    (ctx : LoaderContext)
    → is_standard i ≡ true
    → Above m (cells ts) ctx
    → Yields (Leaves (λ left us. Typing func i left ts us) m) (check_instr room func i ctx)
unfolding check_instr Typing is_standard
check_instr-Leaves room func op_nop m ts ctx s h = (ts, (refl, refl), h)
check_instr-Leaves room func op_drop m ts ctx s h = check_drop-Leaves func m ts ctx h
check_instr-Leaves room func op_select m ts ctx s h = check_select-Leaves room func m ts ctx h
check_instr-Leaves room func (op_get_local n) m ts ctx s h =
    check_local-Leaves room func n false true (op_get_local n) op_get_local_fast m ts ctx h
check_instr-Leaves room func (op_set_local n) m ts ctx s h =
    check_local-Leaves room func n true false (op_set_local n) op_set_local_fast m ts ctx h
check_instr-Leaves room func (op_tee_local n) m ts ctx s h =
    check_local-Leaves room func n true true (op_tee_local n) op_tee_local_fast m ts ctx h
check_instr-Leaves room func (op_i32_const c) m ts ctx s h =
    retype-Leaves room [] (i32 ∷ []) (op_i32_const c) m ts ctx h
check_instr-Leaves room func (op_i64_const c) m ts ctx s h =
    retype-Leaves room [] (i64 ∷ []) (op_i64_const c) m ts ctx h
check_instr-Leaves room func (op_f32_const c) m ts ctx s h =
    retype-Leaves room [] (f32 ∷ []) (op_f32_const c) m ts ctx h
check_instr-Leaves room func (op_f64_const c) m ts ctx s h =
    retype-Leaves room [] (f64 ∷ []) (op_f64_const c) m ts ctx h
check_instr-Leaves room func (op_numeric op) m ts ctx s h =
    let (popped, pushed) = numeric_types-signature op in
    rw (popped, pushed)
      (retype-Leaves room (operands (signature op)) (result (signature op) ∷ []) (op_numeric op) m
        ts ctx h)
check_instr-Leaves room func op_drop_64 m ts ctx s h = absurd (ground (arith, s))
check_instr-Leaves room func op_select_64 m ts ctx s h = absurd (ground (arith, s))
check_instr-Leaves room func (op_get_local_fast b) m ts ctx s h = tt
check_instr-Leaves room func (op_set_local_fast b) m ts ctx s h = tt
check_instr-Leaves room func (op_tee_local_fast b) m ts ctx s h = tt
