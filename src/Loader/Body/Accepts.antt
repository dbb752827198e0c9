-- ===== src/Loader/Body/Accepts.antt =====
-- The loader refuses no instruction that is typed, where memory never runs out.
use wasm_trustzone.Base.{
  ℕ, zero, suc, ◌+◌, ◌-◌, ◌<◌, ◌≡◌, refl, subst, Bool, true, false, Option, none, some, List, [],
  ◌∷◌, ◌++◌, arith, ltb, leb, if◌then◌else◌, length, get_elem?, Bool-cases, inl, inr,
}
use wasm_trustzone.Loader.Outcome.{Outcome, ok, err, ◌>>=◌, Yields, Yields-map}
use wasm_trustzone.Loader.Stack.{
  LoaderContext, wasm_loader_push_frame_ref, wasm_loader_pop_frame_ref,
}
use wasm_trustzone.Loader.Stack.Spec.{
  ValueType, i32, i64, f32, f64, code, same, pop_type, cells, Holds, Represents, Gives, Refines,
}
use wasm_trustzone.Loader.Stack.Operands.{wasm_loader_push_frame_ref-Represents}
use wasm_trustzone.Loader.Stack.Pops.{Holds-count, wasm_loader_pop_frame_ref-Refines, top-code}
use wasm_trustzone.Loader.Stack.Partial.{Above, Uncovers, wasm_loader_pop_frame_ref-Uncovers}
use wasm_trustzone.Loader.Locals.{
  Function, with_offset, local_at, within, get_local_type_and_offset, is_narrow, fast_byte,
}
use wasm_trustzone.Loader.Body.{
  pop_all, push_all, retype, top_is_narrow, check_drop, select_top, check_select, check_local,
  check_instr,
}
use wasm_trustzone.Loader.Body.Signature.{signature, operands, result, numeric_types-signature}
use wasm_trustzone.Loader.Body.Typing.{Retypes, LeavesLocal, Typing}
use wasm_trustzone.Loader.Body.Checked.{top_is_narrow_iff, Under, pop_all-Under, push_all-Above}
use wasm_trustzone.Opcode.{
  Instr, op_nop, op_drop, op_drop_64, op_select, op_select_64, op_get_local, op_set_local,
  op_tee_local, op_get_local_fast, op_set_local_fast, op_tee_local_fast, op_i32_const, op_i64_const,
  op_f32_const, op_f64_const, op_numeric,
}

abbrev pub Succeeds {ℓ} : {A : Type ℓ} → Outcome A → Type 0
Succeeds (ok a) = Unit
Succeeds (err e) = ⊥

pub Succeeds->>= {ℓ κ} :
    {A : Type ℓ} {B : Type κ} (P : A → Type 0) (m : Outcome A) (f : A → Outcome B)
    → Succeeds m
    → Yields P m
    → ((a : A) → P a → Succeeds (f a))
    → Succeeds (m >>= f)
Succeeds->>= P (ok a) f s h k = k a h
Succeeds->>= P (err e) f s h k = s

pub Yields-any {ℓ} : {A : Type ℓ} (m : Outcome A) → Yields (λ a. Unit) m
Yields-any (ok a) = tt
Yields-any (err e) = tt

Gives-Succeeds : (P : LoaderContext → Type 0) (o : Outcome LoaderContext) → Gives P o → Succeeds o
unfolding Gives
Gives-Succeeds P (ok ctx) h = tt
Gives-Succeeds P (err e) h = h

Refines-Succeeds :
    (o : Outcome LoaderContext) (ts : List ValueType) → Refines o (some ts) → Succeeds o
unfolding Refines
Refines-Succeeds (ok ctx) ts h = tt
Refines-Succeeds (err e) ts h = h

pop_type_same : (t : ValueType) (ts : List ValueType) → pop_type t (t ∷ ts) ≡ some ts
unfolding pop_type
pop_type_same i32 ts = refl
pop_type_same i64 ts = refl
pop_type_same f32 ts = refl
pop_type_same f64 ts = refl

pub pop-Succeeds :
    (t : ValueType) (m : LoaderContext) (ts : List ValueType) (ctx : LoaderContext)
    → Above m (cells (t ∷ ts)) ctx
    → Succeeds (wasm_loader_pop_frame_ref (code t) ctx)
unfolding Represents
pop-Succeeds t m ts ctx (h, kept) = Refines-Succeeds (wasm_loader_pop_frame_ref (code t) ctx) ts (
    subst (Refines (wasm_loader_pop_frame_ref (code t) ctx)) (pop_type_same t ts)
      (wasm_loader_pop_frame_ref-Refines t ctx (t ∷ ts) h))

-- A pop of the type on top uncovers the rest.
pub pop-Above :
    (t : ValueType) (m : LoaderContext) (ts : List ValueType) (ctx : LoaderContext)
    → Above m (cells (t ∷ ts)) ctx
    → Yields (Above m (cells ts)) (wasm_loader_pop_frame_ref (code t) ctx)
pop-Above t m ts ctx h =
    Yields-map (Uncovers t m (t ∷ ts)) _ (wasm_loader_pop_frame_ref (code t) ctx)
      (λ next (us, e, k).
        let tail : us ≡ ts = ground (arith, e) in subst (λ v. Above m (cells v) next) tail k)
      (wasm_loader_pop_frame_ref-Uncovers t m (t ∷ ts) ctx h)

cell_on_top :
    (t : ValueType) (ts : List ValueType) (ctx : LoaderContext)
    → Holds ctx (cells (t ∷ ts))
    → leb ctx.stack_cell_num 0 ≡ false
unfolding cells
cell_on_top i32 ts ctx h = ground (arith, Holds-count ctx (0x7f ∷ cells ts) h)
cell_on_top i64 ts ctx h = ground (arith, Holds-count ctx (0x7e ∷ 0x7e ∷ cells ts) h)
cell_on_top f32 ts ctx h = ground (arith, Holds-count ctx (0x7d ∷ cells ts) h)
cell_on_top f64 ts ctx h = ground (arith, Holds-count ctx (0x7c ∷ 0x7c ∷ cells ts) h)

second_cell :
    (t : ValueType) (ts : List ValueType) (ctx : LoaderContext)
    → is_narrow t ≡ false
    → Holds ctx (cells (t ∷ ts))
    → leb ctx.stack_cell_num 1 ≡ false
unfolding cells is_narrow
second_cell i32 ts ctx wide h = absurd (ground (arith, wide))
second_cell i64 ts ctx wide h = ground (arith, Holds-count ctx (0x7e ∷ 0x7e ∷ cells ts) h)
second_cell f32 ts ctx wide h = absurd (ground (arith, wide))
second_cell f64 ts ctx wide h = ground (arith, Holds-count ctx (0x7c ∷ 0x7c ∷ cells ts) h)

drop-Succeeds :
    (t : ValueType) (us : List ValueType) (ctx : LoaderContext)
    → Holds ctx (cells (t ∷ us))
    → Succeeds (check_drop op_drop ctx)
unfolding check_drop
drop-Succeeds t us ctx h = elim (Bool-cases (is_narrow t)) [
  | inl narrow ↦ rw (cell_on_top t us ctx h, top_is_narrow_iff t us ctx h, narrow) tt
  | inr wide ↦
      rw (cell_on_top t us ctx h, top_is_narrow_iff t us ctx h, wide, second_cell t us ctx wide h)
        tt
]

get_elem?-lt :
    (xs : List ValueType) (n : ℕ) (t : ValueType) → get_elem? xs n ≡ some t → n < length xs
get_elem?-lt [] n t e = absurd (ground (arith, e))
get_elem?-lt (x ∷ xs) zero t e = omega arith
get_elem?-lt (x ∷ xs) (suc n) t e = omega (arith, get_elem?-lt xs n t e)

with_offset_found :
    (o : Option ValueType) (k : ℕ) (t : ValueType) (offset : ℕ)
    → with_offset o k ≡ some (t, offset)
    → o ≡ some t
unfolding with_offset
with_offset_found none k t offset e = absurd (ground (arith, e))
with_offset_found (some u) k t offset e = ground (arith, e)

local_at-lt :
    (func : Function) (n : ℕ) (t : ValueType) (offset : ℕ)
    → local_at func n ≡ some (t, offset)
    → leb (length func.param_types + length func.local_types) n ≡ false
unfolding local_at
local_at-lt func n t offset e = elim (Bool-cases (ltb n (length func.param_types))) [
  | inl param ↦ ground (arith, param)
  | inr local ↦
      let found : get_elem? func.local_types (n - length func.param_types) ≡ some t =
        subst
          (λ b.
            (if b
              then get_elem? func.param_types n
              else get_elem? func.local_types (n - length func.param_types))
            ≡ some t)
          local (with_offset_found _ _ t offset e) in
      ground (arith, local, get_elem?-lt func.local_types (n - length func.param_types) t found)
]

-- A local that is found has an index in range.
get_local_type_and_offset_found :
    (func : Function) (n : ℕ) (t : ValueType) (offset : ℕ)
    → local_at func n ≡ some (t, offset)
    → get_local_type_and_offset func n ≡ ok (t, offset)
unfolding get_local_type_and_offset within
get_local_type_and_offset_found func n t offset e = rw (local_at-lt func n t offset e, e) refl

module _ (room : ℕ → Bool) (granted : (n : ℕ) → room n ≡ true) (m : LoaderContext) where
  pub push-Succeeds :
      (t : ValueType) (ts : List ValueType) (ctx : LoaderContext)
      → Above m (cells ts) ctx
      → Succeeds (wasm_loader_push_frame_ref room (code t) ctx)
  unfolding Represents
  push-Succeeds t ts ctx (h, kept) =
      Gives-Succeeds _ (wasm_loader_push_frame_ref room (code t) ctx)
        (wasm_loader_push_frame_ref-Represents room t ctx ts granted h)

  pop_all-Succeeds :
      (popped rest : List ValueType) (ctx : LoaderContext)
      → Above m (cells (popped ++ rest)) ctx
      → Succeeds (pop_all popped ctx)
  unfolding pop_all
  pop_all-Succeeds [] rest ctx h = tt
  pop_all-Succeeds (t ∷ popped) rest ctx h =
      Succeeds->>= (Above m (cells (popped ++ rest))) (wasm_loader_pop_frame_ref (code t) ctx)
        (pop_all popped) (pop-Succeeds t m (popped ++ rest) ctx h)
        (pop-Above t m (popped ++ rest) ctx h) (pop_all-Succeeds popped rest)

  push_all-Succeeds :
      (pushed ts : List ValueType) (ctx : LoaderContext)
      → Above m (cells ts) ctx
      → Succeeds (push_all room pushed ctx)
  unfolding push_all
  push_all-Succeeds [] ts ctx h = tt
  push_all-Succeeds (t ∷ pushed) ts ctx h =
      Succeeds->>= (Above m (cells (pushed ++ ts))) (push_all room pushed ctx)
        (wasm_loader_push_frame_ref room (code t)) (push_all-Succeeds pushed ts ctx h)
        (push_all-Above room pushed m ts ctx h) (push-Succeeds t (pushed ++ ts))

  retype-Succeeds :
      (popped pushed ts us : List ValueType) (left : Instr) (ctx : LoaderContext)
      → Retypes popped pushed ts us
      → Above m (cells ts) ctx
      → Succeeds (retype room popped pushed left ctx)
  unfolding retype Retypes
  retype-Succeeds popped pushed ts us left ctx (rest, e, k) h =
      Succeeds->>= (Under popped m ts) (pop_all popped ctx) _
        (pop_all-Succeeds popped rest ctx (subst (λ v. Above m (cells v) ctx) e h))
        (pop_all-Under popped m ts ctx h)
        (λ under (below, f, i).
          Succeeds->>= (λ c. Unit) (push_all room pushed under) _
            (push_all-Succeeds pushed below under i) (Yields-any (push_all room pushed under))
            (λ over u. tt))

  select_top-Succeeds :
      (t : ValueType) (rest : List ValueType) (opcode : Instr) (ctx : LoaderContext)
      → Above m (cells (t ∷ t ∷ rest)) ctx
      → Succeeds (select_top room opcode ctx)
  unfolding select_top
  select_top-Succeeds t rest opcode ctx (h, kept) =
      let selected =
        Succeeds->>= (Above m (cells (t ∷ rest))) (wasm_loader_pop_frame_ref (code t) ctx)
          (λ once. do
            twice ← wasm_loader_pop_frame_ref (code t) once
            pushed ← wasm_loader_push_frame_ref room (code t) twice
            ok (if top_is_narrow ctx then opcode else op_select_64, pushed))
          (pop-Succeeds t m (t ∷ rest) ctx (h, kept)) (pop-Above t m (t ∷ rest) ctx (h, kept))
          (λ once j.
            Succeeds->>= (Above m (cells rest)) (wasm_loader_pop_frame_ref (code t) once) _
              (pop-Succeeds t m rest once j) (pop-Above t m rest once j)
              (λ twice k.
                Succeeds->>= (λ c. Unit) (wasm_loader_push_frame_ref room (code t) twice) _
                  (push-Succeeds t rest twice k)
                  (Yields-any (wasm_loader_push_frame_ref room (code t) twice))
                  (λ pushed u. tt))) in
      rw (cell_on_top t (t ∷ rest) ctx h, top-code t (t ∷ rest) ctx h) selected

  check_select-Succeeds :
      (t : ValueType) (rest : List ValueType) (ctx : LoaderContext)
      → Above m (cells (i32 ∷ t ∷ t ∷ rest)) ctx
      → Succeeds (check_select room op_select ctx)
  unfolding check_select
  check_select-Succeeds t rest ctx h =
      Succeeds->>= (Above m (cells (t ∷ t ∷ rest))) (wasm_loader_pop_frame_ref 0x7f ctx) _
        (pop-Succeeds i32 m (t ∷ t ∷ rest) ctx h) (pop-Above i32 m (t ∷ t ∷ rest) ctx h)
        (select_top-Succeeds t rest op_select)

  check_local-Succeeds :
      (func : Function) (n : ℕ) (pops pushes : Bool) (opcode left : Instr) (fast : ℕ → Instr)
      (t : ValueType) (ts us : List ValueType) (ctx : LoaderContext)
      → LeavesLocal func n opcode fast left t
      → Retypes (if pops then t ∷ [] else []) (if pushes then t ∷ [] else []) ts us
      → Above m (cells ts) ctx
      → Succeeds (check_local room func n pops pushes opcode fast ctx)
  unfolding check_local LeavesLocal
  check_local-Succeeds func n pops pushes opcode left fast t ts us ctx (offset, e, same) r h =
      rw (get_local_type_and_offset_found func n t offset e) (
        retype-Succeeds (if pops then t ∷ [] else []) (if pushes then t ∷ [] else []) ts us
          (if ltb offset 0x80 then fast (fast_byte t offset) else opcode) ctx r h)

  pub check_instr-Succeeds :
      (func : Function) (i left : Instr) (ts us : List ValueType) (ctx : LoaderContext)
      → Typing func i left ts us
      → Above m (cells ts) ctx
      → Succeeds (check_instr room func i ctx)
  unfolding check_instr Typing Retypes
  check_instr-Succeeds func op_nop left ts us ctx x h = tt
  check_instr-Succeeds func op_drop left ts us ctx (t, e, g) (h, kept) =
      drop-Succeeds t us ctx (subst (λ v. Holds ctx (cells v)) g h)
  check_instr-Succeeds func op_select left ts us ctx (t, e, (rest, g, k)) h =
      check_select-Succeeds t rest ctx (subst (λ v. Above m (cells v) ctx) g h)
  check_instr-Succeeds func (op_get_local n) left ts us ctx (t, l, r) h =
      check_local-Succeeds func n false true (op_get_local n) left op_get_local_fast t ts us ctx l r
        h
  check_instr-Succeeds func (op_set_local n) left ts us ctx (t, l, r) h =
      check_local-Succeeds func n true false (op_set_local n) left op_set_local_fast t ts us ctx l r
        h
  check_instr-Succeeds func (op_tee_local n) left ts us ctx (t, l, r) h =
      check_local-Succeeds func n true true (op_tee_local n) left op_tee_local_fast t ts us ctx l r
        h
  check_instr-Succeeds func (op_i32_const c) left ts us ctx (e, r) h =
      retype-Succeeds [] (i32 ∷ []) ts us (op_i32_const c) ctx r h
  check_instr-Succeeds func (op_i64_const c) left ts us ctx (e, r) h =
      retype-Succeeds [] (i64 ∷ []) ts us (op_i64_const c) ctx r h
  check_instr-Succeeds func (op_f32_const c) left ts us ctx (e, r) h =
      retype-Succeeds [] (f32 ∷ []) ts us (op_f32_const c) ctx r h
  check_instr-Succeeds func (op_f64_const c) left ts us ctx (e, r) h =
      retype-Succeeds [] (f64 ∷ []) ts us (op_f64_const c) ctx r h
  check_instr-Succeeds func (op_numeric op) left ts us ctx (e, r) h =
      let (popped, pushed) = numeric_types-signature op in
      rw (popped, pushed)
        (retype-Succeeds (operands (signature op)) (result (signature op) ∷ []) ts us
          (op_numeric op) ctx r h)
  check_instr-Succeeds func op_drop_64 left ts us ctx x h = absurd x
  check_instr-Succeeds func op_select_64 left ts us ctx x h = absurd x
  check_instr-Succeeds func (op_get_local_fast b) left ts us ctx x h = absurd x
  check_instr-Succeeds func (op_set_local_fast b) left ts us ctx x h = absurd x
  check_instr-Succeeds func (op_tee_local_fast b) left ts us ctx x h = absurd x
