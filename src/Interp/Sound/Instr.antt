-- ===== src/Interp/Sound/Instr.antt =====
-- An instruction that is typed runs within the frame.
use wasm_trustzone.Base.{
  ℕ, ◌+◌, ◌^◌, ◌≤◌, ◌<◌, ◌≡◌, refl, sym, subst, Bool, List, [], ◌∷◌, ◌++◌, arith, ltb,
  if◌then◌else◌, length, Bool-cases, inl, inr,
}
use wasm_trustzone.Loader.Stack.Spec.{ValueType, i32, i64, f32, f64, cells}
use wasm_trustzone.Loader.Locals.{
  cell_num, wasm_value_type_cell_num, init_function, local_at, is_narrow, fast_byte,
}
use wasm_trustzone.Loader.Body.Signature.{signature, operands, result}
use wasm_trustzone.Loader.Body.Typing.{Retypes, LeavesLocal, Typing}
use wasm_trustzone.Interp.Frame.{Frame, Step, done, ◌>>=◌, pop_value, push_value}
use wasm_trustzone.Interp.Exec.{
  exec_select, get_local, set_local, tee_local, at_local, at_byte, exec_instr,
}
use wasm_trustzone.Interp.Exec.Arithmetic.{Platform, exec_numeric}
use wasm_trustzone.Interp.Sound.{Shape, Runs, Runs->>=, Popped, pop_value-Popped, push_value-Shape}
use wasm_trustzone.Interp.Sound.Arithmetic.{exec_numeric-Shape}
use wasm_trustzone.Interp.Sound.Locals.{
  locals_size, local_at-le, get_local-Shape, set_local-Shape, tee_local-Shape, at_byte-fast_byte,
}
use wasm_trustzone.Opcode.{
  Instr, op_nop, op_drop, op_drop_64, op_select, op_select_64, op_get_local, op_set_local,
  op_tee_local, op_get_local_fast, op_set_local_fast, op_tee_local_fast, op_i32_const, op_i64_const,
  op_f32_const, op_f64_const, op_numeric,
}

exec_select-Shape :
    (size room : ℕ) (u t : ValueType) (ts : List ValueType) (f : Frame)
    → is_narrow u ≡ is_narrow t
    → length (cells (t ∷ ts)) ≤ room
    → Shape size room (i32 ∷ t ∷ t ∷ ts) f
    → Runs (Shape size room (t ∷ ts)) (exec_select u f)
unfolding exec_select
exec_select-Shape size room u t ts f same fits h =
    Runs->>= (Popped size room (t ∷ t ∷ ts)) _ (pop_value i32 f) _
      (pop_value-Popped size room i32 i32 (t ∷ t ∷ ts) f refl h)
      (λ cond i.
        Runs->>= (Popped size room (t ∷ ts)) _ (pop_value u cond.1) _
          (pop_value-Popped size room u t (t ∷ ts) cond.1 same i)
          (λ second j.
            Runs->>= (Popped size room ts) _ (pop_value u second.1) _
              (pop_value-Popped size room u t ts second.1 same j)
              (λ first k. push_value-Shape size room u t _ ts first.1 same fits k)))

module _ (platform : Platform) (params locals : List ValueType) (room : ℕ)
    (small : cell_num (params ++ locals) < 2 ^ 16) where
  -- The instruction that is left for a local leads to the handler for its cells.
  leaves_local-handler :
      (n : ℕ) (opcode left : Instr) (fast : ℕ → Instr) (handler : Bool → ℕ → Frame → Step Frame)
      (t : ValueType) (us : List ValueType) (f : Frame)
      → exec_instr platform (init_function params locals) opcode f
        ≡ at_local (local_at (init_function params locals) n) handler f
      → ((b : ℕ)
          → exec_instr platform (init_function params locals) (fast b) f ≡ at_byte b handler f)
      → LeavesLocal (init_function params locals) n opcode fast left t
      → ((offset : ℕ)
          → offset + wasm_value_type_cell_num t ≤ locals_size params locals
          → Runs (Shape (locals_size params locals) room us) (handler (is_narrow t) offset f))
      → Runs
          (Shape (locals_size params locals) room us)
          (exec_instr platform (init_function params locals) left f)
  unfolding LeavesLocal at_local
  leaves_local-handler n opcode left fast handler t us f slow quick (offset, e, left_is) handled =
      let inside = local_at-le params locals n offset t small e in
      elim (Bool-cases (ltb offset 0x80)) [
        | inl near ↦
            rw
              (
                left_is,
                near,
                quick (fast_byte t offset),
                at_byte-fast_byte t offset handler f (ground (arith, near)),
              )
              (handled offset inside)
        | inr far ↦ rw (left_is, far, slow, e) (handled offset inside)
      ]

  select_left-Shape :
      (t : ValueType) (left : Instr) (f : Frame)
      → left ≡ (if is_narrow t then op_select else op_select_64)
      → (rest : List ValueType) → length (cells (t ∷ rest)) ≤ room
      → Shape (locals_size params locals) room (i32 ∷ t ∷ t ∷ rest) f
      → Runs
          (Shape (locals_size params locals) room (t ∷ rest))
          (exec_instr platform (init_function params locals) left f)
  unfolding exec_instr is_narrow
  select_left-Shape i32 left f e rest fits h =
      rw e (exec_select-Shape (locals_size params locals) room i32 i32 rest f refl fits h)
  select_left-Shape i64 left f e rest fits h =
      rw e (exec_select-Shape (locals_size params locals) room i64 i64 rest f refl fits h)
  select_left-Shape f32 left f e rest fits h =
      rw e (exec_select-Shape (locals_size params locals) room i32 f32 rest f refl fits h)
  select_left-Shape f64 left f e rest fits h =
      rw e (exec_select-Shape (locals_size params locals) room i64 f64 rest f refl fits h)

  -- It is enough to treat stacks of the form that the types ask for.
  retyped :
      (popped pushed ts us : List ValueType) (f : Frame) (step : Step Frame)
      → Retypes popped pushed ts us
      → length (cells us) ≤ room
      → Shape (locals_size params locals) room ts f
      → ((rest : List ValueType)
          → length (cells (pushed ++ rest)) ≤ room
          → Shape (locals_size params locals) room (popped ++ rest) f
          → Runs (Shape (locals_size params locals) room (pushed ++ rest)) step)
      → Runs (Shape (locals_size params locals) room us) step
  unfolding Retypes
  retyped popped pushed ts us f step (rest, g, k) fits h go = rw k (
      go rest (subst (λ v. length (cells v) ≤ room) k fits)
        (subst (λ v. Shape (locals_size params locals) room v f) g h))

  drop-Shape :
      (u t : ValueType) (us : List ValueType) (f : Frame)
      → is_narrow u ≡ is_narrow t
      → Shape (locals_size params locals) room (t ∷ us) f
      → Runs (Shape (locals_size params locals) room us) (pop_value u f >>= (λ p. done p.1))
  drop-Shape u t us f same h =
      Runs->>= (Popped (locals_size params locals) room us) _ (pop_value u f) _
        (pop_value-Popped (locals_size params locals) room u t us f same h) (λ p k. k)

  const-Shape :
      (t : ValueType) (c : ℕ) (ts us : List ValueType) (f : Frame)
      → Retypes [] (t ∷ []) ts us
      → length (cells us) ≤ room
      → Shape (locals_size params locals) room ts f
      → Runs (Shape (locals_size params locals) room us) (push_value t c f)
  const-Shape t c ts us f r fits h =
      retyped [] (t ∷ []) ts us f (push_value t c f) r fits h (λ rest fits' h'.
        push_value-Shape (locals_size params locals) room t t c rest f refl fits' h')

  pub exec_instr-Shape :
      (i left : Instr) (ts us : List ValueType) (f : Frame)
      → Typing (init_function params locals) i left ts us
      → length (cells us) ≤ room
      → Shape (locals_size params locals) room ts f
      → Runs
          (Shape (locals_size params locals) room us)
          (exec_instr platform (init_function params locals) left f)
  unfolding Typing exec_instr is_narrow
  exec_instr-Shape op_nop left ts us f (e, same) fits h = rw (e, sym same) h
  exec_instr-Shape op_drop left ts us f (i32, e, g) fits h =
      rw e
        (drop-Shape i32 i32 us f refl (subst (λ v. Shape (locals_size params locals) room v f) g h))
  exec_instr-Shape op_drop left ts us f (i64, e, g) fits h =
      rw e
        (drop-Shape i64 i64 us f refl (subst (λ v. Shape (locals_size params locals) room v f) g h))
  exec_instr-Shape op_drop left ts us f (f32, e, g) fits h =
      rw e
        (drop-Shape i32 f32 us f refl (subst (λ v. Shape (locals_size params locals) room v f) g h))
  exec_instr-Shape op_drop left ts us f (f64, e, g) fits h =
      rw e
        (drop-Shape i64 f64 us f refl (subst (λ v. Shape (locals_size params locals) room v f) g h))
  exec_instr-Shape op_select left ts us f (t, e, r) fits h =
      retyped (i32 ∷ t ∷ t ∷ []) (t ∷ []) ts us f _ r fits h (select_left-Shape t left f e)
  exec_instr-Shape (op_get_local n) left ts us f (t, l, r) fits h =
      leaves_local-handler n (op_get_local n) left op_get_local_fast get_local t us f refl
        (λ b. refl) l
        (λ offset inside.
          retyped [] (t ∷ []) ts us f _ r fits h
            (λ rest. get_local-Shape (locals_size params locals) room rest t offset f inside))
  exec_instr-Shape (op_set_local n) left ts us f (t, l, r) fits h =
      leaves_local-handler n (op_set_local n) left op_set_local_fast set_local t us f refl
        (λ b. refl) l
        (λ offset inside.
          retyped (t ∷ []) [] ts us f _ r fits h
            (λ rest fits'. set_local-Shape (locals_size params locals) room rest t offset f inside))
  exec_instr-Shape (op_tee_local n) left ts us f (t, l, r) fits h =
      leaves_local-handler n (op_tee_local n) left op_tee_local_fast tee_local t us f refl
        (λ b. refl) l
        (λ offset inside.
          retyped (t ∷ []) (t ∷ []) ts us f _ r fits h
            (λ rest fits'. tee_local-Shape (locals_size params locals) room rest t offset f inside))
  exec_instr-Shape (op_i32_const c) left ts us f (e, r) fits h =
      rw e (const-Shape i32 c ts us f r fits h)
  exec_instr-Shape (op_i64_const c) left ts us f (e, r) fits h =
      rw e (const-Shape i64 c ts us f r fits h)
  exec_instr-Shape (op_f32_const c) left ts us f (e, r) fits h =
      rw e (const-Shape f32 c ts us f r fits h)
  exec_instr-Shape (op_f64_const c) left ts us f (e, r) fits h =
      rw e (const-Shape f64 c ts us f r fits h)
  exec_instr-Shape (op_numeric op) left ts us f (e, r) fits h = rw e (
      retyped (operands (signature op)) (result (signature op) ∷ []) ts us f
        (exec_numeric platform op f) r fits h
        (λ rest. exec_numeric-Shape platform (locals_size params locals) room rest f op))
  exec_instr-Shape op_drop_64 left ts us f x fits h = absurd x
  exec_instr-Shape op_select_64 left ts us f x fits h = absurd x
  exec_instr-Shape (op_get_local_fast b) left ts us f x fits h = absurd x
  exec_instr-Shape (op_set_local_fast b) left ts us f x fits h = absurd x
  exec_instr-Shape (op_tee_local_fast b) left ts us f x fits h = absurd x
