-- ===== src/Loader/Body/Exact.antt =====
-- Where memory never runs out, the loader accepts a body without blocks exactly where it is typed.
use wasm_trustzone.Base.{ℕ, Option, List}
use wasm_trustzone.Loader.Outcome.{Outcome}
use wasm_trustzone.Loader.Stack.Spec.{ValueType}
use wasm_trustzone.Loader.Locals.{Function}
use wasm_trustzone.Loader.Body.Typing.{Typing}
use wasm_trustzone.Loader.Body.Leaf.{LeafTyping}
use wasm_trustzone.Opcode.{Instr}

-- The body is typed from no values to the result, whatever code is left and however high the stack.
abbrev pub Typed : Function → Option ValueType → List Instr → Type 0
Typed func ret is = (r : List Instr × ℕ) × LeafTyping func ret is r
