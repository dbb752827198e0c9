-- ===== src/Interp/Transfer.antt =====
-- The loads and stores of core/iwasm/interpreter/wasm_interp_classic.c, from `WASM_OP_I32_LOAD` to
-- `WASM_OP_I64_STORE32`, on a little-endian machine that reads and writes words at any address.
pub mod Bytes
pub mod RoundTrip
mod Tests
use wasm_trustzone.Base.{
  ℕ, zero, suc, ◌+◌, ◌-◌, ◌*◌, ◌/◌, ◌%◌, ◌^◌, Bool, true, false, not, ◌&&◌, ◌||◌, List, [], ◌∷◌,
  Option, none, some, bit_or, ltb, leb, ◌==◌, if◌then◌else◌, length, get_or,
}
use wasm_trustzone.Loader.Stack.Spec.{ValueType, i32, i64, f32, f64}
use wasm_trustzone.Memory.{MemoryInstance}
use wasm_trustzone.Interp.Access.{load_size, check_memory_overflow}
use wasm_trustzone.Interp.Frame.{
  Frame, Step, done, trap, wild, ◌>>=◌, out_of_bounds_memory_access, pop_value, push_value,
}

-- `LOAD_I32` to `LOAD_F64`: the number in n bytes, the lowest first.
unfoldable pub get_bytes : ℕ → List ℕ → ℕ
get_bytes zero bs = 0
get_bytes (suc n) [] = 0
get_bytes (suc n) (b ∷ bs) = b + 256 * get_bytes n bs

-- `STORE_U16` to `STORE_I64`.
unfoldable pub put_bytes : ℕ → ℕ → List ℕ → List ℕ
put_bytes zero v bs = bs
put_bytes (suc n) v [] = []
put_bytes (suc n) v (b ∷ bs) = v % 256 ∷ put_bytes n (v / 256) bs

unfoldable pub get_at : ℕ → ℕ → List ℕ → ℕ
get_at n zero bs = get_bytes n bs
get_at n (suc i) [] = 0
get_at n (suc i) (b ∷ bs) = get_at n i bs

unfoldable pub put_at : ℕ → ℕ → ℕ → List ℕ → List ℕ
put_at n zero v bs = put_bytes n v bs
put_at n (suc i) v [] = []
put_at n (suc i) v (b ∷ bs) = b ∷ put_at n i v bs

-- The n bytes from `maddr` on belong to the instance.
unfoldable pub holds : MemoryInstance → ℕ → ℕ → Bool
holds m maddr n = leb m.heap_data maddr && leb (maddr - m.heap_data + n) (length m.bytes)

unfoldable pub fetched : MemoryInstance → ℕ → ℕ → Step ℕ
fetched m maddr n = if holds m maddr n then done (get_at n (maddr - m.heap_data) m.bytes) else wild

unfoldable pub stored : MemoryInstance → ℕ → ℕ → ℕ → Step MemoryInstance
stored m maddr n v =
    if holds m maddr n
    then done (record m { bytes = put_at n (maddr - m.heap_data) v m.bytes })
    else wild

-- The type of the value, for the opcodes from `i32.load` to `i64.store32`.
abbrev pub transfer_types : List ValueType
transfer_types =
    i32 ∷ i64 ∷ f32 ∷ f64 ∷ i32 ∷ i32 ∷ i32 ∷ i32 ∷ i64 ∷ i64 ∷ i64 ∷ i64 ∷ i64 ∷ i64 ∷ i32 ∷ i64
    ∷ f32 ∷ f64 ∷ i32 ∷ i32 ∷ i64 ∷ i64 ∷ i64 ∷ []

unfoldable pub transfer_type : ℕ → ValueType
transfer_type opcode = get_or transfer_types (opcode - 0x28) i32

-- The opcodes `i32.load8_s`, `i32.load16_s`, `i64.load8_s`, `i64.load16_s` and `i64.load32_s`.
unfoldable pub extends_sign : ℕ → Bool
extends_sign opcode =
    (opcode == 0x2c) || (opcode == 0x2e) || (opcode == 0x30) || (opcode == 0x32) || (opcode == 0x34)

-- `sign_ext_8_32` to `sign_ext_32_64`.
unfoldable pub sign_ext : ℕ → ℕ → ℕ → ℕ
sign_ext from to val = if val / 2 ^ (from - 1) % 2 == 0 then val else bit_or val (2 ^ to - 2 ^ from)

unfoldable pub extended_to : ValueType → ℕ → ℕ → ℕ
extended_to i32 n val = sign_ext (8 * n) 32 val
extended_to i64 n val = sign_ext (8 * n) 64 val
extended_to f32 n val = val
extended_to f64 n val = val

unfoldable pub in_bounds : Option ℕ → Step ℕ
in_bounds none = trap out_of_bounds_memory_access
in_bounds (some maddr) = done maddr

unfoldable pub exec_load : ℕ → ℕ → MemoryInstance → Frame → Step Frame
exec_load opcode offset m f = do
  popped ← pop_value i32 f
  maddr ← in_bounds (check_memory_overflow m opcode offset popped.0)
  val ← fetched m maddr (load_size opcode)
  push_value (transfer_type opcode)
      (if extends_sign opcode
        then extended_to (transfer_type opcode) (load_size opcode) val
        else val)
      popped.1

unfoldable pub exec_store : ℕ → ℕ → MemoryInstance → Frame → Step (MemoryInstance × Frame)
exec_store opcode offset m f = do
  value ← pop_value (transfer_type opcode) f
  popped ← pop_value i32 value.1
  maddr ← in_bounds (check_memory_overflow m opcode offset popped.0)
  after ← stored m maddr (load_size opcode) value.0
  done (after, popped.1)
