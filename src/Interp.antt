-- ===== src/Interp.antt =====
-- The classic interpreter, core/iwasm/interpreter/wasm_interp_classic.c.
pub mod Access
pub mod Leb
pub mod Transfer
pub mod Frame
pub mod Integers
pub mod Exec
pub mod Sound
