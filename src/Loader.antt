-- ===== src/Loader.antt =====
-- The module loader, core/iwasm/interpreter/wasm_loader.c.
pub mod Outcome
pub mod Leb
pub mod Utf8
pub mod Stack
pub mod Locals
pub mod Body
