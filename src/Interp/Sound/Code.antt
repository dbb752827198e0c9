-- ===== src/Interp/Sound/Code.antt =====
-- Code that the loader has accepted runs within the frame that it asks for.
use wasm_trustzone.Interp.Frame.{Frame}
use wasm_trustzone.Opcode.{Instr}
