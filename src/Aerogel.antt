-- ===== src/Aerogel.antt =====
-- Aerogel, the access control between a WebAssembly module and the peripherals of the device:
-- core/iwasm/interpreter/wasm_runtime.c and .h, the code under `#if !EVAL_NO_AEROGEL`. A string is
-- the list of its bytes without the final NUL, a `uint32` a number below 2 ^ 32.
pub mod CString
pub mod Energy
pub mod Concurrency
pub mod Name
pub mod Gate
mod Tests
use wasm_trustzone.Base.{ℕ, ◌+◌, ◌*◌, ◌%◌, ◌^◌, Bool, List, [], ◌∷◌, ltb}

abbrev pub Text : Type 0
Text = List ℕ

pub record SensorActuatorInfo : Type 0 where
  pub id : ℕ
  pub mmio_address : ℕ
  pub num_concurrent_access : ℕ
  pub power : ℕ
  pub allowed_power_consumption : ℕ
  pub used_power : ℕ
  pub timestamp : ℕ

pub record AccessControlModule : Type 0 where
  pub name : Text
  pub authorized_sensor_actuator : List SensorActuatorInfo
  pub processor_power_consumption : ℕ
  pub memory_consumption : ℕ

-- The position in this table is the peripheral's id.
unfoldable pub sensor_index_mapping : List Text
sensor_index_mapping =
    (b'i' ∷ b'm' ∷ b'u' ∷ [])
    ∷ (b'c' ∷ b'a' ∷ b'm' ∷ b'e' ∷ b'r' ∷ b'a' ∷ [])
    ∷ (b'm' ∷ b'o' ∷ b't' ∷ b'i' ∷ b'o' ∷ b'n' ∷ [])
    ∷ (b'm' ∷ b'i' ∷ b'c' ∷ b'r' ∷ b'o' ∷ b'p' ∷ b'h' ∷ b'o' ∷ b'n' ∷ b'e' ∷ [])
    ∷ (b's' ∷ b'p' ∷ b'e' ∷ b'a' ∷ b'k' ∷ b'e' ∷ b'r' ∷ [])
    ∷ (b'd' ∷ b'o' ∷ b'o' ∷ b'r' ∷ b'_' ∷ b'm' ∷ b'o' ∷ b't' ∷ b'o' ∷ b'r' ∷ [])
    ∷ (b'p' ∷ b'r' ∷ b'o' ∷ b'p' ∷ b'e' ∷ b'l' ∷ b'l' ∷ b'e' ∷ b'r' ∷ [])
    ∷ (b'h' ∷ b'o' ∷ b'm' ∷ b'e' ∷ b'_' ∷ b'c' ∷ b'a' ∷ b'm' ∷ b'e' ∷ b'r' ∷ b'a' ∷ b'_' ∷ b'c'
        ∷ b'o' ∷ b'n' ∷ b't' ∷ b'r' ∷ b'o' ∷ b'l' ∷ [])
    ∷ (b'h' ∷ b'o' ∷ b'm' ∷ b'e' ∷ b'_' ∷ b'c' ∷ b'a' ∷ b'm' ∷ b'e' ∷ b'r' ∷ b'a' ∷ b'_' ∷ b'i'
        ∷ b'm' ∷ b'a' ∷ b'g' ∷ b'e' ∷ [])
    ∷ (b'd' ∷ b'o' ∷ b'o' ∷ b'r' ∷ b'_' ∷ b'b' ∷ b'a' ∷ b't' ∷ b't' ∷ b'e' ∷ b'r' ∷ b'y' ∷ [])
    ∷ []

-- `check_cpu_consumption`: the budget, the power of the processor, and the two parts of the time.
pub check_cpu_consumption : AccessControlModule → ℕ → ℕ → ℕ → Bool
check_cpu_consumption m processor_power native_execution_time_us wasm_instructions_energy =
    let cpu_exe_time_us = (native_execution_time_us + wasm_instructions_energy) % 2 ^ 32 in
    ltb m.processor_power_consumption (processor_power * cpu_exe_time_us % 2 ^ 32)
