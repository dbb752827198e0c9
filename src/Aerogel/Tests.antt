-- ===== src/Aerogel/Tests.antt =====
-- The access control on a small sheet, and its theorems there.
use wasm_trustzone.Base.{◌+◌, [], ◌∷◌, ◌≡◌, ◌⊎◌, refl, arith, replicate, Defined}
use wasm_trustzone.Aerogel.{Text, SensorActuatorInfo, AccessControlModule, sensor_index_mapping}
use wasm_trustzone.Aerogel.CString.{strstr, starts_with, contains, until}
use wasm_trustzone.Aerogel.Energy.Budget.{WithinBudget}
use wasm_trustzone.Aerogel.Energy.Duty.{denials, InWindow, denials-div}
use wasm_trustzone.Aerogel.Concurrency.{slot, grants, HasSlot, Grown, grants-min}
use wasm_trustzone.Aerogel.Name.{
  access_string, check_access_name, NoNul, Listed, LeftOver, check_access_name-Listed,
}
use wasm_trustzone.Aerogel.Gate.{World, Gate, AerogelActuator, aerogel_sensor_module}
use wasm_trustzone.Aerogel.Gate.Invariant.{
  AllAllowed, aerogel_sensor_module-WithinBudget, aerogel_sensor_module-Grown,
  aerogel_sensor_module-AllAllowed,
}

abbrev speaker : Text
speaker = b's' ∷ b'p' ∷ b'e' ∷ b'a' ∷ b'k' ∷ b'e' ∷ b'r' ∷ []

abbrev app : Text
app = b'a' ∷ b'p' ∷ b'p' ∷ []

-- "app,speaker" and a newline.
abbrev modules : Text
modules = b'a' ∷ b'p' ∷ b'p' ∷ b',' ∷ b's' ∷ b'p' ∷ b'e' ∷ b'a' ∷ b'k' ∷ b'e' ∷ b'r' ∷ b'\n' ∷ []

-- "speaker,concurrent_access:2" and a newline.
abbrev devices : Text
devices =
    b's' ∷ b'p' ∷ b'e' ∷ b'a' ∷ b'k' ∷ b'e' ∷ b'r' ∷ b',' ∷ b'c' ∷ b'o' ∷ b'n' ∷ b'c' ∷ b'u' ∷ b'r'
    ∷ b'r' ∷ b'e' ∷ b'n' ∷ b't' ∷ b'_' ∷ b'a' ∷ b'c' ∷ b'c' ∷ b'e' ∷ b's' ∷ b's' ∷ b':' ∷ b'2'
    ∷ b'\n' ∷ []

-- An allowance of three charges.
abbrev speaker_info : SensorActuatorInfo
speaker_info = record {
  id = 4;
  mmio_address = 0x8fffffe4;
  num_concurrent_access = 1;
  power = 400;
  allowed_power_consumption = 1200;
  used_power = 0;
  timestamp = 0;
}

abbrev policy : AccessControlModule
policy = record {
  name = app;
  authorized_sensor_actuator = speaker_info ∷ [];
  processor_power_consumption = 9000;
  memory_consumption = 200000;
}

abbrev world : World
world = record {
  device_spec = devices;
  module_spec = modules;
  residue = λ i. [];
  temp_before = λ i. [];
  tick_us = λ n. 1000 + n;
  boot_us = λ n. n;
}

abbrev gate : Gate
gate = record {
  counters = replicate 10 0;
  policy = policy;
  processor_power = 1;
  native_execution_time_us = 0;
  wasm_instructions_energy = 0;
  ticks = 0;
  boots = 0;
  checks = 0;
  trace = [];
}

abbrev play : AerogelActuator
play = record { actuator_name = speaker; repetition = 5; latency = 7 }

denials-div_example : denials (1 ∷ 2 ∷ 3 ∷ 4 ∷ 5 ∷ []) speaker_info ≡ 1
unfolding InWindow
denials-div_example =
    denials-div (1 ∷ 2 ∷ 3 ∷ 4 ∷ 5 ∷ []) speaker_info
      (omega arith, (omega arith, (omega arith, (omega arith, (omega arith, tt))))) (omega arith)
      (omega arith) refl

-- Three accesses where two are allowed at once; the first two are never given back.
grants-min_example : grants 3 (replicate 10 0) speaker 2 ≡ 2
unfolding HasSlot slot sensor_index_mapping contains strstr starts_with
grants-min_example = grants-min 3 (replicate 10 0) speaker 2 (omega arith) tt

-- The stack is full of the letter x.
check_access_name-Listed_example :
    Listed modules app speaker ⊎ LeftOver modules (replicate 200 b'x') app speaker
unfolding NoNul check_access_name access_string contains strstr starts_with until
check_access_name-Listed_example =
    check_access_name-Listed modules (replicate 200 b'x') app speaker
      (
        omega arith,
        (
          omega arith,
          (
            omega arith,
            (
              omega arith,
              (
                omega arith,
                (
                  omega arith,
                  (
                    omega arith,
                    (omega arith, (omega arith, (omega arith, (omega arith, (omega arith, tt))))),
                  ),
                ),
              ),
            ),
          ),
        ),
      )
      refl

aerogel_sensor_module-WithinBudget_example :
    Defined
      (λ next. WithinBudget next.policy.authorized_sensor_actuator)
      (aerogel_sensor_module world app [] (play ∷ []) gate)
unfolding WithinBudget
aerogel_sensor_module-WithinBudget_example =
    aerogel_sensor_module-WithinBudget world app [] (play ∷ []) gate (omega arith, tt)

aerogel_sensor_module-Grown_example :
    Defined
      (λ next. Grown (replicate 10 0) next.counters)
      (aerogel_sensor_module world app [] (play ∷ []) gate)
aerogel_sensor_module-Grown_example = aerogel_sensor_module-Grown world app [] (play ∷ []) gate

aerogel_sensor_module-AllAllowed_example :
    Defined
      (λ next. AllAllowed world app next.trace)
      (aerogel_sensor_module world app [] (play ∷ []) gate)
unfolding AllAllowed
aerogel_sensor_module-AllAllowed_example =
    aerogel_sensor_module-AllAllowed world app [] (play ∷ []) gate tt
