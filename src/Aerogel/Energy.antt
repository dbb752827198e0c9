-- ===== src/Aerogel/Energy.antt =====
-- `check_access_energy` of core/iwasm/interpreter/wasm_runtime.c: the energy that a peripheral may
-- use in a window of ten seconds. `now` is what `bh_get_tick_us()` returns; the result is `true`
-- where the access is denied.
pub mod Budget
pub mod Duty
use wasm_trustzone.Base.{
  ℕ, zero, suc, ◌+◌, ◌-◌, ◌*◌, ◌%◌, ◌^◌, Bool, true, false, List, [], ◌∷◌, Option, none, some, ltb,
  ◌==◌, if◌then◌else◌,
}
use wasm_trustzone.Aerogel.{Text, SensorActuatorInfo, AccessControlModule, sensor_index_mapping}
use wasm_trustzone.Aerogel.CString.{contains}

-- The search of `sensor_index_mapping` from index i on.
pub find_peripheral : List Text → Text → ℕ → Option ℕ
find_peripheral [] name i = none
find_peripheral (s ∷ mapping) name i =
    let rest = find_peripheral mapping name (i + 1) in if contains s name then some i else rest

-- The body of the second loop at the entry with the peripheral's id.
pub charge : ℕ → SensorActuatorInfo → Bool × SensorActuatorInfo
charge now s =
    if ltb 10000000 ((now + 2 ^ 32 - s.timestamp) % 2 ^ 32)
    then (false, record s { timestamp = now; used_power = 0 })
    else let used = (s.used_power + s.power) % 2 ^ 32 in
      if ltb s.allowed_power_consumption used
      then (true, record s { used_power = 0 })
      else (false, record s { used_power = used })

pub charge_first : ℕ → ℕ → List SensorActuatorInfo → Bool × List SensorActuatorInfo
charge_first id now [] = (true, [])
charge_first id now (s ∷ ss) =
    let rest = charge_first id now ss in
    if s.id == id then ((charge now s).0, (charge now s).1 ∷ ss) else (rest.0, s ∷ rest.1)

pub check_access_energy : ℕ → Text → AccessControlModule → Bool × AccessControlModule
check_access_energy now peripheral_name m =
    elim (find_peripheral sensor_index_mapping peripheral_name 0) [
      | none ↦ (true, m)
      | some peripheral_id ↦
          let charged = charge_first peripheral_id now m.authorized_sensor_actuator in
          (charged.0, record m { authorized_sensor_actuator = charged.1 })
    ]
