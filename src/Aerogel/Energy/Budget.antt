-- ===== src/Aerogel/Energy/Budget.antt =====
-- The budget of `check_access_energy`: no peripheral's account exceeds its allowance.
use wasm_trustzone.Base.{ℕ, ◌≤◌, List, [], ◌∷◌, arith, ◌==◌, Bool-cases, Option-cases, inl, inr}
use wasm_trustzone.Aerogel.{Text, SensorActuatorInfo, AccessControlModule, sensor_index_mapping}
use wasm_trustzone.Aerogel.Energy.{find_peripheral, charge, charge_first, check_access_energy}

unfoldable pub WithinBudget : List SensorActuatorInfo → Type 0
WithinBudget [] = Unit
WithinBudget (s ∷ ss) = (s.used_power ≤ s.allowed_power_consumption) × WithinBudget ss

charge-within :
    (now : ℕ) (s : SensorActuatorInfo)
    → (charge now s).1.used_power ≤ (charge now s).1.allowed_power_consumption
unfolding charge
charge-within now s = ground arith

charge_first-WithinBudget :
    (id now : ℕ) (ss : List SensorActuatorInfo)
    → WithinBudget ss
    → WithinBudget (charge_first id now ss).1
unfolding charge_first WithinBudget
charge_first-WithinBudget id now [] h = tt
charge_first-WithinBudget id now (s ∷ ss) (h, hs) = elim (Bool-cases (s.id == id)) [
  | inl same ↦ rw same (charge-within now s, hs)
  | inr other ↦ rw other (h, charge_first-WithinBudget id now ss hs)
]

-- Where every account of the module is within its allowance, a request for energy, granted or
-- denied, leaves it so.
pub check_access_energy-WithinBudget :
    (now : ℕ) (name : Text) (m : AccessControlModule)
    → WithinBudget m.authorized_sensor_actuator
    → WithinBudget (check_access_energy now name m).1.authorized_sensor_actuator
unfolding check_access_energy
check_access_energy-WithinBudget now name m h =
    elim (Option-cases (find_peripheral sensor_index_mapping name 0)) [
      | inl e ↦ rw (e, check_access_energy) h
      | inr (id, e) ↦
          rw (e, check_access_energy)
            (charge_first-WithinBudget id now m.authorized_sensor_actuator h)
    ]
