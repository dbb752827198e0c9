-- ===== src/Aerogel/Gate.antt =====
-- `aerogel_sensor_module` of core/iwasm/interpreter/wasm_runtime.c: the one entry through which a
-- module drives actuators and reads sensors. What it does to the devices is a trace, the last event
-- first. The values that a sensor returns come from a random generator and are left out, as are the
-- counters of the time that the checks take. A null pointer given to `strstr`, the overrun of a
-- local array and the division by a frequency of 0 have no defined result: `none`.
pub mod Kept
pub mod Invariant
use wasm_trustzone.Base.{
  ℕ, zero, suc, ◌+◌, ◌-◌, ◌*◌, ◌/◌, ◌%◌, ◌^◌, Bool, true, false, ◌||◌, List, [], ◌∷◌, ◌++◌, Option,
  none, some, ltb, ◌==◌, if◌then◌else◌, drop, length,
}
use wasm_trustzone.Aerogel.{Text, AccessControlModule, check_cpu_consumption}
use wasm_trustzone.Aerogel.CString.{contains, strstr, str_eq, until, atoi}
use wasm_trustzone.Aerogel.Energy.{check_access_energy}
use wasm_trustzone.Aerogel.Concurrency.{check_access_concurrency}
use wasm_trustzone.Aerogel.Name.{check_access_name}

-- The two sheets, what the stack holds where the array of the name check lies before each of its calls, what
-- `temp` holds before each sensor, and the readings of the two clocks,
-- `bh_get_tick_us` and `os_time_get_renju_boot_microsecond`, in their order.
pub record World : Type 0 where
  pub device_spec : Text
  pub module_spec : Text
  pub residue : ℕ → List ℕ
  pub temp_before : ℕ → List ℕ
  pub tick_us : ℕ → ℕ
  pub boot_us : ℕ → ℕ

pub data Event : Type 0 where
  actuated : Text → ℕ → Event
  sensed : Text → ℕ → Event
  slept : ℕ → Event

-- The part of the instance and of the global variables that the function works on, with the numbers of the
-- readings and of the name checks so far; `policy` is
-- `module_info[module_index]`.
pub record Gate : Type 0 where
  pub counters : List ℕ
  pub policy : AccessControlModule
  pub processor_power : ℕ
  pub native_execution_time_us : ℕ
  pub wasm_instructions_energy : ℕ
  pub ticks : ℕ
  pub boots : ℕ
  pub checks : ℕ
  pub trace : List Event

pub record AerogelActuator : Type 0 where
  pub actuator_name : Text
  pub repetition : ℕ
  pub latency : ℕ

pub record AerogelSensor : Type 0 where
  pub sensor_name : Text
  pub freq : ℕ
  pub duration : ℕ

pub add_event : Event → Gate → Gate
add_event e g = record g { trace = e ∷ g.trace }

-- One more call of `check_access_name`.
pub checked : Gate → Gate
checked g = record g { checks = suc g.checks }

-- `check_access_energy` at the next reading of the clock.
pub request_energy : World → Text → Gate → Bool × Gate
request_energy w name g =
    let asked = check_access_energy (w.tick_us g.ticks) name g.policy in
    (asked.0, record g { policy = asked.1; ticks = suc g.ticks })

pub request_slot : Text → ℕ → Gate → Bool × Gate
request_slot name max_access g =
    let asked = check_access_concurrency g.counters name max_access in
    (asked.0, record g { counters = asked.1 })

abbrev speaker : Text
speaker = b's' ∷ b'p' ∷ b'e' ∷ b'a' ∷ b'k' ∷ b'e' ∷ b'r' ∷ []

abbrev door_motor : Text
door_motor = b'd' ∷ b'o' ∷ b'o' ∷ b'r' ∷ b'_' ∷ b'm' ∷ b'o' ∷ b't' ∷ b'o' ∷ b'r' ∷ []

abbrev propeller : Text
propeller = b'p' ∷ b'r' ∷ b'o' ∷ b'p' ∷ b'e' ∷ b'l' ∷ b'l' ∷ b'e' ∷ b'r' ∷ []

abbrev home_camera_control : Text
home_camera_control =
    b'h' ∷ b'o' ∷ b'm' ∷ b'e' ∷ b'_' ∷ b'c' ∷ b'a' ∷ b'm' ∷ b'e' ∷ b'r' ∷ b'a' ∷ b'_' ∷ b'c' ∷ b'o'
    ∷ b'n' ∷ b't' ∷ b'r' ∷ b'o' ∷ b'l' ∷ []

abbrev imu : Text
imu = b'i' ∷ b'm' ∷ b'u' ∷ []

abbrev door_battery : Text
door_battery =
    b'd' ∷ b'o' ∷ b'o' ∷ b'r' ∷ b'_' ∷ b'b' ∷ b'a' ∷ b't' ∷ b't' ∷ b'e' ∷ b'r' ∷ b'y' ∷ []

abbrev camera : Text
camera = b'c' ∷ b'a' ∷ b'm' ∷ b'e' ∷ b'r' ∷ b'a' ∷ []

abbrev home_camera_image : Text
home_camera_image =
    b'h' ∷ b'o' ∷ b'm' ∷ b'e' ∷ b'_' ∷ b'c' ∷ b'a' ∷ b'm' ∷ b'e' ∷ b'r' ∷ b'a' ∷ b'_' ∷ b'i' ∷ b'm'
    ∷ b'a' ∷ b'g' ∷ b'e' ∷ []

abbrev motion : Text
motion = b'm' ∷ b'o' ∷ b't' ∷ b'i' ∷ b'o' ∷ b'n' ∷ []

abbrev microphone : Text
microphone = b'm' ∷ b'i' ∷ b'c' ∷ b'r' ∷ b'o' ∷ b'p' ∷ b'h' ∷ b'o' ∷ b'n' ∷ b'e' ∷ []

abbrev concurrent_access : Text
concurrent_access =
    b'c' ∷ b'o' ∷ b'n' ∷ b'c' ∷ b'u' ∷ b'r' ∷ b'r' ∷ b'e' ∷ b'n' ∷ b't' ∷ b'_' ∷ b'a' ∷ b'c' ∷ b'c'
    ∷ b'e' ∷ b's' ∷ b's' ∷ b':' ∷ []

-- The number copied into the 20 bytes of `temp`, which held `before`.
pub read_number : List ℕ → Text → Option ℕ
read_number before temp =
    if ltb 20 (length temp)
    then none
    else some (atoi (until 0 (temp ++ drop (length temp) before)) % 2 ^ 32)

-- `max_access`, read behind the first occurrence of the name in the sheet; the copy stops at a newline only,
-- so that without one it leaves the sheet and the array.
pub max_access_of : Text → List ℕ → Text → Option ℕ
max_access_of device_spec before name = elim (strstr device_spec name) [
  | none ↦ none
  | some tmp ↦ elim (strstr tmp concurrent_access) [
    | none ↦ none
    | some at ↦
        if contains at (b'\n' ∷ [])
        then read_number before (until b'\n' (drop (length concurrent_access) at))
        else none
  ]
]

-- The `set_*` function of the name.
pub drive : Text → ℕ → Gate → Gate
drive name latency g =
    if str_eq name speaker
      || str_eq name door_motor
      || str_eq name propeller
      || str_eq name home_camera_control
    then add_event (actuated name latency) g
    else g

pub actuator_round : World → Text → ℕ → Gate → Gate
actuator_round w name latency g =
    let asked = request_energy w name g in if asked.0 then asked.1 else drive name latency asked.1

pub actuator_loop : World → Text → ℕ → ℕ → Gate → Gate
actuator_loop w name latency zero g = g
actuator_loop w name latency (suc k) g =
    actuator_loop w name latency k (actuator_round w name latency g)

-- `os_time_get_renju_boot_microsecond()`.
pub read_boot : World → Gate → ℕ × Gate
read_boot w g = (w.boot_us g.boots, record g { boots = suc g.boots })

-- The time of the native work, and the pause where the budget of the processor is used up.
pub account_cpu : ℕ → ℕ → Gate → Gate
account_cpu start end g =
    let time = (end + 2 ^ 32 - start) % 2 ^ 32 in
    let timed = record g { native_execution_time_us = time } in
    if check_cpu_consumption g.policy g.processor_power time g.wasm_instructions_energy
    then record (add_event (slept 500000) timed) { native_execution_time_us = 0 }
    else timed

-- The body between the two readings of the clock, and the account of its time.
pub timed : World → (Gate → Gate) → Gate → Gate
timed w body g =
    let start = read_boot w g in
    let end = read_boot w (body start.1) in account_cpu start.0 end.0 end.1

-- One round of the loop over `actuator_list`, which clears `temp` first.
pub actuate : World → Text → AerogelActuator → Gate → Option Gate
actuate w module_name a g = elim (max_access_of w.device_spec [] a.actuator_name) [
  | none ↦ none
  | some max_access ↦
      elim (check_access_name w.module_spec (w.residue g.checks) module_name a.actuator_name) [
        | none ↦ none
        | some true ↦ some (checked g)
        | some false ↦
            let slot = request_slot a.actuator_name max_access (checked g) in
            some (
              if slot.0
              then slot.1
              else timed w (actuator_loop w a.actuator_name a.latency a.repetition) slot.1)
      ]
]

-- How many values the `get_*` function of the name writes.
pub reading_size : Text → Option ℕ
reading_size name =
    if str_eq name imu
    then some 3
    else if str_eq name door_battery
    then some 1
    else if str_eq name camera || str_eq name home_camera_image
    then some 10
    else if str_eq name motion
    then some 1
    else if str_eq name microphone
    then some 10
    else none

-- One call of the `get_*` function of the name.
pub take_reading : Text → Gate → Gate
take_reading name g = elim (reading_size name) [
  | none ↦ g
  | some count ↦ add_event (sensed name count) g
]

pub sensor_round : World → Text → ℕ → Gate → Gate
sensor_round w name freq g =
    let asked = request_energy w name g in
    if asked.0 then add_event (slept (1000000 / freq)) asked.1 else take_reading name asked.1

pub sensor_loop : World → Text → ℕ → ℕ → Gate → Gate
sensor_loop w name freq zero g = g
sensor_loop w name freq (suc k) g = sensor_loop w name freq k (sensor_round w name freq g)

-- `duration / (1000000 / freq)`, undefined where a divisor is 0.
pub repetition_of : AerogelSensor → Option ℕ
repetition_of s =
    if s.freq == 0 || ltb 1000000 s.freq then none else some (s.duration / (1000000 / s.freq))

-- The energy and concurrency checks before the readings, `true` where one denies.
pub admit_sensor : World → Text → ℕ → Gate → Bool × Gate
admit_sensor w name max_access g =
    let asked = request_energy w name g in
    if asked.0 then asked else request_slot name max_access asked.1

-- All readings of an admitted sensor.
pub read_sensor : World → AerogelSensor → Gate → Option Gate
read_sensor w s g = elim (repetition_of s) [
  | none ↦ none
  | some repetition ↦ some (timed w (sensor_loop w s.sensor_name s.freq repetition) g)
]

-- One round of the loop over `sensor_list`, which does not clear `temp`.
pub sense : World → Text → AerogelSensor → Gate → Option Gate
sense w module_name s g =
    elim (max_access_of w.device_spec (w.temp_before g.checks) s.sensor_name) [
      | none ↦ none
      | some max_access ↦
          elim (check_access_name w.module_spec (w.residue g.checks) module_name s.sensor_name) [
            | none ↦ none
            | some true ↦ some (checked g)
            | some false ↦
                let admitted = admit_sensor w s.sensor_name max_access (checked g) in
                if admitted.0 then some admitted.1 else read_sensor w s admitted.1
          ]
    ]

-- A list of requests, one after the other.
pub each : {A : Type 0} → (A → Gate → Option Gate) → List A → Gate → Option Gate
each f [] g = some g
each f (a ∷ rest) g = elim (f a g) [ none ↦ none | some next ↦ each f rest next ]

pub aerogel_sensor_module :
    World → Text → List AerogelSensor → List AerogelActuator → Gate → Option Gate
unfolding each
aerogel_sensor_module w module_name sensor_list actuator_list g =
    elim (each (actuate w module_name) actuator_list g) [
      | none ↦ none
      | some next ↦ each (sense w module_name) sensor_list next
    ]
