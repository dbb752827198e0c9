-- ===== src/Aerogel/Gate/Kept.antt =====
-- What each small operation of the gate keeps, the whole of `aerogel_sensor_module` keeps.
use wasm_trustzone.Base.{
  ℕ, zero, suc, ◌/◌, ◌^◌, ◌<◌, ◌≡◌, subst, Bool, true, false, List, [], ◌∷◌, Option, some, arith,
  Bool-cases, Option-cases, inl, inr, ltb, length, if-both, Defined,
}
use wasm_trustzone.Aerogel.{Text}
use wasm_trustzone.Aerogel.CString.{strstr, contains}
use wasm_trustzone.Aerogel.Name.{check_access_name}
use wasm_trustzone.Aerogel.Gate.{
  World, Gate, Event, actuated, sensed, slept, AerogelActuator, AerogelSensor, add_event, checked,
  request_energy, request_slot, max_access_of, drive, actuator_round, actuator_loop, read_boot,
  account_cpu, timed, actuate, reading_size, take_reading, read_number, sensor_round, sensor_loop,
  repetition_of, admit_sensor, read_sensor, sense, each, aerogel_sensor_module, concurrent_access,
}

-- What may appear in the trace: a use of a peripheral that a name check grants, or a pause.
unfoldable pub Allowed : World → Text → Event → Type 0
Allowed w module_name (actuated name latency) =
    (i : ℕ) × (check_access_name w.module_spec (w.residue i) module_name name ≡ some false)
Allowed w module_name (sensed name count) =
    (i : ℕ) × (check_access_name w.module_spec (w.residue i) module_name name ≡ some false)
Allowed w module_name (slept time) = Unit

-- A property of the gate that holds after each of the small operations.
pub record Kept (w : World) (module_name : Text) (P : Gate → Type 0) : Type 0 where
  pub energy : (name : Text) (g : Gate) → P g → P (request_energy w name g).1
  pub slot :
      (name : Text) (max_access : ℕ) (g : Gate)
      → max_access < 2 ^ 32
      → P g
      → P (request_slot name max_access g).1
  pub event : (e : Event) (g : Gate) → Allowed w module_name e → P g → P (add_event e g)
  pub check : (g : Gate) → P g → P (checked g)
  pub clock :
      (time boots : ℕ) (g : Gate)
      → P g
      → P (record g { native_execution_time_us = time; boots = boots })

module _ {w : World} {module_name : Text} {P : Gate → Type 0} (kept : Kept w module_name P) where
  Granted : Text → Type 0
  Granted name =
      (i : ℕ) × (check_access_name w.module_spec (w.residue i) module_name name ≡ some false)

  drive-Kept :
      (name : Text) (latency : ℕ) (g : Gate) → Granted name → P g → P (drive name latency g)
  unfolding drive Allowed Granted
  drive-Kept name latency g granted h =
      if-both P _ (kept.event (actuated name latency) g granted h) h

  actuator_loop-Kept :
      (name : Text) (latency k : ℕ) (g : Gate)
      → Granted name
      → P g
      → P (actuator_loop w name latency k g)
  unfolding actuator_loop actuator_round
  actuator_loop-Kept name latency zero g granted h = h
  actuator_loop-Kept name latency (suc k) g granted h =
      let asked = kept.energy name g h in
      actuator_loop-Kept name latency k (actuator_round w name latency g) granted (
        if-both P (request_energy w name g).0 asked
          (drive-Kept name latency (request_energy w name g).1 granted asked))

  account_cpu-Kept : (start end : ℕ) (g : Gate) → P g → P (account_cpu start end g)
  unfolding account_cpu Allowed add_event
  account_cpu-Kept start end g h =
      if-both P _
        (kept.clock 0 g.boots (add_event (slept 500000) g) (kept.event (slept 500000) g tt h))
        (kept.clock _ g.boots g h)

  timed-Kept :
      (body : Gate → Gate) (g : Gate) → ((g : Gate) → P g → P (body g)) → P g → P (timed w body g)
  unfolding timed read_boot
  timed-Kept body g run h =
      let begun = kept.clock g.native_execution_time_us (suc g.boots) g h in
      let done = run _ begun in account_cpu-Kept _ _ _ (kept.clock _ _ _ done)

  read_number-lt :
      (before : List ℕ) (temp : Text) → Defined (λ m. m < 2 ^ 32) (read_number before temp)
  unfolding read_number Defined
  read_number-lt before temp = elim (Bool-cases (ltb 20 (length temp))) [
    | inl long ↦ rw (long, read_number) tt
    | inr short ↦ rw (short, read_number) (omega arith)
  ]

  max_access_of-lt :
      (device_spec : Text) (before : List ℕ) (name : Text)
      → Defined (λ m. m < 2 ^ 32) (max_access_of device_spec before name)
  unfolding max_access_of Defined
  max_access_of-lt device_spec before name = elim (Option-cases (strstr device_spec name)) [
    | inl e ↦ rw (e, max_access_of) tt
    | inr (tmp, e) ↦ elim (Option-cases (strstr tmp concurrent_access)) [
      | inl f ↦ rw (e, f, max_access_of) tt
      | inr (at, f) ↦
          rw (e, f, max_access_of)
            (if-both (Defined (λ m. m < 2 ^ 32)) (contains at (b'\n' ∷ []))
              (read_number-lt before _) tt)
    ]
  ]

  actuate-Kept : (a : AerogelActuator) (g : Gate) → P g → Defined P (actuate w module_name a g)
  unfolding actuate Granted Defined request_slot
  actuate-Kept a g h = elim (Option-cases (max_access_of w.device_spec [] a.actuator_name)) [
    | inl e ↦ rw (e, actuate) tt
    | inr (m, e) ↦
        elim (Option-cases
          (check_access_name w.module_spec (w.residue g.checks) module_name a.actuator_name)) [
            | inl f ↦ rw (e, f, actuate) tt
            | inr (true, f) ↦ rw (e, f, actuate) (kept.check g h)
            | inr (false, f) ↦
                let small : m < 2 ^ 32 =
                  subst (Defined (λ m. m < 2 ^ 32)) e
                    (max_access_of-lt w.device_spec [] a.actuator_name) in
                let granted : Granted a.actuator_name = (g.checks, f) in
                let slot = kept.slot a.actuator_name m (checked g) small (kept.check g h) in
                rw (e, f, actuate)
                  (if-both P _ slot (
                    timed-Kept _ _
                      (λ g. actuator_loop-Kept a.actuator_name a.latency a.repetition g granted)
                      slot))
          ]
  ]

  take_reading-Kept : (name : Text) (g : Gate) → Granted name → P g → P (take_reading name g)
  unfolding take_reading Granted Allowed
  take_reading-Kept name g granted h = elim (Option-cases (reading_size name)) [
    | inl e ↦ rw (e, take_reading) h
    | inr (count, e) ↦ rw (e, take_reading) (kept.event (sensed name count) g granted h)
  ]

  sensor_round-Kept :
      (name : Text) (freq : ℕ) (g : Gate) → Granted name → P g → P (sensor_round w name freq g)
  unfolding sensor_round Granted Allowed
  sensor_round-Kept name freq g granted h =
      let asked = kept.energy name g h in
      if-both P _ (kept.event (slept (1000000 / freq)) _ tt asked)
        (take_reading-Kept name _ granted asked)

  sensor_loop-Kept :
      (name : Text) (freq k : ℕ) (g : Gate) → Granted name → P g → P (sensor_loop w name freq k g)
  unfolding sensor_loop
  sensor_loop-Kept name freq zero g granted h = h
  sensor_loop-Kept name freq (suc k) g granted h =
      sensor_loop-Kept name freq k (sensor_round w name freq g) granted
        (sensor_round-Kept name freq g granted h)

  admit_sensor-Kept :
      (name : Text) (m : ℕ) (g : Gate) → m < 2 ^ 32 → P g → P (admit_sensor w name m g).1
  unfolding admit_sensor
  admit_sensor-Kept name m g small h =
      let asked = kept.energy name g h in
      if-both (λ (r : Bool × Gate). P r.1) (request_energy w name g).0 asked
        (kept.slot name m (request_energy w name g).1 small asked)

  read_sensor-Kept :
      (s : AerogelSensor) (g : Gate) → Granted s.sensor_name → P g → Defined P (read_sensor w s g)
  unfolding read_sensor Defined
  read_sensor-Kept s g granted h = elim (Option-cases (repetition_of s)) [
    | inl e ↦ rw (e, read_sensor) tt
    | inr (k, e) ↦
        rw (e, read_sensor)
          (timed-Kept _ _ (λ g. sensor_loop-Kept s.sensor_name s.freq k g granted) h)
  ]

  sense-Kept : (s : AerogelSensor) (g : Gate) → P g → Defined P (sense w module_name s g)
  unfolding sense Granted Defined
  sense-Kept s g h =
      elim (Option-cases (max_access_of w.device_spec (w.temp_before g.checks) s.sensor_name)) [
        | inl e ↦ rw (e, sense) tt
        | inr (m, e) ↦
            elim (Option-cases
              (check_access_name w.module_spec (w.residue g.checks) module_name s.sensor_name)) [
                | inl f ↦ rw (e, f, sense) tt
                | inr (true, f) ↦ rw (e, f, sense) (kept.check g h)
                | inr (false, f) ↦
                    let small : m < 2 ^ 32 =
                      subst (Defined (λ m. m < 2 ^ 32)) e
                        (max_access_of-lt w.device_spec (w.temp_before g.checks) s.sensor_name) in
                    let admitted = admit_sensor w s.sensor_name m (checked g) in
                    let held =
                      admit_sensor-Kept s.sensor_name m (checked g) small (kept.check g h) in
                    rw (e, f, sense)
                      (if-both (Defined P) admitted.0 {x = some admitted.1} held
                        (read_sensor-Kept s admitted.1 (g.checks, f) held))
              ]
      ]

  each-Kept :
      {A : Type 0} (f : A → Gate → Option Gate)
      → ((a : A) (g : Gate) → P g → Defined P (f a g))
      → (xs : List A) (g : Gate) → P g
      → Defined P (each f xs g)
  unfolding each Defined
  each-Kept f step [] g h = h
  each-Kept f step (a ∷ rest) g h = elim (Option-cases (f a g)) [
    | inl e ↦ rw (e, each) tt
    | inr (next, e) ↦ rw (e, each) (each-Kept f step rest next (subst (Defined P) e (step a g h)))
  ]

  pub aerogel_sensor_module-Kept :
      (sensor_list : List AerogelSensor) (actuator_list : List AerogelActuator) (g : Gate)
      → P g
      → Defined P (aerogel_sensor_module w module_name sensor_list actuator_list g)
  unfolding aerogel_sensor_module Defined
  aerogel_sensor_module-Kept sensor_list actuator_list g h =
      let driven = each-Kept (actuate w module_name) actuate-Kept actuator_list g h in
      elim (Option-cases (each (actuate w module_name) actuator_list g)) [
        | inl e ↦ rw (e, aerogel_sensor_module) tt
        | inr (next, e) ↦
            rw (e, aerogel_sensor_module)
              (each-Kept (sense w module_name) sense-Kept sensor_list next
                (subst (Defined P) e driven))
      ]
