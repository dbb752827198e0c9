-- ===== src/Aerogel/Gate/Invariant.antt =====
-- What `aerogel_sensor_module` keeps: the energy accounts, the counters, and the trace.
use wasm_trustzone.Base.{ℕ, List, [], ◌∷◌, Defined}
use wasm_trustzone.Aerogel.{Text, sensor_index_mapping}
use wasm_trustzone.Aerogel.Energy.Budget.{WithinBudget, check_access_energy-WithinBudget}
use wasm_trustzone.Aerogel.Concurrency.{
  check_access_concurrency, Grown, Grown-refl, Grown-trans, take_slot-Grown,
}
use wasm_trustzone.Aerogel.Gate.{
  World, Gate, Event, AerogelActuator, AerogelSensor, request_energy, request_slot, add_event,
  checked, aerogel_sensor_module,
}
use wasm_trustzone.Aerogel.Gate.Kept.{Allowed, Kept, aerogel_sensor_module-Kept}

-- Every event of the trace is allowed to the module.
unfoldable pub AllAllowed : World → Text → List Event → Type 0
AllAllowed w module_name [] = Unit
AllAllowed w module_name (e ∷ es) = Allowed w module_name e × AllAllowed w module_name es

module _ (w : World) (module_name : Text) where
  budget_kept : Kept w module_name (λ g. WithinBudget g.policy.authorized_sensor_actuator)
  unfolding request_energy request_slot add_event checked
  budget_kept = record {
    energy = λ name g h. check_access_energy-WithinBudget (w.tick_us g.ticks) name g.policy h;
    slot = λ name m g small h. h;
    event = λ e g allowed h. h;
    check = λ g h. h;
    clock = λ time boots g h. h;
  }

  counters_kept : (counters : List ℕ) → Kept w module_name (λ g. Grown counters g.counters)
  unfolding request_energy request_slot add_event checked check_access_concurrency
  counters_kept counters = record {
    energy = λ name g h. h;
    slot = λ name m g small h.
        Grown-trans counters g.counters (request_slot name m g).1.counters h
          (take_slot-Grown sensor_index_mapping g.counters name m small);
    event = λ e g allowed h. h;
    check = λ g h. h;
    clock = λ time boots g h. h;
  }

  trace_kept : Kept w module_name (λ g. AllAllowed w module_name g.trace)
  unfolding request_energy request_slot add_event checked AllAllowed
  trace_kept = record {
    energy = λ name g h. h;
    slot = λ name m g small h. h;
    event = λ e g allowed h. (allowed, h);
    check = λ g h. h;
    clock = λ time boots g h. h;
  }

  -- Where every energy account of the module is within its allowance, it still is after a call that
  -- has a defined result.
  pub aerogel_sensor_module-WithinBudget :
      (sensor_list : List AerogelSensor) (actuator_list : List AerogelActuator) (g : Gate)
      → WithinBudget g.policy.authorized_sensor_actuator
      → Defined
          (λ next. WithinBudget next.policy.authorized_sensor_actuator)
          (aerogel_sensor_module w module_name sensor_list actuator_list g)
  aerogel_sensor_module-WithinBudget = aerogel_sensor_module-Kept budget_kept

  -- A call that has a defined result lowers no counter of concurrent accesses.
  pub aerogel_sensor_module-Grown :
      (sensor_list : List AerogelSensor) (actuator_list : List AerogelActuator) (g : Gate)
      → Defined
          (λ next. Grown g.counters next.counters)
          (aerogel_sensor_module w module_name sensor_list actuator_list g)
  aerogel_sensor_module-Grown sensor_list actuator_list g =
      aerogel_sensor_module-Kept (counters_kept g.counters) sensor_list actuator_list g
        (Grown-refl g.counters)

  -- Where the trace holds only uses of peripherals that a name check grants to the module, and
  -- pauses, it still does after a call with a defined result, whatever lists the module hands over.
  pub aerogel_sensor_module-AllAllowed :
      (sensor_list : List AerogelSensor) (actuator_list : List AerogelActuator) (g : Gate)
      → AllAllowed w module_name g.trace
      → Defined
          (λ next. AllAllowed w module_name next.trace)
          (aerogel_sensor_module w module_name sensor_list actuator_list g)
  aerogel_sensor_module-AllAllowed = aerogel_sensor_module-Kept trace_kept
