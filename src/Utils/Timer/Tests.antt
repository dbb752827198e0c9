-- ===== src/Utils/Timer/Tests.antt =====
-- Timers on a concrete clock.
use wasm_trustzone.Base.{◌≡◌, refl, true, false, [], ◌∷◌, some, arith, map}
use wasm_trustzone.Utils.Timer.{
  AppTimer, TimerCtx, create_timer_ctx, sys_create_timer, check_app_timers, start_timer, next_id,
  cleanup_app_timers, handle_expired_timers, becomes_head, take_expired, insert_timer,
  reschedule_timer, refresh,
}
use wasm_trustzone.Utils.Timer.Order.{Sorted, From}
use wasm_trustzone.Utils.Timer.Firing.{due, reverse_onto, check_app_timers-due}
use wasm_trustzone.Utils.Timer.Kept.{IsTimerCtx}
use wasm_trustzone.Utils.Timer.Steps.{create, Reaches, stay, followed, cleaned, Reaches-IsTimerCtx}

-- Two timers are allocated; one is started at 0 with 10 milliseconds, the other with 5.
abbrev ten : AppTimer
ten = record { id = 1; interval = 10; expiry = 10; is_periodic = true }

abbrev five : AppTimer
five = record { id = 2; interval = 5; expiry = 5; is_periodic = false }

abbrev both : TimerCtx
both = record {
  g_app_timers = five ∷ ten ∷ [];
  idle_timers = [];
  free_timers = [];
  g_max_id = 2;
  pre_allocated = 2;
  owner = 7;
  refreshes = 2;
}

abbrev first : TimerCtx
first = record {
  g_app_timers = ten ∷ [];
  idle_timers = [];
  free_timers = record { id = 0; interval = 0; expiry = 0; is_periodic = false } ∷ [];
  g_max_id = 1;
  pre_allocated = 2;
  owner = 7;
  refreshes = 1;
}

first_created : sys_create_timer true 0 (create_timer_ctx 2 7) 10 true true ≡ some first
unfolding sys_create_timer create_timer_ctx start_timer reschedule_timer refresh becomes_head
    insert_timer next_id
first_created = refl

both_created : sys_create_timer true 0 first 5 false true ≡ some both
unfolding sys_create_timer start_timer reschedule_timer refresh becomes_head insert_timer next_id
both_created = refl

both_reached : Reaches (create_timer_ctx 2 7) 0 both
both_reached =
    followed (followed stay (create true 0 10 true true first_created))
      (create true 0 5 false true both_created)

emptied : Reaches (create_timer_ctx 2 7) 2 (cleanup_app_timers both)
emptied = cleaned both_reached

Reaches-IsTimerCtx_example : IsTimerCtx 2 2 (cleanup_app_timers both)
Reaches-IsTimerCtx_example = Reaches-IsTimerCtx 2 7 2 (cleanup_app_timers both) emptied

both_fired : (check_app_timers (λ i. 12) both).fired ≡ 1 ∷ 2 ∷ []
unfolding check_app_timers take_expired handle_expired_timers
both_fired = refl

both-Sorted : Sorted both.g_app_timers
unfolding Sorted From
both-Sorted = ((omega arith, tt), (tt, tt))

check_app_timers-due_example :
    (check_app_timers (λ i. 12) both).fired
    ≡ map (λ t. t.id) (reverse_onto (due 12 both.g_app_timers) [])
check_app_timers-due_example = check_app_timers-due (λ i. 12) both both-Sorted
