-- ===== src/Utils/Timer/Steps.antt =====
-- Whatever is done with the timers of an application, those that are active stay in order and none of
-- those allocated at the start is lost.
use wasm_trustzone.Base.{
  ℕ, suc, ◌+◌, ◌≡◌, refl, ap, subst, Bool, true, false, List, [], ◌∷◌, none, some, arith, ltb, ◌==◌,
  if◌then◌else◌, Bool-cases, inl, inr, length, length-replicate,
}
use wasm_trustzone.Utils.Timer.{
  AppTimer, TimerCtx, remove_timer, reschedule_timer, release_timer, add_idle_timer, start_timer,
  next_id, sys_create_timer, sys_timer_cancel, sys_timer_destroy, sys_timer_restart,
  check_app_timers, create_timer_ctx, cleared_timer, cleanup_app_timers,
}
use wasm_trustzone.Utils.Timer.Order.{Sorted}
use wasm_trustzone.Utils.Timer.Kept.{
  IsTimerCtx, remove_timer-IsUnlinked, answer-IsTimerCtx, check_app_timers-IsTimerCtx,
  reschedule_timer-IsTimerCtx, add_idle_timer-IsTimerCtx, release_timer-IsTimerCtx,
}

-- One call, with whatever the clock reads.
pub data Step : TimerCtx → TimerCtx → Type 0 where
  create :
      {ctx next : TimerCtx} (allocated : Bool) (now interval : ℕ) (is_period auto_start : Bool)
      → sys_create_timer allocated now ctx interval is_period auto_start ≡ some next
      → Step ctx next
  cancel : {ctx : TimerCtx} (timer_id : ℕ) → Step ctx (sys_timer_cancel ctx timer_id).ctx
  destroy : {ctx : TimerCtx} (timer_id : ℕ) → Step ctx (sys_timer_destroy ctx timer_id).ctx
  restart :
      {ctx : TimerCtx} (now timer_id interval : ℕ)
      → Step ctx (sys_timer_restart now ctx timer_id interval).ctx
  check : {ctx : TimerCtx} (clock : ℕ → ℕ) → Step ctx (check_app_timers clock ctx).ctx

-- The calls that lead from one context to another, with the number of timers that `cleanup_app_timers` has
-- released on the way.
pub data Reaches (start : TimerCtx) : ℕ → TimerCtx → Type 0 where
  stay : Reaches start 0 start
  followed :
      {released : ℕ} {ctx next : TimerCtx}
      → Reaches start released ctx
      → Step ctx next
      → Reaches start released next
  cleaned :
      {released : ℕ} {ctx : TimerCtx}
      → Reaches start released ctx
      → Reaches start
          (released + (length ctx.g_app_timers + length ctx.idle_timers))
          (cleanup_app_timers ctx)

start_timer-IsTimerCtx :
    (n k now : ℕ) (ctx : TimerCtx) (interval : ℕ) (is_period auto_start : Bool)
    → IsTimerCtx n (suc k) ctx
    → IsTimerCtx n k (start_timer now ctx interval is_period auto_start)
unfolding start_timer IsTimerCtx
start_timer-IsTimerCtx n k now ctx interval is_period true h =
    reschedule_timer-IsTimerCtx n k now (record ctx { g_max_id = next_id ctx.g_max_id }) _ h
start_timer-IsTimerCtx n k now ctx interval is_period false h =
    add_idle_timer-IsTimerCtx n k (record ctx { g_max_id = next_id ctx.g_max_id }) _ h

take_free-IsTimerCtx :
    (n k : ℕ) (ctx next : TimerCtx) (now interval : ℕ) (is_period auto_start : Bool)
    (free : List AppTimer)
    → ctx.free_timers ≡ free
    → elim free [
      | [] ↦ none
      | timer ∷ free_timers ↦
          some (
            start_timer now
              (record ctx { free_timers = free_timers })
              interval
              is_period
              auto_start)
    ]
      ≡ some next
    → IsTimerCtx n k ctx
    → IsTimerCtx n k next
unfolding IsTimerCtx
take_free-IsTimerCtx n k ctx next now interval is_period auto_start [] free e h =
    absurd (ground (arith, e))
take_free-IsTimerCtx n k ctx next now interval is_period auto_start (t ∷ rest) free e
      (order, (pre, count)) =
    let fewer = record ctx { free_timers = rest } in
    let same : start_timer now fewer interval is_period auto_start ≡ next = ground (arith, e) in
    let len = ap (λ l. length l) free in
    subst (IsTimerCtx n k) same (
      start_timer-IsTimerCtx n k now fewer interval is_period auto_start
        (order, (pre, omega (arith, len, count))))

sys_create_timer-IsTimerCtx :
    (n k : ℕ) (ctx next : TimerCtx) (allocated : Bool) (now interval : ℕ)
    (is_period auto_start : Bool)
    → sys_create_timer allocated now ctx interval is_period auto_start ≡ some next
    → IsTimerCtx n k ctx
    → IsTimerCtx n k next
unfolding sys_create_timer IsTimerCtx
sys_create_timer-IsTimerCtx n k ctx next allocated now interval is_period auto_start e
      (order, (pre, count)) =
    elim (Bool-cases (ctx.pre_allocated == 0)) [
      | inl without ↦ elim (Bool-cases allocated) [
        | inl room ↦
            let same : start_timer now ctx interval is_period auto_start ≡ next =
              ground (arith, without, room, e) in
            subst (IsTimerCtx n k) same (
              start_timer-IsTimerCtx n k now ctx interval is_period auto_start
                (order, (pre, inl (ground (arith, without, pre)))))
        | inr full ↦ absurd (ground (arith, without, full, e))
      ]
      | inr with_pool ↦
          take_free-IsTimerCtx n k ctx next now interval is_period auto_start ctx.free_timers refl
            (ground (arith, with_pool, e)) (order, (pre, count))
    ]

Step-IsTimerCtx :
    (n k : ℕ) (ctx next : TimerCtx) → Step ctx next → IsTimerCtx n k ctx → IsTimerCtx n k next
unfolding sys_timer_cancel sys_timer_destroy sys_timer_restart
Step-IsTimerCtx n k ctx next (create allocated now interval is_period auto_start e) h =
    sys_create_timer-IsTimerCtx n k ctx next allocated now interval is_period auto_start e h
Step-IsTimerCtx n k ctx next (cancel timer_id) h =
    let u = remove_timer ctx timer_id in
    answer-IsTimerCtx n k u.ctx u.timer u.active u.active (λ t. add_idle_timer u.ctx t)
      (λ t ok. add_idle_timer-IsTimerCtx n k u.ctx t ok)
      (remove_timer-IsUnlinked n k ctx timer_id h)
Step-IsTimerCtx n k ctx next (destroy timer_id) h =
    let u = remove_timer ctx timer_id in
    answer-IsTimerCtx n k u.ctx u.timer u.active true (λ t. release_timer u.ctx t)
      (λ t ok. release_timer-IsTimerCtx n k u.ctx t ok) (remove_timer-IsUnlinked n k ctx timer_id h)
Step-IsTimerCtx n k ctx next (restart now timer_id interval) h =
    let u = remove_timer ctx timer_id in
    answer-IsTimerCtx n k u.ctx u.timer u.active true
      (λ t.
        reschedule_timer now u.ctx (if ltb 0 interval then record t { interval = interval } else t))
      (λ t ok. reschedule_timer-IsTimerCtx n k now u.ctx _ ok)
      (remove_timer-IsUnlinked n k ctx timer_id h)
Step-IsTimerCtx n k ctx next (check clock) h = check_app_timers-IsTimerCtx n k clock ctx h

create_timer_ctx-IsTimerCtx : (n owner : ℕ) → IsTimerCtx n 0 (create_timer_ctx n owner)
unfolding create_timer_ctx IsTimerCtx Sorted
create_timer_ctx-IsTimerCtx n owner =
    (tt, (refl, inr (omega (arith, length-replicate n cleared_timer))))

cleanup_app_timers-IsTimerCtx :
    (n k : ℕ) (ctx : TimerCtx)
    → IsTimerCtx n k ctx
    → IsTimerCtx n (k + (length ctx.g_app_timers + length ctx.idle_timers)) (cleanup_app_timers ctx)
unfolding cleanup_app_timers IsTimerCtx Sorted
cleanup_app_timers-IsTimerCtx n k ctx (order, (pre, count)) = (tt, (pre, omega (arith, count)))

-- After any sequence of calls on a new context, clean-ups included, the active timers are in the order of
-- their expiry, and where timers have been allocated at the start, the active, the idle and the free
-- ones are as many as these, less those that the clean-ups have released.
pub Reaches-IsTimerCtx :
    (n owner released : ℕ) (ctx : TimerCtx)
    → Reaches (create_timer_ctx n owner) released ctx
    → IsTimerCtx n released ctx
Reaches-IsTimerCtx n owner released ctx stay = create_timer_ctx-IsTimerCtx n owner
Reaches-IsTimerCtx n owner released ctx (followed {ctx = before} path step) =
    Step-IsTimerCtx n released before ctx step (Reaches-IsTimerCtx n owner released before path)
Reaches-IsTimerCtx n owner _ _ (cleaned {released = k} {ctx = before} path) =
    cleanup_app_timers-IsTimerCtx n k before (Reaches-IsTimerCtx n owner k before path)
