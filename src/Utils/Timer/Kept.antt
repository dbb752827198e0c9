-- ===== src/Utils/Timer/Kept.antt =====
-- What each operation on timers keeps.
use wasm_trustzone.Base.{
  ℕ, suc, ◌+◌, ◌%◌, ◌^◌, ◌≡◌, ◌⊎◌, refl, Bool, true, false, List, [], ◌∷◌, Option, none, some,
  arith, leb, ◌==◌, if◌then◌else◌, Bool-cases, if-both, Option-cases, inl, inr, length,
}
use wasm_trustzone.Utils.Timer.{
  AppTimer, TimerCtx, find_timer, refresh, Unlinked, unlink_active, unlink_idle, answer,
  remove_timer_from, remove_timer, insert_timer, becomes_head, reschedule_timer, release_timer,
  add_idle_timer, take_expired, handle_expired_timers, check_app_timers,
}
use wasm_trustzone.Utils.Timer.Order.{
  Sorted, insert_timer-Sorted, find_timer-Sorted, find_timer-length,
}

-- Of a context with `n` timers allocated at its start, `k` of which are in no list: the active ones
-- are in order, and where `n` is not 0 no other is missing.
unfoldable pub IsTimerCtx : ℕ → ℕ → TimerCtx → Type 0
IsTimerCtx n k ctx =
    Sorted ctx.g_app_timers
    × ((ctx.pre_allocated ≡ n)
        × ((n ≡ 0)
            ⊎ (length ctx.g_app_timers + length ctx.idle_timers + length ctx.free_timers + k ≡ n)))

refresh-IsTimerCtx :
    (n k : ℕ) (at_head : Bool) (ctx : TimerCtx)
    → IsTimerCtx n k ctx
    → IsTimerCtx n k (refresh at_head ctx)
unfolding refresh IsTimerCtx
refresh-IsTimerCtx n k true ctx h = h
refresh-IsTimerCtx n k false ctx h = h

insert_timer-length :
    (timer : AppTimer) (timers : List AppTimer)
    → length (insert_timer timer timers) ≡ suc (length timers)
unfolding insert_timer
insert_timer-length timer [] = refl
insert_timer-length timer (t ∷ timers) =
    let more = insert_timer-length timer timers in ground (arith, more)

pub reschedule_timer-IsTimerCtx :
    (n k now : ℕ) (ctx : TimerCtx) (timer : AppTimer)
    → IsTimerCtx n (suc k) ctx
    → IsTimerCtx n k (reschedule_timer now ctx timer)
unfolding reschedule_timer IsTimerCtx
reschedule_timer-IsTimerCtx n k now ctx timer (order, (pre, count)) =
    let started = record timer { expiry = (now + timer.interval) % 2 ^ 64 } in
    let more = insert_timer-length started ctx.g_app_timers in
    refresh-IsTimerCtx n k (becomes_head started ctx.g_app_timers)
      (record ctx { g_app_timers = insert_timer started ctx.g_app_timers })
      (insert_timer-Sorted started ctx.g_app_timers order, (pre, omega (arith, more, count)))

pub add_idle_timer-IsTimerCtx :
    (n k : ℕ) (ctx : TimerCtx) (timer : AppTimer)
    → IsTimerCtx n (suc k) ctx
    → IsTimerCtx n k (add_idle_timer ctx timer)
unfolding add_idle_timer IsTimerCtx
add_idle_timer-IsTimerCtx n k ctx timer (order, (pre, count)) = (order, (pre, omega (arith, count)))

pub release_timer-IsTimerCtx :
    (n k : ℕ) (ctx : TimerCtx) (timer : AppTimer)
    → IsTimerCtx n (suc k) ctx
    → IsTimerCtx n k (release_timer ctx timer)
unfolding release_timer IsTimerCtx
release_timer-IsTimerCtx n k ctx timer (order, (pre, count)) =
    elim (Bool-cases (ctx.pre_allocated == 0)) [
      | inl e ↦ rw e (order, (pre, inl (ground (arith, e, pre))))
      | inr e ↦ rw e (order, (pre, omega (arith, count)))
    ]

-- Of a removal: the timer, where there is one, is in no list.
unfoldable pub IsUnlinked : ℕ → ℕ → Unlinked → Type 0
IsUnlinked n k u = elim u.timer [
  | none ↦ IsTimerCtx n k u.ctx
  | some t ↦ IsTimerCtx n (suc k) u.ctx
]

remove_timer_from-IsUnlinked :
    (n k : ℕ) (ctx : TimerCtx) (timer_id : ℕ) (active : Bool)
    → IsTimerCtx n k ctx
    → IsUnlinked n k (remove_timer_from ctx timer_id active)
unfolding remove_timer_from unlink_active unlink_idle IsUnlinked IsTimerCtx
remove_timer_from-IsUnlinked n k ctx timer_id true (order, (pre, count)) =
    elim (Option-cases (find_timer timer_id ctx.g_app_timers)) [
      | inl e ↦ rw e (order, (pre, count))
      | inr (r, e) ↦
          let fewer = find_timer-length timer_id ctx.g_app_timers r e in
          rw e (
            refresh-IsTimerCtx n (suc k) r.at_head (record ctx { g_app_timers = r.rest })
              (
                find_timer-Sorted timer_id ctx.g_app_timers r e order,
                (pre, omega (arith, fewer, count)),
              ))
    ]
remove_timer_from-IsUnlinked n k ctx timer_id false (order, (pre, count)) =
    elim (Option-cases (find_timer timer_id ctx.idle_timers)) [
      | inl e ↦ rw e (order, (pre, count))
      | inr (r, e) ↦
          let fewer = find_timer-length timer_id ctx.idle_timers r e in
          rw e (order, (pre, omega (arith, fewer, count)))
    ]

pub remove_timer-IsUnlinked :
    (n k : ℕ) (ctx : TimerCtx) (timer_id : ℕ)
    → IsTimerCtx n k ctx
    → IsUnlinked n k (remove_timer ctx timer_id)
unfolding remove_timer
remove_timer-IsUnlinked n k ctx timer_id ok =
    let active = remove_timer_from-IsUnlinked n k ctx timer_id true ok in
    let idle = remove_timer_from-IsUnlinked n k ctx timer_id false ok in
    elim (Option-cases (remove_timer_from ctx timer_id true).timer) [
      | inl e ↦ rw (e, remove_timer) idle
      | inr (t, e) ↦ rw (e, remove_timer) active
    ]

pub answer-IsTimerCtx :
    (n k : ℕ) (ctx : TimerCtx) (timer : Option AppTimer) (active result : Bool)
    (with_timer : AppTimer → TimerCtx)
    → ((t : AppTimer) → IsTimerCtx n (suc k) ctx → IsTimerCtx n k (with_timer t))
    → IsUnlinked n k (record { ctx = ctx; timer = timer; active = active })
    → IsTimerCtx n k (answer ctx timer result with_timer).ctx
unfolding answer IsUnlinked
answer-IsTimerCtx n k ctx none active result with_timer h ok = ok
answer-IsTimerCtx n k ctx (some t) active result with_timer h ok = h t ok

-- k timers and those of a list that is not part of the context.
unfoldable held : ℕ → List AppTimer → ℕ
held k [] = k
held k (t ∷ timers) = suc (held k timers)

take_expired-IsTimerCtx :
    (n k now : ℕ) (ctx : TimerCtx) (timers expired : List AppTimer)
    → IsTimerCtx n (held k expired) (record ctx { g_app_timers = timers })
    → IsTimerCtx n
        (held k (take_expired now timers expired).expired)
        (record ctx { g_app_timers = (take_expired now timers expired).rest })
unfolding take_expired IsTimerCtx Sorted held
take_expired-IsTimerCtx n k now ctx [] expired h = h
take_expired-IsTimerCtx n k now ctx (t ∷ timers) expired ((first, order), (pre, count)) =
    elim (Bool-cases (leb t.expiry now)) [
      | inl due ↦ rw due (
          take_expired-IsTimerCtx n k now ctx timers (t ∷ expired)
            (order, (pre, omega (arith, count))))
      | inr later ↦ rw later ((first, order), (pre, count))
    ]

handle_expired_timers-IsTimerCtx :
    (n k : ℕ) (clock : ℕ → ℕ) (i : ℕ) (ctx : TimerCtx) (expired : List AppTimer)
    → IsTimerCtx n (held k expired) ctx
    → IsTimerCtx n k (handle_expired_timers clock i ctx expired).ctx
unfolding handle_expired_timers held
handle_expired_timers-IsTimerCtx n k clock i ctx [] h = h
handle_expired_timers-IsTimerCtx n k clock i ctx (t ∷ expired) h =
    handle_expired_timers-IsTimerCtx n k clock (i + 1)
      (if t.is_periodic then reschedule_timer (clock i) ctx t else add_idle_timer ctx t) expired
      (if-both (IsTimerCtx n (held k expired)) t.is_periodic
        (reschedule_timer-IsTimerCtx n (held k expired) (clock i) ctx t h)
        (add_idle_timer-IsTimerCtx n (held k expired) ctx t h))

pub check_app_timers-IsTimerCtx :
    (n k : ℕ) (clock : ℕ → ℕ) (ctx : TimerCtx)
    → IsTimerCtx n k ctx
    → IsTimerCtx n k (check_app_timers clock ctx).ctx
unfolding check_app_timers held
check_app_timers-IsTimerCtx n k clock ctx h =
    let split = take_expired (clock 0) ctx.g_app_timers [] in
    handle_expired_timers-IsTimerCtx n k clock 1 (record ctx { g_app_timers = split.rest })
      split.expired (take_expired-IsTimerCtx n k (clock 0) ctx ctx.g_app_timers [] h)
