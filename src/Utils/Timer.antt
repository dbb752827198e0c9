-- ===== src/Utils/Timer.antt =====
-- core/shared/utils/runtime_timer.c: the timers of an application. The callbacks and the clock are
-- outside: `refreshes` counts the calls of `refresh_checker`, the calls of `timer_callback` are
-- listed, and a reading of the clock, in milliseconds, is an argument. Milliseconds are below 2^63.
pub mod Order
pub mod Firing
pub mod Kept
pub mod Steps
mod Tests
use wasm_trustzone.Base.{
  ℕ, zero, suc, ◌+◌, ◌-◌, ◌*◌, ◌%◌, ◌^◌, Bool, true, false, List, [], ◌∷◌, Option, none, some, ltb,
  leb, ◌==◌, if◌then◌else◌, map, length, replicate,
}

pub record AppTimer : Type 0 where
  pub id : ℕ
  pub interval : ℕ
  pub expiry : ℕ
  pub is_periodic : Bool

pub record TimerCtx : Type 0 where
  pub g_app_timers : List AppTimer
  pub idle_timers : List AppTimer
  pub free_timers : List AppTimer
  pub g_max_id : ℕ
  pub pre_allocated : ℕ
  pub owner : ℕ
  pub refreshes : ℕ

-- The new clock, and the time that has passed on it.
pub record Elapsed : Type 0 where
  pub last_system_clock : ℕ
  pub elpased_ms : ℕ

unfoldable pub bh_get_elpased_ms : ℕ → ℕ → Elapsed
bh_get_elpased_ms tick_ms last_system_clock =
    let now = tick_ms % 2 ^ 32 in
    let elpased_ms =
      if ltb now last_system_clock
      then (now + (0xffffffff - last_system_clock) + 1) % 2 ^ 32
      else now - last_system_clock in
    record { last_system_clock = now; elpased_ms = elpased_ms }

-- The first timer with the id, and the list without it.
pub record Removed : Type 0 where
  pub timer : AppTimer
  pub rest : List AppTimer
  pub at_head : Bool

unfoldable pub behind : AppTimer → Option Removed → Option Removed
behind t none = none
behind t (some r) = some (record { timer = r.timer; rest = t ∷ r.rest; at_head = false })

unfoldable pub find_timer : ℕ → List AppTimer → Option Removed
find_timer timer_id [] = none
find_timer timer_id (t ∷ timers) =
    let later = find_timer timer_id timers in
    if t.id == timer_id
    then some (record { timer = t; rest = timers; at_head = true })
    else behind t later

unfoldable pub refresh : Bool → TimerCtx → TimerCtx
refresh at_head ctx = if at_head then record ctx { refreshes = ctx.refreshes + 1 } else ctx

-- The context, and the timer where one has been removed.
pub record Unlinked : Type 0 where
  pub ctx : TimerCtx
  pub timer : Option AppTimer
  pub active : Bool

unfoldable pub unlink_active : TimerCtx → Option Removed → Unlinked
unlink_active ctx none = record { ctx = ctx; timer = none; active = true }
unlink_active ctx (some r) = record {
  ctx = refresh r.at_head (record ctx { g_app_timers = r.rest });
  timer = some r.timer;
  active = true;
}

unfoldable pub unlink_idle : TimerCtx → Option Removed → Unlinked
unlink_idle ctx none = record { ctx = ctx; timer = none; active = false }
unlink_idle ctx (some r) = record {
  ctx = record ctx { idle_timers = r.rest };
  timer = some r.timer;
  active = false;
}

unfoldable pub remove_timer_from : TimerCtx → ℕ → Bool → Unlinked
remove_timer_from ctx timer_id true = unlink_active ctx (find_timer timer_id ctx.g_app_timers)
remove_timer_from ctx timer_id false = unlink_idle ctx (find_timer timer_id ctx.idle_timers)

unfoldable pub remove_timer : TimerCtx → ℕ → Unlinked
remove_timer ctx timer_id = elim (remove_timer_from ctx timer_id true).timer [
  | none ↦ remove_timer_from ctx timer_id false
  | some t ↦ remove_timer_from ctx timer_id true
]

-- Before the first timer that expires later.
unfoldable pub insert_timer : AppTimer → List AppTimer → List AppTimer
insert_timer timer [] = timer ∷ []
insert_timer timer (t ∷ timers) =
    let rest = insert_timer timer timers in
    if ltb timer.expiry t.expiry then timer ∷ t ∷ timers else t ∷ rest

unfoldable pub becomes_head : AppTimer → List AppTimer → Bool
becomes_head timer [] = true
becomes_head timer (t ∷ timers) = ltb timer.expiry t.expiry

unfoldable pub reschedule_timer : ℕ → TimerCtx → AppTimer → TimerCtx
reschedule_timer now ctx timer =
    let started = record timer { expiry = (now + timer.interval) % 2 ^ 64 } in
    refresh (becomes_head started ctx.g_app_timers)
      (record ctx { g_app_timers = insert_timer started ctx.g_app_timers })

unfoldable pub release_timer : TimerCtx → AppTimer → TimerCtx
release_timer ctx t =
    if ctx.pre_allocated == 0 then ctx else record ctx { free_timers = t ∷ ctx.free_timers }

unfoldable pub add_idle_timer : TimerCtx → AppTimer → TimerCtx
add_idle_timer ctx timer = record ctx { idle_timers = timer ∷ ctx.idle_timers }

abbrev cleared_timer : AppTimer
cleared_timer = record { id = 0; interval = 0; expiry = 0; is_periodic = false }

-- Where every timer can be allocated.
unfoldable pub create_timer_ctx : ℕ → ℕ → TimerCtx
create_timer_ctx prealloc_num owner = record {
  g_app_timers = [];
  idle_timers = [];
  free_timers = replicate prealloc_num cleared_timer;
  g_max_id = 0;
  pre_allocated = prealloc_num;
  owner = owner;
  refreshes = 0;
}

unfoldable pub next_id : ℕ → ℕ
next_id g_max_id =
    let id = (g_max_id + 1) % 2 ^ 32 in if id == 0xffffffff then (id + 1) % 2 ^ 32 else id

-- A new timer in the context that its storage has been taken from.
unfoldable pub start_timer : ℕ → TimerCtx → ℕ → Bool → Bool → TimerCtx
start_timer now ctx interval is_period auto_start =
    let id = next_id ctx.g_max_id in
    let numbered = record ctx { g_max_id = id } in
    let timer : AppTimer = record {
      id = id;
      interval = interval % 2 ^ 32;
      expiry = 0;
      is_periodic = is_period;
    } in
    if auto_start then reschedule_timer now numbered timer else add_idle_timer numbered timer

-- `allocated` says whether there is room where nothing is preallocated; the id is `g_max_id` of the
-- new context, and `none` is -1.
unfoldable pub sys_create_timer : Bool → ℕ → TimerCtx → ℕ → Bool → Bool → Option TimerCtx
sys_create_timer allocated now ctx interval is_period auto_start =
    if ctx.pre_allocated == 0
    then (if allocated then some (start_timer now ctx interval is_period auto_start) else none)
    else elim ctx.free_timers [
      | [] ↦ none
      | timer ∷ free_timers ↦
          some (
            start_timer now (record ctx { free_timers = free_timers }) interval is_period
              auto_start)
    ]

-- The context, and the result.
pub record Answer : Type 0 where
  pub ctx : TimerCtx
  pub result : Bool

-- `if (t == NULL) return false;`, and what is done with the timer.
unfoldable pub answer : TimerCtx → Option AppTimer → Bool → (AppTimer → TimerCtx) → Answer
answer ctx none result with_timer = record { ctx = ctx; result = false }
answer ctx (some t) result with_timer = record { ctx = with_timer t; result = result }

unfoldable pub sys_timer_cancel : TimerCtx → ℕ → Answer
sys_timer_cancel ctx timer_id =
    let unlinked = remove_timer ctx timer_id in
    answer unlinked.ctx unlinked.timer unlinked.active (λ t. add_idle_timer unlinked.ctx t)

unfoldable pub sys_timer_destroy : TimerCtx → ℕ → Answer
sys_timer_destroy ctx timer_id =
    let unlinked = remove_timer ctx timer_id in
    answer unlinked.ctx unlinked.timer true (λ t. release_timer unlinked.ctx t)

-- An interval of 0 stands for one that is not positive.
unfoldable pub sys_timer_restart : ℕ → TimerCtx → ℕ → ℕ → Answer
sys_timer_restart now ctx timer_id interval =
    let unlinked = remove_timer ctx timer_id in
    answer unlinked.ctx unlinked.timer true (λ t.
      reschedule_timer now unlinked.ctx
        (if ltb 0 interval then record t { interval = interval } else t))

-- The timers that have expired, the last of them first, and those that have not.
pub record Expired : Type 0 where
  pub expired : List AppTimer
  pub rest : List AppTimer

unfoldable pub take_expired : ℕ → List AppTimer → List AppTimer → Expired
take_expired now [] expired = record { expired = expired; rest = [] }
take_expired now (t ∷ timers) expired =
    let more = take_expired now timers (t ∷ expired) in
    if leb t.expiry now then more else record { expired = expired; rest = t ∷ timers }

-- The context, and the ids that `timer_callback` is called with, in this order.
pub record Handled : Type 0 where
  pub ctx : TimerCtx
  pub fired : List ℕ

-- `clock` gives the readings of the clock; the one at `i` is taken where the next timer is periodic.
unfoldable pub handle_expired_timers : (ℕ → ℕ) → ℕ → TimerCtx → List AppTimer → Handled
handle_expired_timers clock i ctx [] = record { ctx = ctx; fired = [] }
handle_expired_timers clock i ctx (t ∷ expired) =
    let rest =
      handle_expired_timers clock (i + 1)
        (if t.is_periodic then reschedule_timer (clock i) ctx t else add_idle_timer ctx t)
        expired in
    record { ctx = rest.ctx; fired = t.id ∷ rest.fired }

unfoldable pub get_expiry_ms : ℕ → TimerCtx → ℕ
get_expiry_ms now ctx = elim ctx.g_app_timers [
  | [] ↦ 7 * 24 * 60 * 60 * 1000
  | t ∷ timers ↦ if leb now t.expiry then (t.expiry - now) % 2 ^ 32 else 0
]

-- The context, the calls of `timer_callback`, and the time to the next expiry.
pub record Checked : Type 0 where
  pub ctx : TimerCtx
  pub fired : List ℕ
  pub ms_to_next_expiry : ℕ

unfoldable pub check_app_timers : (ℕ → ℕ) → TimerCtx → Checked
check_app_timers clock ctx =
    let split = take_expired (clock 0) ctx.g_app_timers [] in
    let handled =
      handle_expired_timers clock 1 (record ctx { g_app_timers = split.rest }) split.expired in
    record {
      ctx = handled.ctx;
      fired = handled.fired;
      ms_to_next_expiry = get_expiry_ms (clock (length split.expired + 1)) handled.ctx;
    }

unfoldable pub cleanup_app_timers : TimerCtx → TimerCtx
cleanup_app_timers ctx = record ctx { g_app_timers = []; idle_timers = [] }
