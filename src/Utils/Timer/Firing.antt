-- ===== src/Utils/Timer/Firing.antt =====
-- Which timers a check fires, and how time is measured.
use wasm_trustzone.Base.{
  ℕ, ◌+◌, ◌%◌, ◌^◌, ◌≤◌, ◌<◌, ◌≡◌, refl, ap, ◌∙◌, List, [], ◌∷◌, arith, ltb, leb, if◌then◌else◌,
  Bool-cases, inl, inr, map,
}
use wasm_trustzone.Utils.Timer.{
  AppTimer, TimerCtx, Expired, take_expired, handle_expired_timers, check_app_timers,
  bh_get_elpased_ms,
}
use wasm_trustzone.Utils.Timer.Order.{From, Sorted}

-- The timers that expire at the time or before, and the others.
unfoldable pub due : ℕ → List AppTimer → List AppTimer
due now [] = []
due now (t ∷ timers) = let rest = due now timers in if leb t.expiry now then t ∷ rest else rest

unfoldable pub pending : ℕ → List AppTimer → List AppTimer
pending now [] = []
pending now (t ∷ timers) =
    let rest = pending now timers in if leb t.expiry now then rest else t ∷ rest

unfoldable pub reverse_onto : List AppTimer → List AppTimer → List AppTimer
reverse_onto [] later = later
reverse_onto (t ∷ timers) later = reverse_onto timers (t ∷ later)

due-From : (now n : ℕ) (timers : List AppTimer) → now < n → From n timers → due now timers ≡ []
unfolding due From
due-From now n [] h k = refl
due-From now n (t ∷ timers) h (k, ks) =
    let rest = due-From now n timers h ks in ground (arith, rest)

pending-From :
    (now n : ℕ) (timers : List AppTimer) → now < n → From n timers → pending now timers ≡ timers
unfolding pending From
pending-From now n [] h k = refl
pending-From now n (t ∷ timers) h (k, ks) =
    let rest = pending-From now n timers h ks in ground (arith, rest)

take_expired-due :
    (now : ℕ) (timers expired : List AppTimer)
    → Sorted timers
    → take_expired now timers expired
      ≡ record { expired = reverse_onto (due now timers) expired; rest = pending now timers }
unfolding take_expired due pending reverse_onto Sorted
take_expired-due now [] expired h = refl
take_expired-due now (t ∷ timers) expired (h, hs) = elim (Bool-cases (leb t.expiry now)) [
  | inl passed ↦ rw passed (take_expired-due now timers (t ∷ expired) hs)
  | inr later ↦
      let none_due = due-From now t.expiry timers (ground (arith, later)) h in
      let all_pending = pending-From now t.expiry timers (ground (arith, later)) h in
      rw (later, none_due, all_pending) refl
]

handle_expired_timers-fired :
    (clock : ℕ → ℕ) (i : ℕ) (ctx : TimerCtx) (expired : List AppTimer)
    → (handle_expired_timers clock i ctx expired).fired ≡ map (λ t. t.id) expired
unfolding handle_expired_timers
handle_expired_timers-fired clock i ctx [] = refl
handle_expired_timers-fired clock i ctx (t ∷ expired) =
    ap (λ ids. t.id ∷ ids) (handle_expired_timers-fired clock (i + 1) _ expired)

-- A check of timers that are in order fires every timer that is due at its reading of the clock, once,
-- and no other, the one that expired last first.
pub check_app_timers-due :
    (clock : ℕ → ℕ) (ctx : TimerCtx)
    → Sorted ctx.g_app_timers
    → (check_app_timers clock ctx).fired
      ≡ map (λ t. t.id) (reverse_onto (due (clock 0) ctx.g_app_timers) [])
unfolding check_app_timers
check_app_timers-due clock ctx h =
    handle_expired_timers-fired clock 1 _ (take_expired (clock 0) ctx.g_app_timers []).expired
    ∙ ap (λ (s : Expired). map (λ t. t.id) s.expired)
        (take_expired-due (clock 0) ctx.g_app_timers [] h)

-- The time that has passed is measured modulo 2^32 milliseconds.
pub bh_get_elpased_ms-mod :
    (tick_ms last passed : ℕ)
    → last < 2 ^ 32
    → tick_ms % 2 ^ 32 ≡ (last + passed) % 2 ^ 32
    → (bh_get_elpased_ms tick_ms last).elpased_ms ≡ passed % 2 ^ 32
unfolding bh_get_elpased_ms
bh_get_elpased_ms-mod tick_ms last passed h e = elim (Bool-cases (ltb (tick_ms % 2 ^ 32) last)) [
  | inl before ↦
      let less : tick_ms % 2 ^ 32 < last = ground (arith, before) in rw before (omega arith)
  | inr after ↦ let more : last ≤ tick_ms % 2 ^ 32 = ground (arith, after) in rw after (omega arith)
]
