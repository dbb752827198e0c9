-- ===== src/Utils/Timer/Order.antt =====
-- The active timers are in the order of their expiry.
use wasm_trustzone.Base.{
  ℕ, suc, ◌≤◌, ◌≡◌, ◌∙◌, ap, subst, List, [], ◌∷◌, some, arith, ltb, ◌==◌, Bool-cases, if-both,
  Option-cases, inl, inr, length,
}
use wasm_trustzone.Utils.Timer.{AppTimer, Removed, behind, find_timer, insert_timer}

-- Every timer expires at the time named or later.
unfoldable pub From : ℕ → List AppTimer → Type 0
From n [] = Unit
From n (t ∷ timers) = (n ≤ t.expiry) × From n timers

unfoldable pub Sorted : List AppTimer → Type 0
Sorted [] = Unit
Sorted (t ∷ timers) = From t.expiry timers × Sorted timers

From-le : (m n : ℕ) (timers : List AppTimer) → m ≤ n → From n timers → From m timers
unfolding From
From-le m n [] h k = tt
From-le m n (t ∷ timers) h (k, ks) = (omega arith, From-le m n timers h ks)

insert_timer-From :
    (n : ℕ) (timer : AppTimer) (timers : List AppTimer)
    → n ≤ timer.expiry
    → From n timers
    → From n (insert_timer timer timers)
unfolding From insert_timer
insert_timer-From n timer [] h k = (h, tt)
insert_timer-From n timer (t ∷ timers) h (k, ks) =
    if-both (From n) (ltb timer.expiry t.expiry) (h, (k, ks))
      (k, insert_timer-From n timer timers h ks)

pub insert_timer-Sorted :
    (timer : AppTimer) (timers : List AppTimer) → Sorted timers → Sorted (insert_timer timer timers)
unfolding Sorted insert_timer From
insert_timer-Sorted timer [] h = (tt, tt)
insert_timer-Sorted timer (t ∷ timers) (h, hs) = elim (Bool-cases (ltb timer.expiry t.expiry)) [
  | inl before ↦ rw before (
    (ground (arith, before), From-le timer.expiry t.expiry timers (ground (arith, before)) h),
    (h, hs),
  )
  | inr after ↦ rw after (
    insert_timer-From t.expiry timer timers (ground (arith, after)) h,
    insert_timer-Sorted timer timers hs,
  )
]

-- What a removal leaves.
find_timer-From :
    (n timer_id : ℕ) (timers : List AppTimer) (r : Removed)
    → find_timer timer_id timers ≡ some r
    → From n timers
    → From n r.rest
unfolding find_timer behind From
find_timer-From n timer_id [] r e h = absurd (ground (arith, e))
find_timer-From n timer_id (t ∷ timers) r e (h, hs) = elim (Bool-cases (t.id == timer_id)) [
  | inl same ↦ let rest : timers ≡ r.rest = ground (arith, same, e) in subst (From n) rest hs
  | inr other ↦ elim (Option-cases (find_timer timer_id timers)) [
    | inl gone ↦ absurd (ground (arith, other, gone, e))
    | inr (s, later) ↦
        let rest : t ∷ s.rest ≡ r.rest = ground (arith, other, later, e) in
        subst (From n) rest (h, find_timer-From n timer_id timers s later hs)
  ]
]

pub find_timer-Sorted :
    (timer_id : ℕ) (timers : List AppTimer) (r : Removed)
    → find_timer timer_id timers ≡ some r
    → Sorted timers
    → Sorted r.rest
unfolding find_timer behind Sorted
find_timer-Sorted timer_id [] r e h = absurd (ground (arith, e))
find_timer-Sorted timer_id (t ∷ timers) r e (h, hs) = elim (Bool-cases (t.id == timer_id)) [
  | inl same ↦ let rest : timers ≡ r.rest = ground (arith, same, e) in subst Sorted rest hs
  | inr other ↦ elim (Option-cases (find_timer timer_id timers)) [
    | inl gone ↦ absurd (ground (arith, other, gone, e))
    | inr (s, later) ↦
        let rest : t ∷ s.rest ≡ r.rest = ground (arith, other, later, e) in
        subst Sorted rest (
          find_timer-From t.expiry timer_id timers s later h,
          find_timer-Sorted timer_id timers s later hs,
        )
  ]
]

pub find_timer-length :
    (timer_id : ℕ) (timers : List AppTimer) (r : Removed)
    → find_timer timer_id timers ≡ some r
    → suc (length r.rest) ≡ length timers
unfolding find_timer behind
find_timer-length timer_id [] r e = absurd (ground (arith, e))
find_timer-length timer_id (t ∷ timers) r e = elim (Bool-cases (t.id == timer_id)) [
  | inl same ↦ let rest : r.rest ≡ timers = ground (arith, same, e) in ap (λ l. suc (length l)) rest
  | inr other ↦ elim (Option-cases (find_timer timer_id timers)) [
    | inl gone ↦ absurd (ground (arith, other, gone, e))
    | inr (s, later) ↦
        let rest : r.rest ≡ t ∷ s.rest = ground (arith, other, later, e) in
        ap (λ l. suc (length l)) rest ∙ ap suc (find_timer-length timer_id timers s later)
  ]
]
