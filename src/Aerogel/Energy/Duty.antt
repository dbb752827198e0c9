-- ===== src/Aerogel/Energy/Duty.antt =====
-- How many of a row of requests for energy within one window are denied.
use native.Mathlib.Nat.{div-eq_of_lt, add-div_right, div-mul-le_self, lt-div-mul-add}
use wasm_trustzone.Base.Pow.{mul-le_right}
use wasm_trustzone.Base.{
  ◌∙◌, sym, ℕ, suc, ◌+◌, ◌-◌, ◌*◌, ◌/◌, ◌%◌, ◌^◌, ◌≤◌, ◌<◌, ◌≡◌, ap, true, false, List, [], ◌∷◌,
  arith, ltb, if◌then◌else◌, Bool-cases, inl, inr, length,
}
use wasm_trustzone.Aerogel.{SensorActuatorInfo}
use wasm_trustzone.Aerogel.Energy.{charge}

-- Requests at the given times: how many are denied.
unfoldable pub denials : List ℕ → SensorActuatorInfo → ℕ
denials [] s = 0
denials (now ∷ times) s =
    let rest = denials times (charge now s).1 in if (charge now s).0 then suc rest else rest

-- Every time lies in the ten seconds after `timestamp`.
unfoldable pub InWindow : ℕ → List ℕ → Type 0
InWindow timestamp [] = Unit
InWindow timestamp (now ∷ times) =
    ((now + 2 ^ 32 - timestamp) % 2 ^ 32 ≤ 10000000) × InWindow timestamp times

wrap_around : (n j q : ℕ) → j ≡ q → suc ((n + 0) / (q + 1)) ≡ (suc n + j) / (q + 1)
wrap_around n j q all = omega (
  arith,
  add-div_right n {k = q + 1} (omega arith),
  ap (λ (t : ℕ). t / (q + 1)) {x = suc n + j} {y = n + (q + 1)} (omega arith),
  ap (λ (t : ℕ). t / (q + 1)) {x = n + 0} {y = n} (omega arith),
)

charge-granted :
    (now : ℕ) (s : SensorActuatorInfo)
    → (now + 2 ^ 32 - s.timestamp) % 2 ^ 32 ≤ 10000000
    → s.used_power + s.power ≤ s.allowed_power_consumption
    → s.used_power + s.power < 2 ^ 32
    → charge now s ≡ (false, record s { used_power = s.used_power + s.power })
unfolding charge
charge-granted now s w le fits = ground arith

charge-denied :
    (now : ℕ) (s : SensorActuatorInfo)
    → (now + 2 ^ 32 - s.timestamp) % 2 ^ 32 ≤ 10000000
    → s.allowed_power_consumption < s.used_power + s.power
    → s.used_power + s.power < 2 ^ 32
    → charge now s ≡ (true, record s { used_power = 0 })
unfolding charge
charge-denied now s w lt fits = ground arith

-- From an account that has been charged j times, of the q times that it allows.
denials-from :
    (times : List ℕ) (s : SensorActuatorInfo) (j q : ℕ)
    → InWindow s.timestamp times
    → q * s.power ≤ s.allowed_power_consumption
    → s.allowed_power_consumption < q * s.power + s.power
    → s.allowed_power_consumption + s.power < 2 ^ 32
    → j ≤ q
    → s.used_power ≡ j * s.power
    → denials times s ≡ (length times + j) / (q + 1)
unfolding denials InWindow
denials-from [] s j q w low high fits le used = sym (div-eq_of_lt (omega arith))
denials-from (now ∷ times) s j q (w, ws) low high fits le used = elim (Bool-cases (ltb j q)) [
  | inl more ↦
      let below : s.used_power + s.power ≤ q * s.power =
        omega (arith, used, mul-le_right {a = j + 1} {b = q} (ground arith) s.power) in
      rw (charge-granted now s w (omega arith) (omega arith)) (
        denials-from times (record s { used_power = s.used_power + s.power }) (j + 1) q ws low high
          fits (ground arith) (omega arith)
        ∙ ap (λ (t : ℕ). t / (q + 1)) (omega arith))
  | inr last ↦
      let all : j ≡ q = ground arith in
      let same : s.used_power ≡ q * s.power = used ∙ ap (λ (t : ℕ). t * s.power) all in
      rw (charge-denied now s w (omega arith) (omega arith)) (
        ap suc (
          denials-from times (record s { used_power = 0 }) 0 q ws low high fits (omega arith)
            (omega arith))
        ∙ wrap_around (length times) j q all)
]

-- Of n requests within one window, to an account that is empty at first, of positive power and with an
-- allowance that leaves room for one more charge in 32 bits, n / (q + 1) are denied, where q is the
-- number of charges that the allowance covers: a denial empties the account.
pub denials-div :
    (times : List ℕ) (s : SensorActuatorInfo)
    → InWindow s.timestamp times
    → 0 < s.power
    → s.allowed_power_consumption + s.power < 2 ^ 32
    → s.used_power ≡ 0
    → denials times s ≡ length times / (s.allowed_power_consumption / s.power + 1)
denials-div times s w pos fits empty =
    let q = s.allowed_power_consumption / s.power in
    denials-from times s 0 q w (div-mul-le_self s.allowed_power_consumption s.power)
      (lt-div-mul-add pos) fits (omega arith) (omega arith)
    ∙ ap (λ (t : ℕ). t / (q + 1)) (omega arith)
