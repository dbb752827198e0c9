-- ===== src/Aerogel/Concurrency.antt =====
-- `check_access_concurrency` of core/iwasm/interpreter/wasm_runtime.c: the counters of
-- `sensor_actuator_concurrent_access`, one for each name of the mapping.
use wasm_trustzone.Base.{
  ℕ, zero, suc, ◌+◌, ◌-◌, ◌%◌, ◌^◌, ◌≤◌, ◌<◌, ◌≡◌, refl, Bool, true, false, List, [], ◌∷◌, arith,
  ltb, min, if◌then◌else◌, Bool-cases, inl, inr,
}
use wasm_trustzone.Aerogel.{Text, sensor_index_mapping}
use wasm_trustzone.Aerogel.CString.{contains}

-- The loop over the mapping and the counters, which are as many as the names of the mapping (a shorter
-- array does not occur): denied or not, and the counters after.
pub take_slot : List Text → List ℕ → Text → ℕ → Bool × List ℕ
take_slot [] counters name max_concurrent = (true, counters)
take_slot (s ∷ mapping) [] name max_concurrent = (true, [])
take_slot (s ∷ mapping) (c ∷ counters) name max_concurrent =
    let rest = take_slot mapping counters name max_concurrent in
    if contains s name
    then (if ltb c max_concurrent
        then (false, (c + 1) % 2 ^ 32 ∷ counters)
        else (true, c ∷ counters))
    else (rest.0, c ∷ rest.1)

unfoldable pub check_access_concurrency : List ℕ → Text → ℕ → Bool × List ℕ
check_access_concurrency counters sensor_name max_concurrent =
    take_slot sensor_index_mapping counters sensor_name max_concurrent

-- The counter that a name uses.
unfoldable pub slot : List Text → List ℕ → Text → ℕ
slot [] counters name = 0
slot (s ∷ mapping) [] name = 0
slot (s ∷ mapping) (c ∷ counters) name =
    let rest = slot mapping counters name in if contains s name then c else rest

-- The number of n accesses in a row, with any others left out, that are granted.
unfoldable pub grants : ℕ → List ℕ → Text → ℕ → ℕ
grants zero counters name max_concurrent = 0
grants (suc n) counters name max_concurrent =
    let access = check_access_concurrency counters name max_concurrent in
    let rest = grants n access.1 name max_concurrent in if access.0 then rest else suc rest

-- The name stands in the mapping, at a counter.
unfoldable pub HasSlot : List Text → List ℕ → Text → Type 0
HasSlot [] counters name = ⊥
HasSlot (s ∷ mapping) [] name = ⊥
HasSlot (s ∷ mapping) (c ∷ counters) name =
    if contains s name then Unit else HasSlot mapping counters name

-- Counters that never go down.
unfoldable pub Grown : List ℕ → List ℕ → Type 0
Grown [] [] = Unit
Grown [] (d ∷ ds) = ⊥
Grown (c ∷ cs) [] = ⊥
Grown (c ∷ cs) (d ∷ ds) = (c ≤ d) × Grown cs ds

pub Grown-refl : (cs : List ℕ) → Grown cs cs
unfolding Grown
Grown-refl [] = tt
Grown-refl (c ∷ cs) = (omega arith, Grown-refl cs)

pub Grown-trans : (xs ys zs : List ℕ) → Grown xs ys → Grown ys zs → Grown xs zs
unfolding Grown
Grown-trans [] [] zs h k = k
Grown-trans [] (y ∷ ys) zs h k = absurd h
Grown-trans (x ∷ xs) [] zs h k = absurd h
Grown-trans (x ∷ xs) (y ∷ ys) [] h k = absurd k
Grown-trans (x ∷ xs) (y ∷ ys) (z ∷ zs) (h, hs) (k, ks) = (omega arith, Grown-trans xs ys zs hs ks)

take_slot-granted :
    (mapping : List Text) (counters : List ℕ) (name : Text) (max_concurrent : ℕ)
    → max_concurrent < 2 ^ 32
    → HasSlot mapping counters name
    → slot mapping counters name < max_concurrent
    → ((take_slot mapping counters name max_concurrent).0 ≡ false)
      × (slot mapping (take_slot mapping counters name max_concurrent).1 name
          ≡ slot mapping counters name + 1)
      × HasSlot mapping (take_slot mapping counters name max_concurrent).1 name
unfolding take_slot slot HasSlot
take_slot-granted [] counters name m small h less = absurd h
take_slot-granted (s ∷ mapping) [] name m small h less = absurd h
take_slot-granted (s ∷ mapping) (c ∷ counters) name m small h less =
    elim (Bool-cases (contains s name)) [
      | inl found ↦ ground (arith, found)
      | inr other ↦ ground (arith, other, take_slot-granted mapping counters name m small)
    ]

take_slot-denied :
    (mapping : List Text) (counters : List ℕ) (name : Text) (max_concurrent : ℕ)
    → max_concurrent ≤ slot mapping counters name
    → take_slot mapping counters name max_concurrent ≡ (true, counters)
unfolding take_slot slot
take_slot-denied [] counters name m full = refl
take_slot-denied (s ∷ mapping) [] name m full = refl
take_slot-denied (s ∷ mapping) (c ∷ counters) name m full = elim (Bool-cases (contains s name)) [
  | inl found ↦ ground (arith, found)
  | inr other ↦ ground (arith, other, take_slot-denied mapping counters name m)
]

-- Of n accesses in a row to a peripheral that has a counter, as many are granted as its counter, at
-- first, is below the maximum, and no more than n.
pub grants-min :
    (n : ℕ) (counters : List ℕ) (name : Text) (max_concurrent : ℕ)
    → max_concurrent < 2 ^ 32
    → HasSlot sensor_index_mapping counters name
    → grants n counters name max_concurrent
      ≡ min n (max_concurrent - slot sensor_index_mapping counters name)
unfolding grants check_access_concurrency
grants-min zero counters name m small h = omega arith
grants-min (suc n) counters name m small h =
    elim (Bool-cases (ltb (slot sensor_index_mapping counters name) m)) [
      | inl free ↦
          let (granted, counted, kept) =
            take_slot-granted sensor_index_mapping counters name m small h (ground arith) in
          rw granted (
            ground (
              arith,
              grants-min n (take_slot sensor_index_mapping counters name m).1 name m small kept,
            ))
      | inr full ↦
          let denied = take_slot-denied sensor_index_mapping counters name m (ground arith) in
          rw denied (ground (arith, grants-min n counters name m small h))
    ]

pub take_slot-Grown :
    (mapping : List Text) (counters : List ℕ) (name : Text) (max_concurrent : ℕ)
    → max_concurrent < 2 ^ 32
    → Grown counters (take_slot mapping counters name max_concurrent).1
unfolding take_slot Grown
take_slot-Grown [] counters name m small = Grown-refl counters
take_slot-Grown (s ∷ mapping) [] name m small = tt
take_slot-Grown (s ∷ mapping) (c ∷ counters) name m small = elim (Bool-cases (contains s name)) [
  | inl found ↦ elim (Bool-cases (ltb c m)) [
    | inl free ↦ rw (found, free) (ground arith, Grown-refl counters)
    | inr full ↦ rw (found, full) (ground arith, Grown-refl counters)
  ]
  | inr other ↦ rw other (ground arith, take_slot-Grown mapping counters name m small)
]
