-- ===== src/Utils/Vector/Shifts.antt =====
-- The two loops of bh_vector.c that move elements, place by place.
use wasm_trustzone.Base.{
  ℕ, zero, suc, ◌+◌, ◌-◌, ◌≤◌, ◌<◌, ◌≡◌, refl, ◌∙◌, ◌&&◌, List, [], ◌∷◌, arith, ltb, leb, ◌==◌,
  if◌then◌else◌, ◌≢◌, ◌⊎◌, inl, inr, Bool-cases, length, length-set, get_or, set,
}
use wasm_trustzone.Utils.Vector.{shift_up, shift_down}

pub get_or-set :
    (xs : List ℕ) (n v j : ℕ)
    → n < length xs
    → get_or (set xs n v) j 0 ≡ (if j == n then v else get_or xs j 0)
get_or-set [] n v j h = absurd (omega arith)
get_or-set (x ∷ xs) zero v zero h = ground arith
get_or-set (x ∷ xs) zero v (suc j) h = ground arith
get_or-set (x ∷ xs) (suc n) v zero h = ground arith
get_or-set (x ∷ xs) (suc n) v (suc j) h = ground (arith, get_or-set xs n v j)

pub length-shift_up : (k p : ℕ) (xs : List ℕ) → length (shift_up k p xs) ≡ length xs
unfolding shift_up
length-shift_up zero p xs = refl
length-shift_up (suc k) p xs = length-shift_up k (p - 1) _ ∙ length-set xs p _

pub length-shift_down : (k p : ℕ) (xs : List ℕ) → length (shift_down k p xs) ≡ length xs
unfolding shift_down
length-shift_down zero p xs = refl
length-shift_down (suc k) p xs = length-shift_down k (p + 1) _ ∙ length-set xs p _

pub get_or-set_self : (xs : List ℕ) (n v : ℕ) → n < length xs → get_or (set xs n v) n 0 ≡ v
get_or-set_self [] n v h = absurd (omega arith)
get_or-set_self (x ∷ xs) zero v h = refl
get_or-set_self (x ∷ xs) (suc n) v h = get_or-set_self xs n v (omega arith)

pub get_or-set_ne : (xs : List ℕ) (n v j : ℕ) → j ≢ n → get_or (set xs n v) j 0 ≡ get_or xs j 0
get_or-set_ne [] n v j h = refl
get_or-set_ne (x ∷ xs) zero v zero h = absurd (h refl)
get_or-set_ne (x ∷ xs) zero v (suc j) h = refl
get_or-set_ne (x ∷ xs) (suc n) v zero h = refl
get_or-set_ne (x ∷ xs) (suc n) v (suc j) h = get_or-set_ne xs n v j (omega arith)

-- The places outside the loop stay.
pub get_or-shift_up_outside :
    (k p j : ℕ) (xs : List ℕ)
    → k ≤ p
    → (j ≤ p - k) ⊎ (p < j)
    → get_or (shift_up k p xs) j 0 ≡ get_or xs j 0
unfolding shift_up
get_or-shift_up_outside zero p j xs h out = refl
get_or-shift_up_outside (suc k) p j xs h out =
    let value = get_or xs (p - 1) 0 in
    get_or-shift_up_outside k (p - 1) j (set xs p value) (omega arith) (ground (arith, out))
    ∙ get_or-set_ne xs p value j (omega arith)

-- The places inside take what stood below them.
pub get_or-shift_up_inside :
    (k p j : ℕ) (xs : List ℕ)
    → k ≤ p
    → p < length xs
    → p - k < j
    → j ≤ p
    → get_or (shift_up k p xs) j 0 ≡ get_or xs (j - 1) 0
unfolding shift_up
get_or-shift_up_inside zero p j xs h inside low high = absurd (omega arith)
get_or-shift_up_inside (suc k) p j xs h inside low high =
    let value = get_or xs (p - 1) 0 in
    let same_length = length-set xs p value in
    elim (Bool-cases (j == p)) [
      | inl last ↦
          let e : j ≡ p = ground arith in
          get_or-shift_up_outside k (p - 1) j (set xs p value) (omega arith) (inr (omega arith))
          ∙ rw e (get_or-set_self xs p value inside)
      | inr other ↦
          get_or-shift_up_inside k (p - 1) j (set xs p value) (omega arith)
            (omega (arith, same_length)) (omega arith) (ground arith)
          ∙ get_or-set_ne xs p value (j - 1) (omega arith)
    ]

pub get_or-shift_down :
    (k p j : ℕ) (xs : List ℕ)
    → p + k < length xs
    → get_or (shift_down k p xs) j 0
      ≡ (if leb p j && ltb j (p + k) then get_or xs (j + 1) 0 else get_or xs j 0)
unfolding shift_down
get_or-shift_down zero p j xs h = ground arith
get_or-shift_down (suc k) p j xs h =
    let moved = set xs p (get_or xs (p + 1) 0) in
    let same_length = length-set xs p (get_or xs (p + 1) 0) in
    ground (
      arith,
      get_or-shift_down k (p + 1) j moved (omega (arith, same_length)),
      get_or-set xs p (get_or xs (p + 1) 0) j (omega arith),
      get_or-set xs p (get_or xs (p + 1) 0) (j + 1) (omega arith),
    )
