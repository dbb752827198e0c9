-- ===== src/Loader/Stack/Cells.antt =====
-- The array of cells under a write, an extension and a read.
use wasm_trustzone.Base.{
  ℕ, zero, suc, ◌≤◌, ◌<◌, ◌≡◌, refl, List, [], ◌∷◌, ◌++◌, arith, length, get_or, set,
}
use wasm_trustzone.Loader.Stack.Spec.{top_first}

get_or-set_self : (xs : List ℕ) (n v : ℕ) → n < length xs → get_or (set xs n v) n 0 ≡ v
get_or-set_self [] n v h = absurd (omega arith)
get_or-set_self (x ∷ xs) zero v h = refl
get_or-set_self (x ∷ xs) (suc n) v h = get_or-set_self xs n v (omega arith)

get_or-set_below : (xs : List ℕ) (m n v : ℕ) → m < n → get_or (set xs n v) m 0 ≡ get_or xs m 0
get_or-set_below [] m n v h = refl
get_or-set_below (x ∷ xs) m zero v h = absurd (omega arith)
get_or-set_below (x ∷ xs) zero (suc n) v h = refl
get_or-set_below (x ∷ xs) (suc m) (suc n) v h = get_or-set_below xs m n v (omega arith)

get_or-append : (xs ys : List ℕ) (m : ℕ) → m < length xs → get_or (xs ++ ys) m 0 ≡ get_or xs m 0
get_or-append [] ys m h = absurd (omega arith)
get_or-append (x ∷ xs) ys zero h = refl
get_or-append (x ∷ xs) ys (suc m) h = get_or-append xs ys m (omega arith)

top_first-set_above : (m n v : ℕ) (xs : List ℕ) → m ≤ n → top_first m (set xs n v) ≡ top_first m xs
unfolding top_first
top_first-set_above zero n v xs h = refl
top_first-set_above (suc m) n v xs h =
    rw (get_or-set_below xs m n v (omega arith), top_first-set_above m n v xs (omega arith)) refl

pub top_first-set :
    (n v : ℕ) (xs : List ℕ) → n < length xs → top_first (suc n) (set xs n v) ≡ v ∷ top_first n xs
unfolding top_first
top_first-set n v xs h =
    rw (get_or-set_self xs n v h, top_first-set_above n n v xs (omega arith)) refl

pub top_first-append :
    (n : ℕ) (xs ys : List ℕ) → n ≤ length xs → top_first n (xs ++ ys) ≡ top_first n xs
unfolding top_first
top_first-append zero xs ys h = refl
top_first-append (suc n) xs ys h =
    rw (get_or-append xs ys n (omega arith), top_first-append n xs ys (omega arith)) refl
