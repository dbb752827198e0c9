-- ===== src/Interp/Transfer/Bytes.antt =====
-- The bytes of a number in the memory of an instance.
use native.Mathlib.Nat.{add-mul-mod_self_left, mod-eq_of_lt, mod-add-div, mod-lt}
use wasm_trustzone.Base.{
  ℕ, zero, suc, ◌+◌, ◌*◌, ◌/◌, ◌%◌, ◌^◌, ◌≤◌, ◌<◌, ◌≡◌, refl, sym, ap, ◌∙◌, ◌⊎◌, inl, inr, List, [],
  ◌∷◌, arith, length, get_elem?,
}
use wasm_trustzone.Interp.Transfer.{get_bytes, put_bytes, get_at, put_at}

power_pos : (n : ℕ) → 0 < 256 ^ n
power_pos zero = omega arith
power_pos (suc n) = omega (arith, power_pos n)

mod_byte : (v p : ℕ) → 0 < p → v % 256 + 256 * (v / 256 % p) ≡ v % (256 * p)
mod_byte v p pos =
    let k : ℕ = v / 256 / p in
    let r : ℕ = v % 256 + 256 * (v / 256 % p) in
    let low : v / 256 % p < p = mod-lt (v / 256) pos in
    let parts : v ≡ r + 256 * p * k = omega (arith, mod-add-div (v / 256) p) in
    sym (
      ap (λ x. x % (256 * p)) parts
      ∙ add-mul-mod_self_left r (256 * p) k
      ∙ mod-eq_of_lt (omega (arith, low)))

get_bytes-put_bytes :
    (n v : ℕ) (bs : List ℕ) → n ≤ length bs → get_bytes n (put_bytes n v bs) ≡ v % 256 ^ n
unfolding get_bytes put_bytes
get_bytes-put_bytes zero v bs h = omega arith
get_bytes-put_bytes (suc n) v [] h = absurd (omega (arith, h))
get_bytes-put_bytes (suc n) v (b ∷ bs) h =
    ap (λ x. v % 256 + 256 * x) (get_bytes-put_bytes n (v / 256) bs (omega (arith, h)))
    ∙ mod_byte v (256 ^ n) (power_pos n)
    ∙ ap (λ x. v % x) {x = 256 * 256 ^ n} (omega arith)

pub get_at-put_at :
    (n i v : ℕ) (bs : List ℕ) → i + n ≤ length bs → get_at n i (put_at n i v bs) ≡ v % 256 ^ n
unfolding get_at put_at
get_at-put_at n zero v bs h = get_bytes-put_bytes n v bs (omega (arith, h))
get_at-put_at n (suc i) v [] h = absurd (omega (arith, h))
get_at-put_at n (suc i) v (b ∷ bs) h = get_at-put_at n i v bs (omega (arith, h))

length-put_bytes : (n v : ℕ) (bs : List ℕ) → length (put_bytes n v bs) ≡ length bs
unfolding put_bytes
length-put_bytes zero v bs = refl
length-put_bytes (suc n) v [] = refl
length-put_bytes (suc n) v (b ∷ bs) = ap suc (length-put_bytes n (v / 256) bs)

pub length-put_at : (n i v : ℕ) (bs : List ℕ) → length (put_at n i v bs) ≡ length bs
unfolding put_at
length-put_at n zero v bs = length-put_bytes n v bs
length-put_at n (suc i) v [] = refl
length-put_at n (suc i) v (b ∷ bs) = ap suc (length-put_at n i v bs)

put_bytes-outside :
    (n v : ℕ) (bs : List ℕ) (j : ℕ) → n ≤ j → get_elem? (put_bytes n v bs) j ≡ get_elem? bs j
unfolding put_bytes
put_bytes-outside zero v bs j h = refl
put_bytes-outside (suc n) v [] j h = refl
put_bytes-outside (suc n) v (b ∷ bs) zero h = absurd (omega (arith, h))
put_bytes-outside (suc n) v (b ∷ bs) (suc j) h =
    put_bytes-outside n (v / 256) bs j (omega (arith, h))

-- The bytes below and above keep their values.
pub put_at-outside :
    (n i v : ℕ) (bs : List ℕ) (j : ℕ)
    → (j < i) ⊎ (i + n ≤ j)
    → get_elem? (put_at n i v bs) j ≡ get_elem? bs j
unfolding put_at
put_at-outside n zero v bs j (inl low) = absurd (omega (arith, low))
put_at-outside n zero v bs j (inr high) = put_bytes-outside n v bs j (omega (arith, high))
put_at-outside n (suc i) v [] j h = refl
put_at-outside n (suc i) v (b ∷ bs) zero h = refl
put_at-outside n (suc i) v (b ∷ bs) (suc j) (inl low) =
    put_at-outside n i v bs j (inl (omega (arith, low)))
put_at-outside n (suc i) v (b ∷ bs) (suc j) (inr high) =
    put_at-outside n i v bs j (inr (omega (arith, high)))
