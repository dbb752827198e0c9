-- ===== src/Memory/Enlarge/Contents.antt =====
-- The bytes of a memory that has grown.
use wasm_trustzone.Base.{
  ℕ, zero, suc, ◌+◌, ◌-◌, ◌≤◌, ◌≡◌, refl, sym, ◌∙◌, ap, List, [], ◌∷◌, ◌++◌, arith, length,
  length-append, length-replicate, take, drop, replicate,
}
use wasm_trustzone.Memory.Enlarge.{overwrite, grown_bytes}

pub ++_assoc : (xs ys zs : List ℕ) → (xs ++ ys) ++ zs ≡ xs ++ (ys ++ zs)
++_assoc [] ys zs = refl
++_assoc (x ∷ xs) ys zs = ap (λ r. x ∷ r) (++_assoc xs ys zs)

pub ++_nil : (xs : List ℕ) → xs ++ [] ≡ xs
++_nil [] = refl
++_nil (x ∷ xs) = ap (λ r. x ∷ r) (++_nil xs)

abbrev pub zeros : ℕ → List ℕ
zeros n = replicate n 0

zeros-add : (m n : ℕ) → zeros (m + n) ≡ zeros m ++ zeros n
zeros-add zero n = let e : 0 + n ≡ n = omega arith in ap (λ k. zeros k) e
zeros-add (suc m) n =
    let e : suc m + n ≡ suc (m + n) = omega arith in
    ap (λ k. zeros k) e ∙ ap (λ r. 0 ∷ r) (zeros-add m n)

zeros-split :
    (k g : ℕ) → g ≤ k → (zeros k ≡ zeros (k - g) ++ zeros g) × (zeros g ++ zeros (k - g) ≡ zeros k)
zeros-split k g h =
    let e : k ≡ k - g + g = omega arith in
    let f : g + (k - g) ≡ k = omega arith in
    (ap (λ n. zeros n) e ∙ zeros-add (k - g) g, sym (zeros-add g (k - g)) ∙ ap (λ n. zeros n) f)

length-zeros : (n : ℕ) → length (zeros n) ≡ n
length-zeros n = length-replicate {A = ℕ} n 0

take-append : (xs ys : List ℕ) → take (length xs) (xs ++ ys) ≡ xs
take-append [] ys = refl
take-append (x ∷ xs) ys = ap (λ r. x ∷ r) (take-append xs ys)

drop-append : (xs ys : List ℕ) → drop (length xs) (xs ++ ys) ≡ ys
drop-append [] ys = refl
drop-append (x ∷ xs) ys = drop-append xs ys

-- What is written where something as long stood takes its place.
overwrite-append :
    (xs ys zs new : List ℕ)
    → length new ≡ length ys
    → overwrite (xs ++ (ys ++ zs)) (length xs) new ≡ xs ++ (new ++ zs)
unfolding overwrite
overwrite-append xs ys zs new h =
    let end : length xs + length new ≡ length (xs ++ ys) = omega (arith, length-append xs ys) in
    let tail : drop (length xs + length new) (xs ++ (ys ++ zs)) ≡ zs =
      rw (end, sym (++_assoc xs ys zs)) (drop-append (xs ++ ys) zs) in
    rw (tail, take-append xs (ys ++ zs)) (++_assoc xs new zs)

block_parts :
    (lin glob : List ℕ) (k : ℕ)
    → length glob ≤ k
    → lin ++ glob ++ zeros k
      ≡ (lin ++ (glob ++ zeros (k - length glob))) ++ (zeros (length glob) ++ [])
block_parts lin glob k h =
    let (split, join) = zeros-split k (length glob) h in
    let rest = zeros (k - length glob) in
    let last = zeros (length glob) in
    rw (split, ++_nil last)
      (++_assoc lin glob (rest ++ last)
        ∙ ap (λ r. lin ++ r) (sym (++_assoc glob rest last))
        ∙ sym (++_assoc lin (glob ++ rest) last))

copied :
    (lin glob : List ℕ) (k : ℕ)
    → length glob ≤ k
    → overwrite (lin ++ glob ++ zeros k) (length lin + k) glob
      ≡ lin ++ (glob ++ (zeros (k - length glob) ++ glob))
copied lin glob k h =
    let rest = zeros (k - length glob) in
    let at : length lin + k ≡ length (lin ++ (glob ++ rest)) = omega (
      arith,
      length-append lin (glob ++ rest),
      length-append glob rest,
      length-zeros (k - length glob),
    ) in
    ap (λ b. overwrite b (length lin + k) glob) (block_parts lin glob k h)
    ∙ ap (λ n. overwrite ((lin ++ (glob ++ rest)) ++ (zeros (length glob) ++ [])) n glob) at
    ∙ overwrite-append (lin ++ (glob ++ rest)) (zeros (length glob)) [] glob
        (sym (length-zeros (length glob)))
    ∙ ap (λ r. (lin ++ (glob ++ rest)) ++ r) (++_nil glob)
    ∙ ++_assoc lin (glob ++ rest) glob
    ∙ ap (λ r. lin ++ r) (++_assoc glob rest glob)

-- Where the new pages have room for the globals, the heap and the old pages are kept, the new pages
-- are zero, and the globals stand behind them.
pub grown_bytes-append :
    (lin glob : List ℕ) (k : ℕ)
    → length glob ≤ k
    → grown_bytes (lin ++ glob) (length lin) (length lin + k) (length glob) k
      ≡ lin ++ (zeros k ++ glob)
unfolding grown_bytes
grown_bytes-append lin glob k h =
    let (split, join) = zeros-split k (length glob) h in
    let rest = zeros (k - length glob) in
    let globals : take (length glob) (drop (length lin) (lin ++ glob ++ zeros k)) ≡ glob =
      rw (++_assoc lin glob (zeros k), drop-append lin (glob ++ zeros k))
        (take-append glob (zeros k)) in
    rw (globals, copied lin glob k h)
      (overwrite-append lin glob (rest ++ glob) (zeros (length glob)) (length-zeros (length glob))
        ∙ ap (λ r. lin ++ r)
            (sym (++_assoc (zeros (length glob)) rest glob) ∙ ap (λ r. r ++ glob) join))

pub length-grown :
    (lin glob : List ℕ) (k : ℕ) → length (lin ++ (zeros k ++ glob)) ≡ length lin + k + length glob
length-grown lin glob k =
    omega (arith, length-append lin (zeros k ++ glob), length-append (zeros k) glob, length-zeros k)
