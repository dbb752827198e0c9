-- ===== src/Loader/Leb/Span.antt =====
-- The 7-bit groups of an encoding as one number, read from the last byte back: what the loop of
-- `read_leb` gathers from the first byte on.
use native.Mathlib.Nat.{
  div-add-mod, add-mul-mod_self_left, mod-lt, mod-le, mod-eq_of_lt, add-zero, pow-le-pow_right,
}
use wasm_trustzone.Base.{
  ℕ, zero, suc, ◌+◌, ◌-◌, ◌*◌, ◌/◌, ◌%◌, ◌^◌, ◌≤◌, ◌<◌, ◌≡◌, refl, ap, sym, subst, ◌∙◌, true, false,
  List, [], ◌∷◌, Option, none, some, arith, ltb, leb, Bool-cases, inl, inr, if◌then◌else◌,
}
use wasm_trustzone.Base.Pow.{pow-add, pow-suc-pos, field-mod, mul-le_right}
use wasm_trustzone.Base.Bits.{bit_or_disjoint, byte_low7, byte_top}
use wasm_trustzone.Loader.Outcome.{value}
use wasm_trustzone.Loader.Leb.{LebState, take_byte, leb_loop}
use wasm_trustzone.Loader.Leb.Spec.{Bytes}

-- The groups as a number, how many there are, and the last byte.
pub record Groups : Type 0 where
  pub total : ℕ
  pub count : ℕ
  pub last : ℕ

unfoldable pub before : ℕ → Option Groups → Option Groups
before b none = none
before b (some g) =
    some (record { total = g.total * 128 + (b - 128); count = g.count + 1; last = g.last })

-- At most `k` groups.
unfoldable pub span : ℕ → List ℕ → Option Groups
unfolding before
span zero bs = none
span (suc k) [] = none
span (suc k) (b ∷ bs) =
    if ltb b 128 then some (record { total = b; count = 1; last = b }) else before b (span k bs)

-- The state that the loop ends in, from the state that it is in.
unfoldable pub gather : LebState → Option Groups → Option LebState
gather s none = none
gather s (some g) = some (record {
  result = (s.result + g.total * 2 ^ s.shift) % 2 ^ 64;
  shift = s.shift + 7 * g.count;
  bcnt = s.bcnt + g.count;
  byte = g.last;
})

pub pow-add-seven : (s : ℕ) → 2 ^ (s + 7) ≡ 128 * 2 ^ s
pow-add-seven s = omega (arith, pow-add s 7)

-- The two factors of 2 ^ 64 at a shift.
word_split : (s : ℕ) → s ≤ 64 → 2 ^ 64 ≡ 2 ^ (64 - s) * 2 ^ s
word_split s h = ap (λ (n : ℕ). 2 ^ n) {x = 64} (omega arith) ∙ pow-add (64 - s) s

-- Adding the uncut field, or the field cut to the word, is the same modulo 2 ^ 64.
cut-mod :
    (q p m r x t : ℕ) → m ≡ q * p → 0 < q → 0 < p → (r + x % q * p + t) % m ≡ (r + x * p + t) % m
cut-mod q p m r x t e hq hp =
    let whole : x * p ≡ x % q * p + q * p * (x / q) =
      omega (arith, ap (λ (t : ℕ). t * p) (div-add-mod x q)) in
    let sum : r + x * p + t ≡ r + x % q * p + t + m * (x / q) =
      omega (arith, ap (λ (n : ℕ). n * (x / q)) e) in
    rw sum (sym (add-mul-mod_self_left (r + x % q * p + t) m (x / q)))

same-mod :
    (s r x t : ℕ)
    → s ≤ 64
    → (r + x % 2 ^ (64 - s) * 2 ^ s + t) % 2 ^ 64 ≡ (r + x * 2 ^ s + t) % 2 ^ 64
same-mod s r x t h =
    cut-mod (2 ^ (64 - s)) (2 ^ s) (2 ^ 64) r x t (word_split s h) (pow-suc-pos (64 - s))
      (pow-suc-pos s)

module _ (b : ℕ) (s : LebState) (is_byte : b < 256) (room : s.shift ≤ 64)
    (fits : s.result < 2 ^ s.shift) where
  take_byte-result : (take_byte b s).result ≡ s.result + b % 128 % 2 ^ (64 - s.shift) * 2 ^ s.shift
  unfolding take_byte
  take_byte-result =
      let cut : b % 128 * 2 ^ s.shift % 2 ^ 64 ≡ b % 128 % 2 ^ (64 - s.shift) * 2 ^ s.shift =
        ap (λ (m : ℕ). b % 128 * 2 ^ s.shift % m) (word_split s.shift room)
        ∙ field-mod (2 ^ (64 - s.shift)) (2 ^ s.shift) (b % 128) (pow-suc-pos (64 - s.shift))
            (pow-suc-pos s.shift) in
      rw (byte_low7 b is_byte, cut)
        (bit_or_disjoint s.shift s.result (b % 128 % 2 ^ (64 - s.shift)) fits)

  take_byte-fits : (take_byte b s).result < 2 ^ (s.shift + 7)
  take_byte-fits =
      let group : ℕ = b % 128 % 2 ^ (64 - s.shift) in
      let small : group ≤ 127 = omega (arith, mod-le (b % 128) (2 ^ (64 - s.shift))) in
      let bounded : group * 2 ^ s.shift ≤ 127 * 2 ^ s.shift = grind arith in
      omega (arith, take_byte-result, pow-add-seven s.shift)

  take_byte-last : (take_byte b s).result ≡ (s.result + b % 128 * 2 ^ s.shift) % 2 ^ 64
  take_byte-last =
      let q : ℕ = 2 ^ (64 - s.shift) in
      let group : ℕ = b % 128 % q in
      let below : suc group * 2 ^ s.shift ≤ q * 2 ^ s.shift =
        mul-le_right (mod-lt (b % 128) (pow-suc-pos (64 - s.shift))) (2 ^ s.shift) in
      let small : (take_byte b s).result < 2 ^ 64 =
        omega (arith, take_byte-result, word_split s.shift room) in
      sym (mod-eq_of_lt small)
      ∙ ap (λ (n : ℕ). n % 2 ^ 64) {y = s.result + group * 2 ^ s.shift + 0}
          (omega (arith, take_byte-result))
      ∙ same-mod s.shift s.result (b % 128) 0 room
      ∙ ap (λ (n : ℕ). n % 2 ^ 64) (add-zero (s.result + b % 128 * 2 ^ s.shift))

  gather-take :
      (o : Option Groups) → leb 128 b ≡ true → gather (take_byte b s) o ≡ gather s (before b o)
  unfolding gather before take_byte
  gather-take none h = refl
  gather-take (some g) h =
      let same : ((take_byte b s).result + g.total * 2 ^ (s.shift + 7)) % 2 ^ 64
          ≡ (s.result + (g.total * 128 + (b - 128)) * 2 ^ s.shift) % 2 ^ 64 =
        ap (λ (n : ℕ). (n + g.total * 2 ^ (s.shift + 7)) % 2 ^ 64) take_byte-result
        ∙ same-mod s.shift s.result (b % 128) (g.total * 2 ^ (s.shift + 7)) room
        ∙ ap (λ (n : ℕ). n % 2 ^ 64) {y = s.result + (g.total * 128 + (b - 128)) * 2 ^ s.shift}
            regroup in
      ground (arith, same)
    where
      high : 128 ≤ b
      high = ground arith

      group_eq : b % 128 ≡ b - 128
      group_eq = omega (arith, high)

      regroup :
          s.result + b % 128 * 2 ^ s.shift + g.total * 2 ^ (s.shift + 7)
          ≡ s.result + (g.total * 128 + (b - 128)) * 2 ^ s.shift
      regroup = omega (
        arith,
        ap (λ (t : ℕ). t * 2 ^ s.shift) group_eq,
        ap (λ (t : ℕ). g.total * t) (pow-add-seven s.shift),
      )

-- The loop of `read_leb` gathers the groups that stand there, and fails where there are none: from
-- any round on, with `k` rounds left.
pub leb_loop-span :
    (m k : ℕ) (bs : List ℕ) (s : LebState)
    → (m + 6) / 7 ≡ s.bcnt + k
    → s.shift + 7 * k ≤ 70
    → s.result < 2 ^ s.shift
    → Bytes bs
    → value (leb_loop m bs s) ≡ gather s (span k bs)
unfolding leb_loop span gather take_byte
leb_loop-span m zero [] s limit room fits bytes = ground arith
leb_loop-span m zero (b ∷ bs) s limit room fits bytes = ground arith
leb_loop-span m (suc k) [] s limit room fits bytes = ground arith
leb_loop-span m (suc k) (b ∷ bs) s limit room fits (is_byte, bytes) =
    let more : ltb ((m + 6) / 7) (s.bcnt + 1) ≡ false = ground arith in
    let small : s.shift ≤ 64 = omega arith in
    rw (more, byte_top b is_byte)
      (elim (Bool-cases (ltb b 128)) [
        | inl low ↦ rw low (ground (arith, take_byte-last b s is_byte small fits))
        | inr high ↦ rw high (
            leb_loop-span m k bs (take_byte b s) (omega arith) (omega arith)
              (take_byte-fits b s is_byte small fits) bytes
            ∙ gather-take b s is_byte small fits (span k bs) (ground arith))
      ])

-- The shape of what is gathered: all but the last group, `below`, lie under the last one.
pub record IsShaped (k : ℕ) (g : Groups) : Type 0 where
  pub some_group : 0 < g.count
  pub few_groups : g.count ≤ k
  pub last_group : g.last < 128
  pub below : ℕ
  pub below_small : below < 2 ^ (7 * (g.count - 1))
  pub total_eq : g.total ≡ below + g.last * 2 ^ (7 * (g.count - 1))

abbrev pub WhenSome {ℓ κ} : {A : Type ℓ} → (A → Type κ) → Option A → Type κ
WhenSome P none = Unit
WhenSome P (some a) = P a

before-IsShaped :
    (k b : ℕ) (o : Option Groups)
    → 128 ≤ b
    → b < 256
    → WhenSome (IsShaped k) o
    → WhenSome (IsShaped (suc k)) (before b o)
unfolding before
before-IsShaped k b none high is_byte h = tt
before-IsShaped k b (some g) high is_byte h = record {
  some_group = omega arith;
  few_groups = omega (arith, h.few_groups);
  last_group = h.last_group;
  below = h.below * 128 + (b - 128);
  below_small = rw exponent (omega (arith, h.below_small, power));
  total_eq = rw exponent (omega (arith, h.total_eq, ap (λ (t : ℕ). g.last * t) power));
}
  where
    exponent : 7 * (g.count + 1 - 1) ≡ 7 * (g.count - 1) + 7
    exponent = omega (arith, h.some_group)

    power : 2 ^ (7 * (g.count - 1) + 7) ≡ 128 * 2 ^ (7 * (g.count - 1))
    power = pow-add-seven (7 * (g.count - 1))

pub span-IsShaped : (k : ℕ) (bs : List ℕ) → Bytes bs → WhenSome (IsShaped k) (span k bs)
unfolding span
span-IsShaped zero bs bytes = tt
span-IsShaped (suc k) [] bytes = tt
span-IsShaped (suc k) (b ∷ bs) (is_byte, bytes) = elim (Bool-cases (ltb b 128)) [
  | inl low ↦ rw low (record {
    some_group = omega arith;
    few_groups = omega arith;
    last_group = ground arith;
    below = 0;
    below_small = omega arith;
    total_eq = omega arith;
  })
  | inr high ↦
      rw high (before-IsShaped k b (span k bs) (ground arith) is_byte (span-IsShaped k bs bytes))
]

-- The groups fit in seven bits each.
pub total-lt : {k : ℕ} {g : Groups} → IsShaped k g → g.total < 2 ^ (7 * g.count)
total-lt {g = g} h =
    let exponent : 7 * g.count ≡ 7 * (g.count - 1) + 7 = omega (arith, h.some_group) in
    let last : g.last * 2 ^ (7 * (g.count - 1)) ≤ 127 * 2 ^ (7 * (g.count - 1)) =
      mul-le_right (omega (arith, h.last_group)) (2 ^ (7 * (g.count - 1))) in
    rw exponent (omega (arith, h.total_eq, h.below_small, pow-add-seven (7 * (g.count - 1)), last))

-- With fewer than the most groups, the number is below the corresponding power.
pub total-lt_of_few :
    (j : ℕ) {k : ℕ} {g : Groups} → IsShaped k g → g.count ≤ j → g.total < 2 ^ (7 * j)
total-lt_of_few j {g = g} h few =
    let mono : 2 ^ (7 * g.count) ≤ 2 ^ (7 * j) = pow-le-pow_right (omega arith) (omega arith) in
    omega (arith, total-lt h, mono)

-- The two parts of the number at a known count.
pub parts_at :
    (j : ℕ) {k : ℕ} {g : Groups} (h : IsShaped k g)
    → g.count ≡ suc j
    → (g.total ≡ h.below + g.last * 2 ^ (7 * j)) × (h.below < 2 ^ (7 * j))
parts_at j {g = g} h e =
    let exponent : 7 * (g.count - 1) ≡ 7 * j = omega arith in
    let power : 2 ^ (7 * (g.count - 1)) ≡ 2 ^ (7 * j) = ap (λ (t : ℕ). 2 ^ t) exponent in
    (
      h.total_eq ∙ ap (λ (t : ℕ). h.below + g.last * t) power,
      subst (λ t. h.below < t) power h.below_small,
    )
