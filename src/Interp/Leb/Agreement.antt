-- ===== src/Interp/Leb/Agreement.antt =====
-- What the loader has read, the interpreter reads again: the same value from the same bytes.
use native.Mathlib.Nat.{zero-add}
use wasm_trustzone.Base.{
  ℕ, ◌+◌, ◌/◌, ◌%◌, ◌^◌, ◌≡◌, refl, subst, Bool, false, List, [], ◌∷◌, none, some, bit_and, arith,
  ltb, ◌==◌, Bool-cases, inl, inr,
}
use wasm_trustzone.Loader.Outcome.{Outcome, ok, err, Yields, Yields->>=}
use wasm_trustzone.Loader.Leb.{
  LebState, take_byte, leb_loop, finish_leb, leb_start, read_leb, read_uint32_slow, read_leb_uint32,
}
use wasm_trustzone.Interp.Leb.{
  Reading, add_byte, unchecked_loop, extend_sign, reading_start, extended, unchecked_leb,
  unchecked_leb_uint32,
}

-- The interpreter's variables for the loader's.
abbrev pub reading : LebState → Reading
reading s = record { result = s.result; shift = s.shift; offset = s.bcnt; byte = s.byte }

Yields-both {ℓ} :
    {A : Type ℓ} (P Q : A → Type 0) (m : Outcome A)
    → Yields P m
    → Yields Q m
    → Yields (λ a. P a × Q a) m
Yields-both P Q (ok a) h k = (h, k)
Yields-both P Q (err e) h k = tt

leb_loop-reading :
    (maxbits : ℕ) (bs : List ℕ) (s : LebState)
    → Yields (λ last. unchecked_loop bs (reading s) ≡ some (reading last)) (leb_loop maxbits bs s)
unfolding leb_loop unchecked_loop take_byte add_byte
leb_loop-reading maxbits [] s = ground arith
leb_loop-reading maxbits (b ∷ bs) s = elim (Bool-cases (ltb ((maxbits + 6) / 7) (s.bcnt + 1))) [
  | inl long ↦ rw long tt
  | inr short ↦ elim (Bool-cases (bit_and b 0x80 == 0)) [
    | inl last ↦ rw (short, last) refl
    | inr more ↦ rw (short, more) (leb_loop-reading maxbits bs (take_byte b s))
  ]
]

-- The loader's state after the loop, which the interpreter's variables follow.
abbrev pub ReadBy : ℕ → Bool → List ℕ → ℕ × ℕ → Type 0
ReadBy maxbits sign bs r =
    (s : LebState) × (leb_loop maxbits bs leb_start ≡ ok s)
    × (unchecked_loop bs reading_start ≡ some (reading s))
    × (finish_leb maxbits sign s ≡ ok r.0)
    × (r.1 ≡ s.bcnt)

Yields-self : {A : Type 0} (m : Outcome A) → Yields (λ a. m ≡ ok a) m
Yields-self (ok a) = refl
Yields-self (err e) = tt

pub read_leb-ReadBy :
    (maxbits : ℕ) (sign : Bool) (bs : List ℕ)
    → Yields (ReadBy maxbits sign bs) (read_leb bs 0 maxbits sign)
unfolding read_leb
read_leb-ReadBy maxbits sign bs =
    Yields->>=
      (λ s.
        (leb_loop maxbits bs leb_start ≡ ok s)
        × (unchecked_loop bs reading_start ≡ some (reading s)))
      _ (leb_loop maxbits bs leb_start) _
      (Yields-both _ _ (leb_loop maxbits bs leb_start) (Yields-self (leb_loop maxbits bs leb_start))
        (leb_loop-reading maxbits bs leb_start))
      (λ s (own, read).
        Yields->>= (λ r. finish_leb maxbits sign s ≡ ok r) _ (finish_leb maxbits sign s) _
          (Yields-self (finish_leb maxbits sign s)) (λ r e. (s, own, read, e, zero-add s.bcnt)))

finish_leb_unsigned : (s : LebState) → Yields (λ r. r ≡ s.result) (finish_leb 32 false s)
unfolding finish_leb
finish_leb_unsigned s = ground arith

unsigned-unchecked :
    (bs : List ℕ) (r : ℕ × ℕ)
    → ReadBy 32 false bs r
    → unchecked_leb 32 32 false bs ≡ some (r.0 % 2 ^ 32, r.1)
unfolding unchecked_leb extended extend_sign
unsigned-unchecked bs r (s, own, read, e, offset) =
    let whole : r.0 ≡ s.result = subst (Yields (λ r. r ≡ s.result)) e (finish_leb_unsigned s) in
    rw (read, whole, offset) refl

read_uint32_slow-unchecked :
    (bs : List ℕ) → Yields (λ r. unchecked_leb 32 32 false bs ≡ some r) (read_uint32_slow bs)
unfolding read_uint32_slow
read_uint32_slow-unchecked bs =
    Yields->>= (ReadBy 32 false bs) _ (read_leb bs 0 32 false) _ (read_leb-ReadBy 32 false bs)
      (λ r h. unsigned-unchecked bs r h)

pub no_bytes : (w maxbits : ℕ) (sign : Bool) → unchecked_leb w maxbits sign [] ≡ none
unfolding unchecked_leb unchecked_loop extended
no_bytes w maxbits sign = refl

pub read_leb_uint32-unchecked :
    (bs : List ℕ) → Yields (λ r. unchecked_leb_uint32 bs ≡ some r) (read_leb_uint32 bs)
unfolding read_leb_uint32 unchecked_leb_uint32
read_leb_uint32-unchecked [] =
    subst (λ o. Yields (λ r. o ≡ some r) (read_uint32_slow [])) (no_bytes 32 32 false)
      (read_uint32_slow-unchecked [])
read_leb_uint32-unchecked (b ∷ bs) = elim (Bool-cases (bit_and b 0x80 == 0)) [
  | inl last ↦ rw last refl
  | inr more ↦ rw more (read_uint32_slow-unchecked (b ∷ bs))
]
