-- ===== src/Rest/Packet/Bounds.antt =====
-- Which request packets are read within their bounds.
use wasm_trustzone.Base.{
  ℕ, zero, suc, ◌+◌, ◌-◌, ◌^◌, ◌≤◌, ◌<◌, ◌≡◌, ◌≢◌, List, [], ◌∷◌, none, arith, length, get_elem?,
  Option-cases, inl, inr,
}
use wasm_trustzone.Rest.Packet.{outside, word_at, dword_at, unpack_fields, unpack_request}

get_elem?-none : (xs : List ℕ) (i : ℕ) → get_elem? xs i ≡ none → length xs ≤ i
get_elem?-none [] i e = omega arith
get_elem?-none (x ∷ xs) zero e = absurd (ground (arith, e))
get_elem?-none (x ∷ xs) (suc i) e = omega (arith, get_elem?-none xs i e)

-- A packet of at least one byte and less than 2 ^ 31 is read within its bounds where the lengths that
-- it states, with the header, do not reach 2 ^ 32.
pub unpack_request-inside :
    (p : List ℕ)
    → 0 < length p
    → length p < 2 ^ 31
    → 18 + word_at p 12 + dword_at p 14 < 2 ^ 32
    → unpack_request p ≢ outside
unfolding unpack_request unpack_fields
unpack_request-inside [] nonempty size wrap e = absurd (omega arith)
unpack_request-inside (v ∷ rest) nonempty size wrap e =
    let p = v ∷ rest in
    elim (Option-cases (get_elem? p (18 + word_at p 12 - 1))) [
      | inl beyond ↦
          let short = get_elem?-none p (18 + word_at p 12 - 1) beyond in
          ground (arith, beyond, short)
      | inr (last, inside) ↦ ground (arith, inside)
    ]
