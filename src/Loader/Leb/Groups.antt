-- ===== src/Loader/Leb/Groups.antt =====
-- `read_leb` from its two halves: the loop that gathers groups, and what follows it.
use native.Mathlib.Nat.{zero-add}
use wasm_trustzone.Base.{
  ℕ, ◌+◌, ◌*◌, ◌/◌, ◌%◌, ◌^◌, ◌≤◌, ◌≡◌, refl, ◌∙◌, Bool, List, Option, none, some, arith,
}
use wasm_trustzone.Loader.Outcome.{Outcome, ok, value, ◌>>=◌, value->>=, and_then}
use wasm_trustzone.Loader.Leb.{LebState, leb_loop, finish_leb, read_leb, leb_start}
use wasm_trustzone.Loader.Leb.Spec.{Bytes}
use wasm_trustzone.Loader.Leb.Span.{Groups, span, gather, leb_loop-span}

-- The state after the loop, on gathered groups.
abbrev pub ended : Groups → LebState
ended g = record { result = g.total % 2 ^ 64; shift = 7 * g.count; bcnt = g.count; byte = g.last }

unfoldable pub finish_groups : ℕ → Bool → Groups → Outcome ℕ
finish_groups maxbits sign g = finish_leb maxbits sign (ended g)

unfoldable pub read_groups : ℕ → Bool → Option Groups → Option (ℕ × ℕ)
read_groups maxbits sign none = none
read_groups maxbits sign (some g) = value (finish_groups maxbits sign g >>= λ r. ok (r, g.count))

pub gather-start : (g : Groups) → gather leb_start (some g) ≡ some (ended g)
unfolding gather
gather-start g = ground arith

finish-gathered :
    (maxbits : ℕ) (sign : Bool) (o : Option Groups)
    → and_then
        (gather leb_start o)
        (λ s. value (finish_leb maxbits sign s >>= λ r. ok (r, 0 + s.bcnt)))
      ≡ read_groups maxbits sign o
unfolding read_groups finish_groups
finish-gathered maxbits sign none = unfold gather in refl
finish-gathered maxbits sign (some g) = rw (gather-start g) (simp zero-add)

pub read_leb-groups :
    (maxbits k : ℕ) (sign : Bool) (bs : List ℕ)
    → (maxbits + 6) / 7 ≡ k
    → k ≤ 10
    → Bytes bs
    → value (read_leb bs 0 maxbits sign) ≡ read_groups maxbits sign (span k bs)
unfolding read_leb
read_leb-groups maxbits k sign bs e few bytes =
    value->>= (leb_loop maxbits bs leb_start) _
    ∙ rw (leb_loop-span maxbits k bs leb_start (omega arith) (omega arith) (omega arith) bytes)
        (finish-gathered maxbits sign (span k bs))
