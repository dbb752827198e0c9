-- ===== src/Loader/Leb/Skip.antt =====
-- `skip_leb` against `read_leb`, both of core/iwasm/interpreter/wasm_loader.c: the scan for block
-- ends (`wasm_loader_find_block_addr`) skips the integers that the validation reads.
use wasm_trustzone.Base.{ℕ, ◌≡◌, Bool, List, [], ◌∷◌, arith, drop}
use wasm_trustzone.Loader.Outcome.{Outcome, ok, ◌>>=◌}
use wasm_trustzone.Loader.Leb.{
  LebState, take_byte, leb_loop, leb_start, read_leb, skip_loop, skip_leb,
}

abbrev count_of : Outcome LebState → Outcome ℕ
count_of m = m >>= λ s. ok s.bcnt

skip_loop-leb_loop :
    (m : ℕ) (bs : List ℕ) (s : LebState) → skip_loop m bs s.bcnt ≡ count_of (leb_loop m bs s)
unfolding skip_loop leb_loop take_byte
skip_loop-leb_loop m [] s = ground arith
skip_loop-leb_loop m (b ∷ bs) s = ground (arith, skip_loop-leb_loop m bs (take_byte b s))

-- Wherever an integer can be read, of either width and sign, `skip_leb` succeeds and moves to the
-- same offset.
pub skip_leb-read_leb :
    (buf : List ℕ) (offset maxbits : ℕ) (sign : Bool) {result next : ℕ}
    → read_leb buf offset maxbits sign ≡ ok (result, next)
    → skip_leb buf offset maxbits ≡ ok next
unfolding skip_leb read_leb
skip_leb-read_leb buf offset maxbits sign e =
    rw (skip_loop-leb_loop maxbits (drop offset buf) leb_start) (ground arith)
