-- ===== src/Utils/Vector/Tests.antt =====
-- A small vector, and the theorems on it.
use wasm_trustzone.Base.{◌-◌, [], ◌∷◌, ◌≢◌, refl, true, none, arith, leb, ◌==◌, if◌then◌else◌}
use wasm_trustzone.Utils.Vector.{Vector, extend_vector, bh_vector_insert}
use wasm_trustzone.Utils.Vector.Contents.{IsVector, element, Reads, Yields, bh_vector_insert-Reads}

abbrev three : Vector
three = record {
  max_elements = 4;
  vector_data = 7 ∷ 8 ∷ 9 ∷ 0 ∷ [];
  num_elements = 3;
  size_elem = 4;
}

three-IsVector : IsVector three
three-IsVector = record { size = refl; in_bounds = omega arith }

three-extends : extend_vector (λ n. true) three 4 ≢ none
unfolding extend_vector
three-extends = ground arith

bh_vector_insert-Reads_example :
    Yields
      (Reads 4
        (λ j. if leb j 0 then element three j else if j == 1 then 5 else element three (j - 1)))
      (bh_vector_insert (λ n. true) three 0 5)
bh_vector_insert-Reads_example =
    bh_vector_insert-Reads (λ n. true) three 0 5 three-IsVector (omega arith) three-extends
