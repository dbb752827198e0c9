-- ===== src/Utils/Vector.antt =====
-- The growing array: core/shared/utils/bh_vector.c. An element is one value, so the array holds as
-- many values as `max_elements`; `size_elem`, which enters into the growth, is kept. A pointer that
-- the functions test is never NULL here.
pub mod Shifts
pub mod Contents
mod Tests
use wasm_trustzone.Base.{
  ℕ, zero, suc, ◌+◌, ◌-◌, ◌*◌, ◌/◌, ◌%◌, ◌^◌, Bool, true, false, not, ◌||◌, List, [], ◌∷◌, ◌++◌,
  Option, none, some, ltb, leb, ◌==◌, if◌then◌else◌, get_elem?, get_or, set, replicate, drop,
}

pub record Vector : Type 0 where
  pub max_elements : ℕ
  pub vector_data : List ℕ
  pub num_elements : ℕ
  pub size_elem : ℕ

-- `malloc` answers for a block of so many bytes; a fresh block is cleared.
pub alloc_vector_data : (ℕ → Bool) → ℕ → ℕ → Option (List ℕ)
alloc_vector_data malloc length size_elem =
    if ltb (2 ^ 32 - 1) (size_elem * length) || not (malloc (size_elem * length))
    then none
    else some (replicate length 0)

-- The new length of `extend_vector`.
pub grown_length : Vector → ℕ → ℕ
grown_length v length =
    let least = v.size_elem * 3 % 2 ^ 32 / 2 in if ltb length least then least else length

pub extend_vector : (ℕ → Bool) → Vector → ℕ → Option Vector
extend_vector malloc v length =
    if leb length v.max_elements
    then some v
    else elim (alloc_vector_data malloc (grown_length v length) v.size_elem) [
      | none ↦ none
      | some fresh ↦ some (record v {
        vector_data = v.vector_data ++ drop v.max_elements fresh;
        max_elements = grown_length v length;
      })
    ]

pub bh_vector_init : (ℕ → Bool) → ℕ → ℕ → Option Vector
bh_vector_init malloc init_length size_elem =
    let length = if init_length == 0 then 4 else init_length in
    elim (alloc_vector_data malloc length size_elem) [
      | none ↦ none
      | some fresh ↦ some (record {
        max_elements = length;
        vector_data = fresh;
        num_elements = 0;
        size_elem = size_elem;
      })
    ]

pub bh_vector_set : Vector → ℕ → ℕ → Option Vector
bh_vector_set v index elem_buf =
    if leb v.num_elements index
    then none
    else some (record v { vector_data = set v.vector_data index elem_buf })

pub bh_vector_get : Vector → ℕ → Option ℕ
bh_vector_get v index =
    if leb v.num_elements index then none else some (get_or v.vector_data index 0)

-- The loop of `bh_vector_insert`: so many rounds from the place p downwards.
pub shift_up : ℕ → ℕ → List ℕ → List ℕ
shift_up zero p xs = xs
shift_up (suc rounds) p xs = shift_up rounds (p - 1) (set xs p (get_or xs (p - 1) 0))

pub bh_vector_insert : (ℕ → Bool) → Vector → ℕ → ℕ → Option Vector
bh_vector_insert malloc v index elem_buf =
    if leb v.num_elements index then none else elim (extend_vector malloc v (v.num_elements + 1)) [
      | none ↦ none
      | some w ↦
          let rounds = w.num_elements - 1 - index in
          let shifted = shift_up rounds w.num_elements w.vector_data in
          some (record w {
            vector_data = set shifted (w.num_elements - rounds) elem_buf;
            num_elements = w.num_elements + 1;
          })
    ]

pub bh_vector_append : (ℕ → Bool) → Vector → ℕ → Option Vector
bh_vector_append malloc v elem_buf = elim (extend_vector malloc v (v.num_elements + 1)) [
  | none ↦ none
  | some w ↦ some (record w {
    vector_data = set w.vector_data w.num_elements elem_buf;
    num_elements = w.num_elements + 1;
  })
]

-- The loop of `bh_vector_remove`, from the place p upwards.
pub shift_down : ℕ → ℕ → List ℕ → List ℕ
shift_down zero p xs = xs
shift_down (suc rounds) p xs = shift_down rounds (p + 1) (set xs p (get_or xs (p + 1) 0))

-- The removed element comes with the vector.
pub bh_vector_remove : Vector → ℕ → Option (ℕ × Vector)
bh_vector_remove v index =
    if leb v.num_elements index
    then none
    else some (
      get_or v.vector_data index 0,
      record v {
        vector_data = shift_down (v.num_elements - 1 - index) index v.vector_data;
        num_elements = v.num_elements - 1;
      },
    )

pub bh_vector_size : Vector → ℕ
bh_vector_size v = v.num_elements
