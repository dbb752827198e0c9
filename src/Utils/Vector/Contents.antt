-- ===== src/Utils/Vector/Contents.antt =====
-- The operations of bh_vector.c on the elements of a vector, place by place.
use wasm_trustzone.Base.{
  ℕ, zero, suc, ◌+◌, ◌-◌, ◌*◌, ◌^◌, ◌≤◌, ◌<◌, ◌≡◌, refl, ◌∙◌, ap, Bool, false, not, ◌||◌, List, [],
  ◌∷◌, ◌++◌, Option, none, some, arith, ltb, leb, leb→le, ◌==◌, if◌then◌else◌, length, length-set,
  length-append, length-drop, length-replicate, get_or, set, drop, Bool-cases, Option-cases, subst,
  inl, inr, Defined, ◌≢◌,
}
use wasm_trustzone.Utils.Vector.{
  Vector, alloc_vector_data, grown_length, extend_vector, bh_vector_insert, bh_vector_remove,
  shift_up,
}
use wasm_trustzone.Utils.Vector.Shifts.{
  length-shift_up, length-shift_down, get_or-set_self, get_or-set_ne, get_or-shift_up_inside,
  get_or-shift_up_outside, get_or-shift_down,
}

-- The elements fit the array, and the array is as long as it is said to be.
pub record IsVector (v : Vector) : Type 0 where
  pub size : length v.vector_data ≡ v.max_elements
  pub in_bounds : v.num_elements ≤ v.max_elements

abbrev pub element : Vector → ℕ → ℕ
element v j = get_or v.vector_data j 0

-- The vector, and at every place below the number of elements what `at` says.
pub record Reads (n : ℕ) (at : ℕ → ℕ) (v : Vector) : Type 0 where
  pub is_vector : IsVector v
  pub count : v.num_elements ≡ n
  pub elements : (j : ℕ) → j < n → element v j ≡ at j

-- There is a result, with the property.
unfoldable pub Yields : {A : Type 0} → (A → Type 0) → Option A → Type 0
Yields P none = ⊥
Yields P (some a) = P a

-- A removal below the number of elements succeeds: every element from the place on moves down by one, the others stay,
-- and what comes out is the element that stood there; the vector stays within its array.
pub bh_vector_remove-Reads :
    (v : Vector) (index : ℕ)
    → IsVector v
    → index < v.num_elements
    → Yields
        (λ (r : ℕ × Vector).
          (r.0 ≡ element v index)
          × Reads
              (v.num_elements - 1)
              (λ j. if ltb j index then element v j else element v (j + 1))
              r.1)
        (bh_vector_remove v index)
unfolding bh_vector_remove Yields
bh_vector_remove-Reads v index h inside =
    let present : leb v.num_elements index ≡ false = ground arith in
    let k = v.num_elements - 1 - index in
    rw present (
      refl,
      record {
        is_vector = record {
          size = length-shift_down k index v.vector_data ∙ h.size;
          in_bounds = omega (arith, h.in_bounds);
        };
        count = refl;
        elements = λ j lt.
            ground (
              arith,
              get_or-shift_down k index j v.vector_data (omega (arith, h.size, h.in_bounds)),
            );
      },
    )

-- There is room for one more element.
record Roomy (v w : Vector) : Type 0 where
  is_vector : IsVector w
  count : w.num_elements ≡ v.num_elements
  room : v.num_elements < w.max_elements
  kept : (j : ℕ) → j < v.num_elements → element w j ≡ element v j

get_or-append : (xs ys : List ℕ) (m : ℕ) → m < length xs → get_or (xs ++ ys) m 0 ≡ get_or xs m 0
get_or-append [] ys m h = absurd (omega arith)
get_or-append (x ∷ xs) ys zero h = refl
get_or-append (x ∷ xs) ys (suc m) h = get_or-append xs ys m (omega arith)

grown_length-ge : (v : Vector) (n : ℕ) → n ≤ grown_length v n
unfolding grown_length
grown_length-ge v n = ground arith

alloc_vector_data-length :
    (malloc : ℕ → Bool) (n size_elem : ℕ)
    → Defined (λ fresh. length fresh ≡ n) (alloc_vector_data malloc n size_elem)
unfolding alloc_vector_data Defined
alloc_vector_data-length malloc n size_elem =
    elim (Bool-cases (ltb (2 ^ 32 - 1) (size_elem * n) || not (malloc (size_elem * n)))) [
      | inl refused ↦ rw refused tt
      | inr granted ↦ rw granted (length-replicate n 0)
    ]

extend_vector-Roomy :
    (malloc : ℕ → Bool) (v : Vector)
    → IsVector v
    → Defined (Roomy v) (extend_vector malloc v (v.num_elements + 1))
unfolding extend_vector Defined
extend_vector-Roomy malloc v h = elim (Bool-cases (leb (v.num_elements + 1) v.max_elements)) [
  | inl enough ↦
      rw enough (record { is_vector = h; count = refl; room = ground arith; kept = λ j lt. refl })
  | inr full ↦
      let n = grown_length v (v.num_elements + 1) in
      let more : v.max_elements < v.num_elements + 1 = ground arith in
      elim (Option-cases (alloc_vector_data malloc n v.size_elem)) [
        | inl refused ↦ rw (full, refused) tt
        | inr (fresh, granted) ↦
            let ge = grown_length-ge v (v.num_elements + 1) in
            let long : length fresh ≡ n =
              subst (Defined (λ fresh. length fresh ≡ n)) granted
                (alloc_vector_data-length malloc n v.size_elem) in
            rw (full, granted)
              (record {
                is_vector = record {
                  size =
                      length-append v.vector_data (drop v.max_elements fresh)
                      ∙ omega
                          (arith, length-drop v.max_elements fresh, long, h.size, h.in_bounds, ge);
                  in_bounds = omega (arith, ge);
                };
                count = refl;
                room = omega (arith, ge);
                kept = λ j lt.
                    get_or-append v.vector_data (drop v.max_elements fresh) j
                      (omega (arith, h.size, h.in_bounds));
              })
      ]
]

-- The places of the array after the loop of an insertion and the write.
inserted :
    (n index elem_buf j : ℕ) (xs : List ℕ)
    → index < n
    → n < length xs
    → j ≤ n
    → get_or (set (shift_up (n - 1 - index) n xs) (n - (n - 1 - index)) elem_buf) j 0 ≡ (
        if leb j index
        then get_or xs j 0
        else if j == index + 1
        then elem_buf
        else get_or xs (j - 1) 0)
inserted n index elem_buf j xs inside room below =
    let k = n - 1 - index in
    let shifted = shift_up k n xs in
    let place : n - k ≡ index + 1 = omega arith in
    let same_length = length-shift_up k n xs in
    elim (Bool-cases (leb j index)) [
      | inl low ↦ rw low (
          get_or-set_ne shifted (n - k) elem_buf j (omega (arith, leb→le j index low))
          ∙ get_or-shift_up_outside k n j xs (omega arith)
              (inl (omega (arith, leb→le j index low))))
      | inr high ↦ elim (Bool-cases (j == index + 1)) [
        | inl here ↦
            let e : j ≡ n - k = ground arith in
            rw (high, here)
              (ap (λ m. get_or (set shifted (n - k) elem_buf) m 0) e
                ∙ get_or-set_self shifted (n - k) elem_buf (omega (arith, same_length)))
        | inr above ↦
            let up : index + 1 < j = ground arith in
            rw (high, above)
              (get_or-set_ne shifted (n - k) elem_buf j (omega arith)
                ∙ get_or-shift_up_inside k n j xs (omega arith) room (omega arith) below)
      ]
    ]

insert_into :
    (v w : Vector) (index elem_buf : ℕ)
    → Roomy v w
    → index < v.num_elements
    → Reads
        (v.num_elements + 1)
        (λ j.
          if leb j index
          then element v j
          else if j == index + 1
          then elem_buf
          else element v (j - 1))
        (record w {
          vector_data =
              set
                (shift_up (w.num_elements - 1 - index) w.num_elements w.vector_data)
                (w.num_elements - (w.num_elements - 1 - index))
                elem_buf;
          num_elements = w.num_elements + 1;
        })
insert_into v w index elem_buf roomy inside =
    let k = w.num_elements - 1 - index in
    let long = roomy.is_vector.size in
    record {
      is_vector = record {
        size =
            length-set (shift_up k w.num_elements w.vector_data) (w.num_elements - k) elem_buf
            ∙ length-shift_up k w.num_elements w.vector_data
            ∙ long;
        in_bounds = omega (arith, roomy.count, roomy.room);
      };
      count = omega (arith, roomy.count);
      elements = λ j lt.
          inserted w.num_elements index elem_buf j w.vector_data (omega (arith, roomy.count))
            (omega (arith, long, roomy.count, roomy.room)) (omega (arith, roomy.count))
          ∙ ground (arith, roomy.kept j, roomy.kept (j - 1));
    }

-- Where the array can be extended, an insertion below the number of elements succeeds: the element
-- comes behind the place named, what stood behind that place moves up by one, the others stay; the
-- vector stays within its array.
pub bh_vector_insert-Reads :
    (malloc : ℕ → Bool) (v : Vector) (index elem_buf : ℕ)
    → IsVector v
    → index < v.num_elements
    → extend_vector malloc v (v.num_elements + 1) ≢ none
    → Yields
        (Reads (v.num_elements + 1) (λ j.
          if leb j index
          then element v j
          else if j == index + 1
          then elem_buf
          else element v (j - 1)))
        (bh_vector_insert malloc v index elem_buf)
unfolding bh_vector_insert Yields Defined
bh_vector_insert-Reads malloc v index elem_buf h inside extends =
    let present : leb v.num_elements index ≡ false = ground arith in
    elim (Option-cases (extend_vector malloc v (v.num_elements + 1))) [
      | inl refused ↦ absurd (extends refused)
      | inr (w, extended) ↦
          let roomy = subst (Defined (Roomy v)) extended (extend_vector-Roomy malloc v h) in
          rw (present, extended) (insert_into v w index elem_buf roomy inside)
    ]
