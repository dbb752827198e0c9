-- ===== src/Utils/HashMap/Refinement.antt =====
-- A hash map is a finite map: what a lookup gives after each operation.
use wasm_trustzone.Base.{
  ℕ, zero, suc, ◌%◌, ◌<◌, ◌≡◌, refl, sym, ◌∙◌, ap, Bool, true, false, not, ◌&&◌, List, [], ◌∷◌,
  Option, none, some, arith, ◌==◌, if◌then◌else◌, Bool-cases, inl, inr, length, length-set, get_or,
  set,
}
use native.Mathlib.Nat.{mod-lt}
use wasm_trustzone.Utils.HashMap.{
  KeyFuncs, HashMapElem, HashMap, Answer, index_of, chain_of, has_key, find_elem, update_elem,
  remove_elem, bh_hash_map_insert, bh_hash_map_find, bh_hash_map_update, bh_hash_map_remove,
}
use wasm_trustzone.Utils.HashMap.Chains.{
  AreLawful, Distinct, has_key-Without, find_elem-update_elem, find_elem-remove_elem,
  Distinct-update_elem, Distinct-remove_elem,
}
use wasm_trustzone.Utils.HashMap.Old.{old_value, old_value-find}

module _ {ℓ} {A : Type ℓ} where
  get_or-set :
      (xs : List A) (i : ℕ) (v : A) (j : ℕ) (d : A)
      → i < length xs
      → get_or (set xs i v) j d ≡ (if j == i then v else get_or xs j d)
  get_or-set [] i v j d h = absurd (omega arith)
  get_or-set (x ∷ xs) zero v zero d h = ground arith
  get_or-set (x ∷ xs) zero v (suc j) d h = ground arith
  get_or-set (x ∷ xs) (suc i) v zero d h = ground arith
  get_or-set (x ∷ xs) (suc i) v (suc j) d h = ground (arith, get_or-set xs i v j d)

  -- Whether a lookup gives a value.
  unfoldable pub present : Option A → Bool
  present none = false
  present (some value) = true

module _ {ℓ} {K : Type ℓ} {V : Type ℓ} where
  unfoldable pub AreDistinct : KeyFuncs K → List (List (HashMapElem K V)) → Type 0
  AreDistinct funcs [] = Unit
  AreDistinct funcs (chain ∷ elements) = Distinct funcs chain × AreDistinct funcs elements

  -- There is a chain for every index, and no two keys of a chain are equal.
  unfoldable pub IsHashMap : HashMap K V → Type 0
  IsHashMap m = (0 < m.size) × ((length m.elements ≡ m.size) × AreDistinct m.funcs m.elements)

  get_or-Distinct :
      (funcs : KeyFuncs K) (elements : List (List (HashMapElem K V))) (i : ℕ)
      → AreDistinct funcs elements
      → Distinct funcs (get_or elements i [])
  unfolding AreDistinct Distinct
  get_or-Distinct funcs [] i h = tt
  get_or-Distinct funcs (chain ∷ elements) zero (h, hs) = h
  get_or-Distinct funcs (chain ∷ elements) (suc i) (h, hs) = get_or-Distinct funcs elements i hs

  set-AreDistinct :
      (funcs : KeyFuncs K) (elements : List (List (HashMapElem K V))) (i : ℕ)
      (chain : List (HashMapElem K V))
      → AreDistinct funcs elements
      → Distinct funcs chain
      → AreDistinct funcs (set elements i chain)
  unfolding AreDistinct
  set-AreDistinct funcs [] i chain h k = tt
  set-AreDistinct funcs (c ∷ elements) zero chain (h, hs) k = (k, hs)
  set-AreDistinct funcs (c ∷ elements) (suc i) chain (h, hs) k =
      (h, set-AreDistinct funcs elements i chain hs k)

  -- A chain in place of the one that a key belongs to.
  unfoldable pub changed : HashMap K V → K → List (HashMapElem K V) → HashMap K V
  changed m key chain = record m { elements = set m.elements (index_of m key) chain }

  changed-IsHashMap :
      (m : HashMap K V) (key : K) (chain : List (HashMapElem K V))
      → IsHashMap m
      → Distinct m.funcs chain
      → IsHashMap (changed m key chain)
  unfolding changed IsHashMap
  changed-IsHashMap m key chain (some_size, (len, distinct)) h = (
    some_size,
    (
      length-set m.elements (index_of m key) chain ∙ len,
      set-AreDistinct m.funcs m.elements (index_of m key) chain distinct h,
    ),
  )

  bh_hash_map_find-changed :
      (m : HashMap K V) (key k : K) (chain : List (HashMapElem K V)) (new : Option V)
      → AreLawful m.funcs
      → IsHashMap m
      → find_elem m.funcs k chain
        ≡ (if m.funcs.key_equal_func key k then new else find_elem m.funcs k (chain_of m key))
      → bh_hash_map_find (changed m key chain) k
        ≡ (if m.funcs.key_equal_func key k then new else bh_hash_map_find m k)
  unfolding changed IsHashMap bh_hash_map_find chain_of index_of
  bh_hash_map_find-changed m key k chain new laws (some_size, (len, distinct)) h =
      let i = m.funcs.hash_func key % m.size in
      let j = m.funcs.hash_func k % m.size in
      let below : i < length m.elements =
        omega (arith, len, mod-lt (m.funcs.hash_func key) some_size) in
      let there = get_or-set m.elements i chain j [] below in
      elim (Bool-cases (j == i)) [
        | inl same ↦
            let index : i ≡ j = ground (arith, same) in
            rw (there, same)
              (h
                ∙ ap
                    (λ n.
                      if m.funcs.key_equal_func key k
                      then new
                      else find_elem m.funcs k (get_or m.elements n []))
                    index)
        | inr other ↦ elim (Bool-cases (m.funcs.key_equal_func key k)) [
          | inl equal ↦
              let index : i ≡ j = ap (λ n. n % m.size) (laws.hash-equal key k equal) in
              absurd (ground (arith, index, other))
          | inr unequal ↦ rw (there, other, unequal) refl
        ]
      ]

  has_key-present :
      (funcs : KeyFuncs K) (key : K) (chain : List (HashMapElem K V))
      → has_key funcs key chain ≡ present (find_elem funcs key chain)
  unfolding has_key find_elem present
  has_key-present funcs key [] = refl
  has_key-present funcs key (elem ∷ chain) = elim (Bool-cases (funcs.key_equal_func elem.key key)) [
    | inl same ↦ rw same refl
    | inr other ↦ rw other (has_key-present funcs key chain)
  ]

  -- What a call promises: its result, what a lookup gives behind it, and a map that is well formed.
  unfoldable pub Behaves : HashMap K V → Bool → K → Option V → K → Answer K V → Type ℓ
  Behaves m done key new k answer =
      (answer.result ≡ done)
      × ((bh_hash_map_find answer.map k
            ≡ (if done && m.funcs.key_equal_func key k then new else bh_hash_map_find m k))
          × IsHashMap answer.map)

  same-Behaves :
      (m : HashMap K V) (key k : K) (new : Option V)
      → IsHashMap m
      → Behaves m false key new k (record { map = m; result = false; old_elem = none })
  unfolding Behaves
  same-Behaves m key k new ok = (refl, (refl, ok))

  changed-Behaves :
      (m : HashMap K V) (key k : K) (chain : List (HashMapElem K V)) (new : Option V)
      (old : Option (HashMapElem K V))
      → AreLawful m.funcs
      → IsHashMap m
      → Distinct m.funcs chain
      → find_elem m.funcs k chain
        ≡ (if m.funcs.key_equal_func key k then new else find_elem m.funcs k (chain_of m key))
      → Behaves m true key new k
          (record { map = changed m key chain; result = true; old_elem = old })
  unfolding Behaves
  changed-Behaves m key k chain new old laws ok distinct h = (
    refl,
    (
      bh_hash_map_find-changed m key k chain new laws ok h,
      changed-IsHashMap m key chain ok distinct,
    ),
  )

  chain_of-Distinct : (m : HashMap K V) (key : K) → IsHashMap m → Distinct m.funcs (chain_of m key)
  unfolding chain_of IsHashMap
  chain_of-Distinct m key (some_size, (len, distinct)) =
      get_or-Distinct m.funcs m.elements (index_of m key) distinct

  bh_hash_map_insert-Behaves :
      (allocated : Bool) (m : HashMap K V) (key k : K) (value : V)
      → AreLawful m.funcs
      → IsHashMap m
      → Behaves m
          (not (present (bh_hash_map_find m key)) && allocated)
          key
          (some value)
          k
          (bh_hash_map_insert allocated m key value)
  unfolding bh_hash_map_insert bh_hash_map_find changed find_elem Distinct
  bh_hash_map_insert-Behaves allocated m key k value laws ok =
      let there = has_key-present m.funcs key (chain_of m key) in
      elim (Bool-cases (has_key m.funcs key (chain_of m key))) [
        | inl found ↦
            let here = sym there ∙ found in rw (found, here) (same-Behaves m key k (some value) ok)
        | inr missing ↦
            let absent = sym there ∙ missing in
            elim (Bool-cases allocated) [
              | inl room ↦
                  rw (missing, absent, room)
                    (changed-Behaves m key k (record { key = key; value = value } ∷ chain_of m key)
                      (some value) _ laws ok
                      (
                        has_key-Without m.funcs key (chain_of m key) missing,
                        chain_of-Distinct m key ok,
                      )
                      refl)
              | inr full ↦ rw (missing, absent, full) (same-Behaves m key k (some value) ok)
            ]
      ]

  bh_hash_map_update-Behaves :
      (m : HashMap K V) (key k : K) (value : V)
      → AreLawful m.funcs
      → IsHashMap m
      → Behaves m
          (present (bh_hash_map_find m key))
          key
          (some value)
          k
          (bh_hash_map_update m key value)
  unfolding bh_hash_map_update bh_hash_map_find changed
  bh_hash_map_update-Behaves m key k value laws ok =
      let there = has_key-present m.funcs key (chain_of m key) in
      elim (Bool-cases (has_key m.funcs key (chain_of m key))) [
        | inl found ↦
            let here = sym there ∙ found in
            let lookup = find_elem-update_elem m.funcs laws key k value (chain_of m key) in
            rw (found, here)
              (changed-Behaves m key k (update_elem m.funcs key value (chain_of m key)) (some value)
                _ laws ok
                (Distinct-update_elem m.funcs key value (chain_of m key)
                  (chain_of-Distinct m key ok))
                (lookup
                  ∙ ap
                      (λ b.
                        if b && m.funcs.key_equal_func key k
                        then some value
                        else find_elem m.funcs k (chain_of m key))
                      found))
        | inr missing ↦
            let absent = sym there ∙ missing in
            rw (missing, absent) (same-Behaves m key k (some value) ok)
      ]

  bh_hash_map_remove-Behaves :
      (m : HashMap K V) (key k : K)
      → AreLawful m.funcs
      → IsHashMap m
      → Behaves m (present (bh_hash_map_find m key)) key none k (bh_hash_map_remove m key)
  unfolding bh_hash_map_remove bh_hash_map_find changed
  bh_hash_map_remove-Behaves m key k laws ok =
      let there = has_key-present m.funcs key (chain_of m key) in
      elim (Bool-cases (has_key m.funcs key (chain_of m key))) [
        | inl found ↦
            let here = sym there ∙ found in
            rw (found, here)
              (changed-Behaves m key k (remove_elem m.funcs key (chain_of m key)) none _ laws ok
                (Distinct-remove_elem m.funcs key (chain_of m key) (chain_of-Distinct m key ok))
                (find_elem-remove_elem m.funcs laws key k (chain_of m key)
                  (chain_of-Distinct m key ok)))
        | inr missing ↦
            let absent = sym there ∙ missing in rw (missing, absent) (same-Behaves m key k none ok)
      ]

  -- On a well-formed map with lawful functions, an insertion adds a key that is not there, where there
  -- is room, an update changes the value of one that is, and a removal takes one away: so say the
  -- result and what a lookup of any key gives afterwards, and the map stays well formed; an update and a
  -- removal give back the value that a lookup of the key gave before.
  pub bh_hash_map-Behaves :
      (allocated : Bool) (m : HashMap K V) (key k : K) (value : V)
      → AreLawful m.funcs
      → IsHashMap m
      → Behaves m
          (not (present (bh_hash_map_find m key)) && allocated)
          key
          (some value)
          k
          (bh_hash_map_insert allocated m key value)
        × (Behaves m
              (present (bh_hash_map_find m key))
              key
              (some value)
              k
              (bh_hash_map_update m key value)
            × Behaves m (present (bh_hash_map_find m key)) key none k (bh_hash_map_remove m key))
        × ((old_value (bh_hash_map_update m key value) ≡ bh_hash_map_find m key)
            × (old_value (bh_hash_map_remove m key) ≡ bh_hash_map_find m key))
  bh_hash_map-Behaves allocated m key k value laws ok = (
    bh_hash_map_insert-Behaves allocated m key k value laws ok,
    (bh_hash_map_update-Behaves m key k value laws ok, bh_hash_map_remove-Behaves m key k laws ok),
    old_value-find m key value,
  )
