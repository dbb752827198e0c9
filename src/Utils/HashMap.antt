-- ===== src/Utils/HashMap.antt =====
-- core/shared/utils/bh_hashmap.c: hash maps with chains. The map and the key are not NULL, the size
-- is not 0, and the lock has no state here.
pub mod Chains
pub mod Old
pub mod Refinement
pub mod Create
mod Tests
use wasm_trustzone.Base.{
  ℕ, ◌+◌, ◌-◌, ◌*◌, ◌%◌, ◌^◌, Bool, true, false, not, ◌||◌, List, [], ◌∷◌, ◌++◌, Option, none, some,
  ltb, leb, if◌then◌else◌, get_or, set, replicate,
}

-- The functions that the map's user gives, as fields of the map.
pub record KeyFuncs {ℓ} (K : Type ℓ) : Type ℓ where
  pub hash_func : K → ℕ
  pub key_equal_func : K → K → Bool

pub record HashMapElem {ℓ} (K : Type ℓ) (V : Type ℓ) : Type ℓ where
  pub key : K
  pub value : V

pub record HashMap {ℓ} (K : Type ℓ) (V : Type ℓ) : Type ℓ where
  pub size : ℕ
  pub funcs : KeyFuncs K
  pub elements : List (List (HashMapElem K V))

-- The map behind a call, its result, and the element whose key and value go to `p_old_key` and
-- `p_old_value`.
pub record Answer {ℓ} (K : Type ℓ) (V : Type ℓ) : Type ℓ where
  pub map : HashMap K V
  pub result : Bool
  pub old_elem : Option (HashMapElem K V)

module _ {ℓ} {K : Type ℓ} {V : Type ℓ} where
  -- `header` and `lock_size` are the sizes of the structure and of a lock, `allocated` says whether
  -- there is room, and `lock_made` whether the lock can be made; an element has 24 bytes.
  unfoldable pub bh_hash_map_create :
      ℕ → ℕ → Bool → Bool → ℕ → Bool → KeyFuncs K → Option (HashMap K V)
  bh_hash_map_create header lock_size allocated lock_made size use_lock funcs =
      let total_size = header + 24 * size + (if use_lock then lock_size else 0) in
      if ltb 65536 size
      then none
      else if leb (2 ^ 32 - 1) total_size || not allocated
      then none
      else if not (not use_lock || lock_made)
      then none
      else some (record { size = size; funcs = funcs; elements = replicate size [] })

  unfoldable pub index_of : HashMap K V → K → ℕ
  index_of m key = m.funcs.hash_func key % m.size

  unfoldable pub chain_of : HashMap K V → K → List (HashMapElem K V)
  chain_of m key = get_or m.elements (index_of m key) []

  unfoldable pub has_key : KeyFuncs K → K → List (HashMapElem K V) → Bool
  has_key funcs key [] = false
  has_key funcs key (elem ∷ chain) =
      let rest = has_key funcs key chain in if funcs.key_equal_func elem.key key then true else rest

  unfoldable pub bh_hash_map_insert : Bool → HashMap K V → K → V → Answer K V
  bh_hash_map_insert allocated m key value =
      let chain = chain_of m key in
      if has_key m.funcs key chain
      then record { map = m; result = false; old_elem = none }
      else if not allocated
      then record { map = m; result = false; old_elem = none }
      else record {
        map = record m {
          elements = set m.elements (index_of m key) (record { key = key; value = value } ∷ chain);
        };
        result = true;
        old_elem = none;
      }

  unfoldable pub find_elem : KeyFuncs K → K → List (HashMapElem K V) → Option V
  find_elem funcs key [] = none
  find_elem funcs key (elem ∷ chain) =
      let rest = find_elem funcs key chain in
      if funcs.key_equal_func elem.key key then some elem.value else rest

  -- `none` is NULL.
  unfoldable pub bh_hash_map_find : HashMap K V → K → Option V
  bh_hash_map_find m key = find_elem m.funcs key (chain_of m key)

  -- The element where the loops of the next two functions stop.
  unfoldable pub matching : KeyFuncs K → K → List (HashMapElem K V) → Option (HashMapElem K V)
  matching funcs key [] = none
  matching funcs key (elem ∷ chain) =
      let rest = matching funcs key chain in
      if funcs.key_equal_func elem.key key then some elem else rest

  unfoldable pub update_elem : KeyFuncs K → K → V → List (HashMapElem K V) → List (HashMapElem K V)
  update_elem funcs key value [] = []
  update_elem funcs key value (elem ∷ chain) =
      let rest = update_elem funcs key value chain in
      if funcs.key_equal_func elem.key key
      then record elem { value = value } ∷ chain
      else elem ∷ rest

  unfoldable pub bh_hash_map_update : HashMap K V → K → V → Answer K V
  bh_hash_map_update m key value =
      let chain = chain_of m key in
      if has_key m.funcs key chain
      then record {
        map = record m {
          elements = set m.elements (index_of m key) (update_elem m.funcs key value chain);
        };
        result = true;
        old_elem = matching m.funcs key chain;
      }
      else record { map = m; result = false; old_elem = none }

  unfoldable pub remove_elem : KeyFuncs K → K → List (HashMapElem K V) → List (HashMapElem K V)
  remove_elem funcs key [] = []
  remove_elem funcs key (elem ∷ chain) =
      let rest = remove_elem funcs key chain in
      if funcs.key_equal_func elem.key key then chain else elem ∷ rest

  unfoldable pub bh_hash_map_remove : HashMap K V → K → Answer K V
  bh_hash_map_remove m key =
      let chain = chain_of m key in
      if has_key m.funcs key chain
      then record {
        map = record m {
          elements = set m.elements (index_of m key) (remove_elem m.funcs key chain);
        };
        result = true;
        old_elem = matching m.funcs key chain;
      }
      else record { map = m; result = false; old_elem = none }

  -- The elements in the order in which they are handed to the functions that destroy their keys and
  -- their values.
  unfoldable pub bh_hash_map_destroy : List (List (HashMapElem K V)) → List (HashMapElem K V)
  bh_hash_map_destroy [] = []
  bh_hash_map_destroy (chain ∷ elements) = chain ++ bh_hash_map_destroy elements
