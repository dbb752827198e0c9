-- ===== src/Utils/HashMap/Tests.antt =====
-- A hash map of numbers.
use wasm_trustzone.Base.{ℕ, ◌≡◌, refl, true, not, ◌&&◌, ◌==◌, [], ◌∷◌, none, some, arith}
use wasm_trustzone.Utils.HashMap.{
  KeyFuncs, HashMap, bh_hash_map_create, bh_hash_map_insert, bh_hash_map_find, bh_hash_map_update,
  bh_hash_map_remove, find_elem, chain_of, index_of,
}
use wasm_trustzone.Utils.HashMap.Chains.{AreLawful, Distinct, Without}
use wasm_trustzone.Utils.HashMap.Old.{old_value}
use wasm_trustzone.Utils.HashMap.Refinement.{
  IsHashMap, AreDistinct, Behaves, present, bh_hash_map-Behaves,
}

abbrev number_keys : KeyFuncs ℕ
number_keys = record { hash_func = λ key. key; key_equal_func = λ a b. a == b }

number_keys-AreLawful : AreLawful number_keys
number_keys-AreLawful = record {
  equal_refl = λ a. ground arith;
  equal_symm = λ a b. ground arith;
  equal_trans = λ a b c e f. ground arith;
  hash-equal = λ a b e. ground arith;
}

abbrev two_chains : HashMap ℕ ℕ
two_chains = record {
  size = 2;
  funcs = number_keys;
  elements = (record { key = 4; value = 40 } ∷ record { key = 2; value = 20 } ∷ []) ∷ [] ∷ [];
}

empty_created :
    bh_hash_map_create {V = ℕ} 64 40 true true 2 true number_keys
    ≡ some (record { size = 2; funcs = number_keys; elements = [] ∷ [] ∷ [] })
unfolding bh_hash_map_create
empty_created = refl

two_found : bh_hash_map_find two_chains 2 ≡ some 20
unfolding bh_hash_map_find find_elem chain_of index_of
two_found = refl

two_chains-IsHashMap : IsHashMap two_chains
unfolding IsHashMap AreDistinct Distinct Without
two_chains-IsHashMap = (omega arith, (refl, (((refl, tt), (tt, tt)), (tt, tt))))

bh_hash_map-Behaves_example :
    Behaves two_chains
      (not (present (bh_hash_map_find two_chains 2)) && true)
      2
      (some 7)
      4
      (bh_hash_map_insert true two_chains 2 7)
    × (Behaves two_chains
          (present (bh_hash_map_find two_chains 2))
          2
          (some 7)
          4
          (bh_hash_map_update two_chains 2 7)
        × Behaves two_chains
            (present (bh_hash_map_find two_chains 2))
            2
            none
            4
            (bh_hash_map_remove two_chains 2))
    × ((old_value (bh_hash_map_update two_chains 2 7) ≡ bh_hash_map_find two_chains 2)
        × (old_value (bh_hash_map_remove two_chains 2) ≡ bh_hash_map_find two_chains 2))
bh_hash_map-Behaves_example =
    bh_hash_map-Behaves true two_chains 2 4 7 number_keys-AreLawful two_chains-IsHashMap
