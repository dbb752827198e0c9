-- ===== src/Utils/HashMap/Old.antt =====
-- The old values that `bh_hash_map_update` and `bh_hash_map_remove` of core/shared/utils/bh_hashmap.c give
-- back.
use mathlib.Core.Option.{map}
use wasm_trustzone.Base.{
  ◌≡◌, refl, sym, false, List, [], ◌∷◌, Option, none, arith, Bool-cases, inl, inr,
}
use wasm_trustzone.Utils.HashMap.{
  KeyFuncs, HashMapElem, HashMap, Answer, chain_of, has_key, find_elem, matching, bh_hash_map_find,
  bh_hash_map_update, bh_hash_map_remove,
}

module _ {ℓ} {K : Type ℓ} {V : Type ℓ} where
  -- The value that a call gives back.
  abbrev pub old_value : Answer K V → Option V
  old_value answer = map (λ (e : HashMapElem K V). e.value) answer.old_elem

  matching-find :
      (funcs : KeyFuncs K) (key : K) (chain : List (HashMapElem K V))
      → map (λ (e : HashMapElem K V). e.value) (matching funcs key chain)
        ≡ find_elem funcs key chain
  unfolding matching find_elem
  matching-find funcs key [] = refl
  matching-find funcs key (elem ∷ chain) = elim (Bool-cases (funcs.key_equal_func elem.key key)) [
    | inl same ↦ rw same refl
    | inr other ↦ rw other (matching-find funcs key chain)
  ]

  has_key-none :
      (funcs : KeyFuncs K) (key : K) (chain : List (HashMapElem K V))
      → has_key funcs key chain ≡ false
      → find_elem funcs key chain ≡ none
  unfolding has_key find_elem
  has_key-none funcs key [] h = refl
  has_key-none funcs key (elem ∷ chain) h = elim (Bool-cases (funcs.key_equal_func elem.key key)) [
    | inl same ↦ absurd (ground (arith, same, h))
    | inr other ↦ rw other (has_key-none funcs key chain (ground (arith, other, h)))
  ]

  pub old_value-find :
      (m : HashMap K V) (key : K) (value : V)
      → (old_value (bh_hash_map_update m key value) ≡ bh_hash_map_find m key)
        × (old_value (bh_hash_map_remove m key) ≡ bh_hash_map_find m key)
  unfolding bh_hash_map_update bh_hash_map_remove bh_hash_map_find
  old_value-find m key value =
      let chain = chain_of m key in
      elim (Bool-cases (has_key m.funcs key chain)) [
        | inl found ↦ let same = matching-find m.funcs key chain in rw found (same, same)
        | inr missing ↦
            let nothing = sym (has_key-none m.funcs key chain missing) in
            rw missing (nothing, nothing)
      ]
