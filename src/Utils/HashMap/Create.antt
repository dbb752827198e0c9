-- ===== src/Utils/HashMap/Create.antt =====
-- A new hash map.
use wasm_trustzone.Base.{
  ℕ, zero, suc, ◌+◌, ◌-◌, ◌*◌, ◌^◌, ◌<◌, Bool, not, ◌||◌, [], Defined, ltb, leb, if◌then◌else◌,
  if-both, length-replicate, replicate,
}
use wasm_trustzone.Utils.HashMap.{KeyFuncs, bh_hash_map_create}
use wasm_trustzone.Utils.HashMap.Chains.{Distinct}
use wasm_trustzone.Utils.HashMap.Refinement.{IsHashMap, AreDistinct}

module _ {ℓ} {K : Type ℓ} (V : Type ℓ) where
  replicate-AreDistinct : (funcs : KeyFuncs K) (n : ℕ) → AreDistinct {V = V} funcs (replicate n [])
  unfolding AreDistinct Distinct
  replicate-AreDistinct funcs zero = tt
  replicate-AreDistinct funcs (suc n) = (tt, replicate-AreDistinct funcs n)

  -- A new map is well formed.
  bh_hash_map_create-IsHashMap :
      (header lock_size : ℕ) (allocated lock_made : Bool) (size : ℕ) (use_lock : Bool)
      (funcs : KeyFuncs K)
      → 0 < size
      → Defined IsHashMap
          (bh_hash_map_create {V = V} header lock_size allocated lock_made size use_lock funcs)
  unfolding bh_hash_map_create IsHashMap Defined
  bh_hash_map_create-IsHashMap header lock_size allocated lock_made size use_lock funcs h =
      let total_size = header + 24 * size + (if use_lock then lock_size else 0) in
      if-both (Defined IsHashMap) (ltb 65536 size) tt (
        if-both (Defined IsHashMap) (leb (2 ^ 32 - 1) total_size || not allocated) tt (
          if-both (Defined IsHashMap) (not (not use_lock || lock_made)) tt
            (h, (length-replicate size [], replicate-AreDistinct funcs size))))
