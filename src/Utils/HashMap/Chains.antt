-- ===== src/Utils/HashMap/Chains.antt =====
-- One chain of a hash map as a finite map.
use wasm_trustzone.Base.{
  ◌≡◌, refl, sym, ◌∙◌, true, false, ◌&&◌, List, [], ◌∷◌, none, some, arith, if◌then◌else◌,
  Bool-cases, if-both, inl, inr,
}
use wasm_trustzone.Utils.HashMap.{
  KeyFuncs, HashMapElem, has_key, find_elem, update_elem, remove_elem,
}

-- What the user's functions must keep to.
pub record AreLawful {ℓ} {K : Type ℓ} (funcs : KeyFuncs K) : Type ℓ where
  pub equal_refl : (a : K) → funcs.key_equal_func a a ≡ true
  pub equal_symm : (a b : K) → funcs.key_equal_func a b ≡ funcs.key_equal_func b a
  pub equal_trans :
      (a b c : K)
      → funcs.key_equal_func a b ≡ true
      → funcs.key_equal_func b c ≡ true
      → funcs.key_equal_func a c ≡ true
  pub hash-equal :
      (a b : K) → funcs.key_equal_func a b ≡ true → funcs.hash_func a ≡ funcs.hash_func b

module _ {ℓ} {K : Type ℓ} (funcs : KeyFuncs K) (laws : AreLawful funcs) where
  -- Equal keys are equal to the same keys.
  pub equal_congr :
      (a b c : K)
      → funcs.key_equal_func a b ≡ true
      → funcs.key_equal_func a c ≡ funcs.key_equal_func b c
  equal_congr a b c e =
      ground (arith, laws.equal_symm a b, laws.equal_trans a b c, laws.equal_trans b a c)

  -- A key is not equal to what an unequal key is equal to.
  differs :
      (a b c : K)
      → funcs.key_equal_func a b ≡ false
      → funcs.key_equal_func b c ≡ true
      → funcs.key_equal_func a c ≡ false
  differs a b c h e = laws.equal_symm a c ∙ sym (equal_congr b c a e) ∙ laws.equal_symm b a ∙ h

module _ {ℓ} {K : Type ℓ} {V : Type ℓ} (funcs : KeyFuncs K) where
  -- None of the elements has a key equal to this one.
  unfoldable pub Without : K → List (HashMapElem K V) → Type 0
  Without key [] = Unit
  Without key (elem ∷ chain) = (funcs.key_equal_func elem.key key ≡ false) × Without key chain

  unfoldable pub Distinct : List (HashMapElem K V) → Type 0
  Distinct [] = Unit
  Distinct (elem ∷ chain) = Without elem.key chain × Distinct chain

  pub has_key-Without :
      (key : K) (chain : List (HashMapElem K V))
      → has_key funcs key chain ≡ false
      → Without key chain
  unfolding has_key Without
  has_key-Without key [] h = tt
  has_key-Without key (elem ∷ chain) h = elim (Bool-cases (funcs.key_equal_func elem.key key)) [
    | inl same ↦ absurd (ground (arith, same, h))
    | inr other ↦ (other, has_key-Without key chain (ground (arith, other, h)))
  ]

  pub find_elem-Without :
      (key : K) (chain : List (HashMapElem K V))
      → Without key chain
      → find_elem funcs key chain ≡ none
  unfolding find_elem Without
  find_elem-Without key [] h = refl
  find_elem-Without key (elem ∷ chain) (h, hs) = rw h (find_elem-Without key chain hs)

module _ {ℓ} {K : Type ℓ} {V : Type ℓ} (funcs : KeyFuncs K) (laws : AreLawful funcs) where
  Without-equal :
      (a b : K) (chain : List (HashMapElem K V))
      → funcs.key_equal_func a b ≡ true
      → Without funcs a chain
      → Without funcs b chain
  unfolding Without
  Without-equal a b [] e h = tt
  Without-equal a b (elem ∷ chain) e (h, hs) =
      let same = equal_congr funcs laws a b elem.key e in
      (
        laws.equal_symm elem.key b ∙ sym same ∙ laws.equal_symm a elem.key ∙ h,
        Without-equal a b chain e hs,
      )

  pub find_elem-update_elem :
      (key k : K) (value : V) (chain : List (HashMapElem K V))
      → find_elem funcs k (update_elem funcs key value chain) ≡ (
          if has_key funcs key chain && funcs.key_equal_func key k
          then some value
          else find_elem funcs k chain)
  unfolding find_elem update_elem has_key
  find_elem-update_elem key k value [] = refl
  find_elem-update_elem key k value (elem ∷ chain) =
      elim (Bool-cases (funcs.key_equal_func elem.key key)) [
        | inl same ↦
            let congr = equal_congr funcs laws elem.key key k same in
            rw same (ground (arith, congr))
        | inr other ↦
            let rest = find_elem-update_elem key k value chain in
            let apart = differs funcs laws elem.key key k other in
            rw other (ground (arith, rest, apart))
      ]

  pub find_elem-remove_elem :
      (key k : K) (chain : List (HashMapElem K V))
      → Distinct funcs chain
      → find_elem funcs k (remove_elem funcs key chain)
        ≡ (if funcs.key_equal_func key k then none else find_elem funcs k chain)
  unfolding find_elem remove_elem Distinct
  find_elem-remove_elem key k [] h = ground arith
  find_elem-remove_elem key k (elem ∷ chain) (h, hs) =
      elim (Bool-cases (funcs.key_equal_func elem.key key)) [
        | inl same ↦
            let congr = equal_congr funcs laws elem.key key k same in
            elim (Bool-cases (funcs.key_equal_func key k)) [
              | inl e ↦
                  let gone =
                    find_elem-Without funcs k chain
                      (Without-equal elem.key k chain (congr ∙ e) h) in
                  rw (same, e) gone
              | inr e ↦ let away = congr ∙ e in rw (same, e, away) refl
            ]
        | inr other ↦
            let rest = find_elem-remove_elem key k chain hs in
            let apart = differs funcs laws elem.key key k other in
            rw other (ground (arith, rest, apart))
      ]

-- What a change of a chain keeps.
module _ {ℓ} {K : Type ℓ} {V : Type ℓ} (funcs : KeyFuncs K) where
  Without-update_elem :
      (key k : K) (value : V) (chain : List (HashMapElem K V))
      → Without funcs k chain
      → Without funcs k (update_elem funcs key value chain)
  unfolding Without update_elem
  Without-update_elem key k value [] h = tt
  Without-update_elem key k value (elem ∷ chain) (h, hs) =
      if-both (Without funcs k) (funcs.key_equal_func elem.key key) (h, hs)
        (h, Without-update_elem key k value chain hs)

  pub Distinct-update_elem :
      (key : K) (value : V) (chain : List (HashMapElem K V))
      → Distinct funcs chain
      → Distinct funcs (update_elem funcs key value chain)
  unfolding Distinct update_elem
  Distinct-update_elem key value [] h = tt
  Distinct-update_elem key value (elem ∷ chain) (h, hs) =
      if-both (Distinct funcs) (funcs.key_equal_func elem.key key) (h, hs)
        (Without-update_elem key elem.key value chain h, Distinct-update_elem key value chain hs)

  Without-remove_elem :
      (key k : K) (chain : List (HashMapElem K V))
      → Without funcs k chain
      → Without funcs k (remove_elem funcs key chain)
  unfolding Without remove_elem
  Without-remove_elem key k [] h = tt
  Without-remove_elem key k (elem ∷ chain) (h, hs) =
      if-both (Without funcs k) (funcs.key_equal_func elem.key key) hs
        (h, Without-remove_elem key k chain hs)

  pub Distinct-remove_elem :
      (key : K) (chain : List (HashMapElem K V))
      → Distinct funcs chain
      → Distinct funcs (remove_elem funcs key chain)
  unfolding Distinct remove_elem
  Distinct-remove_elem key [] h = tt
  Distinct-remove_elem key (elem ∷ chain) (h, hs) =
      if-both (Distinct funcs) (funcs.key_equal_func elem.key key) hs
        (Without-remove_elem key elem.key chain h, Distinct-remove_elem key chain hs)
