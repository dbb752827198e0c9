-- ===== src/Interp/Transfer/RoundTrip.antt =====
-- What a store of core/iwasm/interpreter/wasm_interp_classic.c leaves for the loads behind it, and what
-- it leaves alone.
use wasm_trustzone.Base.{
  ℕ, ◌+◌, ◌-◌, ◌%◌, ◌^◌, ◌≤◌, ◌≡◌, refl, ap, ◌∙◌, inl, inr, true, false, Option, none, some, arith,
  length, Bool-cases,
}
use wasm_trustzone.Loader.Stack.Spec.{i32}
use wasm_trustzone.Memory.{MemoryInstance}
use wasm_trustzone.Interp.Access.{load_size, check_memory_overflow, total_mem_size}
use wasm_trustzone.Interp.Frame.{Frame, Step, done, trap, wild, ◌>>=◌, pop_value, push_value}
use wasm_trustzone.Interp.Transfer.{
  put_at, holds, fetched, stored, transfer_type, extends_sign, in_bounds, exec_load, exec_store,
}
use wasm_trustzone.Interp.Transfer.Bytes.{get_at-put_at, length-put_at}

-- What a step gives where it ends well.
abbrev pub Ends {ℓ} : {A : Type ℓ} → (A → Type 0) → Step A → Type 0
Ends P (done a) = P a
Ends P (trap e) = Unit
Ends P wild = Unit

Ends->>= {ℓ κ} :
    {A : Type ℓ} {B : Type κ} (P : A → Type 0) (Q : B → Type 0) (m : Step A) (k : A → Step B)
    → Ends P m
    → ((a : A) → P a → Ends Q (k a))
    → Ends Q (m >>= k)
Ends->>= P Q (done a) k h k_ends = k_ends a h
Ends->>= P Q (trap e) k h k_ends = tt
Ends->>= P Q wild k h k_ends = tt

Ends-map {ℓ} :
    {A : Type ℓ} (P Q : A → Type 0) (m : Step A) → ((a : A) → P a → Q a) → Ends P m → Ends Q m
Ends-map P Q (done a) k h = k a h
Ends-map P Q (trap e) k h = tt
Ends-map P Q wild k h = tt

Ends-self : {A : Type 0} (m : Step A) → Ends (λ a. m ≡ done a) m
Ends-self (done a) = refl
Ends-self (trap e) = tt
Ends-self wild = tt

abbrev written : MemoryInstance → ℕ → ℕ → ℕ → MemoryInstance
written m maddr n v = record m { bytes = put_at n (maddr - m.heap_data) v m.bytes }

stored-Ends :
    (m : MemoryInstance) (maddr n v : ℕ)
    → Ends (λ after. (holds m maddr n ≡ true) × (after ≡ written m maddr n v)) (stored m maddr n v)
unfolding stored
stored-Ends m maddr n v = elim (Bool-cases (holds m maddr n)) [
  | inl inside ↦ rw inside (refl, refl)
  | inr outside ↦ rw outside tt
]

fetched-stored :
    (m : MemoryInstance) (maddr n v : ℕ)
    → holds m maddr n ≡ true
    → fetched (written m maddr n v) maddr n ≡ done (v % 256 ^ n)
unfolding fetched holds
fetched-stored m maddr n v inside =
    let within : maddr - m.heap_data + n ≤ length m.bytes = ground (arith, inside) in
    rw (length-put_at n (maddr - m.heap_data) v m.bytes, inside)
      (ap done (get_at-put_at n (maddr - m.heap_data) v m.bytes within))

module _ (opcode offset : ℕ) (m : MemoryInstance) (f : Frame) where
  -- The steps of a store that ends well.
  abbrev pub StoredBy : MemoryInstance × Frame → Type 0
  StoredBy r =
      (value : ℕ × Frame) × (popped : ℕ × Frame) × (maddr : ℕ) × (pop_value (transfer_type opcode) f
        ≡ done value)
      × (pop_value i32 value.1 ≡ done popped)
      × (check_memory_overflow m opcode offset popped.0 ≡ some maddr)
      × (holds m maddr (load_size opcode) ≡ true)
      × (r ≡ (written m maddr (load_size opcode) value.0, popped.1))

  in_bounds-Ends : (o : Option ℕ) → Ends (λ maddr. o ≡ some maddr) (in_bounds o)
  unfolding in_bounds
  in_bounds-Ends none = tt
  in_bounds-Ends (some maddr) = refl

  exec_store-StoredBy : Ends StoredBy (exec_store opcode offset m f)
  unfolding exec_store
  exec_store-StoredBy =
      Ends->>= (λ value. pop_value (transfer_type opcode) f ≡ done value) StoredBy
        (pop_value (transfer_type opcode) f) _ (Ends-self (pop_value (transfer_type opcode) f))
        (λ value first.
          Ends->>= (λ popped. pop_value i32 value.1 ≡ done popped) StoredBy (pop_value i32 value.1)
            _ (Ends-self (pop_value i32 value.1))
            (λ popped second.
              Ends->>= (λ maddr. check_memory_overflow m opcode offset popped.0 ≡ some maddr)
                StoredBy (in_bounds (check_memory_overflow m opcode offset popped.0)) _
                (in_bounds-Ends (check_memory_overflow m opcode offset popped.0))
                (λ maddr third.
                  Ends->>= _ StoredBy (stored m maddr (load_size opcode) value.0) _
                    (stored-Ends m maddr (load_size opcode) value.0)
                    (λ after (inside, same). (
                      value,
                      popped,
                      maddr,
                      first,
                      second,
                      third,
                      inside,
                      ap (λ x. (x, popped.1)) same,
                    )))))

overflow-written :
    (m : MemoryInstance) (maddr n v opcode opcode' offset addr : ℕ)
    → load_size opcode ≡ load_size opcode'
    → check_memory_overflow (written m maddr n v) opcode offset addr
      ≡ check_memory_overflow m opcode' offset addr
unfolding check_memory_overflow total_mem_size
overflow-written m maddr n v opcode opcode' offset addr same = rw same refl

-- A load of as many bytes of the same type, without sign extension, from where a store has written, pushes
-- the value of the store, modulo the bytes that were written. The store pops the value and the address;
-- the load pops the address alone.
pub exec_load-exec_store :
    (store load offset : ℕ) (m : MemoryInstance) (f : Frame)
    → load_size load ≡ load_size store
    → transfer_type load ≡ transfer_type store
    → extends_sign load ≡ false
    → Ends
        (λ r.
          (value : ℕ × Frame) × (pop_value (transfer_type store) f ≡ done value)
          × (exec_load load offset r.0 value.1
              ≡ push_value (transfer_type store) (value.0 % 256 ^ load_size store) r.1))
        (exec_store store offset m f)
unfolding exec_load in_bounds
exec_load-exec_store store load offset m f size type plain =
    Ends-map (StoredBy store offset m f) _ (exec_store store offset m f)
      (λ r (value, popped, maddr, first, second, third, inside, same).
        let n = load_size store in
        let found = overflow-written m maddr n value.0 load store offset popped.0 size ∙ third in
        let got = fetched-stored m maddr n value.0 inside in
        (value, first, rw (same, second, found, size, got, plain, type) refl))
      (exec_store-StoredBy store offset m f)
