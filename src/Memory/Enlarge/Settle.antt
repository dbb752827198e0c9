-- ===== src/Memory/Enlarge/Settle.antt =====
-- The new block of a memory that grows.
use wasm_trustzone.Base.{
  ℕ, ◌+◌, ◌-◌, ◌*◌, ◌%◌, ◌^◌, ◌≤◌, ◌<◌, ◌≡◌, refl, sym, ◌∙◌, ap, List, ◌++◌, arith, length,
  length-append,
}
use wasm_trustzone.Base.Pow.{mul-le_right}
use wasm_trustzone.Memory.{MemoryInstance, IsMemory}
use wasm_trustzone.Memory.Instantiate.{Platform}
use wasm_trustzone.Memory.Enlarge.{ModuleInstance, heap_size_of, size_with, settle}
use wasm_trustzone.Memory.Enlarge.Contents.{
  zeros, ++_assoc, ++_nil, grown_bytes-append, length-grown,
}

pub mul-add_right : (p a b : ℕ) → p * (a + b) ≡ p * a + p * b
mul-add_right p a b = grind arith

-- The memory is laid out, and behind its heap and its pages, which hold `lin`, stand its globals.
unfoldable pub Holds : ℕ → ℕ → List ℕ → List ℕ → MemoryInstance → Type 0
Holds header heap lin glob m =
    IsMemory header heap m × ((m.bytes ≡ lin ++ glob) × (length glob ≡ m.global_data_size))

pub heap_size_of-IsMemory :
    (header heap : ℕ) (m : MemoryInstance)
    → IsMemory header heap m
    → (heap_size_of m ≡ heap)
      × ((m.total_size
            ≡ header + heap + m.num_bytes_per_page * m.cur_page_count + m.global_data_size)
          × ((m.end_addr - m.self) % 2 ^ 32 ≡ m.total_size))
unfolding heap_size_of IsMemory
heap_size_of-IsMemory header heap m (a, (b, (c, (d, (e, (f, (h, k))))))) =
    (omega arith, (omega arith, omega arith))

length-lin :
    (header heap : ℕ) (lin glob : List ℕ) (m : MemoryInstance)
    → Holds header heap lin glob m
    → length lin ≡ heap + m.num_bytes_per_page * m.cur_page_count
unfolding Holds IsMemory
length-lin header heap lin glob m ((a, (b, (c, (d, (e, (f, (h, k))))))), (bytes, globals)) =
    let len = ap (λ s. length s) bytes in omega (arith, len, length-append lin glob)

settle-bytes :
    (platform : Platform) (g : ModuleInstance) (heap inc self total : ℕ) (lin glob : List ℕ)
    → Holds platform.header heap lin glob g.default_memory
    → length glob ≤ g.default_memory.num_bytes_per_page * inc
    → total
      ≡ platform.header
        + heap
        + g.default_memory.num_bytes_per_page * (g.default_memory.cur_page_count + inc)
        + g.default_memory.global_data_size
    → total < 2 ^ 32 - 1
    → (settle platform g self (g.default_memory.cur_page_count + inc) total).default_memory.bytes
      ≡ lin ++ (zeros (g.default_memory.num_bytes_per_page * inc) ++ glob)
unfolding settle Holds
settle-bytes platform g heap inc self total lin glob (ok, (bytes, globals)) room exact small =
    let m = g.default_memory in
    let (heap_size, (old, shrunk)) = heap_size_of-IsMemory platform.header heap m ok in
    let product = mul-add_right m.num_bytes_per_page m.cur_page_count inc in
    let len = length-lin platform.header heap lin glob m (ok, (bytes, globals)) in
    let from : heap_size_of m + m.num_bytes_per_page * m.cur_page_count % 2 ^ 32 ≡ length lin =
      omega arith in
    let to : heap_size_of m + m.num_bytes_per_page * (m.cur_page_count + inc) % 2 ^ 32
        ≡ length lin + m.num_bytes_per_page * inc =
      omega arith in
    let more : total - (m.end_addr - m.self) % 2 ^ 32 ≡ m.num_bytes_per_page * inc = omega arith in
    rw (from, to, more, bytes, sym globals)
      (grown_bytes-append lin glob (m.num_bytes_per_page * inc) room)

-- The bytes that a growth leaves, and the layout that it keeps.
unfoldable pub Grown : ℕ → ℕ → ℕ → List ℕ → List ℕ → MemoryInstance → MemoryInstance → Type 0
Grown header heap inc lin glob m new =
    ((new.cur_page_count ≡ m.cur_page_count + inc)
      × ((new.num_bytes_per_page ≡ m.num_bytes_per_page) × (new.max_page_count ≡ m.max_page_count)))
    × Holds header heap (lin ++ zeros (m.num_bytes_per_page * inc)) glob new

pub settle-Grown :
    (platform : Platform) (g : ModuleInstance) (heap inc self total : ℕ) (lin glob : List ℕ)
    → Holds platform.header heap lin glob g.default_memory
    → length glob ≤ g.default_memory.num_bytes_per_page * inc
    → total
      ≡ platform.header
        + heap
        + g.default_memory.num_bytes_per_page * (g.default_memory.cur_page_count + inc)
        + g.default_memory.global_data_size
    → total < 2 ^ 32 - 1
    → g.default_memory.cur_page_count + inc ≤ g.default_memory.max_page_count
    → Grown platform.header heap inc lin glob g.default_memory
        (settle platform g self (g.default_memory.cur_page_count + inc) total).default_memory
unfolding settle Holds Grown IsMemory
settle-Grown platform g heap inc self total lin glob (ok, (bytes, globals)) room exact small pages =
    let m = g.default_memory in
    let new =
      settle-bytes platform g heap inc self total lin glob (ok, (bytes, globals)) room exact
        small in
    let (heap_size, (old, shrunk)) = heap_size_of-IsMemory platform.header heap m ok in
    let len = length-lin platform.header heap lin glob m (ok, (bytes, globals)) in
    let product = mul-add_right m.num_bytes_per_page m.cur_page_count inc in
    let new_pages : m.num_bytes_per_page * (m.cur_page_count + inc) % 2 ^ 32
        ≡ m.num_bytes_per_page * (m.cur_page_count + inc) =
      omega arith in
    (
      (refl, (refl, refl)),
      (
        (
          refl,
          (
            omega arith,
            (
              omega arith,
              (
                refl,
                (
                  omega arith,
                  (
                    omega (
                      arith,
                      ap (λ s. length s) new,
                      length-grown lin glob (m.num_bytes_per_page * inc),
                    ),
                    (small, pages),
                  ),
                ),
              ),
            ),
          ),
        ),
        (new ∙ sym (++_assoc lin (zeros (m.num_bytes_per_page * inc)) glob), globals),
      ),
    )

-- No growth: the memory as it was.
pub Grown-zero :
    (header heap inc : ℕ) (lin glob : List ℕ) (m : MemoryInstance)
    → inc ≡ 0
    → Holds header heap lin glob m
    → Grown header heap inc lin glob m m
unfolding Grown Holds
Grown-zero header heap inc lin glob m none_left (ok, (bytes, globals)) =
    let no_bytes : m.num_bytes_per_page * inc ≡ 0 = rw none_left (omega arith) in
    rw (no_bytes, ++_nil lin) ((omega arith, (refl, refl)), (ok, (bytes, globals)))

-- The number of pages and the size that the checks let through.
pub sizes :
    (platform : Platform) (heap inc : ℕ) (m : MemoryInstance)
    → IsMemory platform.header heap m
    → m.num_bytes_per_page ≤ 65536
    → m.max_page_count < 2 ^ 32
    → inc < 2 ^ 32
    → m.cur_page_count ≤ (inc + m.cur_page_count) % 2 ^ 32
    → ((inc + m.cur_page_count) % 2 ^ 32 ≡ m.cur_page_count + inc)
      × (size_with platform m (m.cur_page_count + inc)
          ≡ platform.header
            + heap
            + m.num_bytes_per_page * (m.cur_page_count + inc)
            + m.global_data_size)
unfolding size_with IsMemory
sizes platform heap inc m (a, (b, (c, (d, (e, (f, (h, k))))))) page max hi grows =
    let (heap_size, (old, shrunk)) =
      heap_size_of-IsMemory platform.header heap m (a, (b, (c, (d, (e, (f, (h, k))))))) in
    let bound = mul-le_right page (m.cur_page_count + inc) in
    let pages : (inc + m.cur_page_count) % 2 ^ 32 ≡ m.cur_page_count + inc = omega arith in
    (pages, omega arith)
