-- ===== src/Malloc.antt =====
-- The allocator of userspace, userspace/vlibc/malloc.c: a list of blocks, each behind its
-- `block_meta`, which are never split or joined.
--
-- A pointer is an address, `none` for `NULL` where it is tested; `blocks` maps an address to the
-- `block_meta` there. The kernel's side of `vmwos_malloc` is the parameter `vmwos_malloc` on a state
-- of its own. A walk that runs out of fuel and a write through `NULL` are `none`.
pub mod FirstFit
pub mod Tests
use vmwos.Prelude.{
  ℕ, zero, suc, ◌+◌, ◌-◌, ◌%◌, ◌^◌, Bool, true, false, not, ◌&&◌, Option, none, some, leb, ◌==◌,
  if◌then◌else◌, ◌>>=◌, put,
}
use vmwos.Process.{Ptr}

-- META_SIZE
abbrev pub meta_size : ℕ
meta_size = 16

abbrev pub magic_new : ℕ
magic_new = 0x12345678

abbrev pub magic_used : ℕ
magic_used = 0x77777777

abbrev pub magic_freed : ℕ
magic_freed = 0x55555555

-- `block_meta`
pub record BlockMeta : Type 0 where
  pub size : ℕ
  pub next : Ptr
  pub free : ℕ
  pub magic : ℕ

-- The blocks, `global_base`, and the state of the kernel.
pub record Heap (K : Type 0) : Type 0 where
  pub blocks : ℕ → BlockMeta
  pub global_base : Ptr
  pub kernel : K

-- The test of the loop of `find_free_block`.
abbrev pub fits : ℕ → BlockMeta → Bool
fits size block = not (block.free == 0) && leb size block.size

-- The block, if there is one, and `*last`.
pub find_free_block : ℕ → (ℕ → BlockMeta) → Ptr → ℕ → ℕ → Option (Ptr × ℕ)
find_free_block zero blocks current last size = none
find_free_block (suc fuel) blocks none last size = some (none, last)
find_free_block (suc fuel) blocks (some b) last size =
    let rest = find_free_block fuel blocks (blocks b).next b size in
    if fits size (blocks b) then some (some b, last) else rest

-- A block behind its `block_meta`, and `get_block_ptr`.
abbrev pub behind : ℕ → ℕ
behind block = block + meta_size

abbrev pub get_block_ptr : ℕ → ℕ
get_block_ptr ptr = ptr - meta_size

-- `last->next = block`, if there is a last block.
pub link_last : Ptr → ℕ → (ℕ → BlockMeta) → ℕ → BlockMeta
link_last none block blocks = blocks
link_last (some last) block blocks = put blocks last (record (blocks last) { next = some block })

abbrev pub new_block : ℕ → BlockMeta
new_block size = record { size = size; next = none; free = 0; magic = magic_new }

module _ {K : Type 0} (vmwos_malloc : K → ℕ → ℕ × K) where
  -- The block, or `none` for `NULL`.
  pub request_space : Heap K → Ptr → ℕ → Option (Ptr × Heap K)
  request_space h last size =
      let (request, kernel) = vmwos_malloc h.kernel ((size + meta_size) % 2 ^ 32) in
      if request == 2 ^ 32 - 1
      then some (none, record h { kernel = kernel })
      else if request == 0
      then none
      else some (
        some request,
        record h {
          blocks = put (link_last last request h.blocks) request (new_block size);
          kernel = kernel;
        },
      )

  -- The end of `malloc` with the block that was found, if any.
  pub take_block : Heap K → ℕ → Ptr × ℕ → Option (Ptr × Heap K)
  take_block h size (none, last) = request_space h (some last) size
  take_block h size (some b, last) = some (
    some b,
    record h { blocks = put h.blocks b (record (h.blocks b) { free = 0; magic = magic_used }) },
  )

  pub allocate_block : ℕ → Heap K → ℕ → Option (Ptr × Heap K)
  allocate_block fuel h size = elim h.global_base [
    | none ↦ request_space h none size >>= λ (block, h').
        some
          (elim block [ none ↦ (none, h') | some b ↦ (some b, record h' { global_base = some b }) ])
    | some base ↦
        find_free_block fuel h.blocks (some base) base size >>= λ found. take_block h size found
  ]

  -- The address for the caller, 0 for `NULL`.
  pub malloc : ℕ → Heap K → ℕ → Option (ℕ × Heap K)
  malloc fuel h size =
      if size == 0
      then some (0, h)
      else (allocate_block fuel h size >>= λ (block, h').
          some (elim block [ none ↦ (0, h') | some b ↦ (behind b, h') ]))

-- `free`
pub release : {K : Type 0} → Heap K → ℕ → Heap K
release h ptr = if ptr == 0 then h else record h {
  blocks =
      put h.blocks (get_block_ptr ptr)
        (record (h.blocks (get_block_ptr ptr)) { free = 1; magic = magic_freed });
}
