-- ===== src/Malloc/Tests.antt =====
-- Runs of userspace/vlibc/malloc.c on two blocks, of which the second is free.
use vmwos.Prelude.{
  ℕ, ◌+◌, ◌≡◌, ◌≢◌, ◌≤◌, refl, none, some, [], ◌∷◌, arith, ◌==◌, if◌then◌else◌, ◌>>=◌,
}
use vmwos.Process.Chain.{find}
use vmwos.Malloc.{
  allocate_block, find_free_block, take_block, Heap, magic_new, magic_freed, malloc, release,
}
use vmwos.Malloc.FirstFit.{IsHeap, taken, unlinked, malloc-taken, malloc-append}

-- A kernel that grants one region behind the other.
abbrev bump : ℕ → ℕ → ℕ × ℕ
bump next size = (next, next + size)

abbrev two_blocks : Heap ℕ
two_blocks = record {
  blocks = λ b.
      if b == 1000
      then (record { size = 8; next = some 1024; free = 0; magic = magic_new })
      else (record { size = 32; next = none; free = 1; magic = magic_freed });
  global_base = some 1000;
  kernel = 2000;
}

two_blocks-IsHeap : IsHeap two_blocks (1000 ∷ 1024 ∷ [])
two_blocks-IsHeap = ((refl, (refl, refl)), (refl, (refl, tt)))

malloc-taken_example :
    (malloc bump 3 two_blocks 20 ≡ some (1040, taken bump two_blocks 1024))
    × IsHeap (taken bump two_blocks 1024) (1000 ∷ 1024 ∷ [])
    × ((two_blocks.blocks 1024).free ≢ 0)
    × (20 ≤ (two_blocks.blocks 1024).size)
unfolding find
malloc-taken_example =
    malloc-taken bump 3 two_blocks 20 (1000 ∷ 1024 ∷ []) 1024 two_blocks-IsHeap (omega arith)
      (λ e. absurd (omega (arith, e))) refl

malloc-append_example :
    (h' : Heap ℕ) × (malloc bump 3 two_blocks 64 ≡ some (2016, h'))
    × IsHeap h' (1000 ∷ 1024 ∷ 2000 ∷ [])
    × (h'.blocks 2000 ≡ record { size = 64; next = none; free = 0; magic = 0x12345678 })
    × ((q : ℕ) → q ≢ 2000 → unlinked (h'.blocks q) ≡ unlinked (two_blocks.blocks q))
unfolding find
malloc-append_example =
    malloc-append bump 3 two_blocks 64 (1000 ∷ 1024 ∷ []) two_blocks-IsHeap (omega arith)
      (λ e. absurd (omega (arith, e))) refl (record { no_error = refl; no_null = refl; new = refl })

-- A block that is given back is used again.
again_test : (malloc bump 3 (release two_blocks 1016) 8 >>= λ (p, h). some p) ≡ some 1016
unfolding malloc allocate_block find_free_block take_block release
again_test = refl
