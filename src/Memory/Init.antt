-- ===== src/Memory/Init.antt =====
-- `memory_init` of kernel/memory/memory.c.
use vmwos.Prelude.{
  ℕ, zero, suc, ◌+◌, ◌*◌, ◌/◌, ◌%◌, ◌≤◌, ◌<◌, ◌≡◌, refl, Bool, true, false, ◌&&◌, ◌||◌, some, List,
  arith, ltb, if◌then◌else◌, ◌∙◌, length, set, length-set, get_or-set_self, get_or-set_ne, le→ltb,
  lt→ltb, ne→==,
}
use native.Mathlib.Decide.{ℕ_discrete, dec_lt}
use vmwos.Memory.{
  Memory, max_memory, reserved_kernel, chunk_size, enomem, map_words, clear_words, memory_init,
  memory_hierarchy_init,
}
use vmwos.Bits.{test_bit}
use vmwos.Memory.Map.{is_used, word_at, within, IsMap, mark_used-Marked}

clear_words_lem :
    (left i : ℕ) (words : List ℕ)
    → IsMap words
    → i + left ≤ map_words
    → IsMap (clear_words left i words)
      × ((k : ℕ)
          → word_at (clear_words left i words) k ≡ (if within i left k then 0 else word_at words k))
unfolding clear_words
clear_words_lem zero i words m h = (m, λ k. ground arith)
clear_words_lem (suc left) i words m h =
    let (is, flags) = clear_words_lem left (i + 1) (set words i 0) cleared (omega arith) in
    (
      is,
      λ k. elim (ℕ_discrete i k) [
        | yes e ↦ ground (arith, flags k, m.size, get_or-set_self words k 0 0)
        | no ne ↦ ground (arith, flags k, get_or-set_ne words i k 0 0 ne)
      ],
    )
  where
    cleared : IsMap (set words i 0)
    cleared = record {
      size = length-set words i 0 ∙ m.size;
      narrow = λ k. elim (ℕ_discrete i k) [
        | yes e ↦ ground (arith, m.size, get_or-set_self words k 0 0)
        | no ne ↦ ground (arith, m.narrow k, get_or-set_ne words i k 0 0 ne)
      ];
    }

pub test_bit-zero : (c : ℕ) → test_bit 0 c ≡ false
test_bit-zero zero = refl
test_bit-zero (suc c) = test_bit-zero c

-- What memory and what kernel `memory_init` accepts.
pub record IsSizes (total kernel : ℕ) : Type 0 where
  pub fits : total ≤ max_memory
  pub small : kernel ≤ reserved_kernel
  pub whole : total % chunk_size ≡ 0
  pub whole_kernel : kernel % chunk_size ≡ 0

-- The state that `memory_init` leaves behind.
pub record Ready (given total kernel : ℕ) (m : Memory) : Type 0 where
  pub map : IsMap m.memory_map
  pub same_total : m.memory_total ≡ given
  pub chunks : m.max_chunk ≡ total / chunk_size
  pub flags :
      (c : ℕ)
      → c < 32 * (total / chunk_size / 32)
      → is_used m.memory_map c ≡ ltb c (kernel / chunk_size)

-- For sizes within the limits that are multiples of the chunk size, memory_init returns 0 and
-- leaves a well-formed map with max_chunk set, in which of the chunks that it clears exactly
-- those of the kernel are used.
pub memory_init-Ready :
    (m : Memory) (total kernel : ℕ)
    → IsMap m.memory_map
    → IsSizes total kernel
    → (m' : Memory) × (memory_init m total kernel ≡ some (0, m'))
      × Ready m.memory_total total kernel m'
unfolding memory_init
memory_init-Ready m total kernel is s =
    let (is', clear) =
      clear_words_lem (total / chunk_size / 32) 0 m.memory_map is (omega (arith, s.fits)) in
    let (words, e, is'', marks) =
      mark_used-Marked (kernel / chunk_size) 0
        (clear_words (total / chunk_size / 32) 0 m.memory_map) is' (omega (arith, s.small)) in
    (
      record m { memory_map = words; max_chunk = total / chunk_size },
      rw (
        le→ltb max_memory total s.fits,
        le→ltb reserved_kernel kernel s.small,
        s.whole,
        s.whole_kernel,
        e,
      ),
      record {
        map = is'';
        same_total = refl;
        chunks = refl;
        flags = λ c h. flag c h words (marks c) (clear (c / 32));
      },
    )
  where
    flag :
        (c : ℕ)
        → c < 32 * (total / chunk_size / 32)
        → (words : List ℕ)
        → is_used words c ≡ (
            if within 0 (kernel / chunk_size) c
            then true
            else is_used (clear_words (total / chunk_size / 32) 0 m.memory_map) c)
        → word_at (clear_words (total / chunk_size / 32) 0 m.memory_map) (c / 32) ≡ (
            if within 0 (total / chunk_size / 32) (c / 32)
            then 0
            else word_at m.memory_map (c / 32))
        → is_used words c ≡ ltb c (kernel / chunk_size)
    flag c h words marks clear =
        let zeroed : word_at (clear_words (total / chunk_size / 32) 0 m.memory_map) (c / 32) ≡ 0 =
          ground arith in
        marks ∙ rw (zeroed, test_bit-zero (c % 32)) (ground arith)

-- What `memory_init` asks before it writes anything.
abbrev pub PassesFirst : ℕ → ℕ → Type 0
PassesFirst total kernel =
    (total ≤ max_memory) × (kernel ≤ reserved_kernel) × (total % chunk_size ≡ 0)

-- For any other sizes memory_init returns -ENOMEM, and it changes nothing unless only the size
-- of the kernel is no multiple of the chunk size.
pub memory_init_refuses :
    (m : Memory) (total kernel : ℕ)
    → ¬ (IsSizes total kernel)
    → (m' : Memory) × (memory_init m total kernel ≡ some (enomem, m'))
      × (¬ (PassesFirst total kernel) → m' ≡ m)
unfolding memory_init
memory_init_refuses m total kernel bad = elim (dec_lt max_memory total) [
  | yes over ↦ (m, rw (lt→ltb max_memory total over), λ _. refl)
  | no fits ↦ elim (dec_lt reserved_kernel kernel) [
    | yes over ↦ (
      m,
      rw (le→ltb max_memory total (omega arith), lt→ltb reserved_kernel kernel over),
      λ _. refl,
    )
    | no small ↦ elim (ℕ_discrete (total % chunk_size) 0) [
      | no odd ↦ (
        m,
        rw (
          le→ltb max_memory total (omega arith),
          le→ltb reserved_kernel kernel (omega arith),
          ne→== (total % chunk_size) 0 odd,
        ),
        λ _. refl,
      )
      | yes whole ↦ (
        record m {
          max_chunk = total / chunk_size;
          memory_map = clear_words (total / chunk_size / 32) 0 m.memory_map;
        },
        rw (
          le→ltb max_memory total (omega arith),
          le→ltb reserved_kernel kernel (omega arith),
          whole,
          ne→== (kernel % chunk_size) 0 (λ e. bad (omega (arith, e))),
        ),
        λ late. absurd (late (omega arith)),
      )
    ]
  ]
]

-- For sizes that are accepted, memory_hierarchy_init leaves a well-formed map with the totals
-- set, in which of the chunks that it clears exactly those of the kernel are used and, on a
-- board with several cores, the twelve chunks of their stacks.
pub memory_hierarchy_init-Ready :
    (m : Memory) (length : ℕ) (multicore : Bool) (kernel : ℕ)
    → IsMap m.memory_map
    → IsSizes length kernel
    → (m' : Memory) × (memory_hierarchy_init m length multicore kernel ≡ some m')
      × IsMap m'.memory_map
      × (m'.memory_total ≡ length)
      × (m'.max_chunk ≡ length / chunk_size)
      × ((c : ℕ)
          → c < 32 * (length / chunk_size / 32)
          → is_used m'.memory_map c
            ≡ (ltb c (kernel / chunk_size) || (multicore && within 4084 12 c)))
unfolding memory_hierarchy_init
memory_hierarchy_init-Ready m length false kernel is s =
    let (m', e, ready) =
      memory_init-Ready (record m { memory_total = length }) length kernel is s in
    (m', rw e, ready.map, ready.same_total, ready.chunks, λ c h. ready.flags c h ∙ ground arith)
memory_hierarchy_init-Ready m length true kernel is s =
    let (m', e, ready) =
      memory_init-Ready (record m { memory_total = length }) length kernel is s in
    let (words, e', is', marks) = mark_used-Marked 12 4084 m'.memory_map ready.map (omega arith) in
    (
      record m' { memory_map = words },
      rw (e, e'),
      is',
      ready.same_total,
      ready.chunks,
      λ c h. ground (arith, marks c, ready.flags c h),
    )
