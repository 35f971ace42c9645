-- ===== src/Memory.antt =====
-- The physical memory allocator of kernel/memory/memory.c.
--
-- `memory_map` is the array of that name: 8192 words of 32 bits, a bit for each chunk of 4096
-- bytes. A chunk number is a C `int`, here its 32-bit pattern. `none` stands for what C leaves
-- undefined: an access past the array, or a shift by a negative count. `ram` is the memory that
-- `memset` writes, byte by byte; the assembly of `memset` itself is not modelled, and the loop of
-- `memset_byte` (kernel/lib/memset.c) stands for it. `memory_debug` is 0, so its prints are left
-- out, and so is the mutex: each function is one step.
pub mod Map
pub mod Find
pub mod Ram
pub mod Allocate
pub mod Free
pub mod Count
pub mod Init
pub mod Live
pub mod Tests
use vmwos.Prelude.{
  ℕ, zero, suc, ◌+◌, ◌-◌, ◌*◌, ◌/◌, ◌%◌, ◌^◌, bit_and, bit_or, Bool, true, false, not, ◌&&◌, Option,
  none, some, List, ltb, ◌==◌, if◌then◌else◌, ◌>>=◌, get_elem?, set,
}
use vmwos.Bits.{bit, bit_not}

-- MAX_MEMORY, RESERVED_KERNEL and CHUNK_SIZE
abbrev pub max_memory : ℕ
max_memory = 1024 * 1024 * 1024

abbrev pub reserved_kernel : ℕ
reserved_kernel = 16 * 1024 * 1024

abbrev pub chunk_size : ℕ
chunk_size = 4096

abbrev pub map_words : ℕ
map_words = max_memory / chunk_size / 32

-- `-ENOMEM` as a 32-bit word, and `NULL`
abbrev pub enomem : ℕ
enomem = 2 ^ 32 - 12

abbrev pub null : ℕ
null = 0

abbrev pub memory_kernel : ℕ
memory_kernel = 0

abbrev pub memory_user : ℕ
memory_user = 1

pub record Memory : Type 0 where
  pub memory_total : ℕ
  pub memory_map : List ℕ
  pub max_chunk : ℕ
  pub ram : ℕ → ℕ

-- A chunk number that is negative as an `int` shifts by a negative count.
abbrev pub is_chunk : ℕ → Bool
is_chunk chunk = ltb chunk (2 ^ 31)

-- One word of the map is changed by `f`.
abbrev pub change_word : List ℕ → ℕ → (ℕ → ℕ) → Option (List ℕ)
change_word words chunk f =
    if is_chunk chunk
    then (get_elem? words (chunk / 32) >>= λ word. some (set words (chunk / 32) (f word)))
    else none

pub memory_mark_used : List ℕ → ℕ → Option (List ℕ)
memory_mark_used words chunk = change_word words chunk (λ word. bit_or word (bit (chunk % 32)))

pub memory_mark_free : List ℕ → ℕ → Option (List ℕ)
memory_mark_free words chunk =
    change_word words chunk (λ word. bit_and word (bit_not 32 (chunk % 32)))

pub memory_test_used : List ℕ → ℕ → Option Bool
memory_test_used words chunk =
    if is_chunk chunk
    then (get_elem? words (chunk / 32) >>= λ word.
        some (not (bit_and word (bit (chunk % 32)) == 0)))
    else none

-- for(i=first;i<first+left;i++) mark(i), on 32-bit words
pub mark_range : (List ℕ → ℕ → Option (List ℕ)) → ℕ → ℕ → List ℕ → Option (List ℕ)
mark_range mark zero chunk words = some words
mark_range mark (suc left) chunk words =
    mark words chunk >>= λ words'. mark_range mark left ((chunk + 1) % 2 ^ 32) words'

-- The inner loop of `find_free`: the first used chunk of `i+j`, `i+j+1`, ..., as a count from `i`.
pub contiguous : List ℕ → ℕ → ℕ → ℕ → Option ℕ
contiguous words zero i j = some j
contiguous words (suc left) i j = memory_test_used words (i + j) >>= λ used. elim used [
  | true ↦ some j
  | false ↦ contiguous words left i (j + 1)
]

-- The outer loop, with `left` rounds to `end`.
pub find_from : List ℕ → ℕ → ℕ → ℕ → ℕ → Option ℕ
find_from words num_chunks end zero i = some enomem
find_from words num_chunks end (suc left) i =
    let next = find_from words num_chunks end left (i + 1) in
    memory_test_used words i >>= λ used.
    if used
    then next
    else (contiguous words num_chunks i 0 >>= λ j.
        if (j == num_chunks) && ltb (i + j) end then some i else next)

pub find_free : List ℕ → ℕ → ℕ → ℕ → Option ℕ
find_free words num_chunks start end = find_from words num_chunks end (end - start) start

-- for(i=0;i<n;i++) b[i]=c
pub memset : ℕ → ℕ → ℕ → (ℕ → ℕ) → ℕ → ℕ
memset s c zero ram = ram
memset s c (suc n) ram = memset ((s + 1) % 2 ^ 32) c n (λ a. if a == s then c else ram a)

-- ((size-1)/CHUNK_SIZE)+1 on 32-bit words
abbrev pub chunks_of : ℕ → ℕ
chunks_of size = (size + 2 ^ 32 - 1) % 2 ^ 32 / chunk_size + 1

-- `int` chunk of the address `location`; a negative quotient is no chunk.
abbrev pub chunk_at : ℕ → Option ℕ
chunk_at location =
    if ltb location (2 ^ 31)
    then some (location / chunk_size)
    else if ltb (2 ^ 32 - location) chunk_size
    then some 0
    else none

-- The part of `memory_allocate` after the region is chosen. `first_chunk` is a `uint32_t`, so that
-- `first_chunk<0` is a comparison of unsigned numbers.
pub allocate_in : Memory → ℕ → ℕ → ℕ → Option (ℕ × Memory)
allocate_in m num_chunks start end = find_free m.memory_map num_chunks start end >>= λ first_chunk.
    if ltb first_chunk 0
    then some (null, m)
    else (mark_range memory_mark_used num_chunks first_chunk m.memory_map >>= λ words.
        let location = first_chunk * chunk_size % 2 ^ 32 in
        some (
          location,
          record m { memory_map = words; ram = memset location 0 (num_chunks * chunk_size) m.ram },
        ))

pub memory_allocate : Memory → ℕ → ℕ → Option (ℕ × Memory)
memory_allocate m size type =
    let num_chunks = chunks_of (if size == 0 then 1 else size) in
    if type == memory_kernel
    then allocate_in m num_chunks 0 (reserved_kernel / chunk_size)
    else if type == memory_user
    then allocate_in m num_chunks (reserved_kernel / chunk_size) m.max_chunk
    else some (null, m)

pub memory_free : Memory → ℕ → ℕ → Option Memory
memory_free m location size = chunk_at location >>= λ first_chunk.
    mark_range memory_mark_free (chunks_of size) first_chunk m.memory_map >>= λ words.
    some (record m { memory_map = words; ram = memset location b'V' size m.ram })

-- for(i=0;i<left;i++) if (!memory_test_used(i)) total_free++
pub count_free : List ℕ → ℕ → ℕ → ℕ → Option ℕ
count_free words zero i total_free = some total_free
count_free words (suc left) i total_free = memory_test_used words i >>= λ used.
    count_free words left (i + 1) (if used then total_free else total_free + 1)

pub memory_total_free : Memory → Option ℕ
memory_total_free m = count_free m.memory_map m.max_chunk 0 0 >>= λ total_free.
    some (total_free * chunk_size % 2 ^ 32)

-- memory_map[i]=0 for the words from `i` on, `left` of them
pub clear_words : ℕ → ℕ → List ℕ → List ℕ
clear_words zero i words = words
clear_words (suc left) i words = clear_words left (i + 1) (set words i 0)

-- The result is 0 or `-ENOMEM`.
pub memory_init : Memory → ℕ → ℕ → Option (ℕ × Memory)
memory_init m total kernel =
    if ltb max_memory total
    then some (enomem, m)
    else if ltb reserved_kernel kernel
    then some (enomem, m)
    else if not (total % chunk_size == 0)
    then some (enomem, m)
    else (let max_chunk = total / chunk_size in
        let words = clear_words (max_chunk / 32) 0 m.memory_map in
        let m' : Memory = record m { max_chunk = max_chunk; memory_map = words } in
        if not (kernel % chunk_size == 0)
        then some (enomem, m')
        else (mark_range memory_mark_used (kernel / chunk_size) 0 words >>= λ words'.
            some (0, record m' { memory_map = words' })))

-- The part of `memory_hierarchy_init` that concerns this file: the boards with several cores also
-- reserve the chunks 0xff4000 to 0x1000000, the stacks of the cores. `length` is what
-- `hardware_get_memory` reports. The set-up of the page table and of the caches is left out, and the
-- result of `memory_init` is dropped, as in the source.
pub memory_hierarchy_init : Memory → ℕ → Bool → ℕ → Option Memory
memory_hierarchy_init m length multicore kernel =
    memory_init (record m { memory_total = length }) length kernel >>= λ (_, m').
    if multicore
    then (mark_range memory_mark_used 12 (0xff4000 / chunk_size) m'.memory_map >>= λ words.
        some (record m' { memory_map = words }))
    else some m'
