-- ===== src/Memory/Map.antt =====
-- `memory_map` read as one flag for each chunk, and what marking does to the flags.
use vmwos.Prelude.{
  ℕ, zero, suc, ◌+◌, ◌*◌, ◌/◌, ◌%◌, ◌^◌, ◌≤◌, ◌<◌, ◌≡◌, refl, ◌∙◌, Bool, true, false, ◌&&◌, Option,
  some, List, arith, ltb, leb, ◌==◌, if◌then◌else◌, length, get_or, set, length-set,
  get_elem?-eq-get_or, get_or-set_self, get_or-set_ne, get_or_ext, bit_or, bit_and, sym,
}
use native.Mathlib.Nat.{mod-eq_of_lt}
use native.Mathlib.Decide.{ℕ_discrete}
use vmwos.Bits.{
  bit, bit_not, test_bit, bit_and-bit, test_bit-or_bit, test_bit-clear_bit, or_bit-lt, clear_bit-lt,
  word_ext,
}
use vmwos.Memory.{
  map_words, change_word, memory_mark_used, memory_mark_free, memory_test_used, mark_range,
}

-- The number of chunks that the map has a bit for.
abbrev pub map_chunks : ℕ
map_chunks = 32 * map_words

abbrev pub word_at : List ℕ → ℕ → ℕ
word_at words i = get_or words i 0

abbrev pub is_used : List ℕ → ℕ → Bool
is_used words chunk = test_bit (word_at words (chunk / 32)) (chunk % 32)

-- The map has its size, and its words have 32 bits.
pub record IsMap (words : List ℕ) : Type 0 where
  pub size : length words ≡ map_words
  pub narrow : (i : ℕ) → word_at words i < 2 ^ 32

abbrev pub within : ℕ → ℕ → ℕ → Bool
within first n chunk = leb first chunk && ltb chunk (first + n)

-- `words'` is `words` with the `n` flags from `first` on set to `value`.
abbrev pub Marks : Bool → ℕ → ℕ → List ℕ → List ℕ → Type 0
Marks value first n words words' =
    (c : ℕ) → is_used words' c ≡ (if within first n c then value else is_used words c)

-- A step of marking that succeeds.
abbrev pub Marked : Bool → ℕ → ℕ → List ℕ → Option (List ℕ) → Type 0
Marked value first n words result =
    (words' : List ℕ) × (result ≡ some words') × IsMap words' × Marks value first n words words'

pub memory_test_used_lem :
    (words : List ℕ) (chunk : ℕ)
    → IsMap words
    → chunk < map_chunks
    → memory_test_used words chunk ≡ some (is_used words chunk)
unfolding memory_test_used
memory_test_used_lem words chunk m h = ground (
  arith,
  m.size,
  get_elem?-eq-get_or words (chunk / 32) 0,
  bit_and-bit (word_at words (chunk / 32)) (chunk % 32),
)

-- Chunks of one word that differ have different bits.
other_word : (c d : ℕ) → c / 32 ≡ d / 32 → (c % 32 == d % 32) ≡ (c == d)
other_word c d h = ground arith

module _ (f : ℕ → ℕ → ℕ) (value : Bool) where
  -- One word changed by `f`, which sets the flag of one bit to `value`.
  change_word-Marked :
      ((b w : ℕ) → b < 32 → w < 2 ^ 32 → f b w < 2 ^ 32)
      → ((b w c : ℕ)
          → b < 32
          → w < 2 ^ 32
          → test_bit (f b w) c ≡ (if b == c then value else test_bit w c))
      → (words : List ℕ) (chunk : ℕ) → IsMap words
      → chunk < map_chunks
      → Marked value chunk 1 words (change_word words chunk (f (chunk % 32)))
  change_word-Marked narrow flag words chunk m h = (
    set words k v,
    ground (arith, m.size, get_elem?-eq-get_or words k 0),
    record {
      size = length-set words k v ∙ m.size;
      narrow = λ i. ground (
        arith,
        m.narrow i,
        m.size,
        narrow b (word_at words k) (omega arith) (m.narrow k),
        get_or-set_self words k v 0,
        get_or-set_ne words k i v 0,
      );
    },
    λ c. elim (ℕ_discrete (c / 32) k) [
      | yes e ↦
          rw (e, get_or-set_self words k v 0 (ground (arith, m.size)))
            (ground (arith, flag b (word_at words k) (c % 32) (omega arith) (m.narrow k)))
      | no ne ↦ rw (get_or-set_ne words k (c / 32) v 0 (λ e. ne (sym e))) (ground arith)
    ],
  )
    where
      k : ℕ
      k = chunk / 32

      b : ℕ
      b = chunk % 32

      v : ℕ
      v = f b (word_at words k)

memory_mark_used_lem :
    (words : List ℕ) (chunk : ℕ)
    → IsMap words
    → chunk < map_chunks
    → Marked true chunk 1 words (memory_mark_used words chunk)
unfolding memory_mark_used
memory_mark_used_lem =
    change_word-Marked (λ b w. bit_or w (bit b)) true (λ b w. or_bit-lt 32 w b)
      (λ b w c hb hw. ground (arith, test_bit-or_bit w b c))

memory_mark_free_lem :
    (words : List ℕ) (chunk : ℕ)
    → IsMap words
    → chunk < map_chunks
    → Marked false chunk 1 words (memory_mark_free words chunk)
unfolding memory_mark_free
memory_mark_free_lem =
    change_word-Marked (λ b w. bit_and w (bit_not 32 b)) false (λ b w. clear_bit-lt 32 w b)
      (λ b w c hb hw. ground (arith, test_bit-clear_bit 32 w b c))

module _ (mark : List ℕ → ℕ → Option (List ℕ)) (value : Bool)
    (step : (words : List ℕ) (chunk : ℕ)
      → IsMap words
      → chunk < map_chunks
      → Marked value chunk 1 words (mark words chunk)) where
  -- A run of marks, each of which succeeds.
  mark_range-Marked :
      (n first : ℕ) (words : List ℕ)
      → IsMap words
      → first + n ≤ map_chunks
      → Marked value first n words (mark_range mark n first words)
  unfolding mark_range
  mark_range-Marked zero first words m h = (words, refl, m, λ c. ground arith)
  mark_range-Marked (suc n) first words m h =
      let (words', e, m', one) = step words first m (omega arith) in
      let (words'', e', m'', more) = mark_range-Marked n (first + 1) words' m' (omega arith) in
      (
        words'',
        rw e (rw (mod-eq_of_lt {n = first + 1} {m = 2 ^ 32} (omega arith)) e'),
        m'',
        λ c. ground (arith, one c, more c),
      )

pub mark_used-Marked :
    (n first : ℕ) (words : List ℕ)
    → IsMap words
    → first + n ≤ map_chunks
    → Marked true first n words (mark_range memory_mark_used n first words)
mark_used-Marked = mark_range-Marked memory_mark_used true memory_mark_used_lem

pub mark_free-Marked :
    (n first : ℕ) (words : List ℕ)
    → IsMap words
    → first + n ≤ map_chunks
    → Marked false first n words (mark_range memory_mark_free n first words)
mark_free-Marked = mark_range-Marked memory_mark_free false memory_mark_free_lem

-- Two maps with the same flags are the same.
pub map_ext :
    (words words' : List ℕ)
    → IsMap words
    → IsMap words'
    → ((c : ℕ) → is_used words c ≡ is_used words' c)
    → words ≡ words'
map_ext words words' m m' same =
    get_or_ext 0 words words' (m.size ∙ sym m'.size)
      λ i. word_ext 32 _ _ (m.narrow i) (m'.narrow i) λ b h. flag_at i b h (same (32 * i + b))
  where
    flag_at :
        (i b : ℕ)
        → b < 32
        → is_used words (32 * i + b) ≡ is_used words' (32 * i + b)
        → test_bit (word_at words i) b ≡ test_bit (word_at words' i) b
    flag_at i b h e =
        let q : (32 * i + b) / 32 ≡ i = omega arith in
        let r : (32 * i + b) % 32 ≡ b = omega arith in rw (q, r) at e
