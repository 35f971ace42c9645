-- ===== src/Terminal/Read.antt =====
-- Reading takes characters off the front of the ring.
use vmwos.Prelude.{
  walk, ℕ, zero, suc, ◌≡◌, refl, ◌≢◌, true, false, some, [], ◌∷◌, arith, ◌==◌, take, drop, ap,
  ==_refl, ne→==, Bool, not, ◌&&◌,
}
use native.Mathlib.Decide.{ℕ_discrete}
use vmwos.Fs.{err}
use vmwos.Terminal.{Terminal, next_index, console_get_char, read_chars, reads, console_read}
use vmwos.Terminal.Ring.{held, contents, IsRing}

-- The ring with one character less.
abbrev popped : Terminal → Terminal
popped t = record t { input_buffer_tail = next_index t.input_buffer_tail }

held-popped :
    (t : Terminal)
    → IsRing t
    → t.input_buffer_head ≢ t.input_buffer_tail
    → held t ≡ suc (held (popped t))
unfolding next_index
held-popped t ring ne = ground (arith, ring.head, ring.tail, ne)

popped-IsRing : (t : Terminal) → IsRing t → IsRing (popped t)
unfolding next_index
popped-IsRing t ring = record {
  head = ring.head;
  tail = ground (arith, ring.tail);
  bytes = ring.bytes;
  waiters = ring.waiters;
  waits = ring.waits;
  few = ring.few;
}

-- What a read leaves: all but the index of the tail.
abbrev pub moved : Terminal → ℕ → Terminal
moved t tail = record t { input_buffer_tail = tail }

contents-empty : (t : Terminal) → t.input_buffer_head ≡ t.input_buffer_tail → contents t ≡ []
unfolding contents walk
contents-empty t e = ap (walk next_index t.input_buffer t.input_buffer_tail) none_held
  where
    none_held : held t ≡ 0
    none_held = ground (arith, e)

contents-popped :
    (t : Terminal)
    → IsRing t
    → t.input_buffer_head ≢ t.input_buffer_tail
    → contents t ≡ t.input_buffer t.input_buffer_tail ∷ contents (popped t)
unfolding contents walk
contents-popped t ring ne =
    ap (walk next_index t.input_buffer t.input_buffer_tail) (held-popped t ring ne)

get_char-empty :
    (t : Terminal) → t.input_buffer_head ≡ t.input_buffer_tail → console_get_char t ≡ (err 1, t)
unfolding console_get_char
get_char-empty t e = rw (e, ==_refl t.input_buffer_tail) refl

get_char-first :
    (t : Terminal)
    → t.input_buffer_head ≢ t.input_buffer_tail
    → console_get_char t ≡ (t.input_buffer t.input_buffer_tail, popped t)
unfolding console_get_char
get_char-first t ne = rw (ne→== t.input_buffer_head t.input_buffer_tail ne) refl

-- Reading returns the first characters held, as many as asked for, or all if there are fewer; the
-- others stay, and only the index of the tail changes.
pub read_chars-take :
    (count : ℕ) (t : Terminal)
    → IsRing t
    → (tail : ℕ) × (read_chars count t ≡ (take count (contents t), moved t tail))
      × (contents (moved t tail) ≡ drop count (contents t))
      × IsRing (moved t tail)
unfolding read_chars
read_chars-take zero t ring = (t.input_buffer_tail, refl, refl, ring)
read_chars-take (suc count) t ring = elim (ℕ_discrete t.input_buffer_head t.input_buffer_tail) [
  | yes e ↦
      rw (get_char-empty t e, contents-empty t e)
        (t.input_buffer_tail, refl, contents-empty t e, ring)
  | no ne ↦
      let byte : (t.input_buffer t.input_buffer_tail == err 1) ≡ false =
        ground (arith, ring.bytes t.input_buffer_tail) in
      let (tail, e, left, ring') = read_chars-take count (popped t) (popped-IsRing t ring) in
      rw (get_char-first t ne, e, byte, contents-popped t ring ne) (tail, refl, left, ring')
]

-- A read while characters are held does not wait for more: it returns the first of them, as many as
-- asked for, or all if there are fewer, and keeps the others.
pub console_read-take :
    (t : Terminal) (count : ℕ) (non_blocking : Bool) (proc ticks : ℕ)
    → IsRing t
    → contents t ≢ []
    → (t' : Terminal) × (console_read t count non_blocking proc ticks
        ≡ some (reads (take count (contents t)) t'))
      × (contents t' ≡ drop count (contents t))
      × IsRing t'
unfolding console_read
console_read-take t count non_blocking proc ticks ring some_held =
    let (tail, made, left, ring') = read_chars-take count t ring in
    let apart : (t.input_buffer_head == t.input_buffer_tail) ≡ false =
      ne→== t.input_buffer_head t.input_buffer_tail (λ e. some_held (contents-empty t e)) in
    (moved t tail, rw (apart, made, both_false (not non_blocking)) refl, left, ring')
  where
    both_false : (b : Bool) → (b && false) ≡ false
    both_false true = refl
    both_false false = refl
