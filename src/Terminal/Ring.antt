-- ===== src/Terminal/Ring.antt =====
-- The ring of input characters as a queue.
use vmwos.Prelude.{
  ℕ, zero, suc, ◌+◌, ◌-◌, ◌%◌, ◌^◌, ◌≤◌, ◌<◌, ◌≡◌, refl, false, none, some, List, [], ◌∷◌, ◌++◌,
  arith, ltb, leb, ◌==◌, if◌then◌else◌, put, length, length-append, take, walk, length-walk,
  append-nil, append_assoc, le→ltb, lt→ltb, ap, ap₂, ◌∙◌, sym, Bool-cases, inl, inr, ==_refl, ne→==,
}
use vmwos.Fs.{err}
use vmwos.Process.{Ptr, Processes, list_fuel}
use vmwos.Process.WaitQueue.Queue.{Waits, wait_queue_wake-awake}
use vmwos.Terminal.{
  Terminal, input_buffer_size, next_index, sleepers_awake, console_actual_insert_char,
}

-- The index after `count` steps around the ring.
abbrev pub at : ℕ → ℕ → ℕ
at i count = if ltb (i + count) input_buffer_size then i + count else i + count - input_buffer_size

-- How many characters are in the ring, and which, the first to be read first.
abbrev pub held : Terminal → ℕ
held t =
    if leb t.input_buffer_tail t.input_buffer_head
    then t.input_buffer_head - t.input_buffer_tail
    else t.input_buffer_head + input_buffer_size - t.input_buffer_tail

unfoldable pub contents : Terminal → List ℕ
contents t = walk next_index t.input_buffer t.input_buffer_tail (held t)

-- The indices are inside of the ring, which holds bytes, and the queue of the processes that wait
-- for input is well linked.
pub record IsRing (t : Terminal) : Type 0 where
  pub head : t.input_buffer_head < input_buffer_size
  pub tail : t.input_buffer_tail < input_buffer_size
  pub bytes : (i : ℕ) → t.input_buffer i < 2 ^ 8
  pub waiters : List ℕ
  pub waits : Waits t.processes.procs t.console_wait_queue waiters
  pub few : length waiters < list_fuel

-- No process waits for input.
pub Unwaited : Terminal → Type 0
Unwaited t = t.console_wait_queue ≡ none

around-put :
    (buffer : ℕ → ℕ) (j v count i : ℕ)
    → i < input_buffer_size
    → count < input_buffer_size
    → j ≡ at i count
    → walk next_index (put buffer j v) i count ≡ walk next_index buffer i count
unfolding walk next_index
around-put buffer j v zero i lt few e = refl
around-put buffer j v (suc count) i lt few e = rw (ne→== i j (λ q. absurd (ground (arith, e, q)))) (
    ap (λ xs. buffer i ∷ xs)
      (around-put buffer j v count (next_index i) (ground arith) (omega arith) (ground (arith, e))))

walk-last :
    (buffer : ℕ → ℕ) (count i : ℕ)
    → i < input_buffer_size
    → count < input_buffer_size
    → walk next_index buffer i (suc count)
      ≡ walk next_index buffer i count ++ (buffer (at i count) ∷ [])
unfolding walk next_index
walk-last buffer zero i lt few = rw (lt_add i lt) refl
  where
    lt_add : (n : ℕ) → n < input_buffer_size → at n 0 ≡ n
    lt_add n h = ground arith
walk-last buffer (suc count) i lt few =
    ap (λ xs. buffer i ∷ xs)
      (walk-last buffer count (next_index i) (ground arith) (omega arith)
        ∙ ap (λ k. walk next_index buffer (next_index i) count ++ (buffer k ∷ [])) (ground arith))

-- What waking leaves of the terminal.
pub sleepers_awake_lem :
    (t : Terminal)
    → IsRing t
    → (s : Processes) × (sleepers_awake t
        ≡ some (0, record t { console_wait_queue = none; processes = s }))
      × IsRing (record t { console_wait_queue = none; processes = s })
unfolding sleepers_awake
sleepers_awake_lem t ring =
    let (s, e, _, _, _) =
      wait_queue_wake-awake t.processes t.console_wait_queue ring.waiters ring.waits ring.few in
    (
      s,
      rw e refl,
      record {
        head = ring.head;
        tail = ring.tail;
        bytes = ring.bytes;
        waiters = [];
        waits = (refl, tt);
        few = omega arith;
      },
    )

-- What the input of a character leaves alone.
pub record Untouched (t t' : Terminal) : Type 0 where
  pub canon_buffer : t'.canon_buffer ≡ t.canon_buffer
  pub canon_offset : t'.canon_offset ≡ t.canon_offset
  pub current_termio : t'.current_termio ≡ t.current_termio
  pub scheduling_enabled : t'.scheduling_enabled ≡ t.scheduling_enabled
  pub serial : t'.serial ≡ t.serial
  pub screen : t'.screen ≡ t.screen

-- The ring and the processes that wait are not part of that.
pub ring-Untouched :
    (t : Terminal) (buffer : ℕ → ℕ) (head : ℕ) (first : Ptr) (s : Processes)
    → Untouched t (record t {
      input_buffer = buffer;
      input_buffer_head = head;
      console_wait_queue = first;
      processes = s;
    })
ring-Untouched t buffer head first s = record {
  canon_buffer = refl;
  canon_offset = refl;
  current_termio = refl;
  scheduling_enabled = refl;
  serial = refl;
  screen = refl;
}

pub Untouched-refl : (t : Terminal) → Untouched t t
Untouched-refl t =
    ring-Untouched t t.input_buffer t.input_buffer_head t.console_wait_queue t.processes

-- A queue of at most 255 characters takes as many as it has room for.
unfoldable pub accept : List ℕ → List ℕ → List ℕ
accept queue chars = queue ++ take (input_buffer_size - 1 - length queue) chars

-- The ring with one more character.
abbrev pushed : Terminal → ℕ → Terminal
pushed t ch = record t {
  input_buffer = put t.input_buffer t.input_buffer_head (ch % 2 ^ 8);
  input_buffer_head = next_index t.input_buffer_head;
}

pushed-IsRing : (t : Terminal) (ch : ℕ) → IsRing t → IsRing (pushed t ch)
unfolding next_index
pushed-IsRing t ch ring = record {
  head = ground (arith, ring.head);
  tail = ring.tail;
  bytes = λ i. ground (arith, ring.bytes i);
  waiters = ring.waiters;
  waits = ring.waits;
  few = ring.few;
}

-- The ring is full with 255 characters.
full-held :
    (t : Terminal)
    → IsRing t
    → (next_index t.input_buffer_head == t.input_buffer_tail) ≡ leb (input_buffer_size - 1) (held t)
unfolding next_index
full-held t ring = ground (arith, ring.head, ring.tail)

held-pushed :
    (t : Terminal) (ch : ℕ)
    → IsRing t
    → held t < input_buffer_size - 1
    → held (pushed t ch) ≡ suc (held t)
unfolding next_index
held-pushed t ch ring lt = ground (arith, ring.head, ring.tail)

head-at : (t : Terminal) → IsRing t → t.input_buffer_head ≡ at t.input_buffer_tail (held t)
head-at t ring = ground (arith, ring.head, ring.tail)

contents-pushed :
    (t : Terminal) (ch : ℕ)
    → IsRing t
    → held t < input_buffer_size - 1
    → contents (pushed t ch) ≡ contents t ++ (ch % 2 ^ 8 ∷ [])
unfolding contents
contents-pushed t ch ring lt =
    let buffer : ℕ → ℕ = put t.input_buffer t.input_buffer_head (ch % 2 ^ 8) in
    let here = head-at t ring in
    ap (walk next_index buffer t.input_buffer_tail) (held-pushed t ch ring lt)
    ∙ walk-last buffer (held t) t.input_buffer_tail ring.tail (omega (arith, lt))
    ∙ ap₂ (λ xs k. xs ++ (buffer k ∷ []))
        (around-put t.input_buffer t.input_buffer_head (ch % 2 ^ 8) (held t) t.input_buffer_tail
          ring.tail (omega (arith, lt)) here)
        (sym here)
    ∙ ap (λ c. contents t ++ (c ∷ [])) (rw (==_refl t.input_buffer_head) refl)

pub accept-nil : (queue : List ℕ) → accept queue [] ≡ queue
unfolding accept
accept-nil queue =
    ap (λ xs. queue ++ xs) (take-nil (input_buffer_size - 1 - length queue)) ∙ append-nil queue
  where
    take-nil : (n : ℕ) → take {A = ℕ} n [] ≡ []
    take-nil zero = refl
    take-nil (suc n) = refl

-- A full queue takes nothing.
pub accept-full :
    (queue chars : List ℕ) → input_buffer_size - 1 ≤ length queue → accept queue chars ≡ queue
unfolding accept
accept-full queue chars full = rw (no_room) (append-nil queue)
  where
    no_room : input_buffer_size - 1 - length queue ≡ 0
    no_room = omega (arith, full)

-- A queue with room takes the first character.
pub accept-room :
    (queue : List ℕ) (ch : ℕ) (chars : List ℕ)
    → length queue < input_buffer_size - 1
    → accept queue (ch ∷ chars) ≡ accept (queue ++ (ch ∷ [])) chars
unfolding accept
accept-room queue ch chars room =
    let more : input_buffer_size - 1 - length queue
        ≡ suc (input_buffer_size - 1 - length (queue ++ (ch ∷ []))) =
      omega (arith, length-append queue (ch ∷ []), room) in
    ap (λ n. queue ++ take n (ch ∷ chars)) more ∙ sym (append_assoc queue (ch ∷ []) _)

-- On a ring with its indices inside, console_actual_insert_char appends the character and
-- returns 0 if fewer than 255 are held, otherwise it drops the character and returns -1; the
-- ring stays well formed, and neither the line nor the output changes.
pub console_actual_insert_char-accept :
    (t : Terminal) (ch : ℕ)
    → IsRing t
    → (t' : Terminal) × (console_actual_insert_char t ch false
        ≡ some (if ltb (length (contents t)) (input_buffer_size - 1) then 0 else err 1, t'))
      × (contents t' ≡ accept (contents t) (ch % 2 ^ 8 ∷ []))
      × IsRing t'
      × Untouched t t'
unfolding console_actual_insert_char contents accept
console_actual_insert_char-accept t ch ring =
    let count : length (contents t) ≡ held t =
      length-walk next_index t.input_buffer t.input_buffer_tail (held t) in
    elim (Bool-cases (leb (input_buffer_size - 1) (held t))) [
      | inl full ↦ (
        t,
        rw (full-held t ring ∙ full, le→ltb (length (contents t)) 255 (ground (arith, count, full)))
            refl,
        sym (accept-full (contents t) (ch % 2 ^ 8 ∷ []) (ground (arith, count, full))),
        ring,
        Untouched-refl t,
      )
      | inr room ↦
          (let (s, e, ring') = sleepers_awake_lem (pushed t ch) (pushed-IsRing t ch ring) in
            (
              record (pushed t ch) { console_wait_queue = none; processes = s },
              rw
                  (
                    full-held t ring ∙ room,
                    lt→ltb (length (contents t)) 255 (ground (arith, count, room)),
                  )
                  e,
              contents-pushed t ch ring (ground (arith, room))
                  ∙ sym (
                      accept-room (contents t) (ch % 2 ^ 8) [] (ground (arith, count, room))
                      ∙ accept-nil _),
              ring',
              ring-Untouched t (put t.input_buffer t.input_buffer_head (ch % 2 ^ 8))
                  (next_index t.input_buffer_head) none s,
            ))
    ]
