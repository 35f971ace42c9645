-- ===== src/Terminal/Line/Keys.antt =====
-- A key in canonical mode, with its echo.
use vmwos.Prelude.{
  walk, one_on, length-walk, take-walk, walk-one_on, walk-put, ℕ, suc, ◌+◌, ◌-◌, ◌%◌, ◌^◌, ◌<◌, ◌≡◌,
  refl, Bool, true, false, ◌||◌, Option, some, List, [], ◌∷◌, ◌++◌, arith, ltb, ◌==◌, if◌then◌else◌,
  ◌>>=◌, put, take, length, ap, ap₂, ◌∙◌, sym, subst, Bool-cases, inl, inr, ==_refl,
}
use vmwos.Framebuffer.Console.{Console}
use vmwos.Framebuffer.Console.Write.Plain.{IsIdle, plain_text}
use vmwos.Terminal.{
  Terminal, Termios, Serial, flag_set, icanon, echo, echoctl, backspace, space, newline, verase,
  veof, canon_buffer_size, translated, ignored, echo_text, erase_char, add_char, canon_no_add,
  line_done, canonical_char, console_canonical_read, console_insert_char,
}
use vmwos.Terminal.Ring.{contents, IsRing}
use vmwos.Terminal.Line.{line, IsReady, Edited, edited, submitted, press_on, press}
use vmwos.Terminal.Output.{echo_text-Typed, echo_text-plain, echo_if-IsIdle}
use vmwos.Terminal.Line.Insert.{line_done-accept}

-- The terminal after an edit of the line and an echo.
abbrev changed : Terminal → (ℕ → ℕ) → ℕ → Serial → Console → Terminal
changed t buffer offset port screen = record t {
  canon_buffer = buffer;
  canon_offset = offset;
  serial = port;
  screen = screen;
}

IsRing-changed :
    (t : Terminal) (buffer : ℕ → ℕ) (offset : ℕ) (port : Serial) (screen : Console)
    → IsRing t
    → IsRing (changed t buffer offset port screen)
IsRing-changed t buffer offset port screen ring = record {
  head = ring.head;
  tail = ring.tail;
  bytes = ring.bytes;
  waiters = ring.waiters;
  waits = ring.waits;
  few = ring.few;
}

-- Another line, and the queue of the terminal.
abbrev pub typing : Terminal → List ℕ → Edited
typing t chars = record { typed = chars; queue = contents t }

-- What a key comes to: it returns 0, the line and the queue are these, and the next key may come.
abbrev pub Presses : Terminal → Option (ℕ × Terminal) → Edited → Type 0
Presses t o e =
    (t' : Terminal) × (o ≡ some (0, t'))
    × (edited t' ≡ e)
    × IsReady t'
    × (t'.current_termio ≡ t.current_termio)

-- Submitting the line.
line_done-Presses :
    (t : Terminal)
    → IsRing t
    → ((i : ℕ) → t.canon_buffer i < 2 ^ 8)
    → (t₀ : Terminal) → IsReady t₀
    → t.current_termio ≡ t₀.current_termio
    → IsIdle t.screen
    → Presses t₀ (line_done t) (submitted (edited t))
unfolding contents line walk
line_done-Presses t ring bytes t₀ ready kept idle =
    let (t', made, held, ring', same) = line_done-accept t ring bytes in
    let setting : t'.current_termio ≡ t₀.current_termio = same.current_termio ∙ kept in
    (
      record t' { canon_offset = 0 },
      made,
      ap (λ q. record { typed = []; queue = q }) held,
      record {
        ring = IsRing-changed t' t'.canon_buffer 0 t'.serial t'.screen ring';
        room = omega arith;
        bytes = λ i. subst (λ b. b i < 2 ^ 8) (sym same.canon_buffer) (bytes i);
        canonical = ap (λ s. flag_set s.c_lflag icanon) setting ∙ ready.canonical;
        letters = subst (λ s. Letters s) (sym setting) ready.letters;
        screen = subst IsIdle (sym same.screen) idle;
      },
      setting,
    )
  where
    Letters : Termios → Type 0
    Letters s = flag_set s.c_lflag echo ≡ true → flag_set s.c_lflag echoctl ≡ true

module _ (font : ℕ → ℕ) where
  erase_char-Presses :
      (t : Terminal)
      → IsReady t
      → Presses t
          (erase_char font t >>= λ t'. canon_no_add false t')
          (typing t (take (length (line t) - 1) (line t)))
  unfolding erase_char canon_no_add line contents plain_text
  erase_char-Presses t ready =
      let count = length-walk one_on t.canon_buffer 0 t.canon_offset in
      let shorter : walk one_on t.canon_buffer 0 (t.canon_offset - 1)
          ≡ take (length (line t) - 1) (line t) =
        rw count (
          sym (
            take-walk one_on t.canon_buffer (t.canon_offset - 1) t.canon_offset 0 (omega arith))) in
      elim (Bool-cases (ltb 0 t.canon_offset)) [
        | inl some_typed ↦
            let (port, screen, made, idle) =
              echo_if-IsIdle font (flag_set t.current_termio.c_lflag echo)
                (backspace ∷ space ∷ backspace ∷ [])
                (record t { canon_offset = t.canon_offset - 1 }) (_, _, refl) ready.screen
                (λ _. refl) in
            (
              changed t t.canon_buffer (t.canon_offset - 1) port screen,
              rw (some_typed, made) refl,
              ap (typing t) shorter,
              record {
                ring = IsRing-changed t t.canon_buffer (t.canon_offset - 1) port screen ready.ring;
                room = omega (arith, ready.room);
                bytes = ready.bytes;
                canonical = ready.canonical;
                letters = ready.letters;
                screen = idle;
              },
              refl,
            )
        | inr none_typed ↦
            let empty : t.canon_offset ≡ t.canon_offset - 1 = ground (arith, none_typed) in
            (
              t,
              rw none_typed refl,
              ap (λ n. typing t (walk one_on t.canon_buffer 0 n)) empty ∙ ap (typing t) shorter,
              ready,
              refl,
            )
      ]

  -- The terminal with a character added to the line, and its echo.
  abbrev added : Terminal → ℕ → Serial → Console → Terminal
  added t ch port screen =
      changed t (put t.canon_buffer t.canon_offset (ch % 2 ^ 8)) (t.canon_offset + 1) port screen

  add_char_lem :
      (t : Terminal) (ch : ℕ)
      → IsReady t
      → ch < 2 ^ 8
      → (port : Serial) × (screen : Console) × (add_char font t ch ≡ some (added t ch port screen))
        × IsIdle screen
  unfolding add_char
  add_char_lem t ch ready lt =
      let (port, screen, made, idle) =
        echo_if-IsIdle font (flag_set t.current_termio.c_lflag echo) (echo_text t.current_termio ch)
          (record t { canon_buffer = put t.canon_buffer t.canon_offset (ch % 2 ^ 8) })
          (echo_text-Typed t.current_termio ch) ready.screen
          (λ asked. echo_text-plain t.current_termio ch lt (ready.letters asked)) in
      (port, screen, rw made refl, idle)

  added-line :
      (t : Terminal) (ch : ℕ) (port : Serial) (screen : Console)
      → line (added t ch port screen) ≡ line t ++ (ch % 2 ^ 8 ∷ [])
  unfolding line
  added-line t ch port screen =
      let buffer : ℕ → ℕ = put t.canon_buffer t.canon_offset (ch % 2 ^ 8) in
      ap (walk one_on buffer 0) (one_more t.canon_offset)
      ∙ walk-one_on buffer t.canon_offset 0
      ∙ ap₂ (λ xs c. xs ++ (c ∷ []))
          (walk-put t.canon_buffer (ch % 2 ^ 8) t.canon_offset 0 t.canon_offset (omega arith))
          (rw (from_zero t.canon_offset, ==_refl t.canon_offset) refl)
    where
      one_more : (n : ℕ) → n + 1 ≡ suc n
      one_more n = omega arith

      from_zero : (n : ℕ) → 0 + n ≡ n
      from_zero n = omega arith

  added-settles :
      (t : Terminal) (ch : ℕ) (port : Serial) (screen : Console)
      → IsReady t
      → IsIdle screen
      → (done : Bool) → (done ≡ false → t.canon_offset + 1 < canon_buffer_size)
      → let e = typing t (line (added t ch port screen)) in
        Presses t (canon_no_add done (added t ch port screen)) (if done then submitted e else e)
  unfolding canon_no_add contents
  added-settles t ch port screen ready idle true room =
      line_done-Presses (added t ch port screen) (IsRing-changed t _ _ port screen ready.ring)
        (λ i. ground (arith, ready.bytes i)) t ready refl idle
  added-settles t ch port screen ready idle false room = (
    added t ch port screen,
    refl,
    refl,
    record {
      ring = IsRing-changed t _ _ port screen ready.ring;
      room = room refl;
      bytes = λ i. ground (arith, ready.bytes i);
      canonical = ready.canonical;
      letters = ready.letters;
      screen = idle;
    },
    refl,
  )

  add_char-Presses :
      (t : Terminal) (ch : ℕ)
      → IsReady t
      → ch < 2 ^ 8
      → let typed' = line t ++ (ch % 2 ^ 8 ∷ []) in
        Presses t
          (add_char font t ch >>= λ t'.
            canon_no_add (t'.canon_offset == canon_buffer_size || ch == newline) t')
          (if length typed' == canon_buffer_size || ch == newline
            then submitted (typing t typed')
            else typing t typed')
  unfolding line
  add_char-Presses t ch ready lt =
      let (port, screen, made, idle) = add_char_lem t ch ready lt in
      let typed' : line (added t ch port screen) ≡ line t ++ (ch % 2 ^ 8 ∷ []) =
        added-line t ch port screen in
      let count : length (line (added t ch port screen)) ≡ t.canon_offset + 1 =
        length-walk one_on _ 0 (t.canon_offset + 1) in
      rw (made, sym typed', count)
        (added-settles t ch port screen ready idle
          (t.canon_offset + 1 == canon_buffer_size || ch == newline)
          (λ off. ground (arith, off, ready.room)))

  canonical_char-press_on :
      (t : Terminal) (ch : ℕ)
      → IsReady t
      → ch < 2 ^ 8
      → Presses t (canonical_char font t ch) (press_on t.current_termio ch (edited t))
  unfolding canonical_char press_on canon_no_add
  canonical_char-press_on t ch ready lt = elim (Bool-cases (ch == t.current_termio.c_cc veof)) [
    | inl ends ↦ rw ends (line_done-Presses t ready.ring ready.bytes t ready refl ready.screen)
    | inr goes_on ↦
        rw goes_on (elim (Bool-cases (ch == backspace || ch == t.current_termio.c_cc verase)) [
          | inl erases ↦ rw erases (erase_char-Presses t ready)
          | inr adds ↦ rw adds (add_char-Presses t ch ready lt)
        ])
  ]

  -- A key in canonical mode does what the reference does.
  pub console_insert_char-press :
      (t : Terminal) (ch : ℕ)
      → IsReady t
      → ch < 2 ^ 8
      → Presses t (console_insert_char font t ch) (press t.current_termio ch (edited t))
  unfolding console_insert_char console_canonical_read press
  console_insert_char-press t ch ready lt =
      let ch' = translated t.current_termio ch in
      rw ready.canonical (elim (Bool-cases (ignored t.current_termio ch')) [
        | inl skip ↦ rw skip (t, refl, refl, ready, refl)
        | inr keep ↦ rw keep (canonical_char-press_on t ch' ready (ground (arith, lt)))
      ])
