-- ===== src/Terminal/Line/Text.antt =====
-- Sequences of keys, and the lines that a program reads.
use vmwos.Prelude.{
  ℕ, ◌+◌, ◌-◌, ◌%◌, ◌^◌, ◌<◌, ◌≡◌, refl, Bool, true, false, not, ◌&&◌, ◌||◌, some, List, [], ◌∷◌,
  ◌++◌, arith, ◌==◌, take, drop, take_all, take-append, ◌≢◌, length, length-append, ap, ap₂, ◌∙◌,
  sym, append_assoc, append-nil,
}
use vmwos.Terminal.{
  Terminal, Termios, flag_set, icrnl, igncr, backspace, newline, carriage_return, verase, veof,
  canon_buffer_size, input_buffer_size, translated, ignored, reads, console_read,
}
use vmwos.Terminal.Ring.{contents, accept}
use vmwos.Terminal.Read.{console_read-take}
use vmwos.Terminal.Line.{
  line, IsReady, Edited, edited, submitted, press_on, press, press_all, type_keys,
}
use vmwos.Terminal.Line.Keys.{console_insert_char-press}

-- All keys are bytes.
unfoldable pub Bytes : List ℕ → Type 0
Bytes [] = Unit
Bytes (ch ∷ rest) = (ch < 2 ^ 8) × Bytes rest

-- Characters that have no function in canonical mode.
unfoldable pub ordinary : Termios → ℕ → Bool
ordinary termio ch =
    not (ch == carriage_return)
    && not (ch == newline)
    && not (ch == backspace)
    && not (ch == termio.c_cc verase)
    && not (ch == termio.c_cc veof)

unfoldable pub all_ordinary : Termios → List ℕ → Bool
all_ordinary termio [] = true
all_ordinary termio (ch ∷ rest) = ordinary termio ch && all_ordinary termio rest

-- The return key ends a line: it becomes a newline, which has no other function.
pub record EndsLines (termio : Termios) : Type 0 where
  pub maps : flag_set termio.c_iflag icrnl ≡ true
  pub not_verase : (newline == termio.c_cc verase) ≡ false
  pub not_veof : (newline == termio.c_cc veof) ≡ false

press-ordinary :
    (termio : Termios) (ch : ℕ) (e : Edited)
    → ch < 2 ^ 8
    → ordinary termio ch ≡ true
    → length e.typed + 1 < canon_buffer_size
    → press termio ch e ≡ record e { typed = e.typed ++ (ch ∷ []) }
unfolding press press_on ordinary
press-ordinary termio ch e lt plain room =
    let same : translated termio ch ≡ ch = ground (arith, plain) in
    let kept : ignored termio ch ≡ false = ground (arith, plain) in
    let byte : ch % 2 ^ 8 ≡ ch = omega (arith, lt) in
    let count : (length (e.typed ++ (ch ∷ [])) == canon_buffer_size) ≡ false =
      ground (arith, length-append e.typed (ch ∷ []), room) in
    rw (same, kept, byte, count) (ground (arith, plain))

press_all-ordinary :
    (termio : Termios) (text : List ℕ) (e : Edited)
    → Bytes text
    → all_ordinary termio text ≡ true
    → length e.typed + length text < canon_buffer_size
    → press_all termio text e ≡ record e { typed = e.typed ++ text }
unfolding press_all Bytes all_ordinary
press_all-ordinary termio [] e bytes plain room =
    ap (λ xs. record e { typed = xs }) (sym (append-nil e.typed))
press_all-ordinary termio (ch ∷ rest) e (lt, bytes) plain room =
    ap (press_all termio rest)
      (press-ordinary termio ch e lt (ground (arith, plain)) (omega (arith, room)))
    ∙ press_all-ordinary termio rest (record e { typed = e.typed ++ (ch ∷ []) }) bytes
        (ground (arith, plain)) (omega (arith, room, length-append e.typed (ch ∷ [])))
    ∙ ap (λ xs. record e { typed = xs }) (append_assoc e.typed (ch ∷ []) rest)

press-return :
    (termio : Termios) (e : Edited)
    → EndsLines termio
    → press termio carriage_return e ≡ submitted (record e { typed = e.typed ++ (newline ∷ []) })
unfolding press press_on
press-return termio e ends =
    rw
      (
        ends.maps,
        ends.not_veof,
        ends.not_verase,
        and_false (flag_set termio.c_iflag igncr),
        or_true (length (e.typed ++ (newline ∷ [])) == canon_buffer_size),
      )
      refl
  where
    and_false : (b : Bool) → (b && false) ≡ false
    and_false true = refl
    and_false false = refl

    or_true : (b : Bool) → (b || true) ≡ true
    or_true true = refl
    or_true false = refl

press_all-append :
    (termio : Termios) (xs ys : List ℕ) (e : Edited)
    → press_all termio (xs ++ ys) e ≡ press_all termio ys (press_all termio xs e)
unfolding press_all
press_all-append termio [] ys e = refl
press_all-append termio (x ∷ xs) ys e = press_all-append termio xs ys (press termio x e)

append≢nil : (xs : List ℕ) (y : ℕ) → xs ++ (y ∷ []) ≢ []
append≢nil [] y e = cc
append≢nil (x ∷ xs) y e = cc

module _ (font : ℕ → ℕ) where
  -- However many keys are pressed in canonical mode, with the cursor on the console outside of
  -- an ANSI sequence, and control characters echoed by letters if at all, each is handled
  -- without a fault, and the line that is being edited and the queue of characters are those of
  -- the reference, which knows neither buffers nor indices.
  pub type_keys-press_all :
      (keys : List ℕ) (t : Terminal)
      → IsReady t
      → Bytes keys
      → (t' : Terminal) × (type_keys font keys t ≡ some t')
        × (edited t' ≡ press_all t.current_termio keys (edited t))
        × IsReady t'
        × (t'.current_termio ≡ t.current_termio)
  unfolding type_keys press_all Bytes
  type_keys-press_all [] t ready bytes = (t, refl, refl, ready, refl)
  type_keys-press_all (ch ∷ rest) t ready (lt, bytes) =
      let (t₁, made, same, ready₁, kept) = console_insert_char-press font t ch ready lt in
      let (t₂, made₂, same₂, ready₂, kept₂) = type_keys-press_all rest t₁ ready₁ bytes in
      (t₂, rw made made₂, same₂ ∙ ap₂ (λ s e. press_all s rest e) kept same, ready₂, kept₂ ∙ kept)

  Bytes-append : (xs : List ℕ) (ch : ℕ) → Bytes xs → ch < 2 ^ 8 → Bytes (xs ++ (ch ∷ []))
  unfolding Bytes
  Bytes-append [] ch bytes lt = (lt, tt)
  Bytes-append (x ∷ xs) ch (b, bytes) lt = (b, Bytes-append xs ch bytes lt)

  -- The terminal after a line was typed that the ring has room for or not.
  type_keys-accept :
      (text : List ℕ) (t : Terminal)
      → IsReady t
      → EndsLines t.current_termio
      → Bytes text
      → all_ordinary t.current_termio text ≡ true
      → line t ≡ []
      → contents t ≡ []
      → length text < canon_buffer_size
      → (t' : Terminal) × (type_keys font (text ++ (carriage_return ∷ [])) t ≡ some t')
        × (line t' ≡ [])
        × (contents t' ≡ take (input_buffer_size - 1) (text ++ (newline ∷ [])))
        × IsReady t'
  unfolding accept press_all press
  type_keys-accept text t ready ends bytes plain fresh drained room =
      let (t', made, same, ready', _) =
        type_keys-press_all (text ++ (carriage_return ∷ [])) t ready
          (Bytes-append text carriage_return bytes (omega arith)) in
      let start : edited t ≡ record { typed = []; queue = [] } =
        ap₂ (λ xs q. record { typed = xs; queue = q }) fresh drained in
      let end : edited t' ≡ submitted (record { typed = text ++ (newline ∷ []); queue = [] }) =
        same
        ∙ ap (press_all t.current_termio (text ++ (carriage_return ∷ []))) start
        ∙ press_all-append t.current_termio text (carriage_return ∷ []) _
        ∙ ap (press_all t.current_termio (carriage_return ∷ [])) (
            press_all-ordinary t.current_termio text (record { typed = []; queue = [] }) bytes plain
              (omega (arith, room)))
        ∙ press-return t.current_termio (record { typed = text; queue = [] }) ends in
      (t', made, ap (λ e. e.typed) end, ap (λ e. e.queue) end, ready')

  -- A line of fewer than 255 characters without a function is typed at a terminal in canonical
  -- mode, with nothing typed or held before, and ended with the return key: a read then returns
  -- exactly these characters and a newline, as many as asked for, the others stay for the next
  -- read, and a new line begins.
  pub console_read-type_keys :
      (text : List ℕ) (t : Terminal) (count : ℕ) (non_blocking : Bool) (proc ticks : ℕ)
      → IsReady t
      → EndsLines t.current_termio
      → Bytes text
      → all_ordinary t.current_termio text ≡ true
      → line t ≡ []
      → contents t ≡ []
      → length text < input_buffer_size - 1
      → (t₁ t₂ : Terminal) × (type_keys font (text ++ (carriage_return ∷ [])) t ≡ some t₁)
        × (console_read t₁ count non_blocking proc ticks
            ≡ some (reads (take count (text ++ (newline ∷ []))) t₂))
        × (contents t₂ ≡ drop count (text ++ (newline ∷ [])))
        × (line t₁ ≡ [])
  console_read-type_keys text t count non_blocking proc ticks ready ends bytes plain fresh drained
        lt =
      let (t₁, made, next, held, ready₁) =
        type_keys-accept text t ready ends bytes plain fresh drained (omega (arith, lt)) in
      let all : contents t₁ ≡ text ++ (newline ∷ []) =
        held
        ∙ take_all (input_buffer_size - 1) (text ++ (newline ∷ []))
            (omega (arith, lt, length-append text (newline ∷ []))) in
      let (t₂, got, left, _) =
        console_read-take t₁ count non_blocking proc ticks ready₁.ring
          (λ e. append≢nil text newline (sym all ∙ e)) in
      (
        t₁,
        t₂,
        made,
        got ∙ ap (λ xs. some (reads (take count xs) t₂)) all,
        left ∙ ap (drop count) all,
        next,
      )

  -- With 255 characters without a function on the line, the newline of the return key is lost: a
  -- read returns the characters without it, and nothing else stays in the ring.
  pub console_read_unended :
      (text : List ℕ) (t : Terminal) (count : ℕ) (non_blocking : Bool) (proc ticks : ℕ)
      → IsReady t
      → EndsLines t.current_termio
      → Bytes text
      → all_ordinary t.current_termio text ≡ true
      → line t ≡ []
      → contents t ≡ []
      → length text ≡ input_buffer_size - 1
      → (t₁ t₂ : Terminal) × (type_keys font (text ++ (carriage_return ∷ [])) t ≡ some t₁)
        × (console_read t₁ count non_blocking proc ticks ≡ some (reads (take count text) t₂))
        × (contents t₂ ≡ drop count text)
  console_read_unended text t count non_blocking proc ticks ready ends bytes plain fresh drained
        len =
      let (t₁, made, _, held, ready₁) =
        type_keys-accept text t ready ends bytes plain fresh drained (omega (arith, len)) in
      let cut : contents t₁ ≡ text =
        held ∙ take-append (input_buffer_size - 1) text (newline ∷ []) len in
      let (t₂, got, left, _) =
        console_read-take t₁ count non_blocking proc ticks ready₁.ring
          (λ e. absurd (omega (arith, len, ap length (sym cut ∙ e)))) in
      (
        t₁,
        t₂,
        made,
        got ∙ ap (λ xs. some (reads (take count xs) t₂)) cut,
        left ∙ ap (drop count) cut,
      )
