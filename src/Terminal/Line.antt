-- ===== src/Terminal/Line.antt =====
-- The line discipline of kernel/drivers/console/console_io.c: what a key does to the line that is
-- being edited and to the queue of characters.
pub mod Insert
pub mod Keys
pub mod Text
use vmwos.Prelude.{
  walk, one_on, length-walk, take-walk, walk-one_on, walk-put, ℕ, ◌+◌, ◌-◌, ◌%◌, ◌^◌, ◌<◌, ◌≡◌,
  Bool, true, false, ◌||◌, Option, some, List, [], ◌∷◌, ◌++◌, ◌==◌, if◌then◌else◌, ◌>>=◌, length,
  take,
}
use vmwos.Framebuffer.Console.Write.Plain.{IsIdle}
use vmwos.Terminal.{
  Terminal, Termios, flag_set, icanon, echo, echoctl, backspace, newline, verase, veof,
  canon_buffer_size, translated, ignored, console_insert_char,
}
use vmwos.Terminal.Ring.{contents, IsRing, accept}

-- The line that is being edited.
unfoldable pub line : Terminal → List ℕ
line t = walk one_on t.canon_buffer 0 t.canon_offset

-- In canonical mode, between two keys: the line has room, text can be written to the console, and
-- if keys are echoed, then control characters by their letters.
pub record IsReady (t : Terminal) : Type 0 where
  pub ring : IsRing t
  pub room : t.canon_offset < canon_buffer_size
  pub bytes : (i : ℕ) → t.canon_buffer i < 2 ^ 8
  pub canonical : flag_set t.current_termio.c_lflag icanon ≡ true
  pub letters :
      flag_set t.current_termio.c_lflag echo ≡ true
      → flag_set t.current_termio.c_lflag echoctl ≡ true
  pub screen : IsIdle t.screen

-- The line and the queue of characters.
pub record Edited : Type 0 where
  pub typed : List ℕ
  pub queue : List ℕ

-- The terminal as its line and its queue.
abbrev pub edited : Terminal → Edited
edited t = record { typed = line t; queue = contents t }

-- The line goes into the queue as far as there is room.
abbrev pub submitted : Edited → Edited
submitted e = record { typed = []; queue = accept e.queue e.typed }

-- What a key does: the key for the end of the file submits the line as it is, one that erases takes
-- its last character, and any other is added; a line is submitted with a newline or when it is full.
unfoldable pub press_on : Termios → ℕ → Edited → Edited
press_on termio ch e =
    let typed' = e.typed ++ (ch % 2 ^ 8 ∷ []) in
    if ch == termio.c_cc veof
    then submitted e
    else if ch == backspace || ch == termio.c_cc verase
    then record e { typed = take (length e.typed - 1) e.typed }
    else if length typed' == canon_buffer_size || ch == newline
    then submitted (record e { typed = typed' })
    else record e { typed = typed' }

unfoldable pub press : Termios → ℕ → Edited → Edited
press termio ch e =
    let ch' = translated termio ch in if ignored termio ch' then e else press_on termio ch' e

module _ (font : ℕ → ℕ) where
  -- Keys, one after the other.
  unfoldable pub type_keys : List ℕ → Terminal → Option Terminal
  type_keys [] t = some t
  type_keys (ch ∷ rest) t = console_insert_char font t ch >>= λ (_, t'). type_keys rest t'

unfoldable pub press_all : Termios → List ℕ → Edited → Edited
press_all termio [] e = e
press_all termio (ch ∷ rest) e = press_all termio rest (press termio ch e)
