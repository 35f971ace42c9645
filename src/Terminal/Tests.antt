-- ===== src/Terminal/Tests.antt =====
-- Runs of kernel/drivers/console/console_io.c with the settings of `console_init`.
use vmwos.Prelude.{
  walk, ℕ, zero, suc, ◌≡◌, refl, some, List, [], ◌∷◌, ◌++◌, arith, true, false, replicate, take,
  drop,
}
use vmwos.Process.Tests.{three}
use vmwos.Framebuffer.Console.Write.Tests.{low, low-IsSound}
use vmwos.Terminal.{
  Terminal, default_termio, default_cc, console_actual_insert_char, console_read, reads, next_index,
}
use vmwos.Terminal.Ring.{contents, IsRing, Untouched, accept, console_actual_insert_char-accept}
use vmwos.Terminal.Line.{line, IsReady, edited, press_all, press, press_on, type_keys}
use vmwos.Terminal.Line.Text.{
  EndsLines, Bytes, all_ordinary, ordinary, type_keys-press_all, console_read-type_keys,
  console_read_unended,
}

-- Process 1 waits for input.
abbrev pub fresh : Terminal
fresh = record {
  input_buffer = λ _. 0;
  input_buffer_head = 0;
  input_buffer_tail = 0;
  canon_buffer = λ _. 0;
  canon_offset = 0;
  current_termio = default_termio;
  console_wait_queue = some 1;
  processes = three;
  scheduling_enabled = 1;
  serial = record { initialized = true; sent = [] };
  screen = low;
}

-- The ring holds two characters, the first at its last index.
abbrev wrapped : Terminal
wrapped = record fresh { input_buffer = λ _. 65; input_buffer_head = 1; input_buffer_tail = 255 }

wrapped-IsRing : IsRing wrapped
wrapped-IsRing = record {
  head = omega arith;
  tail = omega arith;
  bytes = λ i. omega arith;
  waiters = 1 ∷ [];
  waits = ((refl, refl), (refl, tt));
  few = omega arith;
}

fresh-IsReady : IsReady fresh
unfolding default_termio
fresh-IsReady = record {
  ring = record {
    head = omega arith;
    tail = omega arith;
    bytes = λ i. omega arith;
    waiters = 1 ∷ [];
    waits = ((refl, refl), (refl, tt));
    few = omega arith;
  };
  room = omega arith;
  bytes = λ i. omega arith;
  canonical = refl;
  letters = λ _. refl;
  screen = record { sound = low-IsSound; idle = refl };
}

default_termio-EndsLines : EndsLines default_termio
unfolding default_termio default_cc
default_termio-EndsLines = record { maps = refl; not_verase = refl; not_veof = refl }

console_actual_insert_char-accept_test :
    (t' : Terminal) × (console_actual_insert_char wrapped 66 false ≡ some (0, t'))
    × (contents t' ≡ 65 ∷ 65 ∷ 66 ∷ [])
    × IsRing t'
    × Untouched wrapped t'
unfolding contents walk accept next_index
console_actual_insert_char-accept_test = console_actual_insert_char-accept wrapped 66 wrapped-IsRing

-- `a`, `b`, delete, ^A, and the return key
abbrev keys : List ℕ
keys = 97 ∷ 98 ∷ 0x7f ∷ 1 ∷ 13 ∷ []

type_keys-press_all_example :
    (t' : Terminal) × (type_keys (λ _. 0) keys fresh ≡ some t')
    × (edited t' ≡ record { typed = []; queue = 97 ∷ 1 ∷ 10 ∷ [] })
    × IsReady t'
    × (t'.current_termio ≡ default_termio)
unfolding press_all press press_on contents walk line accept Bytes default_cc default_termio
type_keys-press_all_example =
    type_keys-press_all (λ _. 0) keys fresh fresh-IsReady
      (omega arith, (omega arith, (omega arith, (omega arith, (omega arith, tt)))))

console_read-type_keys_example :
    (t₁ t₂ : Terminal) × (type_keys (λ _. 0) (97 ∷ 98 ∷ 13 ∷ []) fresh ≡ some t₁)
    × (console_read t₁ 2 false 1 5 ≡ some (reads (97 ∷ 98 ∷ []) t₂))
    × (contents t₂ ≡ 10 ∷ [])
    × (line t₁ ≡ [])
unfolding contents walk line Bytes default_termio default_cc all_ordinary ordinary
console_read-type_keys_example =
    console_read-type_keys (λ _. 0) (97 ∷ 98 ∷ []) fresh 2 false 1 5 fresh-IsReady
      default_termio-EndsLines (omega arith, (omega arith, tt)) refl refl refl (omega arith)

Bytes-replicate : (n : ℕ) → Bytes (replicate n 97)
unfolding Bytes
Bytes-replicate zero = tt
Bytes-replicate (suc n) = (omega arith, Bytes-replicate n)

abbrev full_line : List ℕ
full_line = replicate 255 97

console_read_unended_example :
    (t₁ t₂ : Terminal) × (type_keys (λ _. 0) (full_line ++ (13 ∷ [])) fresh ≡ some t₁)
    × (console_read t₁ 300 false 1 5 ≡ some (reads (take 300 full_line) t₂))
    × (contents t₂ ≡ drop 300 full_line)
unfolding contents walk line default_termio default_cc all_ordinary ordinary
console_read_unended_example =
    console_read_unended (λ _. 0) full_line fresh 300 false 1 5 fresh-IsReady
      default_termio-EndsLines (Bytes-replicate 255) refl refl refl refl
