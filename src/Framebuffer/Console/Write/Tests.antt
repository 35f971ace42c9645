-- ===== src/Framebuffer/Console/Write/Tests.antt =====
-- Runs of the text console of kernel/drivers/framebuffer/framebuffer_console.c.
use vmwos.Prelude.{
  ℕ, ◌+◌, ◌-◌, ◌*◌, ◌^◌, ◌≡◌, refl, true, false, none, some, List, [], ◌∷◌, arith, ◌>>=◌,
}
use vmwos.Framebuffer.{Framebuffer}
use vmwos.Framebuffer.Console.{
  Console, normal, number, width, framebuffer_console_clear, framebuffer_console_home,
}
use vmwos.Framebuffer.Console.Write.{
  put_text, on_normal, on_escape, on_separator, on_digit, first_number, on_number, goto,
  run_command, erase, finish, finish_if, wrap_line, scroll, check_bounds, rows_up, on_byte,
  settle_round, round, write_on, write_from, framebuffer_console_write, colors_from, color_reset,
  color_bright, color_fore, color_back,
}
use vmwos.Framebuffer.Console.Write.Sound.{IsSound}
use vmwos.Framebuffer.Console.Write.OnScreen.{framebuffer_console_write-IsSound}
use vmwos.Framebuffer.Console.Write.Below.{write_on-none}

abbrev no_screen : Framebuffer
no_screen = record {
  initialized = false;
  phys_x = 640;
  phys_y = 480;
  pitch = 1920;
  fb = λ _. 0;
  pointer = λ _. 0;
}

-- The cursor is on the last row, two places before its end.
abbrev pub low : Console
low = record {
  initialized = true;
  text_console = λ _. 0x20;
  text_color = λ _. 7;
  console_x = 78;
  console_y = 34;
  console_fore_color = 7;
  console_back_color = 0;
  console_fore_bright = 0;
  numbers = λ _. 0;
  which_number = 2 ^ 32 - 1;
  ansi_state = normal;
  ansi_command = 0;
  refresh_screen = false;
  screen = no_screen;
}

pub low-IsSound : IsSound low
low-IsSound = record {
  on = record { column = omega arith; row = omega arith };
  settled = λ e. cc;
  placed = λ e. cc;
}

-- `AB`, a change of the color to red, `C`, a linefeed and `D`
abbrev buffer : List ℕ
buffer = 65 ∷ 66 ∷ 27 ∷ 0x5b ∷ 51 ∷ 49 ∷ 0x6d ∷ 67 ∷ 10 ∷ 68 ∷ []

framebuffer_console_write-IsSound_example :
    (c' : Console) × (framebuffer_console_write (λ _. 0) buffer low ≡ some (0, c')) × IsSound c'
framebuffer_console_write-IsSound_example =
    framebuffer_console_write-IsSound (λ _. 0) 65
      (66 ∷ 27 ∷ 0x5b ∷ 51 ∷ 49 ∷ 0x6d ∷ 67 ∷ 10 ∷ 68 ∷ []) low low-IsSound refl

-- What is in some cells, and the cursor, after the buffer
abbrev seen : Console → List ℕ
seen c =
    c.console_x
    ∷ c.console_y
    ∷ c.text_console (32 * width + 78)
    ∷ c.text_console (32 * width + 79)
    ∷ c.text_console (33 * width)
    ∷ c.text_color (33 * width)
    ∷ c.text_console (34 * width)
    ∷ []

text_test :
    (write_from buffer low >>= λ c. some (seen c)) ≡ some (1 ∷ 34 ∷ 65 ∷ 66 ∷ 67 ∷ 1 ∷ 68 ∷ [])
unfolding write_from write_on round on_byte on_normal put_text on_escape on_number on_separator
    on_digit first_number settle_round finish_if finish run_command colors_from color_reset
    color_bright color_fore color_back check_bounds wrap_line scroll rows_up
text_test = refl

-- `ESC [ 3 ; 7 H` and `ESC [ 5 H`, which takes the column of the first command.
abbrev goto_row : List ℕ
goto_row = 27 ∷ 0x5b ∷ 51 ∷ 0x3b ∷ 55 ∷ 0x48 ∷ 27 ∷ 0x5b ∷ 53 ∷ 0x48 ∷ []

goto_test :
    (write_from goto_row low >>= λ c. some (c.console_x ∷ c.console_y ∷ [])) ≡ some (6 ∷ 4 ∷ [])
unfolding write_from write_on round on_byte on_normal put_text on_escape on_number on_separator
    on_digit first_number settle_round finish_if finish run_command goto check_bounds wrap_line
    scroll
goto_test = refl

-- In a sequence with the number 2
abbrev in_sequence : Console
in_sequence = record low { ansi_state = number; which_number = 0; numbers = λ _. 2 }

write_on-none_test : write_on (0x42 ∷ 65 ∷ []) in_sequence ≡ none
write_on-none_test =
    write_on-none in_sequence 65 [] (record { column = omega arith; row = omega arith }) refl
      (λ e. absurd (omega (arith, e))) (omega arith) (omega arith) refl

-- A command that is not known, and one that clears the console.
reported_test : write_from (27 ∷ 0x5b ∷ 0x4b ∷ []) low ≡ none
unfolding write_from write_on round on_byte on_normal on_escape on_number settle_round finish_if
    finish run_command check_bounds wrap_line scroll
reported_test = refl

cleared_test :
    (write_from (27 ∷ 0x5b ∷ 50 ∷ 0x4a ∷ []) low >>= λ c. some (c.console_x ∷ c.console_y ∷ []))
    ≡ some (0 ∷ 0 ∷ [])
unfolding write_from write_on round on_byte on_normal on_escape on_number on_digit first_number
    settle_round finish_if finish run_command erase check_bounds wrap_line scroll
    framebuffer_console_clear framebuffer_console_home
cleared_test = refl
