-- ===== src/Framebuffer/Console/Write.antt =====
-- `framebuffer_console_write` of kernel/drivers/framebuffer/framebuffer_console.c, as `console_write`
-- calls it: its only caller, which holds `console_print_mutex` from `console_enable_locking` on.
--
-- A `printk` of this function calls `console_write` again, and waits for the mutex that is held (for an
-- unknown command or clear it would not return without the mutex either, since `ansi_state` still asks
-- for the command): its result is `none`, like that of an access outside of an array.
pub mod Cursor
pub mod Sound
pub mod Sequence
pub mod OnScreen
pub mod Plain
pub mod Below
pub mod Tests
use vmwos.Prelude.{
  put, ℕ, zero, suc, ◌+◌, ◌-◌, ◌*◌, ◌/◌, ◌%◌, ◌^◌, bit_or, true, false, not, ◌&&◌, ◌||◌, Option,
  none, some, List, [], ◌∷◌, ltb, leb, ◌==◌, if◌then◌else◌, ◌>>=◌,
}
use vmwos.Fs.{err}
use vmwos.Framebuffer.{framebuffer_clear_screen}
use vmwos.Framebuffer.Console.{
  AnsiState, Console, add, ansi_default, at_least, cells, complete, enodev, escape,
  framebuffer_console_clear, framebuffer_console_home, framebuffer_console_push, height,
  max_numbers, negative, normal, number, plain, sub, width,
}

-- A byte in the state for text.
pub put_text : Console → ℕ → Option Console
put_text c b =
    let place = add c.console_x (c.console_y * width) in
    if ltb place cells
    then some (record c {
      refresh_screen = c.refresh_screen || not (c.text_console place == 0x20);
      text_console = put c.text_console place b;
      text_color =
          put c.text_color place
            (bit_or (c.console_back_color * 2 ^ 4) (c.console_fore_color % 2 ^ 4) % 2 ^ 8);
      console_x = add c.console_x 1;
    })
    else none

pub on_normal : Console → ℕ → Option Console
on_normal c b =
    if b == 13
    then some c
    else if b == 10
    then some (record c { console_x = 0; console_y = add c.console_y 1 })
    else if b == 9
    then some (record c { console_x = add c.console_x 8 / 8 * 8 })
    else if b == 8
    then some (record c {
      console_x = if negative (sub c.console_x 1) then 0 else sub c.console_x 1;
      refresh_screen = true;
    })
    else if b == 27
    then some (record c { ansi_state = escape })
    else put_text c b

pub on_escape : Console → ℕ → Console
on_escape c b =
    if b == 0x5b
    then record c {
      which_number = 2 ^ 32 - 1;
      numbers = put c.numbers 0 ansi_default;
      ansi_state = number;
    }
    else record c { ansi_state = normal }

-- A `;`, where `which` is the next number. Too many numbers are reported, which does not return.
pub on_separator : Console → ℕ → Option Console
on_separator c which =
    if which == max_numbers
    then none
    else if ltb which max_numbers
    then some (record c { which_number = which; numbers = put c.numbers which 0 })
    else none

pub on_digit : Console → ℕ → Option Console
on_digit c b =
    if ltb c.which_number max_numbers
    then some (record c {
      numbers = put c.numbers c.which_number (add (c.numbers c.which_number * 10) (b - 0x30));
    })
    else none

pub first_number : Console → Console
first_number c =
    if c.which_number == 2 ^ 32 - 1
    then record c { which_number = 0; numbers = put c.numbers 0 0 }
    else c

pub on_number : Console → ℕ → Option Console
on_number c b =
    if ltb b 0x30 || ltb 0x39 b
    then (if b == 0x3b
        then on_separator c (add c.which_number 1)
        else some (record c {
          which_number = add c.which_number 1;
          ansi_command = b;
          ansi_state = complete;
        }))
    else on_digit (first_number c) b

-- A move by the first number, or by 1.
pub distance_of : Console → ℕ
distance_of c = if c.numbers 0 == ansi_default then 1 else c.numbers 0

pub goto : Console → Console
goto c =
    if c.numbers 0 == ansi_default
    then record c { console_x = 0; console_y = 0 }
    else if c.which_number == 0
    then record c { console_y = sub (c.numbers 0) 1 }
    else record c { console_y = sub (c.numbers 0) 1; console_x = sub (c.numbers 1) 1 }

-- Only the number 2 is known, any other is reported, which does not return.
pub erase : Console → Option Console
erase c =
    if c.numbers 0 == 2 then some (framebuffer_console_home (framebuffer_console_clear c)) else none

-- The tests of one number of a color command, in their order.
pub color_reset : ℕ → Console → Console
color_reset n c =
    if n == 0 || n == ansi_default
    then record c { console_fore_color = 7; console_back_color = 0; console_fore_bright = 0 }
    else c

pub color_bright : ℕ → Console → Console
color_bright n c =
    if n == 1
    then record c { console_fore_bright = 1; console_fore_color = bit_or c.console_fore_color 8 }
    else c

pub color_fore : ℕ → Console → Console
color_fore n c =
    if leb 30 n && leb n 37
    then record c { console_fore_color = bit_or (n - 30) (c.console_fore_bright * 8) }
    else c

pub color_back : ℕ → Console → Console
color_back n c = if leb 40 n && leb n 47 then record c { console_back_color = n - 40 } else c

pub colors_from : ℕ → ℕ → Console → Console
colors_from zero i c = c
colors_from (suc left) i c = colors_from left (i + 1) (
    color_back (c.numbers i)
      (color_fore (c.numbers i) (color_bright (c.numbers i) (color_reset (c.numbers i) c))))

-- The switch on `ansi_command`; a command that is not known is reported, which does
-- not return.
pub run_command : Console → Option Console
run_command c =
    if c.ansi_command == 0x41
    then some (record c { console_y = sub c.console_y (distance_of c) })
    else if c.ansi_command == 0x42
    then some (record c { console_y = add c.console_y (distance_of c) })
    else if c.ansi_command == 0x43
    then some (record c { console_x = add c.console_x (distance_of c) })
    else if c.ansi_command == 0x44
    then some (record c { console_x = sub c.console_x (distance_of c) })
    else if c.ansi_command == 0x48
    then some (goto c)
    else if c.ansi_command == 0x4a
    then erase c
    else if c.ansi_command == 0x6d
    then some (colors_from (if negative c.which_number then 0 else c.which_number) 0 c)
    else none

pub finish : Console → Option Console
finish c =
    run_command c >>= λ c'. some (record c' { which_number = 2 ^ 32 - 1; ansi_state = normal })

pub finish_if : AnsiState → Console → Option Console
finish_if complete c = finish c
finish_if normal c = some c
finish_if escape c = some c
finish_if number c = some c

-- The bounds check, test by test.
abbrev pub clamp : ℕ → ℕ
clamp word = if negative word then 0 else word

pub wrap_line : Console → Console
wrap_line c =
    if at_least c.console_x width
    then record c { console_x = c.console_x % width; console_y = add c.console_y 1 }
    else c

-- A `memmove` by one row, and the last row filled.
pub rows_up : ℕ → (ℕ → ℕ) → ℕ → ℕ
rows_up fill g i =
    if ltb i (cells - width) then g (i + width) else if ltb i cells then fill else g i

pub scroll : Console → Console
scroll c =
    if at_least c.console_y height
    then record c {
      refresh_screen = true;
      text_console = rows_up 0x20 c.text_console;
      text_color = rows_up plain c.text_color;
      console_y = sub c.console_y 1;
    }
    else c

pub check_bounds : Console → Console
check_bounds c =
    scroll (wrap_line (record c { console_x = clamp c.console_x; console_y = clamp c.console_y }))

-- The chain of tests of `ansi_state`; its last state has no branch there.
pub on_byte : AnsiState → Console → ℕ → Option Console
on_byte normal c b = on_normal c b
on_byte escape c b = some (on_escape c b)
on_byte number c b = on_number c b
on_byte complete c b = some c

-- The rest of the round.
pub settle_round : Console → Option Console
settle_round c = finish_if c.ansi_state c >>= λ c'. some (check_bounds c')

pub round : Console → ℕ → Option Console
round c b = on_byte c.ansi_state c b >>= λ c'. settle_round c'

-- The loop over the bytes that are left.
pub write_on : List ℕ → Console → Option Console
write_on [] c = some c
write_on (b ∷ rest) c = round c b >>= λ c'. write_on rest c'

-- A buffer of length 0 is read past its end.
pub write_from : List ℕ → Console → Option Console
write_from [] c = none
write_from (b ∷ rest) c = write_on (b ∷ rest) c

pub refreshed : Console → Console
refreshed c =
    if c.refresh_screen then record c { screen = framebuffer_clear_screen 0 c.screen } else c

pub framebuffer_console_write : (ℕ → ℕ) → List ℕ → Console → Option (ℕ × Console)
framebuffer_console_write font buffer c =
    if c.initialized
    then (write_from buffer (record c { refresh_screen = false }) >>= λ c'.
        some (0, framebuffer_console_push font (refreshed c')))
    else some (err enodev, c)
