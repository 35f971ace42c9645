-- ===== src/Framebuffer/Console.antt =====
-- The text console of kernel/drivers/framebuffer/framebuffer_console.c.
--
-- An `int` is a 32-bit word, and one with the highest bit set is negative; a `char` is unsigned, as on
-- ARM. `none` is an access past an array.
-- `refresh_screen` is a local of `framebuffer_console_write`.
pub mod Write
use vmwos.Prelude.{
  ℕ, zero, suc, ◌+◌, ◌-◌, ◌*◌, ◌/◌, ◌%◌, ◌^◌, bit_and, Bool, true, not, ◌&&◌, ◌||◌, Option, none,
  some, [], ◌∷◌, ltb, leb, ◌==◌, if◌then◌else◌, ◌>>=◌, get_or,
}
use vmwos.Fs.{err}
use vmwos.Framebuffer.{
  Framebuffer, framebuffer_ready, framebuffer_putpixel, framebuffer_clear_screen, framebuffer_push,
}

-- CONSOLE_X, CONSOLE_Y and the size of the two arrays
abbrev pub width : ℕ
width = 80

abbrev pub height : ℕ
height = 35

abbrev pub cells : ℕ
cells = 2800

abbrev pub font_ysize : ℕ
font_ysize = 16

abbrev pub enodev : ℕ
enodev = 19

-- FORE_GREY|BACK_BLACK
abbrev pub plain : ℕ
plain = 7

-- ANSI_MAX_NUMBERS and ANSI_DEFAULT
abbrev pub max_numbers : ℕ
max_numbers = 10

abbrev pub ansi_default : ℕ
ansi_default = 2 ^ 32 - 1

pub data AnsiState : Type 0 where
  normal : AnsiState
  escape : AnsiState
  number : AnsiState
  complete : AnsiState

pub record Console : Type 0 where
  pub initialized : Bool
  pub text_console : ℕ → ℕ
  pub text_color : ℕ → ℕ
  pub console_x : ℕ
  pub console_y : ℕ
  pub console_fore_color : ℕ
  pub console_back_color : ℕ
  pub console_fore_bright : ℕ
  pub numbers : ℕ → ℕ
  pub which_number : ℕ
  pub ansi_state : AnsiState
  pub ansi_command : ℕ
  pub refresh_screen : Bool
  pub screen : Framebuffer

abbrev pub negative : ℕ → Bool
negative word = leb (2 ^ 31) word

-- a + b and a - b of words
abbrev pub add : ℕ → ℕ → ℕ
add a b = (a + b) % 2 ^ 32

abbrev pub sub : ℕ → ℕ → ℕ
sub a b = (a + (2 ^ 32 - b)) % 2 ^ 32

-- a >= b for a word and a small constant
abbrev pub at_least : ℕ → ℕ → Bool
at_least a b = leb b a && not (negative a)

pub ansi_colors : ℕ → ℕ
ansi_colors c =
    get_or
      (0x000000 ∷ 0xaa0000 ∷ 0x00aa00 ∷ 0xaa5522 ∷ 0x0000aa ∷ 0xaa00aa ∷ 0x00aaaa ∷ 0xaaaaaa
        ∷ 0x7d7d7d ∷ 0xff7d7d ∷ 0x00ff00 ∷ 0xffff00 ∷ 0x0000ff ∷ 0xff00ff ∷ 0x00ffff ∷ 0xffffff
        ∷ [])
      c 0

pub framebuffer_console_clear : Console → Console
framebuffer_console_clear c = record c {
  screen = framebuffer_clear_screen 0 c.screen;
  text_console = λ i. if ltb i cells then 0x20 else c.text_console i;
  text_color = λ i. if ltb i cells then plain else c.text_color i;
}

pub framebuffer_console_home : Console → Console
framebuffer_console_home c = record c { console_x = 0; console_y = 0 }

-- The result is -1 for a place that is right of the console or below it.
pub framebuffer_console_val : Console → ℕ → ℕ → Option ℕ
framebuffer_console_val c x y =
    let place = add x (y * width) in
    if at_least x width
    then some (err 1)
    else if at_least y height
    then some (err 1)
    else if ltb place cells
    then some (c.text_console place)
    else none

pub framebuffer_console_init : Console → Console
framebuffer_console_init c = record (framebuffer_console_home (framebuffer_console_clear c)) {
  initialized = true;
}

-- The loops of `framebuffer_console_putchar`: the pixels of a row, and the rows; `font` is the font.
module _ (font : ℕ → ℕ) where
  pub put_pixels : ℕ → ℕ → ℕ → ℕ → ℕ → ℕ → ℕ → Framebuffer → Framebuffer
  put_pixels zero xx fore back row x y f = f
  put_pixels (suc left) xx fore back row x y f = put_pixels left (xx + 1) fore back row x y (
      if not (bit_and row (2 ^ (7 - xx)) == 0)
      then framebuffer_putpixel fore (x + xx) y f
      else if not (back == 0)
      then framebuffer_putpixel back (x + xx) y f
      else f)

  pub put_rows : ℕ → ℕ → ℕ → ℕ → ℕ → ℕ → ℕ → Framebuffer → Framebuffer
  put_rows zero yy fore back ch x y f = f
  put_rows (suc left) yy fore back ch x y f =
      put_rows left (yy + 1) fore back ch x y
        (put_pixels 8 0 fore back (font (ch * font_ysize + yy)) x (y + yy) f)

  -- Without a console nothing is drawn.
  pub framebuffer_console_putchar : ℕ → ℕ → ℕ → ℕ → ℕ → Console → Console
  framebuffer_console_putchar fore back ch x y c =
      if c.initialized
      then record c { screen = put_rows font_ysize 0 fore back ch x y c.screen }
      else c

  pub draw_column : ℕ → ℕ → ℕ → Console → Console
  draw_column zero x y c = c
  draw_column (suc left) x y c = draw_column left x (y + 1) (
      framebuffer_console_putchar (ansi_colors (c.text_color (x + y * width) % 2 ^ 4))
        (ansi_colors (c.text_color (x + y * width) / 2 ^ 4 % 2 ^ 4))
        (c.text_console (x + y * width)) (x * 8) (y * font_ysize) c)

  pub draw_columns : ℕ → ℕ → Console → Console
  draw_columns zero x c = c
  draw_columns (suc left) x c = draw_columns left (x + 1) (draw_column height x 0 c)

  pub framebuffer_console_push : Console → Console
  framebuffer_console_push c =
      if framebuffer_ready c.screen
      then (let drawn = draw_columns width 0 c in
          record drawn { screen = framebuffer_push drawn.screen })
      else c

  -- There is one font.
  pub framebuffer_console_setfont : ℕ → Console → Console
  framebuffer_console_setfont which c =
      framebuffer_console_push (record c { screen = framebuffer_clear_screen 0 c.screen })
