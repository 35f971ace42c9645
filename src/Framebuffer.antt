-- ===== src/Framebuffer.antt =====
-- The framebuffer of kernel/drivers/framebuffer/framebuffer.c, once it has been set up.
--
-- `fb` is the off-screen buffer and `pointer` what the device shows, a byte for each index. What
-- `framebuffer_init` learns from the firmware are fields.
pub mod Console
use vmwos.Prelude.{ℕ, zero, suc, ◌+◌, ◌-◌, ◌*◌, ◌/◌, ◌%◌, ◌^◌, Bool, ltb, ◌==◌, if◌then◌else◌, ◌&&◌}

pub record Framebuffer : Type 0 where
  pub initialized : Bool
  pub phys_x : ℕ
  pub phys_y : ℕ
  pub pitch : ℕ
  pub fb : ℕ → ℕ
  pub pointer : ℕ → ℕ

pub framebuffer_ready : Framebuffer → Bool
framebuffer_ready f = f.initialized

-- The three bytes of a pixel: blue, green, red.
pub put_color : ℕ → ℕ → (ℕ → ℕ) → ℕ → ℕ
put_color color place fb i =
    if i == place
    then color % 2 ^ 8
    else if i == place + 1
    then color / 2 ^ 8 % 2 ^ 8
    else if i == place + 2
    then color / 2 ^ 16 % 2 ^ 8
    else fb i

pub framebuffer_putpixel : ℕ → ℕ → ℕ → Framebuffer → Framebuffer
framebuffer_putpixel color x y f = record f { fb = put_color color (y * f.pitch + x * 3) f.fb }

-- The loops over `left` pixels of a line, from x or from y on.
pub hline_from : ℕ → ℕ → ℕ → ℕ → Framebuffer → Framebuffer
hline_from zero color x y f = f
hline_from (suc left) color x y f =
    hline_from left color (x + 1) y (framebuffer_putpixel color x y f)

pub framebuffer_hline : ℕ → ℕ → ℕ → ℕ → Framebuffer → Framebuffer
framebuffer_hline color x0 x1 y f = hline_from (x1 - x0) color x0 y f

pub vline_from : ℕ → ℕ → ℕ → ℕ → Framebuffer → Framebuffer
vline_from zero color y x f = f
vline_from (suc left) color y x f =
    vline_from left color (y + 1) x (framebuffer_putpixel color x y f)

pub framebuffer_vline : ℕ → ℕ → ℕ → ℕ → Framebuffer → Framebuffer
framebuffer_vline color y0 y1 x f = vline_from (y1 - y0) color y0 x f

pub clear_from : ℕ → ℕ → ℕ → Framebuffer → Framebuffer
clear_from zero color y f = f
clear_from (suc left) color y f =
    clear_from left color (y + 1) (framebuffer_hline color 0 f.phys_x y f)

pub framebuffer_clear_screen : ℕ → Framebuffer → Framebuffer
framebuffer_clear_screen color f = clear_from f.phys_y color 0 f

pub framebuffer_push : Framebuffer → Framebuffer
framebuffer_push f = record f {
  pointer = λ i. if ltb i (f.phys_x * f.phys_y * 3) then f.fb i else f.pointer i;
}

-- The columns of the gradient; `FB_WIDTH` is 640.
pub gradient_from : ℕ → ℕ → Framebuffer → Framebuffer
gradient_from zero x f = f
gradient_from (suc left) x f =
    gradient_from left (x + 1) (framebuffer_vline (x * 256 / 640) 0 (f.phys_y - 1) x f)

pub framebuffer_gradient : ℕ → Framebuffer → Framebuffer
framebuffer_gradient type f = if type == 0 then framebuffer_push (gradient_from f.phys_x 0 f) else f

pub framebuffer_load : (ℕ → ℕ) → Framebuffer → Framebuffer
framebuffer_load picture f = record f {
  pointer = λ i. if ltb i (f.phys_x * f.phys_y * 3) then picture i else f.pointer i;
}
