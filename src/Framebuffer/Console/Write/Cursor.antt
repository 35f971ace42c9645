-- ===== src/Framebuffer/Console/Write/Cursor.antt =====
-- What the bounds check makes of the cursor.
use vmwos.Prelude.{ℕ, ◌^◌, ◌≤◌, ◌<◌, ◌≡◌, arith}
use vmwos.Framebuffer.Console.{Console, width, height}
use vmwos.Framebuffer.Console.Write.{clamp, wrap_line, scroll, check_bounds}

-- The cursor stands on the console.
pub record IsOn (c : Console) : Type 0 where
  pub column : c.console_x < width
  pub row : c.console_y < height

wrap_line-column : (c : Console) → c.console_x < 2 ^ 31 → (wrap_line c).console_x < width
unfolding wrap_line
wrap_line-column c small = ground arith

wrap_line-row : (c : Console) → c.console_y < height → (wrap_line c).console_y ≤ height
unfolding wrap_line
wrap_line-row c lt = ground arith

wrap_line-same : (c : Console) → c.console_x < width → wrap_line c ≡ c
unfolding wrap_line
wrap_line-same c lt = ground arith

scroll-IsOn : (c : Console) → c.console_x < width → c.console_y ≤ height → IsOn (scroll c)
unfolding scroll
scroll-IsOn c lt le = record { column = ground arith; row = ground arith }

clamp-lt : (word : ℕ) → clamp word < 2 ^ 31
clamp-lt word = ground arith

-- From a row of the console, or above it.
pub check_bounds-IsOn : (c : Console) → clamp c.console_y < height → IsOn (check_bounds c)
unfolding check_bounds
check_bounds-IsOn c lt =
    scroll-IsOn _ (wrap_line-column _ (clamp-lt c.console_x)) (wrap_line-row _ lt)

-- From the row below the last one.
pub check_bounds-linefeed :
    (c : Console) → clamp c.console_x < width → clamp c.console_y ≤ height → IsOn (check_bounds c)
unfolding check_bounds
check_bounds-linefeed c lt le = scroll-IsOn _ (wrap_line-column _ (clamp-lt c.console_x)) (
    rw
      (wrap_line-same (record c { console_x = clamp c.console_x; console_y = clamp c.console_y })
        lt)
      le)
