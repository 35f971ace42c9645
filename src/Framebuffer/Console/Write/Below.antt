-- ===== src/Framebuffer/Console/Write/Below.antt =====
-- Text behind a command that moves the cursor below the console.
use vmwos.Prelude.{
  ◌-◌, ℕ, ◌+◌, ◌*◌, ◌^◌, ◌≤◌, ◌<◌, ◌≡◌, refl, ◌≢◌, Bool, true, not, ◌||◌, none, some, List, ◌∷◌,
  arith, ◌==◌, ◌>>=◌, ◌∙◌, ap, le→ltb, ne→==,
}
use vmwos.Framebuffer.Console.{Console, normal, number, width, height, cells, ansi_default, add}
use vmwos.Framebuffer.Console.Write.{
  distance_of, check_bounds, wrap_line, scroll, on_normal, put_text, on_number, run_command, finish,
  finish_if, on_byte, settle_round, round, write_on,
}
use vmwos.Framebuffer.Console.Write.Cursor.{IsOn}

-- A byte that is printed in the state for text.
abbrev pub is_printed : ℕ → Bool
is_printed b = not (b == 13 || b == 10 || b == 9 || b == 8 || b == 27)

put_text-none :
    (c : Console) (b : ℕ)
    → c.console_x < width
    → height ≤ c.console_y
    → c.console_y < 2 ^ 24
    → put_text c b ≡ none
unfolding put_text
put_text-none c b column below near =
    rw (le→ltb (add c.console_x (c.console_y * width)) cells (omega arith)) refl

on_normal-printed : (c : Console) (b : ℕ) → is_printed b ≡ true → on_normal c b ≡ put_text c b
unfolding on_normal
on_normal-printed c b printed = ground arith

-- The console after the command B.
abbrev moved : Console → Console
moved c = record c {
  console_y = add c.console_y (distance_of c);
  which_number = 2 ^ 32 - 1;
  ansi_command = 0x42;
  ansi_state = normal;
}

round-down : (c : Console) → c.ansi_state ≡ number → round c 0x42 ≡ some (check_bounds (moved c))
unfolding round on_byte on_number settle_round finish_if finish run_command distance_of
round-down c e = ap (λ s. on_byte s c 0x42 >>= λ c'. settle_round c') e

module _ (c : Console) (on : IsOn c) (given : c.numbers 0 ≢ ansi_default)
    (far : height < c.console_y + c.numbers 0) (near : c.console_y + c.numbers 0 < 2 ^ 24) where
  moved-row : (moved c).console_y ≡ c.console_y + c.numbers 0
  unfolding distance_of
  moved-row = ground (arith, ne→== (c.numbers 0) ansi_default given)

check_bounds-below :
    (c : Console)
    → c.console_x < width
    → height < c.console_y
    → c.console_y < 2 ^ 24
    → ((check_bounds c).console_x ≡ c.console_x)
      × ((check_bounds c).console_y + 1 ≡ c.console_y)
      × ((check_bounds c).ansi_state ≡ c.ansi_state)
unfolding check_bounds wrap_line scroll
check_bounds-below c column below near = ground arith

round-none :
    (c : Console) (b : ℕ)
    → c.ansi_state ≡ normal
    → c.console_x < width
    → height ≤ c.console_y
    → c.console_y < 2 ^ 24
    → is_printed b ≡ true
    → round c b ≡ none
unfolding round on_byte
round-none c b e column below near printed =
    ap (λ s. on_byte s c b >>= λ c'. settle_round c') e
    ∙ ap (λ o. o >>= λ c'. settle_round c')
        (on_normal-printed c b printed ∙ put_text-none c b column below near)

-- After the numbers of a sequence of which the first is not the default, the command B that
-- moves the cursor more than one row below the console, up to row 2^24, and then a byte that is
-- printed, make framebuffer_console_write access the text outside of its array.
pub write_on-none :
    (c : Console) (b : ℕ) (rest : List ℕ)
    → IsOn c
    → c.ansi_state ≡ number
    → c.numbers 0 ≢ ansi_default
    → height < c.console_y + c.numbers 0
    → c.console_y + c.numbers 0 < 2 ^ 24
    → is_printed b ≡ true
    → write_on (0x42 ∷ b ∷ rest) c ≡ none
unfolding write_on
write_on-none c b rest on e given far near printed =
    let ey = moved-row c on given far near in
    let (bx, by', bs) =
      check_bounds-below (moved c) (omega (arith, on.column)) (omega (arith, ey, far))
        (omega (arith, ey, near)) in
    rw (round-down c e) (
      ap (λ o. o >>= λ c'. write_on rest c')
        (round-none (check_bounds (moved c)) b bs (omega (arith, bx, on.column))
          (omega (arith, by', ey, far)) (omega (arith, by', ey, near)) printed))
