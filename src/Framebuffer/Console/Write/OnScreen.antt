-- ===== src/Framebuffer/Console/Write/OnScreen.antt =====
-- The cursor stays on the console while the text does not move it to another row by a command.
use vmwos.Prelude.{
  ℕ, zero, suc, ◌+◌, ◌≡◌, refl, Bool, true, false, Option, some, List, [], ◌∷◌, arith,
  if◌then◌else◌, ◌>>=◌, ◌∙◌, ap, Bool-cases, if-cases, inl, inr,
}
use vmwos.Fs.{err}
use vmwos.Framebuffer.{Framebuffer, framebuffer_ready}
use vmwos.Framebuffer.Console.{
  Console, AnsiState, normal, escape, number, complete, width, height, draw_column, draw_columns,
  framebuffer_console_putchar, framebuffer_console_push, enodev,
}
use vmwos.Framebuffer.Console.Write.{
  on_byte, round, refreshed, framebuffer_console_write, write_on, write_from,
}
use vmwos.Framebuffer.Console.Write.Sound.{state_after, which_after, disturbs, quiet, IsSound}
use vmwos.Framebuffer.Console.Write.Sequence.{Ends, settled, normal-Ends, number-Ends, escape-Ends}

-- A byte in any state.
byte-Ends :
    (state : AnsiState) (c : Console) (b : ℕ)
    → c.ansi_state ≡ state
    → IsSound c
    → disturbs state c.which_number b ≡ false
    → Ends (state_after state b) (which_after state c.which_number b) (settled (on_byte state c b))
unfolding on_byte
byte-Ends normal c b e sound still = normal-Ends c b sound.on e
byte-Ends escape c b e sound still = escape-Ends c b sound.on e
byte-Ends number c b e sound still = number-Ends c b sound.on e (sound.placed e) still
byte-Ends complete c b e sound still = absurd (sound.settled e)

write_on-IsSound :
    (rest : List ℕ) (c : Console)
    → IsSound c
    → quiet c.ansi_state c.which_number rest ≡ true
    → (c' : Console) × (write_on rest c ≡ some c') × IsSound c'
unfolding write_on round
write_on-IsSound [] c sound q = (c, refl, sound)
write_on-IsSound (b ∷ rest) c sound q =
    let (c', made, (sound', state, which)) =
      byte-Ends c.ansi_state c b refl sound (ground (arith, q)) in
    let (c'', made', sound'') = write_on-IsSound rest c' sound' (
      ap (λ s. quiet s c'.which_number rest) state
      ∙ ap (λ w. quiet (state_after c.ansi_state b) w rest) which
      ∙ ground (arith, q)) in
    (c'', ap (λ o. o >>= λ d. write_on rest d) made ∙ made', sound'')

pub initialized-case :
    (q : Bool) (o : Option (ℕ × Console)) (c c' : Console)
    → q ≡ true
    → o ≡ some (0, c')
    → (if q then o else some (err enodev, c)) ≡ some (if q then 0 else err enodev, c')
initialized-case true o c c' on e = e
initialized-case false o c c' on e = absurd cc

pub uninitialized-case :
    (q : Bool) (o : Option (ℕ × Console)) (c : Console)
    → q ≡ false
    → (if q then o else some (err enodev, c)) ≡ some (if q then 0 else err enodev, c)
uninitialized-case true o c off = absurd cc
uninitialized-case false o c off = refl

module _ (font : ℕ → ℕ) where
  pub redrawn :
      (c : Console) (screen : Framebuffer) → IsSound c → IsSound (record c { screen = screen })
  redrawn c screen sound = record {
    on = record { column = sound.on.column; row = sound.on.row };
    settled = sound.settled;
    placed = sound.placed;
  }

  -- What does not depend on the pixels stays true when the console is drawn.
  module _ {P : Console → Type 0}
      (redraw : (c : Console) (screen : Framebuffer) → P c → P (record c { screen = screen })) where
    column-kept : (left x y : ℕ) (c : Console) → P c → P (draw_column font left x y c)
    unfolding draw_column framebuffer_console_putchar
    column-kept zero x y c p = p
    column-kept (suc left) x y c p =
        column-kept left x (y + 1) _ (if-cases P c.initialized (λ _. redraw c _ p) (λ _. p))

    columns-kept : (left x : ℕ) (c : Console) → P c → P (draw_columns font left x c)
    unfolding draw_columns
    columns-kept zero x c p = p
    columns-kept (suc left) x c p = columns-kept left (x + 1) _ (column-kept height x 0 c p)

    pub shown-kept : (c : Console) → P c → P (framebuffer_console_push font (refreshed c))
    unfolding framebuffer_console_push refreshed
    shown-kept c p =
        let cleared : P (refreshed c) = if-cases P c.refresh_screen (λ _. redraw c _ p) (λ _. p) in
        if-cases P (framebuffer_ready (refreshed c).screen)
          (λ _. redraw _ _ (columns-kept width 0 _ cleared)) (λ _. cleared)

  -- For any bytes, one at least, in which ANSI sequences end only in the commands C, D and m and
  -- have no more numbers than there is room for, framebuffer_console_write with the cursor on
  -- the console makes no access outside of the text arrays, returns 0, or -ENODEV without an
  -- initialized console, and leaves the cursor on the console, ready for the next call.
  pub framebuffer_console_write-IsSound :
      (b : ℕ) (rest : List ℕ) (c : Console)
      → IsSound c
      → quiet c.ansi_state c.which_number (b ∷ rest) ≡ true
      → (c' : Console) × (framebuffer_console_write font (b ∷ rest) c
          ≡ some (if c.initialized then 0 else err enodev, c'))
        × IsSound c'
  unfolding framebuffer_console_write write_from
  framebuffer_console_write-IsSound b rest c sound q = elim (Bool-cases c.initialized) [
    | inr off ↦ (c, uninitialized-case c.initialized _ c off, sound)
    | inl on ↦
        let (c', made, sound') =
          write_on-IsSound (b ∷ rest) (record c { refresh_screen = false })
            (record {
              on = record { column = sound.on.column; row = sound.on.row };
              settled = sound.settled;
              placed = sound.placed;
            })
            q in
        (
          framebuffer_console_push font (refreshed c'),
          initialized-case c.initialized _ c _ on
              (ap (λ o. o >>= λ d. some (0, framebuffer_console_push font (refreshed d))) made),
          shown-kept redrawn c' sound',
        )
  ]
