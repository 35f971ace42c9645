-- ===== src/Framebuffer/Console/Write/Plain.antt =====
-- Text without ESC, written outside of an ANSI sequence.
use vmwos.Prelude.{
  ℕ, ◌≡◌, refl, Bool, true, false, not, ◌&&◌, some, List, [], ◌∷◌, arith, ◌==◌, if◌then◌else◌,
  ◌>>=◌, ◌∙◌, ap, Bool-cases, inl, inr,
}
use vmwos.Fs.{err}
use vmwos.Framebuffer.{Framebuffer}
use vmwos.Framebuffer.Console.{Console, normal, framebuffer_console_push, enodev}
use vmwos.Framebuffer.Console.Write.{
  on_byte, round, refreshed, framebuffer_console_write, write_on, write_from,
}
use vmwos.Framebuffer.Console.Write.Sound.{IsSound}
use vmwos.Framebuffer.Console.Write.Sequence.{settled, normal-Ends}
use vmwos.Framebuffer.Console.Write.OnScreen.{
  redrawn, shown-kept, initialized-case, uninitialized-case,
}

-- There is no ESC in the text.
unfoldable pub plain_text : List ℕ → Bool
plain_text [] = true
plain_text (b ∷ rest) = not (b == 27) && plain_text rest

-- The cursor is on the console, and no ANSI sequence has begun.
pub record IsIdle (c : Console) : Type 0 where
  pub sound : IsSound c
  pub idle : c.ansi_state ≡ normal

redrawn-IsIdle :
    (c : Console) (screen : Framebuffer) → IsIdle c → IsIdle (record c { screen = screen })
redrawn-IsIdle c screen p = record { sound = redrawn (λ _. 0) c screen p.sound; idle = p.idle }

round-IsIdle :
    (c : Console) (b : ℕ)
    → IsIdle c
    → (b == 27) ≡ false
    → (c' : Console) × (round c b ≡ some c') × IsIdle c'
unfolding round on_byte
round-IsIdle c b p no_esc =
    let (c', made, (sound, state, _)) = normal-Ends c b p.sound.on p.idle in
    (
      c',
      ap (λ s. settled (on_byte s c b)) p.idle ∙ made,
      record { sound = sound; idle = state ∙ rw no_esc refl },
    )

write_on-IsIdle :
    (text : List ℕ) (c : Console)
    → IsIdle c
    → plain_text text ≡ true
    → (c' : Console) × (write_on text c ≡ some c') × IsIdle c'
unfolding write_on plain_text
write_on-IsIdle [] c p plain = (c, refl, p)
write_on-IsIdle (b ∷ rest) c p plain =
    let (c', made, p') = round-IsIdle c b p (ground (arith, plain)) in
    rw made (write_on-IsIdle rest c' p' (ground (arith, plain)))

-- For any text, one byte at least, without ESC, framebuffer_console_write with the cursor on the
-- console and outside of an ANSI sequence makes no access outside of the text arrays and leaves the
-- console so.
pub framebuffer_console_write-IsIdle :
    (font : ℕ → ℕ) (b : ℕ) (rest : List ℕ) (c : Console)
    → IsIdle c
    → plain_text (b ∷ rest) ≡ true
    → (c' : Console) × (framebuffer_console_write font (b ∷ rest) c
        ≡ some (if c.initialized then 0 else err enodev, c'))
      × IsIdle c'
unfolding framebuffer_console_write write_from
framebuffer_console_write-IsIdle font b rest c p plain = elim (Bool-cases c.initialized) [
  | inr off ↦ (c, uninitialized-case c.initialized _ c off, p)
  | inl on ↦
      let start : Console = record c { refresh_screen = false } in
      let (c', made, p') =
        write_on-IsIdle (b ∷ rest) start
          (record {
            sound = record {
              on = record { column = p.sound.on.column; row = p.sound.on.row };
              settled = p.sound.settled;
              placed = p.sound.placed;
            };
            idle = p.idle;
          })
          plain in
      (
        framebuffer_console_push font (refreshed c'),
        initialized-case c.initialized _ c _ on
            (ap (λ o. o >>= λ d. some (0, framebuffer_console_push font (refreshed d))) made),
        shown-kept font redrawn-IsIdle c' p',
      )
]
