-- ===== src/Terminal/Output.antt =====
-- Text that goes to the serial port and to the screen.
use vmwos.Prelude.{
  ℕ, ◌+◌, ◌%◌, ◌^◌, ◌<◌, ◌≡◌, refl, Bool, true, false, ◌&&◌, some, List, [], ◌∷◌, arith, ◌>>=◌, ap,
  ◌∙◌, sym, Bool-cases, inl, inr,
}
use vmwos.Framebuffer.Console.{Console}
use vmwos.Framebuffer.Console.Write.{framebuffer_console_write}
use vmwos.Framebuffer.Console.Write.Plain.{IsIdle, plain_text, framebuffer_console_write-IsIdle}
use vmwos.Terminal.{
  Terminal, Termios, Serial, flag_set, echoctl, is_control_char, serial_write, console_write,
  echo_if, echo_text,
}

-- The echo of a key.
pub echo_text-plain :
    (termio : Termios) (ch : ℕ)
    → ch < 2 ^ 8
    → flag_set termio.c_lflag echoctl ≡ true
    → plain_text (echo_text termio ch) ≡ true
unfolding echo_text plain_text is_control_char
echo_text-plain termio ch lt on = rw on (ground (arith, lt))

-- A text is not empty.
abbrev pub Typed : List ℕ → Type 0
Typed text = (b : ℕ) × (rest : List ℕ) × (text ≡ b ∷ rest)

pub echo_text-Typed : (termio : Termios) (ch : ℕ) → Typed (echo_text termio ch)
unfolding echo_text
echo_text-Typed termio ch =
    elim (Bool-cases (flag_set termio.c_lflag echoctl && is_control_char ch)) [
      | inl on ↦ (0x5e, (ch + 0x40) % 2 ^ 8 ∷ [], rw on refl)
      | inr off ↦ (ch % 2 ^ 8, [], rw off refl)
    ]

module _ (font : ℕ → ℕ) where
  -- A text without ESC, on an idle console.
  pub console_write-IsIdle :
      (text : List ℕ) (t : Terminal)
      → Typed text
      → IsIdle t.screen
      → plain_text text ≡ true
      → (screen : Console) × (console_write font text t
          ≡ some (
            (serial_write text t.serial).0,
            record t { serial = (serial_write text t.serial).1; screen = screen },
          ))
        × IsIdle screen
  unfolding console_write
  console_write-IsIdle text t (b, rest, e) idle plain =
      let (screen, made, idle') =
        framebuffer_console_write-IsIdle font b rest t.screen idle
          (ap plain_text (sym e) ∙ plain) in
      (
        screen,
        ap
            (λ o. o >>= λ (_, screen). some (
              (serial_write text t.serial).0,
              record t { serial = (serial_write text t.serial).1; screen = screen },
            ))
            (ap (λ x. framebuffer_console_write font x t.screen) e ∙ made),
        idle',
      )

  -- An echo, where it is asked for.
  pub echo_if-IsIdle :
      (asked : Bool) (text : List ℕ) (t : Terminal)
      → Typed text
      → IsIdle t.screen
      → (asked ≡ true → plain_text text ≡ true)
      → (port : Serial) × (screen : Console) × (echo_if font asked text t
          ≡ some (record t { serial = port; screen = screen }))
        × IsIdle screen
  unfolding echo_if
  echo_if-IsIdle true text t typed idle plain =
      let (screen, made, idle') = console_write-IsIdle text t typed idle (plain refl) in
      ((serial_write text t.serial).1, screen, rw made refl, idle')
  echo_if-IsIdle false text t typed idle plain = (t.serial, t.screen, refl, idle)
