-- ===== src/Keyboard/Tests.antt =====
-- Packets of kernel/drivers/keyboard/ps2-keyboard.c.
use vmwos.Prelude.{◌≡◌, refl, false, true, some, ◌++◌, arith, ◌>>=◌}
use vmwos.Dmesg.{Dmesg}
use vmwos.Dmesg.Log.{from_start}
use vmwos.Terminal.{console_insert_char}
use vmwos.Terminal.Tests.{fresh}
use vmwos.Keyboard.{Keyboard, translate, on_key}
use vmwos.Keyboard.Frame.{receive, packet, receive-on_key}
use vmwos.Keyboard.Release.{receive-console_insert_char}

abbrev idle : Keyboard
idle = record {
  keyup = 0;
  escape = 0;
  pause = 0;
  parity = 0;
  clock_bits = 0;
  message = 0;
  old_ticks = 7;
  shift_state = false;
  alt_state = false;
  ctrl_state = false;
}

abbrev log : Dmesg
log = from_start (λ _. 65) 2

receive-on_key_test :
    receive (λ _. 0) 7 (packet 0x1c) idle fresh log
    ≡ (on_key (λ _. 0) idle fresh 0x1c >>= λ (k', t'). some (k', t', log))
receive-on_key_test = receive-on_key (λ _. 0) 0x1c 7 idle fresh log (omega arith) (omega arith)

-- The scan code of `a`, with shift held
receive-console_insert_char_example :
    receive (λ _. 0) 7 (packet 0xf0 ++ packet 0x1c) (record idle { shift_state = true }) fresh log
    ≡ (console_insert_char (λ _. 0) fresh 0x41 >>= λ (_, t').
        some (record idle { shift_state = true }, t', log))
unfolding translate
receive-console_insert_char_example =
    receive-console_insert_char (λ _. 0) 0x1c 7 (record idle { shift_state = true }) fresh log
      (omega arith) (omega arith) (record { no_escape = refl; no_pause = refl; no_pauses = refl })
      (record {
        no_keyup = refl;
        no_extended = refl;
        no_break = refl;
        no_alt = refl;
        no_ctrl = refl;
        no_shift = refl;
      })
