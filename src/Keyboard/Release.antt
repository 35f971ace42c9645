-- ===== src/Keyboard/Release.antt =====
-- A key that is released, from the wire to the console.
use vmwos.Dmesg.{Dmesg}
use vmwos.Prelude.{
  Bool, true, ◌+◌, ◌-◌, ◌%◌, ◌&&◌, leb, if◌then◌else◌, ℕ, ◌^◌, ◌<◌, ◌≡◌, refl, false, some, ◌++◌,
  arith, ◌==◌, ◌>>=◌, get_or, ap, ◌∙◌,
}
use vmwos.Terminal.{Terminal, console_insert_char}
use vmwos.Keyboard.{
  Keyboard, k_alt, k_ctrl, k_shft, translate, with_modifiers, translate_key, push_key, on_key,
}
use vmwos.Keyboard.Frame.{receiving, receive, packet, bind_assoc, receive-append, receive-on_key}

-- No prefix was received before.
pub record IsUnprefixed (k : Keyboard) : Type 0 where
  pub no_escape : (k.escape == 1) ≡ false
  pub no_pause : (k.pause == 1) ≡ false
  pub no_pauses : (k.pause == 2) ≡ false

-- The scan code is no prefix, and not that of a key that changes others.
pub record IsCharacter (key : ℕ) : Type 0 where
  pub no_keyup : (key == 0xf0) ≡ false
  pub no_extended : (key == 0xe0) ≡ false
  pub no_break : (key == 0xe1) ≡ false
  pub no_alt : (get_or translate key 0 == k_alt) ≡ false
  pub no_ctrl : (get_or translate key 0 == k_ctrl) ≡ false
  pub no_shift : (get_or translate key 0 == k_shft) ≡ false

-- The letter `i`, from 0 for `a`, with control and shift held or not: with both, the control character
-- is taken 32 down, modulo 2^32.
abbrev pub letter : Bool → Bool → ℕ → ℕ
letter false false i = 0x61 + i
letter false true i = 0x41 + i
letter true false i = 1 + i
letter true true i = 2 ^ 32 - 31 + i

-- What a key with a character gives: a letter depends on control and shift, any other does not.
abbrev pub typed : Bool → Bool → ℕ → ℕ
typed control shift ascii =
    if leb 0x61 ascii && leb ascii 0x7a then letter control shift (ascii - 0x61) else ascii

with_modifiers-typed :
    (k : Keyboard) (ascii : ℕ) → with_modifiers k ascii ≡ typed k.ctrl_state k.shift_state ascii
unfolding with_modifiers
with_modifiers-typed k ascii = held k.ctrl_state k.shift_state
  where
    held :
        (control shift : Bool)
        → (if leb 0x61 ascii && leb ascii 0x7a
            then (let held = if control then ascii - 0x60 else ascii in
                if shift then (held + 2 ^ 32 - 0x20) % 2 ^ 32 else held)
            else ascii)
          ≡ typed control shift ascii
    held false false = ground arith
    held false true = ground arith
    held true false = ground arith
    held true true = ground arith

module _ (font : ℕ → ℕ) where
  on_key-keyup :
      (k : Keyboard) (t : Terminal) → on_key font k t 0xf0 ≡ some (record k { keyup = 1 }, t)
  unfolding on_key
  on_key-keyup k t = refl

  released :
      (k : Keyboard) (t : Terminal) (key : ℕ)
      → IsUnprefixed k
      → IsCharacter key
      → on_key font (record k { keyup = 1 }) t key ≡ (
          console_insert_char font t (with_modifiers k (get_or translate key 0)) >>= λ (_, t').
          some (record k { keyup = 0 }, t'))
  unfolding on_key push_key translate_key with_modifiers
  released k t key idle char =
      rw
        (
          char.no_keyup, char.no_extended, char.no_break, idle.no_pauses, idle.no_pause,
          idle.no_escape, char.no_alt, char.no_ctrl, char.no_shift,
        )
        (bind_assoc (console_insert_char font t (with_modifiers k (get_or translate key 0)))
          (λ r. some (record k { keyup = 1 }, r.1)) (λ p. some (record p.0 { keyup = 0 }, p.1)))

  -- The two packets of eleven bits each that a keyboard between packets receives when the key of
  -- a character is released, within a tick and with the right parity bits, give the character of
  -- the key to the console, a letter as the capital with shift held, as the control character
  -- with control held, and as that less 32 modulo 2^32 with both; nothing is printed, and the
  -- keyboard is then between packets and without a prefix again.
  pub receive-console_insert_char :
      (key tick : ℕ) (k : Keyboard) (t : Terminal) (d : Dmesg)
      → key < 2 ^ 8
      → tick < 2 ^ 32
      → IsUnprefixed k
      → IsCharacter key
      → receive font tick (packet 0xf0 ++ packet key) (receiving k tick 0 0 0) t d ≡ (
          console_insert_char font t (typed k.ctrl_state k.shift_state (get_or translate key 0))
          >>= λ (_, t'). some (record (receiving k tick 0 0 0) { keyup = 0 }, t', d))
  receive-console_insert_char key tick k t d lt small idle char =
      receive-append font tick (packet 0xf0) (packet key) (receiving k tick 0 0 0) t d
      ∙ ap (λ o. o >>= λ (k', t', d'). receive font tick (packet key) k' t' d')
          (receive-on_key font 0xf0 tick k t d (omega arith) small
            ∙ ap (λ o. o >>= λ (k', t'). some (k', t', d)) key_up)
      ∙ receive-on_key font key tick (record k { keyup = 1 }) t d lt small
      ∙ ap (λ o. o >>= λ (k', t'). some (k', t', d))
          (released (receiving k tick 0 0 0) t key
            (record {
              no_escape = idle.no_escape;
              no_pause = idle.no_pause;
              no_pauses = idle.no_pauses;
            })
            char)
      ∙ ap
          (λ c.
            (console_insert_char font t c >>= λ (_, t').
            some (record (receiving k tick 0 0 0) { keyup = 0 }, t'))
            >>= λ (k', t'). some (k', t', d))
          (with_modifiers-typed (receiving k tick 0 0 0) (get_or translate key 0))
      ∙ bind_assoc
          (console_insert_char font t (typed k.ctrl_state k.shift_state (get_or translate key 0)))
          (λ r. some (record (receiving k tick 0 0 0) { keyup = 0 }, r.1)) (λ p. some (p.0, p.1, d))
    where
      key_up :
          on_key font (receiving k tick 0 0 0) t 0xf0
          ≡ some (receiving (record k { keyup = 1 }) tick 0 0 0, t)
      key_up = on_key-keyup (receiving k tick 0 0 0) t
