-- ===== src/Keyboard.antt =====
-- The PS/2 keyboard of kernel/drivers/keyboard/ps2-keyboard.c: the bits of its wire, scan codes, and
-- the characters that go to the console.
--
-- An interrupt has the value of the data line, 0 or 1, and `tick_counter` as arguments. A packet that
-- is not valid is printed, to the log and the console, and then handled like others. The
-- acknowledgement to the hardware is left out.
pub mod Frame
pub mod Release
pub mod Tests
use vmwos.Prelude.{
  ℕ, ◌+◌, ◌-◌, ◌*◌, ◌/◌, ◌%◌, ◌^◌, bit_or, Bool, true, false, ◌&&◌, Option, some, List, [], ◌∷◌,
  ltb, leb, ◌==◌, if◌then◌else◌, ◌>>=◌, get_or, one_if,
}
use vmwos.Terminal.{Terminal, console_insert_char}
use vmwos.Printk.{Arg, word}
use vmwos.Dmesg.{Dmesg, printk}

-- The static variables.
pub record Keyboard : Type 0 where
  pub keyup : ℕ
  pub escape : ℕ
  pub pause : ℕ
  pub parity : ℕ
  pub clock_bits : ℕ
  pub message : ℕ
  pub old_ticks : ℕ
  pub shift_state : Bool
  pub alt_state : Bool
  pub ctrl_state : Bool

abbrev pub k_alt : ℕ
k_alt = 0x8d

abbrev pub k_shft : ℕ
k_shft = 0x8e

abbrev pub k_ctrl : ℕ
k_ctrl = 0x8f

-- `translate`
pub translate : List ℕ
translate =
    128 ∷ 137 ∷ 128 ∷ 133 ∷ 131 ∷ 129 ∷ 130 ∷ 140 ∷ 27 ∷ 138 ∷ 136 ∷ 134 ∷ 132 ∷ 9 ∷ 96 ∷ 128 ∷ 128
    ∷ 141 ∷ 142 ∷ 128 ∷ 143 ∷ 113 ∷ 49 ∷ 128 ∷ 128 ∷ 128 ∷ 122 ∷ 115 ∷ 97 ∷ 119 ∷ 50 ∷ 128 ∷ 128
    ∷ 99 ∷ 120 ∷ 100 ∷ 101 ∷ 52 ∷ 51 ∷ 128 ∷ 128 ∷ 32 ∷ 118 ∷ 102 ∷ 116 ∷ 114 ∷ 53 ∷ 128 ∷ 128 ∷ 110
    ∷ 98 ∷ 104 ∷ 103 ∷ 121 ∷ 54 ∷ 128 ∷ 128 ∷ 141 ∷ 109 ∷ 106 ∷ 117 ∷ 55 ∷ 56 ∷ 128 ∷ 128 ∷ 44 ∷ 107
    ∷ 105 ∷ 111 ∷ 48 ∷ 57 ∷ 128 ∷ 128 ∷ 46 ∷ 47 ∷ 108 ∷ 59 ∷ 112 ∷ 45 ∷ 128 ∷ 128 ∷ 128 ∷ 39 ∷ 128
    ∷ 91 ∷ 61 ∷ 128 ∷ 128 ∷ 144 ∷ 142 ∷ 13 ∷ 93 ∷ 128 ∷ 92 ∷ 128 ∷ 128 ∷ 128 ∷ 128 ∷ 128 ∷ 128 ∷ 128
    ∷ 128 ∷ 8 ∷ 128 ∷ 128 ∷ 49 ∷ 128 ∷ 52 ∷ 55 ∷ 128 ∷ 145 ∷ 128 ∷ 48 ∷ 46 ∷ 50 ∷ 53 ∷ 54 ∷ 56 ∷ 27
    ∷ 146 ∷ 171 ∷ 43 ∷ 51 ∷ 45 ∷ 42 ∷ 57 ∷ 147 ∷ 128 ∷ 128 ∷ 128 ∷ 128 ∷ 135 ∷ 148 ∷ 128 ∷ 128 ∷ 128
    ∷ 149 ∷ 128 ∷ 128 ∷ 128 ∷ 128 ∷ 128 ∷ 128 ∷ 128 ∷ 128 ∷ 141 ∷ 128 ∷ 128 ∷ 143 ∷ 128 ∷ 128 ∷ 128
    ∷ 128 ∷ 128 ∷ 128 ∷ 128 ∷ 128 ∷ 128 ∷ 128 ∷ 128 ∷ 128 ∷ 128 ∷ 128 ∷ 128 ∷ 128 ∷ 128 ∷ 128 ∷ 128
    ∷ 128 ∷ 128 ∷ 128 ∷ 128 ∷ 128 ∷ 128 ∷ 128 ∷ 128 ∷ 128 ∷ 128 ∷ 128 ∷ 128 ∷ 128 ∷ 128 ∷ 128 ∷ 128
    ∷ 128 ∷ 128 ∷ 128 ∷ 128 ∷ 128 ∷ 128 ∷ 128 ∷ 128 ∷ 128 ∷ 128 ∷ 128 ∷ 128 ∷ 128 ∷ 128 ∷ 128 ∷ 128
    ∷ 128 ∷ 128 ∷ 47 ∷ 128 ∷ 128 ∷ 128 ∷ 128 ∷ 128 ∷ 128 ∷ 128 ∷ 128 ∷ 128 ∷ 128 ∷ 128 ∷ 128 ∷ 128
    ∷ 128 ∷ 128 ∷ 13 ∷ 128 ∷ 128 ∷ 128 ∷ 128 ∷ 128 ∷ 128 ∷ 128 ∷ 128 ∷ 128 ∷ 128 ∷ 128 ∷ 128 ∷ 128
    ∷ 128 ∷ 150 ∷ 128 ∷ 160 ∷ 145 ∷ 128 ∷ 128 ∷ 128 ∷ 151 ∷ 152 ∷ 163 ∷ 128 ∷ 161 ∷ 162 ∷ 128 ∷ 128
    ∷ 128 ∷ 128 ∷ 164 ∷ 128 ∷ 153 ∷ 165 ∷ 128 ∷ 128 ∷ []

-- A letter with the keys held that change it; the subtractions are those of words.
pub with_modifiers : Keyboard → ℕ → ℕ
with_modifiers k ascii =
    if leb 0x61 ascii && leb ascii 0x7a
    then (let control = if k.ctrl_state then ascii - 0x60 else ascii in
        if k.shift_state then (control + 2 ^ 32 - 0x20) % 2 ^ 32 else control)
    else ascii

-- `Invalid start bit %x\n`, `Invaid stop bit %x\n` and `Parity error %x %x\n`
abbrev pub invalid_start : List ℕ
invalid_start =
    73 ∷ 110 ∷ 118 ∷ 97 ∷ 108 ∷ 105 ∷ 100 ∷ 32 ∷ 115 ∷ 116 ∷ 97 ∷ 114 ∷ 116 ∷ 32 ∷ 98 ∷ 105 ∷ 116
    ∷ 32 ∷ 37 ∷ 120 ∷ 10 ∷ []

abbrev pub invalid_stop : List ℕ
invalid_stop =
    73 ∷ 110 ∷ 118 ∷ 97 ∷ 105 ∷ 100 ∷ 32 ∷ 115 ∷ 116 ∷ 111 ∷ 112 ∷ 32 ∷ 98 ∷ 105 ∷ 116 ∷ 32 ∷ 37
    ∷ 120 ∷ 10 ∷ []

abbrev pub parity_error : List ℕ
parity_error =
    80 ∷ 97 ∷ 114 ∷ 105 ∷ 116 ∷ 121 ∷ 32 ∷ 101 ∷ 114 ∷ 114 ∷ 111 ∷ 114 ∷ 32 ∷ 37 ∷ 120 ∷ 32 ∷ 37
    ∷ 120 ∷ 10 ∷ []

-- The bits shifted in so far, after too long a time none.
pub resynced : Keyboard → ℕ → Keyboard
resynced k tick =
    let old = if k.old_ticks == 0 then tick else k.old_ticks in
    if ltb 2 ((tick + 2 ^ 32 - old) % 2 ^ 32)
    then record k { clock_bits = 0; message = 0; parity = 0; old_ticks = tick }
    else record k { old_ticks = tick }

-- A bit of the packet, the lowest first.
pub shifted : ℕ → ℕ → ℕ
shifted message data_value = bit_or message (data_value * 2 ^ 11) / 2

module _ (font : ℕ → ℕ) where
  pub translate_key : Keyboard → Terminal → ℕ → Bool → Option (Keyboard × Terminal)
  translate_key k t key down =
      let ascii = get_or translate key 0 in
      if ascii == k_alt
      then some (record k { alt_state = down }, t)
      else if ascii == k_ctrl
      then some (record k { ctrl_state = down }, t)
      else if ascii == k_shft
      then some (record k { shift_state = down }, t)
      else if down
      then some (k, t)
      else (console_insert_char font t (with_modifiers k ascii) >>= λ (_, t'). some (k, t'))

  -- The end of the handler, with the key of an extended event marked.
  pub push_key : Keyboard → Terminal → ℕ → Option (Keyboard × Terminal)
  push_key k t key =
      let key' = if k.escape == 1 then bit_or key (2 ^ 7) else key in
      translate_key (record k { escape = if k.escape == 1 then 0 else k.escape }) t key'
        (k.keyup == 0)
      >>= λ (k', t'). some (record k' { keyup = 0 }, t')

  -- The handler after the packet is read.
  pub on_key : Keyboard → Terminal → ℕ → Option (Keyboard × Terminal)
  on_key k t key =
      if key == 0xf0
      then some (record k { keyup = 1 }, t)
      else if key == 0xe0
      then some (record k { escape = 1 }, t)
      else if key == 0xe1
      then some (record k { pause = 2 }, t)
      else if k.pause == 2
      then some (record k { pause = 1 }, t)
      else if k.pause == 1
      then push_key (record k { pause = 0 }) t 0x88
      else push_key k t key

  -- A print, where there is something to print.
  pub print_if : Bool → List ℕ → List Arg → Terminal → Dmesg → Option (Terminal × Dmesg)
  print_if false string args t d = some (t, d)
  print_if true string args t d = printk font string args d t >>= λ (_, d', t'). some (t', d')

  -- The tests of the packet. The last one masks the bit 1 of the packet by 1, which gives 0.
  pub validate : ℕ → ℕ → Terminal → Dmesg → Option (Terminal × Dmesg)
  validate message parity t d =
      print_if (message % 2 == 1) invalid_start (word message ∷ []) t d >>= λ (t₁, d₁).
      print_if (message / 2 ^ 10 % 2 == 0) invalid_stop (word message ∷ []) t₁ d₁ >>= λ (t₂, d₂).
      print_if (parity % 2 == 1) parity_error (word message ∷ word parity ∷ []) t₂ d₂

  pub ps2_interrupt_handler :
      Keyboard → Terminal → Dmesg → ℕ → ℕ → Option (Keyboard × Terminal × Dmesg)
  ps2_interrupt_handler k t d tick data_value =
      let k₁ = resynced k tick in
      let message = shifted k₁.message data_value in
      if k₁.clock_bits + 1 == 11
      then (validate message (k₁.parity + data_value) t d >>= λ (t', d').
          on_key (record k₁ { clock_bits = 0; message = 0; parity = 0 }) t' (message / 2 % 2 ^ 8)
          >>= λ (k', t''). some (k', t'', d'))
      else some (
        record k₁ {
          clock_bits = k₁.clock_bits + 1;
          message = message;
          parity = k₁.parity + data_value;
        },
        t,
        d,
      )
