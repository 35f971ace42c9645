-- ===== src/Keyboard/Frame.antt =====
-- The eleven bits of a packet.
use vmwos.Prelude.{
  ℕ, zero, suc, ◌+◌, ◌-◌, ◌*◌, ◌/◌, ◌%◌, ◌^◌, ◌<◌, ◌≡◌, refl, false, Option, some, List, [], ◌∷◌,
  ◌++◌, arith, ltb, ◌==◌, ◌>>=◌, length, ap, fun_ext, none, ◌∙◌, sym, ne→==, le→ltb, Bool-cases,
  inl, inr,
}
use vmwos.Bits.{bit_or-zero, bit_or-bit_add}
use vmwos.Terminal.{Terminal}
use vmwos.Dmesg.{Dmesg}
use vmwos.Keyboard.{Keyboard, on_key, resynced, shifted, print_if, validate, ps2_interrupt_handler}

shifted-add : (m d : ℕ) → m < 2 ^ 11 → d < 2 → shifted m d ≡ (m + d * 2 ^ 11) / 2
unfolding shifted
shifted-add m zero lt bit = omega (arith, ap (λ w. w / 2) (bit_or-zero m))
shifted-add m (suc zero) lt bit = ap (λ w. w / 2) (bit_or-bit_add m 11 lt)
shifted-add m (suc (suc d)) lt bit = absurd (omega (arith, bit))

-- A keyboard in the middle of a packet, at a tick.
abbrev pub receiving : Keyboard → ℕ → ℕ → ℕ → ℕ → Keyboard
receiving k tick n message parity = record k {
  clock_bits = n;
  message = message;
  parity = parity;
  old_ticks = tick;
}

resynced-receiving :
    (k : Keyboard) (tick n message parity : ℕ)
    → tick < 2 ^ 32
    → resynced (receiving k tick n message parity) tick ≡ receiving k tick n message parity
unfolding resynced
resynced-receiving k tick n message parity lt = elim (Bool-cases (tick == 0)) [
  | inl start ↦ rw (start, late) refl
  | inr later ↦ rw (later, late) refl
]
  where
    late : ltb 2 ((tick + 2 ^ 32 - tick) % 2 ^ 32) ≡ false
    late = le→ltb 2 ((tick + 2 ^ 32 - tick) % 2 ^ 32) (omega arith)

module _ (font : ℕ → ℕ) where
  -- The bits that come at a tick.
  pub receive : ℕ → List ℕ → Keyboard → Terminal → Dmesg → Option (Keyboard × Terminal × Dmesg)
  receive tick [] k t d = some (k, t, d)
  receive tick (b ∷ rest) k t d =
      ps2_interrupt_handler font k t d tick b >>= λ (k', t', d'). receive tick rest k' t' d'

  more_bits :
      (k : Keyboard) (t : Terminal) (d : Dmesg) (tick n message parity b : ℕ)
      → tick < 2 ^ 32
      → message < 2 ^ 11
      → b < 2
      → n + 1 < 11
      → ps2_interrupt_handler font (receiving k tick n message parity) t d tick b
        ≡ some (receiving k tick (n + 1) ((message + b * 2 ^ 11) / 2) (parity + b), t, d)
  unfolding ps2_interrupt_handler
  more_bits k t d tick n message parity b small m bit few =
      rw
        (
          resynced-receiving k tick n message parity small,
          ne→== (n + 1) 11 (λ e. omega (arith, e, few)),
          shifted-add message b m bit,
        )
        refl

  -- A valid packet is not printed.
  validate-valid :
      (message parity : ℕ) (t : Terminal) (d : Dmesg)
      → message % 2 ≡ 0
      → message / 2 ^ 10 % 2 ≡ 1
      → parity % 2 ≡ 0
      → validate font message parity t d ≡ some (t, d)
  unfolding validate print_if
  validate-valid message parity t d start stop even = rw (start, stop, even) refl

  last_bit :
      (k : Keyboard) (t : Terminal) (d : Dmesg) (tick message parity b : ℕ)
      → tick < 2 ^ 32
      → message < 2 ^ 11
      → b < 2
      → (message + b * 2 ^ 11) / 2 % 2 ≡ 0
      → (message + b * 2 ^ 11) / 2 / 2 ^ 10 % 2 ≡ 1
      → (parity + b) % 2 ≡ 0
      → ps2_interrupt_handler font (receiving k tick 10 message parity) t d tick b ≡ (
          on_key font (receiving k tick 0 0 0) t ((message + b * 2 ^ 11) / 2 / 2 % 2 ^ 8)
          >>= λ (k', t'). some (k', t', d))
  unfolding ps2_interrupt_handler
  last_bit k t d tick message parity b small m bit start stop even =
      rw
        (
          resynced-receiving k tick 10 message parity small,
          shifted-add message b m bit,
          validate-valid ((message + b * 2 ^ 11) / 2) (parity + b) t d start stop even,
        )
        refl

-- What ten steps gather.
pub gathered : ℕ → List ℕ → ℕ
gathered message [] = message
gathered message (d ∷ rest) = gathered ((message + d * 2 ^ 11) / 2) rest

pub Bits : List ℕ → Type 0
Bits [] = Unit
Bits (d ∷ rest) = (d < 2) × Bits rest

-- The parity bit, which makes the count of ones of the code and itself odd.
abbrev pub odd_parity : ℕ → ℕ
odd_parity key =
    (key % 2
      + key / 2 % 2
      + key / 4 % 2
      + key / 8 % 2
      + key / 16 % 2
      + key / 32 % 2
      + key / 64 % 2
      + key / 128 % 2
      + 1)
    % 2

-- The packet of a scan code: a start bit, the code with its lowest bit first, the parity, a stop bit.
abbrev pub code_bits : ℕ → List ℕ
code_bits key =
    0
    ∷ key % 2
    ∷ key / 2 % 2
    ∷ key / 4 % 2
    ∷ key / 8 % 2
    ∷ key / 16 % 2
    ∷ key / 32 % 2
    ∷ key / 64 % 2
    ∷ key / 128 % 2
    ∷ odd_parity key
    ∷ []

abbrev pub packet : ℕ → List ℕ
packet key = code_bits key ++ (1 ∷ [])

-- The sum of the bits, and a number.
pub ones_and : ℕ → List ℕ → ℕ
ones_and parity [] = parity
ones_and parity (d ∷ rest) = ones_and (parity + d) rest

gathered-lt :
    (message : ℕ) (ds : List ℕ) → message < 2 ^ 11 → Bits ds → gathered message ds < 2 ^ 11
unfolding gathered Bits
gathered-lt message [] lt bits = lt
gathered-lt message (d ∷ rest) lt (bit, bits) =
    gathered-lt ((message + d * 2 ^ 11) / 2) rest (omega (arith, lt, bit)) bits

code_bits-Bits : (key : ℕ) → Bits (code_bits key)
unfolding Bits
code_bits-Bits key = (
  omega arith,
  (
    omega arith,
    (
      omega arith,
      (
        omega arith,
        (
          omega arith,
          (omega arith, (omega arith, (omega arith, (omega arith, (omega arith, tt))))),
        ),
      ),
    ),
  ),
)

-- What the packet of a code gathers, and its count of ones.
gathered-code_bits :
    (key : ℕ)
    → key < 2 ^ 8
    → (gathered 0 (code_bits key) + 1 * 2 ^ 11) / 2 ≡ key * 2 + odd_parity key * 512 + 1024
unfolding gathered
gathered-code_bits key lt =
    let e0 : (0 + key % 2 * 2048) / 2 ≡ key % 2 * 1024 = omega arith in
    let e1 : (key % 2 * 1024 + key / 2 % 2 * 2048) / 2 ≡ key % 4 * 512 = omega arith in
    let e2 : (key % 4 * 512 + key / 4 % 2 * 2048) / 2 ≡ key % 8 * 256 = omega arith in
    let e3 : (key % 8 * 256 + key / 8 % 2 * 2048) / 2 ≡ key % 16 * 128 = omega arith in
    let e4 : (key % 16 * 128 + key / 16 % 2 * 2048) / 2 ≡ key % 32 * 64 = omega arith in
    let e5 : (key % 32 * 64 + key / 32 % 2 * 2048) / 2 ≡ key % 64 * 32 = omega arith in
    let e6 : (key % 64 * 32 + key / 64 % 2 * 2048) / 2 ≡ key % 128 * 16 = omega arith in
    let e7 : (key % 128 * 16 + key / 128 % 2 * 2048) / 2 ≡ key % 256 * 8 = omega arith in
    rw (e0, e1, e2, e3, e4, e5, e6, e7) (packed (odd_parity key))
  where
    packed :
        (parity : ℕ)
        → ((key % 256 * 8 + parity * 2048) / 2 + 1 * 2 ^ 11) / 2 ≡ key * 2 + parity * 512 + 1024
    packed parity = omega (arith, lt)

ones_and-code_bits : (key : ℕ) → (ones_and 0 (code_bits key) + 1) % 2 ≡ 0
unfolding ones_and
ones_and-code_bits key = omega arith

pub bind_assoc :
    {A B C : Type 0} (o : Option A) (f : A → Option B) (g : B → Option C)
    → ((o >>= f) >>= g) ≡ (o >>= λ a. f a >>= g)
bind_assoc none f g = refl
bind_assoc (some a) f g = refl

module _ (font : ℕ → ℕ) where
  pub receive-append :
      (tick : ℕ) (xs ys : List ℕ) (k : Keyboard) (t : Terminal) (d : Dmesg)
      → receive font tick (xs ++ ys) k t d
        ≡ (receive font tick xs k t d >>= λ (k', t', d'). receive font tick ys k' t' d')
  unfolding receive
  receive-append tick [] ys k t d = refl
  receive-append tick (b ∷ xs) ys k t d =
      ap (λ f. ps2_interrupt_handler font k t d tick b >>= f)
        (fun_ext (λ p. receive-append tick xs ys p.0 p.1 p.2))
      ∙ sym (
          bind_assoc (ps2_interrupt_handler font k t d tick b)
            (λ p. receive font tick xs p.0 p.1 p.2) (λ p. receive font tick ys p.0 p.1 p.2))

  receive-gathered :
      (ds : List ℕ) (k : Keyboard) (t : Terminal) (d : Dmesg) (tick n message parity : ℕ)
      → tick < 2 ^ 32
      → message < 2 ^ 11
      → Bits ds
      → n + length ds < 11
      → receive font tick ds (receiving k tick n message parity) t d
        ≡ some (receiving k tick (n + length ds) (gathered message ds) (ones_and parity ds), t, d)
  unfolding receive gathered ones_and Bits
  receive-gathered [] k t d tick n message parity small m bits few =
      ap (λ i. some (receiving k tick i message parity, t, d)) (omega arith)
  receive-gathered (b ∷ rest) k t d tick n message parity small m (bit, bits) few =
      ap (λ o. o >>= λ (k', t', d'). receive font tick rest k' t' d')
        (more_bits font k t d tick n message parity b small m bit (omega (arith, few)))
      ∙ receive-gathered rest k t d tick (n + 1) ((message + b * 2 ^ 11) / 2) (parity + b) small
          (omega (arith, m, bit)) bits (omega (arith, few))
      ∙ ap
          (λ i. some (
            receiving k tick i (gathered ((message + b * 2 ^ 11) / 2) rest)
                (ones_and (parity + b) rest),
            t,
            d,
          ))
          (omega arith)

  -- A keyboard between two packets that receives the packet of a scan code, within a tick, does
  -- what it does for that code, and is between two packets again; nothing is printed.
  pub receive-on_key :
      (key tick : ℕ) (k : Keyboard) (t : Terminal) (d : Dmesg)
      → key < 2 ^ 8
      → tick < 2 ^ 32
      → receive font tick (packet key) (receiving k tick 0 0 0) t d
        ≡ (on_key font (receiving k tick 0 0 0) t key >>= λ (k', t'). some (k', t', d))
  unfolding receive
  receive-on_key key tick k t d lt small =
      let bits = code_bits-Bits key in
      let whole = gathered-code_bits key lt in
      receive-append tick (code_bits key) (1 ∷ []) (receiving k tick 0 0 0) t d
      ∙ ap (λ o. o >>= λ (k', t', d'). receive font tick (1 ∷ []) k' t' d')
          (receive-gathered (code_bits key) k t d tick 0 0 0 small (omega arith) bits (omega arith))
      ∙ ap (λ o. o >>= λ (k', t', d'). some (k', t', d'))
          (last_bit font k t d tick (gathered 0 (code_bits key)) (ones_and 0 (code_bits key)) 1
            small (gathered-lt 0 (code_bits key) (omega arith) bits) (omega arith)
            (ap (λ m. m % 2) whole ∙ start (odd_parity key))
            (ap (λ m. m / 2 ^ 10 % 2) whole ∙ stop (odd_parity key) (omega arith))
            (ones_and-code_bits key))
      ∙ ap
          (λ c.
            (on_key font (receiving k tick 0 0 0) t c >>= λ (k', t'). some (k', t', d))
            >>= λ (k', t', d'). some (k', t', d'))
          (ap (λ m. m / 2 % 2 ^ 8) whole ∙ code (odd_parity key))
      ∙ bind_some (on_key font (receiving k tick 0 0 0) t key >>= λ (k', t'). some (k', t', d))
    where
      start : (parity : ℕ) → (key * 2 + parity * 512 + 1024) % 2 ≡ 0
      start parity = omega arith

      stop : (parity : ℕ) → parity < 2 → (key * 2 + parity * 512 + 1024) / 2 ^ 10 % 2 ≡ 1
      stop parity bit = omega (arith, lt, bit)

      code : (parity : ℕ) → (key * 2 + parity * 512 + 1024) / 2 % 2 ^ 8 ≡ key
      code parity = omega (arith, lt)

      bind_some :
          (o : Option (Keyboard × Terminal × Dmesg)) → (o >>= λ (k', t', d'). some (k', t', d')) ≡ o
      bind_some none = refl
      bind_some (some p) = refl
