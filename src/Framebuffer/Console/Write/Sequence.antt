-- ===== src/Framebuffer/Console/Write/Sequence.antt =====
-- A byte of plain text, and a byte of an ANSI sequence.
use vmwos.Prelude.{
  put, ℕ, ◌-◌, ◌*◌, ◌^◌, ◌<◌, ◌≡◌, refl, false, ◌||◌, Option, some, arith, ltb, ◌==◌, ◌∙◌,
  Bool-cases, if-cases, inl, inr, lt→ltb, ap, ==_iff, leb, ◌&&◌, ◌>>=◌, true, if◌then◌else◌,
}
use vmwos.Framebuffer.Console.{
  AnsiState, Console, normal, escape, number, complete, width, height, cells, max_numbers,
  ansi_default, add,
}
use vmwos.Framebuffer.Console.Write.{
  check_bounds, on_normal, put_text, on_escape, on_separator, on_digit, first_number, on_number,
  settle_round,
}
use vmwos.Framebuffer.Console.Write.Cursor.{IsOn, check_bounds-IsOn, check_bounds-linefeed}
use vmwos.Framebuffer.Console.Write.Sound.{
  state_after, which_after, disturbs, Placed, Fine, settle-goes, settle-command,
}

-- A byte of plain text.
pub on_normal-lands :
    (c : Console) (b : ℕ)
    → IsOn c
    → c.ansi_state ≡ normal
    → (c' : Console) × (on_normal c b ≡ some c')
      × IsOn (check_bounds c')
      × (c'.ansi_state ≡ state_after normal b)
      × (c'.which_number ≡ c.which_number)
unfolding on_normal put_text
on_normal-lands c b on e =
    if-cases Lands (b == 13) (λ q. stays c on.row (ground (arith, e)) refl)
      (λ _.
        if-cases Lands (b == 10)
          (λ q.
            let down : Console = record c { console_x = 0; console_y = add c.console_y 1 } in
            (
              down,
              refl,
              check_bounds-linefeed down (omega arith) (ground (arith, on.row)),
              ground (arith, e),
              refl,
            ))
          (λ _.
            if-cases Lands (b == 9) (λ q. stays _ on.row (ground (arith, e)) refl)
              (λ _.
                if-cases Lands (b == 8) (λ q. stays _ on.row (ground (arith, e)) refl)
                  (λ _.
                    if-cases Lands (b == 27) (λ q. stays _ on.row (ground arith) refl)
                      (λ q.
                        if-cases Lands (ltb (add c.console_x (c.console_y * width)) cells)
                          (λ _. stays _ on.row (ground (arith, e)) refl)
                          (λ far. absurd (ground (arith, on.row, on.column))))))))
  where
    Lands : Option Console → Type 0
    Lands o =
        (c' : Console) × (o ≡ some c')
        × IsOn (check_bounds c')
        × (c'.ansi_state ≡ state_after normal b)
        × (c'.which_number ≡ c.which_number)

    stays :
        (c' : Console)
        → c'.console_y < height
        → c'.ansi_state ≡ state_after normal b
        → c'.which_number ≡ c.which_number
        → Lands (some c')
    stays c' lt state which = (c', refl, check_bounds-IsOn c' (ground (arith, lt)), state, which)

stays-IsOn : (c : Console) → IsOn c → IsOn (check_bounds c)
stays-IsOn c on = check_bounds-IsOn c (ground (arith, on.row))

-- A byte comes to a console in these states.
abbrev pub Ends : AnsiState → ℕ → Option Console → Type 0
Ends state which o = (c' : Console) × (o ≡ some c') × Fine state which c'

abbrev pub settled : Option Console → Option Console
settled o = o >>= λ c'. settle_round c'

-- A `;` and a digit in a sequence.
separator-Ends :
    (c : Console)
    → IsOn c
    → c.ansi_state ≡ number
    → Placed c.which_number
    → (add c.which_number 1 == max_numbers) ≡ false
    → Ends number (add c.which_number 1) (settled (on_separator c (add c.which_number 1)))
unfolding on_separator
separator-Ends c on e placed room =
    let next : Console = record c {
      which_number = add c.which_number 1;
      numbers = put c.numbers (add c.which_number 1) 0;
    } in
    let lt : add c.which_number 1 < max_numbers = elim placed [
      | inl lt ↦ ground arith
      | inr start ↦ ground arith
    ] in
    let (made, fine) =
      settle-goes number next e (λ r. absurd cc) (λ _. inl lt)
        (stays-IsOn next (record { column = on.column; row = on.row })) in
    (check_bounds next, rw (room, lt→ltb (add c.which_number 1) max_numbers lt) made, fine)

first_number-kept :
    (c : Console)
    → Placed c.which_number
    → ((first_number c).which_number < max_numbers)
      × ((first_number c).ansi_state ≡ c.ansi_state)
      × ((first_number c).console_x ≡ c.console_x)
      × ((first_number c).console_y ≡ c.console_y)
      × ((first_number c).which_number
          ≡ (if c.which_number == 2 ^ 32 - 1 then 0 else c.which_number))
unfolding first_number
first_number-kept c placed = ground arith

digit-Ends :
    (c : Console) (b : ℕ)
    → IsOn c
    → c.ansi_state ≡ number
    → c.which_number < max_numbers
    → Ends number c.which_number (settled (on_digit c b))
unfolding on_digit
digit-Ends c b on e lt =
    let next : Console = record c {
      numbers = put c.numbers c.which_number (add (c.numbers c.which_number * 10) (b - 0x30));
    } in
    let (made, fine) =
      settle-goes number next e (λ r. absurd cc) (λ _. inl lt)
        (stays-IsOn next (record { column = on.column; row = on.row })) in
    (check_bounds next, rw (lt→ltb c.which_number max_numbers lt) made, fine)

-- A byte of a sequence, inside the numbers or at their end.
pub number-Ends :
    (c : Console) (b : ℕ)
    → IsOn c
    → c.ansi_state ≡ number
    → Placed c.which_number
    → disturbs number c.which_number b ≡ false
    → Ends (state_after number b) (which_after number c.which_number b) (settled (on_number c b))
unfolding on_number
number-Ends c b on e placed still = elim (Bool-cases (b == 0x3b)) [
  | inl semi ↦
      rw ((==_iff b 0x3b).0 semi) (separator-Ends c on e placed (ground (arith, semi, still)))
  | inr no_semi ↦ elim (Bool-cases (leb 0x30 b && leb b 0x39)) [
    | inl digit ↦
        let (lt, e', ex, ey, ew) = first_number-kept c placed in
        let outside : (ltb b 0x30 || ltb 0x39 b) ≡ false = ground (arith, digit) in
        let (c', made, fine) =
          digit-Ends (first_number c) b
            (record { column = omega (arith, ex, on.column); row = omega (arith, ey, on.row) })
            (e' ∙ e) lt in
        rw (outside, no_semi, digit) (c', made, (fine.0, fine.1, fine.2 ∙ ew))
    | inr no_digit ↦
        let outside : (ltb b 0x30 || ltb 0x39 b) ≡ true = ground (arith, no_digit) in
        rw (outside, no_semi, no_digit)
          (settle-command
            (record c {
              which_number = add c.which_number 1;
              ansi_command = b;
              ansi_state = complete;
            })
            refl (ground (arith, still, no_semi, no_digit)) on.row)
  ]
]

pub escape-Ends :
    (c : Console) (b : ℕ)
    → IsOn c
    → c.ansi_state ≡ escape
    → Ends
        (state_after escape b)
        (which_after escape c.which_number b)
        (settled (some (on_escape c b)))
unfolding on_escape
escape-Ends c b on e = elim (Bool-cases (b == 0x5b)) [
  | inl q ↦
      let begun : Console = record c {
        which_number = 2 ^ 32 - 1;
        numbers = put c.numbers 0 ansi_default;
        ansi_state = number;
      } in
      let (made, fine) =
        settle-goes number begun refl (λ r. absurd cc) (λ _. inr refl)
          (stays-IsOn begun (record { column = on.column; row = on.row })) in
      rw q (check_bounds begun, made, fine)
  | inr q ↦
      let ended : Console = record c { ansi_state = normal } in
      let (made, fine) =
        settle-goes normal ended refl (λ r. absurd cc) (λ r. absurd cc)
          (stays-IsOn ended (record { column = on.column; row = on.row })) in
      rw q (check_bounds ended, made, fine)
]

pub normal-Ends :
    (c : Console) (b : ℕ)
    → IsOn c
    → c.ansi_state ≡ normal
    → Ends (state_after normal b) c.which_number (settled (on_normal c b))
normal-Ends c b on e =
    let (c', made, on', state, which) = on_normal-lands c b on e in
    let (made', fine) =
      settle-goes (state_after normal b) c' state (λ r. ground arith) (λ r. ground arith) on' in
    (check_bounds c', ap (λ o. settled o) made ∙ made', (fine.0, fine.1, fine.2 ∙ which))
