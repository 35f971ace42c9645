-- ===== src/Framebuffer/Console/Write/Sound.antt =====
-- What holds between two bytes that are written to the console.
use vmwos.Prelude.{
  ℕ, zero, suc, ◌+◌, ◌-◌, ◌^◌, ◌≤◌, ◌<◌, ◌≡◌, refl, ◌≢◌, Bool, true, false, not, ◌&&◌, ◌||◌, List,
  [], ◌∷◌, arith, leb, ◌==◌, if◌then◌else◌, ◌∙◌, ap, ◌⊎◌, inl, inr, some, ◌>>=◌, ==_iff, Bool-cases,
  sym,
}
use vmwos.Framebuffer.Console.{
  Console, AnsiState, normal, escape, number, complete, height, max_numbers, add, sub,
}
use vmwos.Framebuffer.Console.Write.{
  clamp, check_bounds, wrap_line, scroll, distance_of, run_command, colors_from, color_reset,
  color_bright, color_fore, color_back, finish, finish_if, settle_round,
}
use vmwos.Framebuffer.Console.Write.Cursor.{IsOn, check_bounds-IsOn}

-- The states of an ANSI sequence: ESC, `[`, numbers with `;` between them, a command.
abbrev pub in_number : ℕ → Bool
in_number b = (leb 0x30 b && leb b 0x39) || b == 0x3b

abbrev pub state_after : AnsiState → ℕ → AnsiState
state_after normal b = if b == 27 then escape else normal
state_after escape b = if b == 0x5b then number else normal
state_after number b = if in_number b then number else normal
state_after complete b = normal

-- The index of the number that is read, as a word: -1 before the first one.
abbrev pub which_after : AnsiState → ℕ → ℕ → ℕ
which_after normal which b = which
which_after escape which b = if b == 0x5b then 2 ^ 32 - 1 else which
which_after number which b =
    if b == 0x3b
    then add which 1
    else if in_number b
    then (if which == 2 ^ 32 - 1 then 0 else which)
    else 2 ^ 32 - 1
which_after complete which b = which

-- The commands that neither change the row nor are unknown: C, D and m.
abbrev pub keeps_row : ℕ → Bool
keeps_row b = b == 0x43 || b == 0x44 || b == 0x6d

-- A byte that ends a sequence by another command, or its numbers by one too many.
abbrev pub disturbs : AnsiState → ℕ → ℕ → Bool
disturbs number which b =
    if b == 0x3b then add which 1 == max_numbers else not (in_number b) && not (keeps_row b)
disturbs normal which b = false
disturbs escape which b = false
disturbs complete which b = false

abbrev pub quiet : AnsiState → ℕ → List ℕ → Bool
quiet state which [] = true
quiet state which (b ∷ rest) =
    not (disturbs state which b) && quiet (state_after state b) (which_after state which b) rest

-- The index of a number, or -1.
abbrev pub Placed : ℕ → Type 0
Placed which = (which < max_numbers) ⊎ (which ≡ 2 ^ 32 - 1)

-- Between two bytes: the cursor is on the console, no command is due, and inside a sequence the
-- number being read has its place.
pub record IsSound (c : Console) : Type 0 where
  pub on : IsOn c
  pub settled : c.ansi_state ≢ complete
  pub placed : c.ansi_state ≡ number → Placed c.which_number

pub check_bounds-kept :
    (c : Console)
    → ((check_bounds c).ansi_state ≡ c.ansi_state)
      × ((check_bounds c).which_number ≡ c.which_number)
unfolding check_bounds wrap_line scroll
check_bounds-kept c = ground arith

-- Colors do not change the row.
colors-row : (left i : ℕ) (c : Console) → (colors_from left i c).console_y ≡ c.console_y
unfolding colors_from color_reset color_bright color_fore color_back
colors-row zero i c = refl
colors-row (suc left) i c =
    colors-row left (i + 1) (
      color_back (c.numbers i)
        (color_fore (c.numbers i) (color_bright (c.numbers i) (color_reset (c.numbers i) c))))
    ∙ ground arith

run_command-known :
    (c : Console)
    → keeps_row c.ansi_command ≡ true
    → (c' : Console) × (run_command c ≡ some c') × (c'.console_y ≤ c.console_y)
unfolding run_command
run_command-known c known = elim (Bool-cases (c.ansi_command == 0x43)) [
  | inl forward ↦ (
    record c { console_x = add c.console_x (distance_of c) },
    rw ((==_iff c.ansi_command 0x43).0 forward) refl,
    omega arith,
  )
  | inr no_forward ↦ elim (Bool-cases (c.ansi_command == 0x44)) [
    | inl backward ↦ (
      record c { console_x = sub c.console_x (distance_of c) },
      rw ((==_iff c.ansi_command 0x44).0 backward) refl,
      omega arith,
    )
    | inr no_backward ↦ (
      colors_from (clamp c.which_number) 0 c,
      rw ((==_iff c.ansi_command 0x6d).0 (ground (arith, known, no_forward, no_backward))) refl,
      omega (arith, colors-row (clamp c.which_number) 0 c),
    )
  ]
]

-- What a byte comes to: the cursor is on the console, in the right state.
abbrev pub Fine : AnsiState → ℕ → Console → Type 0
Fine state which c = IsSound c × (c.ansi_state ≡ state) × (c.which_number ≡ which)

finish_if-idle : (state : AnsiState) (c : Console) → state ≢ complete → finish_if state c ≡ some c
unfolding finish_if
finish_if-idle normal c _ = refl
finish_if-idle escape c _ = refl
finish_if-idle number c _ = refl
finish_if-idle complete c no_command = absurd (no_command refl)

-- The rest of a round without a command.
pub settle-goes :
    (state : AnsiState) (c : Console)
    → c.ansi_state ≡ state
    → state ≢ complete
    → (state ≡ number → Placed c.which_number)
    → IsOn (check_bounds c)
    → (settle_round c ≡ some (check_bounds c)) × Fine state c.which_number (check_bounds c)
unfolding settle_round
settle-goes state c e ne placed on =
    let idle : finish_if c.ansi_state c ≡ some c =
      ap (λ s. finish_if s c) e ∙ finish_if-idle state c ne in
    let (same, same') = check_bounds-kept c in
    (
      rw idle refl,
      (
        record {
          on = on;
          settled = λ q. ne (sym e ∙ sym same ∙ q);
          placed = λ q. rw same' (placed (sym e ∙ sym same ∙ q));
        },
        same ∙ e,
        same',
      ),
    )

-- After a command.
abbrev as_ended : Console → Console
as_ended c = record c { which_number = 2 ^ 32 - 1; ansi_state = normal }

-- The rest of a round with a command.
pub settle-command :
    (c : Console)
    → c.ansi_state ≡ complete
    → keeps_row c.ansi_command ≡ true
    → c.console_y < height
    → (c' : Console) × (settle_round c ≡ some c') × Fine normal (2 ^ 32 - 1) c'
unfolding settle_round finish_if finish
settle-command c e known lt =
    let (d, made, row) = run_command-known c known in
    let ended = as_ended d in
    let (same, same') = check_bounds-kept ended in
    let due : finish_if c.ansi_state c ≡ some ended =
      ap (λ s. finish_if s c) e ∙ ap (λ o. o >>= λ (c' : Console). some (as_ended c')) made in
    (
      check_bounds ended,
      ap (λ o. o >>= λ c'. some (check_bounds c')) due,
      (
        record {
          on = check_bounds-IsOn ended (ground (arith, row, lt));
          settled = λ q. absurd cc;
          placed = λ q. absurd cc;
        },
        same,
        same',
      ),
    )
