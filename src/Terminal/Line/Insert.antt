-- ===== src/Terminal/Line/Insert.antt =====
-- A line that is done goes into the ring.
use vmwos.Prelude.{
  walk, one_on, ℕ, zero, suc, ◌+◌, ◌-◌, ◌%◌, ◌^◌, ◌<◌, ◌≡◌, refl, true, none, some, List, [], ◌∷◌,
  arith, ◌==◌, length, ap, ◌∙◌, sym, subst, Bool-cases, inl, inr,
}
use native.Mathlib.Decide.{dec_lt}
use vmwos.Terminal.{Terminal, input_buffer_size, console_actual_insert_char, insert_line, line_done}
use vmwos.Terminal.Ring.{
  contents, IsRing, Untouched, ring-Untouched, Untouched-refl, accept, accept-nil, accept-full,
  accept-room, console_actual_insert_char-accept, sleepers_awake_lem,
}
use vmwos.Terminal.Line.{line}

accept-accept :
    (queue : List ℕ) (ch : ℕ) (chars : List ℕ)
    → accept (accept queue (ch ∷ [])) chars ≡ accept queue (ch ∷ chars)
accept-accept queue ch chars = elim (dec_lt (length queue) (input_buffer_size - 1)) [
  | yes room ↦
      ap (λ q. accept q chars) (accept-room queue ch [] room ∙ accept-nil _)
      ∙ sym (accept-room queue ch chars room)
  | no full ↦
      ap (λ q. accept q chars) (accept-full queue (ch ∷ []) (omega (arith, full)))
      ∙ accept-full queue chars (omega (arith, full))
      ∙ sym (accept-full queue (ch ∷ chars) (omega (arith, full)))
]

pub Untouched-trans : {t t' t'' : Terminal} → Untouched t t' → Untouched t' t'' → Untouched t t''
Untouched-trans u v = record {
  canon_buffer = v.canon_buffer ∙ u.canon_buffer;
  canon_offset = v.canon_offset ∙ u.canon_offset;
  current_termio = v.current_termio ∙ u.current_termio;
  scheduling_enabled = v.scheduling_enabled ∙ u.scheduling_enabled;
  serial = v.serial ∙ u.serial;
  screen = v.screen ∙ u.screen;
}

insert_line-accept :
    (left i : ℕ) (t : Terminal)
    → IsRing t
    → ((j : ℕ) → t.canon_buffer j < 2 ^ 8)
    → (t' : Terminal) × (insert_line left i t ≡ some t')
      × (contents t' ≡ accept (contents t) (walk one_on t.canon_buffer i left))
      × IsRing t'
      × Untouched t t'
unfolding insert_line walk
insert_line-accept zero i t ring bytes =
    (t, refl, sym (accept-nil (contents t)), ring, Untouched-refl t)
insert_line-accept (suc left) i t ring bytes =
    let (t₁, made, held₁, ring₁, same₁) =
      console_actual_insert_char-accept t (t.canon_buffer i) ring in
    let (t₂, made₂, held₂, ring₂, same₂) =
      insert_line-accept left (i + 1) t₁ ring₁
        (λ j. subst (λ b. b j < 2 ^ 8) (sym same₁.canon_buffer) (bytes j)) in
    let byte : t.canon_buffer i % 2 ^ 8 ≡ t.canon_buffer i = omega (arith, bytes i) in
    (
      t₂,
      rw (made) made₂,
      held₂
          ∙ ap (λ b. accept (contents t₁) (walk one_on b (i + 1) left)) same₁.canon_buffer
          ∙ ap (λ q. accept q (walk one_on t.canon_buffer (i + 1) left))
              (held₁ ∙ ap (λ c. accept (contents t) (c ∷ [])) byte)
          ∙ accept-accept (contents t) (t.canon_buffer i) (walk one_on t.canon_buffer (i + 1) left),
      ring₂,
      Untouched-trans same₁ same₂,
    )

awake-same :
    (t : Terminal)
    → IsRing t
    → (t' : Terminal) × (console_actual_insert_char t 0 true ≡ some (0, t'))
      × (contents t' ≡ contents t)
      × IsRing t'
      × Untouched t t'
unfolding console_actual_insert_char contents
awake-same t ring =
    let (s, e, ring') = sleepers_awake_lem t ring in
    (
      record t { console_wait_queue = none; processes = s },
      e,
      refl,
      ring',
      ring-Untouched t t.input_buffer t.input_buffer_head none s,
    )

-- The line goes into the ring, and the next one is empty.
pub line_done-accept :
    (t : Terminal)
    → IsRing t
    → ((j : ℕ) → t.canon_buffer j < 2 ^ 8)
    → (t' : Terminal) × (line_done t ≡ some (0, record t' { canon_offset = 0 }))
      × (contents t' ≡ accept (contents t) (line t))
      × IsRing t'
      × Untouched t t'
unfolding line_done line
line_done-accept t ring bytes =
    let (t₁, made, held, ring₁, same) = insert_line-accept t.canon_offset 0 t ring bytes in
    elim (Bool-cases (t₁.canon_offset == 0)) [
      | inl none_typed ↦
          let (t₂, made₂, held₂, ring₂, same₂) = awake-same t₁ ring₁ in
          (t₂, rw (made, none_typed, made₂) refl, held₂ ∙ held, ring₂, Untouched-trans same same₂)
      | inr typed ↦ (t₁, rw (made, typed) refl, held, ring₁, same)
    ]
