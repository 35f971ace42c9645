-- ===== src/Dmesg/Log.antt =====
-- What is read back from the log.
use vmwos.Prelude.{
  ℕ, zero, suc, ◌+◌, ◌-◌, ◌≤◌, ◌<◌, ◌≡◌, refl, true, some, List, [], ◌∷◌, ◌++◌, arith, put, length,
  length-append, walk, one_on, walk-one_on, walk-put, append-nil, append_assoc, ap, ap₂, ◌∙◌, sym,
  ==_refl, lt→ltb, le→ltb, lt→leb,
}
use vmwos.Printk.Directive.{Directive, AllFit, format_of, all_args, all_printed}
use vmwos.Printk.Format.{vsnprintf-all_printed}
use vmwos.Framebuffer.Console.Write.Plain.{IsIdle, plain_text}
use vmwos.Terminal.{Terminal, serial_write}
use vmwos.Terminal.Output.{console_write-IsIdle}
use vmwos.Dmesg.{
  Dmesg, dmesg_size, max_print_size, syslog_action_read_all, copy_to, adjust_head, dmesg_append,
  dmesg_syscall, printk,
}

-- Bytes that are copied behind others stand behind them.
walk-copy_to :
    (bytes : List ℕ) (buffer : ℕ → ℕ) (at : ℕ)
    → walk one_on (copy_to buffer at bytes) 0 (at + length bytes) ≡ walk one_on buffer 0 at ++ bytes
unfolding copy_to
walk-copy_to [] buffer at =
    ap (walk one_on buffer 0) (omega arith) ∙ sym (append-nil (walk one_on buffer 0 at))
walk-copy_to (b ∷ rest) buffer at =
    ap (walk one_on (copy_to (put buffer at b) (at + 1) rest) 0) (omega arith)
    ∙ walk-copy_to rest (put buffer at b) (at + 1)
    ∙ ap (λ xs. xs ++ rest)
        (ap (walk one_on (put buffer at b) 0) (omega arith)
          ∙ walk-one_on (put buffer at b) at 0
          ∙ ap₂ (λ xs c. xs ++ (c ∷ [])) (walk-put buffer b at 0 at (omega arith))
              (rw (from_zero at, ==_refl at) refl))
    ∙ append_assoc (walk one_on buffer 0 at) (b ∷ []) rest
  where
    from_zero : (n : ℕ) → 0 + n ≡ n
    from_zero n = omega arith

-- A log that has not wrapped around: it begins at the start of its buffer.
abbrev pub from_start : (ℕ → ℕ) → ℕ → Dmesg
from_start buffer tail = record { dmesg_buffer = buffer; dmesg_head = 0; dmesg_tail = tail }

dmesg_append-from_start :
    (buffer : ℕ → ℕ) (tail : ℕ) (buf : List ℕ)
    → length buf < dmesg_size
    → tail + length buf ≤ dmesg_size
    → dmesg_append buf (from_start buffer tail)
      ≡ (0, from_start (copy_to buffer tail buf) (tail + length buf))
unfolding dmesg_append adjust_head
dmesg_append-from_start buffer tail buf short fits =
    rw
      (
        lt→leb dmesg_size (length buf) short,
        le→ltb dmesg_size (tail + length buf) fits,
        le→ltb tail 0 (omega arith),
      )
      refl

dmesg_syscall-from_start :
    (buffer : ℕ → ℕ) (tail : ℕ)
    → dmesg_syscall (from_start buffer tail) syslog_action_read_all
      ≡ (tail, walk one_on buffer 0 tail)
unfolding dmesg_syscall walk
dmesg_syscall-from_start buffer zero = refl
dmesg_syscall-from_start buffer (suc n) =
    rw (le→ltb (suc n) 0 (omega arith), lt→ltb 0 (suc n) (omega arith))
      (ap (λ k. (k, walk one_on buffer 0 k)) (minus_zero (suc n)))
  where
    minus_zero : (k : ℕ) → k - 0 ≡ k
    minus_zero k = omega arith

-- Messages, one after the other.
pub append_all : List (List ℕ) → Dmesg → Dmesg
append_all [] d = d
append_all (m ∷ rest) d = append_all rest (dmesg_append m d).1

unfoldable pub joined : List (List ℕ) → List ℕ
joined [] = []
joined (m ∷ rest) = m ++ joined rest

append_all-joined :
    (messages : List (List ℕ)) (buffer : ℕ → ℕ) (tail : ℕ)
    → tail + length (joined messages) < dmesg_size
    → dmesg_syscall (append_all messages (from_start buffer tail)) syslog_action_read_all
      ≡ (tail + length (joined messages), walk one_on buffer 0 tail ++ joined messages)
unfolding append_all joined
append_all-joined [] buffer tail lt =
    dmesg_syscall-from_start buffer tail
    ∙ ap₂ (λ n xs. (n, xs)) (omega arith) (sym (append-nil (walk one_on buffer 0 tail)))
append_all-joined (m ∷ rest) buffer tail lt =
    let total = length-append m (joined rest) in
    ap (λ r. dmesg_syscall (append_all rest r.1) syslog_action_read_all)
      (dmesg_append-from_start buffer tail m (omega (arith, lt, total)) (omega (arith, lt, total)))
    ∙ append_all-joined rest (copy_to buffer tail m) (tail + length m) (omega (arith, lt, total))
    ∙ ap₂ (λ n xs. (n, xs)) (omega (arith, total))
        (ap (λ xs. xs ++ joined rest) (walk-copy_to m buffer tail)
          ∙ append_assoc (walk one_on buffer 0 tail) m (joined rest))

-- While the messages fit into the buffer of the log, reading all of an empty log after any
-- sequence of messages returns the messages joined, in order, and their length.
pub dmesg_syscall-append_all :
    (messages : List (List ℕ)) (buffer : ℕ → ℕ)
    → length (joined messages) < dmesg_size
    → dmesg_syscall (append_all messages (from_start buffer 0)) syslog_action_read_all
      ≡ (length (joined messages), joined messages)
unfolding walk
dmesg_syscall-append_all messages buffer lt =
    append_all-joined messages buffer 0 (omega (arith, lt))
    ∙ ap (λ n. (n, joined messages)) (omega arith)

-- A log that has wrapped around: its head is the place behind the gap after its tail.
abbrev pub wrapped_log : (ℕ → ℕ) → ℕ → Dmesg
wrapped_log buffer tail = record { dmesg_buffer = buffer; dmesg_head = tail + 1; dmesg_tail = tail }

-- A log whose head and tail are equal.
abbrev met_log : (ℕ → ℕ) → ℕ → Dmesg
met_log buffer i = record { dmesg_buffer = buffer; dmesg_head = i; dmesg_tail = i }

dmesg_append-wrapped_log :
    (buffer : ℕ → ℕ) (tail b : ℕ)
    → tail + 1 < dmesg_size
    → dmesg_append (b ∷ []) (wrapped_log buffer tail)
      ≡ (0, met_log (copy_to buffer tail (b ∷ [])) (tail + 1))
unfolding dmesg_append adjust_head
dmesg_append-wrapped_log buffer tail b lt =
    rw
      (
        le→ltb dmesg_size (tail + 1) (omega (arith, lt)),
        lt→ltb tail (tail + 1) (omega arith),
        le→ltb (tail + 1) (tail + 1) (omega arith),
      )
      refl

dmesg_syscall-met_log :
    (buffer : ℕ → ℕ) (i : ℕ) → dmesg_syscall (met_log buffer i) syslog_action_read_all ≡ (0, [])
unfolding dmesg_syscall
dmesg_syscall-met_log buffer i = rw (le→ltb i i (omega arith)) refl

-- In a log that has wrapped around, with its head behind the gap after its tail and before the
-- end of the buffer, a message of one byte makes the log read as empty.
pub dmesg_syscall_empty :
    (buffer : ℕ → ℕ) (tail b : ℕ)
    → tail + 1 < dmesg_size
    → dmesg_syscall (dmesg_append (b ∷ []) (wrapped_log buffer tail)).1 syslog_action_read_all
      ≡ (0, [])
dmesg_syscall_empty buffer tail b lt =
    ap (λ r. dmesg_syscall r.1 syslog_action_read_all) (dmesg_append-wrapped_log buffer tail b lt)
    ∙ dmesg_syscall-met_log (copy_to buffer tail (b ∷ [])) (tail + 1)

-- For a format of directives whose output is not empty, has no ESC and is shorter than 255
-- bytes, on a console outside of an ANSI sequence and a log with room for it that has not
-- wrapped around: printk returns the length of the output, the log then reads as before with the
-- output behind it, the serial port has been sent the output, and the console is ready for the
-- next text.
pub printk-logged :
    (font : ℕ → ℕ) (ds : List Directive) (b : ℕ) (rest : List ℕ) (buffer : ℕ → ℕ) (tail : ℕ)
    (t : Terminal)
    → AllFit ds
    → all_printed ds ≡ b ∷ rest
    → length (all_printed ds) + 1 < max_print_size
    → plain_text (all_printed ds) ≡ true
    → IsIdle t.screen
    → tail + length (all_printed ds) ≤ dmesg_size
    → (d' : Dmesg) × (t' : Terminal) × (printk font
          (format_of ds)
          (all_args ds)
          (from_start buffer tail)
          t
        ≡ some (length (all_printed ds), d', t'))
      × (dmesg_syscall d' syslog_action_read_all
          ≡ (tail + length (all_printed ds), walk one_on buffer 0 tail ++ all_printed ds))
      × (t'.serial ≡ (serial_write (all_printed ds) t.serial).1)
      × IsIdle t'.screen
unfolding printk
printk-logged font ds b rest buffer tail t fit some_text short plain idle room =
    let out : List ℕ = all_printed ds in
    let (screen, shown, idle') = console_write-IsIdle font out t (b, rest, some_text) idle plain in
    let logged = dmesg_append-from_start buffer tail out (omega (arith, short)) room in
    (
      from_start (copy_to buffer tail out) (tail + length out),
      record t { serial = (serial_write out t.serial).1; screen = screen },
      rw (vsnprintf-all_printed ds max_print_size fit short, shown, logged) refl,
      dmesg_syscall-from_start (copy_to buffer tail out) (tail + length out)
          ∙ ap (λ xs. (tail + length out, xs)) (walk-copy_to out buffer tail),
      refl,
      idle',
    )
