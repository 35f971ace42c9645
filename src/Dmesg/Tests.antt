-- ===== src/Dmesg/Tests.antt =====
-- Runs of kernel/lib/dmesg.c and of printk.
use vmwos.Prelude.{ℕ, ◌≡◌, refl, some, List, [], ◌∷◌, arith, walk}
use vmwos.Framebuffer.Console.Write.Tests.{low-IsSound}
use vmwos.Framebuffer.Console.Write.Plain.{IsIdle, plain_text}
use vmwos.Terminal.{Terminal, serial_write}
use vmwos.Terminal.Tests.{fresh}
use vmwos.Printk.{word, digit_char}
use vmwos.Printk.Directive.{
  Directive, literal, decimal, AllFit, IsFit, format_of, all_args, all_printed, printed, padded,
  pad_char, first, others, args_of, all_digits,
}
use vmwos.Printk.Digits.{value_from, number_from}
use vmwos.Dmesg.{Dmesg, dmesg_append, dmesg_syscall, syslog_action_read_all, printk}
use vmwos.Dmesg.Log.{
  from_start, wrapped_log, append_all, joined, dmesg_syscall-append_all, dmesg_syscall_empty,
  printk-logged,
}

abbrev messages : List (List ℕ)
messages = (104 ∷ 105 ∷ []) ∷ [] ∷ (33 ∷ []) ∷ []

dmesg_syscall-append_all_example :
    dmesg_syscall (append_all messages (from_start (λ _. 0) 0)) syslog_action_read_all
    ≡ (3, 104 ∷ 105 ∷ 33 ∷ [])
unfolding joined
dmesg_syscall-append_all_example = dmesg_syscall-append_all messages (λ _. 0) (omega arith)

dmesg_syscall_empty_example :
    dmesg_syscall (dmesg_append (33 ∷ []) (wrapped_log (λ _. 65) 100)).1 syslog_action_read_all
    ≡ (0, [])
dmesg_syscall_empty_example = dmesg_syscall_empty (λ _. 65) 100 33 (omega arith)

-- `n=%d` for 42
abbrev directives : List Directive
directives = literal 110 ∷ literal 61 ∷ decimal [] 42 ∷ []

printk-logged_example :
    (d' : Dmesg) × (t' : Terminal) × (printk
        (λ _. 0)
        (110 ∷ 61 ∷ 0x25 ∷ 0x64 ∷ [])
        (word 42 ∷ [])
        (from_start (λ _. 65) 2)
        fresh
      ≡ some (4, d', t'))
    × (dmesg_syscall d' syslog_action_read_all ≡ (6, 65 ∷ 65 ∷ 110 ∷ 61 ∷ 0x34 ∷ 0x32 ∷ []))
    × (t'.serial ≡ (serial_write (110 ∷ 61 ∷ 0x34 ∷ 0x32 ∷ []) fresh.serial).1)
    × IsIdle t'.screen
unfolding walk AllFit IsFit format_of all_args all_printed printed padded pad_char first others
    args_of all_digits value_from number_from digit_char plain_text
printk-logged_example =
    printk-logged (λ _. 0) directives 110 (61 ∷ 0x34 ∷ 0x32 ∷ []) (λ _. 65) 2 fresh
      (refl, (refl, ((refl, omega arith, omega arith), tt))) refl (omega arith) refl
      (record { sound = low-IsSound; idle = refl }) (omega arith)
