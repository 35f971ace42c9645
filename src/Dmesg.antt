-- ===== src/Dmesg.antt =====
-- The log of the kernel, kernel/lib/dmesg.c, and `printk` and `serial_printk` of kernel/lib/printk.c,
-- which write to it and to the console.
--
-- The indices are natural numbers: they never go below 0, and stay far below 2^31.
pub mod Log
pub mod Tests
use vmwos.Prelude.{
  ℕ, zero, suc, ◌+◌, ◌-◌, ◌^◌, Bool, false, ◌&&◌, ◌||◌, Option, some, List, [], ◌∷◌, ◌++◌, ltb, leb,
  ◌==◌, if◌then◌else◌, ◌>>=◌, put, length, take, drop, walk, one_on,
}
use vmwos.Fs.{err}
use vmwos.Printk.{Arg, vsnprintf}
use vmwos.Terminal.{Terminal, serial_write, console_write}

-- DMESG_SIZE and MAX_PRINT_SIZE
abbrev pub dmesg_size : ℕ
dmesg_size = 4096

abbrev pub max_print_size : ℕ
max_print_size = 256

abbrev pub syslog_action_read_all : ℕ
syslog_action_read_all = 3

abbrev pub syslog_action_size_buffer : ℕ
syslog_action_size_buffer = 10

abbrev pub einval : ℕ
einval = 22

-- The globals of dmesg.c.
pub record Dmesg : Type 0 where
  pub dmesg_buffer : ℕ → ℕ
  pub dmesg_head : ℕ
  pub dmesg_tail : ℕ

-- `memcpy` of bytes to `buffer` from `at` on.
unfoldable pub copy_to : (ℕ → ℕ) → ℕ → List ℕ → ℕ → ℕ
copy_to buffer at [] = buffer
copy_to buffer at (b ∷ rest) = copy_to (put buffer at b) (at + 1) rest

-- The end of `dmesg_append`: the head after the new tail.
pub adjust_head : Bool → Dmesg → Dmesg
adjust_head wrapped d =
    if wrapped
    then record d {
      dmesg_head =
          if ltb dmesg_size (d.dmesg_tail + 1)
          then d.dmesg_tail + 1 - dmesg_size
          else d.dmesg_tail + 1;
    }
    else d

-- `length` is that of `buf`.
pub dmesg_append : List ℕ → Dmesg → ℕ × Dmesg
dmesg_append buf d =
    let old_tail = d.dmesg_tail in
    let tail = old_tail + length buf in
    if leb dmesg_size (length buf)
    then (err 1, d)
    else if ltb dmesg_size tail
    then (
      0,
      adjust_head (ltb old_tail d.dmesg_head || ltb d.dmesg_head (tail - dmesg_size)) (record d {
        dmesg_buffer =
            copy_to (copy_to d.dmesg_buffer old_tail (take (dmesg_size - old_tail) buf)) 0
              (drop (dmesg_size - old_tail) buf);
        dmesg_tail = tail - dmesg_size;
      }),
    )
    else (
      0,
      adjust_head (ltb old_tail d.dmesg_head && ltb d.dmesg_head tail)
          (record d { dmesg_buffer = copy_to d.dmesg_buffer old_tail buf; dmesg_tail = tail }),
    )

-- The result, and the bytes that are copied to the user.
pub dmesg_syscall : Dmesg → ℕ → ℕ × List ℕ
dmesg_syscall d cmd =
    if cmd == syslog_action_read_all
    then (if ltb d.dmesg_tail d.dmesg_head
        then (
          dmesg_size - d.dmesg_head + d.dmesg_tail,
          walk one_on d.dmesg_buffer d.dmesg_head (dmesg_size - d.dmesg_head)
              ++ walk one_on d.dmesg_buffer 0 d.dmesg_tail,
        )
        else if ltb d.dmesg_head d.dmesg_tail
        then (
          d.dmesg_tail - d.dmesg_head,
          walk one_on d.dmesg_buffer d.dmesg_head (d.dmesg_tail - d.dmesg_head),
        )
        else (0, []))
    else if cmd == syslog_action_size_buffer
    then (dmesg_size, [])
    else (err einval, [])

-- `printk`, with the font of the console.
pub printk : (ℕ → ℕ) → List ℕ → List Arg → Dmesg → Terminal → Option (ℕ × Dmesg × Terminal)
printk font string args d t = vsnprintf max_print_size string args >>= λ (result, buffer).
    console_write font buffer t >>= λ (_, t'). some (result, (dmesg_append buffer d).1, t')

pub serial_printk : List ℕ → List Arg → Terminal → Option (ℕ × Terminal)
serial_printk string args t = vsnprintf max_print_size string args >>= λ (result, buffer).
    some (result, record t { serial = (serial_write buffer t.serial).1 })
