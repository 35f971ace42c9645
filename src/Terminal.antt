-- ===== src/Terminal.antt =====
-- The console device of kernel/drivers/console/console_io.c: the ring of input characters, the line
-- that is being edited, and the echo, with `serial_write` of kernel/drivers/serial/serial.c.
--
-- A character is a number; storing it in a `char` takes its low 8 bits. The buffers are functions of
-- the index. The locks are left out, and so are the calls into hardware and debugging of the keys
-- ^G and ^B. `debug` is 0, so that `console_termio_update` does nothing.
pub mod Ring
pub mod Read
pub mod Output
pub mod Line
pub mod Tests
use vmwos.Prelude.{
  ℕ, zero, suc, ◌+◌, ◌-◌, ◌*◌, ◌%◌, ◌^◌, bit_and, Bool, true, false, not, ◌&&◌, ◌||◌, Option, none,
  some, List, [], ◌∷◌, ◌++◌, ltb, leb, ◌==◌, if◌then◌else◌, ◌>>=◌, put, length,
}
use vmwos.Fs.{err}
use vmwos.Process.{Ptr, Processes}
use vmwos.Process.WaitQueue.{wait_queue_wake, wait_queue_add}
use vmwos.Framebuffer.Console.{Console}
use vmwos.Framebuffer.Console.Write.{framebuffer_console_write}

-- INPUT_BUFFER_SIZE and CANON_BUFFER_SIZE
abbrev pub input_buffer_size : ℕ
input_buffer_size = 256

abbrev pub canon_buffer_size : ℕ
canon_buffer_size = 256

-- Bits of `c_iflag` and of `c_lflag`, and indices into `c_cc`
abbrev pub igncr : ℕ
igncr = 0x80

abbrev pub icrnl : ℕ
icrnl = 0x100

abbrev pub icanon : ℕ
icanon = 2

abbrev pub echo : ℕ
echo = 8

abbrev pub echoctl : ℕ
echoctl = 0x200

abbrev pub verase : ℕ
verase = 2

abbrev pub veof : ℕ
veof = 4

abbrev pub tcgets : ℕ
tcgets = 0x5401

abbrev pub tcsets : ℕ
tcsets = 0x5402

abbrev pub enotty : ℕ
enotty = 25

abbrev pub o_nonblock : ℕ
o_nonblock = 0x800

abbrev pub newline : ℕ
newline = 10

abbrev pub carriage_return : ℕ
carriage_return = 13

abbrev pub backspace : ℕ
backspace = 8

abbrev pub space : ℕ
space = 0x20

abbrev pub flag_set : ℕ → ℕ → Bool
flag_set flags bit = not (bit_and flags bit == 0)

-- `termios`
pub record Termios : Type 0 where
  pub c_iflag : ℕ
  pub c_oflag : ℕ
  pub c_cflag : ℕ
  pub c_lflag : ℕ
  pub c_line : ℕ
  pub c_cc : ℕ → ℕ
  pub c_ispeed : ℕ
  pub c_ospeed : ℕ

-- The serial port: the bytes that `uart_putc` was called with, in order.
pub record Serial : Type 0 where
  pub initialized : Bool
  pub sent : List ℕ

-- The globals of console_io.c, `scheduling_enabled`, the processes, and what is written to.
pub record Terminal : Type 0 where
  pub input_buffer : ℕ → ℕ
  pub input_buffer_head : ℕ
  pub input_buffer_tail : ℕ
  pub canon_buffer : ℕ → ℕ
  pub canon_offset : ℕ
  pub current_termio : Termios
  pub console_wait_queue : Ptr
  pub processes : Processes
  pub scheduling_enabled : ℕ
  pub serial : Serial
  pub screen : Console

-- The bytes that `serial_write` sends for a text.
pub sent_for : List ℕ → List ℕ
sent_for [] = []
sent_for (b ∷ rest) =
    let sent = b ∷ sent_for rest in if b == newline then carriage_return ∷ sent else sent

pub serial_write : List ℕ → Serial → ℕ × Serial
serial_write buffer port =
    if not port.initialized
    then (0, port)
    else (length buffer, record port { sent = port.sent ++ sent_for buffer })

-- The step of an index into the ring.
unfoldable pub next_index : ℕ → ℕ
next_index i = if leb input_buffer_size (i + 1) then 0 else i + 1

-- The part of `console_actual_insert_char` from the label `sleepers_awake` on.
pub sleepers_awake : Terminal → Option (ℕ × Terminal)
sleepers_awake t = wait_queue_wake t.processes t.console_wait_queue >>= λ (first, s).
    some (0, record t { console_wait_queue = first; processes = s })

pub console_actual_insert_char : Terminal → ℕ → Bool → Option (ℕ × Terminal)
console_actual_insert_char t ch empty =
    if empty
    then sleepers_awake t
    else if next_index t.input_buffer_head == t.input_buffer_tail
    then some (err 1, t)
    else sleepers_awake (record t {
      input_buffer = put t.input_buffer t.input_buffer_head (ch % 2 ^ 8);
      input_buffer_head = next_index t.input_buffer_head;
    })

-- `ch` is compared as an `int`, negative from 2^31 on.
pub is_control_char : ℕ → Bool
is_control_char ch =
    if leb space ch && ltb ch (2 ^ 31)
    then false
    else if ch == newline
    then false
    else if ch == 9
    then false
    else if ch == 0x11 || ch == 0x13
    then false
    else true

-- The loop over the line that is done, with `left` characters from `i` on.
pub insert_line : ℕ → ℕ → Terminal → Option Terminal
insert_line zero i t = some t
insert_line (suc left) i t =
    console_actual_insert_char t (t.canon_buffer i) false >>= λ (_, t'). insert_line left (i + 1) t'

-- The part of `console_canonical_read` for a line that is done.
pub line_done : Terminal → Option (ℕ × Terminal)
line_done t = insert_line t.canon_offset 0 t >>= λ t'.
    (if t'.canon_offset == 0 then console_actual_insert_char t' 0 true else some (0, t'))
    >>= λ (_, t''). some (0, record t'' { canon_offset = 0 })

pub canon_no_add : Bool → Terminal → Option (ℕ × Terminal)
canon_no_add done t = if done then line_done t else some (0, t)

-- `ch` with a carriage return turned into a newline if so requested.
abbrev pub translated : Termios → ℕ → ℕ
translated termio ch =
    if flag_set termio.c_iflag icrnl && ch == carriage_return then newline else ch

abbrev pub ignored : Termios → ℕ → Bool
ignored termio ch = flag_set termio.c_iflag igncr && ch == carriage_return

-- What is echoed for a character: `^` and a letter for a control character.
pub echo_text : Termios → ℕ → List ℕ
echo_text termio ch =
    if flag_set termio.c_lflag echoctl && is_control_char ch
    then 0x5e ∷ (ch + 0x40) % 2 ^ 8 ∷ []
    else ch % 2 ^ 8 ∷ []

module _ (font : ℕ → ℕ) where
  pub console_write : List ℕ → Terminal → Option (ℕ × Terminal)
  console_write buf t =
      let (result_serial, port) = serial_write buf t.serial in
      framebuffer_console_write font buf t.screen >>= λ (_, screen).
      some (result_serial, record t { serial = port; screen = screen })

  -- A write whose result is not looked at, if `asked`.
  pub echo_if : Bool → List ℕ → Terminal → Option Terminal
  echo_if asked text t = if asked then (console_write text t >>= λ (_, t'). some t') else some t

  pub erase_char : Terminal → Option Terminal
  erase_char t =
      if ltb 0 t.canon_offset
      then echo_if (flag_set t.current_termio.c_lflag echo) (backspace ∷ space ∷ backspace ∷ [])
          (record t { canon_offset = t.canon_offset - 1 })
      else some t

  pub add_char : Terminal → ℕ → Option Terminal
  add_char t ch =
      echo_if (flag_set t.current_termio.c_lflag echo) (echo_text t.current_termio ch)
        (record t { canon_buffer = put t.canon_buffer t.canon_offset (ch % 2 ^ 8) })
      >>= λ t'. some (record t' { canon_offset = t'.canon_offset + 1 })

  -- `console_canonical_read` behind the tests for the carriage return.
  pub canonical_char : Terminal → ℕ → Option (ℕ × Terminal)
  canonical_char t ch =
      if ch == t.current_termio.c_cc veof
      then canon_no_add true t
      else if ch == backspace || ch == t.current_termio.c_cc verase
      then (erase_char t >>= λ t'. canon_no_add false t')
      else (add_char t ch >>= λ t'.
          canon_no_add (t'.canon_offset == canon_buffer_size || ch == newline) t')

  pub console_canonical_read : Terminal → ℕ → Option (ℕ × Terminal)
  console_canonical_read t ch =
      let ch' = translated t.current_termio ch in
      if ignored t.current_termio ch' then some (0, t) else canonical_char t ch'

  -- `console_insert_char` behind the test for the canonical mode.
  pub raw_char : Terminal → ℕ → Option (ℕ × Terminal)
  raw_char t ch =
      if ignored t.current_termio ch
      then some (0, t)
      else (let ch' = translated t.current_termio ch in
          console_actual_insert_char t ch' false >>= λ (result, t'). some (
            result,
            if ch' == 26
                then record t' { scheduling_enabled = if t'.scheduling_enabled == 0 then 1 else 0 }
                else t',
          ))

  pub console_insert_char : Terminal → ℕ → Option (ℕ × Terminal)
  console_insert_char t ch =
      if flag_set t.current_termio.c_lflag icanon
      then console_canonical_read t ch
      else raw_char t ch

  -- `console_write_dev`
  pub console_write_dev : List ℕ → Terminal → Option (ℕ × Terminal)
  console_write_dev buf t = console_write buf t

-- `console_get_char`: the character, or -1.
pub console_get_char : Terminal → ℕ × Terminal
console_get_char t = if t.input_buffer_head == t.input_buffer_tail then (err 1, t) else (
  t.input_buffer t.input_buffer_tail,
  record t { input_buffer_tail = next_index t.input_buffer_tail },
)

-- The loop of `console_read`, which is left at -1: the characters read.
pub read_chars : ℕ → Terminal → List ℕ × Terminal
read_chars zero t = ([], t)
read_chars (suc left) t =
    let (ch, t') = console_get_char t in
    let (chars, t'') = read_chars left t' in if ch == err 1 then ([], t') else (ch ∷ chars, t'')

-- What a read comes to: the process sleeps, to go on with `read_chars` when it runs again, or the
-- characters read.
pub data ReadResult : Type 0 where
  sleeps : Terminal → ReadResult
  reads : List ℕ → Terminal → ReadResult

-- `console_read` of the process that runs, `proc`, at `ticks`.
pub console_read : Terminal → ℕ → Bool → ℕ → ℕ → Option ReadResult
console_read t count non_blocking proc ticks =
    if not non_blocking && t.input_buffer_head == t.input_buffer_tail
    then (wait_queue_add t.processes t.console_wait_queue proc ticks >>= λ (first, s).
        some (sleeps (record t { console_wait_queue = first; processes = s })))
    else (let (chars, t') = read_chars count t in some (reads chars t'))

-- `flags` are those of the file object.
pub console_read_dev : Terminal → ℕ → ℕ → ℕ → ℕ → Option ReadResult
console_read_dev t flags count proc ticks =
    console_read t count (flag_set flags o_nonblock) proc ticks

-- The result, what is copied to user memory, and the state; `user` is the structure there.
pub console_ioctl : Terminal → ℕ → Termios → ℕ × Termios × Terminal
console_ioctl t cmd user =
    if cmd == tcgets
    then (0, t.current_termio, t)
    else if cmd == tcsets
    then (0, user, record t { current_termio = user })
    else (err enotty, user, t)

-- The settings of `console_init`.
unfoldable pub default_cc : ℕ → ℕ
default_cc i =
    if i == 0
    then 3
    else if i == 1
    then 0x1c
    else if i == verase
    then 0x7f
    else if i == 3
    then 0x15
    else if i == veof
    then 4
    else if i == 6
    then 1
    else if i == 8
    then 0x11
    else if i == 9
    then 0x13
    else if i == 10
    then 0x1a
    else if i == 12
    then 0x12
    else if i == 13
    then 15
    else if i == 14
    then 0x17
    else if i == 15
    then 0x16
    else 0

unfoldable pub default_termio : Termios
default_termio = record {
  c_iflag = 0x4500;
  c_oflag = 5;
  c_cflag = 0xbf;
  c_lflag = 0x8a3b;
  c_line = 0;
  c_cc = default_cc;
  c_ispeed = 0;
  c_ospeed = 0;
}
