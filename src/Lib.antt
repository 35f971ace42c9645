-- ===== src/Lib.antt =====
-- VMWos: the core of the kernel.
--
-- VMWos is a small operating system for the Raspberry Pi, written in C. This library models the
-- parts of the kernel that keep its state: the allocator of physical memory, the processes with
-- the scheduler, the virtual file system with its inodes, open files and descriptors, the free
-- sectors of the DOS 3.3 file system, the text console on the framebuffer, and the input, the log
-- and the output of the kernel. A system call on files works on the descriptors of the process
-- that runs; the scheduler chooses that process from the list that process.c keeps; stacks and
-- programs are chunks from the allocator.
--
-- Prelude: Boolean tests on numbers, lists over the native numbers with their lemmas, options,
--   searches of tables, and sums.
-- Bits: the bits of a 32-bit word, for masks like `1<<bit`.
-- Memory: kernel/memory/memory.c. `Memory` holds its globals; `memory_allocate`, `memory_free`,
--   `memory_total_free`, `memory_init` and `memory_hierarchy_init` are its operations. Memory/Map
-- reads the map as a flag for each chunk, Memory/Find is about the search, Memory/Allocate,
-- Memory/Free, Memory/Count and Memory/Init about one operation each, and Memory/Live about any
-- sequence of calls.
-- Process: kernel/processes/process.c. `Processes` holds its globals, with the table of processes.
-- Process/Chain reads the linked list as a list of slots; Process/Insert and Process/Remove are
-- about the operations that change it, and Process/Create about process_create. Process/Scheduler
-- models kernel/processes/scheduler.c, and Process/WaitQueue models kernel/processes/waitqueue.c and
-- kernel/processes/exit.c.
-- Fs: the structures of kernel/include/fs, and `SbOps`, the interface of a mounted file system.
-- Fs/Inodes models kernel/fs/inodes.c and Fs/Files models kernel/fs/files.c. Fs/Files/References
-- says when the reference counts are right, and Fs/Files/Close and Fs/Files/Dup are about the
-- calls that change them. Fs/Files/Io models the calls on an open file; `IoOps` is the interface
-- of drivers and of the operations on files.
-- Fs/Dos33: kernel/fs/dos33fs/dos33fs.c, the free sectors of a disk; `BlockOps` is the write of a
--   block device. Fs/Dos33/Bitmap reads the VTOC as a flag for each sector, Fs/Dos33/Search and
--   Fs/Dos33/Sweep are about the search for a free one, Fs/Dos33/Count about the number of them,
--   Fs/Dos33/Allocate about the allocation, and Fs/Dos33/Full about a disk that is full.
-- Framebuffer: kernel/drivers/framebuffer. `Framebuffer` holds the pixels; Framebuffer/Console holds
--   the text console, and Framebuffer/Console/Write its handling of text and ANSI sequences. There
--   Cursor is about the bounds check, Sound and Sequence about what holds from byte to byte, OnScreen
--   about whole buffers, and Below about text below the console. An access past the pixels is not
--   modelled: they are functions of any place. Locking of the console is taken as enabled, as
--   kernel/kernel_main.c leaves it: a print inside of `framebuffer_console_write` waits for the mutex
--   that `console_write` holds, and is `none`.
-- Lifecycle: kernel/processes/vfork.c, kernel/processes/waitpid.c and `process_destroy`, on a `System`
--   of processes, files and memory. Lifecycle/Share and Lifecycle/Files are about the reference counts
--   when a process is copied and when it ends, Lifecycle/Fork, Lifecycle/Destroy and Lifecycle/Wait
--   about the calls. A process that waits leaves `waitpid` with `sleeps`, and looks again when it
--   runs again.
-- Terminal: kernel/drivers/console/console_io.c, with `serial_write` of
--   kernel/drivers/serial/serial.c. `Terminal` holds its globals, the processes that wait for
--   input, and the outputs; a key goes through `console_insert_char`, and a process takes
--   characters with `console_read`. A process that finds none leaves `console_read` with `sleeps`,
--   and goes on with `read_chars` when it runs again. Terminal/Ring reads the input buffer as a
--   queue, Terminal/Read is about taking from it, Terminal/Output about text that goes out,
--   Terminal/Line has the reference for the line discipline, with Insert about a line that is
--   done, Keys about one key and its echo, and Text about sequences of keys.
-- Keyboard: kernel/drivers/keyboard/ps2-keyboard.c, from the bits of the wire to `console_insert_char`.
--   Keyboard/Frame is about a packet, and Keyboard/Release about a key that is released. A packet that
--   is not valid is printed by `printk` of Dmesg.
-- CString: kernel/lib/string.c, on a memory of bytes: memmove, and in CString/Text the functions on
--   strings. The loop of strlen runs for at most 2^31 rounds, the range of its counter.
-- Printk: `vsnprintf` of kernel/lib/printk.c. Printk/Directive has the reference, a format as a list of
--   directives with what they print; Printk/Digits is about numbers, Printk/Padding about the inner
--   loops, Printk/Format about whole formats, Printk/Decimal about reading a number back, and
--   Printk/Overrun about a buffer that is too small. A loop over digits has the room of its array.
-- Dmesg: kernel/lib/dmesg.c, the log, with `printk` and `serial_printk` of kernel/lib/printk.c, which
--   write to the log, the serial port and the screen. Dmesg/Log is about reading it back.
-- Malloc: `malloc` and `free` (`release`) of userspace/vlibc/malloc.c, with the system call as the
--   parameter `vmwos_malloc`; Malloc/FirstFit is about the block that is chosen.
-- Division: `__aeabi_uidiv` of kernel/lib/div.arm1176.c.
--
-- Numbers are the native natural numbers; a word keeps its wrap-around written out, and a negative
-- `int32_t` is its 32-bit pattern. What C leaves undefined (a `NULL` that is followed, an access
-- past an array, a shift by a negative count) is the result `none`, and so is a call that never
-- returns.
--
-- Walks along the list of processes run on fuel. The table has 16 slots, so that a list has at
-- most 16 processes, and 17 rounds walk any list to its end. The search for a free sector has 1024
-- rounds: its head passes every track of a disk in fewer than 600. The walk of malloc along its
-- blocks has the fuel as an argument, which the theorems want above the number of blocks. The loop
-- of the division has 2^32 rounds, one for each value of its word, and that of vsnprintf one more
-- than the format has characters, of which each round takes one. All other loops have a bound in
-- the source, which is the bound of the recursion.
--
-- Not modelled: assembly (the switch of registers, caches, page tables), interrupts, drivers other
-- than the framebuffer, the console, the PS/2 keyboard and the output of the serial port, prints
-- inside of functions of other parts than the console and the keyboard (their parts do not hold the
-- state that a print changes), locks (each function is one step, as on one core with interrupts off;
-- the mutex of the console stops its own prints only), the
-- boot code, the programs of userspace, their library but for malloc and free, and the tools. File
-- systems are the parameter `SbOps`.
pub mod Prelude
pub mod Bits
pub mod Memory
pub mod Process
pub mod Fs
pub mod CString
pub mod Division
pub mod Dmesg
pub mod Framebuffer
pub mod Keyboard
pub mod Lifecycle
pub mod Malloc
pub mod Printk
pub mod Terminal
