-- ===== src/Lib.antt =====
-- Verification of the kernel in student-distrib, a small Unix-like kernel for x86 with three terminals.
--
-- The parts and their files:
--   FileSys: the read-only file system of student-distrib/file_sys.c. An Image is the boot block, the
--     index nodes and the bytes of the data blocks. FileSys/Lookup and FileSys/Contents relate the search
--     by name and read_data to descriptions on lists.
--   Text: the string functions of student-distrib/lib.c that the kernel calls.
--   Console: clear, putc, puts, check_size, erase_char and move_cursor of student-distrib/lib.c, on a
--     state of the three terminals of student-distrib/terminal.h and video memory. A hidden terminal has a
--     page of its own behind the screen.
--   LineEdit: student-distrib/terminal.c. The keyboard edits the shown terminal's line (edit_buffer), and
--     a program reads the finished line of the scheduled one (terminal_read).
--   Keyboard: student-distrib/keyboard.c, which turns scan codes into keys for the line, and switches the
--     shown terminal. Keyboard/Switch is about the copies of video memory that the switch makes.
--   Rtc: student-distrib/rtc.c, the clock that each terminal sees at a frequency of its own.
--   Pic: student-distrib/i8259.c, the masks of the two interrupt controllers.
--   Paging: student-distrib/page.c, with process_page and the mapping of system_vidmap of
--     student-distrib/syscalls.c.
--   Memory: memset, memcpy and memmove of student-distrib/lib.c, by the effect of each instruction on
--     memory and the registers. Memory/Fill, Memory/Copy and Memory/Move relate them to ranges of bytes.
--   Printf: printf of student-distrib/lib.c, over the words on its stack; Text/Digits is about the digits
--     that itoa writes for it. Printf/Items is printf as its caller sees it.
--   Idt: student-distrib/idt.c, the gates of the interrupt table (Idt/Gates) and the exception handlers
--     (Idt/Exceptions), which print with printf and leave by system_halt. Idt/Linkage is the way of a system
--     call: the stubs of syscalls/ece391syscall.S and student-distrib/syscalls_linkage.S.
--   Kernel: student-distrib/syscalls.c. The state collects the components above and the process blocks.
--     Kernel/Calls has the calls on descriptors, Kernel/Command, Kernel/Execute and Kernel/Halt the life
--     of a process. Kernel/Files, Kernel/Safety, Kernel/Open, Kernel/Launch, Kernel/Closing and
--     Kernel/Leave prove what they do. Kernel/Schedule is the scheduler of student-distrib/pit.c,
--     Kernel/Rounds its round robin, and Kernel/Pit the timer's set-up and interrupt.
--     Kernel/Refusal is about calls of system_execute that start nothing, Kernel/Child and Kernel/Family
--     about a program from its start to its halt, Kernel/Vidmap is system_vidmap, Kernel/Parse is about the
--     command line, and Kernel/Stream a process that reads a file and writes the terminal.
--   User: programs of syscalls over a record of the system calls that they make, and that record on the
--     kernel (User/OnKernel). User/Support is ece391support.c; User/Print has ece391cat.c, ece391ls.c,
--     ece391hello.c and ece391testprint.c, User/Shell ece391shell.c and ece391counter.c, and User/Grep
--     ece391grep.c. User/Rounds and User/Cat run cat on the kernel, User/Lines and User/Ls ls.
--   Boot: entry of student-distrib/kernel.c. Boot/Report is the check and the report of what the boot loader
--     passes, on the structures of student-distrib/multiboot.h in memory, Boot/Report/Lines the lines that
--     it prints, Boot/Segments the descriptors of
--     student-distrib/x86_desc.h, Boot the initialisation of the components, which puts the state of all of
--     them together and starts the first shell, and Boot/Entry the whole.
--   Running: the kernel while programs run. Running/Steps has the system calls, the exceptions and the
--     interrupts as a relation between states, and the states that they reach; Running/Read, Running/Calls,
--     Running/Open, Running/Execute, Running/Halt and Running/Interrupts are about each of them.
--     Running/Buffer is about the bytes that system_read writes.
--     Kernel/Forest is the view of the processes as a stack for each terminal. Running/Start and
--     Running/Entry lead from the boot to the three shells.
--   Prelude: the shared names and lemmas; Tests: the theorems at concrete values.
--
-- How code becomes definitions: a global is a field of a component's state, and a function takes the state
-- and returns it with its result. A C int that the code only compares or stores is its bit pattern, so
-- that -1 is 2 ^ 32 - 1; a result that is negative on failure is an integer. Arithmetic in uint8_t and
-- uint32_t wraps by `%`. The result `none` stands for a fault: a write past the terminal's buffer in
-- edit_buffer, a call through a null pointer in the system calls.
--
-- Loops over a fixed range are recursion on the number of rounds left. The loop of RTC_read waits for
-- interrupts, and its fuel is the number of interrupts that arrive: enough are given when there are more
-- than the terminal's maximum. The loops of the memory functions recur on the register that counts them,
-- and the loop of printf on the format. The loop of terminal_read that waits for ENTER is the outcome
-- `waiting`. The loops of the programs have fuel too: for cat a round for each full buffer and one more
-- are enough, for ls a round for each entry and one more. The loop over the boot loader's memory map has
-- enough with a round for each entry. The jumps that end system_execute and system_halt are the
-- constructors of their outcomes.
--
-- Not modelled: the start-up assembly (student-distrib/boot.S, x86_desc.S), the wrappers of
-- student-distrib/interrupt_link.S, which save and restore registers, and the registers of the devices,
-- which are port output and processor state; the kernel's tests (tests.c); the game in fish, and the
-- emulation and test programs of syscalls. Interrupts do not fall inside an operation, which runs with
-- them disabled where it shares state. The buffers that programs pass are their own memory, which is not
-- part of the kernel's state; system_read does not check their addresses, and a read into the kernel's
-- memory is not an event of Running. What a key does that makes edit_buffer write past the terminal's
-- buffer is not modelled either: it is the result `none`.
pub mod Prelude
pub mod Text
pub mod FileSys
pub mod Rtc
pub mod Pic
pub mod Console
pub mod Printf
pub mod LineEdit
pub mod Keyboard
pub mod Paging
pub mod Idt
pub mod User
pub mod Boot
pub mod Running
pub mod Memory
pub mod Kernel
pub mod Tests
