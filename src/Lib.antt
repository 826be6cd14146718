-- ===== src/Lib.antt =====
-- The Nascent OS kernel: memory, processes, files, terminal and strings, and what is proved of them.
--
-- The kernel boots on a list of page frames made from the loader's memory map (`sys/virmem.c`), hands
-- the frames out and takes them back (`sys/page.c`), and builds page tables from them (`sys/virmem.c`).
-- Processes are blocks of the array `pcb_arr` (`sys/proc_mngr.c`); `schedule` (`sys/process.c`) takes the
-- first ready one from the task list and puts the one that ran back; `sys_exit`, `wait_for_child` and the
-- timer (`sys/pit.c`) move tasks between states and lists. A page fault (`sys/pagefault.c`) takes a frame and
-- maps it, or copies a frame that a fork left shared (`fork_process`, `sys/process.c`). A new program
-- is read by `sys/elf.c` and started with its arguments on the stack by `sys_execvpe`. Keys go through
-- the terminal's ring buffer (`sys/terminal.c`) to the tasks that read, files are those of a tar
-- archive (`sys/tarfs.c`), and output is formatted by `sys/kprintf.c`. The strings (`sys/strings.c`)
-- serve the file system and the process names. The system calls (`sys/syscalls.c`) put these parts
-- together for the programs, of which the shell (`bin/sbush/sbush.c`) is one.
--
-- The files, with the source that each is about:
--   Prelude         shared types and lemmas: lists, tests, words of 64 bits, `|` on flags
--   Chain           linked lists through a table of links, for the free list and the task list
--   Frames          sys/page.c, and fetch_free_page, ScaleDown and ScaleUp of sys/virmem.c
--     Alloc, Free   what an allocation takes, and what becomes of a freed frame
--     Boot          create_page_list of sys/virmem.c; Append and FreeList: the list that it makes
--   VirMem          the page tables of sys/virmem.c: get_pte_entry, get_mapping, set_mapping
--     Table         one level, create_dir_table; Mapping: the four levels together, and what they write
--     Fresh         a region of which the top table has no entry yet
--     Present       a mapping that is set while its tables are there, and the tables that stay
--   Memory          sys/memset.c on the memory by bytes; Bytes: a copy byte by byte
--   PageFault       sys/pagefault.c: the handler; ZeroFill, Cow, Copied and Segv: its cases
--   Proc            include/sys/process.h and proc_mngr.h: the blocks and the globals
--     FreeLists     the free blocks of pcb_arr and vma_arr: Laws, and Areas for those of vma_arr
--     Lifecycle     fetch_free_pcb, clear_pcb, wait_for_child, sys_exit, sleep, timer_int (sys/pit.c); its
--                   theorems in Create, Reap, Wait, Children, Exit and Tick
--     TaskList      add_to_task_list, wake_up_task, fetch_ready_task, schedule; Rota and Refine: the
--                   list that turns, and the scheduler as a refinement of it
--     Fork          fork_process of sys/process.c; Share: one page, Areas and Loop: the copied areas
--   Elf             sys/elf.c: the areas, pages and bytes of a program
--   Exec            sys_execvpe of sys/process.c; Written, Strings and Stack: the arguments on the stack
--   Text            sys/strings.c
--     Split         split_and_count; Rows, the array; Words: the words of a line
--   Syscalls        sys/syscalls.c; Output, what the calls print; Files, a file opened and read by calls
--   Shell           bin/sbush/sbush.c; Script: the lines of a script
--   Malloc          libc/malloc.c; Ring: a block taken and given back
--   Env             libc/env.c; Update: getenv after setenv
--   Tarfs           sys/tarfs.c: Walk, the headers; Files, the descriptors; Files/Reads and
--                   Files/Opening, reading and opening; Path, path_sanitize (Rounds and
--                   Parent: a path that ends in ".."); Calls, the calls from the caller's name on
--   Terminal        sys/terminal.c; Lines: what is typed is what is read; Keyboard: sys/keyboard_intr.c
--   Kprintf         sys/kprintf.c: Num and Printed, the conversion of numbers; Status, the last line
--
-- State is a record of the globals, passed along. Kernel memory is a function from addresses to words of
-- 64 bits, so a page table, a `struct page` and a free frame are seen through the same memory; where a
-- theorem needs that two writes do not meet, it follows from where the free list and the array of
-- `struct page`s lie, or it is a condition that the theorem states. Address arithmetic wraps around at 2 ^ 64,
-- and an index that is converted to `int` is written with its sign extension. The `int`s of the file
-- system are their 32 bits. Pointers to the blocks of an array are indices, NULL is `none`.
--
-- The loops along the task list take as fuel one round for each of the 1000 blocks and one more, those
-- along the memory areas one for each of the 5000; on a list without repetitions that is enough, which
-- is part of what the theorems about them state. A walk over the archive gets a round for each byte
-- that is left of it, and with sound size fields every header is 512 bytes or more ahead (a size of
-- -512 is a walk without end); a number below 2 ^ 64 has at most 64 digits. `remove_d` moves on in the path in every round but one at its end, so that two rounds
-- more than the length are enough; a segment of a program gets a round for each of its bytes. The ring
-- of `malloc` is walked for as many rounds as the caller gives; two are enough for the theorem about
-- it. The other loops are structural, or count the rounds that the source counts.
--
-- Not modelled: assembly (the context switch, the interrupt stubs), devices (`sys/ahci.c`,
-- `sys/pci.c`, the descriptor tables), which are port and memory mapped I/O, the test tasks of
-- `sys/task.c`, the user programs under `bin` other than the shell, and `printf` and `execvp` of
-- `libc`. A page fault inside the kernel, while the fault handler, the program loader or a system
-- call writes to a page of the user, is not followed: the memory written to is taken as mapped. Where
-- the memory and process managers print, the text goes to a log.
mod Prelude
pub mod Chain
pub mod Frames
pub mod Proc
pub mod VirMem
pub mod Text
pub mod Kprintf
pub mod Env
pub mod PageFault
pub mod Tarfs
pub mod Terminal
pub mod Memory
pub mod Elf
pub mod Exec
pub mod Syscalls
pub mod Shell
pub mod Malloc
