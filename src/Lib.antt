-- ===== src/Lib.antt =====
-- A model of parts of ORE-UNIX, a small Unix-like kernel for 32-bit x86 in C, with the theorems that
-- hold of it.
--
-- The program's parts: mm/pmm.c hands out physical pages; mm/kmalloc.c is the kernel's heap on top of
-- a fixed region of addresses; mm/vmm.c has the page tables and the address spaces; fs/pipe.c is a
-- circular buffer between tasks, whose calls sleep and are woken through the wait queues of
-- kernel/process.c; fs/vfs.c has the tree of names, the open files and the descriptors, and
-- fs/ramfs.c keeps files and directories in memory; kernel/process.c has the pids, the life of a
-- task, the round-robin scheduler and the signals; kernel/elf.c loads programs; boot/gdt_idt.c has the
-- interrupt tables, through which drivers/keyboard.c (with the text console), drivers/serial.c and
-- drivers/timer.c are called; drivers/ata.c is the disk and drivers/dev.c the device numbers.
--
-- Which file models which part:
--   Mm/Pmm     mm/pmm.c. `Pmm` holds the bitmap and the two counters. A `u32` of the bitmap is the
--              list of its 32 bits. `Mm/Pmm/Init` has `pmm_init`, over the list of the memory map's
--              entries. `Mm/Pmm/Flat` views the bitmap as one list of bits.
--   Mm/Heap    mm/kmalloc.c without the slab caches. `Heap` holds the block list in address order
--              and the two bounds of `heap_sbrk`.
--   Mm/Vmm     mm/vmm.c, the page tables: `Machine` is the page allocator with the physical memory,
--              as a function from word numbers to words; an access beyond the 4 MB that the kernel
--              has mapped is recorded as a fault. `Mm/Vmm/Entry` views the tables of a directory as
--              a map from addresses to entries.
--   Mm/Pgdir   mm/vmm.c, `paging_init` and the page directories; the static `kernel_pgdir` is an
--              argument.
--   Mm/Mmap    mm/vmm.c, `struct mm_struct`, its areas, and the page fault handler.
--   Fs/Pipe    fs/pipe.c. `Pipe` is `struct pipe_inode_info`; one pass of a loop of `pipe_read` or
--              `pipe_write`, which runs under the lock, is one function, and a call takes the list
--              of what other tasks do between its passes.
--   Fs/Files   fs/vfs.c and kernel/process.c, open files and descriptors. `Refs` has the reference
--              counts and the files given back, `Table` is the array of a `files_struct`. What
--              `vfs_open` and `vfs_pipe` return is an argument.
--   Fs/Path    fs/vfs.c, the components of a path, as the steps to a parent or a child that
--              `vfs_lookup` takes for them, and `vfs_lookup_parent`. A path is a list of characters;
--              the directory that is found stands as the path that is looked up.
--   Fs/Tree    fs/vfs.c and fs/ramfs.c, dentries and inodes with their reference counts, known by
--              numbers in place of addresses, and the calls that change or read a directory, from
--              where the parent has been found. `Fs/Tree/Names` views a directory as its names.
--   Fs/Access  fs/vfs.c, the tests of `vfs_read` and `vfs_write`, and `vfs_lseek`.
--   Fs/Ramfs   fs/ramfs.c, the calls on a regular file. `File` holds the data, the inode's size and the
--              open file's position; whether `krealloc` finds memory is an argument.
--   Kernel     kernel/process.c. `Kernel` holds the static variables and the table of tasks, known
--              by numbers in place of addresses. `Kernel/Sched` has the run queue and the wait
--              queues, `Kernel/Signal` the signals, `Kernel/Pid` the pids. `schedule` ends before
--              the context switch: its effect is the task that is current.
--   Kernel/Process  kernel/process.c, `task_create`, `sys_fork`, `sys_exit`, `sys_waitpid` and
--              `task_destroy`. `Processes` adds parents, children and what a task holds; what the
--              allocators find for a child is an argument.
--   Kernel/Elf  kernel/elf.c, the tests and the segments of a program; what a segment's copies
--              write, through the page tables, is a list of addresses with positions in the file.
--              The loop runs on as many passes as there are bytes.
--   Kernel/Cred  kernel/syscall.c, the calls on the ids, the credentials and the umask of a task.
--   Kernel/Initrd  kernel/kmain.c, the archive of the initial RAM disk. Memory is a function from
--              addresses to bytes; what is asked of the file system is a list of actions. The loop
--              runs on a number of passes. `Kernel/Initrd/Members` says what an archive's entries
--              are and what is to be made of them.
--   Boot       boot/gdt_idt.c, the descriptor tables as lists, the interrupt controllers' masks and
--              the handlers of the lines; writes to ports are a list.
--   Drivers/Ata  drivers/ata.c. The drive is a parameter: what a port gives when it is read, and
--              the content of the sectors, by what the medium is asked for. A file position is in bytes
--              of the disk, seen as one array.
--   Drivers/Serial, Drivers/Timer, Drivers/Dev  drivers/serial.c, drivers/timer.c and drivers/dev.c:
--              the line buffer, the tick counter, the registry of device numbers.
--   Drivers    drivers/keyboard.c. `Vga` holds the screen and the cursor, `Keyboard` the modifiers and
--              the characters typed; the handler's calls of `sys_kill` and `wake_up` are an effect
--              that it returns.
--   Common     Boolean tests, arrays with native indices, 32-bit arithmetic and the macros of
--              kernel/kernel.h, signed integers, error codes, circular buffers, intrusive lists
--              (`Common/Queue`: a list is the sequence of its nodes' owners, and linking a linked
--              node is a failure).
-- Each component's `Tests` module has the theorems at concrete inputs and runs of the code.
--
-- Numbers are natural numbers; `add32` and `sub32` wrap at 2 ^ 32. Functions that run under a
-- spinlock with interrupts off are one step. A loop that tests an address runs on fuel: 2 ^ 20 + 1
-- rounds in mm/pmm.c, which is more than the number of pages in the address space, and two rounds of
-- `kmalloc`, since the block that an extension appends is large enough for the request. The theorems
-- show that this fuel is enough.
--
-- Not modelled: boot/boot.S and the loading of tables and registers (assembly), the loading of
-- CR3 and the saved registers of a task; of fs/vfs.c the walk over the dentries, `vfs_open`,
-- mounting and `stat`; of fs/ramfs.c the mount, owners and times; fs/procfs.c (text of counters);
-- of the ELF loader the mapping of pages and the user stack; the other system calls; the nodes in
-- /dev; of mm/kmalloc.c the slab caches and the functions on top of `kmalloc`; of fs/pipe.c the
-- allocation of inodes and files in `vfs_pipe`.
pub mod Common
pub mod Mm
pub mod Fs
pub mod Kernel
pub mod Drivers
pub mod Boot
