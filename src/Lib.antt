-- ===== src/Lib.antt =====
-- Zythos, a small 32-bit x86 operating system in C. This library models the parts of it that keep
-- state of their own, and proves what they promise to the others.
--
-- The parts and the files that model them:
--
-- * Memory, mm/. `Mm` has the block header of mm/mm_private.h (`Block`), the memory of a heap and
--   mm/blocks.c. `Mm.Heap` is mm/heap.c and `Mm.Malloc` is mm/malloc.c, each with `mem_init`, `kmalloc`
--   and `kfree` by the names of the code; `Mm.Malloc` has `krealloc` too, in the pieces `shrink`, `grow`,
--   `absorb_next` and `relocate`. A heap is a store from addresses to headers, and the payload bytes
--   are kept apart from it, so a program that writes outside its own block is not modelled. What the
--   code does to the headers is compared with what `Mm.Cells` does to a plain list of blocks.
-- * Input, input/. `Input.Keycodes` and `Input.MoreKeycodes` are the enumeration of input/keycodes.h,
--   `Input.Set1` has the scan code tables, `Input.Layouts` the four layout tables, `Input.Keymap` and
--   `Input.Legacy` the functions of input/keymap.c, and `Input.Keyboard` those of input/keyboard.c.
--   `Input.Flags` has the bit operations on the modifier word. A character is its code point.
-- * Keys for programs, kernel/. `Kernel.KbdBuffer` is kernel/kbd_buffer.c, and `Kernel.KeyboardIrq` is
--   the interrupt handler of kernel/keyboard_irq.c with `sys_read` of kernel/syscall.c: a byte from
--   the keyboard goes through `keyboard_handle_set1_scancode` into the buffer, and `sys_read` takes it
--   out. The bytes that arrive while `sys_read` yields are a list for each yield. A `char` is the value
--   of its byte, and the port writes are recorded.
-- * Ports, kernel/ and net/. `Ports` is the history of port accesses, on which the answers of the hardware
--   depend. `Kernel.Pic` is the set-up and the masks of kernel/pic.c, and `Net.Ne2000` is net/ne2000.c,
--   whose functions are a card for `Net.Network`: values are truncated to 8 bits where they are written, and
--   what stands in the buffer that `ne2000_recv` is given is a parameter, since it writes nothing there.
-- * Files, kernel/. `Kernel.Vfs` is the table of nodes of kernel/vfs.c with the inline functions of
--   kernel/include/vfs.h. A node's driver is a parameter.
-- * File system, fs/. `Fs` is fs/fat32/core.c with the boot sector of include/fs/fat32.h. The devices are a
--   parameter.
-- * Programs, drivers/ and kernel/. `Drivers.Elf` and `Drivers.Loader` are drivers/elf.h and
--   drivers/loader.c: `elf_load` checks an image in memory, copies its segments to their addresses and
--   fills the rest of each with 0s; the memory is a function from addresses to bytes, pointers wrap around
--   at 32 bits, and a program header is read again after the copy, as in the code. `Kernel.Boot` has
--   its two callers, `boot_init` of kernel/main.c, which reads the image through `Kernel.Vfs`, and
--   `sys_exec` of userland/syscall.c. The heap and the reader of FAT32 files are parameters there.
-- * Kernel objects, drivers/hfs/. `Drivers.Hfs` is drivers/hfs/hfs.c and drivers/hfs/hfs_register.c: the
--   nodes are a store from addresses, and a pointer to nothing ends the run without a result. The field
--   `data` is called `value`. `Drivers.Hfs.Forest` says what it means that the lists of children are right,
--   and `Drivers.Hfs.Climbs` that there is no cycle. The heap is that of `Mm.Calls`, with the laws
--   `IsAllocator`, and `Mm.Heap.Serves` shows that mm/heap.c keeps them.
-- * Tasks, init/. `Init.Sched` is the scheduler of init/init_sched.c: `sys_yield`, `sys_sleep` and
--   `sys_task_exit` on the chain of tasks. The switch of the stacks is assembly and is left out.
--   `Init.Sched.Create` has `sys_create_task` and `sys_query_task` on a heap that is a parameter
--   (`Mm.Calls`). `Init.Watchdog` is the supervisor of init/init.c and init/initlib.c, on the functions
--   that init/include/sys_call.h declares: `Init.Calls` has these as an interface with the laws that
--   the supervisor relies on, and the scheduler fills it.
-- * Connections, net/. `Net.Network` is net/network.c above a card that is a parameter, and `Net.Tcp` is
--   net/tcp.c: segments are lists of bytes, and what stands on the stack behind a received frame is an
--   argument of `tcp_recv`.
-- * The shell, userland/. `Userland.Register` is the table of commands of userland/register.c, and
--   `Userland.Zsh` is userland/zsh.c: the tokenizer, the environment, the commands, the dispatch and
--   the loop of `main` over the lines that are read. What it executes is returned as a value.
--   `Userland.Pkg` is the database of userland/pkg.c, with `pkg_remove` and `pkg_list`, in a file of
--   `Kernel.Vfs`.
-- * Panic and `kill`. `Core` is core/panic.c, whose result is the text on the serial line, and `Kernel.Kill`
--   is the command of kernel/kill.c on a system call that is a parameter.
--
-- `Base` has what these share: C's tests on unsigned numbers, 32-bit addition, lists as arrays, the loops
-- over bytes and strings that several files have a copy of, chains of results that may be missing, and
-- tests run on every number of a range. A string is the list of its bytes before the 0 that ends it.
--
-- Numbers are natural numbers. `uint32_t` and `size_t` (32 bits, since the system is built with -m32) wrap
-- where the code can reach the bound: the sums of `mm_align_size` and of `krealloc`, the ticks of the
-- scheduler, the indices of the buffer, the bounds of segments and reads, and the numbers of a
-- connection. The loops over blocks have 2^16 rounds (`max_rounds`): the larger heap has 262144 bytes and
-- each block takes at least the 12 of its header, so a walk over at most 21845 blocks ends within them. The
-- walks over the children of a node have as many, and the waiting loops of net/ne2000.c count down from
-- the number of the code.
-- The loop over program headers has 2^16 rounds too (`max_segments`): its index has 16 bits and is below
-- the number of headers, which has 16 bits. The other loops go over lists or count down.
--
-- Not modelled: the start-up code and `main` of the kernel, which print lines and wait; the task table
-- of init/init_proc.c, whose function init/init_sched.c defines too; the installation of packages in
-- userland/pkg.c; the driver net/e1000.c, whose registers and helpers are not in the repository; and the
-- rest of core/: a greeting on a scheduler that is not there, a restart and a shutdown. The assembly, the
-- headers from elsewhere below include/ and the texts for the screen are no subject of this library.
pub mod Base
pub mod Core
pub mod Drivers
pub mod Fs
pub mod Init
pub mod Input
pub mod Kernel
pub mod Mm
pub mod Net
pub mod Ports
pub mod Userland
