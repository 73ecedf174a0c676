-- ===== src/Lib.antt =====
-- A model of kehinde-kernel, a bare-metal AArch64 kernel for the Raspberry Pi 3 and 5, and what is
-- proved of it.
--
-- The parts, from the bottom up. The physical memory manager (src/pmm/pmm.cpp) hands out 4 KiB
-- frames from a bitmap. The page tables (src/mmu/) take frames from it for their levels. The heap
-- (src/heap_alloc/heap_alloc.cpp) is a bump allocator that takes a frame for each page it grows by
-- and maps it. The file system (src/filesystem/filesystem.cpp) keeps inodes, blocks and directory
-- entries in heap memory. The UART driver (src/uart/) prints, the timer (src/timer/timer.cpp)
-- counts ticks, and the interrupt handlers (src/interrupts/) call both. The shell
-- (src/shell/shell.cpp) reads lines from the UART and runs commands on the file system, and
-- kernel_main (src/kernel.cpp) brings the parts up in order and starts it.
--
-- Files and what they model:
--   Pmm            src/pmm/pmm.cpp, include/pmm.h: pmm_init, alloc_frame, free_frame, round_up
--   Mmu            src/mmu/mmu.cpp, include/mmu.h: map, unmap, translate and their helpers
--                  (below it the proofs: Tables, Fresh, Link for the tree of tables; Walk, Follow,
--                  Written, Translate for one page; Range, Mapping for map; Unmap, Dangling for
--                  unmap; Start, Identity, Regions for mmu_init; Reserve for frames of pages)
--   Mmu/Init       src/mmu/mmu_pi3.cpp, src/mmu/mmu_pi5.cpp: mmu_init
--   Heap           src/heap_alloc/heap_alloc.cpp: kheap_init, kmalloc (Backing, Rounds,
--                  Isolation show what lies behind its pages, Sequence a run of calls)
--   Filesystem     src/filesystem/filesystem.cpp, include/filesystem.h: the data, find_inode,
--                  dirent_at, append_block, fs_init; below it Runtime (strlen, memcpy), Names
--                  (name_matches, name_matches_single), Path (parse_path, fs_lookup; Components
--                  for paths written from names), Directory (fs_create, fs_unlink, fs_readdir),
--                  File (fs_read, fs_write, fs_stat), Invariant, and Links (the tree of names as
--                  a set of links; Resolve for lookups along it)
--   Board          include/board.h: addresses
--   Uart           src/uart/uart_pi3.cpp, src/uart/uart_pi5.cpp, include/uart.h
--   Timer          src/timer/timer.cpp
--   Interrupts     src/interrupts/interrupts_pi3.cpp, src/interrupts/interrupts_pi5.cpp (Counting
--                  and Serving for sequences of requests on each)
--   Shell          src/shell/shell.cpp: the state, seq, join_args, parse_args, resolve_path; below it
--                  Input (read_line), Commands (cmd_ls and the others), Loop (shell_run)
--   Kernel         src/kernel.cpp: kernel_main (Boot: the state of the shell; Access and
--                  Memory: the heap, the page tables and what is reached through them)
--   Prelude, Bits  shared helpers: lists over native numbers, words of 64 bits and their bits
--   Run            what a call comes to: a return, a halt in panic, a bad pointer, a loop that has
--                  used up its bound
--   Tests          the theorems at concrete inputs
--
-- The state of each part is a record that its functions take and return. Words of 64 bits are
-- natural numbers with the wrap-around written out. Pointer structures of the file system are
-- lists: the inodes behind inode_list_head, the blocks behind first_block; a null pointer is the
-- end of a list, and its use is the result fault. The file system takes its allocator as a
-- parameter and relies on one thing, that a call returns or panics, which is proved of kmalloc.
-- The memory that a new block holds is a parameter, what its next pointer leads to included, since
-- append_block does not set it; the theorems on writes and creations are about memory that is null
-- there, which `null_next` in their statements says. The theorems on creations also take the next
-- inode number and the size of the directory below the wrap-around at 2^64.
--
-- Bounds: the growing loop of fs_write gets two rounds more than the blocks of the new end, and the
-- theorems show that they suffice; the loop of kmalloc gets as many rounds as bytes are missing,
-- and each round adds a page; the digit buffers of the UART have their 20 entries. A device is the
-- list of its future answers, so a call that waits for ever runs out of them. The loops with an
-- `int` counter are taken below 2^31 rounds. The loops of `ls` and `cat` get one round more than the
-- size of the inode, which the theorems show to suffice; read_line gets one round more than bytes are
-- to come; the endless loop of shell_run is taken for any number of rounds.
--
-- A string of the shell is the list of its bytes before the terminator, and `char` is unsigned, as the
-- ABI of the target has it. The local buffers hold what a parameter says before they are written. A
-- string that does not fit into its buffer with the terminator is a fault.
--
-- A fault is a null pointer, a write behind a buffer, or, in kernel_main, an access to a register of
-- the console or of the interrupt controller or to the first inode through an address that the
-- page tables do not map.
--
-- Not modelled: the assembly of the boot and of the vector table, and the linker script. The other
-- accesses with the MMU on (instruction fetches, the stack, the page tables themselves, the blocks
-- and inodes behind the first, the console of the shell) do not go through the page tables. Where
-- blocks and inodes lie in memory is kept in their base fields, of which nothing is proved.
pub mod Prelude
pub mod Bits
pub mod Run
pub mod Board
pub mod Pmm
pub mod Mmu
pub mod Heap
pub mod Uart
pub mod Timer
pub mod Interrupts
pub mod Filesystem
pub mod Shell
pub mod Kernel
pub mod Tests
