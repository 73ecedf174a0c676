-- ===== src/Tests/Boots.antt =====
-- src/kernel.cpp on a board whose page tables and interrupts are set up already.
use kehinde_kernel.Prelude.{ℕ, zero, suc, ◌≤◌, ◌<◌, length, ◌≡◌, refl, arith, List, [], ◌∷◌}
use kehinde_kernel.Run.{Run, ok, panic, fault, out_of_fuel}
use kehinde_kernel.Run.Ends.{Ends}
use kehinde_kernel.Board.{board_pi3, board_pi5}
use kehinde_kernel.Uart.{Bus, uart_puts, uart_putc, wait_while, spin_while, mmio_write}
use kehinde_kernel.Heap.{Heap, kmalloc, kheap_init, align_up, back_until, back_page}
use kehinde_kernel.Mmu as Mmu
use kehinde_kernel.Mmu.{
  translate, finish_edit, map_pages, map_page, enter_l2, get_or_alloc_table, write_page,
}
use kehinde_kernel.Pmm.{alloc_frame, hand_out, alloc_scan}
use kehinde_kernel.Bits.Single.{ctz}
use kehinde_kernel.Timer.{Timer}
use kehinde_kernel.Filesystem.{null_next, fs_init}
use kehinde_kernel.Shell.{Shell}
use kehinde_kernel.Shell.Loop.{Next, running, shell_run}
use kehinde_kernel.Shell.Safety.{StaysValid}
use kehinde_kernel.Kernel.{
  Platform, platform_pi3, platform_pi5, kernel_main, console, reach, is_mapped,
}
use kehinde_kernel.Mmu.Init.{mmu_init_pi3, mmu_init_pi5}
use kehinde_kernel.Kernel.Access.{Sound}
use kehinde_kernel.Kernel.Memory.{NoFrames, HasMemory, kernel_main-HasMemory}
use kehinde_kernel.Kernel.Boot.{kernel_main-shell_run}
use kehinde_kernel.Tests.Files.{dirty}

abbrev zeros : ℕ → List ℕ
zeros zero = []
zeros (suc n) = 0 ∷ zeros n

abbrev idle : Bus
idle = record { answers = λ _. zeros 200; writes = [] }

abbrev platform : Platform
platform = record {
  board = board_pi3;
  uart_init = λ bus. bus;
  mmu_init = ok;
  interrupt_init = ok;
  interrupt_registers = [];
}

abbrev memory : Heap
memory = record {
  bump_ptr = 0;
  heap_end = 0;
  mmu = record {
    pmm = record {
      bitmap_addr = 0xF_0000;
      bitmap = λ _. 0;
      phys_mem_start = 0x10_0000;
      total_frames = 64;
    };
    mem = λ _. 0x10_0003;
    l1_table = 0x9000_0000;
    events = [];
  };
}

abbrev clock : Timer
clock = record { time = 0; freq = 0; sysregs = [] }

abbrev no_shell : Shell Heap
no_shell = record {
  fs = record { heap = memory; next_ino = 0; inodes = [] };
  timer = clock;
  bus = idle;
  cwd_ino = 0;
  cwd_path = [];
}

abbrev state_of : Run (Shell Heap) → Shell Heap
state_of (ok sh) = sh
state_of panic = no_shell
state_of fault = no_shell
state_of out_of_fuel = no_shell

unfoldable booted : Shell Heap
booted = state_of (kernel_main platform 62500000 idle memory clock)

boots : kernel_main platform 62500000 idle memory clock ≡ ok booted
unfolding booted kernel_main console reach is_mapped translate uart_puts uart_putc wait_while
    spin_while mmio_write board_pi3 fs_init kmalloc kheap_init align_up back_until back_page
    alloc_frame hand_out alloc_scan ctz Mmu.map finish_edit map_pages map_page enter_l2
    get_or_alloc_table write_page
boots = refl

kernel_main-shell_run_example :
    Ends
      (Unit {0})
      ((k : ℕ) × (k < 2)
        × (sh' : Shell Heap) × (shell_run board_pi3 kmalloc
              (null_next dirty)
              (λ _. 0)
              (record { inode_id = 0; name = [] })
              k
              booted
            ≡ ok (running sh'))
        × (256 ≤ length sh'.cwd_path))
      (λ (next : Next Heap). StaysValid next)
      (shell_run board_pi3 kmalloc
        (null_next dirty)
        (λ _. 0)
        (record { inode_id = 0; name = [] })
        2
        booted)
kernel_main-shell_run_example =
    kernel_main-shell_run platform 62500000 idle memory clock booted dirty (λ _. 0)
      (record { inode_id = 0; name = [] }) 2 (omega arith) (omega arith) boots

kernel_main-HasMemory_example :
    Sound
      (NoFrames (mmu_init_pi3 0x10_0000 (λ _. 0) 0 memory.mmu) memory)
      (λ (sh : Shell Heap).
        HasMemory board_pi3 0x0100_0000 0x0000_1000
          (mmu_init_pi3 0x10_0000 (λ _. 0) 0 memory.mmu)
          sh.fs.heap)
      (kernel_main (platform_pi3 0x10_0000 (λ _. 0) 0) 62500000 idle memory clock)
    × Sound
        (NoFrames (mmu_init_pi5 0x10_0000 (λ _. 0) 0 memory.mmu) memory)
        (λ (sh : Shell Heap).
          HasMemory board_pi5 0x41_0000 0x8000
            (mmu_init_pi5 0x10_0000 (λ _. 0) 0 memory.mmu)
            sh.fs.heap)
        (kernel_main (platform_pi5 0x10_0000 (λ _. 0) 0) 62500000 idle memory clock)
kernel_main-HasMemory_example =
    kernel_main-HasMemory 0x10_0000 (λ _. 0) 0 62500000 idle memory clock (omega arith, omega arith)
      (omega arith) (λ i. omega arith)
