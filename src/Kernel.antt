-- ===== src/Kernel.antt =====
-- `kernel_main` of src/kernel.cpp, up to the call of `shell_run`.
pub mod Boot
pub mod Access
pub mod Memory
use kehinde_kernel.Prelude.{ℕ, Bool, not, ◌==◌, if◌then◌else◌, List, [], ◌∷◌}
use kehinde_kernel.Prelude.Codes.{codes}
use kehinde_kernel.Bits.{all_ones}
use kehinde_kernel.Run.{Run, ok, fault, ◌>>=◌}
use kehinde_kernel.Board.{uart0_fr, uart0_dr, Board, board_pi3, board_pi5}
use kehinde_kernel.Mmu.{Mmu, translate}
use kehinde_kernel.Mmu.Init.{mmu_init_pi3, mmu_init_pi5}
use kehinde_kernel.Heap.{Heap, kheap_init, kmalloc}
use kehinde_kernel.Filesystem.{Fs, fs_init, root_ino}
use kehinde_kernel.Uart.{Bus, uart_puts}
use kehinde_kernel.Uart.Pi3 as UartPi3
use kehinde_kernel.Uart.Pi5 as UartPi5
use kehinde_kernel.Interrupts.Pi3 as InterruptsPi3
use kehinde_kernel.Interrupts.Pi3.{irq_1ds, irq_2ds, irq_bds, irq_ben, irq_en_c0, irq_en2}
use kehinde_kernel.Interrupts.Pi5 as InterruptsPi5
use kehinde_kernel.Interrupts.Pi5.{gicd_ctlr, gicd_isenabler0, gicc_pmr, gicc_ctlr}
use kehinde_kernel.Timer.{Timer, timer_init}
use kehinde_kernel.Shell.{Shell}

-- The functions of which each board links its own, and the registers that `interrupt_init` accesses.
pub record Platform : Type 0 where
  pub board : Board
  pub uart_init : Bus → Bus
  pub mmu_init : Mmu → Run Mmu
  pub interrupt_init : Bus → Run Bus
  pub interrupt_registers : List ℕ

unfoldable pub platform_pi3 : ℕ → (ℕ → ℕ) → ℕ → Platform
platform_pi3 kernel_end memory sctlr = record {
  board = board_pi3;
  uart_init = UartPi3.uart_init board_pi3;
  mmu_init = mmu_init_pi3 kernel_end memory sctlr;
  interrupt_init = λ bus. ok (InterruptsPi3.interrupt_init bus);
  interrupt_registers = irq_1ds ∷ irq_2ds ∷ irq_bds ∷ irq_ben ∷ irq_en_c0 ∷ irq_en2 ∷ [];
}

unfoldable pub platform_pi5 : ℕ → (ℕ → ℕ) → ℕ → Platform
platform_pi5 kernel_end memory sctlr = record {
  board = board_pi5;
  uart_init = UartPi5.uart_init board_pi5;
  mmu_init = mmu_init_pi5 kernel_end memory sctlr;
  interrupt_init = InterruptsPi5.interrupt_init;
  interrupt_registers = gicd_ctlr ∷ gicd_isenabler0 ∷ gicc_pmr ∷ gicc_ctlr ∷ [];
}

-- With the MMU on, an address without a translation is a fault.
unfoldable pub is_mapped : Mmu → ℕ → Bool
is_mapped mmu virt = not (translate mmu virt == all_ones)

unfoldable pub reach : List ℕ → Mmu → Run (Unit {0})
reach [] mmu = ok tt
reach (virt ∷ rest) mmu = let later = reach rest mmu in if is_mapped mmu virt then later else fault

-- `uart_puts` with the MMU on, through the registers that `uart_putc` accesses.
unfoldable pub console : Board → Mmu → List ℕ → Bus → Run Bus
console board mmu s bus =
    reach (uart0_fr board ∷ uart0_dr board ∷ []) mmu >>= λ _. uart_puts board s bus

-- `kernel_main`, of the value of `CNTFRQ_EL0`: the state in which it calls `shell_run`.
unfoldable pub kernel_main : Platform → ℕ → Bus → Heap → Timer → Run (Shell Heap)
kernel_main p cntfrq bus heap timer = do
  bus1 ← uart_puts p.board (codes "UART successfully initialized.\r\n") (p.uart_init bus)
  mmu ← p.mmu_init heap.mmu
  bus2 ← console p.board mmu (codes "Page Frame Allocator and MMU initialized.\r\n") bus1
  let heap1 = kheap_init (record heap { mmu = mmu })
  bus3 ← console p.board mmu (codes "Heap allocator initialized.\r\n") bus2
  fs ← fs_init (λ h virt. is_mapped h.mmu virt) kmalloc heap1
  bus4 ← console p.board fs.heap.mmu (codes "fs_init done.\r\n") bus3
  bus5 ← reach p.interrupt_registers fs.heap.mmu >>= λ _. p.interrupt_init bus4
  ok (record {
    fs = fs;
    timer = timer_init cntfrq timer;
    bus = bus5;
    cwd_ino = root_ino;
    cwd_path = b'/' ∷ [];
  })
