-- ===== src/Interrupts/Pi5.antt =====
-- The board code of src/interrupts/interrupts_pi5.cpp.
use kehinde_kernel.Prelude.{ℕ, ◌+◌, ◌==◌, if◌then◌else◌, [], ◌∷◌}
use kehinde_kernel.Bits.{bit_and, bit_or, bit}
use kehinde_kernel.Run.{Run, ok, ◌>>=◌}
use kehinde_kernel.Board.{gicd_base, gicc_base}
use kehinde_kernel.Uart.{Bus, mmio_read, mmio_write, write_all}
use kehinde_kernel.Timer.{Timer}
use kehinde_kernel.Interrupts.{tick}

-- Registers of the GIC-400.
abbrev pub gicd_ctlr : ℕ
gicd_ctlr = gicd_base + 0x000

abbrev pub gicd_isenabler0 : ℕ
gicd_isenabler0 = gicd_base + 0x100

abbrev pub gicc_ctlr : ℕ
gicc_ctlr = gicc_base + 0x000

abbrev pub gicc_pmr : ℕ
gicc_pmr = gicc_base + 0x004

abbrev pub gicc_iar : ℕ
gicc_iar = gicc_base + 0x00C

abbrev pub gicc_eoir : ℕ
gicc_eoir = gicc_base + 0x010

-- `interrupt_init` of interrupts_pi5.cpp.
unfoldable pub interrupt_init : Bus → Run Bus
interrupt_init bus = do
  (enabled, bus1) ← mmio_read gicd_isenabler0 (mmio_write gicd_ctlr 0 bus)
  ok (
      write_all
        ((gicd_isenabler0, bit_or enabled (bit 30))
          ∷ (gicd_ctlr, 1)
          ∷ (gicc_pmr, 0xFF)
          ∷ (gicc_ctlr, 1)
          ∷ [])
        bus1)

-- `handle_interrupt_requests` of interrupts_pi5.cpp.
unfoldable pub handle_interrupt_requests : Timer → Bus → Run (Timer × Bus)
handle_interrupt_requests t bus = do
  (iar, bus1) ← mmio_read gicc_iar bus
  let int_id = bit_and iar 0x3FF
  ok (if int_id == 30 then tick t else t, mmio_write gicc_eoir iar bus1)
