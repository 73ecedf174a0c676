-- ===== src/Interrupts/Pi3.antt =====
-- The board code of src/interrupts/interrupts_pi3.cpp.
use kehinde_kernel.Prelude.{ℕ, ◌+◌, ◌==◌, if◌then◌else◌, [], ◌∷◌}
use kehinde_kernel.Bits.{bit_and, bit}
use kehinde_kernel.Run.{Run, ok, ◌>>=◌}
use kehinde_kernel.Uart.{Bus, mmio_read, write_all}
use kehinde_kernel.Timer.{Timer}
use kehinde_kernel.Interrupts.{tick}

-- Registers of the interrupt controllers.
abbrev pub irq_base : ℕ
irq_base = 0x3F00_B000

abbrev pub irq_p2 : ℕ
irq_p2 = irq_base + 0x208

abbrev pub irq_en2 : ℕ
irq_en2 = irq_base + 0x214

abbrev pub irq_ben : ℕ
irq_ben = irq_base + 0x218

abbrev pub irq_1ds : ℕ
irq_1ds = irq_base + 0x21C

abbrev pub irq_2ds : ℕ
irq_2ds = irq_base + 0x220

abbrev pub irq_bds : ℕ
irq_bds = irq_base + 0x224

abbrev pub irq_en_c0 : ℕ
irq_en_c0 = 0x4000_0040

abbrev pub irq_c0_source : ℕ
irq_c0_source = 0x4000_0060

-- `interrupt_init` of interrupts_pi3.cpp.
unfoldable pub interrupt_init : Bus → Bus
interrupt_init = write_all (
    (irq_1ds, 0xFFFF_FFFF)
    ∷ (irq_2ds, 0xFFFF_FFFF)
    ∷ (irq_bds, 0xFFFF_FFFF)
    ∷ (irq_ben, bit 0)
    ∷ (irq_en_c0, bit 1)
    ∷ (irq_en2, bit 25)
    ∷ [])

-- `handle_interrupt_requests` of interrupts_pi3.cpp; `uart_handle_irq` is that of the board.
unfoldable pub handle_interrupt_requests : (Bus → Run Bus) → Timer → Bus → Run (Timer × Bus)
handle_interrupt_requests uart_handle_irq t bus = do
  (irq_pend_status, bus1) ← mmio_read irq_c0_source bus
  (pending2, bus2) ← mmio_read irq_p2 bus1
  bus3 ← (if bit_and pending2 (bit 25) == 0 then ok bus2 else uart_handle_irq bus2)
  ok (if bit_and irq_pend_status (bit 1) == 0 then t else tick t, bus3)
