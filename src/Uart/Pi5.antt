-- ===== src/Uart/Pi5.antt =====
-- The board code of src/uart/uart_pi5.cpp.
use kehinde_kernel.Prelude.{◌+◌, ◌*◌, ◌^◌, ◌==◌, if◌then◌else◌, [], ◌∷◌}
use kehinde_kernel.Bits.{bit_and, bit_or, bit}
use kehinde_kernel.Run.{Run, ok, ◌>>=◌}
use kehinde_kernel.Board.{
  Board, uart0_dr, uart0_ibrd, uart0_fbrd, uart0_lcrh, uart0_cr, uart0_imsc, uart0_icr,
  io_bank0_base, pads_bank_base, clk_uart_ctrl, clk_uart_div_int,
}
use kehinde_kernel.Uart.{Bus, mmio_read, mmio_write, uart_putc, write_all}

-- `uart_init` of uart_pi5.cpp.
unfoldable pub uart_init : Board → Bus → Bus
uart_init board = write_all (
    (uart0_cr board, 0)
    ∷ (clk_uart_div_int, 1)
    ∷ (clk_uart_ctrl, bit_or (bit_or (2 * 2 ^ 5) (bit 11)) (bit 0))
    ∷ (io_bank0_base + 0x074, 4)
    ∷ (io_bank0_base + 0x07C, 4)
    ∷ (pads_bank_base + 0x3C, 0x12)
    ∷ (pads_bank_base + 0x40, 0xD2)
    ∷ (uart0_icr board, 0x7FF)
    ∷ (uart0_ibrd board, 27)
    ∷ (uart0_fbrd board, 8)
    ∷ (uart0_lcrh board, bit_or (bit_or (bit 4) (bit 5)) (bit 6))
    ∷ (
      uart0_imsc board,
      bit_or
          (bit_or
            (bit_or (bit_or (bit_or (bit_or (bit_or (bit 1) (bit 4)) (bit 5)) (bit 6)) (bit 7))
              (bit 8))
            (bit 9))
          (bit 10),
    )
    ∷ (uart0_cr board, bit_or (bit_or (bit 0) (bit 8)) (bit 9))
    ∷ [])

-- `uart_handle_irq` of uart_pi5.cpp: `|` evaluates all four reads, in the order written here.
unfoldable pub uart_handle_irq : Board → Bus → Run Bus
uart_handle_irq board bus = do
  (r8, bus1) ← mmio_read (uart0_dr board) bus
  (r9, bus2) ← mmio_read (uart0_dr board) bus1
  (r10, bus3) ← mmio_read (uart0_dr board) bus2
  (r11, bus4) ← mmio_read (uart0_dr board) bus3
  if bit_or (bit_or (bit_or (bit_and r8 8) (bit_and r9 9)) (bit_and r10 10)) (bit_and r11 11) == 0
      then (do
        (r, bus5) ← mmio_read (uart0_dr board) bus4
        bus6 ← uart_putc board (bit_and r 0xFF) bus5
        ok (mmio_write (uart0_icr board) 0x7FF bus6))
      else ok bus4
