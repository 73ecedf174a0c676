-- ===== src/Uart/Pi3.antt =====
-- The board code of src/uart/uart_pi3.cpp.
use kehinde_kernel.Prelude.{[], ◌∷◌}
use kehinde_kernel.Bits.{bit_or, bit}
use kehinde_kernel.Board.{
  Board, uart0_ibrd, uart0_fbrd, uart0_lcrh, uart0_cr, uart0_imsc, uart0_icr, gppud, gppudclk0,
}
use kehinde_kernel.Uart.{Bus, mmio_write, write_all}

unfoldable pub uart_init : Board → Bus → Bus
uart_init board = write_all (
    (uart0_cr board, 0)
    ∷ (gppud, 0)
    ∷ (gppudclk0, bit_or (bit 14) (bit 15))
    ∷ (gppudclk0, 0)
    ∷ (uart0_icr board, 0x7FF)
    ∷ (uart0_ibrd board, 1)
    ∷ (uart0_fbrd board, 40)
    ∷ (uart0_lcrh board, bit_or (bit_or (bit 4) (bit 5)) (bit 6))
    ∷ (
      uart0_imsc board,
      bit_or (bit_or (bit_or (bit_or (bit_or (bit 4) (bit 6)) (bit 7)) (bit 8)) (bit 9)) (bit 10),
    )
    ∷ (uart0_cr board, bit_or (bit_or (bit 0) (bit 8)) (bit 9))
    ∷ [])

-- `uart_handle_irq` of uart_pi3.cpp.
unfoldable pub uart_handle_irq : Board → Bus → Bus
uart_handle_irq board bus = mmio_write (uart0_icr board) 0x7FF bus
