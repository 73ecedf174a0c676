-- ===== src/Board.antt =====
-- The addresses that the two boards fix, include/board.h.
use kehinde_kernel.Prelude.{ℕ, ◌+◌, ◌-◌}

-- What the drivers share; the registers of the UART stand at fixed offsets from its base.
pub record Board : Type 0 where
  pub peripheral_base : ℕ
  pub local_peripheral_base : ℕ
  pub uart0_base : ℕ

unfoldable pub board_pi3 : Board
board_pi3 = record {
  peripheral_base = 0x3F00_0000;
  local_peripheral_base = 0x4000_0000;
  uart0_base = 0x3F20_1000;
}

unfoldable pub board_pi5 : Board
board_pi5 = record {
  peripheral_base = 0x1C_0000_0000;
  local_peripheral_base = 0x10_7FFF_8000;
  uart0_base = 0x1C_0000_0000 + 0x30000;
}

abbrev pub uart0_dr : Board → ℕ
uart0_dr b = b.uart0_base + 0x00

abbrev pub uart0_fr : Board → ℕ
uart0_fr b = b.uart0_base + 0x18

abbrev pub uart0_ibrd : Board → ℕ
uart0_ibrd b = b.uart0_base + 0x24

abbrev pub uart0_fbrd : Board → ℕ
uart0_fbrd b = b.uart0_base + 0x28

abbrev pub uart0_lcrh : Board → ℕ
uart0_lcrh b = b.uart0_base + 0x2C

abbrev pub uart0_cr : Board → ℕ
uart0_cr b = b.uart0_base + 0x30

abbrev pub uart0_imsc : Board → ℕ
uart0_imsc b = b.uart0_base + 0x38

abbrev pub uart0_icr : Board → ℕ
uart0_icr b = b.uart0_base + 0x44

-- Registers of the Pi 3.
abbrev pub gppud : ℕ
gppud = 0x3F20_0000 + 0x94

abbrev pub gppudclk0 : ℕ
gppudclk0 = 0x3F20_0000 + 0x98

-- Registers of the Pi 5.
abbrev pub gicd_base : ℕ
gicd_base = 0x10_7FFF_8000 + 0x1000

abbrev pub gicc_base : ℕ
gicc_base = 0x10_7FFF_8000 + 0x2000

abbrev pub io_bank0_base : ℕ
io_bank0_base = 0x1C_0000_0000 + (0x400d_0000 - 0x4000_0000)

abbrev pub pads_bank_base : ℕ
pads_bank_base = 0x1C_0000_0000 + (0x400f_0000 - 0x4000_0000)

abbrev pub clk_uart_ctrl : ℕ
clk_uart_ctrl = 0x1C_0000_0000 + (0x4001_8000 - 0x4000_0000) + 0x00054

abbrev pub clk_uart_div_int : ℕ
clk_uart_div_int = 0x1C_0000_0000 + (0x4001_8000 - 0x4000_0000) + 0x00058
