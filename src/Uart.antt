-- ===== src/Uart.antt =====
-- The PL011 driver, src/uart/uart_pi3.cpp, src/uart/uart_pi5.cpp and include/uart.h. The device
-- is the stream of the values that it will give to reads of each register, and the log of the
-- writes, the newest first. The calls that wait run out where the stream ends before the device is
-- ready. The functions behind `uart_init` and `uart_handle_irq` are the same for both boards.
pub mod Pi3
pub mod Pi5
pub mod Text
pub mod Output
use kehinde_kernel.Prelude.{
  ℕ, zero, suc, ◌+◌, ◌-◌, ◌*◌, ◌/◌, ◌%◌, ◌^◌, Bool, true, false, not, ◌==◌, ltb, if◌then◌else◌,
  update, get_or, length, List, [], ◌∷◌,
}
use kehinde_kernel.Bits.{bit_and, bit_or, bit}
use kehinde_kernel.Run.{Run, ok, fault, out_of_fuel, ◌>>=◌}
use kehinde_kernel.Board.{Board, uart0_dr, uart0_fr}

pub record Bus : Type 0 where
  pub answers : ℕ → List ℕ
  pub writes : List (ℕ × ℕ)

-- `mmio_write`.
unfoldable pub mmio_write : ℕ → ℕ → Bus → Bus
mmio_write reg value bus = record bus { writes = (reg, value % 2 ^ 32) ∷ bus.writes }

-- The next value of a register.
unfoldable pub next_answer : ℕ → Bus → List ℕ → Run (ℕ × Bus)
next_answer reg bus [] = out_of_fuel
next_answer reg bus (r ∷ rs) = ok (r, record bus { answers = update bus.answers reg rs })

-- `mmio_read`.
unfoldable pub mmio_read : ℕ → Bus → Run (ℕ × Bus)
mmio_read reg bus = next_answer reg bus (bus.answers reg)

-- `while (mmio_read(reg) & mask) { }` over the values to come: those that are left behind it.
unfoldable pub spin_while : ℕ → List ℕ → Run (List ℕ)
spin_while mask [] = out_of_fuel
spin_while mask (r ∷ rs) =
    let rest = spin_while mask rs in if bit_and r mask == 0 then ok rs else rest

unfoldable pub wait_while : ℕ → ℕ → Bus → Run Bus
wait_while reg mask bus = do
  rest ← spin_while mask (bus.answers reg)
  ok (record bus { answers = update bus.answers reg rest })

module _ (board : Board) where
  -- `uart_putc`.
  unfoldable pub uart_putc : ℕ → Bus → Run Bus
  uart_putc c bus = do
    bus' ← wait_while (uart0_fr board) (bit 5) bus
    ok (mmio_write (uart0_dr board) (c % 256) bus')

  -- `uart_getc`: the byte received.
  unfoldable pub uart_getc : Bus → Run (ℕ × Bus)
  uart_getc bus = do
    bus' ← wait_while (uart0_fr board) (bit 4) bus
    (r, bus'') ← mmio_read (uart0_dr board) bus'
    ok (r % 256, bus'')

  -- `uart_puts`, of the bytes before the terminator.
  unfoldable pub uart_puts : List ℕ → Bus → Run Bus
  uart_puts [] bus = ok bus
  uart_puts (c ∷ cs) bus = uart_putc c bus >>= λ bus'. uart_puts cs bus'

  -- `print_helper`.
  unfoldable pub print_helper : ℕ → Bus → Run Bus
  print_helper val bus = uart_putc (if ltb val 10 then b'0' + val else b'A' + val - 10) bus

  -- The printing loop of `uart_put_hex` and `uart_put_uint`, with `n` digits to go.
  unfoldable pub print_digits : ℕ → List ℕ → Bus → Run Bus
  print_digits zero value_buffer bus = ok bus
  print_digits (suc n) value_buffer bus =
      print_helper (get_or value_buffer n 0) bus >>= λ bus'. print_digits n value_buffer bus'

-- The loop that fills `value_buffer`, with `room` entries left in it; a write behind its end is a
-- fault. The digits are the least significant first.
unfoldable pub fill_digits : ℕ → ℕ → ℕ → Run (List ℕ)
fill_digits base room zero = ok []
fill_digits base zero (suc val) = fault
fill_digits base (suc room) (suc val) = do
  rest ← fill_digits base room (suc val / base)
  ok (suc val % base ∷ rest)

module _ (board : Board) where
  -- `uart_put_hex`.
  unfoldable pub uart_put_hex : ℕ → Bus → Run Bus
  uart_put_hex val bus = if val == 0 then uart_putc board b'0' bus else do
    value_buffer ← fill_digits 16 20 val
    bus' ← uart_putc board b'0' bus
    bus'' ← uart_putc board b'x' bus'
    print_digits board (length value_buffer) value_buffer bus''

  -- `uart_put_uint`.
  unfoldable pub uart_put_uint : ℕ → Bus → Run Bus
  uart_put_uint val bus = if val == 0 then uart_putc board b'0' bus else do
    value_buffer ← fill_digits 10 20 val
    print_digits board (length value_buffer) value_buffer bus

-- A list of writes in program order.
unfoldable pub write_all : List (ℕ × ℕ) → Bus → Bus
write_all [] bus = bus
write_all ((reg, value) ∷ rest) bus = write_all rest (mmio_write reg value bus)

-- `uart_init` of uart_pi3.cpp. `delay` leaves no trace.
