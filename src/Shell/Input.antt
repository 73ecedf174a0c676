-- ===== src/Shell/Input.antt =====
-- `read_line` of src/shell/shell.cpp. `char` is unsigned, as the compiler takes it for this target.
use kehinde_kernel.Prelude.{
  ℕ, zero, suc, ◌+◌, ◌-◌, ◌==◌, ◌&&◌, ◌||◌, ltb, leb, if◌then◌else◌, length, drop, List, [], ◌∷◌,
}
use mathlib.Core.List.{reverse}
use kehinde_kernel.Prelude.Codes.{codes}
use kehinde_kernel.Run.{Run, ok, out_of_fuel, ◌>>=◌}
use kehinde_kernel.Board.{Board, uart0_dr}
use kehinde_kernel.Uart.{Bus, uart_getc, uart_putc, uart_puts}

-- The branches of the loop.
pub data Key : Type 0 where
  enter : Key
  erase : Key
  store : Key
  ignore : Key

-- The branch for the byte `c` with `i` bytes in the buffer.
unfoldable pub key_of : ℕ → ℕ → Key
key_of c i =
    if c == 13 || c == 10
    then enter
    else if (c == 127 || c == 8) && ltb 0 i
    then erase
    else if leb 32 c
    then store
    else ignore

-- The loop. The buffer is held with its last byte first; a round is started with what it will have
-- done, and `fuel` bounds the rounds.
module _ (board : Board) where
  unfoldable pub read_line_loop : ℕ → ℕ → List ℕ → Bus → Run (List ℕ × Bus)
  read_line_loop zero max buf bus =
      if ltb (length buf) (max - 1) then out_of_fuel else ok (buf, bus)
  read_line_loop (suc fuel) max buf bus =
      let round : Run (List ℕ × Bus) = uart_getc board bus >>= λ (c, bus1).
      elim (key_of c (length buf)) [
        | enter ↦ uart_puts board (codes "\r\n") bus1 >>= λ bus2. ok (buf, bus2)
        | erase ↦ uart_puts board (8 ∷ 32 ∷ 8 ∷ []) bus1 >>= λ bus2.
            read_line_loop fuel max (drop 1 buf) bus2
        | store ↦ uart_putc board c bus1 >>= λ bus2. read_line_loop fuel max (c ∷ buf) bus2
        | ignore ↦ read_line_loop fuel max buf bus1
      ] in
      if ltb (length buf) (max - 1) then round else ok (buf, bus)

  -- `read_line`. Each round takes a byte from the receiver, so there is at most one more round than
  -- bytes to come.
  unfoldable pub read_line : ℕ → Bus → Run (List ℕ × Bus)
  read_line max bus =
      read_line_loop (length (bus.answers (uart0_dr board)) + 1) max [] bus >>= λ (buf, bus').
      ok (reverse buf, bus')
