-- ===== src/Uart/Output.antt =====
-- The calls of src/uart/uart_pi3.cpp touch the device only: they return or wait, and leave the
-- receiver alone.
use kehinde_kernel.Prelude.{
  ℕ, ◌≡◌, refl, sym, ◌∙◌, ap, false, ◌==◌, ==_refl, ◌%◌, List, [], ◌∷◌, arith, Bool-cases, inl, inr,
}
use kehinde_kernel.Bits.{bit_and, bit}
use kehinde_kernel.Run.{Run}
use kehinde_kernel.Run.Ends.{Ends, returns, waits, Ends->>=, Ends-weaker}
use kehinde_kernel.Board.{Board, uart0_dr, uart0_fr}
use kehinde_kernel.Uart.{
  Bus, spin_while, wait_while, next_answer, mmio_read, mmio_write, uart_putc, uart_getc, uart_puts,
}

spin_while-Ends : (mask : ℕ) (rs : List ℕ) → Ends ⊥ ⊥ (λ _. Unit {0}) (spin_while mask rs)
unfolding spin_while
spin_while-Ends mask [] = waits
spin_while-Ends mask (r ∷ rs) = elim (Bool-cases (bit_and r mask == 0)) [
  | inl free ↦ rw free (returns tt)
  | inr busy ↦ rw busy (spin_while-Ends mask rs)
]

module _ (board : Board) where
  -- The bytes that the receiver has still to give.
  abbrev pub incoming : Bus → List ℕ
  incoming bus = bus.answers (uart0_dr board)

  abbrev pub Sends : Bus → Run Bus → Type 0
  Sends bus = Ends ⊥ ⊥ (λ (bus' : Bus). incoming bus' ≡ incoming bus)

  apart : (uart0_fr board == uart0_dr board) ≡ false
  apart = ground arith

  wait_while-Sends : (mask : ℕ) (bus : Bus) → Sends bus (wait_while (uart0_fr board) mask bus)
  unfolding wait_while
  wait_while-Sends mask bus =
      Ends->>= _ (spin_while-Ends mask (bus.answers (uart0_fr board)))
        (λ rest h. returns (rw apart refl))

  pub uart_putc-Sends : (c : ℕ) (bus : Bus) → Sends bus (uart_putc board c bus)
  unfolding uart_putc mmio_write
  uart_putc-Sends c bus = Ends->>= _ (wait_while-Sends (bit 5) bus) (λ bus' h. returns h)

  pub uart_puts-Sends : (text : List ℕ) (bus : Bus) → Sends bus (uart_puts board text bus)
  unfolding uart_puts
  uart_puts-Sends [] bus = returns refl
  uart_puts-Sends (c ∷ cs) bus =
      Ends->>= _ (uart_putc-Sends c bus)
        (λ bus1 h. Ends-weaker (λ x. x) (λ x. x) (λ bus2 e. e ∙ h) (uart_puts-Sends cs bus1))

  -- A byte is taken from the receiver.
  abbrev pub Takes : Bus → ℕ × Bus → Type 0
  Takes bus (c, bus') = (r : ℕ) × (incoming bus ≡ r ∷ incoming bus') × (c ≡ r % 256)

  next_answer-Takes :
      (bus : Bus) (rs : List ℕ)
      → Ends ⊥ ⊥
          (λ (got : ℕ × Bus). rs ≡ got.0 ∷ incoming got.1)
          (next_answer (uart0_dr board) bus rs)
  unfolding next_answer
  next_answer-Takes bus [] = waits
  next_answer-Takes bus (r ∷ rs) = returns (ap (λ t. r ∷ t) (rw (==_refl (uart0_dr board)) refl))

  pub uart_getc-Takes : (bus : Bus) → Ends ⊥ ⊥ (Takes bus) (uart_getc board bus)
  unfolding uart_getc mmio_read
  uart_getc-Takes bus = Ends->>= _ (wait_while-Sends (bit 4) bus) (λ bus1 h.
      Ends->>= _ (next_answer-Takes bus1 (incoming bus1))
        (λ (r, bus2) e. returns (r, sym h ∙ e, refl)))
