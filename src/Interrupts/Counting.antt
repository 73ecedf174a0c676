-- ===== src/Interrupts/Counting.antt =====
-- A sequence of interrupt requests on the board of src/interrupts/interrupts_pi3.cpp.
use kehinde_kernel.Prelude.{
  map, not, ℕ, zero, suc, ◌+◌, ◌^◌, ◌<◌, ◌≡◌, refl, ap, ◌∙◌, arith, Bool, true, false, ◌==◌,
  Bool-cases, inl, inr, if◌then◌else◌, update, length, List, [], ◌∷◌, ◌++◌,
}
use kehinde_kernel.Bits.{bit_and, bit, u64}
use kehinde_kernel.Run.{Run, ok, ◌>>=◌}
use kehinde_kernel.Board.{board_pi3, uart0_icr}
use kehinde_kernel.Uart.{Bus, mmio_write}
use kehinde_kernel.Uart.Pi3.{uart_handle_irq}
use kehinde_kernel.Timer.{Timer}
use kehinde_kernel.Interrupts.{tick}
use kehinde_kernel.Interrupts.Pi3.{irq_c0_source, irq_p2, handle_interrupt_requests}
use kehinde_kernel.Interrupts.Serving.{mmio_read-next, advanced, still_small}

-- The handler runs `n` times, with the UART's handler of the same board.
unfoldable pub serve_pi3 : ℕ → Timer → Bus → Run (Timer × Bus)
serve_pi3 zero t bus = ok (t, bus)
serve_pi3 (suc n) t bus =
    handle_interrupt_requests (λ b. ok (uart_handle_irq board_pi3 b)) t bus >>= λ (t', bus').
    serve_pi3 n t' bus'

-- What the two pending registers of one request say.
abbrev pub of_timer : ℕ × ℕ → Bool
of_timer (source, pending2) = not (bit_and source (bit 1) == 0)

abbrev pub of_uart : ℕ × ℕ → Bool
of_uart (source, pending2) = not (bit_and pending2 (bit 25) == 0)

unfoldable pub count_timer : List (ℕ × ℕ) → ℕ
count_timer [] = 0
count_timer (r ∷ rest) = let n = count_timer rest in if of_timer r then suc n else n

-- The writes that clear the interrupts of the UART, the newest first.
unfoldable pub cleared : List (ℕ × ℕ) → List (ℕ × ℕ) → List (ℕ × ℕ)
cleared [] writes = writes
cleared (r ∷ rest) writes =
    cleared rest (if of_uart r then (uart0_icr board_pi3, 0x7FF) ∷ writes else writes)

-- The device will give the two registers of each request, and then these.
abbrev pub Gives : Bus → List (ℕ × ℕ) → List ℕ → List ℕ → Type 0
Gives bus pending rest1 rest2 =
    (bus.answers irq_c0_source ≡ map (λ r. r.0) pending ++ rest1)
    × (bus.answers irq_p2 ≡ map (λ r. r.1) pending ++ rest2)

either : (b : Bool) (t u : Timer) → (if b then t else u) ≡ (if not b then u else t)
either true t u = refl
either false t u = refl

handle_one :
    (t : Timer) (bus : Bus) (r : ℕ × ℕ) (pending : List (ℕ × ℕ)) (rest1 rest2 : List ℕ)
    → Gives bus (r ∷ pending) rest1 rest2
    → (bus' : Bus) × (handle_interrupt_requests (λ b. ok (uart_handle_irq board_pi3 b)) t bus
        ≡ ok ((if of_timer r then tick t else t), bus'))
      × Gives bus' pending rest1 rest2
      × (bus'.writes
          ≡ (if of_uart r then (uart0_icr board_pi3, 0x7FF) ∷ bus.writes else bus.writes))
unfolding handle_interrupt_requests uart_handle_irq mmio_write
handle_one t bus (source, pending2) pending rest1 rest2 (e1, e2) =
    let left1 = map (λ (r : ℕ × ℕ). r.0) pending ++ rest1 in
    let left2 = map (λ (r : ℕ × ℕ). r.1) pending ++ rest2 in
    let bus1 : Bus = record bus { answers = update bus.answers irq_c0_source left1 } in
    let bus2 : Bus = record bus1 { answers = update bus1.answers irq_p2 left2 } in
    let bus3 = mmio_write (uart0_icr board_pi3) 0x7FF bus2 in
    let first = mmio_read-next irq_c0_source bus source left1 e1 in
    let second = mmio_read-next irq_p2 bus1 pending2 left2 e2 in
    let ticks = λ (n : ℕ). either (bit_and n (bit 1) == 0) t (tick t) in
    elim (Bool-cases (bit_and pending2 (bit 25) == 0)) [
      | inl quiet ↦ (
        bus2,
        rw (first, second, quiet) (ap (λ (x : Timer). ok (x, bus2)) (ticks source)),
        (refl, refl),
        rw quiet refl,
      )
      | inr busy ↦ (
        bus3,
        rw (first, second, busy) (ap (λ (x : Timer). ok (x, bus3)) (ticks source)),
        (refl, refl),
        rw busy refl,
      )
    ]

-- On the Pi 3, for any sequence of requests, given by the values of the two pending registers, the
-- handler runs once for each; the clock, modulo 2^64, moves on by the number of requests whose
-- timer bit is set, and each request whose UART bit is set is answered by one write that clears the
-- interrupts of the UART. Nothing else is written, and the registers of later requests are still to
-- be read.
pub serve_pi3-cleared :
    (pending : List (ℕ × ℕ)) (rest1 rest2 : List ℕ) (t : Timer) (bus : Bus)
    → Gives bus pending rest1 rest2
    → t.time < 2 ^ 64
    → (t' : Timer) × (bus' : Bus) × (serve_pi3 (length pending) t bus ≡ ok (t', bus'))
      × (t'.time ≡ u64 (t.time + count_timer pending))
      × (bus'.writes ≡ cleared pending bus.writes)
      × Gives bus' [] rest1 rest2
unfolding serve_pi3 count_timer cleared
serve_pi3-cleared [] rest1 rest2 t bus gives small = (t, bus, refl, omega arith, refl, gives)
serve_pi3-cleared (r ∷ pending) rest1 rest2 t bus gives small =
    let b = of_timer r in
    let (bus1, ran, left, wrote) = handle_one t bus r pending rest1 rest2 gives in
    let t1 = if b then tick t else t in
    let (t', bus', served, clock, log, still) =
      serve_pi3-cleared pending rest1 rest2 t1 bus1 left (still_small b t small) in
    (
      t',
      bus',
      rw ran served,
      clock ∙ advanced b t (count_timer pending),
      log ∙ ap (λ w. cleared pending w) wrote,
      still,
    )
