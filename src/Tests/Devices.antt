-- ===== src/Tests/Devices.antt =====
-- src/uart/uart_pi3.cpp with a transmitter that is busy at the first poll, and requests to
-- src/interrupts/interrupts_pi5.cpp.
use kehinde_kernel.Prelude.{
  ℕ, refl, ◌+◌, suc, ◌≡◌, List, [], ◌∷◌, length, arith, if◌then◌else◌, ◌==◌,
}
use kehinde_kernel.Run.{ok}
use kehinde_kernel.Board.{board_pi3, uart0_dr}
use kehinde_kernel.Bits.{u64}
use kehinde_kernel.Timer.{Timer}
use kehinde_kernel.Interrupts.Pi3.{irq_c0_source}
use kehinde_kernel.Interrupts.Counting.{serve_pi3, count_timer, cleared, Gives, serve_pi3-cleared}
use kehinde_kernel.Interrupts.Serving.{serve, timer_requests, ended, requests, serve-ended}
use kehinde_kernel.Uart.{Bus, uart_put_hex}
use kehinde_kernel.Uart.Text.{
  ready, Ready, sent, digit_chars, IsNumeral, value_of, uart_put_hex-sends,
}

abbrev zeros : ℕ → List ℕ
zeros ℕ.zero = []
zeros (suc n) = 0 ∷ zeros n

abbrev line : Bus
line = record { answers = λ _. 0x20 ∷ zeros 24; writes = [] }

line-Ready : Ready board_pi3 22 line
unfolding ready
line-Ready = omega arith

uart_put_hex-sends_example :
    (ds : List ℕ) × (bus' : Bus) × (uart_put_hex board_pi3 255 line ≡ ok bus')
    × (bus'.writes
        ≡ sent (uart0_dr board_pi3) (b'0' ∷ b'x' ∷ digit_chars (length ds) ds) line.writes)
    × IsNumeral 16 ds
    × (value_of 16 ds ≡ 255)
uart_put_hex-sends_example =
    uart_put_hex-sends board_pi3 255 line (omega arith) (omega arith) line-Ready

-- Two requests of the timer, and one of another device between them.
abbrev requesting : Bus
requesting = record { answers = λ _. 30 ∷ 33 ∷ 30 ∷ []; writes = [] }

abbrev start : Timer
start = record { time = 7; freq = 1000; sysregs = [] }

serve-ended_example :
    (t' : Timer) × (bus' : Bus) × (serve 3 start requesting ≡ ok (t', bus'))
    × (t'.time ≡ u64 (7 + timer_requests (30 ∷ 33 ∷ 30 ∷ [])))
    × (bus'.writes ≡ ended (30 ∷ 33 ∷ 30 ∷ []) [])
    × (requests bus' ≡ [])
serve-ended_example = serve-ended (30 ∷ 33 ∷ 30 ∷ []) [] start requesting refl (omega arith)

abbrev pending : List (ℕ × ℕ)
pending = (2, 0) ∷ (0, 0x0200_0000) ∷ (2, 0x0200_0000) ∷ []

abbrev interrupting : Bus
interrupting = record {
  answers =
      λ reg. if reg == irq_c0_source then 2 ∷ 0 ∷ 2 ∷ [] else 0 ∷ 0x0200_0000 ∷ 0x0200_0000 ∷ [];
  writes = [];
}

serve_pi3-cleared_example :
    (t' : Timer) × (bus' : Bus) × (serve_pi3 3 start interrupting ≡ ok (t', bus'))
    × (t'.time ≡ u64 (7 + count_timer pending))
    × (bus'.writes ≡ cleared pending [])
    × Gives bus' [] [] []
serve_pi3-cleared_example =
    serve_pi3-cleared pending [] [] start interrupting (refl, refl) (omega arith)
