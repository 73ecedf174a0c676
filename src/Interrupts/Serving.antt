-- ===== src/Interrupts/Serving.antt =====
-- A sequence of interrupt requests on the board of src/interrupts/interrupts_pi5.cpp.
use kehinde_kernel.Prelude.{
  ℕ, zero, suc, ◌+◌, ◌%◌, ◌^◌, ◌<◌, ◌≡◌, refl, ap, ◌∙◌, arith, Bool, true, false, ◌==◌,
  if◌then◌else◌, update, length, List, [], ◌∷◌, ◌++◌,
}
use kehinde_kernel.Bits.{bit_and, u64}
use kehinde_kernel.Run.{Run, ok, ◌>>=◌}
use kehinde_kernel.Uart.{Bus, next_answer, mmio_read, mmio_write}
use kehinde_kernel.Timer.{Timer, increment_time}
use kehinde_kernel.Interrupts.{tick}
use kehinde_kernel.Interrupts.Pi5.{gicc_iar, gicc_eoir, handle_interrupt_requests}

-- The handler runs `n` times, once for each exception.
unfoldable pub serve : ℕ → Timer → Bus → Run (Timer × Bus)
serve zero t bus = ok (t, bus)
serve (suc n) t bus = handle_interrupt_requests t bus >>= λ (t', bus'). serve n t' bus'

-- How many of the acknowledged values are requests of the timer, whose number, the low ten bits, is 30.
unfoldable pub timer_requests : List ℕ → ℕ
timer_requests [] = 0
timer_requests (iar ∷ rest) =
    let n = timer_requests rest in if bit_and iar 0x3FF == 30 then suc n else n

-- The writes that end the requests, the newest first.
unfoldable pub ended : List ℕ → List (ℕ × ℕ) → List (ℕ × ℕ)
ended [] writes = writes
ended (iar ∷ rest) writes = ended rest ((gicc_eoir, iar % 2 ^ 32) ∷ writes)

-- The requests that the interrupt controller has still to give.
abbrev pub requests : Bus → List ℕ
requests bus = bus.answers gicc_iar

pub time_of_tick : (t : Timer) → (tick t).time ≡ u64 (t.time + 1)
unfolding tick increment_time
time_of_tick t = refl

pub mmio_read-next :
    (reg : ℕ) (bus : Bus) (r : ℕ) (rest : List ℕ)
    → bus.answers reg ≡ r ∷ rest
    → mmio_read reg bus ≡ ok (r, record bus { answers = update bus.answers reg rest })
unfolding mmio_read next_answer
mmio_read-next reg bus r rest e = rw (e, next_answer) refl

handle_one :
    (t : Timer) (bus : Bus) (iar : ℕ) (rest : List ℕ)
    → requests bus ≡ iar ∷ rest
    → (bus' : Bus) × (handle_interrupt_requests t bus
        ≡ ok ((if bit_and iar 0x3FF == 30 then tick t else t), bus'))
      × (requests bus' ≡ rest)
      × (bus'.writes ≡ (gicc_eoir, iar % 2 ^ 32) ∷ bus.writes)
unfolding handle_interrupt_requests mmio_write
handle_one t bus iar rest e = (
  mmio_write gicc_eoir iar (record bus { answers = update bus.answers gicc_iar rest }),
  ap
      (λ r. r >>= λ (iar, bus1).
        ok (if bit_and iar 0x3FF == 30 then tick t else t, mmio_write gicc_eoir iar bus1))
      (mmio_read-next gicc_iar bus iar rest e),
  refl,
  refl,
)

-- A request more, of the timer or not.
pub advanced :
    (b : Bool) (t : Timer) (n : ℕ)
    → u64 ((if b then tick t else t).time + n) ≡ u64 (t.time + (if b then suc n else n))
advanced true t n = rw (time_of_tick t) (omega arith)
advanced false t n = refl

pub still_small : (b : Bool) (t : Timer) → t.time < 2 ^ 64 → (if b then tick t else t).time < 2 ^ 64
still_small true t small = rw (time_of_tick t) (omega arith)
still_small false t small = small

-- On the Pi 5, for any sequence of requests, each run of the handler takes one acknowledged value and
-- ends the request with this value, in order; the clock, modulo 2^64, moves on by the number of
-- requests of the timer among them.
pub serve-ended :
    (acks rest : List ℕ) (t : Timer) (bus : Bus)
    → requests bus ≡ acks ++ rest
    → t.time < 2 ^ 64
    → (t' : Timer) × (bus' : Bus) × (serve (length acks) t bus ≡ ok (t', bus'))
      × (t'.time ≡ u64 (t.time + timer_requests acks))
      × (bus'.writes ≡ ended acks bus.writes)
      × (requests bus' ≡ rest)
unfolding serve timer_requests ended
serve-ended [] rest t bus e small = (t, bus, refl, omega arith, refl, e)
serve-ended (iar ∷ acks) rest t bus e small =
    let b = bit_and iar 0x3FF == 30 in
    let (bus1, ran, left, wrote) = handle_one t bus iar (acks ++ rest) e in
    let t1 = if b then tick t else t in
    let (t', bus', served, clock, log, still) =
      serve-ended acks rest t1 bus1 left (still_small b t small) in
    (
      t',
      bus',
      rw ran served,
      clock ∙ advanced b t (timer_requests acks),
      log ∙ ap (λ w. ended acks w) wrote,
      still,
    )
