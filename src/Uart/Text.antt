-- ===== src/Uart/Text.antt =====
-- What the output calls of src/uart/uart_pi3.cpp and src/uart/uart_pi5.cpp send.
use kehinde_kernel.Prelude.{
  ==_refl, ℕ, zero, suc, ◌+◌, ◌-◌, ◌*◌, ◌/◌, ◌%◌, ◌^◌, ◌≤◌, ◌<◌, ◌≡◌, refl, sym, ◌∙◌, ap, false,
  ltb, ◌==◌, if◌then◌else◌, update, get_or, length, List, [], ◌∷◌, arith, Bool-cases, inl, inr,
}
use native.Mathlib.Nat.{mod-add-div, mod-lt, div-lt_iff_lt-mul, pow-suc, pow-zero}
use kehinde_kernel.Bits.{bit_and, bit}
use kehinde_kernel.Run.{ok, ◌>>=◌, >>=-cong}
use kehinde_kernel.Board.{Board, uart0_dr, uart0_fr}
use kehinde_kernel.Uart.{
  Bus, spin_while, wait_while, mmio_write, uart_putc, uart_puts, fill_digits, print_digits,
  print_helper, uart_put_uint, uart_put_hex,
}
use kehinde_kernel.Uart.Output.{Sends, uart_putc-Sends, uart_puts-Sends}

-- How many of the values to come end a wait for the bits of `mask`.
unfoldable pub ready : ℕ → List ℕ → ℕ
ready mask [] = 0
ready mask (r ∷ rs) = let rest = ready mask rs in if bit_and r mask == 0 then suc rest else rest

spin_while-ready :
    (mask n : ℕ) (rs : List ℕ)
    → n < ready mask rs
    → (rest : List ℕ) × (spin_while mask rs ≡ ok rest) × (n ≤ ready mask rest)
unfolding spin_while ready
spin_while-ready mask n [] h = absurd (omega arith)
spin_while-ready mask n (r ∷ rs) h = elim (Bool-cases (bit_and r mask == 0)) [
  | inl free ↦ (rs, rw free refl, ground arith)
  | inr busy ↦
      let (rest, e, more) = spin_while-ready mask n rs (ground arith) in (rest, rw busy e, more)
]

-- The writes that send the bytes, the newest first.
unfoldable pub sent : ℕ → List ℕ → List (ℕ × ℕ) → List (ℕ × ℕ)
sent reg [] log = log
sent reg (c ∷ cs) log = sent reg cs ((reg, c % 256) ∷ log)

module _ (board : Board) where
  -- The transmitter is reported ready at least `n` more times.
  abbrev pub Ready : ℕ → Bus → Type 0
  Ready n bus = n ≤ ready (bit 5) (bus.answers (uart0_fr board))

  pub uart_putc-sends :
      (n c : ℕ) (bus : Bus)
      → Ready (suc n) bus
      → (bus' : Bus) × (uart_putc board c bus ≡ ok bus')
        × (bus'.writes ≡ (uart0_dr board, c % 256) ∷ bus.writes)
        × Ready n bus'
  unfolding uart_putc wait_while mmio_write
  uart_putc-sends n c bus h =
      let (rest, e, more) =
        spin_while-ready (bit 5) n (bus.answers (uart0_fr board)) (omega arith) in
      let waited : Bus = record bus { answers = update bus.answers (uart0_fr board) rest } in
      let narrow : c % 256 % 2 ^ 32 ≡ c % 256 = omega arith in
      (
        mmio_write (uart0_dr board) (c % 256) waited,
        rw e refl,
        ap (λ x. (uart0_dr board, x) ∷ bus.writes) narrow,
        rw (==_refl (uart0_fr board)) more,
      )

  -- If the transmitter becomes ready once for each byte, `uart_puts` ends, and its writes are the
  -- bytes of the text to the data register, in order.
  pub uart_puts-sends :
      (n : ℕ) (text : List ℕ) (bus : Bus)
      → Ready (length text + n) bus
      → (bus' : Bus) × (uart_puts board text bus ≡ ok bus')
        × (bus'.writes ≡ sent (uart0_dr board) text bus.writes)
        × Ready n bus'
  unfolding uart_puts sent
  uart_puts-sends n [] bus h = (bus, refl, refl, omega arith)
  uart_puts-sends n (c ∷ cs) bus h =
      let (bus1, e1, w1, r1) = uart_putc-sends (length cs + n) c bus (omega arith) in
      let (bus2, e2, w2, r2) = uart_puts-sends n cs bus1 r1 in
      (bus2, rw e1 e2, w2 ∙ ap (sent (uart0_dr board) cs) w1, r2)

-- The number that the digits, the least significant first, are in base `base`.
unfoldable pub value_of : ℕ → List ℕ → ℕ
value_of base [] = 0
value_of base (d ∷ ds) = d + base * value_of base ds

-- A numeral without leading zeros: all digits are below the base, and the most significant one is
-- not 0.
pub data IsNumeral (base : ℕ) : List ℕ → Type 0 where
  leading : {d : ℕ} → 0 < d → d < base → IsNumeral base (d ∷ [])
  behind : {d : ℕ} {ds : List ℕ} → d < base → IsNumeral base ds → IsNumeral base (d ∷ ds)

module _ (base : ℕ) (big : 1 < base) where
  -- The buffer after the filling loop, of `room` entries.
  abbrev Filled : ℕ → ℕ → Type 0
  Filled room val =
      (ds : List ℕ) × (fill_digits base room val ≡ ok ds)
      × (value_of base ds ≡ val)
      × IsNumeral base ds
      × length ds ≤ room

  -- The loop at a value, given what it leaves for the quotient.
  put_digit : (room val : ℕ) → Filled room (suc val / base) → Filled (suc room) (suc val)
  unfolding fill_digits value_of
  put_digit room val (ds, e, v, n, l) = (
    suc val % base ∷ ds,
    rw e refl,
    rw v (mod-add-div (suc val) base),
    behind (mod-lt (suc val) (omega arith)) n,
    omega arith,
  )

  last_digit : (room val : ℕ) → suc val / base ≡ 0 → Filled (suc room) (suc val)
  unfolding fill_digits value_of
  last_digit room val e =
      let whole : suc val % base + base * 0 ≡ suc val =
        ap (λ q. suc val % base + base * q) (sym e) ∙ mod-add-div (suc val) base in
      (
        suc val % base ∷ [],
        rw (e, fill_digits) refl,
        whole,
        leading (omega arith) (mod-lt (suc val) (omega arith)),
        omega arith,
      )

  fill_digits-Filled : (room val : ℕ) → 0 < val → val < base ^ room → Filled room val
  fill_digits-Filled room zero pos h = absurd (omega arith)
  fill_digits-Filled zero (suc val) pos h = absurd (omega (arith, pow-zero base))
  fill_digits-Filled (suc room) (suc val) pos h = elim (Bool-cases (suc val / base == 0)) [
    | inl last ↦ last_digit room val (ground arith)
    | inr more ↦ put_digit room val (
        fill_digits-Filled room (suc val / base) (ground arith)
          ((div-lt_iff_lt-mul (omega arith)).1 (rw (sym (pow-suc base room)) h)))
  ]

-- The character that `print_helper` sends for a digit.
abbrev pub digit_char : ℕ → ℕ
digit_char val = if ltb val 10 then b'0' + val else b'A' + val - 10

-- The characters that the printing loop sends with `n` digits to go.
unfoldable pub digit_chars : ℕ → List ℕ → List ℕ
digit_chars zero value_buffer = []
digit_chars (suc n) value_buffer = digit_char (get_or value_buffer n 0) ∷ digit_chars n value_buffer

length-digit_chars : (n : ℕ) (ds : List ℕ) → length (digit_chars n ds) ≡ n
unfolding digit_chars
length-digit_chars zero ds = refl
length-digit_chars (suc n) ds = omega (arith, length-digit_chars n ds)

module _ (board : Board) where
  print_digits-uart_puts :
      (n : ℕ) (ds : List ℕ) (bus : Bus)
      → print_digits board n ds bus ≡ uart_puts board (digit_chars n ds) bus
  unfolding print_digits uart_puts digit_chars print_helper
  print_digits-uart_puts zero ds bus = refl
  print_digits-uart_puts (suc n) ds bus =
      >>=-cong (uart_putc board (digit_char (get_or ds n 0)) bus)
        (λ bus1. print_digits board n ds bus1) (λ bus1. uart_puts board (digit_chars n ds) bus1)
        (λ bus1. print_digits-uart_puts n ds bus1)

  -- For a positive 64-bit value and a transmitter that becomes ready for each of up to 20 digits,
  -- `uart_put_uint` stays within its buffer and ends; what it sends is the decimal numeral of the
  -- value without leading zeros, the most significant digit first.
  pub uart_put_uint-sends :
      (val : ℕ) (bus : Bus)
      → 0 < val
      → val < 2 ^ 64
      → Ready board 20 bus
      → (ds : List ℕ) × (bus' : Bus) × (uart_put_uint board val bus ≡ ok bus')
        × (bus'.writes ≡ sent (uart0_dr board) (digit_chars (length ds) ds) bus.writes)
        × IsNumeral 10 ds
        × (value_of 10 ds ≡ val)
  unfolding uart_put_uint
  uart_put_uint-sends val bus pos small enough =
      let (ds, e, v, n, l) = fill_digits-Filled 10 (omega arith) 20 val pos (omega arith) in
      let (bus', e', w, r) =
        uart_puts-sends board 0 (digit_chars (length ds) ds) bus
          (omega (arith, length-digit_chars (length ds) ds)) in
      let nonzero : (val == 0) ≡ false = ground arith in
      (ds, bus', rw (nonzero, e, print_digits-uart_puts (length ds) ds bus) e', w, n, v)

  -- `uart_put_uint` of a 64-bit value returns or waits.
  pub uart_put_uint-Sends :
      (val : ℕ) (bus : Bus) → val < 2 ^ 64 → Sends board bus (uart_put_uint board val bus)
  unfolding uart_put_uint
  uart_put_uint-Sends val bus small = elim (Bool-cases (val == 0)) [
    | inl none_set ↦ rw none_set (uart_putc-Sends board b'0' bus)
    | inr some_set ↦
        let (ds, e, _, _, _) =
          fill_digits-Filled 10 (omega arith) 20 val (ground arith) (omega arith) in
        rw (some_set, e, print_digits-uart_puts (length ds) ds bus)
          (uart_puts-Sends board (digit_chars (length ds) ds) bus)
  ]

  -- The printing part of `uart_put_hex` as one text.
  prefixed-uart_puts :
      (ds : List ℕ) (bus : Bus)
      → (uart_putc board b'0' bus >>= λ bus1.
          uart_putc board b'x' bus1 >>= λ bus2. print_digits board (length ds) ds bus2)
        ≡ uart_puts board (b'0' ∷ b'x' ∷ digit_chars (length ds) ds) bus
  unfolding uart_puts
  prefixed-uart_puts ds bus = >>=-cong (uart_putc board b'0' bus) _ _ (λ bus1.
      >>=-cong (uart_putc board b'x' bus1) _ _ (λ bus2. print_digits-uart_puts (length ds) ds bus2))

  -- For a positive 64-bit value and a transmitter that becomes ready 22 times, `uart_put_hex`
  -- stays within its buffer and ends; it sends `0x` and then the hexadecimal numeral of the value
  -- without leading zeros, the most significant digit first.
  pub uart_put_hex-sends :
      (val : ℕ) (bus : Bus)
      → 0 < val
      → val < 2 ^ 64
      → Ready board 22 bus
      → (ds : List ℕ) × (bus' : Bus) × (uart_put_hex board val bus ≡ ok bus')
        × (bus'.writes
            ≡ sent (uart0_dr board) (b'0' ∷ b'x' ∷ digit_chars (length ds) ds) bus.writes)
        × IsNumeral 16 ds
        × (value_of 16 ds ≡ val)
  unfolding uart_put_hex
  uart_put_hex-sends val bus pos small enough =
      let (ds, e, v, n, l) = fill_digits-Filled 16 (omega arith) 20 val pos (omega arith) in
      let (bus', e', w, r) =
        uart_puts-sends board 0 (b'0' ∷ b'x' ∷ digit_chars (length ds) ds) bus
          (omega (arith, length-digit_chars (length ds) ds)) in
      let nonzero : (val == 0) ≡ false = ground arith in
      (ds, bus', rw (nonzero, e) (prefixed-uart_puts ds bus ∙ e'), w, n, v)
