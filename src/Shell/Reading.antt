-- ===== src/Shell/Reading.antt =====
-- A line that is typed into `read_line` of src/shell/shell.cpp on a console that is never busy.
use kehinde_kernel.Prelude.{
  ℕ, zero, suc, ◌+◌, ◌-◌, ◌*◌, ◌%◌, ◌≤◌, ◌<◌, ◌≡◌, ◌≢◌, refl, ap, subst, ◌∙◌, true, false, ◌==◌,
  ==_refl, ltb, drop, update, length, length-append, List, [], ◌∷◌, ◌++◌, arith,
}
use mathlib.Core.List.{reverse_aux, reverse-reverse}
use kehinde_kernel.Bits.{bit, zero-bit_and}
use kehinde_kernel.Prelude.Codes.{codes}
use kehinde_kernel.Run.{Run, ok, ◌>>=◌}
use kehinde_kernel.Board.{Board, uart0_dr, uart0_fr}
use kehinde_kernel.Uart.{
  Bus, spin_while, wait_while, next_answer, mmio_read, mmio_write, uart_putc, uart_getc, uart_puts,
}
use kehinde_kernel.Uart.Output.{incoming}
use kehinde_kernel.Shell.Input.{Key, enter, erase, store, ignore, key_of, read_line_loop, read_line}
use kehinde_kernel.Shell.Tokens.{All}

-- `n` polls of the flags that find the device ready, and what it says later.
unfoldable pub polls : ℕ → List ℕ → List ℕ
polls zero rest = rest
polls (suc n) rest = 0 ∷ polls n rest

-- A byte that is kept as it is typed.
abbrev pub Printable : ℕ → Type 0
Printable c = (32 ≤ c) × (c < 256) × (c ≢ 127)

module _ (board : Board) where
  -- The device is ready for the next `n` polls.
  abbrev pub Idle : ℕ → Bus → Type 0
  Idle n bus = (rest : List ℕ) × (bus.answers (uart0_fr board) ≡ polls n rest)

  apart : (uart0_fr board == uart0_dr board) ≡ false
  apart = ground arith

  away : (uart0_dr board == uart0_fr board) ≡ false
  away = ground arith

  -- A call that takes `n` polls, and leaves `rest` to be received.
  abbrev Does : {A : Type 0} → ℕ → List ℕ → A → Run (A × Bus) → Type 0
  Does n rest a r = (bus' : Bus) × (r ≡ ok (a, bus')) × Idle n bus' × (incoming board bus' ≡ rest)

  abbrev Sent : ℕ → List ℕ → Run Bus → Type 0
  Sent n rest r = (bus' : Bus) × (r ≡ ok bus') × Idle n bus' × (incoming board bus' ≡ rest)

  wait_while-Sent :
      (mask n : ℕ) (bus : Bus)
      → Idle (suc n) bus
      → Sent n (incoming board bus) (wait_while (uart0_fr board) mask bus)
  unfolding wait_while spin_while polls
  wait_while-Sent mask n bus (rest, e) = (
    record bus { answers = update bus.answers (uart0_fr board) (polls n rest) },
    rw (e, spin_while, zero-bit_and mask) refl,
    (rest, rw (==_refl (uart0_fr board)) refl),
    rw apart refl,
  )

  uart_putc-Sent :
      (c n : ℕ) (bus : Bus) → Idle (suc n) bus → Sent n (incoming board bus) (uart_putc board c bus)
  unfolding uart_putc mmio_write
  uart_putc-Sent c n bus idle =
      let (bus1, e, i, s) = wait_while-Sent (bit 5) n bus idle in
      (mmio_write (uart0_dr board) (c % 256) bus1, rw e refl, i, s)

  uart_getc-Does :
      (n r : ℕ) (rs : List ℕ) (bus : Bus)
      → Idle (suc n) bus
      → incoming board bus ≡ r ∷ rs
      → Does n rs (r % 256) (uart_getc board bus)
  unfolding uart_getc mmio_read next_answer
  uart_getc-Does n r rs bus idle h =
      let (bus1, e, (rest, i), s) = wait_while-Sent (bit 4) n bus idle in
      let here : bus1.answers (uart0_dr board) ≡ r ∷ rs = s ∙ h in
      (
        record bus1 { answers = update bus1.answers (uart0_dr board) rs },
        rw (e, here, next_answer) refl,
        (rest, rw away i),
        rw (==_refl (uart0_dr board)) refl,
      )

  -- The line break that is sent for the key that ends the line.
  break-Sent :
      (n : ℕ) (bus : Bus)
      → Idle (suc (suc n)) bus
      → Sent n (incoming board bus) (uart_puts board (codes "\r\n") bus)
  unfolding uart_puts
  break-Sent n bus idle =
      let (bus1, e1, i1, s1) = uart_putc-Sent 13 (suc n) bus idle in
      let (bus2, e2, i2, s2) = uart_putc-Sent 10 n bus1 i1 in (bus2, rw (e1, e2) refl, i2, s2 ∙ s1)

  -- A round that ends the line.
  enter_round :
      (fuel max : ℕ) (buf : List ℕ) (bus bus1 bus2 : Bus)
      → length buf < max - 1
      → uart_getc board bus ≡ ok (13, bus1)
      → uart_puts board (codes "\r\n") bus1 ≡ ok bus2
      → read_line_loop board (suc fuel) max buf bus ≡ ok (buf, bus2)
  unfolding read_line_loop key_of
  enter_round fuel max buf bus bus1 bus2 short e1 e2 =
      let room : ltb (length buf) (max - 1) ≡ true = ground arith in rw (room, e1) (rw e2 refl)

  key_of_store : (c i : ℕ) → Printable c → key_of (c % 256) i ≡ store
  unfolding key_of
  key_of_store c i (low, high, no_del) = let e : c % 256 ≡ c = omega arith in rw e (ground arith)

  -- The branch of the loop that stores a byte.
  store_branch :
      (fuel max d : ℕ) (buf : List ℕ) (bus1 bus2 : Bus) (k : Key)
      → k ≡ store
      → uart_putc board d bus1 ≡ ok bus2
      → (elim k [
        | enter ↦ uart_puts board (codes "\r\n") bus1 >>= λ bus2. ok (buf, bus2)
        | erase ↦ uart_puts board (8 ∷ 32 ∷ 8 ∷ []) bus1 >>= λ bus2.
            read_line_loop board fuel max (drop 1 buf) bus2
        | store ↦ uart_putc board d bus1 >>= λ bus2. read_line_loop board fuel max (d ∷ buf) bus2
        | ignore ↦ read_line_loop board fuel max buf bus1
      ])
        ≡ read_line_loop board fuel max (d ∷ buf) bus2
  store_branch fuel max d buf bus1 bus2 enter h e = cc
  store_branch fuel max d buf bus1 bus2 erase h e = cc
  store_branch fuel max d buf bus1 bus2 store h e = rw e refl
  store_branch fuel max d buf bus1 bus2 ignore h e = cc

  -- A round that stores a byte.
  store_round :
      (fuel max c : ℕ) (buf : List ℕ) (bus bus1 bus2 : Bus)
      → length buf < max - 1
      → Printable c
      → uart_getc board bus ≡ ok (c % 256, bus1)
      → uart_putc board (c % 256) bus1 ≡ ok bus2
      → read_line_loop board (suc fuel) max buf bus ≡ read_line_loop board fuel max (c ∷ buf) bus2
  unfolding read_line_loop
  store_round fuel max c buf bus bus1 bus2 short hc e1 e2 =
      let room : ltb (length buf) (max - 1) ≡ true = ground arith in
      let same : c % 256 ≡ c = omega (arith, hc.1) in
      rw (room, e1)
        (store_branch fuel max (c % 256) buf bus1 bus2 (key_of (c % 256) (length buf))
            (key_of_store c (length buf) hc) e2
          ∙ ap (λ d. read_line_loop board fuel max (d ∷ buf) bus2) same)

  -- The loop takes one byte after the other.
  read_line_loop-text :
      (text behind : List ℕ) (fuel max n : ℕ) (buf : List ℕ) (bus : Bus)
      → All Printable text
      → incoming board bus ≡ text ++ (13 ∷ behind)
      → length buf + length text < max - 1
      → length text < fuel
      → Idle (2 * length text + 3 + n) bus
      → Does n behind (reverse_aux text buf) (read_line_loop board fuel max buf bus)
  read_line_loop-text text behind zero max n buf bus h typed short lt idle = absurd (omega arith)
  read_line_loop-text [] behind (suc fuel) max n buf bus h typed short lt idle =
      let polled : 2 * 0 + 3 + n ≡ suc (suc (suc n)) = omega arith in
      let (bus1, e1, i1, s1) =
        uart_getc-Does (suc (suc n)) 13 behind bus (subst (λ m. Idle m bus) polled idle) typed in
      let (bus2, e2, i2, s2) = break-Sent n bus1 i1 in
      (bus2, enter_round fuel max buf bus bus1 bus2 (omega arith) e1 e2, i2, s2 ∙ s1)
  read_line_loop-text (c ∷ text) behind (suc fuel) max n buf bus (hc, h) typed short lt idle =
      let m = 2 * length text + 3 + n in
      let polled : 2 * suc (length text) + 3 + n ≡ suc (suc m) = omega arith in
      let (bus1, e1, i1, s1) =
        uart_getc-Does (suc m) c (text ++ (13 ∷ behind)) bus (subst (λ m. Idle m bus) polled idle)
          typed in
      let (bus2, e2, i2, s2) = uart_putc-Sent (c % 256) m bus1 i1 in
      let (bus3, e3, i3, s3) =
        read_line_loop-text text behind fuel max n (c ∷ buf) bus2 h (s2 ∙ s1) (omega arith)
          (omega arith) i2 in
      (bus3, store_round fuel max c buf bus bus1 bus2 (omega arith) hc e1 e2 ∙ e3, i3, s3)

  -- On a console that is never busy, a text of printable ASCII bytes that fits into the buffer and
  -- is ended by Enter is returned by `read_line` as it was typed; what is typed behind it is left for
  -- the next call.
  pub read_line-text :
      (text behind : List ℕ) (max n : ℕ) (bus : Bus)
      → All Printable text
      → incoming board bus ≡ text ++ (13 ∷ behind)
      → length text < max - 1
      → Idle (2 * length text + 3 + n) bus
      → Does n behind text (read_line board max bus)
  unfolding read_line
  read_line-text text behind max n bus h typed short idle =
      let enough : length text < length (incoming board bus) + 1 =
        rw typed (omega (arith, length-append text (13 ∷ behind))) in
      let (bus', e, i, s) =
        read_line_loop-text text behind (length (incoming board bus) + 1) max n [] bus h typed
          (omega arith) enough idle in
      (bus', rw e (ap (λ line. ok (line, bus')) (reverse-reverse text)), i, s)
