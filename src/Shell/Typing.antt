-- ===== src/Shell/Typing.antt =====
-- What `read_line` of src/shell/shell.cpp gives.
use kehinde_kernel.Prelude.{
  ℕ, zero, suc, ◌+◌, ◌-◌, ◌≤◌, ◌<◌, ◌≡◌, refl, ltb, length, ltb→lt, drop, List, [], ◌∷◌, arith,
  Bool-cases, inl, inr,
}
use mathlib.Core.List.{reverse_aux}
use kehinde_kernel.Run.{Run, ok, ◌>>=◌}
use kehinde_kernel.Board.{Board}
use kehinde_kernel.Uart.{Bus, uart_putc, uart_puts}
use kehinde_kernel.Run.Ends.{Ends, returns, waits, Ends->>=}
use kehinde_kernel.Prelude.Codes.{codes}
use kehinde_kernel.Uart.Output.{uart_putc-Sends, uart_puts-Sends, uart_getc-Takes}
use kehinde_kernel.Shell.Input.{Key, enter, erase, store, ignore, key_of, read_line_loop, read_line}
use kehinde_kernel.Shell.Tokens.{All}

-- What a buffer may hold: at most `room` bytes, none below 32.
abbrev pub IsLine : ℕ → List ℕ → Type 0
IsLine room line = (length line ≤ room) × All (λ (c : ℕ). 32 ≤ c) line

key_of-store : (c i : ℕ) → key_of c i ≡ store → 32 ≤ c
unfolding key_of
key_of-store c i h = ground arith

All-drop : (line : List ℕ) → All (λ (c : ℕ). 32 ≤ c) line → All (λ (c : ℕ). 32 ≤ c) (drop 1 line)
All-drop [] h = tt
All-drop (c ∷ cs) (hc, hs) = hs

length-drop_one : (line : List ℕ) → length (drop 1 line) ≤ length line
length-drop_one [] = omega arith
length-drop_one (c ∷ cs) = omega arith

reverse_aux-IsLine :
    (room : ℕ) (line behind : List ℕ)
    → length line + length behind ≤ room
    → All (λ (c : ℕ). 32 ≤ c) line
    → All (λ (c : ℕ). 32 ≤ c) behind
    → IsLine room (reverse_aux line behind)
reverse_aux-IsLine room [] behind few h k = (omega arith, k)
reverse_aux-IsLine room (c ∷ cs) behind few (hc, h) k =
    reverse_aux-IsLine room cs (c ∷ behind) (omega arith) h (hc, k)

module _ (board : Board) where
  abbrev Typed : ℕ → Run (List ℕ × Bus) → Type 0
  Typed max = Ends ⊥ ⊥ (λ (r : List ℕ × Bus). IsLine (max - 1) r.0)

  -- A round, given the loop that goes on.
  round-Typed :
      (fuel max : ℕ) (buf : List ℕ)
      → ((buf' : List ℕ) (bus' : Bus)
          → IsLine (max - 1) buf'
          → Typed max (read_line_loop board fuel max buf' bus'))
      → IsLine (max - 1) buf
      → length buf < max - 1
      → (c : ℕ) (bus1 : Bus) (k : Key) → (k ≡ store → 32 ≤ c)
      → Typed max (elim k [
        | enter ↦ uart_puts board (codes "\r\n") bus1 >>= λ bus2. ok (buf, bus2)
        | erase ↦ uart_puts board (8 ∷ 32 ∷ 8 ∷ []) bus1 >>= λ bus2.
            read_line_loop board fuel max (drop 1 buf) bus2
        | store ↦ uart_putc board c bus1 >>= λ bus2. read_line_loop board fuel max (c ∷ buf) bus2
        | ignore ↦ read_line_loop board fuel max buf bus1
      ])
  round-Typed fuel max buf loop l short c bus1 enter h =
      Ends->>= _ (uart_puts-Sends board (codes "\r\n") bus1) (λ bus2 _. returns l)
  round-Typed fuel max buf loop l short c bus1 erase h =
      Ends->>= _ (uart_puts-Sends board (8 ∷ 32 ∷ 8 ∷ []) bus1)
        (λ bus2 _. loop (drop 1 buf) bus2 (omega (arith, length-drop_one buf), All-drop buf l.1))
  round-Typed fuel max buf loop l short c bus1 store h =
      Ends->>= _ (uart_putc-Sends board c bus1)
        (λ bus2 _. loop (c ∷ buf) bus2 (omega arith, (h refl, l.1)))
  round-Typed fuel max buf loop l short c bus1 ignore h = loop buf bus1 l

  read_line_loop-Typed :
      (fuel max : ℕ) (buf : List ℕ) (bus : Bus)
      → IsLine (max - 1) buf
      → Typed max (read_line_loop board fuel max buf bus)
  unfolding read_line_loop
  read_line_loop-Typed zero max buf bus l = elim (Bool-cases (ltb (length buf) (max - 1))) [
    | inl short ↦ rw short waits
    | inr full ↦ rw full (returns l)
  ]
  read_line_loop-Typed (suc fuel) max buf bus l = elim (Bool-cases (ltb (length buf) (max - 1))) [
    | inr full ↦ rw full (returns l)
    | inl short ↦ rw short (
        Ends->>= _ (uart_getc-Takes board bus) (λ (c, bus1) _.
          round-Typed fuel max buf (λ buf' bus' l'. read_line_loop-Typed fuel max buf' bus' l') l
            (ltb→lt _ _ short) c bus1 (key_of c (length buf)) (key_of-store c (length buf))))
  ]

  -- `read_line` returns or waits for the device, whatever is typed. What it returns fits into its
  -- buffer with the terminator and holds no byte below 32, so no zero and no line break; DEL, which
  -- is 127, may be among its bytes.
  pub read_line-IsLine : (max : ℕ) (bus : Bus) → Typed max (read_line board max bus)
  unfolding read_line
  read_line-IsLine max bus =
      Ends->>= _ (read_line_loop-Typed _ max [] bus (omega arith, tt))
        (λ (buf, bus') l. returns (reverse_aux-IsLine (max - 1) buf [] (omega (arith, l.0)) l.1 tt))
