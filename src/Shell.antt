-- ===== src/Shell.antt =====
-- The shell, src/shell/shell.cpp: its state and the helpers without side effects. A string is the
-- list of its bytes before the terminator, so `slen` is `length`. A write behind the end of a
-- buffer is a fault.
pub mod Input
pub mod Tokens
pub mod Typing
pub mod Reading
pub mod Valid
pub mod Paths
pub mod Changes
pub mod Editing
pub mod Listing
pub mod Directories
pub mod Printing
pub mod Cat
pub mod Commands
pub mod Storing
pub mod Loop
pub mod Sizes
pub mod Replies
pub mod Safety
use kehinde_kernel.Prelude.{
  ℕ, zero, suc, ◌+◌, ◌-◌, Bool, true, false, ◌==◌, ltb, if◌then◌else◌, length, List, [], ◌∷◌, ◌++◌,
}
use kehinde_kernel.Run.{Run, ok, fault, ◌>>=◌}
use kehinde_kernel.Board.{Board}
use kehinde_kernel.Uart.{Bus, uart_puts}
use kehinde_kernel.Timer.{Timer}
use kehinde_kernel.Filesystem.{Fs}
use kehinde_kernel.Filesystem.Names.{char_at}
use kehinde_kernel.Filesystem.Path.{fs_lookup}

abbrev pub max_line : ℕ
max_line = 256

abbrev pub max_args : ℕ
max_args = 16

abbrev pub max_path : ℕ
max_path = 512

-- The statics of the shell, with the state of the drivers that it calls.
pub record Shell (S : Type 0) : Type 0 where
  pub fs : Fs S
  pub timer : Timer
  pub bus : Bus
  pub cwd_ino : ℕ
  pub cwd_path : List ℕ

-- A string that is built up in a buffer of `room` bytes, its terminator included.
unfoldable pub in_buffer : ℕ → List ℕ → Run (List ℕ)
in_buffer room text = if ltb (length text) room then ok text else fault

-- `seq`.
unfoldable pub seq : List ℕ → List ℕ → Bool
seq [] [] = true
seq [] (d ∷ ds) = false
seq (c ∷ cs) [] = false
seq (c ∷ cs) (d ∷ ds) = let rest = seq cs ds in if c == d then rest else false

-- `join_args` of the arguments from `start` on, without the bound of its buffer.
unfoldable pub join_args : List (List ℕ) → List ℕ
join_args [] = []
join_args (s ∷ []) = s
join_args (s ∷ t ∷ rest) = s ++ (b' ' ∷ join_args (t ∷ rest))

-- The inner loop of `parse_args` that skips spaces.
unfoldable pub skip_spaces : List ℕ → List ℕ
skip_spaces [] = []
skip_spaces (c ∷ cs) = let rest = skip_spaces cs in if c == b' ' then rest else c ∷ cs

-- The inner loop that runs to the end of a token: the token, and what stands behind the space that
-- is overwritten.
unfoldable pub take_token : List ℕ → List ℕ × List ℕ
take_token [] = ([], [])
take_token (c ∷ cs) =
    let (token, rest) = take_token cs in if c == b' ' then ([], cs) else (c ∷ token, rest)

-- The outer loop of `parse_args`, with room for `room` more tokens.
unfoldable pub parse_args : ℕ → List ℕ → List (List ℕ)
parse_args zero line = []
parse_args (suc room) line = elim (skip_spaces line) [
  | [] ↦ []
  | c ∷ cs ↦ let (token, rest) = take_token (c ∷ cs) in token ∷ parse_args room rest
]

-- `cwd_path` with the name behind it, as `resolve_path` and `cd` build it. The path is not empty.
unfoldable pub extend_path : List ℕ → List ℕ → List ℕ
extend_path cwd name =
    if char_at cwd (length cwd - 1) == b'/' then cwd ++ name else cwd ++ (b'/' ∷ name)

-- `resolve_path`.
unfoldable pub resolve_path : {S : Type 0} → Shell S → List ℕ → Run ℕ
resolve_path sh arg =
    if char_at arg 0 == b'/'
    then fs_lookup sh.fs arg
    else (in_buffer max_path (extend_path sh.cwd_path arg) >>= λ full. fs_lookup sh.fs full)

-- A call of `uart_puts` in the shell.
unfoldable pub say : {S : Type 0} → Board → List ℕ → Shell S → Run (Shell S)
say board text sh = uart_puts board text sh.bus >>= λ bus'. ok (record sh { bus = bus' })
