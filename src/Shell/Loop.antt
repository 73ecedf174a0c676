-- ===== src/Shell/Loop.antt =====
-- `shell_run` of src/shell/shell.cpp.
use kehinde_kernel.Prelude.{ℕ, zero, suc, Bool, ◌==◌, if◌then◌else◌, length, List}
use kehinde_kernel.Prelude.Codes.{codes}
use kehinde_kernel.Run.{Run, ok, ◌>>=◌}
use kehinde_kernel.Board.{Board}
use kehinde_kernel.Filesystem.{RawBlock, Dirent, Kmalloc}
use kehinde_kernel.Shell.{Shell, max_line, max_args, seq, parse_args, say}
use kehinde_kernel.Shell.Input.{read_line}
use kehinde_kernel.Shell.Commands.{
  arg, print_banner, cmd_help, cmd_clear, cmd_pwd, cmd_ls, cmd_cd, cmd_mkdir, cmd_touch, cmd_cat,
  cmd_write, cmd_rm, cmd_timer,
}

-- After a round the shell goes on, or `cmd_shutdown` has parked the core.
pub data Next (S : Type 0) : Type 0 where
  running : Shell S → Next S
  parked : Shell S → Next S

module _ {S : Type 0} (board : Board) (kmalloc : Kmalloc S) (uninitialised : RawBlock)
    (stack : ℕ → ℕ) (ent : Dirent) where
  -- `cmd_shutdown`.
  unfoldable pub cmd_shutdown : Shell S → Run (Next S)
  cmd_shutdown sh =
      say board (codes "Shutting down kehinde-kernel. Ciao!\r\n") sh >>= λ sh'. ok (parked sh')

  -- A command that comes back.
  abbrev pub go_on : Run (Shell S) → Run (Next S)
  go_on r = r >>= λ sh'. ok (running sh')

  -- The chain of tests on `argv[0]`.
  unfoldable pub dispatch : List (List ℕ) → Shell S → Run (Next S)
  dispatch argv sh =
      let is : List ℕ → Bool = λ name. seq (arg argv 0) name in
      if is (codes "help")
      then go_on (cmd_help board sh)
      else if is (codes "ls")
      then go_on (cmd_ls board ent argv sh)
      else if is (codes "pwd")
      then go_on (cmd_pwd board sh)
      else if is (codes "cd")
      then go_on (cmd_cd board argv sh)
      else if is (codes "mkdir")
      then go_on (cmd_mkdir board kmalloc uninitialised argv sh)
      else if is (codes "touch")
      then go_on (cmd_touch board kmalloc uninitialised argv sh)
      else if is (codes "cat")
      then go_on (cmd_cat board stack argv sh)
      else if is (codes "write")
      then go_on (cmd_write board kmalloc uninitialised argv sh)
      else if is (codes "rm")
      then go_on (cmd_rm board argv sh)
      else if is (codes "clear")
      then go_on (cmd_clear board sh)
      else if is (codes "kernel")
      then go_on (print_banner board sh)
      else if is (codes "shutdown")
      then cmd_shutdown sh
      else if is (codes "uptime")
      then go_on (cmd_timer board sh)
      else go_on
          (say board (arg argv 0) sh >>= λ sh1. say board (codes ": command not found\r\n") sh1)

  -- What is done with a line.
  unfoldable pub execute : List ℕ → Shell S → Run (Next S)
  execute line sh =
      if length line == 0
      then ok (running sh)
      else (let argv = parse_args max_args line in
          if length argv == 0 then ok (running sh) else dispatch argv sh)

  -- One round of the loop of `shell_run`.
  unfoldable pub shell_round : Shell S → Run (Next S)
  shell_round sh = do
    sh1 ← say board sh.cwd_path sh
    sh2 ← say board (codes "$ ") sh1
    (line, bus') ← read_line board max_line sh2.bus
    execute line (record sh2 { bus = bus' })

  -- `n` rounds of the loop, fewer where the core is parked.
  unfoldable pub shell_rounds : ℕ → Shell S → Run (Next S)
  shell_rounds zero sh = ok (running sh)
  shell_rounds (suc n) sh = shell_round sh >>= λ next. elim next [
    | running sh' ↦ shell_rounds n sh'
    | parked sh' ↦ ok (parked sh')
  ]

  -- `shell_run` for `n` rounds.
  unfoldable pub shell_run : ℕ → Shell S → Run (Next S)
  shell_run n sh = do
    sh1 ← say board (codes "\r\n") sh
    sh2 ← print_banner board sh1
    shell_rounds n sh2
