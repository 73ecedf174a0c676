-- ===== src/Shell/Safety.antt =====
-- The loop of `shell_run` of src/shell/shell.cpp keeps its state.
use kehinde_kernel.Prelude.{
  ℕ, zero, suc, sym, ap, subst, ◌∙◌, ◌≤◌, ◌<◌, ◌≡◌, refl, arith, Bool, true, false, ◌==◌,
  if◌then◌else◌, length, drop, List,
}
use kehinde_kernel.Prelude.Codes.{codes}
use kehinde_kernel.Run.{Run, ok}
use kehinde_kernel.Run.Ends.{Ends, returns, Ends->>=, Ends-weaker, Ends-known}
use kehinde_kernel.Board.{Board}
use kehinde_kernel.Uart.{Bus}
use kehinde_kernel.Filesystem.{null_next, Block, Dirent, Kmalloc, dir_type, file_type}
use kehinde_kernel.Filesystem.File.Write.{ReturnsOrPanics, OutOfMemory}
use kehinde_kernel.Shell.{Shell, max_line, max_args, seq, join_args, parse_args, say}
use kehinde_kernel.Shell.Commands.{arg, cmd_mkdir, cmd_touch}
use kehinde_kernel.Shell.Loop.{
  Next, running, parked, cmd_shutdown, go_on, dispatch, execute, shell_round, shell_rounds,
  shell_run,
}
use kehinde_kernel.Shell.Valid.{
  IsValid, Counts, Counts-fewer, Lasts, TooLong, Keeps, bus-IsValid, say-Bus, say-Keeps,
}
use kehinde_kernel.Shell.Paths.{cmd_cd-Keeps}
use kehinde_kernel.Shell.Editing.{create_command-Keeps, cmd_rm-Keeps, cmd_write-Keeps}
use kehinde_kernel.Shell.Directories.{cmd_ls-Keeps}
use kehinde_kernel.Shell.Cat.{cmd_cat-Keeps}
use kehinde_kernel.Shell.Tokens.{join_args-parse_args-length}
use kehinde_kernel.Shell.Typing.{read_line-IsLine}
use kehinde_kernel.Shell.Sizes.{length-join_args-drop_two, length-arg, length-extend_path_le}
use kehinde_kernel.Shell.Replies.{
  cmd_help-Keeps, cmd_clear-Keeps, cmd_pwd-Keeps, print_banner-Keeps, cmd_timer-Keeps,
}

-- The state of the shell when it goes on or has parked the core.
abbrev pub StaysLasting : {S : Type 0} → ℕ → Next S → Type 0
StaysLasting n (running sh) = Lasts n sh
StaysLasting n (parked sh) = Lasts n sh

-- The same, without the counts.
abbrev pub StaysValid : {S : Type 0} → Next S → Type 0
StaysValid (running sh) = IsValid sh
StaysValid (parked sh) = IsValid sh

module _ {S : Type 0} (board : Board) (kmalloc : Kmalloc S) (uninitialised : Block) (stack : ℕ → ℕ)
    (ent : Dirent) (total : ReturnsOrPanics kmalloc) where
  abbrev Stays : ℕ → Type 0 → Run (Next S) → Type 0
  Stays n M = Ends (OutOfMemory kmalloc) M (λ (next : Next S). StaysLasting n next)

  go_on-Stays :
      {n : ℕ} {M : Type 0} (r : Run (Shell S))
      → Keeps n (OutOfMemory kmalloc) M r
      → Stays n M (go_on board kmalloc (null_next uninitialised) stack ent r)
  go_on-Stays r keeps = Ends->>= _ keeps (λ sh' v'. returns v')

  if-Stays :
      {n : ℕ} {M : Type 0} (test : Bool) {x y : Run (Next S)}
      → Stays n M x
      → Stays n M y
      → Stays n M (if test then x else y)
  if-Stays true hx hy = hx
  if-Stays false hx hy = hy

  cmd_shutdown-Stays :
      {n : ℕ} {M : Type 0} (sh : Shell S)
      → Lasts n sh
      → Stays n M (cmd_shutdown board kmalloc (null_next uninitialised) stack ent sh)
  unfolding cmd_shutdown
  cmd_shutdown-Stays sh v = Ends->>= _ (say-Keeps board _ sh v) (λ sh' v'. returns v')

  module _ {n : ℕ} (sh : Shell S) (valid : IsValid sh) (c : Counts (suc n) sh.fs) where
    dispatch-Stays :
        (argv : List (List ℕ))
        → length (join_args (drop 2 argv)) < max_line
        → Stays n
            (TooLong sh.cwd_path (arg argv 1))
            (dispatch board kmalloc (null_next uninitialised) stack ent argv sh)
    unfolding dispatch cmd_mkdir cmd_touch
    dispatch-Stays argv short =
        let is : List ℕ → Bool = λ name. seq (arg argv 0) name in
        let v : Lasts n sh = record { valid = valid; counts = Counts-fewer n sh.fs c } in
        let create : (command : List ℕ) (type : ℕ) → _ = λ command type.
          create_command-Keeps sh valid c {M = TooLong sh.cwd_path (arg argv 1)} board kmalloc
            uninitialised command type argv total in
        if-Stays (is (codes "help")) (go_on-Stays _ (cmd_help-Keeps board sh v)) (
          if-Stays (is (codes "ls")) (go_on-Stays _ (cmd_ls-Keeps board ent sh v argv)) (
            if-Stays (is (codes "pwd")) (go_on-Stays _ (cmd_pwd-Keeps board sh v)) (
              if-Stays (is (codes "cd")) (go_on-Stays _ (cmd_cd-Keeps board argv sh v)) (
                if-Stays (is (codes "mkdir")) (go_on-Stays _ (create (codes "mkdir") dir_type)) (
                  if-Stays (is (codes "touch")) (go_on-Stays _ (create (codes "touch") file_type)) (
                    if-Stays (is (codes "cat"))
                      (go_on-Stays _ (cmd_cat-Keeps board stack sh v argv))
                      (if-Stays (is (codes "write"))
                        (go_on-Stays _
                          (cmd_write-Keeps sh valid c board kmalloc uninitialised argv total short))
                        (if-Stays (is (codes "rm"))
                          (go_on-Stays _ (cmd_rm-Keeps sh valid c board argv))
                          (if-Stays (is (codes "clear"))
                            (go_on-Stays _ (cmd_clear-Keeps board sh v))
                            (if-Stays (is (codes "kernel"))
                              (go_on-Stays _ (print_banner-Keeps board sh v))
                              (if-Stays (is (codes "shutdown")) (cmd_shutdown-Stays sh v) (
                                if-Stays (is (codes "uptime"))
                                  (go_on-Stays _ (cmd_timer-Keeps board sh v))
                                  (go_on-Stays _ (
                                    Ends->>= (say board (codes ": command not found\r\n"))
                                      (say-Keeps board (arg argv 0) sh v)
                                      (λ sh1 v1.
                                        say-Keeps board (codes ": command not found\r\n") sh1
                                          v1)))))))))))))))

    -- A line that fits into its buffer.
    execute-Stays :
        (line : List ℕ)
        → length line < max_line
        → Stays n
            (max_line ≤ length sh.cwd_path)
            (execute board kmalloc (null_next uninitialised) stack ent line sh)
    unfolding execute
    execute-Stays line short =
        let argv = parse_args max_args line in
        let v : Lasts n sh = record { valid = valid; counts = Counts-fewer n sh.fs c } in
        let parsed = join_args-parse_args-length max_args line in
        if-Stays (length line == 0) (returns v) (
          if-Stays (length argv == 0) (returns v) (
            Ends-weaker (λ x. x)
              (λ (long : TooLong sh.cwd_path (arg argv 1)).
                omega
                  (arith, length-extend_path_le sh.cwd_path (arg argv 1), length-arg argv, parsed))
              (λ next h. h)
              (dispatch-Stays argv (omega (arith, length-join_args-drop_two argv, parsed)))))

  -- The state when the line is read: only the devices have changed.
  round_from :
      {n : ℕ} (sh sh2 : Shell S) (bus : Bus)
      → IsValid sh
      → Counts (suc n) sh.fs
      → sh2 ≡ record sh { bus = bus }
      → (line : List ℕ) (bus' : Bus) → length line < max_line
      → Stays n (max_line ≤ length sh.cwd_path) (
          execute board kmalloc
            (null_next uninitialised)
            stack
            ent
            line
            (record sh2 { bus = bus' }))
  round_from {n} sh sh2 bus v c same line bus' short =
      subst
        (λ (t : Shell S). Stays n (max_line ≤ length sh.cwd_path) (
          execute board kmalloc (null_next uninitialised) stack ent line (record t { bus = bus' })))
        (sym same) (execute-Stays (record sh { bus = bus' }) (bus-IsValid sh bus' v) c line short)

  shell_round-Stays :
      {n : ℕ} (sh : Shell S)
      → IsValid sh
      → Counts (suc n) sh.fs
      → Stays n
          (max_line ≤ length sh.cwd_path)
          (shell_round board kmalloc (null_next uninitialised) stack ent sh)
  unfolding shell_round
  shell_round-Stays sh v c = Ends->>= _ (say-Bus board sh.cwd_path sh) (λ sh1 (bus1, e1).
      Ends->>= _ (say-Bus board (codes "$ ") sh1) (λ sh2 (bus2, e2).
        Ends->>= _
          (Ends-weaker (λ x. absurd x) (λ x. absurd x) (λ _ l. l)
            (read_line-IsLine board max_line sh2.bus))
          (λ (line, bus') l.
            round_from sh sh2 bus2 v c (e2 ∙ ap (λ (t : Shell S). record t { bus = bus2 }) e1) line
              bus' (omega (arith, l.0)))))

  -- One of the first `n` rounds from `sh` starts in a state whose path, with the longest line, may
  -- not fit into the buffer for it.
  abbrev pub GrowsLong : ℕ → Shell S → Type 0
  GrowsLong n sh =
      (k : ℕ) × (k < n)
      × (sh' : Shell S) × (shell_rounds board kmalloc (null_next uninitialised) stack ent k sh
          ≡ ok (running sh'))
      × (max_line ≤ length sh'.cwd_path)

  grows_later :
      (n : ℕ) (sh sh1 : Shell S)
      → shell_round board kmalloc (null_next uninitialised) stack ent sh ≡ ok (running sh1)
      → GrowsLong n sh1
      → GrowsLong (suc n) sh
  unfolding shell_rounds
  grows_later n sh sh1 first (k, lt, sh', reached, long) =
      (suc k, omega arith, sh', rw first reached, long)

  next-Stays :
      (n : ℕ) (sh : Shell S)
      → ((sh' : Shell S)
          → IsValid sh'
          → Counts n sh'.fs
          → Ends
              (OutOfMemory kmalloc)
              (GrowsLong n sh')
              (λ (next : Next S). StaysValid next)
              (shell_rounds board kmalloc (null_next uninitialised) stack ent n sh'))
      → (next : Next S) → StaysLasting n next
      → shell_round board kmalloc (null_next uninitialised) stack ent sh ≡ ok next
      → Ends
          (OutOfMemory kmalloc)
          (GrowsLong (suc n) sh)
          (λ (next : Next S). StaysValid next)
          (elim next [
            | running sh' ↦ shell_rounds board kmalloc (null_next uninitialised) stack ent n sh'
            | parked sh' ↦ ok (parked sh')
          ])
  next-Stays n sh h (running sh') l first =
      Ends-weaker (λ x. x) (grows_later n sh sh' first) (λ next v. v) (h sh' l.valid l.counts)
  next-Stays n sh h (parked sh') l first = returns l.valid

  -- From a valid state in which neither the next inode number nor the size of a directory is within
  -- `n` of `2 ^ 64`, with an allocator that returns or panics and whose blocks are null where `next`
  -- lies, and whatever is typed: `n` rounds of the shell end in a valid state or wait for the
  -- console. The files stay well formed, the current directory stays a directory, and its path stays
  -- in its buffer. The rounds panic only if a call of the allocator does. They follow a null pointer
  -- or write behind a buffer only if one of them starts in a state, reached by the rounds before it,
  -- whose path has 256 bytes or more.
  pub shell_rounds-StaysValid :
      (n : ℕ) (sh : Shell S)
      → IsValid sh
      → Counts n sh.fs
      → Ends
          (OutOfMemory kmalloc)
          (GrowsLong n sh)
          (λ (next : Next S). StaysValid next)
          (shell_rounds board kmalloc (null_next uninitialised) stack ent n sh)
  unfolding shell_rounds
  shell_rounds-StaysValid zero sh v c = returns v
  shell_rounds-StaysValid (suc n) sh v c =
      Ends->>= _
        (Ends-weaker (λ x. x)
          (λ (long : max_line ≤ length sh.cwd_path). (0, omega arith, sh, refl, long)) (λ next h. h)
          (Ends-known (shell_round-Stays sh v c)))
        (λ next (l, first). next-Stays n sh (shell_rounds-StaysValid n) next l first)

  -- So does `shell_run`, whose rounds start behind the banner.
  pub shell_run-StaysValid :
      (n : ℕ) (sh : Shell S)
      → IsValid sh
      → Counts n sh.fs
      → Ends
          (OutOfMemory kmalloc)
          ((k : ℕ) × (k < n)
            × (sh' : Shell S) × (shell_run board kmalloc (null_next uninitialised) stack ent k sh
                ≡ ok (running sh'))
            × (max_line ≤ length sh'.cwd_path))
          (λ (next : Next S). StaysValid next)
          (shell_run board kmalloc (null_next uninitialised) stack ent n sh)
  unfolding shell_run
  shell_run-StaysValid n sh v c =
      let l : Lasts n sh = record { valid = v; counts = c } in
      Ends->>= _ (Ends-known (say-Keeps board _ sh l)) (λ sh1 (l1, first).
        Ends->>= _ (Ends-known (print_banner-Keeps board sh1 l1)) (λ sh2 (l2, second).
          Ends-weaker (λ x. x)
            (λ (k, lt, sh', reached, long). (k, lt, sh', rw (first, second) reached, long))
            (λ next h. h) (shell_rounds-StaysValid n sh2 l2.valid l2.counts)))
