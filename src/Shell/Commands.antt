-- ===== src/Shell/Commands.antt =====
-- The commands of src/shell/shell.cpp. `stack` is what the memory of a local buffer holds before it
-- is written.
use kehinde_kernel.Prelude.{
  ℕ, zero, suc, ◌+◌, Bool, true, false, not, ◌==◌, ltb, if◌then◌else◌, length, get_or, update, drop,
  List, [], ◌∷◌, ◌++◌, none, some,
}
use kehinde_kernel.Prelude.Codes.{codes}
use kehinde_kernel.Run.{Run, ok, fault, out_of_fuel, ◌>>=◌}
use kehinde_kernel.Board.{Board}
use kehinde_kernel.Timer.{shell_print_time}
use kehinde_kernel.Filesystem.{
  RawBlock, Fs, Dirent, Kmalloc, Ret, minus_one, ret, find_inode, file_type, dir_type, invalid_ino,
}
use kehinde_kernel.Filesystem.Names.{char_at}
use kehinde_kernel.Filesystem.Directory.{fs_create, fs_unlink, fs_readdir}
use kehinde_kernel.Filesystem.File.{fs_read, fs_write, fs_stat}
use kehinde_kernel.Shell.{
  Shell, max_line, max_path, in_buffer, join_args, extend_path, resolve_path, say,
}

-- `argv[i]`, for `i < argc`.
abbrev pub arg : List (List ℕ) → ℕ → List ℕ
arg argv i = get_or argv i []

-- The type that `fs_stat` stores in a variable that holds 0.
unfoldable pub type_of : {S : Type 0} → Fs S → ℕ → ℕ
type_of fs ino =
    let (status, size, kind) = fs_stat fs ino none (some 0) in elim kind [ none ↦ 0 | some t ↦ t ]

-- The size of the inode, which bounds the rounds of the loops over its contents.
unfoldable pub size_bound : {S : Type 0} → Fs S → ℕ → ℕ
size_bound fs ino = elim (find_inode ino fs.inodes) [ none ↦ 0 | some n ↦ n.inode_size ]

-- The bytes of a buffer before its terminator, from index `i` with `n` bytes to go.
unfoldable pub text_in : (ℕ → ℕ) → ℕ → ℕ → List ℕ
text_in buf i zero = []
text_in buf i (suc n) = let rest = text_in buf (i + 1) n in if buf i == 0 then [] else buf i ∷ rest

-- The new `cwd_path` of `cmd_cd`.
unfoldable pub next_path : List ℕ → List ℕ → Run (List ℕ)
next_path cwd target =
    if char_at target 0 == b'/'
    then in_buffer max_path target
    else in_buffer max_path (extend_path cwd target)

module _ {S : Type 0} (board : Board) where
  -- `print_banner`.
  unfoldable pub print_banner : Shell S → Run (Shell S)
  print_banner sh = do
    sh1 ← say board (codes "kehinde-kernel v1.1.1\r\n") sh
    sh2 ← say board (codes "Authored by Kehinde Adeoso\r\n") sh1
    sh3 ← say board (codes "Finished May 13, 2026. Updated June 2, 2026\r\n") sh2
    say board (codes "Type 'help' for a list of commands.\r\n") sh3

  unfoldable pub say_all : List (List ℕ) → Shell S → Run (Shell S)
  say_all [] sh = ok sh
  say_all (text ∷ rest) sh = say board text sh >>= λ sh'. say_all rest sh'

  -- `cmd_help`.
  unfoldable pub cmd_help : Shell S → Run (Shell S)
  cmd_help = say_all (
      codes "Commands:\r\n"
      ∷ codes "  ls [path]              list directory\r\n"
      ∷ codes "  pwd                    print working directory\r\n"
      ∷ codes "  cd <path>              change directory\r\n"
      ∷ codes "  mkdir <name>           create directory\r\n"
      ∷ codes "  touch <name>           create empty file\r\n"
      ∷ codes "  write <file> <text>    write text to file\r\n"
      ∷ codes "  cat <file>             print file contents\r\n"
      ∷ codes "  rm <name>              remove file or empty directory\r\n"
      ∷ codes "  clear                  clear the screen\r\n"
      ∷ codes "  kernel                 show kernel info\r\n"
      ∷ codes "  uptime                 print the uptime of the kernel\r\n"
      ∷ codes "  shutdown               halt the system\r\n"
      ∷ codes "  help                   show this message\r\n"
      ∷ [])

  -- `cmd_clear`.
  unfoldable pub cmd_clear : Shell S → Run (Shell S)
  cmd_clear = say board ((27 ∷ codes "[2J") ++ (27 ∷ codes "[H"))

  -- `cmd_pwd`.
  unfoldable pub cmd_pwd : Shell S → Run (Shell S)
  cmd_pwd sh = do sh1 ← say board sh.cwd_path sh; say board (codes "\r\n") sh1

  -- The loop of `cmd_ls` at entry `i`, in at most `fuel` rounds, with the entry that `ent` holds.
  unfoldable pub ls_loop : ℕ → ℕ → ℕ → Bool → Dirent → Shell S → Run (Bool × Shell S)
  ls_loop zero dir_ino i any ent sh = out_of_fuel
  ls_loop (suc fuel) dir_ino i any ent sh =
      fs_readdir sh.fs dir_ino i (some ent) >>= λ (status, out). elim out [
        | none ↦ fault
        | some found ↦ elim status [
          | minus_one ↦ ok (any, sh)
          | ret n ↦
              let round : Run (Bool × Shell S) =
                (say board found.name sh >>= λ sh1.
                (if type_of sh1.fs found.inode_id == dir_type
                  then say board (codes "/") sh1
                  else ok sh1)
                >>= λ sh2. say board (codes "\r\n") sh2 >>= λ sh3.
                    ls_loop fuel dir_ino (i + 1) true found sh3) in
              if n == 1 then round else ok (any, sh)
        ]
      ]

  -- The part of `cmd_ls` behind the choice of the directory.
  unfoldable pub list_directory : Dirent → ℕ → Shell S → Run (Shell S)
  list_directory ent dir_ino sh =
      ls_loop (size_bound sh.fs dir_ino + 1) dir_ino 0 false ent sh >>= λ (any, sh1).
      if any then ok sh1 else say board (codes "(empty)\r\n") sh1

  -- `cmd_ls`; `ent` is what its local variable holds.
  unfoldable pub cmd_ls : Dirent → List (List ℕ) → Shell S → Run (Shell S)
  cmd_ls ent argv sh =
      if ltb (length argv) 2
      then list_directory ent sh.cwd_ino sh
      else (resolve_path sh (arg argv 1) >>= λ dir_ino.
          if dir_ino == invalid_ino
          then say board (codes "ls: not found\r\n") sh
          else list_directory ent dir_ino sh)

  -- `cmd_cd`.
  unfoldable pub cmd_cd : List (List ℕ) → Shell S → Run (Shell S)
  cmd_cd argv sh =
      if ltb (length argv) 2
      then say board (codes "cd: missing path\r\n") sh
      else (resolve_path sh (arg argv 1) >>= λ new_ino.
          if new_ino == invalid_ino
          then say board (codes "cd: not found\r\n") sh
          else if not (type_of sh.fs new_ino == dir_type)
          then say board (codes "cd: not a directory\r\n") sh
          else (next_path sh.cwd_path (arg argv 1) >>= λ path.
              ok (record sh { cwd_ino = new_ino; cwd_path = path })))

  -- `cmd_rm`.
  unfoldable pub cmd_rm : List (List ℕ) → Shell S → Run (Shell S)
  cmd_rm argv sh =
      if ltb (length argv) 2
      then say board (codes "rm: missing name\r\n") sh
      else if char_at (arg argv 1) 0 == b'/'
      then say board (codes "rm: use relative names\r\n") sh
      else (fs_unlink sh.fs sh.cwd_ino (arg argv 1) >>= λ (status, fs'). elim status [
        | minus_one ↦
            say board (codes "rm: failed (not found or non-empty directory)\r\n")
              (record sh { fs = fs' })
        | ret n ↦ ok (record sh { fs = fs' })
      ])

  -- `cmd_timer`.
  unfoldable pub cmd_timer : Shell S → Run (Shell S)
  cmd_timer sh = do
    bus1 ← shell_print_time board sh.timer sh.bus
    say board (codes "\n") (record sh { bus = bus1 })

  -- The loop of `cmd_cat` at `offset`: the result of the last read.
  unfoldable pub cat_loop : ℕ → ℕ → ℕ → (ℕ → ℕ) → Shell S → Run (Ret × Shell S)
  cat_loop zero ino offset buf sh = out_of_fuel
  cat_loop (suc fuel) ino offset buf sh =
      fs_read sh.fs ino offset 127 (some buf) >>= λ (status, out). elim out [
        | none ↦ fault
        | some buf1 ↦ elim status [
          | minus_one ↦ ok (minus_one, sh)
          | ret n ↦
              let round : Run (Ret × Shell S) =
                (say board (text_in (update buf1 n 0) 0 n) sh >>= λ sh1.
                cat_loop fuel ino (offset + n) (update buf1 n 0) sh1) in
              if ltb 0 n then round else ok (ret n, sh)
        ]
      ]

  -- `cmd_cat`.
  unfoldable pub cmd_cat : (ℕ → ℕ) → List (List ℕ) → Shell S → Run (Shell S)
  cmd_cat stack argv sh =
      if ltb (length argv) 2
      then say board (codes "cat: missing file\r\n") sh
      else (resolve_path sh (arg argv 1) >>= λ ino.
          if ino == invalid_ino
          then say board (codes "cat: not found\r\n") sh
          else (cat_loop (size_bound sh.fs ino + 1) ino 0 stack sh >>= λ (n, sh1). elim n [
            | minus_one ↦ say board (codes "cat: read error\r\n") sh1
            | ret k ↦ say board (codes "\r\n") sh1
          ]))

  module _ (kmalloc : Kmalloc S) (uninitialised : RawBlock) where
    -- `cmd_mkdir` and `cmd_touch`, which differ in the type and in the name in the messages.
    unfoldable pub create_command : List ℕ → ℕ → List (List ℕ) → Shell S → Run (Shell S)
    create_command command type argv sh =
        if ltb (length argv) 2
        then say board (command ++ codes ": missing name\r\n") sh
        else if char_at (arg argv 1) 0 == b'/'
        then say board (command ++ codes ": use relative names\r\n") sh
        else (fs_create kmalloc uninitialised sh.fs sh.cwd_ino (arg argv 1) type >>= λ (ino, fs').
            if ino == invalid_ino
            then say board (command ++ codes ": failed (name exists or invalid)\r\n")
                (record sh { fs = fs' })
            else ok (record sh { fs = fs' }))

    -- `cmd_mkdir`.
    unfoldable pub cmd_mkdir : List (List ℕ) → Shell S → Run (Shell S)
    cmd_mkdir = create_command (codes "mkdir") dir_type

    -- `cmd_touch`.
    unfoldable pub cmd_touch : List (List ℕ) → Shell S → Run (Shell S)
    cmd_touch = create_command (codes "touch") file_type

    -- `cmd_write`.
    unfoldable pub cmd_write : List (List ℕ) → Shell S → Run (Shell S)
    cmd_write argv sh =
        if ltb (length argv) 3
        then say board (codes "write: usage: write <file> <text>\r\n") sh
        else (resolve_path sh (arg argv 1) >>= λ ino.
            if ino == invalid_ino
            then say board (codes "write: not found\r\n") sh
            else (in_buffer max_line (join_args (drop 2 argv)) >>= λ text.
                fs_write kmalloc uninitialised sh.fs ino 0 (length text) (some (char_at text))
                >>= λ (status, fs'). elim status [
                  | minus_one ↦ say board (codes "write: failed\r\n") (record sh { fs = fs' })
                  | ret n ↦ ok (record sh { fs = fs' })
                ]))
