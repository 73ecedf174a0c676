-- ===== src/Shell/Editing.antt =====
-- The commands of src/shell/shell.cpp that change files: `cmd_mkdir`, `cmd_touch`, `cmd_rm` and
-- `cmd_write`.
use kehinde_kernel.Prelude.{
  ℕ, suc, ◌<◌, ◌≡◌, inl, inr, arith, true, ◌==◌, ltb, if◌then◌else◌, length, List, drop, some,
  Bool-cases,
}
use kehinde_kernel.Prelude.Codes.{codes}
use kehinde_kernel.Run.{ok, ◌>>=◌}
use kehinde_kernel.Run.Ends.{returns, Ends->>=}
use kehinde_kernel.Board.{Board}
use kehinde_kernel.Filesystem.{null_next, Fs, Block, Kmalloc, Ret, minus_one, ret, invalid_ino}
use kehinde_kernel.Filesystem.Names.{char_at}
use kehinde_kernel.Filesystem.File.{fs_write}
use kehinde_kernel.Filesystem.File.Write.{ReturnsOrPanics, OutOfMemory}
use kehinde_kernel.Shell.{Shell, max_line, in_buffer, join_args, say}
use kehinde_kernel.Shell.Commands.{arg, create_command, cmd_rm, cmd_write}
use kehinde_kernel.Shell.Valid.{IsValid, Counts, Counts-fewer, Lasts, TooLong, Keeps, say-Keeps}
use kehinde_kernel.Shell.Paths.{Found, resolve_path-Ends}
use kehinde_kernel.Shell.Changes.{
  Kept, with_files, fs_create-Changes, fs_unlink-Changes, fs_write-Changes,
}

module _ {S : Type 0} {limit : ℕ} (sh : Shell S) (v : IsValid sh)
    (c : Counts (suc limit) sh.fs) where
  lasts : Lasts limit sh
  lasts = record { valid = v; counts = Counts-fewer limit sh.fs c }

  -- Where a call that changes files has come back, its message is printed.
  say_after :
      {Oom M : Type 0} (board : Board) (text : List ℕ) (fs' : Fs S)
      → Kept sh.cwd_ino sh.fs fs'
      → Keeps limit Oom M (say board text (record sh { fs = fs' }))
  say_after board text fs' k =
      say-Keeps board text (record sh { fs = fs' }) (with_files sh v fs' k c)

  pub create_command-Keeps :
      {M : Type 0} (board : Board) (kmalloc : Kmalloc S) (uninitialised : Block) (command : List ℕ)
      (type : ℕ) (argv : List (List ℕ))
      → ReturnsOrPanics kmalloc
      → Keeps limit
          (OutOfMemory kmalloc)
          M
          (create_command board kmalloc (null_next uninitialised) command type argv sh)
  unfolding create_command
  create_command-Keeps board kmalloc uninitialised command type argv total =
      elim (Bool-cases (ltb (length argv) 2)) [
        | inl few ↦ rw few (say-Keeps board _ sh lasts)
        | inr enough ↦ elim (Bool-cases (char_at (arg argv 1) 0 == b'/')) [
          | inl absolute ↦ rw (enough, absolute) (say-Keeps board _ sh lasts)
          | inr relative ↦
              rw (enough, relative)
                (Ends->>= _ (fs_create-Changes sh v kmalloc uninitialised (arg argv 1) type total c)
                  (λ (ino, fs') k. elim (Bool-cases (ino == invalid_ino)) [
                    | inl failed ↦ rw failed (say_after board _ fs' k)
                    | inr made ↦ rw made (returns (with_files sh v fs' k c))
                  ]))
        ]
      ]

  removed-Keeps :
      {Oom M : Type 0} (board : Board) (status : Ret) (fs' : Fs S)
      → Kept sh.cwd_ino sh.fs fs'
      → Keeps limit Oom M (elim status [
        | minus_one ↦
            say board
              (codes "rm: failed (not found or non-empty directory)\r\n")
              (record sh { fs = fs' })
        | ret n ↦ ok (record sh { fs = fs' })
      ])
  removed-Keeps board minus_one fs' k = say_after board _ fs' k
  removed-Keeps board (ret n) fs' k = returns (with_files sh v fs' k c)

  pub cmd_rm-Keeps :
      {Oom M : Type 0} (board : Board) (argv : List (List ℕ))
      → Keeps limit Oom M (cmd_rm board argv sh)
  unfolding cmd_rm
  cmd_rm-Keeps board argv = elim (Bool-cases (ltb (length argv) 2)) [
    | inl few ↦ rw few (say-Keeps board _ sh lasts)
    | inr enough ↦ elim (Bool-cases (char_at (arg argv 1) 0 == b'/')) [
      | inl absolute ↦ rw (enough, absolute) (say-Keeps board _ sh lasts)
      | inr relative ↦
          rw (enough, relative)
            (Ends->>= _ (fs_unlink-Changes sh v (arg argv 1))
              (λ (status, fs') k. removed-Keeps board status fs' k))
    ]
  ]

  written-Keeps :
      {Oom M : Type 0} (board : Board) (status : Ret) (fs' : Fs S)
      → Kept sh.cwd_ino sh.fs fs'
      → Keeps limit Oom M (elim status [
        | minus_one ↦ say board (codes "write: failed\r\n") (record sh { fs = fs' })
        | ret n ↦ ok (record sh { fs = fs' })
      ])
  written-Keeps board minus_one fs' k = say_after board _ fs' k
  written-Keeps board (ret n) fs' k = returns (with_files sh v fs' k c)

  store-Keeps :
      {M : Type 0} (board : Board) (kmalloc : Kmalloc S) (uninitialised : Block) (ino : ℕ)
      (text : List ℕ)
      → ReturnsOrPanics kmalloc
      → Found sh.fs.inodes ino
      → length text < max_line
      → Keeps limit (OutOfMemory kmalloc) M (
          if ino == invalid_ino
          then say board (codes "write: not found\r\n") sh
          else (in_buffer max_line text >>= λ text.
              fs_write kmalloc
                (null_next uninitialised)
                sh.fs
                ino
                0
                (length text)
                (some (char_at text))
              >>= λ (status, fs'). elim status [
                | minus_one ↦ say board (codes "write: failed\r\n") (record sh { fs = fs' })
                | ret n ↦ ok (record sh { fs = fs' })
              ]))
  unfolding in_buffer
  store-Keeps board kmalloc uninitialised ino text total (inl e) short =
      rw e (say-Keeps board _ sh lasts)
  store-Keeps board kmalloc uninitialised ino text total (inr (n, at)) short =
      elim (Bool-cases (ino == invalid_ino)) [
        | inl absent ↦ rw absent (say-Keeps board _ sh lasts)
        | inr present ↦
            let fits : ltb (length text) max_line ≡ true = ground arith in
            rw (present, fits)
              (Ends->>= _
                (fs_write-Changes sh v kmalloc uninitialised ino (length text) (char_at text) n
                  total at (omega arith))
                (λ (status, fs') k. written-Keeps board status fs' k))
      ]

  -- `write` keeps the state if its text fits into the buffer.
  pub cmd_write-Keeps :
      (board : Board) (kmalloc : Kmalloc S) (uninitialised : Block) (argv : List (List ℕ))
      → ReturnsOrPanics kmalloc
      → length (join_args (drop 2 argv)) < max_line
      → Keeps limit
          (OutOfMemory kmalloc)
          (TooLong sh.cwd_path (arg argv 1))
          (cmd_write board kmalloc (null_next uninitialised) argv sh)
  unfolding cmd_write
  cmd_write-Keeps board kmalloc uninitialised argv total short =
      elim (Bool-cases (ltb (length argv) 3)) [
        | inl few ↦ rw few (say-Keeps board _ sh lasts)
        | inr enough ↦ rw enough (
            Ends->>= _ (resolve_path-Ends sh v (arg argv 1)) (λ ino known.
              store-Keeps board kmalloc uninitialised ino (join_args (drop 2 argv)) total known
                short))
      ]
