-- ===== src/Shell/Cat.antt =====
-- What `cmd_cat` of src/shell/shell.cpp prints.
use kehinde_kernel.Prelude.{
  ℕ, zero, suc, ◌+◌, ◌-◌, ◌≤◌, ◌<◌, ◌≡◌, ◌≢◌, inl, inr, refl, ap, ◌∙◌, arith, false, ◌==◌, ltb,
  if◌then◌else◌, length, List, ◌++◌, none, some, Bool-cases, Option-cases,
}
use kehinde_kernel.Prelude.Codes.{codes}
use kehinde_kernel.Run.{Run, ok, ◌>>=◌, >>=-assoc}
use kehinde_kernel.Run.Ends.{Ends->>=}
use kehinde_kernel.Board.{Board}
use kehinde_kernel.Filesystem.{Fs, Inode, minus_one, ret, find_inode, file_type, invalid_ino}
use kehinde_kernel.Filesystem.File.{fs_read}
use kehinde_kernel.Filesystem.File.Content.{content}
use kehinde_kernel.Shell.{Shell, say, resolve_path}
use kehinde_kernel.Shell.Commands.{arg, size_bound, cat_loop, cmd_cat}
use kehinde_kernel.Shell.Listing.{say-append}
use kehinde_kernel.Shell.Directories.{size_bound_lem}
use kehinde_kernel.Shell.Valid.{IsValid, Lasts, TooLong, Keeps, say-Keeps}
use kehinde_kernel.Shell.Paths.{resolve_path-Ends}
use kehinde_kernel.Shell.Printing.{bytes, pieces, pieces-bytes, cat_loop-pieces}

-- What `cat` prints of an inode.
unfoldable pub cat_text : {S : Type 0} → Fs S → ℕ → List ℕ
cat_text fs ino = elim (find_inode ino fs.inodes) [
  | none ↦ codes "cat: read error\r\n"
  | some n ↦
      if n.inode_type == file_type
      then pieces n (n.inode_size + 1) 0 ++ codes "\r\n"
      else codes "cat: read error\r\n"
]

module _ {S : Type 0} (board : Board) (stack : ℕ → ℕ) (sh : Shell S) where
  fs_read-none :
      (ino : ℕ)
      → find_inode ino sh.fs.inodes ≡ none
      → fs_read sh.fs ino 0 127 (some stack) ≡ ok (minus_one, some stack)
  unfolding fs_read
  fs_read-none ino at = rw (at, fs_read) refl

  fs_read_other :
      (ino : ℕ) (n : Inode)
      → find_inode ino sh.fs.inodes ≡ some n
      → (n.inode_type == file_type) ≡ false
      → fs_read sh.fs ino 0 127 (some stack) ≡ ok (minus_one, some stack)
  unfolding fs_read
  fs_read_other ino n at other = rw (at, fs_read, other) refl

  -- The part of `cmd_cat` behind the choice of the file.
  abbrev print_file : ℕ → Run (Shell S)
  print_file ino = cat_loop board (size_bound sh.fs ino + 1) ino 0 stack sh >>= λ (n, sh1). elim n [
    | minus_one ↦ say board (codes "cat: read error\r\n") sh1
    | ret k ↦ say board (codes "\r\n") sh1
  ]

  print_file_refused :
      (ino fuel : ℕ)
      → fs_read sh.fs ino 0 127 (some stack) ≡ ok (minus_one, some stack)
      → 0 < fuel
      → (cat_loop board fuel ino 0 stack sh >>= λ (n, sh1). elim n [
        | minus_one ↦ say board (codes "cat: read error\r\n") sh1
        | ret k ↦ say board (codes "\r\n") sh1
      ])
        ≡ say board (codes "cat: read error\r\n") sh
  unfolding cat_loop
  print_file_refused ino zero h lt = absurd (omega arith)
  print_file_refused ino (suc fuel) h lt = rw h refl

  print_file-pieces :
      IsValid sh
      → (ino : ℕ) (n : Inode) → find_inode ino sh.fs.inodes ≡ some n
      → n.inode_type ≡ file_type
      → print_file ino ≡ say board (pieces n (n.inode_size + 1) 0 ++ codes "\r\n") sh
  print_file-pieces v ino n at is_file = rw (size_bound_lem sh.fs ino n at) (
      ap
        (λ r. r >>= λ (n, sh1). elim n [
          | minus_one ↦ say board (codes "cat: read error\r\n") sh1
          | ret k ↦ say board (codes "\r\n") sh1
        ])
        (cat_loop-pieces board ino n is_file ((v.files.sound ino n at).file_room is_file)
          (v.small ino n at is_file) (n.inode_size + 1) 0 stack sh at (omega arith) (omega arith))
      ∙ >>=-assoc (say board (pieces n (n.inode_size + 1) 0) sh) _ _
      ∙ say-append board (pieces n (n.inode_size + 1) 0) (codes "\r\n") sh)

  print_file-cat_text : IsValid sh → (ino : ℕ) → print_file ino ≡ say board (cat_text sh.fs ino) sh
  unfolding cat_text
  print_file-cat_text v ino = elim (Option-cases (find_inode ino sh.fs.inodes)) [
    | inl at ↦ rw (at, cat_text) (print_file_refused ino _ (fs_read-none ino at) (omega arith))
    | inr (n, at) ↦ elim (Bool-cases (n.inode_type == file_type)) [
      | inl file ↦ rw (at, cat_text, file) (print_file-pieces v ino n at (ground arith))
      | inr other ↦
          rw (at, cat_text, other)
            (print_file_refused ino _ (fs_read_other ino n at other) (omega arith))
    ]
  ]

  pub cmd_cat-Keeps :
      {n : ℕ} {Oom : Type 0}
      → Lasts n sh
      → (argv : List (List ℕ))
      → Keeps n Oom (TooLong sh.cwd_path (arg argv 1)) (cmd_cat board stack argv sh)
  unfolding cmd_cat
  cmd_cat-Keeps l argv = elim (Bool-cases (ltb (length argv) 2)) [
    | inl few ↦ rw few (say-Keeps board _ sh l)
    | inr enough ↦ rw enough (
        Ends->>= _ (resolve_path-Ends sh l.valid (arg argv 1)) (λ ino known.
          elim (Bool-cases (ino == invalid_ino)) [
            | inl absent ↦ rw absent (say-Keeps board _ sh l)
            | inr present ↦ rw (present, print_file-cat_text l.valid ino) (say-Keeps board _ sh l)
          ]))
  ]

  -- In a valid state `cat` prints exactly the bytes of a regular file in which no byte is 0, and a
  -- line break, whatever its size and whatever its local buffer holds before. The loop comes to its
  -- end, and the files do not change.
  pub cmd_cat-bytes :
      IsValid sh
      → (argv : List (List ℕ)) (ino : ℕ) (n : Inode) → 2 ≤ length argv
      → resolve_path sh (arg argv 1) ≡ ok ino
      → ino ≢ invalid_ino
      → find_inode ino sh.fs.inodes ≡ some n
      → n.inode_type ≡ file_type
      → ((p : ℕ) → p < n.inode_size → (content n.chain p == 0) ≡ false)
      → cmd_cat board stack argv sh ≡ say board (bytes n.chain 0 n.inode_size ++ codes "\r\n") sh
  unfolding cmd_cat
  cmd_cat-bytes v argv ino n operand leads known at is_file no_null =
      let enough : ltb (length argv) 2 ≡ false = ground arith in
      let present : (ino == invalid_ino) ≡ false = ground arith in
      let whole : n.inode_size - 0 ≡ n.inode_size = omega arith in
      rw (enough, leads, present, print_file-pieces v ino n at is_file)
        (ap (λ t. say board (t ++ codes "\r\n") sh)
          (pieces-bytes n (n.inode_size + 1) 0 (omega arith) (omega arith) no_null
            ∙ ap (λ k. bytes n.chain 0 k) whole))
