-- ===== src/Shell/Directories.antt =====
-- What `cmd_ls` of src/shell/shell.cpp prints.
use kehinde_kernel.Prelude.{
  ℕ, zero, suc, ◌+◌, ◌≤◌, ◌<◌, ◌≡◌, inl, inr, refl, sym, ap, ◌∙◌, arith, Bool, true, false, ◌==◌,
  ltb, if◌then◌else◌, length, List, [], ◌++◌, none, some, Bool-cases, Option-cases,
}
use kehinde_kernel.Prelude.Codes.{codes}
use kehinde_kernel.Run.{Run, ok, ◌>>=◌, >>=-cong, >>=-assoc, >>=-ok}
use kehinde_kernel.Run.Ends.{returns, Ends->>=}
use kehinde_kernel.Board.{Board}
use kehinde_kernel.Filesystem.{
  Fs, Inode, Dirent, Block, minus_one, ret, find_inode, dir_type, invalid_ino,
}
use kehinde_kernel.Filesystem.Directory.{fs_readdir}
use kehinde_kernel.Filesystem.Directory.Slots.{entry_of, slots}
use kehinde_kernel.Shell.{Shell, say, resolve_path}
use kehinde_kernel.Shell.Commands.{arg, type_of, size_bound, ls_loop, list_directory, cmd_ls}
use kehinde_kernel.Shell.Listing.{
  Enumerates, no_directory, ended, gives, fs_readdir-Enumerates, say-cong, say_join, say_nothing,
  say_if,
}
use kehinde_kernel.Shell.Valid.{IsValid, Lasts, TooLong, Keeps, say-Keeps}
use kehinde_kernel.Shell.Paths.{resolve_path-Ends}

-- A line of a listing: the name, with a slash behind it for a directory.
unfoldable pub entry_line : {S : Type 0} → Fs S → Dirent → List ℕ
entry_line fs e =
    e.name ++ ((if type_of fs e.inode_id == dir_type then codes "/" else []) ++ codes "\r\n")

-- The lines of `k` entries from entry `i` on.
unfoldable pub lines : {S : Type 0} → Fs S → List Block → ℕ → ℕ → List ℕ
lines fs chain i zero = []
lines fs chain i (suc k) = entry_line fs (entry_of chain i) ++ lines fs chain (i + 1) k

-- Whether an entry has been printed after `k` more.
unfoldable any_after : Bool → ℕ → Bool
any_after any zero = any
any_after any (suc k) = true

any_after-true : (k : ℕ) → any_after true k ≡ true
unfolding any_after
any_after-true zero = refl
any_after-true (suc k) = refl

-- The text that lists a directory.
unfoldable pub listing : {S : Type 0} → Fs S → Inode → List ℕ
listing fs n = if n.inode_size == 0 then codes "(empty)\r\n" else lines fs n.chain 0 n.inode_size

-- A round of the loop prints one line.
line-say :
    {S : Type 0} {A : Type 0} (board : Board) (e : Dirent) (sh : Shell S) (next : Shell S → Run A)
    → (say board e.name sh >>= λ sh1.
        (if type_of sh1.fs e.inode_id == dir_type then say board (codes "/") sh1 else ok sh1)
        >>= λ sh2. say board (codes "\r\n") sh2 >>= next)
      ≡ (say board (entry_line sh.fs e) sh >>= next)
unfolding entry_line
line-say board e sh next =
    say-cong board e.name sh _ _ (λ bus'.
      ap (λ r. r >>= λ sh2. say board (codes "\r\n") sh2 >>= next)
        (say_if board (type_of sh.fs e.inode_id == dir_type) (codes "/") (record sh { bus = bus' }))
      ∙ say_join board (if type_of sh.fs e.inode_id == dir_type then codes "/" else [])
          (codes "\r\n") _ next)
    ∙ say_join board e.name _ sh next

pub size_bound_lem :
    {S : Type 0} (fs : Fs S) (ino : ℕ) (n : Inode)
    → find_inode ino fs.inodes ≡ some n
    → size_bound fs ino ≡ n.inode_size
unfolding size_bound
size_bound_lem fs ino n at = rw (at, size_bound) refl

abbrev Roomy : Inode → Type 0
Roomy n = n.inode_type ≡ dir_type → n.inode_size ≤ slots n.chain

module _ {S : Type 0} (board : Board) (ino : ℕ) (n : Inode) (is_dir : n.inode_type ≡ dir_type)
    (room : Roomy n) where
  readdir_ended :
      (fs : Fs S) (i : ℕ) (old : Dirent)
      → find_inode ino fs.inodes ≡ some n
      → n.inode_size ≤ i
      → fs_readdir fs ino i (some old) ≡ ok (ret 0, some old)
  readdir_ended fs i old at past = go (fs_readdir-Enumerates fs ino i old n at room)
    where
      go : {r : _} → Enumerates n i old r → r ≡ ok (ret 0, some old)
      go (no_directory other) = absurd (ground arith)
      go (ended d le) = refl
      go (gives d lt) = absurd (omega arith)

  readdir_gives :
      (fs : Fs S) (i : ℕ) (old : Dirent)
      → find_inode ino fs.inodes ≡ some n
      → i < n.inode_size
      → fs_readdir fs ino i (some old) ≡ ok (ret 1, some (entry_of n.chain i))
  readdir_gives fs i old at inside = go (fs_readdir-Enumerates fs ino i old n at room)
    where
      go : {r : _} → Enumerates n i old r → r ≡ ok (ret 1, some (entry_of n.chain i))
      go (no_directory other) = absurd (ground arith)
      go (ended d le) = absurd (omega arith)
      go (gives d lt) = refl

  -- With enough fuel the loop prints the lines of the entries from `i` on.
  ls_loop-lines :
      (k fuel i : ℕ) (any : Bool) (ent : Dirent) (sh : Shell S)
      → find_inode ino sh.fs.inodes ≡ some n
      → i + k ≡ n.inode_size
      → k < fuel
      → ls_loop board fuel ino i any ent sh
        ≡ (say board (lines sh.fs n.chain i k) sh >>= λ sh'. ok (any_after any k, sh'))
  unfolding ls_loop lines any_after
  ls_loop-lines k zero i any ent sh at all lt = absurd (omega arith)
  ls_loop-lines zero (suc fuel) i any ent sh at all lt =
      rw (readdir_ended sh.fs i ent at (omega arith), say_nothing board sh) refl
  ls_loop-lines (suc k) (suc fuel) i any ent sh at all lt =
      let e = entry_of n.chain i in
      rw (readdir_gives sh.fs i ent at (omega arith)) (
        line-say board e sh (ls_loop board fuel ino (i + 1) true e)
        ∙ say-cong board (entry_line sh.fs e) sh _ _ (λ bus'.
          ls_loop-lines k fuel (i + 1) true e (record sh { bus = bus' }) at (omega arith)
            (omega arith)
          ∙ rw (any_after-true k) refl)
        ∙ say_join board (entry_line sh.fs e) (lines sh.fs n.chain (i + 1) k) sh _)

  -- Behind the loop, a listing without a line is replaced.
  printed :
      (sh : Shell S) (k : ℕ)
      → (say board (lines sh.fs n.chain 0 k) sh >>= λ sh'.
          if any_after false k then ok sh' else say board (codes "(empty)\r\n") sh')
        ≡ say board (if k == 0 then codes "(empty)\r\n" else lines sh.fs n.chain 0 k) sh
  unfolding lines any_after
  printed sh zero = rw (say_nothing board sh) refl
  printed sh (suc k) = let full : (suc k == 0) ≡ false = ground arith in rw full (>>=-ok _)

  -- The whole listing of a directory.
  list_directory-listing :
      (ent : Dirent) (sh : Shell S)
      → find_inode ino sh.fs.inodes ≡ some n
      → list_directory board ent ino sh ≡ say board (listing sh.fs n) sh
  unfolding list_directory listing
  list_directory-listing ent sh at =
      rw (size_bound_lem sh.fs ino n at, list_directory)
        (ap (λ r. r >>= λ (any, sh1). if any then ok sh1 else say board (codes "(empty)\r\n") sh1)
            (ls_loop-lines n.inode_size (n.inode_size + 1) 0 false ent sh at (omega arith)
              (omega arith))
          ∙ >>=-assoc (say board (lines sh.fs n.chain 0 n.inode_size) sh) _ _
          ∙ printed sh n.inode_size)

-- What `ls` prints of an inode.
unfoldable pub contents : {S : Type 0} → Fs S → ℕ → List ℕ
contents fs ino = elim (find_inode ino fs.inodes) [
  | none ↦ codes "(empty)\r\n"
  | some n ↦ if n.inode_type == dir_type then listing fs n else codes "(empty)\r\n"
]

-- What `ls` prints.
unfoldable pub ls_text : {S : Type 0} → Shell S → List (List ℕ) → Run (List ℕ)
ls_text sh argv =
    if ltb (length argv) 2
    then ok (contents sh.fs sh.cwd_ino)
    else (resolve_path sh (arg argv 1) >>= λ target.
        ok (if target == invalid_ino then codes "ls: not found\r\n" else contents sh.fs target))

module _ {S : Type 0} (board : Board) (ent : Dirent) (sh : Shell S) where
  fs_readdir-none :
      (ino i : ℕ)
      → find_inode ino sh.fs.inodes ≡ none
      → fs_readdir sh.fs ino i (some ent) ≡ ok (minus_one, some ent)
  unfolding fs_readdir
  fs_readdir-none ino i at = rw (at, fs_readdir) refl

  fs_readdir_other :
      (ino i : ℕ) (n : Inode)
      → find_inode ino sh.fs.inodes ≡ some n
      → (n.inode_type == dir_type) ≡ false
      → fs_readdir sh.fs ino i (some ent) ≡ ok (minus_one, some ent)
  unfolding fs_readdir
  fs_readdir_other ino i n at other = rw (at, fs_readdir, other) refl

  -- Where the first entry cannot be read, nothing is listed.
  list_directory_refused :
      (ino fuel : ℕ)
      → fs_readdir sh.fs ino 0 (some ent) ≡ ok (minus_one, some ent)
      → 0 < fuel
      → (ls_loop board fuel ino 0 false ent sh >>= λ (any, sh1).
          if any then ok sh1 else say board (codes "(empty)\r\n") sh1)
        ≡ say board (codes "(empty)\r\n") sh
  unfolding ls_loop
  list_directory_refused ino zero h lt = absurd (omega arith)
  list_directory_refused ino (suc fuel) h lt = rw h refl

  list_directory-contents :
      IsValid sh → (ino : ℕ) → list_directory board ent ino sh ≡ say board (contents sh.fs ino) sh
  unfolding list_directory contents
  list_directory-contents v ino = elim (Option-cases (find_inode ino sh.fs.inodes)) [
    | inl at ↦
        rw (at, contents) (list_directory_refused ino _ (fs_readdir-none ino 0 at) (omega arith))
    | inr (n, at) ↦ elim (Bool-cases (n.inode_type == dir_type)) [
      | inl directory ↦
          rw (at, contents, directory)
            (list_directory-listing board ino n (ground arith)
              (λ is_dir. (v.files.sound ino n at).dir_room is_dir) ent sh at)
      | inr other ↦
          rw (at, contents, other)
            (list_directory_refused ino _ (fs_readdir_other ino 0 n at other) (omega arith))
    ]
  ]

  -- In a valid state `ls` prints one line for each entry of the directory, in the order of the slots,
  -- with a slash behind the name of a directory, or `(empty)` if there is none; for an operand that
  -- leads to no inode it prints `ls: not found`, for a file `(empty)`. The files do not change, and
  -- the loop comes to its end.
  pub cmd_ls-ls_text :
      IsValid sh
      → (argv : List (List ℕ))
      → cmd_ls board ent argv sh ≡ (ls_text sh argv >>= λ text. say board text sh)
  unfolding cmd_ls ls_text
  cmd_ls-ls_text v argv = elim (Bool-cases (ltb (length argv) 2)) [
    | inl few ↦ rw few (list_directory-contents v sh.cwd_ino)
    | inr enough ↦ rw enough (
        >>=-cong (resolve_path sh (arg argv 1)) _ _ (λ target.
          elim (Bool-cases (target == invalid_ino)) [
            | inl absent ↦ rw absent refl
            | inr present ↦ rw present (list_directory-contents v target)
          ])
        ∙ sym (>>=-assoc (resolve_path sh (arg argv 1)) _ _))
  ]

  -- So the state stays valid.
  pub cmd_ls-Keeps :
      {n : ℕ} {Oom : Type 0}
      → Lasts n sh
      → (argv : List (List ℕ))
      → Keeps n Oom (TooLong sh.cwd_path (arg argv 1)) (cmd_ls board ent argv sh)
  unfolding ls_text
  cmd_ls-Keeps l argv = rw (cmd_ls-ls_text l.valid argv) (elim (Bool-cases (ltb (length argv) 2)) [
    | inl few ↦ rw few (say-Keeps board _ sh l)
    | inr enough ↦ rw enough (
        Ends->>= _
          (Ends->>= _ (resolve_path-Ends sh l.valid (arg argv 1)) (λ target known. returns tt))
          (λ (text : List ℕ) (_ : Unit {0}). say-Keeps board text sh l))
  ])
