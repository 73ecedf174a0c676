-- ===== src/Tests/Commands.antt =====
-- src/shell/shell.cpp with a file `a` below the root.
use kehinde_kernel.Prelude.{
  ◌+◌, ℕ, zero, suc, ◌^◌, ◌≤◌, ◌<◌, ◌≡◌, ◌==◌, Bool-cases, if◌then◌else◌, subst, false, inl, inr,
  refl, arith, length, List, [], ◌∷◌, ◌++◌, none, some,
}
use kehinde_kernel.Prelude.Codes.{codes}
use kehinde_kernel.Run.{ok, ◌>>=◌}
use kehinde_kernel.Run.Ends.{Ends}
use kehinde_kernel.Board.{board_pi3, uart0_dr}
use kehinde_kernel.Uart.{Bus}
use kehinde_kernel.Filesystem.{
  dir_type, null_next, Fs, Inode, append_block, store_inode, dirent_at, slot_ptr, walk_to_slot,
  load_dirent, ret, find_inode, file_type,
}
use kehinde_kernel.Filesystem.Invariant as FsInvariant
use kehinde_kernel.Filesystem.Invariant.Update.{fs_write-IsValid}
use kehinde_kernel.Filesystem.File.{
  fs_write, grow_loop, write_file, write_loop, copy_bytes, walk_blocks, min,
}
use kehinde_kernel.Filesystem.File.Write.{OutOfMemory}
use kehinde_kernel.Filesystem.File.Content.{content}
use kehinde_kernel.Filesystem.Names.{char_at, name_matches, name_matches_loop}
use kehinde_kernel.Filesystem.Path.{
  fs_lookup, lookup_from_root, parse_path, segment_ends, walk_path, scan_dir, scan_segment,
}
use kehinde_kernel.Shell.{Shell, in_buffer, extend_path, resolve_path, join_args, parse_args, say}
use kehinde_kernel.Shell.Commands.{cmd_ls, cmd_cat, cmd_write}
use kehinde_kernel.Shell.Storing.{cmd_cat-cmd_write}
use kehinde_kernel.Shell.Reading.{polls, Idle, read_line-text}
use kehinde_kernel.Uart.Output.{incoming}
use kehinde_kernel.Shell.Loop.{Next, running, shell_rounds}
use kehinde_kernel.Shell.Valid.{IsValid, Small, Counts}
use kehinde_kernel.Shell.Tokens.{All, parse_args-join_args, join_args-parse_args-length}
use kehinde_kernel.Shell.Typing.{IsLine, read_line-IsLine}
use kehinde_kernel.Shell.Input.{read_line}
use kehinde_kernel.Shell.Directories.{ls_text, cmd_ls-ls_text}
use kehinde_kernel.Shell.Printing.{bytes}
use kehinde_kernel.Shell.Cat.{cmd_cat-bytes}
use kehinde_kernel.Shell.Safety.{StaysValid, shell_rounds-StaysValid}
use kehinde_kernel.Tests.Files.{
  take_next, state_of, root_dir, file_a, take_next-ReturnsOrPanics, dirty, with_a, with_a-IsValid,
}

abbrev console : Bus
console = record { answers = λ _. []; writes = [] }

abbrev sample : Shell ℕ
sample = record {
  fs = with_a;
  timer = record { time = 0; freq = 0; sysregs = [] };
  bus = console;
  cwd_ino = 1;
  cwd_path = b'/' ∷ [];
}

find_inode-All :
    (P : Inode → Type 0) (i : ℕ) (inodes : List Inode) {n : Inode}
    → All P inodes
    → find_inode i inodes ≡ some n
    → P n
unfolding find_inode
find_inode-All P i [] h e = cc
find_inode-All P i (curr ∷ next) {n} (here, there) e = elim (Bool-cases (curr.ino == i)) [
  | inl found ↦
      let f : some curr ≡ some n = rw found at e in let same : curr ≡ n = cc in subst P same here
  | inr other ↦ find_inode-All P i next there (rw other at e)
]

sample-Small : Small with_a.inodes
sample-Small i n e =
    find_inode-All (λ n. n.inode_type ≡ file_type → n.inode_size < 2 ^ 63) i with_a.inodes
      (λ _. omega arith, (λ _. omega arith, tt)) e

sample-IsValid : IsValid sample
unfolding find_inode
sample-IsValid = record {
  files = with_a-IsValid;
  small = sample-Small;
  here = (_, refl, refl);
  named = omega arith;
  fits = omega arith;
  clock = omega arith;
}

parse_args-join_args_example :
    parse_args 16 (join_args (codes "write" ∷ codes "a" ∷ codes "hi" ∷ []))
    ≡ codes "write" ∷ codes "a" ∷ codes "hi" ∷ []
parse_args-join_args_example =
    parse_args-join_args 16 (codes "write" ∷ codes "a" ∷ codes "hi" ∷ [])
      (
        (
          omega arith,
          (omega arith, (omega arith, (omega arith, (omega arith, (omega arith, tt))))),
        ),
        ((omega arith, (omega arith, tt)), ((omega arith, (omega arith, (omega arith, tt))), tt)),
      )
      (omega arith)

join_args-parse_args-length_example :
    length (join_args (parse_args 16 (codes " ls   /a "))) ≤ length (codes " ls   /a ")
join_args-parse_args-length_example = join_args-parse_args-length 16 (codes " ls   /a ")

abbrev typing : Bus
typing = record { answers = λ _. 0 ∷ codes "ls\r"; writes = [] }

read_line-IsLine_example :
    Ends ⊥ ⊥ (λ (r : List ℕ × Bus). IsLine 255 r.0) (read_line board_pi3 256 typing)
read_line-IsLine_example = read_line-IsLine board_pi3 256 typing

cmd_ls-ls_text_example :
    cmd_ls board_pi3 (record { inode_id = 0; name = [] }) (codes "ls" ∷ []) sample
    ≡ (ls_text sample (codes "ls" ∷ []) >>= λ text. say board_pi3 text sample)
cmd_ls-ls_text_example =
    cmd_ls-ls_text board_pi3 (record { inode_id = 0; name = [] }) sample sample-IsValid
      (codes "ls" ∷ [])

sample-Counts : Counts 3 with_a
sample-Counts = record {
  numbers = omega arith;
  sizes = λ i d at.
      find_inode-All (λ d. d.inode_type ≡ dir_type → d.inode_size + 3 < 2 ^ 64) i with_a.inodes
        (λ _. omega arith, (λ _. omega arith, tt)) at;
}

shell_rounds-StaysValid_example :
    Ends
      (OutOfMemory take_next)
      ((k : ℕ) × (k < 3)
        × (sh' : Shell ℕ) × (shell_rounds board_pi3 take_next
              (null_next dirty)
              (λ _. 0)
              (record { inode_id = 0; name = [] })
              k
              sample
            ≡ ok (running sh'))
        × (256 ≤ length sh'.cwd_path))
      (λ (next : Next ℕ). StaysValid next)
      (shell_rounds board_pi3 take_next
        (null_next dirty)
        (λ _. 0)
        (record { inode_id = 0; name = [] })
        3
        sample)
shell_rounds-StaysValid_example =
    shell_rounds-StaysValid board_pi3 take_next dirty (λ _. 0) (record { inode_id = 0; name = [] })
      take_next-ReturnsOrPanics 3 sample sample-IsValid sample-Counts

-- The state after `write a hi`.
unfoldable hi_fs : Fs ℕ
hi_fs = state_of (fs_write take_next (null_next dirty) with_a 2 0 2 (some (char_at (codes "hi"))))

hi_fs_lem :
    fs_write take_next (null_next dirty) with_a 2 0 2 (some (char_at (codes "hi")))
    ≡ ok (ret 2, hi_fs)
unfolding hi_fs fs_write find_inode grow_loop append_block write_file write_loop walk_blocks
    copy_bytes min store_inode
hi_fs_lem = refl

hi_fs-IsValid : FsInvariant.IsValid hi_fs
unfolding find_inode
hi_fs-IsValid =
    fs_write-IsValid take_next dirty with_a hi_fs 2 0 2 (char_at (codes "hi")) file_a
      take_next-ReturnsOrPanics with_a-IsValid refl refl (omega arith) hi_fs_lem

abbrev hi_sample : Shell ℕ
hi_sample = record sample { fs = hi_fs }

unfoldable hi_file : Inode
hi_file = elim (find_inode 2 hi_fs.inodes) [ none ↦ root_dir | some n ↦ n ]

hi_sample-IsValid : IsValid hi_sample
unfolding find_inode hi_fs fs_write grow_loop append_block write_file write_loop walk_blocks
    copy_bytes min store_inode
hi_sample-IsValid = record {
  files = hi_fs-IsValid;
  small = λ i n e.
      find_inode-All (λ n. n.inode_type ≡ file_type → n.inode_size < 2 ^ 63) i hi_fs.inodes
        (λ _. omega arith, (λ _. omega arith, tt)) e;
  here = (_, refl, refl);
  named = omega arith;
  fits = omega arith;
  clock = omega arith;
}

hi_file_lem : find_inode 2 hi_fs.inodes ≡ some hi_file
unfolding hi_file find_inode hi_fs fs_write grow_loop append_block write_file write_loop walk_blocks
    copy_bytes min store_inode
hi_file_lem = refl

no_null : (p : ℕ) → p < hi_file.inode_size → (content hi_file.chain p == 0) ≡ false
unfolding hi_file find_inode hi_fs fs_write grow_loop append_block write_file write_loop walk_blocks
    copy_bytes min store_inode content char_at
no_null zero lt = refl
no_null (suc zero) lt = refl
no_null (suc (suc p)) lt = absurd (omega arith)

a_leads : resolve_path hi_sample (codes "a") ≡ ok 2
unfolding hi_fs fs_write find_inode grow_loop append_block write_file write_loop walk_blocks
    copy_bytes min store_inode resolve_path in_buffer extend_path fs_lookup lookup_from_root
    parse_path segment_ends walk_path scan_dir dirent_at slot_ptr walk_to_slot load_dirent
    name_matches name_matches_loop scan_segment
a_leads = refl

hi_is_file : hi_file.inode_type ≡ file_type
unfolding hi_file find_inode hi_fs fs_write grow_loop append_block write_file write_loop walk_blocks
    copy_bytes min store_inode
hi_is_file = refl

cmd_cat-bytes_example :
    cmd_cat board_pi3 (λ _. 0) (codes "cat" ∷ codes "a" ∷ []) hi_sample
    ≡ say board_pi3 (bytes hi_file.chain 0 hi_file.inode_size ++ codes "\r\n") hi_sample
cmd_cat-bytes_example =
    cmd_cat-bytes board_pi3 (λ _. 0) hi_sample hi_sample-IsValid (codes "cat" ∷ codes "a" ∷ []) 2
      hi_file (omega arith) a_leads (omega arith) hi_file_lem hi_is_file no_null

sample_leads : resolve_path sample (codes "a") ≡ ok 2
unfolding find_inode resolve_path in_buffer extend_path fs_lookup lookup_from_root parse_path
    segment_ends walk_path scan_dir dirent_at slot_ptr walk_to_slot load_dirent name_matches
    name_matches_loop scan_segment
sample_leads = refl

abbrev write_hi : List (List ℕ)
write_hi = codes "write" ∷ codes "a" ∷ codes "hi" ∷ []

cmd_cat-cmd_write_example :
    Ends
      (OutOfMemory take_next)
      ⊥
      (λ (sh' : Shell ℕ).
        cmd_cat board_pi3 (λ _. 0) (codes "cat" ∷ codes "a" ∷ []) sh'
        ≡ say board_pi3 (codes "hi" ++ codes "\r\n") sh')
      (cmd_write board_pi3 take_next (null_next dirty) write_hi sample)
unfolding find_inode join_args
cmd_cat-cmd_write_example =
    cmd_cat-cmd_write board_pi3 take_next dirty (λ _. 0) take_next-ReturnsOrPanics sample
      sample-IsValid write_hi file_a (omega arith) sample_leads (omega arith) refl refl refl
      (omega arith, (omega arith, tt)) (omega arith)

abbrev typist : Bus
typist = record {
  answers = λ r. if r == uart0_dr board_pi3 then codes "ls\rpwd" else polls 7 [];
  writes = [];
}

read_line-text_example :
    (bus' : Bus) × (read_line board_pi3 256 typist ≡ ok (codes "ls", bus'))
    × Idle board_pi3 0 bus'
    × (incoming board_pi3 bus' ≡ codes "pwd")
unfolding board_pi3
read_line-text_example =
    read_line-text board_pi3 (codes "ls") (codes "pwd") 256 0 typist
      ((omega arith, omega arith, omega arith), ((omega arith, omega arith, omega arith), tt)) refl
      (omega arith) ([], refl)
