-- ===== src/Shell/Paths.antt =====
-- `resolve_path` and `cmd_cd` of src/shell/shell.cpp.
use kehinde_kernel.Prelude.{
  ℕ, ◌+◌, ◌-◌, ◌≤◌, ◌<◌, ◌≡◌, ◌⊎◌, inl, inr, refl, sym, subst, arith, true, ◌==◌, ltb, not,
  if◌then◌else◌, length, length-append, ltb→lt, List, [], ◌∷◌, none, some, Bool-cases,
}
use kehinde_kernel.Prelude.Codes.{codes}
use kehinde_kernel.Run.{ok, ◌>>=◌}
use kehinde_kernel.Run.Ends.{Ends, returns, faults, Ends->>=, Ends-weaker}
use kehinde_kernel.Board.{Board}
use kehinde_kernel.Filesystem.{Fs, Inode, find_inode, dir_type, invalid_ino, ret}
use kehinde_kernel.Filesystem.Names.{char_at}
use kehinde_kernel.Filesystem.Path.{fs_lookup}
use kehinde_kernel.Filesystem.File.{fs_stat}
use kehinde_kernel.Filesystem.Invariant as FsInvariant
use kehinde_kernel.Filesystem.Invariant.{Exists}
use kehinde_kernel.Filesystem.Invariant.Lookup.{Leads, arrived, blocked, enters, fs_lookup-Leads}
use kehinde_kernel.Shell.{Shell, max_path, in_buffer, extend_path, resolve_path, say}
use kehinde_kernel.Shell.Commands.{arg, type_of, next_path, cmd_cd}
use kehinde_kernel.Shell.Valid.{IsDirectory, IsValid, Lasts, TooLong, Keeps, say-Keeps}

-- A lookup gives no inode or one that exists.
abbrev pub Found : List Inode → ℕ → Type 0
Found inodes ino = (ino ≡ invalid_ino) ⊎ Exists inodes ino

Leads-Found :
    {S : Type 0} (fs : Fs S) (v : FsInvariant.IsValid fs) (path : List ℕ) {start ino : ℕ}
    {ends : List ℕ} {target : ℕ}
    → Leads fs v path start ino ends target
    → Found fs.inodes target
Leads-Found fs v path (arrived e) = inr e
Leads-Found fs v path (blocked curr at h) = inl refl
Leads-Found fs v path (enters curr k at d lt h rest) = Leads-Found fs v path rest

fs_lookup-Ends :
    {S : Type 0} {Oom M : Type 0} (fs : Fs S)
    → FsInvariant.IsValid fs
    → (path : List ℕ) → Ends Oom M (Found fs.inodes) (fs_lookup fs path)
fs_lookup-Ends fs v path = elim (fs_lookup-Leads fs v path) [
  | inl (_, e) ↦ rw e (returns (inl refl))
  | inr (target, e, leads) ↦ rw e (returns (Leads-Found fs v path leads))
]

pub length-extend_path :
    (cwd name : List ℕ) → (length cwd + length name ≤ length (extend_path cwd name))
unfolding extend_path
length-extend_path cwd name = elim (Bool-cases (char_at cwd (length cwd - 1) == b'/')) [
  | inl slash ↦ rw slash (omega (arith, length-append cwd name))
  | inr bare ↦ rw bare (omega (arith, length-append cwd (b'/' ∷ name)))
]

-- A path that is kept fits, and is not longer than the path of the current directory with the name.
in_buffer-Ends :
    {Oom : Type 0} (cwd name text : List ℕ)
    → length text ≤ length (extend_path cwd name)
    → Ends Oom
        (TooLong cwd name)
        (λ (kept : List ℕ). (kept ≡ text) × (length text < max_path))
        (in_buffer max_path text)
unfolding in_buffer
in_buffer-Ends cwd name text le = elim (Bool-cases (ltb (length text) max_path)) [
  | inl fits ↦ rw fits (returns (refl, ltb→lt _ _ fits))
  | inr over ↦ rw over (faults (ground arith))
]

pub resolve_path-Ends :
    {S : Type 0} {Oom : Type 0} (sh : Shell S)
    → IsValid sh
    → (name : List ℕ)
    → Ends Oom (TooLong sh.cwd_path name) (Found sh.fs.inodes) (resolve_path sh name)
unfolding resolve_path
resolve_path-Ends sh v name = elim (Bool-cases (char_at name 0 == b'/')) [
  | inl absolute ↦ rw absolute (fs_lookup-Ends sh.fs v.files name)
  | inr relative ↦ rw relative (
      Ends->>= _ (in_buffer-Ends sh.cwd_path name (extend_path sh.cwd_path name) (omega arith))
        (λ full _. fs_lookup-Ends sh.fs v.files full))
]

fs_stat-type :
    {S : Type 0} (fs : Fs S) (ino : ℕ) (n : Inode)
    → find_inode ino fs.inodes ≡ some n
    → fs_stat fs ino none (some 0) ≡ (ret 0, none, some n.inode_type)
unfolding fs_stat
fs_stat-type fs ino n at = rw (at, fs_stat) refl

-- The type that the shell asks for is that of the inode.
pub type_of_lem :
    {S : Type 0} (fs : Fs S) (ino : ℕ) (n : Inode)
    → find_inode ino fs.inodes ≡ some n
    → type_of fs ino ≡ n.inode_type
unfolding type_of
type_of_lem fs ino n at = rw (fs_stat-type fs ino n at, type_of) refl

pub char_at-length : (s : List ℕ) (c : ℕ) → (char_at s 0 == c) ≡ true → 0 < c → 0 < length s
char_at-length [] c h pos = absurd (ground arith)
char_at-length (d ∷ ds) c h pos = omega arith

next_path-Ends :
    {Oom : Type 0} (cwd name : List ℕ)
    → 0 < length cwd
    → Ends Oom
        (TooLong cwd name)
        (λ (path : List ℕ). (0 < length path) × (length path < max_path))
        (next_path cwd name)
unfolding next_path
next_path-Ends cwd name named = elim (Bool-cases (char_at name 0 == b'/')) [
  | inl absolute ↦ rw absolute (
      Ends-weaker (λ x. x) (λ x. x)
        (λ path (e, lt).
          subst (λ p. (0 < length p) × (length p < max_path)) (sym e)
            (char_at-length name b'/' absolute (omega arith), lt))
        (in_buffer-Ends cwd name name (omega (arith, length-extend_path cwd name))))
  | inr relative ↦ rw relative (
      Ends-weaker (λ x. x) (λ x. x)
        (λ path (e, lt).
          subst (λ p. (0 < length p) × (length p < max_path)) (sym e)
            (omega (arith, length-extend_path cwd name), lt))
        (in_buffer-Ends cwd name (extend_path cwd name) (omega arith)))
]

moved-Keeps :
    {S : Type 0} {n : ℕ} {Oom : Type 0} (sh : Shell S) (name : List ℕ) (new_ino : ℕ)
    → Lasts n sh
    → IsDirectory sh.fs.inodes new_ino
    → Keeps n Oom (TooLong sh.cwd_path name) (
        next_path sh.cwd_path name >>= λ path.
        ok (record sh { cwd_ino = new_ino; cwd_path = path }))
moved-Keeps sh name new_ino l there =
    let v = l.valid in
    Ends->>= _ (next_path-Ends sh.cwd_path name v.named) (λ path (full, fits). returns (record {
      valid = record {
        files = v.files;
        small = v.small;
        here = there;
        named = full;
        fits = fits;
        clock = v.clock;
      };
      counts = l.counts;
    }))

-- The part of `cmd_cd` behind `resolve_path`.
entered-Keeps :
    {S : Type 0} {n : ℕ} {Oom : Type 0} (board : Board) (sh : Shell S) (name : List ℕ) (new_ino : ℕ)
    → Lasts n sh
    → Found sh.fs.inodes new_ino
    → Keeps n Oom (TooLong sh.cwd_path name) (
        if new_ino == invalid_ino
        then say board (codes "cd: not found\r\n") sh
        else if not (type_of sh.fs new_ino == dir_type)
        then say board (codes "cd: not a directory\r\n") sh
        else (next_path sh.cwd_path name >>= λ path.
            ok (record sh { cwd_ino = new_ino; cwd_path = path })))
entered-Keeps board sh name new_ino l (inl e) = rw e (say-Keeps board _ sh l)
entered-Keeps board sh name new_ino l (inr (n, at)) = elim (Bool-cases (new_ino == invalid_ino)) [
  | inl absent ↦ rw absent (say-Keeps board _ sh l)
  | inr present ↦
      rw (present, type_of_lem sh.fs new_ino n at)
        (elim (Bool-cases (n.inode_type == dir_type)) [
          | inr other ↦ rw other (say-Keeps board _ sh l)
          | inl directory ↦ rw directory (moved-Keeps sh name new_ino l (n, at, ground arith))
        ])
]

-- A change of directory goes to a directory, and the path that is kept fits into its buffer.
pub cmd_cd-Keeps :
    {S : Type 0} {n : ℕ} {Oom : Type 0} (board : Board) (argv : List (List ℕ)) (sh : Shell S)
    → Lasts n sh
    → Keeps n Oom (TooLong sh.cwd_path (arg argv 1)) (cmd_cd board argv sh)
unfolding cmd_cd
cmd_cd-Keeps board argv sh l = elim (Bool-cases (ltb (length argv) 2)) [
  | inl few ↦ rw few (say-Keeps board _ sh l)
  | inr enough ↦ rw enough (
      Ends->>= _ (resolve_path-Ends sh l.valid (arg argv 1))
        (λ new_ino known. entered-Keeps board sh (arg argv 1) new_ino l known))
]
