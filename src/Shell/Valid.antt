-- ===== src/Shell/Valid.antt =====
-- The state of src/shell/shell.cpp between two commands.
use kehinde_kernel.Prelude.{
  ℕ, suc, ◌+◌, arith, sym, refl, subst, ◌^◌, ◌≤◌, ◌<◌, ◌≡◌, length, List, some,
}
use kehinde_kernel.Run.{Run}
use kehinde_kernel.Run.Ends.{Ends, returns, Ends->>=, Ends-weaker}
use kehinde_kernel.Board.{Board}
use kehinde_kernel.Uart.{Bus}
use kehinde_kernel.Uart.Output.{uart_puts-Sends}
use kehinde_kernel.Filesystem.{Fs, Inode, find_inode, dir_type, file_type}
use kehinde_kernel.Filesystem.Invariant as FsInvariant
use kehinde_kernel.Filesystem.Invariant.{Exists}
use kehinde_kernel.Shell.{Shell, max_path, extend_path, say}

-- There is a directory of this number.
abbrev pub IsDirectory : List Inode → ℕ → Type 0
IsDirectory inodes ino = (n : Inode) × (find_inode ino inodes ≡ some n) × (n.inode_type ≡ dir_type)

-- The sizes of files are far from wrapping around.
abbrev pub Small : List Inode → Type 0
Small inodes =
    (i : ℕ) (n : Inode)
    → find_inode i inodes ≡ some n
    → n.inode_type ≡ file_type
    → n.inode_size < 2 ^ 63

pub record IsValid {S : Type 0} (sh : Shell S) : Type 0 where
  pub files : FsInvariant.IsValid sh.fs
  pub small : Small sh.fs.inodes
  pub here : IsDirectory sh.fs.inodes sh.cwd_ino
  pub named : 0 < length sh.cwd_path
  pub fits : length sh.cwd_path < max_path
  pub clock : sh.timer.time < 2 ^ 64

-- The next number and the sizes of the directories are `n` creations away from wrapping around.
pub record Counts {S : Type 0} (n : ℕ) (fs : Fs S) : Type 0 where
  pub numbers : fs.next_ino + n < 2 ^ 64
  pub sizes :
      (i : ℕ) (d : Inode)
      → find_inode i fs.inodes ≡ some d
      → d.inode_type ≡ dir_type
      → d.inode_size + n < 2 ^ 64

pub Counts-fewer : {S : Type 0} (n : ℕ) (fs : Fs S) → Counts (suc n) fs → Counts n fs
Counts-fewer n fs c = record {
  numbers = omega (arith, c.numbers);
  sizes = λ i d at is_dir. omega (arith, c.sizes i d at is_dir);
}

-- A valid state in which `n` more creations do not wrap around.
pub record Lasts {S : Type 0} (n : ℕ) (sh : Shell S) : Type 0 where
  pub valid : IsValid sh
  pub counts : Counts n sh.fs

-- The path of the current directory with the operand does not fit into the buffer for it.
abbrev pub TooLong : List ℕ → List ℕ → Type 0
TooLong cwd name = max_path ≤ length (extend_path cwd name)

-- How a command ends that may run out of memory for the reason `Oom` and overrun a buffer for the
-- reason `M`.
abbrev pub Keeps : {S : Type 0} → ℕ → Type 0 → Type 0 → Run (Shell S) → Type 0
Keeps {S} n Oom M r = Ends Oom M (λ (sh : Shell S). Lasts n sh) r

-- The devices alone change.
pub bus-IsValid :
    {S : Type 0} (sh : Shell S) (bus' : Bus) → IsValid sh → IsValid (record sh { bus = bus' })
bus-IsValid sh bus' v = record {
  files = v.files;
  small = v.small;
  here = v.here;
  named = v.named;
  fits = v.fits;
  clock = v.clock;
}

pub bus-Lasts :
    {S : Type 0} {n : ℕ} (sh : Shell S) (bus' : Bus)
    → Lasts n sh
    → Lasts n (record sh { bus = bus' })
bus-Lasts sh bus' l = record { valid = bus-IsValid sh bus' l.valid; counts = l.counts }

-- A text is printed, and nothing but the state of the devices changes.
pub say-Bus :
    {S : Type 0} {Oom M : Type 0} (board : Board) (text : List ℕ) (sh : Shell S)
    → Ends Oom M
        (λ (sh' : Shell S). (bus' : Bus) × (sh' ≡ record sh { bus = bus' }))
        (say board text sh)
unfolding say
say-Bus board text sh =
    Ends->>= _
      (Ends-weaker (λ x. absurd x) (λ x. absurd x) (λ a h. tt) (uart_puts-Sends board text sh.bus))
      (λ (bus' : Bus) (_ : Unit {0}). returns (bus', refl))

pub say-Keeps :
    {S : Type 0} {n : ℕ} {Oom M : Type 0} (board : Board) (text : List ℕ) (sh : Shell S)
    → Lasts n sh
    → Keeps n Oom M (say board text sh)
say-Keeps {n} board text sh l =
    Ends-weaker (λ x. x) (λ x. x)
      (λ sh' (bus', e). subst (λ t. Lasts n t) (sym e) (bus-Lasts sh bus' l))
      (say-Bus board text sh)

-- A change of the files alone.
pub files-IsValid :
    {S : Type 0} (sh : Shell S) (fs' : Fs S)
    → IsValid sh
    → FsInvariant.IsValid fs'
    → Small fs'.inodes
    → IsDirectory fs'.inodes sh.cwd_ino
    → IsValid (record sh { fs = fs' })
files-IsValid sh fs' v files small here = record {
  files = files;
  small = small;
  here = here;
  named = v.named;
  fits = v.fits;
  clock = v.clock;
}
