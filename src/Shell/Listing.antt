-- ===== src/Shell/Listing.antt =====
-- `cmd_ls` of src/shell/shell.cpp prints the entries of the directory.
use kehinde_kernel.Prelude.{
  ℕ, ◌≤◌, ◌<◌, ◌≡◌, refl, sym, ap, ◌∙◌, arith, Bool, true, false, ◌==◌, leb, if◌then◌else◌, List,
  [], ◌∷◌, ◌++◌, Option, some, Bool-cases, inl, inr,
}
use kehinde_kernel.Run.{Run, ok, ◌>>=◌, >>=-cong, >>=-assoc}
use kehinde_kernel.Board.{Board}
use kehinde_kernel.Uart.{Bus, uart_putc, uart_puts}
use kehinde_kernel.Filesystem.{Fs, Inode, Dirent, Ret, minus_one, ret, find_inode, dir_type}
use kehinde_kernel.Filesystem.Directory.{fs_readdir}
use kehinde_kernel.Filesystem.Directory.Slots.{entry_of, slots, dirent_at-entry, load-entry_of}
use kehinde_kernel.Shell.{Shell, say}

-- What `fs_readdir` gives for entry `i` of an inode, with `old` in the caller's variable.
pub data Enumerates (n : Inode) (i : ℕ) (old : Dirent) : Run (Ret × Option Dirent) → Type 0 where
  no_directory : (n.inode_type == dir_type) ≡ false → Enumerates n i old (ok (minus_one, some old))
  ended : n.inode_type ≡ dir_type → n.inode_size ≤ i → Enumerates n i old (ok (ret 0, some old))
  gives :
      n.inode_type ≡ dir_type
      → i < n.inode_size
      → Enumerates n i old (ok (ret 1, some (entry_of n.chain i)))

-- On an inode whose blocks hold its entries, `fs_readdir` fails for a file; for a directory it gives
-- entry `i`, or 0 and no entry from the size on. No null block is reached.
pub fs_readdir-Enumerates :
    {S : Type 0} (fs : Fs S) (ino i : ℕ) (old : Dirent) (n : Inode)
    → find_inode ino fs.inodes ≡ some n
    → (n.inode_type ≡ dir_type → n.inode_size ≤ slots n.chain)
    → Enumerates n i old (fs_readdir fs ino i (some old))
unfolding fs_readdir
fs_readdir-Enumerates fs ino i old n at room = elim (Bool-cases (n.inode_type == dir_type)) [
  | inr other ↦ rw (at, fs_readdir, other) (no_directory other)
  | inl directory ↦
      let is_dir : n.inode_type ≡ dir_type = ground arith in
      elim (Bool-cases (leb n.inode_size i)) [
        | inl past ↦ rw (at, fs_readdir, directory, past) (ended is_dir (ground arith))
        | inr inside ↦
            let lt : i < n.inode_size = ground arith in
            rw
              (
                at,
                fs_readdir,
                directory,
                inside,
                dirent_at-entry n i (room is_dir) lt,
                load-entry_of n i (room is_dir) lt,
              )
              (gives is_dir lt)
      ]
]

uart_puts-append :
    (board : Board) (a b : List ℕ) (bus : Bus)
    → uart_puts board (a ++ b) bus ≡ (uart_puts board a bus >>= λ bus'. uart_puts board b bus')
unfolding uart_puts
uart_puts-append board [] b bus = refl
uart_puts-append board (c ∷ cs) b bus =
    >>=-cong (uart_putc board c bus) _ _ (λ bus1. uart_puts-append board cs b bus1)
    ∙ sym (>>=-assoc (uart_putc board c bus) (uart_puts board cs) (uart_puts board b))

module _ {S : Type 0} (board : Board) where
  -- What follows a text sees a shell in which the devices alone have changed.
  pub say-cong :
      {A : Type 0} (text : List ℕ) (sh : Shell S) (next next' : Shell S → Run A)
      → ((bus' : Bus) → next (record sh { bus = bus' }) ≡ next' (record sh { bus = bus' }))
      → (say board text sh >>= next) ≡ (say board text sh >>= next')
  unfolding say
  say-cong text sh next next' h =
      >>=-assoc (uart_puts board text sh.bus) _ next
      ∙ >>=-cong (uart_puts board text sh.bus) _ _ h
      ∙ sym (>>=-assoc (uart_puts board text sh.bus) _ next')

  -- Two texts in a row are one.
  pub say-append :
      (a b : List ℕ) (sh : Shell S)
      → (say board a sh >>= λ sh1. say board b sh1) ≡ say board (a ++ b) sh
  unfolding say
  say-append a b sh =
      >>=-assoc (uart_puts board a sh.bus) _ _
      ∙ sym (>>=-assoc (uart_puts board a sh.bus) (λ bus'. uart_puts board b bus') _)
      ∙ ap (λ r. r >>= λ bus'. ok (record sh { bus = bus' }))
          (sym (uart_puts-append board a b sh.bus))

  pub say_join :
      {A : Type 0} (a b : List ℕ) (sh : Shell S) (next : Shell S → Run A)
      → (say board a sh >>= λ sh1. (say board b sh1 >>= next)) ≡ (say board (a ++ b) sh >>= next)
  say_join a b sh next =
      sym (>>=-assoc (say board a sh) (λ sh1. say board b sh1) next)
      ∙ ap (λ r. r >>= next) (say-append a b sh)

  pub say_nothing : (sh : Shell S) → say board [] sh ≡ ok sh
  unfolding say uart_puts
  say_nothing sh = refl

  -- A text that is printed or left out.
  pub say_if :
      (b : Bool) (text : List ℕ) (sh : Shell S)
      → (if b then say board text sh else ok sh) ≡ say board (if b then text else []) sh
  say_if true text sh = refl
  say_if false text sh = sym (say_nothing sh)
