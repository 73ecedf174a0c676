-- ===== src/Shell/Storing.antt =====
-- `cat` behind `write` in src/shell/shell.cpp.
use kehinde_kernel.Prelude.{
  ℕ, zero, suc, ◌+◌, ◌≤◌, ◌<◌, ◌≡◌, ◌≢◌, refl, ap, subst, ◌∙◌, arith, true, false, ◌==◌, ==_refl,
  ltb, if◌then◌else◌, length, List, [], ◌∷◌, ◌++◌, drop, some, Bool-cases, inl, inr,
}
use kehinde_kernel.Prelude.Codes.{codes}
use kehinde_kernel.Run.{Run, ok, ◌>>=◌, >>=-cong}
use kehinde_kernel.Run.Ends.{Ends, returns, panics, Ends_result}
use kehinde_kernel.Board.{Board}
use kehinde_kernel.Filesystem.{
  null_next, Fs, Inode, Block, Kmalloc, Ret, minus_one, ret, find_inode, file_type, invalid_ino,
}
use kehinde_kernel.Filesystem.Names.{char_at, IsText}
use kehinde_kernel.Filesystem.Path.{fs_lookup}
use kehinde_kernel.Filesystem.Path.Unmoved.{fs_lookup_same}
use kehinde_kernel.Filesystem.File.Content.{content}
use kehinde_kernel.Filesystem.File.Write.{
  ReturnsOrPanics, OutOfMemory, Written, WriteOutcome, halts, writes, fs_write-Written,
}
use kehinde_kernel.Shell.{
  Shell, max_line, max_path, extend_path, in_buffer, join_args, resolve_path, say,
}
use kehinde_kernel.Shell.Commands.{arg, cmd_cat, cmd_write}
use kehinde_kernel.Shell.Valid.{IsValid, files-IsValid}
use kehinde_kernel.Shell.Changes.{Kept, fs_write-Changes}
use kehinde_kernel.Shell.Printing.{bytes}
use kehinde_kernel.Shell.Cat.{cmd_cat-bytes}

IsText-char_at : (s : List ℕ) (p : ℕ) → IsText s → p < length s → (char_at s p == 0) ≡ false
IsText-char_at [] p h lt = absurd (omega arith)
IsText-char_at (c ∷ cs) zero (full, h) lt = ground arith
IsText-char_at (c ∷ cs) (suc p) (full, h) lt = IsText-char_at cs p h (omega arith)

-- Blocks that hold a text from `offset` on.
bytes-text :
    (text : List ℕ) (chain : List Block) (offset : ℕ)
    → ((p : ℕ) → p < length text → content chain (offset + p) ≡ char_at text p)
    → bytes chain offset (length text) ≡ text
unfolding bytes
bytes-text [] chain offset h = refl
bytes-text (c ∷ cs) chain offset h =
    let here : content chain offset ≡ c =
      subst (λ q. content chain q ≡ c) (omega arith) (h 0 (omega arith)) in
    let rest = bytes-text cs chain (offset + 1) (λ p lt.
      subst (λ q. content chain q ≡ char_at cs p) (omega arith) (h (suc p) (omega arith))) in
    rw (here, rest) refl

-- A lookup by the shell after a change of a file.
resolve_path_same :
    {S : Type 0} (sh : Shell S) (fs' : Fs S)
    → ((path : List ℕ) → fs_lookup fs' path ≡ fs_lookup sh.fs path)
    → (name : List ℕ) → resolve_path (record sh { fs = fs' }) name ≡ resolve_path sh name
unfolding resolve_path
resolve_path_same sh fs' h name = elim (Bool-cases (char_at name 0 == b'/')) [
  | inl absolute ↦ rw absolute (h name)
  | inr relative ↦ rw relative (>>=-cong (in_buffer max_path (extend_path sh.cwd_path name)) _ _ h)
]

-- An empty file that a text has been written to holds the text.
module _ (before after : Inode) (text : List ℕ) (empty : before.inode_size ≡ 0)
    (w : Written before after 0 (length text) (char_at text)) where
  written_size : after.inode_size ≡ length text
  written_size = ground (arith, w.size)

  written_bytes : (p : ℕ) → p < length text → content after.chain p ≡ char_at text p
  written_bytes p lt =
      subst (λ q. content after.chain p ≡ char_at text q) (omega arith) (w.stored p (ground arith))

module _ {S : Type 0} (board : Board) (kmalloc : Kmalloc S) (uninitialised : Block) (stack : ℕ → ℕ)
    (total : ReturnsOrPanics kmalloc) (sh : Shell S) (v : IsValid sh) where
  -- `cat` of the operand prints the text.
  abbrev pub Prints : List ℕ → List ℕ → Shell S → Type 0
  Prints name text sh' =
      cmd_cat board stack (codes "cat" ∷ name ∷ []) sh' ≡ say board (text ++ codes "\r\n") sh'

  stored-Prints :
      (name text : List ℕ) (n after : Inode) (fs' : Fs S)
      → resolve_path sh name ≡ ok n.ino
      → n.ino ≢ invalid_ino
      → find_inode n.ino sh.fs.inodes ≡ some n
      → n.inode_type ≡ file_type
      → n.inode_size ≡ 0
      → IsText text
      → Kept sh.cwd_ino sh.fs fs'
      → Written n after 0 (length text) (char_at text)
      → ((i : ℕ)
          → find_inode i fs'.inodes
            ≡ (if n.ino == i then some after else find_inode i sh.fs.inodes))
      → Prints name text (record sh { fs = fs' })
  stored-Prints name text n after fs' leads known at is_file empty full k w finds =
      let v' = files-IsValid sh fs' v k.files k.small k.here in
      let moved =
        resolve_path_same sh fs'
          (fs_lookup_same sh.fs fs' n after is_file w.same_ino w.same_type at finds) name in
      let size = written_size n after text empty w in
      let stored = written_bytes n after text empty w in
      cmd_cat-bytes board stack (record sh { fs = fs' }) v' (codes "cat" ∷ name ∷ []) n.ino after
        (omega arith) (moved ∙ leads) known (finds n.ino ∙ rw (==_refl n.ino) refl)
        (w.same_type ∙ is_file)
        (λ p lt. rw (stored p (omega arith)) (IsText-char_at text p full (omega arith)))
      ∙ rw size (
          ap (λ t. say board (t ++ codes "\r\n") (record sh { fs = fs' }))
            (bytes-text text after.chain 0 (λ p lt.
              subst (λ q. content after.chain q ≡ char_at text p) (omega arith) (stored p lt))))

  -- The call of `fs_write` that `cmd_write` makes.
  write-Prints :
      (name text : List ℕ) (n : Inode) {r : Run (Ret × Fs S)}
      → resolve_path sh name ≡ ok n.ino
      → n.ino ≢ invalid_ino
      → find_inode n.ino sh.fs.inodes ≡ some n
      → n.inode_type ≡ file_type
      → n.inode_size ≡ 0
      → IsText text
      → ((status : Ret) (fs' : Fs S) → r ≡ ok (status, fs') → Kept sh.cwd_ino sh.fs fs')
      → WriteOutcome (OutOfMemory kmalloc) sh.fs n 0 (length text) (char_at text) r
      → Ends (OutOfMemory kmalloc) ⊥ (Prints name text) (
          r >>= λ (status, fs'). elim status [
            | minus_one ↦ say board (codes "write: failed\r\n") (record sh { fs = fs' })
            | ret n ↦ ok (record sh { fs = fs' })
          ])
  write-Prints name text n leads known at is_file empty full kept (halts why) = panics why
  write-Prints name text n leads known at is_file empty full kept
        (writes {fs'} after w finds next) =
      returns (
        stored-Prints name text n after fs' leads known at is_file empty full (kept _ fs' refl) w
          finds)

  -- With an allocator that returns or panics, and whose blocks are null where `next` lies: in a valid
  -- state, where the first operand of `write` leads to an empty regular file and the words
  -- behind it make a text without zero bytes that fits into the buffer, `write` halts only if memory
  -- runs out; when it comes back, `cat` of the same operand prints exactly the text and a line break.
  pub cmd_cat-cmd_write :
      (argv : List (List ℕ)) (n : Inode)
      → 3 ≤ length argv
      → resolve_path sh (arg argv 1) ≡ ok n.ino
      → n.ino ≢ invalid_ino
      → find_inode n.ino sh.fs.inodes ≡ some n
      → n.inode_type ≡ file_type
      → n.inode_size ≡ 0
      → IsText (join_args (drop 2 argv))
      → length (join_args (drop 2 argv)) < max_line
      → Ends
          (OutOfMemory kmalloc)
          ⊥
          (Prints (arg argv 1) (join_args (drop 2 argv)))
          (cmd_write board kmalloc (null_next uninitialised) argv sh)
  unfolding cmd_write in_buffer
  cmd_cat-cmd_write argv n operands leads known at is_file empty full short =
      let text = join_args (drop 2 argv) in
      let enough : ltb (length argv) 3 ≡ false = ground arith in
      let present : (n.ino == invalid_ino) ≡ false = ground arith in
      let fits : ltb (length text) max_line ≡ true = ground arith in
      rw (enough, leads, present, fits)
        (write-Prints (arg argv 1) text n leads known at is_file empty full
          (λ status fs' e.
            Ends_result
              (fs_write-Changes sh v {M = ⊥} kmalloc uninitialised n.ino (length text)
                (char_at text) n total at (omega arith))
              e)
          (fs_write-Written kmalloc uninitialised total sh.fs n.ino 0 (length text) (char_at text) n
            at is_file (omega arith)))
