-- ===== src/Filesystem/File/RoundTrip.antt =====
-- `fs_read` of what `fs_write` of src/filesystem/filesystem.cpp has stored.
use kehinde_kernel.Prelude.{
  ℕ, ◌+◌, ◌-◌, ◌^◌, ◌≤◌, ◌<◌, ◌≡◌, ap, subst, ◌∙◌, some, ==_refl, ltb, if◌then◌else◌, arith,
  Bool-cases, inl, inr,
}
use kehinde_kernel.Run.{Run, ok}
use kehinde_kernel.Filesystem.{
  null_next, Fs, Inode, Block, Kmalloc, Ret, ret, find_inode, file_type,
}
use kehinde_kernel.Filesystem.Inodes.{find_inode-ino}
use kehinde_kernel.Filesystem.File.{fs_read, fs_write}
use kehinde_kernel.Filesystem.File.Content.{content, capacity}
use kehinde_kernel.Filesystem.File.Read.{available, fs_read-Delivers}
use kehinde_kernel.Filesystem.File.Write.{
  ReturnsOrPanics, Written, WriteOutcome, halts, writes, fs_write-Written,
}

-- A read of the whole range written.
abbrev pub GivesBack : {S : Type 0} → Fs S → ℕ → ℕ → ℕ → (ℕ → ℕ) → (ℕ → ℕ) → Type 0
GivesBack fs ino offset len src dst =
    (out : ℕ → ℕ) × (fs_read fs ino offset len (some dst) ≡ ok (ret len, some out))
    × ((q : ℕ) → out q ≡ (if ltb q len then src q else dst q))

module _ {S : Type 0} where
  read_back :
      (fs : Fs S) (before after : Inode) (offset len : ℕ) (src dst : ℕ → ℕ)
      → find_inode before.ino fs.inodes ≡ some after
      → before.inode_type ≡ file_type
      → before.inode_size ≤ capacity before.chain
      → offset + len < 2 ^ 64
      → 0 < len
      → Written before after offset len src
      → GivesBack fs before.ino offset len src dst
  read_back fs before after offset len src dst found is_file fits small pos w =
      let size = w.size in
      let room = w.room in
      let grown = w.grown in
      let whole : available after offset len ≡ len = ground arith in
      let (out, e, h) =
        fs_read-Delivers fs before.ino offset len dst after found (w.same_type ∙ is_file)
          (ground arith) small (ground arith) in
      (out, e ∙ ap (λ (n : ℕ). ok (ret n, some out)) whole, λ q. h q ∙ same whole q)
    where
      same :
          available after offset len ≡ len
          → (q : ℕ)
          → (if ltb q (available after offset len) then content after.chain (offset + q) else dst q)
            ≡ (if ltb q len then src q else dst q)
      same whole q = rw whole (elim (Bool-cases (ltb q len)) [
        | inl inside ↦
            let at : offset + q - offset ≡ q = omega arith in
            rw inside (w.stored (offset + q) (ground arith) ∙ ap src at)
        | inr outside ↦ rw outside
      ])

  outcome_read :
      (fs fs' : Fs S) (subject : Inode) (offset len : ℕ) (src dst : ℕ → ℕ) {status : Ret}
      {r : Run (Ret × Fs S)} {M : Type 0}
      → subject.inode_type ≡ file_type
      → subject.inode_size ≤ capacity subject.chain
      → offset + len < 2 ^ 64
      → 0 < len
      → WriteOutcome M fs subject offset len src r
      → r ≡ ok (status, fs')
      → GivesBack fs' subject.ino offset len src dst
  outcome_read fs fs' subject offset len src dst is_file fits small pos (halts full) e = cc
  outcome_read fs fs' subject offset len src dst is_file fits small pos
        (writes {fs' = fs1} after w finds next) e =
      let same : fs1 ≡ fs' = cc in
      subst (λ f. GivesBack f subject.ino offset len src dst) same
        (read_back fs1 subject after offset len src dst
          (finds subject.ino ∙ rw (==_refl subject.ino)) is_file fits small pos w)

  -- With an allocator that returns or panics, and whose blocks are null where `next` lies: when a
  -- write of `len` bytes, at least one, to a regular file at an offset from which they do not wrap
  -- has returned, a read of the same range returns `len` and gives back exactly the bytes written,
  -- whatever gap or old bytes were there, and leaves the rest of the buffer.
  pub fs_read-fs_write :
      (kmalloc : Kmalloc S) (uninitialised : Block) (fs fs' : Fs S) (ino offset len : ℕ)
      (src dst : ℕ → ℕ) (subject : Inode) {status : Ret}
      → ReturnsOrPanics kmalloc
      → find_inode ino fs.inodes ≡ some subject
      → subject.inode_type ≡ file_type
      → subject.inode_size ≤ capacity subject.chain
      → offset + len < 2 ^ 64
      → 0 < len
      → fs_write kmalloc (null_next uninitialised) fs ino offset len (some src) ≡ ok (status, fs')
      → GivesBack fs' ino offset len src dst
  fs_read-fs_write kmalloc uninitialised fs fs' ino offset len src dst subject total found is_file
        fits small pos e =
      let at = find_inode-ino ino fs.inodes found in
      subst (λ i. GivesBack fs' i offset len src dst) at
        (outcome_read fs fs' subject offset len src dst is_file fits small pos
          (fs_write-Written kmalloc uninitialised total fs ino offset len src subject found is_file
            small)
          e)
