-- ===== src/Filesystem/Invariant/Update.antt =====
-- `fs_write` of src/filesystem/filesystem.cpp keeps the invariant.
use kehinde_kernel.Prelude.{ℕ, ◌+◌, ◌≤◌, ◌<◌, ◌^◌, ◌≡◌, sym, some, List, arith, subst}
use kehinde_kernel.Run.{Run, ok}
use kehinde_kernel.Filesystem.{null_next, Fs, Inode, Block, Kmalloc, Ret, find_inode, file_type}
use kehinde_kernel.Filesystem.Inodes.{find_inode-ino}
use kehinde_kernel.Filesystem.File.{fs_write}
use kehinde_kernel.Filesystem.File.Content.{capacity}
use kehinde_kernel.Filesystem.File.Write.{
  ReturnsOrPanics, Written, WriteOutcome, halts, writes, fs_write-Written,
}
use kehinde_kernel.Filesystem.Invariant.{
  IsValid, IsSound, IsSound-mono, found_cases, Exists-update, HasRoot-update,
}

Written-IsSound :
    (inodes : List Inode) (before after : Inode) (offset len : ℕ) (src : ℕ → ℕ)
    → before.inode_type ≡ file_type
    → before.inode_size ≤ capacity before.chain
    → Written before after offset len src
    → IsSound inodes after
Written-IsSound inodes before after offset len src is_file fits w =
    let size = w.size in
    let room = w.room in
    let grown = w.grown in
    let type = w.same_type in
    record {
      file_room = λ _. ground arith;
      dir_room = λ d. absurd (omega arith);
      live = λ d. absurd (omega arith);
      distinct = λ d. absurd (omega arith);
    }

module _ {S : Type 0} where
  write-IsValid :
      (fs fs' : Fs S) (subject : Inode) (offset len : ℕ) (src : ℕ → ℕ) {status : Ret}
      {r : Run (Ret × Fs S)} {M : Type 0}
      → IsValid fs
      → find_inode subject.ino fs.inodes ≡ some subject
      → subject.inode_type ≡ file_type
      → WriteOutcome M fs subject offset len src r
      → r ≡ ok (status, fs')
      → IsValid fs'
  write-IsValid fs fs' subject offset len src v here is_file (halts full) e = cc
  write-IsValid fs fs' subject offset len src v here is_file (writes {fs' = fs1} after w finds next)
        e =
      let same : fs1 ≡ fs' = cc in
      let known = v.numbered subject.ino subject here in
      subst IsValid same (record {
        numbered =
            found_cases fs.inodes fs1.inodes subject.ino after finds
              {P = λ i n. (0 < i) × (i < fs1.next_ino)} (rw next known)
              (λ i n h. rw next (v.numbered i n h));
        sound =
            found_cases fs.inodes fs1.inodes subject.ino after finds
              {P = λ i n. IsSound fs1.inodes n}
              (Written-IsSound fs1.inodes subject after offset len src is_file
                ((v.sound subject.ino subject here).file_room is_file) w)
              (λ i n h.
                IsSound-mono (Exists-update fs.inodes fs1.inodes subject.ino after finds)
                  (v.sound i n h));
        root =
            HasRoot-update fs.inodes fs1.inodes subject.ino after finds subject here w.same_type
              v.root;
      })

  -- With an allocator that returns or panics, and whose blocks are null where `next` lies, a write to
  -- a regular file of a valid file system, at an offset from which `len` does not wrap, leaves a
  -- valid file system when it returns.
  pub fs_write-IsValid :
      (kmalloc : Kmalloc S) (uninitialised : Block) (fs fs' : Fs S) (ino offset len : ℕ)
      (src : ℕ → ℕ) (subject : Inode) {status : Ret}
      → ReturnsOrPanics kmalloc
      → IsValid fs
      → find_inode ino fs.inodes ≡ some subject
      → subject.inode_type ≡ file_type
      → offset + len < 2 ^ 64
      → fs_write kmalloc (null_next uninitialised) fs ino offset len (some src) ≡ ok (status, fs')
      → IsValid fs'
  fs_write-IsValid kmalloc uninitialised fs fs' ino offset len src subject total v found is_file
        small e =
      let at = find_inode-ino ino fs.inodes found in
      write-IsValid fs fs' subject offset len src v
        (subst (λ i. find_inode i fs.inodes ≡ some subject) (sym at) found) is_file
        (fs_write-Written kmalloc uninitialised total fs ino offset len src subject found is_file
          small)
        e
