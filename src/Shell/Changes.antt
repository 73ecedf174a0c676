-- ===== src/Shell/Changes.antt =====
-- What the calls that change files keep for the shell of src/shell/shell.cpp.
use kehinde_kernel.Prelude.{
  ℕ, suc, ◌+◌, ◌^◌, ◌<◌, ◌≡◌, inl, inr, refl, sym, ap, subst, ◌∙◌, arith, false, ◌==◌, ==_refl,
  if◌then◌else◌, List, some, Bool-cases,
}
use kehinde_kernel.Run.{Run, ok}
use kehinde_kernel.Run.Ends.{Ends, returns, panics}
use kehinde_kernel.Filesystem.{
  null_next, Fs, Inode, Block, Kmalloc, Ret, minus_one, find_inode, dir_type, file_type,
}
use kehinde_kernel.Filesystem.Inodes.{find_inode-ino}
use kehinde_kernel.Filesystem.Directory.{fs_create, fs_unlink}
use kehinde_kernel.Filesystem.Directory.Create.{
  CreateOutcome, halts, refused, creates, fs_create-CreateOutcome,
}
use kehinde_kernel.Filesystem.Directory.Unlink.{
  UnlinkOutcome, missing, kept, removes, fs_unlink-UnlinkOutcome,
}
use kehinde_kernel.Filesystem.File.{fs_write}
use kehinde_kernel.Filesystem.File.Write as FileWrite
use kehinde_kernel.Filesystem.File.Write.{
  ReturnsOrPanics, OutOfMemory, WriteOutcome, writes, fs_write-Written,
}
use kehinde_kernel.Filesystem.Invariant as FsInvariant
use kehinde_kernel.Filesystem.Invariant.{found_cases}
use kehinde_kernel.Filesystem.Invariant.Creation.{fs_create-IsValid}
use kehinde_kernel.Filesystem.Invariant.Removal.{fs_unlink-IsValid}
use kehinde_kernel.Filesystem.Invariant.Update.{fs_write-IsValid}
use kehinde_kernel.Shell.{Shell}
use kehinde_kernel.Shell.Valid.{
  IsDirectory, Small, IsValid, files-IsValid, Counts, Counts-fewer, Lasts,
}

-- What a change of the files keeps for the shell.
pub record Kept {S : Type 0} (cwd : ℕ) (fs fs' : Fs S) : Type 0 where
  pub files : FsInvariant.IsValid fs'
  pub small : Small fs'.inodes
  pub here : IsDirectory fs'.inodes cwd
  pub counts : (n : ℕ) → Counts (suc n) fs → Counts n fs'

module _ {S : Type 0} (sh : Shell S) (v : IsValid sh) where
  unchanged : Kept sh.cwd_ino sh.fs sh.fs
  unchanged = record {
    files = v.files;
    small = v.small;
    here = v.here;
    counts = λ n c. Counts-fewer n sh.fs c;
  }

  pub with_files :
      {n : ℕ} (fs' : Fs S)
      → Kept sh.cwd_ino sh.fs fs'
      → Counts (suc n) sh.fs
      → Lasts n (record sh { fs = fs' })
  with_files {n} fs' k c = record {
    valid = files-IsValid sh fs' v k.files k.small k.here;
    counts = k.counts n c;
  }

  -- A call that gives a result and changed files.
  abbrev pub Changes : {A : Type 0} → Type 0 → Type 0 → Run (A × Fs S) → Type 0
  Changes {A} Oom M = Ends Oom M (λ (r : A × Fs S). Kept sh.cwd_ino sh.fs r.1)

  -- What holds of the inodes after a creation.
  created_cases :
      (P : Inode → Type 0) (parent after new : Inode) (inodes : List Inode) (next : ℕ)
      → ((i : ℕ)
          → find_inode i inodes ≡ (
              if parent.ino == i
              then some after
              else if next == i
              then some new
              else find_inode i sh.fs.inodes))
      → P after
      → P new
      → ((i : ℕ) (n : Inode) → find_inode i sh.fs.inodes ≡ some n → P n)
      → (i : ℕ) (n : Inode) → find_inode i inodes ≡ some n
      → P n
  created_cases P parent after new inodes next finds changed made old i n h =
      elim (Bool-cases (parent.ino == i)) [
        | inl here ↦
            let e : some after ≡ some n = sym (finds i ∙ rw here refl) ∙ h in
            let f : after ≡ n = cc in subst P f changed
        | inr there ↦ elim (Bool-cases (next == i)) [
          | inl fresh ↦
              let e : some new ≡ some n = sym (finds i ∙ rw (there, fresh) refl) ∙ h in
              let f : new ≡ n = cc in subst P f made
          | inr other ↦ old i n (sym (finds i ∙ rw (there, other) refl) ∙ h)
        ]
      ]

  create-Changes :
      {Oom M : Type 0} (parent : Inode) (name : List ℕ) (type : ℕ) {r : Run (ℕ × Fs S)}
      → find_inode sh.cwd_ino sh.fs.inodes ≡ some parent
      → parent.inode_type ≡ dir_type
      → parent.ino ≡ sh.cwd_ino
      → CreateOutcome Oom sh.fs parent name type r
      → ((ino : ℕ) (fs' : Fs S) → r ≡ ok (ino, fs') → FsInvariant.IsValid fs')
      → Changes Oom M r
  create-Changes parent name type at is_dir same (halts full) valid = panics full
  create-Changes parent name type at is_dir same (refused _) valid = returns unchanged
  create-Changes parent name type at is_dir same
        (creates {fs'} after new named unused x number kind empty finds next) valid =
      let cases =
        λ (P : Inode → Type 0). created_cases P parent after new fs'.inodes sh.fs.next_ino finds in
      returns (record {
        files = valid _ fs' refl;
        small =
            cases (λ n. n.inode_type ≡ file_type → n.inode_size < 2 ^ 63)
              (λ is_file. absurd (omega (arith, x.same_type))) (λ _. omega arith) v.small;
        here = (
          after,
          finds sh.cwd_ino ∙ rw (sym same, ==_refl parent.ino) refl,
          x.same_type ∙ is_dir,
        );
        counts = λ n c. record {
          numbers = omega (arith, c.numbers);
          sizes =
              cases (λ d. d.inode_type ≡ dir_type → d.inode_size + n < 2 ^ 64)
                (λ _. omega (arith, x.size, c.sizes sh.cwd_ino parent at is_dir))
                (λ _. omega (arith, c.numbers)) (λ i d h is. omega (arith, c.sizes i d h is));
        };
      })

  -- A new entry in the current directory keeps the state.
  pub fs_create-Changes :
      {M : Type 0} {n : ℕ} (kmalloc : Kmalloc S) (uninitialised : Block) (name : List ℕ) (type : ℕ)
      → ReturnsOrPanics kmalloc
      → Counts (suc n) sh.fs
      → Changes
          (OutOfMemory kmalloc)
          M
          (fs_create kmalloc (null_next uninitialised) sh.fs sh.cwd_ino name type)
  fs_create-Changes kmalloc uninitialised name type total c =
      let (parent, at, is_dir) = v.here in
      let room = (v.files.sound sh.cwd_ino parent at).dir_room is_dir in
      let older = (v.files.numbered sh.cwd_ino parent at).1 in
      let low : parent.inode_size + 1 < 2 ^ 64 =
        omega (arith, c.sizes sh.cwd_ino parent at is_dir) in
      let numbers : sh.fs.next_ino + 1 < 2 ^ 64 = omega (arith, c.numbers) in
      create-Changes parent name type at is_dir (find_inode-ino sh.cwd_ino sh.fs.inodes at)
        (fs_create-CreateOutcome kmalloc uninitialised total sh.fs sh.cwd_ino name type parent at
          is_dir room older low numbers)
        (λ ino fs' e.
          fs_create-IsValid kmalloc uninitialised sh.fs fs' sh.cwd_ino name type parent total
            v.files at is_dir low numbers e)

  updated-Small :
      (parent after : Inode) (inodes : List Inode)
      → (after.inode_type ≡ file_type → after.inode_size < 2 ^ 63)
      → ((i : ℕ)
          → find_inode i inodes
            ≡ (if parent.ino == i then some after else find_inode i sh.fs.inodes))
      → Small inodes
  updated-Small parent after inodes low finds =
      found_cases sh.fs.inodes inodes parent.ino after finds
        {P = λ i n. n.inode_type ≡ file_type → n.inode_size < 2 ^ 63} low v.small

  -- An inode that is changed under its number, and does not grow if it is a directory.
  updated-Counts :
      (parent after : Inode) (fs' : Fs S)
      → (after.inode_type ≡ dir_type
          → (k : ℕ) → Counts (suc k) sh.fs
          → after.inode_size + k < 2 ^ 64)
      → ((i : ℕ)
          → find_inode i fs'.inodes
            ≡ (if parent.ino == i then some after else find_inode i sh.fs.inodes))
      → fs'.next_ino ≡ sh.fs.next_ino
      → (n : ℕ) → Counts (suc n) sh.fs
      → Counts n fs'
  updated-Counts parent after fs' low finds next n c = record {
    numbers = omega (arith, c.numbers);
    sizes =
        found_cases sh.fs.inodes fs'.inodes parent.ino after finds
          {P = λ i d. d.inode_type ≡ dir_type → d.inode_size + n < 2 ^ 64} (λ is. low is n c)
          (λ i d h is. omega (arith, c.sizes i d h is));
  }

  unlink-Changes :
      {Oom M : Type 0} (parent : Inode) (name : List ℕ) {r : Run (Ret × Fs S)}
      → find_inode sh.cwd_ino sh.fs.inodes ≡ some parent
      → parent.inode_type ≡ dir_type
      → parent.ino ≡ sh.cwd_ino
      → UnlinkOutcome sh.fs parent name r
      → ((status : Ret) (fs' : Fs S) → r ≡ ok (status, fs') → FsInvariant.IsValid fs')
      → Changes Oom M r
  unlink-Changes parent name at is_dir same (missing h) valid = returns unchanged
  unlink-Changes parent name at is_dir same (kept k lt named refused_here) valid = returns unchanged
  unlink-Changes parent name at is_dir same (removes {fs'} k after lt named free x finds next)
        valid =
      returns (record {
        files = valid _ fs' refl;
        small =
            updated-Small parent after fs'.inodes (λ is_file. absurd (omega (arith, x.same_type)))
              finds;
        here = (
          after,
          finds sh.cwd_ino ∙ rw (sym same, ==_refl parent.ino) refl,
          x.same_type ∙ is_dir,
        );
        counts =
            updated-Counts parent after fs'
              (λ _ k c. omega (arith, x.size, c.sizes sh.cwd_ino parent at is_dir)) finds next;
      })

  -- So does the removal of an entry.
  pub fs_unlink-Changes :
      {Oom M : Type 0} (name : List ℕ) → Changes Oom M (fs_unlink sh.fs sh.cwd_ino name)
  fs_unlink-Changes name =
      let (parent, at, is_dir) = v.here in
      let room = (v.files.sound sh.cwd_ino parent at).dir_room is_dir in
      unlink-Changes parent name at is_dir (find_inode-ino sh.cwd_ino sh.fs.inodes at)
        (fs_unlink-UnlinkOutcome sh.fs sh.cwd_ino name parent at is_dir room)
        (λ status fs' e. fs_unlink-IsValid sh.fs fs' sh.cwd_ino name parent v.files at is_dir e)

  write-Changes :
      {Oom M : Type 0} (subject : Inode) (len : ℕ) (src : ℕ → ℕ) {r : Run (Ret × Fs S)}
      → find_inode subject.ino sh.fs.inodes ≡ some subject
      → subject.inode_type ≡ file_type
      → len < 2 ^ 63
      → WriteOutcome Oom sh.fs subject 0 len src r
      → ((status : Ret) (fs' : Fs S) → r ≡ ok (status, fs') → FsInvariant.IsValid fs')
      → Changes Oom M r
  write-Changes subject len src at is_file low (FileWrite.halts full) valid = panics full
  write-Changes subject len src at is_file low (writes {fs'} after w finds next) valid =
      returns (record {
        files = valid _ fs' refl;
        small =
            updated-Small subject after fs'.inodes
              (λ _. ground (arith, w.size, v.small subject.ino subject at is_file)) finds;
        here = still;
        counts =
            updated-Counts subject after fs' (λ is_dir. absurd (omega (arith, w.same_type))) finds
              next;
      })
    where
      still : IsDirectory fs'.inodes sh.cwd_ino
      still =
          let (n, there, is_dir) = v.here in
          elim (Bool-cases (subject.ino == sh.cwd_ino)) [
            | inl same ↦
                let e : subject.ino ≡ sh.cwd_ino = ground arith in
                let f : some subject ≡ some n =
                  sym at ∙ ap (λ i. find_inode i sh.fs.inodes) e ∙ there in
                let g : subject ≡ n = cc in
                absurd (let h : n.inode_type ≡ file_type = rw (← g) is_file in omega arith)
            | inr other ↦ (n, finds sh.cwd_ino ∙ rw other there, is_dir)
          ]

  fs_write_other :
      (kmalloc : Kmalloc S) (uninitialised : Block) (ino len : ℕ) (src : ℕ → ℕ) (n : Inode)
      → find_inode ino sh.fs.inodes ≡ some n
      → (n.inode_type == file_type) ≡ false
      → fs_write kmalloc (null_next uninitialised) sh.fs ino 0 len (some src)
        ≡ ok (minus_one, sh.fs)
  unfolding fs_write
  fs_write_other kmalloc uninitialised ino len src n at other = rw (at, fs_write, other) refl

  -- And a write of a short text to any inode.
  pub fs_write-Changes :
      {M : Type 0} (kmalloc : Kmalloc S) (uninitialised : Block) (ino len : ℕ) (src : ℕ → ℕ)
      (n : Inode)
      → ReturnsOrPanics kmalloc
      → find_inode ino sh.fs.inodes ≡ some n
      → len < 2 ^ 63
      → Changes
          (OutOfMemory kmalloc)
          M
          (fs_write kmalloc (null_next uninitialised) sh.fs ino 0 len (some src))
  fs_write-Changes kmalloc uninitialised ino len src n total at low =
      elim (Bool-cases (n.inode_type == file_type)) [
        | inr other ↦
            rw (fs_write_other kmalloc uninitialised ino len src n at other) (returns unchanged)
        | inl file ↦
            let is_file : n.inode_type ≡ file_type = ground arith in
            let same = find_inode-ino ino sh.fs.inodes at in
            write-Changes n len src (subst (λ i. find_inode i sh.fs.inodes ≡ some n) (sym same) at)
              is_file low
              (fs_write-Written kmalloc uninitialised total sh.fs ino 0 len src n at is_file
                (omega arith))
              (λ status fs' e.
                fs_write-IsValid kmalloc uninitialised sh.fs fs' ino 0 len src n total v.files at
                  is_file (omega arith) e)
      ]
