-- ===== src/Filesystem/File/Write.antt =====
-- `fs_write` of src/filesystem/filesystem.cpp.
use kehinde_kernel.Prelude.{
  ℕ, zero, suc, ◌+◌, ◌-◌, ◌*◌, ◌/◌, ◌%◌, ◌^◌, ◌≤◌, ◌<◌, ◌≡◌, refl, sym, subst, ◌∙◌, true, false,
  some, List, [], ◌∷◌, ◌++◌, ◌==◌, ltb, if◌then◌else◌, length, take, drop, arith, Bool-cases, ◌⊎◌,
  inl, inr, length-append,
}
use mathlib.Core.List.{append-nil, append_assoc}
use kehinde_kernel.Run.{Run, ok, panic, ◌>>=◌}
use kehinde_kernel.Filesystem.{
  null_next, Fs, Inode, Block, Kmalloc, Ret, ret, find_inode, append_block, data_size, block_size,
  file_type,
}
use kehinde_kernel.Filesystem.Inodes.{find_inode-ino, find_inode-store}
use kehinde_kernel.Filesystem.File.{write_loop, write_file, grow_loop, fs_write}
use kehinde_kernel.Filesystem.File.Content.{
  content, capacity, within, walk_blocks-drop, content-drop, content-take, content-append,
  length-drop, length-take,
}
use kehinde_kernel.Filesystem.File.Loops.{Writes, write_loop-Writes}

-- What the file system relies on of its allocator: a call of it returns or panics.
abbrev pub ReturnsOrPanics : {S : Type 0} → Kmalloc S → Type 0
ReturnsOrPanics {S} kmalloc =
    (n : ℕ) (heap : S) → (kmalloc n heap ≡ panic) ⊎ ((r : ℕ × S) × (kmalloc n heap ≡ ok r))

-- A call of the allocator that panics.
abbrev pub OutOfMemory : {S : Type 0} → Kmalloc S → Type 0
OutOfMemory {S} kmalloc = (n : ℕ) × (heap : S) × (kmalloc n heap ≡ panic)

-- The file after a write: the bytes of the source from `offset` on, all others as they were, and
-- the end moved up to the last byte written.
pub record Written (before after : Inode) (offset len : ℕ) (src : ℕ → ℕ) : Type 0 where
  pub same_ino : after.ino ≡ before.ino
  pub same_type : after.inode_type ≡ before.inode_type
  pub size :
      after.inode_size
      ≡ (if ltb before.inode_size (offset + len) then offset + len else before.inode_size)
  pub room : offset + len ≤ capacity after.chain
  pub grown : capacity before.chain ≤ capacity after.chain
  pub stored : (p : ℕ) → within offset len p ≡ true → content after.chain p ≡ src (p - offset)
  pub kept :
      (p : ℕ)
      → within offset len p ≡ false
      → p < capacity before.chain
      → content after.chain p ≡ content before.chain p

-- What `fs_write` comes to on a regular file.
pub data WriteOutcome {S : Type 0} (no_memory : Type 0) (fs : Fs S) (subject : Inode)
    (offset len : ℕ) (src : ℕ → ℕ) : Run (Ret × Fs S) → Type 0 where
  halts : no_memory → WriteOutcome no_memory fs subject offset len src panic
  writes :
      {fs' : Fs S} (after : Inode)
      → Written subject after offset len src
      → ((i : ℕ)
          → find_inode i fs'.inodes
            ≡ (if subject.ino == i then some after else find_inode i fs.inodes))
      → fs'.next_ino ≡ fs.next_ino
      → WriteOutcome no_memory fs subject offset len src (ok (ret len, fs'))

module _ {S : Type 0} (kmalloc : Kmalloc S) (uninitialised : Block)
    (total : ReturnsOrPanics kmalloc) where
  -- The growing loop panics, or leaves a chain with enough room that begins with the old one.
  data Grown (needed : ℕ) (chain : List Block) : Run (S × List Block) → Type 0 where
    stops : OutOfMemory kmalloc → Grown needed chain panic
    grows :
        {heap : S} {after : List Block} (more : List Block)
        → after ≡ chain ++ more
        → needed ≤ capacity after
        → Grown needed chain (ok (heap, after))

  Grown-append :
      {needed : ℕ} {r : Run (S × List Block)} (chain : List Block) (b : Block)
      → Grown needed (chain ++ (b ∷ [])) r
      → Grown needed chain r
  Grown-append chain b (stops full) = stops full
  Grown-append chain b (grows more e fits) =
      grows (b ∷ more) (e ∙ append_assoc chain (b ∷ []) more) fits

  grow_loop-Grown :
      (fuel needed count : ℕ) (heap : S) (chain : List Block)
      → count ≡ length chain
      → 0 < fuel
      → needed + data_size ≤ data_size * (count + fuel)
      → Grown needed chain
          (grow_loop kmalloc (null_next uninitialised) fuel needed count heap chain)
  unfolding grow_loop append_block
  grow_loop-Grown zero needed count heap chain e pos enough = absurd (omega arith)
  grow_loop-Grown (suc fuel) needed count heap chain e pos enough =
      elim (Bool-cases (ltb (data_size * count) needed)) [
        | inr fits ↦ rw (fits, grow_loop) (grows [] (sym (append-nil chain)) (ground arith))
        | inl short ↦
            rw (short, grow_loop)
              (elim (total block_size heap) [
                | inl p ↦ rw p (stops (block_size, heap, p))
                | inr ((a, heap'), r) ↦ rw r (
                    Grown-append chain _ (
                      grow_loop-Grown fuel needed (count + 1) heap' _
                        (omega
                          (arith, length-append chain (record uninitialised { base = a } ∷ [])))
                        (ground arith) (omega arith)))
              ])
      ]

  -- The bytes of the chain with the written blocks put back.
  splice :
      (chain after : List Block) (offset len : ℕ) (src : ℕ → ℕ)
      → offset / data_size ≤ length chain
      → ((p : ℕ)
          → content after p ≡ (
              if within (offset % data_size) (len - 0) p
              then src (0 + (p - offset % data_size))
              else content (drop (offset / data_size) chain) p))
      → (p : ℕ)
      → content (take (offset / data_size) chain ++ after) p
        ≡ (if within offset len p then src (p - offset) else content chain p)
  splice chain after offset len src fits h p =
      let n = offset / data_size in
      content-take n chain after p fits ∙ (elim (Bool-cases (ltb p (data_size * n))) [
        | inl before ↦ rw before (ground arith)
        | inr behind ↦
            let back : data_size * n + (p - data_size * n) ≡ p = ground arith in
            let from : 0 + (p - data_size * n - offset % data_size) ≡ p - offset = ground arith in
            rw
              (
                behind,
                h (p - data_size * n),
                content-drop n chain (p - data_size * n) fits,
                back,
                from,
              )
              (ground arith)
      ])

  -- The write proper, on a chain that covers it.
  finish_write :
      (fs : Fs S) (subject : Inode) (offset len : ℕ) (src : ℕ → ℕ) (more : List Block) (heap : S)
      → offset + len < 2 ^ 64
      → find_inode subject.ino fs.inodes ≡ some subject
      → offset + len ≤ capacity (subject.chain ++ more)
      → {r : Run (List Block)}
      → write_loop
          (drop (offset / data_size) (subject.chain ++ more))
          0
          (offset % data_size)
          len
          src
        ≡ r
      → Writes (drop (offset / data_size) (subject.chain ++ more)) 0 (offset % data_size) len src r
      → WriteOutcome (OutOfMemory kmalloc) fs subject offset len src (
          write_file
            (record fs { heap = heap })
            (record subject { chain = subject.chain ++ more })
            offset
            len
            src)
  unfolding write_file
  finish_write fs subject offset len src more heap small found fits runs (after, e, same, h) =
      let chain = subject.chain ++ more in
      let n = offset / data_size in
      let in_chain : n ≤ length chain = omega arith in
      let put = splice chain after offset len src in_chain h in
      let measured = length-take n chain after in_chain in
      let dropped = length-drop n chain in
      let joined = length-append subject.chain more in
      let wrap : (offset + len) % 2 ^ 64 ≡ offset + len = omega arith in
      rw (walk_blocks-drop n chain in_chain, write_file, runs ∙ e, wrap)
        (writes _
          (record {
            same_ino = refl;
            same_type = refl;
            size = refl;
            room = omega arith;
            grown = omega arith;
            stored = λ p inside. put p ∙ rw inside;
            kept = λ p outside old. put p ∙ rw outside (content-append subject.chain more p old);
          })
          (λ i. find_inode-store i fs.inodes _ found) refl)

  grow_then_store :
      (fs : Fs S) (subject : Inode) (offset len : ℕ) (src : ℕ → ℕ)
      → offset + len < 2 ^ 64
      → find_inode subject.ino fs.inodes ≡ some subject
      → {r : Run (S × List Block)} → Grown (offset + len) subject.chain r
      → WriteOutcome (OutOfMemory kmalloc) fs subject offset len src (
          r >>= λ (heap, chain).
          write_file (record fs { heap = heap }) (record subject { chain = chain }) offset len src)
  grow_then_store fs subject offset len src small found (stops full) = halts full
  grow_then_store fs subject offset len src small found (grows {heap} more e fits) =
      let chain = subject.chain ++ more in
      let room : offset + len ≤ capacity chain = subst (λ c. offset + len ≤ capacity c) e fits in
      rw e (
        finish_write fs subject offset len src more heap small found room refl (
          write_loop-Writes (drop (offset / data_size) chain) 0 (offset % data_size) len src
            (omega arith) (omega arith) (omega (arith, length-drop (offset / data_size) chain))))

  -- With an allocator that returns or panics, and whose blocks are null where `next` lies, a write to
  -- a regular file whose end does not wrap either panics, because a call of the allocator does, or
  -- returns `len` and has stored exactly the given bytes: the growing loop never runs out of its
  -- rounds, no null block is reached, and no other inode changes.
  pub fs_write-Written :
      (fs : Fs S) (ino offset len : ℕ) (src : ℕ → ℕ) (subject : Inode)
      → find_inode ino fs.inodes ≡ some subject
      → subject.inode_type ≡ file_type
      → offset + len < 2 ^ 64
      → WriteOutcome
          (OutOfMemory kmalloc)
          fs
          subject
          offset
          len
          src
          (fs_write kmalloc (null_next uninitialised) fs ino offset len (some src))
  unfolding fs_write
  fs_write-Written fs ino offset len src subject found is_file small =
      let wrap : (offset + len) % 2 ^ 64 ≡ offset + len = omega arith in
      let at : subject.ino ≡ ino = find_inode-ino ino fs.inodes found in
      let regular : (subject.inode_type == file_type) ≡ true = ground arith in
      rw (found, fs_write, regular, wrap)
        (grow_then_store fs subject offset len src small
          (subst (λ i. find_inode i fs.inodes ≡ some subject) (sym at) found)
          (grow_loop-Grown ((offset + len) / data_size + 2) (offset + len) (length subject.chain)
            fs.heap subject.chain refl (omega arith) (omega arith)))
