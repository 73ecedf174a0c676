-- ===== src/Filesystem/Directory/Create.antt =====
-- `fs_create` of src/filesystem/filesystem.cpp.
use kehinde_kernel.Prelude.{
  ℕ, ◌+◌, ◌/◌, ◌%◌, ◌^◌, ◌≤◌, ◌<◌, ◌≡◌, ◌≢◌, refl, sym, ap, subst, ◌∙◌, true, false, ◌||◌, Option,
  some, List, [], ◌∷◌, ◌++◌, ◌==◌, leb, if◌then◌else◌, length, arith, Bool-cases, inl, inr,
  length-append,
}
use mathlib.Core.List.{append-nil}
use mathlib.Core.Bool.{false≢true}
use kehinde_kernel.Bits.{u64}
use kehinde_kernel.Run.{Run, ok, panic, ◌>>=◌}
use kehinde_kernel.Filesystem.{
  null_next, Fs, Block, Inode, Dirent, Kmalloc, find_inode, store_inode, append_block,
  dirents_per_block, dir_type, max_size, invalid_ino, sizeof_inode, block_size, store_slot,
}
use kehinde_kernel.Filesystem.Inodes.{find_inode-ino, find_inode-store}
use kehinde_kernel.Filesystem.Names.{char_at, name_matches_single, name_matches_single_iff}
use kehinde_kernel.Filesystem.File.Write.{ReturnsOrPanics, OutOfMemory}
use kehinde_kernel.Filesystem.Directory.{append_dirent, grow_directory, create_entry, fs_create}
use kehinde_kernel.Filesystem.Directory.Slots.{
  entry_of, slots, get_elem-entry_of, entry_of-store, entry_of-append, length-store_slot,
}
use kehinde_kernel.Filesystem.Directory.Search.{
  Match, absent, found, first_match-Match, no_duplicate-first_match, is_none,
}

-- A name that fits an entry.
abbrev pub IsName : List ℕ → Type 0
IsName name = (length name < max_size) × (char_at name 0 ≢ 0)

-- The directory `dir` has an entry of this name.
abbrev pub HasEntry : Inode → List ℕ → Type 0
HasEntry dir name = (k : ℕ) × (k < dir.inode_size) × ((entry_of dir.chain k).name ≡ name)

-- `after` is `before` with one more entry at its end.
pub record Extended (before after : Inode) (e : Dirent) : Type 0 where
  pub same_ino : after.ino ≡ before.ino
  pub same_type : after.inode_type ≡ before.inode_type
  pub size : after.inode_size ≡ before.inode_size + 1
  pub room : after.inode_size ≤ slots after.chain
  pub last : entry_of after.chain before.inode_size ≡ e
  pub kept : (i : ℕ) → i < before.inode_size → entry_of after.chain i ≡ entry_of before.chain i

-- What `fs_create` comes to in a directory.
pub data CreateOutcome {S : Type 0} (no_memory : Type 0) (fs : Fs S) (parent : Inode)
    (name : List ℕ) (type : ℕ) : Run (ℕ × Fs S) → Type 0 where
  halts : no_memory → CreateOutcome no_memory fs parent name type panic
  refused :
      (IsName name → HasEntry parent name)
      → CreateOutcome no_memory fs parent name type (ok (invalid_ino, fs))
  creates :
      {fs' : Fs S} (after new : Inode)
      → IsName name
      → (HasEntry parent name → ⊥)
      → Extended parent after (record { inode_id = fs.next_ino; name = name })
      → new.ino ≡ fs.next_ino
      → new.inode_type ≡ type
      → new.inode_size ≡ 0
      → ((i : ℕ)
          → find_inode i fs'.inodes ≡ (
              if parent.ino == i
              then some after
              else if fs.next_ino == i
              then some new
              else find_inode i fs.inodes))
      → fs'.next_ino ≡ fs.next_ino + 1
      → CreateOutcome no_memory fs parent name type (ok (fs.next_ino, fs'))

-- The list of inodes after a creation: the new one in front, the parent changed.
find-created :
    (inodes : List Inode) (parent after new : Inode) (i : ℕ)
    → find_inode parent.ino inodes ≡ some parent
    → after.ino ≡ parent.ino
    → parent.ino < new.ino
    → find_inode i (store_inode after (new ∷ inodes)) ≡ (
        if parent.ino == i
        then some after
        else if new.ino == i
        then some new
        else find_inode i inodes)
unfolding find_inode
find-created inodes parent after new i here same older =
    let apart : (new.ino == parent.ino) ≡ false = ground arith in
    let at : (after.ino == i) ≡ (parent.ino == i) = ap (λ (t : ℕ). t == i) same in
    let there : find_inode after.ino (new ∷ inodes) ≡ some parent =
      ap (λ t. find_inode t (new ∷ inodes)) same ∙ rw (apart, find_inode) here in
    find_inode-store i (new ∷ inodes) after there
    ∙ ap (λ t. if t then some after else if new.ino == i then some new else find_inode i inodes) at

module _ {S : Type 0} (kmalloc : Kmalloc S) (uninitialised : Block)
    (total : ReturnsOrPanics kmalloc) where
  -- The parent's chain has room for one more entry, or the allocator panics.
  data Room (parent : Inode) : Run (S × List Block) → Type 0 where
    stops : OutOfMemory kmalloc → Room parent panic
    roomy :
        {heap : S} {chain : List Block} (more : List Block)
        → chain ≡ parent.chain ++ more
        → parent.inode_size < slots chain
        → Room parent (ok (heap, chain))

  grow_directory-Room :
      (parent : Inode) (heap : S)
      → parent.inode_size ≤ slots parent.chain
      → Room parent (grow_directory kmalloc (null_next uninitialised) parent heap)
  unfolding grow_directory append_block
  grow_directory-Room parent heap fits =
      elim (Bool-cases (parent.inode_size % dirents_per_block == 0)) [
        | inr part ↦ rw part (roomy [] (sym (append-nil parent.chain)) (ground arith))
        | inl boundary ↦ rw boundary (elim (total block_size heap) [
          | inl p ↦ rw p (stops (block_size, heap, p))
          | inr ((a, heap'), r) ↦ rw r (
              roomy _ refl (
                omega (arith, length-append parent.chain (record uninitialised { base = a } ∷ []))))
        ])
      ]

  append_dirent-Extended :
      (parent : Inode) (e : Dirent) (more : List Block)
      → parent.inode_size < slots (parent.chain ++ more)
      → parent.inode_size ≤ slots parent.chain
      → parent.inode_size + 1 < 2 ^ 64
      → (after : Inode) × (append_dirent parent e (parent.chain ++ more) ≡ ok after)
        × Extended parent after e
  unfolding append_dirent
  append_dirent-Extended parent e more fits old low =
      let wraps : u64 (parent.inode_size + 1) ≡ parent.inode_size + 1 = omega arith in
      let chain = parent.chain ++ more in
      let n = parent.inode_size in
      let (b, got, same) = get_elem-entry_of chain n fits in
      let stored = entry_of-store chain n in
      (
        record parent {
          inode_size = n + 1;
          chain = store_slot (n / dirents_per_block) (n % dirents_per_block) e chain;
        },
        rw (got, append_dirent, wraps) refl,
        record {
          same_ino = refl;
          same_type = refl;
          size = refl;
          room =
              omega
                (arith, length-store_slot (n / dirents_per_block) (n % dirents_per_block) e chain);
          last = ground (arith, entry_of-store chain n n e fits);
          kept = λ i h.
              ground (arith, entry_of-store chain n i e fits, entry_of-append parent.chain more i);
        },
      )

  -- The part of `fs_create` behind its checks, once the parent has room.
  module _ (fs : Fs S) (parent : Inode) (name : List ℕ) (type : ℕ)
      (fits : parent.inode_size ≤ slots parent.chain)
      (here : find_inode parent.ino fs.inodes ≡ some parent) (older : parent.ino < fs.next_ino)
      (valid : IsName name) (unused : HasEntry parent name → ⊥)
      (low : parent.inode_size + 1 < 2 ^ 64) (numbers : fs.next_ino + 1 < 2 ^ 64) where
    given_space :
        (p : ℕ) {r : Run (S × List Block)}
        → Room parent r
        → CreateOutcome (OutOfMemory kmalloc) fs parent name type (
            r >>= λ (heap', chain).
            append_dirent parent (record { inode_id = fs.next_ino; name = name }) chain
            >>= λ parent'. ok (
              fs.next_ino,
              record {
                heap = heap';
                next_ino = u64 (fs.next_ino + 1);
                inodes = store_inode parent' (
                    record {
                      base = p;
                      ino = fs.next_ino;
                      inode_type = type;
                      inode_size = 0;
                      chain = [];
                    }
                    ∷ fs.inodes);
              },
            ))
    given_space p (stops full) = halts full
    given_space p (roomy more e room) =
        let (after, ran, extended) =
          append_dirent-Extended parent (record { inode_id = fs.next_ino; name = name }) more
            (subst (λ c. parent.inode_size < slots c) e room) fits low in
        rw (e, ran)
          (creates after _ valid unused extended refl refl refl
            (λ i. find-created fs.inodes parent after _ i here extended.same_ino older)
            (omega arith))

    create_entry-CreateOutcome :
        CreateOutcome
          (OutOfMemory kmalloc)
          fs
          parent
          name
          type
          (create_entry kmalloc (null_next uninitialised) fs parent name type)
    unfolding create_entry
    create_entry-CreateOutcome = elim (total sizeof_inode fs.heap) [
      | inl p ↦ rw (p, create_entry) (halts (sizeof_inode, fs.heap, p))
      | inr ((a, heap), r) ↦
          rw (r, create_entry) (given_space a (grow_directory-Room parent heap fits))
    ]

  checked :
      (fs : Fs S) (parent : Inode) (name : List ℕ) (type : ℕ) {r : Option ℕ}
      → parent.inode_size ≤ slots parent.chain
      → find_inode parent.ino fs.inodes ≡ some parent
      → parent.ino < fs.next_ino
      → IsName name
      → parent.inode_size + 1 < 2 ^ 64
      → fs.next_ino + 1 < 2 ^ 64
      → Match (λ n. name_matches_single n name) parent.chain 0 parent.inode_size r
      → CreateOutcome (OutOfMemory kmalloc) fs parent name type (
          if is_none r
          then create_entry kmalloc (null_next uninitialised) fs parent name type
          else ok (invalid_ino, fs))
  checked fs parent name type fits here older valid low numbers (absent h) =
      create_entry-CreateOutcome fs parent name type fits here older valid
        (λ (k, lt, same).
          false≢true (sym (h k (omega arith) lt) ∙ (name_matches_single_iff _ name).1 same))
        low numbers
  checked fs parent name type fits here older valid low numbers (found {k} lo hi h) =
      refused (λ _. (k, hi, (name_matches_single_iff _ name).0 h))

  pub fs_create-CreateOutcome :
      (fs : Fs S) (parent_ino : ℕ) (name : List ℕ) (type : ℕ) (parent : Inode)
      → find_inode parent_ino fs.inodes ≡ some parent
      → parent.inode_type ≡ dir_type
      → parent.inode_size ≤ slots parent.chain
      → parent_ino < fs.next_ino
      → parent.inode_size + 1 < 2 ^ 64
      → fs.next_ino + 1 < 2 ^ 64
      → CreateOutcome
          (OutOfMemory kmalloc)
          fs
          parent
          name
          type
          (fs_create kmalloc (null_next uninitialised) fs parent_ino name type)
  unfolding fs_create
  fs_create-CreateOutcome fs parent_ino name type parent got is_dir fits older low numbers =
      let at = find_inode-ino parent_ino fs.inodes got in
      let here = subst (λ i. find_inode i fs.inodes ≡ some parent) (sym at) got in
      let directory : (parent.inode_type == dir_type) ≡ true = ground arith in
      rw (got, fs_create, directory)
        (elim (Bool-cases (leb max_size (length name) || (char_at name 0 == 0))) [
          | inl bad ↦ rw bad (refused (λ (short, nonempty). absurd (ground arith)))
          | inr good ↦
              rw (good, no_duplicate-first_match parent fits name parent.inode_size 0 (omega arith))
                (checked fs parent name type fits here (subst (λ i. i < fs.next_ino) (sym at) older)
                  (ground arith) low numbers
                  (first_match-Match (λ n. name_matches_single n name) parent.chain
                    parent.inode_size 0 parent.inode_size (omega arith)))
        ])
