-- ===== src/Filesystem/Directory/Unlink.antt =====
-- `fs_unlink` of src/filesystem/filesystem.cpp.
use kehinde_kernel.Prelude.{
  ℕ, ◌-◌, ◌/◌, ◌%◌, ◌≤◌, ◌<◌, ◌≡◌, ◌≢◌, refl, sym, ap, subst, ◌∙◌, true, false, Option, some, List,
  ◌==◌, if◌then◌else◌, arith, Bool-cases, inl, inr,
}
use mathlib.Core.Bool.{false≢true}
use kehinde_kernel.Run.{Run, ok}
use kehinde_kernel.Filesystem.{
  Fs, Inode, null, Ret, minus_one, ret, find_inode, dirents_per_block, dir_type, store_slot,
  dirent_at,
}
use kehinde_kernel.Filesystem.Inodes.{find_inode-ino, find_inode-store}
use kehinde_kernel.Filesystem.Names.{name_matches_single, name_matches_single_iff}
use kehinde_kernel.Filesystem.Directory.{same_dirent, swap_last, removable, unlink_entry, fs_unlink}
use kehinde_kernel.Filesystem.Directory.Slots.{
  entry_of, slots, dirent_at-entry, load-entry_of, entry_of-store, length-store_slot,
}
use kehinde_kernel.Filesystem.Directory.Search.{
  Match, absent, found, first_match-Match, find_dirent-first_match, stop_at, at_index, last_entry,
}

-- `after` is `before` with entry `k` taken out and the last entry in its place.
pub record Removed (before after : Inode) (k : ℕ) : Type 0 where
  pub same_ino : after.ino ≡ before.ino
  pub same_type : after.inode_type ≡ before.inode_type
  pub size : after.inode_size ≡ before.inode_size - 1
  pub room : slots after.chain ≡ slots before.chain
  pub entries :
      (i : ℕ)
      → i < before.inode_size - 1
      → entry_of after.chain i ≡ entry_of before.chain (if k == i then before.inode_size - 1 else i)

-- What `fs_unlink` comes to in a directory.
pub data UnlinkOutcome {S : Type 0} (fs : Fs S) (parent : Inode) (name : List ℕ)
    : Run (Ret × Fs S) → Type 0 where
  missing :
      ((k : ℕ) → k < parent.inode_size → (entry_of parent.chain k).name ≢ name)
      → UnlinkOutcome fs parent name (ok (minus_one, fs))
  kept :
      (k : ℕ)
      → k < parent.inode_size
      → (entry_of parent.chain k).name ≡ name
      → removable (find_inode (entry_of parent.chain k).inode_id fs.inodes) ≡ false
      → UnlinkOutcome fs parent name (ok (minus_one, fs))
  removes :
      {fs' : Fs S} (k : ℕ) (after : Inode)
      → k < parent.inode_size
      → (entry_of parent.chain k).name ≡ name
      → removable (find_inode (entry_of parent.chain k).inode_id fs.inodes) ≡ true
      → Removed parent after k
      → ((i : ℕ)
          → find_inode i fs'.inodes
            ≡ (if parent.ino == i then some after else find_inode i fs.inodes))
      → fs'.next_ino ≡ fs.next_ino
      → UnlinkOutcome fs parent name (ok (ret 0, fs'))

module _ (parent : Inode) (fits : parent.inode_size ≤ slots parent.chain)
    (full : 0 < parent.inode_size) where
  same_dirent-index : (j k : ℕ) → same_dirent (at_index j) (at_index k) ≡ (j == k)
  unfolding same_dirent
  same_dirent-index j k = ground arith

  swap_last-Removed :
      (k : ℕ)
      → k < parent.inode_size
      → (after : Inode) × (swap_last parent (at_index k) (last_entry parent) ≡ ok after)
        × Removed parent after k
  unfolding swap_last
  swap_last-Removed k lt = elim (Bool-cases (k == parent.inode_size - 1)) [
    | inl last ↦ (
      record parent { inode_size = parent.inode_size - 1 },
      rw (same_dirent-index k (parent.inode_size - 1), swap_last, last) refl,
      record {
        same_ino = refl;
        same_type = refl;
        size = refl;
        room = refl;
        entries = λ i h. ground arith;
      },
    )
    | inr inner ↦ (
      record parent {
        inode_size = parent.inode_size - 1;
        chain =
            store_slot (k / dirents_per_block) (k % dirents_per_block)
              (entry_of parent.chain (parent.inode_size - 1)) parent.chain;
      },
      rw
          (
            same_dirent-index k (parent.inode_size - 1),
            swap_last,
            inner,
            load-entry_of parent (parent.inode_size - 1) fits (omega arith),
          )
          refl,
      record {
        same_ino = refl;
        same_type = refl;
        size = refl;
        room = omega (
          arith,
          length-store_slot (k / dirents_per_block) (k % dirents_per_block)
              (entry_of parent.chain (parent.inode_size - 1)) parent.chain,
        );
        entries = λ i h. ground (
          arith,
          entry_of-store parent.chain k i (entry_of parent.chain (parent.inode_size - 1)),
        );
      },
    )
  ]

  module _ {S : Type 0} (fs : Fs S) (name : List ℕ)
      (here : find_inode parent.ino fs.inodes ≡ some parent) where
    last_found : dirent_at parent (parent.inode_size - 1) ≡ last_entry parent
    last_found = dirent_at-entry parent (parent.inode_size - 1) fits (omega arith)

    hit-UnlinkOutcome :
        (k : ℕ)
        → k < parent.inode_size
        → (entry_of parent.chain k).name ≡ name
        → UnlinkOutcome fs parent name (unlink_entry fs parent name (at_index k))
    unfolding unlink_entry
    hit-UnlinkOutcome k lt same =
        let hit = (name_matches_single_iff (entry_of parent.chain k).name name).1 same in
        let (after, ran, removed) = swap_last-Removed k lt in
        rw (load-entry_of parent k fits lt, unlink_entry, hit, last_found)
          (elim (Bool-cases (removable (find_inode (entry_of parent.chain k).inode_id fs.inodes))) [
            | inr no' ↦ rw no' (kept k lt same no')
            | inl yes' ↦
                rw (yes', ran)
                  (removes k after lt same yes' removed
                    (λ i.
                      find_inode-store i fs.inodes after
                        (ap (λ t. find_inode t fs.inodes) removed.same_ino ∙ here)
                      ∙ ap (λ (t : ℕ). if t == i then some after else find_inode i fs.inodes)
                          removed.same_ino)
                    refl)
          ])

    stopped :
        {r : Option ℕ}
        → Match (λ n. name_matches_single n name) parent.chain 0 parent.inode_size r
        → UnlinkOutcome fs parent name (unlink_entry fs parent name (stop_at (last_entry parent) r))
    unfolding unlink_entry
    stopped (found {k} lo hi h) = hit-UnlinkOutcome k hi ((name_matches_single_iff _ name).0 h)
    stopped (absent h) =
        rw
          (
            load-entry_of parent (parent.inode_size - 1) fits (omega arith),
            unlink_entry,
            h (parent.inode_size - 1) (omega arith) (omega arith),
          )
          (missing λ k lt same.
            false≢true (sym (h k (omega arith) lt) ∙ (name_matches_single_iff _ name).1 same))

-- `fs_unlink` in a directory whose blocks hold its entries fails and changes nothing if no entry
-- has the name, or if the inode of the entry is missing or a directory that is not empty; or takes
-- out an entry of that name, moving the last one into its place, and changes no other inode. It
-- reaches no null block.
pub fs_unlink-UnlinkOutcome :
    {S : Type 0} (fs : Fs S) (parent_ino : ℕ) (name : List ℕ) (parent : Inode)
    → find_inode parent_ino fs.inodes ≡ some parent
    → parent.inode_type ≡ dir_type
    → parent.inode_size ≤ slots parent.chain
    → UnlinkOutcome fs parent name (fs_unlink fs parent_ino name)
unfolding fs_unlink
fs_unlink-UnlinkOutcome fs parent_ino name parent got is_dir fits =
    let at = find_inode-ino parent_ino fs.inodes got in
    let here = subst (λ i. find_inode i fs.inodes ≡ some parent) (sym at) got in
    let directory : (parent.inode_type == dir_type) ≡ true = ground arith in
    rw (got, fs_unlink, directory)
      (elim (Bool-cases (parent.inode_size == 0)) [
        | inl empty ↦ rw empty (missing λ k lt. absurd (ground arith))
        | inr some' ↦
            rw
              (
                some',
                find_dirent-first_match parent fits name parent.inode_size 0 null (omega arith),
                some',
              )
              (stopped parent fits (ground arith) fs name here (
                first_match-Match (λ n. name_matches_single n name) parent.chain parent.inode_size 0
                  parent.inode_size (omega arith)))
      ])
