-- ===== src/Filesystem/Invariant/Removal.antt =====
-- `fs_unlink` of src/filesystem/filesystem.cpp keeps the invariant.
use kehinde_kernel.Prelude.{
  ℕ, ◌-◌, ◌<◌, ◌≡◌, ◌∙◌, sym, ap, some, List, ◌==◌, if◌then◌else◌, arith, subst,
}
use kehinde_kernel.Run.{Run, ok}
use kehinde_kernel.Filesystem.{Fs, Inode, Ret, find_inode, dir_type}
use kehinde_kernel.Filesystem.Inodes.{find_inode-ino}
use kehinde_kernel.Filesystem.Directory.{fs_unlink}
use kehinde_kernel.Filesystem.Directory.Unlink.{
  Removed, UnlinkOutcome, missing, kept, removes, fs_unlink-UnlinkOutcome,
}
use kehinde_kernel.Filesystem.Invariant.{
  IsValid, IsSound, IsSound-mono, Exists, found_cases, Exists-update, HasRoot-update,
}

-- Where entry `i` of the shorter directory comes from.
abbrev source : Inode → ℕ → ℕ → ℕ
source before k i = if k == i then before.inode_size - 1 else i

source-lt :
    (before : Inode) (k i : ℕ) → i < before.inode_size - 1 → source before k i < before.inode_size
source-lt before k i h = ground arith

source-injective :
    (before : Inode) (k i j : ℕ)
    → i < before.inode_size - 1
    → j < before.inode_size - 1
    → source before k i ≡ source before k j
    → i ≡ j
source-injective before k i j hi hj e = ground arith

Removed-IsSound :
    (inodes : List Inode) (before after : Inode) (k : ℕ)
    → before.inode_type ≡ dir_type
    → IsSound inodes before
    → Removed before after k
    → IsSound inodes after
Removed-IsSound inodes before after k is_dir s x = record {
  file_room = λ f. absurd (omega (arith, x.same_type));
  dir_room = λ _. omega (arith, x.size, x.room, s.dir_room is_dir);
  live = λ _ i h.
      let small : i < before.inode_size - 1 = omega (arith, x.size) in
      subst (λ d. Exists inodes d.inode_id) (sym (x.entries i small))
        (s.live is_dir (source before k i) (source-lt before k i small));
  distinct = λ _ i j hi hj same.
      let small_i : i < before.inode_size - 1 = omega (arith, x.size) in
      let small_j : j < before.inode_size - 1 = omega (arith, x.size) in
      source-injective before k i j small_i small_j (
        s.distinct is_dir (source before k i) (source before k j) (source-lt before k i small_i)
          (source-lt before k j small_j)
          (ap (λ d. d.name) (sym (x.entries i small_i))
            ∙ same
            ∙ ap (λ d. d.name) (x.entries j small_j)));
}

module _ {S : Type 0} where
  unlink-IsValid :
      (fs fs' : Fs S) (parent : Inode) (name : List ℕ) {status : Ret} {r : Run (Ret × Fs S)}
      → IsValid fs
      → find_inode parent.ino fs.inodes ≡ some parent
      → parent.inode_type ≡ dir_type
      → UnlinkOutcome fs parent name r
      → r ≡ ok (status, fs')
      → IsValid fs'
  unlink-IsValid fs fs' parent name v here is_dir (missing _) e =
      let same : fs ≡ fs' = cc in subst IsValid same v
  unlink-IsValid fs fs' parent name v here is_dir (kept _ _ _ _) e =
      let same : fs ≡ fs' = cc in subst IsValid same v
  unlink-IsValid fs fs' parent name v here is_dir
        (removes {fs' = fs1} k after lt at can x finds next) e =
      let same : fs1 ≡ fs' = cc in
      subst IsValid same (record {
        numbered =
            found_cases fs.inodes fs1.inodes parent.ino after finds
              {P = λ i n. (0 < i) × (i < fs1.next_ino)}
              (rw next (v.numbered parent.ino parent here)) (λ i n h. rw next (v.numbered i n h));
        sound =
            found_cases fs.inodes fs1.inodes parent.ino after finds
              {P = λ i n. IsSound fs1.inodes n}
              (Removed-IsSound fs1.inodes parent after k is_dir
                (IsSound-mono (Exists-update fs.inodes fs1.inodes parent.ino after finds)
                  (v.sound parent.ino parent here))
                x)
              (λ i n h.
                IsSound-mono (Exists-update fs.inodes fs1.inodes parent.ino after finds)
                  (v.sound i n h));
        root =
            HasRoot-update fs.inodes fs1.inodes parent.ino after finds parent here x.same_type
              v.root;
      })

  -- An unlink in a directory of a valid file system, successful or not, leaves a valid file system:
  -- entries stay distinct and lead to inodes, and the root stays.
  pub fs_unlink-IsValid :
      (fs fs' : Fs S) (parent_ino : ℕ) (name : List ℕ) (parent : Inode) {status : Ret}
      → IsValid fs
      → find_inode parent_ino fs.inodes ≡ some parent
      → parent.inode_type ≡ dir_type
      → fs_unlink fs parent_ino name ≡ ok (status, fs')
      → IsValid fs'
  fs_unlink-IsValid fs fs' parent_ino name parent v got is_dir e =
      let at = find_inode-ino parent_ino fs.inodes got in
      unlink-IsValid fs fs' parent name v
        (subst (λ i. find_inode i fs.inodes ≡ some parent) (sym at) got) is_dir
        (fs_unlink-UnlinkOutcome fs parent_ino name parent got is_dir
          ((v.sound parent_ino parent got).dir_room is_dir))
        e
