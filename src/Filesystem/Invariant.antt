-- ===== src/Filesystem/Invariant.antt =====
-- The invariant of the file system of src/filesystem/filesystem.cpp.
pub mod Creation
pub mod Removal
pub mod Update
pub mod Lookup
use kehinde_kernel.Prelude.{
  ℕ, ◌≤◌, ◌<◌, ◌≡◌, Option, none, some, List, ◌==◌, ==_refl, if◌then◌else◌, arith, Bool-cases, inl,
  inr, subst, ap, refl, true, false, sym, ◌∙◌,
}
use kehinde_kernel.Filesystem.{Fs, Inode, find_inode, dir_type, file_type, root_ino}
use kehinde_kernel.Filesystem.File.Content.{capacity}
use kehinde_kernel.Filesystem.Directory.Slots.{entry_of, slots}

-- There is an inode of this number.
abbrev pub Exists : List Inode → ℕ → Type 0
Exists inodes ino = (m : Inode) × (find_inode ino inodes ≡ some m)

-- What holds of each inode: its blocks hold what its size says, and the entries of a directory
-- have distinct names and lead to inodes.
pub record IsSound (inodes : List Inode) (n : Inode) : Type 0 where
  pub file_room : n.inode_type ≡ file_type → n.inode_size ≤ capacity n.chain
  pub dir_room : n.inode_type ≡ dir_type → n.inode_size ≤ slots n.chain
  pub live :
      n.inode_type ≡ dir_type
      → (k : ℕ) → k < n.inode_size
      → Exists inodes (entry_of n.chain k).inode_id
  pub distinct :
      n.inode_type ≡ dir_type
      → (j k : ℕ) → j < n.inode_size
      → k < n.inode_size
      → (entry_of n.chain j).name ≡ (entry_of n.chain k).name
      → j ≡ k

-- The root directory is there.
abbrev pub HasRoot : List Inode → Type 0
HasRoot inodes = (n : Inode) × (find_inode root_ino inodes ≡ some n) × (n.inode_type ≡ dir_type)

pub record IsValid {S : Type 0} (fs : Fs S) : Type 0 where
  pub numbered : (i : ℕ) (n : Inode) → find_inode i fs.inodes ≡ some n → (0 < i) × (i < fs.next_ino)
  pub sound : (i : ℕ) (n : Inode) → find_inode i fs.inodes ≡ some n → IsSound fs.inodes n
  pub root : HasRoot fs.inodes

-- Entries stay live when no inode goes away.
pub IsSound-mono :
    {inodes inodes' : List Inode} {n : Inode}
    → ((i : ℕ) → Exists inodes i → Exists inodes' i)
    → IsSound inodes n
    → IsSound inodes' n
IsSound-mono more s = record {
  file_room = s.file_room;
  dir_room = s.dir_room;
  live = λ d k h. more _ (s.live d k h);
  distinct = s.distinct;
}

-- A list of inodes that differs from an older one at one number.
module _ (inodes inodes' : List Inode) (at : ℕ) (after : Inode)
    (finds : (i : ℕ)
      → find_inode i inodes' ≡ (if at == i then some after else find_inode i inodes)) where
  pub found_cases {ℓ} :
      {P : ℕ → Inode → Type ℓ}
      → P at after
      → ((i : ℕ) (n : Inode) → find_inode i inodes ≡ some n → P i n)
      → (i : ℕ) (n : Inode) → find_inode i inodes' ≡ some n
      → P i n
  found_cases {P} new old i n h = elim (Bool-cases (at == i)) [
    | inl e ↦
        let here : at ≡ i = ground arith in
        let same : some after ≡ some n = sym (finds i ∙ rw e) ∙ h in
        let is : after ≡ n = cc in subst (λ m. P i m) is (subst (λ j. P j after) here new)
    | inr ne ↦ old i n (sym (finds i ∙ rw ne) ∙ h)
  ]

  pub Exists-update : (i : ℕ) → Exists inodes i → Exists inodes' i
  Exists-update i (m, h) = elim (Bool-cases (at == i)) [
    | inl e ↦ (after, finds i ∙ rw e)
    | inr ne ↦ (m, finds i ∙ rw ne h)
  ]

  pub Exists-at : Exists inodes' at
  Exists-at = (after, finds at ∙ rw (==_refl at))

  pub HasRoot-update :
      (old : Inode)
      → find_inode at inodes ≡ some old
      → after.inode_type ≡ old.inode_type
      → HasRoot inodes
      → HasRoot inodes'
  HasRoot-update old there same (n, h, d) = elim (Bool-cases (at == root_ino)) [
    | inl e ↦
        let here : at ≡ root_ino = ground arith in
        let both : some old ≡ some n = sym there ∙ ap (λ i. find_inode i inodes) here ∙ h in
        let is : old ≡ n = cc in
        (after, finds root_ino ∙ rw e, same ∙ ap (λ m. m.inode_type) is ∙ d)
    | inr ne ↦ (n, finds root_ino ∙ rw ne h, d)
  ]
