-- ===== src/Filesystem/Invariant/Lookup.antt =====
-- `fs_lookup` of src/filesystem/filesystem.cpp on a valid file system.
use kehinde_kernel.Prelude.{
  ℕ, true, false, ◌+◌, ◌<◌, ◌≡◌, ap, Option, none, some, List, [], ◌∷◌, ◌==◌, arith, Bool-cases,
  ◌⊎◌, inl, inr, subst, refl,
}
use kehinde_kernel.Run.{Run, ok}
use kehinde_kernel.Filesystem.{Fs, Inode, find_inode, dir_type, invalid_ino, root_ino}
use kehinde_kernel.Filesystem.Inodes.{find_inode-ino}
use kehinde_kernel.Filesystem.Names.{char_at, name_matches}
use kehinde_kernel.Filesystem.Path.{parse_path, walk_path, lookup_from_root, fs_lookup}
use kehinde_kernel.Filesystem.Directory.Slots.{entry_of}
use kehinde_kernel.Filesystem.Directory.Search.{
  Match, absent, found, first_match-Match, scan_dir-first_match, id_at,
}
use kehinde_kernel.Filesystem.Invariant.{IsValid, Exists}

module _ {S : Type 0} (fs : Fs S) (v : IsValid fs) (path : List ℕ) where
  -- The walk that the directory entries describe: from inode `ino`, with the current segment of
  -- the path beginning at `start`, over the ends of the segments.
  pub data Leads : ℕ → ℕ → List ℕ → ℕ → Type 0 where
    arrived : {start ino : ℕ} → Exists fs.inodes ino → Leads start ino [] ino
    blocked :
        {start ino end : ℕ} {ends : List ℕ} (curr : Inode)
        → find_inode ino fs.inodes ≡ some curr
        → (curr.inode_type ≡ dir_type
            → (k : ℕ) → k < curr.inode_size
            → name_matches path start end (entry_of curr.chain k).name ≡ false)
        → Leads start ino (end ∷ ends) invalid_ino
    enters :
        {start ino end target : ℕ} {ends : List ℕ} (curr : Inode) (k : ℕ)
        → find_inode ino fs.inodes ≡ some curr
        → curr.inode_type ≡ dir_type
        → k < curr.inode_size
        → name_matches path start end (entry_of curr.chain k).name ≡ true
        → Leads (end + 1) (entry_of curr.chain k).inode_id ends target
        → Leads start ino (end ∷ ends) target

  -- The call returns the number that the walk leads to.
  abbrev Finds : ℕ → ℕ → List ℕ → Run ℕ → Type 0
  Finds start ino ends r = (target : ℕ) × (r ≡ ok target) × Leads start ino ends target

  step_in :
      (start ino end : ℕ) (ends : List ℕ) (curr : Inode) {r : Option ℕ}
      → find_inode ino fs.inodes ≡ some curr
      → curr.inode_type ≡ dir_type
      → ((id : ℕ)
          → Exists fs.inodes id
          → Finds
              (end + 1)
              id
              ends
              (walk_path fs.inodes path (end + 1) (find_inode id fs.inodes) ends))
      → Match (name_matches path start end) curr.chain 0 curr.inode_size r
      → Finds start ino (end ∷ ends) (elim (id_at curr.chain r) [
        | none ↦ ok invalid_ino
        | some id ↦ walk_path fs.inodes path (end + 1) (find_inode id fs.inodes) ends
      ])
  step_in start ino end ends curr at is_dir rest (absent h) =
      (invalid_ino, refl, blocked curr at (λ _ k lt. h k (omega arith) lt))
  step_in start ino end ends curr at is_dir rest (found {k} lo hi h) =
      let (target, e, leads) =
        rest (entry_of curr.chain k).inode_id ((v.sound ino curr at).live is_dir k hi) in
      (target, e, enters curr k at is_dir hi h leads)

  walk_path-Finds :
      (start ino : ℕ) (ends : List ℕ)
      → Exists fs.inodes ino
      → Finds start ino ends (walk_path fs.inodes path start (find_inode ino fs.inodes) ends)
  unfolding walk_path
  walk_path-Finds start ino [] (curr, at) =
      (ino, rw at (ap ok (find_inode-ino ino fs.inodes at)), arrived (curr, at))
  walk_path-Finds start ino (end ∷ ends) (curr, at) =
      elim (Bool-cases (curr.inode_type == dir_type)) [
        | inr no_dir ↦ (
          invalid_ino,
          rw (at, walk_path, no_dir) refl,
          blocked curr at (λ d. absurd (ground arith)),
        )
        | inl yes_dir ↦
            let is_dir : curr.inode_type ≡ dir_type = ground arith in
            let fits = (v.sound ino curr at).dir_room is_dir in
            rw
              (
                at,
                walk_path,
                yes_dir,
                scan_dir-first_match curr fits path start end curr.inode_size 0 (omega arith),
              )
              (step_in start ino end ends curr at is_dir
                (λ id h. walk_path-Finds (end + 1) id ends h)
                (first_match-Match (name_matches path start end) curr.chain curr.inode_size 0
                  curr.inode_size (omega arith)))
      ]

  from_root : (ends : List ℕ) → Finds 1 root_ino ends (lookup_from_root fs.inodes path ends)
  unfolding lookup_from_root
  from_root [] = let (top, at, _) = v.root in (root_ino, refl, arrived (top, at))
  from_root (end ∷ ends) =
      let (top, at, _) = v.root in
      let walked = walk_path-Finds 1 root_ino (end ∷ ends) (top, at) in
      rw (at, lookup_from_root)
        (subst (λ o. Finds 1 root_ino (end ∷ ends) (walk_path fs.inodes path 1 o (end ∷ ends))) at
          walked)

  -- On a valid file system a lookup always returns. The empty path gives `INVALID_INO`; any other
  -- gives what the entries lead to from the root over the parsed segments: an existing inode, or
  -- `INVALID_INO` where a component is missing or lies below a file. No null pointer is reached.
  pub fs_lookup-Leads :
      (char_at path 0 ≡ 0) × (fs_lookup fs path ≡ ok invalid_ino)
      ⊎ ((target : ℕ) × (fs_lookup fs path ≡ ok target)
          × Leads 1 root_ino (parse_path path 16) target)
  unfolding fs_lookup
  fs_lookup-Leads = elim (Bool-cases (char_at path 0 == 0)) [
    | inl empty ↦ inl (ground arith, rw empty refl)
    | inr named ↦ inr (rw named (from_root (parse_path path 16)))
  ]
