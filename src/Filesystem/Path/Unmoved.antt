-- ===== src/Filesystem/Path/Unmoved.antt =====
-- Lookups of src/filesystem/filesystem.cpp do not see what is in a file.
use kehinde_kernel.Prelude.{
  ℕ, ◌+◌, ◌≡◌, refl, ap, subst, ◌∙◌, arith, false, ◌==◌, if◌then◌else◌, Option, none, some, List,
  [], ◌∷◌, Bool-cases, Option-cases, inl, inr,
}
use kehinde_kernel.Run.{ok, >>=-cong}
use kehinde_kernel.Filesystem.{Fs, Inode, find_inode, dir_type, file_type, invalid_ino, root_ino}
use kehinde_kernel.Filesystem.Names.{char_at}
use kehinde_kernel.Filesystem.Path.{scan_dir, walk_path, parse_path, lookup_from_root, fs_lookup}

-- A list of inodes in which one regular file has changed.
module _ (inodes inodes' : List Inode) (subject after : Inode)
    (is_file : subject.inode_type ≡ file_type) (same_ino : after.ino ≡ subject.ino)
    (same_type : after.inode_type ≡ subject.inode_type)
    (there : find_inode subject.ino inodes ≡ some subject)
    (finds : (i : ℕ)
      → find_inode i inodes' ≡ (if subject.ino == i then some after else find_inode i inodes))
    (path : List ℕ) where
  walk_file :
      (start : ℕ) (ends : List ℕ)
      → walk_path inodes' path start (some after) ends
        ≡ walk_path inodes path start (some subject) ends
  unfolding walk_path
  walk_file start [] = ap ok same_ino
  walk_file start (end ∷ ends) =
      let a : (after.inode_type == dir_type) ≡ false = ground arith in
      let b : (subject.inode_type == dir_type) ≡ false = ground arith in rw (a, b) refl

  -- The walk from an inode that has not changed, where the rest of the walk is the same.
  walk_other :
      (ends : List ℕ) (start : ℕ) (o : Option Inode)
      → ((end : ℕ) (rest : List ℕ)
          → ends ≡ end ∷ rest
          → (s i : ℕ)
          → walk_path inodes' path s (find_inode i inodes') rest
            ≡ walk_path inodes path s (find_inode i inodes) rest)
      → walk_path inodes' path start o ends ≡ walk_path inodes path start o ends
  unfolding walk_path
  walk_other [] start none ih = refl
  walk_other [] start (some curr) ih = refl
  walk_other (end ∷ ends) start none ih = refl
  walk_other (end ∷ ends) start (some curr) ih = elim (Bool-cases (curr.inode_type == dir_type)) [
    | inr other ↦ rw other refl
    | inl directory ↦
        rw directory (>>=-cong (scan_dir path start end curr curr.inode_size 0) _ _ onward)
  ]
    where
      onward :
          (r : Option ℕ)
          → (elim r [
            | none ↦ ok invalid_ino
            | some ino ↦ walk_path inodes' path (end + 1) (find_inode ino inodes') ends
          ])
            ≡ (elim r [
              | none ↦ ok invalid_ino
              | some ino ↦ walk_path inodes path (end + 1) (find_inode ino inodes) ends
            ])
      onward none = refl
      onward (some ino) = ih end ends refl (end + 1) ino

  walk_step :
      (ends : List ℕ) (start ino : ℕ)
      → ((end : ℕ) (rest : List ℕ)
          → ends ≡ end ∷ rest
          → (s i : ℕ)
          → walk_path inodes' path s (find_inode i inodes') rest
            ≡ walk_path inodes path s (find_inode i inodes) rest)
      → walk_path inodes' path start (find_inode ino inodes') ends
        ≡ walk_path inodes path start (find_inode ino inodes) ends
  walk_step ends start ino ih = elim (Bool-cases (subject.ino == ino)) [
    | inl here ↦
        let same : subject.ino ≡ ino = ground arith in
        let old : find_inode ino inodes ≡ some subject =
          subst (λ i. find_inode i inodes ≡ some subject) same there in
        let new : find_inode ino inodes' ≡ some after = finds ino ∙ rw here refl in
        rw (old, new) (walk_file start ends)
    | inr away ↦
        let new : find_inode ino inodes' ≡ find_inode ino inodes = finds ino ∙ rw away refl in
        rw new (walk_other ends start (find_inode ino inodes) ih)
  ]

  walk_path_same :
      (ends : List ℕ) (start ino : ℕ)
      → walk_path inodes' path start (find_inode ino inodes') ends
        ≡ walk_path inodes path start (find_inode ino inodes) ends
  walk_path_same [] start ino = walk_step [] start ino (λ end rest e s i. cc)
  walk_path_same (end ∷ ends) start ino = walk_step (end ∷ ends) start ino (λ end' rest e s i.
      let same : ends ≡ rest = cc in
      subst
        (λ t.
          walk_path inodes' path s (find_inode i inodes') t
          ≡ walk_path inodes path s (find_inode i inodes) t)
        same (walk_path_same ends s i))

  lookup_from_root_same :
      (ends : List ℕ) → lookup_from_root inodes' path ends ≡ lookup_from_root inodes path ends
  unfolding lookup_from_root
  lookup_from_root_same [] = refl
  lookup_from_root_same (end ∷ ends) =
      let w = walk_path_same (end ∷ ends) 1 root_ino in
      elim (Bool-cases (subject.ino == root_ino)) [
        | inl here ↦
            let same : subject.ino ≡ root_ino = ground arith in
            let old : find_inode root_ino inodes ≡ some subject =
              subst (λ i. find_inode i inodes ≡ some subject) same there in
            let new : find_inode root_ino inodes' ≡ some after = finds root_ino ∙ rw here refl in
            rw (new, old, lookup_from_root) (walk_file 1 (end ∷ ends))
        | inr away ↦
            let new : find_inode root_ino inodes' ≡ find_inode root_ino inodes =
              finds root_ino ∙ rw away refl in
            elim (Option-cases (find_inode root_ino inodes)) [
              | inl e ↦ rw (new, e, lookup_from_root) refl
              | inr (top, e) ↦ rw (new, e, lookup_from_root) (rw (new, e) at w)
            ]
      ]

-- A change of a regular file moves no lookup.
pub fs_lookup_same :
    {S : Type 0} (fs fs' : Fs S) (subject after : Inode)
    → subject.inode_type ≡ file_type
    → after.ino ≡ subject.ino
    → after.inode_type ≡ subject.inode_type
    → find_inode subject.ino fs.inodes ≡ some subject
    → ((i : ℕ)
        → find_inode i fs'.inodes
          ≡ (if subject.ino == i then some after else find_inode i fs.inodes))
    → (path : List ℕ) → fs_lookup fs' path ≡ fs_lookup fs path
unfolding fs_lookup
fs_lookup_same fs fs' subject after is_file same_ino same_type there finds path =
    elim (Bool-cases (char_at path 0 == 0)) [
      | inl empty ↦ rw empty refl
      | inr named ↦ rw named (
          lookup_from_root_same fs.inodes fs'.inodes subject after is_file same_ino same_type there
            finds path (parse_path path 16))
    ]
