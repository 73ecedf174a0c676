-- ===== src/Filesystem/Path.antt =====
-- `parse_path` and `fs_lookup` of src/filesystem/filesystem.cpp.
pub mod Unmoved
pub mod Components
use kehinde_kernel.Prelude.{
  ℕ, zero, suc, ◌+◌, ◌&&◌, Option, none, some, List, [], ◌∷◌, ◌==◌, if◌then◌else◌, length, drop,
}
use kehinde_kernel.Run.{Run, ok, fault, ◌>>=◌}
use kehinde_kernel.Filesystem.{
  Fs, Inode, null, find_inode, dirent_at, load_dirent, invalid_ino, root_ino, dir_type,
}
use kehinde_kernel.Filesystem.Names.{char_at, name_matches}

-- The inner loop of `parse_path`, over the bytes that stand at index `i`: the index of the next
-- slash or of the terminator.
unfoldable pub scan_segment : List ℕ → ℕ → ℕ
scan_segment [] i = i
scan_segment (c ∷ cs) i = if c == b'/' then i else scan_segment cs (i + 1)

-- The outer loop of `parse_path` at index `i`, with room for `room` more ends.
unfoldable pub segment_ends : List ℕ → ℕ → ℕ → List ℕ
segment_ends path zero i = []
segment_ends path (suc room) i =
    let end = scan_segment (drop (i + 1) path) (i + 1) in
    let rest = segment_ends path room end in if char_at path i == 0 then [] else end ∷ rest

-- `parse_path`: the ends that it writes; their number is what it returns.
unfoldable pub parse_path : List ℕ → ℕ → List ℕ
parse_path path max_segments =
    if (length path == 1) && (char_at path 0 == b'/') then [] else segment_ends path max_segments 0

-- The inner loop of `fs_lookup` at entry `j` with `left` entries to go: the inode number of the
-- first entry with the name, or `none` where the call returns `INVALID_INO`.
unfoldable pub scan_dir : List ℕ → ℕ → ℕ → Inode → ℕ → ℕ → Run (Option ℕ)
scan_dir path start end curr zero j = ok none
scan_dir path start end curr (suc left) j = elim (dirent_at curr j) [
  | null ↦ ok none
  | d ↦ load_dirent curr d >>= λ e.
      let rest = scan_dir path start end curr left (j + 1) in
      if name_matches path start end e.name then ok (some e.inode_id) else rest
]

-- The outer loop of `fs_lookup` over the ends that are left; `curr` may be null.
unfoldable pub walk_path : List Inode → List ℕ → ℕ → Option Inode → List ℕ → Run ℕ
walk_path inodes path start none ends = fault
walk_path inodes path start (some curr) [] = ok curr.ino
walk_path inodes path start (some curr) (end ∷ ends) =
    if curr.inode_type == dir_type
    then (scan_dir path start end curr curr.inode_size 0 >>= λ r. elim r [
      | none ↦ ok invalid_ino
      | some ino ↦ walk_path inodes path (end + 1) (find_inode ino inodes) ends
    ])
    else ok invalid_ino

-- The part of `fs_lookup` behind `parse_path`.
unfoldable pub lookup_from_root : List Inode → List ℕ → List ℕ → Run ℕ
lookup_from_root inodes path [] = ok root_ino
lookup_from_root inodes path (end ∷ ends) = elim (find_inode root_ino inodes) [
  | none ↦ ok invalid_ino
  | some root ↦ walk_path inodes path 1 (some root) (end ∷ ends)
]

-- `fs_lookup`.
unfoldable pub fs_lookup : {S : Type 0} → Fs S → List ℕ → Run ℕ
fs_lookup fs path =
    if char_at path 0 == 0
    then ok invalid_ino
    else lookup_from_root fs.inodes path (parse_path path 16)
