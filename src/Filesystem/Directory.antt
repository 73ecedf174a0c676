-- ===== src/Filesystem/Directory.antt =====
-- `fs_create`, `fs_unlink` and `fs_readdir` of src/filesystem/filesystem.cpp.
pub mod Slots
pub mod Search
pub mod Create
pub mod Unlink
use kehinde_kernel.Prelude.{
  ℕ, zero, suc, ◌+◌, ◌-◌, ◌/◌, ◌%◌, Bool, true, false, not, ◌&&◌, ◌||◌, Option, none, some, List,
  [], ◌∷◌, ◌==◌, leb, if◌then◌else◌, length, get_elem?,
}
use kehinde_kernel.Bits.{u64}
use kehinde_kernel.Run.{Run, ok, fault, ◌>>=◌}
use kehinde_kernel.Filesystem.{
  Fs, Inode, Dirent, Block, DirentPtr, null, entry, wild, Kmalloc, Ret, minus_one, ret, find_inode,
  store_inode, dirent_at, load_dirent, store_slot, append_block, RawBlock, invalid_ino, dir_type,
  max_size, dirents_per_block, sizeof_inode,
}
use kehinde_kernel.Filesystem.Names.{char_at, name_matches_single}

-- The search for a duplicate in `fs_create`: true if no entry from `i` on has the name and every
-- entry is there.
unfoldable pub no_duplicate : Inode → List ℕ → ℕ → ℕ → Run Bool
no_duplicate parent name zero i = ok true
no_duplicate parent name (suc left) i = elim (dirent_at parent i) [
  | null ↦ ok false
  | d ↦ load_dirent parent d >>= λ e.
      let rest = no_duplicate parent name left (i + 1) in
      if name_matches_single e.name name then ok false else rest
]

-- The end of `fs_create`: the entry is written to slot `size % 15` of block `size / 15`.
unfoldable pub append_dirent : Inode → Dirent → List Block → Run Inode
append_dirent parent e chain =
    let block_index = parent.inode_size / dirents_per_block in
    let slot = parent.inode_size % dirents_per_block in
    elim (get_elem? chain block_index) [
      | none ↦ fault
      | some _ ↦ ok (record parent {
        inode_size = u64 (parent.inode_size + 1);
        chain = store_slot block_index slot e chain;
      })
    ]

module _ {S : Type 0} (kmalloc : Kmalloc S) (uninitialised : RawBlock) where
  -- The growth of the parent's chain when its last block is full.
  unfoldable pub grow_directory : Inode → S → Run (S × List Block)
  grow_directory parent heap =
      if parent.inode_size % dirents_per_block == 0
      then append_block kmalloc uninitialised heap parent.chain
      else ok (heap, parent.chain)

  -- `fs_create` behind its checks.
  unfoldable pub create_entry : Fs S → Inode → List ℕ → ℕ → Run (ℕ × Fs S)
  create_entry fs parent name type = do
    (p, heap) ← kmalloc sizeof_inode fs.heap
    let new_inode : Inode = record {
      base = p;
      ino = fs.next_ino;
      inode_type = type;
      inode_size = 0;
      chain = [];
    }
    (heap', chain) ← grow_directory parent heap
    parent' ← append_dirent parent (record { inode_id = new_inode.ino; name = name }) chain
    ok (
      new_inode.ino,
      record {
        heap = heap';
        next_ino = u64 (fs.next_ino + 1);
        inodes = store_inode parent' (new_inode ∷ fs.inodes);
      },
    )

  -- `fs_create`.
  unfoldable pub fs_create : Fs S → ℕ → List ℕ → ℕ → Run (ℕ × Fs S)
  fs_create fs parent_ino name type = elim (find_inode parent_ino fs.inodes) [
    | none ↦ ok (invalid_ino, fs)
    | some parent ↦
        if not (parent.inode_type == dir_type)
        then ok (invalid_ino, fs)
        else if leb max_size (length name) || (char_at name 0 == 0)
        then ok (invalid_ino, fs)
        else no_duplicate parent name parent.inode_size 0 >>= λ unused.
            if unused then create_entry fs parent name type else ok (invalid_ino, fs)
  ]

-- The search of `fs_unlink`: the last entry looked at, or `none` where the call returns -1.
unfoldable pub find_dirent : Inode → List ℕ → ℕ → ℕ → DirentPtr → Run (Option DirentPtr)
find_dirent parent name zero i last = ok (some last)
find_dirent parent name (suc left) i last = elim (dirent_at parent i) [
  | null ↦ ok none
  | d ↦ load_dirent parent d >>= λ e.
      let rest = find_dirent parent name left (i + 1) d in
      if name_matches_single e.name name then ok (some d) else rest
]

-- Comparison of two `dirent` pointers into one chain.
unfoldable pub same_dirent : DirentPtr → DirentPtr → Bool
same_dirent (entry b s) (entry c t) = (b == c) && (s == t)
same_dirent null null = true
same_dirent wild wild = true
same_dirent _ _ = false

-- `*subject = *last; size--`, and the decrement alone when the two are one.
unfoldable pub swap_last : Inode → DirentPtr → DirentPtr → Run Inode
swap_last parent subject last =
    let shorter = record parent { inode_size = parent.inode_size - 1 } in
    if same_dirent subject last
    then ok shorter
    else load_dirent parent last >>= λ e. elim subject [
      | entry index slot ↦ ok (record shorter { chain = store_slot index slot e parent.chain })
      | _ ↦ fault
    ]

-- The inode of the entry may be removed: it exists, and is no directory with entries.
unfoldable pub removable : Option Inode → Bool
removable none = false
removable (some subject) = not ((subject.inode_type == dir_type) && not (subject.inode_size == 0))

-- `fs_unlink` from the point where the loop has ended at `subject`.
unfoldable pub unlink_entry : {S : Type 0} → Fs S → Inode → List ℕ → DirentPtr → Run (Ret × Fs S)
unlink_entry fs parent name subject = load_dirent parent subject >>= λ e.
    if not (name_matches_single e.name name)
    then ok (minus_one, fs)
    else elim (dirent_at parent (parent.inode_size - 1)) [
      | null ↦ ok (minus_one, fs)
      | last ↦
          if removable (find_inode e.inode_id fs.inodes)
          then (swap_last parent subject last >>= λ parent'.
              ok (ret 0, record fs { inodes = store_inode parent' fs.inodes }))
          else ok (minus_one, fs)
    ]

-- `fs_unlink`.
unfoldable pub fs_unlink : {S : Type 0} → Fs S → ℕ → List ℕ → Run (Ret × Fs S)
fs_unlink fs parent_ino name = elim (find_inode parent_ino fs.inodes) [
  | none ↦ ok (minus_one, fs)
  | some parent ↦
      if not (parent.inode_type == dir_type) || (parent.inode_size == 0)
      then ok (minus_one, fs)
      else find_dirent parent name parent.inode_size 0 null >>= λ r. elim r [
        | none ↦ ok (minus_one, fs)
        | some subject ↦ unlink_entry fs parent name subject
      ]
]

-- `fs_readdir`: `out` is null or the entry that it points to.
unfoldable pub fs_readdir : {S : Type 0} → Fs S → ℕ → ℕ → Option Dirent → Run (Ret × Option Dirent)
fs_readdir fs dir_ino index out = elim (find_inode dir_ino fs.inodes) [
  | none ↦ ok (minus_one, out)
  | some subject ↦ if not (subject.inode_type == dir_type) then ok (minus_one, out) else elim out [
    | none ↦ ok (minus_one, none)
    | some old ↦
        if leb subject.inode_size index
        then ok (ret 0, some old)
        else elim (dirent_at subject index) [
          | null ↦ ok (minus_one, some old)
          | d ↦ load_dirent subject d >>= λ e. ok (ret 1, some e)
        ]
  ]
]
