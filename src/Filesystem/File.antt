-- ===== src/Filesystem/File.antt =====
-- `fs_read`, `fs_write` and `fs_stat` of src/filesystem/filesystem.cpp. A buffer is null or a
-- memory of bytes from its address on.
pub mod Content
pub mod Loops
pub mod Write
pub mod Read
pub mod RoundTrip
use kehinde_kernel.Prelude.{
  ℕ, zero, suc, ◌+◌, ◌-◌, ◌*◌, ◌/◌, ◌%◌, Bool, true, false, not, Option, none, some, List, [], ◌∷◌,
  ◌++◌, ◌==◌, ltb, leb, if◌then◌else◌, update, length, take,
}
use kehinde_kernel.Bits.{u64}
use kehinde_kernel.Run.{Run, ok, fault, out_of_fuel, ◌>>=◌}
use kehinde_kernel.Filesystem.{
  RawBlock, Fs, Inode, Block, Kmalloc, Ret, minus_one, ret, find_inode, store_inode, append_block,
  data_size, file_type,
}

-- `min` of the source.
unfoldable pub min : ℕ → ℕ → ℕ
min a b = if ltb a b then a else b

-- `for (i = 0; i < n; i++) dst[to + i] = src[from + i]`, from index `i` on.
unfoldable pub copy_bytes : ℕ → ℕ → (ℕ → ℕ) → ℕ → (ℕ → ℕ) → ℕ → ℕ → ℕ
copy_bytes zero i src from dst to = dst
copy_bytes (suc n) i src from dst to =
    copy_bytes n (i + 1) src from (update dst (to + i) (src (from + i))) to

-- The walk to the block at index `n`; the list is empty if that pointer is null, and `none` where
-- the walk meets a null block before.
unfoldable pub walk_blocks : ℕ → List Block → Option (List Block)
walk_blocks zero chain = some chain
walk_blocks (suc n) [] = none
walk_blocks (suc n) (curr ∷ next) = walk_blocks n next

-- The copying loop of `fs_read`, at the head of the list.
unfoldable pub read_loop : List Block → ℕ → ℕ → ℕ → (ℕ → ℕ) → Run (ℕ → ℕ)
read_loop [] copied block_offset len dst = if ltb copied len then fault else ok dst
read_loop (curr ∷ next) copied block_offset len dst =
    let chunk = min (len - copied) (data_size - block_offset) in
    let rest =
      read_loop next (copied + chunk) 0 len
        (copy_bytes chunk 0 curr.bytes block_offset dst copied) in
    if ltb copied len then rest else ok dst

-- `len` cut off at the end of the file.
unfoldable pub clamp_len : Inode → ℕ → ℕ → ℕ
clamp_len subject offset len =
    if ltb subject.inode_size (u64 (offset + len)) then subject.inode_size - offset else len

-- `fs_read` behind its checks of the arguments.
unfoldable pub read_file : Inode → ℕ → ℕ → (ℕ → ℕ) → Run (Ret × Option (ℕ → ℕ))
read_file subject offset len dst = elim (walk_blocks (offset / data_size) subject.chain) [
  | none ↦ ok (minus_one, some dst)
  | some blocks ↦
      if leb subject.inode_size offset
      then ok (ret 0, some dst)
      else let len' = clamp_len subject offset len in
        read_loop blocks 0 (offset % data_size) len' dst >>= λ dst'. ok (ret len', some dst')
]

-- `fs_read`.
unfoldable pub fs_read :
    {S : Type 0} → Fs S → ℕ → ℕ → ℕ → Option (ℕ → ℕ) → Run (Ret × Option (ℕ → ℕ))
fs_read fs ino offset len none = ok (minus_one, none)
fs_read fs ino offset len (some dst) = elim (find_inode ino fs.inodes) [
  | none ↦ ok (minus_one, some dst)
  | some subject ↦
      if subject.inode_type == file_type
      then read_file subject offset len dst
      else ok (minus_one, some dst)
]

-- The copying loop of `fs_write`, at the head of the list: the blocks with the bytes stored.
unfoldable pub write_loop : List Block → ℕ → ℕ → ℕ → (ℕ → ℕ) → Run (List Block)
write_loop [] written block_offset len src = if ltb written len then fault else ok []
write_loop (curr ∷ next) written block_offset len src =
    let chunk = min (len - written) (data_size - block_offset) in
    let rest = write_loop next (written + chunk) 0 len src >>= λ next'.
    ok (record curr { bytes = copy_bytes chunk 0 src written curr.bytes block_offset } ∷ next') in
    if ltb written len then rest else ok (curr ∷ next)

-- `fs_write` once the chain covers `offset + len`.
unfoldable pub write_file : {S : Type 0} → Fs S → Inode → ℕ → ℕ → (ℕ → ℕ) → Run (Ret × Fs S)
write_file fs subject offset len src = elim (walk_blocks (offset / data_size) subject.chain) [
  | none ↦ ok (minus_one, record fs { inodes = store_inode subject fs.inodes })
  | some blocks ↦ write_loop blocks 0 (offset % data_size) len src >>= λ blocks'.
      let size = subject.inode_size in
      let end = u64 (offset + len) in
      let subject' = record subject {
        inode_size = if ltb size end then end else size;
        chain = take (offset / data_size) subject.chain ++ blocks';
      } in
      ok (ret len, record fs { inodes = store_inode subject' fs.inodes })
]

module _ {S : Type 0} (kmalloc : Kmalloc S) (uninitialised : RawBlock) where
  -- The loop that grows the chain until `needed` bytes fit; `count` blocks are there.
  unfoldable pub grow_loop : ℕ → ℕ → ℕ → S → List Block → Run (S × List Block)
  grow_loop zero needed count heap chain = out_of_fuel
  grow_loop (suc fuel) needed count heap chain = elim (ltb (data_size * count) needed) [
    | true ↦ append_block kmalloc uninitialised heap chain >>= λ (heap', chain').
        grow_loop fuel needed (count + 1) heap' chain'
    | false ↦ ok (heap, chain)
  ]

  -- `fs_write`. The growing loop is given one round more than the blocks that can be missing.
  unfoldable pub fs_write : Fs S → ℕ → ℕ → ℕ → Option (ℕ → ℕ) → Run (Ret × Fs S)
  fs_write fs ino offset len none = ok (minus_one, fs)
  fs_write fs ino offset len (some src) = elim (find_inode ino fs.inodes) [
    | none ↦ ok (minus_one, fs)
    | some subject ↦
        if subject.inode_type == file_type
        then (let needed = u64 (offset + len) in
            grow_loop (needed / data_size + 2) needed (length subject.chain) fs.heap subject.chain
            >>= λ (heap, chain).
                write_file (record fs { heap = heap }) (record subject { chain = chain }) offset len
                  src)
        else ok (minus_one, fs)
  ]

-- `fs_stat`: each out-pointer is null or the value that it points to.
unfoldable pub fs_stat : {S : Type 0} → Fs S → ℕ → Option ℕ → Option ℕ → Ret × Option ℕ × Option ℕ
fs_stat fs ino size_out type_out = elim (find_inode ino fs.inodes) [
  | none ↦ (minus_one, size_out, type_out)
  | some n ↦ (
    ret 0,
    elim size_out [ none ↦ none | some _ ↦ some n.inode_size ],
    elim type_out [ none ↦ none | some _ ↦ some n.inode_type ],
  )
]
