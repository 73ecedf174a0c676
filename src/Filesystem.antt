-- ===== src/Filesystem.antt =====
-- The data of src/filesystem/filesystem.cpp and include/filesystem.h, and the helpers that the
-- calls share. `inode_list_head` and the `next` pointers of the inodes are the list `inodes`;
-- `first_block` and the `next` pointers of the blocks are the list `chain` of an inode, empty for
-- a null `first_block`. A block's payload is read as bytes for a file and as directory entries for
-- a directory; an inode's type never changes, so a payload is read the way it was written. A name
-- is the list of its bytes before the terminator.
pub mod Runtime
pub mod Inodes
pub mod Names
pub mod Path
pub mod Directory
pub mod File
pub mod Invariant
pub mod Links
use kehinde_kernel.Prelude.{
  ℕ, zero, suc, ◌+◌, ◌-◌, ◌*◌, ◌/◌, ◌%◌, Bool, true, false, Option, none, some, List, [], ◌∷◌, ◌++◌,
  ◌==◌, ltb, leb, if◌then◌else◌, ◌&&◌, get_elem?, get_or, update, length,
}
use kehinde_kernel.Run.{Run, ok, panic, fault, out_of_fuel, ◌>>=◌}

abbrev pub block_size : ℕ
block_size = 4096

-- `sizeof(block::data)`.
abbrev pub data_size : ℕ
data_size = 4088

-- `sizeof(dirent)`.
abbrev pub dirent_size : ℕ
dirent_size = 264

-- `sizeof(block::data) / sizeof(dirent)`.
abbrev pub dirents_per_block : ℕ
dirents_per_block = data_size / dirent_size

-- `sizeof(inode)`.
abbrev pub sizeof_inode : ℕ
sizeof_inode = 40

abbrev pub max_size : ℕ
max_size = 255

abbrev pub invalid_ino : ℕ
invalid_ino = 0

abbrev pub root_ino : ℕ
root_ino = 1

abbrev pub file_type : ℕ
file_type = 1

abbrev pub dir_type : ℕ
dir_type = 2

pub record Dirent : Type 0 where
  pub inode_id : ℕ
  pub name : List ℕ

-- `base` is the address of the block.
pub record Block : Type 0 where
  pub base : ℕ
  pub bytes : ℕ → ℕ
  pub dirents : ℕ → Dirent

-- `base` is the address of the inode.
pub record Inode : Type 0 where
  pub base : ℕ
  pub ino : ℕ
  pub inode_type : ℕ
  pub inode_size : ℕ
  pub chain : List Block

-- The globals, with the state `heap` of the allocator.
pub record Fs (S : Type 0) : Type 0 where
  pub heap : S
  pub next_ino : ℕ
  pub inodes : List Inode

-- The `int` and `int64_t` results of the calls: -1 or a count.
pub data Ret : Type 0 where
  minus_one : Ret
  ret : ℕ → Ret

-- `kmalloc`, which panics rather than return null: the address and the heap after the call.
abbrev pub Kmalloc : Type 0 → Type 0
Kmalloc S = ℕ → S → Run (ℕ × S)

unfoldable pub find_inode : ℕ → List Inode → Option Inode
find_inode ino [] = none
find_inode ino (curr ∷ next) = if curr.ino == ino then some curr else find_inode ino next

-- A write through the pointer that `find_inode` returns.
unfoldable pub store_inode : Inode → List Inode → List Inode
store_inode new [] = []
store_inode new (curr ∷ next) =
    if curr.ino == new.ino then new ∷ next else curr ∷ store_inode new next

-- A `dirent *`: null, an entry of a block of the chain, or an offset from a null block.
pub data DirentPtr : Type 0 where
  null : DirentPtr
  entry : ℕ → ℕ → DirentPtr
  wild : DirentPtr

-- The walk of `dirent_at` with `left` blocks to go, at the block of index `index`.
unfoldable pub walk_to_slot : ℕ → ℕ → ℕ → List Block → DirentPtr
walk_to_slot index slot zero [] = wild
walk_to_slot index slot zero (curr ∷ next) = entry index slot
walk_to_slot index slot (suc left) [] = null
walk_to_slot index slot (suc left) (curr ∷ next) = walk_to_slot (index + 1) slot left next

-- The part of `dirent_at` behind the check of `idx`.
unfoldable pub slot_ptr : List Block → ℕ → DirentPtr
slot_ptr [] idx = null
slot_ptr (first ∷ next) idx =
    walk_to_slot 0 (idx % dirents_per_block) (idx / dirents_per_block) (first ∷ next)

-- `dirent_at`.
unfoldable pub dirent_at : Inode → ℕ → DirentPtr
dirent_at dir idx = if leb dir.inode_size idx then null else slot_ptr dir.chain idx

-- `*d` for a pointer into the blocks of `dir`.
unfoldable pub load_dirent : Inode → DirentPtr → Run Dirent
load_dirent dir null = fault
load_dirent dir wild = fault
load_dirent dir (entry index slot) = elim (get_elem? dir.chain index) [
  | none ↦ fault
  | some b ↦ ok (b.dirents slot)
]

-- `*d = e`: the block at `index` is changed in one slot.
unfoldable pub store_slot : ℕ → ℕ → Dirent → List Block → List Block
store_slot index slot e [] = []
store_slot zero slot e (b ∷ bs) = record b { dirents = update b.dirents slot e } ∷ bs
store_slot (suc index) slot e (b ∷ bs) = b ∷ store_slot index slot e bs

-- What the memory of a new block holds, which `kmalloc` does not clear: a payload, and the blocks
-- that the bytes of `next` lead to, none where they are null.
pub record RawBlock : Type 0 where
  pub block : Block
  pub next : List Block

-- Memory that is null where `next` lies.
abbrev pub null_next : Block → RawBlock
null_next b = record { block = b; next = [] }

module _ {S : Type 0} (kmalloc : Kmalloc S) (uninitialised : RawBlock) where
  -- `append_block`: a block of `kmalloc` is linked behind the last block, with whatever the memory
  -- holds, its `next` included.
  unfoldable pub append_block : S → List Block → Run (S × List Block)
  append_block heap chain = do
    (p, heap') ← kmalloc block_size heap
    ok (heap', chain ++ (record uninitialised.block { base = p } ∷ uninitialised.next))

-- `fs_init`, with `next_ino` at its initial value 1 and an empty list. The root is written through
-- the pointer that `kmalloc` gives, of which `is_mapped` says whether it leads to memory.
unfoldable pub fs_init : {S : Type 0} → (S → ℕ → Bool) → Kmalloc S → S → Run (Fs S)
fs_init is_mapped kmalloc heap = do
  (p, heap') ← kmalloc sizeof_inode heap
  let root : Inode = record { base = p; ino = 1; inode_type = dir_type; inode_size = 0; chain = [] }
  (if is_mapped heap' p && is_mapped heap' (p + sizeof_inode - 1)
      then ok (record { heap = heap'; next_ino = 1 + 1; inodes = root ∷ [] })
      else fault)
