-- ===== src/Tests/Files.antt =====
-- src/filesystem/filesystem.cpp: a file `a` of five bytes below the root.
use kehinde_kernel.Prelude.{
  true, ◌<◌, ◌+◌, ◌^◌, ℕ, ◌+◌, ◌≡◌, inr, refl, some, List, [], ◌∷◌, arith, update, take,
}
use kehinde_kernel.Run.{Run, ok, panic, fault, out_of_fuel}
use kehinde_kernel.Filesystem.{
  null_next, Fs, Inode, Block, Kmalloc, Ret, ret, minus_one, find_inode, store_inode, append_block,
  fs_init, dir_type, file_type, root_ino, dirent_at, load_dirent, store_slot, slot_ptr,
  walk_to_slot,
}
use kehinde_kernel.Filesystem.Names.{char_at, name_matches_single, same_bytes}
use kehinde_kernel.Filesystem.Path.{fs_lookup}
use kehinde_kernel.Filesystem.Directory.{
  fs_create, fs_unlink, no_duplicate, append_dirent, grow_directory, create_entry, find_dirent,
  unlink_entry, removable, swap_last, same_dirent,
}
use kehinde_kernel.Filesystem.Directory.Unlink.{UnlinkOutcome, fs_unlink-UnlinkOutcome}
use kehinde_kernel.Filesystem.File.{
  fs_write, fs_read, grow_loop, write_file, write_loop, copy_bytes, walk_blocks, min,
}
use kehinde_kernel.Filesystem.File.Write.{
  ReturnsOrPanics, OutOfMemory, WriteOutcome, fs_write-Written,
}
use kehinde_kernel.Filesystem.File.Read.{fs_read_past_end}
use kehinde_kernel.Filesystem.File.RoundTrip.{GivesBack, fs_read-fs_write}
use kehinde_kernel.Filesystem.Invariant.{IsValid}
use kehinde_kernel.Filesystem.Invariant.Update.{fs_write-IsValid}
use kehinde_kernel.Filesystem.Invariant.Removal.{fs_unlink-IsValid}
use kehinde_kernel.Filesystem.Invariant.Creation.{fs_init-IsValid, fs_create-IsValid}
use kehinde_kernel.Filesystem.Path.Components.{render}
use kehinde_kernel.Filesystem.Links.Resolve.{
  HasTexts, HasTexts-Created, Resolves, fs_lookup-Resolves,
}
use kehinde_kernel.Filesystem.Links.Calls.{Unlinked, fs_create-Created, fs_unlink-Unlinked}

-- An allocator that hands out one address after the other.
abbrev pub take_next : Kmalloc ℕ
take_next n heap = ok (heap, heap + n)

pub take_next-ReturnsOrPanics : ReturnsOrPanics take_next
take_next-ReturnsOrPanics n heap = inr ((heap, heap + n), refl)

abbrev pub dirty : Block
dirty = record { base = 0; bytes = λ _. 0xAA; dirents = λ _. record { inode_id = 0; name = [] } }

abbrev pub root_dir : Inode
root_dir = record { base = 0x1000; ino = 1; inode_type = dir_type; inode_size = 0; chain = [] }

abbrev pub fresh : Fs ℕ
fresh = record { heap = 0x1028; next_ino = 2; inodes = root_dir ∷ [] }

fresh-IsValid : IsValid fresh
unfolding fs_init
fresh-IsValid = fs_init-IsValid (λ _ _. true) take_next 0x1000 refl

abbrev pub name_a : List ℕ
name_a = b'a' ∷ []

abbrev pub file_a : Inode
file_a = record { base = 0x1028; ino = 2; inode_type = file_type; inode_size = 0; chain = [] }

abbrev root_block : Block
root_block = record {
  base = 0x1050;
  bytes = λ _. 0xAA;
  dirents =
      update (λ _. record { inode_id = 0; name = [] }) 0 (record { inode_id = 2; name = name_a });
}

abbrev pub with_a : Fs ℕ
with_a = record {
  heap = 0x2050;
  next_ino = 3;
  inodes = file_a ∷ (record root_dir { inode_size = 1; chain = root_block ∷ [] }) ∷ [];
}

fs_create-IsValid_example : IsValid with_a
unfolding find_inode fs_create no_duplicate append_dirent grow_directory create_entry append_block
    store_inode char_at dirent_at load_dirent store_slot slot_ptr walk_to_slot
fs_create-IsValid_example =
    fs_create-IsValid take_next dirty fresh with_a 1 name_a file_type root_dir
      take_next-ReturnsOrPanics fresh-IsValid refl refl (omega arith) (omega arith) refl

pub with_a-IsValid : IsValid with_a
with_a-IsValid = fs_create-IsValid_example

fs_write-Written_example :
    WriteOutcome
      (OutOfMemory take_next)
      with_a
      file_a
      3
      5
      (λ i. i)
      (fs_write take_next (null_next dirty) with_a 2 3 5 (some (λ i. i)))
unfolding find_inode
fs_write-Written_example =
    fs_write-Written take_next dirty take_next-ReturnsOrPanics with_a 2 3 5 (λ i. i) file_a refl
      refl (omega arith)

abbrev pub state_of : Run (Ret × Fs ℕ) → Fs ℕ
state_of (ok (status, fs)) = fs
state_of panic = with_a
state_of fault = with_a
state_of out_of_fuel = with_a

unfoldable after_write : Fs ℕ
after_write = state_of (fs_write take_next (null_next dirty) with_a 2 3 5 (some (λ i. i)))

written :
    fs_write take_next (null_next dirty) with_a 2 3 5 (some (λ i. i)) ≡ ok (ret 5, after_write)
unfolding after_write fs_write find_inode grow_loop append_block write_file write_loop walk_blocks
    copy_bytes min store_inode
written = refl

fs_write-IsValid_example : IsValid after_write
unfolding find_inode
fs_write-IsValid_example =
    fs_write-IsValid take_next dirty with_a after_write 2 3 5 (λ i. i) file_a
      take_next-ReturnsOrPanics fs_create-IsValid_example refl refl (omega arith) written

fs_read-fs_write_example : GivesBack after_write 2 3 5 (λ i. i) (λ _. 0)
unfolding find_inode
fs_read-fs_write_example =
    fs_read-fs_write take_next dirty with_a after_write 2 3 5 (λ i. i) (λ _. 0) file_a
      take_next-ReturnsOrPanics refl refl (omega arith) (omega arith) (omega arith) written

abbrev data_block : Block
data_block = record {
  base = 0x2050;
  bytes = λ i. i;
  dirents = λ _. record { inode_id = 0; name = [] };
}

abbrev file_b : Inode
file_b = record {
  base = 0x1028;
  ino = 2;
  inode_type = file_type;
  inode_size = 8;
  chain = data_block ∷ [];
}

abbrev with_b : Fs ℕ
with_b = record with_a { inodes = file_b ∷ [] }

fs_read_past_end_example : fs_read with_b 2 8176 1 (some (λ _. 0)) ≡ ok (minus_one, some (λ _. 0))
unfolding find_inode
fs_read_past_end_example = fs_read_past_end with_b 2 8176 1 (λ _. 0) file_b refl refl (omega arith)

abbrev root_a : Inode
root_a = record root_dir { inode_size = 1; chain = root_block ∷ [] }

fs_unlink-UnlinkOutcome_example : UnlinkOutcome with_a root_a name_a (fs_unlink with_a 1 name_a)
unfolding find_inode
fs_unlink-UnlinkOutcome_example =
    fs_unlink-UnlinkOutcome with_a 1 name_a root_a refl refl (omega arith)

unfoldable after_unlink : Fs ℕ
after_unlink = state_of (fs_unlink with_a 1 name_a)

unlinked : fs_unlink with_a 1 name_a ≡ ok (ret 0, after_unlink)
unfolding after_unlink fs_unlink find_inode find_dirent unlink_entry removable swap_last same_dirent
    dirent_at load_dirent store_slot slot_ptr walk_to_slot name_matches_single same_bytes
    store_inode
unlinked = refl

fs_unlink-IsValid_example : IsValid after_unlink
unfolding find_inode
fs_unlink-IsValid_example =
    fs_unlink-IsValid with_a after_unlink 1 name_a root_a fs_create-IsValid_example refl refl
      unlinked

abbrev path_a : List ℕ
path_a = b'/' ∷ b'a' ∷ []

made_a : fs_create take_next (null_next dirty) fresh 1 name_a file_type ≡ ok (2, with_a)
unfolding find_inode fs_create no_duplicate append_dirent grow_directory create_entry append_block
    store_inode dirent_at load_dirent store_slot slot_ptr walk_to_slot
made_a = refl

fresh-low : (n : Inode) → find_inode 1 fresh.inodes ≡ some n → n.inode_size + 1 < 2 ^ 64
unfolding find_inode
fresh-low n at = ground (arith, at)

fs_unlink-Unlinked_example : Unlinked with_a 1 name_a (ret 0) after_unlink
fs_unlink-Unlinked_example =
    fs_unlink-Unlinked with_a fs_create-IsValid_example 1 name_a (ret 0) after_unlink unlinked

fresh-HasTexts : HasTexts fresh.inodes
unfolding find_inode
fresh-HasTexts d n i (m, at, (is_dir, k, lt, e)) =
    let size : m.inode_size ≡ 0 = ground (arith, at) in absurd (omega arith)

fs_lookup-Resolves_example :
    (target : ℕ) × (fs_lookup with_a (render (name_a ∷ [])) ≡ ok target)
    × Resolves with_a.inodes root_ino (take 16 (name_a ∷ [])) target
fs_lookup-Resolves_example =
    fs_lookup-Resolves with_a name_a [] with_a-IsValid
      (HasTexts-Created fresh with_a 1 name_a 2 fresh-HasTexts (omega arith) (
        fs_create-Created fresh fresh-IsValid take_next dirty 1 name_a file_type 2 with_a
          take_next-ReturnsOrPanics (omega arith) fresh-low made_a))
      (omega arith)
