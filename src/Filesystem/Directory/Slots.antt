-- ===== src/Filesystem/Directory/Slots.antt =====
-- The entries of a directory's chain as one sequence, and access to them through `dirent_at` of
-- src/filesystem/filesystem.cpp.
use kehinde_kernel.Prelude.{
  ℕ, zero, suc, ◌+◌, ◌-◌, ◌*◌, ◌/◌, ◌%◌, ◌≤◌, ◌<◌, ◌≡◌, refl, sym, ap, ◌∙◌, false, some, List, [],
  ◌∷◌, ◌++◌, ◌==◌, ltb, leb, if◌then◌else◌, length, get_elem?, arith, Bool-cases, inl, inr,
}
use kehinde_kernel.Run.{ok}
use kehinde_kernel.Filesystem.{
  Block, Inode, Dirent, entry, dirents_per_block, walk_to_slot, slot_ptr, dirent_at, load_dirent,
  store_slot,
}

abbrev pub blank : Dirent
blank = record { inode_id = 0; name = [] }

-- Entry `i` of a chain, each block holding 15 of them.
unfoldable pub entry_of : List Block → ℕ → Dirent
entry_of [] i = blank
entry_of (b ∷ bs) i =
    if ltb i dirents_per_block then b.dirents i else entry_of bs (i - dirents_per_block)

abbrev pub slots : List Block → ℕ
slots chain = dirents_per_block * length chain

walk_to_slot-entry :
    (n base slot : ℕ) (chain : List Block)
    → n < length chain
    → walk_to_slot base slot n chain ≡ entry (base + n) slot
unfolding walk_to_slot
walk_to_slot-entry zero base slot [] h = absurd (omega arith)
walk_to_slot-entry zero base slot (b ∷ bs) h = ap (λ (t : ℕ). entry t slot) (omega arith)
walk_to_slot-entry (suc n) base slot [] h = absurd (omega arith)
walk_to_slot-entry (suc n) base slot (b ∷ bs) h =
    walk_to_slot-entry n (base + 1) slot bs (omega arith)
    ∙ ap (λ (t : ℕ). entry t slot) (omega arith)

slot_ptr-entry :
    (chain : List Block) (i : ℕ)
    → i < slots chain
    → slot_ptr chain i ≡ entry (i / dirents_per_block) (i % dirents_per_block)
unfolding slot_ptr
slot_ptr-entry [] i h = absurd (omega arith)
slot_ptr-entry (b ∷ bs) i h =
    walk_to_slot-entry (i / dirents_per_block) 0 (i % dirents_per_block) (b ∷ bs) (omega arith)
    ∙ ap (λ (t : ℕ). entry t (i % dirents_per_block)) (omega arith)

-- An index below the size of a directory with enough blocks leads to its slot.
pub dirent_at-entry :
    (dir : Inode) (i : ℕ)
    → dir.inode_size ≤ slots dir.chain
    → i < dir.inode_size
    → dirent_at dir i ≡ entry (i / dirents_per_block) (i % dirents_per_block)
unfolding dirent_at
dirent_at-entry dir i fits h =
    let inside : leb dir.inode_size i ≡ false = ground arith in
    rw inside (slot_ptr-entry dir.chain i (omega arith))

pub get_elem-entry_of :
    (chain : List Block) (i : ℕ)
    → i < slots chain
    → (b : Block) × (get_elem? chain (i / dirents_per_block) ≡ some b)
      × (b.dirents (i % dirents_per_block) ≡ entry_of chain i)
unfolding entry_of
get_elem-entry_of [] i h = absurd (omega arith)
get_elem-entry_of (b ∷ bs) i h = elim (Bool-cases (ltb i dirents_per_block)) [
  | inl first ↦
      let zeroth : i / dirents_per_block ≡ 0 = ground arith in
      let same : i % dirents_per_block ≡ i = ground arith in
      (b, rw zeroth refl, rw (first, same) refl)
  | inr later ↦
      let (c, e, same) = get_elem-entry_of bs (i - dirents_per_block) (ground arith) in
      let next : i / dirents_per_block ≡ suc ((i - dirents_per_block) / dirents_per_block) =
        ground arith in
      let again : (i - dirents_per_block) % dirents_per_block ≡ i % dirents_per_block =
        ground arith in
      (c, rw next e, rw later (ap c.dirents (sym again) ∙ same))
]

-- Reading an entry of a directory never goes wrong.
pub load-entry_of :
    (dir : Inode) (i : ℕ)
    → dir.inode_size ≤ slots dir.chain
    → i < dir.inode_size
    → load_dirent dir (entry (i / dirents_per_block) (i % dirents_per_block))
      ≡ ok (entry_of dir.chain i)
unfolding load_dirent
load-entry_of dir i fits h =
    let (b, e, same) = get_elem-entry_of dir.chain i (omega arith) in
    rw (e, load_dirent) (ap ok same)

-- A stored entry is read back at its index and changes no other.
pub entry_of-store :
    (chain : List Block) (i j : ℕ) (e : Dirent)
    → i < slots chain
    → entry_of (store_slot (i / dirents_per_block) (i % dirents_per_block) e chain) j
      ≡ (if i == j then e else entry_of chain j)
unfolding entry_of store_slot
entry_of-store [] i j e h = absurd (omega arith)
entry_of-store (b ∷ bs) i j e h = elim (Bool-cases (ltb i dirents_per_block)) [
  | inl first ↦
      let zeroth : i / dirents_per_block ≡ 0 = ground arith in
      let same : i % dirents_per_block ≡ i = ground arith in rw (zeroth, same) (ground arith)
  | inr later ↦
      let next : i / dirents_per_block ≡ suc ((i - dirents_per_block) / dirents_per_block) =
        ground arith in
      let again : i % dirents_per_block ≡ (i - dirents_per_block) % dirents_per_block =
        ground arith in
      rw (next, again)
        (ground (arith, entry_of-store bs (i - dirents_per_block) (j - dirents_per_block) e))
]

pub length-store_slot :
    (k s : ℕ) (e : Dirent) (chain : List Block) → length (store_slot k s e chain) ≡ length chain
unfolding store_slot
length-store_slot k s e [] = refl
length-store_slot zero s e (b ∷ bs) = refl
length-store_slot (suc k) s e (b ∷ bs) = ap suc (length-store_slot k s e bs)

-- Blocks linked behind a chain leave its entries where they were.
pub entry_of-append :
    (chain more : List Block) (i : ℕ)
    → i < slots chain
    → entry_of (chain ++ more) i ≡ entry_of chain i
unfolding entry_of
entry_of-append [] more i h = absurd (omega arith)
entry_of-append (b ∷ bs) more i h = ground (arith, entry_of-append bs more (i - dirents_per_block))
