-- ===== src/Mmu.antt =====
-- The page tables, src/mmu/mmu.cpp, src/mmu/mmu_pi3.cpp, src/mmu/mmu_pi5.cpp and include/mmu.h.
-- `mem` is physical memory by the byte address of a 64-bit word; the bitmap of the frame allocator
-- lies apart from it, in `pmm`. `events` are the barriers, the TLB invalidations and the writes
-- to system registers, the newest first. `int i` counts pages below `2 ^ 31`.
pub mod Init
pub mod Tables
pub mod Walk
pub mod Follow
pub mod Fresh
pub mod Link
pub mod Written
pub mod Translate
pub mod Range
pub mod Mapping
pub mod Start
pub mod Identity
pub mod Regions
pub mod Unmap
pub mod Dangling
pub mod Reserve
use kehinde_kernel.Prelude.{
  ℕ, zero, suc, ◌+◌, ◌-◌, ◌*◌, ◌/◌, ◌%◌, ◌^◌, Bool, true, false, not, ◌&&◌, ◌||◌, ◌==◌,
  if◌then◌else◌, update, List, [], ◌∷◌, Option, none, some,
}
use kehinde_kernel.Bits.{bit_and, bit_or, bit_not, bit, u64, sub64, all_ones}
use kehinde_kernel.Pmm.{Pmm, page_size, phys_mem_end, alloc_frame, free_frame, pmm_init}

abbrev pub pte_normal_rw : ℕ
pte_normal_rw = 0x703

abbrev pub pte_device_rw : ℕ
pte_device_rw = 0x707

abbrev pub addr_mask : ℕ
addr_mask = 0x0000_FFFF_FFFF_F000

pub data Event : Type 0 where
  dsb_ishst : Event
  dsb_ish : Event
  isb : Event
  tlbi_vaae1is : ℕ → Event
  tlbi_vmalle1 : Event
  msr_mair : ℕ → Event
  msr_tcr : ℕ → Event
  msr_ttbr0 : ℕ → Event
  msr_sctlr : ℕ → Event

pub record Mmu : Type 0 where
  pub pmm : Pmm
  pub mem : ℕ → ℕ
  pub l1_table : ℕ
  pub events : List Event

-- The address of `table[index]`.
abbrev pub slot : ℕ → ℕ → ℕ
slot table index = table + index * 8

abbrev pub l1_index : ℕ → ℕ
l1_index va = bit_and (va / 2 ^ 30) 0x1FF

abbrev pub l2_index : ℕ → ℕ
l2_index va = bit_and (va / 2 ^ 21) 0x1FF

abbrev pub l3_index : ℕ → ℕ
l3_index va = bit_and (va / 2 ^ 12) 0x1FF

-- The loop `for (i = 0; i < n; i++) table[i] = 0` from index `i` with `n` rounds left.
unfoldable pub clear_table : ℕ → ℕ → ℕ → (ℕ → ℕ) → ℕ → ℕ
clear_table zero table i mem = mem
clear_table (suc n) table i mem = clear_table n table (i + 1) (update mem (slot table i) 0)

-- The part of `_get_or_alloc_table` behind the call of `alloc_frame`.
unfoldable pub link_table : Mmu → ℕ → ℕ → ℕ × Pmm → ℕ × Mmu
link_table m table index (child, pmm) = if child == 0 then (0, record m { pmm = pmm }) else (
  child,
  record m {
    pmm = pmm;
    mem = update (clear_table 512 child 0 m.mem) (slot table index) (bit_or child 0b11);
  },
)

-- `_get_or_alloc_table`: the child table, 0 for the null pointer.
unfoldable pub get_or_alloc_table : Mmu → ℕ → ℕ → ℕ × Mmu
get_or_alloc_table m table index =
    let entry = m.mem (slot table index) in
    if bit_and entry 1 == 0
    then link_table m table index (alloc_frame m.pmm)
    else (bit_and entry addr_mask, m)

-- The end of a round of `map`, given the L3 table. The flag is false where the call returns early.
unfoldable pub write_page : ℕ → ℕ → ℕ → ℕ × Mmu → Bool × Mmu
write_page va phys flags (l3_table, m) = if l3_table == 0 then (false, m) else (
  true,
  record m { mem = update m.mem (slot l3_table (l3_index va)) (bit_or (bit_or phys flags) 0b11) },
)

-- The middle of a round of `map`, given the L2 table.
unfoldable pub enter_l2 : ℕ → ℕ → ℕ → ℕ × Mmu → Bool × Mmu
enter_l2 va phys flags (l2_table, m) =
    if l2_table == 0
    then (false, m)
    else write_page va phys flags (get_or_alloc_table m l2_table (l2_index va))

-- One round of the loop of `map`.
unfoldable pub map_page : ℕ → ℕ → ℕ → Mmu → Bool × Mmu
map_page va phys flags m = enter_l2 va phys flags (get_or_alloc_table m m.l1_table (l1_index va))

-- The loop of `map` at page `i` with `n` pages to go.
unfoldable pub map_pages : ℕ → ℕ → ℕ → ℕ → ℕ → Mmu → Bool × Mmu
map_pages zero i va phys flags m = (true, m)
map_pages (suc n) i va phys flags m =
    let (done, m') = map_page (u64 (va + i * page_size)) (u64 (phys + i * page_size)) flags m in
    elim done [ true ↦ map_pages n (i + 1) va phys flags m' | false ↦ (false, m') ]

-- The loop that invalidates the translation of each page.
unfoldable pub invalidate_pages : ℕ → ℕ → ℕ → List Event → List Event
invalidate_pages zero i va events = events
invalidate_pages (suc n) i va events =
    invalidate_pages n (i + 1) va (tlbi_vaae1is (u64 (va + i * page_size) / 2 ^ 12) ∷ events)

-- The end of `map` and of `unmap`; an early return skips it.
unfoldable pub finish_edit : ℕ → ℕ → Bool × Mmu → Mmu
finish_edit num_pages va (false, m) = m
finish_edit num_pages va (true, m) = record m {
  events = isb ∷ dsb_ish ∷ invalidate_pages num_pages 0 va m.events;
}

abbrev pub start_edit : Mmu → Mmu
start_edit m = record m { events = dsb_ishst ∷ m.events }

-- `map`.
unfoldable pub map : ℕ → ℕ → ℕ → ℕ → Mmu → Mmu
map va phys size flags m =
    let num_pages = size / page_size in
    finish_edit num_pages va (map_pages num_pages 0 va phys flags (start_edit m))

-- The descriptor is that of a table or a page.
abbrev pub is_valid : ℕ → Bool
is_valid desc = bit_and desc 0b11 == 0b11

-- `translate`: all ones where there is no translation.
unfoldable pub translate : Mmu → ℕ → ℕ
translate m virt =
    let l1_desc = m.mem (slot m.l1_table (l1_index virt)) in
    if not (is_valid l1_desc)
    then all_ones
    else let l2_desc = m.mem (slot (bit_and l1_desc addr_mask) (l2_index virt)) in
      if not (is_valid l2_desc)
      then all_ones
      else let l3_desc = m.mem (slot (bit_and l2_desc addr_mask) (l3_index virt)) in
        if not (is_valid l3_desc)
        then all_ones
        else bit_or (bit_and l3_desc addr_mask) (bit_and virt 0xFFF)

-- `_table_is_empty` from index `i` with `n` entries to go.
unfoldable pub table_is_empty : ℕ → ℕ → ℕ → (ℕ → ℕ) → Bool
table_is_empty zero i table mem = true
table_is_empty (suc n) i table mem =
    if mem (slot table i) == 0 then table_is_empty n (i + 1) table mem else false

-- The L3 table of a round of `unmap` is released if it is empty. The entry that is cleared again
-- is that of the L3 table itself.
unfoldable pub release_l3 : ℕ → ℕ → Mmu → Mmu
release_l3 va l3_table m =
    if table_is_empty 512 0 l3_table m.mem
    then record m {
      mem = update m.mem (slot l3_table (l3_index va)) 0;
      pmm = free_frame m.pmm l3_table;
    }
    else m

-- The same for the L2 table.
unfoldable pub release_l2 : ℕ → ℕ → Mmu → Mmu
release_l2 va l2_table m =
    if table_is_empty 512 0 l2_table m.mem
    then record m {
      mem = update m.mem (slot l2_table (l2_index va)) 0;
      pmm = free_frame m.pmm l2_table;
    }
    else m

-- One round of the loop of `unmap`.
unfoldable pub unmap_page : ℕ → Mmu → Bool × Mmu
unmap_page va m =
    let l1_desc = m.mem (slot m.l1_table (l1_index va)) in
    if not (is_valid l1_desc)
    then (false, m)
    else let l2_table = bit_and l1_desc addr_mask in
      let l2_desc = m.mem (slot l2_table (l2_index va)) in
      if not (is_valid l2_desc)
      then (false, m)
      else let l3_table = bit_and l2_desc addr_mask in
        let cleared = record m { mem = update m.mem (slot l3_table (l3_index va)) 0 } in
        (true, release_l2 va l2_table (release_l3 va l3_table cleared))

-- The loop of `unmap` at page `i` with `n` pages to go.
unfoldable pub unmap_pages : ℕ → ℕ → ℕ → Mmu → Bool × Mmu
unmap_pages zero i va m = (true, m)
unmap_pages (suc n) i va m =
    let (done, m') = unmap_page (u64 (va + i * page_size)) m in
    elim done [ true ↦ unmap_pages n (i + 1) va m' | false ↦ (false, m') ]

-- `unmap`.
unfoldable pub unmap : ℕ → ℕ → Mmu → Mmu
unmap va size m =
    let num_pages = size / page_size in
    finish_edit num_pages va (unmap_pages num_pages 0 va (start_edit m))
