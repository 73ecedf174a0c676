-- ===== src/Tests/Pages.antt =====
-- src/mmu/mmu.cpp: one page is mapped below a first table, on a kernel that ends at 0x3F70_0000.
use kehinde_kernel.Prelude.{ℕ, ◌≡◌, refl, sym, ◌∙◌, [], arith, Bool, true, false, update, ◌<◌, ◌==◌}
use kehinde_kernel.Run.{ok}
use kehinde_kernel.Bits.Single.{ctz}
use kehinde_kernel.Pmm.{
  Pmm, pmm_init, round_up, mark_tail, clear_words, alloc_frame, alloc_scan, hand_out,
}
use kehinde_kernel.Pmm.Frames.{IsValid}
use kehinde_kernel.Pmm.Init.{pmm_init-IsValid}
use kehinde_kernel.Mmu.{
  Mmu, clear_table, map, map_page, enter_l2, write_page, get_or_alloc_table, link_table, translate,
  unmap_page, table_is_empty, slot, l3_index, pte_normal_rw,
}
use kehinde_kernel.Board.{board_pi3, board_pi5}
use kehinde_kernel.Mmu.Init.{first_table, mmu_init_pi3, mmu_init_pi5}
use kehinde_kernel.Mmu.Mapping.{MapOutcome, map-MapOutcome}
use kehinde_kernel.Mmu.Regions.{Inited, mmu_init-Inited}
use kehinde_kernel.Mmu.Unmap.{Unmapped, unmap_page-Unmapped, table_is_empty-zero}
use kehinde_kernel.Mmu.Dangling.{l3_table_of, unmap_page-breaks}
use kehinde_kernel.Mmu.Tables.{Role, IsTree}
use kehinde_kernel.Mmu.Start.{only_first, first_table-IsTree}
use kehinde_kernel.Mmu.Translate.{Mapped, no_frame, mapped, map_page-Mapped}

abbrev pub booted : Pmm
booted = pmm_init 0x3F70_0000 (λ _. 0)

booted-IsValid : IsValid booted
booted-IsValid =
    let (v, free) = pmm_init-IsValid 0x3F70_0000 (λ _. 0) (omega arith) (λ i. omega arith) in v

abbrev before : Mmu
before = record { pmm = booted; mem = λ _. 0; l1_table = 0; events = [] }

abbrev pub first : Mmu
first = record {
  pmm = (alloc_frame booted).1;
  mem = clear_table 512 (alloc_frame booted).0 0 (λ _. 0);
  l1_table = (alloc_frame booted).0;
  events = [];
}

first_found : first_table before (alloc_frame booted) ≡ ok first
unfolding first_table pmm_init round_up mark_tail clear_words alloc_frame alloc_scan hand_out ctz
first_found = refl

pub first_tree : IsTree first (only_first first.l1_table)
first_tree = first_table-IsTree before booted booted-IsValid first_found

map-MapOutcome_example :
    MapOutcome first
      (only_first first.l1_table)
      2
      0x1_0000_0000
      0x20_0000
      (map 0x1_0000_0000 0x20_0000 0x2000 pte_normal_rw first)
map-MapOutcome_example =
    map-MapOutcome 0x1_0000_0000 0x20_0000 0x2000 pte_normal_rw first (only_first first.l1_table)
      first_tree (omega arith) (omega arith) (omega arith) (omega arith) (omega arith)

mmu_init-Inited_example :
    Inited board_pi3 0x0100_0000 0x0000_1000 (mmu_init_pi3 0x10_0000 (λ _. 0) 0 before)
    × Inited board_pi5 0x41_0000 0x8000 (mmu_init_pi5 0x10_0000 (λ _. 0) 0 before)
mmu_init-Inited_example =
    mmu_init-Inited 0x10_0000 (λ _. 0) 0 before (omega arith, omega arith) (omega arith)
      (λ i. omega arith)

abbrev second : Mmu
second = (map_page 0x1_0000_0000 0x20_0000 pte_normal_rw first).1

tree_of :
    {m : Mmu} {role : ℕ → Role} {va phys : ℕ} {r : Bool × Mmu}
    → Mapped m role va phys r
    → (role' : ℕ → Role) × IsTree (r.1) role'
tree_of (no_frame role' tree full x walks) = (role', tree)
tree_of (mapped role' tree x walks) = (role', tree)

second_tree : (role' : ℕ → Role) × IsTree second role'
second_tree = tree_of (
    map_page-Mapped 0x1_0000_0000 0x20_0000 pte_normal_rw (omega arith) (omega arith) (omega arith)
      (omega arith) first (only_first first.l1_table) first_tree)

unmap_page-Unmapped_example :
    Unmapped second second_tree.0 0x1_0000_0000 (unmap_page 0x1_0000_0000 second)
unmap_page-Unmapped_example =
    unmap_page-Unmapped 0x1_0000_0000 (omega arith) second second_tree.0 second_tree.1

second_found : translate second 0x1_0000_0000 ≡ 0x20_0000
unfolding map_page enter_l2 write_page get_or_alloc_table link_table translate pmm_init round_up
    mark_tail clear_words alloc_frame alloc_scan hand_out ctz clear_table
second_found = refl

alone :
    table_is_empty 512 0
      (l3_table_of second 0x1_0000_0000)
      (update second.mem (slot (l3_table_of second 0x1_0000_0000) (l3_index 0x1_0000_0000)) 0)
    ≡ true
unfolding map_page enter_l2 write_page get_or_alloc_table link_table translate pmm_init round_up
    mark_tail clear_words alloc_frame alloc_scan hand_out ctz clear_table table_is_empty
alone = refl

other_entries :
    (k : ℕ)
    → k < 512
    → (k == l3_index 0x1_0000_0000) ≡ false
    → second.mem (slot (l3_table_of second 0x1_0000_0000) k) ≡ 0
other_entries k lt other =
    let l3_table = l3_table_of second 0x1_0000_0000 in
    let apart : (slot l3_table (l3_index 0x1_0000_0000) == slot l3_table k) ≡ false =
      ground arith in
    let z =
      table_is_empty-zero 512 0 l3_table k
        (update second.mem (slot l3_table (l3_index 0x1_0000_0000)) 0) alone (omega arith)
        (omega arith) in
    rw apart at z

unmap_page-breaks_example : ¬ ((role : ℕ → Role) × IsTree (unmap_page 0x1_0000_0000 second).1 role)
unmap_page-breaks_example =
    unmap_page-breaks 0x1_0000_0000 second second_tree.0 (omega arith) second_tree.1
      (λ e. let f = sym second_found ∙ e in absurd (omega arith)) other_entries
