-- ===== src/Mmu/Dangling.antt =====
-- The L3 table that `unmap` of src/mmu/mmu.cpp frees while the L2 table still points to it.
use kehinde_kernel.Prelude.{
  ℕ, ◌/◌, ◌%◌, ◌^◌, ◌<◌, ◌≡◌, ◌≢◌, refl, sym, ap, ◌∙◌, arith, ◌==◌, true, false, Bool,
}
use mathlib.Core.Bool.{false≢true}
use kehinde_kernel.Bits.{bit_and, bit_or, all_ones}
use kehinde_kernel.Pmm.{Pmm, free_frame}
use kehinde_kernel.Pmm.Frames.{used}
use kehinde_kernel.Pmm.Free.{free_frame-used, free_frame_geometry}
use kehinde_kernel.Mmu.{
  Mmu, slot, addr_mask, is_valid, l1_index, l2_index, l3_index, unmap_page, translate,
}
use kehinde_kernel.Mmu.Tables.{
  Role, level1, level2, level3, is_interior, is_table, Link, free_entry, child_entry, IsTree,
  table_place,
}
use kehinde_kernel.Mmu.Walk.{free-is_valid, table-is_valid, table-address}
use kehinde_kernel.Mmu.Follow.{index_lt}
use kehinde_kernel.Mmu.Unmap.{IsPath, Unmapped, unreachable, cleared, released, unmap_page-Unmapped}

-- In a tree, a valid descriptor of a table is that of a child.
child_of_descriptor :
    {m : Mmu} {role : ℕ → Role} (tree : IsTree m role) {r : Role} (s i t : ℕ) {child : Role}
    → Link role r i (m.mem (slot s i))
    → kehinde_kernel.Mmu.Tables.child_of r i ≡ child
    → is_table child ≡ true
    → t < 2 ^ 48
    → t % 4096 ≡ 0
    → m.mem (slot s i) ≡ bit_or t 3
    → role t ≡ child
child_of_descriptor tree s i t (free_entry f) at table below aligned e =
    absurd (false≢true (sym (free-is_valid _ f) ∙ ap is_valid e ∙ table-is_valid t below))
child_of_descriptor {role} tree s i t (child_entry c e' r) at table below aligned e =
    let (aligned', pos, below') = table_place tree c (ap is_table (r ∙ at) ∙ table) in
    let same : c ≡ t =
      sym (table-address c below' aligned')
      ∙ ap (λ x. bit_and x addr_mask) (sym e' ∙ e)
      ∙ table-address t below aligned in
    ap role (sym same) ∙ r ∙ at

-- The L3 table that a walk to the page reaches.
abbrev pub l3_table_of : Mmu → ℕ → ℕ
l3_table_of m va =
    bit_and (m.mem (slot (bit_and (m.mem (slot m.l1_table (l1_index va))) addr_mask) (l2_index va)))
      addr_mask

module _ {va : ℕ} {m : Mmu} {role : ℕ → Role} (tree : IsTree m role) {t2 t3 : ℕ}
    (path : IsPath m role va t2 t3) where
  path_end : l3_table_of m va ≡ t3
  path_end =
      let (aligned2, pos2, below2) = table_place tree t2 (ap is_table path.l2_role) in
      let (aligned3, pos3, below3) = table_place tree t3 (ap is_table path.l3_role) in
      rw (
        path.l1_entry,
        table-address t2 below2 aligned2,
        path.l2_entry,
        table-address t3 below3 aligned3,
      )

  -- A table that is free and still linked is in no tree.
  free_table-¬IsTree :
      {m' : Mmu}
      → va < 2 ^ 64
      → m'.pmm ≡ free_frame m.pmm t3
      → m'.l1_table ≡ m.l1_table
      → m'.mem (slot m.l1_table (l1_index va)) ≡ bit_or t2 3
      → m'.mem (slot t2 (l2_index va)) ≡ bit_or t3 3
      → (role' : ℕ → Role) → IsTree m' role'
      → ⊥
  free_table-¬IsTree {m'} va_small freed root e1 e2 role' tree' =
      let (aligned2, pos2, below2) = table_place tree t2 (ap is_table path.l2_role) in
      let (aligned3, pos3, below3) = table_place tree t3 (ap is_table path.l3_role) in
      let i1 = l1_index va in
      let i2 = l2_index va in
      let lt1 = index_lt (va / 2 ^ 30) (omega arith) in
      let lt2 = index_lt (va / 2 ^ 21) (omega arith) in
      let top : role' m.l1_table ≡ level1 = ap role' (sym root) ∙ tree'.top in
      let r2 : role' t2 ≡ level2 i1 =
        child_of_descriptor tree' m.l1_table i1 t2
          (tree'.links m.l1_table (ap is_interior top) i1 lt1)
          (ap (λ r. kehinde_kernel.Mmu.Tables.child_of r i1) top) refl below2 aligned2 e1 in
      let r3 : role' t3 ≡ level3 i1 i2 =
        child_of_descriptor tree' t2 i2 t3 (tree'.links t2 (ap is_interior r2) i2 lt2)
          (ap (λ r. kehinde_kernel.Mmu.Tables.child_of r i2) r2) refl below3 aligned3 e2 in
      let (j, lt, at, set) = tree'.owned t3 (ap is_table r3) in
      let (start, count) = free_frame_geometry m.pmm tree.valid t3 in
      let start' = ap (λ (p : Pmm). p.phys_mem_start) freed ∙ start in
      let count' = ap (λ (p : Pmm). p.total_frames) freed ∙ count in
      let still : used (free_frame m.pmm t3).bitmap j ≡ true =
        ap (λ (p : Pmm). used p.bitmap j) (sym freed) ∙ set in
      absurd (ground (arith, still, free_frame-used m.pmm tree.valid t3 j, at, start', count'))

-- On a tree of tables, a round of `unmap` of a mapped page whose L3 table holds no other entry
-- leaves memory and allocator in a state that is no tree of tables under any roles: the L2 table
-- still leads to the L3 table, whose frame is free.
pub unmap_page-breaks :
    (va : ℕ) (m : Mmu) (role : ℕ → Role)
    → va < 2 ^ 64
    → IsTree m role
    → translate m va ≢ all_ones
    → ((k : ℕ) → k < 512 → (k == l3_index va) ≡ false → m.mem (slot (l3_table_of m va) k) ≡ 0)
    → ¬ ((role' : ℕ → Role) × IsTree (unmap_page va m).1 role')
unmap_page-breaks va m role va_small tree mapped alone =
    broken (unmap_page-Unmapped va va_small m role tree)
  where
    broken : {r : Bool × Mmu} → Unmapped m role va r → ¬ ((role' : ℕ → Role) × IsTree (r.1) role')
    broken (unreachable nowhere) = absurd (mapped (nowhere va va_small refl))
    broken (cleared t2 t3 k path lt other set still same walks) =
        absurd (set (ap (λ t. m.mem (slot t k)) (sym (path_end tree path)) ∙ alone k lt other))
    broken (released t2 t3 path empty freed root e1 e2 walks) =
        λ (role', tree'). free_table-¬IsTree tree path va_small freed root e1 e2 role' tree'
