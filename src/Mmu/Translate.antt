-- ===== src/Mmu/Translate.antt =====
-- A page that `map` of src/mmu/mmu.cpp enters is found by `translate`.
use kehinde_kernel.Prelude.{
  ℕ, ◌%◌, ◌^◌, ◌<◌, ◌≡◌, inl, inr, refl, sym, ap, ◌∙◌, arith, ◌==◌, ==_refl, true, false, Bool,
  Bool-cases, if◌then◌else◌, subst,
}
use kehinde_kernel.Bits.{bit_and, bit_or, bit_or-lt}
use kehinde_kernel.Bits.Fields.{masked_page, low_bits_set}
use kehinde_kernel.Mmu.Walk.{page_number, indices_page_number, table-is_valid, table-address}
use kehinde_kernel.Mmu.Follow.{index_lt}
use kehinde_kernel.Mmu.Written.{stored, untouched, written-IsTree, off_page}
use kehinde_kernel.Pmm.Frames.{used, Grows-refl}
use kehinde_kernel.Mmu.{
  Mmu, slot, addr_mask, l1_index, l2_index, l3_index, write_page, enter_l2, map_page, translate,
  is_valid,
}
use kehinde_kernel.Mmu.Link.{get_or_alloc_table-Got}
use kehinde_kernel.Mmu.Tables.{
  Role, level1, level2, level3, child_of, is_interior, is_table, IsTree, Extends, Extends-refl,
  Extends-trans, Got, out_of_frames, got, table_place, slot_apart, interior-table,
}

-- What `translate` gives once the page of `va` is mapped to `phys`.
abbrev pub remapped : ℕ → ℕ → (ℕ → ℕ) → ℕ → ℕ
remapped va phys old virt =
    if page_number virt == page_number va then bit_or phys (bit_and virt 0xFFF) else old virt

-- What a round of `map` comes to.
pub data Mapped (m : Mmu) (role : ℕ → Role) (va phys : ℕ) : Bool × Mmu → Type 0 where
  no_frame :
      {m' : Mmu} (role' : ℕ → Role)
      → IsTree m' role'
      → ((j : ℕ) → j < m'.pmm.total_frames → used m'.pmm.bitmap j ≡ true)
      → Extends m role m' role'
      → ((virt : ℕ) → virt < 2 ^ 64 → translate m' virt ≡ translate m virt)
      → Mapped m role va phys (false, m')
  mapped :
      {m' : Mmu} (role' : ℕ → Role)
      → IsTree m' role'
      → Extends m role m' role'
      → ((virt : ℕ) → virt < 2 ^ 64 → translate m' virt ≡ remapped va phys (translate m) virt)
      → Mapped m role va phys (true, m')

-- A walk over three valid descriptors.
translate_walk :
    (m : Mmu) (virt d1 d2 d3 t2 t3 phys : ℕ)
    → m.mem (slot m.l1_table (l1_index virt)) ≡ d1
    → is_valid d1 ≡ true
    → bit_and d1 addr_mask ≡ t2
    → m.mem (slot t2 (l2_index virt)) ≡ d2
    → is_valid d2 ≡ true
    → bit_and d2 addr_mask ≡ t3
    → m.mem (slot t3 (l3_index virt)) ≡ d3
    → is_valid d3 ≡ true
    → bit_and d3 addr_mask ≡ phys
    → translate m virt ≡ bit_or phys (bit_and virt 0xFFF)
unfolding translate
translate_walk m virt d1 d2 d3 t2 t3 phys e1 v1 a1 e2 v2 a2 e3 v3 a3 =
    rw (e1, v1, a1, e2, v2, a2, e3, v3, a3)

module _ (va phys flags : ℕ) (va_small : va < 2 ^ 64) (phys_small : phys < 2 ^ 48)
    (phys_aligned : phys % 4096 ≡ 0) (flags_small : flags < 4096) where
  module _ (m : Mmu) (role : ℕ → Role) (tree : IsTree m role) (t2 t3 : ℕ)
      (e1 : m.mem (slot m.l1_table (l1_index va)) ≡ bit_or t2 3)
      (e2 : m.mem (slot t2 (l2_index va)) ≡ bit_or t3 3) (r2 : role t2 ≡ level2 (l1_index va))
      (r3 : role t3 ≡ level3 (l1_index va) (l2_index va)) where
    abbrev desc : ℕ
    desc = bit_or (bit_or phys flags) 3

    -- On the page the walk ends at the new descriptor.
    on_page :
        (virt : ℕ)
        → l1_index virt ≡ l1_index va
        → l2_index virt ≡ l2_index va
        → l3_index virt ≡ l3_index va
        → translate (stored va va_small desc m t3) virt ≡ bit_or phys (bit_and virt 0xFFF)
    on_page virt i1 i2 i3 =
        let p2 = table_place tree t2 (rw r2 refl) in
        let p3 = table_place tree t3 (rw r3 refl) in
        let top =
          untouched va va_small role tree t3 r3 m.l1_table (l1_index va) (rw tree.top refl)
            (index_lt _ (omega arith)) in
        let middle =
          untouched va va_small role tree t3 r3 t2 (l2_index va) (rw r2 refl)
            (index_lt _ (omega arith)) in
        let page = bit_or-lt 48 phys flags phys_small (omega arith) in
        translate_walk (stored va va_small desc m t3) virt (bit_or t2 3) (bit_or t3 3)
          (bit_or (bit_or phys flags) 3) t2 t3 phys
          (ap (λ x. (stored va va_small desc m t3).mem (slot m.l1_table x)) i1 ∙ rw top e1)
          (table-is_valid t2 p2.2) (table-address t2 p2.2 p2.0)
          (ap (λ x. (stored va va_small desc m t3).mem (slot t2 x)) i2 ∙ rw middle e2)
          (table-is_valid t3 p3.2) (table-address t3 p3.2 p3.0)
          (ap (λ x. (stored va va_small desc m t3).mem (slot t3 x)) i3
            ∙ rw (==_refl (slot t3 (l3_index va))) refl)
          (low_bits_set (bit_or phys flags) (omega arith))
          (masked_page phys flags phys_small phys_aligned flags_small)

    found :
        (virt : ℕ)
        → virt < 2 ^ 64
        → translate (stored va va_small desc m t3) virt ≡ remapped va phys (translate m) virt
    found virt small = elim (Bool-cases (page_number virt == page_number va)) [
      | inl same ↦
          let i = indices_page_number virt va small va_small (ground arith) in
          rw same (on_page virt (i.0) (i.1) (i.2))
      | inr other ↦ rw other (off_page va va_small m role tree t3 r3 desc virt small other)
    ]

    -- The descriptor of the page is written into the L3 table.
    write_page-Mapped : 0 < t3 → Mapped m role va phys (write_page va phys flags (t3, m))
    unfolding write_page
    write_page-Mapped pos =
        let nonzero : (t3 == 0) ≡ false = ground arith in
        rw nonzero (
          mapped role (written-IsTree va va_small desc m role tree t3 r3)
            (record { root = refl; grows = Grows-refl m.pmm; takes = λ t h. inl h }) found)

  levels_apart :
      {m : Mmu} (role : ℕ → Role) (tree : IsTree m role) (t2 : ℕ) {i : ℕ}
      → role t2 ≡ level2 i
      → (slot t2 (l2_index va) == slot m.l1_table (l1_index va)) ≡ false
  levels_apart {m} role tree t2 r2 =
      elim (Bool-cases (slot t2 (l2_index va) == slot m.l1_table (l1_index va))) [
        | inr apart ↦ apart
        | inl same ↦
            let p1 = table_place tree m.l1_table (rw tree.top refl) in
            let p2 = table_place tree t2 (rw r2 refl) in
            let e =
              slot_apart m.l1_table t2 (l1_index va) (l2_index va) p1.0 p2.0
                (index_lt _ (omega arith)) (index_lt _ (omega arith)) (ground arith) in
            let clash : level2 _ ≡ level1 = sym r2 ∙ ap role (e.0) ∙ tree.top in absurd cc
      ]

  moved_up :
      {m m' : Mmu} {role role' : ℕ → Role} {r : Bool × Mmu}
      → Extends m role m' role'
      → ((virt : ℕ) → virt < 2 ^ 64 → translate m' virt ≡ translate m virt)
      → Mapped m' role' va phys r
      → Mapped m role va phys r
  moved_up x walks (no_frame role'' tree' full y keeps) =
      no_frame role'' tree' full (Extends-trans x y) (λ virt h. keeps virt h ∙ walks virt h)
  moved_up x walks (mapped role'' tree' y found) =
      mapped role'' tree' (Extends-trans x y) (λ virt h.
        found virt h
        ∙ ap
            (λ x.
              if page_number virt == page_number va then bit_or phys (bit_and virt 0xFFF) else x)
            (walks virt h))

  stuck :
      {m m' : Mmu} (role : ℕ → Role)
      → IsTree m role
      → m' ≡ m
      → ((j : ℕ) → j < m.pmm.total_frames → used m.pmm.bitmap j ≡ true)
      → Mapped m role va phys (false, m')
  stuck {m} role tree same full =
      subst (λ x. Mapped m role va phys (false, x)) (sym same)
        (no_frame role tree full (Extends-refl m role) (λ virt h. refl))

  second-Mapped :
      (m : Mmu) (role : ℕ → Role) (tree : IsTree m role) (t2 : ℕ)
      → m.mem (slot m.l1_table (l1_index va)) ≡ bit_or t2 3
      → role t2 ≡ level2 (l1_index va)
      → (inner : is_interior (role t2) ≡ true) → {r : ℕ × Mmu} → Got m role tree t2 (l2_index va) r
      → Mapped m role va phys (write_page va phys flags r)
  unfolding write_page
  second-Mapped m role tree t2 e1 r2 inner (out_of_frames same full) = stuck role tree same full
  second-Mapped m role tree t2 e1 r2 inner
        (got {c} {m'} role' tree' pos x child entry roles kept walks) =
      let t1_table : is_table (role m.l1_table) ≡ true = rw tree.top refl in
      let t2_table = interior-table (role t2) inner in
      let above =
        kept m.l1_table (l1_index va) t1_table (index_lt _ (omega arith))
          (levels_apart role tree t2 r2) in
      let top : m'.mem (slot m'.l1_table (l1_index va)) ≡ bit_or t2 3 =
        ap (λ t. m'.mem (slot t (l1_index va))) (x.root) ∙ above ∙ e1 in
      moved_up x walks (
        write_page-Mapped m' role' tree' t2 c top entry (roles t2 t2_table ∙ r2)
          (child ∙ ap (λ r. child_of r (l2_index va)) r2) pos)

  first-Mapped :
      (m : Mmu) (role : ℕ → Role) (tree : IsTree m role)
      → {r : ℕ × Mmu} → Got m role tree m.l1_table (l1_index va) r
      → Mapped m role va phys (enter_l2 va phys flags r)
  unfolding enter_l2
  first-Mapped m role tree (out_of_frames same full) = stuck role tree same full
  first-Mapped m role tree (got {c} {m'} role' tree' pos x child entry roles kept walks) =
      let nonzero : (c == 0) ≡ false = ground arith in
      let r2 = child ∙ ap (λ r. child_of r (l1_index va)) tree.top in
      let inner : is_interior (role' c) ≡ true = ap is_interior r2 in
      let top : m'.mem (slot m'.l1_table (l1_index va)) ≡ bit_or c 3 =
        ap (λ t. m'.mem (slot t (l1_index va))) (x.root) ∙ entry in
      rw nonzero (
        moved_up x walks (
          second-Mapped m' role' tree' c top r2 inner (
            get_or_alloc_table-Got m' role' tree' c (l2_index va) inner
              (index_lt _ (omega arith)))))

  -- For a tree of tables, a 64-bit virtual address, an aligned physical address below `2 ^ 48` and
  -- flags below 4096, a round of `map` leaves a tree of tables with the same root, and gives no
  -- frame back. If it goes on, `translate` takes every 64-bit address with the same page number in
  -- its low 39 bits to the physical address joined with its low twelve bits, and any other address
  -- to what it gave before. If it returns early, every frame is in use and `translate` gives what
  -- it gave before for every address.
  pub map_page-Mapped :
      (m : Mmu) (role : ℕ → Role) → IsTree m role → Mapped m role va phys (map_page va phys flags m)
  unfolding map_page
  map_page-Mapped m role tree = first-Mapped m role tree (
      get_or_alloc_table-Got m role tree m.l1_table (l1_index va) (rw tree.top refl)
        (index_lt _ (omega arith)))
