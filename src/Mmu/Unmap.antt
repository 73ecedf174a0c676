-- ===== src/Mmu/Unmap.antt =====
-- One round of `unmap` of src/mmu/mmu.cpp on a tree of tables.
use kehinde_kernel.Prelude.{
  ℕ, zero, suc, ◌+◌, ◌%◌, ◌^◌, ◌≤◌, ◌<◌, ◌≡◌, inl, inr, refl, sym, ap, ◌∙◌, arith, ◌==◌, ==_refl,
  true, false, Bool, ◌≢◌, Bool-cases, if◌then◌else◌, update, subst, fun_ext,
}
use mathlib.Core.Bool.{false≢true}
use kehinde_kernel.Bits.{bit_or, all_ones}
use kehinde_kernel.Pmm.{free_frame}
use kehinde_kernel.Mmu.{
  Mmu, slot, is_valid, l1_index, l2_index, l3_index, translate, table_is_empty, release_l3,
  release_l2, unmap_page,
}
use kehinde_kernel.Mmu.Tables.{
  Role, level1, level2, level3, is_interior, Link, free_entry, child_entry, IsTree, table_place,
}
use kehinde_kernel.Mmu.Walk.{
  page_number, indices_page_number, translate_lem, free-is_valid, table-is_valid, table-address,
}
use kehinde_kernel.Mmu.Follow.{index_lt}
use kehinde_kernel.Mmu.Written.{stored, untouched, written-IsTree, off_page}

-- What `translate` gives once the page of `va` leads nowhere.
abbrev pub withdrawn : ℕ → (ℕ → ℕ) → ℕ → ℕ
withdrawn va old virt = if page_number virt == page_number va then all_ones else old virt

pub table_is_empty-zero :
    (n i table k : ℕ) (mem : ℕ → ℕ)
    → table_is_empty n i table mem ≡ true
    → i ≤ k
    → k < i + n
    → mem (slot table k) ≡ 0
unfolding table_is_empty
table_is_empty-zero zero i table k mem empty lo hi = absurd (omega arith)
table_is_empty-zero (suc n) i table k mem empty lo hi = elim (Bool-cases (i == k)) [
  | inl same ↦ ground arith
  | inr other ↦
      table_is_empty-zero n (i + 1) table k mem (ground arith) (ground arith) (omega arith)
]

pub table_is_empty-some :
    (n i table : ℕ) (mem : ℕ → ℕ)
    → table_is_empty n i table mem ≡ false
    → (k : ℕ) × (i ≤ k) × (k < i + n) × (mem (slot table k) ≢ 0)
unfolding table_is_empty
table_is_empty-some zero i table mem busy = cc
table_is_empty-some (suc n) i table mem busy = elim (Bool-cases (mem (slot table i) == 0)) [
  | inr set ↦ (i, omega arith, omega arith, λ z. ground arith)
  | inl zero_here ↦
      let (k, lo, hi, set) = table_is_empty-some n (i + 1) table mem (ground arith) in
      (k, omega arith, omega arith, set)
]

-- The tables on the way to the page of `va`.
pub record IsPath (m : Mmu) (role : ℕ → Role) (va t2 t3 : ℕ) : Type 0 where
  pub l2_role : role t2 ≡ level2 (l1_index va)
  pub l3_role : role t3 ≡ level3 (l1_index va) (l2_index va)
  pub l1_entry : m.mem (slot m.l1_table (l1_index va)) ≡ bit_or t2 3
  pub l2_entry : m.mem (slot t2 (l2_index va)) ≡ bit_or t3 3

-- What a round of `unmap` comes to.
pub data Unmapped (m : Mmu) (role : ℕ → Role) (va : ℕ) : Bool × Mmu → Type 0 where
  unreachable :
      ((virt : ℕ) → virt < 2 ^ 64 → page_number virt ≡ page_number va → translate m virt ≡ all_ones)
      → Unmapped m role va (false, m)
  cleared :
      {m' : Mmu} (t2 t3 k : ℕ)
      → IsPath m role va t2 t3
      → k < 512
      → (k == l3_index va) ≡ false
      → m.mem (slot t3 k) ≢ 0
      → IsTree m' role
      → m'.pmm ≡ m.pmm
      → ((virt : ℕ) → virt < 2 ^ 64 → translate m' virt ≡ withdrawn va (translate m) virt)
      → Unmapped m role va (true, m')
  released :
      {m' : Mmu} (t2 t3 : ℕ)
      → IsPath m role va t2 t3
      → ((k : ℕ) → k < 512 → m'.mem (slot t3 k) ≡ 0)
      → m'.pmm ≡ free_frame m.pmm t3
      → m'.l1_table ≡ m.l1_table
      → m'.mem (slot m.l1_table (l1_index va)) ≡ bit_or t2 3
      → m'.mem (slot t2 (l2_index va)) ≡ bit_or t3 3
      → ((virt : ℕ) → virt < 2 ^ 64 → translate m' virt ≡ withdrawn va (translate m) virt)
      → Unmapped m role va (true, m')

module _ (va : ℕ) (va_small : va < 2 ^ 64) (m : Mmu) (role : ℕ → Role) (tree : IsTree m role) where
  -- The indices of an address on the page.
  module _ (virt : ℕ) (small : virt < 2 ^ 64) (same : page_number virt ≡ page_number va) where
    no_l2 : is_valid (m.mem (slot m.l1_table (l1_index va))) ≡ false → translate m virt ≡ all_ones
    no_l2 e =
        let i = indices_page_number virt va small va_small same in rw (translate_lem m virt, i.0, e)

    no_l3 :
        (t2 : ℕ)
        → t2 < 2 ^ 48
        → t2 % 4096 ≡ 0
        → m.mem (slot m.l1_table (l1_index va)) ≡ bit_or t2 3
        → is_valid (m.mem (slot t2 (l2_index va))) ≡ false
        → translate m virt ≡ all_ones
    no_l3 t2 below aligned e1 e =
        let i = indices_page_number virt va small va_small same in
        rw (
          translate_lem m virt,
          i.0,
          e1,
          table-is_valid t2 below,
          table-address t2 below aligned,
          i.1,
          e,
        )

  module _ (t2 t3 : ℕ) (r2 : role t2 ≡ level2 (l1_index va))
      (r3 : role t3 ≡ level3 (l1_index va) (l2_index va))
      (e1 : m.mem (slot m.l1_table (l1_index va)) ≡ bit_or t2 3)
      (e2 : m.mem (slot t2 (l2_index va)) ≡ bit_or t3 3) where
    abbrev emptied : Mmu
    emptied = stored va va_small 0 m t3

    l1_kept : emptied.mem (slot m.l1_table (l1_index va)) ≡ bit_or t2 3
    l1_kept =
        rw
          (untouched va va_small role tree t3 r3 m.l1_table (l1_index va) (rw tree.top refl)
            (index_lt _ (omega arith)))
          e1

    l2_kept : emptied.mem (slot t2 (l2_index va)) ≡ bit_or t3 3
    l2_kept =
        rw
          (untouched va va_small role tree t3 r3 t2 (l2_index va) (rw r2 refl)
            (index_lt _ (omega arith)))
          e2

    emptied_walks :
        (virt : ℕ) → virt < 2 ^ 64 → translate emptied virt ≡ withdrawn va (translate m) virt
    emptied_walks virt small = elim (Bool-cases (page_number virt == page_number va)) [
      | inr other ↦ rw other (off_page va va_small m role tree t3 r3 0 virt small other)
      | inl same ↦
          let i = indices_page_number virt va small va_small (ground arith) in
          let (p2_aligned, pos2, p2_below) = table_place tree t2 (rw r2 refl) in
          let (p3_aligned, pos3, p3_below) = table_place tree t3 (rw r3 refl) in
          let gone : emptied.mem (slot t3 (l3_index va)) ≡ 0 =
            rw (==_refl (slot t3 (l3_index va))) refl in
          rw same (
            translate_lem emptied virt
            ∙ rw (
              i.0,
              l1_kept,
              table-is_valid t2 p2_below,
              table-address t2 p2_below p2_aligned,
              i.1,
              l2_kept,
              table-is_valid t3 p3_below,
              table-address t3 p3_below p3_aligned,
              i.2,
              gone,
            ))
    ]

    -- The L2 table still holds the descriptor of the L3 table, so it is not empty.
    l2_not_empty : table_is_empty 512 0 t2 emptied.mem ≡ false
    l2_not_empty = elim (Bool-cases (table_is_empty 512 0 t2 emptied.mem)) [
      | inr busy ↦ busy
      | inl empty ↦
          let (p3_aligned, pos3, p3_below) = table_place tree t3 (rw r3 refl) in
          let z =
            table_is_empty-zero 512 0 t2 (l2_index va) emptied.mem empty (omega arith)
              (index_lt _ (omega arith)) in
          absurd (false≢true (ap is_valid (sym z ∙ l2_kept) ∙ table-is_valid t3 p3_below))
    ]

    twice : update emptied.mem (slot t3 (l3_index va)) 0 ≡ emptied.mem
    twice = fun_ext (λ a. ground arith)

    other_index : (k : ℕ) → emptied.mem (slot t3 k) ≢ 0 → (k == l3_index va) ≡ false
    other_index k set = elim (Bool-cases (k == l3_index va)) [
      | inr other ↦ other
      | inl same ↦
          let e : k ≡ l3_index va = ground arith in
          absurd
            (set (ap (λ x. emptied.mem (slot t3 x)) e ∙ rw (==_refl (slot t3 (l3_index va))) refl))
    ]

    other_kept : (k : ℕ) → k < 512 → emptied.mem (slot t3 k) ≢ 0 → m.mem (slot t3 k) ≢ 0
    other_kept k lt set =
        let other = other_index k set in
        let apart : (slot t3 (l3_index va) == slot t3 k) ≡ false = ground arith in
        λ z. set (rw apart z)

    end_of_round : Unmapped m role va (true, release_l2 va t2 (release_l3 va t3 emptied))
    unfolding release_l2 release_l3 translate
    end_of_round =
        let path : IsPath m role va t2 t3 = record {
          l2_role = r2;
          l3_role = r3;
          l1_entry = e1;
          l2_entry = e2;
        } in
        elim (Bool-cases (table_is_empty 512 0 t3 emptied.mem)) [
          | inr busy ↦
              let (k, lo, hi, set) = table_is_empty-some 512 0 t3 emptied.mem busy in
              rw (busy, l2_not_empty)
                (cleared t2 t3 k path (omega arith) (other_index k set)
                  (other_kept k (omega arith) set) (written-IsTree va va_small 0 m role tree t3 r3)
                  refl emptied_walks)
          | inl empty ↦
              rw (empty, twice, l2_not_empty)
                (released t2 t3 path
                  (λ k lt.
                    table_is_empty-zero 512 0 t3 k emptied.mem empty (omega arith) (omega arith))
                  refl refl l1_kept l2_kept emptied_walks)
        ]

  unmap_l3 :
      (t2 : ℕ)
      → role t2 ≡ level2 (l1_index va)
      → m.mem (slot m.l1_table (l1_index va)) ≡ bit_or t2 3
      → Link role (level2 (l1_index va)) (l2_index va) (m.mem (slot t2 (l2_index va)))
      → Unmapped m role va (unmap_page va m)
  unfolding unmap_page
  unmap_l3 t2 r2 e1 (free_entry f) =
      let (aligned, pos, below) = table_place tree t2 (rw r2 refl) in
      let none_there = free-is_valid (m.mem (slot t2 (l2_index va))) f in
      rw (e1, table-is_valid t2 below, table-address t2 below aligned, none_there)
        (unreachable (λ virt small same. no_l3 virt small same t2 below aligned e1 none_there))
  unmap_l3 t2 r2 e1 (child_entry t3 e2 r3) =
      let (aligned, pos, below) = table_place tree t2 (rw r2 refl) in
      let (aligned', pos', below') = table_place tree t3 (rw r3 refl) in
      rw
        (
          e1,
          table-is_valid t2 below,
          table-address t2 below aligned,
          e2,
          table-is_valid t3 below',
          table-address t3 below' aligned',
        )
        (end_of_round t2 t3 r2 r3 e1 e2)

  unmap_l2 :
      Link role level1 (l1_index va) (m.mem (slot m.l1_table (l1_index va)))
      → Unmapped m role va (unmap_page va m)
  unfolding unmap_page
  unmap_l2 (free_entry f) =
      let none_there = free-is_valid (m.mem (slot m.l1_table (l1_index va))) f in
      rw none_there (unreachable (λ virt small same. no_l2 virt small same none_there))
  unmap_l2 (child_entry t2 e1 r2) =
      let inner : is_interior (role t2) ≡ true = rw r2 refl in
      unmap_l3 t2 r2 e1 (
        subst (λ r. Link role r (l2_index va) (m.mem (slot t2 (l2_index va)))) r2
          (tree.links t2 inner (l2_index va) (index_lt _ (omega arith))))

  -- On a tree of tables and for a 64-bit address, a round of `unmap` returns early and changes
  -- nothing, and then no address of the page leads anywhere; or it goes on, and then `translate`
  -- gives all ones on the page and what it gave before for every other 64-bit address. In the
  -- second case, if the L3 table on the way holds another entry that is not 0, the tables stay the
  -- same tree and the allocator is as before; if it holds none, its frame is given to `free_frame`,
  -- while both descriptors on the way to it stay in place.
  pub unmap_page-Unmapped : Unmapped m role va (unmap_page va m)
  unmap_page-Unmapped =
      let top : is_interior (role m.l1_table) ≡ true = rw tree.top refl in
      unmap_l2 (
        subst (λ r. Link role r (l1_index va) (m.mem (slot m.l1_table (l1_index va)))) tree.top
          (tree.links m.l1_table top (l1_index va) (index_lt _ (omega arith))))
