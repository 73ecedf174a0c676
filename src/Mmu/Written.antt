-- ===== src/Mmu/Written.antt =====
-- A write of a page's entry in an L3 table, as `map` and `unmap` of src/mmu/mmu.cpp do it.
use kehinde_kernel.Prelude.{
  ℕ, ◌^◌, ◌<◌, ◌≡◌, inl, inr, refl, sym, ap, ◌∙◌, arith, ◌==◌, true, false, Bool-cases, update,
}
use mathlib.Core.Bool.{false≢true}
use kehinde_kernel.Mmu.{Mmu, slot, l1_index, l2_index, l3_index, translate}
use kehinde_kernel.Mmu.Tables.{
  Role, level3, is_interior, IsTree, table_place, slot_apart, interior-table,
}
use kehinde_kernel.Mmu.Walk.{page_number, page_number_indices}
use kehinde_kernel.Mmu.Follow.{index_lt, translate-follows}

level3_first : {i j k l : ℕ} → level3 i j ≡ level3 k l → i ≡ k
level3_first e = cc

level3_second : {i j k l : ℕ} → level3 i j ≡ level3 k l → j ≡ l
level3_second e = cc

module _ (va : ℕ) (va_small : va < 2 ^ 64) where
  -- The entry of the page of `va` in the L3 table becomes `desc`.
  abbrev pub stored : ℕ → Mmu → ℕ → Mmu
  stored desc m t3 = record m { mem = update m.mem (slot t3 (l3_index va)) desc }

  -- A write into an L3 table leaves the entries of the tables above.
  pub untouched :
      {m : Mmu} (role : ℕ → Role) (tree : IsTree m role) (t3 : ℕ) {i j : ℕ}
      → role t3 ≡ level3 i j
      → (s k : ℕ) → is_interior (role s) ≡ true
      → k < 512
      → (slot t3 (l3_index va) == slot s k) ≡ false
  untouched role tree t3 r3 s k inner hk = elim (Bool-cases (slot t3 (l3_index va) == slot s k)) [
    | inr apart ↦ apart
    | inl same ↦
        let p3 = table_place tree t3 (rw r3 refl) in
        let ps = table_place tree s (interior-table (role s) inner) in
        let e =
          slot_apart s t3 k (l3_index va) ps.0 p3.0 hk (index_lt _ (omega arith)) (ground arith) in
        absurd (false≢true (sym (ap is_interior (ap role (sym (e.0)) ∙ r3)) ∙ inner))
  ]

  pub written-IsTree :
      (desc : ℕ) (m : Mmu) (role : ℕ → Role) (tree : IsTree m role) (t3 : ℕ) {i j : ℕ}
      → role t3 ≡ level3 i j
      → IsTree (stored desc m t3) role
  written-IsTree desc m role tree t3 r3 = record {
    valid = tree.valid;
    top = tree.top;
    owned = tree.owned;
    links = λ s inner k hk. rw (untouched role tree t3 r3 s k inner hk) (tree.links s inner k hk);
  }

  module _ (m : Mmu) (role : ℕ → Role) (tree : IsTree m role) (t3 : ℕ)
      (r3 : role t3 ≡ level3 (l1_index va) (l2_index va)) where
    -- The entries of other pages are not written.
    other_entry :
        (virt : ℕ)
        → virt < 2 ^ 64
        → (page_number virt == page_number va) ≡ false
        → (s : ℕ) → role s ≡ level3 (l1_index virt) (l2_index virt)
        → (slot t3 (l3_index va) == slot s (l3_index virt)) ≡ false
    other_entry virt small other s r =
        elim (Bool-cases (slot t3 (l3_index va) == slot s (l3_index virt))) [
          | inr apart ↦ apart
          | inl same ↦
              let p3 = table_place tree t3 (rw r3 refl) in
              let ps = table_place tree s (rw r refl) in
              let (e, f) =
                slot_apart s t3 (l3_index virt) (l3_index va) ps.0 p3.0 (index_lt _ (omega arith))
                  (index_lt _ (omega arith)) (ground arith) in
              let roles : level3 (l1_index virt) (l2_index virt)
                  ≡ level3 (l1_index va) (l2_index va) =
                sym r ∙ ap role (sym e) ∙ r3 in
              let page =
                page_number_indices virt va small va_small (level3_first roles)
                  (level3_second roles) (sym f) in
              absurd (ground arith)
        ]

    -- What other pages lead to stays.
    pub off_page :
        (desc virt : ℕ)
        → virt < 2 ^ 64
        → (page_number virt == page_number va) ≡ false
        → translate (stored desc m t3) virt ≡ translate m virt
    off_page desc virt small other =
        translate-follows m (stored desc m t3) role tree virt small
          (λ s k inner hk. inl (rw (untouched role tree t3 r3 s k inner hk) refl))
          (λ s r. rw (other_entry virt small other s r) refl) refl
