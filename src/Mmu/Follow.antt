-- ===== src/Mmu/Follow.antt =====
-- When a change of the tables of src/mmu/mmu.cpp leaves what `translate` gives for an address.
use kehinde_kernel.Prelude.{
  ℕ, ◌/◌, ◌%◌, ◌^◌, ◌<◌, ◌≡◌, inl, inr, ◌⊎◌, refl, arith, ◌==◌, true, subst,
}
use kehinde_kernel.Bits.{bit_and, bit_or}
use kehinde_kernel.Bits.Fields.{bit_and-lt}
use kehinde_kernel.Mmu.{Mmu, slot, l1_index, l2_index, l3_index, translate}
use kehinde_kernel.Mmu.Tables.{
  Role, level1, level2, level3, is_interior, Link, free_entry, child_entry, IsTree, table_place,
}
use kehinde_kernel.Mmu.Walk.{
  l2_walk, l3_walk, translate_lem, free-is_valid, table-is_valid, table-address,
}

-- An entry that was free now leads to an empty table.
pub record IsLinked (m m' : Mmu) (at : ℕ) : Type 0 where
  pub was_free : (bit_and (m.mem at) 1 == 0) ≡ true
  pub child : ℕ
  pub entry : m'.mem at ≡ bit_or child 3
  pub small : child < 2 ^ 48
  pub aligned : child % 4096 ≡ 0
  pub cleared : (l : ℕ) → l < 512 → m'.mem (slot child l) ≡ 0

pub index_lt : (n : ℕ) → n < 2 ^ 64 → bit_and n 0x1FF < 512
index_lt n h = bit_and-lt 9 64 n 0x1FF h (omega arith)

module _ (m m' : Mmu) (role : ℕ → Role) (tree : IsTree m role) (virt : ℕ) (small : virt < 2 ^ 64)
    (interior : (s k : ℕ)
      → is_interior (role s) ≡ true
      → k < 512
      → (m'.mem (slot s k) ≡ m.mem (slot s k)) ⊎ IsLinked m m' (slot s k))
    (leaves : (s : ℕ)
      → role s ≡ level3 (l1_index virt) (l2_index virt)
      → m'.mem (slot s (l3_index virt)) ≡ m.mem (slot s (l3_index virt))) where
  l3_same :
      (e : ℕ)
      → Link role (level2 (l1_index virt)) (l2_index virt) e
      → l3_walk m'.mem e virt ≡ l3_walk m.mem e virt
  l3_same e (free_entry f) = rw (free-is_valid e f)
  l3_same e (child_entry c at r) =
      let (aligned, pos, below) = table_place tree c (rw r refl) in
      rw (at, table-address c below aligned, leaves c r)

  l3_linked :
      (s k : ℕ) (l : IsLinked m m' (slot s k))
      → l3_walk m'.mem (m'.mem (slot s k)) virt ≡ l3_walk m.mem (m.mem (slot s k)) virt
  l3_linked s k l = rw (
    l.entry,
    table-address l.child l.small l.aligned,
    table-is_valid l.child l.small,
    l.cleared (l3_index virt) (index_lt _ (omega arith)),
    free-is_valid (m.mem (slot s k)) l.was_free,
  )

  l3_entry :
      (s : ℕ)
      → role s ≡ level2 (l1_index virt)
      → l3_walk m'.mem (m'.mem (slot s (l2_index virt))) virt
        ≡ l3_walk m.mem (m.mem (slot s (l2_index virt))) virt
  l3_entry s r =
      let k = l2_index virt in
      let lt = index_lt (virt / 2 ^ 21) (omega arith) in
      let inner : is_interior (role s) ≡ true = rw r refl in
      elim (interior s k inner lt) [
        | inl same ↦ rw same (
            l3_same (m.mem (slot s k))
              (subst (λ x. Link role x k (m.mem (slot s k))) r (tree.links s inner k lt)))
        | inr linked ↦ l3_linked s k linked
      ]

  l2_same :
      (e : ℕ) → Link role level1 (l1_index virt) e → l2_walk m'.mem e virt ≡ l2_walk m.mem e virt
  l2_same e (free_entry f) = rw (free-is_valid e f)
  l2_same e (child_entry c at r) =
      let (aligned, pos, below) = table_place tree c (rw r refl) in
      rw (at, table-address c below aligned, table-is_valid c below) (l3_entry c r)

  l2_linked :
      (s k : ℕ) (l : IsLinked m m' (slot s k))
      → l2_walk m'.mem (m'.mem (slot s k)) virt ≡ l2_walk m.mem (m.mem (slot s k)) virt
  l2_linked s k l = rw (
    l.entry,
    table-address l.child l.small l.aligned,
    table-is_valid l.child l.small,
    l.cleared (l2_index virt) (index_lt _ (omega arith)),
    free-is_valid (m.mem (slot s k)) l.was_free,
  )

  -- A change that only links empty tables to free entries, and keeps the entry of the page of an
  -- address, keeps what `translate` gives for the address.
  pub translate-follows : m'.l1_table ≡ m.l1_table → translate m' virt ≡ translate m virt
  translate-follows root =
      let k = l1_index virt in
      let s = m.l1_table in
      let lt = index_lt (virt / 2 ^ 30) (omega arith) in
      let inner : is_interior (role s) ≡ true = rw tree.top refl in
      let step : l2_walk m'.mem (m'.mem (slot s k)) virt ≡ l2_walk m.mem (m.mem (slot s k)) virt =
        elim (interior s k inner lt) [
          | inl same ↦ rw same (
              l2_same (m.mem (slot s k))
                (subst (λ x. Link role x k (m.mem (slot s k))) tree.top (tree.links s inner k lt)))
          | inr linked ↦ l2_linked s k linked
        ] in
      rw (translate_lem m' virt, translate_lem m virt, root) step
