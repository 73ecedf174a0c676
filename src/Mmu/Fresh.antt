-- ===== src/Mmu/Fresh.antt =====
-- A fresh frame as a new table of src/mmu/mmu.cpp: `_get_or_alloc_table` on a free entry.
use kehinde_kernel.Prelude.{
  ℕ, ◌%◌, ◌^◌, ◌<◌, ◌≡◌, inl, inr, ◌⊎◌, refl, sym, ap, ◌∙◌, arith, ◌==◌, ==_refl, ◌||◌, true, false,
  Bool-cases, update, subst,
}
use mathlib.Core.Bool.{false≢true}
use kehinde_kernel.Bits.{bit_and, bit_or}
use kehinde_kernel.Pmm.{Pmm, alloc_frame}
use kehinde_kernel.Pmm.Frames.{used}
use kehinde_kernel.Mmu.Follow.{IsLinked, translate-follows, index_lt}
use kehinde_kernel.Pmm.Free.{frame_address}
use kehinde_kernel.Mmu.{Mmu, slot, clear_table, translate, l3_index}
use kehinde_kernel.Mmu.Tables.{
  Role, level3, child_of, is_interior, is_table, interior-table, child-table, Link, free_entry,
  child_entry, IsTree, Extends, clear_table-hit, clear_table-miss, Got, got, table_place,
  slot_apart,
}

-- A fresh frame becomes the child of entry `i` of table `t`.
module _ (m : Mmu) (role : ℕ → Role) (tree : IsTree m role) (t i : ℕ)
    (inside : is_interior (role t) ≡ true) (lt : i < 512) (addr : ℕ) (q : Pmm) (idx : ℕ)
    (at : addr ≡ frame_address m.pmm idx) (start : q.phys_mem_start ≡ m.pmm.phys_mem_start)
    (count : q.total_frames ≡ m.pmm.total_frames) (below : idx < m.pmm.total_frames)
    (free : used m.pmm.bitmap idx ≡ false)
    (marks : (j : ℕ) → used q.bitmap j ≡ (used m.pmm.bitmap j || (idx == j)))
    (sound : kehinde_kernel.Pmm.Frames.IsValid q)
    (vacant : (bit_and (m.mem (slot t i)) 1 == 0) ≡ true) where
  abbrev linked : ℕ → ℕ
  linked = update (clear_table 512 addr 0 m.mem) (slot t i) (bit_or addr 3)

  abbrev grown : ℕ → Role
  grown = update role addr (child_of (role t) i)

  fresh : (s : ℕ) → is_table (role s) ≡ true → (addr == s) ≡ false
  fresh s h = elim (Bool-cases (addr == s)) [
    | inr other ↦ other
    | inl same ↦
        let (j, inner, place, set) = tree.owned s h in
        let e : j ≡ idx = ground arith in
        absurd (false≢true (sym free ∙ ap (used m.pmm.bitmap) (sym e) ∙ set))
  ]

  same_role : (s : ℕ) → is_table (role s) ≡ true → grown s ≡ role s
  same_role s h = rw (fresh s h) refl

  aligned : addr % 4096 ≡ 0
  aligned = omega (arith, tree.valid.aligned)

  kept :
      (s k : ℕ)
      → is_table (role s) ≡ true
      → k < 512
      → (slot t i == slot s k) ≡ false
      → linked (slot s k) ≡ m.mem (slot s k)
  kept s k h hk apart =
      let (s_aligned, pos, small) = table_place tree s h in
      let other = fresh s h in
      rw apart (
        clear_table-miss 512 addr 0 (slot s k) m.mem (λ l lo hi e.
          absurd
            (ground (arith, (slot_apart s addr k l s_aligned aligned hk (omega arith) (sym e)).0))))

  cleared : (k : ℕ) → k < 512 → linked (slot addr k) ≡ 0
  cleared k hk =
      let t_table = interior-table (role t) inside in
      let (t_aligned, pos, small) = table_place tree t t_table in
      let other = fresh t t_table in
      let apart : (slot t i == slot addr k) ≡ false = elim (Bool-cases (slot t i == slot addr k)) [
        | inr distinct ↦ distinct
        | inl same ↦
            absurd
              (ground (arith, (slot_apart addr t k i aligned t_aligned hk lt (ground arith)).0))
      ] in
      rw apart (clear_table-hit 512 addr 0 k m.mem (omega arith) (omega arith))

  moved :
      {r : Role} {k entry : ℕ} → is_interior r ≡ true → Link role r k entry → Link grown r k entry
  moved h (free_entry f) = free_entry f
  moved {r} {k} h (child_entry c e child) =
      child_entry c e
        (same_role c (subst (λ x. is_table x ≡ true) (sym child) (child-table r k h)) ∙ child)

  new_entry : Link grown (role t) i (linked (slot t i))
  new_entry = child_entry addr (rw (==_refl (slot t i)) refl) (rw (==_refl addr) refl)

  old_table :
      (s k : ℕ) → is_interior (role s) ≡ true → k < 512 → Link grown (role s) k (linked (slot s k))
  old_table s k h hk = elim (Bool-cases (slot t i == slot s k)) [
    | inl same ↦
        let (s_aligned, pos, small) = table_place tree s (interior-table (role s) h) in
        let (t_aligned, pos', small') = table_place tree t (interior-table (role t) inside) in
        let (e, f) = slot_apart s t k i s_aligned t_aligned hk lt (ground arith) in
        subst (λ x. Link grown (role x) k (linked (slot x k))) e
          (subst (λ y. Link grown (role t) y (linked (slot t y))) f new_entry)
    | inr apart ↦
        subst (λ x. Link grown (role s) k x) (sym (kept s k (interior-table (role s) h) hk apart))
          (moved h (tree.links s h k hk))
  ]

  links :
      (s k : ℕ)
      → is_interior (grown s) ≡ true
      → k < 512
      → Link grown (grown s) k (linked (slot s k))
  links s k h hk = elim (Bool-cases (addr == s)) [
    | inl same ↦
        let e : addr ≡ s = ground arith in
        free_entry
          (subst (λ x. (bit_and (linked (slot x k)) 1 == 0) ≡ true) e (rw (cleared k hk) refl))
    | inr other ↦
        let e : grown s ≡ role s = rw other refl in
        subst (λ r. Link grown r k (linked (slot s k))) (sym e)
          (old_table s k (subst (λ r. is_interior r ≡ true) e h) hk)
  ]

  owned :
      (s : ℕ)
      → is_table (grown s) ≡ true
      → (j : ℕ) × (j < q.total_frames) × (s ≡ frame_address q j) × (used q.bitmap j ≡ true)
  owned s h = elim (Bool-cases (addr == s)) [
    | inl same ↦ (idx, omega arith, ground arith, ground (arith, marks idx))
    | inr other ↦
        let e : grown s ≡ role s = rw other refl in
        let (j, inner, place, set) = tree.owned s (subst (λ r. is_table r ≡ true) e h) in
        (j, omega arith, omega arith, ground (arith, marks j))
  ]

  linked_entry : IsLinked m (record m { pmm = q; mem = linked }) (slot t i)
  linked_entry = record {
    was_free = vacant;
    child = addr;
    entry = rw (==_refl (slot t i)) refl;
    small = omega (arith, tree.valid.within);
    aligned = aligned;
    cleared = cleared;
  }

  interior :
      (s k : ℕ)
      → is_interior (role s) ≡ true
      → k < 512
      → (linked (slot s k) ≡ m.mem (slot s k))
        ⊎ IsLinked m (record m { pmm = q; mem = linked }) (slot s k)
  interior s k h hk = elim (Bool-cases (slot t i == slot s k)) [
    | inr apart ↦ inl (kept s k (interior-table (role s) h) hk apart)
    | inl same ↦
        let e : slot t i ≡ slot s k = ground arith in
        inr (subst (IsLinked m (record m { pmm = q; mem = linked })) e linked_entry)
  ]

  pages : (s k : ℕ) {a b : ℕ} → role s ≡ level3 a b → k < 512 → linked (slot s k) ≡ m.mem (slot s k)
  pages s k r hk =
      let table : is_table (role s) ≡ true = rw r refl in
      kept s k table hk (elim (Bool-cases (slot t i == slot s k)) [
        | inr apart ↦ apart
        | inl same ↦
            let p = table_place tree s table in
            let q = table_place tree t (interior-table (role t) inside) in
            let e = slot_apart s t k i p.0 q.0 hk lt (ground arith) in
            absurd (false≢true (sym (ap is_interior (ap role (e.0) ∙ r)) ∙ inside))
      ])

  walks :
      (virt : ℕ)
      → virt < 2 ^ 64
      → translate (record m { pmm = q; mem = linked }) virt ≡ translate m virt
  walks virt small =
      translate-follows m (record m { pmm = q; mem = linked }) role tree virt small interior
        (λ s r. pages s (l3_index virt) r (index_lt _ (omega arith))) refl

  extends : Extends m role (record m { pmm = q; mem = linked }) grown
  extends = record {
    root = refl;
    grows = record { start = start; total = count; still = λ j h. ground (arith, marks j) };
    takes = λ s h. elim (Bool-cases (addr == s)) [
      | inl same ↦ inr (idx, below, ground arith, free)
      | inr other ↦
          let e : grown s ≡ role s = rw other refl in inl (subst (λ r. is_table r ≡ true) e h)
    ];
  }

  pub link-Got : Got m role tree t i (addr, record m { pmm = q; mem = linked })
  link-Got =
      got grown
        (record {
          valid = sound;
          top = same_role m.l1_table (rw tree.top refl) ∙ tree.top;
          owned = owned;
          links = λ s h k hk. links s k h hk;
        })
        (omega (arith, tree.valid.nonzero)) extends (rw (==_refl addr) refl)
        (rw (==_refl (slot t i)) refl) same_role kept walks
