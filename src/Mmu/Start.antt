-- ===== src/Mmu/Start.antt =====
-- The first table, as `mmu_init` of src/mmu/mmu_pi3.cpp and src/mmu/mmu_pi5.cpp sets it up.
use kehinde_kernel.Prelude.{
  ℕ, ◌/◌, ◌^◌, ◌<◌, ◌≡◌, refl, sym, ap, ◌∙◌, arith, ◌==◌, ==_refl, true, false, Bool-cases, inl,
  inr, update, subst,
}
use mathlib.Core.Bool.{false≢true}
use kehinde_kernel.Bits.{bit_and, all_ones}
use kehinde_kernel.Run.{ok}
use kehinde_kernel.Pmm.{Pmm, alloc_frame}
use kehinde_kernel.Pmm.Frames.{used, IsValid}
use kehinde_kernel.Pmm.Alloc.{
  Allocated, exhausted, granted, alloc_frame-Allocated, Allocated-IsValid,
}
use kehinde_kernel.Mmu.{Mmu, slot, clear_table, l1_index, translate}
use kehinde_kernel.Mmu.Walk.{translate_lem, free-is_valid}
use kehinde_kernel.Mmu.Follow.{index_lt}
use kehinde_kernel.Mmu.Init.{first_table}
use kehinde_kernel.Mmu.Tables.{
  Role, unused, level1, level2, child_of, is_interior, is_table, interior-table, Link, free_entry,
  child_entry, IsTree, clear_table-hit,
}

-- Only the first table is there.
abbrev pub only_first : ℕ → ℕ → Role
only_first l1 = update (λ _. unused) l1 level1

only_first_lem : (l1 t : ℕ) → is_table (only_first l1 t) ≡ true → l1 ≡ t
only_first_lem l1 t h = elim (Bool-cases (l1 == t)) [
  | inl same ↦ ground arith
  | inr other ↦
      absurd
        (let e : only_first l1 t ≡ unused = rw other refl in let f = sym (ap is_table e) ∙ h in cc)
]

started-IsTree :
    (m : Mmu) (p : Pmm)
    → IsValid p
    → {r : ℕ × Pmm} → Allocated p r
    → {m' : Mmu} → first_table m r ≡ ok m'
    → IsTree m' (only_first m'.l1_table)
unfolding first_table
started-IsTree m p v (exhausted z e all_used) h = absurd (let f = rw z at h in cc)
started-IsTree m p v (granted {addr} {q} idx at st tot below free before marks fits) {m'} h =
    let nonzero : (addr == 0) ≡ false = ground (arith, v.nonzero) in
    let fresh : Mmu = record m { pmm = q; mem = clear_table 512 addr 0 m.mem; l1_table = addr } in
    let same : fresh ≡ m' = (let f : ok fresh ≡ ok m' = (rw nonzero at h) in cc) in
    subst (λ x. IsTree x (only_first x.l1_table)) same
      (record {
        valid = Allocated-IsValid v (granted idx at st tot below free before marks fits);
        top = rw (==_refl addr) refl;
        owned = λ t h'.
            let e = only_first_lem addr t h' in
            (idx, omega arith, omega arith, ground (arith, marks idx));
        links = λ t h' i hi.
            let e = only_first_lem addr t (interior-table (only_first addr t) h') in
            free_entry (
              subst (λ x. (bit_and (clear_table 512 addr 0 m.mem (slot x i)) 1 == 0) ≡ true) e
                (rw (clear_table-hit 512 addr 0 i m.mem (omega arith) (omega arith)) refl));
      })

-- When the frame allocator is valid and has a frame, the first table of `mmu_init` is the root of a
-- well-formed tree of tables, in which it is the only one.
pub first_table-IsTree :
    (m : Mmu) (p : Pmm) {m' : Mmu}
    → IsValid p
    → first_table m (alloc_frame p) ≡ ok m'
    → IsTree m' (only_first m'.l1_table)
first_table-IsTree m p v h = started-IsTree m p v (alloc_frame-Allocated p v) h

-- The first table leads nowhere.
pub only_first-unmapped :
    (m : Mmu)
    → IsTree m (only_first m.l1_table)
    → (virt : ℕ) → virt < 2 ^ 64
    → translate m virt ≡ all_ones
only_first-unmapped m tree virt small =
    let lt = index_lt (virt / 2 ^ 30) (omega arith) in
    let top : is_interior (only_first m.l1_table m.l1_table) ≡ true = rw tree.top refl in
    free_end (tree.links m.l1_table top (l1_index virt) lt)
  where
    absent : (c i : ℕ) → only_first m.l1_table c ≡ level2 i → ⊥
    absent c i e = elim (Bool-cases (m.l1_table == c)) [
      | inl same ↦
          (let f : only_first m.l1_table c ≡ level1 = rw same refl in let g = sym f ∙ e in cc)
      | inr other ↦
          (let f : only_first m.l1_table c ≡ unused = rw other refl in let g = sym f ∙ e in cc)
    ]

    free_end :
        Link
          (only_first m.l1_table)
          (only_first m.l1_table m.l1_table)
          (l1_index virt)
          (m.mem (slot m.l1_table (l1_index virt)))
        → translate m virt ≡ all_ones
    free_end (free_entry f) = translate_lem m virt ∙ rw (free-is_valid _ f) refl
    free_end (child_entry c e r) =
        absurd (absent c (l1_index virt) (r ∙ ap (λ x. child_of x (l1_index virt)) tree.top))

first_of :
    (m : Mmu) (p : Pmm)
    → IsValid p
    → 0 < p.total_frames
    → ((j : ℕ) → j < p.total_frames → used p.bitmap j ≡ false)
    → {r : ℕ × Pmm} → Allocated p r
    → (m' : Mmu) × (first_table m r ≡ ok m') × (m'.pmm.phys_mem_start ≡ p.phys_mem_start)
unfolding first_table
first_of m p v some_frame free (exhausted z same all_used) =
    absurd (false≢true (sym (free 0 some_frame) ∙ all_used 0 some_frame))
first_of m p v some_frame free
      (granted {addr} {q} idx at st tot below unused_before before marks fits) =
    let nonzero : (addr == 0) ≡ false = ground (arith, v.nonzero) in
    (record m { pmm = q; mem = clear_table 512 addr 0 m.mem; l1_table = addr }, rw nonzero refl, st)

-- A valid allocator with every frame free gives the first table.
pub first_table_started :
    (m : Mmu) (p : Pmm)
    → IsValid p
    → 0 < p.total_frames
    → ((j : ℕ) → j < p.total_frames → used p.bitmap j ≡ false)
    → (m' : Mmu) × (first_table m (alloc_frame p) ≡ ok m')
      × IsTree m' (only_first m'.l1_table)
      × (m'.pmm.phys_mem_start ≡ p.phys_mem_start)
first_table_started m p v some_frame free =
    let (m', runs, start) = first_of m p v some_frame free (alloc_frame-Allocated p v) in
    (m', runs, first_table-IsTree m p v runs, start)
