-- ===== src/Mmu/Regions.antt =====
-- `mmu_init` of src/mmu/mmu_pi3.cpp and src/mmu/mmu_pi5.cpp: where the memory leads afterwards.
use kehinde_kernel.Prelude.{
  ℕ, ◌+◌, ◌-◌, ◌%◌, ◌^◌, ◌≤◌, ◌<◌, ◌≡◌, inl, inr, ◌⊎◌, refl, sym, arith, List, ◌∷◌, subst, ltb,
  Bool-cases,
}
use kehinde_kernel.Bits.{sub64, bit_or, bit}
use kehinde_kernel.Run.{Run, ok, ◌>>=◌}
use kehinde_kernel.Board.{Board, board_pi3, board_pi5}
use kehinde_kernel.Pmm.{phys_mem_end, pmm_init}
use kehinde_kernel.Pmm.Init.{HasRoom, pmm_init-IsValid, pmm_init_place}
use kehinde_kernel.Mmu.{
  Mmu, Event, map, translate, pte_normal_rw, pte_device_rw, msr_mair, msr_tcr, msr_sctlr, isb,
}
use kehinde_kernel.Mmu.Tables.{IsTree}
use kehinde_kernel.Mmu.Init.{mair, tcr, install, map_regions, init_with, mmu_init_pi3, mmu_init_pi5}
use kehinde_kernel.Mmu.Start.{only_first, only_first-unmapped, first_table_started}
use kehinde_kernel.Mmu.Mapping.{with_events, with_events-IsTree}
use kehinde_kernel.Mmu.Identity.{IsFull, IsIdentity, IsGrown, map-IsGrown}

abbrev Within : ℕ → ℕ → ℕ → Type 0
Within base size virt = (base ≤ virt) × (virt < base + size)

-- The addresses that satisfy `P` lead to themselves, unless the frames ran out.
record Covers (m : Mmu) (P : ℕ → Type 0) : Type 0 where
  pub identity : IsIdentity m
  pub found : IsFull m.pmm ⊎ ((virt : ℕ) → virt < 2 ^ 39 → P virt → translate m virt ≡ virt)

Covers-map :
    (base size flags : ℕ) {m : Mmu} {P : ℕ → Type 0}
    → base % 4096 ≡ 0
    → size % 4096 ≡ 0
    → base + size ≤ 2 ^ 39
    → flags < 4096
    → Covers m P
    → Covers (map base base size flags m) (λ virt. P virt ⊎ Within base size virt)
Covers-map base size flags {m} {P} base_paged size_paged inside small c =
    let g = map-IsGrown base size flags m c.identity base_paged size_paged inside small in
    record { identity = g.identity; found = join g c.found g.covers }
  where
    join :
        IsGrown m (map base base size flags m) base size
        → IsFull m.pmm ⊎ ((virt : ℕ) → virt < 2 ^ 39 → P virt → translate m virt ≡ virt)
        → IsFull (map base base size flags m).pmm
          ⊎ ((virt : ℕ)
              → base ≤ virt
              → virt < base + size
              → translate (map base base size flags m) virt ≡ virt)
        → IsFull (map base base size flags m).pmm
          ⊎ ((virt : ℕ)
              → virt < 2 ^ 39
              → P virt ⊎ Within base size virt
              → translate (map base base size flags m) virt ≡ virt)
    join g (inl full) new = inl (g.full full)
    join g (inr old) (inl full) = inl full
    join g (inr old) (inr new) = inr (λ virt lt where_to. elim where_to [
      | inl before ↦ g.kept virt lt (old virt lt before)
      | inr (lo, hi) ↦ new virt lo hi
    ])

Covers-weaker :
    {m : Mmu} {P Q : ℕ → Type 0} → Covers m P → ((virt : ℕ) → Q virt → P virt) → Covers m Q
Covers-weaker c weaker = record {
  identity = c.identity;
  found = elim (c.found) [
    | inl full ↦ inl full
    | inr all ↦ inr (λ virt lt q. all virt lt (weaker virt q))
  ];
}

-- RAM, the peripherals of the board and its local peripherals.
abbrev pub InRegion : Board → ℕ → ℕ → ℕ → Type 0
InRegion board peripheral_size local_size virt =
    (virt < phys_mem_end)
    ⊎ Within board.peripheral_base peripheral_size virt
    ⊎ Within board.local_peripheral_base local_size virt

-- What `mmu_init` comes to.
pub data Inited (board : Board) (peripheral_size local_size : ℕ) : Run Mmu → Type 0 where
  inited :
      {m : Mmu}
      → IsIdentity m
      → (IsFull m.pmm
          ⊎ ((virt : ℕ)
              → virt < 2 ^ 39
              → InRegion board peripheral_size local_size virt
              → translate m virt ≡ virt))
      → Inited board peripheral_size local_size (ok m)

abbrev switch_on : ℕ → Mmu → Run Mmu
switch_on sctlr m = ok (record m {
  events = isb ∷ msr_sctlr (bit_or (bit_or (bit_or sctlr (bit 0)) (bit 2)) (bit 12)) ∷ m.events;
})

with_events-Inited :
    {board : Board} {ps ls : ℕ} (m : Mmu) (events : List Event)
    → Covers m (InRegion board ps ls)
    → Inited board ps ls (ok (with_events m events))
unfolding translate
with_events-Inited m events c =
    inited
      (record {
        role = c.identity.role;
        tree = with_events-IsTree m c.identity.role events c.identity.tree;
        walks = c.identity.walks;
      })
      c.found

module _ (board : Board) (ps ls : ℕ) (p_paged : board.peripheral_base % 4096 ≡ 0)
    (l_paged : board.local_peripheral_base % 4096 ≡ 0) (ps_paged : ps % 4096 ≡ 0)
    (ls_paged : ls % 4096 ≡ 0) (p_inside : board.peripheral_base + ps ≤ 2 ^ 39)
    (l_inside : board.local_peripheral_base + ls ≤ 2 ^ 39) where
  map_regions-Covers :
      (m : Mmu)
      → IsTree m (only_first m.l1_table)
      → m.pmm.phys_mem_start % 4096 ≡ 0
      → 0x8_0000 ≤ m.pmm.phys_mem_start
      → m.pmm.phys_mem_start ≤ phys_mem_end
      → Covers (map_regions board ps ls m) (InRegion board ps ls)
  unfolding map_regions
  map_regions-Covers m tree paged lo hi =
      let start = m.pmm.phys_mem_start in
      let kernel : sub64 start 0x8_0000 ≡ start - 0x8_0000 = omega arith in
      let free : sub64 phys_mem_end start ≡ phys_mem_end - start = omega arith in
      let empty : Covers m (λ _. ⊥) = record {
        identity = record {
          role = only_first m.l1_table;
          tree = tree;
          walks = λ virt lt. inr (only_first-unmapped m tree virt (omega arith));
        };
        found = inr (λ virt lt none_there. absurd none_there);
      } in
      Covers-weaker
        (Covers-map board.local_peripheral_base ls pte_device_rw l_paged ls_paged l_inside
          (omega arith)
          (Covers-map board.peripheral_base ps pte_device_rw p_paged ps_paged p_inside (omega arith)
            (Covers-map start (sub64 phys_mem_end start) pte_normal_rw paged (omega arith)
              (omega arith) (omega arith)
              (Covers-map 0x8_0000 (sub64 start 0x8_0000) pte_normal_rw refl (omega arith)
                (omega arith) (omega arith)
                (Covers-map 0 0x8_0000 pte_normal_rw refl refl (omega arith) (omega arith)
                  empty)))))
        (λ virt place. elim place [
          | inl ram ↦ elim (Bool-cases (ltb virt 0x8_0000)) [
            | inl below ↦ inl (inl (inl (inl (inr (omega arith, ground arith)))))
            | inr above ↦ elim (Bool-cases (ltb virt start)) [
              | inl image ↦ inl (inl (inl (inr (ground arith, ground arith))))
              | inr frames ↦ inl (inl (inr (ground arith, omega arith)))
            ]
          ]
          | inr (inl peripheral) ↦ inl (inr peripheral)
          | inr (inr local) ↦ inr local
        ])

  init_with-Inited :
      (ips kernel_end : ℕ) (memory : ℕ → ℕ) (sctlr : ℕ) (m : Mmu)
      → HasRoom kernel_end
      → 0x8_0000 ≤ kernel_end
      → ((i : ℕ) → memory i < 2 ^ 64)
      → Inited board ps ls (init_with board ips ps ls kernel_end memory sctlr m)
  unfolding init_with
  init_with-Inited ips kernel_end memory sctlr m room behind fits =
      let p = pmm_init kernel_end memory in
      let (v, free) = pmm_init-IsValid kernel_end memory room fits in
      let (place, some_frame) = pmm_init_place kernel_end memory room in
      let prepared = with_events m (msr_tcr (tcr ips) ∷ msr_mair mair ∷ m.events) in
      let (m1, runs, tree, start) = first_table_started prepared p v some_frame free in
      let begun = install m1 in
      let start_paged : m1.pmm.phys_mem_start % 4096 ≡ 0 = omega (arith, v.aligned) in
      let start_within : m1.pmm.phys_mem_start ≤ phys_mem_end = omega (arith, v.within) in
      let covers =
        map_regions-Covers begun (with_events-IsTree m1 (only_first m1.l1_table) begun.events tree)
          start_paged (omega arith) start_within in
      subst
        (λ r.
          Inited board ps ls (r >>= λ m1'. switch_on sctlr (map_regions board ps ls (install m1'))))
        (sym runs) (with_events-Inited (map_regions board ps ls begun) _ covers)

-- When the kernel image ends behind 0x8_0000 and leaves 64 KiB below the end of memory, `mmu_init`
-- of the Pi 3 and that of the Pi 5 return, whatever the bitmap's memory held. Afterwards the tables
-- are a tree, every address below `2 ^ 39` leads to itself or nowhere, and either no frame is left
-- or every address of RAM, of the board's peripherals and of its local peripherals leads to itself.
pub mmu_init-Inited :
    (kernel_end : ℕ) (memory : ℕ → ℕ) (sctlr : ℕ) (m : Mmu)
    → HasRoom kernel_end
    → 0x8_0000 ≤ kernel_end
    → ((i : ℕ) → memory i < 2 ^ 64)
    → Inited board_pi3 0x0100_0000 0x0000_1000 (mmu_init_pi3 kernel_end memory sctlr m)
      × Inited board_pi5 0x41_0000 0x8000 (mmu_init_pi5 kernel_end memory sctlr m)
unfolding mmu_init_pi3 mmu_init_pi5 board_pi3 board_pi5
mmu_init-Inited kernel_end memory sctlr m room behind fits = (
  init_with-Inited board_pi3 0x0100_0000 0x0000_1000 refl refl refl refl (omega arith) (omega arith)
      1 kernel_end memory sctlr m room behind fits,
  init_with-Inited board_pi5 0x41_0000 0x8000 refl refl refl refl (omega arith) (omega arith) 2
      kernel_end memory sctlr m room behind fits,
)
