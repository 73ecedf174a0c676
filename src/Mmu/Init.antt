-- ===== src/Mmu/Init.antt =====
-- `mmu_init` of src/mmu/mmu_pi3.cpp and src/mmu/mmu_pi5.cpp. The address `__kernel_end`, what
-- the memory holds at the bitmap and the value of `SCTLR_EL1` are arguments; the endless loop
-- without memory for the first table is a panic.
use kehinde_kernel.Prelude.{ℕ, ◌*◌, ◌^◌, ◌==◌, if◌then◌else◌, ◌∷◌}
use kehinde_kernel.Bits.{bit_or, bit, sub64}
use kehinde_kernel.Run.{Run, ok, panic, ◌>>=◌}
use kehinde_kernel.Board.{Board, board_pi3, board_pi5}
use kehinde_kernel.Pmm.{Pmm, phys_mem_end, pmm_init, alloc_frame}
use kehinde_kernel.Mmu.{
  Mmu, dsb_ish, isb, tlbi_vmalle1, msr_mair, msr_tcr, msr_ttbr0, msr_sctlr, clear_table, map,
  pte_normal_rw, pte_device_rw,
}

-- The value for `MAIR_EL1`.
abbrev pub mair : ℕ
mair = bit_or (bit_or 0xFF (0x00 * 2 ^ 8)) (0x04 * 2 ^ 16)

-- The value for `TCR_EL1`, given the size of physical addresses.
abbrev pub tcr : ℕ → ℕ
tcr ips =
    bit_or
      (bit_or (bit_or (bit_or (bit_or (bit_or 25 (bit 8)) (bit 10)) (3 * 2 ^ 12)) (0 * 2 ^ 14))
        (bit 23))
      (ips * 2 ^ 32)

-- The call of `alloc_frame` and the clearing of the table it gives.
unfoldable pub first_table : Mmu → ℕ × Pmm → Run Mmu
first_table m (table, pmm) =
    if table == 0
    then panic
    else ok (record m { pmm = pmm; mem = clear_table 512 table 0 m.mem; l1_table = table })

-- The barriers and the write of `TTBR0_EL1`.
abbrev pub install : Mmu → Mmu
install m = record m {
  events = msr_ttbr0 m.l1_table ∷ isb ∷ dsb_ish ∷ tlbi_vmalle1 ∷ dsb_ish ∷ m.events;
}

-- The five calls of `map`.
unfoldable pub map_regions : Board → ℕ → ℕ → Mmu → Mmu
map_regions board peripheral_size local_size m =
    let start = m.pmm.phys_mem_start in
    let low = map 0 0 0x0008_0000 pte_normal_rw m in
    let kernel = map 0x0008_0000 0x0008_0000 (sub64 start 0x80000) pte_normal_rw low in
    let free = map start start (sub64 phys_mem_end start) pte_normal_rw kernel in
    let peripherals =
      map board.peripheral_base board.peripheral_base peripheral_size pte_device_rw free in
    map board.local_peripheral_base board.local_peripheral_base local_size pte_device_rw peripherals

-- The part that the boards share.
unfoldable pub init_with : Board → ℕ → ℕ → ℕ → ℕ → (ℕ → ℕ) → ℕ → Mmu → Run Mmu
init_with board ips peripheral_size local_size kernel_end memory sctlr m = do
  m1 ←
      first_table (record m { events = msr_tcr (tcr ips) ∷ msr_mair mair ∷ m.events })
        (alloc_frame (pmm_init kernel_end memory))
  let m2 = map_regions board peripheral_size local_size (install m1)
  ok (record m2 {
    events = isb ∷ msr_sctlr (bit_or (bit_or (bit_or sctlr (bit 0)) (bit 2)) (bit 12)) ∷ m2.events;
  })

-- `mmu_init` of mmu_pi3.cpp.
unfoldable pub mmu_init_pi3 : ℕ → (ℕ → ℕ) → ℕ → Mmu → Run Mmu
mmu_init_pi3 = init_with board_pi3 1 0x0100_0000 0x0000_1000

-- `mmu_init` of mmu_pi5.cpp.
unfoldable pub mmu_init_pi5 : ℕ → (ℕ → ℕ) → ℕ → Mmu → Run Mmu
mmu_init_pi5 = init_with board_pi5 2 0x41_0000 0x8000
