-- ===== src/Tests/Frames.antt =====
-- src/pmm/pmm.cpp after the boot of a kernel that ends at 0x3F70_0000.
use kehinde_kernel.Prelude.{
  ℕ, ◌+◌, ◌*◌, ◌/◌, ◌<◌, ◌≤◌, ◌≡◌, ◌≢◌, refl, true, false, not, ◌&&◌, ◌==◌, arith, update,
}
use kehinde_kernel.Pmm.{
  Pmm, round_up, pmm_init, mark_tail, clear_words, alloc_scan, hand_out, alloc_frame, free_frame,
}
use kehinde_kernel.Bits.Single.{ctz}
use kehinde_kernel.Pmm.Frames.{used, IsValid}
use kehinde_kernel.Pmm.Alloc.{Allocated, alloc_frame-Allocated, alloc_frame-IsValid}
use kehinde_kernel.Pmm.Free.{frame_address, free_frame-used, free_frame_ignored, free_frame-IsValid}
use kehinde_kernel.Pmm.Init.{pmm_init-IsValid, pmm_init-bitmap_apart}
use kehinde_kernel.Pmm.Ownership.{start, allocates, alloc_frame_exclusive}

abbrev booted : Pmm
booted = pmm_init 0x3F70_0000 (λ _. 0)

pmm_init-IsValid_example :
    IsValid booted × ((j : ℕ) → j < booted.total_frames → used booted.bitmap j ≡ false)
pmm_init-IsValid_example = pmm_init-IsValid 0x3F70_0000 (λ _. 0) (omega arith) (λ i. omega arith)

booted-IsValid : IsValid booted
booted-IsValid =
    let (v, free) = pmm_init-IsValid 0x3F70_0000 (λ _. 0) (omega arith) (λ i. omega arith) in v

alloc_frame-Allocated_example : Allocated booted (alloc_frame booted)
alloc_frame-Allocated_example = alloc_frame-Allocated booted booted-IsValid

free_frame-IsValid_example : IsValid (free_frame (alloc_frame booted).1 0x3F70_1000)
free_frame-IsValid_example =
    free_frame-IsValid (alloc_frame booted).1 (alloc_frame-IsValid booted booted-IsValid)
      0x3F70_1000

has_frames : 3 < booted.total_frames
unfolding pmm_init round_up
has_frames = omega arith

free_frame-used_example :
    used (free_frame booted 0x3F70_1000).bitmap 3
    ≡ (used booted.bitmap 3 && not (0x3F70_1000 == frame_address booted 3))
free_frame-used_example = free_frame-used booted booted-IsValid 0x3F70_1000 3 has_frames

free_frame_ignored_example : free_frame booted 0x3F70_1000 ≡ booted
free_frame_ignored_example = free_frame_ignored booted booted-IsValid 0x3F70_1000 all_free
  where
    all_free :
        (j : ℕ)
        → j < booted.total_frames
        → used booted.bitmap j ≡ true
        → 0x3F70_1000 ≢ frame_address booted j
    all_free j lt set =
        let (v, free) = pmm_init-IsValid_example in absurd (ground (arith, free j lt))

pmm_init-bitmap_apart_example :
    (0x3F70_0000 ≤ booted.bitmap_addr + 3 / 64 * 8)
    × (booted.bitmap_addr + 3 / 64 * 8 + 8 ≤ booted.phys_mem_start)
pmm_init-bitmap_apart_example =
    pmm_init-bitmap_apart 0x3F70_0000 (λ _. 0) 3 (omega arith) has_frames

unfoldable one_taken : Pmm
one_taken = (alloc_frame booted).1

first_allocates : 0 < (alloc_frame booted).0
unfolding pmm_init round_up mark_tail clear_words alloc_frame alloc_scan hand_out ctz
first_allocates = omega arith

second_allocates : 0 < (alloc_frame one_taken).0
unfolding one_taken pmm_init round_up mark_tail clear_words alloc_frame alloc_scan hand_out ctz
second_allocates = omega arith

alloc_frame_exclusive_example :
    update (λ _. false) (alloc_frame booted).0 true (alloc_frame one_taken).0 ≡ false
unfolding one_taken
alloc_frame_exclusive_example =
    alloc_frame_exclusive booted-IsValid (allocates start refl first_allocates) refl
      second_allocates
