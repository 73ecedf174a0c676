-- ===== src/Heap.antt =====
-- The bump allocator of the kernel heap, src/heap_alloc/heap_alloc.cpp and include/heap_alloc.h.
-- `kmalloc` works on the page tables through `alloc_frame` and `map`. The message that `panic`
-- prints before it halts is not part of the result.
pub mod Alloc
pub mod Backing
pub mod Rounds
pub mod Isolation
pub mod Sequence
use kehinde_kernel.Prelude.{
  ℕ, zero, suc, ◌+◌, ◌-◌, ◌*◌, ◌/◌, ◌%◌, ◌^◌, Bool, true, false, ◌==◌, ltb, if◌then◌else◌,
}
use kehinde_kernel.Bits.{bit_and, bit_not, u64}
use kehinde_kernel.Run.{Run, ok, panic, out_of_fuel, ◌>>=◌}
use kehinde_kernel.Pmm.{Pmm, page_size, alloc_frame}
use kehinde_kernel.Mmu.{Mmu, map, pte_normal_rw}

abbrev pub heap_base : ℕ
heap_base = 0x1_0000_0000

abbrev pub heap_max_size : ℕ
heap_max_size = 0x10_0000

pub record Heap : Type 0 where
  pub bump_ptr : ℕ
  pub heap_end : ℕ
  pub mmu : Mmu

-- `kheap_init`.
unfoldable pub kheap_init : Heap → Heap
kheap_init h = record h { bump_ptr = heap_base; heap_end = heap_base }

-- The round of the loop behind the call of `alloc_frame`.
unfoldable pub back_page : Heap → ℕ × Pmm → Run Heap
back_page h (pa, pmm) =
    if pa == 0
    then panic
    else ok (record h {
      mmu = map h.heap_end pa page_size pte_normal_rw (record h.mmu { pmm = pmm });
      heap_end = u64 (h.heap_end + page_size);
    })

-- The loop that maps frames until `required_end` is backed, in at most `fuel` rounds.
unfoldable pub back_until : ℕ → ℕ → Heap → Run Heap
back_until zero required_end h = if ltb h.heap_end required_end then out_of_fuel else ok h
back_until (suc fuel) required_end h =
    let rest = back_page h (alloc_frame h.mmu.pmm) >>= λ h'. back_until fuel required_end h' in
    if ltb h.heap_end required_end then rest else ok h

-- `size` rounded up to a multiple of 16.
unfoldable pub align_up : ℕ → ℕ
align_up size = bit_and (u64 (size + 15)) (bit_not 15)

-- `kmalloc`. Each round of its loop takes `heap_end` closer to the end that is required.
unfoldable pub kmalloc : ℕ → Heap → Run (ℕ × Heap)
kmalloc size h =
    let aligned = align_up size in
    let required_end = u64 (h.bump_ptr + aligned) in
    if ltb (heap_base + heap_max_size) required_end then panic else do
      h' ← back_until (required_end - h.heap_end) required_end h
      ok (h'.bump_ptr, record h' { bump_ptr = u64 (h'.bump_ptr + aligned) })
