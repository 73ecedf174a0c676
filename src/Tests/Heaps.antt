-- ===== src/Tests/Heaps.antt =====
-- src/heap_alloc/heap_alloc.cpp: the first allocation of 100 bytes.
use kehinde_kernel.Prelude.{ℕ, ◌≡◌, ◌⊎◌, refl, List, [], ◌∷◌, arith}
use kehinde_kernel.Run.{ok, panic}
use kehinde_kernel.Heap.{Heap, kheap_init, kmalloc}
use kehinde_kernel.Mmu.Start.{only_first}
use kehinde_kernel.Heap.Backing.{IsBacked-none}
use kehinde_kernel.Heap.Rounds.{every_page}
use kehinde_kernel.Heap.Isolation.{Isolated, kmalloc-Isolated}
use kehinde_kernel.Heap.Sequence.{
  Allocations, allocate_all, allocate_all-Allocations, kheap_init-IsHeap,
}
use kehinde_kernel.Tests.Pages.{first, first_tree}
use kehinde_kernel.Heap.Alloc.{
  KmallocOutcome, kmalloc-KmallocOutcome, kmalloc-ReturnsOrPanics, kheap_init-IsValid,
}

abbrev before_boot : Heap
before_boot = record {
  bump_ptr = 0;
  heap_end = 0;
  mmu = record {
    pmm = record {
      bitmap_addr = 0xF_0000;
      bitmap = λ _. 0;
      phys_mem_start = 0x10_0000;
      total_frames = 64;
    };
    mem = λ _. 0;
    l1_table = 0x9000_0000;
    events = [];
  };
}

kmalloc-KmallocOutcome_example :
    KmallocOutcome (kheap_init before_boot) 100 (kmalloc 100 (kheap_init before_boot))
unfolding kheap_init
kmalloc-KmallocOutcome_example =
    kmalloc-KmallocOutcome (kheap_init before_boot) 100 (kheap_init-IsValid before_boot)
      (omega arith)

kmalloc-ReturnsOrPanics_example :
    (kmalloc 100 before_boot ≡ panic) ⊎ ((r : ℕ × Heap) × (kmalloc 100 before_boot ≡ ok r))
kmalloc-ReturnsOrPanics_example = kmalloc-ReturnsOrPanics 100 before_boot

-- The heap over the first table.
abbrev mapped_heap : Heap
mapped_heap = kheap_init (record { bump_ptr = 0; heap_end = 0; mmu = first })

kmalloc-Isolated_example : Isolated mapped_heap 0 100 (kmalloc 100 mapped_heap)
unfolding kheap_init
kmalloc-Isolated_example =
    kmalloc-Isolated mapped_heap 0 100
      (kheap_init-IsValid (record { bump_ptr = 0; heap_end = 0; mmu = first })) (omega arith) refl
      (every_page (IsBacked-none (only_first first.l1_table) first_tree))

abbrev sizes : List ℕ
sizes = 100 ∷ 24 ∷ 5000 ∷ []

allocate_all-Allocations_example : Allocations mapped_heap sizes (allocate_all sizes mapped_heap)
allocate_all-Allocations_example =
    allocate_all-Allocations mapped_heap 0 sizes
      (kheap_init-IsHeap (record { bump_ptr = 0; heap_end = 0; mmu = first })
        (only_first first.l1_table) first_tree)
      (omega arith)
