-- ===== src/Heap/Sequence.antt =====
-- Successive calls of `kmalloc` of src/heap_alloc/heap_alloc.cpp, on the tables that `mmu_init` of
-- src/mmu/mmu_pi3.cpp or src/mmu/mmu_pi5.cpp leaves.
use kehinde_kernel.Prelude.{
  ℕ, ◌+◌, ◌*◌, ◌%◌, ◌^◌, ◌≤◌, ◌<◌, ◌≡◌, inl, inr, ◌⊎◌, refl, ◌∙◌, arith, List, [], ◌∷◌, subst,
}
use kehinde_kernel.Run.{Run, ok, panic, ◌>>=◌}
use kehinde_kernel.Pmm.{page_size}
use kehinde_kernel.Mmu.{Mmu, translate}
use kehinde_kernel.Mmu.Tables.{Role, IsTree}
use kehinde_kernel.Heap.{Heap, heap_base, heap_max_size, kheap_init, kmalloc}
use kehinde_kernel.Heap.Alloc.{
  IsValid, KmallocOutcome, no_room, allocated, kmalloc-KmallocOutcome, kheap_init-IsValid,
}
use kehinde_kernel.Heap.Backing.{IsBacked-none}
use kehinde_kernel.Heap.Rounds.{Backing, every_page, IsElsewhere}
use kehinde_kernel.Heap.Isolation.{Isolated, panics, returns, kmalloc-Isolated}

-- One call for each size: the pointers in order.
unfoldable pub allocate_all : List ℕ → Heap → Run (List ℕ × Heap)
allocate_all [] h = ok ([], h)
allocate_all (size ∷ sizes) h = do
  (p, h1) ← kmalloc size h
  (ps, h2) ← allocate_all sizes h1
  ok (p ∷ ps, h2)

-- Each pointer is aligned and stands behind the bytes of the one before, from `lo` up to `hi`.
abbrev pub IsOrdered : ℕ → List ℕ → List ℕ → ℕ → Type 0
IsOrdered lo [] [] hi = lo ≤ hi
IsOrdered lo [] (size ∷ sizes) hi = ⊥
IsOrdered lo (p ∷ ps) [] hi = ⊥
IsOrdered lo (p ∷ ps) (size ∷ sizes) hi = (lo ≤ p) × (p % 16 ≡ 0) × IsOrdered (p + size) ps sizes hi

abbrev pub AreSizes : List ℕ → Type 0
AreSizes [] = Unit {0}
AreSizes (size ∷ sizes) = (size < 2 ^ 63) × AreSizes sizes

-- A valid heap of `n` pages on the tables.
pub record IsHeap (h : Heap) (n : ℕ) : Type 0 where
  pub valid : IsValid h
  pub ends : h.heap_end ≡ heap_base + n * page_size
  pub backing : Backing h.mmu n

-- The translations outside the window of the heap are kept.
abbrev pub IsKept : Mmu → Mmu → Type 0
IsKept m m' =
    (virt : ℕ)
    → virt < 2 ^ 39
    → (virt < heap_base) ⊎ (heap_base + heap_max_size ≤ virt)
    → translate m' virt ≡ translate m virt

-- What the calls come to.
pub data Allocations (h : Heap) (sizes : List ℕ) : Run (List ℕ × Heap) → Type 0 where
  exhausted : Allocations h sizes panic
  pointers :
      {ps : List ℕ} {h' : Heap} (n' : ℕ)
      → IsOrdered h.bump_ptr ps sizes h'.bump_ptr
      → IsHeap h' n'
      → IsKept h.mmu h'.mmu
      → Allocations h sizes (ok (ps, h'))

-- One call.
pub data Call (h : Heap) (size : ℕ) : Run (ℕ × Heap) → Type 0 where
  refused : Call h size panic
  given :
      {h' : Heap} (n' : ℕ)
      → h.bump_ptr % 16 ≡ 0
      → h.bump_ptr + size ≤ h'.bump_ptr
      → IsHeap h' n'
      → IsKept h.mmu h'.mmu
      → Call h size (ok (h.bump_ptr, h'))

module _ (h : Heap) (n size : ℕ) where
  Isolated-ok :
      {r : Run (ℕ × Heap)} {p : ℕ} {h' : Heap}
      → Isolated h n size r
      → r ≡ ok (p, h')
      → (n' : ℕ) × (h'.heap_end ≡ heap_base + n' * page_size)
        × Backing h'.mmu n'
        × IsElsewhere h.mmu n h'.mmu n'
  Isolated-ok {r} {p} {h'} panics e = cc
  Isolated-ok {r} {p} {h'} (returns {h' = h1} n' le covers ends backing elsewhere) e =
      let both : ◌≡◌ {A = Run (ℕ × Heap)} (ok (h.bump_ptr, h1)) (ok (p, h')) = e in
      let same : h1 ≡ h' = cc in
      subst
        (λ (x : Heap).
          (k : ℕ) × (x.heap_end ≡ heap_base + k * page_size)
          × Backing x.mmu k
          × IsElsewhere h.mmu n x.mmu k)
        same (n', ends, backing, elsewhere)

  joined :
      {r : Run (ℕ × Heap)}
      → h.heap_end ≡ heap_base + n * page_size
      → IsValid h
      → KmallocOutcome h size r
      → Isolated h n size r
      → Call h size r
  joined ends v (no_room short) i = refused
  joined ends v (allocated h' aligned above near valid) i =
      let (n', ends', backing, elsewhere) = Isolated-ok i refl in
      given n' aligned above (record { valid = valid; ends = ends'; backing = backing })
        (λ virt lt away. elsewhere virt lt (elim away [
          | inl below ↦ inl (omega arith)
          | inr beyond ↦ inr (omega (arith, valid.ends))
        ]))

  pub kmalloc-Call : IsHeap h n → size < 2 ^ 63 → Call h size (kmalloc size h)
  kmalloc-Call i small =
      let v = i.valid in
      joined i.ends v (kmalloc-KmallocOutcome h size v (omega (arith, v.backed, v.ends)))
        (kmalloc-Isolated h n size v (omega (arith, v.backed, v.ends)) i.ends i.backing)

IsOrdered-lower :
    {lo lo' : ℕ} (hi : ℕ) (ps sizes : List ℕ)
    → lo ≤ lo'
    → IsOrdered lo' ps sizes hi
    → IsOrdered lo ps sizes hi
IsOrdered-lower hi [] [] le o = omega arith
IsOrdered-lower hi [] (size ∷ sizes) le o = absurd o
IsOrdered-lower hi (p ∷ ps) [] le o = absurd o
IsOrdered-lower hi (p ∷ ps) (size ∷ sizes) le (above, aligned, rest) = (omega arith, aligned, rest)

one_more :
    {h h1 : Heap} {size : ℕ} {sizes : List ℕ} {r : Run (List ℕ × Heap)}
    → h.bump_ptr % 16 ≡ 0
    → h.bump_ptr + size ≤ h1.bump_ptr
    → IsKept h.mmu h1.mmu
    → Allocations h1 sizes r
    → Allocations h (size ∷ sizes) (r >>= λ (ps, h2). ok (h.bump_ptr ∷ ps, h2))
one_more aligned above kept exhausted = exhausted
one_more {h} {h1} {size} {sizes} aligned above kept (pointers {ps} {h'} n' ordered i kept') =
    pointers n' (omega arith, aligned, IsOrdered-lower h'.bump_ptr ps sizes above ordered) i
      (λ virt lt away. kept' virt lt away ∙ kept virt lt away)

following :
    (h : Heap) (size : ℕ) (sizes : List ℕ) {r : Run (ℕ × Heap)}
    → Call h size r
    → ((h1 : Heap) (n1 : ℕ) → IsHeap h1 n1 → Allocations h1 sizes (allocate_all sizes h1))
    → Allocations h
        (size ∷ sizes)
        (r >>= λ (p, h1). allocate_all sizes h1 >>= λ (ps, h2). ok (p ∷ ps, h2))
following h size sizes refused rest = exhausted
following h size sizes (given {h' = h1} n1 aligned above i kept) rest =
    one_more aligned above kept (rest h1 n1 i)

-- For any list of sizes below `2 ^ 63`, the calls of `kmalloc` one after the other on a valid heap
-- whose pages are backed panic, or return a pointer for each size: a multiple of 16 that stands at
-- or behind the end of the bytes handed out before, so that no two blocks overlap, the last within
-- the new bump pointer. The heap is valid and backed again, and no address of 39 bits outside the
-- heap's window leads elsewhere than before.
pub allocate_all-Allocations :
    (h : Heap) (n : ℕ) (sizes : List ℕ)
    → IsHeap h n
    → AreSizes sizes
    → Allocations h sizes (allocate_all sizes h)
unfolding allocate_all
allocate_all-Allocations h n [] i small = pointers n (omega arith) i (λ virt lt away. refl)
allocate_all-Allocations h n (size ∷ sizes) i (small, rest) =
    following h size sizes (kmalloc-Call h n size i small)
      (λ h1 n1 i1. allocate_all-Allocations h1 n1 sizes i1 rest)

-- `kheap_init` on a tree of tables.
pub kheap_init-IsHeap : (h : Heap) (role : ℕ → Role) → IsTree h.mmu role → IsHeap (kheap_init h) 0
unfolding kheap_init
kheap_init-IsHeap h role tree = record {
  valid = kheap_init-IsValid h;
  ends = refl;
  backing = every_page (IsBacked-none role tree);
}
