-- ===== src/Heap/Alloc.antt =====
-- What `kmalloc` of src/heap_alloc/heap_alloc.cpp returns.
use kehinde_kernel.Prelude.{
  ℕ, zero, suc, ◌+◌, ◌-◌, ◌*◌, ◌/◌, ◌%◌, ◌^◌, ◌≤◌, ◌<◌, ◌≡◌, refl, ◌∙◌, false, ltb, ◌==◌, arith,
  Bool-cases, ◌⊎◌, inl, inr,
}
use kehinde_kernel.Bits.{u64}
use kehinde_kernel.Bits.Single.{bit_and-high_mask}
use kehinde_kernel.Run.{Run, ok, panic, ◌>>=◌}
use kehinde_kernel.Pmm.{Pmm, page_size, alloc_frame}
use kehinde_kernel.Heap.{
  Heap, heap_base, heap_max_size, kheap_init, back_page, back_until, align_up, kmalloc,
}
use kehinde_kernel.Filesystem.File.Write.{ReturnsOrPanics}

-- The bump pointer is aligned and lies in the region that is backed, which ends at a page.
pub record IsValid (h : Heap) : Type 0 where
  pub starts : heap_base ≤ h.bump_ptr
  pub backed : h.bump_ptr ≤ h.heap_end
  pub ends : h.heap_end ≤ heap_base + heap_max_size
  pub aligned : h.bump_ptr % 16 ≡ 0
  pub paged : h.heap_end % page_size ≡ 0

pub align_up_lem : (size : ℕ) → size + 15 < 2 ^ 64 → align_up size ≡ (size + 15) / 16 * 16
unfolding align_up
align_up_lem size h =
    let e : u64 (size + 15) ≡ size + 15 = omega arith in
    rw e (bit_and-high_mask 4 60 (size + 15) (omega arith))

-- The loop keeps the bump pointer, and backs what is required or panics.
pub data Backed (h : Heap) (required_end : ℕ) : Run Heap → Type 0 where
  exhausted : h.heap_end < required_end → Backed h required_end panic
  grown :
      (h' : Heap)
      → h'.bump_ptr ≡ h.bump_ptr
      → required_end ≤ h'.heap_end
      → h.heap_end ≤ h'.heap_end
      → (h.heap_end % page_size ≡ 0 → h'.heap_end % page_size ≡ 0)
      → (h'.heap_end ≡ h.heap_end) ⊎ (h'.heap_end < required_end + page_size)
      → Backed h required_end (ok h')

again :
    {h h1 : Heap} {required_end : ℕ} {r : Run Heap}
    → h.heap_end < required_end
    → h1.bump_ptr ≡ h.bump_ptr
    → h1.heap_end ≡ h.heap_end + page_size
    → Backed h1 required_end r
    → Backed h required_end r
again lt same next (exhausted still) = exhausted lt
again lt same next (grown h' bump covers more paged near) =
    grown h' (bump ∙ same) covers (omega arith) (λ a. paged (omega arith))
      (elim near [ inl unchanged ↦ inr (omega arith) | inr close ↦ inr close ])

one_more :
    (h : Heap) (required_end fuel : ℕ)
    → h.heap_end < required_end
    → required_end + page_size < 2 ^ 64
    → ((h1 : Heap)
        → h1.heap_end ≡ h.heap_end + page_size
        → Backed h1 required_end (back_until fuel required_end h1))
    → (got : ℕ × Pmm)
    → Backed h required_end (back_page h got >>= λ h1. back_until fuel required_end h1)
unfolding back_page
one_more h required_end fuel lt small rest (pa, pmm) = elim (Bool-cases (pa == 0)) [
  | inl z ↦ rw z (exhausted lt)
  | inr nz ↦ rw nz (again lt refl (omega arith) (rest _ (omega arith)))
]

pub back_until-Backed :
    (fuel required_end : ℕ) (h : Heap)
    → required_end - h.heap_end ≤ fuel
    → required_end + page_size < 2 ^ 64
    → Backed h required_end (back_until fuel required_end h)
unfolding back_until
back_until-Backed zero required_end h enough small =
    let stop : ltb h.heap_end required_end ≡ false = ground arith in
    rw stop (grown h refl (omega arith) (omega arith) (λ p. p) (inl refl))
back_until-Backed (suc fuel) required_end h enough small =
    elim (Bool-cases (ltb h.heap_end required_end)) [
      | inr enough_now ↦
          rw enough_now (grown h refl (ground arith) (omega arith) (λ p. p) (inl refl))
      | inl short ↦ rw short (
          one_more h required_end fuel (ground arith) small
            (λ h1 e. back_until-Backed fuel required_end h1 (ground arith) small)
            (alloc_frame h.mmu.pmm))
    ]

-- The results of `kmalloc` in a valid heap: a panic, or the old bump pointer, from which `size`
-- bytes are handed out.
pub data KmallocOutcome (h : Heap) (size : ℕ) : Run (ℕ × Heap) → Type 0 where
  no_room : h.heap_end < h.bump_ptr + (size + 15) / 16 * 16 → KmallocOutcome h size panic
  allocated :
      (h' : Heap)
      → h.bump_ptr % 16 ≡ 0
      → h.bump_ptr + size ≤ h'.bump_ptr
      → h'.bump_ptr < h.bump_ptr + size + 16
      → IsValid h'
      → KmallocOutcome h size (ok (h.bump_ptr, h'))

finish :
    {h : Heap} {r : Run Heap} (size : ℕ)
    → IsValid h
    → h.bump_ptr + (size + 15) / 16 * 16 ≤ heap_base + heap_max_size
    → Backed h (h.bump_ptr + (size + 15) / 16 * 16) r
    → KmallocOutcome h size (
        r >>= λ h1.
        ok (h1.bump_ptr, record h1 { bump_ptr = u64 (h1.bump_ptr + (size + 15) / 16 * 16) }))
finish size v room (exhausted short) = no_room (omega arith)
finish {h} size v room (grown h1 bump covers more paged near) = rw bump (
    allocated _ v.aligned (omega arith) (omega arith) (record {
      starts = omega (arith, v.starts);
      backed = omega (arith, v.backed);
      ends = below near;
      aligned = omega (arith, v.aligned);
      paged = paged v.paged;
    }))
  where
    below :
        (h1.heap_end ≡ h.heap_end) ⊎ (h1.heap_end < h.bump_ptr + (size + 15) / 16 * 16 + page_size)
        → h1.heap_end ≤ heap_base + heap_max_size
    below (inl same) = omega (arith, v.ends)
    below (inr close) = omega (arith, paged v.paged)

-- In a valid heap and for a size at which the sums do not overflow, `kmalloc` ends. It panics, and
-- then the rounded size does not fit into what is backed already, or it returns the old bump
-- pointer, a multiple of 16; the new one lies `size` bytes behind it, or up to 15 more. The heap
-- is valid again.
pub kmalloc-KmallocOutcome :
    (h : Heap) (size : ℕ)
    → IsValid h
    → h.bump_ptr + size + 15 < 2 ^ 64
    → KmallocOutcome h size (kmalloc size h)
unfolding kmalloc
kmalloc-KmallocOutcome h size v room =
    let e : u64 (h.bump_ptr + (size + 15) / 16 * 16) ≡ h.bump_ptr + (size + 15) / 16 * 16 =
      omega arith in
    rw (align_up_lem size (omega arith), e)
      (elim (Bool-cases (ltb (heap_base + heap_max_size) (h.bump_ptr + (size + 15) / 16 * 16))) [
        | inl full ↦ rw full (no_room (ground (arith, v.ends)))
        | inr fits ↦ rw fits (
            finish size v (ground arith) (
              back_until-Backed (h.bump_ptr + (size + 15) / 16 * 16 - h.heap_end)
                (h.bump_ptr + (size + 15) / 16 * 16) h (omega arith) (ground arith)))
      ])

-- `kheap_init` makes the heap valid and empty.
pub kheap_init-IsValid : (h : Heap) → IsValid (kheap_init h)
unfolding kheap_init
kheap_init-IsValid h = record {
  starts = omega arith;
  backed = omega arith;
  ends = omega arith;
  aligned = refl;
  paged = refl;
}

returned :
    {h : Heap} {r : Run Heap} {required_end : ℕ} (f : Heap → ℕ × Heap)
    → Backed h required_end r
    → ((r >>= λ h1. ok (f h1)) ≡ panic) ⊎ ((a : ℕ × Heap) × ((r >>= λ h1. ok (f h1)) ≡ ok a))
returned f (exhausted short) = inl refl
returned f (grown h1 bump covers more paged near) = inr (f h1, refl)

-- For every size and in every state, also where the rounding overflows, `kmalloc` returns or
-- panics: its loop ends. It is an allocator as the file system needs it.
pub kmalloc-ReturnsOrPanics : ReturnsOrPanics kmalloc
unfolding kmalloc
kmalloc-ReturnsOrPanics size h =
    let required_end = u64 (h.bump_ptr + align_up size) in
    elim (Bool-cases (ltb (heap_base + heap_max_size) required_end)) [
      | inl full ↦ rw full (inl refl)
      | inr fits ↦ rw fits (
          returned (λ h1. (h1.bump_ptr, record h1 { bump_ptr = u64 (h1.bump_ptr + align_up size) }))
            (back_until-Backed (required_end - h.heap_end) required_end h (omega arith)
              (ground arith)))
    ]
