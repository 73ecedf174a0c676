-- ===== src/Heap/Isolation.antt =====
-- What `kmalloc` of src/heap_alloc/heap_alloc.cpp leaves behind the heap: pages on frames of their
-- own.
use kehinde_kernel.Prelude.{
  ℕ, zero, suc, ◌+◌, ◌-◌, ◌*◌, ◌/◌, ◌^◌, ◌≤◌, ◌<◌, ◌≡◌, inl, inr, refl, sym, ◌∙◌, arith, ltb, false,
  Bool-cases, subst,
}
use mathlib.Core.Bool.{false≢true}
use kehinde_kernel.Bits.{u64}
use kehinde_kernel.Run.{Run, ok, panic, ◌>>=◌}
use kehinde_kernel.Pmm.{Pmm, page_size}
use kehinde_kernel.Pmm.Alloc.{Allocated, exhausted, granted, alloc_frame-Allocated}
use kehinde_kernel.Mmu.Identity.{IsFull}
use kehinde_kernel.Heap.{Heap, heap_base, heap_max_size, back_page, back_until, kmalloc}
use kehinde_kernel.Heap.Alloc.{IsValid, Backed, grown, align_up_lem, back_until-Backed}
use kehinde_kernel.Heap.Backing.{IsBacked}
use kehinde_kernel.Heap.Rounds.{
  Backing, every_page, all_but_last, IsElsewhere, Round, no_frame, extended, back_page-Round,
}

-- What the loop comes to: it stops with the pages up to `required_end`, or panics.
data Loop (h : Heap) (n required_end : ℕ) : Run Heap → Type 0 where
  panics : Loop h n required_end panic
  stops :
      {h' : Heap} (n' : ℕ)
      → n ≤ n'
      → required_end ≤ h'.heap_end
      → h'.heap_end ≡ heap_base + n' * page_size
      → Backing h'.mmu n'
      → IsElsewhere h.mmu n h'.mmu n'
      → Loop h n required_end (ok h')

-- Without a frame the next round panics.
full_panics :
    (h : Heap) {got : ℕ × Pmm}
    → IsFull h.mmu.pmm
    → Allocated h.mmu.pmm got
    → back_page h got ≡ panic
unfolding back_page
full_panics h full (exhausted z same all_used) = rw z
full_panics h full (granted idx at start total below free before marks fits) =
    absurd (false≢true (sym free ∙ full idx below))

full-Loop :
    (fuel required_end : ℕ) (h : Heap) (n : ℕ)
    → required_end - h.heap_end ≤ fuel
    → h.heap_end ≡ heap_base + n * page_size
    → (k : ℕ) → n ≡ suc k
    → IsFull h.mmu.pmm
    → IsBacked h.mmu k
    → Loop h n required_end (back_until fuel required_end h)
unfolding back_until
full-Loop zero required_end h n enough ends k last full b =
    let stop : ltb h.heap_end required_end ≡ false = ground arith in
    rw stop (
      stops n (omega arith) (ground arith) ends (all_but_last k last full b) (λ virt lt away. refl))
full-Loop (suc fuel) required_end h n enough ends k last full b =
    elim (Bool-cases (ltb h.heap_end required_end)) [
      | inr stop ↦ rw stop (
          stops n (omega arith) (ground arith) ends (all_but_last k last full b)
            (λ virt lt away. refl))
      | inl short ↦
          let e = full_panics h full (alloc_frame-Allocated h.mmu.pmm b.tree.valid) in
          rw (short, e) panics
    ]

further :
    {h h1 : Heap} {n n1 required_end : ℕ} {r : Run Heap}
    → n ≤ n1
    → IsElsewhere h.mmu n h1.mmu n1
    → Loop h1 n1 required_end r
    → Loop h n required_end r
further le old panics = panics
further le old (stops n' le' covers ends backing elsewhere) =
    stops n' (omega arith) covers ends backing (λ virt lt away. elim away [
      | inl below ↦ elsewhere virt lt (inl (omega arith)) ∙ old virt lt (inl below)
      | inr above ↦ elsewhere virt lt (inr above) ∙ old virt lt (inr (omega arith))
    ])

back_until-after :
    (h : Heap) (n fuel required_end : ℕ) {r : Run Heap}
    → Round h n r
    → ((h1 : Heap)
        → h1.heap_end ≡ heap_base + suc n * page_size
        → Backing h1.mmu (suc n)
        → Loop h1 (suc n) required_end (back_until fuel required_end h1))
    → Loop h n required_end (r >>= λ h1. back_until fuel required_end h1)
back_until-after h n fuel required_end (no_frame full) rest = panics
back_until-after h n fuel required_end (extended {h' = h1} ends backing elsewhere) rest =
    further (omega arith) elsewhere (rest h1 ends backing)

back_until-Loop :
    (fuel required_end : ℕ) (h : Heap) (n : ℕ)
    → required_end - h.heap_end ≤ fuel
    → required_end ≤ heap_base + heap_max_size
    → h.heap_end ≡ heap_base + n * page_size
    → n < 2 ^ 20
    → Backing h.mmu n
    → Loop h n required_end (back_until fuel required_end h)
unfolding back_until
back_until-Loop fuel required_end h n enough room ends small (all_but_last k last full b) =
    full-Loop fuel required_end h n enough ends k last full b
back_until-Loop zero required_end h n enough room ends small (every_page b) =
    let stop : ltb h.heap_end required_end ≡ false = ground arith in
    rw stop (stops n (omega arith) (ground arith) ends (every_page b) (λ virt lt away. refl))
back_until-Loop (suc fuel) required_end h n enough room ends small (every_page b) =
    elim (Bool-cases (ltb h.heap_end required_end)) [
      | inr stop ↦
          rw stop (stops n (omega arith) (ground arith) ends (every_page b) (λ virt lt away. refl))
      | inl short ↦ rw short (
          back_until-after h n fuel required_end
            (back_page-Round h n b ends small (alloc_frame-Allocated h.mmu.pmm b.tree.valid))
            (λ h1 ends' backing.
              back_until-Loop fuel required_end h1 (suc n) (ground arith) room ends' (ground arith)
                backing))
    ]

-- What `kmalloc` comes to for a heap of `n` pages.
pub data Isolated (h : Heap) (n size : ℕ) : Run (ℕ × Heap) → Type 0 where
  panics : Isolated h n size panic
  returns :
      {h' : Heap} (n' : ℕ)
      → n ≤ n'
      → h.bump_ptr + size ≤ heap_base + n' * page_size
      → h'.heap_end ≡ heap_base + n' * page_size
      → Backing h'.mmu n'
      → IsElsewhere h.mmu n h'.mmu n'
      → Isolated h n size (ok (h.bump_ptr, h'))

finished :
    (h : Heap) (n size required_end : ℕ) {r : Run Heap}
    → h.bump_ptr + size ≤ required_end
    → Loop h n required_end r
    → Backed h required_end r
    → (bump : Heap → ℕ)
    → Isolated h n size (r >>= λ h1. ok (h1.bump_ptr, record h1 { bump_ptr = bump h1 }))
finished h n size required_end fits panics backed bump = panics
finished h n size required_end fits (stops {h'} n' le covers ends backing elsewhere)
      (grown _ same _ _ _ _) bump =
    subst (λ p. Isolated h n size (ok (p, record h' { bump_ptr = bump h' }))) (sym same)
      (returns n' le (omega arith) ends backing elsewhere)

-- In a valid heap of `n` pages that are backed, for a size at which the sums do not overflow,
-- `kmalloc` panics or returns the old bump pointer with a heap of at least as many pages that holds
-- the bytes handed out. Then each page leads to a frame of its own, which is in use and is not a
-- page table, except that the last page may lead elsewhere when no frame is left. Addresses below
-- `2 ^ 39` outside the new pages lead where they led.
pub kmalloc-Isolated :
    (h : Heap) (n size : ℕ)
    → IsValid h
    → h.bump_ptr + size + 15 < 2 ^ 64
    → h.heap_end ≡ heap_base + n * page_size
    → Backing h.mmu n
    → Isolated h n size (kmalloc size h)
unfolding kmalloc
kmalloc-Isolated h n size v room ends backing =
    let required_end = h.bump_ptr + (size + 15) / 16 * 16 in
    let e : u64 (h.bump_ptr + (size + 15) / 16 * 16) ≡ required_end = omega arith in
    let pages : n < 2 ^ 20 = omega (arith, v.ends) in
    rw (align_up_lem size (omega arith), e)
      (elim (Bool-cases (ltb (heap_base + heap_max_size) required_end)) [
        | inl full ↦ rw full panics
        | inr fits ↦ rw fits (
            finished h n size required_end (omega arith)
              (back_until-Loop (required_end - h.heap_end) required_end h n (omega arith)
                (ground arith) ends pages backing)
              (back_until-Backed (required_end - h.heap_end) required_end h (omega arith)
                (ground arith))
              (λ h1. u64 (h1.bump_ptr + (size + 15) / 16 * 16)))
      ])
