-- ===== src/Heap/Rounds.antt =====
-- One round of the loop of `kmalloc` of src/heap_alloc/heap_alloc.cpp: one more page.
use kehinde_kernel.Prelude.{
  ℕ, suc, ◌+◌, ◌*◌, ◌^◌, ◌≤◌, ◌<◌, ◌≡◌, inl, inr, ◌⊎◌, refl, sym, ap, ◌∙◌, arith, ◌==◌, ltb, false,
  if◌then◌else◌, subst,
}
use kehinde_kernel.Bits.{bit_and, bit_or, u64}
use kehinde_kernel.Run.{Run, ok, panic}
use kehinde_kernel.Pmm.{Pmm, page_size}
use kehinde_kernel.Pmm.Free.{frame_address}
use kehinde_kernel.Pmm.Alloc.{Allocated, exhausted, granted, Allocated-IsValid}
use kehinde_kernel.Mmu.{Mmu, map, translate, pte_normal_rw}
use kehinde_kernel.Mmu.Tables.{is_table, Extends, Extends-trans}
use kehinde_kernel.Mmu.Range.{page_offset, range_mapped, IsExtended}
use kehinde_kernel.Mmu.Mapping.{MapOutcome, out_of_frames, complete, map-MapOutcome}
use kehinde_kernel.Mmu.Identity.{IsFull}
use kehinde_kernel.Mmu.Reserve.{IsReserved, Extends-page, granted-IsReserved}
use kehinde_kernel.Heap.{Heap, heap_base, back_page}
use kehinde_kernel.Heap.Backing.{IsBacked, IsBacked-Extends, backed_more}

-- The first `n` pages are backed, or all but the last of them are, and then no frame is left.
pub data Backing (m : Mmu) (n : ℕ) : Type 0 where
  every_page : IsBacked m n → Backing m n
  all_but_last : (k : ℕ) → n ≡ suc k → IsFull m.pmm → IsBacked m k → Backing m n

-- What translates outside the pages from `n` up to `n'` is as before.
abbrev pub IsElsewhere : Mmu → ℕ → Mmu → ℕ → Type 0
IsElsewhere m n m' n' =
    (virt : ℕ)
    → virt < 2 ^ 39
    → (virt < heap_base + n * page_size) ⊎ (heap_base + n' * page_size ≤ virt)
    → translate m' virt ≡ translate m virt

module _ {m m1 : Mmu} {n addr idx : ℕ} (b : IsBacked m n) (r : IsReserved m b.role m1 addr idx)
    (small : n < 2 ^ 20) where
  abbrev next_page : ℕ
  next_page = heap_base + n * page_size

  module _ {m' : Mmu} {k : ℕ} (x : IsExtended m1 b.role m' k next_page addr) where
    ranged :
        (virt : ℕ)
        → virt < 2 ^ 64
        → translate m' virt ≡ range_mapped k next_page (frame_address m.pmm idx) (translate m) virt
    ranged virt lt =
        x.walks virt lt
        ∙ ap
            (λ z.
              if ltb (page_offset next_page virt) k
              then bit_or (addr + page_offset next_page virt * page_size) (bit_and virt 0xFFF)
              else z)
            (r.walks virt)
        ∙ ap
            (λ a.
              if ltb (page_offset next_page virt) k
              then bit_or (a + page_offset next_page virt * page_size) (bit_and virt 0xFFF)
              else translate m virt)
            r.place

    untouched :
        (virt : ℕ)
        → virt < 2 ^ 39
        → (virt < next_page) ⊎ (next_page + k * page_size ≤ virt)
        → k ≤ 1
        → translate m' virt ≡ translate m virt
    untouched virt lt away one =
        let outside : ltb (page_offset next_page virt) k ≡ false = elim away [
          | inl below ↦ ground arith
          | inr above ↦ ground arith
        ] in
        ranged virt (omega arith) ∙ rw outside refl

    extends : Extends m b.role m' x.role'
    extends = Extends-trans r.extends x.extends

    plain : is_table (x.role' (frame_address m.pmm idx)) ≡ false
    plain =
        let same : frame_address m1.pmm idx ≡ frame_address m.pmm idx =
          omega (arith, r.extends.grows.start) in
        ap (λ a. is_table (x.role' a)) (sym same)
        ∙ Extends-page x.extends idx r.taken
            (ap (λ a. is_table (b.role a)) (same ∙ sym r.place) ∙ r.page)

  heap_map :
      {m' : Mmu}
      → MapOutcome m1 b.role 1 next_page addr m'
      → Backing m' (suc n) × IsElsewhere m n m' (suc n)
  heap_map {m'} (out_of_frames k lt full x quiet) = (
    all_but_last n refl full (
        IsBacked-Extends b x.role' x.tree (extends x)
          (λ virt lo hi. untouched x virt (omega arith) (inl hi) (omega arith))),
    λ virt lt39 away.
        untouched x virt lt39 (elim away [ inl below ↦ inl below | inr above ↦ inr (omega arith) ])
          (omega arith),
  )
  heap_map {m'} (complete x flushed) = (
    every_page (
        backed_more b idx x.role' x.tree (extends x) r.below r.was_free
          (x.extends.grows.still idx r.taken) (plain x) small (ranged x)),
    λ virt lt39 away.
        untouched x virt lt39 (elim away [ inl below ↦ inl below | inr above ↦ inr (omega arith) ])
          (omega arith),
  )

-- What a round of the loop of `kmalloc` comes to.
pub data Round (h : Heap) (n : ℕ) : Run Heap → Type 0 where
  no_frame : IsFull h.mmu.pmm → Round h n panic
  extended :
      {h' : Heap}
      → h'.heap_end ≡ heap_base + suc n * page_size
      → Backing h'.mmu (suc n)
      → IsElsewhere h.mmu n h'.mmu (suc n)
      → Round h n (ok h')

pub back_page-Round :
    (h : Heap) (n : ℕ)
    → IsBacked h.mmu n
    → h.heap_end ≡ heap_base + n * page_size
    → n < 2 ^ 20
    → {got : ℕ × Pmm} → Allocated h.mmu.pmm got
    → Round h n (back_page h got)
unfolding back_page
back_page-Round h n b ends small (exhausted z same full) = rw z (no_frame full)
back_page-Round h n b ends small
      (granted {addr} {q} idx at start total below free before marks fits) =
    let v = b.tree.valid in
    let nonzero : (addr == 0) ≡ false = ground (arith, v.nonzero) in
    let valid = Allocated-IsValid v (granted idx at start total below free before marks fits) in
    let r =
      granted-IsReserved h.mmu b.role addr q idx b.tree at start total below free marks valid in
    let outcome =
      map-MapOutcome (heap_base + n * page_size) addr page_size pte_normal_rw
        (record h.mmu { pmm = q }) b.role r.tree (omega (arith, v.aligned)) (omega arith)
        (omega arith) (omega (arith, v.within)) (omega arith) in
    let (backing, elsewhere) = heap_map b r small outcome in
    let next : u64 (h.heap_end + page_size) ≡ heap_base + suc n * page_size = omega arith in
    rw nonzero (
      subst
        (λ e. Round h n (
          ok (record h {
            mmu = map e addr page_size pte_normal_rw (record h.mmu { pmm = q });
            heap_end = u64 (h.heap_end + page_size);
          })))
        (sym ends) (extended next backing elsewhere))
