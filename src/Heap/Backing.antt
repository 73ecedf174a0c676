-- ===== src/Heap/Backing.antt =====
-- The frames behind the heap of src/heap_alloc/heap_alloc.cpp.
use kehinde_kernel.Prelude.{
  ℕ, suc, ◌+◌, ◌-◌, ◌*◌, ◌/◌, ◌^◌, ◌≤◌, ◌<◌, ◌≡◌, ◌≢◌, inl, inr, refl, sym, ap, ◌∙◌, arith, ◌==◌,
  ltb, true, false, Bool-cases, if◌then◌else◌, subst,
}
use mathlib.Core.Bool.{false≢true}
use kehinde_kernel.Bits.{bit_and, bit_or}
use kehinde_kernel.Pmm.{page_size}
use kehinde_kernel.Pmm.Frames.{used}
use kehinde_kernel.Pmm.Free.{frame_address}
use kehinde_kernel.Mmu.{Mmu, translate}
use kehinde_kernel.Mmu.Tables.{Role, is_table, IsTree, Extends}
use kehinde_kernel.Mmu.Range.{page_offset, range_mapped}
use kehinde_kernel.Mmu.Reserve.{Extends-page}
use kehinde_kernel.Heap.{heap_base}

-- The first `n` pages of the heap lead to frames of their own, which are in use and are no tables.
pub record IsBacked (m : Mmu) (n : ℕ) : Type 0 where
  pub role : ℕ → Role
  pub tree : IsTree m role
  pub frame : ℕ → ℕ
  pub inside : (i : ℕ) → i < n → frame i < m.pmm.total_frames
  pub taken : (i : ℕ) → i < n → used m.pmm.bitmap (frame i) ≡ true
  pub plain : (i : ℕ) → i < n → is_table (role (frame_address m.pmm (frame i))) ≡ false
  pub apart : (i k : ℕ) → i < k → k < n → frame i ≢ frame k
  pub found :
      (virt : ℕ)
      → heap_base ≤ virt
      → virt < heap_base + n * page_size
      → translate m virt
        ≡ bit_or (frame_address m.pmm (frame ((virt - heap_base) / page_size))) (bit_and virt 0xFFF)

-- Changed tables that keep the translations of the heap keep what backs it.
pub IsBacked-Extends :
    {m m' : Mmu} {n : ℕ} (b : IsBacked m n) (role' : ℕ → Role)
    → IsTree m' role'
    → Extends m b.role m' role'
    → ((virt : ℕ)
        → heap_base ≤ virt
        → virt < heap_base + n * page_size
        → translate m' virt ≡ translate m virt)
    → IsBacked m' n
IsBacked-Extends {m} {m'} {n} b role' tree x walks = record {
  role = role';
  tree = tree;
  frame = b.frame;
  inside = λ i lt. omega (arith, b.inside i lt, x.grows.total);
  taken = λ i lt. x.grows.still (b.frame i) (b.taken i lt);
  plain = λ i lt.
      ap (λ a. is_table (role' a)) (same (b.frame i))
      ∙ Extends-page x (b.frame i) (b.taken i lt) (b.plain i lt);
  apart = b.apart;
  found = λ virt lo hi.
      walks virt lo hi
      ∙ b.found virt lo hi
      ∙ ap (λ a. bit_or a (bit_and virt 0xFFF))
          (sym (same (b.frame ((virt - heap_base) / page_size))));
}
  where
    same : (j : ℕ) → frame_address m'.pmm j ≡ frame_address m.pmm j
    same j = omega (arith, x.grows.start)

-- One more page.
module _ {m m' : Mmu} {n : ℕ} (b : IsBacked m n) (idx : ℕ) (role' : ℕ → Role)
    (tree : IsTree m' role') (x : Extends m b.role m' role') (below : idx < m.pmm.total_frames)
    (free : used m.pmm.bitmap idx ≡ false) (set : used m'.pmm.bitmap idx ≡ true)
    (page : is_table (role' (frame_address m.pmm idx)) ≡ false) (small : n < 2 ^ 20)
    (walks : (virt : ℕ)
      → virt < 2 ^ 64
      → translate m' virt
        ≡ range_mapped 1
            (heap_base + n * page_size)
            (frame_address m.pmm idx)
            (translate m)
            virt) where
  abbrev frames : ℕ → ℕ
  frames i = if i == n then idx else b.frame i

  at_end : frames n ≡ idx
  at_end = ground arith

  before : (i : ℕ) → i < n → frames i ≡ b.frame i
  before i lt = ground arith

  same : (j : ℕ) → frame_address m'.pmm j ≡ frame_address m.pmm j
  same j = omega (arith, x.grows.start)

  -- Each old page, or the new one.
  by_page :
      (P : ℕ → ℕ → Type 0)
      → ((i : ℕ) → i < n → P i (b.frame i))
      → P n idx
      → (i : ℕ) → i < suc n
      → P i (frames i)
  by_page P old new i lt = elim (Bool-cases (i == n)) [
    | inl last ↦ let e : i ≡ n = ground arith in rw last (subst (λ k. P k idx) (sym e) new)
    | inr other ↦ rw other (old i (ground arith))
  ]

  old_walks :
      (virt : ℕ)
      → heap_base ≤ virt
      → virt < heap_base + n * page_size
      → translate m' virt ≡ translate m virt
  old_walks virt lo hi =
      let outside : ltb (page_offset (heap_base + n * page_size) virt) 1 ≡ false = ground arith in
      walks virt (omega arith) ∙ rw outside refl

  old : IsBacked m' n
  old = IsBacked-Extends b role' tree x old_walks

  new_distinct : (i : ℕ) → i < n → b.frame i ≢ idx
  new_distinct i lt e =
      absurd (false≢true (sym free ∙ ap (used m.pmm.bitmap) (sym e) ∙ b.taken i lt))

  backed_apart : (i k : ℕ) → i < k → k < suc n → frames i ≢ frames k
  backed_apart i k lt hi = elim (Bool-cases (k == n)) [
    | inl last ↦ rw (before i (ground arith), last) (new_distinct i (ground arith))
    | inr other ↦
        rw (before i (ground arith), before k (ground arith)) (b.apart i k lt (ground arith))
  ]

  backed_found :
      (virt : ℕ)
      → heap_base ≤ virt
      → virt < heap_base + suc n * page_size
      → translate m' virt
        ≡ bit_or
            (frame_address m'.pmm (frames ((virt - heap_base) / page_size)))
            (bit_and virt 0xFFF)
  unfolding old IsBacked-Extends
  backed_found virt lo hi = elim (Bool-cases (ltb virt (heap_base + n * page_size))) [
    | inl below_end ↦
        rw (before ((virt - heap_base) / page_size) (ground arith))
          (old.found virt lo (ground arith))
    | inr last ↦
        let index : (virt - heap_base) / page_size ≡ n = ground arith in
        let offset : page_offset (heap_base + n * page_size) virt ≡ 0 = ground arith in
        let inside : ltb (page_offset (heap_base + n * page_size) virt) 1 ≡ true = ground arith in
        let at : frame_address m.pmm idx + page_offset (heap_base + n * page_size) virt * page_size
            ≡ frame_address m'.pmm idx =
          omega (arith, same idx) in
        rw (index, at_end) (walks virt (omega arith) ∙ rw (inside, at) refl)
  ]

  pub backed_more : IsBacked m' (suc n)
  unfolding old IsBacked-Extends
  backed_more = record {
    role = role';
    tree = tree;
    frame = frames;
    inside = by_page (λ i j. j < m'.pmm.total_frames) old.inside (omega (arith, x.grows.total));
    taken = by_page (λ i j. used m'.pmm.bitmap j ≡ true) old.taken set;
    plain =
        by_page (λ i j. is_table (role' (frame_address m'.pmm j)) ≡ false) old.plain
          (ap (λ a. is_table (role' a)) (same idx) ∙ page);
    apart = backed_apart;
    found = backed_found;
  }

-- No page.
pub IsBacked-none : {m : Mmu} (role : ℕ → Role) → IsTree m role → IsBacked m 0
IsBacked-none role tree = record {
  role = role;
  tree = tree;
  frame = λ i. i;
  inside = λ i lt. absurd (omega arith);
  taken = λ i lt. absurd (omega arith);
  plain = λ i lt. absurd (omega arith);
  apart = λ i k lt hi. absurd (omega arith);
  found = λ virt lo hi. absurd (omega arith);
}
