-- ===== src/Pmm/Init.antt =====
-- `round_up` of include/pmm.h and `pmm_init` of src/pmm/pmm.cpp.
use kehinde_kernel.Prelude.{
  ℕ, zero, suc, ◌+◌, ◌-◌, ◌*◌, ◌/◌, ◌%◌, ◌^◌, ◌≤◌, ◌<◌, ◌≡◌, refl, ◌∙◌, ap, false, not, ◌&&◌, ◌==◌,
  if◌then◌else◌, update, arith, Bool-cases, inl, inr, ltb, ltb→lt, ltb→le,
}
use native.Mathlib.Nat.{one-le-pow}
use kehinde_kernel.Bits.{
  bit_or, bit, bit_not, test_bit, test_bit-or, test_bit-not, test_bit-zero, test_bit-mask,
  test_bit-high, bit_or-lt, sub64,
}
use kehinde_kernel.Bits.Single.{bit_and-high_mask}
use kehinde_kernel.Pmm.{page_size, phys_mem_end, round_up, clear_words, mark_tail, pmm_init}
use kehinde_kernel.Pmm.Frames.{used, IsValid, pow_two-lt}

-- Below the wrap `round_up` to a page is the next multiple of the page size.
pub round_up_lem :
    (value : ℕ) → value + 4095 < 2 ^ 64 → round_up value page_size ≡ (value + 4095) / 4096 * 4096
unfolding round_up
round_up_lem value h =
    let e : (((value + 4096) % 2 ^ 64 + 2 ^ 64 - 1) % 2 ^ 64) ≡ value + 4095 = omega arith in
    rw e (bit_and-high_mask 12 52 (value + 4095) (omega arith))

pub clear_words_lem :
    (n i : ℕ) (memory : ℕ → ℕ) (j : ℕ)
    → clear_words n i memory j ≡ (if not (ltb j i) && ltb j (i + n) then 0 else memory j)
unfolding clear_words
clear_words_lem zero i memory j = ground arith
clear_words_lem (suc n) i memory j = ground (arith, clear_words_lem n (i + 1) (update memory i 0) j)

-- The mask of the final word has the bits from `v` on.
mask_bits :
    (v k : ℕ) → v < 64 → k < 64 → test_bit (bit_or 0 (bit_not (bit v - 1))) k ≡ not (ltb k v)
mask_bits v k hv hk =
    let small = pow_two-lt v hv in
    let pos = one-le-pow v 2 (omega arith) in
    rw
      (
        test_bit-or k 0 (bit_not (bit v - 1)),
        test_bit-zero k,
        test_bit-not k (bit v - 1) (omega arith) hk,
      )
      (ap not (low pos))
  where
    low : 1 ≤ 2 ^ v → test_bit (bit v - 1) k ≡ ltb k v
    low pos = elim (Bool-cases (ltb k v)) [
      | inl lt ↦ rw lt (test_bit-mask v k (ltb→lt k v lt))
      | inr ge ↦ rw ge (test_bit-high v k (bit v - 1) (omega arith) (ltb→le k v ge))
    ]

module _ (total : ℕ) (zeroed : ℕ → ℕ) (zero_word : (i : ℕ) → i * 64 < total → zeroed i ≡ 0) where
  tail_word :
      (i : ℕ)
      → i * 64 < total
      → (k : ℕ) → k < 64
      → test_bit (mark_tail total zeroed i) k ≡ not (ltb (i * 64 + k) total)
  unfolding mark_tail
  tail_word i h k hk = elim (Bool-cases (total % 64 == 0)) [
    | inl exact ↦ rw (exact, zero_word i h, test_bit-zero k) (ground arith)
    | inr part ↦ elim (Bool-cases (total / 64 == i)) [
      | inl last ↦
          let e : total / 64 ≡ i = ground arith in
          rw (part, last, e, zero_word i h, mask_bits (total % 64) k (omega arith) hk)
            (ground arith)
      | inr inner ↦ rw (part, inner, zero_word i h, test_bit-zero k) (ground arith)
    ]
  ]

  -- After the last step exactly the bits past the last frame are set.
  tail-used :
      (j : ℕ) → j < (total + 63) / 64 * 64 → used (mark_tail total zeroed) j ≡ not (ltb j total)
  unfolding used
  tail-used j h =
      let whole : j / 64 * 64 + j % 64 ≡ j = omega arith in
      rw (tail_word (j / 64) (omega arith) (j % 64) (omega arith), whole)

  tail-fits : ((i : ℕ) → zeroed i < 2 ^ 64) → (j : ℕ) → mark_tail total zeroed j < 2 ^ 64
  unfolding mark_tail
  tail-fits fits j = ground (
    arith,
    fits j,
    bit_or-lt 64 (zeroed (total / 64)) (bit_not (bit (total % 64) - 1)) (fits (total / 64)),
  )

clear_words-fits :
    (n : ℕ) (memory : ℕ → ℕ)
    → ((i : ℕ) → memory i < 2 ^ 64)
    → (j : ℕ) → clear_words n 0 memory j < 2 ^ 64
clear_words-fits n memory fits j = ground (arith, clear_words_lem n 0 memory j, fits j)

-- The layout that `pmm_init` computes for a kernel that ends at `kernel_end`.
abbrev bitmap_base : ℕ → ℕ
bitmap_base kernel_end = (kernel_end + 4095) / 4096 * 4096

abbrev bitmap_words : ℕ → ℕ
bitmap_words kernel_end = ((phys_mem_end - bitmap_base kernel_end) / 4096 + 63) / 64

abbrev first_frame : ℕ → ℕ
first_frame kernel_end = (bitmap_base kernel_end + bitmap_words kernel_end * 8 + 4095) / 4096 * 4096

abbrev frame_count : ℕ → ℕ
frame_count kernel_end = (phys_mem_end - first_frame kernel_end) / 4096

-- The kernel leaves room below the end of memory for the bitmap of all frames.
abbrev pub HasRoom : ℕ → Type 0
HasRoom kernel_end = (0 < kernel_end) × (kernel_end + 0x1_0000 ≤ phys_mem_end)

pmm_init_layout :
    (kernel_end : ℕ) (memory : ℕ → ℕ)
    → HasRoom kernel_end
    → pmm_init kernel_end memory ≡ record {
      bitmap_addr = bitmap_base kernel_end;
      bitmap = mark_tail (frame_count kernel_end) (clear_words (bitmap_words kernel_end) 0 memory);
      phys_mem_start = first_frame kernel_end;
      total_frames = frame_count kernel_end;
    }
unfolding pmm_init
pmm_init_layout kernel_end memory h =
    let base = bitmap_base kernel_end in
    let managed : sub64 phys_mem_end base ≡ phys_mem_end - base = omega arith in
    let bytes : bitmap_words kernel_end * 8 / 8 ≡ bitmap_words kernel_end = omega arith in
    let rest : sub64 phys_mem_end (first_frame kernel_end) ≡ phys_mem_end - first_frame kernel_end =
      omega arith in
    rw
      (
        round_up_lem kernel_end (omega arith),
        managed,
        round_up_lem (base + bitmap_words kernel_end * 8) (omega arith),
        rest,
        bytes,
      )
      refl

-- The frames start behind the kernel image, and there is one.
pub pmm_init_place :
    (kernel_end : ℕ) (memory : ℕ → ℕ)
    → HasRoom kernel_end
    → (kernel_end ≤ (pmm_init kernel_end memory).phys_mem_start)
      × (0 < (pmm_init kernel_end memory).total_frames)
pmm_init_place kernel_end memory h =
    let e = pmm_init_layout kernel_end memory h in
    let start = ap (λ p. p.phys_mem_start) e in
    let count = ap (λ p. p.total_frames) e in (omega arith, omega arith)

-- When the kernel image leaves 64 KiB below the end of memory, `pmm_init` yields a valid allocator
-- whatever the memory held, with every frame free.
pub pmm_init-IsValid :
    (kernel_end : ℕ) (memory : ℕ → ℕ)
    → HasRoom kernel_end
    → ((i : ℕ) → memory i < 2 ^ 64)
    → IsValid (pmm_init kernel_end memory)
      × ((j : ℕ)
          → j < (pmm_init kernel_end memory).total_frames
          → used (pmm_init kernel_end memory).bitmap j ≡ false)
pmm_init-IsValid kernel_end memory h fits =
    let total = frame_count kernel_end in
    let zeroed = clear_words (bitmap_words kernel_end) 0 memory in
    let covered : total ≤ bitmap_words kernel_end * 64 = omega arith in
    let zero_word : (i : ℕ) → i * 64 < total → zeroed i ≡ 0 =
      λ i lt. ground (arith, clear_words_lem (bitmap_words kernel_end) 0 memory i) in
    rw (pmm_init_layout kernel_end memory h) (
      record {
        fits = tail-fits total zeroed zero_word (clear_words-fits _ memory fits);
        aligned = omega arith;
        nonzero = omega arith;
        within = omega arith;
        tail = λ j lo hi. tail-used total zeroed zero_word j hi ∙ ground arith;
      },
      λ j lt. tail-used total zeroed zero_word j (omega arith) ∙ ground arith,
    )

-- The words at `bitmap`, for a kernel that leaves 64 KiB, lie between the kernel's last page and the first
-- frame, the word of every frame included: marking a frame never writes into a frame.
pub pmm_init-bitmap_apart :
    (kernel_end : ℕ) (memory : ℕ → ℕ) (j : ℕ)
    → HasRoom kernel_end
    → j < (pmm_init kernel_end memory).total_frames
    → (kernel_end ≤ (pmm_init kernel_end memory).bitmap_addr + j / 64 * 8)
      × ((pmm_init kernel_end memory).bitmap_addr + j / 64 * 8 + 8
          ≤ (pmm_init kernel_end memory).phys_mem_start)
pmm_init-bitmap_apart kernel_end memory j h lt =
    let e = pmm_init_layout kernel_end memory h in
    let start = ap (λ p. p.phys_mem_start) e in
    let count = ap (λ p. p.total_frames) e in let base = ap (λ p. p.bitmap_addr) e in omega arith
