-- ===== src/Pmm/Frames.antt =====
-- The bitmap of src/pmm/pmm.cpp read frame by frame, and the invariant of the allocator.
use kehinde_kernel.Prelude.{
  ℕ, ◌+◌, ◌*◌, ◌/◌, ◌%◌, ◌^◌, ◌≤◌, ◌<◌, ◌≡◌, refl, ◌∙◌, Bool, true, not, ◌&&◌, ◌||◌, ◌==◌, update,
  arith, Bool-cases, inl, inr,
}
use kehinde_kernel.Bits.{
  bit_and, bit_or, bit, bit_not, test_bit, test_bit-or, test_bit-and, test_bit-bit, test_bit-not,
}
use native.Mathlib.Nat.{pow-le-pow_right}
use kehinde_kernel.Pmm.{Pmm, page_size, phys_mem_end}

-- Frame `j` is marked used.
unfoldable pub used : (ℕ → ℕ) → ℕ → Bool
used bitmap j = test_bit (bitmap (j / 64)) (j % 64)

-- The number of words that the frames take.
abbrev pub words : Pmm → ℕ
words p = (p.total_frames + 63) / 64

pub record IsValid (p : Pmm) : Type 0 where
  pub fits : (i : ℕ) → p.bitmap i < 2 ^ 64
  pub aligned : p.phys_mem_start % page_size ≡ 0
  pub nonzero : 0 < p.phys_mem_start
  pub within : p.phys_mem_start + p.total_frames * page_size ≤ phys_mem_end
  -- The bits past the last frame are set, so that no scan finds them.
  pub tail :
      (j : ℕ) → p.total_frames ≤ j → j < (p.total_frames + 63) / 64 * 64 → used p.bitmap j ≡ true

-- The frames in use stay in use.
pub record Grows (p q : Pmm) : Type 0 where
  pub start : q.phys_mem_start ≡ p.phys_mem_start
  pub total : q.total_frames ≡ p.total_frames
  pub still : (j : ℕ) → used p.bitmap j ≡ true → used q.bitmap j ≡ true

pub Grows-refl : (p : Pmm) → Grows p p
Grows-refl p = record { start = refl; total = refl; still = λ j h. h }

pub Grows-trans : {p q r : Pmm} → Grows p q → Grows q r → Grows p r
Grows-trans g h = record {
  start = h.start ∙ g.start;
  total = h.total ∙ g.total;
  still = λ j u. h.still j (g.still j u);
}

pub pow_two-lt : (b : ℕ) → b < 64 → bit b < 2 ^ 64
pow_two-lt b h =
    omega (arith, pow-le-pow_right {n = 2} (omega arith) {i = b} {j = 63} (omega arith))

-- Setting bit `b` of word `w` marks the frame `w * 64 + b` and no other.
pub used-set :
    (bitmap : ℕ → ℕ) (w b j : ℕ)
    → b < 64
    → used (update bitmap w (bit_or (bitmap w) (bit b))) j ≡ (used bitmap j || (w * 64 + b == j))
unfolding used
used-set bitmap w b j h = elim (Bool-cases (w == j / 64)) [
  | inl same ↦
      let e : w ≡ j / 64 = ground arith in
      rw (same, e, test_bit-or (j % 64) (bitmap (j / 64)) (bit b), test_bit-bit b (j % 64))
        (ground arith)
  | inr other ↦ rw other (ground arith)
]

pub used-clear :
    (bitmap : ℕ → ℕ) (w b j : ℕ)
    → b < 64
    → used (update bitmap w (bit_and (bitmap w) (bit_not (bit b)))) j
      ≡ (used bitmap j && not (w * 64 + b == j))
unfolding used
used-clear bitmap w b j h = elim (Bool-cases (w == j / 64)) [
  | inl same ↦
      let e : w ≡ j / 64 = ground arith in
      rw
        (
          same,
          e,
          test_bit-and (j % 64) (bitmap (j / 64)) (bit_not (bit b)),
          test_bit-not (j % 64) (bit b) (pow_two-lt b h) (omega arith),
          test_bit-bit b (j % 64),
        )
        (ground arith)
  | inr other ↦ rw other (ground arith)
]
