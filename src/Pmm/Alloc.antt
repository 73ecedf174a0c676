-- ===== src/Pmm/Alloc.antt =====
-- `alloc_frame` of src/pmm/pmm.cpp: first fit, and the invariant.
use kehinde_kernel.Prelude.{
  ℕ, zero, suc, ◌+◌, ◌*◌, ◌/◌, ◌%◌, ◌^◌, ◌≤◌, ◌<◌, ◌≡◌, ◌≢◌, refl, sym, ◌∙◌, true, false, ◌||◌,
  ◌==◌, update, arith, Bool-cases, inl, inr, Option, none, some, ltb, ltb→lt, ltb→le, subst,
}
use mathlib.Core.Bool.{false≢true}
use kehinde_kernel.Bits.{
  bit_or, bit, bit_not, all_ones, test_bit, test_bit-not, test_bit-mask, bit_or-lt,
}
use kehinde_kernel.Bits.Single.{ctz, ctz_lem}
use kehinde_kernel.Pmm.{Pmm, page_size, alloc_scan, hand_out, alloc_frame}
use kehinde_kernel.Pmm.Frames.{used, IsValid, used-set, pow_two-lt}

-- What a scan of `n` words from word `i` finds.
data Scan (bitmap : ℕ → ℕ) (i n : ℕ) : Option (ℕ × (ℕ → ℕ)) → Type 0 where
  full : ((j : ℕ) → i * 64 ≤ j → j < (i + n) * 64 → used bitmap j ≡ true) → Scan bitmap i n none
  hit :
      {idx : ℕ} {after : ℕ → ℕ}
      → i * 64 ≤ idx
      → idx < (i + n) * 64
      → used bitmap idx ≡ false
      → ((j : ℕ) → i * 64 ≤ j → j < idx → used bitmap j ≡ true)
      → ((j : ℕ) → used after j ≡ (used bitmap j || (idx == j)))
      → ((j : ℕ) → after j < 2 ^ 64)
      → Scan bitmap i n (some (idx, after))

module _ (bitmap : ℕ → ℕ) (fits : (i : ℕ) → bitmap i < 2 ^ 64) where
  -- A word of ones holds no free frame.
  word_full : (i j : ℕ) → bitmap i ≡ all_ones → j / 64 ≡ i → used bitmap j ≡ true
  unfolding used
  word_full i j ones e = rw (e, ones) (test_bit-mask 64 (j % 64) (omega arith))

  -- Any other word has a lowest zero, which the count of trailing zeros finds.
  word_free :
      (i : ℕ)
      → bitmap i ≢ all_ones
      → let b = ctz 64 (bit_not (bitmap i)) in
        (b < 64)
        × (test_bit (bitmap i) b ≡ false)
        × ((k : ℕ) → k < b → test_bit (bitmap i) k ≡ true)
  word_free i ne =
      let f = fits i in
      let found = ctz_lem 64 (bit_not (bitmap i)) (omega arith) (λ e. ne (omega arith)) in
      (
        found.0,
        ground (arith, found.1, test_bit-not (ctz 64 (bit_not (bitmap i))) (bitmap i)),
        λ k p. ground (arith, found.2 k, found.0, test_bit-not k (bitmap i)),
      )

  used_at : (i b : ℕ) → b < 64 → used bitmap (i * 64 + b) ≡ test_bit (bitmap i) b
  unfolding used
  used_at i b h =
      let quotient : (i * 64 + b) / 64 ≡ i = omega arith in
      let remainder : (i * 64 + b) % 64 ≡ b = omega arith in rw (quotient, remainder)

  used_below :
      (i b j : ℕ)
      → b < 64
      → ((k : ℕ) → k < b → test_bit (bitmap i) k ≡ true)
      → i * 64 ≤ j
      → j < i * 64 + b
      → used bitmap j ≡ true
  unfolding used
  used_below i b j h low p q =
      let quotient : j / 64 ≡ i = omega arith in rw quotient (low (j % 64) (omega arith))

  word_hit :
      (i n : ℕ)
      → bitmap i ≢ all_ones
      → let b = ctz 64 (bit_not (bitmap i)) in
        Scan bitmap i (suc n) (some (i * 64 + b, update bitmap i (bit_or (bitmap i) (bit b))))
  word_hit i n ne =
      let found = word_free i ne in
      let b = ctz 64 (bit_not (bitmap i)) in
      hit (omega arith) (omega (arith, found.0)) (used_at i b found.0 ∙ found.1)
        (λ j p q. used_below i b j found.0 found.2 p q) (λ j. used-set bitmap i b j found.0)
        (λ j.
          ground (arith, fits j, bit_or-lt 64 (bitmap i) (bit b) (fits i) (pow_two-lt b found.0)))

  word_passed :
      (i n : ℕ) {r : Option (ℕ × (ℕ → ℕ))}
      → bitmap i ≡ all_ones
      → Scan bitmap (i + 1) n r
      → Scan bitmap i (suc n) r
  word_passed i n ones (full none_free) =
      full λ j p q. ground (arith, word_full i j ones, none_free j)
  word_passed i n ones (hit lo hi free before marks after_fits) =
      hit (omega arith) (omega arith) free (λ j p q. ground (arith, word_full i j ones, before j))
        marks after_fits

  alloc_scan-Scan : (n i : ℕ) → Scan bitmap i n (alloc_scan n i bitmap)
  unfolding alloc_scan
  alloc_scan-Scan zero i = full λ j p q. absurd (omega arith)
  alloc_scan-Scan (suc n) i = elim (Bool-cases (bitmap i == all_ones)) [
    | inl ones ↦ rw (ones, alloc_scan) (word_passed i n (ground arith) (alloc_scan-Scan n (i + 1)))
    | inr room ↦ rw (room, alloc_scan) (word_hit i n (ground arith))
  ]

-- What `alloc_frame` returns and leaves behind: 0 and the same state if every frame is used, or
-- the address of the lowest free frame, which is then marked used, all other marks being kept.
pub data Allocated (p : Pmm) : ℕ × Pmm → Type 0 where
  exhausted :
      {addr : ℕ} {q : Pmm}
      → addr ≡ 0
      → q ≡ p
      → ((j : ℕ) → j < p.total_frames → used p.bitmap j ≡ true)
      → Allocated p (addr, q)
  granted :
      {addr : ℕ} {q : Pmm} (idx : ℕ)
      → addr ≡ p.phys_mem_start + idx * page_size
      → q.phys_mem_start ≡ p.phys_mem_start
      → q.total_frames ≡ p.total_frames
      → idx < p.total_frames
      → used p.bitmap idx ≡ false
      → ((j : ℕ) → j < idx → used p.bitmap j ≡ true)
      → ((j : ℕ) → used q.bitmap j ≡ (used p.bitmap j || (idx == j)))
      → ((j : ℕ) → q.bitmap j < 2 ^ 64)
      → Allocated p (addr, q)

hand_out-Allocated :
    (p : Pmm) (v : IsValid p) {r : Option (ℕ × (ℕ → ℕ))}
    → Scan p.bitmap 0 ((p.total_frames + 63) / 64) r
    → Allocated p (hand_out p r)
unfolding hand_out
hand_out-Allocated p v (full none_free) =
    exhausted refl refl (λ j h. none_free j (omega arith) (omega arith))
hand_out-Allocated p v (hit {idx} lo hi free before marks fits) =
    let inside : idx < p.total_frames = elim (Bool-cases (ltb idx p.total_frames)) [
      | inl yes' ↦ ltb→lt _ _ yes'
      | inr no' ↦ absurd (false≢true (sym free ∙ v.tail idx (ltb→le _ _ no') (omega arith)))
    ] in
    let w = v.within in
    granted idx (omega arith) refl refl inside free (λ j h. before j (omega arith) h) marks fits

-- On a valid allocator `alloc_frame` returns 0 and changes nothing when every frame is used, and
-- otherwise returns the address of the lowest free frame, marks that frame and no other, and keeps
-- the words within 64 bits.
pub alloc_frame-Allocated : (p : Pmm) → IsValid p → Allocated p (alloc_frame p)
unfolding alloc_frame
alloc_frame-Allocated p v = hand_out-Allocated p v (alloc_scan-Scan p.bitmap v.fits _ 0)

pub Allocated-IsValid : {p : Pmm} {r : ℕ × Pmm} → IsValid p → Allocated p r → IsValid r.1
Allocated-IsValid {p} v (exhausted a e _) = subst IsValid (sym e) v
Allocated-IsValid {p} v (granted {q} idx a s t inside free before marks fits) = record {
  fits = fits;
  aligned = rw s v.aligned;
  nonzero = rw s v.nonzero;
  within = rw (s, t) v.within;
  tail = λ j lo hi. ground (arith, marks j, v.tail j, t);
}

-- `alloc_frame` keeps the allocator valid.
pub alloc_frame-IsValid : (p : Pmm) → IsValid p → IsValid (alloc_frame p).1
alloc_frame-IsValid p v = Allocated-IsValid v (alloc_frame-Allocated p v)
