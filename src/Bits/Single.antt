-- ===== src/Bits/Single.antt =====
-- The tests and updates of one bit that the source writes with a shifted one, the count of
-- trailing zeros, and rounding by a mask.
use kehinde_kernel.Prelude.{
  ℕ, zero, suc, ◌-◌, ◌*◌, ◌/◌, ◌%◌, ◌^◌, ◌<◌, ◌≡◌, ◌≢◌, refl, ◌∙◌, ap, sym, true, false, not, ◌&&◌,
  arith, ◌==◌, if◌then◌else◌, Bool-cases, inl, inr,
}
use native.Mathlib.Nat.{pow-suc, one-le-pow, mul_comm, div-div-eq-div-mul}
use kehinde_kernel.Bits.{
  bit_and, bit_and_step, bit, test_bit, test_bit-and, test_bit-bit, test_bit-zero, zero-bit_and,
  zero_of_test_bit, bit_and-le,
}

-- `__builtin_ctzll`: the number of zeros below the lowest one, `k` bits being looked at.
unfoldable pub ctz : ℕ → ℕ → ℕ
ctz zero w = 0
ctz (suc k) w = if w % 2 == 1 then 0 else suc (ctz k (w / 2))

-- Of a word that is not zero it finds a set bit, and no lower bit is set.
pub ctz_lem :
    (k w : ℕ)
    → w < 2 ^ k
    → w ≢ 0
    → (ctz k w < k) × (test_bit w (ctz k w) ≡ true) × ((i : ℕ) → i < ctz k w → test_bit w i ≡ false)
unfolding ctz test_bit
ctz_lem zero w h ne = absurd (ne (omega arith))
ctz_lem (suc k) w h ne = elim (Bool-cases (w % 2 == 1)) [
  | inl odd ↦ rw odd (omega arith, odd, λ i p. absurd (omega arith))
  | inr even ↦
      let rest = ctz_lem k (w / 2) (omega (arith, pow-suc 2 k)) (λ e. ne (ground arith)) in
      rw even (omega (arith, rest.0), rest.1, below even rest.2)
]
  where
    below :
        (w % 2 == 1) ≡ false
        → ((i : ℕ) → i < ctz k (w / 2) → test_bit (w / 2) i ≡ false)
        → (i : ℕ) → i < suc (ctz k (w / 2))
        → test_bit w i ≡ false
    below even f zero p = even
    below even f (suc i) p = f i (omega arith)

-- `(w & (1ULL << b)) != 0` is the test of bit `b`.
pub masked-eq-zero : (w b : ℕ) → w < 2 ^ 64 → (bit_and w (bit b) == 0) ≡ not (test_bit w b)
masked-eq-zero w b h = elim (Bool-cases (test_bit w b)) [
  | inl set ↦ rw set (elim (Bool-cases (bit_and w (bit b) == 0)) [
    | inl z ↦ absurd (differ (eq_zero z) set)
    | inr nz ↦ nz
  ])
  | inr clear ↦ rw clear (rw (gone clear) refl)
]
  where
    eq_zero : (bit_and w (bit b) == 0) ≡ true → bit_and w (bit b) ≡ 0
    eq_zero z = ground arith

    at : test_bit (bit_and w (bit b)) b ≡ (test_bit w b && (b == b))
    at = test_bit-and b w (bit b) ∙ ap (◌&&◌ (test_bit w b)) (test_bit-bit b b)

    differ : bit_and w (bit b) ≡ 0 → test_bit w b ≡ true → ⊥
    differ z set = ground (arith, at, test_bit-zero b, ap (λ n. test_bit n b) z)

    each : test_bit w b ≡ false → (i : ℕ) → test_bit (bit_and w (bit b)) i ≡ false
    each clear i =
        rw (test_bit-and i w (bit b), test_bit-bit b i)
          (elim (Bool-cases (b == i)) [
            | inl e ↦ let p : b ≡ i = ground arith in rw (← p) (ground arith)
            | inr ne ↦ ground arith
          ])

    gone : test_bit w b ≡ false → bit_and w (bit b) ≡ 0
    gone clear =
        zero_of_test_bit 64 (bit_and w (bit b)) (omega (arith, bit_and-le 64 w (bit b) h))
          (each clear)

-- `x & (2^m - 1)` is `x` itself below `2 ^ m`.
bit_and-mask : (m x : ℕ) → x < 2 ^ m → bit_and x (2 ^ m - 1) ≡ x
bit_and-mask zero x h = let e : x ≡ 0 = omega arith in rw e (omega (arith, zero-bit_and 0))
bit_and-mask (suc m) x h =
    let half : (2 ^ suc m - 1) / 2 ≡ 2 ^ m - 1 = omega (arith, pow-suc 2 m) in
    let odd : (2 ^ suc m - 1) % 2 ≡ 1 = omega (arith, pow-suc 2 m, one-le-pow m 2 (omega arith)) in
    rw (bit_and_step x (2 ^ suc m - 1), half, odd)
      (omega (arith, bit_and-mask m (x / 2) (omega (arith, pow-suc 2 m))))

-- `value & ~(2^k - 1)` clears the low `k` bits: here for a mask of `m` ones above them.
pub bit_and-high_mask :
    (k m x : ℕ) → x < 2 ^ m * 2 ^ k → bit_and x ((2 ^ m - 1) * 2 ^ k) ≡ x / 2 ^ k * 2 ^ k
bit_and-high_mask zero m x h =
    let e : (2 ^ m - 1) * 2 ^ 0 ≡ 2 ^ m - 1 = omega arith in
    rw e (omega (arith, bit_and-mask m x (omega arith)))
bit_and-high_mask (suc k) m x h =
    let twice : (2 ^ m - 1) * 2 ^ suc k ≡ 2 * ((2 ^ m - 1) * 2 ^ k) =
      omega (arith, ap (λ (t : ℕ). (2 ^ m - 1) * t) (pow-suc 2 k)) in
    let bound : x / 2 < 2 ^ m * 2 ^ k = omega (arith, ap (λ (t : ℕ). 2 ^ m * t) (pow-suc 2 k)) in
    let quotient : x / 2 ^ suc k ≡ x / 2 / 2 ^ k =
      ap (λ (t : ℕ). x / t) (pow-suc 2 k ∙ mul_comm (2 ^ k) 2)
      ∙ sym (div-div-eq-div-mul x 2 (2 ^ k)) in
    let product : x / 2 / 2 ^ k * 2 ^ suc k ≡ 2 * (x / 2 / 2 ^ k * 2 ^ k) =
      omega (arith, ap (λ (t : ℕ). x / 2 / 2 ^ k * t) (pow-suc 2 k)) in
    let half : (2 ^ m - 1) * 2 ^ suc k / 2 ≡ (2 ^ m - 1) * 2 ^ k = omega (arith, twice) in
    let even : (2 ^ m - 1) * 2 ^ suc k % 2 ≡ 0 = omega (arith, twice) in
    rw (quotient, product, bit_and_step x ((2 ^ m - 1) * 2 ^ suc k), half, even)
      (omega (arith, bit_and-high_mask k m (x / 2) bound))
