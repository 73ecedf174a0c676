-- ===== src/Bits.antt =====
-- 64-bit words as native numbers: the operators `~`, `|`, `&`, `<<` of the source and
-- `__builtin_ctzll`, described bit by bit.
mod Step
pub mod Single
pub mod Fields
pub use Step.{bit_or_step, bit_and_step, zero-bit_and}
pub use Prim.Native.Nat.{bit_and, bit_or}
use kehinde_kernel.Prelude.{
  ℕ, zero, suc, ◌+◌, ◌-◌, ◌*◌, ◌/◌, ◌%◌, ◌^◌, ◌≤◌, ◌<◌, ◌≡◌, refl, ◌∙◌, ap, Bool, true, false, not,
  ◌&&◌, ◌||◌, arith, ◌==◌, if◌then◌else◌, min, max,
}
use native.Mathlib.Nat.{pow-suc, one-le-pow}

abbrev pub word_mod : ℕ
word_mod = 2 ^ 64

-- `~0ULL`.
abbrev pub all_ones : ℕ
all_ones = 2 ^ 64 - 1

-- The conversion of a result to `uint64_t`.
abbrev pub u64 : ℕ → ℕ
u64 n = n % 2 ^ 64

-- `a - b` on `uint64_t`, for operands below `2 ^ 64`.
abbrev pub sub64 : ℕ → ℕ → ℕ
sub64 a b = (a + 2 ^ 64 - b) % 2 ^ 64

-- `~w`.
abbrev pub bit_not : ℕ → ℕ
bit_not w = 2 ^ 64 - 1 - w

-- `1ULL << k`, for `k < 64`.
abbrev pub bit : ℕ → ℕ
bit k = 2 ^ k

-- Bit `i` of a number.
unfoldable pub test_bit : ℕ → ℕ → Bool
test_bit n zero = n % 2 == 1
test_bit n (suc i) = test_bit (n / 2) i

pub test_bit-or : (i a b : ℕ) → test_bit (bit_or a b) i ≡ (test_bit a i || test_bit b i)
unfolding test_bit
test_bit-or zero a b = ground (arith, bit_or_step a b)
test_bit-or (suc i) a b =
    let half : bit_or a b / 2 ≡ bit_or (a / 2) (b / 2) = omega (arith, bit_or_step a b) in
    rw half (test_bit-or i (a / 2) (b / 2))

pub test_bit-and : (i a b : ℕ) → test_bit (bit_and a b) i ≡ (test_bit a i && test_bit b i)
unfolding test_bit
test_bit-and zero a b = ground (arith, bit_and_step a b)
test_bit-and (suc i) a b =
    let half : bit_and a b / 2 ≡ bit_and (a / 2) (b / 2) = omega (arith, bit_and_step a b) in
    rw half (test_bit-and i (a / 2) (b / 2))

halve_pow : (b : ℕ) → (2 ^ suc b / 2 ≡ 2 ^ b) × (2 ^ suc b % 2 ≡ 0)
halve_pow b = (omega (arith, pow-suc 2 b), omega (arith, pow-suc 2 b))

-- The empty word has no bit.
pub test_bit-zero : (i : ℕ) → test_bit 0 i ≡ false
unfolding test_bit
test_bit-zero zero = refl
test_bit-zero (suc i) = test_bit-zero i

-- `1ULL << b` has bit `b` alone.
pub test_bit-bit : (b i : ℕ) → test_bit (bit b) i ≡ (b == i)
unfolding test_bit
test_bit-bit zero zero = refl
test_bit-bit zero (suc i) = test_bit-zero i ∙ ground arith
test_bit-bit (suc b) zero = ground (arith, halve_pow b)
test_bit-bit (suc b) (suc i) = rw ((halve_pow b).0) (test_bit-bit b i ∙ ground arith)

-- The complement within `k` bits flips each of them.
pub test_bit-complement :
    (k i w : ℕ) → w < 2 ^ k → i < k → test_bit (2 ^ k - 1 - w) i ≡ not (test_bit w i)
unfolding test_bit
test_bit-complement zero i w h p = absurd (omega arith)
test_bit-complement (suc k) zero w h p = ground (arith, pow-suc 2 k, one-le-pow k 2)
test_bit-complement (suc k) (suc i) w h p =
    let half : (2 ^ suc k - 1 - w) / 2 ≡ 2 ^ k - 1 - w / 2 =
      omega (arith, pow-suc 2 k, one-le-pow k 2) in
    rw half (test_bit-complement k i (w / 2) (omega (arith, pow-suc 2 k)) (omega arith))

pub test_bit-not : (i w : ℕ) → w < 2 ^ 64 → i < 64 → test_bit (bit_not w) i ≡ not (test_bit w i)
test_bit-not i w = test_bit-complement 64 i w

-- Bits from `k` on are absent from a number below `2 ^ k`.
pub test_bit-high : (k i w : ℕ) → w < 2 ^ k → k ≤ i → test_bit w i ≡ false
unfolding test_bit
test_bit-high zero i w h p = let e : w ≡ 0 = omega arith in rw e (test_bit-zero i)
test_bit-high (suc k) zero w h p = absurd (omega arith)
test_bit-high (suc k) (suc i) w h p =
    test_bit-high k i (w / 2) (omega (arith, pow-suc 2 k)) (omega arith)

-- `2 ^ k - 1` has exactly the low `k` bits.
pub test_bit-mask : (k i : ℕ) → i < k → test_bit (2 ^ k - 1) i ≡ true
test_bit-mask k i h =
    let e : 2 ^ k - 1 ≡ 2 ^ k - 1 - 0 = omega arith in
    rw e (test_bit-complement k i 0 (one-le-pow k 2 (omega arith)) h ∙ ap not (test_bit-zero i))

-- Numbers with no bit set are zero.
pub zero_of_test_bit : (k w : ℕ) → w < 2 ^ k → ((i : ℕ) → test_bit w i ≡ false) → w ≡ 0
unfolding test_bit
zero_of_test_bit zero w h none_set = omega arith
zero_of_test_bit (suc k) w h none_set =
    let high : w / 2 ≡ 0 =
      zero_of_test_bit k (w / 2) (omega (arith, pow-suc 2 k)) (λ i. none_set (suc i)) in
    ground (arith, none_set 0)

-- `|` and `&` stay in the width.
pub bit_or-lt : (k a b : ℕ) → a < 2 ^ k → b < 2 ^ k → bit_or a b < 2 ^ k
bit_or-lt zero a b p q =
    let e : a ≡ 0 = omega arith in let f : b ≡ 0 = omega arith in rw (e, f) (omega arith)
bit_or-lt (suc k) a b p q = omega (
  arith,
  bit_or_step a b,
  pow-suc 2 k,
  bit_or-lt k (a / 2) (b / 2) (omega (arith, pow-suc 2 k)) (omega (arith, pow-suc 2 k)),
)

pub bit_and-le : (k a b : ℕ) → a < 2 ^ k → bit_and a b ≤ a
bit_and-le zero a b p = let e : a ≡ 0 = omega arith in rw e (omega (arith, zero-bit_and b))
bit_and-le (suc k) a b p =
    omega (arith, bit_and_step a b, bit_and-le k (a / 2) (b / 2) (omega (arith, pow-suc 2 k)))
