-- ===== src/Bits/Fields.antt =====
-- Numbers made of a high part and low flags, as the descriptors of page tables are.
use kehinde_kernel.Prelude.{
  ℕ, zero, suc, ◌+◌, ◌-◌, ◌*◌, ◌/◌, ◌%◌, ◌^◌, ◌<◌, ◌≡◌, refl, sym, ap, ◌∙◌, arith, ◌==◌, true,
  false,
}
use kehinde_kernel.Bits.{bit_and, bit_or, bit_or_step, bit_and_step, bit_or-lt}
use kehinde_kernel.Bits.Single.{bit_and-high_mask}
use native.Mathlib.Nat.{
  pow-suc, div-div-eq-div-mul, one-le-pow, mod-eq-sub-div-mul, div-mul-le_self,
}

below_bit_or-zero : (k x : ℕ) → x < 2 ^ k → bit_or x 0 ≡ x
below_bit_or-zero zero x h = let e : x ≡ 0 = omega arith in rw e refl
below_bit_or-zero (suc k) x h =
    omega (arith, bit_or_step x 0, below_bit_or-zero k (x / 2) (omega (arith, pow-suc 2 k)))

below_bit_and-zero : (k x : ℕ) → x < 2 ^ k → bit_and x 0 ≡ 0
below_bit_and-zero zero x h = let e : x ≡ 0 = omega arith in rw e refl
below_bit_and-zero (suc k) x h =
    omega (arith, bit_and_step x 0, below_bit_and-zero k (x / 2) (omega (arith, pow-suc 2 k)))

halve_shift : (k x : ℕ) → x / 2 ^ suc k ≡ x / 2 / 2 ^ k
halve_shift k x =
    ap (λ d. x / d) (omega (arith, pow-suc 2 k)) ∙ sym (div-div-eq-div-mul x 2 (2 ^ k))

-- Flags below `2 ^ k` leave what stands above.
above_flags : (k n a b : ℕ) → a < 2 ^ n → b < 2 ^ k → bit_or a b / 2 ^ k ≡ a / 2 ^ k
above_flags zero n a b h f =
    let e : b ≡ 0 = omega arith in rw e (omega (arith, below_bit_or-zero n a h))
above_flags (suc k) n a b h f =
    rw (halve_shift k (bit_or a b), halve_shift k a)
      (ap (λ x. x / 2 ^ k) (omega (arith, bit_or_step a b))
        ∙ above_flags k n (a / 2) (b / 2) (omega arith) (omega (arith, pow-suc 2 k)))

below_64 : (x : ℕ) → x < 2 ^ 64 → (bit_and x 0 ≡ 0) × (bit_or x 0 ≡ x)
below_64 x h = (below_bit_and-zero 64 x h, below_bit_or-zero 64 x h)

-- A number whose last two bits are set passes the test for a table or a page.
pub low_bits_set : (x : ℕ) → x < 2 ^ 64 → (bit_and (bit_or x 3) 3 == 3) ≡ true
low_bits_set x h =
    let y = bit_or x 3 in
    let quarter : y / 2 / 2 ≡ x / 2 / 2 =
      omega
        (arith, bit_or_step x 3, bit_or_step (x / 2) 1, (below_64 (x / 2 / 2) (omega arith)).1) in
    ground (
      arith,
      bit_or_step x 3,
      bit_or_step (x / 2) 1,
      bit_and_step y 3,
      bit_and_step (y / 2) 1,
      (below_64 (y / 2 / 2) (omega arith)).0,
    )

pub low_bit_set : (x : ℕ) → x < 2 ^ 64 → (bit_and (bit_or x 3) 1 == 0) ≡ false
low_bit_set x h = ground (arith, bit_or_step x 3, bit_and_step (bit_or x 3) 1)

-- The mask of addresses takes off the flags of an aligned address below `2 ^ 48`.
pub masked_address :
    (a b : ℕ)
    → a < 2 ^ 48
    → a % 4096 ≡ 0
    → b < 4096
    → bit_and (bit_or a b) 0x0000_FFFF_FFFF_F000 ≡ a
masked_address a b h aligned f =
    let high : bit_or a b / 2 ^ 12 ≡ a / 2 ^ 12 = above_flags 12 48 a b h f in
    omega (arith, bit_and-high_mask 12 36 (bit_or a b) (bit_or-lt 48 a b h (omega arith)), high)

-- A mask bounds what it lets through.
pub bit_and-lt : (k n a b : ℕ) → a < 2 ^ n → b < 2 ^ k → bit_and a b < 2 ^ k
bit_and-lt zero n a b h f =
    let e : b ≡ 0 = omega arith in rw e (omega (arith, below_bit_and-zero n a h))
bit_and-lt (suc k) n a b h f = omega (
  arith,
  bit_and_step a b,
  bit_and-lt k n (a / 2) (b / 2) (omega arith) (omega (arith, pow-suc 2 k)),
  pow-suc 2 k,
)

-- The same below two layers of flags.
pub masked_page :
    (a f : ℕ)
    → a < 2 ^ 48
    → a % 4096 ≡ 0
    → f < 4096
    → bit_and (bit_or (bit_or a f) 3) 0x0000_FFFF_FFFF_F000 ≡ a
masked_page a f h aligned small =
    let inner = bit_or-lt 48 a f h (omega arith) in
    let high : bit_or (bit_or a f) 3 / 2 ^ 12 ≡ a / 2 ^ 12 =
      above_flags 12 48 (bit_or a f) 3 inner (omega arith) ∙ above_flags 12 48 a f h small in
    omega (
      arith,
      bit_and-high_mask 12 36 (bit_or (bit_or a f) 3)
          (bit_or-lt 48 (bit_or a f) 3 inner (omega arith)),
      high,
    )

low_digit : (p x : ℕ) → x % (2 * p) ≡ x / 2 % p * 2 + x % 2
low_digit p x =
    let q = x / 2 / p in
    let e : q * (2 * p) ≡ 2 * (q * p) = grind arith in
    let whole : x / (2 * p) * (2 * p) ≡ 2 * (q * p) =
      ap (λ t. t * (2 * p)) (sym (div-div-eq-div-mul x 2 p)) ∙ e in
    omega (
      arith,
      mod-eq-sub-div-mul x (2 * p),
      mod-eq-sub-div-mul (x / 2) p,
      div-mul-le_self (x / 2) p,
      whole,
    )

-- A mask of the low `k` bits is the remainder by `2 ^ k`.
pub bit_and-low_mask : (k n x : ℕ) → x < 2 ^ n → bit_and x (2 ^ k - 1) ≡ x % 2 ^ k
bit_and-low_mask zero n x h = omega (arith, below_bit_and-zero n x h)
bit_and-low_mask (suc k) n x h =
    let half : (2 ^ suc k - 1) / 2 ≡ 2 ^ k - 1 = omega (arith, pow-suc 2 k) in
    let pos = one-le-pow k 2 (omega arith) in
    let odd : (2 ^ suc k - 1) % 2 ≡ 1 = omega (arith, pow-suc 2 k) in
    let double : 2 ^ suc k ≡ 2 * 2 ^ k = omega (arith, pow-suc 2 k) in
    let rest = bit_and-low_mask k n (x / 2) (omega arith) in
    rw (bit_and_step x (2 ^ suc k - 1), half, odd, double, low_digit (2 ^ k) x, rest) (omega arith)

-- Low bits joined to a multiple of `2 ^ k` are added to it.
bit_or-high : (k n a b : ℕ) → a * 2 ^ k < 2 ^ n → b < 2 ^ k → bit_or (a * 2 ^ k) b ≡ a * 2 ^ k + b
bit_or-high zero n a b h f =
    let e : b ≡ 0 = omega arith in rw e (omega (arith, below_bit_or-zero n (a * 2 ^ 0) h))
bit_or-high (suc k) n a b h f =
    let step : 2 ^ suc k ≡ 2 * 2 ^ k = omega (arith, pow-suc 2 k) in
    let pair : a * (2 * 2 ^ k) ≡ a * 2 ^ k * 2 = grind arith in
    let double : a * 2 ^ suc k ≡ a * 2 ^ k * 2 = ap (λ t. a * t) step ∙ pair in
    let half : a * 2 ^ k * 2 / 2 ≡ a * 2 ^ k = omega arith in
    let even : a * 2 ^ k * 2 % 2 ≡ 0 = omega arith in
    let rest = bit_or-high k n a (b / 2) (omega arith) (omega (arith, step)) in
    rw (double, bit_or_step (a * 2 ^ k * 2) b, half, even, rest) (omega arith)

-- An address is its page joined with its low twelve bits.
pub page_join : (virt : ℕ) → virt < 2 ^ 48 → bit_or (virt / 4096 * 4096) (bit_and virt 0xFFF) ≡ virt
page_join virt h =
    rw (bit_and-low_mask 12 48 virt h)
      (omega (arith, bit_or-high 12 48 (virt / 4096) (virt % 4096) (omega arith) (omega arith)))
