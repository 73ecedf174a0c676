-- ===== src/Bits/Step.antt =====
-- `|` and `&` on native numbers, computed one binary digit at a time.
use Prim.Native.Nat.{digits, bitwise, bit_and-bitwise, bit_or-bitwise, bit_and, bit_or}
use kehinde_kernel.Prelude.{
  ℕ, zero, suc, ◌+◌, ◌*◌, ◌/◌, ◌%◌, ◌≤◌, ◌≡◌, ◌∙◌, refl, arith, min, max, ◌==◌, Bool-cases, inl,
  inr,
}

-- The digit operation `digit`, and what becomes of the second operand once the first is 0.
module _ (rest : ℕ → ℕ) (digit : ℕ → ℕ → ℕ) where
  one_round_more :
      (fuel u v : ℕ) → u ≤ fuel → digits rest digit (suc fuel) u v ≡ digits rest digit fuel u v
  one_round_more zero zero v h = refl
  one_round_more zero (suc u) v h = absurd (omega arith)
  one_round_more (suc fuel) zero v h = refl
  one_round_more (suc fuel) (suc u) v h = rw (one_round_more fuel (suc u / 2) (v / 2) (omega arith))

  -- More fuel than the first operand does not change the result.
  enough_rounds : (fuel u v : ℕ) → u ≤ fuel → digits rest digit fuel u v ≡ bitwise rest digit u v
  enough_rounds zero zero v h = refl
  enough_rounds zero (suc u) v h = absurd (omega arith)
  enough_rounds (suc fuel) u v h = elim (Bool-cases (u == suc fuel)) [
    | inl last ↦ let e : u ≡ suc fuel = ground arith in rw e refl
    | inr spare ↦ one_round_more fuel u v (ground arith) ∙ enough_rounds fuel u v (ground arith)
  ]

  lowest_digit :
      (u v : ℕ)
      → bitwise rest digit (suc u) v
        ≡ bitwise rest digit (suc u / 2) (v / 2) * 2 + digit (suc u % 2) (v % 2)
  lowest_digit u v = omega (arith, enough_rounds u (suc u / 2) (v / 2) (omega arith))

pub zero-bit_and : (v : ℕ) → bit_and 0 v ≡ 0
zero-bit_and v = bit_and-bitwise 0 v

pub bit_and_step : (u v : ℕ) → bit_and u v ≡ bit_and (u / 2) (v / 2) * 2 + min (u % 2) (v % 2)
bit_and_step zero v = simp bit_and-bitwise (omega arith)
bit_and_step (suc u) v = simp bit_and-bitwise (lowest_digit (λ _. 0) min u v)

pub bit_or_step : (u v : ℕ) → bit_or u v ≡ bit_or (u / 2) (v / 2) * 2 + max (u % 2) (v % 2)
bit_or_step zero v = simp bit_or-bitwise (omega arith)
bit_or_step (suc u) v = simp bit_or-bitwise (lowest_digit (λ w. w) max u v)
