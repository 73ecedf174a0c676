-- ===== src/Run.antt =====
-- What a call of C code comes to: a return, a halt in `panic`, the use of a pointer that points
-- nowhere, or a loop that is still running when its bound is used up.
pub mod Ends
use kehinde_kernel.Prelude.{◌≡◌, refl}

pub data Run (A : Type 0) : Type 0 where
  ok : A → Run A
  panic : Run A
  fault : Run A
  out_of_fuel : Run A

-- The call `next` of the result of `first`, if there is one.
infixl 5 ◌>>=◌
abbrev pub ◌>>=◌ : {X Y : Type 0} → Run X → (X → Run Y) → Run Y
out_of_fuel >>= next = out_of_fuel
fault >>= next = fault
panic >>= next = panic
ok x >>= next = next x

-- Where the sequence returns, its first call has returned, and so has the second.
pub >>=-eq-ok :
    {X Y : Type 0} (first : Run X) (next : X → Run Y) {y : Y}
    → (first >>= next) ≡ ok y
    → (x : X) × (first ≡ ok x) × (next x ≡ ok y)
>>=-eq-ok out_of_fuel next returned = cc
>>=-eq-ok fault next returned = cc
>>=-eq-ok panic next returned = cc
>>=-eq-ok (ok x) next returned = (x, refl, returned)

-- Two calls with the same result go on alike.
pub >>=-cong :
    {A B : Type 0} (m : Run A) (f g : A → Run B) → ((a : A) → f a ≡ g a) → (m >>= f) ≡ (m >>= g)
>>=-cong (ok a) f g h = h a
>>=-cong panic f g h = refl
>>=-cong fault f g h = refl
>>=-cong out_of_fuel f g h = refl

-- Sequences can be grouped either way.
pub >>=-assoc :
    {A B C : Type 0} (m : Run A) (f : A → Run B) (g : B → Run C)
    → (m >>= f >>= g) ≡ (m >>= λ a. f a >>= g)
>>=-assoc (ok a) f g = refl
>>=-assoc panic f g = refl
>>=-assoc fault f g = refl
>>=-assoc out_of_fuel f g = refl

-- A call whose result is given back.
pub >>=-ok : {A : Type 0} (m : Run A) → (m >>= ok) ≡ m
>>=-ok (ok a) = refl
>>=-ok panic = refl
>>=-ok fault = refl
>>=-ok out_of_fuel = refl
