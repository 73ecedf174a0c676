-- ===== src/Run/Ends.antt =====
-- How calls of C code end, and what holds of their results.
use kehinde_kernel.Prelude.{◌≡◌, refl, subst}
use kehinde_kernel.Run.{Run, ok, panic, fault, out_of_fuel, ◌>>=◌}

-- A call that returns a result with `P`, or still waits for a device; it may panic or use a bad
-- pointer only where `Oom` and `Wild` give a reason.
pub data Ends {A : Type 0} (Oom Wild : Type 0) (P : A → Type 0) : Run A → Type 0 where
  returns : {a : A} → P a → Ends Oom Wild P (ok a)
  waits : Ends Oom Wild P out_of_fuel
  panics : Oom → Ends Oom Wild P panic
  faults : Wild → Ends Oom Wild P fault

pub Ends->>= :
    {A B : Type 0} {Oom Wild : Type 0} {P : A → Type 0} {Q : B → Type 0} {first : Run A}
    (next : A → Run B)
    → Ends Oom Wild P first
    → ((a : A) → P a → Ends Oom Wild Q (next a))
    → Ends Oom Wild Q (first >>= next)
Ends->>= next (returns {a} p) h = h a p
Ends->>= next waits h = waits
Ends->>= next (panics why) h = panics why
Ends->>= next (faults why) h = faults why

-- A weaker statement of the same call.
pub Ends-weaker :
    {A : Type 0} {Oom Wild Oom' Wild' : Type 0} {P Q : A → Type 0} {r : Run A}
    → (Oom → Oom')
    → (Wild → Wild')
    → ((a : A) → P a → Q a)
    → Ends Oom Wild P r
    → Ends Oom' Wild' Q r
Ends-weaker o w h (returns {a} p) = returns (h a p)
Ends-weaker o w h waits = waits
Ends-weaker o w h (panics why) = panics (o why)
Ends-weaker o w h (faults why) = faults (w why)

-- A call that ends in a way of its own, and returns.
pub Ends_result :
    {A : Type 0} {Oom Wild : Type 0} {P : A → Type 0} {r : Run A} {a : A}
    → Ends Oom Wild P r
    → r ≡ ok a
    → P a
Ends_result {P = P} (returns {a} p) e = let same : a ≡ _ = cc in subst P same p
Ends_result waits e = cc
Ends_result (panics why) e = cc
Ends_result (faults why) e = cc

-- What is known of the result of a call, with the call that gave it.
pub Ends-known :
    {A : Type 0} {Oom Wild : Type 0} {P : A → Type 0} {r : Run A}
    → Ends Oom Wild P r
    → Ends Oom Wild (λ (a : A). P a × (r ≡ ok a)) r
Ends-known (returns p) = returns (p, refl)
Ends-known waits = waits
Ends-known (panics why) = panics why
Ends-known (faults why) = faults why
