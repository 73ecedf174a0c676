-- ===== src/Filesystem/Names.antt =====
-- Comparison of names in src/filesystem/filesystem.cpp.
use kehinde_kernel.Prelude.{
  ℕ, zero, suc, ◌+◌, ◌-◌, ◌≡◌, ◌≢◌, ◌↔◌, refl, ap, Bool, true, false, List, [], ◌∷◌, ◌==◌,
  if◌then◌else◌, get_or, length, arith,
}

-- `s[i]`, the terminator behind the last byte.
abbrev pub char_at : List ℕ → ℕ → ℕ
char_at s i = get_or s i 0

-- A C string holds no zero before its terminator.
abbrev pub IsText : List ℕ → Type 0
IsText [] = Unit {0}
IsText (c ∷ cs) = (c ≢ 0) × IsText cs

-- The loop of `name_matches` at index `i` with `left` rounds to go.
unfoldable pub name_matches_loop : List ℕ → ℕ → List ℕ → ℕ → ℕ → Bool
name_matches_loop path start name zero i = char_at name i == 0
name_matches_loop path start name (suc left) i =
    let rest = name_matches_loop path start name left (i + 1) in
    if char_at path (start + i) == char_at name i
    then (if char_at name i == 0 then false else rest)
    else false

-- `name_matches`; the callers pass `start ≤ end`.
unfoldable pub name_matches : List ℕ → ℕ → ℕ → List ℕ → Bool
name_matches path start end name = name_matches_loop path start name (end - start) 0

-- The loop of `name_matches_single`.
unfoldable pub same_bytes : List ℕ → List ℕ → Bool
same_bytes [] [] = true
same_bytes [] (d ∷ ds) = false
same_bytes (c ∷ cs) [] = false
same_bytes (c ∷ cs) (d ∷ ds) = let rest = same_bytes cs ds in if c == d then rest else false

-- `name_matches_single`.
unfoldable pub name_matches_single : List ℕ → List ℕ → Bool
unfolding same_bytes
name_matches_single name1 name2 =
    if length name1 == length name2 then same_bytes name1 name2 else false

same_bytes_iff : (a b : List ℕ) → (same_bytes a b ≡ true) ↔ (a ≡ b)
unfolding same_bytes
same_bytes_iff [] [] = (λ _. refl, λ _. refl)
same_bytes_iff [] (d ∷ ds) = (λ h. cc, λ h. cc)
same_bytes_iff (c ∷ cs) [] = (λ h. cc, λ h. cc)
same_bytes_iff (c ∷ cs) (d ∷ ds) = ground (arith, same_bytes_iff cs ds)

-- `name_matches_single` decides equality of names.
pub name_matches_single_iff : (a b : List ℕ) → (name_matches_single a b ≡ true) ↔ (a ≡ b)
unfolding name_matches_single
name_matches_single_iff a b =
    ground (arith, same_bytes_iff a b, λ (e : a ≡ b). ap (length {A = ℕ}) e)
