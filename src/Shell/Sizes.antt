-- ===== src/Shell/Sizes.antt =====
-- The lengths of operands and paths in src/shell/shell.cpp.
use kehinde_kernel.Prelude.{
  ℕ, ◌+◌, ◌-◌, inl, inr, Bool-cases, ◌≤◌, ◌≡◌, refl, arith, ◌==◌, length, length-append, drop, List,
  [], ◌∷◌,
}
use kehinde_kernel.Filesystem.Names.{char_at}
use kehinde_kernel.Shell.{extend_path, join_args}
use kehinde_kernel.Shell.Commands.{arg}

-- The words of a text are no longer than all words.
length-join_args-drop :
    (words : List (List ℕ)) → length (join_args (drop 1 words)) ≤ length (join_args words)
unfolding join_args
length-join_args-drop [] = omega arith
length-join_args-drop (w ∷ []) = omega arith
length-join_args-drop (w ∷ v ∷ rest) = omega (arith, length-append w (b' ' ∷ join_args (v ∷ rest)))

drop_two : (words : List (List ℕ)) → drop 2 words ≡ drop 1 (drop 1 words)
drop_two [] = refl
drop_two (w ∷ rest) = refl

pub length-join_args-drop_two :
    (words : List (List ℕ)) → length (join_args (drop 2 words)) ≤ length (join_args words)
length-join_args-drop_two words =
    rw (drop_two words)
      (omega (arith, length-join_args-drop words, length-join_args-drop (drop 1 words)))

-- An operand is no longer than all words.
pub length-arg : (words : List (List ℕ)) → length (arg words 1) ≤ length (join_args words)
unfolding arg join_args
length-arg [] = omega arith
length-arg (w ∷ []) = omega arith
length-arg (w ∷ v ∷ []) = omega (arith, length-append w (b' ' ∷ v))
length-arg (w ∷ v ∷ u ∷ rest) = omega (
  arith,
  length-append w (b' ' ∷ join_args (v ∷ u ∷ rest)),
  length-append v (b' ' ∷ join_args (u ∷ rest)),
)

-- The path with an operand is at most one byte longer than both.
pub length-extend_path_le :
    (cwd name : List ℕ) → length (extend_path cwd name) ≤ length cwd + 1 + length name
unfolding extend_path
length-extend_path_le cwd name = elim (Bool-cases (char_at cwd (length cwd - 1) == b'/')) [
  | inl slash ↦ rw slash (omega (arith, length-append cwd name))
  | inr bare ↦ rw bare (omega (arith, length-append cwd (b'/' ∷ name)))
]
