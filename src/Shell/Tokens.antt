-- ===== src/Shell/Tokens.antt =====
-- `parse_args` and `join_args` of src/shell/shell.cpp.
use kehinde_kernel.Prelude.{
  ℕ, zero, suc, ◌+◌, ◌≤◌, ◌<◌, ◌≡◌, ◌≢◌, refl, ap, subst, ◌∙◌, false, ◌==◌, length, length-append,
  List, [], ◌∷◌, ◌++◌, arith, Bool-cases, ◌⊎◌, inl, inr,
}
use kehinde_kernel.Shell.{join_args, skip_spaces, take_token, parse_args}

-- No byte of the list is a space.
abbrev pub Solid : List ℕ → Type 0
Solid [] = Unit {0}
Solid (c ∷ cs) = (c ≢ b' ') × Solid cs

-- A token: at least one byte, and no space.
abbrev pub IsToken : List ℕ → Type 0
IsToken w = (0 < length w) × Solid w

module _ {ℓ κ} {A : Type ℓ} (P : A → Type κ) where
  abbrev pub All : List A → Type κ
  All [] = Unit {κ}
  All (x ∷ xs) = P x × All xs

skip_spaces-length : (line : List ℕ) → length (skip_spaces line) ≤ length line
unfolding skip_spaces
skip_spaces-length [] = omega arith
skip_spaces-length (c ∷ cs) = ground (arith, skip_spaces-length cs)

-- What stands behind the skipped spaces begins with another byte.
skip_spaces-starts :
    (line : List ℕ) {c : ℕ} {cs : List ℕ} → skip_spaces line ≡ c ∷ cs → (c == b' ') ≡ false
unfolding skip_spaces
skip_spaces-starts [] h = cc
skip_spaces-starts (d ∷ ds) {c} h = elim (Bool-cases (d == b' ')) [
  | inl space ↦ skip_spaces-starts ds (rw space at h)
  | inr solid ↦ let f = rw solid at h in let e : d ≡ c = cc in rw (← e) solid
]

-- Where something stands behind the token, the space between is gone.
take_token-length :
    (line : List ℕ)
    → (length (take_token line).0 + length (take_token line).1 ≤ length line)
      × (0 < length (take_token line).1
          → length (take_token line).0 + length (take_token line).1 < length line)
unfolding take_token
take_token-length [] = (omega arith, λ h. absurd (omega arith))
take_token-length (c ∷ cs) = elim (Bool-cases (c == b' ')) [
  | inl space ↦ rw space (omega arith, λ h. omega arith)
  | inr solid ↦
      let (le, lt) = take_token-length cs in rw solid (omega arith, λ h. omega (arith, lt h))
]

take_token-Solid : (line : List ℕ) → Solid (take_token line).0
unfolding take_token
take_token-Solid [] = tt
take_token-Solid (c ∷ cs) = elim (Bool-cases (c == b' ')) [
  | inl space ↦ rw space tt
  | inr solid ↦ rw solid (ground arith, take_token-Solid cs)
]

List-cases {ℓ} :
    {A : Type ℓ} (xs : List A) → (xs ≡ []) ⊎ ((x : A) × (rest : List A) × (xs ≡ x ∷ rest))
List-cases [] = inl refl
List-cases (x ∷ rest) = inr (x, rest, refl)

-- One round of `parse_args`.
parse_args_step :
    (room : ℕ) (line : List ℕ) {c : ℕ} {cs : List ℕ}
    → skip_spaces line ≡ c ∷ cs
    → parse_args (suc room) line ≡ (take_token (c ∷ cs)).0 ∷ parse_args room (take_token (c ∷ cs)).1
unfolding parse_args
parse_args_step room line e = rw (e, parse_args) refl

parse_args_stop :
    (room : ℕ) (line : List ℕ) → skip_spaces line ≡ [] → parse_args (suc room) line ≡ []
unfolding parse_args
parse_args_stop room line e = rw (e, parse_args) refl

take_token-full : (c : ℕ) (cs : List ℕ) → (c == b' ') ≡ false → 0 < length (take_token (c ∷ cs)).0
unfolding take_token
take_token-full c cs solid = rw solid (omega arith)

-- `parse_args` gives at most as many arguments as it has room for, and each is a token.
pub parse_args-IsToken :
    (room : ℕ) (line : List ℕ)
    → (length (parse_args room line) ≤ room) × All IsToken (parse_args room line)
unfolding parse_args
parse_args-IsToken zero line = (omega arith, tt)
parse_args-IsToken (suc room) line = elim (List-cases (skip_spaces line)) [
  | inl e ↦ rw (parse_args_stop room line e) (omega arith, tt)
  | inr (c, cs, e) ↦
      let (few, tokens) = parse_args-IsToken room (take_token (c ∷ cs)).1 in
      rw (parse_args_step room line e) (
        omega arith,
        ((take_token-full c cs (skip_spaces-starts line e), take_token-Solid (c ∷ cs)), tokens),
      )
]

-- The arguments are no longer than the line they come from, with a space between any two.
joined-le :
    (token : List ℕ) (rest : List (List ℕ)) (room line : ℕ)
    → length token + room ≤ line
    → (0 < room → length token + room < line)
    → (rest ≡ []) ⊎ (0 < room)
    → length (join_args rest) ≤ room
    → length (join_args (token ∷ rest)) ≤ line
unfolding join_args
joined-le token [] room line le lt some' fits = omega arith
joined-le token (t ∷ rest) room line le lt (inl e) fits = cc
joined-le token (t ∷ rest) room line le lt (inr pos) fits =
    omega (arith, length-append token (b' ' ∷ join_args (t ∷ rest)), lt pos)

parse_args-empty : (room : ℕ) (line : List ℕ) → (parse_args room line ≡ []) ⊎ (0 < length line)
unfolding parse_args skip_spaces
parse_args-empty zero line = inl refl
parse_args-empty (suc room) [] = inl refl
parse_args-empty (suc room) (c ∷ cs) = inr (omega arith)

-- The arguments of a line, joined by spaces again, are no longer than the line: a text of `write`
-- fits into a buffer of the line's size.
pub join_args-parse_args-length :
    (room : ℕ) (line : List ℕ) → length (join_args (parse_args room line)) ≤ length line
unfolding parse_args join_args
join_args-parse_args-length zero line = omega arith
join_args-parse_args-length (suc room) line = elim (List-cases (skip_spaces line)) [
  | inl e ↦ rw (parse_args_stop room line e) (omega arith)
  | inr (c, cs, e) ↦
      let (token, behind) = take_token (c ∷ cs) in
      let (le, lt) = take_token-length (c ∷ cs) in
      let short : length (c ∷ cs) ≤ length line =
        subst (λ r. length r ≤ length line) e (skip_spaces-length line) in
      rw (parse_args_step room line e) (
        joined-le token (parse_args room behind) (length behind) (length line) (omega arith)
          (λ h. omega (arith, lt h)) (parse_args-empty room behind)
          (join_args-parse_args-length room behind))
]

-- Reading a token that a space or the end of the line follows.
take_token-append :
    (token rest : List ℕ) → Solid token → take_token (token ++ (b' ' ∷ rest)) ≡ (token, rest)
unfolding take_token
take_token-append [] rest h = refl
take_token-append (c ∷ cs) rest (solid, h) =
    let no_space : (c == b' ') ≡ false = ground arith in
    rw (take_token-append cs rest h, no_space) refl

take_token-whole : (token : List ℕ) → Solid token → take_token token ≡ (token, [])
unfolding take_token
take_token-whole [] h = refl
take_token-whole (c ∷ cs) (solid, h) =
    let no_space : (c == b' ') ≡ false = ground arith in rw (take_token-whole cs h, no_space) refl

skip_spaces-solid : (c : ℕ) (cs : List ℕ) → c ≢ b' ' → skip_spaces (c ∷ cs) ≡ c ∷ cs
unfolding skip_spaces
skip_spaces-solid c cs solid = let no_space : (c == b' ') ≡ false = ground arith in rw no_space refl

one_token :
    (room : ℕ) (token rest : List ℕ)
    → IsToken token
    → parse_args (suc room) (token ++ (b' ' ∷ rest)) ≡ token ∷ parse_args room rest
one_token room [] rest (full, h) = absurd (omega arith)
one_token room (c ∷ cs) rest (full, h) =
    parse_args_step room _ (skip_spaces-solid c (cs ++ (b' ' ∷ rest)) h.0)
    ∙ rw (take_token-append (c ∷ cs) rest h) refl

none_left : (room : ℕ) → parse_args room [] ≡ []
unfolding parse_args skip_spaces
none_left zero = refl
none_left (suc room) = refl

last_token : (room : ℕ) (token : List ℕ) → IsToken token → parse_args (suc room) token ≡ token ∷ []
unfolding skip_spaces
last_token room [] (full, h) = absurd (omega arith)
last_token room (c ∷ cs) (full, h) =
    parse_args_step room _ (skip_spaces-solid c cs h.0)
    ∙ rw (take_token-whole (c ∷ cs) h) (ap (λ rest. (c ∷ cs) ∷ rest) (none_left room))

-- Tokens joined by spaces are parsed into themselves, if there is room for all of them.
pub parse_args-join_args :
    (room : ℕ) (tokens : List (List ℕ))
    → All IsToken tokens
    → length tokens ≤ room
    → parse_args room (join_args tokens) ≡ tokens
unfolding join_args
parse_args-join_args room [] h few = none_left room
parse_args-join_args zero (w ∷ ws) h few = absurd (omega arith)
parse_args-join_args (suc room) (w ∷ []) (h, _) few = last_token room w h
parse_args-join_args (suc room) (w ∷ v ∷ ws) (h, hs) few =
    one_token room w (join_args (v ∷ ws)) h
    ∙ ap (λ rest. w ∷ rest) (parse_args-join_args room (v ∷ ws) hs (omega arith))
