-- ===== src/Filesystem/File/Content.antt =====
-- The bytes of a block chain as one sequence, and what the loops of `fs_read` and `fs_write` do
-- to it.
use kehinde_kernel.Prelude.{
  ℕ, zero, suc, ◌+◌, ◌-◌, ◌*◌, ◌≤◌, ◌<◌, ◌≡◌, refl, ap, Bool, false, ◌&&◌, none, some, List, [],
  ◌∷◌, ◌++◌, ltb, leb, if◌then◌else◌, length, take, drop, arith,
}
use kehinde_kernel.Filesystem.{Block, data_size}
use kehinde_kernel.Filesystem.File.{walk_blocks}

-- The byte at position `p` of a chain, each block holding 4088 of them; 0 past the end.
unfoldable pub content : List Block → ℕ → ℕ
content [] p = 0
content (b ∷ bs) p = if ltb p data_size then b.bytes p else content bs (p - data_size)

abbrev pub capacity : List Block → ℕ
capacity chain = data_size * length chain

-- Position `p` lies in the `n` positions from `lo` on.
abbrev pub within : ℕ → ℕ → ℕ → Bool
within lo n p = leb lo p && ltb p (lo + n)

-- The walk over `n` blocks of a longer chain.
pub walk_blocks-drop :
    (n : ℕ) (chain : List Block) → n ≤ length chain → walk_blocks n chain ≡ some (drop n chain)
unfolding walk_blocks
walk_blocks-drop zero chain h = refl
walk_blocks-drop (suc n) [] h = absurd (omega arith)
walk_blocks-drop (suc n) (b ∷ bs) h = walk_blocks-drop n bs (omega arith)

pub walk_blocks_short : (n : ℕ) (chain : List Block) → length chain < n → walk_blocks n chain ≡ none
unfolding walk_blocks
walk_blocks_short zero chain h = absurd (omega arith)
walk_blocks_short (suc n) [] h = refl
walk_blocks_short (suc n) (b ∷ bs) h = walk_blocks_short n bs (omega arith)

pub content-drop :
    (n : ℕ) (chain : List Block) (p : ℕ)
    → n ≤ length chain
    → content (drop n chain) p ≡ content chain (data_size * n + p)
unfolding content
content-drop zero chain p h = ap (content chain) (omega arith)
content-drop (suc n) [] p h = absurd (omega arith)
content-drop (suc n) (b ∷ bs) p h =
    let far : ltb (data_size * suc n + p) data_size ≡ false = ground arith in
    let at : data_size * suc n + p - data_size ≡ data_size * n + p = omega arith in
    rw (far, at) (content-drop n bs p (omega arith))

pub length-drop : (n : ℕ) (chain : List Block) → length (drop n chain) ≡ length chain - n
length-drop zero chain = omega arith
length-drop (suc n) [] = omega arith
length-drop (suc n) (b ∷ bs) = omega (arith, length-drop n bs)

pub content-take :
    (n : ℕ) (chain tail : List Block) (p : ℕ)
    → n ≤ length chain
    → content (take n chain ++ tail) p
      ≡ (if ltb p (data_size * n) then content chain p else content tail (p - data_size * n))
unfolding content
content-take zero chain tail p h =
    let at : p ≡ p - data_size * 0 = omega arith in
    let past : ltb p (data_size * 0) ≡ false = ground arith in rw past (ap (content tail) at)
content-take (suc n) [] tail p h = absurd (omega arith)
content-take (suc n) (b ∷ bs) tail p h =
    let at : p - data_size * suc n ≡ p - data_size - data_size * n = omega arith in
    rw (content-take n bs tail (p - data_size) (omega arith), at) (ground arith)

pub length-take :
    (n : ℕ) (chain tail : List Block)
    → n ≤ length chain
    → length (take n chain ++ tail) ≡ n + length tail
length-take zero chain tail h = omega arith
length-take (suc n) [] tail h = absurd (omega arith)
length-take (suc n) (b ∷ bs) tail h = omega (arith, length-take n bs tail (omega arith))

-- Blocks linked behind a chain leave its bytes where they were.
pub content-append :
    (chain more : List Block) (p : ℕ)
    → p < capacity chain
    → content (chain ++ more) p ≡ content chain p
unfolding content
content-append [] more p h = absurd (omega arith)
content-append (b ∷ bs) more p h = ground (arith, content-append bs more (p - data_size))
