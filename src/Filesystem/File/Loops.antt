-- ===== src/Filesystem/File/Loops.antt =====
-- What the copying loops of `fs_read` and `fs_write` do to the bytes of a chain.
use kehinde_kernel.Prelude.{
  ℕ, zero, suc, ◌+◌, ◌-◌, ◌≤◌, ◌<◌, ◌≡◌, refl, ap, ◌∙◌, lt→ltb, ltb→lt, List, [], ◌∷◌, ◌==◌, ltb,
  if◌then◌else◌, update, length, arith, Bool-cases, ◌⊎◌, inl, inr,
}
use mathlib.Core.Path.{ap₂}
use kehinde_kernel.Run.{Run, ok}
use kehinde_kernel.Filesystem.{Block, data_size}
use kehinde_kernel.Filesystem.File.{min, copy_bytes, read_loop, write_loop}
use kehinde_kernel.Filesystem.File.Content.{content, capacity, within}

pub copy_bytes_lem :
    (n i : ℕ) (src : ℕ → ℕ) (from : ℕ) (dst : ℕ → ℕ) (to q : ℕ)
    → copy_bytes n i src from dst to q
      ≡ (if within (to + i) n q then src (from + (q - to)) else dst q)
unfolding copy_bytes
copy_bytes_lem zero i src from dst to q = ground arith
copy_bytes_lem (suc n) i src from dst to q = elim (Bool-cases (to + i == q)) [
  | inl here ↦
      let e : to + i ≡ q = ground arith in
      let at : from + i ≡ from + (q - to) = omega arith in
      rw (copy_bytes_lem n (i + 1) src from (update dst (to + i) (src (from + i))) to q, here, at)
        (ground arith)
  | inr away ↦
      rw (copy_bytes_lem n (i + 1) src from (update dst (to + i) (src (from + i))) to q, away)
        (ground arith)
]

min_cases : (a b : ℕ) → (min a b ≤ a) × (min a b ≤ b) × ((min a b ≡ a) ⊎ (min a b ≡ b))
unfolding min
min_cases a b = ground arith

-- One round of a copying loop: `chunk` positions come from the block at hand, the later ones from
-- the rest of the chain. In a read the chain's positions go to the buffer from `copied` on.
module _ (copied offset len chunk : ℕ) (ho : offset < data_size) (hc : copied < len)
    (small : chunk ≤ len - copied) (inner : chunk ≤ data_size - offset)
    (exact : (chunk ≡ len - copied) ⊎ (chunk ≡ data_size - offset)) where
  read_round :
      (block rest dst : ℕ → ℕ) (q : ℕ)
      → (if within (copied + chunk) (len - (copied + chunk)) q
          then rest (0 + (q - (copied + chunk)))
          else if within (copied + 0) chunk q
          then block (offset + (q - copied))
          else dst q)
        ≡ (if within copied (len - copied) q
            then if ltb (offset + (q - copied)) data_size
              then block (offset + (q - copied))
              else rest (offset + (q - copied) - data_size)
            else dst q)
  read_round block rest dst q =
      elim (Bool-cases (within (copied + chunk) (len - (copied + chunk)) q)) [
        | inl later ↦
            let e : 0 + (q - (copied + chunk)) ≡ offset + (q - copied) - data_size = ground arith in
            rw (later, e) (ground arith)
        | inr other ↦ rw other (ground arith)
      ]

  write_round :
      (src block rest : ℕ → ℕ) (p : ℕ)
      → (if ltb p data_size
          then if within (offset + 0) chunk p then src (copied + (p - offset)) else block p
          else if within 0 (len - (copied + chunk)) (p - data_size)
          then src (copied + chunk + (p - data_size - 0))
          else rest (p - data_size))
        ≡ (if within offset (len - copied) p
            then src (copied + (p - offset))
            else if ltb p data_size
            then block p
            else rest (p - data_size))
  write_round src block rest p = elim (Bool-cases (ltb p data_size)) [
    | inl first ↦ rw first (ground arith)
    | inr later ↦ rw later (elim (Bool-cases (within 0 (len - (copied + chunk)) (p - data_size))) [
      | inl more ↦
          let e : copied + chunk + (p - data_size - 0) ≡ copied + (p - offset) = ground arith in
          rw (more, e) (ground arith)
      | inr other ↦ rw other (ground arith)
    ])
  ]

-- What a read of the positions from `offset` on leaves in the buffer.
abbrev pub Reads : (chain : List Block) (copied offset len : ℕ) (dst : ℕ → ℕ) → Run (ℕ → ℕ) → Type 0
Reads chain copied offset len dst r =
    (out : ℕ → ℕ) × (r ≡ ok out)
    × ((q : ℕ)
        → out q ≡ (
            if within copied (len - copied) q
            then content chain (offset + (q - copied))
            else dst q))

read_more :
    (b : Block) (bs : List Block) (copied offset len : ℕ) (dst : ℕ → ℕ)
    → offset < data_size
    → copied < len
    → let chunk = min (len - copied) (data_size - offset) in
      Reads bs
        (copied + chunk)
        0
        len
        (copy_bytes chunk 0 b.bytes offset dst copied)
        (read_loop bs (copied + chunk) 0 len (copy_bytes chunk 0 b.bytes offset dst copied))
      → Reads (b ∷ bs) copied offset len dst (read_loop (b ∷ bs) copied offset len dst)
unfolding read_loop content
read_more b bs copied offset len dst ho hc (out, e, h) =
    let chunk = min (len - copied) (data_size - offset) in
    let cases = min_cases (len - copied) (data_size - offset) in
    (
      out,
      rw (lt→ltb copied len hc) e,
      λ q.
          h q
          ∙ ap
              (λ (t : ℕ).
                if within (copied + chunk) (len - (copied + chunk)) q
                then content bs (0 + (q - (copied + chunk)))
                else t)
              (copy_bytes_lem chunk 0 b.bytes offset dst copied q)
          ∙ read_round copied offset len chunk ho hc cases.0 cases.1 cases.2 b.bytes (content bs)
              dst q,
    )

-- A read of positions that the chain holds returns them, and leaves the rest of the buffer.
pub read_loop-Reads :
    (chain : List Block) (copied offset len : ℕ) (dst : ℕ → ℕ)
    → offset < data_size
    → copied ≤ len
    → offset + (len - copied) ≤ capacity chain
    → Reads chain copied offset len dst (read_loop chain copied offset len dst)
unfolding read_loop
read_loop-Reads [] copied offset len dst ho hc fits = (dst, ground arith, λ q. ground arith)
read_loop-Reads (b ∷ bs) copied offset len dst ho hc fits = elim (Bool-cases (ltb copied len)) [
  | inr done ↦ (dst, rw done, λ q. ground arith)
  | inl more ↦
      let cases = min_cases (len - copied) (data_size - offset) in
      read_more b bs copied offset len dst ho (ltb→lt copied len more) (
        read_loop-Reads bs (copied + min (len - copied) (data_size - offset)) 0 len
          (copy_bytes (min (len - copied) (data_size - offset)) 0 b.bytes offset dst copied)
          (omega arith) (ground arith) (ground arith))
]

-- What a write to the positions from `offset` on leaves in the chain.
abbrev pub Writes :
    (chain : List Block) (written offset len : ℕ) (src : ℕ → ℕ) → Run (List Block) → Type 0
Writes chain written offset len src r =
    (after : List Block) × (r ≡ ok after)
    × (length after ≡ length chain)
    × ((p : ℕ)
        → content after p ≡ (
            if within offset (len - written) p
            then src (written + (p - offset))
            else content chain p))

write_more :
    (b : Block) (bs : List Block) (written offset len : ℕ) (src : ℕ → ℕ)
    → offset < data_size
    → written < len
    → let chunk = min (len - written) (data_size - offset) in
      Writes bs (written + chunk) 0 len src (write_loop bs (written + chunk) 0 len src)
      → Writes (b ∷ bs) written offset len src (write_loop (b ∷ bs) written offset len src)
unfolding write_loop content
write_more b bs written offset len src ho hc (after, e, same, h) =
    let chunk = min (len - written) (data_size - offset) in
    let cases = min_cases (len - written) (data_size - offset) in
    (
      record b { bytes = copy_bytes chunk 0 src written b.bytes offset } ∷ after,
      rw (lt→ltb written len hc, e) refl,
      omega arith,
      λ p.
          ap₂ (λ (s t : ℕ). if ltb p data_size then s else t)
            (copy_bytes_lem chunk 0 src written b.bytes offset p) (h (p - data_size))
          ∙ write_round written offset len chunk ho hc cases.0 cases.1 cases.2 src b.bytes
              (content bs) p,
    )

-- A write to positions that the chain holds stores the source there, and leaves all others.
pub write_loop-Writes :
    (chain : List Block) (written offset len : ℕ) (src : ℕ → ℕ)
    → offset < data_size
    → written ≤ len
    → offset + (len - written) ≤ capacity chain
    → Writes chain written offset len src (write_loop chain written offset len src)
unfolding write_loop
write_loop-Writes [] written offset len src ho hc fits = ([], ground arith, refl, λ p. ground arith)
write_loop-Writes (b ∷ bs) written offset len src ho hc fits = elim (Bool-cases (ltb written len)) [
  | inr done ↦ (b ∷ bs, rw done, refl, λ p. ground arith)
  | inl more ↦
      let cases = min_cases (len - written) (data_size - offset) in
      write_more b bs written offset len src ho (ltb→lt written len more) (
        write_loop-Writes bs (written + min (len - written) (data_size - offset)) 0 len src
          (omega arith) (ground arith) (ground arith))
]
