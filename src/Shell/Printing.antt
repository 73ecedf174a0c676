-- ===== src/Shell/Printing.antt =====
-- The loop of `cmd_cat` in src/shell/shell.cpp.
use kehinde_kernel.Prelude.{
  ℕ, zero, suc, ◌+◌, ◌-◌, ◌/◌, ◌^◌, ◌≤◌, ◌<◌, ◌≡◌, inl, inr, refl, sym, ap, subst, ◌∙◌, arith, true,
  false, ◌==◌, ltb, leb, if◌then◌else◌, length, update, List, [], ◌∷◌, ◌++◌, some, Bool-cases,
}
use kehinde_kernel.Run.{ok, ◌>>=◌}
use kehinde_kernel.Board.{Board}
use kehinde_kernel.Filesystem.{Fs, Inode, Block, data_size, ret, find_inode, file_type}
use kehinde_kernel.Filesystem.File.{fs_read}
use kehinde_kernel.Filesystem.File.Content.{content, capacity}
use kehinde_kernel.Filesystem.File.Read.{available, fs_read-Delivers, fs_read_past_end}
use kehinde_kernel.Shell.{Shell, say}
use kehinde_kernel.Shell.Commands.{text_in, cat_loop}
use kehinde_kernel.Shell.Listing.{say-cong, say_join, say_nothing}

-- Two buffers with the same bytes hold the same text.
text_in-cong :
    (f g : ℕ → ℕ) (i j n : ℕ)
    → ((k : ℕ) → k < n → f (i + k) ≡ g (j + k))
    → text_in f i n ≡ text_in g j n
unfolding text_in
text_in-cong f g i j zero h = refl
text_in-cong f g i j (suc n) h =
    let first : f i ≡ g j =
      subst (λ x. f i ≡ g x) (omega arith)
        (subst (λ x. f x ≡ g (j + 0)) (omega arith) (h 0 (omega arith))) in
    let rest = text_in-cong f g (i + 1) (j + 1) n (λ k lt.
      subst (λ x. f (i + 1 + k) ≡ g x) (omega arith)
        (subst (λ x. f x ≡ g (j + suc k)) (omega arith) (h (suc k) (omega arith)))) in
    rw (first, rest) refl

-- The bytes of a chain from `offset` on.
unfoldable pub bytes : List Block → ℕ → ℕ → List ℕ
bytes chain offset zero = []
bytes chain offset (suc k) = content chain offset ∷ bytes chain (offset + 1) k

bytes-append :
    (chain : List Block) (offset k m : ℕ)
    → bytes chain offset (k + m) ≡ bytes chain offset k ++ bytes chain (offset + k) m
unfolding bytes
bytes-append chain offset zero m =
    let none_left : 0 + m ≡ m = omega arith in
    let here : offset + 0 ≡ offset = omega arith in rw (none_left, here) refl
bytes-append chain offset (suc k) m =
    let more : suc k + m ≡ suc (k + m) = omega arith in
    let further : offset + suc k ≡ offset + 1 + k = omega arith in
    rw (more, further, bytes, bytes-append chain (offset + 1) k m) refl

-- Where no byte is 0, the text is all of them.
text_in-bytes :
    (chain : List Block) (offset n : ℕ)
    → ((p : ℕ) → p < offset + n → (content chain p == 0) ≡ false)
    → text_in (content chain) offset n ≡ bytes chain offset n
unfolding text_in bytes
text_in-bytes chain offset zero h = refl
text_in-bytes chain offset (suc n) h =
    let rest = text_in-bytes chain (offset + 1) n (λ p lt. h p (omega arith)) in
    rw (h offset (omega arith), rest) refl

available_bounds :
    (n : Inode) (offset : ℕ)
    → offset < n.inode_size
    → (0 < available n offset 127) × (offset + available n offset 127 ≤ n.inode_size)
available_bounds n offset lt = (ground arith, ground arith)

-- The pieces that `cat` prints, in at most `fuel` rounds.
unfoldable pub pieces : Inode → ℕ → ℕ → List ℕ
pieces n zero offset = []
pieces n (suc fuel) offset =
    let k = available n offset 127 in
    let rest = pieces n fuel (offset + k) in
    if ltb offset n.inode_size then text_in (content n.chain) offset k ++ rest else []

-- They make up the file where no byte is 0.
pub pieces-bytes :
    (n : Inode) (fuel offset : ℕ)
    → offset ≤ n.inode_size
    → n.inode_size - offset < fuel
    → ((p : ℕ) → p < n.inode_size → (content n.chain p == 0) ≡ false)
    → pieces n fuel offset ≡ bytes n.chain offset (n.inode_size - offset)
unfolding pieces bytes
pieces-bytes n zero offset le lt h = absurd (omega arith)
pieces-bytes n (suc fuel) offset le lt h = elim (Bool-cases (ltb offset n.inode_size)) [
  | inr done ↦ let e : n.inode_size - offset ≡ 0 = ground arith in rw (done, e, bytes) refl
  | inl more ↦
      let lt_size : offset < n.inode_size = ground arith in
      let k = available n offset 127 in
      let (some_bytes, inside) = available_bounds n offset lt_size in
      let split : n.inode_size - offset ≡ k + (n.inode_size - (offset + k)) = omega arith in
      rw
        (
          more,
          text_in-bytes n.chain offset k (λ p below. h p (omega arith)),
          pieces-bytes n fuel (offset + k) inside (omega arith) h,
        )
        (sym (bytes-append n.chain offset k (n.inode_size - (offset + k)))
          ∙ ap (λ m. bytes n.chain offset m) (sym split))
]

-- The buffer holds the piece that was read.
piece_text :
    (chain : List Block) (offset k : ℕ) (out dst : ℕ → ℕ)
    → ((q : ℕ) → out q ≡ (if ltb q k then content chain (offset + q) else dst q))
    → text_in (update out k 0) 0 k ≡ text_in (content chain) offset k
piece_text chain offset k out dst h =
    text_in-cong (update out k 0) (content chain) 0 offset k (λ q lt.
      let z : 0 + q ≡ q = omega arith in
      let inside : ltb q k ≡ true = ground arith in
      let kept : (k == q) ≡ false = ground arith in rw (z, kept) (h q ∙ rw inside refl))

module _ {S : Type 0} (board : Board) (ino : ℕ) (n : Inode) (is_file : n.inode_type ≡ file_type)
    (fits : n.inode_size ≤ capacity n.chain) (small : n.inode_size < 2 ^ 63) where
  -- At the end of the file the loop stops.
  end_of_file :
      (fs : Fs S) (offset : ℕ) (buf : ℕ → ℕ)
      → find_inode ino fs.inodes ≡ some n
      → offset ≡ n.inode_size
      → fs_read fs ino offset 127 (some buf) ≡ ok (ret 0, some buf)
  end_of_file fs offset buf at e =
      let reached : leb (offset / data_size) (length n.chain) ≡ true =
        (let le : offset / data_size ≤ length n.chain = omega arith in ground arith) in
      fs_read_past_end fs ino offset 127 buf n at is_file (omega arith) ∙ rw reached refl

  pub cat_loop-pieces :
      (fuel offset : ℕ) (buf : ℕ → ℕ) (sh : Shell S)
      → find_inode ino sh.fs.inodes ≡ some n
      → offset ≤ n.inode_size
      → n.inode_size - offset < fuel
      → cat_loop board fuel ino offset buf sh
        ≡ (say board (pieces n fuel offset) sh >>= λ sh'. ok (ret 0, sh'))
  unfolding cat_loop pieces
  cat_loop-pieces zero offset buf sh at le lt = absurd (omega arith)
  cat_loop-pieces (suc fuel) offset buf sh at le lt = elim (Bool-cases (ltb offset n.inode_size)) [
    | inr done ↦
        rw (end_of_file sh.fs offset buf at (ground arith), done, say_nothing board sh) refl
    | inl more ↦
        let k = available n offset 127 in
        let lt_size : offset < n.inode_size = ground arith in
        let (some_bytes, inside) = available_bounds n offset lt_size in
        let (out, e, h) =
          fs_read-Delivers sh.fs ino offset 127 buf n at is_file fits (omega arith) lt_size in
        let positive : ltb 0 k ≡ true = ground arith in
        rw (e, positive, more, piece_text n.chain offset k out buf h)
          (say-cong board (text_in (content n.chain) offset k) sh _ _ (λ bus'.
              cat_loop-pieces fuel (offset + k) (update out k 0) (record sh { bus = bus' }) at
                inside (omega arith))
            ∙ say_join board (text_in (content n.chain) offset k) (pieces n fuel (offset + k)) sh _)
  ]
