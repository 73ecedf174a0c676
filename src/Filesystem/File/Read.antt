-- ===== src/Filesystem/File/Read.antt =====
-- `fs_read` of src/filesystem/filesystem.cpp, and reads of what `fs_write` has written.
use kehinde_kernel.Prelude.{
  ℕ, ◌+◌, ◌-◌, ◌*◌, ◌/◌, ◌%◌, ◌^◌, ◌≤◌, ◌<◌, ◌≡◌, refl, ◌∙◌, true, false, Option, some, ◌==◌, ltb,
  leb, if◌then◌else◌, length, drop, arith, Bool-cases, inl, inr,
}
use kehinde_kernel.Run.{Run, ok, ◌>>=◌}
use kehinde_kernel.Filesystem.{Fs, Inode, Ret, minus_one, ret, find_inode, data_size, file_type}
use kehinde_kernel.Filesystem.File.{read_file, fs_read, clamp_len}
use kehinde_kernel.Filesystem.File.Content.{
  content, capacity, within, walk_blocks-drop, walk_blocks_short, content-drop, length-drop,
}
use kehinde_kernel.Filesystem.File.Loops.{Reads, read_loop-Reads}

-- The bytes that a read may return.
abbrev pub available : Inode → ℕ → ℕ → ℕ
available subject offset len =
    if ltb subject.inode_size (offset + len) then subject.inode_size - offset else len

-- A read that returns `n` bytes of the file from `offset` on and leaves the rest of the buffer.
abbrev pub Delivers : Inode → ℕ → ℕ → (ℕ → ℕ) → Run (Ret × Option (ℕ → ℕ)) → Type 0
Delivers subject offset n dst r =
    (out : ℕ → ℕ) × (r ≡ ok (ret n, some out))
    × ((q : ℕ) → out q ≡ (if ltb q n then content subject.chain (offset + q) else dst q))

clamp_len-available :
    (subject : Inode) (offset len : ℕ)
    → offset + len < 2 ^ 64
    → clamp_len subject offset len ≡ available subject offset len
unfolding clamp_len
clamp_len-available subject offset len small =
    let wrap : (offset + len) % 2 ^ 64 ≡ offset + len = omega arith in rw wrap

available-le :
    (subject : Inode) (offset len : ℕ)
    → offset < subject.inode_size
    → offset + available subject offset len ≤ subject.inode_size
available-le subject offset len h = ground arith

module _ (subject : Inode) (offset : ℕ) (dst : ℕ → ℕ)
    (fits : subject.inode_size ≤ capacity subject.chain) where
  deliver :
      (n : ℕ) {r : Run (ℕ → ℕ)}
      → offset / data_size ≤ length subject.chain
      → Reads (drop (offset / data_size) subject.chain) 0 (offset % data_size) n dst r
      → Delivers subject offset n dst (r >>= λ dst'. ok (ret n, some dst'))
  deliver n in_chain (out, e, h) = (out, rw e, λ q. h q ∙ same q)
    where
      same :
          (q : ℕ)
          → (if within 0 (n - 0) q
              then content (drop (offset / data_size) subject.chain) (offset % data_size + (q - 0))
              else dst q)
            ≡ (if ltb q n then content subject.chain (offset + q) else dst q)
      same q =
          let at : data_size * (offset / data_size) + (offset % data_size + (q - 0)) ≡ offset + q =
            omega arith in
          rw
            (
              content-drop (offset / data_size) subject.chain (offset % data_size + (q - 0))
                  in_chain,
              at,
            )
            (ground arith)

  read_file-Delivers :
      (len : ℕ)
      → offset + len < 2 ^ 64
      → offset < subject.inode_size
      → Delivers subject offset
          (available subject offset len)
          dst
          (read_file subject offset len dst)
  unfolding read_file
  read_file-Delivers len small inside =
      let in_chain : offset / data_size ≤ length subject.chain = omega arith in
      let before : leb subject.inode_size offset ≡ false = ground arith in
      let short = available-le subject offset len inside in
      rw
        (
          walk_blocks-drop (offset / data_size) subject.chain in_chain,
          read_file,
          before,
          clamp_len-available subject offset len small,
        )
        (deliver (available subject offset len) in_chain (
          read_loop-Reads (drop (offset / data_size) subject.chain) 0 (offset % data_size)
            (available subject offset len) dst (omega arith) (omega arith)
            (omega (arith, length-drop (offset / data_size) subject.chain))))

pub fs_read-Delivers :
    {S : Type 0} (fs : Fs S) (ino offset len : ℕ) (dst : ℕ → ℕ) (subject : Inode)
    → find_inode ino fs.inodes ≡ some subject
    → subject.inode_type ≡ file_type
    → subject.inode_size ≤ capacity subject.chain
    → offset + len < 2 ^ 64
    → offset < subject.inode_size
    → Delivers subject offset
        (available subject offset len)
        dst
        (fs_read fs ino offset len (some dst))
unfolding fs_read
fs_read-Delivers fs ino offset len dst subject found is_file fits small inside =
    let regular : (subject.inode_type == file_type) ≡ true = ground arith in
    rw (found, fs_read, regular) (read_file-Delivers subject offset dst fits len small inside)

-- A read that starts at or past the end of a regular file leaves the buffer and returns 0 when the
-- blocks reach to the one of `offset`, but -1 when they do not.
pub fs_read_past_end :
    {S : Type 0} (fs : Fs S) (ino offset len : ℕ) (dst : ℕ → ℕ) (subject : Inode)
    → find_inode ino fs.inodes ≡ some subject
    → subject.inode_type ≡ file_type
    → subject.inode_size ≤ offset
    → fs_read fs ino offset len (some dst)
      ≡ ok
          ((if leb (offset / data_size) (length subject.chain) then ret 0 else minus_one), some dst)
unfolding fs_read read_file
fs_read_past_end fs ino offset len dst subject found is_file past =
    let regular : (subject.inode_type == file_type) ≡ true = ground arith in
    let n = offset / data_size in
    let chain = subject.chain in
    let after : leb subject.inode_size offset ≡ true = ground arith in
    rw (found, fs_read, regular)
      (elim (Bool-cases (leb n (length chain))) [
        | inl in_chain ↦
            rw (walk_blocks-drop n chain (ground arith), read_file, after, in_chain) refl
        | inr out ↦ rw (walk_blocks_short n chain (ground arith), read_file, out) refl
      ])
