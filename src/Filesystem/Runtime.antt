-- ===== src/Filesystem/Runtime.antt =====
-- The functions at the end of src/filesystem/filesystem.cpp that the compiler calls, `strlen` and
-- `memcpy`, on memory by the address of a byte.
use kehinde_kernel.Prelude.{
  ℕ, zero, suc, ◌+◌, ◌-◌, ◌≤◌, ◌<◌, ◌≡◌, inl, inr, ◌⊎◌, ap, ◌∙◌, arith, ◌==◌, leb, ltb, true, false,
  ◌&&◌, Bool-cases, if◌then◌else◌, update, List, length,
}
use kehinde_kernel.Run.{Run, ok, out_of_fuel}
use kehinde_kernel.Filesystem.Names.{char_at}

-- `strlen` at `len`, in at most `fuel` rounds.
unfoldable pub strlen_loop : ℕ → (ℕ → ℕ) → ℕ → ℕ → Run ℕ
strlen_loop zero mem s len = out_of_fuel
strlen_loop (suc fuel) mem s len =
    let rest = strlen_loop fuel mem s (len + 1) in if mem (s + len) == 0 then ok len else rest

unfoldable pub strlen : ℕ → (ℕ → ℕ) → ℕ → Run ℕ
strlen fuel mem s = strlen_loop fuel mem s 0

-- The loop of `memcpy` at byte `i` with `n` bytes to go.
unfoldable pub memcpy_loop : ℕ → ℕ → ℕ → ℕ → (ℕ → ℕ) → ℕ → ℕ
memcpy_loop zero dst src i mem = mem
memcpy_loop (suc n) dst src i mem =
    memcpy_loop n dst src (i + 1) (update mem (dst + i) (mem (src + i)))

-- `memcpy`: the memory behind it; it returns `dst`.
unfoldable pub memcpy : ℕ → ℕ → ℕ → (ℕ → ℕ) → ℕ → ℕ
memcpy dst src n mem = memcpy_loop n dst src 0 mem

-- The text stands at `s`, with its terminator.
abbrev pub Holds : (ℕ → ℕ) → ℕ → List ℕ → Type 0
Holds mem s text = (k : ℕ) → k ≤ length text → mem (s + k) ≡ char_at text k

strlen_loop-length :
    (fuel : ℕ) (mem : ℕ → ℕ) (s len : ℕ) (text : List ℕ)
    → Holds mem s text
    → ((k : ℕ) → k < length text → (char_at text k == 0) ≡ false)
    → char_at text (length text) ≡ 0
    → len ≤ length text
    → length text < len + fuel
    → strlen_loop fuel mem s len ≡ ok (length text)
unfolding strlen_loop
strlen_loop-length zero mem s len text at full end le enough = absurd (omega arith)
strlen_loop-length (suc fuel) mem s len text at full end le enough =
    elim (Bool-cases (len == length text)) [
      | inl last ↦
          let e : len ≡ length text = ground arith in
          let stop : (mem (s + len) == 0) ≡ true = ground (arith, at len le, ap (char_at text) e) in
          rw stop (ap ok e)
      | inr before ↦
          let more : (mem (s + len) == 0) ≡ false =
            ground (arith, at len le, full len (ground arith)) in
          rw more
            (strlen_loop-length fuel mem s (len + 1) text at full end (ground arith) (omega arith))
    ]

-- With a round for each byte and one for the terminator, `strlen` gives the length of a text that
-- stands in memory.
pub strlen-length :
    (fuel : ℕ) (mem : ℕ → ℕ) (s : ℕ) (text : List ℕ)
    → Holds mem s text
    → ((k : ℕ) → k < length text → (char_at text k == 0) ≡ false)
    → char_at text (length text) ≡ 0
    → length text < fuel
    → strlen fuel mem s ≡ ok (length text)
unfolding strlen
strlen-length fuel mem s text at full end enough =
    strlen_loop-length fuel mem s 0 text at full end (omega arith) (omega arith)

-- The byte at `a` behind the rest of a copy whose ranges are apart.
memcpy_loop_lem :
    (n dst src i : ℕ) (mem : ℕ → ℕ) (a : ℕ)
    → (dst + i + n ≤ src + i) ⊎ (src + i + n ≤ dst + i)
    → memcpy_loop n dst src i mem a
      ≡ (if leb (dst + i) a && ltb a (dst + i + n) then mem (src + (a - dst)) else mem a)
unfolding memcpy_loop
memcpy_loop_lem zero dst src i mem a apart = ground arith
memcpy_loop_lem (suc n) dst src i mem a apart =
    memcpy_loop_lem n dst src (i + 1) (update mem (dst + i) (mem (src + i))) a
      (elim apart [ inl low ↦ inl (omega arith) | inr high ↦ inr (omega arith) ])
    ∙ elim apart [ inl low ↦ ground arith | inr high ↦ ground arith ]

-- Between ranges that do not overlap, `memcpy` copies every byte and changes no other.
pub memcpy_lem :
    (dst src n : ℕ) (mem : ℕ → ℕ) (a : ℕ)
    → (dst + n ≤ src) ⊎ (src + n ≤ dst)
    → memcpy dst src n mem a
      ≡ (if leb dst a && ltb a (dst + n) then mem (src + (a - dst)) else mem a)
unfolding memcpy
memcpy_lem dst src n mem a apart =
    memcpy_loop_lem n dst src 0 mem a
      (elim apart [ inl low ↦ inl (omega arith) | inr high ↦ inr (omega arith) ])
    ∙ ground arith
