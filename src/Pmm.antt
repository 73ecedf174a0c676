-- ===== src/Pmm.antt =====
-- The physical memory manager, src/pmm/pmm.cpp and include/pmm.h. The bitmap is the memory that
-- the pointer `bitmap` names, `bitmap[i]` at index `i`; its words are below `2 ^ 64`. The other
-- two globals are fields beside it. The `TRACE` output is compiled out.
pub mod Frames
pub mod Alloc
pub mod Free
pub mod Init
pub mod Ownership
use kehinde_kernel.Prelude.{
  ℕ, zero, suc, ◌+◌, ◌-◌, ◌*◌, ◌/◌, ◌%◌, ◌^◌, true, false, ◌||◌, not, ◌==◌, ltb, leb, if◌then◌else◌,
  update, Option, none, some,
}
use kehinde_kernel.Bits.{bit_and, bit_or, bit_not, bit, u64, sub64, all_ones}
use kehinde_kernel.Bits.Single.{ctz}

abbrev pub page_size : ℕ
page_size = 4096

abbrev pub phys_mem_end : ℕ
phys_mem_end = 0x3F80_0000

-- `bitmap_addr` is the address in the pointer `bitmap`, and `bitmap` the words that it points to.
pub record Pmm : Type 0 where
  pub bitmap_addr : ℕ
  pub bitmap : ℕ → ℕ
  pub phys_mem_start : ℕ
  pub total_frames : ℕ

-- `round_up`.
unfoldable pub round_up : ℕ → ℕ → ℕ
round_up value align = bit_and (sub64 (u64 (value + align)) 1) (bit_not (align - 1))

-- The loop `for (i = 0; i < n; ++i) bitmap[i] = 0` from index `i` with `n` rounds left.
unfoldable pub clear_words : ℕ → ℕ → (ℕ → ℕ) → ℕ → ℕ
clear_words zero i bitmap = bitmap
clear_words (suc n) i bitmap = clear_words n (i + 1) (update bitmap i 0)

-- The last step of `pmm_init`: the bits of the final word past `total_frames` are marked used.
unfoldable pub mark_tail : ℕ → (ℕ → ℕ) → ℕ → ℕ
mark_tail total_frames bitmap =
    let last_word = total_frames / 64 in
    let valid_bits = total_frames % 64 in
    if valid_bits == 0
    then bitmap
    else update bitmap last_word (bit_or (bitmap last_word) (bit_not (bit valid_bits - 1)))

-- `pmm_init`, of the address of `__kernel_end` and of what the memory holds at the bitmap.
unfoldable pub pmm_init : ℕ → (ℕ → ℕ) → Pmm
pmm_init kernel_end memory =
    let bitmap_addr = round_up kernel_end page_size in
    let managed_bytes = sub64 phys_mem_end bitmap_addr in
    let max_frames = managed_bytes / page_size in
    let bitmap_bytes = (max_frames + 63) / 64 * 8 in
    let phys_mem_start = round_up (bitmap_addr + bitmap_bytes) page_size in
    let total_frames = sub64 phys_mem_end phys_mem_start / page_size in
    record {
      bitmap_addr = bitmap_addr;
      bitmap = mark_tail total_frames (clear_words (bitmap_bytes / 8) 0 memory);
      phys_mem_start = phys_mem_start;
      total_frames = total_frames;
    }

-- The scan of `alloc_frame` at word `i` with `n` words left: the index of the frame and the
-- bitmap with its bit set, or `none` where the loop ends.
unfoldable pub alloc_scan : ℕ → ℕ → (ℕ → ℕ) → Option (ℕ × (ℕ → ℕ))
alloc_scan zero i bitmap = none
alloc_scan (suc n) i bitmap = elim (bitmap i == all_ones) [
  | true ↦ alloc_scan n (i + 1) bitmap
  | false ↦
      let bit_index = ctz 64 (bit_not (bitmap i)) in
      some (i * 64 + bit_index, update bitmap i (bit_or (bitmap i) (bit bit_index)))
]

-- The frame found is handed out by its physical address; 0 says that there is none.
unfoldable pub hand_out : Pmm → Option (ℕ × (ℕ → ℕ)) → ℕ × Pmm
hand_out p none = (0, p)
hand_out p (some (idx, after)) =
    (u64 (p.phys_mem_start + idx * page_size), record p { bitmap = after })

-- `alloc_frame`.
unfoldable pub alloc_frame : Pmm → ℕ × Pmm
alloc_frame p = hand_out p (alloc_scan ((p.total_frames + 63) / 64) 0 p.bitmap)

-- The end of `free_frame`: the bit is cleared if it is set.
unfoldable pub clear_frame : Pmm → ℕ → Pmm
clear_frame p frame_index =
    let word_index = frame_index / 64 in
    let bit_index = frame_index % 64 in
    if bit_and (p.bitmap word_index) (bit bit_index) == 0 then p else record p {
      bitmap = update p.bitmap word_index (bit_and (p.bitmap word_index) (bit_not (bit bit_index)));
    }

-- `free_frame`.
unfoldable pub free_frame : Pmm → ℕ → Pmm
free_frame p addr =
    if ltb addr p.phys_mem_start || leb phys_mem_end addr
    then p
    else if not (addr % page_size == 0)
    then p
    else let frame_index = (addr - p.phys_mem_start) / page_size in
      if leb p.total_frames frame_index then p else clear_frame p frame_index
