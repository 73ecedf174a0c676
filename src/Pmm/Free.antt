-- ===== src/Pmm/Free.antt =====
-- `free_frame` of src/pmm/pmm.cpp: its guards, its effect and its inverse relation to `alloc_frame`.
use kehinde_kernel.Prelude.{
  ℕ, ◌+◌, ◌-◌, ◌*◌, ◌/◌, ◌%◌, ◌^◌, ◌<◌, ◌≡◌, ◌≢◌, refl, ◌∙◌, true, false, not, ◌||◌, ◌&&◌, ◌==◌,
  arith, Bool-cases, ◌⊎◌, inl, inr, ltb, leb,
}
use kehinde_kernel.Bits.{bit_and, bit, bit_not, bit_and-le}
use kehinde_kernel.Bits.Single.{masked-eq-zero}
use kehinde_kernel.Pmm.{Pmm, page_size, phys_mem_end, clear_frame, free_frame}
use kehinde_kernel.Pmm.Frames.{used, IsValid, used-clear}

abbrev pub frame_address : Pmm → ℕ → ℕ
frame_address p j = p.phys_mem_start + j * page_size

module _ (p : Pmm) (v : IsValid p) where
  clear_test : (i : ℕ) → (bit_and (p.bitmap (i / 64)) (bit (i % 64)) == 0) ≡ not (used p.bitmap i)
  unfolding used
  clear_test i = masked-eq-zero (p.bitmap (i / 64)) (i % 64) (v.fits (i / 64))

  clear_frame-used : (i j : ℕ) → used (clear_frame p i).bitmap j ≡ (used p.bitmap j && not (i == j))
  unfolding clear_frame
  clear_frame-used i j = elim (Bool-cases (used p.bitmap i)) [
    | inl set ↦
        let e = clear_test i in
        let same : i / 64 * 64 + i % 64 ≡ i = omega arith in
        rw (e, set) (used-clear p.bitmap (i / 64) (i % 64) j (omega arith) ∙ rw same)
    | inr clear ↦ rw (clear_test i, clear) (keep i j clear)
  ]
    where
      keep :
          (i j : ℕ) → used p.bitmap i ≡ false → used p.bitmap j ≡ (used p.bitmap j && not (i == j))
      keep i j clear = elim (Bool-cases (i == j)) [
        | inl e ↦ let same : i ≡ j = ground arith in rw (← same, clear)
        | inr ne ↦ rw ne (ground arith)
      ]

  clear_frame_unset : (i : ℕ) → used p.bitmap i ≡ false → clear_frame p i ≡ p
  unfolding clear_frame
  clear_frame_unset i clear = rw (clear_test i, clear)

  clear_frame-fits : (i j : ℕ) → (clear_frame p i).bitmap j < 2 ^ 64
  unfolding clear_frame
  clear_frame-fits i j =
      ground (
        arith,
        v.fits j,
        v.fits (i / 64),
        bit_and-le 64 (p.bitmap (i / 64)) (bit_not (bit (i % 64))),
      )

  -- The guards let exactly the frames' addresses through.
  free_frame_cases :
      (addr : ℕ)
      → ((i : ℕ) × (i < p.total_frames)
          × (addr ≡ frame_address p i)
          × (free_frame p addr ≡ clear_frame p i))
        ⊎ (((i : ℕ) → i < p.total_frames → addr ≢ frame_address p i) × (free_frame p addr ≡ p))
  unfolding free_frame
  free_frame_cases addr =
      let a = v.aligned in
      let w = v.within in
      elim (Bool-cases (ltb addr p.phys_mem_start || leb phys_mem_end addr)) [
        | inl out ↦ inr (λ i h e. ground arith, rw out)
        | inr range ↦ elim (Bool-cases (addr % page_size == 0)) [
          | inr odd ↦ inr (λ i h e. ground arith, rw (range, odd))
          | inl even ↦
              elim (Bool-cases (leb p.total_frames ((addr - p.phys_mem_start) / page_size))) [
                | inl past ↦ inr (λ i h e. ground arith, rw (range, even, past))
                | inr hit ↦ inl (
                  (addr - p.phys_mem_start) / page_size,
                  ground arith,
                  ground arith,
                  rw (range, even, hit),
                )
              ]
        ]
      ]

  -- On a valid allocator `free_frame` clears the mark of the frame at the given address, if that is
  -- the address of a frame, and keeps the mark of every other frame.
  pub free_frame-used :
      (addr j : ℕ)
      → j < p.total_frames
      → used (free_frame p addr).bitmap j ≡ (used p.bitmap j && not (addr == frame_address p j))
  free_frame-used addr j h = elim (free_frame_cases addr) [
    | inl (i, inside, at, runs) ↦ rw (runs, clear_frame-used i j) (ground arith)
    | inr (other, runs) ↦ rw runs (ground (arith, other j))
  ]

  -- On a valid allocator `free_frame` changes nothing when the address is not that of a used frame:
  -- out of range, unaligned, past the last frame, or a second free of the same frame.
  pub free_frame_ignored :
      (addr : ℕ)
      → ((j : ℕ) → j < p.total_frames → used p.bitmap j ≡ true → addr ≢ frame_address p j)
      → free_frame p addr ≡ p
  free_frame_ignored addr unowned = elim (free_frame_cases addr) [
    | inl (i, inside, at, runs) ↦ elim (Bool-cases (used p.bitmap i)) [
      | inl set ↦ absurd (unowned i inside set at)
      | inr clear ↦ runs ∙ clear_frame_unset i clear
    ]
    | inr (other, runs) ↦ runs
  ]

  geometry :
      (i : ℕ)
      → ((clear_frame p i).phys_mem_start ≡ p.phys_mem_start)
        × ((clear_frame p i).total_frames ≡ p.total_frames)
  unfolding clear_frame
  geometry i = ground arith

  pub free_frame_geometry :
      (addr : ℕ)
      → ((free_frame p addr).phys_mem_start ≡ p.phys_mem_start)
        × ((free_frame p addr).total_frames ≡ p.total_frames)
  free_frame_geometry addr = elim (free_frame_cases addr) [
    | inl (i, inside, at, runs) ↦ rw runs (geometry i)
    | inr (other, runs) ↦ rw runs (refl, refl)
  ]

  -- `free_frame` keeps a valid allocator valid, whatever the address.
  pub free_frame-IsValid : (addr : ℕ) → IsValid (free_frame p addr)
  free_frame-IsValid addr = elim (free_frame_cases addr) [
    | inr (other, runs) ↦ rw runs v
    | inl (i, inside, at, runs) ↦
        let g = geometry i in
        rw runs (record {
          fits = clear_frame-fits i;
          aligned = rw (g.0) v.aligned;
          nonzero = rw (g.0) v.nonzero;
          within = rw (g.0, g.1) v.within;
          tail = λ j lo hi. ground (arith, clear_frame-used i j, v.tail j, g.1);
        })
  ]
