-- ===== src/Pmm/Ownership.antt =====
-- Frames in the hands of callers of src/pmm/pmm.cpp: any interleaving of allocations and of frees
-- of owned frames.
use kehinde_kernel.Prelude.{
  ℕ, ◌<◌, ◌≡◌, ap, Bool, true, false, ◌==◌, update, arith, Bool-cases, inl, inr, subst,
}
use kehinde_kernel.Pmm.{Pmm, free_frame, alloc_frame}
use kehinde_kernel.Pmm.Frames.{used, IsValid}
use kehinde_kernel.Pmm.Alloc.{
  Allocated, exhausted, granted, alloc_frame-Allocated, Allocated-IsValid,
}
use kehinde_kernel.Pmm.Free.{
  frame_address, free_frame-used, free_frame-IsValid, free_frame_geometry,
}

-- The states that calls reach from `p`, with the set of addresses that are handed out.
pub data Reach (p : Pmm) : Pmm → (ℕ → Bool) → Type 0 where
  start : Reach p p (λ _. false)
  allocates :
      {q r : Pmm} {owned : ℕ → Bool} {addr : ℕ}
      → Reach p q owned
      → alloc_frame q ≡ (addr, r)
      → 0 < addr
      → Reach p r (update owned addr true)
  frees :
      {q : Pmm} {owned : ℕ → Bool} (addr : ℕ)
      → Reach p q owned
      → owned addr ≡ true
      → Reach p (free_frame q addr) (update owned addr false)

-- Each owned address is that of a used frame.
pub record IsTracked (q : Pmm) (owned : ℕ → Bool) : Type 0 where
  pub valid : IsValid q
  pub held :
      (addr : ℕ)
      → owned addr ≡ true
      → (j : ℕ) × (j < q.total_frames) × (addr ≡ frame_address q j) × (used q.bitmap j ≡ true)

abbrev Held : Pmm → ℕ → Type 0
Held q addr = (j : ℕ) × (j < q.total_frames) × (addr ≡ frame_address q j) × (used q.bitmap j ≡ true)

allocates-IsTracked :
    {q r : Pmm} {owned : ℕ → Bool} {addr : ℕ}
    → IsTracked q owned
    → Allocated q (addr, r)
    → 0 < addr
    → IsTracked r (update owned addr true)
allocates-IsTracked t (exhausted z e all_used) pos = absurd (omega arith)
allocates-IsTracked {q} {r} {owned} {addr} t (granted idx a s n inside free before marks fits) pos =
    record {
      valid = Allocated-IsValid t.valid (granted idx a s n inside free before marks fits);
      held = λ x h. elim (Bool-cases (addr == x)) [
        | inl same ↦ (idx, omega arith, ground arith, ground (arith, marks idx))
        | inr other ↦
            let (j, lt, at, set) = t.held x (ground arith) in
            (j, omega arith, ground arith, ground (arith, marks j))
      ];
    }

frees-IsTracked :
    {q : Pmm} {owned : ℕ → Bool} (addr : ℕ)
    → IsTracked q owned
    → IsTracked (free_frame q addr) (update owned addr false)
frees-IsTracked {q} {owned} addr t = record {
  valid = free_frame-IsValid q t.valid addr;
  held = λ x h. kept x (elim (Bool-cases (addr == x)) [
    | inl same ↦ ground arith
    | inr other ↦ (other, ground arith)
  ]);
}
  where
    kept : (x : ℕ) → ((addr == x) ≡ false) × (owned x ≡ true) → Held (free_frame q addr) x
    kept x h =
        let (j, lt, at, set) = t.held x h.1 in
        let g = free_frame_geometry q t.valid addr in
        (j, omega arith, ground (arith, g), ground (arith, free_frame-used q t.valid addr j))

pub Reach-IsTracked :
    {p q : Pmm} {owned : ℕ → Bool} → IsValid p → Reach p q owned → IsTracked q owned
Reach-IsTracked v start = record { valid = v; held = λ addr h. cc }
Reach-IsTracked v (allocates {q} r e pos) =
    allocates-IsTracked (Reach-IsTracked v r)
      (subst (Allocated q) e (alloc_frame-Allocated q (Reach-IsTracked v r).valid)) pos
Reach-IsTracked v (frees addr r h) = frees-IsTracked addr (Reach-IsTracked v r)

fresh :
    {q r : Pmm} {owned : ℕ → Bool} {addr : ℕ}
    → IsTracked q owned
    → Allocated q (addr, r)
    → 0 < addr
    → owned addr ≡ false
fresh t (exhausted z e all_used) pos = absurd (omega arith)
fresh {q} {owned} {addr} t (granted idx a s n inside free before marks fits) pos =
    elim (Bool-cases (owned addr)) [
      | inr out ↦ out
      | inl twice ↦
          let (j, lt, at, set) = t.held addr twice in
          let same : j ≡ idx = omega arith in absurd (ground (arith, ap (used q.bitmap) same))
    ]

-- From a valid allocator, after any interleaving of allocations and of frees of owned frames, a
-- successful `alloc_frame` never returns an address that is still handed out.
pub alloc_frame_exclusive :
    {p q r : Pmm} {owned : ℕ → Bool} {addr : ℕ}
    → IsValid p
    → Reach p q owned
    → alloc_frame q ≡ (addr, r)
    → 0 < addr
    → owned addr ≡ false
alloc_frame_exclusive {q} v reach e pos =
    let t = Reach-IsTracked v reach in
    fresh t (subst (Allocated q) e (alloc_frame-Allocated q t.valid)) pos
