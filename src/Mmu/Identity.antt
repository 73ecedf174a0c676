-- ===== src/Mmu/Identity.antt =====
-- The identity map that `mmu_init` of src/mmu/mmu_pi3.cpp and src/mmu/mmu_pi5.cpp sets up.
use kehinde_kernel.Prelude.{
  ℕ, ◌+◌, ◌*◌, ◌/◌, ◌%◌, ◌^◌, ◌≤◌, ◌<◌, ◌≡◌, inl, inr, ◌⊎◌, refl, ◌∙◌, arith, ltb, true, false,
  Bool-cases,
}
use kehinde_kernel.Bits.{all_ones}
use kehinde_kernel.Bits.Fields.{page_join}
use kehinde_kernel.Pmm.{Pmm, page_size}
use kehinde_kernel.Pmm.Frames.{used, Grows}
use kehinde_kernel.Mmu.{Mmu, map, translate}
use kehinde_kernel.Mmu.Tables.{Role, IsTree}
use kehinde_kernel.Mmu.Range.{page_offset, range_mapped, IsExtended}
use kehinde_kernel.Mmu.Mapping.{MapOutcome, out_of_frames, complete, map-MapOutcome}

abbrev pub IsFull : Pmm → Type 0
IsFull p = (j : ℕ) → j < p.total_frames → used p.bitmap j ≡ true

-- An address of the 39 bits that leads anywhere leads to itself.
pub record IsIdentity (m : Mmu) : Type 0 where
  pub role : ℕ → Role
  pub tree : IsTree m role
  pub walks : (virt : ℕ) → virt < 2 ^ 39 → (translate m virt ≡ virt) ⊎ (translate m virt ≡ all_ones)

-- What mapping addresses to themselves from page `base` on gives.
identity_range :
    (k base virt : ℕ) (old : ℕ → ℕ)
    → base % 4096 ≡ 0
    → base + k * 4096 ≤ 2 ^ 39
    → virt < 2 ^ 39
    → (range_mapped k base base old virt ≡ virt)
      ⊎ ((range_mapped k base base old virt ≡ old virt)
          × ((virt < base) ⊎ (base + k * 4096 ≤ virt)))
identity_range k base virt old aligned small below =
    elim (Bool-cases (ltb (page_offset base virt) k)) [
      | inl within ↦
          let at : base + page_offset base virt * page_size ≡ virt / 4096 * 4096 = ground arith in
          inl (rw (within, at) (page_join virt (omega arith)))
      | inr outside ↦ inr (rw outside refl, apart outside)
    ]
  where
    apart : ltb (page_offset base virt) k ≡ false → (virt < base) ⊎ (base + k * 4096 ≤ virt)
    apart outside = elim (Bool-cases (ltb virt base)) [
      | inl low ↦ inl (ground arith)
      | inr high ↦ inr (ground arith)
    ]

-- The range of `size` bytes from `base` on is mapped to itself, unless the frames ran out.
pub record IsGrown (m m' : Mmu) (base size : ℕ) : Type 0 where
  pub identity : IsIdentity m'
  pub kept : (virt : ℕ) → virt < 2 ^ 39 → translate m virt ≡ virt → translate m' virt ≡ virt
  pub covers :
      IsFull m'.pmm ⊎ ((virt : ℕ) → base ≤ virt → virt < base + size → translate m' virt ≡ virt)
  pub full : IsFull m.pmm → IsFull m'.pmm

Grows-IsFull : {p q : Pmm} → Grows p q → IsFull p → IsFull q
Grows-IsFull {p} {q} g full j lt = g.still j (full j (omega (arith, g.total)))

module _ (base size flags : ℕ) (m : Mmu) (start : IsIdentity m) (base_paged : base % 4096 ≡ 0)
    (size_paged : size % 4096 ≡ 0) (inside : base + size ≤ 2 ^ 39) where
  module _ (m' : Mmu) (k : ℕ) (fits : base + k * 4096 ≤ 2 ^ 39)
      (x : IsExtended m start.role m' k base base) where
    ranged :
        (virt : ℕ)
        → virt < 2 ^ 39
        → (translate m' virt ≡ virt)
          ⊎ ((translate m' virt ≡ translate m virt) × ((virt < base) ⊎ (base + k * 4096 ≤ virt)))
    ranged virt lt =
        let e = x.walks virt (omega arith) in
        elim (identity_range k base virt (translate m) base_paged fits lt) [
          | inl same ↦ inl (e ∙ same)
          | inr (old, apart) ↦ inr (e ∙ old, apart)
        ]

    extended-IsIdentity : IsIdentity m'
    extended-IsIdentity = record {
      role = x.role';
      tree = x.tree;
      walks = λ virt lt. elim (ranged virt lt) [
        | inl same ↦ inl same
        | inr (old, apart) ↦ elim (start.walks virt lt) [
          | inl same ↦ inl (old ∙ same)
          | inr unmapped ↦ inr (old ∙ unmapped)
        ]
      ];
    }

    extended-kept : (virt : ℕ) → virt < 2 ^ 39 → translate m virt ≡ virt → translate m' virt ≡ virt
    extended-kept virt lt here = elim (ranged virt lt) [
      | inl same ↦ same
      | inr (old, apart) ↦ old ∙ here
    ]

    extended-covers :
        k * 4096 ≡ size → (virt : ℕ) → base ≤ virt → virt < base + size → translate m' virt ≡ virt
    extended-covers all virt lo hi = elim (ranged virt (omega arith)) [
      | inl same ↦ same
      | inr (old, inl low) ↦ absurd (omega arith)
      | inr (old, inr high) ↦ absurd (omega arith)
    ]

  outcome-IsGrown :
      {m' : Mmu} → MapOutcome m start.role (size / page_size) base base m' → IsGrown m m' base size
  outcome-IsGrown {m'} (out_of_frames k lt full x quiet) = record {
    identity = extended-IsIdentity m' k (omega arith) x;
    kept = extended-kept m' k (omega arith) x;
    covers = inl full;
    full = λ before. full;
  }
  outcome-IsGrown {m'} (complete x flushed) = record {
    identity = extended-IsIdentity m' (size / page_size) (omega arith) x;
    kept = extended-kept m' (size / page_size) (omega arith) x;
    covers = inr (extended-covers m' (size / page_size) (omega arith) x (omega arith));
    full = Grows-IsFull x.extends.grows;
  }

  pub map-IsGrown : flags < 4096 → IsGrown m (map base base size flags m) base size
  map-IsGrown small = outcome-IsGrown (
      map-MapOutcome base base size flags m start.role start.tree base_paged small (omega arith)
        (omega arith) (omega arith))
