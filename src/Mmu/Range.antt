-- ===== src/Mmu/Range.antt =====
-- `map` of src/mmu/mmu.cpp over a range of pages, as an update of the function from virtual to
-- physical addresses that the tables stand for.
use kehinde_kernel.Prelude.{
  ℕ, zero, suc, ◌+◌, ◌-◌, ◌*◌, ◌/◌, ◌%◌, ◌^◌, ◌≤◌, ◌<◌, ◌≡◌, inl, inr, refl, sym, ap, ◌∙◌, arith,
  ◌==◌, ltb, true, false, Bool, Bool-cases, if◌then◌else◌, subst,
}
use kehinde_kernel.Bits.{bit_and, bit_or, u64}
use kehinde_kernel.Pmm.{page_size}
use kehinde_kernel.Pmm.Frames.{used}
use kehinde_kernel.Mmu.{Mmu, map_page, map_pages, translate}
use kehinde_kernel.Mmu.Tables.{Role, IsTree, Extends, Extends-refl, Extends-trans}
use kehinde_kernel.Mmu.Walk.{page_number}
use kehinde_kernel.Mmu.Translate.{remapped, Mapped, no_frame, mapped, map_page-Mapped}

-- The page of `virt` counted from that of `va`, within 39 bits.
abbrev pub page_offset : ℕ → ℕ → ℕ
page_offset va virt = (virt / 2 ^ 12 + 2 ^ 52 - va / 2 ^ 12) % 2 ^ 27

-- The addresses of `k` pages from `va` on lead to the frames from `phys` on.
abbrev pub range_mapped : ℕ → ℕ → ℕ → (ℕ → ℕ) → ℕ → ℕ
range_mapped k va phys old virt =
    if ltb (page_offset va virt) k
    then bit_or (phys + page_offset va virt * page_size) (bit_and virt 0xFFF)
    else old virt

-- The tables `m'` are those of `m` with `k` pages mapped.
pub record IsExtended (m : Mmu) (role : ℕ → Role) (m' : Mmu) (k va phys : ℕ) : Type 0 where
  pub role' : ℕ → Role
  pub tree : IsTree m' role'
  pub extends : Extends m role m' role'
  pub walks :
      (virt : ℕ) → virt < 2 ^ 64 → translate m' virt ≡ range_mapped k va phys (translate m) virt

-- What the loop of `map` over `n` pages comes to.
pub data RangeMapped (m : Mmu) (role : ℕ → Role) (n va phys : ℕ) : Bool × Mmu → Type 0 where
  stopped :
      {m' : Mmu} (k : ℕ)
      → k < n
      → ((j : ℕ) → j < m'.pmm.total_frames → used m'.pmm.bitmap j ≡ true)
      → IsExtended m role m' k va phys
      → RangeMapped m role n va phys (false, m')
  whole : {m' : Mmu} → IsExtended m role m' n va phys → RangeMapped m role n va phys (true, m')

-- One page and then the pages behind it.
range_mapped-suc :
    (n va phys virt : ℕ) (old : ℕ → ℕ)
    → n < 2 ^ 27
    → va + page_size < 2 ^ 64
    → virt < 2 ^ 64
    → range_mapped n (va + page_size) (phys + page_size) (remapped va phys old) virt
      ≡ range_mapped (suc n) va phys old virt
range_mapped-suc n va phys virt old small va_small virt_small =
    elim (Bool-cases (page_number virt == page_number va)) [
      | inl same ↦
          let e : page_offset va virt ≡ 0 = ground arith in
          let e' : page_offset (va + page_size) virt ≡ 2 ^ 27 - 1 = omega arith in
          let out : ltb (page_offset (va + page_size) virt) n ≡ false = ground arith in
          let into : ltb (page_offset va virt) (suc n) ≡ true = ground arith in
          let at : phys + page_offset va virt * page_size ≡ phys = omega arith in
          rw (out, same, into, at)
      | inr other ↦
          let e : page_offset va virt ≡ page_offset (va + page_size) virt + 1 = ground arith in
          let at : phys + page_offset va virt * page_size
              ≡ phys + page_size + page_offset (va + page_size) virt * page_size =
            omega arith in
          let test : ltb (page_offset va virt) (suc n) ≡ ltb (page_offset (va + page_size) virt) n =
            ground arith in
          rw (other, test, at)
    ]

unchanged :
    {m m' : Mmu} (va phys : ℕ) (role role' : ℕ → Role)
    → IsTree m' role'
    → Extends m role m' role'
    → ((virt : ℕ) → virt < 2 ^ 64 → translate m' virt ≡ translate m virt)
    → IsExtended m role m' 0 va phys
unchanged va phys role role' tree extends walks = record {
  role' = role';
  tree = tree;
  extends = extends;
  walks = λ virt h.
      let none_in : ltb (page_offset va virt) 0 ≡ false = ground arith in rw none_in (walks virt h);
}

module _ (va phys : ℕ) (m m1 : Mmu) (role role1 : ℕ → Role) (x : Extends m role m1 role1)
    (va_small : va + page_size < 2 ^ 64)
    (walks : (virt : ℕ)
      → virt < 2 ^ 64
      → translate m1 virt ≡ remapped va phys (translate m) virt) where
  extended :
      (m' : Mmu) (n : ℕ)
      → n < 2 ^ 27
      → IsExtended m1 role1 m' n (va + page_size) (phys + page_size)
      → IsExtended m role m' (suc n) va phys
  extended m' n small y = record {
    role' = y.role';
    tree = y.tree;
    extends = Extends-trans x y.extends;
    walks = λ virt h.
        y.walks virt h
        ∙ ap
            (λ z.
              if ltb (page_offset (va + page_size) virt) n
              then bit_or (phys + page_size + page_offset (va + page_size) virt * page_size)
                  (bit_and virt 0xFFF)
              else z)
            (walks virt h)
        ∙ range_mapped-suc n va phys virt (translate m) small va_small h;
  }

  onwards :
      {r : Bool × Mmu} (n : ℕ)
      → n < 2 ^ 27
      → RangeMapped m1 role1 n (va + page_size) (phys + page_size) r
      → RangeMapped m role (suc n) va phys r
  onwards n small (stopped {m'} k lt full y) =
      stopped (suc k) (omega arith) full (extended m' k (omega arith) y)
  onwards n small (whole {m'} y) = whole (extended m' n small y)

module _ (va phys flags : ℕ) (phys_aligned : phys % 4096 ≡ 0) (flags_small : flags < 4096) where
  -- The rounds behind a first one.
  next_round :
      (n i : ℕ) (m : Mmu) (role : ℕ → Role)
      → va + (i + suc n) * page_size < 2 ^ 64
      → n < 2 ^ 27
      → ((m' : Mmu) (role' : ℕ → Role)
          → IsTree m' role'
          → RangeMapped m' role' n
              (va + (i + 1) * page_size)
              (phys + (i + 1) * page_size)
              (map_pages n (i + 1) va phys flags m'))
      → {r : Bool × Mmu} → Mapped m role (va + i * page_size) (phys + i * page_size) r
      → RangeMapped m role
          (suc n)
          (va + i * page_size)
          (phys + i * page_size)
          (elim (r.0) [ true ↦ map_pages n (i + 1) va phys flags (r.1) | false ↦ (false, r.1) ])
  next_round n i m role va_small small rest (no_frame role' tree full x walks) =
      stopped 0 (omega arith) full (unchanged _ _ role role' tree x walks)
  next_round n i m role va_small small rest (mapped {m'} role' tree x walks) =
      let e : va + (i + 1) * page_size ≡ va + i * page_size + page_size = omega arith in
      let f : phys + (i + 1) * page_size ≡ phys + i * page_size + page_size = omega arith in
      onwards (va + i * page_size) (phys + i * page_size) m m' role role' x (omega arith) walks n
        small
        (subst
          (λ x.
            RangeMapped m' role' n x (phys + i * page_size + page_size)
              (map_pages n (i + 1) va phys flags m'))
          e
          (subst
            (λ x.
              RangeMapped m' role' n (va + (i + 1) * page_size) x
                (map_pages n (i + 1) va phys flags m'))
            f (rest m' role' tree)))

  pub map_pages-RangeMapped :
      (n i : ℕ) (m : Mmu) (role : ℕ → Role)
      → IsTree m role
      → va + (i + n) * page_size < 2 ^ 64
      → phys + (i + n) * page_size ≤ 2 ^ 48
      → n ≤ 2 ^ 27
      → RangeMapped m role n
          (va + i * page_size)
          (phys + i * page_size)
          (map_pages n i va phys flags m)
  unfolding map_pages
  map_pages-RangeMapped zero i m role tree va_small phys_small small =
      whole (unchanged _ _ role role tree (Extends-refl m role) (λ virt h. refl))
  map_pages-RangeMapped (suc n) i m role tree va_small phys_small small =
      let e : u64 (va + i * page_size) ≡ va + i * page_size = omega arith in
      let f : u64 (phys + i * page_size) ≡ phys + i * page_size = omega arith in
      let at = va + i * page_size in
      let to = phys + i * page_size in
      next_round n i m role va_small (omega arith)
        (λ m' role' tree'.
          map_pages-RangeMapped n (i + 1) m' role' tree' (omega arith) (omega arith) (omega arith))
        (subst (λ x. Mapped m role at to (map_page x (u64 to) flags m)) (sym e)
          (subst (λ x. Mapped m role at to (map_page at x flags m)) (sym f)
            (map_page-Mapped at to flags (omega arith) (omega arith) (omega arith) flags_small m
              role tree)))
