-- ===== src/Mmu/Tables.antt =====
-- The tables of src/mmu/mmu.cpp as a tree: which frame is a table of which level.
use kehinde_kernel.Prelude.{
  ℕ, zero, suc, ◌+◌, ◌%◌, ◌^◌, ◌≤◌, ◌<◌, ◌≡◌, ◌≢◌, inl, inr, ◌⊎◌, refl, sym, ◌∙◌, arith, ◌==◌, true,
  false, Bool, Bool-cases, update,
}
use kehinde_kernel.Bits.{bit_and, bit_or}
use kehinde_kernel.Pmm.{Pmm, alloc_frame}
use kehinde_kernel.Pmm.Frames.{used, Grows, Grows-refl, Grows-trans}
use mathlib.Core.Bool.{false≢true}
use kehinde_kernel.Pmm.Free.{frame_address}
use kehinde_kernel.Mmu.{Mmu, slot, clear_table, translate}

pub data Role : Type 0 where
  unused : Role
  level1 : Role
  level2 : ℕ → Role
  level3 : ℕ → ℕ → Role

-- The role of the table that entry `i` of a table points to.
abbrev pub child_of : Role → ℕ → Role
child_of level1 i = level2 i
child_of (level2 j) i = level3 j i
child_of (level3 j k) i = unused
child_of unused i = unused

-- The entries of the table point to tables.
abbrev pub is_interior : Role → Bool
is_interior unused = false
is_interior level1 = true
is_interior (level2 i) = true
is_interior (level3 i j) = false

abbrev pub is_table : Role → Bool
is_table unused = false
is_table level1 = true
is_table (level2 i) = true
is_table (level3 i j) = true

pub interior-table : (r : Role) → is_interior r ≡ true → is_table r ≡ true
interior-table unused h = cc
interior-table level1 h = refl
interior-table (level2 i) h = refl
interior-table (level3 i j) h = refl

pub child-table : (r : Role) (i : ℕ) → is_interior r ≡ true → is_table (child_of r i) ≡ true
child-table unused i h = cc
child-table level1 i h = refl
child-table (level2 j) i h = refl
child-table (level3 j k) i h = cc

-- An entry that is free, or the descriptor of the child in its role.
pub data Link (role : ℕ → Role) (r : Role) (i entry : ℕ) : Type 0 where
  free_entry : (bit_and entry 1 == 0) ≡ true → Link role r i entry
  child_entry : (c : ℕ) → entry ≡ bit_or c 3 → role c ≡ child_of r i → Link role r i entry

pub record IsTree (m : Mmu) (role : ℕ → Role) : Type 0 where
  pub valid : kehinde_kernel.Pmm.Frames.IsValid m.pmm
  pub top : role m.l1_table ≡ level1
  pub owned :
      (t : ℕ)
      → is_table (role t) ≡ true
      → (j : ℕ) × (j < m.pmm.total_frames)
        × (t ≡ frame_address m.pmm j)
        × (used m.pmm.bitmap j ≡ true)
  pub links :
      (t : ℕ)
      → is_interior (role t) ≡ true
      → (i : ℕ) → i < 512
      → Link role (role t) i (m.mem (slot t i))

-- The tree `m'` has the tables of `m`, with the same root, and new ones in frames that were free.
pub record Extends (m : Mmu) (role : ℕ → Role) (m' : Mmu) (role' : ℕ → Role) : Type 0 where
  pub root : m'.l1_table ≡ m.l1_table
  pub grows : Grows m.pmm m'.pmm
  pub takes :
      (t : ℕ)
      → is_table (role' t) ≡ true
      → (is_table (role t) ≡ true)
        ⊎ ((j : ℕ) × (j < m.pmm.total_frames)
            × (t ≡ frame_address m.pmm j)
            × (used m.pmm.bitmap j ≡ false))

pub Extends-refl : (m : Mmu) (role : ℕ → Role) → Extends m role m role
Extends-refl m role = record { root = refl; grows = Grows-refl m.pmm; takes = λ t h. inl h }

pub Extends-trans :
    {m : Mmu} {role : ℕ → Role} {m' : Mmu} {role' : ℕ → Role} {m'' : Mmu} {role'' : ℕ → Role}
    → Extends m role m' role'
    → Extends m' role' m'' role''
    → Extends m role m'' role''
Extends-trans {m} {role} {m'} x y = record {
  root = y.root ∙ x.root;
  grows = Grows-trans x.grows y.grows;
  takes = λ t h. elim (y.takes t h) [
    | inl old ↦ x.takes t old
    | inr (j, lt, at, free) ↦
        let start = x.grows.start in
        let total = x.grows.total in inr (j, omega arith, omega arith, still_free j free)
  ];
}
  where
    still_free : (j : ℕ) → used m'.pmm.bitmap j ≡ false → used m.pmm.bitmap j ≡ false
    still_free j free = elim (Bool-cases (used m.pmm.bitmap j)) [
      | inr clear ↦ clear
      | inl set ↦ absurd (false≢true (sym free ∙ x.grows.still j set))
    ]

pub clear_table-miss :
    (n table i a : ℕ) (mem : ℕ → ℕ)
    → ((k : ℕ) → i ≤ k → k < i + n → a ≢ slot table k)
    → clear_table n table i mem a ≡ mem a
unfolding clear_table
clear_table-miss zero table i a mem h = refl
clear_table-miss (suc n) table i a mem h =
    let off : (slot table i == a) ≡ false = ground (arith, h i (omega arith) (omega arith)) in
    clear_table-miss n table (i + 1) a (update mem (slot table i) 0)
      (λ k lo hi. h k (omega arith) (omega arith))
    ∙ rw off

pub clear_table-hit :
    (n table i k : ℕ) (mem : ℕ → ℕ)
    → i ≤ k
    → k < i + n
    → clear_table n table i mem (slot table k) ≡ 0
unfolding clear_table
clear_table-hit zero table i k mem lo hi = absurd (omega arith)
clear_table-hit (suc n) table i k mem lo hi = elim (Bool-cases (i == k)) [
  | inr other ↦
      clear_table-hit n table (i + 1) k (update mem (slot table i) 0) (ground arith) (omega arith)
  | inl same ↦
      clear_table-miss n table (i + 1) (slot table k) (update mem (slot table i) 0)
        (λ l lo hi. ground arith)
      ∙ ground arith
]

module _ (m : Mmu) (role : ℕ → Role) (tree : IsTree m role) (t i : ℕ) where
  -- A table stands for the entry: it was there, or it is a fresh frame. Every other entry of every
  -- table and every translation is as before.
  pub data Got : ℕ × Mmu → Type 0 where
    out_of_frames :
        {m' : Mmu}
        → m' ≡ m
        → ((j : ℕ) → j < m.pmm.total_frames → used m.pmm.bitmap j ≡ true)
        → Got (0, m')
    got :
        {c : ℕ} {m' : Mmu} (role' : ℕ → Role)
        → IsTree m' role'
        → 0 < c
        → Extends m role m' role'
        → role' c ≡ child_of (role t) i
        → m'.mem (slot t i) ≡ bit_or c 3
        → ((s : ℕ) → is_table (role s) ≡ true → role' s ≡ role s)
        → ((s k : ℕ)
            → is_table (role s) ≡ true
            → k < 512
            → (slot t i == slot s k) ≡ false
            → m'.mem (slot s k) ≡ m.mem (slot s k))
        → ((virt : ℕ) → virt < 2 ^ 64 → translate m' virt ≡ translate m virt)
        → Got (c, m')

-- Tables are frames: aligned, below the end of memory, and not at 0.
pub table_place :
    {m : Mmu} {role : ℕ → Role}
    → IsTree m role
    → (t : ℕ) → is_table (role t) ≡ true
    → (t % 4096 ≡ 0) × (0 < t) × (t < 2 ^ 48)
table_place tree t h =
    let (j, lt, at, set) = tree.owned t h in
    let v = tree.valid in
    (omega (arith, v.aligned), omega (arith, v.nonzero), omega (arith, v.within))

-- Slots of aligned tables are equal only for the same table and index.
pub slot_apart :
    (s t k i : ℕ)
    → s % 4096 ≡ 0
    → t % 4096 ≡ 0
    → k < 512
    → i < 512
    → slot t i ≡ slot s k
    → (t ≡ s) × (i ≡ k)
slot_apart s t k i a b hk hi e = (omega arith, omega arith)
