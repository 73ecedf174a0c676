-- ===== src/Mmu/Reserve.antt =====
-- A frame that src/pmm/pmm.cpp hands out for a page, beside the tables of src/mmu/mmu.cpp.
use kehinde_kernel.Prelude.{
  ℕ, ◌+◌, ◌*◌, ◌<◌, ◌≡◌, inl, inr, refl, sym, ap, ◌∙◌, arith, ◌==◌, ◌||◌, true, false, Bool-cases,
}
use mathlib.Core.Bool.{false≢true}
use kehinde_kernel.Pmm.{Pmm, page_size}
use kehinde_kernel.Pmm.Frames.{used}
use kehinde_kernel.Pmm.Free.{frame_address}
use kehinde_kernel.Mmu.{Mmu, translate}
use kehinde_kernel.Mmu.Tables.{Role, is_table, IsTree, Extends}

-- The frame `idx` at `addr` went from the allocator of `m` to that of `m'`, and nothing else.
pub record IsReserved (m : Mmu) (role : ℕ → Role) (m' : Mmu) (addr idx : ℕ) : Type 0 where
  pub tree : IsTree m' role
  pub extends : Extends m role m' role
  pub place : addr ≡ frame_address m.pmm idx
  pub below : idx < m.pmm.total_frames
  pub was_free : used m.pmm.bitmap idx ≡ false
  pub taken : used m'.pmm.bitmap idx ≡ true
  pub page : is_table (role addr) ≡ false
  pub walks : (virt : ℕ) → translate m' virt ≡ translate m virt

free-¬table :
    {m : Mmu} {role : ℕ → Role}
    → IsTree m role
    → (idx : ℕ) → used m.pmm.bitmap idx ≡ false
    → is_table (role (frame_address m.pmm idx)) ≡ false
free-¬table {m} {role} tree idx free =
    elim (Bool-cases (is_table (role (frame_address m.pmm idx)))) [
      | inr plain ↦ plain
      | inl table ↦
          let (j, lt, at, set) = tree.owned (frame_address m.pmm idx) table in
          let e : j ≡ idx = omega arith in
          absurd (false≢true (sym free ∙ ap (used m.pmm.bitmap) (sym e) ∙ set))
    ]

pub granted-IsReserved :
    (m : Mmu) (role : ℕ → Role) (addr : ℕ) (q : Pmm) (idx : ℕ)
    → IsTree m role
    → addr ≡ m.pmm.phys_mem_start + idx * page_size
    → q.phys_mem_start ≡ m.pmm.phys_mem_start
    → q.total_frames ≡ m.pmm.total_frames
    → idx < m.pmm.total_frames
    → used m.pmm.bitmap idx ≡ false
    → ((j : ℕ) → used q.bitmap j ≡ (used m.pmm.bitmap j || (idx == j)))
    → kehinde_kernel.Pmm.Frames.IsValid q
    → IsReserved m role (record m { pmm = q }) addr idx
unfolding translate
granted-IsReserved m role addr q idx tree at start total below free marks valid = record {
  tree = record {
    valid = valid;
    top = tree.top;
    owned = λ t h.
        let (j, lt, place, set) = tree.owned t h in
        (j, omega arith, omega arith, ground (arith, marks j));
    links = tree.links;
  };
  extends = record {
    root = refl;
    grows = record { start = start; total = total; still = λ j h. ground (arith, marks j) };
    takes = λ t h. inl h;
  };
  place = at;
  below = below;
  was_free = free;
  taken = ground (arith, marks idx);
  page = ap (λ a. is_table (role a)) at ∙ free-¬table tree idx free;
  walks = λ virt. refl;
}

-- New tables do not take a frame in use.
pub Extends-page :
    {m : Mmu} {role : ℕ → Role} {m' : Mmu} {role' : ℕ → Role}
    → Extends m role m' role'
    → (j : ℕ) → used m.pmm.bitmap j ≡ true
    → is_table (role (frame_address m.pmm j)) ≡ false
    → is_table (role' (frame_address m.pmm j)) ≡ false
Extends-page {m} {role} {m'} {role'} x j set plain =
    elim (Bool-cases (is_table (role' (frame_address m.pmm j)))) [
      | inr still ↦ still
      | inl table ↦ elim (x.takes (frame_address m.pmm j) table) [
        | inl old ↦ absurd (false≢true (sym plain ∙ old))
        | inr (k, lt, at, free) ↦
            let e : k ≡ j = omega arith in
            absurd (false≢true (sym free ∙ ap (used m.pmm.bitmap) e ∙ set))
      ]
    ]
