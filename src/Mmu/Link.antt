-- ===== src/Mmu/Link.antt =====
-- `_get_or_alloc_table` of src/mmu/mmu.cpp on a tree of tables.
use kehinde_kernel.Prelude.{
  ℕ, ◌<◌, ◌≡◌, inl, inr, refl, sym, ap, ◌∙◌, arith, ◌==◌, true, false, Bool-cases, subst,
}
use mathlib.Core.Bool.{false≢true}
use kehinde_kernel.Bits.{bit_and}
use kehinde_kernel.Bits.Fields.{masked_address}
use kehinde_kernel.Pmm.{Pmm}
use kehinde_kernel.Pmm.Frames.{used}
use kehinde_kernel.Pmm.Alloc.{
  Allocated, exhausted, granted, alloc_frame-Allocated, Allocated-IsValid,
}
use kehinde_kernel.Mmu.{Mmu, slot, addr_mask, link_table, get_or_alloc_table}
use kehinde_kernel.Mmu.Tables.{
  Role, is_interior, is_table, child-table, Link, free_entry, child_entry, IsTree, Extends-refl,
  Got, out_of_frames, got, table_place,
}
use kehinde_kernel.Mmu.Fresh.{link-Got}

entry-Got :
    (m : Mmu) (role : ℕ → Role) (tree : IsTree m role) (t i : ℕ)
    → is_interior (role t) ≡ true
    → i < 512
    → Link role (role t) i (m.mem (slot t i))
    → (bit_and (m.mem (slot t i)) 1 == 0) ≡ false
    → Got m role tree t i (bit_and (m.mem (slot t i)) addr_mask, m)
entry-Got m role tree t i inside lt (free_entry f) busy = absurd (false≢true (sym busy ∙ f))
entry-Got m role tree t i inside lt (child_entry c e r) busy =
    let child = subst (λ x. is_table x ≡ true) (sym r) (child-table (role t) i inside) in
    let (aligned, pos, small) = table_place tree c child in
    let masked : bit_and (m.mem (slot t i)) addr_mask ≡ c =
      rw e (masked_address c 3 small aligned (omega arith)) in
    rw masked (
      got role tree pos (Extends-refl m role) r e (λ s h. refl) (λ s k h lt apart. refl)
        (λ virt h. refl))

exhausted-Got :
    (m : Mmu) (role : ℕ → Role) (tree : IsTree m role) (t i : ℕ) (q : Pmm)
    → q ≡ m.pmm
    → ((j : ℕ) → j < m.pmm.total_frames → used m.pmm.bitmap j ≡ true)
    → Got m role tree t i (0, record m { pmm = q })
exhausted-Got m role tree t i q e all_used =
    out_of_frames (ap (λ (p : Pmm). record m { pmm = p }) e) all_used

link_table-Got :
    (m : Mmu) (role : ℕ → Role) (tree : IsTree m role) (t i : ℕ)
    → is_interior (role t) ≡ true
    → i < 512
    → (bit_and (m.mem (slot t i)) 1 == 0) ≡ true
    → {r : ℕ × Pmm} → Allocated m.pmm r
    → Got m role tree t i (link_table m t i r)
unfolding link_table
link_table-Got m role tree t i inside lt vacant (exhausted {q = q} z e all_used) =
    rw z (exhausted-Got m role tree t i q e all_used)
link_table-Got m role tree t i inside lt vacant
      (granted {addr} {q} idx at st tot below free before marks fits) =
    let nonzero : (addr == 0) ≡ false = ground (arith, tree.valid.nonzero) in
    rw nonzero (
      link-Got m role tree t i inside lt addr q idx at st tot below free marks
        (Allocated-IsValid tree.valid (granted idx at st tot below free before marks fits)) vacant)

pub get_or_alloc_table-Got :
    (m : Mmu) (role : ℕ → Role) (tree : IsTree m role) (t i : ℕ)
    → is_interior (role t) ≡ true
    → i < 512
    → Got m role tree t i (get_or_alloc_table m t i)
unfolding get_or_alloc_table
get_or_alloc_table-Got m role tree t i inside lt =
    elim (Bool-cases (bit_and (m.mem (slot t i)) 1 == 0)) [
      | inl vacant ↦
          rw vacant (
            link_table-Got m role tree t i inside lt vacant
              (alloc_frame-Allocated m.pmm tree.valid))
      | inr busy ↦ rw busy (entry-Got m role tree t i inside lt (tree.links t inside i lt) busy)
    ]
