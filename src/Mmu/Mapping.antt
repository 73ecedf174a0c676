-- ===== src/Mmu/Mapping.antt =====
-- `map` of src/mmu/mmu.cpp as a whole: the translations and the events.
use kehinde_kernel.Prelude.{
  ℕ, zero, suc, ◌+◌, ◌*◌, ◌/◌, ◌%◌, ◌^◌, ◌≤◌, ◌<◌, ◌≡◌, refl, ap, arith, true, Bool, List, ◌∷◌,
  subst,
}
use kehinde_kernel.Bits.{u64}
use kehinde_kernel.Pmm.{page_size}
use kehinde_kernel.Pmm.Frames.{used}
use kehinde_kernel.Mmu.{
  Mmu, Event, dsb_ishst, dsb_ish, isb, invalidate_pages, finish_edit, start_edit, map_page,
  map_pages, map, translate, enter_l2, write_page, get_or_alloc_table, link_table,
}
use kehinde_kernel.Mmu.Tables.{Role, IsTree}
use kehinde_kernel.Mmu.Range.{IsExtended, RangeMapped, stopped, whole, map_pages-RangeMapped}

-- What `map` over `n` pages comes to.
pub data MapOutcome (m : Mmu) (role : ℕ → Role) (n va phys : ℕ) (m' : Mmu) : Type 0 where
  out_of_frames :
      (k : ℕ)
      → k < n
      → ((j : ℕ) → j < m'.pmm.total_frames → used m'.pmm.bitmap j ≡ true)
      → IsExtended m role m' k va phys
      → m'.events ≡ dsb_ishst ∷ m.events
      → MapOutcome m role n va phys m'
  complete :
      IsExtended m role m' n va phys
      → m'.events ≡ isb ∷ dsb_ish ∷ invalidate_pages n 0 va (dsb_ishst ∷ m.events)
      → MapOutcome m role n va phys m'

map_page-events : (va phys flags : ℕ) (m : Mmu) → (map_page va phys flags m).1.events ≡ m.events
unfolding map_page enter_l2 write_page get_or_alloc_table link_table
map_page-events va phys flags m = ground arith

map_pages-events :
    (n i va phys flags : ℕ) (m : Mmu) → (map_pages n i va phys flags m).1.events ≡ m.events
unfolding map_pages
map_pages-events zero i va phys flags m = refl
map_pages-events (suc n) i va phys flags m =
    let at = u64 (va + i * page_size) in
    let to = u64 (phys + i * page_size) in
    let round = map_page at to flags m in
    ground
      (arith, map_page-events at to flags m, map_pages-events n (i + 1) va phys flags (round.1))

-- Only the events differ.
abbrev pub with_events : Mmu → List Event → Mmu
with_events m events = record m { events = events }

pub with_events-IsTree :
    (m : Mmu) (role : ℕ → Role) (events : List Event)
    → IsTree m role
    → IsTree (with_events m events) role
with_events-IsTree m role events tree = record {
  valid = tree.valid;
  top = tree.top;
  owned = tree.owned;
  links = tree.links;
}

with_events-IsExtended :
    (m : Mmu) (role : ℕ → Role) (m' : Mmu) (k va phys : ℕ) (before after : List Event)
    → IsExtended (with_events m before) role m' k va phys
    → IsExtended m role (with_events m' after) k va phys
unfolding translate
with_events-IsExtended m role m' k va phys before after x = record {
  role' = x.role';
  tree = with_events-IsTree m' x.role' after x.tree;
  extends = record { root = x.extends.root; grows = x.extends.grows; takes = x.extends.takes };
  walks = x.walks;
}

finished :
    (m : Mmu) (role : ℕ → Role) (n va phys : ℕ) {r : Bool × Mmu}
    → RangeMapped (start_edit m) role n va phys r
    → r.1.events ≡ dsb_ishst ∷ m.events
    → MapOutcome m role n va phys (finish_edit n va r)
unfolding finish_edit
finished m role n va phys (stopped {m'} k lt full x) quiet =
    out_of_frames k lt full
      (with_events-IsExtended m role m' k va phys (dsb_ishst ∷ m.events) m'.events x) quiet
finished m role n va phys (whole {m'} x) quiet =
    complete
      (with_events-IsExtended m role m' n va phys (dsb_ishst ∷ m.events)
        (isb ∷ dsb_ish ∷ invalidate_pages n 0 va m'.events) x)
      (ap (λ l. isb ∷ dsb_ish ∷ invalidate_pages n 0 va l) quiet)

-- On a tree of tables, for an aligned physical range below `2 ^ 48`, flags below 4096, and a
-- virtual range below `2 ^ 64` of at most `2 ^ 39` bytes, `map` updates the function that
-- `translate` computes. If it completes, each address whose page lies in the range, counted within
-- 39 bits, leads to the frame of that page joined with its low twelve bits, and every other 64-bit
-- address leads where it led; then the translations of all pages have been invalidated between
-- barriers. If it stops early, that holds with only the first pages of the range, every frame is in
-- use, and nothing was invalidated. The tables stay a tree with the same root, every new table
-- stands in a frame that was free, and no frame is given back.
pub map-MapOutcome :
    (va phys size flags : ℕ) (m : Mmu) (role : ℕ → Role)
    → IsTree m role
    → phys % 4096 ≡ 0
    → flags < 4096
    → va + size < 2 ^ 64
    → phys + size ≤ 2 ^ 48
    → size ≤ 2 ^ 39
    → MapOutcome m role (size / page_size) va phys (map va phys size flags m)
unfolding map
map-MapOutcome va phys size flags m role tree aligned flags_small va_small phys_small small =
    let n = size / page_size in
    let start : va + 0 * page_size ≡ va = omega arith in
    let to : phys + 0 * page_size ≡ phys = omega arith in
    let run = map_pages n 0 va phys flags (start_edit m) in
    let rounds : RangeMapped (start_edit m) role n va phys run =
      subst (λ x. RangeMapped (start_edit m) role n x phys run) start
        (subst (λ x. RangeMapped (start_edit m) role n (va + 0 * page_size) x run) to
          (map_pages-RangeMapped va phys flags aligned flags_small n 0 (start_edit m) role
            (with_events-IsTree m role (dsb_ishst ∷ m.events) tree) (omega arith) (omega arith)
            (omega arith))) in
    finished m role n va phys rounds (map_pages-events n 0 va phys flags (start_edit m))
