-- ===== src/Mmu/Walk.antt =====
-- `translate` of src/mmu/mmu.cpp level by level, on a tree of tables.
use kehinde_kernel.Prelude.{
  ℕ, ◌/◌, ◌%◌, ◌^◌, ◌<◌, ◌≡◌, refl, sym, ◌∙◌, arith, ◌==◌, true, false, not, if◌then◌else◌,
}
use kehinde_kernel.Bits.{bit_and, bit_or, bit_and_step, all_ones}
use kehinde_kernel.Bits.Fields.{masked_address, low_bits_set, bit_and-low_mask}
use kehinde_kernel.Mmu.{Mmu, slot, addr_mask, l1_index, l2_index, l3_index, is_valid, translate}

-- The walk below the given descriptor of a page, of an L3 table, of an L2 table.
abbrev pub page_walk : ℕ → ℕ → ℕ
page_walk desc virt =
    if not (is_valid desc) then all_ones else bit_or (bit_and desc addr_mask) (bit_and virt 0xFFF)

abbrev pub l3_walk : (ℕ → ℕ) → ℕ → ℕ → ℕ
l3_walk mem desc virt =
    if not (is_valid desc)
    then all_ones
    else page_walk (mem (slot (bit_and desc addr_mask) (l3_index virt))) virt

abbrev pub l2_walk : (ℕ → ℕ) → ℕ → ℕ → ℕ
l2_walk mem desc virt =
    if not (is_valid desc)
    then all_ones
    else l3_walk mem (mem (slot (bit_and desc addr_mask) (l2_index virt))) virt

pub translate_lem :
    (m : Mmu) (virt : ℕ)
    → translate m virt ≡ l2_walk m.mem (m.mem (slot m.l1_table (l1_index virt))) virt
unfolding translate
translate_lem m virt = refl

-- A descriptor without the lowest bit is not valid.
pub free-is_valid : (e : ℕ) → (bit_and e 1 == 0) ≡ true → is_valid e ≡ false
free-is_valid e free = ground (arith, bit_and_step e 3, bit_and_step e 1)

-- The test and the address of a descriptor of a table.
pub table-is_valid : (t : ℕ) → t < 2 ^ 48 → is_valid (bit_or t 3) ≡ true
table-is_valid t small = low_bits_set t (omega arith)

pub table-address : (t : ℕ) → t < 2 ^ 48 → t % 4096 ≡ 0 → bit_and (bit_or t 3) addr_mask ≡ t
table-address t small aligned = masked_address t 3 small aligned (omega arith)

pub l1_index_lem : (virt : ℕ) → virt < 2 ^ 64 → l1_index virt ≡ virt / 2 ^ 30 % 512
l1_index_lem virt h = bit_and-low_mask 9 64 (virt / 2 ^ 30) (omega arith)

pub l2_index_lem : (virt : ℕ) → virt < 2 ^ 64 → l2_index virt ≡ virt / 2 ^ 21 % 512
l2_index_lem virt h = bit_and-low_mask 9 64 (virt / 2 ^ 21) (omega arith)

pub l3_index_lem : (virt : ℕ) → virt < 2 ^ 64 → l3_index virt ≡ virt / 2 ^ 12 % 512
l3_index_lem virt h = bit_and-low_mask 9 64 (virt / 2 ^ 12) (omega arith)

-- The number of the page within the 39 bits that a walk reads.
abbrev pub page_number : ℕ → ℕ
page_number virt = virt / 2 ^ 12 % 2 ^ 27

-- Addresses with the same three indices lie in the same page.
pub page_number_indices :
    (v w : ℕ)
    → v < 2 ^ 64
    → w < 2 ^ 64
    → l1_index v ≡ l1_index w
    → l2_index v ≡ l2_index w
    → l3_index v ≡ l3_index w
    → page_number v ≡ page_number w
page_number_indices v w hv hw e1 e2 e3 = omega (
  arith,
  sym (l1_index_lem v hv) ∙ e1 ∙ l1_index_lem w hw,
  sym (l2_index_lem v hv) ∙ e2 ∙ l2_index_lem w hw,
  sym (l3_index_lem v hv) ∙ e3 ∙ l3_index_lem w hw,
)

pub indices_page_number :
    (v w : ℕ)
    → v < 2 ^ 64
    → w < 2 ^ 64
    → page_number v ≡ page_number w
    → (l1_index v ≡ l1_index w) × (l2_index v ≡ l2_index w) × (l3_index v ≡ l3_index w)
indices_page_number v w hv hw e = (
  l1_index_lem v hv ∙ omega arith ∙ sym (l1_index_lem w hw),
  l2_index_lem v hv ∙ omega arith ∙ sym (l2_index_lem w hw),
  l3_index_lem v hv ∙ omega arith ∙ sym (l3_index_lem w hw),
)
