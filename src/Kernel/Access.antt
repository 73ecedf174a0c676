-- ===== src/Kernel/Access.antt =====
-- Accesses to memory and to the registers of the devices in `kernel_main` of src/kernel.cpp, once
-- the MMU is on.
use kehinde_kernel.Prelude.{
  ℕ, ◌-◌, ◌*◌, ◌/◌, ◌%◌, true, false, ◌==◌, ◌&&◌, sym, Bool-cases, ◌+◌, ◌^◌, ◌≤◌, ◌<◌, ◌≡◌, inl,
  inr, ◌⊎◌, refl, ap, ◌∙◌, arith, List, [], ◌∷◌,
}
use kehinde_kernel.Bits.{all_ones, bit_and, bit_or}
use kehinde_kernel.Bits.Fields.{bit_and-low_mask, page_join}
use mathlib.Core.Bool.{false≢true}
use kehinde_kernel.Run.{Run}
use kehinde_kernel.Run.Ends.{Ends, returns, waits, faults, Ends->>=, Ends-weaker}
use kehinde_kernel.Board.{Board, board_pi3, board_pi5, uart0_fr, uart0_dr}
use kehinde_kernel.Pmm.{page_size}
use kehinde_kernel.Pmm.Free.{frame_address}
use kehinde_kernel.Heap.Backing.{IsBacked}
use kehinde_kernel.Heap.Rounds.{Backing, every_page, all_but_last}
use kehinde_kernel.Interrupts.Pi3.{irq_1ds, irq_2ds, irq_bds, irq_ben, irq_en_c0, irq_en2}
use kehinde_kernel.Interrupts.Pi5.{gicd_ctlr, gicd_isenabler0, gicc_pmr, gicc_ctlr}
use kehinde_kernel.Shell.Tokens.{All}
use kehinde_kernel.Mmu.{Mmu, translate}
use kehinde_kernel.Mmu.Identity.{IsFull}
use kehinde_kernel.Mmu.Regions.{InRegion}
use kehinde_kernel.Heap.{Heap, heap_base}
use kehinde_kernel.Filesystem.{sizeof_inode}
use kehinde_kernel.Uart.{Bus, uart_puts, mmio_read, next_answer}
use kehinde_kernel.Uart.Output.{uart_puts-Sends}
use kehinde_kernel.Interrupts.Pi5 as InterruptsPi5
use kehinde_kernel.Kernel.{is_mapped, reach}

-- A call that faults only for the reason `M`.
abbrev pub Sound : {A : Type 0} → Type 0 → (A → Type 0) → Run A → Type 0
Sound M P r = Ends (Unit {0}) M P r

pub said :
    {M : Type 0} (board : Board) (s : List ℕ) (bus : Bus)
    → Sound M (λ _. Unit {0}) (uart_puts board s bus)
said board s bus =
    Ends-weaker (λ none. absurd none) (λ none. absurd none) (λ a p. tt)
      (uart_puts-Sends board s bus)

-- An address that leads to itself is mapped.
itself_mapped :
    (m : Mmu) (virt : ℕ) → virt < 2 ^ 39 → translate m virt ≡ virt → is_mapped m virt ≡ true
unfolding is_mapped
itself_mapped m virt lt e =
    let apart : (virt == all_ones) ≡ false = ground arith in rw (e, apart) refl

-- So is an address in a page of the heap that has its frame.
pub page_mapped :
    {m : Mmu} {n : ℕ}
    → IsBacked m n
    → (virt : ℕ) → heap_base ≤ virt
    → virt < heap_base + n * page_size
    → virt < 2 ^ 48
    → is_mapped m virt ≡ true
unfolding is_mapped
page_mapped {m} {n} b virt lo hi small =
    let v = b.tree.valid in
    let i = (virt - heap_base) / page_size in
    let frame = frame_address m.pmm (b.frame i) in
    let below : b.frame i < m.pmm.total_frames = b.inside i (omega arith) in
    let x = frame + virt % 4096 in
    let near : x < 2 ^ 48 = omega (arith, v.within) in
    let page : x / 4096 * 4096 ≡ frame = omega (arith, v.aligned) in
    let low : bit_and virt 0xFFF ≡ virt % 4096 = bit_and-low_mask 12 48 virt small in
    let same : x % 4096 ≡ virt % 4096 = omega (arith, v.aligned) in
    let low_x : bit_and x 0xFFF ≡ virt % 4096 = bit_and-low_mask 12 48 x near ∙ same in
    let joined : bit_or frame (bit_and virt 0xFFF) ≡ x =
      ap (bit_or frame) (low ∙ sym low_x)
      ∙ ap (λ t. bit_or t (bit_and x 0xFFF)) (sym page)
      ∙ page_join x near in
    let apart : (x == all_ones) ≡ false = ground arith in
    rw (b.found virt lo hi ∙ joined, apart) refl

-- The first inode lies in memory, unless its page got no frame.
pub first_mapped :
    (h : Heap) (n : ℕ)
    → 0 < n
    → Backing h.mmu n
    → IsFull h.mmu.pmm
      ⊎ ((is_mapped h.mmu heap_base && is_mapped h.mmu (heap_base + sizeof_inode - 1)) ≡ true)
first_mapped h n some_page (all_but_last k last full b) = inl full
first_mapped h n some_page (every_page b) =
    let here = page_mapped b heap_base (omega arith) (omega arith) (omega arith) in
    let there =
      page_mapped b (heap_base + sizeof_inode - 1) (omega arith) (omega arith) (omega arith) in
    inr (rw (here, there) refl)

-- Registers of the regions.
abbrev pub AreRegisters : Board → ℕ → ℕ → List ℕ → Type 0
AreRegisters board ps ls rs = All (λ (virt : ℕ). (virt < 2 ^ 39) × InRegion board ps ls virt) rs

pub reach-Sound :
    {M : Type 0} (board : Board) (ps ls : ℕ) (m : Mmu) (rs : List ℕ)
    → AreRegisters board ps ls rs
    → M ⊎ ((virt : ℕ) → virt < 2 ^ 39 → InRegion board ps ls virt → translate m virt ≡ virt)
    → Sound M (λ _. Unit {0}) (reach rs m)
unfolding reach
reach-Sound board ps ls m [] known h = returns tt
reach-Sound board ps ls m (virt ∷ rest) (here, known) h =
    let later = reach-Sound board ps ls m rest known h in
    elim (Bool-cases (is_mapped m virt)) [
      | inl leads ↦ rw leads later
      | inr away ↦ rw away (elim h [
        | inl why ↦ faults why
        | inr all ↦
            let leads = itself_mapped m virt here.0 (all virt here.0 here.1) in
            absurd (false≢true (sym away ∙ leads))
      ])
    ]

next_answer-Sound :
    {M : Type 0} (reg : ℕ) (bus : Bus) (rs : List ℕ)
    → Sound M (λ _. Unit {0}) (next_answer reg bus rs)
unfolding next_answer
next_answer-Sound reg bus [] = waits
next_answer-Sound reg bus (r ∷ rs) = returns tt

pub interrupt_init-Sound :
    {M : Type 0} (b : Bus) → Sound M (λ _. Unit {0}) (InterruptsPi5.interrupt_init b)
unfolding InterruptsPi5.interrupt_init mmio_read
interrupt_init-Sound b = Ends->>= _ (next_answer-Sound _ _ _) (λ (enabled, bus1) _. returns tt)

pub uart_pi3 :
    AreRegisters board_pi3 0x0100_0000 0x0000_1000 (uart0_fr board_pi3 ∷ uart0_dr board_pi3 ∷ [])
unfolding board_pi3
uart_pi3 = ((omega arith, inr (inl (omega arith))), ((omega arith, inr (inl (omega arith))), tt))

pub uart_pi5 :
    AreRegisters board_pi5 0x41_0000 0x8000 (uart0_fr board_pi5 ∷ uart0_dr board_pi5 ∷ [])
unfolding board_pi5
uart_pi5 = ((omega arith, inr (inl (omega arith))), ((omega arith, inr (inl (omega arith))), tt))

pub interrupts_pi3 :
    AreRegisters board_pi3 0x0100_0000 0x0000_1000
      (irq_1ds ∷ irq_2ds ∷ irq_bds ∷ irq_ben ∷ irq_en_c0 ∷ irq_en2 ∷ [])
unfolding board_pi3
interrupts_pi3 = (
  (omega arith, inr (inl (omega arith))),
  (
    (omega arith, inr (inl (omega arith))),
    (
      (omega arith, inr (inl (omega arith))),
      (
        (omega arith, inr (inl (omega arith))),
        ((omega arith, inr (inr (omega arith))), ((omega arith, inr (inl (omega arith))), tt)),
      ),
    ),
  ),
)

pub interrupts_pi5 :
    AreRegisters board_pi5 0x41_0000 0x8000
      (gicd_ctlr ∷ gicd_isenabler0 ∷ gicc_pmr ∷ gicc_ctlr ∷ [])
unfolding board_pi5
interrupts_pi5 = (
  (omega arith, inr (inr (omega arith))),
  (
    (omega arith, inr (inr (omega arith))),
    ((omega arith, inr (inr (omega arith))), ((omega arith, inr (inr (omega arith))), tt)),
  ),
)
