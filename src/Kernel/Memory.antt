-- ===== src/Kernel/Memory.antt =====
-- The memory that `kernel_main` of src/kernel.cpp has set up when it starts the shell: what
-- `mmu_init`, `kheap_init` and the `kmalloc` of `fs_init` come to together.
use kehinde_kernel.Prelude.{
  ℕ, ◌-◌, ◌&&◌, Bool-cases, ◌+◌, ◌^◌, ◌≤◌, ◌<◌, ◌≡◌, inl, inr, ◌⊎◌, refl, ap, ◌∙◌, arith, List, [],
  ◌∷◌,
}
use kehinde_kernel.Prelude.Codes.{codes}
use kehinde_kernel.Bits.{all_ones}
use kehinde_kernel.Run.{ok, Run}
use kehinde_kernel.Run.Ends.{returns, panics, faults, Ends->>=, Ends-known}
use kehinde_kernel.Board.{Board, board_pi3, board_pi5, uart0_fr, uart0_dr}
use kehinde_kernel.Pmm.Init.{HasRoom}
use kehinde_kernel.Mmu.{Mmu, translate}
use kehinde_kernel.Mmu.Init.{mmu_init_pi3, mmu_init_pi5}
use kehinde_kernel.Mmu.Identity.{IsFull, IsIdentity}
use kehinde_kernel.Mmu.Regions.{InRegion, Inited, inited, mmu_init-Inited}
use kehinde_kernel.Heap.{Heap, heap_base, heap_max_size, kheap_init, kmalloc}
use kehinde_kernel.Heap.Sequence.{IsHeap, Call, refused, given, kmalloc-Call, kheap_init-IsHeap}
use kehinde_kernel.Filesystem.{Fs, fs_init, sizeof_inode}
use kehinde_kernel.Uart.{Bus}
use kehinde_kernel.Timer.{Timer}
use kehinde_kernel.Shell.{Shell}
use kehinde_kernel.Kernel.{platform_pi3, platform_pi5, is_mapped, console, kernel_main}
use kehinde_kernel.Kernel.Access.{
  Sound, said, first_mapped, AreRegisters, reach-Sound, interrupt_init-Sound, uart_pi3, uart_pi5,
  interrupts_pi3, interrupts_pi5,
}

-- The heap is valid on pages of its own. Outside its window an address of 39 bits leads to itself
-- or nowhere; to itself in the regions of the board, unless the frames ran out in `boot`, the call
-- of `mmu_init`.
pub record HasMemory (board : Board) (peripheral_size local_size : ℕ) (boot : Run Mmu) (h : Heap)
    : Type 0 where
  pub pages : ℕ
  pub heap : IsHeap h pages
  pub identity :
      (virt : ℕ)
      → virt < 2 ^ 39
      → (virt < heap_base) ⊎ (heap_base + heap_max_size ≤ virt)
      → (translate h.mmu virt ≡ virt) ⊎ (translate h.mmu virt ≡ all_ones)
  pub tables : Mmu
  pub made : boot ≡ ok tables
  pub regions :
      IsFull tables.pmm
      ⊎ ((virt : ℕ)
          → virt < 2 ^ 39
          → InRegion board peripheral_size local_size virt
          → translate h.mmu virt ≡ virt)

-- The frames ran out: `mmu_init` used the last one, or the `kmalloc` of `fs_init` did.
abbrev pub NoFrames : Run Mmu → Heap → Type 0
NoFrames boot heap =
    (m : Mmu) × (boot ≡ ok m)
    × (IsFull m.pmm
        ⊎ ((p : ℕ) × (h : Heap) × (kmalloc sizeof_inode (kheap_init (record heap { mmu = m }))
              ≡ ok (p, h))
            × IsFull h.mmu.pmm))

module _ (board : Board) (ps ls : ℕ)
    (apart : (virt : ℕ)
      → InRegion board ps ls virt
      → (virt < heap_base) ⊎ (heap_base + heap_max_size ≤ virt)) where
  abbrev IsSetUp : Run Mmu → Mmu → Type 0
  IsSetUp boot m =
      IsIdentity m
      × (IsFull m.pmm
          ⊎ ((virt : ℕ) → virt < 2 ^ 39 → InRegion board ps ls virt → translate m virt ≡ virt))
      × (boot ≡ ok m)

  Inited-Sound : {M : Type 0} {r : Run Mmu} → Inited board ps ls r → Sound M (IsSetUp r) r
  Inited-Sound (inited i regions) = returns (i, regions, refl)

  with_first_inode :
      {M : Type 0} (boot : Run Mmu) (m : Mmu) (h : Heap)
      → IsSetUp boot m
      → IsHeap h 0
      → h.mmu ≡ m
      → {r : Run (ℕ × Heap)} → Call h sizeof_inode r
      → Sound M
          (λ (got : ℕ × Heap).
            (got.0 ≡ h.bump_ptr)
            × (h.bump_ptr + sizeof_inode ≤ got.1.bump_ptr)
            × HasMemory board ps ls boot (got.1))
          r
  with_first_inode boot m h set i same refused = panics tt
  with_first_inode boot m h (identity, regions, made) i same
        (given {h'} n' aligned above heap kept) =
      returns (
        refl,
        above,
        record {
          pages = n';
          heap = heap;
          identity = λ virt lt away. elim (identity.walks virt lt) [
            | inl here ↦ inl (old virt lt away ∙ here)
            | inr nowhere ↦ inr (old virt lt away ∙ nowhere)
          ];
          tables = m;
          made = made;
          regions = elim regions [
            | inl full ↦ inl full
            | inr all ↦ inr (λ virt lt inside. old virt lt (apart virt inside) ∙ all virt lt inside)
          ];
        },
      )
    where
      old :
          (virt : ℕ)
          → virt < 2 ^ 39
          → (virt < heap_base) ⊎ (heap_base + heap_max_size ≤ virt)
          → translate h'.mmu virt ≡ translate m virt
      old virt lt away = kept virt lt away ∙ ap (λ t. translate t virt) same

  fs_init-Sound :
      (boot : Run Mmu) (m : Mmu) (heap : Heap)
      → IsSetUp boot m
      → Sound
          (NoFrames boot heap)
          (λ (fs : Fs Heap). HasMemory board ps ls boot fs.heap)
          (fs_init (λ h virt. is_mapped h.mmu virt) kmalloc (kheap_init (record heap { mmu = m })))
  unfolding fs_init kheap_init
  fs_init-Sound boot m heap set =
      let h = kheap_init (record heap { mmu = m }) in
      let i = kheap_init-IsHeap (record heap { mmu = m }) set.0.role set.0.tree in
      Ends->>= _
        (Ends-known
          (with_first_inode boot m h set i refl (kmalloc-Call h 0 sizeof_inode i (omega arith))))
        (λ (p, h') ((at, above, memory), ran).
          elim (first_mapped h' memory.pages
            (omega (arith, memory.heap.ends, memory.heap.valid.backed)) memory.heap.backing) [
              | inl full ↦
                  elim (Bool-cases
                    (is_mapped h'.mmu p && is_mapped h'.mmu (p + sizeof_inode - 1))) [
                      | inl leads ↦ rw leads (returns memory)
                      | inr away ↦ rw away (faults (m, set.2, inr (p, h', ran, full)))
                    ]
              | inr leads ↦ rw (at, leads) (returns memory)
            ])

  -- A text on the console, through the tables that `mmu_init` has made.
  console-Sound :
      {M : Type 0} (m : Mmu) (s : List ℕ) (bus : Bus)
      → AreRegisters board ps ls (uart0_fr board ∷ uart0_dr board ∷ [])
      → M ⊎ ((virt : ℕ) → virt < 2 ^ 39 → InRegion board ps ls virt → translate m virt ≡ virt)
      → Sound M (λ _. Unit {0}) (console board m s bus)
  unfolding console
  console-Sound m s bus uart known =
      Ends->>= _ (reach-Sound board ps ls m _ uart known) (λ _ _. said board s bus)

  regions_or :
      {boot : Run Mmu} (heap : Heap) {h : Heap}
      → HasMemory board ps ls boot h
      → NoFrames boot heap
        ⊎ ((virt : ℕ) → virt < 2 ^ 39 → InRegion board ps ls virt → translate h.mmu virt ≡ virt)
  regions_or heap memory = elim (memory.regions) [
    | inl full ↦ inl (memory.tables, memory.made, inl full)
    | inr all ↦ inr all
  ]

  set_up_or :
      {boot : Run Mmu} (heap : Heap) {m : Mmu}
      → IsSetUp boot m
      → NoFrames boot heap
        ⊎ ((virt : ℕ) → virt < 2 ^ 39 → InRegion board ps ls virt → translate m virt ≡ virt)
  set_up_or heap {m = m} set = elim (set.1) [
    | inl full ↦ inl (m, set.2, inl full)
    | inr all ↦ inr all
  ]

  -- The whole boot, with what the board links.
  kernel_main-Sound :
      (uart_init : Bus → Bus) (mmu_init : Mmu → Run Mmu) (interrupt_init : Bus → Run Bus)
      (registers : List ℕ) (cntfrq : ℕ) (bus : Bus) (heap : Heap) (timer : Timer)
      → Inited board ps ls (mmu_init heap.mmu)
      → AreRegisters board ps ls (uart0_fr board ∷ uart0_dr board ∷ [])
      → AreRegisters board ps ls registers
      → ((b : Bus) → Sound (NoFrames (mmu_init heap.mmu) heap) (λ _. Unit {0}) (interrupt_init b))
      → Sound
          (NoFrames (mmu_init heap.mmu) heap)
          (λ (sh : Shell Heap). HasMemory board ps ls (mmu_init heap.mmu) sh.fs.heap)
          (kernel_main
            (record {
              board = board;
              uart_init = uart_init;
              mmu_init = mmu_init;
              interrupt_init = interrupt_init;
              interrupt_registers = registers;
            })
            cntfrq
            bus
            heap
            timer)
  unfolding kernel_main
  kernel_main-Sound uart_init mmu_init interrupt_init registers cntfrq bus heap timer mmu uart regs
        interrupts =
      Ends->>= _ (said board (codes "UART successfully initialized.\r\n") (uart_init bus))
        (λ bus1 _. Ends->>= _ (Inited-Sound mmu) (λ m set.
          Ends->>= _
            (console-Sound m (codes "Page Frame Allocator and MMU initialized.\r\n") bus1 uart
              (set_up_or heap set))
            (λ bus2 _.
              Ends->>= _
                (console-Sound m (codes "Heap allocator initialized.\r\n") bus2 uart
                  (set_up_or heap set))
                (λ bus3 _. Ends->>= _ (fs_init-Sound (mmu_init heap.mmu) m heap set) (λ fs memory.
                  Ends->>= _
                    (console-Sound fs.heap.mmu (codes "fs_init done.\r\n") bus3 uart
                      (regions_or heap memory))
                    (λ bus4 _.
                      Ends->>= _
                        (Ends->>= _
                          (reach-Sound board ps ls fs.heap.mmu registers regs
                            (regions_or heap memory))
                          (λ _ _. interrupts bus4))
                        (λ bus5 _. returns memory)))))))

-- For a kernel image that ends behind 0x8_0000 and leaves 64 KiB below the end of memory,
-- `kernel_main` on either board reaches `shell_run`, waits for a device, or panics; an access to a
-- register of the console or of the interrupt controller, or to the first inode, faults for want of
-- a translation only if `mmu_init` or the first `kmalloc` used the last frame. When `shell_run` is
-- reached, the heap is valid and each of its pages leads to a frame of its own that is no page
-- table, the last page perhaps excepted when no frame is left. Outside the heap's window an address
-- below `2 ^ 39` leads to itself or nowhere, and either `mmu_init` used the last frame or every
-- address of RAM, of the board's peripherals and of its local peripherals leads to itself.
pub kernel_main-HasMemory :
    (kernel_end : ℕ) (memory : ℕ → ℕ) (sctlr cntfrq : ℕ) (bus : Bus) (heap : Heap) (timer : Timer)
    → HasRoom kernel_end
    → 0x8_0000 ≤ kernel_end
    → ((i : ℕ) → memory i < 2 ^ 64)
    → Sound
        (NoFrames (mmu_init_pi3 kernel_end memory sctlr heap.mmu) heap)
        (λ (sh : Shell Heap).
          HasMemory board_pi3 0x0100_0000 0x0000_1000
            (mmu_init_pi3 kernel_end memory sctlr heap.mmu)
            sh.fs.heap)
        (kernel_main (platform_pi3 kernel_end memory sctlr) cntfrq bus heap timer)
      × Sound
          (NoFrames (mmu_init_pi5 kernel_end memory sctlr heap.mmu) heap)
          (λ (sh : Shell Heap).
            HasMemory board_pi5 0x41_0000 0x8000
              (mmu_init_pi5 kernel_end memory sctlr heap.mmu)
              sh.fs.heap)
          (kernel_main (platform_pi5 kernel_end memory sctlr) cntfrq bus heap timer)
unfolding platform_pi3 platform_pi5 board_pi3 board_pi5
kernel_main-HasMemory kernel_end memory sctlr cntfrq bus heap timer room behind fits =
    let (pi3, pi5) = mmu_init-Inited kernel_end memory sctlr heap.mmu room behind fits in
    (
      kernel_main-Sound board_pi3 0x0100_0000 0x0000_1000
          (λ virt place. elim place [
            | inl ram ↦ inl (omega arith)
            | inr (inl peripheral) ↦ inl (omega arith)
            | inr (inr local) ↦ inl (omega arith)
          ])
          _ _ _ _ cntfrq bus heap timer pi3 uart_pi3 interrupts_pi3 (λ b. returns tt),
      kernel_main-Sound board_pi5 0x41_0000 0x8000
          (λ virt place. elim place [
            | inl ram ↦ inl (omega arith)
            | inr (inl peripheral) ↦ inr (omega arith)
            | inr (inr local) ↦ inr (omega arith)
          ])
          _ _ _ _ cntfrq bus heap timer pi5 uart_pi5 interrupts_pi5 interrupt_init-Sound,
    )
