-- ===== src/Kernel/Boot.antt =====
-- The state in which `kernel_main` of src/kernel.cpp starts the shell.
use kehinde_kernel.Prelude.{
  ℕ, Bool, ◌+◌, ◌≤◌, ap, ◌∙◌, length, ◌^◌, ◌<◌, ◌≡◌, refl, sym, subst, arith, ◌==◌, [], ◌∷◌, none,
  some, Bool-cases, inl, inr,
}
use kehinde_kernel.Prelude.Codes.{codes}
use kehinde_kernel.Run.{Run, ok, panic, fault, out_of_fuel, ◌>>=◌}
use kehinde_kernel.Run.Ends.{
  Ends, returns, waits, panics, faults, Ends->>=, Ends-weaker, Ends_result,
}
use kehinde_kernel.Mmu.{Mmu}
use kehinde_kernel.Heap.{Heap, kheap_init, kmalloc}
use kehinde_kernel.Heap.Alloc.{kmalloc-ReturnsOrPanics}
use kehinde_kernel.Filesystem.{
  null_next, Fs, Inode, Block, Dirent, fs_init, root_ino, dir_type, file_type, find_inode,
}
use kehinde_kernel.Filesystem.Invariant as FsInvariant
use kehinde_kernel.Filesystem.Invariant.Creation.{fs_init_result, fs_init-IsValid}
use kehinde_kernel.Timer.{Timer, timer_init}
use kehinde_kernel.Uart.{Bus, uart_puts}
use kehinde_kernel.Shell.{Shell, max_line}
use kehinde_kernel.Shell.Loop.{Next, running, shell_run}
use kehinde_kernel.Shell.Valid.{Small, Counts}
use kehinde_kernel.Shell.Valid as ShellValid
use kehinde_kernel.Shell.Safety.{StaysValid, shell_run-StaysValid}
use kehinde_kernel.Kernel.{Platform, is_mapped, reach, console, kernel_main}

-- A list of one empty directory, whose number is 1.
first-Counts :
    (fs : Fs Heap) (root : Inode) (n : ℕ)
    → fs.inodes ≡ root ∷ []
    → fs.next_ino ≡ 2
    → root.inode_size ≡ 0
    → 2 + n < 2 ^ 64
    → Counts n fs
unfolding find_inode
first-Counts fs root n only next empty low = record {
  numbers = omega arith;
  sizes = λ i d at is_dir.
      let here : find_inode i (root ∷ []) ≡ some d = sym (ap (find_inode i) only) ∙ at in
      elim (Bool-cases (root.ino == i)) [
        | inl first ↦
            let found : some root ≡ some d = rw first at here in
            let same : root ≡ d = cc in
            subst (λ (t : Inode). t.inode_size + n < 2 ^ 64) same (omega arith)
        | inr other ↦ let found : none ≡ some d = rw other at here in cc
      ];
}

-- In a list of one directory there is no regular file.
no_file :
    (root : Inode) (i : ℕ) (n : Inode)
    → root.inode_type ≡ dir_type
    → find_inode i (root ∷ []) ≡ some n
    → ¬ (n.inode_type ≡ file_type)
unfolding find_inode
no_file root i n is_dir at is_file = elim (Bool-cases (root.ino == i)) [
  | inl here ↦
      let found : some root ≡ some n = rw here at at in
      let same : root ≡ n = cc in
      let other : root.inode_type ≡ file_type = rw same is_file in omega arith
  | inr there ↦ let found : none ≡ some n = rw there at at in cc
]

-- A new file system holds no regular file.
fs_init-Small :
    (is_mapped : Heap → ℕ → Bool) (heap : Heap) {fs : Fs Heap}
    → fs_init is_mapped kmalloc heap ≡ ok fs
    → Small fs.inodes
fs_init-Small is_mapped heap e i n at is_file =
    let (p, heap', allocated, same) = fs_init_result is_mapped kmalloc heap e in
    absurd (
      no_file _ i n refl (subst (λ (f : Fs Heap). find_inode i f.inodes ≡ some n) (sym same) at)
        is_file)

fs_init-Counts :
    (is_mapped : Heap → ℕ → Bool) (heap : Heap) (n : ℕ) {fs : Fs Heap}
    → 2 + n < 2 ^ 64
    → fs_init is_mapped kmalloc heap ≡ ok fs
    → Counts n fs
fs_init-Counts is_mapped heap n low e =
    let (p, heap', allocated, same) = fs_init_result is_mapped kmalloc heap e in
    subst (λ (f : Fs Heap). Counts n f) same (first-Counts _ _ n refl refl refl low)

-- Any call, of whose result it is said that the call gives it.
gives : {A : Type 0} (r : Run A) → Ends (Unit {0}) (Unit {0}) (λ (a : A). r ≡ ok a) r
gives (ok a) = returns refl
gives panic = panics tt
gives fault = faults tt
gives out_of_fuel = waits

started-IsValid :
    (fs : Fs Heap) (timer : Timer) (bus : Bus)
    → FsInvariant.IsValid fs
    → Small fs.inodes
    → timer.time < 2 ^ 64
    → ShellValid.IsValid
        (record { fs = fs; timer = timer; bus = bus; cwd_ino = root_ino; cwd_path = b'/' ∷ [] })
started-IsValid fs timer bus files small lt = record {
  files = files;
  small = small;
  here = files.root;
  named = omega arith;
  fits = omega arith;
  clock = lt;
}

boots-IsValid :
    (p : Platform) (cntfrq : ℕ) (bus : Bus) (heap : Heap) (timer : Timer) (n : ℕ)
    → timer.time < 2 ^ 64
    → 2 + n < 2 ^ 64
    → Ends
        (Unit {0})
        (Unit {0})
        (λ (sh : Shell Heap). ShellValid.Lasts n sh)
        (kernel_main p cntfrq bus heap timer)
unfolding kernel_main timer_init
boots-IsValid p cntfrq bus heap timer n lt low =
    let mapped : Heap → ℕ → Bool = λ h virt. is_mapped h.mmu virt in
    let heap1 : Mmu → Heap = λ mmu. kheap_init (record heap { mmu = mmu }) in
    Ends->>= _
      (gives (uart_puts p.board (codes "UART successfully initialized.\r\n") (p.uart_init bus)))
      (λ bus1 _. Ends->>= _ (gives (p.mmu_init heap.mmu)) (λ mmu _.
        Ends->>= _
          (gives (console p.board mmu (codes "Page Frame Allocator and MMU initialized.\r\n") bus1))
          (λ bus2 _.
            Ends->>= _ (gives (console p.board mmu (codes "Heap allocator initialized.\r\n") bus2))
              (λ bus3 _. Ends->>= _ (gives (fs_init mapped kmalloc (heap1 mmu))) (λ fs made.
                Ends->>= _ (gives (console p.board fs.heap.mmu (codes "fs_init done.\r\n") bus3))
                  (λ bus4 _.
                    Ends->>= _
                      (gives
                        (reach p.interrupt_registers fs.heap.mmu >>= λ _. p.interrupt_init bus4))
                      (λ bus5 _.
                        let files = fs_init-IsValid mapped kmalloc (heap1 mmu) made in
                        returns (record {
                          valid =
                              started-IsValid fs (timer_init cntfrq timer) bus5 files
                                (fs_init-Small mapped (heap1 mmu) made) lt;
                          counts = fs_init-Counts mapped (heap1 mmu) n low made;
                        }))))))))

-- When `kernel_main` of any platform, with a clock below `2 ^ 64`, has reached `shell_run`, and
-- `n` is less than `2 ^ 64 - 2`, the first `n` rounds of the shell, with blocks that are null where
-- `next` lies, end in a valid state, wait for the console or halt in panic, whatever is typed. They
-- follow a null pointer or write behind a buffer only if one of them starts in a state, reached by
-- the rounds before it, whose path has 256 bytes or more.
pub kernel_main-shell_run :
    (p : Platform) (cntfrq : ℕ) (bus : Bus) (heap : Heap) (timer : Timer) (sh : Shell Heap)
    (uninitialised : Block) (stack : ℕ → ℕ) (ent : Dirent) (n : ℕ)
    → timer.time < 2 ^ 64
    → 2 + n < 2 ^ 64
    → kernel_main p cntfrq bus heap timer ≡ ok sh
    → Ends
        (Unit {0})
        ((k : ℕ) × (k < n)
          × (sh' : Shell Heap) × (shell_run p.board kmalloc (null_next uninitialised) stack ent k sh
              ≡ ok (running sh'))
          × (max_line ≤ length sh'.cwd_path))
        (λ (next : Next Heap). StaysValid next)
        (shell_run p.board kmalloc (null_next uninitialised) stack ent n sh)
kernel_main-shell_run p cntfrq bus heap timer sh uninitialised stack ent n lt low e =
    let l = Ends_result (boots-IsValid p cntfrq bus heap timer n lt low) e in
    Ends-weaker (λ _. tt) (λ x. x) (λ next v. v)
      (shell_run-StaysValid p.board kmalloc uninitialised stack ent kmalloc-ReturnsOrPanics n sh
        l.valid l.counts)
