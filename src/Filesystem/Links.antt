-- ===== src/Filesystem/Links.antt =====
-- The tree that the directories of src/filesystem/filesystem.cpp describe, as a set of links, and
-- the calls that change it. The order of the entries and where they lie are forgotten.
pub mod Calls
pub mod Resolve
use kehinde_kernel.Prelude.{
  ℕ, ◌+◌, ◌-◌, ◌<◌, ◌≤◌, ◌≡◌, ◌≢◌, ◌⊎◌, ◌↔◌, inl, inr, refl, sym, ap, subst, ◌∙◌, arith, Bool, true,
  false, ◌==◌, ==_refl, if◌then◌else◌, List, none, some, Bool-cases,
}
use kehinde_kernel.Run.{Run, ok}
use kehinde_kernel.Filesystem.{
  Fs, Inode, Dirent, Block, Kmalloc, Ret, minus_one, ret, find_inode, dir_type, invalid_ino,
}
use kehinde_kernel.Filesystem.Inodes.{find_inode-ino}
use kehinde_kernel.Filesystem.Directory.{fs_create, fs_unlink}
use kehinde_kernel.Filesystem.Directory.Slots.{entry_of}
use kehinde_kernel.Filesystem.Directory.Create.{
  IsName, Extended, CreateOutcome, halts, refused, creates, fs_create-CreateOutcome,
}
use kehinde_kernel.Filesystem.Directory.Unlink.{
  Removed, UnlinkOutcome, missing, kept, removes, fs_unlink-UnlinkOutcome,
}
use kehinde_kernel.Filesystem.File.Write.{ReturnsOrPanics}
use kehinde_kernel.Filesystem.Invariant.{IsValid}

-- The directory `n` has an entry of this name for inode `i`.
abbrev pub Holds : Inode → List ℕ → ℕ → Type 0
Holds n name i =
    (n.inode_type ≡ dir_type)
    × (k : ℕ) × (k < n.inode_size)
    × (entry_of n.chain k ≡ record { inode_id = i; name = name })

-- In directory `dir`, `name` leads to inode `i`.
abbrev pub Link : List Inode → ℕ → List ℕ → ℕ → Type 0
Link inodes dir name i = (n : Inode) × (find_inode dir inodes ≡ some n) × Holds n name i

pub Link-Holds :
    (inodes : List Inode) (dir : ℕ) (n : Inode) (name : List ℕ) (i : ℕ)
    → find_inode dir inodes ≡ some n
    → Link inodes dir name i
    → Holds n name i
Link-Holds inodes dir n name i at (m, h, l) =
    let both : some m ≡ some n = sym h ∙ at in
    let same : m ≡ n = cc in subst (λ x. Holds x name i) same l

-- A directory with one more entry holds that one and what it held.
Extended-Holds :
    (before after : Inode) (name : List ℕ) (i : ℕ) (m : List ℕ) (j : ℕ)
    → before.inode_type ≡ dir_type
    → Extended before after (record { inode_id = i; name = name })
    → Holds after m j ↔ (Holds before m j ⊎ ((m ≡ name) × (j ≡ i)))
Extended-Holds before after name i m j is_dir x = (to, from)
  where
    to : Holds after m j → Holds before m j ⊎ ((m ≡ name) × (j ≡ i))
    to (d, k, lt, e) = elim (Bool-cases (k == before.inode_size)) [
      | inl last ↦
          let at : k ≡ before.inode_size = ground arith in
          let same = sym e ∙ ap (λ t. entry_of after.chain t) at ∙ x.last in
          inr (ap (λ (t : Dirent). t.name) same, ap (λ (t : Dirent). t.inode_id) same)
      | inr inner ↦
          let below : k < before.inode_size = ground (arith, x.size) in
          inl (is_dir, k, below, sym (x.kept k below) ∙ e)
    ]

    from : Holds before m j ⊎ ((m ≡ name) × (j ≡ i)) → Holds after m j
    from (inl (d, k, lt, e)) = (x.same_type ∙ is_dir, k, omega (arith, x.size), x.kept k lt ∙ e)
    from (inr (em, ej)) =
        (x.same_type ∙ is_dir, before.inode_size, omega (arith, x.size), x.last ∙ rw (em, ej))

-- A directory without an entry holds the others, where names are distinct.
Removed-Holds :
    (before after : Inode) (k : ℕ) (m : List ℕ) (j : ℕ)
    → before.inode_type ≡ dir_type
    → k < before.inode_size
    → ((a b : ℕ)
        → a < before.inode_size
        → b < before.inode_size
        → (entry_of before.chain a).name ≡ (entry_of before.chain b).name
        → a ≡ b)
    → Removed before after k
    → Holds after m j ↔ (Holds before m j × (m ≢ (entry_of before.chain k).name))
Removed-Holds before after k m j is_dir inside distinct x = (to, from)
  where
    to : Holds after m j → Holds before m j × (m ≢ (entry_of before.chain k).name)
    to (d, i, lt, e) =
        let p = if k == i then before.inode_size - 1 else i in
        let there : entry_of before.chain p ≡ record { inode_id = j; name = m } =
          sym (x.entries i (omega (arith, x.size))) ∙ e in
        let below : p < before.inode_size = ground (arith, x.size) in
        let apart : p ≢ k = λ same. ground (arith, x.size) in
        (
          (is_dir, p, below, there),
          λ same. apart (distinct p k below inside (ap (λ (t : Dirent). t.name) there ∙ same)),
        )

    from : Holds before m j × (m ≢ (entry_of before.chain k).name) → Holds after m j
    from ((d, i, lt, e), other) =
        let apart : i ≢ k = λ same.
          other
            (sym (ap (λ (t : Dirent). t.name) e) ∙ ap (λ p. (entry_of before.chain p).name) same) in
        elim (Bool-cases (i == before.inode_size - 1)) [
          | inl last ↦
              let at : i ≡ before.inode_size - 1 = ground arith in
              let below : k < before.inode_size - 1 = ground arith in
              (
                x.same_type ∙ is_dir,
                k,
                omega (arith, x.size),
                x.entries k below ∙ rw (==_refl k, ← at) e,
              )
          | inr inner ↦
              let below : i < before.inode_size - 1 = ground arith in
              let off : (k == i) ≡ false = ground arith in
              (x.same_type ∙ is_dir, i, omega (arith, x.size), x.entries i below ∙ rw off e)
        ]

-- A creation, as a change of the links.
abbrev pub Adds : List Inode → List Inode → ℕ → List ℕ → ℕ → Type 0
Adds inodes inodes' dir name i =
    (d : ℕ) (m : List ℕ) (j : ℕ)
    → Link inodes' d m j ↔ (Link inodes d m j ⊎ ((d ≡ dir) × (m ≡ name) × (j ≡ i)))

-- A removal.
abbrev pub Drops : List Inode → List Inode → ℕ → List ℕ → Type 0
Drops inodes inodes' dir name =
    (d : ℕ) (m : List ℕ) (j : ℕ)
    → Link inodes' d m j ↔ (Link inodes d m j × (((d ≡ dir) × (m ≡ name)) → ⊥))

create-Adds :
    (inodes inodes' : List Inode) (parent after new : Inode) (next : ℕ) (name : List ℕ)
    → find_inode parent.ino inodes ≡ some parent
    → parent.inode_type ≡ dir_type
    → Extended parent after (record { inode_id = next; name = name })
    → new.inode_size ≡ 0
    → find_inode next inodes ≡ none
    → ((i : ℕ)
        → find_inode i inodes' ≡ (
            if parent.ino == i
            then some after
            else if next == i
            then some new
            else find_inode i inodes))
    → Adds inodes inodes' parent.ino name next
create-Adds inodes inodes' parent after new next name at is_dir x empty unused finds d m j =
    (to, from)
  where
    old :
        (parent.ino == d) ≡ false → (next == d) ≡ false → find_inode d inodes' ≡ find_inode d inodes
    old a b = finds d ∙ rw (a, b) refl

    both : Holds after m j ↔ (Holds parent m j ⊎ ((m ≡ name) × (j ≡ next)))
    both = Extended-Holds parent after name next m j is_dir x

    to : Link inodes' d m j → Link inodes d m j ⊎ ((d ≡ parent.ino) × (m ≡ name) × (j ≡ next))
    to l = elim (Bool-cases (parent.ino == d)) [
      | inl here ↦
          let same : parent.ino ≡ d = ground arith in
          elim (both.0 (Link-Holds inodes' d after m j (finds d ∙ rw here refl) l)) [
            | inl h ↦ inl (parent, subst (λ p. find_inode p inodes ≡ some parent) same at, h)
            | inr (em, ej) ↦ inr (sym same, em, ej)
          ]
      | inr away ↦ elim (Bool-cases (next == d)) [
        | inl made ↦
            let (_, k, lt, _) = Link-Holds inodes' d new m j (finds d ∙ rw (away, made) refl) l in
            absurd (omega arith)
        | inr other ↦ let (n, h, held) = l in inl (n, sym (old away other) ∙ h, held)
      ]
    ]

    from : Link inodes d m j ⊎ ((d ≡ parent.ino) × (m ≡ name) × (j ≡ next)) → Link inodes' d m j
    from (inr (same, em, ej)) =
        (after, finds d ∙ rw (same, ==_refl parent.ino) refl, both.1 (inr (em, ej)))
    from (inl (n, h, held)) = elim (Bool-cases (parent.ino == d)) [
      | inl here ↦
          let same : parent.ino ≡ d = ground arith in
          (
            after,
            finds d ∙ rw here refl,
            both.1 (
                inl (
                  Link-Holds inodes d parent m j
                    (subst (λ p. find_inode p inodes ≡ some parent) same at) (n, h, held))),
          )
      | inr away ↦ elim (Bool-cases (next == d)) [
        | inl made ↦
            let same : next ≡ d = ground arith in
            let gone : none ≡ some n = sym unused ∙ ap (λ i. find_inode i inodes) same ∙ h in cc
        | inr other ↦ (n, old away other ∙ h, held)
      ]
    ]

remove-Drops :
    (inodes inodes' : List Inode) (parent after : Inode) (k : ℕ)
    → find_inode parent.ino inodes ≡ some parent
    → parent.inode_type ≡ dir_type
    → k < parent.inode_size
    → ((a b : ℕ)
        → a < parent.inode_size
        → b < parent.inode_size
        → (entry_of parent.chain a).name ≡ (entry_of parent.chain b).name
        → a ≡ b)
    → Removed parent after k
    → ((i : ℕ)
        → find_inode i inodes' ≡ (if parent.ino == i then some after else find_inode i inodes))
    → Drops inodes inodes' parent.ino (entry_of parent.chain k).name
remove-Drops inodes inodes' parent after k at is_dir inside distinct x finds d m j = (to, from)
  where
    name : List ℕ
    name = (entry_of parent.chain k).name

    both : Holds after m j ↔ (Holds parent m j × (m ≢ name))
    both = Removed-Holds parent after k m j is_dir inside distinct x

    to : Link inodes' d m j → Link inodes d m j × (((d ≡ parent.ino) × (m ≡ name)) → ⊥)
    to l = elim (Bool-cases (parent.ino == d)) [
      | inl here ↦
          let same : parent.ino ≡ d = ground arith in
          let (h, other) = both.0 (Link-Holds inodes' d after m j (finds d ∙ rw here refl) l) in
          ((parent, subst (λ p. find_inode p inodes ≡ some parent) same at, h), λ (_, e). other e)
      | inr away ↦
          let (n, h, held) = l in
          ((n, sym (finds d ∙ rw away refl) ∙ h, held), λ (e, _). ground arith)
    ]

    from : Link inodes d m j × (((d ≡ parent.ino) × (m ≡ name)) → ⊥) → Link inodes' d m j
    from ((n, h, held), other) = elim (Bool-cases (parent.ino == d)) [
      | inl here ↦
          let same : parent.ino ≡ d = ground arith in
          let old =
            Link-Holds inodes d parent m j (subst (λ p. find_inode p inodes ≡ some parent) same at)
              (n, h, held) in
          (after, finds d ∙ rw here refl, both.1 (old, λ e. other (sym same, e)))
      | inr away ↦ (n, finds d ∙ rw away h, held)
    ]
