-- ===== src/Filesystem/Invariant/Creation.antt =====
-- `fs_init` and `fs_create` of src/filesystem/filesystem.cpp establish and keep the invariant.
use kehinde_kernel.Prelude.{
  ◌^◌, ℕ, Bool, true, false, ◌&&◌, ◌-◌, ◌+◌, ◌<◌, ◌≡◌, ◌∙◌, sym, ap, some, List, [], ◌∷◌, ◌==◌,
  if◌then◌else◌, arith, Bool-cases, inl, inr, subst, refl,
}
use kehinde_kernel.Run.{Run, ok, fault, >>=-eq-ok}
use kehinde_kernel.Filesystem.{
  null_next, Fs, Inode, Dirent, Block, Kmalloc, find_inode, dir_type, fs_init, root_ino,
  sizeof_inode,
}
use kehinde_kernel.Filesystem.Inodes.{find_inode-ino}
use kehinde_kernel.Filesystem.Directory.{fs_create}
use kehinde_kernel.Filesystem.Directory.Slots.{entry_of}
use kehinde_kernel.Filesystem.File.Write.{ReturnsOrPanics}
use kehinde_kernel.Filesystem.Directory.Create.{
  Extended, CreateOutcome, halts, refused, creates, HasEntry, fs_create-CreateOutcome,
}
use kehinde_kernel.Filesystem.Invariant.{
  IsValid, IsSound, IsSound-mono, Exists, Exists-at, found_cases, Exists-update, HasRoot,
  HasRoot-update,
}

-- The inode of a creation is empty.
empty-IsSound : (inodes : List Inode) (n : Inode) → n.inode_size ≡ 0 → IsSound inodes n
empty-IsSound inodes n e = record {
  file_room = λ _. omega arith;
  dir_room = λ _. omega arith;
  live = λ _ k h. absurd (omega arith);
  distinct = λ _ j k h. absurd (omega arith);
}

Extended-distinct :
    (before after : Inode) (e : Dirent)
    → Extended before after e
    → (HasEntry before e.name → ⊥)
    → ((j k : ℕ)
        → j < before.inode_size
        → k < before.inode_size
        → (entry_of before.chain j).name ≡ (entry_of before.chain k).name
        → j ≡ k)
    → (j k : ℕ) → j < before.inode_size + 1
    → k < before.inode_size + 1
    → (entry_of after.chain j).name ≡ (entry_of after.chain k).name
    → j ≡ k
Extended-distinct before after e x unused distinct j k hj hk same =
    elim (Bool-cases (j == before.inode_size)) [
      | inl j_last ↦ elim (Bool-cases (k == before.inode_size)) [
        | inl k_last ↦ ground arith
        | inr k_inner ↦
            absurd (unused (k, ground arith, sym (old k k_inner hk) ∙ sym same ∙ newest j j_last))
      ]
      | inr j_inner ↦ elim (Bool-cases (k == before.inode_size)) [
        | inl k_last ↦
            absurd (unused (j, ground arith, sym (old j j_inner hj) ∙ same ∙ newest k k_last))
        | inr k_inner ↦
            distinct j k (ground arith) (ground arith)
              (sym (old j j_inner hj) ∙ same ∙ old k k_inner hk)
      ]
    ]
  where
    newest : (i : ℕ) → (i == before.inode_size) ≡ true → (entry_of after.chain i).name ≡ e.name
    newest i last =
        let at : i ≡ before.inode_size = ground arith in
        ap (λ t. (entry_of after.chain t).name) at ∙ ap (λ d. d.name) x.last

    old :
        (i : ℕ)
        → (i == before.inode_size) ≡ false
        → i < before.inode_size + 1
        → (entry_of after.chain i).name ≡ (entry_of before.chain i).name
    old i inner h = ap (λ d. d.name) (x.kept i (ground arith))

Extended-IsSound :
    (inodes : List Inode) (before after : Inode) (id : ℕ) (name : List ℕ)
    → before.inode_type ≡ dir_type
    → IsSound inodes before
    → Exists inodes id
    → (HasEntry before name → ⊥)
    → Extended before after (record { inode_id = id; name = name })
    → IsSound inodes after
Extended-IsSound inodes before after id name is_dir s new unused x = record {
  file_room = λ f. absurd (omega (arith, x.same_type));
  dir_room = λ _. x.room;
  live = λ _ k h. elim (Bool-cases (k == before.inode_size)) [
    | inl last ↦
        let at : k ≡ before.inode_size = ground arith in
        subst (λ d. Exists inodes d.inode_id) (sym (ap (entry_of after.chain) at ∙ x.last)) new
    | inr inner ↦
        subst (λ d. Exists inodes d.inode_id) (sym (x.kept k (ground (arith, x.size))))
          (s.live is_dir k (ground (arith, x.size)))
  ];
  distinct = λ _ j k hj hk same.
      Extended-distinct before after _ x unused (s.distinct is_dir) j k (omega (arith, x.size))
        (omega (arith, x.size)) same;
}

with_new :
    (inodes : List Inode) (new : Inode) (next i : ℕ)
    → new.ino ≡ next
    → find_inode i (new ∷ inodes) ≡ (if next == i then some new else find_inode i inodes)
unfolding find_inode
with_new inodes new next i e = ap (λ (t : ℕ). if t == i then some new else find_inode i inodes) e

module _ {S : Type 0} where
  -- A file system whose only inode is an empty root directory.
  first_IsValid :
      (fs : Fs S) (root : Inode)
      → fs.inodes ≡ root ∷ []
      → fs.next_ino ≡ 2
      → root.ino ≡ 1
      → root.inode_type ≡ dir_type
      → root.inode_size ≡ 0
      → IsValid fs
  unfolding find_inode
  first_IsValid fs root only next number kind empty =
      let finds = λ (i : ℕ). ap (find_inode i) only ∙ with_new [] root 1 i number in
      record {
        numbered =
            found_cases [] fs.inodes 1 root finds {P = λ i n. (0 < i) × (i < fs.next_ino)}
              (omega arith) (λ i n h. cc);
        sound =
            found_cases [] fs.inodes 1 root finds {P = λ i n. IsSound fs.inodes n}
              (empty-IsSound fs.inodes root empty) (λ i n h. cc);
        root = (root, finds 1, kind);
      }

  created-IsValid :
      (fs fs1 : Fs S) (parent after new : Inode) (name : List ℕ)
      → IsValid fs
      → find_inode parent.ino fs.inodes ≡ some parent
      → parent.inode_type ≡ dir_type
      → (HasEntry parent name → ⊥)
      → Extended parent after (record { inode_id = fs.next_ino; name = name })
      → new.ino ≡ fs.next_ino
      → new.inode_size ≡ 0
      → ((i : ℕ)
          → find_inode i fs1.inodes ≡ (
              if parent.ino == i
              then some after
              else if fs.next_ino == i
              then some new
              else find_inode i fs.inodes))
      → fs1.next_ino ≡ fs.next_ino + 1
      → IsValid fs1
  created-IsValid fs fs1 parent after new name v here is_dir unused x number empty finds next =
      let mid = new ∷ fs.inodes in
      let first = λ (i : ℕ). with_new fs.inodes new fs.next_ino i number in
      let second =
        λ (i : ℕ). finds i ∙ ap (λ t. if parent.ino == i then some after else t) (sym (first i)) in
      let more = λ (i : ℕ) (h : Exists fs.inodes i).
        Exists-update mid fs1.inodes parent.ino after second i
          (Exists-update fs.inodes mid fs.next_ino new first i h) in
      let made =
        Exists-update mid fs1.inodes parent.ino after second fs.next_ino
          (Exists-at fs.inodes mid fs.next_ino new first) in
      let older = v.numbered parent.ino parent here in
      let apart : (fs.next_ino == parent.ino) ≡ false = ground arith in
      let in_mid : find_inode parent.ino mid ≡ some parent = first parent.ino ∙ rw apart here in
      let (top, at_top, top_dir) = v.root in
      let top_older = v.numbered root_ino top at_top in
      let top_apart : (fs.next_ino == root_ino) ≡ false = ground arith in
      let rooted : HasRoot mid = (top, first root_ino ∙ rw top_apart at_top, top_dir) in
      record {
        numbered =
            found_cases mid fs1.inodes parent.ino after second
              {P = λ i n. (0 < i) × (i < fs1.next_ino)} (omega arith)
              (found_cases fs.inodes mid fs.next_ino new first
                {P = λ i n. (0 < i) × (i < fs1.next_ino)} (omega arith)
                (λ i n h. omega (arith, v.numbered i n h)));
        sound =
            found_cases mid fs1.inodes parent.ino after second {P = λ i n. IsSound fs1.inodes n}
              (Extended-IsSound fs1.inodes parent after fs.next_ino name is_dir
                (IsSound-mono more (v.sound parent.ino parent here)) made unused x)
              (found_cases fs.inodes mid fs.next_ino new first {P = λ i n. IsSound fs1.inodes n}
                (empty-IsSound fs1.inodes new empty) (λ i n h. IsSound-mono more (v.sound i n h)));
        root =
            HasRoot-update mid fs1.inodes parent.ino after second parent in_mid x.same_type rooted;
      }

  create-IsValid :
      (fs fs' : Fs S) (parent : Inode) (name : List ℕ) (type : ℕ) {ino : ℕ} {r : Run (ℕ × Fs S)}
      {M : Type 0}
      → IsValid fs
      → find_inode parent.ino fs.inodes ≡ some parent
      → parent.inode_type ≡ dir_type
      → CreateOutcome M fs parent name type r
      → r ≡ ok (ino, fs')
      → IsValid fs'
  create-IsValid fs fs' parent name type v here is_dir (halts full) e = cc
  create-IsValid fs fs' parent name type v here is_dir (refused _) e =
      let same : fs ≡ fs' = cc in subst IsValid same v
  create-IsValid fs fs' parent name type v here is_dir
        (creates {fs' = fs1} after new valid unused x number kind empty finds next) e =
      let same : fs1 ≡ fs' = cc in
      subst IsValid same (
        created-IsValid fs fs1 parent after new name v here is_dir unused x number empty finds next)

  -- With an allocator that returns or panics, and whose blocks are null where `next` lies, a
  -- creation in a directory of a valid file system, refused or not, leaves a valid file system when
  -- it returns. Neither the directory's size nor the next number may be about to wrap around at
  -- `2 ^ 64`.
  pub fs_create-IsValid :
      (kmalloc : Kmalloc S) (uninitialised : Block) (fs fs' : Fs S) (parent_ino : ℕ) (name : List ℕ)
      (type : ℕ) (parent : Inode) {ino : ℕ}
      → ReturnsOrPanics kmalloc
      → IsValid fs
      → find_inode parent_ino fs.inodes ≡ some parent
      → parent.inode_type ≡ dir_type
      → parent.inode_size + 1 < 2 ^ 64
      → fs.next_ino + 1 < 2 ^ 64
      → fs_create kmalloc (null_next uninitialised) fs parent_ino name type ≡ ok (ino, fs')
      → IsValid fs'
  fs_create-IsValid kmalloc uninitialised fs fs' parent_ino name type parent total v got is_dir low
        numbers e =
      let at = find_inode-ino parent_ino fs.inodes got in
      create-IsValid fs fs' parent name type v
        (subst (λ i. find_inode i fs.inodes ≡ some parent) (sym at) got) is_dir
        (fs_create-CreateOutcome kmalloc uninitialised total fs parent_ino name type parent got
          is_dir ((v.sound parent_ino parent got).dir_room is_dir)
          (v.numbered parent_ino parent got).1 low numbers)
        e

  -- What `fs_init` makes when it returns.
  pub fs_init_result :
      (is_mapped : S → ℕ → Bool) (kmalloc : Kmalloc S) (heap : S) {fs : Fs S}
      → fs_init is_mapped kmalloc heap ≡ ok fs
      → (p : ℕ) × (heap' : S) × (kmalloc sizeof_inode heap ≡ ok (p, heap'))
        × (record {
          heap = heap';
          next_ino = 2;
          inodes =
              record { base = p; ino = 1; inode_type = dir_type; inode_size = 0; chain = [] } ∷ [];
        }
            ≡ fs)
  unfolding fs_init
  fs_init_result is_mapped kmalloc heap {fs} e =
      let ((p, heap'), allocated, returned) = >>=-eq-ok (kmalloc sizeof_inode heap) _ e in
      elim (Bool-cases (is_mapped heap' p && is_mapped heap' (p + sizeof_inode - 1))) [
        | inl leads ↦ let made : _ ≡ ok fs = rw leads at returned in (p, heap', allocated, cc)
        | inr away ↦ let made : fault ≡ ok fs = rw away at returned in cc
      ]

  -- When `fs_init` returns, the file system is valid.
  pub fs_init-IsValid :
      (is_mapped : S → ℕ → Bool) (kmalloc : Kmalloc S) (heap : S) {fs : Fs S}
      → fs_init is_mapped kmalloc heap ≡ ok fs
      → IsValid fs
  fs_init-IsValid is_mapped kmalloc heap e =
      let (p, heap', allocated, same) = fs_init_result is_mapped kmalloc heap e in
      subst IsValid same (first_IsValid _ _ refl refl refl refl refl)
