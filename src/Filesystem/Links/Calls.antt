-- ===== src/Filesystem/Links/Calls.antt =====
-- What `fs_create` and `fs_unlink` of src/filesystem/filesystem.cpp promise of the links.
use kehinde_kernel.Prelude.{
  ◌+◌, ◌^◌, ℕ, ◌<◌, ◌≡◌, inl, inr, refl, sym, ap, subst, ◌∙◌, arith, true, false, ◌==◌, List, none,
  some, Bool-cases, Option-cases,
}
use kehinde_kernel.Run.{Run, ok}
use kehinde_kernel.Filesystem.{
  null_next, Fs, Inode, Dirent, Block, Kmalloc, Ret, minus_one, ret, find_inode, dir_type,
  invalid_ino,
}
use kehinde_kernel.Filesystem.Inodes.{find_inode-ino}
use kehinde_kernel.Filesystem.Directory.{fs_create, fs_unlink, removable}
use kehinde_kernel.Filesystem.Directory.Slots.{entry_of}
use kehinde_kernel.Filesystem.Directory.Create.{
  IsName, HasEntry, CreateOutcome, halts, refused, creates, fs_create-CreateOutcome,
}
use kehinde_kernel.Filesystem.Directory.Unlink.{
  UnlinkOutcome, missing, kept, removes, fs_unlink-UnlinkOutcome,
}
use kehinde_kernel.Filesystem.File.Write.{ReturnsOrPanics}
use kehinde_kernel.Filesystem.Invariant.{IsValid}
use kehinde_kernel.Filesystem.Links.{Link, Link-Holds, Adds, Drops, create-Adds, remove-Drops}

abbrev pub IsDirectory : List Inode → ℕ → Type 0
IsDirectory inodes dir = (n : Inode) × (find_inode dir inodes ≡ some n) × (n.inode_type ≡ dir_type)

-- The contract of `fs_create`: for a name that fits and is not taken in the directory, one link is
-- added, to a number that no inode had; otherwise nothing changes.
pub data Created {S : Type 0} (fs : Fs S) (dir : ℕ) (name : List ℕ) : ℕ → Fs S → Type 0 where
  refuses :
      (IsDirectory fs.inodes dir → IsName name → (i : ℕ) × Link fs.inodes dir name i)
      → Created fs dir name invalid_ino fs
  adds :
      {fs' : Fs S}
      → IsDirectory fs.inodes dir
      → IsName name
      → ((i : ℕ) → Link fs.inodes dir name i → ⊥)
      → find_inode fs.next_ino fs.inodes ≡ none
      → Adds fs.inodes fs'.inodes dir name fs.next_ino
      → Created fs dir name fs.next_ino fs'

-- The contract of `fs_unlink`: the link of the name goes away if there is one and its inode has no
-- links of its own; otherwise nothing changes.
pub data Unlinked {S : Type 0} (fs : Fs S) (dir : ℕ) (name : List ℕ) : Ret → Fs S → Type 0 where
  refuses :
      ((i : ℕ) → Link fs.inodes dir name i → (m : List ℕ) × (j : ℕ) × Link fs.inodes i m j)
      → Unlinked fs dir name minus_one fs
  drops :
      {fs' : Fs S} (i : ℕ)
      → Link fs.inodes dir name i
      → ((m : List ℕ) (j : ℕ) → Link fs.inodes i m j → ⊥)
      → Drops fs.inodes fs'.inodes dir name
      → Unlinked fs dir name (ret 0) fs'

module _ {S : Type 0} (fs : Fs S) (v : IsValid fs) where
  next_unused : find_inode fs.next_ino fs.inodes ≡ none
  next_unused = elim (Option-cases (find_inode fs.next_ino fs.inodes)) [
    | inl e ↦ e
    | inr (n, h) ↦ let (_, lt) = v.numbered fs.next_ino n h in absurd (omega arith)
  ]

  -- An entry of the directory is a link, and the other way round.
  entry_of-Link :
      (dir : ℕ) (parent : Inode) (name : List ℕ) (k : ℕ)
      → find_inode dir fs.inodes ≡ some parent
      → parent.inode_type ≡ dir_type
      → k < parent.inode_size
      → (entry_of parent.chain k).name ≡ name
      → Link fs.inodes dir name (entry_of parent.chain k).inode_id
  entry_of-Link dir parent name k at is_dir lt e = (
    parent,
    at,
    (is_dir, k, lt, ap (λ m. record { inode_id = (entry_of parent.chain k).inode_id; name = m }) e),
  )

  Link-HasEntry :
      (dir : ℕ) (parent : Inode) (name : List ℕ) (i : ℕ)
      → find_inode dir fs.inodes ≡ some parent
      → Link fs.inodes dir name i
      → HasEntry parent name
  Link-HasEntry dir parent name i at l =
      let (_, k, lt, e) = Link-Holds fs.inodes dir parent name i at l in
      (k, lt, ap (λ (t : Dirent). t.name) e)

  create_refused :
      (dir : ℕ) (name : List ℕ) (ino : ℕ) (fs' : Fs S)
      → ◌≡◌ {A = Run (ℕ × Fs S)} (ok (invalid_ino, fs)) (ok (ino, fs'))
      → (IsDirectory fs.inodes dir → IsName name → (i : ℕ) × Link fs.inodes dir name i)
      → Created fs dir name ino fs'
  create_refused dir name ino fs' e why =
      let a : invalid_ino ≡ ino = cc in
      let b : fs ≡ fs' = cc in
      subst (λ i. Created fs dir name i fs') a
        (subst (λ f. Created fs dir name invalid_ino f) b (refuses why))

  unlink_refused :
      (dir : ℕ) (name : List ℕ) (status : Ret) (fs' : Fs S)
      → ◌≡◌ {A = Run (Ret × Fs S)} (ok (minus_one, fs)) (ok (status, fs'))
      → ((i : ℕ) → Link fs.inodes dir name i → (m : List ℕ) × (j : ℕ) × Link fs.inodes i m j)
      → Unlinked fs dir name status fs'
  unlink_refused dir name status fs' e why =
      let a : minus_one ≡ status = cc in
      let b : fs ≡ fs' = cc in
      subst (λ t. Unlinked fs dir name t fs') a
        (subst (λ f. Unlinked fs dir name minus_one f) b (refuses why))

  module _ (dir : ℕ) (parent : Inode) (name : List ℕ) (at : find_inode dir fs.inodes ≡ some parent)
      (is_dir : parent.inode_type ≡ dir_type) where
    outcome-Created :
        {M : Type 0} (type ino : ℕ) (fs' : Fs S) {r : Run (ℕ × Fs S)}
        → CreateOutcome M fs parent name type r
        → r ≡ ok (ino, fs')
        → Created fs dir name ino fs'
    outcome-Created type ino fs' (halts full) e = cc
    outcome-Created type ino fs' (refused why) e = create_refused dir name ino fs' e (λ _ is_name.
        let (k, lt, named) = why is_name in (_, entry_of-Link dir parent name k at is_dir lt named))
    outcome-Created type ino fs'
          (creates {fs' = made} after new is_name unused x number kind empty finds next) e =
        let a : fs.next_ino ≡ ino = cc in
        let b : made ≡ fs' = cc in
        let same = find_inode-ino dir fs.inodes at in
        let here = subst (λ i. find_inode i fs.inodes ≡ some parent) (sym same) at in
        subst (λ i. Created fs dir name i fs') a
          (subst (λ f. Created fs dir name fs.next_ino f) b
            (adds (parent, at, is_dir) is_name
              (λ i l. unused (Link-HasEntry dir parent name i at l)) next_unused
              (subst (λ d. Adds fs.inodes made.inodes d name fs.next_ino) same
                (create-Adds fs.inodes made.inodes parent after new fs.next_ino name here is_dir x
                  empty next_unused finds))))

    no_links :
        (i : ℕ) (subject : Inode)
        → find_inode i fs.inodes ≡ some subject
        → removable (some subject) ≡ true
        → (m : List ℕ) (j : ℕ) → Link fs.inodes i m j
        → ⊥
    unfolding removable
    no_links i subject there free m j l =
        let (d, k, lt, _) = Link-Holds fs.inodes i subject m j there l in ground arith

    some-Link :
        (i : ℕ) (subject : Inode)
        → find_inode i fs.inodes ≡ some subject
        → removable (some subject) ≡ false
        → (m : List ℕ) × (j : ℕ) × Link fs.inodes i m j
    unfolding removable
    some-Link i subject there busy =
        let d : subject.inode_type ≡ dir_type = ground arith in
        let e = entry_of subject.chain 0 in
        (e.name, e.inode_id, (subject, there, (d, 0, ground arith, refl)))

    -- The entry that a name leads to is the only one.
    id_of :
        (k i : ℕ)
        → k < parent.inode_size
        → (entry_of parent.chain k).name ≡ name
        → Link fs.inodes dir name i
        → (entry_of parent.chain k).inode_id ≡ i
    id_of k i lt named l =
        let (_, j, lt', e) = Link-Holds fs.inodes dir parent name i at l in
        let same : k ≡ j =
          (v.sound dir parent at).distinct is_dir k j lt lt'
            (named ∙ sym (ap (λ (t : Dirent). t.name) e)) in
        ap (λ p. (entry_of parent.chain p).inode_id) same ∙ ap (λ (t : Dirent). t.inode_id) e

    outcome-Unlinked :
        (status : Ret) (fs' : Fs S) {r : Run (Ret × Fs S)}
        → UnlinkOutcome fs parent name r
        → r ≡ ok (status, fs')
        → Unlinked fs dir name status fs'
    outcome-Unlinked status fs' (missing none_named) e =
        unlink_refused dir name status fs' e (λ i l.
          let (k, lt, named) = Link-HasEntry dir parent name i at l in
          absurd (none_named k lt named))
    outcome-Unlinked status fs' (kept k lt named busy) e =
        let (subject, there) = (v.sound dir parent at).live is_dir k lt in
        let id = (entry_of parent.chain k).inode_id in
        unlink_refused dir name status fs' e (λ i l.
          subst (λ p. (m : List ℕ) × (j : ℕ) × Link fs.inodes p m j) (id_of k i lt named l)
            (some-Link id subject there (rw there at busy)))
    outcome-Unlinked status fs' (removes {fs' = made} k after lt named free x finds next) e =
        let a : ret 0 ≡ status = cc in
        let b : made ≡ fs' = cc in
        let (subject, there) = (v.sound dir parent at).live is_dir k lt in
        let id = (entry_of parent.chain k).inode_id in
        let same = find_inode-ino dir fs.inodes at in
        let here = subst (λ i. find_inode i fs.inodes ≡ some parent) (sym same) at in
        subst (λ t. Unlinked fs dir name t fs') a
          (subst (λ f. Unlinked fs dir name (ret 0) f) b
            (drops id (entry_of-Link dir parent name k at is_dir lt named)
              (no_links id subject there (rw there at free))
              (subst (λ d. Drops fs.inodes made.inodes d name) same
                (subst (λ m. Drops fs.inodes made.inodes parent.ino m) named
                  (remove-Drops fs.inodes made.inodes parent after k here is_dir lt
                    ((v.sound dir parent at).distinct is_dir) x finds)))))

  pub fs_create-Created :
      (kmalloc : Kmalloc S) (uninitialised : Block) (dir : ℕ) (name : List ℕ) (type ino : ℕ)
      (fs' : Fs S)
      → ReturnsOrPanics kmalloc
      → fs.next_ino + 1 < 2 ^ 64
      → ((n : Inode) → find_inode dir fs.inodes ≡ some n → n.inode_size + 1 < 2 ^ 64)
      → fs_create kmalloc (null_next uninitialised) fs dir name type ≡ ok (ino, fs')
      → Created fs dir name ino fs'
  unfolding fs_create
  fs_create-Created kmalloc uninitialised dir name type ino fs' total numbers low e =
      elim (Option-cases (find_inode dir fs.inodes)) [
        | inl away ↦
            create_refused dir name ino fs' (rw (away, fs_create) at e)
              (λ (n, h, _) _. let no : none ≡ some n = sym away ∙ h in cc)
        | inr (parent, at) ↦ elim (Bool-cases (parent.inode_type == dir_type)) [
          | inr other ↦
              create_refused dir name ino fs' (rw (at, fs_create, other) at e) (λ (n, h, d) _.
                let both : some parent ≡ some n = sym at ∙ h in
                let same : parent ≡ n = cc in
                absurd (let f : parent.inode_type ≡ dir_type = rw same d in ground arith))
          | inl directory ↦
              let is_dir : parent.inode_type ≡ dir_type = ground arith in
              outcome-Created dir parent name at is_dir type ino fs'
                (fs_create-CreateOutcome kmalloc uninitialised total fs dir name type parent at
                  is_dir ((v.sound dir parent at).dir_room is_dir) (v.numbered dir parent at).1
                  (low parent at) numbers)
                e
        ]
      ]

  -- On a valid file system, whatever `fs_unlink` returns, for any parent and any name, meets the
  -- contract on the links: it takes away exactly the link of the name, whose inode has no links of
  -- its own, or it returns -1 and changes nothing, and then the name has no link or leads to a
  -- directory that is not empty.
  pub fs_unlink-Unlinked :
      (dir : ℕ) (name : List ℕ) (status : Ret) (fs' : Fs S)
      → fs_unlink fs dir name ≡ ok (status, fs')
      → Unlinked fs dir name status fs'
  unfolding fs_unlink
  fs_unlink-Unlinked dir name status fs' e = elim (Option-cases (find_inode dir fs.inodes)) [
    | inl away ↦
        unlink_refused dir name status fs' (rw (away, fs_unlink) at e)
          (λ i (n, h, _). let no : none ≡ some n = sym away ∙ h in cc)
    | inr (parent, at) ↦ elim (Bool-cases (parent.inode_type == dir_type)) [
      | inr other ↦ unlink_refused dir name status fs' (rw (at, fs_unlink, other) at e) (λ i l.
          let (d, _, _, _) = Link-Holds fs.inodes dir parent name i at l in absurd (ground arith))
      | inl directory ↦
          let is_dir : parent.inode_type ≡ dir_type = ground arith in
          outcome-Unlinked dir parent name at is_dir status fs'
            (fs_unlink-UnlinkOutcome fs dir name parent at is_dir
              ((v.sound dir parent at).dir_room is_dir))
            e
    ]
  ]
