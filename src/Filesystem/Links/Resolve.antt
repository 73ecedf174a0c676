-- ===== src/Filesystem/Links/Resolve.antt =====
-- `fs_lookup` of src/filesystem/filesystem.cpp as a walk along the links.
use kehinde_kernel.Prelude.{
  ℕ, zero, suc, ◌+◌, ◌<◌, ◌≡◌, ◌⊎◌, inl, inr, refl, sym, ap, subst, ◌∙◌, arith, true, false, List,
  [], ◌∷◌, ◌++◌, some, length, take, drop,
}
use mathlib.Core.Bool.{false≢true}
use kehinde_kernel.Run.{ok}
use kehinde_kernel.Filesystem.{Fs, Inode, Dirent, find_inode, dir_type, invalid_ino, root_ino}
use kehinde_kernel.Filesystem.Names.{IsText, name_matches}
use kehinde_kernel.Filesystem.Path.{fs_lookup}
use kehinde_kernel.Filesystem.Path.Components.{
  AreComponents, render, ends_of, drop-suc, drop-add, parse_path-render, name_matches-component,
}
use kehinde_kernel.Filesystem.Directory.Slots.{entry_of}
use kehinde_kernel.Filesystem.Invariant.{IsValid}
use kehinde_kernel.Filesystem.Invariant.Lookup.{Leads, arrived, blocked, enters, fs_lookup-Leads}
use kehinde_kernel.Filesystem.Links.Calls.{Created, refuses, adds}
use kehinde_kernel.Filesystem.Links.{Link, Link-Holds}

-- The links lead from inode `d` along the names to inode `t`.
abbrev pub Walks : List Inode → ℕ → List (List ℕ) → ℕ → Type 0
Walks inodes d [] t = d ≡ t
Walks inodes d (n ∷ ns) t = (i : ℕ) × Link inodes d n i × Walks inodes i ns t

-- The names in the tree are C strings.
abbrev pub HasTexts : List Inode → Type 0
HasTexts inodes = (d : ℕ) (n : List ℕ) (i : ℕ) → Link inodes d n i → IsText n

-- A creation under a C string keeps that.
pub HasTexts-Created :
    {S : Type 0} (fs fs' : Fs S) (dir : ℕ) (name : List ℕ) (r : ℕ)
    → HasTexts fs.inodes
    → IsText name
    → Created fs dir name r fs'
    → HasTexts fs'.inodes
HasTexts-Created fs fs' dir name r texts text (refuses reason) = texts
HasTexts-Created fs fs' dir name r texts text (adds is_dir fits fresh unused links) = λ d n i l.
    elim ((links d n i).0 l) [
      | inl old ↦ texts d n i old
      | inr (in_dir, same, new) ↦ subst IsText (sym same) text
    ]

-- What a lookup along the names gives.
abbrev pub Resolves : List Inode → ℕ → List (List ℕ) → ℕ → Type 0
Resolves inodes d names target =
    Walks inodes d names target ⊎ ((target ≡ invalid_ino) × ((t : ℕ) → Walks inodes d names t → ⊥))

module _ {S : Type 0} (fs : Fs S) (v : IsValid fs) (texts : HasTexts fs.inodes)
    (path : List ℕ) where
  -- One component, which stands at `start`.
  module _ (start ino : ℕ) (n rest : List ℕ) (at : drop start path ≡ n ++ rest) (text : IsText n)
      (curr : Inode) (found : find_inode ino fs.inodes ≡ some curr) where
    named :
        curr.inode_type ≡ dir_type
        → (k : ℕ) → k < curr.inode_size
        → IsText (entry_of curr.chain k).name
    named is_dir k lt =
        texts ino (entry_of curr.chain k).name (entry_of curr.chain k).inode_id
          (curr, found, (is_dir, k, lt, refl))

    matching :
        curr.inode_type ≡ dir_type
        → (k : ℕ) → k < curr.inode_size
        → name_matches path start (start + length n) (entry_of curr.chain k).name ≡ true
        → (entry_of curr.chain k).name ≡ n
    matching is_dir k lt =
        (name_matches-component path start n rest (entry_of curr.chain k).name at text
          (named is_dir k lt)).0

    no-Link :
        (curr.inode_type ≡ dir_type
          → (k : ℕ) → k < curr.inode_size
          → name_matches path start (start + length n) (entry_of curr.chain k).name ≡ false)
        → (i : ℕ) → Link fs.inodes ino n i
        → ⊥
    no-Link none_matches i l =
        let (is_dir, k, lt, e) = Link-Holds fs.inodes ino curr n i found l in
        let same : (entry_of curr.chain k).name ≡ n = ap (λ (d : Dirent). d.name) e in
        let yes' =
          (name_matches-component path start n rest (entry_of curr.chain k).name at text
              (named is_dir k lt)).1
            same in
        absurd (false≢true (sym (none_matches is_dir k lt) ∙ yes'))

    only-Link :
        (k : ℕ)
        → k < curr.inode_size
        → (entry_of curr.chain k).name ≡ n
        → (i : ℕ) → Link fs.inodes ino n i
        → i ≡ (entry_of curr.chain k).inode_id
    only-Link k lt same i l =
        let (is_dir, j, lt', e) = Link-Holds fs.inodes ino curr n i found l in
        let here : j ≡ k =
          (v.sound ino curr found).distinct is_dir j k lt' lt
            (ap (λ (d : Dirent). d.name) e ∙ sym same) in
        sym (ap (λ (d : Dirent). d.inode_id) e) ∙ ap (λ p. (entry_of curr.chain p).inode_id) here

  Leads-Resolves :
      (room i ino target : ℕ) (names : List (List ℕ))
      → AreComponents names
      → drop i path ≡ render names
      → Leads fs v path (i + 1) ino (ends_of (i + 1) (take room names)) target
      → Resolves fs.inodes ino (take room names) target
  Leads-Resolves zero i ino target names h e (arrived there) = inl refl
  Leads-Resolves (suc room) i ino target [] h e (arrived there) = inl refl
  Leads-Resolves (suc room) i ino target (n ∷ ns) ((pos, text, plain), h) e
        (blocked curr found none_matches) =
      let next : i + 1 ≡ suc i = omega arith in
      let at : drop (i + 1) path ≡ n ++ render ns =
        ap (λ k. drop k path) next ∙ (drop-suc path i b'/' (n ++ render ns) e).1 in
      inr
        (refl, λ t (j, l, w). no-Link (i + 1) ino n (render ns) at text curr found none_matches j l)
  Leads-Resolves (suc room) i ino target (n ∷ ns) ((pos, text, plain), h) e
        (enters curr k found is_dir lt matches leads) =
      let next : i + 1 ≡ suc i = omega arith in
      let at : drop (i + 1) path ≡ n ++ render ns =
        ap (λ k. drop k path) next ∙ (drop-suc path i b'/' (n ++ render ns) e).1 in
      let same = matching (i + 1) ino n (render ns) at text curr found is_dir k lt matches in
      let id = (entry_of curr.chain k).inode_id in
      let link : Link fs.inodes ino n id =
        (curr, found, (is_dir, k, lt, ap (λ m. record { inode_id = id; name = m }) same)) in
      elim (Leads-Resolves room (i + 1 + length n) id target ns h
        (drop-add path (i + 1) n (render ns) at) leads) [
          | inl walks ↦ inl (id, link, walks)
          | inr (invalid, none_there) ↦ inr (
            invalid,
            λ t (j, l, w). none_there t (
                subst (λ x. Walks fs.inodes x (take room ns) t)
                  (only-Link (i + 1) ino n (render ns) at text curr found k lt same j l) w),
          )
        ]

-- On a valid file system whose names are C strings, a lookup of the absolute path made of
-- components that are not empty and hold no slash returns the number of an inode to which the links
-- lead from the root along the components, or `INVALID_INO`, and then the links lead along them to
-- no inode. Of a path with more than 16 components only the first 16 are followed.
pub fs_lookup-Resolves :
    {S : Type 0} (fs : Fs S) (n : List ℕ) (names : List (List ℕ))
    → IsValid fs
    → HasTexts fs.inodes
    → AreComponents (n ∷ names)
    → (target : ℕ) × (fs_lookup fs (render (n ∷ names)) ≡ ok target)
      × Resolves fs.inodes root_ino (take 16 (n ∷ names)) target
fs_lookup-Resolves fs n names v texts h =
    let path = render (n ∷ names) in
    elim (fs_lookup-Leads fs v path) [
      | inl (empty, runs) ↦ absurd (omega arith)
      | inr (target, runs, leads) ↦ (
        target,
        runs,
        Leads-Resolves fs v texts path 16 0 root_ino target (n ∷ names) h refl (
            subst (λ ends. Leads fs v path 1 root_ino ends target)
              (parse_path-render (n ∷ names) 16 h) leads),
      )
    ]
