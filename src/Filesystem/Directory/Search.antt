-- ===== src/Filesystem/Directory/Search.antt =====
-- The searches of src/filesystem/filesystem.cpp through a directory, as one search in the sequence
-- of its entries.
use kehinde_kernel.Prelude.{
  ℕ, zero, suc, ◌+◌, ◌-◌, ◌/◌, ◌%◌, ◌≤◌, ◌<◌, ◌≡◌, refl, ap, Bool, true, false, Option, none, some,
  List, ◌==◌, if◌then◌else◌, arith, Bool-cases, inl, inr,
}
use kehinde_kernel.Run.{ok}
use kehinde_kernel.Filesystem.{Block, Inode, DirentPtr, entry, dirents_per_block}
use kehinde_kernel.Filesystem.Names.{name_matches, name_matches_single}
use kehinde_kernel.Filesystem.Path.{scan_dir}
use kehinde_kernel.Filesystem.Directory.{no_duplicate, find_dirent}
use kehinde_kernel.Filesystem.Directory.Slots.{entry_of, slots, dirent_at-entry, load-entry_of}

-- The first of the `left` entries from `i` on whose name passes the test.
unfoldable pub first_match : (List ℕ → Bool) → List Block → ℕ → ℕ → Option ℕ
first_match test chain zero i = none
first_match test chain (suc left) i =
    if test (entry_of chain i).name then some i else first_match test chain left (i + 1)

-- What is known of a search for the first match.
pub data Match (test : List ℕ → Bool) (chain : List Block) (lo hi : ℕ) : Option ℕ → Type 0 where
  absent :
      ((j : ℕ) → lo ≤ j → j < hi → test (entry_of chain j).name ≡ false)
      → Match test chain lo hi none
  found :
      {k : ℕ}
      → lo ≤ k
      → k < hi
      → test (entry_of chain k).name ≡ true
      → Match test chain lo hi (some k)

Match-later :
    {test : List ℕ → Bool} {chain : List Block} {lo hi : ℕ} {r : Option ℕ}
    → test (entry_of chain lo).name ≡ false
    → Match test chain (lo + 1) hi r
    → Match test chain lo hi r
Match-later {test} {chain} {lo} no_match (absent h) = absent λ j p q. elim (Bool-cases (lo == j)) [
  | inl here ↦ let e : lo ≡ j = ground arith in rw (← e) no_match
  | inr there ↦ h j (ground arith) q
]
Match-later no_match (found lo hi h) = found (omega arith) hi h

pub first_match-Match :
    (test : List ℕ → Bool) (chain : List Block) (left i hi : ℕ)
    → i + left ≡ hi
    → Match test chain i hi (first_match test chain left i)
unfolding first_match
first_match-Match test chain zero i hi e = absent λ j p q. absurd (omega arith)
first_match-Match test chain (suc left) i hi e = elim (Bool-cases (test (entry_of chain i).name)) [
  | inl hit ↦ rw (hit, first_match) (found (omega arith) (omega arith) hit)
  | inr miss ↦
      rw (miss, first_match)
        (Match-later miss (first_match-Match test chain left (i + 1) hi (omega arith)))
]

abbrev pub id_at : List Block → Option ℕ → Option ℕ
id_at chain none = none
id_at chain (some i) = some (entry_of chain i).inode_id

abbrev pub is_none {ℓ} : {A : Type ℓ} → Option A → Bool
is_none none = true
is_none (some _) = false

-- The pointers to an entry by its index, and to the last one.
abbrev pub at_index : ℕ → DirentPtr
at_index i = entry (i / dirents_per_block) (i % dirents_per_block)

abbrev pub last_entry : Inode → DirentPtr
last_entry dir = at_index (dir.inode_size - 1)

-- The pointer that the search of `fs_unlink` ends at: the match, or the last entry looked at.
abbrev pub stop_at : DirentPtr → Option ℕ → DirentPtr
stop_at last none = last
stop_at last (some i) = at_index i

module _ (dir : Inode) (fits : dir.inode_size ≤ slots dir.chain) where
  -- The inner loop of `fs_lookup`.
  pub scan_dir-first_match :
      (path : List ℕ) (start end left i : ℕ)
      → i + left ≡ dir.inode_size
      → scan_dir path start end dir left i
        ≡ ok (id_at dir.chain (first_match (name_matches path start end) dir.chain left i))
  unfolding scan_dir first_match
  scan_dir-first_match path start end zero i e = refl
  scan_dir-first_match path start end (suc left) i e =
      rw
        (dirent_at-entry dir i fits (omega arith), scan_dir, load-entry_of dir i fits (omega arith))
        (elim (Bool-cases (name_matches path start end (entry_of dir.chain i).name)) [
          | inl hit ↦ rw hit refl
          | inr miss ↦ rw miss (scan_dir-first_match path start end left (i + 1) (omega arith))
        ])

  -- The duplicate check of `fs_create`.
  pub no_duplicate-first_match :
      (name : List ℕ) (left i : ℕ)
      → i + left ≡ dir.inode_size
      → no_duplicate dir name left i
        ≡ ok (is_none (first_match (λ n. name_matches_single n name) dir.chain left i))
  unfolding no_duplicate first_match
  no_duplicate-first_match name zero i e = refl
  no_duplicate-first_match name (suc left) i e =
      rw
        (
          dirent_at-entry dir i fits (omega arith),
          no_duplicate,
          load-entry_of dir i fits (omega arith),
        )
        (elim (Bool-cases (name_matches_single (entry_of dir.chain i).name name)) [
          | inl hit ↦ rw hit refl
          | inr miss ↦ rw miss (no_duplicate-first_match name left (i + 1) (omega arith))
        ])

  last_round :
      (left i : ℕ)
      → i + suc left ≡ dir.inode_size
      → (if left == 0 then at_index i else last_entry dir) ≡ last_entry dir
  last_round left i e = elim (Bool-cases (left == 0)) [
    | inl z ↦ let at : i ≡ dir.inode_size - 1 = ground arith in rw (z, at)
    | inr nz ↦ rw nz
  ]

  -- The search of `fs_unlink`.
  pub find_dirent-first_match :
      (name : List ℕ) (left i : ℕ) (last : DirentPtr)
      → i + left ≡ dir.inode_size
      → find_dirent dir name left i last
        ≡ ok (
            some (
              stop_at
                (if left == 0 then last else last_entry dir)
                (first_match (λ n. name_matches_single n name) dir.chain left i)))
  unfolding find_dirent first_match
  find_dirent-first_match name zero i last e = refl
  find_dirent-first_match name (suc left) i last e =
      rw
        (
          dirent_at-entry dir i fits (omega arith),
          find_dirent,
          load-entry_of dir i fits (omega arith),
        )
        (elim (Bool-cases (name_matches_single (entry_of dir.chain i).name name)) [
          | inl hit ↦ rw hit refl
          | inr miss ↦
              let more : (suc left == 0) ≡ false = ground arith in
              rw (miss, more, find_dirent-first_match name left (i + 1) (at_index i) (omega arith))
                (ap
                  (λ t. ok (
                    some (
                      stop_at t
                        (first_match (λ n. name_matches_single n name) dir.chain left (i + 1)))))
                  (last_round left i e))
        ])
