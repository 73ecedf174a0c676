-- ===== src/Filesystem/Inodes.antt =====
-- Laws of `find_inode` and of writes through the pointer that it returns.
use kehinde_kernel.Prelude.{
  ℕ, ◌≡◌, refl, Bool-cases, inl, inr, false, some, List, [], ◌∷◌, ◌==◌, if◌then◌else◌, arith,
}
use kehinde_kernel.Filesystem.{Inode, find_inode, store_inode}

-- The inode found has the number asked for.
pub find_inode-ino :
    (ino : ℕ) (l : List Inode) {n : Inode} → find_inode ino l ≡ some n → n.ino ≡ ino
unfolding find_inode
find_inode-ino ino [] h = cc
find_inode-ino ino (c ∷ cs) {n} h = elim (Bool-cases (c.ino == ino)) [
  | inl here ↦ let at : c.ino ≡ ino = ground arith in let e : some c ≡ some n = rw here at h in cc
  | inr there ↦ find_inode-ino ino cs (rw there at h)
]

-- A store is seen under the stored number, if that number was there, and nowhere else.
pub find_inode-store :
    (ino : ℕ) (l : List Inode) (new : Inode) {old : Inode}
    → find_inode new.ino l ≡ some old
    → find_inode ino (store_inode new l) ≡ (if new.ino == ino then some new else find_inode ino l)
unfolding find_inode store_inode
find_inode-store ino [] new h = cc
find_inode-store ino (c ∷ cs) new {old} h = elim (Bool-cases (c.ino == new.ino)) [
  | inl here ↦
      let at : c.ino ≡ new.ino = ground arith in
      rw (here, at) (elim (Bool-cases (new.ino == ino)) [ inl e ↦ rw e refl | inr ne ↦ rw ne refl ])
  | inr there ↦
      let rest = find_inode-store ino cs new (rw there at h) in
      rw there (elim (Bool-cases (c.ino == ino)) [
        | inl e ↦
            let at : c.ino ≡ ino = ground arith in
            let apart : (new.ino == ino) ≡ false = ground arith in rw (e, apart) refl
        | inr ne ↦ rw ne rest
      ])
]
