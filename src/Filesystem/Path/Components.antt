-- ===== src/Filesystem/Path/Components.antt =====
-- `parse_path` and `name_matches` of src/filesystem/filesystem.cpp on a path that is written from
-- its components.
use kehinde_kernel.Prelude.{
  ℕ, zero, suc, ◌+◌, ◌-◌, ◌≤◌, ◌<◌, ◌≡◌, ◌≢◌, ◌↔◌, inl, inr, refl, sym, ap, ◌∙◌, arith, true, false,
  ◌==◌, List, [], ◌∷◌, ◌++◌, Bool-cases, length, length-append, drop, take,
}
use kehinde_kernel.Filesystem.Names.{char_at, IsText, name_matches_loop, name_matches}
use kehinde_kernel.Filesystem.Path.{scan_segment, segment_ends, parse_path}

-- A component: a text that is not empty and holds no slash.
abbrev NoSlash : List ℕ → Type 0
NoSlash [] = Unit {0}
NoSlash (c ∷ cs) = (c ≢ b'/') × NoSlash cs

abbrev pub IsComponent : List ℕ → Type 0
IsComponent name = (0 < length name) × IsText name × NoSlash name

abbrev pub AreComponents : List (List ℕ) → Type 0
AreComponents [] = Unit {0}
AreComponents (n ∷ ns) = IsComponent n × AreComponents ns

-- The absolute path with these components.
abbrev pub render : List (List ℕ) → List ℕ
render [] = []
render (n ∷ ns) = b'/' ∷ (n ++ render ns)

-- Where the components of the path end, the first one beginning at `start`.
abbrev pub ends_of : ℕ → List (List ℕ) → List ℕ
ends_of start [] = []
ends_of start (n ∷ ns) = (start + length n) ∷ ends_of (start + length n + 1) ns

pub drop-suc :
    (p : List ℕ) (i c : ℕ) (cs : List ℕ)
    → drop i p ≡ c ∷ cs
    → (char_at p i ≡ c) × (drop (suc i) p ≡ cs)
drop-suc [] zero c cs e = cc
drop-suc [] (suc i) c cs e = cc
drop-suc (d ∷ ds) zero c cs e = ((cc), (cc))
drop-suc (d ∷ ds) (suc i) c cs e = drop-suc ds i c cs e

pub drop-add : (p : List ℕ) (i : ℕ) (a b : List ℕ) → drop i p ≡ a ++ b → drop (i + length a) p ≡ b
drop-add p i [] b e = ap (λ k. drop k p) (omega arith) ∙ e
drop-add p i (c ∷ cs) b e =
    ap (λ k. drop k p) (omega arith) ∙ drop-add p (suc i) cs b (drop-suc p i c (cs ++ b) e).1

drop-char_at :
    (p : List ℕ) (i k : ℕ) (a b : List ℕ)
    → drop i p ≡ a ++ b
    → k < length a
    → char_at p (i + k) ≡ char_at a k
drop-char_at p i k [] b e lt = absurd (omega arith)
drop-char_at p i zero (c ∷ cs) b e lt =
    ap (char_at p) (omega arith) ∙ (drop-suc p i c (cs ++ b) e).0
drop-char_at p i (suc k) (c ∷ cs) b e lt =
    ap (char_at p) (omega arith)
    ∙ drop-char_at p (suc i) k cs b (drop-suc p i c (cs ++ b) e).1 (omega arith)

drop-end : (p : List ℕ) (i : ℕ) → drop i p ≡ [] → char_at p i ≡ 0
drop-end [] i e = refl
drop-end (c ∷ cs) zero e = cc
drop-end (c ∷ cs) (suc i) e = drop-end cs i e

-- The scan stops at the slash behind a component, or at the terminator.
scan_segment-component :
    (n : List ℕ) (ns : List (List ℕ)) (i : ℕ)
    → NoSlash n
    → scan_segment (n ++ render ns) i ≡ i + length n
unfolding scan_segment
scan_segment-component [] [] i h = omega arith
scan_segment-component [] (m ∷ ms) i h = omega arith
scan_segment-component (c ∷ cs) ns i (other, h) =
    let e : (c == b'/') ≡ false = ground arith in
    rw e (omega (arith, scan_segment-component cs ns (i + 1) h))

-- The ends that `parse_path` finds are those of the components, as many as there is room for.
segment_ends-render :
    (path : List ℕ) (room i : ℕ) (names : List (List ℕ))
    → AreComponents names
    → drop i path ≡ render names
    → segment_ends path room i ≡ ends_of (i + 1) (take room names)
unfolding segment_ends
segment_ends-render path zero i names h e = refl
segment_ends-render path (suc room) i [] h e =
    let stop : (char_at path i == 0) ≡ true = ground (arith, drop-end path i e) in rw stop
segment_ends-render path (suc room) i (n ∷ ns) ((pos, text, plain), h) e =
    let (slash, behind) = drop-suc path i b'/' (n ++ render ns) e in
    let more : (char_at path i == 0) ≡ false = ground (arith, slash) in
    let next : i + 1 ≡ suc i = omega arith in
    let after : drop (i + 1) path ≡ n ++ render ns = ap (λ k. drop k path) next ∙ behind in
    let end : scan_segment (drop (i + 1) path) (i + 1) ≡ i + 1 + length n =
      ap (λ l. scan_segment l (i + 1)) after ∙ scan_segment-component n ns (i + 1) plain in
    let rest =
      segment_ends-render path room (i + 1 + length n) ns h
        (drop-add path (i + 1) n (render ns) after) in
    rw (more, end, rest)

pub parse_path-render :
    (names : List (List ℕ)) (room : ℕ)
    → AreComponents names
    → parse_path (render names) room ≡ ends_of 1 (take room names)
unfolding parse_path
parse_path-render [] room h = segment_ends-render [] room 0 [] tt refl
parse_path-render (n ∷ ns) room ((pos, text, plain), h) =
    let long : (length (render (n ∷ ns)) == 1) ≡ false =
      ground (arith, length-append n (render ns)) in
    rw long (segment_ends-render (render (n ∷ ns)) room 0 (n ∷ ns) ((pos, text, plain), h) refl)

-- Two texts with the same characters up to the terminator are the same.
text_eq :
    (a b : List ℕ)
    → IsText a
    → IsText b
    → ((k : ℕ) → k < length b → char_at a k ≡ char_at b k)
    → char_at a (length b) ≡ 0
    → a ≡ b
text_eq [] [] ta tb same end = refl
text_eq [] (d ∷ ds) ta (nz, tb) same end = absurd (nz (sym (same 0 (omega arith))))
text_eq (c ∷ cs) [] (nz, ta) tb same end = absurd (nz end)
text_eq (c ∷ cs) (d ∷ ds) (nc, ta) (nd, tb) same end =
    let first : c ≡ d = same 0 (omega arith) in
    let rest = text_eq cs ds ta tb (λ k lt. same (suc k) (omega arith)) end in cc

name_matches_loop-true :
    (path : List ℕ) (start : ℕ) (name : List ℕ) (left i : ℕ)
    → name_matches_loop path start name left i ≡ true
    → ((k : ℕ) → i ≤ k → k < i + left → char_at name k ≡ char_at path (start + k))
      × (char_at name (i + left) ≡ 0)
unfolding name_matches_loop
name_matches_loop-true path start name zero i h =
    let e : i + 0 ≡ i = omega arith in
    let z : char_at name i ≡ 0 = ground arith in
    (λ k lo hi. absurd (omega arith), ap (char_at name) e ∙ z)
name_matches_loop-true path start name (suc left) i h =
    elim (Bool-cases (char_at path (start + i) == char_at name i)) [
      | inr differ ↦ absurd (let f = rw differ at h in cc)
      | inl same ↦ elim (Bool-cases (char_at name i == 0)) [
        | inl stop ↦ absurd (let f = rw (same, stop) at h in cc)
        | inr more ↦
            let (all, end) =
              name_matches_loop-true path start name left (i + 1) (rw (same, more) at h) in
            (
              λ k lo hi. elim (Bool-cases (i == k)) [
                | inl here ↦
                    let e : i ≡ k = ground arith in
                    ap (char_at name) (sym e) ∙ ground arith ∙ ap (λ j. char_at path (start + j)) e
                | inr later ↦ all k (ground arith) (omega arith)
              ],
              ap (char_at name) (omega arith) ∙ end,
            )
      ]
    ]

name_matches_loop-same :
    (path : List ℕ) (start : ℕ) (name : List ℕ) (left i : ℕ)
    → ((k : ℕ)
        → i ≤ k
        → k < i + left
        → (char_at name k ≡ char_at path (start + k)) × (char_at name k ≢ 0))
    → char_at name (i + left) ≡ 0
    → name_matches_loop path start name left i ≡ true
unfolding name_matches_loop
name_matches_loop-same path start name zero i all end =
    let e : char_at name i ≡ 0 = ap (char_at name) (omega arith) ∙ end in ground arith
name_matches_loop-same path start name (suc left) i all end =
    let (same, nz) = all i (omega arith) (omega arith) in
    let same' : (char_at path (start + i) == char_at name i) ≡ true = ground arith in
    let more : (char_at name i == 0) ≡ false = ground arith in
    rw (same', more)
      (name_matches_loop-same path start name left (i + 1)
        (λ k lo hi. all k (omega arith) (omega arith)) (ap (char_at name) (omega arith) ∙ end))

IsText-char_at : (s : List ℕ) (k : ℕ) → IsText s → k < length s → char_at s k ≢ 0
IsText-char_at [] k h lt = absurd (omega arith)
IsText-char_at (c ∷ cs) zero (nz, h) lt = nz
IsText-char_at (c ∷ cs) (suc k) (nz, h) lt = IsText-char_at cs k h (omega arith)

char_at-length : (s : List ℕ) → char_at s (length s) ≡ 0
char_at-length [] = refl
char_at-length (c ∷ cs) = char_at-length cs

-- The comparison of an entry with a component decides equality.
pub name_matches-component :
    (path : List ℕ) (start : ℕ) (n rest name : List ℕ)
    → drop start path ≡ n ++ rest
    → IsText n
    → IsText name
    → (name_matches path start (start + length n) name ≡ true) ↔ (name ≡ n)
unfolding name_matches
name_matches-component path start n rest name at text named =
    let span : start + length n - start ≡ length n = omega arith in
    let here = λ (k : ℕ) (lt : k < length n). drop-char_at path start k n rest at lt in
    rw span (to here, from here)
  where
    to :
        ((k : ℕ) → k < length n → char_at path (start + k) ≡ char_at n k)
        → name_matches_loop path start name (length n) 0 ≡ true
        → name ≡ n
    to here h =
        let (all, end) = name_matches_loop-true path start name (length n) 0 h in
        let e : 0 + length n ≡ length n = omega arith in
        text_eq name n named text (λ k lt. all k (omega arith) (omega arith) ∙ here k lt)
          (ap (char_at name) (sym e) ∙ end)

    from :
        ((k : ℕ) → k < length n → char_at path (start + k) ≡ char_at n k)
        → name ≡ n
        → name_matches_loop path start name (length n) 0 ≡ true
    from here same =
        let e : 0 + length n ≡ length n = omega arith in
        name_matches_loop-same path start name (length n) 0
          (λ k lo hi.
            let eq = ap (λ s. char_at s k) same in
            (
              eq ∙ sym (here k (omega arith)),
              λ z. IsText-char_at n k text (omega arith) (sym eq ∙ z),
            ))
          (ap (char_at name) e ∙ ap (λ s. char_at s (length n)) same ∙ char_at-length n)
