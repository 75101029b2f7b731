-- ===== src/Output/TreeDiff/Whole.antt =====
-- `find_diffs` ends on a tree, and what its marks mean.
use dupion.Base.{
  ℕ, suc, ◌+◌, ◌≢◌, ◌≡◌, refl, sym, ap, ◌∙◌, inl, inr, true, some, List, [], ◌∷◌, length, get_elem?,
  ◌==◌, ==_iff, Bool-cases, All, append-nil, Outcome, ok, arith,
}
use dupion.Vfs.{Vfs, VfsEntry, VfsId}
use dupion.Vfs.Tree.{IsTree}
use dupion.Output.TreeDiff.{find_diff, diff_root, diff_roots, find_diffs}
use dupion.Output.TreeDiff.Marked.{HasTwin, Marked, Marked-refl}
use dupion.Output.TreeDiff.Returns.{IsRoot, Marks, find_diff-Marked}

-- At two places in the list of roots, the entry has a twin under the second, seen from the first.
abbrev pub HasTwinUnder : Vfs → List VfsId → VfsEntry → Type 0
HasTwinUnder v roots e =
    (i : ℕ) × (j : ℕ) × (a : VfsId) × (b : VfsId) × (from : VfsEntry) × (to : VfsEntry) × (i ≢ j)
    × (get_elem? roots i ≡ some a)
    × (get_elem? roots j ≡ some b)
    × (get_elem? v.entries a ≡ some from)
    × (get_elem? v.entries b ≡ some to)
    × HasTwin v from to e

abbrev pub AreRoots : Vfs → List VfsId → Type 0
AreRoots v = All (λ id. (e : VfsEntry) × IsRoot v id e)

abbrev Gives : Vfs → List VfsId → Outcome Vfs → Type 0
Gives v roots r = (w : Vfs) × (r ≡ ok w) × Marked (HasTwinUnder v roots) v w

-- `ids` are the roots from place `i` on.
abbrev From : List VfsId → ℕ → List VfsId → Type 0
From roots i ids = (m : ℕ) → get_elem? ids m ≡ get_elem? roots (m + i)

From-tail :
    (roots : List VfsId) (i : ℕ) (id : VfsId) (ids : List VfsId)
    → From roots i (id ∷ ids)
    → From roots (suc i) ids
From-tail roots i id ids from m =
    let shift : suc m + i ≡ m + suc i = omega arith in from (suc m) ∙ ap (get_elem? roots) shift

From-head :
    (roots : List VfsId) (i : ℕ) (id : VfsId) (ids : List VfsId)
    → From roots i (id ∷ ids)
    → get_elem? roots i ≡ some id
From-head roots i id ids from =
    let same : 0 + i ≡ i = omega arith in ap (get_elem? roots) (sym same) ∙ sym (from 0)

module _ (v : Vfs) (tree : IsTree v) (roots : List VfsId) where
  compared-Marked :
      (w : Vfs) (k i : ℕ) (root other : VfsId) (from to : VfsEntry)
      → i ≢ k
      → get_elem? roots k ≡ some root
      → get_elem? roots i ≡ some other
      → IsRoot v root from
      → IsRoot v other to
      → Marked (HasTwinUnder v roots) v w
      → Marks (HasTwinUnder v roots) v (find_diff (suc (length w.entries)) w root root other)
  compared-Marked w k i root other from to apart at_k at_i is_from is_to x =
      find_diff-Marked v tree root other from to is_from is_to
        (λ e twin. (
          k,
          i,
          root,
          other,
          from,
          to,
          λ same. apart (sym same),
          at_k,
          at_i,
          is_from.0,
          is_to.0,
          twin,
        ))
        (suc (length w.entries)) w root (from, [], is_from.0, sym (append-nil from.path), tt)
        (omega (arith, x.count)) x

  diff_root-Marked :
      (w : Vfs) (k : ℕ) (root : VfsId) (from : VfsEntry) (i : ℕ) (ids : List VfsId)
      → get_elem? roots k ≡ some root
      → IsRoot v root from
      → From roots i ids
      → AreRoots v ids
      → Marked (HasTwinUnder v roots) v w
      → Gives v roots (diff_root w k root i ids)
  unfolding diff_root
  diff_root-Marked w k root from i [] at_k is_from places ok_ids x = (w, refl, x)
  diff_root-Marked w k root from i (id ∷ ids) at_k is_from places ok_ids x =
      let rest = From-tail roots i id ids places in
      elim (Bool-cases (i == k)) [
        | inl same ↦
            let (u, returns, y) =
              diff_root-Marked w k root from (suc i) ids at_k is_from rest ok_ids.1 x in
            (u, rw same returns, y)
        | inr other ↦
            let apart : i ≢ k = λ same. let equal : (i == k) ≡ true = (==_iff i k).1 same in cc in
            let at_i = From-head roots i id ids places in
            let (t, n, found, z) =
              compared-Marked w k i root id from ok_ids.0.0 apart at_k at_i is_from ok_ids.0.1 x in
            let (u, returns, y) =
              diff_root-Marked t k root from (suc i) ids at_k is_from rest ok_ids.1 z in
            (u, rw (other, found) returns, y)
      ]

  diff_roots-Marked :
      (w : Vfs) (k : ℕ) (ids : List VfsId)
      → From roots k ids
      → AreRoots v roots
      → AreRoots v ids
      → Marked (HasTwinUnder v roots) v w
      → Gives v roots (diff_roots w roots k ids)
  unfolding diff_roots
  diff_roots-Marked w k [] places all_roots ok_ids x = (w, refl, x)
  diff_roots-Marked w k (root ∷ ids) places all_roots ok_ids x =
      let here = From-head roots k root ids places in
      let start : From roots 0 roots =
        λ m. let same : m ≡ m + 0 = omega arith in ap (get_elem? roots) same in
      let (t, first, y) =
        diff_root-Marked w k root ok_ids.0.0 0 roots here ok_ids.0.1 start all_roots x in
      let (u, returns, z) =
        diff_roots-Marked t (suc k) ids (From-tail roots k root ids places) all_roots ok_ids.1 y in
      (u, rw first returns, z)

-- On a well-formed tree, and for roots that are entries with an absolute path of plain components,
-- `find_diffs` returns: the recursion ends and nothing panics. It changes marks only; a mark is
-- raised, to 2 at most, and to 2 only for an entry that has a twin: for two different places in the
-- list of roots, the entry at the same place under the second root as this one under the first is
-- there, and their contents compare equal.
pub find_diffs-Marked :
    (v : Vfs) (roots : List VfsId)
    → IsTree v
    → AreRoots v roots
    → (w : Vfs) × (find_diffs v roots ≡ ok w) × Marked (HasTwinUnder v roots) v w
unfolding find_diffs
find_diffs-Marked v roots tree all_roots =
    let start : From roots 0 roots =
      λ m. let same : m ≡ m + 0 = omega arith in ap (get_elem? roots) same in
    diff_roots-Marked v tree roots v 0 roots start all_roots all_roots (Marked-refl v)
