-- ===== src/Output/TreeDiff/Returns.antt =====
-- `find_diff` ends on a tree, for one root and one other.
use dupion.Base.{
  ℕ, zero, suc, max, ◌+◌, ◌<◌, ◌≤◌, ◌≡◌, refl, sym, ap, ap₂, ◌∙◌, inl, inr, Bool, true, false, not,
  ◌&&◌, ◌||◌, none, some, List, [], ◌∷◌, ◌++◌, length, get_elem?, set, get_elem?-set_self,
  lt-get_elem?, ◌==◌, Bool-cases, All, All-append, append_assoc, Outcome, ok, unwrap, >>=-ok, arith,
  if◌then◌else◌, ◌>>=◌, Option, is_empty,
}
use dupion.FilePath.{
  FilePath, root_dir, cur_dir, parent_dir, normal, IsPlain, is_absolute_path, strip_prefix, join,
}
use dupion.FilePath.Laws.{strip_prefix-append}
use dupion.Vfs.{Vfs, VfsEntry, VfsId, update, index}
use dupion.Vfs.Tree.{IsTree, IsChild}
use dupion.Vfs.Resolve.{cid-Extends}
use dupion.Vfs.Total.{cid-total}
use dupion.Output.TreeDiff.{resolve, same_content, raise, diff_childs, find_diff}
use dupion.Output.TreeDiff.Marked.{
  HasTwin, IsMarked, Marked, Marked-back, Marked-Extends_back, Marked-IsTree, Marked-set,
}

-- An entry of the table that roots can have: absolute, and of plain components.
abbrev pub IsRoot : Vfs → VfsId → VfsEntry → Type 0
IsRoot v id e =
    (get_elem? v.entries id ≡ some e) × (is_absolute_path e.path ≡ true) × All IsPlain e.path

join-IsPlain : (p ns : FilePath) → All IsPlain p → All IsPlain ns → All IsPlain (join p ns)
join-IsPlain p ns hp hn = elim (Bool-cases (is_absolute_path ns)) [
  | inl h ↦ rw h hn
  | inr h ↦ rw h (All-append IsPlain p ns hp hn)
]

pub append-absolute :
    (p ns : FilePath) → is_absolute_path p ≡ true → is_absolute_path (p ++ ns) ≡ true
append-absolute [] ns h = cc
append-absolute (root_dir ∷ p) ns h = refl
append-absolute (cur_dir ∷ p) ns h = cc
append-absolute (parent_dir ∷ p) ns h = cc
append-absolute (normal n ∷ p) ns h = cc

join-absolute :
    (p ns : FilePath)
    → is_absolute_path p ≡ true
    → (is_absolute_path (join p ns) || is_empty (join p ns)) ≡ true
join-absolute p ns h = elim (Bool-cases (is_absolute_path ns)) [
  | inl a ↦ rw a (rw a refl)
  | inr a ↦ rw a (rw (append-absolute p ns h) refl)
]

-- A call that leaves the tree marked.
abbrev pub Marks : {A : Type 0} → (VfsEntry → Type 0) → Vfs → Outcome (Vfs × A) → Type 0
Marks {A} Reason v r = (w : Vfs) × (n : A) × (r ≡ ok (w, n)) × Marked Reason v w

-- What is `marked`, with its two branches.
abbrev marked_of : Vfs → Bool → Outcome (Vfs × Bool) → Outcome (Vfs × ℕ)
marked_of w equal childs =
    let below : Outcome (Vfs × ℕ) = (do done ← childs; ok (done.0, if done.1 then 1 else 0)) in
    if equal then ok (w, 2) else below

marked_equal :
    (w : Vfs) (equal : Bool) (childs : Outcome (Vfs × Bool))
    → equal ≡ true
    → marked_of w equal childs ≡ ok (w, 2)
marked_equal w equal childs h = rw h refl

marked_below :
    (w t : Vfs) (b equal : Bool) (childs : Outcome (Vfs × Bool))
    → equal ≡ false
    → childs ≡ ok (t, b)
    → marked_of w equal childs ≡ ok (t, if b then 1 else 0)
marked_below w t b equal childs h returns = rw (h, returns) refl

bit_small : (b : Bool) → (if b then 1 else 0) ≤ 1
bit_small true = omega arith
bit_small false = omega arith

module _ {Reason : VfsEntry → Type 0} (v : Vfs) (tree : IsTree v) where
  diff_childs-Marked :
      (visit : Vfs → VfsId → Outcome (Vfs × ℕ)) (uniqfree : Bool) (cs : List VfsId)
      (P : VfsId → Type 0) (w : Vfs)
      → ((u : Vfs) (c : VfsId) → P c → Marked Reason v u → Marks Reason v (visit u c))
      → All P cs
      → Marked Reason v w
      → Marks Reason v (diff_childs visit uniqfree cs w)
  unfolding diff_childs
  diff_childs-Marked visit uniqfree [] P w each below x = (w, uniqfree, refl, x)
  diff_childs-Marked visit uniqfree (c ∷ cs) P w each below x =
      let (u, n, returns, y) = each w c below.0 x in
      let (u', b, rest, z) =
        diff_childs-Marked visit (uniqfree && not (n == 0)) cs P u each below.1 y in
      (u', b, rw returns rest, z)

  -- What follows when the mark is known.
  finish :
      (w : Vfs) (id : VfsId) (e : VfsEntry) (n : ℕ)
      → Marked Reason v w
      → get_elem? v.entries id ≡ some e
      → n ≤ 2
      → (n ≡ 2 → Reason e)
      → Marks Reason v (do w' ← update w id (raise n); e' ← index w' id; ok (w', e'.treediff_stat))
  unfolding update
  finish w id e n x found small reason =
      let (e', found', m) = x.at id e found in
      let self : get_elem? (set w.entries id (raise n e')) id ≡ some (raise n e') =
        get_elem?-set_self w.entries id (raise n e') (lt-get_elem? w.entries id found') in
      (
        record { entries = set w.entries id (raise n e') },
        max e'.treediff_stat n,
        rw (found', self) refl,
        Marked-set v w x id e e' n found found' small reason,
      )

  module _ (root other : VfsId) (from to : VfsEntry) (is_from : IsRoot v root from)
      (is_to : IsRoot v other to) (reason : (e : VfsEntry) → HasTwin v from to e → Reason e) where
    -- Whether the entry at the same place under the other root equals this one.
    abbrev is_equal : VfsEntry → Option VfsEntry → Bool
    is_equal e' o = elim o [ none ↦ false | some f ↦ same_content e' f ]

    counterpart :
        (w : Vfs) (e e' to' : VfsEntry) (ns : FilePath)
        → Marked Reason v w
        → IsMarked Reason e e'
        → to'.path ≡ to.path
        → e.path ≡ from.path ++ ns
        → All IsPlain ns
        → (o : Option VfsEntry) × (resolve w (join to'.path ns) ≡ ok o)
          × (is_equal e' o ≡ true → Reason e)
    unfolding resolve
    counterpart w e e' to' ns x m same_to path plain =
        let there : join to'.path ns ≡ join to.path ns = ap (λ p. join p ns) same_to in
        elim (cid-total w (join to.path ns) (Marked-IsTree v w x tree)
          (join-absolute to.path ns is_to.1) (join-IsPlain to.path ns is_to.2 plain)) [
            | inl nothing ↦ (none, ap (resolve w) there ∙ rw nothing refl, λ h. cc)
            | inr (j, f', hit, found') ↦
                let (f, found, mf) = Marked-back v w x j f' found' in
                let alike : same_content e' f' ≡ same_content e f =
                  ap (λ y. same_content y f') m.same ∙ ap (λ y. same_content e y) mf.same in
                (
                  some f',
                  ap (resolve w) there ∙ rw (hit, found') refl,
                  λ h. reason e (
                    ns,
                    j,
                    f,
                    ap (strip_prefix from.path) path ∙ strip_prefix-append from.path ns,
                    cid-Extends w v (join to.path ns) j (Marked-Extends_back v w x) hit,
                    found,
                    sym alike ∙ h,
                  ),
                )
          ]

    -- A child, seen from the root.
    abbrev pub IsUnder : VfsId → Type 0
    IsUnder j =
        (e : VfsEntry) × (ns : FilePath) × (get_elem? v.entries j ≡ some e)
        × (e.path ≡ from.path ++ ns)
        × All IsPlain ns

    childs-IsUnder :
        (id : VfsId) (e : VfsEntry) (ns : FilePath) (cs : List VfsId)
        → e.path ≡ from.path ++ ns
        → All IsPlain ns
        → All (λ c. (id < c) × IsChild v e.path c) cs
        → All (λ c. (id < c) × IsUnder c) cs
    childs-IsUnder id e ns [] path plain h = tt
    childs-IsUnder id e ns (c ∷ cs) path plain h =
        let k = h.0.1 in
        (
          (
            h.0.0,
            (
              k.entry,
              ns ++ k.name ∷ [],
              k.found,
              k.path ∙ ap (λ p. p ++ k.name ∷ []) path ∙ append_assoc from.path ns (k.name ∷ []),
              All-append IsPlain ns (k.name ∷ []) plain (k.plain, tt),
            ),
          ),
          childs-IsUnder id e ns cs path plain h.1,
        )

    pub find_diff-Marked :
        (fuel : ℕ) (w : Vfs) (inner : VfsId)
        → IsUnder inner
        → length v.entries ≤ inner + fuel
        → Marked Reason v w
        → Marks Reason v (find_diff fuel w inner root other)
    unfolding find_diff
    find_diff-Marked zero w inner (e, ns, found, path, plain) enough x =
        let inside = lt-get_elem? v.entries inner found in absurd (omega arith)
    find_diff-Marked (suc fuel) w inner (e, ns, found, path, plain) enough x =
        let (e', found', m) = x.at inner e found in
        let (from', found_from, m_from) = x.at root from is_from.0 in
        let (to', found_to, m_to) = x.at other to is_to.0 in
        let montage : strip_prefix from'.path e'.path ≡ some ns =
          ap₂ strip_prefix (ap (λ y. y.path) m_from.same) (ap (λ y. y.path) m.same ∙ path)
          ∙ strip_prefix-append from.path ns in
        let (o, resolved, is_twin) =
          counterpart w e e' to' ns x m (ap (λ y. y.path) m_to.same) path plain in
        elim (Bool-cases (is_equal e' o)) [
          | inl same ↦
              let (u, n, ends, y) = finish w inner e 2 x found (omega arith) (λ h. is_twin same) in
              (
                u,
                n,
                >>=-ok _ (ap unwrap found') (
                    >>=-ok _ (ap unwrap found_from) (
                      >>=-ok _ (ap unwrap found_to) (
                        >>=-ok _ (ap unwrap montage)
                          (>>=-ok _ resolved (>>=-ok _ (marked_equal w _ _ same) ends))))),
                y,
              )
          | inr differs ↦
              let (t, b, below, y) =
                diff_childs-Marked (λ u c. find_diff fuel u c root other) e'.is_dir e.childs
                  (λ c. (inner < c) × IsUnder c) w
                  (λ u c under z.
                    find_diff-Marked fuel u c under.1 (omega (arith, enough, under.0)) z)
                  (childs-IsUnder inner e ns e.childs path plain (tree.childs inner e found)) x in
              let below' : diff_childs (λ u c. find_diff fuel u c root other) e'.is_dir e'.childs w
                  ≡ ok (t, b) =
                ap (λ y. diff_childs (λ u c. find_diff fuel u c root other) e'.is_dir y.childs w)
                  m.same
                ∙ below in
              let bit = bit_small b in
              let (u, n, ends, z) =
                finish t inner e (if b then 1 else 0) y found (omega (arith, bit))
                  (λ h. absurd (omega (arith, bit, h))) in
              (
                u,
                n,
                >>=-ok _ (ap unwrap found') (
                    >>=-ok _ (ap unwrap found_from) (
                      >>=-ok _ (ap unwrap found_to) (
                        >>=-ok _ (ap unwrap montage) (
                          >>=-ok _ resolved
                            (>>=-ok _ (marked_below w t b _ _ differs below') ends))))),
                z,
              )
        ]
