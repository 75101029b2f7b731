-- ===== src/Output/TreeDiff/Marked.antt =====
-- What `find_diffs` may do to the tree: marks are raised, up to 2, and 2 has a reason.
use dupion.Base.{
  ℕ, max, ◌≤◌, ◌≢◌, ◌≡◌, refl, sym, ap, ◌∙◌, subst, ◌⊎◌, inl, inr, true, some, length, length-set,
  get_elem?, set, get_elem?-set_self, get_elem?-set_ne, lt-get_elem?, get_elem?-lt, ◌==◌, ==_iff,
  Bool-cases, arith, ok,
}
use dupion.FilePath.{strip_prefix, join, FilePath}
use dupion.Vfs.{Vfs, VfsEntry, VfsId, cid}
use dupion.Vfs.Tree.{IsTree, ChildsAt, Extends}
use dupion.Vfs.Create.{ChildsAt-Extends}
use dupion.State.Sound.{Kept-childs}
use dupion.Output.TreeDiff.{same_content, raise}

-- The entry at the place of `e` under the other root, as seen from `from`, is there and equals it.
abbrev pub HasTwin : Vfs → VfsEntry → VfsEntry → VfsEntry → Type 0
HasTwin v from to e =
    (ns : FilePath) × (id : VfsId) × (f : VfsEntry) × (strip_prefix from.path e.path ≡ some ns)
    × (cid v (join to.path ns) ≡ ok (some id))
    × (get_elem? v.entries id ≡ some f)
    × (same_content e f ≡ true)

-- `e'` is `e` with its mark raised to 2 at most, and to 2 only for a reason.
pub record IsMarked (Reason : VfsEntry → Type 0) (e e' : VfsEntry) : Type 0 where
  pub same : e' ≡ record e { treediff_stat = e'.treediff_stat }
  pub kept : e.treediff_stat ≤ e'.treediff_stat
  pub small : e'.treediff_stat ≤ max e.treediff_stat 2
  pub equal : e'.treediff_stat ≡ 2 → (e.treediff_stat ≡ 2) ⊎ Reason e

pub record Marked (Reason : VfsEntry → Type 0) (v w : Vfs) : Type 0 where
  pub count : length w.entries ≡ length v.entries
  pub at :
      (j : VfsId) (e : VfsEntry)
      → get_elem? v.entries j ≡ some e
      → (e' : VfsEntry) × (get_elem? w.entries j ≡ some e') × IsMarked Reason e e'

pub Marked-refl : {Reason : VfsEntry → Type 0} (v : Vfs) → Marked Reason v v
Marked-refl v = record {
  count = refl;
  at = λ j e found. (
    e,
    found,
    record { same = refl; kept = omega arith; small = omega arith; equal = λ h. inl h },
  );
}

pub raise-IsMarked :
    {Reason : VfsEntry → Type 0} (e e' : VfsEntry) (n : ℕ)
    → IsMarked Reason e e'
    → n ≤ 2
    → (n ≡ 2 → Reason e)
    → IsMarked Reason e (raise n e')
raise-IsMarked e e' n x small reason =
    let marked : VfsEntry → VfsEntry = λ y. record y { treediff_stat = max e'.treediff_stat n } in
    record {
      same = ap marked x.same;
      kept = omega (arith, x.kept);
      small = omega (arith, x.small, small);
      equal = λ h. elim (Bool-cases (n == 2)) [
        | inl two ↦ inr (reason ((==_iff n 2).0 two))
        | inr other ↦ x.equal (ground (arith, h, other))
      ];
    }

module _ {Reason : VfsEntry → Type 0} (v w : Vfs) (x : Marked Reason v w) where
  pub Marked-back :
      (j : VfsId) (e' : VfsEntry)
      → get_elem? w.entries j ≡ some e'
      → (e : VfsEntry) × (get_elem? v.entries j ≡ some e) × IsMarked Reason e e'
  Marked-back j e' found =
      let inside = lt-get_elem? w.entries j found in
      let (e, there) = get_elem?-lt v.entries j (omega (arith, x.count, inside)) in
      let (f, found', m) = x.at j e there in
      let same : f ≡ e' = cc in (e, there, subst (λ y. IsMarked Reason e y) same m)

  pub Marked-Extends : Extends v w
  Marked-Extends = record {
    kept = λ j e found.
        let (e', found', m) = x.at j e found in
        (
          e',
          found',
          Kept-childs e e' (ap (λ y. y.path) m.same) (ap (λ y. y.plc) m.same)
              (ap (λ y. y.childs) m.same),
        );
  }

  pub Marked-Extends_back : Extends w v
  Marked-Extends_back = record {
    kept = λ j e' found.
        let (e, found', m) = Marked-back j e' found in
        (
          e,
          found',
          Kept-childs e' e (sym (ap (λ y. y.path) m.same)) (sym (ap (λ y. y.plc) m.same))
              (sym (ap (λ y. y.childs) m.same)),
        );
  }

  pub Marked-IsTree : IsTree v → IsTree w
  Marked-IsTree tree =
      let (top, found, m) = x.at 0 tree.top tree.root in
      record {
        top = top;
        root = found;
        root_path = ap (λ y. y.path) m.same ∙ tree.root_path;
        childs = λ j e' here.
            let (e, there, n) = Marked-back j e' here in
            let same : (record e { treediff_stat = e'.treediff_stat }) ≡ e' = sym n.same in
            subst (λ y. ChildsAt w j y) same
              (ChildsAt-Extends j e.path e.childs Marked-Extends (tree.childs j e there));
      }

  -- One mark is raised.
  pub Marked-set :
      (id : VfsId) (e e' : VfsEntry) (n : ℕ)
      → get_elem? v.entries id ≡ some e
      → get_elem? w.entries id ≡ some e'
      → n ≤ 2
      → (n ≡ 2 → Reason e)
      → Marked Reason v (record { entries = set w.entries id (raise n e') })
  Marked-set id e e' n found found' small reason = record {
    count = length-set w.entries id (raise n e') ∙ x.count;
    at = λ j y there. elim (Bool-cases (id == j)) [
      | inl equal ↦
          let id_j : id ≡ j = (==_iff id j).0 equal in
          let it : some y ≡ some e = sym there ∙ ap (get_elem? v.entries) (sym id_j) ∙ found in
          let e_y : e ≡ y = cc in
          let (f, f_found, m) = x.at id e found in
          let f_e : f ≡ e' = cc in
          (
            raise n e',
            ap (get_elem? (set w.entries id (raise n e'))) (sym id_j)
                ∙ get_elem?-set_self w.entries id (raise n e') (lt-get_elem? w.entries id found'),
            subst (λ z. IsMarked Reason z (raise n e')) e_y
                (raise-IsMarked e e' n (subst (λ z. IsMarked Reason e z) f_e m) small reason),
          )
      | inr other ↦
          let apart : id ≢ j = λ same. let equal : (id == j) ≡ true = (==_iff id j).1 same in cc in
          let (y', found_y, m) = x.at j y there in
          (y', get_elem?-set_ne w.entries (raise n e') apart ∙ found_y, m)
    ];
  }
