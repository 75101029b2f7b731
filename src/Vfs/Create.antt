-- ===== src/Vfs/Create.antt =====
-- `cid_and_create` makes the entries that are missing, and keeps all that is there.
use dupion.Base.{
  ◌<◌, ◌≡◌, refl, sym, ap, ◌∙◌, subst, none, some, List, [], ◌∷◌, ◌++◌, append-nil, length,
  get_elem?, set, All, All-append, Outcome, ok, arith, length-append, lt-get_elem?,
  get_elem?-set_self, get_elem?-set_ne, get_elem?-append_left, get_elem?-append_last, ℕ_discrete,
  dec_lt,
}
use dupion.FilePath.{Component, FilePath, IsPlain, push}
use dupion.Vfs.{
  Vfs, VfsEntry, VfsId, update, child_of, new_entry, append_entry, mark_dir, add_child, create_step,
  to_plc, root_id,
}
use dupion.Vfs.Tree.{
  Extendable, push-append, to_plc-append, IsChild, ChildsAt, IsTree, Kept, Extends, Kept-refl,
  Extends-trans, child_of-Extends,
}

pub IsChild-Extends :
    {v w : Vfs} {p : FilePath} {c : VfsId} → Extends v w → IsChild v p c → IsChild w p c
IsChild-Extends {c} x k =
    let (e, found, kept) = x.kept c k.entry k.found in
    record {
      entry = e;
      found = found;
      name = k.name;
      plain = k.plain;
      path = kept.path ∙ k.path;
      plc = kept.plc ∙ k.plc;
    }

pub ChildsAt-Extends :
    {v w : Vfs} (id : VfsId) (p : FilePath) (cs : List VfsId)
    → Extends v w
    → All (λ c. (id < c) × IsChild v p c) cs
    → All (λ c. (id < c) × IsChild w p c) cs
ChildsAt-Extends id p [] x h = tt
ChildsAt-Extends id p (c ∷ cs) x h =
    ((h.0.0, IsChild-Extends x h.0.1), ChildsAt-Extends id p cs x h.1)

-- A tree keeps its shape if it grows and each new list of children is in order.
IsTree-Extends :
    {v w : Vfs}
    → IsTree v
    → Extends v w
    → ((id : VfsId) (e' : VfsEntry) → get_elem? w.entries id ≡ some e' → ChildsAt w id e')
    → IsTree w
IsTree-Extends t x h =
    let (e, found, kept) = x.kept root_id t.top t.root in
    record { top = e; root = found; root_path = kept.path ∙ t.root_path; childs = h }

-- One entry is replaced by one that has its path and name, and its children with more behind.
pub Extends-set :
    (v : Vfs) (id : VfsId) (e e' : VfsEntry)
    → get_elem? v.entries id ≡ some e
    → Kept e e'
    → Extends v (record v { entries = set v.entries id e' })
Extends-set v id e e' found k = record { kept = each }
  where
    each :
        (j : VfsId) (x : VfsEntry)
        → get_elem? v.entries j ≡ some x
        → (y : VfsEntry) × (get_elem? (set v.entries id e') j ≡ some y) × Kept x y
    each j x h = elim (ℕ_discrete id j) [
      | yes same ↦
          let hit : get_elem? (set v.entries id e') j ≡ some e' =
            subst (λ t. get_elem? (set v.entries id e') t ≡ some e') same
              (get_elem?-set_self v.entries id e' (lt-get_elem? v.entries id found)) in
          let one : some e ≡ some x = sym found ∙ ap (get_elem? v.entries) same ∙ h in
          (e', hit, subst (λ t. Kept t e') (cc) k)
      | no other ↦ (x, get_elem?-set_ne v.entries e' other ∙ h, Kept-refl x)
    ]

-- What one round of `cid_and_create` leaves: `next` is now found as the child `c` of `id`.
pub record Steps (v : Vfs) (id : VfsId) (p : FilePath) (c : Component) (r : Outcome (Vfs × VfsId))
    : Type 0 where
  pub out : Vfs
  pub next : VfsId
  pub returns : r ≡ ok (out, next)
  pub tree : IsTree out
  pub extends : Extends v out
  pub child : child_of out id c ≡ ok (some next)
  pub entry : VfsEntry
  pub found : get_elem? out.entries next ≡ some entry
  pub path : entry.path ≡ p ++ c ∷ []

pub Kept-mark_dir : (e : VfsEntry) → Kept e (mark_dir e)
Kept-mark_dir e = record { path = refl; plc = refl; more = []; childs = sym (append-nil e.childs) }

pub Kept-add_child : (i : VfsId) (e : VfsEntry) → Kept e (add_child i e)
Kept-add_child i e = record { path = refl; plc = refl; more = i ∷ []; childs = refl }

-- Replacing one entry keeps the tree, if the new entry's children are in order.
pub IsTree-set :
    (v : Vfs) (id : VfsId) (e e' : VfsEntry)
    → IsTree v
    → get_elem? v.entries id ≡ some e
    → Kept e e'
    → ChildsAt (record v { entries = set v.entries id e' }) id e'
    → IsTree (record v { entries = set v.entries id e' })
IsTree-set v id e e' t found k own = IsTree-Extends t x each
  where
    x : Extends v (record v { entries = set v.entries id e' })
    x = Extends-set v id e e' found k

    each :
        (j : VfsId) (y : VfsEntry)
        → get_elem? (set v.entries id e') j ≡ some y
        → ChildsAt (record v { entries = set v.entries id e' }) j y
    each j y h = elim (ℕ_discrete id j) [
      | yes same ↦
          let hit = get_elem?-set_self v.entries id e' (lt-get_elem? v.entries id found) in
          let one : some e' ≡ some y = sym hit ∙ ap (get_elem? (set v.entries id e')) same ∙ h in
          let equal : e' ≡ y = cc in
          subst (λ z. ChildsAt (record v { entries = set v.entries id e' }) j z) equal
            (subst (λ z. ChildsAt (record v { entries = set v.entries id e' }) z e') same own)
      | no other ↦
          ChildsAt-Extends j y.path y.childs x
            (t.childs j y (sym (get_elem?-set_ne v.entries e' other) ∙ h))
    ]

-- The child is there already: its parent is marked as a directory.
pub create_step_found :
    (v : Vfs) (id : VfsId) (e : VfsEntry) (c : Component) (i : VfsId)
    → IsTree v
    → get_elem? v.entries id ≡ some e
    → child_of v id c ≡ ok (some i)
    → (k : IsChild v e.path i) → k.name ≡ c
    → Steps v id e.path c (create_step v id (push e.path c) c)
unfolding create_step update
create_step_found v id e c i t found child k same =
    let w = record v { entries = set v.entries id (mark_dir e) } in
    let x = Extends-set v id e (mark_dir e) found (Kept-mark_dir e) in
    let (there, at, kept) = x.kept i k.entry k.found in
    rw (child, found)
      (record {
        out = w;
        next = i;
        returns = refl;
        tree =
            IsTree-set v id e (mark_dir e) t found (Kept-mark_dir e)
              (ChildsAt-Extends id e.path e.childs x (t.childs id e found));
        extends = x;
        child = child_of-Extends id c i x child;
        entry = there;
        found = at;
        path = kept.path ∙ k.path ∙ ap (λ d. e.path ++ d ∷ []) same;
      })

pub Extends-append :
    (v : Vfs) (n : VfsEntry) → Extends v (record v { entries = v.entries ++ n ∷ [] })
Extends-append v n = record {
  kept = λ j x h.
      (x, get_elem?-append_left v.entries (n ∷ []) j (lt-get_elem? v.entries j h) ∙ h, Kept-refl x);
}

IsTree-append :
    (v : Vfs) (n : VfsEntry)
    → IsTree v
    → n.childs ≡ []
    → IsTree (record v { entries = v.entries ++ n ∷ [] })
IsTree-append v n t none_yet = IsTree-Extends t (Extends-append v n) each
  where
    each :
        (j : VfsId) (y : VfsEntry)
        → get_elem? (v.entries ++ n ∷ []) j ≡ some y
        → ChildsAt (record v { entries = v.entries ++ n ∷ [] }) j y
    each j y h = elim (dec_lt j (length v.entries)) [
      | yes old ↦
          ChildsAt-Extends j y.path y.childs (Extends-append v n)
            (t.childs j y (sym (get_elem?-append_left v.entries (n ∷ []) j old) ∙ h))
      | no late ↦
          let last : j ≡ length v.entries =
            omega
              (arith, lt-get_elem? (v.entries ++ n ∷ []) j h, length-append v.entries (n ∷ [])) in
          let one : some n ≡ some y =
            sym (get_elem?-append_last v.entries n)
            ∙ ap (get_elem? (v.entries ++ n ∷ [])) (sym last)
            ∙ h in
          let same : n ≡ y = cc in
          subst (λ z. ChildsAt (record v { entries = v.entries ++ n ∷ [] }) j z) same
            (rw none_yet tt)
    ]

-- The child is missing: it is appended, and its parent names it as its last child.
pub create_step_missing :
    (v : Vfs) (id : VfsId) (e : VfsEntry) (c : Component)
    → IsTree v
    → get_elem? v.entries id ≡ some e
    → IsPlain c
    → Extendable e.path c
    → child_of v id c ≡ ok none
    → child_of
        (record v {
          entries =
              set (v.entries ++ new_entry (push e.path c) ∷ []) id (add_child (length v.entries) e);
        })
        id
        c
      ≡ ok (some (length v.entries))
    → Steps v id e.path c (create_step v id (push e.path c) c)
unfolding create_step update append_entry new_entry
create_step_missing v id e c t found plain extends missing reached =
    let n = new_entry (push e.path c) in
    let new = length v.entries in
    let grown = record v { entries = v.entries ++ n ∷ [] } in
    let (e1, found1, kept1) = (Extends-append v n).kept id e found in
    let before = lt-get_elem? v.entries id found in
    let found' : get_elem? grown.entries id ≡ some e =
      get_elem?-append_left v.entries (n ∷ []) id before ∙ found in
    let w = record v { entries = set grown.entries id (add_child new e) } in
    let x =
      Extends-trans (Extends-append v n)
        (Extends-set grown id e (add_child new e) found' (Kept-add_child new e)) in
    let at : get_elem? w.entries new ≡ some n =
      get_elem?-set_ne grown.entries (add_child new e) (omega arith)
      ∙ get_elem?-append_last v.entries n in
    let path : push e.path c ≡ e.path ++ c ∷ [] = push-append e.path c plain extends in
    let child : IsChild w e.path new = record {
      entry = n;
      found = at;
      name = c;
      plain = plain;
      path = path;
      plc = ap to_plc path ∙ to_plc-append e.path c;
    } in
    rw (missing, found')
      (record {
        out = w;
        next = new;
        returns = refl;
        tree =
            IsTree-set grown id e (add_child new e) (IsTree-append v n t refl) found'
              (Kept-add_child new e)
              (All-append _ e.childs (new ∷ [])
                (ChildsAt-Extends id e.path e.childs x (t.childs id e found))
                ((before, child), tt));
        extends = x;
        child = reached;
        entry = n;
        found = at;
        path = path;
      })
