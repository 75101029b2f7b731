-- ===== src/Vfs/Resolve.antt =====
-- The two ways into the tree: `cid` finds what `cid_and_create` made, at its path.
use dupion.Base.{
  zero, suc, ◌<◌, ◌≡◌, refl, sym, ap, ◌∙◌, subst, inl, inr, true, Bool-cases, none, some, List, [],
  ◌∷◌, ◌++◌, append-nil, append_assoc, length, get_elem?, set, All, All-map, Outcome, Outcome-cases,
  Option-cases, ok, err, panic, ◌>>=◌, arith, lt-get_elem?, get_elem?-set_self, get_elem?-set_ne,
  get_elem?-append_left, get_elem?-append_last, if◌then◌else◌, ◌||◌, is_empty,
}
use dupion.FilePath.{
  Bytes, Component, root_dir, cur_dir, parent_dir, normal, FilePath, IsPlain, as_os_str, push,
  path_eq, is_absolute_path, bytes_eq,
}
use dupion.FilePath.Laws.{as_os_str_inj, path_eq_refl, path_eq→≡, bytes_eq_refl}
use dupion.Vfs.{
  Vfs, VfsEntry, VfsId, index, find_child, child_of, walk, cid, new_entry, add_child, create_step,
  create_walk, cid_and_create, to_plc, root_id, new,
}
use dupion.Vfs.Tree.{
  Extendable, Walkable, push-append, to_plc-append, IsChild, ChildsAt, IsTree, Extends,
  Extends-refl, Extends-trans, child_of-Extends, walk-Extends, find_child-total,
}
use dupion.Vfs.Create.{
  Steps, create_step_found, create_step_missing, Extends-append, Extends-set, Kept-add_child,
}

pub child_of_lem :
    (v : Vfs) (id : VfsId) (c : Component)
    → IsPlain c
    → child_of v id c ≡ (do e ← index v id; find_child v (as_os_str c) e.childs)
unfolding child_of
child_of_lem v id root_dir h = refl
child_of_lem v id (normal n) h = refl
child_of_lem v id cur_dir h = absurd h
child_of_lem v id parent_dir h = absurd h

find_child_last :
    (v w : Vfs) (p : FilePath) (name : Bytes) (cs : List VfsId) (new : VfsId) (n : VfsEntry)
    → All (IsChild v p) cs
    → Extends v w
    → find_child v name cs ≡ ok none
    → get_elem? w.entries new ≡ some n
    → n.plc ≡ name
    → find_child w name (cs ++ new ∷ []) ≡ ok (some new)
unfolding find_child
find_child_last v w p name [] new n h x missing found same =
    rw (found, same, bytes_eq_refl name) refl
find_child_last v w p name (c ∷ cs) new n h x missing found same =
    let k = h.0 in
    let (e', found', kept) = x.kept c k.entry k.found in
    let missing' : (if bytes_eq k.entry.plc name then ok (some c) else find_child v name cs)
        ≡ ok none =
      rw k.found at missing in
    elim (Bool-cases (bytes_eq k.entry.plc name)) [
      | inl hit ↦ let no_way : ok (some c) ≡ ok none = rw hit at missing' in cc
      | inr miss ↦
          rw (found', kept.plc, miss)
            (find_child_last v w p name cs new n h.1 x (rw miss at missing') found same)
    ]

-- One round never panics on a tree, and leaves one.
create_step-Steps :
    (v : Vfs) (id : VfsId) (e : VfsEntry) (c : Component)
    → IsTree v
    → get_elem? v.entries id ≡ some e
    → IsPlain c
    → Extendable e.path c
    → Steps v id e.path c (create_step v id (push e.path c) c)
unfolding new_entry
create_step-Steps v id e c t found plain ext =
    let name = as_os_str c in
    let kids : All (IsChild v e.path) e.childs =
      All-map _ _ (λ i h. h.1) e.childs (t.childs id e found) in
    let step : child_of v id c ≡ find_child v name e.childs =
      child_of_lem v id c plain ∙ rw found refl in
    elim (find_child-total v e.path name e.childs kids) [
      | inr (i, hit, (k, same)) ↦
          create_step_found v id e c i t found (step ∙ hit) k
            (as_os_str_inj k.name c k.plain plain same)
      | inl miss ↦ create_step_missing v id e c t found plain ext (step ∙ miss) (reached kids miss)
    ]
  where
    n : VfsEntry
    n = new_entry (push e.path c)

    grown : Vfs
    grown = record v { entries = v.entries ++ n ∷ [] }

    w : Vfs
    w = record v { entries = set grown.entries id (add_child (length v.entries) e) }

    before : id < length v.entries
    before = lt-get_elem? v.entries id found

    found' : get_elem? grown.entries id ≡ some e
    found' = get_elem?-append_left v.entries (n ∷ []) id before ∙ found

    x : Extends v w
    x = Extends-trans (Extends-append v n) (
        Extends-set grown id e (add_child (length v.entries) e) found'
          (Kept-add_child (length v.entries) e))

    reached :
        All (IsChild v e.path) e.childs
        → find_child v (as_os_str c) e.childs ≡ ok none
        → child_of w id c ≡ ok (some (length v.entries))
    reached kids miss =
        child_of_lem w id c plain
        ∙ rw
            (get_elem?-set_self grown.entries id (add_child (length v.entries) e)
              (lt-get_elem? grown.entries id found'))
            (find_child_last v w e.path (as_os_str c) e.childs (length v.entries) n kids x miss
              (get_elem?-set_ne grown.entries (add_child (length v.entries) e)
                  (omega (arith, before))
                ∙ get_elem?-append_last v.entries n)
              (ap to_plc (push-append e.path c plain ext) ∙ to_plc-append e.path c))

-- What the loop of `cid_and_create` leaves, from entry `id` along `cs`.
pub record Creates (v : Vfs) (id : VfsId) (target : FilePath) (cs : List Component)
    (r : Outcome (Vfs × VfsId × FilePath)) : Type 0 where
  pub out : Vfs
  pub last : VfsId
  pub returns : r ≡ ok (out, last, target)
  pub tree : IsTree out
  pub extends : Extends v out
  pub resolves : walk out id cs ≡ ok (some last)
  pub entry : VfsEntry
  pub found : get_elem? out.entries last ≡ some entry
  pub path : entry.path ≡ target

create_walk-Creates :
    (v : Vfs) (id : VfsId) (e : VfsEntry) (built : FilePath) (cs : List Component)
    → IsTree v
    → get_elem? v.entries id ≡ some e
    → e.path ≡ built
    → Walkable built cs
    → Creates v id (built ++ cs) cs (create_walk v id built cs)
unfolding create_walk walk
create_walk-Creates v id e built [] t found path h = record {
  out = v;
  last = id;
  returns = ap (λ p. ok (v, id, p)) (sym (append-nil built));
  tree = t;
  extends = Extends-refl v;
  resolves = refl;
  entry = e;
  found = found;
  path = path ∙ sym (append-nil built);
}
create_walk-Creates v id e built (c ∷ cs) t found path h =
    let ext : Extendable e.path c = rw path h.1 in
    let s = create_step-Steps v id e c t found h.0 ext in
    let here : push built c ≡ built ++ c ∷ [] = push-append built c h.0 h.1 in
    let ih =
      create_walk-Creates s.out s.next s.entry (built ++ c ∷ []) cs s.tree s.found
        (s.path ∙ ap (λ p. p ++ c ∷ []) path) h.2 in
    let target : (built ++ c ∷ []) ++ cs ≡ built ++ c ∷ cs = append_assoc built (c ∷ []) cs in
    let stepped : create_step v id (push built c) c ≡ ok (s.out, s.next) =
      ap (λ p. create_step v id (push p c) c) (sym path) ∙ s.returns in
    record {
      out = ih.out;
      last = ih.last;
      returns = rw (stepped, here, ih.returns) (ap (λ p. ok (ih.out, ih.last, p)) target);
      tree = ih.tree;
      extends = Extends-trans s.extends ih.extends;
      resolves = rw (child_of-Extends id c s.next ih.extends s.child) ih.resolves;
      entry = ih.entry;
      found = ih.found;
      path = ih.path ∙ target;
    }

-- A canonical path: empty, or absolute, its other components plain names.
abbrev pub IsCanonical : FilePath → Type 0
IsCanonical p = ((is_absolute_path p || is_empty p) ≡ true) × Walkable [] p

-- How `cid` finds an entry: it is reached along the path, and has it.
pub cid_lem :
    (v : Vfs) (p : FilePath) (id : VfsId) (e : VfsEntry)
    → (is_absolute_path p || is_empty p) ≡ true
    → walk v root_id p ≡ ok (some id)
    → get_elem? v.entries id ≡ some e
    → e.path ≡ p
    → cid v p ≡ ok (some id)
unfolding cid
cid_lem v p id e absolute reached found path =
    rw (absolute, reached, found, path, path_eq_refl p) refl

-- And back.
cid-eq-some :
    (v : Vfs) (p : FilePath) (id : VfsId)
    → cid v p ≡ ok (some id)
    → ((is_absolute_path p || is_empty p) ≡ true)
      × (walk v root_id p ≡ ok (some id))
      × ((e : VfsEntry) × (get_elem? v.entries id ≡ some e) × (e.path ≡ p))
unfolding cid
cid-eq-some v p id h = elim (Bool-cases (is_absolute_path p || is_empty p)) [
  | inr bad ↦ let no_way : err panic ≡ ok (some id) = rw bad at h in cc
  | inl absolute ↦ elim (Outcome-cases (walk v root_id p)) [
    | inl (f, e) ↦ let no_way : err f ≡ ok (some id) = rw (absolute, e) at h in cc
    | inr (r, e) ↦ elim (Option-cases r) [
      | inl n ↦ let no_way : ok none ≡ ok (some id) = rw (absolute, e, n) at h in cc
      | inr (i, s) ↦ elim (Option-cases (get_elem? v.entries i)) [
        | inl n ↦ let no_way : err panic ≡ ok (some id) = rw (absolute, e, s, n) at h in cc
        | inr (x, found) ↦ elim (Bool-cases (path_eq x.path p)) [
          | inr n ↦ let no_way : err panic ≡ ok (some id) = rw (absolute, e, s, found, n) at h in cc
          | inl same ↦
              let done : ok (some i) ≡ ok (some id) = rw (absolute, e, s, found, same) at h in
              let one : i ≡ id = cc in
              (
                absolute,
                e ∙ ap ok s ∙ done,
                (x, subst (λ j. get_elem? v.entries j ≡ some x) one found, path_eq→≡ x.path p same),
              )
        ]
      ]
    ]
  ]
]

pub cid-Extends :
    (v w : Vfs) (q : FilePath) (j : VfsId)
    → Extends v w
    → cid v q ≡ ok (some j)
    → cid w q ≡ ok (some j)
cid-Extends v w q j x h =
    let (absolute, reached, (e, found, path)) = cid-eq-some v q j h in
    let (e', found', kept) = x.kept j e found in
    cid_lem w q j e' absolute (walk-Extends root_id q j x reached) found' (kept.path ∙ path)

-- What `cid_and_create` leaves.
pub record Made (v : Vfs) (p : FilePath) (r : Outcome (Vfs × VfsId)) : Type 0 where
  pub out : Vfs
  pub id : VfsId
  pub returns : r ≡ ok (out, id)
  pub tree : IsTree out
  pub extends : Extends v out
  pub resolves : cid out p ≡ ok (some id)
  pub entry : VfsEntry
  pub found : get_elem? out.entries id ≡ some entry
  pub path : entry.path ≡ p
  pub keeps : (q : FilePath) (j : VfsId) → cid v q ≡ ok (some j) → cid out q ≡ ok (some j)

-- On a tree and a canonical path `cid_and_create` never panics. The result is a tree in which `cid`
-- finds the entry at its path, and all that `cid` found before it finds as before.
pub cid_and_create-Made :
    (v : Vfs) (p : FilePath) → IsTree v → IsCanonical p → Made v p (cid_and_create v p)
unfolding cid_and_create
cid_and_create-Made v p t (absolute, walkable) =
    let c = create_walk-Creates v root_id t.top [] p t t.root t.root_path walkable in
    rw (absolute, c.returns, path_eq_refl p, c.found, c.path, path_eq_refl p)
      (record {
        out = c.out;
        id = c.last;
        returns = refl;
        tree = c.tree;
        extends = c.extends;
        resolves = cid_lem c.out p c.last c.entry absolute c.resolves c.found c.path;
        entry = c.entry;
        found = c.found;
        path = c.path;
        keeps = λ q j. cid-Extends v c.out q j c.extends;
      })

pub new-IsTree : IsTree new
unfolding new new_entry
new-IsTree = record {
  top = new_entry [];
  root = refl;
  root_path = refl;
  childs = λ id e h. by_id id e h;
}
  where
    by_id : (id : VfsId) (e : VfsEntry) → get_elem? new.entries id ≡ some e → ChildsAt new id e
    by_id zero e h = let same : new_entry [] ≡ e = cc in subst (λ x. ChildsAt new 0 x) same tt
    by_id (suc id) e h = cc
