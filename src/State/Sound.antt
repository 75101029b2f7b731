-- ===== src/State/Sound.antt =====
-- What holds of the state between any two operations, and the operations on one entry that keep it.
use dupion.Base.{
  ℕ, ◌≡◌, ◌≢◌, refl, sym, ap, ◌∙◌, subst, inl, inr, true, some, List, [], length, length-set,
  get_elem?, set, get_elem?-set_self, get_elem?-set_ne, lt-get_elem?, ◌==◌, ==_iff, Bool-cases,
  lookup, Outcome, ok, append-nil,
}
use dupion.Vfs.{VfsEntry, VfsId, Hash, update}
use dupion.Vfs.Tree.{IsTree, ChildsAt, Kept}
use dupion.Vfs.Create.{IsTree-set, Extends-set, ChildsAt-Extends}
use dupion.State.{State, Counters, HashGroup, Member, modify, hash_key}
use dupion.State.Groups.{IsSizeTable, in_size_group}
use dupion.State.HashGroups.{IsHashTable}

-- A file with a hash has the size of the content with that hash.
abbrev pub IsHashed : (Hash → ℕ) → VfsEntry → Type 0
IsHashed content e = (h : Hash) → e.file_hash ≡ some h → e.file_size ≡ some (content h)

-- The invariant of the state. `content` tells how long the content of each hash is: it stands for
-- there being no two contents of one hash.
pub record IsSound (content : Hash → ℕ) (s : State) : Type 0 where
  pub tree : IsTree s.tree
  pub hashed :
      (id : VfsId) (e : VfsEntry) → get_elem? s.tree.entries id ≡ some e → IsHashed content e
  pub sizes : IsSizeTable s.sizes
  pub hashes : IsHashTable s.hashes
  pub filed : (h : Hash) (g : HashGroup) → lookup h s.hashes ≡ some g → g.size ≡ content h

-- The counters are no part of it.
pub IsSound-disp :
    {content : Hash → ℕ} (s : State) (c : Counters)
    → IsSound content s
    → IsSound content (record s { disp = c })
IsSound-disp s c x = record {
  tree = x.tree;
  hashed = x.hashed;
  sizes = x.sizes;
  hashes = x.hashes;
  filed = x.filed;
}

-- `e'` is `e` found again: with the same content in the same place, and as valid as before.
pub record Refreshed (e e' : VfsEntry) : Type 0 where
  pub path : e'.path ≡ e.path
  pub plc : e'.plc ≡ e.plc
  pub childs : e'.childs ≡ e.childs
  pub file_size : e'.file_size ≡ e.file_size
  pub file_hash : e'.file_hash ≡ e.file_hash
  pub phys : e'.phys ≡ e.phys
  pub n_extends : e'.n_extends ≡ e.n_extends
  pub unique : e'.unique ≡ e.unique
  pub valid : e.valid ≡ true → e'.valid ≡ true
  pub is_file : e.is_file ≡ true → e'.is_file ≡ true

pub Refreshed-refl : (e : VfsEntry) → Refreshed e e
Refreshed-refl e = record {
  path = refl;
  plc = refl;
  childs = refl;
  file_size = refl;
  file_hash = refl;
  phys = refl;
  n_extends = refl;
  unique = refl;
  valid = λ h. h;
  is_file = λ h. h;
}

pub Refreshed-trans : {a b c : VfsEntry} → Refreshed a b → Refreshed b c → Refreshed a c
Refreshed-trans x y = record {
  path = y.path ∙ x.path;
  plc = y.plc ∙ x.plc;
  childs = y.childs ∙ x.childs;
  file_size = y.file_size ∙ x.file_size;
  file_hash = y.file_hash ∙ x.file_hash;
  phys = y.phys ∙ x.phys;
  n_extends = y.n_extends ∙ x.n_extends;
  unique = y.unique ∙ x.unique;
  valid = λ h. y.valid (x.valid h);
  is_file = λ h. y.is_file (x.is_file h);
}

pub Kept-childs :
    (e e' : VfsEntry) → e'.path ≡ e.path → e'.plc ≡ e.plc → e'.childs ≡ e.childs → Kept e e'
Kept-childs e e' path plc childs = record {
  path = path;
  plc = plc;
  more = [];
  childs = childs ∙ sym (append-nil e.childs);
}

-- `t` has what `s` has: the invariant holds, entries are found again at most, and members stay.
pub record Refreshes (content : Hash → ℕ) (s t : State) : Type 0 where
  pub sound : IsSound content t
  pub count : length t.tree.entries ≡ length s.tree.entries
  pub kept :
      (id : VfsId) (e : VfsEntry)
      → get_elem? s.tree.entries id ≡ some e
      → (e' : VfsEntry) × (get_elem? t.tree.entries id ≡ some e') × Refreshed e e'
  pub members :
      (k : ℕ) (m : Member) → in_size_group s.sizes k m ≡ true → in_size_group t.sizes k m ≡ true

-- A call that returns a state with a property.
abbrev pub Gives : Outcome State → (State → Type 0) → Type 0
Gives r P = (t : State) × (r ≡ ok t) × P t

pub Refreshes-refl : {content : Hash → ℕ} (s : State) → IsSound content s → Refreshes content s s
Refreshes-refl s sound = record {
  sound = sound;
  count = refl;
  kept = λ id e found. (e, found, Refreshed-refl e);
  members = λ k m h. h;
}

pub Refreshes-trans :
    {content : Hash → ℕ} {s t u : State}
    → Refreshes content s t
    → Refreshes content t u
    → Refreshes content s u
Refreshes-trans first second = record {
  sound = second.sound;
  count = second.count ∙ first.count;
  kept = λ id e found.
      let (e', found', x) = first.kept id e found in
      let (e'', found'', y) = second.kept id e' found' in (e'', found'', Refreshed-trans x y);
  members = λ k m h. second.members k m (first.members k m h);
}

-- The other entries of a list that is written at one place, and the entry that is written.
pub by_index :
    {P : VfsId → VfsEntry → Type 0} (es : List VfsEntry) (id : VfsId) (e e' : VfsEntry)
    → get_elem? es id ≡ some e
    → P id e'
    → ((j : VfsId) (x : VfsEntry) → get_elem? es j ≡ some x → P j x)
    → (j : VfsId) (x : VfsEntry) → get_elem? (set es id e') j ≡ some x
    → P j x
by_index {P} es id e e' found here others j x h = elim (Bool-cases (id == j)) [
  | inl equal ↦
      let id_j : id ≡ j = (==_iff id j).0 equal in
      let it : some x ≡ some e' =
        sym h
        ∙ ap (get_elem? (set es id e')) (sym id_j)
        ∙ get_elem?-set_self es id e' (lt-get_elem? es id found) in
      let e'_x : e' ≡ x = cc in subst (λ y. P j y) e'_x (subst (λ k. P k e') id_j here)
  | inr other ↦
      let apart : id ≢ j = λ same. let equal : (id == j) ≡ true = (==_iff id j).1 same in cc in
      others j x (sym (get_elem?-set_ne es e' apart) ∙ h)
]

abbrev pub with_entry : State → VfsId → VfsEntry → State
with_entry s id e' = record s { tree = record { entries = set s.tree.entries id e' } }

pub modify_lem :
    (s : State) (id : VfsId) (e : VfsEntry) (f : VfsEntry → VfsEntry)
    → get_elem? s.tree.entries id ≡ some e
    → modify s id f ≡ ok (with_entry s id (f e))
unfolding modify update
modify_lem s id e f found = rw found refl

-- An entry is written whose place in the tree is the same and whose hash fits.
pub with_entry-IsSound :
    {content : Hash → ℕ} (s : State) (id : VfsId) (e e' : VfsEntry)
    → IsSound content s
    → get_elem? s.tree.entries id ≡ some e
    → e'.path ≡ e.path
    → e'.plc ≡ e.plc
    → e'.childs ≡ e.childs
    → IsHashed content e'
    → IsSound content (with_entry s id e')
with_entry-IsSound {content} s id e e' sound found path plc childs hashed =
    let kept = Kept-childs e e' path plc childs in
    let place : ChildsAt s.tree id e' =
      subst (λ p. ChildsAt s.tree id (record e' { path = p })) (sym path)
        (subst (λ cs. ChildsAt s.tree id (record e' { path = e.path; childs = cs })) (sym childs)
          (sound.tree.childs id e found)) in
    record {
      tree =
          IsTree-set s.tree id e e' sound.tree found kept
            (ChildsAt-Extends id e'.path e'.childs (Extends-set s.tree id e e' found kept) place);
      hashed =
          by_index {P = λ j x. IsHashed content x} s.tree.entries id e e' found hashed sound.hashed;
      sizes = sound.sizes;
      hashes = sound.hashes;
      filed = sound.filed;
    }

pub with_entry-Refreshes :
    {content : Hash → ℕ} (s : State) (id : VfsId) (e e' : VfsEntry)
    → IsSound content s
    → get_elem? s.tree.entries id ≡ some e
    → Refreshed e e'
    → Refreshes content s (with_entry s id e')
with_entry-Refreshes {content} s id e e' sound found x = record {
  sound =
      with_entry-IsSound s id e e' sound found x.path x.plc x.childs
        (λ h hashed. x.file_size ∙ sound.hashed id e found h (sym x.file_hash ∙ hashed));
  count = length-set s.tree.entries id e';
  kept = λ j y there. elim (Bool-cases (id == j)) [
    | inl equal ↦
        let id_j : id ≡ j = (==_iff id j).0 equal in
        let it : some y ≡ some e = sym there ∙ ap (get_elem? s.tree.entries) (sym id_j) ∙ found in
        let e_y : e ≡ y = cc in
        (
          e',
          ap (get_elem? (set s.tree.entries id e')) (sym id_j)
              ∙ get_elem?-set_self s.tree.entries id e' (lt-get_elem? s.tree.entries id found),
          subst (λ z. Refreshed z e') e_y x,
        )
    | inr other ↦
        let apart : id ≢ j = λ same. let equal : (id == j) ≡ true = (==_iff id j).1 same in cc in
        (y, get_elem?-set_ne s.tree.entries e' apart ∙ there, Refreshed-refl y)
  ];
  members = λ k m h. h;
}

pub with_entry_other :
    (s : State) (id j : VfsId) (e' : VfsEntry)
    → id ≢ j
    → get_elem? (with_entry s id e').tree.entries j ≡ get_elem? s.tree.entries j
with_entry_other s id j e' apart = get_elem?-set_ne s.tree.entries e' apart

pub with_entry_found :
    (s : State) (id : VfsId) (e e' : VfsEntry)
    → get_elem? s.tree.entries id ≡ some e
    → get_elem? (with_entry s id e').tree.entries id ≡ some e'
with_entry_found s id e e' found =
    get_elem?-set_self s.tree.entries id e' (lt-get_elem? s.tree.entries id found)
