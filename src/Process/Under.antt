-- ===== src/Process/Under.antt =====
-- What `find_shadowed` is to mark, told by the tree alone: which entries are below another, where
-- its walk ends, and which marks differ between two trees.
use dupion.Base.{
  ◌≡◌, refl, ap, ◌∙◌, ◌⊎◌, inl, inr, ◌↔◌, true, false, some, List, [], ◌∷◌, length, get_elem?, Bool,
  ◌||◌,
}
use dupion.Vfs.{Vfs, VfsEntry, VfsId}
use dupion.State.{State}
use dupion.Output.{exists}
use dupion.Process.{is_common}

pub data Listed (c : VfsId) : List VfsId → Type 0 where
  first : {cs : List VfsId} → Listed c (c ∷ cs)
  later : {d : VfsId} {cs : List VfsId} → Listed c cs → Listed c (d ∷ cs)

-- What holds of some index of a list.
abbrev pub Some : (VfsId → Type 0) → List VfsId → Type 0
Some P cs = (c : VfsId) × Listed c cs × P c

-- Entry `j` is entry `id`, or below it.
pub data Within (v : Vfs) : VfsId → VfsId → Type 0 where
  itself : {id : VfsId} → Within v id id
  deeper :
      {id c j : VfsId} (e : VfsEntry)
      → get_elem? v.entries id ≡ some e
      → Listed c e.childs
      → Within v c j
      → Within v id j

-- Entry `j` is below entry `id`.
abbrev pub Below : Vfs → VfsId → VfsId → Type 0
Below v id j =
    (e : VfsEntry) × (get_elem? v.entries id ≡ some e) × Some (λ c. Within v c j) e.childs

abbrev pub ends_at : State → VfsEntry → Bool
ends_at s e = is_common s e.file_hash || is_common s e.dir_hash

-- From entry `id` down, through entries that exist and whose hashes are those of no other, entry
-- `a` is the first on its way with a hash that others have too.
pub data Ends (s : State) : VfsId → VfsId → Type 0 where
  common :
      {id : VfsId} (e : VfsEntry)
      → get_elem? s.tree.entries id ≡ some e
      → exists e ≡ true
      → ends_at s e ≡ true
      → Ends s id id
  below :
      {id c a : VfsId} (e : VfsEntry)
      → get_elem? s.tree.entries id ≡ some e
      → exists e ≡ true
      → ends_at s e ≡ false
      → Listed c e.childs
      → Ends s c a
      → Ends s id a

abbrev pub HasCommonFile : State → VfsId → Type 0
HasCommonFile s a =
    (e : VfsEntry) × (get_elem? s.tree.entries a ≡ some e) × (is_common s e.file_hash ≡ true)

-- The entries whose marks `find_shadowed` sets: what lies below the end of a walk, and an end itself
-- whose file others have too, as a directory.
abbrev pub FileShadowed : State → VfsId → VfsId → Type 0
FileShadowed s id j = (a : VfsId) × Ends s id a × Below s.tree a j

abbrev pub DirShadowed : State → VfsId → VfsId → Type 0
DirShadowed s id j = FileShadowed s id j ⊎ (Ends s id j × HasCommonFile s j)

-- `e'` is `e` with the marks for which there is a reason.
pub record Shade (F D : Type 0) (e e' : VfsEntry) : Type 0 where
  pub same : e' ≡ record e { dir_shadowed = e'.dir_shadowed; file_shadowed = e'.file_shadowed }
  pub file : (e'.file_shadowed ≡ true) ↔ ((e.file_shadowed ≡ true) ⊎ F)
  pub dir : (e'.dir_shadowed ≡ true) ↔ ((e.dir_shadowed ≡ true) ⊎ D)

pub record Shades (F D : VfsId → Type 0) (v w : Vfs) : Type 0 where
  pub count : length w.entries ≡ length v.entries
  pub at :
      (j : VfsId) (e : VfsEntry)
      → get_elem? v.entries j ≡ some e
      → (e' : VfsEntry) × (get_elem? w.entries j ≡ some e') × Shade (F j) (D j) e e'

-- Two trees that differ in marks only.
pub record Like (v w : Vfs) : Type 0 where
  pub count : length w.entries ≡ length v.entries
  pub at :
      (j : VfsId) (e : VfsEntry)
      → get_elem? v.entries j ≡ some e
      → (e' : VfsEntry) × (get_elem? w.entries j ≡ some e')
        × (e' ≡ record e { dir_shadowed = e'.dir_shadowed; file_shadowed = e'.file_shadowed })

pub Like-refl : (v : Vfs) → Like v v
Like-refl v = record { count = refl; at = λ j e found. (e, found, refl) }

-- The marks of the first tree do not matter for what the second differs in.
same_trans :
    (a b c : VfsEntry)
    → b ≡ record a { dir_shadowed = b.dir_shadowed; file_shadowed = b.file_shadowed }
    → c ≡ record b { dir_shadowed = c.dir_shadowed; file_shadowed = c.file_shadowed }
    → c ≡ record a { dir_shadowed = c.dir_shadowed; file_shadowed = c.file_shadowed }
same_trans a b c ab bc =
    let marked : VfsEntry → VfsEntry =
      λ x. record x { dir_shadowed = c.dir_shadowed; file_shadowed = c.file_shadowed } in
    bc ∙ ap marked ab

pub Like-Shades : {F D : VfsId → Type 0} {u v w : Vfs} → Like u v → Shades F D v w → Like u w
Like-Shades x y = record {
  count = y.count ∙ x.count;
  at = λ j e found.
      let (e', found', same) = x.at j e found in
      let (e'', found'', shade) = y.at j e' found' in
      (e'', found'', same_trans e e' e'' same shade.same);
}

pub Shade-trans :
    {F D G H : Type 0} {a b c : VfsEntry}
    → Shade F D a b
    → Shade G H b c
    → Shade (F ⊎ G) (D ⊎ H) a c
Shade-trans {F} {D} {G} {H} {a} {b} {c} x y = record {
  same = same_trans a b c x.same y.same;
  file = both x.file y.file;
  dir = both x.dir y.dir;
}
  where
    both : {P Q R K L : Type 0} → (Q ↔ (P ⊎ K)) → (R ↔ (Q ⊎ L)) → (R ↔ (P ⊎ (K ⊎ L)))
    both f g = (
      λ r. elim (g.0 r) [
        | inl q ↦ elim (f.0 q) [ inl p ↦ inl p | inr k ↦ inr (inl k) ]
        | inr l ↦ inr (inr l)
      ],
      λ o. elim o [
        | inl p ↦ g.1 (inl (f.1 (inl p)))
        | inr kl ↦ elim kl [ inl k ↦ g.1 (inl (f.1 (inr k))) | inr l ↦ g.1 (inr l) ]
      ],
    )

pub Shades-trans :
    {F D G H : VfsId → Type 0} {u v w : Vfs}
    → Shades F D u v
    → Shades G H v w
    → Shades (λ j. F j ⊎ G j) (λ j. D j ⊎ H j) u w
Shades-trans x y = record {
  count = y.count ∙ x.count;
  at = λ j e found.
      let (e', found', first_shade) = x.at j e found in
      let (e'', found'', second_shade) = y.at j e' found' in
      (e'', found'', Shade-trans first_shade second_shade);
}

-- The same marks for another reason.
pub Shades-iff :
    {F D G H : VfsId → Type 0} {v w : Vfs}
    → ((j : VfsId) → F j ↔ G j)
    → ((j : VfsId) → D j ↔ H j)
    → Shades F D v w
    → Shades G H v w
Shades-iff f d x = record {
  count = x.count;
  at = λ j e found.
      let (e', found', shade) = x.at j e found in
      (
        e',
        found',
        record {
          same = shade.same;
          file = swapped shade.file (f j);
          dir = swapped shade.dir (d j);
        },
      );
}
  where
    swapped : {P Q K L : Type 0} → (Q ↔ (P ⊎ K)) → (K ↔ L) → (Q ↔ (P ⊎ L))
    swapped q k = (
      λ x. elim (q.0 x) [ inl p ↦ inl p | inr a ↦ inr (k.0 a) ],
      λ o. elim o [ inl p ↦ q.1 (inl p) | inr b ↦ q.1 (inr (k.1 b)) ],
    )

pub Shade-none : {F D : Type 0} (e : VfsEntry) → (F → ⊥) → (D → ⊥) → Shade F D e e
Shade-none e f d = record {
  same = refl;
  file = (λ h. inl h, λ o. elim o [ inl h ↦ h | inr x ↦ absurd (f x) ]);
  dir = (λ h. inl h, λ o. elim o [ inl h ↦ h | inr x ↦ absurd (d x) ]);
}

pub Shades-none :
    {F D : VfsId → Type 0} (v : Vfs)
    → ((j : VfsId) → F j → ⊥)
    → ((j : VfsId) → D j → ⊥)
    → Shades F D v v
Shades-none v f d = record { count = refl; at = λ j e found. (e, found, Shade-none e (f j) (d j)) }

pub Some-nil : (P : VfsId → Type 0) → Some P [] → ⊥
Some-nil P (c, listed, p) = nowhere c [] listed refl
  where
    nowhere : (c : VfsId) (cs : List VfsId) → Listed c cs → cs ≡ [] → ⊥
    nowhere c cs first h = cc
    nowhere c cs (later listed) h = cc

pub Some-cons :
    (P : VfsId → Type 0) (c : VfsId) (cs : List VfsId) → (P c ⊎ Some P cs) ↔ Some P (c ∷ cs)
Some-cons P c cs = (
  λ o. elim o [ inl p ↦ (c, first, p) | inr (d, listed, p) ↦ (d, later listed, p) ],
  λ h. split h,
)
  where
    split : Some P (c ∷ cs) → P c ⊎ Some P cs
    split (d, first, p) = inl p
    split (d, later listed, p) = inr (d, listed, p)
