-- ===== src/State/Groups.antt =====
-- The groups: a table of groups is a set of members for each key, and a push is a set insertion.
use dupion.Base.{
  ℕ, ◌≡◌, refl, sym, ap, subst, inl, inr, Bool, true, false, ◌&&◌, ◌||◌, Option, none, some, List,
  [], ◌∷◌, ◌++◌, ◌==◌, ==_iff, Bool-cases, Option-cases, lookup, insert, lookup-insert, nat_key,
  Outcome, ok, arith, get_elem?,
}
use dupion.Vfs.{VfsEntry}
use dupion.State.{
  State, SizeGroup, Member, VfsEntryType, file, dir, type_eq, has_member, infuse_size,
  push_to_size_group, hash_key,
}

abbrev pub member_eq : Member → Member → Bool
member_eq (t, i) (u, j) = type_eq t u && i == j

abbrev pub in_group : Option SizeGroup → Member → Bool
in_group none m = false
in_group (some g) m = has_member m g.entries

-- Whether `m` is in the group of `size`, and how the table looks to its users.
abbrev pub in_size_group : List (ℕ × SizeGroup) → ℕ → Member → Bool
in_size_group sizes size m = in_group (lookup size sizes) m

-- No member stands in a list twice.
abbrev pub AllDistinct : List Member → Type 0
AllDistinct [] = Unit {0}
AllDistinct (m ∷ ms) = (has_member m ms ≡ false) × AllDistinct ms

-- Each group has the size under which it is filed, and no member twice.
abbrev pub IsSizeTable : List (ℕ × SizeGroup) → Type 0
IsSizeTable sizes =
    (k : ℕ) (g : SizeGroup) → lookup k sizes ≡ some g → (g.size ≡ k) × AllDistinct g.entries

has_member-append :
    (m n : Member) (ms : List Member)
    → has_member m (ms ++ n ∷ []) ≡ (has_member m ms || member_eq n m)
has_member-append (t, i) (u, j) [] = ground arith
has_member-append (t, i) (u, j) ((w, k) ∷ ms) = ground (arith, has_member-append (t, i) (u, j) ms)

member_eq_refl : (m : Member) → member_eq m m ≡ true
member_eq_refl (file, i) = ground arith
member_eq_refl (dir, i) = ground arith

member_eq-sym : (m n : Member) → member_eq m n ≡ member_eq n m
member_eq-sym (t, i) (u, j) = ground arith

AllDistinct-append :
    (ms : List Member) (m : Member)
    → AllDistinct ms
    → has_member m ms ≡ false
    → AllDistinct (ms ++ m ∷ [])
AllDistinct-append [] m d h = (refl, tt)
AllDistinct-append ((u, j) ∷ ms) (t, i) d h = (
  rw (has_member-append (u, j) (t, i) ms, d.0) (ground arith),
  AllDistinct-append ms (t, i) d.1 (ground arith),
)

-- A push returns, adds its member to the group of its size and to no other, and keeps the table.
pub record SizePushed (sizes : List (ℕ × SizeGroup)) (size : ℕ) (m : Member)
    (r : Outcome (List (ℕ × SizeGroup))) : Type 0 where
  pub out : List (ℕ × SizeGroup)
  pub returns : r ≡ ok out
  pub table : IsSizeTable out
  pub members :
      (k : ℕ) (n : Member)
      → in_size_group out k n ≡ (in_size_group sizes k n || size == k && member_eq m n)

member_eq→≡ : (m n : Member) → member_eq m n ≡ true → m ≡ n
member_eq→≡ (file, i) (file, j) h = ap (λ k. (file, k)) ((==_iff i j).0 h)
member_eq→≡ (dir, i) (dir, j) h = ap (λ k. (dir, k)) ((==_iff i j).0 h)
member_eq→≡ (file, i) (dir, j) h = cc
member_eq→≡ (dir, i) (file, j) h = cc

pub or-absorb : (a b : Bool) → (b ≡ true → a ≡ true) → a ≡ (a || b)
or-absorb true b h = refl
or-absorb false true h = h refl
or-absorb false false h = refl

or-false : (a : Bool) → (a || false) ≡ a
or-false true = refl
or-false false = refl

pub or-true : (a : Bool) → (a || true) ≡ true
or-true true = refl
or-true false = refl

and-true : (a b : Bool) → (a && b) ≡ true → (a ≡ true) × (b ≡ true)
and-true true true h = (refl, refl)
and-true true false h = cc
and-true false b h = cc

size_members_old :
    (sizes : List (ℕ × SizeGroup)) (k size : ℕ) (m n : Member) (g : SizeGroup)
    → lookup size sizes ≡ some g
    → has_member m g.entries ≡ true
    → in_size_group sizes k n ≡ (in_size_group sizes k n || size == k && member_eq m n)
size_members_old sizes k size m n g there old =
    or-absorb (in_size_group sizes k n) (size == k && member_eq m n) λ h.
      let (a, b) = and-true (size == k) (member_eq m n) h in
      let here : in_size_group sizes size m ≡ true = rw there old in
      subst (λ i. in_size_group sizes i n ≡ true) ((==_iff size k).0 a)
        (subst (λ x. in_size_group sizes size x ≡ true) (member_eq→≡ m n b) here)

size_members_new :
    (sizes : List (ℕ × SizeGroup)) (k size : ℕ) (m n : Member) (g : SizeGroup)
    → lookup size sizes ≡ some g
    → in_size_group (insert size (record g { entries = g.entries ++ m ∷ [] }) sizes) k n
      ≡ (in_size_group sizes k n || size == k && member_eq m n)
size_members_new sizes k size m n g there =
    let g' : SizeGroup = record g { entries = g.entries ++ m ∷ [] } in
    elim (Bool-cases (size == k)) [
      | inl same ↦
          let there' : lookup k sizes ≡ some g =
            subst (λ i. lookup i sizes ≡ some g) ((==_iff size k).0 same) there in
          rw (lookup-insert size k g' sizes, same, there') (has_member-append n m g.entries)
      | inr other ↦
          rw (lookup-insert size k g' sizes, other) (sym (or-false (in_size_group sizes k n)))
    ]

infuse_size-SizePushed :
    (sizes : List (ℕ × SizeGroup)) (id size : ℕ) (typ : VfsEntryType)
    → IsSizeTable sizes
    → SizePushed sizes size (typ, id) (infuse_size sizes id size typ)
unfolding infuse_size
infuse_size-SizePushed sizes id size typ t = elim (Option-cases (lookup size sizes)) [
  | inl none_yet ↦
      let g : SizeGroup = record { entries = (typ, id) ∷ []; size = size } in
      rw (none_yet, infuse_size)
        (record {
          out = insert size g sizes;
          returns = refl;
          table = λ k h e. ground (arith, lookup-insert size k g sizes, t k h, ==_iff size k);
          members = λ k n. ground (arith, lookup-insert size k g sizes, none_yet, ==_iff size k);
        })
  | inr (g, there) ↦
      let (same, distinct) = t size g there in
      elim (Bool-cases (has_member (typ, id) g.entries)) [
        | inl old ↦
            rw (there, infuse_size, (==_iff g.size size).1 same, old)
              (record {
                out = sizes;
                returns = refl;
                table = t;
                members = λ k n. size_members_old sizes k size (typ, id) n g there old;
              })
        | inr fresh ↦
            let g' : SizeGroup = record g { entries = g.entries ++ (typ, id) ∷ [] } in
            rw (there, infuse_size, (==_iff g.size size).1 same, fresh)
              (record {
                out = insert size g' sizes;
                returns = refl;
                table = λ k h e. ground (
                  arith,
                  lookup-insert size k g' sizes,
                  t k h,
                  ==_iff size k,
                  same,
                  AllDistinct-append g.entries (typ, id) distinct fresh,
                );
                members = λ k n. size_members_new sizes k size (typ, id) n g there;
              })
      ]
]

-- The flags with which `push_to_size_group` and `push_to_hash_group` are called for one type.
abbrev pub for_file : VfsEntryType → Bool
for_file t = type_eq t file

abbrev pub for_dir : VfsEntryType → Bool
for_dir t = type_eq t dir

abbrev pub size_as : VfsEntryType → VfsEntry → Option ℕ
size_as file e = e.file_size
size_as dir e = e.dir_size

-- What a push of an entry into the table of sizes leaves.
pub record SizeGrouped (s : State) (size : ℕ) (m : Member) (r : Outcome State) : Type 0 where
  pub out : State
  pub returns : r ≡ ok out
  pub table : IsSizeTable out.sizes
  pub members :
      (k : ℕ) (n : Member)
      → in_size_group out.sizes k n ≡ (in_size_group s.sizes k n || size == k && member_eq m n)
  pub tree : out.tree ≡ s.tree
  pub hashes : out.hashes ≡ s.hashes
  pub others : out ≡ record s { sizes = out.sizes }

-- On a well-formed table, pushing a valid entry that is not unique and has its size inserts it into
-- exactly the group of its size, once, keeps the table well-formed and the other groups, and changes
-- nothing of the state but the table.
pub push_to_size_group-SizeGrouped :
    (s : State) (id size : ℕ) (e : VfsEntry) (t : VfsEntryType)
    → IsSizeTable s.sizes
    → get_elem? s.tree.entries id ≡ some e
    → e.valid ≡ true
    → e.unique ≡ false
    → size_as t e ≡ some size
    → SizeGrouped s size (t, id) (push_to_size_group s id (for_file t) (for_dir t))
unfolding push_to_size_group
push_to_size_group-SizeGrouped s id size e file table found valid common known =
    let p = infuse_size-SizePushed s.sizes id size file table in
    simp (found, valid, common, known, or-true, p.returns)
      (record {
        out = record s { sizes = p.out };
        returns = refl;
        table = p.table;
        members = p.members;
        tree = refl;
        hashes = refl;
        others = refl;
      })
push_to_size_group-SizeGrouped s id size e dir table found valid common known =
    let p = infuse_size-SizePushed s.sizes id size dir table in
    simp (found, valid, common, known, or-true, p.returns)
      (record {
        out = record s { sizes = p.out };
        returns = refl;
        table = p.table;
        members = p.members;
        tree = refl;
        hashes = refl;
        others = refl;
      })
