-- ===== src/Output/Shown.antt =====
-- What is printed of a group.
use dupion.Base.{
  ℕ, ◌≤◌, ◌≡◌, refl, ap, inl, inr, Bool, true, false, not, ◌&&◌, ◌||◌, Bool-cases, Option, none,
  some, List, [], ◌∷◌, map, length, keep, get_elem?, All, leb, ◌==◌, if◌then◌else◌, ok, arith,
}
use dupion.Vfs.{Vfs, VfsEntry}
use dupion.State.{VfsEntryType, file, dir, Member, HashGroup}
use dupion.FilePath.Text.{is_utf8}
use dupion.Opts.{Opts, disp_text, path_disp}
use dupion.Output.{
  Shown, Line, shadowed, size_of, is2, exists, present, count_shadowed, hide_shadowed,
  print_members, print_group, icon2,
}

-- A present member as it is to be: of the group's size, with a path in UTF-8.
abbrev pub IsPresent : Opts → ℕ → Shown → Type 0
IsPresent opts size (t, e) =
    (is2 e t ≡ true) × (size_of e t ≡ some size) × (is_utf8 (disp_text opts e.path) ≡ true)

-- A member that can be printed: it is in the tree, and as it is to be if it is present.
abbrev pub IsMember : Opts → Vfs → ℕ → Member → Type 0
IsMember opts v size (t, id) =
    (e : VfsEntry) × (get_elem? v.entries id ≡ some e)
    × (is2 e t ≡ true → IsPresent opts size (t, e))

abbrev pub line_of : Opts → Shown → Line
line_of opts (t, e) = record {
  icon = icon2 t e.is_dir;
  mark = shadowed e t;
  path = disp_text opts e.path;
}

abbrev pub is_open : Bool → Shown → Bool
is_open hide (t, e) = not hide || not (shadowed e t)

present-IsPresent :
    (opts : Opts) (v : Vfs) (size : ℕ) (ms : List Member)
    → All (IsMember opts v size) ms
    → (es : List Shown) × (present v ms ≡ ok es) × All (IsPresent opts size) es
unfolding present
present-IsPresent opts v size [] h = ([], refl, tt)
present-IsPresent opts v size ((t, id) ∷ ms) h =
    let (e, found, sized) = h.0 in
    let (es, returns, all) = present-IsPresent opts v size ms h.1 in
    elim (Bool-cases (is2 e t)) [
      | inl here ↦ ((t, e) ∷ es, rw (found, returns, here) refl, (sized here, all))
      | inr away ↦ (es, rw (found, returns, away) refl, all)
    ]

exists-is2 : (t : VfsEntryType) (e : VfsEntry) → is2 e t ≡ true → exists e ≡ true
exists-is2 file e h = ground (arith, h)
exists-is2 dir e h = ground (arith, h)

count_shadowed_lem :
    (opts : Opts) (size : ℕ) (es : List Shown)
    → All (IsPresent opts size) es
    → (count_shadowed es).0 ≡ length (keep (is_open true) es)
unfolding count_shadowed
count_shadowed_lem opts size [] h = refl
count_shadowed_lem opts size ((t, e) ∷ es) h =
    let here = exists-is2 t e h.0.0 in
    let ih = count_shadowed_lem opts size es h.1 in
    elim (Bool-cases (shadowed e t)) [
      | inl s ↦ rw (here, s) ih
      | inr s ↦ rw (here, s) (omega (arith, ih))
    ]

print_members-map :
    (opts : Opts) (size : ℕ) (hide : Bool) (es : List Shown)
    → All (IsPresent opts size) es
    → print_members opts size hide es ≡ ok (map (line_of opts) (keep (is_open hide) es))
unfolding print_members path_disp
print_members-map opts size hide [] h = refl
print_members-map opts size hide ((t, e) ∷ es) h =
    let ih = print_members-map opts size hide es h.1 in
    elim (Bool-cases (not hide || not (shadowed e t))) [
      | inl out ↦ rw (out, h.0.1, h.0.2, ih) (ground arith)
      | inr kept ↦ rw (kept, ih) refl
    ]

length-keep : (p : Shown → Bool) (es : List Shown) → length (keep p es) ≤ length es
length-keep p [] = omega arith
length-keep p (x ∷ es) = elim (Bool-cases (p x)) [
  | inl e ↦ rw e (omega (arith, length-keep p es))
  | inr e ↦ rw e (omega (arith, length-keep p es))
]

keep_all : (es : List Shown) → keep (is_open false) es ≡ es
keep_all [] = refl
keep_all (e ∷ es) = ap (λ xs. e ∷ xs) (keep_all es)

hide_shadowed_lem : (rule n : ℕ) → rule ≤ 3 → (hide : Bool) × (hide_shadowed rule n ≡ ok hide)
unfolding hide_shadowed
hide_shadowed_lem rule n h = elim (Bool-cases (rule == 0)) [
  | inl e ↦ (false, rw e refl)
  | inr a ↦ elim (Bool-cases (rule == 1)) [
    | inl e ↦ (n == 0, rw (a, e) refl)
    | inr b ↦ elim (Bool-cases (rule == 2)) [
      | inl e ↦ (not (n == 1), rw (a, b, e) refl)
      | inr c ↦ let e : (rule == 3) ≡ true = ground arith in (true, rw (a, b, c, e) refl)
    ]
  ]
]

-- The two tests of the code come to one on what is visible.
fewer_than_two :
    (hide : Bool) (es : List Shown) (o : Option (List Line))
    → (if leb (length es) 1
        then ok none
        else if hide && leb (length (keep (is_open true) es)) 1
        then ok none
        else ok o)
      ≡ ok (if leb (length (keep (is_open hide) es)) 1 then none else o)
fewer_than_two false es o =
    rw (keep_all es)
      (elim (Bool-cases (leb (length es) 1)) [ inl e ↦ rw e refl | inr e ↦ rw e refl ])
fewer_than_two true es o = elim (Bool-cases (leb (length (keep (is_open true) es)) 1)) [
  | inl e ↦ elim (Bool-cases (leb (length es) 1)) [
    | inl f ↦ rw (e, f) refl
    | inr f ↦ rw (e, f) refl
  ]
  | inr e ↦
      let f : leb (length es) 1 ≡ false = ground (arith, length-keep (is_open true) es) in
      rw (e, f) refl
]

-- The members that are present, whether the rule hides the shadowed ones, and what is printed.
pub record Printed (v : Vfs) (opts : Opts) (h : HashGroup) : Type 0 where
  pub es : List Shown
  pub hide : Bool
  pub here : present v h.entries ≡ ok es
  pub rule : hide_shadowed opts.shadow_rule (length (keep (is_open true) es)) ≡ ok hide
  pub prints :
      print_group v opts h
      ≡ ok (
          if leb (length (keep (is_open hide) es)) 1
          then none
          else some (map (line_of opts) (keep (is_open hide) es)))

-- If every member of a group is in the tree, each present one has the size of the group and a path
-- whose text is UTF-8, and the rule is one of the four, nothing fails. A line is printed for each
-- member that is present and that the rule does not hide, and nothing if that is fewer than two;
-- the rule sees the number of present members that are not shadowed.
pub print_group-Printed :
    (v : Vfs) (opts : Opts) (h : HashGroup)
    → All (IsMember opts v h.size) h.entries
    → opts.shadow_rule ≤ 3
    → Printed v opts h
unfolding print_group
print_group-Printed v opts h members known =
    let (es, here, all) = present-IsPresent opts v h.size h.entries members in
    let counted = count_shadowed_lem opts h.size es all in
    let (hide, rule) = hide_shadowed_lem opts.shadow_rule (length (keep (is_open true) es)) known in
    let lines = print_members-map opts h.size hide es all in
    record {
      es = es;
      hide = hide;
      here = here;
      rule = rule;
      prints =
          rw (here, counted, rule, lines)
            (fewer_than_two hide es (some (map (line_of opts) (keep (is_open hide) es))));
    }
