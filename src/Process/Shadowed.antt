-- ===== src/Process/Shadowed.antt =====
-- `find_shadowed` as a whole.
use dupion.Base.{
  ℕ, zero, suc, ◌+◌, ◌<◌, ◌≤◌, ◌≡◌, refl, sym, ap, ◌∙◌, inl, inr, true, false, none, some, Option,
  List, [], ◌∷◌, length, get_elem?, set, get_elem?-lt, ◌==◌, Bool-cases, Outcome, ok, arith, ◌>>=◌,
  >>=-ok, unwrap, subst,
}
use dupion.Vfs.{Vfs, VfsEntry, VfsId, Hash, update}
use dupion.Vfs.Tree.{IsTree}
use dupion.State.{State, modify, num_hashes}
use dupion.Output.{exists}
use dupion.Process.{shadow_dir, shadow_below, shadow_childs, find_shadowed, is_common}
use dupion.Process.Under.{
  Some, Below, ends_at, FileShadowed, DirShadowed, Ends, HasCommonFile, Shade, Shades, Like,
  Like-refl, Like-Shades, Shades-trans, Shades-iff, Shades-none, Some-nil, Some-cons,
}
use dupion.Process.Walk.{
  FileShadowed-absent, DirShadowed-absent, Ends-here, FileShadowed-here, FileShadowed-below,
  DirShadowed-below,
}
use dupion.Process.Shadow.{set-Shades, BelowOf, childs-BelowOf, loop-Marks, for_recursive-Marks}

shadow_dir-Shade : {id : VfsId} (e : VfsEntry) → Shade ⊥ (id ≡ id) e (shadow_dir e)
shadow_dir-Shade e = record {
  same = refl;
  file = (λ h. inl h, λ o. elim o [ inl h ↦ h | inr x ↦ absurd x ]);
  dir = (λ h. inr refl, λ o. refl);
}

module _ (s : State) (tree : IsTree s.tree) where
  -- The state with another tree: the marks set so far.
  abbrev with_tree : Vfs → State
  with_tree v = record s { tree = v }

  is_common-with_tree : (v : Vfs) (h : Option Hash) → is_common (with_tree v) h ≡ is_common s h
  unfolding num_hashes
  is_common-with_tree v none = refl
  is_common-with_tree v (some h) = refl

  abbrev Shadows : Outcome State → VfsId → Vfs → Type 0
  Shadows r id u =
      (w : Vfs) × (r ≡ ok (with_tree w)) × Shades (FileShadowed s id) (DirShadowed s id) u w

  shadow_below-Shades :
      (u : Vfs) (id : VfsId)
      → Like s.tree u
      → id < length s.tree.entries
      → (w : Vfs) × (shadow_below (with_tree u) id ≡ ok (with_tree w))
        × Shades (Below s.tree id) (Below s.tree id) u w
  unfolding shadow_below
  shadow_below-Shades u id like inside =
      let (w, returns, x) =
        loop-Marks s.tree tree (length u.entries) u id like inside (λ t c like_t later before.
          for_recursive-Marks s.tree tree (length u.entries) t c like_t before
            (omega (arith, like.count))) in
      (w, rw returns refl, x)

  shadow_childs-Shades :
      (visit : State → VfsId → Outcome State) (id : VfsId) (cs : List VfsId) (u : Vfs)
      → ((u : Vfs) (c : VfsId)
          → Like s.tree u
          → id < c
          → c < length s.tree.entries
          → Shadows (visit (with_tree u) c) c u)
      → Like s.tree u
      → BelowOf s.tree tree id cs
      → (w : Vfs) × (shadow_childs visit id cs (with_tree u) ≡ ok (with_tree w))
        × Shades
            (λ j. Some (λ c. FileShadowed s c j) cs)
            (λ j. Some (λ c. DirShadowed s c j) cs)
            u
            w
  unfolding shadow_childs
  shadow_childs-Shades visit id [] u each like below = (
    u,
    refl,
    Shades-none u (λ j. Some-nil (λ c. FileShadowed s c j))
        (λ j. Some-nil (λ c. DirShadowed s c j)),
  )
  shadow_childs-Shades visit id (c ∷ cs) u each like below =
      let apart : (c == id) ≡ false = ground (arith, below.0.0) in
      let (w, returns, x) = each u c like below.0.0 below.0.1 in
      let (w', rest, y) = shadow_childs-Shades visit id cs w each (Like-Shades like x) below.1 in
      (
        w',
        rw (apart, returns) rest,
        Shades-iff (λ j. Some-cons (λ d. FileShadowed s d j) c cs)
            (λ j. Some-cons (λ d. DirShadowed s d j) c cs) (Shades-trans x y),
      )

  -- What the walk sees at an entry, whatever marks are set already.
  record Seen (u : Vfs) (id : VfsId) (e e' : VfsEntry) : Type 0 where
    pub found : get_elem? s.tree.entries id ≡ some e
    pub found' : get_elem? u.entries id ≡ some e'
    pub exist : exists e' ≡ exists e
    pub childs : e'.childs ≡ e.childs
    pub common_file : is_common (with_tree u) e'.file_hash ≡ is_common s e.file_hash
    pub common_dir : is_common (with_tree u) e'.dir_hash ≡ is_common s e.dir_hash

  seen :
      (u : Vfs) (id : VfsId)
      → Like s.tree u
      → id < length s.tree.entries
      → (e : VfsEntry) × (e' : VfsEntry) × Seen u id e e'
  seen u id like inside =
      let (e, found) = get_elem?-lt s.tree.entries id inside in
      let (e', found', same) = like.at id e found in
      (
        e,
        e',
        record {
          found = found;
          found' = found';
          exist = ap (λ x. exists x) same;
          childs = ap (λ x. x.childs) same;
          common_file = is_common-with_tree u e'.file_hash ∙ ap (λ x. is_common s x.file_hash) same;
          common_dir = is_common-with_tree u e'.dir_hash ∙ ap (λ x. is_common s x.dir_hash) same;
        },
      )

  -- The walk ends at an entry for the hash of its file: the entry itself is marked too.
  ends_at_file :
      (u : Vfs) (id : VfsId) (e e' : VfsEntry)
      → Like s.tree u
      → id < length s.tree.entries
      → Seen u id e e'
      → exists e ≡ true
      → is_common s e.file_hash ≡ true
      → Shadows (modify (with_tree u) id shadow_dir >>= (λ t. shadow_below t id)) id u
  unfolding modify update
  ends_at_file u id e e' like inside see there file =
      let ends : ends_at s e ≡ true = rw file refl in
      let marked : Vfs = record { entries = set u.entries id (shadow_dir e') } in
      let own : Shades (λ j. ⊥) (λ j. j ≡ id) u marked =
        set-Shades u id e' (shadow_dir e') see.found' (shadow_dir-Shade e') (λ j h. absurd h)
          (λ j h. h) in
      let (w, returns, x) = shadow_below-Shades marked id (Like-Shades like own) inside in
      let here = λ (j : VfsId). FileShadowed-here s id e see.found j there ends in
      let itself = λ (j : VfsId). Ends-here s id e see.found j there ends in
      (
        w,
        rw see.found' returns,
        Shades-iff
            (λ j. (
              λ o. elim o [ inl h ↦ absurd h | inr under ↦ (here j).0 under ],
              λ h. inr ((here j).1 h),
            ))
            (λ j. (
              λ o. elim o [
                | inl same ↦
                    inr ((itself j).0 same, subst (HasCommonFile s) (sym same) (e, see.found, file))
                | inr under ↦ inl ((here j).0 under)
              ],
              λ o. elim o [ inl h ↦ inr ((here j).1 h) | inr h ↦ inl ((itself j).1 h.0) ],
            ))
            (Shades-trans own x),
      )

  ends_at_dir :
      (u : Vfs) (id : VfsId) (e e' : VfsEntry)
      → Like s.tree u
      → id < length s.tree.entries
      → Seen u id e e'
      → exists e ≡ true
      → is_common s e.file_hash ≡ false
      → is_common s e.dir_hash ≡ true
      → Shadows (shadow_below (with_tree u) id) id u
  ends_at_dir u id e e' like inside see there no_file dir =
      let ends : ends_at s e ≡ true = rw (no_file, dir) refl in
      let (w, returns, x) = shadow_below-Shades u id like inside in
      let here = λ (j : VfsId). FileShadowed-here s id e see.found j there ends in
      let no_file_at : (j : VfsId) → Ends s id j → HasCommonFile s j → ⊥ = λ j h f.
        let (g, found, file) =
          subst (HasCommonFile s) ((Ends-here s id e see.found j there ends).1 h) f in
        let same : e ≡ g = let found_e = see.found in cc in
        let bad : true ≡ false =
          sym file ∙ ap (λ x. is_common s x.file_hash) (sym same) ∙ no_file in
        cc in
      (
        w,
        returns,
        Shades-iff here
            (λ j. (
              λ under. inl ((here j).0 under),
              λ o. elim o [ inl h ↦ (here j).1 h | inr h ↦ absurd (no_file_at j h.0 h.1) ],
            ))
            x,
      )

  find_shadowed-Shades :
      (fuel : ℕ) (u : Vfs) (id : VfsId)
      → Like s.tree u
      → id < length s.tree.entries
      → length s.tree.entries ≤ id + fuel
      → Shadows (find_shadowed fuel (with_tree u) id) id u
  unfolding find_shadowed
  find_shadowed-Shades zero u id like inside enough = absurd (omega arith)
  find_shadowed-Shades (suc fuel) u id like inside enough =
      let (e, e', see) = seen u id like inside in
      elim (Bool-cases (exists e)) [
        | inl there ↦ elim (Bool-cases (is_common s e.file_hash)) [
          | inl file ↦
              let (w, returns, x) = ends_at_file u id e e' like inside see there file in
              (w, rw (see.found', see.exist, there, see.common_file, file) returns, x)
          | inr no_file ↦ elim (Bool-cases (is_common s e.dir_hash)) [
            | inl dir ↦
                let (w, returns, x) = ends_at_dir u id e e' like inside see there no_file dir in
                (
                  w,
                  >>=-ok _ (ap unwrap see.found') (
                      rw (see.exist, there, see.common_file, no_file, see.common_dir, dir) returns),
                  x,
                )
            | inr no_dir ↦
                let goes : ends_at s e ≡ false = rw (no_file, no_dir) refl in
                let (w, returns, x) =
                  shadow_childs-Shades (find_shadowed fuel) id e.childs u
                    (λ t c like_t later before.
                      find_shadowed-Shades fuel t c like_t before (omega (arith, later, enough)))
                    like (childs-BelowOf s.tree tree id e see.found) in
                (
                  w,
                  rw
                      (
                        see.found', see.exist, there, see.common_file, no_file, see.common_dir,
                        no_dir, see.childs,
                      )
                      returns,
                  Shades-iff (λ j. FileShadowed-below s id e see.found j there goes)
                      (λ j. DirShadowed-below s id e see.found j there goes) x,
                )
          ]
        ]
        | inr absent ↦ (
          u,
          rw (see.found', see.exist, absent) refl,
          Shades-none u (λ j. FileShadowed-absent s id e see.found j absent)
              (λ j. DirShadowed-absent s id e see.found j absent),
        )
      ]

-- On a well-formed tree `find_shadowed` returns for an entry of the table, with as much fuel as there
-- are entries. It changes the shadow marks of the tree and nothing else. The file mark is then set
-- of an entry that had it or is below the end of a walk from `id`: the first entry, down through
-- entries that exist, whose file or directory has a hash that others have too. The directory mark is
-- set of an entry that had it, is below such an end, or is one for the hash of its file.
pub find_shadowed_lem :
    (s : State) (id : VfsId)
    → IsTree s.tree
    → id < length s.tree.entries
    → (w : Vfs) × (find_shadowed (length s.tree.entries) s id ≡ ok (record s { tree = w }))
      × Shades (FileShadowed s id) (DirShadowed s id) s.tree w
find_shadowed_lem s id tree inside =
    find_shadowed-Shades s tree (length s.tree.entries) s.tree id (Like-refl s.tree) inside
      (omega arith)
