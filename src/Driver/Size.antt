-- ===== src/Driver/Size.antt =====
-- The size phase: every file that the walk finds gets its entry and stands in the group of its size.
use dupion.Base.{
  ℕ, ◌≡◌, refl, sym, ap, ◌∙◌, subst, inl, inr, true, false, none, some, is_some, [], ◌∷◌, ◌++◌,
  get_elem?, get_elem?-set_ne, ◌≢◌, ◌==◌, ==_iff, Bool-cases, lt-get_elem?, Outcome, ok, unwrap,
  unwrap_result, >>=-ok, if◌then◌else◌,
}
use dupion.FilePath.{FilePath}
use dupion.Opts.{Opts}
use dupion.Vfs.{VfsEntry, VfsId, Hash, cid, cid_and_create}
use dupion.Vfs.Tree.{Extends, Extends-trans}
use dupion.Vfs.Resolve.{IsCanonical, Made, cid_and_create-Made, cid-Extends}
use dupion.Vfs.Content.{cid_and_create-Grows}
use dupion.State.{State, file, validate, push_to_size_group, push_to_hash_group}
use dupion.State.Groups.{in_size_group}
use dupion.State.Sound.{
  IsSound-disp, IsHashed, IsSound, Refreshes, Refreshes-trans, Kept-childs, modify_lem, with_entry,
  with_entry-IsSound, with_entry_found,
}
use dupion.State.Refill.{push_size-Refreshes, push_hash-Refreshes}
use dupion.State.Revival.{refill_if, some_of}
use dupion.State.Created.{created-IsSound}
use dupion.State.Validation.{Validated, validate-Validated, Refreshes-Extends}
use dupion.Vfs.Create.{Extends-set}
use dupion.Driver.{Found, Scan, count_found, set_found, add_if_candidate, size_file}
use dupion.Driver.Candidates.{add_if_candidate-Refreshes}

-- The entry is in the table, valid, and its size is known.
abbrev pub IsListed : State → VfsId → Type 0
IsListed s id =
    (e : VfsEntry) × (size : ℕ) × (get_elem? s.tree.entries id ≡ some e)
    × (e.valid ≡ true)
    × (e.file_size ≡ some size)

pub IsListed-Refreshes :
    {content : Hash → ℕ} {s t : State} (id : VfsId)
    → Refreshes content s t
    → IsListed s id
    → IsListed t id
IsListed-Refreshes id x (e, size, found, valid, known) =
    let (e', found', y) = x.kept id e found in
    (e', size, found', y.valid valid, y.file_size ∙ known)

-- What `size_file` leaves for a file.
pub record SizedFile (content : Hash → ℕ) (f : Found) (scan : Scan) (r : Outcome Scan)
    : Type 0 where
  pub out : Scan
  pub returns : r ≡ ok out
  pub sound : IsSound content out.state
  pub id : VfsId
  pub resolves : cid out.state.tree f.path ≡ ok (some id)
  pub keeps :
      (q : FilePath) (j : VfsId)
      → cid scan.state.tree q ≡ ok (some j)
      → cid out.state.tree q ≡ ok (some j)
  pub dest : out.dest ≡ scan.dest ++ (f.phy_off, id) ∷ []
  pub hash_now : out.hash_now ≡ scan.hash_now ++ id ∷ []
  pub entry : VfsEntry
  pub found : get_elem? out.state.tree.entries id ≡ some entry
  pub valid : entry.valid ≡ true
  pub is_file : entry.is_file ≡ true
  pub size : entry.file_size ≡ some f.size
  pub phys : entry.phys ≡ some f.phy_off
  pub extents : entry.n_extends ≡ some f.n_extends
  pub grouped : entry.unique ≡ false → in_size_group out.state.sizes f.size (file, id) ≡ true
  pub listed : (j : VfsId) → IsListed scan.state j → IsListed out.state j

-- The file is found to be what it is.
set_found-IsHashed :
    {content : Hash → ℕ} (f : Found) (e : VfsEntry)
    → ((h : Hash) → e.file_hash ≡ some h → content h ≡ f.size)
    → IsHashed content (set_found f e)
set_found-IsHashed f e fits h hashed = ap some (sym (fits h hashed))

-- The pushes of an entry that has its size, and the count of the candidate.
record Settled (content : Hash → ℕ) (s : State) (id : VfsId) (e : VfsEntry) (size : ℕ) (opts : Opts)
    : Type 0 where
  pub sized : State
  pub hashed : State
  pub out : State
  pub sizes : push_to_size_group s id true false ≡ ok sized
  pub there : get_elem? sized.tree.entries id ≡ some e
  pub hashes :
      (if is_some e.file_hash
        then unwrap_result (push_to_hash_group sized id true false)
        else ok sized)
      ≡ ok hashed
  pub counted : add_if_candidate hashed id opts ≡ ok out
  pub refreshes : Refreshes content s out
  pub grouped : e.unique ≡ false → in_size_group out.sizes size (file, id) ≡ true

settles :
    {content : Hash → ℕ} (s : State) (id : VfsId) (e : VfsEntry) (size : ℕ) (opts : Opts)
    → IsSound content s
    → get_elem? s.tree.entries id ≡ some e
    → e.valid ≡ true
    → e.file_size ≡ some size
    → Settled content s id e size opts
settles s id e size opts sound found valid known =
    let (s2, returns2, (x2, tree2, member2)) =
      push_size-Refreshes s id size e sound found valid known in
    let found2 : get_elem? s2.tree.entries id ≡ some e =
      ap (λ t. get_elem? t.entries id) tree2 ∙ found in
    let (s3, returns3, (x3, tree3)) =
      refill_if (is_some e.file_hash) s2 (push_to_hash_group s2 id true false) x2.sound (λ b.
        let (hash, hashed) = some_of e.file_hash true b in
        let (t, returns, (x, tree, _)) =
          push_hash-Refreshes s2 id hash e x2.sound found2 valid hashed in
        (t, returns, (x, tree))) in
    let found3 : get_elem? s3.tree.entries id ≡ some e =
      ap (λ t. get_elem? t.entries id) tree3 ∙ found2 in
    let (s4, returns4, x4) = add_if_candidate-Refreshes s3 id opts e x3.sound found3 known in
    record {
      sized = s2;
      hashed = s3;
      out = s4;
      sizes = returns2;
      there = found2;
      hashes = returns3;
      counted = returns4;
      refreshes = Refreshes-trans x2 (Refreshes-trans x3 x4);
      grouped = λ common. x4.members size (file, id) (x3.members size (file, id) (member2 common));
    }

-- The other entries stay as known as they are until the file is written.
IsListed-others :
    {content : Hash → ℕ} (s : State) (f : Found)
    (m : Made s.tree f.path (cid_and_create s.tree f.path))
    (v : Validated content
      (record (count_found f.size s) { tree = m.out })
      m.id
      f.size
      (validate (record (count_found f.size s) { tree = m.out }) m.id f.ctime (some f.size) none))
    (j : VfsId)
    → IsListed s j
    → IsListed (with_entry v.out m.id (set_found f v.entry)) j
IsListed-others s f m v j (e, size, found, valid, known) = elim (Bool-cases (m.id == j)) [
  | inl equal ↦
      let id_j : m.id ≡ j = (==_iff m.id j).0 equal in
      subst (IsListed (with_entry v.out m.id (set_found f v.entry))) id_j (
        set_found f v.entry,
        f.size,
        with_entry_found v.out m.id v.entry (set_found f v.entry) v.found,
        v.valid,
        refl,
      )
  | inr other ↦
      let apart : m.id ≢ j =
        λ same. let equal : (m.id == j) ≡ true = (==_iff m.id j).1 same in cc in
      let (e', found', same) =
        (cid_and_create-Grows s.tree m.out f.path m.id m.returns).old j e found in
      let (e'', found'', y) = v.others j e' apart found' in
      (
        e'',
        size,
        get_elem?-set_ne v.out.tree.entries (set_found f v.entry) apart ∙ found'',
        y.valid (same.valid ∙ valid),
        y.file_size ∙ same.file_size ∙ known,
      )
]

-- If the state is sound and the path of the file canonical, `size_file` returns: no assertion and no
-- `unwrap` fails. The state stays sound, the path resolves to an entry that is a valid file with the
-- size and the offset found, in the group of its size unless it is unique, and the vectors get it.
pub size_file-SizedFile :
    {content : Hash → ℕ} (f : Found) (scan : Scan) (opts : Opts)
    → IsSound content scan.state
    → IsCanonical f.path
    → SizedFile content f scan (size_file f scan opts)
unfolding size_file
size_file-SizedFile {content} f scan opts sound canonical =
    let s = scan.state in
    let m = cid_and_create-Made s.tree f.path sound.tree canonical in
    let s0 = record (count_found f.size s) { tree = m.out } in
    let v =
      validate-Validated s0 m.id f.ctime f.size
        (created-IsSound (count_found f.size s) f.path m
          (IsSound-disp s (count_found f.size s).disp sound))
        (lt-get_elem? m.out.entries m.id m.found) in
    let e1 = set_found f v.entry in
    let s1 = with_entry v.out m.id e1 in
    let sound1 : IsSound content s1 =
      with_entry-IsSound v.out m.id v.entry e1 v.sound v.found refl refl refl
        (set_found-IsHashed f v.entry v.fits) in
    let found1 = with_entry_found v.out m.id v.entry e1 v.found in
    let p = settles s1 m.id e1 f.size opts sound1 found1 v.valid refl in
    let (e2, found2, x) = p.refreshes.kept m.id e1 found1 in
    let extends : Extends m.out p.out.tree = Extends-trans v.extends (
      Extends-trans
        (Extends-set v.out.tree m.id v.entry e1 v.found (Kept-childs v.entry e1 refl refl refl))
        (Refreshes-Extends p.refreshes)) in
    record {
      out = record {
        state = p.out;
        dest = scan.dest ++ (f.phy_off, m.id) ∷ [];
        hash_now = scan.hash_now ++ m.id ∷ [];
      };
      returns = >>=-ok _ m.returns (
          >>=-ok _ v.returns (
            >>=-ok _ (modify_lem v.out m.id v.entry (set_found f) v.found) (
              >>=-ok _ (ap unwrap_result p.sizes)
                (>>=-ok _ (ap unwrap p.there) (>>=-ok _ p.hashes (>>=-ok _ p.counted refl))))));
      sound = p.refreshes.sound;
      id = m.id;
      resolves = cid-Extends m.out p.out.tree f.path m.id extends m.resolves;
      keeps = λ q j h. cid-Extends m.out p.out.tree q j extends (m.keeps q j h);
      dest = refl;
      hash_now = refl;
      entry = e2;
      found = found2;
      valid = x.valid v.valid;
      is_file = x.is_file refl;
      size = x.file_size;
      phys = x.phys;
      extents = x.n_extends;
      grouped = λ common. p.grouped (sym x.unique ∙ common);
      listed = λ j known. IsListed-Refreshes j p.refreshes (IsListed-others s f m v j known);
    }
