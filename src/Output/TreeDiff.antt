-- ===== src/Output/TreeDiff.antt =====
-- dupion/src/output/treediff.rs: how far each entry of one root is found under the other roots. The
-- mark of an entry is 2 if the entry at the same place is equal, 1 if nothing below it is unique.
pub mod Marked
pub mod Returns
pub mod Whole
use dupion.Base.{
  ℕ, zero, suc, max, Bool, false, not, ◌&&◌, Option, none, some, List, [], ◌∷◌, ◌==◌, if◌then◌else◌,
  Outcome, ok, err, stuck, ◌>>=◌, unwrap, length,
}
use dupion.FilePath.{FilePath, bytes_eq, strip_prefix, join}
use dupion.Vfs.{Vfs, VfsEntry, VfsId, Hash, index, update, cid}

-- `Vfs::resolve`.
unfoldable pub resolve : Vfs → FilePath → Outcome (Option VfsEntry)
resolve v path = do
  found ← cid v path
  elim found [ none ↦ ok none | some id ↦ do e ← index v id; ok (some e) ]

-- `if let (Some(a),Some(b))`: whether the two are equal, if both are there.
abbrev pub both_equal : Option Hash → Option Hash → Option Bool
both_equal (some a) (some b) = some (bytes_eq a b)
both_equal _ _ = none

-- The comparison of the two entries: by the hashes of the files, if both have one.
abbrev pub same_content : VfsEntry → VfsEntry → Bool
same_content e f = elim (both_equal e.file_hash f.file_hash) [
  | some same ↦ same
  | none ↦ elim (both_equal e.dir_hash f.dir_hash) [ some same ↦ same | none ↦ false ]
]

abbrev pub raise : ℕ → VfsEntry → VfsEntry
raise upgrade e = record e { treediff_stat = max e.treediff_stat upgrade }

-- The loop over the children: the tree, and `uniqfree`.
pub diff_childs : (Vfs → VfsId → Outcome (Vfs × ℕ)) → Bool → List VfsId → Vfs → Outcome (Vfs × Bool)
diff_childs visit uniqfree [] v = ok (v, uniqfree)
diff_childs visit uniqfree (c ∷ cs) v = do
  done ← visit v c
  diff_childs visit (uniqfree && not (done.1 == 0)) cs done.0

-- The fuel bounds the depth of the calls.
pub find_diff : ℕ → Vfs → VfsId → VfsId → VfsId → Outcome (Vfs × ℕ)
unfolding diff_childs
find_diff zero v inner root other_root = err stuck
find_diff (suc fuel) v inner root other_root = do
  e ← index v inner
  from ← index v root
  to ← index v other_root
  montage ← unwrap (strip_prefix from.path e.path)
  other ← resolve v (join to.path montage)
  let equal = elim other as (λ o. Bool) [ none ↦ false | some f ↦ same_content e f ]
  let below : Outcome (Vfs × ℕ) = (do
    done ← diff_childs (λ w c. find_diff fuel w c root other_root) e.is_dir e.childs v
    ok (done.0, if done.1 then 1 else 0))
  marked ← if equal then ok (v, 2) else below
  v' ← update marked.0 inner (raise marked.1)
  e' ← index v' inner
  ok (v', e'.treediff_stat)

-- One root against the others; `i` is the index of the first of them.
pub diff_root : Vfs → ℕ → VfsId → ℕ → List VfsId → Outcome Vfs
unfolding find_diff
diff_root v roots_idx root i [] = ok v
diff_root v roots_idx root i (id ∷ ids) = do
  let compared = (do done ← find_diff (suc (length v.entries)) v root root id; ok done.0)
  v' ← if i == roots_idx then ok v else compared
  diff_root v' roots_idx root (suc i) ids

pub diff_roots : Vfs → List VfsId → ℕ → List VfsId → Outcome Vfs
unfolding diff_root
diff_roots v roots roots_idx [] = ok v
diff_roots v roots roots_idx (root ∷ rest) = do
  v' ← diff_root v roots_idx root 0 roots
  diff_roots v' roots (suc roots_idx) rest

pub find_diffs : Vfs → List VfsId → Outcome Vfs
unfolding diff_roots
find_diffs v roots = diff_roots v roots 0 roots
