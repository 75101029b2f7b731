-- ===== src/Process/Examples.antt =====
-- Two children of a directory in both orders, and a directory that another one equals.
use dupion.Base.{◌≡◌, ◌∷◌, [], some, refl, true, ok, arith}
use mathlib.Core.List.Perm
use dupion.FilePath.{bytes_eq}
use dupion.Vfs.{Vfs, VfsId, update}
use dupion.State.{num_hashes}
use dupion.Process.{Props, dir_digest, find_shadowed}
use dupion.Process.Under.{FileShadowed, DirShadowed, Shades}
use dupion.Process.Shadowed.{find_shadowed_lem}
use dupion.Samples.{top_dir, sample_file, shared_dir, with_shared, with_shared-IsTree, three_files}
use dupion.FilePath.Text.{utf8_from}
use dupion.Process.DirDigest.{dir_digest-Perm}

-- The results of two files of the tree.
abbrev result_a : VfsId × Props
result_a = (1, some (10, 7 ∷ []))

abbrev result_b : VfsId × Props
result_b = (2, some (20, 5 ∷ []))

dir_digest-Perm_example :
    (digest : Props) × (dir_digest (λ b. b) three_files (result_a ∷ result_b ∷ []) ≡ ok digest)
    × (dir_digest (λ b. b) three_files (result_b ∷ result_a ∷ []) ≡ ok digest)
unfolding utf8_from
dir_digest-Perm_example =
    dir_digest-Perm (λ b. b) three_files (result_a ∷ result_b ∷ []) (result_b ∷ result_a ∷ [])
      ((_, _, refl, refl), ((_, _, refl, refl), tt)) (Perm.swap result_b result_a [])

find_shadowed_lem_example :
    (w : Vfs) × (find_shadowed 3 with_shared 0 ≡ ok (record with_shared { tree = w }))
    × Shades (FileShadowed with_shared 0) (DirShadowed with_shared 0) with_shared.tree w
find_shadowed_lem_example = find_shadowed_lem with_shared 0 with_shared-IsTree (omega arith)

-- The file in the directory is marked, the directory is not.
find_shadowed_run :
    find_shadowed 3 with_shared 0
    ≡ ok (record with_shared {
      tree = record {
        entries =
            record top_dir { childs = 1 ∷ [] }
            ∷ shared_dir
            ∷ record (sample_file b'a' 0) { file_shadowed = true; dir_shadowed = true }
            ∷ [];
      };
    })
unfolding find_shadowed num_hashes bytes_eq update
find_shadowed_run = refl
