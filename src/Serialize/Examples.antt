-- ===== src/Serialize/Examples.antt =====
-- The tree output of a directory with a file, from the root `/`.
use dupion.Base.{◌≡◌, ◌<◌, refl, true, false, some, [], ◌∷◌, length, lookup, All, ok, arith, subst}
use dupion.FilePath.{root_dir, strip_prefix, component_eq, path_eq, bytes_eq, is_absolute_path}
use dupion.FilePath.Text.{utf8_from}
use dupion.Vfs.{VfsEntry, VfsId, Hash, cid, walk, find_child, child_of}
use dupion.State.{State, HashGroup, dir, hash_key}
use dupion.Output.Tree.{file_or_dir_props}
use dupion.Serialize.{Json, reduce_path, entry_name, print_tree}
use dupion.Serialize.Tree.{IsPrintable, IsNamed, IsReadable, IsPrintableRoot, print_tree-Returns}
use dupion.Samples.{
  sample_opts, sample_file, top_dir, shared_dir, with_shared, with_shared-IsTree, of_three,
}

abbrev own_group : HashGroup
own_group = record { size = 9000; entries = (dir, 1) ∷ []; hash = 7 ∷ [] }

abbrev one_group : State
one_group = record with_shared { hashes = (7 ∷ [], own_group) ∷ [] }

file-IsNamed : IsNamed one_group 2
unfolding entry_name utf8_from
file-IsNamed = (sample_file b'a' 0, refl, (b'a' ∷ [], refl))

dir-IsReadable : IsReadable one_group (root_dir ∷ []) false (dir, 1)
unfolding reduce_path strip_prefix component_eq utf8_from
dir-IsReadable = (shared_dir, refl, ([], refl))

abbrev Grouped : VfsId → VfsEntry → Type 0
Grouped id e =
    (h : Hash)
    → (file_or_dir_props e).1 ≡ some h
    → (g : HashGroup) × (lookup h one_group.hashes ≡ some g)
      × (0 < length g.entries)
      × All (IsReadable one_group (root_dir ∷ []) false) g.entries

dir-Grouped : Grouped 1 shared_dir
unfolding bytes_eq
dir-Grouped h shows =
    let same : 7 ∷ [] ≡ h = cc in
    subst
      (λ k.
        (g : HashGroup) × (lookup k one_group.hashes ≡ some g)
        × (0 < length g.entries)
        × All (IsReadable one_group (root_dir ∷ []) false) g.entries)
      same (own_group, refl, omega arith, (dir-IsReadable, tt))

one_group-IsPrintable : IsPrintable one_group (root_dir ∷ []) false
one_group-IsPrintable = record {
  names =
      of_three (λ id e. is_absolute_path e.path ≡ true → All (IsNamed one_group) e.childs)
        (record top_dir { childs = 1 ∷ [] }) shared_dir (sample_file b'a' 0) (λ h. cc)
        (λ h. (file-IsNamed, tt)) (λ h. tt);
  groups = λ id e h found shows.
      of_three Grouped (record top_dir { childs = 1 ∷ [] }) shared_dir (sample_file b'a' 0)
        (λ k none_shown. cc) dir-Grouped (λ k none_shown. cc) id e found h shows;
}

root-IsPrintable : IsPrintableRoot one_group false (root_dir ∷ [])
unfolding cid walk find_child child_of path_eq component_eq bytes_eq reduce_path utf8_from
root-IsPrintable = (1, shared_dir, refl, refl, refl, (b'/' ∷ [], refl), one_group-IsPrintable)

print_tree-Returns_example : (out : Json) × (print_tree one_group sample_opts ≡ ok out)
print_tree-Returns_example =
    print_tree-Returns one_group sample_opts with_shared-IsTree (root-IsPrintable, tt)
