-- ===== src/Output/Examples.antt =====
-- A group of two files, one of them shadowed, under the rule that hides the shadowed members; and
-- the rows of a directory.
use dupion.Base.{◌≡◌, refl, ◌∷◌, [], arith, true, false, some, none, ok}
use dupion.FilePath.{root_dir, normal, strip_prefix, component_eq}
use dupion.FilePath.Text.{utf8_from}
use dupion.Vfs.{Vfs, VfsEntry}
use dupion.State.{State, HashGroup, file}
use dupion.Opts.{Opts}
use dupion.Output.TreeDiff.{find_diffs}
use dupion.Output.TreeDiff.Marked.{Marked}
use dupion.Output.TreeDiff.Whole.{AreRoots, HasTwinUnder, find_diffs-Marked}
use dupion.Samples.{sample_file, shared_dir, with_shared, with_shared-IsTree}
use dupion.Output.Shown.{IsMember, Printed, print_group-Printed}

abbrev shown_file : VfsEntry
shown_file = record {
  path = root_dir ∷ normal (b'a' ∷ []) ∷ [];
  plc = b'a' ∷ [];
  ctime = some 1;
  file_size = some 10;
  dir_size = none;
  file_hash = some (7 ∷ []);
  dir_hash = none;
  childs = [];
  valid = true;
  is_file = true;
  is_dir = false;
  was_file = false;
  was_dir = false;
  file_shadowed = false;
  dir_shadowed = false;
  unique = false;
  disp_relevated = false;
  failure = none;
  treediff_stat = 0;
  dedup_state = none;
  phys = some 4096;
  n_extends = some 1;
}

abbrev two_files : Vfs
two_files = record { entries = shown_file ∷ record shown_file { file_shadowed = true } ∷ [] }

abbrev pair_of_files : HashGroup
pair_of_files = record { entries = (file, 0) ∷ (file, 1) ∷ []; size = 10; hash = 7 ∷ [] }

abbrev hiding : Opts
hiding = record {
  paths = (root_dir ∷ []) ∷ [];
  cache_path = [];
  verbose = false;
  shadow_rule = 2;
  force_absolute_paths = false;
  read_buffer = 1024;
  cache_dropbehind = false;
  prefetch_budget = 65536;
  dedup_budget = 65536;
  threads = 1;
  pass_1_hash = false;
  archive_cache_mem = 0;
  dir_prefetch = false;
  read_archives = false;
  scan_size_min = 0;
  scan_size_max = 100;
  aggressive_dedup = false;
  dedup_simulate = true;
}

two_files-IsMember : IsMember hiding two_files 10 (file, 0) × IsMember hiding two_files 10 (file, 1)
unfolding utf8_from strip_prefix component_eq
two_files-IsMember = (
  (shown_file, refl, λ h. (refl, refl, refl)),
  (record shown_file { file_shadowed = true }, refl, λ h. (refl, refl, refl)),
)

print_group-Printed_example : Printed two_files hiding pair_of_files
print_group-Printed_example =
    print_group-Printed two_files hiding pair_of_files
      (two_files-IsMember.0, (two_files-IsMember.1, tt)) (omega arith)

-- A directory with a small and a large file, neither hashed yet.
abbrev large_file : VfsEntry
large_file = record shown_file { file_hash = none; file_size = some 20 }

abbrev unhashed_file : VfsEntry
unhashed_file = record shown_file { file_hash = none }

abbrev a_dir : VfsEntry
a_dir = record unhashed_file { is_file = false; is_dir = true; childs = 1 ∷ 2 ∷ [] }

abbrev dir_state : State
dir_state = record {
  tree = record { entries = a_dir ∷ unhashed_file ∷ large_file ∷ [] };
  sizes = [];
  hashes = [];
  cache_allowed = true;
  disp = record {
    found_bytes = 0;
    found_files = 0;
    relevant_bytes = 0;
    relevant_files = 0;
    processed_bytes = 0;
    processed_files = 0;
    deduped_bytes = 0;
  };
}

-- `/` and `/a` as roots.
two_roots : AreRoots with_shared.tree (1 ∷ 2 ∷ [])
two_roots = (
  (shared_dir, (refl, refl, (tt, tt))),
  ((sample_file b'a' 0, (refl, refl, (tt, (λ h. cc, tt)))), tt),
)

find_diffs-Marked_example :
    (w : Vfs) × (find_diffs with_shared.tree (1 ∷ 2 ∷ []) ≡ ok w)
    × Marked (HasTwinUnder with_shared.tree (1 ∷ 2 ∷ [])) with_shared.tree w
find_diffs-Marked_example =
    find_diffs-Marked with_shared.tree (1 ∷ 2 ∷ []) with_shared-IsTree two_roots
