-- ===== src/Samples.antt =====
-- A file, options, a state of three files and one of a directory with a file, for the tests and the examples.
use dupion.Base.{
  zero, suc, refl, ◌≡◌, length, get_elem?, subst, ℕ, ◌∷◌, [], true, false, some, none, arith,
}
use dupion.FilePath.{root_dir, normal, as_os_str}
use dupion.Vfs.{VfsEntry, VfsId}
use dupion.Vfs.Tree.{IsTree, ChildsAt}
use dupion.State.{State, dir}
use dupion.State.Sound.{IsSound, IsHashed}
use dupion.Opts.{Opts}

abbrev pub sample_file : ℕ → ℕ → VfsEntry
sample_file letter phys = record {
  path = root_dir ∷ normal (letter ∷ []) ∷ [];
  plc = letter ∷ [];
  ctime = some 5;
  file_size = some 9000;
  dir_size = none;
  file_hash = none;
  dir_hash = none;
  childs = [];
  valid = true;
  is_file = true;
  is_dir = false;
  was_file = false;
  was_dir = false;
  file_shadowed = false;
  dir_shadowed = false;
  unique = false;
  disp_relevated = false;
  failure = none;
  treediff_stat = 0;
  dedup_state = none;
  phys = some phys;
  n_extends = some 1;
}

abbrev pub sample_opts : Opts
sample_opts = record {
  paths = (root_dir ∷ []) ∷ [];
  cache_path = [];
  verbose = false;
  shadow_rule = 2;
  force_absolute_paths = false;
  read_buffer = 1024;
  cache_dropbehind = false;
  prefetch_budget = 65536;
  dedup_budget = 65536;
  threads = 1;
  pass_1_hash = false;
  archive_cache_mem = 0;
  dir_prefetch = false;
  read_archives = false;
  scan_size_min = 0;
  scan_size_max = 100000;
  aggressive_dedup = false;
  dedup_simulate = false;
}

abbrev pub three_files : State
three_files = record {
  tree = record {
    entries = sample_file b'a' 4096 ∷ sample_file b'b' 8192 ∷ sample_file b'c' 0 ∷ [];
  };
  sizes = [];
  hashes = [];
  cache_allowed = true;
  disp = record {
    found_bytes = 0;
    found_files = 0;
    relevant_bytes = 0;
    relevant_files = 0;
    processed_bytes = 0;
    processed_files = 0;
    deduped_bytes = 0;
  };
}

-- The state before the walk: the root alone.
abbrev pub top_dir : VfsEntry
top_dir = record (sample_file 0 0) {
  path = [];
  plc = [];
  file_size = none;
  is_file = false;
  is_dir = true;
}

abbrev pub before_walk : State
before_walk = record three_files { tree = record { entries = top_dir ∷ [] } }

-- The only entry.
only_top :
    (P : VfsEntry → Type 0)
    → P top_dir
    → (id : VfsId) (e : VfsEntry) → get_elem? (top_dir ∷ []) id ≡ some e
    → P e
only_top P h zero e found = let top_e : top_dir ≡ e = cc in subst P top_e h
only_top P h (suc id) e found = cc

pub before_walk-IsSound : IsSound length before_walk
before_walk-IsSound = record {
  tree = record {
    top = top_dir;
    root = refl;
    root_path = refl;
    childs = λ id e found. only_top (λ x. ChildsAt before_walk.tree id x) tt id e found;
  };
  hashed = λ id e found. only_top (IsHashed length) (λ h hashed. cc) id e found;
  sizes = λ k g there. cc;
  hashes = λ k g there. cc;
  filed = λ h g there. cc;
}

-- The root, a directory in it and a file in that.
abbrev pub shared_dir : VfsEntry
shared_dir = record top_dir {
  path = root_dir ∷ [];
  plc = as_os_str root_dir;
  dir_size = some 9000;
  dir_hash = some (7 ∷ []);
  childs = 2 ∷ [];
}

abbrev pub with_shared : State
with_shared = record three_files {
  tree = record {
    entries = record top_dir { childs = 1 ∷ [] } ∷ shared_dir ∷ sample_file b'a' 0 ∷ [];
  };
  hashes = (7 ∷ [], record { size = 9000; entries = (dir, 1) ∷ (dir, 8) ∷ []; hash = 7 ∷ [] }) ∷ [];
}

pub of_three :
    (P : VfsId → VfsEntry → Type 0) (a b c : VfsEntry)
    → P 0 a
    → P 1 b
    → P 2 c
    → (id : VfsId) (e : VfsEntry) → get_elem? (a ∷ b ∷ c ∷ []) id ≡ some e
    → P id e
of_three P a b c x y z zero e found = let same : a ≡ e = cc in subst (P 0) same x
of_three P a b c x y z (suc zero) e found = let same : b ≡ e = cc in subst (P 1) same y
of_three P a b c x y z (suc (suc zero)) e found = let same : c ≡ e = cc in subst (P 2) same z
of_three P a b c x y z (suc (suc (suc id))) e found = cc

top_childs : ChildsAt with_shared.tree 0 (record top_dir { childs = 1 ∷ [] })
top_childs = (
  (
    omega arith,
    record {
      entry = shared_dir;
      found = refl;
      name = root_dir;
      plain = tt;
      path = refl;
      plc = refl;
    },
  ),
  tt,
)

dir_childs : ChildsAt with_shared.tree 1 shared_dir
dir_childs = (
  (
    omega arith,
    record {
      entry = sample_file b'a' 0;
      found = refl;
      name = normal (b'a' ∷ []);
      plain = λ h. cc;
      path = refl;
      plc = refl;
    },
  ),
  tt,
)

pub with_shared-IsTree : IsTree with_shared.tree
with_shared-IsTree = record {
  top = record top_dir { childs = 1 ∷ [] };
  root = refl;
  root_path = refl;
  childs =
      of_three (λ id e. ChildsAt with_shared.tree id e) (record top_dir { childs = 1 ∷ [] })
        shared_dir (sample_file b'a' 0) top_childs dir_childs tt;
}
