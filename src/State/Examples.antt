-- ===== src/State/Examples.antt =====
-- A file is pushed to a state without groups, and one with a hash to a state that has its group.
use dupion.Base.{subst, inl, inr, Bool-cases, refl, ◌∷◌, [], ◌≡◌, true, false, some, none}
use dupion.FilePath.{root_dir, normal, bytes_eq}
use dupion.Vfs.{VfsEntry}
use dupion.State.{State, HashGroup, file, push_to_size_group, push_to_hash_group}
use dupion.FilePath.Laws.{bytes_eq→≡}
use dupion.State.HashGroups.{
  IsHashTable, HasSize, AllDistinctIds, HashGrouped, push_to_hash_group-HashGrouped,
}
use dupion.State.Groups.{SizeGrouped, push_to_size_group-SizeGrouped}

abbrev small_file : VfsEntry
small_file = record {
  path = root_dir ∷ normal (b'a' ∷ []) ∷ [];
  plc = b'a' ∷ [];
  ctime = some 1;
  file_size = some 10;
  dir_size = none;
  file_hash = none;
  dir_hash = none;
  childs = [];
  valid = true;
  is_file = true;
  is_dir = false;
  was_file = false;
  was_dir = false;
  file_shadowed = false;
  dir_shadowed = false;
  unique = false;
  disp_relevated = false;
  failure = none;
  treediff_stat = 0;
  dedup_state = none;
  phys = some 4096;
  n_extends = some 1;
}

abbrev one_file : State
one_file = record {
  tree = record { entries = small_file ∷ [] };
  sizes = [];
  hashes = [];
  cache_allowed = true;
  disp = record {
    found_bytes = 0;
    found_files = 0;
    relevant_bytes = 0;
    relevant_files = 0;
    processed_bytes = 0;
    processed_files = 0;
    deduped_bytes = 0;
  };
}

-- One file with the hash is in the table.
abbrev hashed_file : VfsEntry
hashed_file = record small_file { file_hash = some (7 ∷ []) }

abbrev old_group : HashGroup
old_group = record { entries = (file, 5) ∷ []; size = 10; hash = 7 ∷ [] }

abbrev with_hash : State
with_hash = record one_file {
  tree = record { entries = hashed_file ∷ [] };
  hashes = (7 ∷ [], old_group) ∷ [];
}

with_hash-IsHashTable : IsHashTable with_hash.hashes
with_hash-IsHashTable k g e = elim (Bool-cases (bytes_eq (7 ∷ []) k)) [
  | inl here ↦
      let same : old_group ≡ g = let h : some old_group ≡ some g = rw here at e in cc in
      subst (λ x. (x.hash ≡ k) × AllDistinctIds x.entries) same
        (bytes_eq→≡ (7 ∷ []) k here, (refl, tt))
  | inr away ↦ let h : none ≡ some g = rw away at e in cc
]

push_to_size_group-SizeGrouped_example :
    SizeGrouped one_file 10 (file, 0) (push_to_size_group one_file 0 true false)
push_to_size_group-SizeGrouped_example =
    push_to_size_group-SizeGrouped one_file 0 10 small_file file
      (λ k g e. let no : none ≡ some g = e in cc) refl refl refl refl

with_hash-HasSize : HasSize with_hash.hashes (7 ∷ []) 10
unfolding bytes_eq
with_hash-HasSize g e = let same : old_group ≡ g = cc in subst (λ x. x.size ≡ 10) same refl

push_to_hash_group-HashGrouped_example :
    HashGrouped with_hash (7 ∷ []) 10 0 (push_to_hash_group with_hash 0 true false)
push_to_hash_group-HashGrouped_example =
    push_to_hash_group-HashGrouped with_hash 0 10 (7 ∷ []) hashed_file file with_hash-IsHashTable
      with_hash-HasSize refl refl refl refl refl
