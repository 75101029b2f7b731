-- ===== src/Driver/Examples.antt =====
-- The walk finds two files, and one is read and hashed. The hash of a content is the content itself.
use dupion.Base.{
  ℕ, zero, suc, refl, ◌≡◌, [], ◌∷◌, length, get_elem?, true, none, some, subst, arith,
}
use dupion.FilePath.{root_dir, normal}
use dupion.Vfs.{VfsEntry, VfsId}
use dupion.Vfs.Tree.{ChildsAt}
use dupion.State.{State, set_valid, validate}
use dupion.State.Validation.{Validated, validate-Validated}
use dupion.State.Sound.{IsSound, IsHashed, Refreshes, Gives}
use dupion.State.Revival.{set_valid-Refreshes, IsRevived}
use dupion.Driver.{Found, size_file, size_phase, chunk, interrupted, at_end, hash_file}
use dupion.Driver.Size.{SizedFile, size_file-SizedFile}
use dupion.Driver.Phase.{Phase, size_phase-Phase}
use dupion.Driver.Hashing.{HashedFile, hash_file-HashedFile}
use dupion.Samples.{
  top_dir, before_walk, before_walk-IsSound, sample_file, sample_opts, three_files,
}

abbrev found_file : ℕ → ℕ → Found
found_file letter phys = record {
  path = root_dir ∷ normal (letter ∷ []) ∷ [];
  size = 3;
  ctime = 5;
  phy_off = phys;
  n_extends = 1;
}

size_file-SizedFile_example :
    SizedFile length
      (found_file b'a' 4096)
      (record { state = before_walk; dest = []; hash_now = [] })
      (size_file
        (found_file b'a' 4096)
        (record { state = before_walk; dest = []; hash_now = [] })
        sample_opts)
size_file-SizedFile_example =
    size_file-SizedFile (found_file b'a' 4096)
      (record { state = before_walk; dest = []; hash_now = [] }) sample_opts before_walk-IsSound
      (refl, (tt, refl, ((λ e. cc), tt, tt)))

size_phase-Phase_example :
    Phase length
      (found_file b'a' 8192 ∷ found_file b'b' 4096 ∷ [])
      (size_phase (found_file b'a' 8192 ∷ found_file b'b' 4096 ∷ []) before_walk sample_opts)
size_phase-Phase_example =
    size_phase-Phase (found_file b'a' 8192 ∷ found_file b'b' 4096 ∷ []) before_walk sample_opts
      before_walk-IsSound
      ((refl, (tt, refl, ((λ e. cc), tt, tt))), ((refl, (tt, refl, ((λ e. cc), tt, tt))), tt))

-- The root with a file below it.
abbrev with_file : VfsEntry
with_file = record top_dir { childs = 1 ∷ [] }

abbrev the_file : VfsEntry
the_file = record (sample_file 0 4096) { path = root_dir ∷ []; plc = b'/' ∷ []; file_size = some 3 }

abbrev after_walk : State
after_walk = record three_files { tree = record { entries = with_file ∷ the_file ∷ [] } }

two_entries :
    (P : VfsId → VfsEntry → Type 0)
    → P 0 with_file
    → P 1 the_file
    → (id : VfsId) (e : VfsEntry) → get_elem? (with_file ∷ the_file ∷ []) id ≡ some e
    → P id e
two_entries P h k zero e found = let top_e : with_file ≡ e = cc in subst (P 0) top_e h
two_entries P h k (suc zero) e found = let file_e : the_file ≡ e = cc in subst (P 1) file_e k
two_entries P h k (suc (suc id)) e found = cc

after_walk-IsSound : IsSound length after_walk
after_walk-IsSound = record {
  tree = record {
    top = with_file;
    root = refl;
    root_path = refl;
    childs =
        two_entries (ChildsAt after_walk.tree)
          (
            (
              omega arith,
              record {
                entry = the_file;
                found = refl;
                name = root_dir;
                plain = tt;
                path = refl;
                plc = refl;
              },
            ),
            tt,
          )
          tt;
  };
  hashed = two_entries (λ id e. IsHashed length e) (λ h hashed. cc) (λ h hashed. cc);
  sizes = λ k g there. cc;
  hashes = λ k g there. cc;
  filed = λ h g there. cc;
}

set_valid-Refreshes_example :
    Gives (set_valid after_walk 0) (λ t. Refreshes length after_walk t × IsRevived t 0)
set_valid-Refreshes_example = set_valid-Refreshes after_walk 0 after_walk-IsSound (omega arith)

hash_file-HashedFile_example : HashedFile length 1 (1 ∷ 2 ∷ 3 ∷ []) (
    hash_file
      (λ b. b)
      sample_opts
      true
      100
      after_walk
      1
      (root_dir ∷ [])
      3
      5
      (chunk (1 ∷ 2 ∷ []) ∷ interrupted ∷ chunk (3 ∷ []) ∷ at_end ∷ []))
hash_file-HashedFile_example =
    hash_file-HashedFile (λ b. b) sample_opts true 100 after_walk 1 (root_dir ∷ []) 3 5
      (chunk (1 ∷ 2 ∷ []) ∷ interrupted ∷ chunk (3 ∷ []) ∷ at_end ∷ []) (1 ∷ 2 ∷ 3 ∷ []) the_file
      after_walk-IsSound refl refl refl refl refl refl refl

validate-Validated_example : Validated length after_walk 1 3 (validate after_walk 1 5 (some 3) none)
validate-Validated_example = validate-Validated after_walk 1 5 3 after_walk-IsSound (omega arith)
